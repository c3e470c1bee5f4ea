-- ===== src/Index/Fast.antt =====
-- src/index.cpp: the loop of search_with_tags_fast computes what iterate_to_fixed_point computes.
use ccann.Prelude.{
  ℕ, zero, suc, ◌+◌, ◌-◌, ◌≡◌, refl, sym, ap, ◌∙◌, inl, inr, Bool, false, not, ltb, leb, ◌==◌, List,
  [], ◌∷◌, set, ◌&&◌, Bool-cases,
}
use ccann.Floats.{Floats, flt}
use ccann.RobinSet.{RobinSet}
use ccann.Index.{Index, row}
use ccann.Index.Walk.{
  Walk, Outcome, finished, crashed, out_of_fuel, entry, met, visit, visit_all, mark_expanded,
  next_k, walk_from, walk_fast,
}
use ccann.Index.Loop.{HasValidLinks}

module _ (S : RobinSet) (F : Floats) (V : Type 0) (compare : V → V → F.Float) (i : Index S V)
    (node_coords : V) (l_size : ℕ) where
  -- A walk without its expanded nodes.
  abbrev pub plain : Walk S F → Walk S F
  plain w = record w { expanded_nodes_info = []; expanded_nodes_ids = S.empty }

  abbrev pub plain_outcome : Outcome (Walk S F) → Outcome (Walk S F)
  plain_outcome (finished w) = finished (plain w)
  plain_outcome crashed = crashed
  plain_outcome out_of_fuel = out_of_fuel

  visit-plain :
      (id nk : ℕ) (w : Walk S F)
      → let (m, after) = visit S F V compare i node_coords l_size id (nk, w) in
        visit S F V compare i node_coords l_size id (nk, plain w) ≡ (m, plain after)
  unfolding visit
  visit-plain id nk w = elim (Bool-cases (S.find w.inserted_into_pool id)) [
    | inl known ↦ rw known refl
    | inr new ↦
        elim (Bool-cases (
          not (
            flt F (met S F V compare i node_coords id).distance
              (entry S F V compare w.best (w.l - 1)).distance)
          && (w.l == l_size))) [ inl far ↦ rw (new, far) refl | inr near ↦ rw (new, near) refl ]
  ]

  visit_all-plain :
      (des : List ℕ) (nk : ℕ) (w : Walk S F)
      → let (m, after) = visit_all S F V compare i node_coords l_size des (nk, w) in
        visit_all S F V compare i node_coords l_size des (nk, plain w) ≡ (m, plain after)
  unfolding visit_all
  visit_all-plain [] nk w = refl
  visit_all-plain (id ∷ des) nk w =
      let (m, after) = visit S F V compare i node_coords l_size id (nk, w) in
      ap (visit_all S F V compare i node_coords l_size des) (visit-plain id nk w)
      ∙ visit_all-plain des m after

  abbrev off_fast : ℕ → Walk S F → Walk S F
  off_fast k w = record (plain w) {
    best = set w.best k (record (entry S F V compare w.best k) { flag = false });
  }

  mark_expanded-plain :
      (ret_frozen : Bool) (k : ℕ) (w : Walk S F)
      → off_fast k w ≡ plain (mark_expanded S F V compare i ret_frozen k w)
  unfolding mark_expanded
  mark_expanded-plain ret_frozen k w =
      elim (Bool-cases
        (((entry S F V compare w.best k).id == i.ep) && ltb 0 i.num_frozen_pts && not ret_frozen)) [
          | inl e ↦ rw e refl
          | inr e ↦ rw e refl
        ]

  expand-plain :
      (ret_frozen : Bool) (k : ℕ) (w : Walk S F) (des : List ℕ)
      → let (m, after) =
          visit_all S F V compare i node_coords l_size des
            (w.l, mark_expanded S F V compare i ret_frozen k w) in
        visit_all S F V compare i node_coords l_size des (w.l, off_fast k w) ≡ (m, plain after)
  expand-plain ret_frozen k w des =
      ap (λ (x : Walk S F). visit_all S F V compare i node_coords l_size des (w.l, x))
        (mark_expanded-plain ret_frozen k w)
      ∙ visit_all-plain des w.l (mark_expanded S F V compare i ret_frozen k w)

  -- Where every link is the id of a point or of the frozen point, the loop of
  -- `search_with_tags_fast` gives round by round what `iterate_to_fixed_point` gives: the same list
  -- of candidates, the same ids met and the same number of distances; only the expanded nodes are
  -- not kept.
  pub walk_fast-walk_from :
      (ret_frozen : Bool) (fuel k : ℕ) (w : Walk S F)
      → HasValidLinks S F V compare i node_coords l_size
      → walk_fast S F V compare i node_coords l_size fuel k (plain w)
        ≡ plain_outcome (walk_from S F V compare i node_coords l_size ret_frozen fuel k w)
  unfolding walk_fast walk_from
  walk_fast-walk_from ret_frozen zero k w v = refl
  walk_fast-walk_from ret_frozen (suc fuel) k w v = elim (Bool-cases (leb w.l k)) [
    | inl over ↦ rw over refl
    | inr more ↦ elim (Bool-cases (entry S F V compare w.best k).flag) [
      | inl fresh ↦
          let nn = entry S F V compare w.best k in
          let des = row i.final_graph nn.id in
          let ok = v nn.id in
          let (m, after) =
            visit_all S F V compare i node_coords l_size des
              (w.l, mark_expanded S F V compare i ret_frozen k w) in
          let fast : walk_fast S F V compare i node_coords l_size (suc fuel) k (plain w)
              ≡ walk_fast S F V compare i node_coords l_size fuel (next_k S F V compare m k)
                  (plain after) =
            rw (walk_fast, more, fresh)
              (ap
                (λ (x : ℕ × Walk S F).
                  walk_fast S F V compare i node_coords l_size fuel (next_k S F V compare x.0 k)
                    x.1)
                (expand-plain ret_frozen k w des)) in
          let slow : walk_from S F V compare i node_coords l_size ret_frozen (suc fuel) k w
              ≡ walk_from S F V compare i node_coords l_size ret_frozen fuel
                  (next_k S F V compare m k) after =
            rw (walk_from, more, fresh, ok) refl in
          fast ∙ walk_fast-walk_from ret_frozen fuel _ after v ∙ ap plain_outcome (sym slow)
      | inr stale ↦ rw (more, stale) (walk_fast-walk_from ret_frozen fuel (k + 1) w v)
    ]
  ]
