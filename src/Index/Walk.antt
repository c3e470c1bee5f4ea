-- ===== src/Index/Walk.antt =====
-- src/index.cpp: the greedy walk over the graph of the index in memory.
use ccann.Prelude.{
  ℕ, zero, suc, ◌+◌, ◌-◌, Bool, true, false, not, ltb, leb, ◌==◌, if◌then◌else◌, Option, none, some,
  List, [], ◌∷◌, ◌++◌, length, get_or, set, take, drop, ◌&&◌, ◌||◌,
}
use ccann.Floats.{Floats, flt}
use ccann.RobinSet.{RobinSet}
use ccann.Neighbor.{Neighbor, insert_into_pool}
use ccann.Occlude.{sort_pool}
use ccann.Index.{Index, row}

-- What a walk knows: the array `best_L_nodes` and the number l of its entries, the ids that were
-- met, the nodes that were expanded, and the number of distances that were computed.
pub record Walk (S : RobinSet) (F : Floats) : Type 0 where
  pub best : List (Neighbor F)
  pub l : ℕ
  pub inserted_into_pool : S.Set
  pub expanded_nodes_info : List (Neighbor F)
  pub expanded_nodes_ids : S.Set
  pub cmps : ℕ

-- A loop that runs on fuel: it ends, or stops in `crash()` or in an assert, or is not at its end yet.
pub data Outcome {ℓ} (A : Type ℓ) : Type ℓ where
  finished : A → Outcome A
  crashed : Outcome A
  out_of_fuel : Outcome A

module _ (S : RobinSet) (F : Floats) (V : Type 0) (compare : V → V → F.Float) where
  -- An entry of the resized array: the id is 0, the flags are off.
  abbrev pub blank : Neighbor F
  blank = record { id = 0; distance = F.max_float; flag = false; visited = false }

  abbrev pub blanks : ℕ → List (Neighbor F)
  blanks zero = []
  blanks (suc n) = blank ∷ blanks n

  abbrev pub entry : List (Neighbor F) → ℕ → Neighbor F
  entry best k = get_or best k blank

  -- A `Neighbor(id, distance, true)` of the point that is looked for.
  abbrev pub met : Index S V → V → ℕ → Neighbor F
  met i node_coords id = record {
    id = id;
    distance = compare node_coords (i.data_at id);
    flag = true;
    visited = false;
  }

  -- The loop over `init_ids`; none for its assert on an id.
  unfoldable pub start_walk : Index S V → V → ℕ → List ℕ → Walk S F → Option (Walk S F)
  start_walk i node_coords l_size [] w = some w
  start_walk i node_coords l_size (id ∷ init_ids) w =
      let known = S.find w.inserted_into_pool id in
      let added = record w {
        best =
            set w.best w.l
              (record (met i node_coords id) { distance = compare (i.data_at id) node_coords });
        l = w.l + 1;
        inserted_into_pool = S.insert w.inserted_into_pool id;
      } in
      let next = if known then w else added in
      let rest = start_walk i node_coords l_size init_ids next in
      if ltb id (i.max_points + i.num_frozen_pts)
      then (if next.l == l_size then some next else rest)
      else none

  -- `std::sort(best_L_nodes.begin(), best_L_nodes.begin() + l)`
  abbrev pub sort_first : ℕ → List (Neighbor F) → List (Neighbor F)
  sort_first l best = sort_pool F (take l best) ++ drop l best

  -- The array after `InsertIntoPool` on its first l entries.
  abbrev pub array_after : List (Neighbor F) → List (Neighbor F) → List (Neighbor F)
  array_after pool best = pool ++ drop (length pool) best

  -- One neighbour of the node that is expanded; nk is the least index of an insertion.
  unfoldable pub visit : Index S V → V → ℕ → ℕ → ℕ × Walk S F → ℕ × Walk S F
  visit i node_coords l_size id (nk, w) =
      let nn = met i node_coords id in
      let seen = record w {
        inserted_into_pool = S.insert w.inserted_into_pool id;
        cmps = w.cmps + 1;
      } in
      let placed = insert_into_pool F (take w.l w.best) nn in
      let too_far = not (flt F nn.distance (entry w.best (w.l - 1)).distance) && (w.l == l_size) in
      let inserted = record seen {
        best = array_after placed.1 w.best;
        l = if ltb w.l l_size then w.l + 1 else w.l;
      } in
      if S.find w.inserted_into_pool id
      then (nk, w)
      else if too_far
      then (nk, seen)
      else ((if ltb placed.0 nk then placed.0 else nk), inserted)

  unfoldable pub visit_all : Index S V → V → ℕ → List ℕ → ℕ × Walk S F → ℕ × Walk S F
  unfolding visit
  visit_all i node_coords l_size [] state = state
  visit_all i node_coords l_size (id ∷ des) state =
      visit_all i node_coords l_size des (visit i node_coords l_size id state)

  -- The test for ids past the frozen point.
  abbrev pub wrong_id : ℕ → List ℕ → Bool
  wrong_id limit [] = false
  wrong_id limit (id ∷ des) = leb limit id || wrong_id limit des

  -- The entry at k is expanded: its flag is off, and it joins the expanded nodes unless it is the
  -- frozen point and that is not to be returned.
  unfoldable pub mark_expanded : Index S V → Bool → ℕ → Walk S F → Walk S F
  mark_expanded i ret_frozen k w =
      let nn = record (entry w.best k) { flag = false } in
      let off = record w { best = set w.best k nn } in
      if (nn.id == i.ep) && ltb 0 i.num_frozen_pts && not ret_frozen then off else record off {
        expanded_nodes_info = w.expanded_nodes_info ++ (nn ∷ []);
        expanded_nodes_ids = S.insert w.expanded_nodes_ids nn.id;
      }

  abbrev pub next_k : ℕ → ℕ → ℕ
  next_k nk k = if leb nk k then nk else k + 1

  -- `while (k < l)`. The links are read only when the entry at k is still to be expanded.
  unfoldable pub walk_from : Index S V → V → ℕ → Bool → ℕ → ℕ → Walk S F → Outcome (Walk S F)
  unfolding mark_expanded visit_all
  walk_from i node_coords l_size ret_frozen zero k w = out_of_fuel
  walk_from i node_coords l_size ret_frozen (suc fuel) k w =
      let fresh = (entry w.best k).flag in
      let des = row i.final_graph (entry w.best k).id in
      let expanded = visit_all i node_coords l_size des (w.l, mark_expanded i ret_frozen k w) in
      let rest =
        walk_from i node_coords l_size ret_frozen fuel
          (if fresh then next_k expanded.0 k else k + 1) (if fresh then expanded.1 else w) in
      if leb w.l k
      then finished w
      else if fresh && wrong_id (i.max_points + i.num_frozen_pts) des
      then crashed
      else rest

  unfoldable pub iterate_to_fixed_point : Index S V → V → ℕ → List ℕ → Bool → ℕ → Outcome (Walk S F)
  unfolding start_walk walk_from
  iterate_to_fixed_point i node_coords l_size init_ids ret_frozen fuel =
      let before : Walk S F = record {
        best = blanks (l_size + 1);
        l = 0;
        inserted_into_pool = S.empty;
        expanded_nodes_info = [];
        expanded_nodes_ids = S.empty;
        cmps = 0;
      } in
      elim (start_walk i node_coords l_size init_ids before) [
        | none ↦ crashed
        | some started ↦
            walk_from i node_coords l_size ret_frozen fuel 0
              (record started { best = sort_first started.l started.best })
      ]

  -- The walk from the entry point to an indexed node.
  unfoldable pub get_expanded_nodes : Index S V → ℕ → ℕ → List ℕ → ℕ → Outcome (Walk S F)
  unfolding iterate_to_fixed_point
  get_expanded_nodes i node_id l_index init_ids fuel =
      let ids : List ℕ = if length init_ids == 0 then i.ep ∷ [] else init_ids in
      iterate_to_fixed_point i (i.data_at node_id) l_index ids true fuel

  -- The loop of `search_with_tags_fast`, which keeps no expanded nodes and does not test the ids.
  unfoldable pub walk_fast : Index S V → V → ℕ → ℕ → ℕ → Walk S F → Outcome (Walk S F)
  unfolding visit_all
  walk_fast i node_coords l_size zero k w = out_of_fuel
  walk_fast i node_coords l_size (suc fuel) k w =
      let nn = entry w.best k in
      let off = record w { best = set w.best k (record nn { flag = false }) } in
      let expanded = visit_all i node_coords l_size (row i.final_graph nn.id) (w.l, off) in
      let rest =
        walk_fast i node_coords l_size fuel (if nn.flag then next_k expanded.0 k else k + 1)
          (if nn.flag then expanded.1 else w) in
      if leb w.l k then finished w else rest
