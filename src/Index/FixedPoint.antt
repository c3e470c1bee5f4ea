-- ===== src/Index/FixedPoint.antt =====
-- src/index.cpp: the walk over the graph ends, and at its end no entry is left to expand.
use ccann.Prelude.{
  All, some, ltb, ◌==◌, true, false, ℕ, zero, suc, ◌+◌, ◌≤◌, ◌<◌, ◌≡◌, refl, ap, inl, inr, Bool,
  List, [], ◌∷◌, length, set, take, drop, Bool-cases, arith, length-append, length-take,
  length-drop, length-set,
}
use ccann.Floats.{Floats}
use ccann.RobinSet.{RobinSet}
use ccann.Neighbor.{Neighbor}
use ccann.Occlude.{sort_insert, sort_pool}
use ccann.Index.{Index}
use ccann.Index.Walk.{Walk, finished, blanks, met, start_walk, sort_first, iterate_to_fixed_point}
use ccann.Index.Rounds.{pending, unseen, limit}
use ccann.Index.Loop.{HasValidLinks, enough, Expanded, walk_from-finished}

module _ (S : RobinSet) (F : Floats) (V : Type 0) (compare : V → V → F.Float) (i : Index S V)
    (node_coords : V) (l_size : ℕ) where
  length-sort_insert :
      (p : Neighbor F) (pool : List (Neighbor F))
      → length (sort_insert F p pool) ≡ suc (length pool)
  unfolding sort_insert
  length-sort_insert p [] = refl
  length-sort_insert p (q ∷ pool) = ground (arith, length-sort_insert p pool)

  length-sort_pool : (pool : List (Neighbor F)) → length (sort_pool F pool) ≡ length pool
  unfolding sort_pool
  length-sort_pool [] = refl
  length-sort_pool (p ∷ pool) =
      omega (arith, length-sort_insert p (sort_pool F pool), length-sort_pool pool)

  pending-length : (best : List (Neighbor F)) → pending F best ≤ length best
  pending-length [] = omega arith
  pending-length (p ∷ best) = ground (arith, pending-length best)

  unseen-bound : (n : ℕ) (s : S.Set) → unseen S n s ≤ n
  unseen-bound zero s = omega arith
  unseen-bound (suc n) s = ground (arith, unseen-bound n s)

  length-blanks : (n : ℕ) → length (blanks S F V compare n) ≡ n
  length-blanks zero = refl
  length-blanks (suc n) = ap suc (length-blanks n)

  -- Ids of points or of the frozen point.
  abbrev pub AllInside : List ℕ → Type 0
  AllInside ids = All (λ id. id < i.max_points + i.num_frozen_pts) ids

  start_walk-fit :
      (init_ids : List ℕ) (w : Walk S F)
      → AllInside init_ids
      → length w.best ≡ suc l_size
      → w.l < l_size
      → (started : Walk S F) × (start_walk S F V compare i node_coords l_size init_ids w
          ≡ some started)
        × (length started.best ≡ suc l_size)
        × (started.l ≤ l_size)
  unfolding start_walk
  start_walk-fit [] w a h e = (w, refl, h, omega arith)
  start_walk-fit (id ∷ init_ids) w (b, a) h e =
      let inside : ltb id (i.max_points + i.num_frozen_pts) ≡ true = ground arith in
      let nn = record (met S F V compare i node_coords id) {
        distance = compare (i.data_at id) node_coords;
      } in
      let added : Walk S F = record w {
        best = set w.best w.l nn;
        l = w.l + 1;
        inserted_into_pool = S.insert w.inserted_into_pool id;
      } in
      let kept = length-set w.best w.l nn in
      elim (Bool-cases (S.find w.inserted_into_pool id)) [
        | inl known ↦
            let more : (w.l == l_size) ≡ false = ground arith in
            let (started, q, size, fit) = start_walk-fit init_ids w a h e in
            (started, rw (start_walk, inside, known, more) q, size, fit)
        | inr new ↦ elim (Bool-cases (w.l + 1 == l_size)) [
          | inl full ↦
              (added, rw (start_walk, inside, new, full) refl, omega (arith, kept, h), omega arith)
          | inr more ↦
              let (started, q, size, fit) =
                start_walk-fit init_ids added a (omega (arith, kept, h)) (ground arith) in
              (started, rw (start_walk, inside, new, more) q, size, fit)
        ]
      ]

  -- With room for at least one entry, where every link is the id of a point or of the frozen point
  -- and so is every initial id, and where the graph has a row for each such id, the walk ends within
  -- the given number of rounds: it does not crash and no assert fails, and at its end no entry of
  -- the list is left to expand.
  pub iterate_to_fixed_point-finished :
      (init_ids : List ℕ) (ret_frozen : Bool) (fuel : ℕ)
      → 1 ≤ l_size
      → HasValidLinks S F V compare i node_coords l_size
      → AllInside init_ids
      → length i.final_graph ≡ i.max_points + i.num_frozen_pts
      → enough S F V compare i node_coords l_size
          (i.max_points + i.num_frozen_pts + suc l_size)
          l_size
        ≤ fuel
      → (after : Walk S F) × (iterate_to_fixed_point S F V compare i node_coords l_size init_ids
            ret_frozen fuel
          ≡ finished after)
        × Expanded S F V compare i node_coords l_size after.l after
  unfolding iterate_to_fixed_point
  iterate_to_fixed_point-finished init_ids ret_frozen fuel h v a rows e =
      let before : Walk S F = record {
        best = blanks S F V compare (l_size + 1);
        l = 0;
        inserted_into_pool = S.empty;
        expanded_nodes_info = [];
        expanded_nodes_ids = S.empty;
        cmps = 0;
      } in
      let (started, began, size, fit) =
        start_walk-fit init_ids before a (omega (arith, length-blanks (l_size + 1)))
          (omega arith) in
      let sorted = sort_first S F V compare started.l started.best in
      let long : length sorted ≡ suc l_size = omega (
        arith,
        length-append (sort_pool F (take started.l started.best)) (drop started.l started.best),
        length-sort_pool (take started.l started.best),
        length-take started.l started.best (omega arith),
        length-drop started.l started.best,
        size,
        fit,
      ) in
      let (after, done, expanded) =
        walk_from-finished S F V compare i node_coords l_size ret_frozen fuel _ _ 0
          (record started { best = sorted }) v
          (record {
            size = long;
            fit = fit;
            todo = omega (
              arith,
              long,
              pending-length sorted,
              unseen-bound (limit S F V compare i node_coords l_size) started.inserted_into_pool,
            );
            ahead = omega (arith, fit);
            done = λ x k. elim k [ ];
          })
          e in
      (after, rw (iterate_to_fixed_point, began) done, expanded)
