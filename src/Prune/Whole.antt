-- ===== src/Prune/Whole.antt =====
-- src/utils/prune_neighbors.cpp: the neighbours of a node on disk, chosen among a pool of candidates.
use ccann.Prelude.{ℕ, ◌+◌, ◌*◌, ◌/◌, false, ltb, ◌==◌, if◌then◌else◌, List, [], ◌∷◌, length, ◌&&◌}
use ccann.Floats.{Floats, flt}
use ccann.Neighbor.{Neighbor}
use ccann.Occlude.{ids_of, set_insert, sort_pool, occlude_list, saturate}

-- `alpha`, `range` and `maxc` are fields of the index. `pq_dist` stands for `compute_pq_dists`, and
-- `dist` for the distance of two coordinates of `coord_map`; `fuel` bounds the rounds.
module _ (F : Floats) (alpha : F.Float) (range maxc fuel : ℕ) where
  unfoldable pub occlude_list_pq : (ℕ → ℕ → F.Float) → List (Neighbor F) → List (Neighbor F)
  unfolding occlude_list
  occlude_list_pq pq_dist pool =
      occlude_list F (λ t p. pq_dist p t) (set_insert F) alpha range maxc fuel pool

  unfoldable pub occlude_list_coords : (ℕ → ℕ → F.Float) → List (Neighbor F) → List (Neighbor F)
  unfolding occlude_list
  occlude_list_coords dist pool = occlude_list F dist (set_insert F) alpha range maxc fuel pool

  -- `if (alpha > 1)`: candidates that were not chosen fill the list.
  unfoldable pub fill_up : List ℕ → List (Neighbor F) → List ℕ
  unfolding saturate
  fill_up pruned pool =
      if flt F F.one_float alpha then saturate F (λ k. false) range pruned pool else pruned

  -- An empty pool leaves `pruned_list` as it is.
  unfoldable pub prune_neighbors_pq : (ℕ → ℕ → F.Float) → List (Neighbor F) → List ℕ → List ℕ
  unfolding occlude_list_pq fill_up
  prune_neighbors_pq pq_dist pool pruned_list =
      if length pool == 0
      then pruned_list
      else fill_up (ids_of F (occlude_list_pq pq_dist pool)) pool

  -- The loop over the result from index i: the medoid is left out behind the threshold.
  unfoldable pub without_late_medoid : ℕ → ℕ → ℕ → List (Neighbor F) → List ℕ
  without_late_medoid medoid threshold i [] = []
  without_late_medoid medoid threshold i (p ∷ result) =
      let rest = without_late_medoid medoid threshold (i + 1) result in
      if ltb threshold i && (p.id == medoid) then rest else p.id ∷ rest

  unfoldable pub prune_neighbors : ℕ → (ℕ → ℕ → F.Float) → List (Neighbor F) → List ℕ → List ℕ
  unfolding occlude_list_coords fill_up without_late_medoid
  prune_neighbors medoid dist pool pruned_list =
      let sorted = sort_pool F pool in
      let result = occlude_list_coords dist sorted in
      let pruned = without_late_medoid medoid (length result * 3 / 4) 0 result in
      if length pool == 0 then pruned_list else fill_up pruned sorted
