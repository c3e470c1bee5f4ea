-- ===== src/Prune/Degree.antt =====
-- The neighbours that src/utils/prune_neighbors.cpp leaves a node: how many, which, and none twice.
use ccann.Prelude.{
  ℕ, suc, ◌+◌, ◌*◌, ◌/◌, ◌≤◌, ◌<◌, ◌≡◌, refl, ap, inl, inr, true, false, ◌==◌, List, [], ◌∷◌,
  length, contains, count, Bool-cases, arith, contains-count,
}
use ccann.Floats.{Floats, flt}
use ccann.Neighbor.{Neighbor}
use ccann.Occlude.{ids_of, set_insert, sort_pool, occlude_list}
use ccann.Occlude.Bounds.{
  set_insert-Adds, occlude_list-length, occlude_list-count, sort_pool-count, saturate-Filled,
}
use ccann.Prune.Whole.{
  occlude_list_pq, occlude_list_coords, fill_up, prune_neighbors_pq, without_late_medoid,
  prune_neighbors,
}

module _ (F : Floats) (alpha : F.Float) (range maxc fuel : ℕ)
    (below_max : flt F alpha F.max_float ≡ true) where
  -- Neighbours of a node that come from a pool.
  pub record Selected (pool links : List ℕ) : Type 0 where
    pub bound : length links ≤ range
    pub inside : (k : ℕ) → contains k links ≡ true → contains k pool ≡ true
    pub once : (k : ℕ) → count k links ≤ 1

  length-ids_of : (pool : List (Neighbor F)) → length (ids_of F pool) ≡ length pool
  length-ids_of [] = refl
  length-ids_of (p ∷ pool) = ap suc (length-ids_of pool)

  fill_up-Selected :
      (pruned : List ℕ) (pool : List (Neighbor F))
      → length pruned ≤ range
      → ((k : ℕ) → count k pruned ≤ count k (ids_of F pool))
      → ((k : ℕ) → count k (ids_of F pool) ≤ 1)
      → Selected (ids_of F pool) (fill_up F alpha range maxc fuel pruned pool)
  unfolding fill_up
  fill_up-Selected pruned pool few sub once =
      let full =
        saturate-Filled F (λ k. false) range pruned pool few (λ k. omega (arith, sub k, once k))
          (λ k e. absurd (cc e)) in
      elim (Bool-cases (flt F F.one_float alpha)) [
        | inl on ↦ rw on (record {
          bound = full.bound;
          inside = λ k e. elim (Bool-cases (contains k pruned)) [
            | inl a ↦ contains-count k pruned (ids_of F pool) (sub k) a
            | inr b ↦ ground (arith, full.inside k e)
          ];
          once = full.once;
        })
        | inr off ↦ rw off (record {
          bound = few;
          inside = λ k e. contains-count k pruned (ids_of F pool) (sub k) e;
          once = λ k. omega (arith, sub k, once k);
        })
      ]

  without_late_medoid-length :
      (medoid threshold i : ℕ) (result : List (Neighbor F))
      → length (without_late_medoid F alpha range maxc fuel medoid threshold i result)
        ≤ length result
  unfolding without_late_medoid
  without_late_medoid-length medoid threshold i [] = omega arith
  without_late_medoid-length medoid threshold i (p ∷ result) =
      ground (arith, without_late_medoid-length medoid threshold (i + 1) result)

  without_late_medoid-count :
      (medoid threshold i k : ℕ) (result : List (Neighbor F))
      → count k (without_late_medoid F alpha range maxc fuel medoid threshold i result)
        ≤ count k (ids_of F result)
  unfolding without_late_medoid
  without_late_medoid-count medoid threshold i k [] = omega arith
  without_late_medoid-count medoid threshold i k (p ∷ result) =
      ground (arith, without_late_medoid-count medoid threshold (i + 1) k result)

  -- With alpha below the largest float, and on a pool that is not empty and has no id twice, both
  -- prunings of a whole neighbourhood, by product quantization and by coordinates, leave at most
  -- `range` neighbours, each of them a candidate of the pool and none of them twice.
  pub prune_neighbors-Selected :
      (medoid : ℕ) (dist pq_dist : ℕ → ℕ → F.Float) (pool : List (Neighbor F)) (old : List ℕ)
      → 0 < length pool
      → ((k : ℕ) → count k (ids_of F pool) ≤ 1)
      → Selected (ids_of F pool) (prune_neighbors_pq F alpha range maxc fuel pq_dist pool old)
        × Selected (ids_of F pool) (prune_neighbors F alpha range maxc fuel medoid dist pool old)
  unfolding prune_neighbors_pq prune_neighbors occlude_list_pq occlude_list_coords
  prune_neighbors-Selected medoid dist pq_dist pool old some_left once =
      let there : (length pool == 0) ≡ false = ground arith in
      let adds = set_insert-Adds F in
      let sorted = sort_pool F pool in
      let by_pq : ℕ → ℕ → F.Float = λ t p. pq_dist p t in
      let near = occlude_list F by_pq (set_insert F) alpha range maxc fuel pool in
      let exact = occlude_list F dist (set_insert F) alpha range maxc fuel sorted in
      let kept =
        without_late_medoid F alpha range maxc fuel medoid (length exact * 3 / 4) 0 exact in
      let same : (k : ℕ) → count k (ids_of F sorted) ≡ count k (ids_of F pool) =
        λ k. sort_pool-count F k pool in
      let a =
        fill_up-Selected (ids_of F near) pool
          (omega (
            arith,
            length-ids_of near,
            occlude_list-length F by_pq (set_insert F) adds alpha below_max range maxc fuel pool,
          ))
          (λ k.
            occlude_list-count F by_pq (set_insert F) adds alpha below_max range maxc k fuel pool)
          once in
      let b =
        fill_up-Selected kept sorted
          (omega (
            arith,
            without_late_medoid-length medoid (length exact * 3 / 4) 0 exact,
            occlude_list-length F dist (set_insert F) adds alpha below_max range maxc fuel sorted,
          ))
          (λ k. omega (
            arith,
            without_late_medoid-count medoid (length exact * 3 / 4) 0 k exact,
            occlude_list-count F dist (set_insert F) adds alpha below_max range maxc k fuel sorted,
          ))
          (λ k. omega (arith, once k, same k)) in
      (
        rw there a,
        rw there (record {
          bound = b.bound;
          inside = λ k e.
              contains-count k (ids_of F sorted) (ids_of F pool) (omega (arith, same k))
                (b.inside k e);
          once = b.once;
        }),
      )
