-- ===== src/Index/Degree.antt =====
-- src/index.cpp: the number and the targets of the links after pruning and after linking back.
use ccann.Prelude.{
  ℕ, ◌≤◌, ◌<◌, ◌≡◌, refl, inl, inr, true, false, ◌==◌, if◌then◌else◌, some, List, [], ◌∷◌, length,
  ◌&&◌, contains, count, Bool-cases, ==_refl, arith, contains-count,
}
use ccann.Floats.{Floats, flt}
use ccann.RobinSet.{RobinSet}
use ccann.Neighbor.{Neighbor}
use ccann.Occlude.{ids_of, push_back, sort_pool, occlude_list, saturate}
use ccann.Occlude.Bounds.{
  push_back-Adds, occlude_list-length, occlude_list-count, sort_pool-count, saturate-Filled,
}
use ccann.Index.{Index}
use ccann.Index.Graph.{Parameters, dist, other_ids, max_width, prune_neighbors}

module _ (S : RobinSet) (F : Floats) (V : Type 0) (compare : V → V → F.Float) (fuel : ℕ)
    (params : Parameters F) (below_max : flt F params.alpha F.max_float ≡ true) where
  -- The links that are chosen for a node from a pool of candidates.
  pub record Chosen (location : ℕ) (pool : List ℕ) (links : List ℕ) : Type 0 where
    pub bound : length links ≤ params.range
    pub inside : (k : ℕ) → contains k links ≡ true → contains k pool ≡ true
    pub once : (k : ℕ) → count k links ≤ 1
    pub not_self : contains location links ≡ false

  other_ids-length :
      (location : ℕ) (result : List (Neighbor F))
      → length (other_ids S F V compare fuel params location result) ≤ length result
  unfolding other_ids
  other_ids-length location [] = omega arith
  other_ids-length location (p ∷ result) = ground (arith, other_ids-length location result)

  other_ids-count :
      (location k : ℕ) (result : List (Neighbor F))
      → count k (other_ids S F V compare fuel params location result) ≤ count k (ids_of F result)
  unfolding other_ids
  other_ids-count location k [] = omega arith
  other_ids-count location k (p ∷ result) = ground (arith, other_ids-count location k result)

  other_ids-not_self :
      (location : ℕ) (result : List (Neighbor F))
      → contains location (other_ids S F V compare fuel params location result) ≡ false
  unfolding other_ids
  other_ids-not_self location [] = refl
  other_ids-not_self location (p ∷ result) = ground (arith, other_ids-not_self location result)

  -- The links of a node, as `prune_neighbors` chooses them.
  abbrev pub chosen_links : ℕ → List (Neighbor F) → Index S V → List ℕ
  chosen_links location pool i =
      let sorted = sort_pool F pool in
      let result =
        occlude_list F (dist S F V compare fuel params i) (push_back F) params.alpha params.range
          params.maxc fuel sorted in
      let pruned = other_ids S F V compare fuel params location result in
      if i.saturate_graph && flt F F.one_float params.alpha
      then saturate F (λ k. k == location) params.range pruned sorted
      else pruned

  pub prune_neighbors_eq :
      (location : ℕ) (pool : List (Neighbor F)) (i : Index S V)
      → 0 < length pool
      → prune_neighbors S F V compare fuel params location pool i
        ≡ some (
          chosen_links location pool i,
          record i { width = max_width S F V compare fuel params i.width params.range },
        )
  unfolding prune_neighbors
  prune_neighbors_eq location pool i h =
      let there : (length pool == 0) ≡ false = ground arith in rw (prune_neighbors, there) refl

  pub chosen_links-Chosen :
      (location : ℕ) (pool : List (Neighbor F)) (i : Index S V)
      → ((k : ℕ) → count k (ids_of F pool) ≤ 1)
      → Chosen location (ids_of F pool) (chosen_links location pool i)
  chosen_links-Chosen location pool i h =
      let sorted = sort_pool F pool in
      let d = dist S F V compare fuel params i in
      let result =
        occlude_list F d (push_back F) params.alpha params.range params.maxc fuel sorted in
      let pruned = other_ids S F V compare fuel params location result in
      let few : length pruned ≤ params.range = omega (
        arith,
        other_ids-length location result,
        occlude_list-length F d (push_back F) (push_back-Adds F) params.alpha below_max params.range
            params.maxc fuel sorted,
      ) in
      let counted : (k : ℕ) → count k pruned ≤ count k (ids_of F pool) = λ k. omega (
        arith,
        other_ids-count location k result,
        occlude_list-count F d (push_back F) (push_back-Adds F) params.alpha below_max params.range
            params.maxc k fuel sorted,
        sort_pool-count F k pool,
      ) in
      let self = other_ids-not_self location result in
      let full =
        saturate-Filled F (λ k. k == location) params.range pruned sorted few
          (λ k. omega (arith, counted k, h k)) (λ k e. ground (arith, self)) in
      elim (Bool-cases (i.saturate_graph && flt F F.one_float params.alpha)) [
        | inl on ↦ rw on (record {
          bound = full.bound;
          inside = λ k e. elim (Bool-cases (contains k pruned)) [
            | inl a ↦ contains-count k pruned (ids_of F pool) (counted k) a
            | inr b ↦
                contains-count k (ids_of F sorted) (ids_of F pool)
                  (omega (arith, sort_pool-count F k pool)) (ground (arith, full.inside k e))
          ];
          once = full.once;
          not_self = full.allowed location (==_refl location);
        })
        | inr off ↦ rw off (record {
          bound = few;
          inside = λ k e. contains-count k pruned (ids_of F pool) (counted k) e;
          once = λ k. omega (arith, counted k, h k);
          not_self = self;
        })
      ]

  -- With alpha below the largest float, and on a pool of candidates that has no id twice and is not
  -- empty, `prune_neighbors` of the index in memory does not crash: it returns at most `range`
  -- links, each of them a candidate and none of them twice, and no link of the node to itself,
  -- with and without filling up, and changes nothing else but the width.
  pub prune_neighbors-Chosen :
      (location : ℕ) (pool : List (Neighbor F)) (i : Index S V)
      → ((k : ℕ) → count k (ids_of F pool) ≤ 1)
      → 0 < length pool
      → (links : List ℕ) × (prune_neighbors S F V compare fuel params location pool i
          ≡ some (
            links,
            record i { width = max_width S F V compare fuel params i.width params.range },
          ))
        × Chosen location (ids_of F pool) links
  prune_neighbors-Chosen location pool i h k = (
    chosen_links location pool i,
    prune_neighbors_eq location pool i k,
    chosen_links-Chosen location pool i h,
  )
