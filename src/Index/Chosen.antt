-- ===== src/Index/Chosen.antt =====
-- src/index.cpp: prune_neighbors chooses at least one link.
use ccann.Prelude.{
  ℕ, zero, suc, ◌≤◌, ◌<◌, ◌≡◌, refl, inl, inr, Bool, true, false, leb, ◌==◌, ◌||◌, ◌&&◌, ◌∷◌, [],
  List, length, contains, count, Bool-cases, arith, length-append, ◌++◌, contains-count,
}
use ccann.Floats.{Floats, flt}
use ccann.RobinSet.{RobinSet}
use ccann.Neighbor.{Neighbor}
use ccann.Occlude.{
  ids_of, Entry, with_factors, push_back, sort_pool, sort_insert, occlude_rest, occlude_round,
  occlude_rounds, occlude_list, saturate,
}
use ccann.Occlude.Bounds.{push_back-Adds, occlude_list-count, sort_pool-count}
use ccann.Index.{Index}
use ccann.Index.Graph.{Parameters, dist, other_ids}
use ccann.Index.Degree.{chosen_links}

module _ (F : Floats) (d : ℕ → ℕ → F.Float) (alpha : F.Float) (degree maxc : ℕ) where
  length-push_back :
      (p : Neighbor F) (result : List (Neighbor F))
      → length (push_back F p result) ≡ suc (length result)
  length-push_back p [] = refl
  length-push_back p (q ∷ result) = ground (arith, length-push_back p result)

  occlude_round-grows :
      (cur : F.Float) (n : ℕ) (result : List (Neighbor F)) (entries : List (Entry F))
      → length result
        ≤ length (occlude_round F d (push_back F) alpha degree maxc cur n result entries).0
  unfolding occlude_round
  occlude_round-grows cur zero result entries = omega arith
  occlude_round-grows cur (suc n) result [] = omega arith
  occlude_round-grows cur (suc n) result ((p, f) ∷ entries) =
      elim (Bool-cases (leb degree (length result))) [
        | inl full ↦ rw full (omega arith)
        | inr room ↦ elim (Bool-cases (flt F cur f)) [
          | inl skip ↦ rw (room, skip) (occlude_round-grows cur n result entries)
          | inr take ↦
              rw (room, take)
                (omega (
                  arith,
                  length-push_back p result,
                  occlude_round-grows cur n (push_back F p result)
                      (occlude_rest F d (push_back F) alpha degree maxc p n entries),
                ))
        ]
      ]

  occlude_rounds-grows :
      (fuel : ℕ) (cur : F.Float) (result : List (Neighbor F)) (entries : List (Entry F))
      → length result
        ≤ length (occlude_rounds F d (push_back F) alpha degree maxc fuel cur result entries)
  unfolding occlude_rounds
  occlude_rounds-grows zero cur result entries = omega arith
  occlude_rounds-grows (suc fuel) cur result entries =
      let (chosen, left) =
        occlude_round F d (push_back F) alpha degree maxc cur maxc result entries in
      elim (Bool-cases (flt F alpha cur || leb degree (length result))) [
        | inl over ↦ rw over (omega arith)
        | inr more ↦ rw more (
            omega (
              arith,
              occlude_round-grows cur maxc result entries,
              occlude_rounds-grows fuel (F.mul cur F.growth) chosen left,
            ))
      ]

  first_round :
      (cur : F.Float) (n : ℕ) (p : Neighbor F) (entries : List (Entry F))
      → flt F cur F.zero_float ≡ false
      → 0 < n
      → 0 < degree
      → 0
        < length
            (occlude_round F d
              (push_back F)
              alpha
              degree
              maxc
              cur
              n
              []
              ((p, F.zero_float) ∷ entries)).0
  unfolding occlude_round
  first_round cur zero p entries h some_n some_d = absurd (omega arith)
  first_round cur (suc n) p entries h some_n some_d =
      let room : leb degree 0 ≡ false = ground arith in
      rw (room, h)
        (omega (
          arith,
          occlude_round-grows cur n (push_back F p [])
              (occlude_rest F d (push_back F) alpha degree maxc p n entries),
        ))

  pub occlude_list-some :
      (fuel : ℕ) (pool : List (Neighbor F))
      → flt F alpha F.one_float ≡ false
      → flt F F.one_float F.zero_float ≡ false
      → 0 < fuel
      → 0 < maxc
      → 0 < degree
      → 0 < length pool
      → 0 < length (occlude_list F d (push_back F) alpha degree maxc fuel pool)
  unfolding occlude_list occlude_rounds
  occlude_list-some zero pool a b c e g h = absurd (omega arith)
  occlude_list-some (suc fuel) [] a b c e g h = absurd (omega arith)
  occlude_list-some (suc fuel) (p ∷ pool) a b c e g h =
      let room : leb degree 0 ≡ false = ground arith in
      let (chosen, left) =
        occlude_round F d (push_back F) alpha degree maxc F.one_float maxc []
          (with_factors F (p ∷ pool)) in
      rw (a, room)
        (omega (
          arith,
          first_round F.one_float maxc p (with_factors F pool) b e g,
          occlude_rounds-grows fuel (F.mul F.one_float F.growth) chosen left,
        ))

length-saturate :
    (F : Floats) (left_out : ℕ → Bool) (range : ℕ) (pruned : List ℕ) (pool : List (Neighbor F))
    → length pruned ≤ length (saturate F left_out range pruned pool)
unfolding saturate
length-saturate F left_out range pruned [] = omega arith
length-saturate F left_out range pruned (p ∷ pool) = elim (Bool-cases (leb range (length pruned))) [
  | inl full ↦ rw full (omega arith)
  | inr room ↦ elim (Bool-cases (contains p.id pruned || left_out p.id)) [
    | inl skip ↦ rw (room, skip) (length-saturate F left_out range pruned pool)
    | inr take ↦
        rw (room, take)
          (omega (
            arith,
            length-append pruned (p.id ∷ []),
            length-saturate F left_out range (pruned ++ (p.id ∷ [])) pool,
          ))
  ]
]

module _ (S : RobinSet) (F : Floats) (V : Type 0) (compare : V → V → F.Float) (fuel : ℕ)
    (params : Parameters F) (below_max : flt F params.alpha F.max_float ≡ true) where
  -- One round, at least one candidate and one link, and 0 ≤ 1 ≤ alpha.
  pub record CanChoose : Type 0 where
    pub some_rounds : 0 < fuel
    pub some_maxc : 0 < params.maxc
    pub some_range : 0 < params.range
    pub alpha_one : flt F params.alpha F.one_float ≡ false
    pub one_zero : flt F F.one_float F.zero_float ≡ false

  other_ids-all :
      (location : ℕ) (result : List (Neighbor F))
      → contains location (ids_of F result) ≡ false
      → length (other_ids S F V compare fuel params location result) ≡ length result
  unfolding other_ids
  other_ids-all location [] h = refl
  other_ids-all location (p ∷ result) h = ground (arith, other_ids-all location result)

  length-ids_of : (pool : List (Neighbor F)) → length (ids_of F pool) ≡ length pool
  length-ids_of [] = refl
  length-ids_of (p ∷ pool) = ground (arith, length-ids_of pool)

  length-sort_insert :
      (p : Neighbor F) (pool : List (Neighbor F)) → 0 < length (sort_insert F p pool)
  unfolding sort_insert
  length-sort_insert p [] = omega arith
  length-sort_insert p (q ∷ pool) = ground arith

  sort_pool-some : (pool : List (Neighbor F)) → 0 < length pool → 0 < length (sort_pool F pool)
  unfolding sort_pool
  sort_pool-some [] h = absurd (omega arith)
  sort_pool-some (p ∷ pool) h = length-sort_insert p (sort_pool F pool)

  pub chosen_links-some :
      (location : ℕ) (pool : List (Neighbor F)) (i : Index S V)
      → CanChoose
      → contains location (ids_of F pool) ≡ false
      → 0 < length pool
      → 0 < length (chosen_links S F V compare fuel params below_max location pool i)
  chosen_links-some location pool i can absent some_left =
      let sorted = sort_pool F pool in
      let d = dist S F V compare fuel params i in
      let result =
        occlude_list F d (push_back F) params.alpha params.range params.maxc fuel sorted in
      let pruned = other_ids S F V compare fuel params location result in
      let found =
        occlude_list-some F d params.alpha params.range params.maxc fuel sorted can.alpha_one
          can.one_zero can.some_rounds can.some_maxc can.some_range
          (sort_pool-some pool some_left) in
      let sub : count location (ids_of F result) ≤ count location (ids_of F pool) = omega (
        arith,
        occlude_list-count F d (push_back F) (push_back-Adds F) params.alpha below_max params.range
            params.maxc location fuel sorted,
        sort_pool-count F location pool,
      ) in
      let others : contains location (ids_of F result) ≡ false =
        elim (Bool-cases (contains location (ids_of F result))) [
          | inl there ↦
              let t = contains-count location (ids_of F result) (ids_of F pool) sub there in
              absurd (cc (t, absent))
          | inr gone ↦ gone
        ] in
      let all : 0 < length pruned = omega (arith, found, other_ids-all location result others) in
      elim (Bool-cases (i.saturate_graph && flt F F.one_float params.alpha)) [
        | inl on ↦
            rw on (
              omega (arith, all, length-saturate F (λ k. k == location) params.range pruned sorted))
        | inr off ↦ rw off all
      ]
