-- ===== src/Occlude/Bounds.antt =====
-- The neighbours that the occlusion of src/index.cpp and src/utils/prune_neighbors.cpp chooses.
use ccann.Prelude.{
  ℕ, zero, suc, ◌+◌, ◌≤◌, ◌≡◌, refl, sym, subst, inl, inr, Bool, true, false, leb, ◌==◌,
  if◌then◌else◌, List, [], ◌∷◌, ◌++◌, length, take, ◌||◌, contains, count, Bool-cases, arith,
  length-append, contains-append, contains-false, count-append,
}
use ccann.Floats.{Floats, flt}
use ccann.Neighbor.{Neighbor}
use ccann.Occlude.{
  ids_of, Entry, with_factors, push_back, set_insert, sort_insert, sort_pool, occlude_rest,
  occlude_round, occlude_rounds, occlude_list, saturate,
}

module _ (F : Floats) where
  -- What both containers do with a new candidate.
  pub record Adds (add : Neighbor F → List (Neighbor F) → List (Neighbor F)) : Type 0 where
    pub grows : (p : Neighbor F) (r : List (Neighbor F)) → length (add p r) ≤ length r + 1
    pub counts :
        (k : ℕ) (p : Neighbor F) (r : List (Neighbor F))
        → count k (ids_of F (add p r)) ≤ count k (ids_of F r) + (if k == p.id then 1 else 0)

  push_back-length :
      (p : Neighbor F) (r : List (Neighbor F)) → length (push_back F p r) ≤ length r + 1
  push_back-length p [] = omega arith
  push_back-length p (q ∷ r) = ground (arith, push_back-length p r)

  push_back-count :
      (k : ℕ) (p : Neighbor F) (r : List (Neighbor F))
      → count k (ids_of F (push_back F p r)) ≤ count k (ids_of F r) + (if k == p.id then 1 else 0)
  push_back-count k p [] = ground arith
  push_back-count k p (q ∷ r) = ground (arith, push_back-count k p r)

  pub push_back-Adds : Adds (push_back F)
  push_back-Adds = record { grows = push_back-length; counts = push_back-count }

  set_insert-length :
      (p : Neighbor F) (r : List (Neighbor F)) → length (set_insert F p r) ≤ length r + 1
  unfolding set_insert
  set_insert-length p [] = omega arith
  set_insert-length p (q ∷ r) = ground (arith, set_insert-length p r)

  set_insert-count :
      (k : ℕ) (p : Neighbor F) (r : List (Neighbor F))
      → count k (ids_of F (set_insert F p r)) ≤ count k (ids_of F r) + (if k == p.id then 1 else 0)
  unfolding set_insert
  set_insert-count k p [] = ground arith
  set_insert-count k p (q ∷ r) = ground (arith, set_insert-count k p r)

  pub set_insert-Adds : Adds (set_insert F)
  set_insert-Adds = record { grows = set_insert-length; counts = set_insert-count }

  module _ (dist : ℕ → ℕ → F.Float) (add : Neighbor F → List (Neighbor F) → List (Neighbor F))
      (adds : Adds add) (alpha : F.Float) (below_max : flt F alpha F.max_float ≡ true)
      (degree maxc : ℕ) where
    -- How often an id stands among the candidates that can still be chosen.
    abbrev open_count : ℕ → List (Entry F) → ℕ
    open_count k [] = 0
    open_count k ((p, f) ∷ entries) =
        (if flt F alpha f then 0 else if k == p.id then 1 else 0) + open_count k entries

    occlude_rest-open :
        (k : ℕ) (p : Neighbor F) (n : ℕ) (entries : List (Entry F))
        → open_count k (occlude_rest F dist add alpha degree maxc p n entries)
          ≤ open_count k entries
    unfolding occlude_rest
    occlude_rest-open k p zero entries = omega arith
    occlude_rest-open k p (suc n) [] = omega arith
    occlude_rest-open k p (suc n) ((q, f) ∷ entries) =
        ground (arith, occlude_rest-open k p n entries)

    occlude_round-length :
        (cur_alpha : F.Float) (n : ℕ) (result : List (Neighbor F)) (entries : List (Entry F))
        → length result ≤ degree
        → length (occlude_round F dist add alpha degree maxc cur_alpha n result entries).0 ≤ degree
    unfolding occlude_round
    occlude_round-length cur_alpha zero result entries h = h
    occlude_round-length cur_alpha (suc n) result [] h = h
    occlude_round-length cur_alpha (suc n) result ((p, f) ∷ entries) h =
        let skip = flt F cur_alpha f in
        let rest =
          occlude_round-length cur_alpha n (if skip then result else add p result)
            (if skip then entries else occlude_rest F dist add alpha degree maxc p n entries) in
        ground (arith, rest, adds.grows p result)

    occlude_round-count :
        (k : ℕ) (cur_alpha : F.Float) (n : ℕ) (result : List (Neighbor F))
        (entries : List (Entry F))
        → flt F alpha cur_alpha ≡ false
        → let (chosen, left) =
            occlude_round F dist add alpha degree maxc cur_alpha n result entries in
          count k (ids_of F chosen) + open_count k left
          ≤ count k (ids_of F result) + open_count k entries
    unfolding occlude_round
    occlude_round-count k cur_alpha zero result entries h = omega arith
    occlude_round-count k cur_alpha (suc n) result [] h = omega arith
    occlude_round-count k cur_alpha (suc n) result ((p, f) ∷ entries) h =
        let after = occlude_rest F dist add alpha degree maxc p n entries in
        elim (Bool-cases (flt F cur_alpha f)) [
          | inl e ↦ ground (arith, occlude_round-count k cur_alpha n result entries h)
          | inr e ↦ ground (
            arith,
            occlude_round-count k cur_alpha n (add p result) after h,
            occlude_rest-open k p n entries,
            adds.counts k p result,
          )
        ]

    occlude_rounds-length :
        (fuel : ℕ) (cur_alpha : F.Float) (result : List (Neighbor F)) (entries : List (Entry F))
        → length result ≤ degree
        → length (occlude_rounds F dist add alpha degree maxc fuel cur_alpha result entries)
          ≤ degree
    unfolding occlude_rounds
    occlude_rounds-length zero cur_alpha result entries h = h
    occlude_rounds-length (suc fuel) cur_alpha result entries h =
        let (chosen, left) =
          occlude_round F dist add alpha degree maxc cur_alpha maxc result entries in
        let one = occlude_round-length cur_alpha maxc result entries h in
        ground (arith, occlude_rounds-length fuel (F.mul cur_alpha F.growth) chosen left one)

    occlude_rounds-count :
        (k fuel : ℕ) (cur_alpha : F.Float) (result : List (Neighbor F)) (entries : List (Entry F))
        → count k
            (ids_of F (occlude_rounds F dist add alpha degree maxc fuel cur_alpha result entries))
          ≤ count k (ids_of F result) + open_count k entries
    unfolding occlude_rounds
    occlude_rounds-count k zero cur_alpha result entries = omega arith
    occlude_rounds-count k (suc fuel) cur_alpha result entries =
        let (chosen, left) =
          occlude_round F dist add alpha degree maxc cur_alpha maxc result entries in
        let rest = occlude_rounds-count k fuel (F.mul cur_alpha F.growth) chosen left in
        elim (Bool-cases (flt F alpha cur_alpha)) [
          | inl e ↦ ground arith
          | inr e ↦ ground (arith, rest, occlude_round-count k cur_alpha maxc result entries e)
        ]

    open-with_factors :
        (k : ℕ) (pool : List (Neighbor F))
        → open_count k (with_factors F pool) ≤ count k (ids_of F pool)
    open-with_factors k [] = omega arith
    open-with_factors k (p ∷ pool) = ground (arith, open-with_factors k pool)

    -- The occlusion chooses at most `degree` candidates, each no more often than it stands in the pool.
    pub occlude_list-length :
        (fuel : ℕ) (pool : List (Neighbor F))
        → length (occlude_list F dist add alpha degree maxc fuel pool) ≤ degree
    unfolding occlude_list
    occlude_list-length fuel pool =
        occlude_rounds-length fuel F.one_float [] (with_factors F pool) (omega arith)

    pub occlude_list-count :
        (k fuel : ℕ) (pool : List (Neighbor F))
        → count k (ids_of F (occlude_list F dist add alpha degree maxc fuel pool))
          ≤ count k (ids_of F pool)
    unfolding occlude_list
    occlude_list-count k fuel pool = omega (
      arith,
      occlude_rounds-count k fuel F.one_float [] (with_factors F pool),
      open-with_factors k pool,
    )

  sort_insert-count :
      (k : ℕ) (p : Neighbor F) (pool : List (Neighbor F))
      → count k (ids_of F (sort_insert F p pool))
        ≡ (if k == p.id then 1 else 0) + count k (ids_of F pool)
  unfolding sort_insert
  sort_insert-count k p [] = refl
  sort_insert-count k p (q ∷ pool) = ground (arith, sort_insert-count k p pool)

  -- Sorting keeps the candidates.
  pub sort_pool-count :
      (k : ℕ) (pool : List (Neighbor F))
      → count k (ids_of F (sort_pool F pool)) ≡ count k (ids_of F pool)
  unfolding sort_pool
  sort_pool-count k [] = refl
  sort_pool-count k (p ∷ pool) =
      omega (arith, sort_insert-count k p (sort_pool F pool), sort_pool-count k pool)

  -- What filling up leaves: at most `range` neighbours, none that is left out, none twice, none
  -- that was not there or in the pool.
  pub record Filled (left_out : ℕ → Bool) (range : ℕ) (before after pool : List ℕ) : Type 0 where
    pub bound : length after ≤ range
    pub inside : (k : ℕ) → contains k after ≡ true → (contains k before || contains k pool) ≡ true
    pub once : (k : ℕ) → count k after ≤ 1
    pub allowed : (k : ℕ) → left_out k ≡ true → contains k after ≡ false

  pub saturate-Filled :
      (left_out : ℕ → Bool) (range : ℕ) (pruned : List ℕ) (pool : List (Neighbor F))
      → length pruned ≤ range
      → ((k : ℕ) → count k pruned ≤ 1)
      → ((k : ℕ) → left_out k ≡ true → contains k pruned ≡ false)
      → Filled left_out range pruned (saturate F left_out range pruned pool) (ids_of F pool)
  unfolding saturate
  saturate-Filled left_out range pruned [] a b c = record {
    bound = a;
    inside = λ k h. ground arith;
    once = b;
    allowed = c;
  }
  saturate-Filled left_out range pruned (p ∷ pool) a b c =
      let add = pruned ++ (p.id ∷ []) in
      let stop = leb range (length pruned) in
      elim (Bool-cases stop) [
        | inl full ↦
            let result : saturate F left_out range pruned (p ∷ pool) ≡ pruned = rw full refl in
            subst (λ r. Filled left_out range pruned r (ids_of F (p ∷ pool))) (sym result)
              (record { bound = a; inside = λ k h. ground arith; once = b; allowed = c })
        | inr room ↦ elim (Bool-cases (contains p.id pruned || left_out p.id)) [
          | inl skip ↦
              let result : saturate F left_out range pruned (p ∷ pool)
                  ≡ saturate F left_out range pruned pool =
                rw (saturate, room, skip) refl in
              let rest = saturate-Filled left_out range pruned pool a b c in
              subst (λ r. Filled left_out range pruned r (ids_of F (p ∷ pool))) (sym result)
                (record {
                  bound = rest.bound;
                  inside = λ k h. ground (arith, rest.inside k h);
                  once = rest.once;
                  allowed = rest.allowed;
                })
          | inr take ↦
              let result : saturate F left_out range pruned (p ∷ pool)
                  ≡ saturate F left_out range add pool =
                rw (saturate, room, take) refl in
              let fresh : contains p.id pruned ≡ false = ground arith in
              let rest =
                saturate-Filled left_out range add pool
                  (ground (arith, length-append pruned (p.id ∷ [])))
                  (λ k.
                    ground (arith, b k, count-append k pruned (p.id ∷ []), contains-false k pruned))
                  (λ k h. ground (arith, c k h, contains-append k pruned (p.id ∷ []))) in
              subst (λ r. Filled left_out range pruned r (ids_of F (p ∷ pool))) (sym result)
                (record {
                  bound = rest.bound;
                  inside =
                      λ k h. ground (arith, rest.inside k h, contains-append k pruned (p.id ∷ []));
                  once = rest.once;
                  allowed = rest.allowed;
                })
        ]
      ]
