-- ===== src/Prune/Delta.antt =====
-- What the delta pruning of src/utils/prune_neighbors.cpp returns.
use ccann.Prelude.{
  ℕ, zero, suc, ◌+◌, ◌-◌, ◌<◌, ◌≡◌, refl, ◌⊎◌, inl, inr, true, false, ◌==◌, if◌then◌else◌, none,
  some, Option-cases, List, [], ◌∷◌, length, length-erase_at, get_or, arith, ==_refl, ap, ◌++◌,
  subst,
}
use ccann.Floats.{Floats, flt, feq}
use ccann.Prune.{
  TriangleNeighbor, ids, judge, fast_scan, fast_rounds, fast_delta_prune_neighbors_pq, occluded,
  slow_scan, finish, slow_delta_prune_neighbors_pq, delta_prune_neighbors_pq,
}

module _ (F : Floats) (alpha : F.Float) (range : ℕ) (pq_dist : ℕ → ℕ → F.Float) where
  abbrev Pool : Type 0
  Pool = List (TriangleNeighbor F)

  length-ids : (pool : Pool) → length (ids F alpha range pq_dist pool) ≡ length pool
  length-ids [] = refl
  length-ids (p ∷ pool) = ap suc (length-ids pool)

  judge-bound :
      (cur_alpha d : F.Float) (i e : ℕ) (p : TriangleNeighbor F)
      → judge F alpha range pq_dist cur_alpha d i p ≡ some e
      → (e ≡ i) ⊎ (e ≡ range)
  unfolding judge
  judge-bound cur_alpha d i e p h = ground arith

  fast_scan-bound :
      (cur_alpha d : F.Float) (i e : ℕ) (pool : Pool)
      → fast_scan F alpha range pq_dist cur_alpha d i pool ≡ some e
      → (e < i + length pool) ⊎ (e ≡ range)
  unfolding fast_scan
  fast_scan-bound cur_alpha d i e [] h = absurd (cc h)
  fast_scan-bound cur_alpha d i e (p ∷ pool) h =
      elim (Option-cases (fast_scan F alpha range pq_dist cur_alpha d (i + 1) pool)) [
        | inl absent ↦ ground (arith, judge-bound cur_alpha d i e p)
        | inr (e', found) ↦ ground (arith, fast_scan-bound cur_alpha d (i + 1) e pool)
      ]

  fast_rounds-bound :
      (fuel : ℕ) (cur_alpha d : F.Float) (e : ℕ) (pool : Pool)
      → fast_rounds F alpha range pq_dist fuel cur_alpha d pool ≡ some e
      → (e < length pool) ⊎ (e ≡ range)
  unfolding fast_rounds
  fast_rounds-bound zero cur_alpha d e pool h = absurd (cc h)
  fast_rounds-bound (suc fuel) cur_alpha d e pool h =
      elim (Option-cases (fast_scan F alpha range pq_dist cur_alpha d 0 pool)) [
        | inl absent ↦ ground (arith, fast_rounds-bound fuel (F.div cur_alpha F.growth) d e pool)
        | inr (e', found) ↦ ground (arith, fast_scan-bound cur_alpha d 0 e pool)
      ]

  occluded-bound :
      (p : TriangleNeighbor F) (t e : ℕ) (pool : Pool)
      → occluded F alpha range pq_dist p t pool ≡ some e
      → e < t + length pool
  unfolding occluded
  occluded-bound p t e [] h = absurd (cc h)
  occluded-bound p t e (q ∷ pool) h = ground (arith, occluded-bound p (t + 1) e pool)

  slow_scan-bound :
      (tgt_idx start e : ℕ) (pool : Pool)
      → slow_scan F alpha range pq_dist tgt_idx start pool ≡ some e
      → e < start + length pool
  unfolding slow_scan
  slow_scan-bound tgt_idx start e [] h = absurd (cc h)
  slow_scan-bound tgt_idx start e (p ∷ pool) h =
      elim (Option-cases (occluded F alpha range pq_dist p (start + 1) pool)) [
        | inl absent ↦ ground (arith, slow_scan-bound tgt_idx (start + 1) e pool)
        | inr (e', found) ↦
            ground (
              arith,
              slow_scan-bound tgt_idx (start + 1) e pool,
              occluded-bound p (start + 1) e pool,
            )
      ]

  length-finish :
      (pool : Pool) (e : ℕ)
      → e < length pool
      → suc (length (finish F alpha range pq_dist pool e)) ≡ length pool
  length-finish pool e h = omega (
    arith,
    length-ids pool,
    length-erase_at (ids F alpha range pq_dist pool) e (omega (arith, length-ids pool)),
  )

  slow-evicts :
      (pool : Pool) (tgt_idx : ℕ)
      → length pool ≡ range + 1
      → (e : ℕ) × (e < length pool)
        × (slow_delta_prune_neighbors_pq F alpha range pq_dist pool tgt_idx
            ≡ some (finish F alpha range pq_dist pool e))
  unfolding slow_delta_prune_neighbors_pq
  slow-evicts pool tgt_idx h =
      let fits : (length pool == range + 1) ≡ true = ground (arith, h) in
      elim (Option-cases (slow_scan F alpha range pq_dist tgt_idx 0 pool)) [
        | inl absent ↦
            (length pool - 1, omega arith, rw (slow_delta_prune_neighbors_pq, absent, fits) refl)
        | inr (e, found) ↦ (
          e,
          omega (arith, slow_scan-bound tgt_idx 0 e pool found),
          rw (slow_delta_prune_neighbors_pq, found, fits) refl,
        )
      ]

  -- On `range + 1` candidates the delta pruning does not crash, whatever the distances and the
  -- number of rounds of its fast path: it returns the ids of all candidates but one, in their
  -- order, so that `range` are left.
  pub delta_prune_neighbors_pq-some :
      (fuel : ℕ) (pool : Pool) (tgt : TriangleNeighbor F) (tgt_idx : ℕ)
      → length pool ≡ range + 1
      → tgt_idx < length pool
      → (e : ℕ) × (e < length pool)
        × (delta_prune_neighbors_pq F alpha range pq_dist fuel pool tgt tgt_idx
            ≡ some (finish F alpha range pq_dist pool e))
        × (length (finish F alpha range pq_dist pool e) ≡ range)
  unfolding delta_prune_neighbors_pq fast_delta_prune_neighbors_pq
  delta_prune_neighbors_pq-some fuel pool tgt tgt_idx h k =
      let d = (get_or pool tgt_idx tgt).distance in
      elim (Option-cases (fast_rounds F alpha range pq_dist fuel alpha d pool)) [
        | inl absent ↦
            let (e, inside, q) = slow-evicts pool tgt_idx h in
            (
              e,
              inside,
              rw (delta_prune_neighbors_pq, absent) q,
              omega (arith, length-finish pool e inside),
            )
        | inr (e, found) ↦
            let e' : ℕ = if e == range then tgt_idx else e in
            let bound = fast_rounds-bound fuel alpha d e pool found in
            let inside : e' < length pool = ground arith in
            (
              e',
              inside,
              rw (delta_prune_neighbors_pq, found) refl,
              omega (arith, length-finish pool e' inside),
            )
      ]

  fast_scan-last :
      (cur_alpha d : F.Float) (i e : ℕ) (front : Pool) (p : TriangleNeighbor F)
      → judge F alpha range pq_dist cur_alpha d (i + length front) p ≡ some e
      → fast_scan F alpha range pq_dist cur_alpha d i (front ++ (p ∷ [])) ≡ some e
  unfolding fast_scan
  fast_scan-last cur_alpha d i e [] p h =
      let z : i + 0 ≡ i = omega arith in
      subst (λ j. judge F alpha range pq_dist cur_alpha d j p ≡ some e) z h
  fast_scan-last cur_alpha d i e (q ∷ front) p h =
      let z : i + suc (length front) ≡ i + 1 + length front = omega arith in
      rw
        (fast_scan-last cur_alpha d (i + 1) e front p
          (subst (λ j. judge F alpha range pq_dist cur_alpha d j p ≡ some e) z h))
        refl

  -- Where the fast path finds that the last of `range + 1` candidates is to go (its distance is not
  -- zero, larger than that of the target, and too large for its distance to the target), the
  -- target goes instead: the index of the last candidate is `range`, which stands for the target.
  pub delta_prune_neighbors_pq-last :
      (fuel : ℕ) (front : Pool) (p tgt : TriangleNeighbor F) (tgt_idx : ℕ)
      → length front ≡ range
      → feq F p.distance F.zero_float ≡ false
      → flt F (get_or (front ++ (p ∷ [])) tgt_idx tgt).distance p.distance ≡ true
      → flt F alpha (F.div p.distance p.tgt_dis) ≡ true
      → flt F alpha F.almost_one ≡ false
      → delta_prune_neighbors_pq F alpha range pq_dist (suc fuel) (front ++ (p ∷ [])) tgt tgt_idx
        ≡ some (finish F alpha range pq_dist (front ++ (p ∷ [])) tgt_idx)
  unfolding delta_prune_neighbors_pq fast_delta_prune_neighbors_pq fast_rounds judge
  delta_prune_neighbors_pq-last fuel front p tgt tgt_idx n h k l m =
      let d = (get_or (front ++ (p ∷ [])) tgt_idx tgt).distance in
      let judged : judge F alpha range pq_dist alpha d (0 + length front) p ≡ some range =
        rw (h, k, l) (ground (arith, n)) in
      let found = fast_scan-last alpha d 0 range front p judged in
      let pool = front ++ (p ∷ []) in
      let rounds : fast_rounds F alpha range pq_dist (suc fuel) alpha d pool ≡ some range =
        rw (fast_rounds, m, found) refl in
      rw (delta_prune_neighbors_pq, rounds, ==_refl range) refl

  -- `cur_alpha` after `n` rounds.
  abbrev pub shrink : ℕ → F.Float → F.Float
  shrink zero cur_alpha = cur_alpha
  shrink (suc n) cur_alpha = shrink n (F.div cur_alpha F.growth)

  -- The fast path does not depend on the fuel once it is more than the number of rounds after which
  -- `cur_alpha` is below `1 - 1e-5`.
  pub fast_rounds-enough :
      (n fuel more : ℕ) (cur_alpha tgt_nbr_dis : F.Float) (pool : Pool)
      → n < fuel
      → n < more
      → flt F (shrink n cur_alpha) F.almost_one ≡ true
      → fast_rounds F alpha range pq_dist fuel cur_alpha tgt_nbr_dis pool
        ≡ fast_rounds F alpha range pq_dist more cur_alpha tgt_nbr_dis pool
  unfolding fast_rounds
  fast_rounds-enough n zero more a d pool h k l = elim h [ ]
  fast_rounds-enough n (suc fuel) zero a d pool h k l = elim k [ ]
  fast_rounds-enough zero (suc fuel) (suc more) a d pool h k l = rw (fast_rounds, l) refl
  fast_rounds-enough (suc n) (suc fuel) (suc more) a d pool h k l =
      let rest =
        fast_rounds-enough n fuel more (F.div a F.growth) d pool (omega arith) (omega arith) l in
      elim (Option-cases (fast_scan F alpha range pq_dist a d 0 pool)) [
        | inl absent ↦
            rw (fast_rounds, absent) (ap (λ x. if flt F a F.almost_one then none else x) rest)
        | inr (e, found) ↦ rw (fast_rounds, found) refl
      ]
