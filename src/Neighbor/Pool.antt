-- ===== src/Neighbor/Pool.antt =====
-- What `InsertIntoPool` of include/neighbor.h does with a sorted pool.
use ccann.Prelude.{
  ℕ, ◌+◌, ◌-◌, ◌≤◌, ◌<◌, ◌≡◌, refl, inl, inr, true, false, List, length, insert_at,
  length-insert_at, get_or-insert_at, arith, Bool-cases, Option-cases,
}
use ccann.Floats.{Floats}
use ccann.Neighbor.{
  Neighbor, farther, closer, same_id, bisect, scan_equal, place, insert_between, insert_into_pool,
}
use ccann.Neighbor.Search.{
  rank_at, IsSorted, Between, bisect-Between, scan_equal-none, scan_equal-some, Scanned,
}

module _ (F : Floats) (addr : List (Neighbor F)) (nn : Neighbor F) where
  abbrev pub key : ℕ
  key = F.rank nn.distance

  -- A place for the new entry that keeps the order.
  pub record Fits (i : ℕ) : Type 0 where
    pub inside : i ≤ length addr
    pub after : (j : ℕ) → j < i → rank_at F addr nn j ≤ key
    pub before : (j : ℕ) → i ≤ j → j < length addr → key ≤ rank_at F addr nn j

  insert_at-IsSorted : (i : ℕ) → IsSorted F addr nn → Fits i → IsSorted F (insert_at addr i nn) nn
  insert_at-IsSorted i s f j k le lt = ground (
    arith,
    length-insert_at addr i nn,
    get_or-insert_at addr i j nn nn,
    get_or-insert_at addr i k nn nn,
    f.after j,
    f.before (k - 1),
    s j k,
    s j (k - 1),
    s (j - 1) (k - 1),
  )

  -- The pool after the call, and the index that it returns.
  pub data Inserted : ℕ × List (Neighbor F) → Type 0 where
    found :
        (i : ℕ) → i < length addr → same_id F addr nn i ≡ true → Inserted (length addr + 1, addr)
    placed : (i : ℕ) → Fits i → Inserted (i, insert_at addr i nn)

  right_place : IsSorted F addr nn → (left right : ℕ) → Between F addr nn left right → Fits right
  right_place s left right b = record {
    inside = omega (arith, b.inside);
    after = λ j h. ground (arith, s j left, b.below, b.close, b.ordered, b.inside, b.alone);
    before = λ j h k. ground (arith, s right j, b.above);
  }

  place-Inserted :
      IsSorted F addr nn
      → (left right stop : ℕ) → Between F addr nn left right
      → Scanned F addr nn left stop
      → Inserted (place F addr nn stop right)
  unfolding place
  place-Inserted s left right stop b c = elim (Bool-cases (same_id F addr nn stop)) [
    | inl e ↦ rw e (found stop (ground (arith, b.inside, b.ordered, c.within)) e)
    | inr e ↦ elim (Bool-cases (same_id F addr nn right)) [
      | inl e' ↦ rw (e, e') (found right b.inside e')
      | inr e' ↦ rw (e, e') (placed right (right_place s left right b))
    ]
  ]

  insert_between-Inserted :
      IsSorted F addr nn
      → (left right : ℕ) → Between F addr nn left right
      → Inserted (insert_between F addr nn (left, right))
  unfolding insert_between
  insert_between-Inserted s left right b = elim (Option-cases (scan_equal F addr nn left)) [
    | inl e ↦
        let (i, le, same) = scan_equal-none F addr nn left e in
        rw (e, insert_between) (found i (omega (arith, b.inside, b.ordered)) same)
    | inr (stop, e) ↦
        rw (e, insert_between)
          (place-Inserted s left right stop b (scan_equal-some F addr nn left stop e))
  ]

  bisected :
      0 < length addr
      → farther F addr nn 0 ≡ false
      → closer F addr nn (length addr - 1) ≡ false
      → let (l, r) = bisect F addr nn (length addr) 0 (length addr - 1) in Between F addr nn l r
  bisected h e e' =
      bisect-Between F addr nn (length addr) 0 (length addr - 1) (omega arith) (omega arith)
        (λ q. omega arith) (omega arith) (ground arith) (ground arith) (inl refl)

  -- `InsertIntoPool` on a sorted pool either finds an entry with the id of `nn`, returns K + 1 and
  -- leaves the pool, or puts `nn` at the index that it returns, behind the entries that are not
  -- farther and before those that are not closer.
  pub insert_into_pool-Inserted :
      0 < length addr → IsSorted F addr nn → Inserted (insert_into_pool F addr nn)
  unfolding insert_into_pool
  insert_into_pool-Inserted h s = elim (Bool-cases (farther F addr nn 0)) [
    | inl e ↦ rw e (
        placed 0 (record {
          inside = omega arith;
          after = λ j q. elim q [ ];
          before = λ j q r. ground (arith, s 0 j);
        }))
    | inr e ↦ elim (Bool-cases (closer F addr nn (length addr - 1))) [
      | inl e' ↦
          rw (e, e')
            (placed (length addr) (record {
              inside = omega arith;
              after = λ j q. ground (arith, s j (length addr - 1));
              before = λ j q r. absurd (omega arith);
            }))
      | inr e' ↦ rw (e, e') (insert_between-Inserted s _ _ (bisected h e e'))
    ]
  ]

  -- The pool stays in ascending order of distance, on every path through the call.
  pub insert_into_pool-IsSorted :
      0 < length addr → IsSorted F addr nn → IsSorted F (insert_into_pool F addr nn).1 nn
  insert_into_pool-IsSorted h s = kept _ (insert_into_pool-Inserted h s)
    where
      kept : (r : ℕ × List (Neighbor F)) → Inserted r → IsSorted F r.1 nn
      kept _ (found i lt same) = s
      kept _ (placed i f) = insert_at-IsSorted i s f

  twin_found :
      IsSorted F addr nn
      → (i : ℕ) → i < length addr
      → same_id F addr nn i ≡ true
      → rank_at F addr nn i ≡ key
      → (left right : ℕ) → Between F addr nn left right
      → insert_between F addr nn (left, right) ≡ (length addr + 1, addr)
  unfolding insert_between
  twin_found s i lt same twin left right b = elim (Option-cases (scan_equal F addr nn left)) [
    | inl e ↦ rw (e, insert_between)
    | inr (stop, e) ↦
        rw (e, insert_between)
          (let c = scan_equal-some F addr nn left stop e in
            unfold place in
            ground (
              arith,
              c.distinct i,
              c.reached,
              c.within,
              b.last_if_equal,
              b.close,
              b.ordered,
              b.inside,
              s i stop,
              s right i,
            ))
  ]

  -- In a sorted pool an entry with the id and the distance of `nn` is always found: the call returns
  -- K + 1 and leaves the pool as it was, so a candidate that is met again is not put in a second time.
  pub insert_into_pool-twin :
      IsSorted F addr nn
      → (i : ℕ) → i < length addr
      → same_id F addr nn i ≡ true
      → rank_at F addr nn i ≡ key
      → insert_into_pool F addr nn ≡ (length addr + 1, addr)
  unfolding insert_into_pool
  insert_into_pool-twin s i lt same twin = elim (Bool-cases (farther F addr nn 0)) [
    | inl e ↦ absurd (ground (arith, s 0 i))
    | inr e ↦ elim (Bool-cases (closer F addr nn (length addr - 1))) [
      | inl e' ↦ absurd (ground (arith, s i (length addr - 1)))
      | inr e' ↦ rw (e, e') (twin_found s i lt same twin _ _ (bisected (omega arith) e e'))
    ]
  ]
