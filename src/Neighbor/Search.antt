-- ===== src/Neighbor/Search.antt =====
-- The two loops of `InsertIntoPool`.
use ccann.Prelude.{
  ℕ, zero, suc, ◌+◌, ◌-◌, ◌/◌, ◌≤◌, ◌<◌, ◌≡◌, ◌⊎◌, inl, inr, true, false, none, some, List, length,
  arith, ltb, Bool-cases, ◌&&◌,
}
use ccann.Floats.{Floats}
use ccann.Neighbor.{Neighbor, at, farther, closer, same_id, bisect, scan_equal}

module _ (F : Floats) where
  abbrev pub rank_at : List (Neighbor F) → Neighbor F → ℕ → ℕ
  rank_at addr nn i = F.rank (at F addr nn i).distance

  -- The pool is in ascending order of distance.
  abbrev pub IsSorted : List (Neighbor F) → Neighbor F → Type 0
  IsSorted addr nn = (i j : ℕ) → i ≤ j → j < length addr → rank_at addr nn i ≤ rank_at addr nn j

module _ (F : Floats) (addr : List (Neighbor F)) (nn : Neighbor F) where
  abbrev key : ℕ
  key = F.rank nn.distance

  -- The new entry belongs between `left` and `right`, which are neighbours.
  pub record Between (left right : ℕ) : Type 0 where
    pub inside : right < length addr
    pub below : rank_at F addr nn left ≤ key
    pub above : key ≤ rank_at F addr nn right
    pub last_if_equal : (right ≡ length addr - 1) ⊎ (key < rank_at F addr nn right)
    pub close : right ≤ left + 1
    pub ordered : left ≤ right
    pub alone : (left ≡ right) → right ≡ 0

  pub bisect-Between :
      (fuel left right : ℕ)
      → right - left ≤ fuel
      → left ≤ right
      → ((left ≡ right) → right ≡ 0)
      → right < length addr
      → rank_at F addr nn left ≤ key
      → key ≤ rank_at F addr nn right
      → (right ≡ length addr - 1) ⊎ (key < rank_at F addr nn right)
      → let (l, r) = bisect F addr nn fuel left right in Between l r
  unfolding bisect
  bisect-Between zero left right gap o al ins lo hi last = record {
    inside = ins;
    below = lo;
    above = hi;
    last_if_equal = last;
    close = omega arith;
    ordered = o;
    alone = al;
  }
  bisect-Between (suc fuel) left right gap o al ins lo hi last =
      let mid = (left + right) / 2 in
      elim (Bool-cases (ltb 1 right && ltb left (right - 1))) [
        | inl more ↦ elim (Bool-cases (farther F addr nn mid)) [
          | inl up ↦
              rw (more, up)
                (bisect-Between fuel left mid (ground arith) (omega arith) (ground arith)
                  (omega arith) lo (ground arith) (inr (ground arith)))
          | inr down ↦
              rw (more, down)
                (bisect-Between fuel mid right (ground arith) (omega arith) (ground arith) ins
                  (ground arith) hi last)
        ]
        | inr stop ↦ rw stop (record {
          inside = ins;
          below = lo;
          above = hi;
          last_if_equal = last;
          close = ground arith;
          ordered = o;
          alone = al;
        })
      ]

module _ (F : Floats) (addr : List (Neighbor F)) (nn : Neighbor F) where
  -- What the scan for equal ids finds: an entry of the pool with the id of `nn`; or no such entry
  -- among those down to the first whose distance is smaller.
  pub scan_equal-none :
      (left : ℕ)
      → scan_equal F addr nn left ≡ none
      → (i : ℕ) × (i ≤ left) × (same_id F addr nn i ≡ true)
  unfolding scan_equal
  scan_equal-none zero h = cc
  scan_equal-none (suc left) h = elim (Bool-cases (closer F addr nn (suc left))) [
    | inl c ↦ absurd (ground arith)
    | inr c ↦ elim (Bool-cases (same_id F addr nn (suc left))) [
      | inl e ↦ (suc left, omega arith, e)
      | inr e ↦ let (i, le, same) = scan_equal-none left (ground arith) in (i, omega arith, same)
    ]
  ]

  pub record Scanned (left stop : ℕ) : Type 0 where
    pub within : stop ≤ left
    pub distinct : (i : ℕ) → stop < i → i ≤ left → same_id F addr nn i ≡ false
    pub reached : (stop ≡ 0) ⊎ (closer F addr nn stop ≡ true)

  pub scan_equal-some : (left stop : ℕ) → scan_equal F addr nn left ≡ some stop → Scanned left stop
  unfolding scan_equal
  scan_equal-some zero stop h = ground arith
  scan_equal-some (suc left) stop h = ground (arith, scan_equal-some left stop)
