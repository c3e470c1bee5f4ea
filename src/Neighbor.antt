-- ===== src/Neighbor.antt =====
-- include/neighbor.h: candidates with their distances, and `InsertIntoPool`.
pub mod Pool
pub mod Search
use ccann.Prelude.{
  ℕ, zero, suc, ◌+◌, ◌-◌, ◌/◌, Bool, ◌&&◌, ◌||◌, ltb, ◌==◌, if◌then◌else◌, Option, none, some, List,
  [], ◌∷◌, length, get_or, insert_at,
}
use ccann.Floats.{Floats, flt, feq}

pub record Neighbor (F : Floats) : Type 0 where
  pub id : ℕ
  pub distance : F.Float
  pub flag : Bool
  pub visited : Bool

module _ (F : Floats) where
  -- `Neighbor::operator<`
  unfoldable pub neighbor_lt : Neighbor F → Neighbor F → Bool
  neighbor_lt a b = flt F a.distance b.distance || (feq F a.distance b.distance && ltb a.id b.id)

  -- `addr[i]`; the indices of `insert_into_pool` lie in the pool, so the default is never read.
  abbrev pub at : List (Neighbor F) → Neighbor F → ℕ → Neighbor F
  at addr nn i = get_or addr i nn

  -- `addr[i].distance > nn.distance` and `addr[i].distance < nn.distance`
  abbrev pub farther : List (Neighbor F) → Neighbor F → ℕ → Bool
  farther addr nn i = flt F nn.distance (at addr nn i).distance

  abbrev pub closer : List (Neighbor F) → Neighbor F → ℕ → Bool
  closer addr nn i = flt F (at addr nn i).distance nn.distance

  abbrev pub same_id : List (Neighbor F) → Neighbor F → ℕ → Bool
  same_id addr nn i = (at addr nn i).id == nn.id

  -- `while (right > 1 && left < right - 1)`: the gap falls, so `right` rounds are enough.
  unfoldable pub bisect : List (Neighbor F) → Neighbor F → ℕ → ℕ → ℕ → ℕ × ℕ
  bisect addr nn zero left right = (left, right)
  bisect addr nn (suc fuel) left right =
      let mid = (left + right) / 2 in
      let next =
        bisect addr nn fuel (if farther addr nn mid then left else mid)
          (if farther addr nn mid then mid else right) in
      if ltb 1 right && ltb left (right - 1) then next else (left, right)

  -- `while (left > 0)`: none for the `return K + 1` on an equal id.
  unfoldable pub scan_equal : List (Neighbor F) → Neighbor F → ℕ → Option ℕ
  scan_equal addr nn zero = some zero
  scan_equal addr nn (suc left) =
      let below = scan_equal addr nn left in
      if closer addr nn (suc left)
      then some (suc left)
      else if same_id addr nn (suc left)
      then none
      else below

  -- The checks on equal ids and the insertion at `right`, once the loops are done.
  unfoldable pub place : List (Neighbor F) → Neighbor F → ℕ → ℕ → ℕ × List (Neighbor F)
  place addr nn left right =
      if same_id addr nn left || same_id addr nn right
      then (length addr + 1, addr)
      else (right, insert_at addr right nn)

  unfoldable pub insert_between : List (Neighbor F) → Neighbor F → ℕ × ℕ → ℕ × List (Neighbor F)
  unfolding place scan_equal
  insert_between addr nn (left, right) = elim (scan_equal addr nn left) [
    | none ↦ (length addr + 1, addr)
    | some left' ↦ place addr nn left' right
  ]

  -- `InsertIntoPool(addr, K, nn)` with K the length of the list: the index that it returns, and
  -- the pool after it. The array has room for one more entry.
  unfoldable pub insert_into_pool : List (Neighbor F) → Neighbor F → ℕ × List (Neighbor F)
  unfolding insert_between bisect
  insert_into_pool addr nn =
      let k = length addr in
      let right = k - 1 in
      if farther addr nn 0
      then (0, insert_at addr 0 nn)
      else if closer addr nn right
      then (k, insert_at addr k nn)
      else insert_between addr nn (bisect addr nn k 0 right)
