-- ===== src/UnorderedMap.antt =====
-- `std::unordered_map<unsigned, unsigned>` as the index uses it: a list of entries, the first of a
-- key being its value.
use ccann.Prelude.{
  ℕ, ◌≡◌, ◌==◌, if◌then◌else◌, Option, none, some, List, [], ◌∷◌, Bool, true, false, arith,
}

abbrev pub UnorderedMap : Type 0
UnorderedMap = List (ℕ × ℕ)

-- `m.find(k)`
abbrev pub find : UnorderedMap → ℕ → Option ℕ
find [] k = none
find ((j, v) ∷ m) k = if j == k then some v else find m k

-- `m.erase(k)`
abbrev pub erase : UnorderedMap → ℕ → UnorderedMap
erase [] k = []
erase ((j, v) ∷ m) k = if j == k then erase m k else (j, v) ∷ erase m k

-- `m[k] = v`
abbrev pub assign : UnorderedMap → ℕ → ℕ → UnorderedMap
assign m k v = (k, v) ∷ erase m k

-- `m.find(k) != m.end()`
abbrev pub has : UnorderedMap → ℕ → Bool
has m k = elim (find m k) [ none ↦ false | some v ↦ true ]

pub find-erase :
    (m : UnorderedMap) (k j : ℕ) → find (erase m k) j ≡ (if k == j then none else find m j)
find-erase [] k j = ground arith
find-erase ((i, v) ∷ m) k j = ground (arith, find-erase m k j)

pub find-assign :
    (m : UnorderedMap) (k v j : ℕ) → find (assign m k v) j ≡ (if k == j then some v else find m j)
find-assign m k v j = ground (arith, find-erase m k j)
