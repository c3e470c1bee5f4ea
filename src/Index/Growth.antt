-- ===== src/Index/Growth.antt =====
-- src/index.cpp and include/index.h: how many places an index has after it grew.
use ccann.Prelude.{
  ℕ, zero, suc, ◌+◌, ◌-◌, ◌*◌, ◌/◌, ◌%◌, ◌^◌, ◌≤◌, ◌<◌, ◌≡◌, refl, ◌∙◌, ap, ltb, ◌==◌, ◌&&◌, ◌||◌,
  if◌then◌else◌, inl, inr, true, Bool-cases, arith, ◌⊎◌,
}
use native.Mathlib.Nat.{mul-le-mul_right, div-add-mod', mod-lt}

-- The multiple of a unit that is nearest to m, the even one of two.
unfoldable pub round_at : ℕ → ℕ → ℕ
round_at unit m =
    let q = m / unit in
    let r = m % unit in
    if ltb unit (2 * r) || ((2 * r == unit) && (q % 2 == 1)) then (q + 1) * unit else q * unit

-- A number with 24 significant bits, as a conversion to `float` and a product of floats round it. The
-- unit is doubled until 24 bits are left; 64 rounds are enough for a `size_t`.
unfoldable pub to_float : ℕ → ℕ → ℕ → ℕ
unfolding round_at
to_float zero unit m = round_at unit m
to_float (suc n) unit m =
    let rest = to_float n (2 * unit) m in if ltb (m / unit) (2 ^ 24) then round_at unit m else rest

-- `(size_t) (_max_points * INDEX_GROWTH_FACTOR)`, the factor being 1.5f: half of three times the
-- rounded number, rounded and cut off.
unfoldable pub growth : ℕ → ℕ
unfolding to_float
growth max_points = to_float 64 1 (3 * to_float 64 1 max_points) / 2

round_at-low :
    (unit m : ℕ)
    → 0 < unit
    → (unit ≡ 1) ⊎ (2 ^ 23 * unit ≤ m)
    → (2 ^ 23 - 1) * m ≤ 2 ^ 23 * round_at unit m
unfolding round_at
round_at-low unit m pos h =
    let q = m / unit in
    let r = m % unit in
    let whole = div-add-mod' m unit in
    let short = mod-lt m pos in
    let up : (q + 1) * unit ≡ q * unit + unit = omega arith in
    let low : (2 ^ 23 - 1) * m ≤ 2 ^ 23 * (q * unit) = elim h [
      | inl one ↦ omega (arith, whole, short)
      | inr many ↦ omega (arith, whole, short)
    ] in
    elim (Bool-cases (ltb unit (2 * r) || ((2 * r == unit) && (q % 2 == 1)))) [
      | inl e ↦ rw (round_at, e) (omega (arith, low, up))
      | inr e ↦ rw (round_at, e) low
    ]

to_float-low :
    (n unit m : ℕ)
    → 0 < unit
    → (unit ≡ 1) ⊎ (2 ^ 23 * unit ≤ m)
    → (2 ^ 23 - 1) * m ≤ 2 ^ 23 * to_float n unit m
unfolding to_float
to_float-low zero unit m pos h = round_at-low unit m pos h
to_float-low (suc n) unit m pos h = elim (Bool-cases (ltb (m / unit) (2 ^ 24))) [
  | inl small ↦ rw (to_float, small) (round_at-low unit m pos h)
  | inr large ↦
      let q = m / unit in
      let le : 2 ^ 24 * unit ≤ q * unit = mul-le-mul_right unit (ground arith) in
      let whole = div-add-mod' m unit in
      rw (to_float, large)
        (to_float-low n (2 * unit) m (omega arith) (inr (omega (arith, le, whole))))
]

round_at-1 : (m : ℕ) → round_at 1 m ≡ m
unfolding round_at
round_at-1 m = ground arith

to_float-small : (n m : ℕ) → m < 2 ^ 24 → to_float (suc n) 1 m ≡ m
unfolding to_float
to_float-small n m h =
    let small : ltb (m / 1) (2 ^ 24) ≡ true = ground arith in rw (to_float, small) (round_at-1 m)

-- An index of at least two places grows.
pub growth-grows : (n : ℕ) → 2 ≤ n → n < growth n
unfolding growth
growth-grows n h = elim (Bool-cases (ltb n (2 ^ 22))) [
  | inl small ↦
      let few : n < 2 ^ 22 = ground arith in
      let e = to_float-small 63 n (omega arith) in
      let q : to_float 64 1 (3 * to_float 64 1 n) ≡ 3 * n =
        ap (λ x. to_float 64 1 (3 * x)) e ∙ to_float-small 63 (3 * n) (omega arith) in
      omega (arith, q)
  | inr large ↦
      let c : 2 ^ 22 ≤ n = ground arith in
      let f = to_float 64 1 n in
      let a = to_float-low 64 1 n (omega arith) (inl refl) in
      let b = to_float-low 64 1 (3 * f) (omega arith) (inl refl) in omega (arith, a, b, c)
]
