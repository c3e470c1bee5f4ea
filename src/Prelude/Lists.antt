-- ===== src/Prelude/Lists.antt =====
-- Arrays as lists with native indices: `memmove` and store at an index, appends, counts.
use Prim.Native.Nat.{ℕ, zero, suc, ◌+◌, ◌-◌, ◌≤◌, ◌<◌}
use mathlib.Core.Path.{◌≡◌, refl, ap}
use mathlib.Core.Bool.{Bool, true, false, ◌||◌}
use mathlib.Core.List.{List, [], ◌∷◌, ◌++◌}
use mathlib.Core.Option.{Option, none, some}
use native.Mathlib.Omega.{arith}
use ccann.Prelude.Tests.{ltb, ◌==◌, if◌then◌else◌}

module _ {ℓ} {A : Type ℓ} where
  abbrev pub length : List A → ℕ
  length [] = 0
  length (x ∷ xs) = suc (length xs)

  abbrev pub get_elem? : List A → ℕ → Option A
  get_elem? [] i = none
  get_elem? (x ∷ xs) zero = some x
  get_elem? (x ∷ xs) (suc i) = get_elem? xs i

  abbrev pub get_or : List A → ℕ → A → A
  get_or [] i d = d
  get_or (x ∷ xs) zero d = x
  get_or (x ∷ xs) (suc i) d = get_or xs i d

  -- A write out of bounds changes nothing.
  abbrev pub set : List A → ℕ → A → List A
  set [] i v = []
  set (x ∷ xs) zero v = v ∷ xs
  set (x ∷ xs) (suc i) v = x ∷ set xs i v

  -- `memmove(&a[i + 1], &a[i], ...); a[i] = v`
  abbrev pub insert_at : List A → ℕ → A → List A
  insert_at [] i v = v ∷ []
  insert_at (x ∷ xs) zero v = v ∷ x ∷ xs
  insert_at (x ∷ xs) (suc i) v = x ∷ insert_at xs i v

  -- `vec.erase(vec.begin() + i)`
  abbrev pub erase_at : List A → ℕ → List A
  erase_at [] i = []
  erase_at (x ∷ xs) zero = xs
  erase_at (x ∷ xs) (suc i) = x ∷ erase_at xs i

  abbrev pub take : ℕ → List A → List A
  take zero xs = []
  take (suc n) [] = []
  take (suc n) (x ∷ xs) = x ∷ take n xs

  abbrev pub drop : ℕ → List A → List A
  drop zero xs = xs
  drop (suc n) [] = []
  drop (suc n) (x ∷ xs) = drop n xs

module _ {ℓ} {A : Type ℓ} where
  pub length-append : (xs ys : List A) → length (xs ++ ys) ≡ length xs + length ys
  length-append [] ys = omega arith
  length-append (x ∷ xs) ys = omega (arith, length-append xs ys)

  pub length-insert_at : (xs : List A) (i : ℕ) (v : A) → length (insert_at xs i v) ≡ suc (length xs)
  length-insert_at [] i v = refl
  length-insert_at (x ∷ xs) zero v = refl
  length-insert_at (x ∷ xs) (suc i) v = ap suc (length-insert_at xs i v)

  pub length-erase_at :
      (xs : List A) (i : ℕ) → i < length xs → suc (length (erase_at xs i)) ≡ length xs
  length-erase_at [] i h = elim h [ ]
  length-erase_at (x ∷ xs) zero h = refl
  length-erase_at (x ∷ xs) (suc i) h = ap suc (length-erase_at xs i (omega arith))

  pub length-set : (xs : List A) (i : ℕ) (v : A) → length (set xs i v) ≡ length xs
  length-set [] i v = refl
  length-set (x ∷ xs) zero v = refl
  length-set (x ∷ xs) (suc i) v = ap suc (length-set xs i v)

  pub get_or-set :
      (xs : List A) (i : ℕ) (v : A) (j : ℕ) (d : A)
      → i < length xs
      → get_or (set xs i v) j d ≡ (if i == j then v else get_or xs j d)
  get_or-set [] i v j d h = elim h [ ]
  get_or-set (x ∷ xs) zero v zero d h = refl
  get_or-set (x ∷ xs) zero v (suc j) d h = ground arith
  get_or-set (x ∷ xs) (suc i) v zero d h = ground arith
  get_or-set (x ∷ xs) (suc i) v (suc j) d h = ground (arith, get_or-set xs i v j d)

  pub length-take : (n : ℕ) (xs : List A) → n ≤ length xs → length (take n xs) ≡ n
  length-take zero xs h = refl
  length-take (suc n) [] h = absurd (omega arith)
  length-take (suc n) (x ∷ xs) h = ap suc (length-take n xs (omega arith))

  pub length-drop : (n : ℕ) (xs : List A) → length (drop n xs) ≡ length xs - n
  length-drop zero xs = omega arith
  length-drop (suc n) [] = omega arith
  length-drop (suc n) (x ∷ xs) = omega (arith, length-drop n xs)

  pub get_or-take :
      (n : ℕ) (xs : List A) (j : ℕ) (d : A) → j < n → get_or (take n xs) j d ≡ get_or xs j d
  get_or-take zero xs j d h = elim h [ ]
  get_or-take (suc n) [] j d h = refl
  get_or-take (suc n) (x ∷ xs) zero d h = refl
  get_or-take (suc n) (x ∷ xs) (suc j) d h = get_or-take n xs j d (omega arith)

  pub get_or-append :
      (xs ys : List A) (j : ℕ) (d : A) → j < length xs → get_or (xs ++ ys) j d ≡ get_or xs j d
  get_or-append [] ys j d h = elim h [ ]
  get_or-append (x ∷ xs) ys zero d h = refl
  get_or-append (x ∷ xs) ys (suc j) d h = get_or-append xs ys j d (omega arith)

  pub get_or-insert_before :
      (xs : List A) (i j : ℕ) (v d : A)
      → j < i
      → j < length xs
      → get_or (insert_at xs i v) j d ≡ get_or xs j d
  get_or-insert_before [] i j v d h k = elim k [ ]
  get_or-insert_before (x ∷ xs) zero j v d h k = elim h [ ]
  get_or-insert_before (x ∷ xs) (suc i) zero v d h k = refl
  get_or-insert_before (x ∷ xs) (suc i) (suc j) v d h k =
      get_or-insert_before xs i j v d (omega arith) (omega arith)

  pub get_or-insert_at :
      (xs : List A) (i j : ℕ) (v d : A)
      → i ≤ length xs
      → get_or (insert_at xs i v) j d
        ≡ (if ltb j i then get_or xs j d else if j == i then v else get_or xs (j - 1) d)
  get_or-insert_at [] zero zero v d h = refl
  get_or-insert_at [] zero (suc j) v d h = ground arith
  get_or-insert_at [] (suc i) j v d h = absurd (omega arith)
  get_or-insert_at (x ∷ xs) zero zero v d h = refl
  get_or-insert_at (x ∷ xs) zero (suc j) v d h = ground arith
  get_or-insert_at (x ∷ xs) (suc i) zero v d h = ground arith
  get_or-insert_at (x ∷ xs) (suc i) (suc zero) v d h = ground (arith, get_or-insert_at xs i 0 v d)
  get_or-insert_at (x ∷ xs) (suc i) (suc (suc j)) v d h =
      ground (arith, get_or-insert_at xs i (suc j) v d)

  -- Appending is insertion at the end.
  pub insert_at-length : (xs : List A) (v : A) → insert_at xs (length xs) v ≡ xs ++ (v ∷ [])
  insert_at-length [] v = refl
  insert_at-length (x ∷ xs) v = ap (λ l. x ∷ l) (insert_at-length xs v)

  pub insert_at-zero : (xs : List A) (v : A) → insert_at xs 0 v ≡ v ∷ xs
  insert_at-zero [] v = refl
  insert_at-zero (x ∷ xs) v = refl

-- Membership as a predicate by recursion, and its Boolean test on numbers.
abbrev pub All {ℓ κ} : {A : Type ℓ} → (A → Type κ) → List A → Type κ
All P [] = Unit
All P (x ∷ xs) = P x × All P xs

-- `std::find(xs.begin(), xs.end(), a) != xs.end()`
abbrev pub contains : ℕ → List ℕ → Bool
contains a [] = false
contains a (x ∷ xs) = (a == x) || contains a xs

abbrev pub Distinct : List ℕ → Type 0
Distinct [] = Unit
Distinct (x ∷ xs) = (contains x xs ≡ false) × Distinct xs

-- How often a number stands in a list.
abbrev pub count : ℕ → List ℕ → ℕ
count a [] = 0
count a (x ∷ xs) = (if a == x then 1 else 0) + count a xs

pub count-append :
    (k : ℕ) (front back : List ℕ) → count k (front ++ back) ≡ count k front + count k back
count-append k [] back = ground arith
count-append k (y ∷ front) back = ground (arith, count-append k front back)

pub contains-append :
    (a : ℕ) (xs ys : List ℕ) → contains a (xs ++ ys) ≡ (contains a xs || contains a ys)
contains-append a [] ys = refl
contains-append a (x ∷ xs) ys = ground (arith, contains-append a xs ys)

pub contains-false : (k : ℕ) (xs : List ℕ) → contains k xs ≡ false → count k xs ≡ 0
contains-false k [] h = refl
contains-false k (x ∷ xs) h = ground (arith, contains-false k xs)

pub contains-true : (k : ℕ) (xs : List ℕ) → contains k xs ≡ true → 1 ≤ count k xs
contains-true k [] h = absurd (cc h)
contains-true k (x ∷ xs) h = ground (arith, contains-true k xs)

-- A list that has a number no more often than another has no number that the other has not.
pub contains-count :
    (k : ℕ) (xs ys : List ℕ) → count k xs ≤ count k ys → contains k xs ≡ true → contains k ys ≡ true
contains-count k xs ys h e = ground (arith, contains-true k xs, contains-false k ys)
