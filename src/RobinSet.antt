-- ===== src/RobinSet.antt =====
-- The hash set `tsl::robin_set<unsigned>` as the program calls it, by the documented effect of each
-- call. `elements` is the order in which a loop over the set meets its members, which is not
-- specified further.
use ccann.Prelude.{
  ℕ, ◌+◌, ◌≡◌, refl, ◌==◌, if◌then◌else◌, Bool, true, false, ◌||◌, List, [], ◌∷◌, length, contains,
  Distinct, arith,
}

pub record RobinSet : Type 1 where
  pub Set : Type 0
  pub empty : Set
  -- `find(k) != end()`
  pub find : Set → ℕ → Bool
  pub insert : Set → ℕ → Set
  pub erase : Set → ℕ → Set
  pub elements : Set → List ℕ
  pub find-empty : (k : ℕ) → find empty k ≡ false
  pub find-insert : (s : Set) (k j : ℕ) → find (insert s k) j ≡ (k == j) || find s j
  pub find-erase : (s : Set) (k j : ℕ) → find (erase s k) j ≡ (if k == j then false else find s j)
  pub contains-elements : (s : Set) (k : ℕ) → contains k (elements s) ≡ find s k
  pub elements-Distinct : (s : Set) → Distinct (elements s)
  pub size-insert :
      (s : Set) (k : ℕ)
      → find s k ≡ false
      → length (elements (insert s k)) ≡ length (elements s) + 1
  pub size-erase :
      (s : Set) (k : ℕ) → find s k ≡ true → length (elements (erase s k)) + 1 ≡ length (elements s)

abbrev pub size : (S : RobinSet) → S.Set → ℕ
size S s = length (S.elements s)

-- Lists meet the laws.
abbrev dedup : List ℕ → List ℕ
dedup [] = []
dedup (x ∷ xs) = if contains x xs then dedup xs else x ∷ dedup xs

abbrev without : List ℕ → ℕ → List ℕ
without [] k = []
without (x ∷ xs) k = if k == x then without xs k else x ∷ without xs k

pub contains-dedup : (xs : List ℕ) (k : ℕ) → contains k (dedup xs) ≡ contains k xs
contains-dedup [] k = refl
contains-dedup (x ∷ xs) k = ground (arith, contains-dedup xs k)

pub dedup-Distinct : (xs : List ℕ) → Distinct (dedup xs)
dedup-Distinct [] = tt
dedup-Distinct (x ∷ xs) = ground (arith, dedup-Distinct xs, contains-dedup xs x)

pub contains-without :
    (xs : List ℕ) (k j : ℕ) → contains j (without xs k) ≡ (if k == j then false else contains j xs)
contains-without [] k j = ground arith
contains-without (x ∷ xs) k j = ground (arith, contains-without xs k j)

pub contains-cons : (xs : List ℕ) (k j : ℕ) → contains j (k ∷ xs) ≡ (k == j) || contains j xs
contains-cons xs k j = ground arith

without-absent : (xs : List ℕ) (k : ℕ) → contains k xs ≡ false → without xs k ≡ xs
without-absent [] k h = refl
without-absent (x ∷ xs) k h = ground (arith, without-absent xs k)

pub length-dedup-insert :
    (xs : List ℕ) (k : ℕ) → contains k xs ≡ false → length (dedup (k ∷ xs)) ≡ length (dedup xs) + 1
length-dedup-insert xs k h = ground arith

pub length-dedup-without :
    (xs : List ℕ) (k : ℕ)
    → contains k xs ≡ true
    → length (dedup (without xs k)) + 1 ≡ length (dedup xs)
length-dedup-without [] k h = absurd (cc h)
length-dedup-without (x ∷ xs) k h =
    ground (arith, length-dedup-without xs k, contains-without xs k x, without-absent xs k)

abbrev pub list_set : RobinSet
list_set = record {
  Set = List ℕ;
  empty = [];
  find = λ s k. contains k s;
  insert = λ s k. k ∷ s;
  erase = without;
  elements = dedup;
  find-empty = λ k. refl;
  find-insert = contains-cons;
  find-erase = contains-without;
  contains-elements = λ s k. contains-dedup s k;
  elements-Distinct = dedup-Distinct;
  size-insert = length-dedup-insert;
  size-erase = length-dedup-without;
}
