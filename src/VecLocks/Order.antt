-- ===== src/VecLocks/Order.antt =====
-- The lists of keys that are locked: ascending, each key once, and the keys that were asked for.
use ccann.Prelude.{
  ◌<◌, false, ℕ, suc, ◌+◌, ◌≤◌, ◌≡◌, refl, ◌∙◌, ◌||◌, not, ◌&&◌, ◌==◌, if◌then◌else◌, List, [], ◌∷◌,
  contains, count, contains-append, count-append, arith,
}
use ccann.VecLocks.{
  invalid_id, insert_id, sort_ids, unique_after, unique, with_target, lock_vec_keys,
  unlock_vec_keys, get_to_lock_idx, requests_sectors, lock_reqs_keys,
}

-- Strictly ascending, above a bound.
abbrev pub Ascending : ℕ → List ℕ → Type 0
Ascending lo [] = Unit
Ascending lo (x ∷ xs) = (lo ≤ x) × Ascending (suc x) xs

pub below-Ascending : (lo l : ℕ) (xs : List ℕ) → Ascending lo xs → l < lo → contains l xs ≡ false
below-Ascending lo l [] a h = refl
below-Ascending lo l (x ∷ xs) a h = ground (arith, below-Ascending (suc x) l xs)

abbrev Sorted : ℕ → List ℕ → Type 0
Sorted lo [] = Unit
Sorted lo (x ∷ xs) = (lo ≤ x) × Sorted x xs

insert_id-Sorted : (lo a : ℕ) (xs : List ℕ) → lo ≤ a → Sorted lo xs → Sorted lo (insert_id a xs)
unfolding insert_id
insert_id-Sorted lo a [] h s = (h, tt)
insert_id-Sorted lo a (x ∷ xs) h s = ground (arith, insert_id-Sorted x a xs)

sort_ids-Sorted : (xs : List ℕ) → Sorted 0 (sort_ids xs)
unfolding sort_ids
sort_ids-Sorted [] = tt
sort_ids-Sorted (x ∷ xs) = insert_id-Sorted 0 x (sort_ids xs) (omega arith) (sort_ids-Sorted xs)

pub contains-insert_id :
    (k a : ℕ) (xs : List ℕ) → contains k (insert_id a xs) ≡ ((k == a) || contains k xs)
unfolding insert_id
contains-insert_id k a [] = refl
contains-insert_id k a (x ∷ xs) = ground (arith, contains-insert_id k a xs)

pub insert_id-Ascending :
    (lo a : ℕ) (xs : List ℕ)
    → lo ≤ a
    → contains a xs ≡ false
    → Ascending lo xs
    → Ascending lo (insert_id a xs)
unfolding insert_id
insert_id-Ascending lo a [] h k s = (h, tt)
insert_id-Ascending lo a (x ∷ xs) h k s = ground (arith, insert_id-Ascending (suc x) a xs)

contains-sort_ids : (k : ℕ) (xs : List ℕ) → contains k (sort_ids xs) ≡ contains k xs
unfolding sort_ids
contains-sort_ids k [] = refl
contains-sort_ids k (x ∷ xs) =
    ground (arith, contains-insert_id k x (sort_ids xs), contains-sort_ids k xs)

count-insert_id :
    (k a : ℕ) (xs : List ℕ) → count k (insert_id a xs) ≡ (if k == a then 1 else 0) + count k xs
unfolding insert_id
count-insert_id k a [] = refl
count-insert_id k a (x ∷ xs) = ground (arith, count-insert_id k a xs)

count-sort_ids : (k : ℕ) (xs : List ℕ) → count k (sort_ids xs) ≡ count k xs
unfolding sort_ids
count-sort_ids k [] = refl
count-sort_ids k (x ∷ xs) = omega (arith, count-insert_id k x (sort_ids xs), count-sort_ids k xs)

unique_after-Ascending : (p : ℕ) (xs : List ℕ) → Sorted p xs → Ascending (suc p) (unique_after p xs)
unfolding unique_after
unique_after-Ascending p [] s = tt
unique_after-Ascending p (x ∷ xs) s = ground (arith, unique_after-Ascending x xs)

contains-unique_after :
    (k p : ℕ) (xs : List ℕ)
    → ((k == p) || contains k (unique_after p xs)) ≡ ((k == p) || contains k xs)
unfolding unique_after
contains-unique_after k p [] = refl
contains-unique_after k p (x ∷ xs) = ground (arith, contains-unique_after k x xs)

unique-Ascending : (xs : List ℕ) → Sorted 0 xs → Ascending 0 (unique xs)
unfolding unique
unique-Ascending [] s = tt
unique-Ascending (x ∷ xs) s = (s.0, unique_after-Ascending x xs s.1)

contains-unique : (k : ℕ) (xs : List ℕ) → contains k (unique xs) ≡ contains k xs
unfolding unique
contains-unique k [] = refl
contains-unique k (x ∷ xs) = contains-unique_after k x xs

-- The keys of `get_to_lock_idx` are strictly ascending, whatever the ids repeat.
pub get_to_lock_idx-Ascending :
    (target : ℕ) (neighbors : List ℕ) → Ascending 0 (get_to_lock_idx target neighbors)
unfolding get_to_lock_idx
get_to_lock_idx-Ascending target neighbors =
    unique-Ascending _ (sort_ids-Sorted (with_target target neighbors))

-- They are the neighbours and the target, and no other key; kInvalidID is no target.
pub contains-get_to_lock_idx :
    (k target : ℕ) (neighbors : List ℕ)
    → contains k (get_to_lock_idx target neighbors)
      ≡ (contains k neighbors || ((k == target) && not (target == invalid_id)))
unfolding get_to_lock_idx
contains-get_to_lock_idx k target neighbors =
    contains-unique k _
    ∙ contains-sort_ids k (with_target target neighbors)
    ∙ ground (arith, contains-append k neighbors (target ∷ []))

-- `lockReqs` too locks in strictly ascending order, each sector once.
pub lock_reqs_keys-Ascending : (reqs : List (ℕ × ℕ)) → Ascending 0 (lock_reqs_keys reqs)
unfolding lock_reqs_keys
lock_reqs_keys-Ascending reqs = unique-Ascending _ (sort_ids-Sorted (requests_sectors reqs))

-- It locks exactly the sectors of its requests.
pub contains-lock_reqs_keys :
    (k : ℕ) (reqs : List (ℕ × ℕ))
    → contains k (lock_reqs_keys reqs) ≡ contains k (requests_sectors reqs)
unfolding lock_reqs_keys
contains-lock_reqs_keys k reqs = contains-unique k _ ∙ contains-sort_ids k _

-- `lock_vec` and `unlock_vec` on the same ids lock and unlock every key equally often.
pub count-unlock_vec_keys :
    (k target : ℕ) (neighbors : List ℕ)
    → count k (unlock_vec_keys target neighbors) ≡ count k (lock_vec_keys target neighbors)
unfolding lock_vec_keys unlock_vec_keys
count-unlock_vec_keys k target neighbors =
    ground (
      arith,
      count-sort_ids k (with_target target neighbors),
      count-append k neighbors (target ∷ []),
    )
