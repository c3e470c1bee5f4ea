-- ===== src/Tests/Locks.antt =====
-- The theorems on the lock table, for one table in which a writer holds key 7.
use ccann.Prelude.{ℕ, ◌≡◌, refl, true, ◌==◌, if◌then◌else◌, some, List, [], ◌∷◌, arith, inl}
use ccann.CuckooMap.{function_map, CuckooMap}
use ccann.RwLock.{hold_lock, writer, writable, write_once, released}
use ccann.LockTable.{Entry, trywrlock_key, unlock_key}
use ccann.LockTable.Holds.{holds, IsValid, trywrlock_key-holds, unlock_key-holds}
use ccann.VecLocks.{unlock_all, get_to_lock_idx}
use ccann.VecLocks.Order.{Ascending, get_to_lock_idx-Ascending, contains-get_to_lock_idx}
use ccann.VecLocks.Deadlock.{Step, System, here, start, no_deadlock}
use ccann.VecLocks.Twice.{insert_unlocks, insert_unlocks-frees_other}

abbrev table : CuckooMap (Entry hold_lock)
table = function_map (Entry hold_lock)

abbrev held_7 : table.Map
held_7 k = if 7 == k then some (record { lock = writer; held = 1 }) else table.empty k

held_7-IsValid : IsValid hold_lock table held_7
held_7-IsValid key = ground arith

trywrlock_key-holds_example :
    (((trywrlock_key hold_lock table held_7 7).0 == 0) ≡ writable writer)
    × ((j : ℕ)
        → holds hold_lock table (trywrlock_key hold_lock table held_7 7).1 j
          ≡ (if 7 == j then write_once writer else holds hold_lock table held_7 j))
trywrlock_key-holds_example = trywrlock_key-holds hold_lock table held_7 7 held_7-IsValid

unlock_key-holds_example :
    (locks' : table.Map) × (unlock_key hold_lock table held_7 7 ≡ some locks')
    × IsValid hold_lock table locks'
    × ((j : ℕ)
        → holds hold_lock table locks' j
          ≡ (if 7 == j then released writer else holds hold_lock table held_7 j))
unlock_key-holds_example = unlock_key-holds hold_lock table held_7 7 held_7-IsValid

insert_unlocks-frees_other_example :
    (rest : List ℕ) × (l1 l3 : table.Map) × (insert_unlocks 7 (9 ∷ []) ≡ 7 ∷ rest)
    × (unlock_key hold_lock table held_7 7 ≡ some l1)
    × (((trywrlock_key hold_lock table l1 7).0 == 0) ≡ true)
    × (unlock_all hold_lock table (trywrlock_key hold_lock table l1 7).1 rest ≡ some l3)
    × (((trywrlock_key hold_lock table l3 7).0 == 0) ≡ true)
insert_unlocks-frees_other_example =
    insert_unlocks-frees_other hold_lock table held_7 7 (9 ∷ []) held_7-IsValid refl refl refl

get_to_lock_idx-Ascending_example : Ascending 0 (get_to_lock_idx 7 (9 ∷ 2 ∷ 7 ∷ []))
get_to_lock_idx-Ascending_example = get_to_lock_idx-Ascending 7 (9 ∷ 2 ∷ 7 ∷ [])

-- Two updates that want the same keys.
abbrev both : ℕ → List ℕ
both i = get_to_lock_idx 3 (9 ∷ 2 ∷ [])

no_deadlock_example : (t : System) × Step 2 (start both) t
unfolding get_to_lock_idx
no_deadlock_example =
    no_deadlock 2 (λ i. 3) (λ i. 9 ∷ 2 ∷ [])
      (λ i k h. let asked = contains-get_to_lock_idx k 3 (9 ∷ 2 ∷ []) in ground arith) (start both)
      here 0 (omega arith) (inl (λ h. ground arith))
