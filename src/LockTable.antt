-- ===== src/LockTable.antt =====
-- include/v2/lock_table.h: `SparseLockTable`, locks by key that exist while they are held. One call
-- is one atomic step (each runs inside one operation of the hash map).
pub mod Holds
use ccann.Prelude.{ℕ, ◌+◌, ◌-◌, ◌==◌, if◌then◌else◌, Option, none, some, List, [], ◌∷◌}
use ccann.CuckooMap.{CuckooMap}
use ccann.RwLock.{RwLock}

-- `std::pair<pthread_rwlock_t *, int>`
pub record Entry (R : RwLock) : Type 0 where
  pub lock : R.Lock
  pub held : ℕ

module _ (R : RwLock) (M : CuckooMap (Entry R)) where
  open R use {Lock, init, tryrdlock, trywrlock}
  open M use {Map, find, upsert, erase_fn}

  -- NEWLY_INSERTED: `v = std::make_pair(new pthread_rwlock_t, 0)`
  abbrev pub entry_of : Option (Entry R) → Entry R
  entry_of none = record { lock = init; held = 0 }
  entry_of (some v) = v

  -- The functor of `tryrdlock` and `trywrlock`: the status and the new entry.
  unfoldable pub try_entry : (Lock → ℕ × Lock) → Option (Entry R) → ℕ × Entry R
  try_entry try o =
      let v = entry_of o in
      let (ret, lock) = try v.lock in
      (ret, record v { lock = lock; held = if ret == 0 then v.held + 1 else v.held })

  unfoldable pub try_lock : (Lock → ℕ × Lock) → Map → ℕ → ℕ × Map
  unfolding try_entry
  try_lock try locks key =
      ((try_entry try (find locks key)).0, upsert locks key (λ o. (try_entry try o).1))

  unfoldable pub tryrdlock_key : Map → ℕ → ℕ × Map
  unfolding try_lock
  tryrdlock_key = try_lock tryrdlock

  unfoldable pub trywrlock_key : Map → ℕ → ℕ × Map
  unfolding try_lock
  trywrlock_key = try_lock trywrlock

  -- The functor of `unlock`: the entry is erased when its count falls to 0.
  unfoldable pub unlock_entry : Entry R → Option (Entry R)
  unlock_entry v =
      if v.held - 1 == 0
      then none
      else some (record v { lock = R.unlock v.lock; held = v.held - 1 })

  -- none: `__builtin_trap()`, on an entry that nobody holds. A key with no entry is left alone.
  unfoldable pub unlock_key : Map → ℕ → Option Map
  unfolding unlock_entry
  unlock_key locks key = elim (find locks key) [
    | none ↦ some (erase_fn locks key unlock_entry)
    | some v ↦ if v.held == 0 then none else some (erase_fn locks key unlock_entry)
  ]
