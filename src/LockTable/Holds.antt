-- ===== src/LockTable/Holds.antt =====
-- `SparseLockTable` refines one read-write lock for each key.
use ccann.Prelude.{
  ℕ, ◌+◌, ◌-◌, ◌<◌, ◌≡◌, refl, Bool, true, false, ◌==◌, if◌then◌else◌, Option, none, some,
  Option-cases, Bool-cases, inl, inr, arith, ◌∙◌, ap, sym, subst,
}
use ccann.CuckooMap.{CuckooMap}
use ccann.RwLock.{
  RwLock, Hold, free, readers, writer, readable, writable, read_more, write_once, released,
}
use ccann.LockTable.{
  Entry, try_entry, try_lock, tryrdlock_key, trywrlock_key, unlock_entry, unlock_key,
}

module _ (R : RwLock) (M : CuckooMap (Entry R)) where
  open M use {Map, find}

  abbrev hold_of : Option (Entry R) → Hold
  hold_of none = free
  hold_of (some v) = R.hold v.lock

  -- The abstract view: who holds each key.
  abbrev pub holds : Map → ℕ → Hold
  holds locks key = hold_of (find locks key)

  -- An entry counts its holders, and exists only while there are some.
  abbrev pub Agrees : Hold → ℕ → Type 0
  Agrees free n = ⊥
  Agrees (readers m) n = (m ≡ n) × (0 < n)
  Agrees writer n = n ≡ 1

  abbrev pub EntryIsValid : Option (Entry R) → Type 0
  EntryIsValid none = Unit
  EntryIsValid (some v) = Agrees (R.hold v.lock) v.held

  abbrev pub IsValid : Map → Type 0
  IsValid locks = (key : ℕ) → EntryIsValid (find locks key)

  either-IsValid :
      (b : Bool) (o p : Option (Entry R))
      → EntryIsValid o
      → EntryIsValid p
      → EntryIsValid (if b then o else p)
  either-IsValid true o p h k = h
  either-IsValid false o p h k = k

  hold_of-if :
      (b : Bool) (o p : Option (Entry R))
      → hold_of (if b then o else p) ≡ (if b then hold_of o else hold_of p)
  hold_of-if true o p = refl
  hold_of-if false o p = refl

  -- The two ways to take a lock, at once: when it is granted, and who holds the lock then.
  module _ (try : R.Lock → ℕ × R.Lock) (granted : Hold → Bool) (next : Hold → Hold)
      (status : (l : R.Lock) → ((try l).0 == 0) ≡ granted (R.hold l))
      (hold : (l : R.Lock) → R.hold (try l).1 ≡ next (R.hold l))
      (first : (granted free ≡ true) × Agrees (next free) 1)
      (keeps : (h : Hold) (n : ℕ)
        → Agrees h n
        → Agrees (next h) (if granted h then n + 1 else n)) where
    record Tried (o : Option (Entry R)) : Type 0 where
      given : ((try_entry R M try o).0 == 0) ≡ granted (hold_of o)
      now : R.hold (try_entry R M try o).1.lock ≡ next (hold_of o)
      valid : EntryIsValid (some (try_entry R M try o).1)

    try_entry-Tried : (o : Option (Entry R)) → EntryIsValid o → Tried o
    unfolding try_entry
    try_entry-Tried none v =
        let e : ((try R.init).0 == 0) ≡ true = status R.init ∙ ap granted R.hold-init ∙ first.0 in
        let h : R.hold (try R.init).1 ≡ next free = hold R.init ∙ ap next R.hold-init in
        record { given = e ∙ sym first.0; now = h; valid = rw (e, h) first.1 }
    try_entry-Tried (some e) v = record {
      given = status e.lock;
      now = hold e.lock;
      valid = rw (status e.lock, hold e.lock) (keeps (R.hold e.lock) e.held v);
    }

    pub try_lock-IsValid :
        (locks : Map) (key : ℕ) → IsValid locks → IsValid (try_lock R M try locks key).1
    unfolding try_lock
    try_lock-IsValid locks key v j = rw (M.find-upsert locks key j (λ o. (try_entry R M try o).1)) (
        either-IsValid (key == j) _ (find locks j) (try_entry-Tried (find locks key) (v key)).valid
          (v j))

    pub try_lock-holds :
        (locks : Map) (key : ℕ)
        → IsValid locks
        → (((try_lock R M try locks key).0 == 0) ≡ granted (holds locks key))
          × ((j : ℕ)
              → holds (try_lock R M try locks key).1 j
                ≡ (if key == j then next (holds locks key) else holds locks j))
    unfolding try_lock
    try_lock-holds locks key v = (
      (try_entry-Tried (find locks key) (v key)).given,
      λ j. rw (M.find-upsert locks key j (λ o. (try_entry R M try o).1)) (
          hold_of-if (key == j) _ (find locks j)
          ∙ ap (λ h. if key == j then h else holds locks j)
              (try_entry-Tried (find locks key) (v key)).now),
    )

  rd_keeps :
      (h : Hold) (n : ℕ) → Agrees h n → Agrees (read_more h) (if readable h then n + 1 else n)
  rd_keeps free n a = absurd a
  rd_keeps (readers m) n a = omega arith
  rd_keeps writer n a = a

  wr_keeps :
      (h : Hold) (n : ℕ) → Agrees h n → Agrees (write_once h) (if writable h then n + 1 else n)
  wr_keeps free n a = absurd a
  wr_keeps (readers m) n a = a
  wr_keeps writer n a = a

  -- A table with no entry: nobody holds a key.
  pub empty-IsValid : IsValid M.empty
  empty-IsValid key = rw (M.find-empty key) tt

  -- `tryrdlock`, granted or not, leaves a valid table: each entry counts its holders.
  pub tryrdlock_key-IsValid :
      (locks : Map) (key : ℕ) → IsValid locks → IsValid (tryrdlock_key R M locks key).1
  unfolding tryrdlock_key
  tryrdlock_key-IsValid =
      try_lock-IsValid R.tryrdlock readable read_more R.tryrdlock_status R.hold-tryrdlock
        (refl, omega arith) rd_keeps

  -- `trywrlock`, granted or not, leaves a valid table.
  pub trywrlock_key-IsValid :
      (locks : Map) (key : ℕ) → IsValid locks → IsValid (trywrlock_key R M locks key).1
  unfolding trywrlock_key
  trywrlock_key-IsValid =
      try_lock-IsValid R.trywrlock writable write_once R.trywrlock_status R.hold-trywrlock
        (refl, omega arith) wr_keeps

  -- In a valid table `tryrdlock` is granted unless the key has a writer; one that is granted adds a
  -- reader, and no other key changes hands.
  pub tryrdlock_key-holds :
      (locks : Map) (key : ℕ)
      → IsValid locks
      → (((tryrdlock_key R M locks key).0 == 0) ≡ readable (holds locks key))
        × ((j : ℕ)
            → holds (tryrdlock_key R M locks key).1 j
              ≡ (if key == j then read_more (holds locks key) else holds locks j))
  unfolding tryrdlock_key
  tryrdlock_key-holds =
      try_lock-holds R.tryrdlock readable read_more R.tryrdlock_status R.hold-tryrdlock
        (refl, omega arith) rd_keeps

  -- In a valid table `trywrlock` is granted exactly when nobody holds the key, whose writer the caller
  -- is then; no other key changes hands.
  pub trywrlock_key-holds :
      (locks : Map) (key : ℕ)
      → IsValid locks
      → (((trywrlock_key R M locks key).0 == 0) ≡ writable (holds locks key))
        × ((j : ℕ)
            → holds (trywrlock_key R M locks key).1 j
              ≡ (if key == j then write_once (holds locks key) else holds locks j))
  unfolding trywrlock_key
  trywrlock_key-holds =
      try_lock-holds R.trywrlock writable write_once R.trywrlock_status R.hold-trywrlock
        (refl, omega arith) wr_keeps

  Agrees-released :
      (h : Hold) (n : ℕ) → Agrees h n → (n - 1 == 0) ≡ false → Agrees (released h) (n - 1)
  Agrees-released free n a q = a
  Agrees-released (readers m) n a q = ground arith
  Agrees-released writer n a q = absurd (ground arith)

  released-last : (h : Hold) (n : ℕ) → Agrees h n → (n - 1 == 0) ≡ true → released h ≡ free
  released-last free n a q = refl
  released-last (readers m) n a q = ground arith
  released-last writer n a q = refl

  Agrees-held : (h : Hold) (n : ℕ) → Agrees h n → (n == 0) ≡ false
  Agrees-held free n a = absurd a
  Agrees-held (readers m) n a = ground arith
  Agrees-held writer n a = ground arith

  abbrev erased : Option (Entry R) → Option (Entry R)
  erased o = elim o [ none ↦ none | some v ↦ unlock_entry R M v ]

  erased-IsValid : (o : Option (Entry R)) → EntryIsValid o → EntryIsValid (erased o)
  unfolding unlock_entry
  erased-IsValid none v = tt
  erased-IsValid (some e) v = elim (Bool-cases (e.held - 1 == 0)) [
    | inl q ↦ rw q tt
    | inr q ↦ rw (q, R.hold-unlock e.lock) (Agrees-released (R.hold e.lock) e.held v q)
  ]

  hold_of-erased :
      (o : Option (Entry R)) → EntryIsValid o → hold_of (erased o) ≡ released (hold_of o)
  unfolding unlock_entry
  hold_of-erased none v = refl
  hold_of-erased (some e) v = elim (Bool-cases (e.held - 1 == 0)) [
    | inl q ↦ rw (q, released-last (R.hold e.lock) e.held v q)
    | inr q ↦ rw (q, R.hold-unlock e.lock)
  ]

  unlock_key_eq :
      (locks : Map) (key : ℕ)
      → IsValid locks
      → unlock_key R M locks key ≡ some (M.erase_fn locks key (unlock_entry R M))
  unfolding unlock_key
  unlock_key_eq locks key v = elim (Option-cases (find locks key)) [
    | inl e ↦ rw (e, unlock_key)
    | inr (o, e) ↦
        let ok : EntryIsValid (some o) = subst EntryIsValid e (v key) in
        rw (e, unlock_key, Agrees-held (R.hold o.lock) o.held ok)
  ]

  -- `unlock` never traps in a valid table: it gives back one hold of the key (none, if nobody holds
  -- it), touches no other key, and leaves a valid table.
  pub unlock_key-holds :
      (locks : Map) (key : ℕ)
      → IsValid locks
      → (locks' : Map) × (unlock_key R M locks key ≡ some locks')
        × IsValid locks'
        × ((j : ℕ)
            → holds locks' j ≡ (if key == j then released (holds locks key) else holds locks j))
  unlock_key-holds locks key v = (
    M.erase_fn locks key (unlock_entry R M),
    unlock_key_eq locks key v,
    λ j. rw (M.find-erase_fn locks key j (unlock_entry R M)) (
        either-IsValid (key == j) (erased (find locks key)) (find locks j)
          (erased-IsValid (find locks key) (v key)) (v j)),
    λ j. rw (M.find-erase_fn locks key j (unlock_entry R M)) (
        hold_of-if (key == j) (erased (find locks key)) (find locks j)
        ∙ ap (λ h. if key == j then h else holds locks j)
            (hold_of-erased (find locks key) (v key))),
  )
