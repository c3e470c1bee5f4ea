-- ===== src/RwLock.antt =====
-- The read-write locks of POSIX threads as the program calls them: who holds a lock, and what
-- `pthread_rwlock_tryrdlock`, `trywrlock` and `unlock` do to that. A lock has no other waiters,
-- since the program only tries; the limit on the number of read locks is not reached.
use ccann.Prelude.{ℕ, ◌+◌, ◌-◌, ◌≡◌, refl, Bool, true, false, leb, ◌==◌, if◌then◌else◌}

pub data Hold : Type 0 where
  free : Hold
  readers : ℕ → Hold
  writer : Hold

abbrev pub readable : Hold → Bool
readable writer = false
readable h = true

abbrev pub writable : Hold → Bool
writable free = true
writable h = false

abbrev pub read_more : Hold → Hold
read_more free = readers 1
read_more (readers n) = readers (n + 1)
read_more writer = writer

abbrev pub write_once : Hold → Hold
write_once free = writer
write_once h = h

abbrev pub released : Hold → Hold
released free = free
released (readers n) = if leb n 1 then free else readers (n - 1)
released writer = free

pub record RwLock : Type 1 where
  pub Lock : Type 0
  pub init : Lock
  -- The status is 0 when the lock was taken.
  pub tryrdlock : Lock → ℕ × Lock
  pub trywrlock : Lock → ℕ × Lock
  pub unlock : Lock → Lock
  pub hold : Lock → Hold
  pub hold-init : hold init ≡ free
  pub tryrdlock_status : (l : Lock) → ((tryrdlock l).0 == 0) ≡ readable (hold l)
  pub hold-tryrdlock : (l : Lock) → hold (tryrdlock l).1 ≡ read_more (hold l)
  pub trywrlock_status : (l : Lock) → ((trywrlock l).0 == 0) ≡ writable (hold l)
  pub hold-trywrlock : (l : Lock) → hold (trywrlock l).1 ≡ write_once (hold l)
  pub hold-unlock : (l : Lock) → hold (unlock l) ≡ released (hold l)

abbrev pub status : Bool → ℕ
status true = 0
status false = 16

pub rd_status : (l : Hold) → (status (readable l) == 0) ≡ readable l
rd_status free = refl
rd_status (readers n) = refl
rd_status writer = refl

pub wr_status : (l : Hold) → (status (writable l) == 0) ≡ writable l
wr_status free = refl
wr_status (readers n) = refl
wr_status writer = refl

-- The states themselves meet the laws.
abbrev pub hold_lock : RwLock
hold_lock = record {
  Lock = Hold;
  init = free;
  tryrdlock = λ l. (status (readable l), read_more l);
  trywrlock = λ l. (status (writable l), write_once l);
  unlock = released;
  hold = λ l. l;
  hold-init = refl;
  tryrdlock_status = rd_status;
  hold-tryrdlock = λ l. refl;
  trywrlock_status = wr_status;
  hold-trywrlock = λ l. refl;
  hold-unlock = λ l. refl;
}
