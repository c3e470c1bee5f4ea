-- ===== src/VecLocks/Twice.antt =====
-- The end of `insert_phase_pm` and `insert_phase` (src/update/direct_insert.cpp): they append the
-- target to `new_nhood` before `unlock_vec`, which unlocks the target and then `new_nhood`.
use ccann.Prelude.{
  ℕ, ◌+◌, ◌≡◌, refl, ◌∙◌, ap, true, false, contains, ◌==◌, if◌then◌else◌, some, List, [], ◌∷◌, ◌++◌,
  count, count-append, arith, ==_refl,
}
use ccann.CuckooMap.{CuckooMap}
use ccann.RwLock.{RwLock, free, writer, writable}
use ccann.LockTable.{Entry, trywrlock_key, unlock_key}
use ccann.LockTable.Holds.{
  holds, IsValid, trywrlock_key-IsValid, trywrlock_key-holds, unlock_key-holds,
}
use ccann.VecLocks.{invalid_id, lock_vec_keys, unlock_vec_keys, unlock_all}
use ccann.VecLocks.Order.{count-unlock_vec_keys}

-- The keys that an insert of `target` unlocks at its end.
unfoldable pub insert_unlocks : ℕ → List ℕ → List ℕ
unfolding unlock_vec_keys
insert_unlocks target new_nhood = unlock_vec_keys target (new_nhood ++ (target ∷ []))

-- The target is unlocked once more than it was locked; every other key as often.
pub count-insert_unlocks :
    (k target : ℕ) (new_nhood : List ℕ)
    → count k (insert_unlocks target new_nhood)
      ≡ count k (lock_vec_keys target new_nhood) + (if k == target then 1 else 0)
unfolding insert_unlocks unlock_vec_keys
count-insert_unlocks k target new_nhood =
    ground (arith, count-unlock_vec_keys k target new_nhood, count-append k new_nhood (target ∷ []))

module _ (R : RwLock) (M : CuckooMap (Entry R)) where
  -- Unlocks that end with the target free it, whoever holds it then.
  unlock_all-last :
      (keys : List ℕ) (locks : M.Map) (target : ℕ)
      → IsValid R M locks
      → contains target keys ≡ false
      → holds R M locks target ≡ writer
      → (after : M.Map) × (unlock_all R M locks (keys ++ (target ∷ [])) ≡ some after)
        × IsValid R M after
        × (holds R M after target ≡ free)
  unfolding unlock_all
  unlock_all-last [] locks target v c held =
      let (after, e, w, h) = unlock_key-holds R M locks target v in
      (after, rw (unlock_all, e) refl, w, rw (h target, ==_refl target, held) refl)
  unlock_all-last (k ∷ keys) locks target v c held =
      let (one, e, w, h) = unlock_key-holds R M locks k v in
      let other : (k == target) ≡ false = ground arith in
      let still : holds R M one target ≡ writer = rw (h target, other) held in
      let (after, q, u, gone) = unlock_all-last keys one target w (ground arith) still in
      (after, rw (unlock_all, e) q, u, gone)

  -- In a valid table where an insert holds its target, which is no neighbour of its own and not
  -- kInvalidID: the unlocks of the insert begin with the target; another update can take the target's
  -- write lock right after this; the other unlocks then do not trap, and after them a third update is
  -- granted the lock that the second one never gave back.
  pub insert_unlocks-frees_other :
      (locks : M.Map) (target : ℕ) (new_nhood : List ℕ)
      → IsValid R M locks
      → holds R M locks target ≡ writer
      → contains target new_nhood ≡ false
      → (target == invalid_id) ≡ false
      → (rest : List ℕ) × (l1 l3 : M.Map) × (insert_unlocks target new_nhood ≡ target ∷ rest)
        × (unlock_key R M locks target ≡ some l1)
        × (((trywrlock_key R M l1 target).0 == 0) ≡ true)
        × (unlock_all R M (trywrlock_key R M l1 target).1 rest ≡ some l3)
        × (((trywrlock_key R M l3 target).0 == 0) ≡ true)
  unfolding insert_unlocks unlock_vec_keys
  insert_unlocks-frees_other locks target new_nhood v held absent real =
      let (l1, e1, v1, h1) = unlock_key-holds R M locks target v in
      let (g2, h2) = trywrlock_key-holds R M l1 target v1 in
      let v2 = trywrlock_key-IsValid R M l1 target v1 in
      let free1 : holds R M l1 target ≡ free = rw (h1 target, ==_refl target, held) refl in
      let taken : holds R M (trywrlock_key R M l1 target).1 target ≡ writer =
        rw (h2 target, ==_refl target, free1) refl in
      let (l3, e3, v3, free3) =
        unlock_all-last new_nhood (trywrlock_key R M l1 target).1 target v2 absent taken in
      let (g4, h4) = trywrlock_key-holds R M l3 target v3 in
      (
        new_nhood ++ (target ∷ []),
        l1,
        l3,
        rw (insert_unlocks, real) refl,
        e1,
        g2 ∙ ap writable free1,
        e3,
        g4 ∙ ap writable free3,
      )
