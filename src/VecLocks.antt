-- ===== src/VecLocks.antt =====
-- include/ssd_index.h (`lock_vec`, `unlock_vec`, `get_to_lock_idx`, `lock_idx`, `lock_page_idx`)
-- and include/linux_aligned_file_reader.h (`lockReqs`, `unlockReqs`): which keys an update locks
-- and unlocks, and in which order.
pub mod Order
pub mod Deadlock
pub mod Twice
use ccann.Prelude.{
  ℕ, zero, suc, ◌+◌, ◌-◌, ◌*◌, ◌/◌, ◌^◌, leb, ◌==◌, if◌then◌else◌, not, Bool, Option, none, some,
  List, [], ◌∷◌, ◌++◌, map,
}
use ccann.CuckooMap.{CuckooMap}
use ccann.RwLock.{RwLock}
use ccann.LockTable.{Entry, trywrlock_key, tryrdlock_key, unlock_key}
use ccann.Layout.{Geometry, sector_len, div_round_up, loc_sector_no}

-- kInvalidID, kAllocatedID
abbrev pub invalid_id : ℕ
invalid_id = 2 ^ 32 - 1

abbrev pub allocated_id : ℕ
allocated_id = 2 ^ 32 - 2

-- `std::sort` on ids
unfoldable pub insert_id : ℕ → List ℕ → List ℕ
insert_id a [] = a ∷ []
insert_id a (x ∷ xs) = if leb a x then a ∷ x ∷ xs else x ∷ insert_id a xs

unfoldable pub sort_ids : List ℕ → List ℕ
unfolding insert_id
sort_ids [] = []
sort_ids (x ∷ xs) = insert_id x (sort_ids xs)

-- `std::unique` after an entry `p`
pub unique_after : ℕ → List ℕ → List ℕ
unique_after p [] = []
unique_after p (x ∷ xs) = let rest = unique_after x xs in if p == x then rest else x ∷ rest

unfoldable pub unique : List ℕ → List ℕ
unfolding unique_after
unique [] = []
unique (x ∷ xs) = x ∷ unique_after x xs

-- The neighbours, and the target unless it is kInvalidID.
abbrev pub with_target : ℕ → List ℕ → List ℕ
with_target target neighbors =
    if target == invalid_id then neighbors else neighbors ++ (target ∷ [])

-- The keys that `lock_vec` locks, in order.
unfoldable pub lock_vec_keys : ℕ → List ℕ → List ℕ
unfolding sort_ids
lock_vec_keys target neighbors = sort_ids (with_target target neighbors)

-- The keys that `unlock_vec` unlocks, in order.
unfoldable pub unlock_vec_keys : ℕ → List ℕ → List ℕ
unlock_vec_keys target neighbors = if target == invalid_id then neighbors else target ∷ neighbors

unfoldable pub get_to_lock_idx : ℕ → List ℕ → List ℕ
unfolding sort_ids unique
get_to_lock_idx target neighbors = unique (sort_ids (with_target target neighbors))

-- `lock_page_idx`, where page search is in use; `page` is `id2page`.
unfoldable pub lock_page_idx_keys : (ℕ → ℕ) → Bool → ℕ → List ℕ → List ℕ
unfolding sort_ids unique
lock_page_idx_keys page use_page_search target neighbors =
    if use_page_search then unique (sort_ids (map page (with_target target neighbors))) else []

-- The sectors of one request: `i` runs over 0, SECTOR_LEN, ... below `len`.
unfoldable pub request_sectors : ℕ → ℕ → ℕ → List ℕ
request_sectors offset i zero = []
request_sectors offset i (suc n) =
    ((offset + i) / sector_len) ∷ request_sectors offset (i + sector_len) n

pub requests_sectors : List (ℕ × ℕ) → List ℕ
unfolding request_sectors
requests_sectors [] = []
requests_sectors ((offset, len) ∷ reqs) =
    request_sectors offset 0 (div_round_up len sector_len) ++ requests_sectors reqs

-- `lockReqs`: the sectors of all requests (offset, len), sorted, each once.
unfoldable pub lock_reqs_keys : List (ℕ × ℕ) → List ℕ
unfolding requests_sectors sort_ids unique
lock_reqs_keys reqs = unique (sort_ids (requests_sectors reqs))

-- The lock table under these sequences of calls. `wrlock` and `rdlock` retry until the lock is
-- granted; `none` means that the caller still waits (or, for `unlock_all`, that it trapped).
module _ (R : RwLock) (M : CuckooMap (Entry R)) where
  unfoldable pub lock_all : Bool → M.Map → List ℕ → Option M.Map
  lock_all rd locks [] = some locks
  lock_all rd locks (k ∷ ks) =
      let (ret, locks') = if rd then tryrdlock_key R M locks k else trywrlock_key R M locks k in
      let rest = lock_all rd locks' ks in if ret == 0 then rest else none

  unfoldable pub unlock_all : M.Map → List ℕ → Option M.Map
  unlock_all locks [] = some locks
  unlock_all locks (k ∷ ks) = elim (unlock_key R M locks k) [
    | none ↦ none
    | some locks' ↦ unlock_all locks' ks
  ]
