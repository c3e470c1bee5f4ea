-- ===== src/PageCache.antt =====
-- include/v2/page_cache.h, and the calls of it in include/aligned_file_reader.h and
-- src/utils/linux_aligned_file_reader.cpp: pages that are shared by reference count. One call of
-- the hash map is one atomic step; a call here runs without another thread in between.
pub mod Effects
pub mod Reads
pub mod Release
pub mod Writes
use ccann.Prelude.{
  ℕ, zero, suc, ◌+◌, ◌-◌, ◌*◌, ◌/◌, ◌%◌, ◌^◌, Bool, true, false, ltb, ◌==◌, if◌then◌else◌, Option,
  none, some, List, [], ◌∷◌, ◌++◌, map,
}
use ccann.CuckooMap.{CuckooMap}
use ccann.Layout.{sector_len, div_round_up}
use ccann.VecLocks.{request_sectors}

-- `PageCacheItem`: the SECTOR_LEN bytes at `buf`, and the references.
pub record Item (P : Type 0) : Type 0 where
  pub buf : P
  pub ref_cnt : ℕ

-- The part of an `IORequest` that is written: the bytes at an offset of its buffer.
pub record WriteRequest (P : Type 0) : Type 0 where
  pub offset : ℕ
  pub len : ℕ
  pub page : ℕ → P

abbrev pub block_of : ℕ → ℕ
block_of offset = offset / sector_len

-- `P` is SECTOR_LEN bytes, which memcpy copies; `fresh` what `new` leaves in a buffer.
module _ (P : Type 0) (M : CuckooMap (Item P)) (fresh : P) where
  open M use {Map, find, update_fn, upsert, uprase_fn}

  -- `ref` and `deref` on 64 bits.
  abbrev pub add_ref : Bool → Item P → Item P
  add_ref ref v = if ref then record v { ref_cnt = (v.ref_cnt + 1) % 2 ^ 64 } else v

  abbrev pub drop_ref : Item P → Item P
  drop_ref v = record v { ref_cnt = (v.ref_cnt + (2 ^ 64 - 1)) % 2 ^ 64 }

  -- What is copied to `value`, none where `get` returns false.
  unfoldable pub get : Map → ℕ → Bool → Option P × Map
  get cache block_no ref = (
    elim (find cache block_no) [ none ↦ none | some v ↦ some v.buf ],
    update_fn cache block_no (add_ref ref),
  )

  -- NEWLY_INSERTED: a new buffer with no reference.
  abbrev pub item_of : Option (Item P) → Item P
  item_of none = record { buf = fresh; ref_cnt = 0 }
  item_of (some v) = v

  unfoldable pub put : Map → ℕ → P → Bool → Map
  put cache block_no value ref =
      upsert cache block_no (λ o. record (add_ref ref (item_of o)) { buf = value })

  -- A block that is not there is left alone; the last reference erases the item.
  abbrev pub deref_item : Option (Item P) → Option (Item P)
  deref_item none = none
  deref_item (some v) = let next = drop_ref v in if next.ref_cnt == 0 then none else some next

  unfoldable pub deref : Map → ℕ → Map
  deref cache block_no = uprase_fn cache block_no deref_item

  -- `AlignedFileReader::deref` of a list of pages.
  unfoldable pub deref_all : List ℕ → Map → Map
  unfolding deref
  deref_all [] cache = cache
  deref_all (x ∷ page_ref) cache = deref_all page_ref (deref cache x)

  -- The first loop of `read_alloc` over the offsets: for each request the page that was found;
  -- none for `crash()`.
  unfoldable pub get_all : List ℕ → Map → Option (List (Option P) × Map)
  unfolding get
  get_all [] cache = some ([], cache)
  get_all (offset ∷ read_reqs) cache =
      let (found, after) = get cache (block_of offset) true in
      let rest = get_all read_reqs after in
      if offset % sector_len == 0
      then elim rest [ none ↦ none | some (all, last) ↦ some (found ∷ all, last) ]
      else none

  -- The pages in the buffers after `read`; `file` is the SECTOR_LEN bytes at an offset of the file.
  unfoldable pub filled : (ℕ → P) → List ℕ → List (Option P) → List P
  filled file [] all = []
  filled file (offset ∷ read_reqs) [] = []
  filled file (offset ∷ read_reqs) (none ∷ all) = file offset ∷ filled file read_reqs all
  filled file (offset ∷ read_reqs) (some p ∷ all) = p ∷ filled file read_reqs all

  -- The loop over `disk_read_reqs`.
  unfoldable pub put_missing : (ℕ → P) → List ℕ → List (Option P) → Map → Map
  unfolding put
  put_missing file [] all cache = cache
  put_missing file (offset ∷ read_reqs) [] cache = cache
  put_missing file (offset ∷ read_reqs) (none ∷ all) cache =
      put_missing file read_reqs all (put cache (block_of offset) (file offset) true)
  put_missing file (offset ∷ read_reqs) (some p ∷ all) cache = put_missing file read_reqs all cache

  -- The pages read, what is pushed to `page_ref`, and the cache.
  unfoldable pub read_alloc : (ℕ → P) → List ℕ → Map → Option (List P × (List ℕ × Map))
  unfolding get_all filled put_missing
  read_alloc file read_reqs cache = elim (get_all read_reqs cache) [
    | none ↦ none
    | some (all, after) ↦
        some (
          filled file read_reqs all,
          (map block_of read_reqs, put_missing file read_reqs all after),
        )
  ]

  -- The pages of one request from byte i on, in n rounds.
  unfoldable pub put_sectors : WriteRequest P → ℕ → ℕ → Map → Map
  unfolding put
  put_sectors req i zero cache = cache
  put_sectors req i (suc n) cache =
      put_sectors req (i + sector_len) n (put cache (block_of (req.offset + i)) (req.page i) true)

  unfoldable pub put_requests : List (WriteRequest P) → Map → Map
  unfolding put_sectors
  put_requests [] cache = cache
  put_requests (req ∷ write_reqs) cache =
      put_requests write_reqs (put_sectors req 0 (div_round_up req.len sector_len) cache)

  -- What is pushed to `page_ref`.
  unfoldable pub written_pages : List (WriteRequest P) → List ℕ
  written_pages [] = []
  written_pages (req ∷ write_reqs) =
      request_sectors req.offset 0 (div_round_up req.len sector_len) ++ written_pages write_reqs

  unfoldable pub wbc_write : List (WriteRequest P) → Map → List ℕ × Map
  unfolding put_requests written_pages
  wbc_write write_reqs cache = (written_pages write_reqs, put_requests write_reqs cache)
