-- ===== src/Tests/Pages.antt =====
-- The theorems on the page cache, for a file of three pages of which one is cached.
use ccann.Prelude.{
  ℕ, ◌+◌, ◌≡◌, refl, ◌==◌, if◌then◌else◌, Option, none, some, List, [], ◌∷◌, length, count, arith,
  Bool-cases, inl, inr,
}
use ccann.CuckooMap.{CuckooMap, function_map}
use ccann.VecLocks.{request_sectors}
use ccann.PageCache.{Item, WriteRequest, read_alloc, deref_all, wbc_write, written_pages}
use ccann.PageCache.Effects.{refs_of}
use ccann.PageCache.Reads.{HasRoom, current, read_alloc_lem}
use ccann.PageCache.Release.{IsReferenced, deref_all-read_alloc}
use ccann.PageCache.Writes.{last_page, wbc_write_lem}

abbrev pages : CuckooMap (Item ℕ)
pages = function_map (Item ℕ)

-- Block 2 is cached with a newer page.
abbrev cached_2 : Option (Item ℕ)
cached_2 = some (record { buf = 77; ref_cnt = 1 })

abbrev cache : ℕ → Option (Item ℕ)
cache b = if b == 2 then cached_2 else none

abbrev file : ℕ → ℕ
file offset = offset + 5

abbrev reads : List ℕ
reads = 8192 ∷ 4096 ∷ 4096 ∷ []

abbrev writes : List (WriteRequest ℕ)
writes = record { offset = 4096; len = 8192; page = λ i. i + 1 } ∷ []

cache-HasRoom : HasRoom ℕ pages 0 6 cache
cache-HasRoom b = elim (Bool-cases (b == 2)) [
  | inl e ↦ rw e (omega arith)
  | inr e ↦ rw e (omega arith)
]

cache-IsReferenced : (b : ℕ) → IsReferenced ℕ pages 0 (cache b)
cache-IsReferenced b = elim (Bool-cases (b == 2)) [ inl e ↦ rw e (omega arith) | inr e ↦ rw e tt ]

read_alloc_lem_example :
    (after : ℕ → Option (Item ℕ)) × (read_alloc ℕ pages 0 file reads cache
      ≡ some (77 ∷ 4101 ∷ 4101 ∷ [], (2 ∷ 1 ∷ 1 ∷ [], after)))
    × ((b : ℕ)
        → refs_of ℕ pages 0 (after b) ≡ refs_of ℕ pages 0 (cache b) + count b (2 ∷ 1 ∷ 1 ∷ []))
    × ((b : ℕ) → current ℕ pages 0 file after b ≡ current ℕ pages 0 file cache b)
read_alloc_lem_example =
    read_alloc_lem ℕ pages 0 file reads cache (refl, (refl, (refl, tt))) cache-HasRoom

deref_all-read_alloc_example :
    (got : List ℕ) × (page_ref : List ℕ) × (after : ℕ → Option (Item ℕ)) × (read_alloc ℕ pages 0
        file reads cache
      ≡ some (got, (page_ref, after)))
    × ((b : ℕ) → deref_all ℕ pages 0 page_ref after b ≡ cache b)
deref_all-read_alloc_example =
    deref_all-read_alloc ℕ pages 0 file reads cache (refl, (refl, (refl, tt))) cache-HasRoom
      cache-IsReferenced

two_pages : length (written_pages ℕ pages 0 writes) ≡ 2
unfolding written_pages request_sectors
two_pages = refl

writes-HasRoom : HasRoom ℕ pages 0 (length (written_pages ℕ pages 0 writes)) cache
writes-HasRoom b = omega (arith, two_pages, cache-HasRoom b)

wbc_write_lem_example :
    let (page_ref, after) = wbc_write ℕ pages 0 writes cache in
    (refs_of ℕ pages 0 (after 2) ≡ refs_of ℕ pages 0 (cache 2) + count 2 page_ref)
    × (current ℕ pages 0 file after 2
        ≡ last_page ℕ pages 0 writes 2 (current ℕ pages 0 file cache 2))
wbc_write_lem_example = wbc_write_lem ℕ pages 0 file writes cache 2 writes-HasRoom
