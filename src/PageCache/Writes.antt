-- ===== src/PageCache/Writes.antt =====
-- include/aligned_file_reader.h: what `wbc_write` puts into the cache.
use ccann.Prelude.{
  ℕ, zero, suc, ◌+◌, ◌*◌, ◌≤◌, ◌≡◌, refl, ap, ◌∙◌, Bool, true, false, ◌==◌, if◌then◌else◌, Option,
  List, [], ◌∷◌, length, count, count-append, arith, length-append,
}
use ccann.CuckooMap.{CuckooMap}
use ccann.Layout.{sector_len, div_round_up}
use ccann.VecLocks.{request_sectors}
use ccann.PageCache.{
  Item, WriteRequest, block_of, put, put_sectors, put_requests, written_pages, wbc_write,
}
use ccann.PageCache.Effects.{refs_of, written, find-put, refs-written}
use ccann.PageCache.Reads.{HasRoom, held, current}

module _ (P : Type 0) (M : CuckooMap (Item P)) (fresh : P) where
  open M use {Map, find}

  -- The last page that a request writes to a block, p where it writes none.
  abbrev pub last_sector : WriteRequest P → ℕ → ℕ → ℕ → P → P
  last_sector req b i zero p = p
  last_sector req b i (suc n) p =
      last_sector req b (i + sector_len) n
        (if b == block_of (req.offset + i) then req.page i else p)

  abbrev pub last_page : List (WriteRequest P) → ℕ → P → P
  last_page [] b p = p
  last_page (req ∷ write_reqs) b p =
      last_page write_reqs b (last_sector req b 0 (div_round_up req.len sector_len) p)

  held-written :
      (p q : P) (t : Bool) (o : Option (Item P))
      → held P M fresh p (written P M fresh q (if t then 1 else 0) o)
        ≡ (if t then q else held P M fresh p o)
  held-written p q true o = refl
  held-written p q false o = refl

  count-length : (b : ℕ) (xs : List ℕ) → count b xs ≤ length xs
  count-length b [] = omega arith
  count-length b (x ∷ xs) = ground (arith, count-length b xs)

  length-request_sectors : (offset i n : ℕ) → length (request_sectors offset i n) ≡ n
  unfolding request_sectors
  length-request_sectors offset i zero = refl
  length-request_sectors offset i (suc n) =
      ap suc (length-request_sectors offset (i + sector_len) n)

  put_sectors_lem :
      (req : WriteRequest P) (i n : ℕ) (cache : Map) (b : ℕ) (p : P)
      → HasRoom P M fresh n cache
      → (refs_of P M fresh (find (put_sectors P M fresh req i n cache) b)
          ≡ refs_of P M fresh (find cache b) + count b (request_sectors req.offset i n))
        × (held P M fresh p (find (put_sectors P M fresh req i n cache) b)
            ≡ last_sector req b i n (held P M fresh p (find cache b)))
  unfolding put_sectors request_sectors
  put_sectors_lem req i zero cache b p h = (omega arith, refl)
  put_sectors_lem req i (suc n) cache b p h =
      let block = block_of (req.offset + i) in
      let one = put P M fresh cache block (req.page i) true in
      let first : (c : ℕ)
          → find one c
            ≡ written P M fresh (req.page i) (if c == block then 1 else 0) (find cache c) =
        λ c. find-put P M fresh cache block c (req.page i) (omega (arith, h block)) in
      let refs : (c : ℕ)
          → refs_of P M fresh (find one c)
            ≡ refs_of P M fresh (find cache c) + (if c == block then 1 else 0) =
        λ c.
          ap (λ o. refs_of P M fresh o) (first c)
          ∙ refs-written P M fresh (req.page i) (if c == block then 1 else 0) (find cache c) in
      let room : HasRoom P M fresh n one = λ c. ground (arith, refs c, h c) in
      let (r, v) = put_sectors_lem req (i + sector_len) n one b p room in
      (
        omega (arith, r, refs b),
        v
            ∙ ap (last_sector req b (i + sector_len) n) (
                ap (held P M fresh p) (first b)
                ∙ held-written p (req.page i) (b == block) (find cache b)),
      )

  put_requests_lem :
      (write_reqs : List (WriteRequest P)) (cache : Map) (b : ℕ) (p : P)
      → HasRoom P M fresh (length (written_pages P M fresh write_reqs)) cache
      → (refs_of P M fresh (find (put_requests P M fresh write_reqs cache) b)
          ≡ refs_of P M fresh (find cache b) + count b (written_pages P M fresh write_reqs))
        × (held P M fresh p (find (put_requests P M fresh write_reqs cache) b)
            ≡ last_page write_reqs b (held P M fresh p (find cache b)))
  unfolding put_requests written_pages
  put_requests_lem [] cache b p h = (omega arith, refl)
  put_requests_lem (req ∷ write_reqs) cache b p h =
      let n = div_round_up req.len sector_len in
      let mine = request_sectors req.offset 0 n in
      let rest = written_pages P M fresh write_reqs in
      let one = put_sectors P M fresh req 0 n cache in
      let size = length-append mine rest in
      let mine_size = length-request_sectors req.offset 0 n in
      let at =
        λ (c : ℕ). put_sectors_lem req 0 n cache c p (λ d. omega (arith, h d, size, mine_size)) in
      let room : HasRoom P M fresh (length rest) one =
        λ c. omega (arith, (at c).0, count-length c mine, h c, size) in
      let (r, v) = put_requests_lem write_reqs one b p room in
      (
        omega (arith, r, (at b).0, count-append b mine rest),
        v ∙ ap (last_page write_reqs b) (at b).1,
      )

  -- Where the references fit into 64 bits, a write gives each block as many references as it pushes
  -- pages of it, and the block then holds the last page written to it, or what it held.
  pub wbc_write_lem :
      (file : ℕ → P) (write_reqs : List (WriteRequest P)) (cache : Map) (b : ℕ)
      → HasRoom P M fresh (length (written_pages P M fresh write_reqs)) cache
      → let (page_ref, after) = wbc_write P M fresh write_reqs cache in
        (refs_of P M fresh (find after b) ≡ refs_of P M fresh (find cache b) + count b page_ref)
        × (current P M fresh file after b ≡ last_page write_reqs b (current P M fresh file cache b))
  unfolding wbc_write
  wbc_write_lem file write_reqs cache b h =
      put_requests_lem write_reqs cache b (file (b * sector_len)) h
