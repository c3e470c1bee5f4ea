-- ===== src/PageCache/Reads.antt =====
-- `read_alloc`: what it reads, and the references it takes.
use ccann.Prelude.{
  ℕ, zero, suc, ◌+◌, ◌*◌, ◌%◌, ◌^◌, ◌≤◌, ◌<◌, ◌≡◌, refl, sym, ap, ◌∙◌, inl, inr, true, ◌==◌,
  if◌then◌else◌, Option, none, some, List, [], ◌∷◌, length, map, All, count, Bool-cases,
  Option-cases, arith,
}
use ccann.CuckooMap.{CuckooMap}
use ccann.Layout.{sector_len}
use ccann.PageCache.{Item, block_of, get, put, get_all, filled, put_missing, read_alloc}
use ccann.PageCache.Effects.{
  refs_of, buf_of, more, more-zero, more-more, find-get, written, written-written, find-put,
  refs-more, buf-more, refs-written,
}

module _ (P : Type 0) (M : CuckooMap (Item P)) (fresh : P) where
  open M use {Map, find}

  -- n references more fit into 64 bits, for every block.
  abbrev pub HasRoom : ℕ → Map → Type 0
  HasRoom n cache = (b : ℕ) → refs_of P M fresh (find cache b) + n < 2 ^ 64

  -- The offsets are multiples of SECTOR_LEN.
  abbrev pub Aligned : List ℕ → Type 0
  Aligned read_reqs = All (λ offset. offset % sector_len ≡ 0) read_reqs

  abbrev cached : Map → ℕ → Option P
  cached cache b = buf_of P M fresh (find cache b)

  map_blocks_eq :
      (g h : ℕ → Option P) (offsets : List ℕ)
      → ((b : ℕ) → g b ≡ h b)
      → map (λ o. g (block_of o)) offsets ≡ map (λ o. h (block_of o)) offsets
  map_blocks_eq g h [] e = refl
  map_blocks_eq g h (o ∷ offsets) e = cc (e (block_of o), map_blocks_eq g h offsets e)

  get-found : (cache : Map) (block : ℕ) → (get P M fresh cache block true).0 ≡ cached cache block
  unfolding get
  get-found cache block = refl

  get_all_lem :
      (offsets : List ℕ) (cache : Map)
      → Aligned offsets
      → HasRoom (length offsets) cache
      → (after : Map) × (get_all P M fresh offsets cache
          ≡ some (map (λ o. cached cache (block_of o)) offsets, after))
        × ((b : ℕ) → find after b ≡ more P M fresh (count b (map block_of offsets)) (find cache b))
  unfolding get_all
  get_all_lem [] cache a h = (cache, refl, λ b. sym (more-zero P M fresh (find cache b)))
  get_all_lem (o ∷ offsets) cache (a, rest) h =
      let block = block_of o in
      let one = (get P M fresh cache block true).1 in
      let first : (b : ℕ)
          → find one b ≡ more P M fresh (if b == block then 1 else 0) (find cache b) =
        λ b. find-get P M fresh cache block b (omega (arith, h block)) in
      let room : HasRoom (length offsets) one = λ b.
        let t = refs-more P M fresh (if b == block then 1 else 0) (find cache b) in
        let u = ap (λ x. refs_of P M fresh x) (first b) in ground (arith, t, u, h b) in
      let (after, e, q) = get_all_lem offsets one rest room in
      let same = map_blocks_eq (cached one) (cached cache) offsets (λ b.
        ap (λ x. buf_of P M fresh x) (first b)
        ∙ buf-more P M fresh (if b == block then 1 else 0) (find cache b)) in
      let found : (get P M fresh cache block true).0 ≡ cached cache block = get-found cache block in
      (
        after,
        rw (get_all, a, e, same, found) refl,
        λ b.
            q b
            ∙ ap (more P M fresh (count b (map block_of offsets))) (first b)
            ∙ more-more P M fresh (count b (map block_of offsets)) (if b == block then 1 else 0)
                (find cache b),
      )

  -- What a block holds, whether it is cached or not.
  abbrev pub held : P → Option (Item P) → P
  held p none = p
  held p (some v) = v.buf

  abbrev pub current : (ℕ → P) → Map → ℕ → P
  current file cache b = held (file (b * sector_len)) (find cache b)

  pub count-blocks : (b : ℕ) (offsets : List ℕ) → count b (map block_of offsets) ≤ length offsets
  count-blocks b [] = omega arith
  count-blocks b (o ∷ offsets) = ground (arith, count-blocks b offsets)

  abbrev missed : Option P → P → ℕ → Option (Item P) → Option (Item P)
  missed (some p) q n o = o
  missed none q n o = written P M fresh q n o

  -- Only blocks that were not cached are put, each with the page of the file.
  put_missing_lem :
      (file : ℕ → P) (g : ℕ → Option P) (offsets : List ℕ) (cache : Map) (b : ℕ)
      → Aligned offsets
      → HasRoom (length offsets) cache
      → find (put_missing P M fresh file offsets (map (λ o. g (block_of o)) offsets) cache) b
        ≡ missed (g b) (file (b * sector_len)) (count b (map block_of offsets)) (find cache b)
  unfolding put_missing
  put_missing_lem file g [] cache b a h = elim (Option-cases (g b)) [
    | inl e ↦ rw e refl
    | inr (p, e) ↦ rw e refl
  ]
  put_missing_lem file g (o ∷ offsets) cache b (a, rest) h =
      let block = block_of o in
      let n = count b (map block_of offsets) in
      let one = put P M fresh cache block (file o) true in
      let first : (c : ℕ)
          → find one c ≡ written P M fresh (file o) (if c == block then 1 else 0) (find cache c) =
        λ c. find-put P M fresh cache block c (file o) (omega (arith, h block)) in
      let room : HasRoom (length offsets) one = λ c.
        let t = refs-written P M fresh (file o) (if c == block then 1 else 0) (find cache c) in
        let u = ap (λ x. refs_of P M fresh x) (first c) in ground (arith, t, u, h c) in
      let less_room : HasRoom (length offsets) cache = λ c. omega (arith, h c) in
      let keep : n ≡ 0 + n = omega arith in
      let skip = put_missing_lem file g offsets cache b rest less_room in
      let next = put_missing_lem file g offsets one b rest room in
      elim (Bool-cases (b == block)) [
        | inl here ↦
            let q : block ≡ b = ground arith in
            let place : o ≡ b * sector_len = omega (arith, a, q) in
            let known = ap g q in
            let up : suc n ≡ 1 + n = omega arith in
            elim (Option-cases (g block)) [
              | inl e ↦
                  let t : g b ≡ none = sym known ∙ e in
                  let there : find one b
                      ≡ written P M fresh (file (b * sector_len)) 1 (find cache b) =
                    first b
                    ∙ ap (λ t. written P M fresh (file o) (if t then 1 else 0) (find cache b)) here
                    ∙ ap (λ x. written P M fresh (file x) 1 (find cache b)) place in
                  rw (put_missing, e, t, here)
                    (next
                      ∙ ap (λ x. missed x (file (b * sector_len)) n (find one b)) t
                      ∙ ap (written P M fresh (file (b * sector_len)) n) there
                      ∙ written-written P M fresh (file (b * sector_len)) n (find cache b)
                      ∙ ap (λ k. written P M fresh (file (b * sector_len)) k (find cache b)) up)
              | inr (p, e) ↦
                  let t : g b ≡ some p = sym known ∙ e in
                  rw (put_missing, e, t)
                    (skip ∙ ap (λ x. missed x (file (b * sector_len)) n (find cache b)) t)
            ]
        | inr there ↦ elim (Option-cases (g block)) [
          | inl e ↦
              let same : find one b ≡ find cache b =
                first b
                ∙ ap (λ t. written P M fresh (file o) (if t then 1 else 0) (find cache b)) there in
              rw (put_missing, e, there)
                (next
                  ∙ ap (missed (g b) (file (b * sector_len)) n) same
                  ∙ ap (λ k. missed (g b) (file (b * sector_len)) k (find cache b)) keep)
          | inr (p, e) ↦
              rw (put_missing, e, there)
                (skip ∙ ap (λ k. missed (g b) (file (b * sector_len)) k (find cache b)) keep)
        ]
      ]

  filled_lem :
      (file : ℕ → P) (offsets : List ℕ) (cache : Map)
      → Aligned offsets
      → filled P M fresh file offsets (map (λ o. cached cache (block_of o)) offsets)
        ≡ map (λ o. current file cache (block_of o)) offsets
  unfolding filled
  filled_lem file [] cache a = refl
  filled_lem file (o ∷ offsets) cache (a, rest) =
      let place : o ≡ block_of o * sector_len = omega (arith, a) in
      elim (Option-cases (find cache (block_of o))) [
        | inl e ↦ rw (filled, e) (cc (ap file place, filled_lem file offsets cache rest))
        | inr (v, e) ↦ rw (filled, e) (ap (λ ps. v.buf ∷ ps) (filled_lem file offsets cache rest))
      ]

  -- The item of a block after n reads of it.
  abbrev pub shared : P → ℕ → Option (Item P) → Option (Item P)
  shared p n none = written P M fresh p n none
  shared p n (some v) = more P M fresh n (some v)

  shared_eq :
      (p : P) (n : ℕ) (o : Option (Item P))
      → missed (buf_of P M fresh o) p n (more P M fresh n o) ≡ shared p n o
  shared_eq p n none = refl
  shared_eq p n (some v) = refl

  pub read_alloc-shared :
      (file : ℕ → P) (offsets : List ℕ) (cache : Map)
      → Aligned offsets
      → HasRoom (2 * length offsets) cache
      → (after : Map) × (read_alloc P M fresh file offsets cache
          ≡ some
              (map (λ o. current file cache (block_of o)) offsets, (map block_of offsets, after)))
        × ((b : ℕ)
            → find after b
              ≡ shared (file (b * sector_len)) (count b (map block_of offsets)) (find cache b))
  unfolding read_alloc
  read_alloc-shared file offsets cache a h =
      let (got, e, q) = get_all_lem offsets cache a (λ b. omega (arith, h b)) in
      let room : HasRoom (length offsets) got = λ b.
        let n = count b (map block_of offsets) in
        let t = refs-more P M fresh n (find cache b) in
        let u = ap (λ x. refs_of P M fresh x) (q b) in
        omega (arith, t, u, count-blocks b offsets, h b) in
      (
        _,
        rw (read_alloc, e, filled_lem file offsets cache a) refl,
        λ b.
            put_missing_lem file (cached cache) offsets got b a room
            ∙ ap (missed (cached cache b) (file (b * sector_len)) (count b (map block_of offsets)))
                (q b)
            ∙ shared_eq (file (b * sector_len)) (count b (map block_of offsets)) (find cache b),
      )

  pub refs-shared :
      (p : P) (n : ℕ) (o : Option (Item P))
      → refs_of P M fresh (shared p n o) ≡ refs_of P M fresh o + n
  refs-shared p n none = refs-written P M fresh p n none
  refs-shared p n (some v) = refl

  held-shared : (p : P) (n : ℕ) (o : Option (Item P)) → held p (shared p n o) ≡ held p o
  held-shared p zero none = refl
  held-shared p (suc n) none = refl
  held-shared p n (some v) = refl

  -- At aligned offsets, and where the references fit into 64 bits, a read returns for each request
  -- the page of its block, from the cache or the file, and pushes the blocks. After it each block
  -- has as many references more as it was read, and holds what it held.
  pub read_alloc_lem :
      (file : ℕ → P) (read_reqs : List ℕ) (cache : Map)
      → Aligned read_reqs
      → HasRoom (2 * length read_reqs) cache
      → (after : Map) × (read_alloc P M fresh file read_reqs cache
          ≡ some (
            map (λ o. current file cache (block_of o)) read_reqs,
            (map block_of read_reqs, after),
          ))
        × ((b : ℕ)
            → refs_of P M fresh (find after b)
              ≡ refs_of P M fresh (find cache b) + count b (map block_of read_reqs))
        × ((b : ℕ) → current file after b ≡ current file cache b)
  read_alloc_lem file read_reqs cache a h =
      let (after, e, q) = read_alloc-shared file read_reqs cache a h in
      (
        after,
        e,
        λ b.
            ap (λ o. refs_of P M fresh o) (q b)
            ∙ refs-shared (file (b * sector_len)) (count b (map block_of read_reqs)) (find cache b),
        λ b.
            ap (held (file (b * sector_len))) (q b)
            ∙ held-shared (file (b * sector_len)) (count b (map block_of read_reqs)) (find cache b),
      )
