-- ===== src/PageCache/Release.antt =====
-- include/aligned_file_reader.h: `deref` of the pages that were read.
use ccann.Prelude.{
  ℕ, zero, suc, ◌+◌, ◌-◌, ◌*◌, ◌≤◌, ◌≡◌, refl, ap, ◌∙◌, inl, inr, false, ◌==◌, if◌then◌else◌,
  Option, none, some, List, [], ◌∷◌, length, map, count, Bool-cases, arith,
}
use ccann.CuckooMap.{CuckooMap}
use ccann.Layout.{sector_len}
use ccann.PageCache.{Item, block_of, deref, deref_all, read_alloc}
use ccann.PageCache.Effects.{refs_of, more-zero, less, less-less, find-deref, refs-less}
use ccann.PageCache.Reads.{HasRoom, Aligned, shared, refs-shared, count-blocks, read_alloc-shared}

module _ (P : Type 0) (M : CuckooMap (Item P)) (fresh : P) where
  open M use {Map, find}

  -- For each block the list has at most its references.
  abbrev pub IsHeld : List ℕ → Map → Type 0
  IsHeld page_ref cache = (b : ℕ) → count b page_ref ≤ refs_of P M fresh (find cache b)

  pub deref_all-less :
      (page_ref : List ℕ) (cache : Map) (b : ℕ)
      → HasRoom P M fresh 0 cache
      → IsHeld page_ref cache
      → find (deref_all P M fresh page_ref cache) b
        ≡ less P M fresh (count b page_ref) (find cache b)
  unfolding deref_all
  deref_all-less [] cache b h k = refl
  deref_all-less (x ∷ page_ref) cache b h k =
      let one = deref P M fresh cache x in
      let some_left : 1 ≤ refs_of P M fresh (find cache x) = ground (arith, k x) in
      let first : (c : ℕ) → find one c ≡ less P M fresh (if c == x then 1 else 0) (find cache c) =
        λ c. find-deref P M fresh cache x c (omega (arith, h x)) some_left in
      let fewer : (c : ℕ)
          → refs_of P M fresh (find one c)
            ≡ refs_of P M fresh (find cache c) - (if c == x then 1 else 0) =
        λ c.
          ap (λ o. refs_of P M fresh o) (first c)
          ∙ refs-less P M fresh (if c == x then 1 else 0) (find cache c) (ground (arith, k c)) in
      let room : HasRoom P M fresh 0 one = λ c. ground (arith, fewer c, h c) in
      let rest : IsHeld page_ref one = λ c. ground (arith, fewer c, k c) in
      let next = deref_all-less page_ref one b room rest in
      let n = count b page_ref in
      elim (Bool-cases (b == x)) [
        | inl e ↦
            let up : suc n ≡ 1 + n = omega arith in
            let there : find one b ≡ less P M fresh 1 (find cache b) =
              first b ∙ ap (λ t. less P M fresh (if t then 1 else 0) (find cache b)) e in
            rw e (
              next
              ∙ ap (less P M fresh n) there
              ∙ less-less P M fresh n (find cache b) (ground (arith, k b))
              ∙ ap (λ j. less P M fresh j (find cache b)) up)
        | inr e ↦
            let keep : n ≡ 0 + n = omega arith in
            let there : find one b ≡ find cache b =
              first b ∙ ap (λ t. less P M fresh (if t then 1 else 0) (find cache b)) e in
            rw e
              (next ∙ ap (less P M fresh n) there ∙ ap (λ j. less P M fresh j (find cache b)) keep)
      ]

  -- An item has references.
  abbrev pub IsReferenced : Option (Item P) → Type 0
  IsReferenced none = Unit
  IsReferenced (some v) = 1 ≤ v.ref_cnt

  less-shared :
      (p : P) (n : ℕ) (o : Option (Item P))
      → IsReferenced o
      → less P M fresh n (shared P M fresh p n o) ≡ o
  less-shared p zero none h = refl
  less-shared p (suc n) none h =
      let e : 0 + suc n - suc n ≡ 0 = omega arith in
      ap (λ k. if k == 0 then none else some (record { buf = p; ref_cnt = k })) e
  less-shared p zero (some v) h = more-zero P M fresh (some v)
  less-shared p (suc n) (some v) h =
      let e : v.ref_cnt + suc n - suc n ≡ v.ref_cnt = omega arith in
      let there : (v.ref_cnt == 0) ≡ false = ground arith in
      ap (λ k. if k == 0 then none else some (record v { ref_cnt = k })) e
      ∙ ap (λ t. if t then none else some v) there

  -- A read whose pages are given back leaves every block as it was, where the items have
  -- references, the offsets are aligned and the references fit into 64 bits.
  pub deref_all-read_alloc :
      (file : ℕ → P) (read_reqs : List ℕ) (cache : Map)
      → Aligned P M fresh read_reqs
      → HasRoom P M fresh (2 * length read_reqs) cache
      → ((b : ℕ) → IsReferenced (find cache b))
      → (pages : List P) × (page_ref : List ℕ) × (after : Map) × (read_alloc P M fresh file
            read_reqs cache
          ≡ some (pages, (page_ref, after)))
        × ((b : ℕ) → find (deref_all P M fresh page_ref after) b ≡ find cache b)
  deref_all-read_alloc file read_reqs cache a h r =
      let (after, e, q) = read_alloc-shared P M fresh file read_reqs cache a h in
      let blocks = map block_of read_reqs in
      let refs : (b : ℕ)
          → refs_of P M fresh (find after b) ≡ refs_of P M fresh (find cache b) + count b blocks =
        λ b.
          ap (λ o. refs_of P M fresh o) (q b)
          ∙ refs-shared P M fresh (file (b * sector_len)) (count b blocks) (find cache b) in
      let room : HasRoom P M fresh 0 after =
        λ b. omega (arith, refs b, count-blocks P M fresh b read_reqs, h b) in
      (
        _,
        blocks,
        after,
        e,
        λ b.
            deref_all-less blocks after b room (λ c. omega (arith, refs c))
            ∙ ap (less P M fresh (count b blocks)) (q b)
            ∙ less-shared (file (b * sector_len)) (count b blocks) (find cache b) (r b),
      )
