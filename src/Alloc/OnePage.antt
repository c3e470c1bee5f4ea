-- ===== src/Alloc/OnePage.antt =====
-- An allocation of include/ssd_index.h under way: what one page adds to it.
use ccann.Prelude.{
  ℕ, suc, ◌+◌, ◌*◌, ◌≤◌, ◌<◌, ◌≡◌, refl, ◌∙◌, sym, subst, ◌⊎◌, inl, inr, Bool, true, false, ◌==◌,
  some, Bool-cases, Option-cases, [], ◌∷◌, ◌++◌, get_or, length, length-append, contains,
  contains-append, arith,
}
use ccann.CuckooMap.{CuckooMap}
use ccann.Layout.{Geometry, sector_to_loc}
use ccann.Layout.Slots.{IsPacked}
use ccann.VecLocks.{invalid_id}
use ccann.Alloc.{PageArr, page_of, offset_of, loc2id, fill_slots, Progress, fill_page}
use ccann.Alloc.Page.{fill_slots-Filled, fill_slots-some, Clean}
use ccann.Alloc.View.{
  base, InFile, Allocates, Allocates-append, IsSized, located, page-Allocates, page-IsSized,
  page-outside, base-next, in_page, slot_of, loc2id_eq,
}

module _ (g : Geometry) (packed : IsPacked g) (M : CuckooMap PageArr) (n top : ℕ)
    (start : M.Map) where
  open g use {nnodes_per_sector}

  -- An allocation under way: what it has taken from the layout it started with.
  pub record Sofar (p : Progress g M) : Type 0 where
    pub allocates : Allocates g packed M start p.layout p.ret
    pub sized : IsSized g packed M p.layout
    pub counted : p.cur ≡ length p.ret
    pub room : p.cur ≤ n
    pub below : (l : ℕ) → contains l p.ret ≡ true → l < top

  -- Every slot of a page is free.
  abbrev pub Free : M.Map → ℕ → Type 0
  Free layout page =
      (l : ℕ)
      → base g packed M page ≤ l
      → l < base g packed M page + nnodes_per_sector
      → loc2id g M layout l ≡ invalid_id

  -- What one page leaves as it was: the other pages.
  abbrev pub Outside : ℕ → Progress g M → Progress g M → Type 0
  Outside page p p' =
      (l : ℕ) → (page == page_of g M l) ≡ false → loc2id g M p'.layout l ≡ loc2id g M p.layout l

  pub fill_page-Sofar :
      (strict : Bool) (page : ℕ) (p p' : Progress g M)
      → InFile g packed M page
      → Sofar p
      → p.cur < n
      → page * nnodes_per_sector ≤ top
      → fill_page g M strict n page p ≡ some p'
      → Sofar p' × Outside page p p'
  unfolding fill_page
  fill_page-Sofar strict page p p' f s h t e = elim (Option-cases (M.find p.layout page)) [
    | inl absent ↦
        let same : p ≡ p' = ground arith in
        subst (λ q. Sofar q × Outside page p q) same (s, λ l o. refl)
    | inr (v, found) ↦ elim (Option-cases (fill_slots g strict page n 0 p.cur v)) [
      | inl crashed ↦ absurd (ground arith)
      | inr ((v', locs), filled) ↦
          let fill =
            fill_slots-Filled g strict page n (base g packed M page) (located g packed M page f) 0
              p.cur v (v', locs) h filled in
          let made : Progress g M = record {
            layout = M.update_fn p.layout page (λ _. v');
            ret = p.ret ++ locs;
            cur = p.cur + length locs;
          } in
          let same : made ≡ p' = ground arith in
          subst (λ q. Sofar q × Outside page p q) same
            (
              record {
                allocates =
                    Allocates-append g packed M s.allocates (
                      page-Allocates g packed M p.layout page v v' locs p.cur n strict f found
                        fill);
                sized =
                    page-IsSized g packed M p.layout page v v' locs p.cur n strict f found fill
                      s.sized;
                counted = omega (arith, s.counted, length-append p.ret locs);
                room = fill.enough;
                below = λ l q. elim (Bool-cases (contains l p.ret)) [
                  | inl old ↦ s.below l old
                  | inr new ↦
                      let (up, lo, inside, was) =
                        fill.was_free l (ground (arith, contains-append l p.ret locs)) in
                      omega (arith, base-next page nnodes_per_sector f.pos)
                ];
              },
              page-outside g packed M p.layout page v v' locs p.cur n strict f found fill,
            )
    ]
  ]

  Clean-of :
      (i : ℕ) (v : PageArr) (strict : Bool) (page first : ℕ)
      (at : (off : ℕ) → off < nnodes_per_sector → sector_to_loc g page off ≡ first + off)
      → ((j : ℕ) → j < length v → i + j < nnodes_per_sector → get_or v j invalid_id ≡ invalid_id)
      → Clean g strict page n first at i v
  Clean-of i [] strict page first at h = tt
  Clean-of i (x ∷ v) strict page first at h = (
    λ q. h 0 (omega arith) (omega arith),
    Clean-of (i + 1) v strict page first at (λ j q r. h (suc j) (omega arith) (omega arith)),
  )

  -- A page whose slots are all free is filled without a crash.
  pub fill_page-some :
      (strict : Bool) (page : ℕ) (p : Progress g M)
      → InFile g packed M page
      → (strict ≡ false) ⊎ Free p.layout page
      → (p' : Progress g M) × (fill_page g M strict n page p ≡ some p')
  unfolding fill_page slot_of
  fill_page-some strict page p f free = elim (Option-cases (M.find p.layout page)) [
    | inl absent ↦ (p, rw (absent, fill_page))
    | inr (v, found) ↦
        let at = located g packed M page f in
        let clean : (strict ≡ false) ⊎ Clean g strict page n (base g packed M page) at 0 v =
          clean_of v found free in
        let (r, e) = fill_slots-some g strict page n (base g packed M page) at 0 p.cur v clean in
        (
          record {
            layout = M.update_fn p.layout page (λ _. r.0);
            ret = p.ret ++ r.1;
            cur = p.cur + length r.1;
          },
          rw (found, fill_page, e) refl,
        )
  ]
    where
      clean_of :
          (v : PageArr)
          → M.find p.layout page ≡ some v
          → (strict ≡ false) ⊎ Free p.layout page
          → (strict ≡ false)
            ⊎ Clean g strict page n (base g packed M page) (located g packed M page f) 0 v
      clean_of v found (inl h) = inl h
      clean_of v found (inr h) = inr (
          Clean-of 0 v strict page (base g packed M page) (located g packed M page f) λ j q r.
            let l = base g packed M page + j in
            let (small, pg, off) = in_page g packed M page l f (omega arith) (omega arith) in
            let o : offset_of g M l ≡ j = omega (arith, off) in
            sym (loc2id_eq g packed M p.layout l page j (some v) pg o found)
            ∙ h l (omega arith) (omega arith))
