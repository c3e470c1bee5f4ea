-- ===== src/Alloc/Commit.antt =====
-- `erase_and_set_loc` of include/ssd_index.h keeps a valid state.
use native.Mathlib.Nat.{lt_of_mul-lt-mul_right, mul-le-mul_right, div-add-mod'}
use ccann.Prelude.{
  ℕ, suc, ◌+◌, ◌*◌, ◌/◌, ◌≤◌, ◌<◌, ◌≡◌, refl, ◌∙◌, subst, ◌⊎◌, inl, inr, Bool, true, false, ◌==◌,
  if◌then◌else◌, Bool-cases, [], ◌∷◌, ◌++◌, contains, contains-append, arith,
}
use ccann.CuckooMap.{CuckooMap}
use ccann.Layout.{Geometry}
use ccann.Layout.Slots.{IsPacked}
use ccann.VecLocks.{invalid_id}
use ccann.Alloc.{
  PageArr, AllocState, loc2id, page_of, offset_of, is_emptied, erase_loc2id, set_loc2id,
}
use ccann.Alloc.View.{loc_limit, base, of_page, in_page, page_of_eq, Distinct-append}
use ccann.Alloc.Fresh.{set_loc2id-now, set_loc2id-IsSized}
use ccann.Alloc.OnePage.{Free}
use ccann.Alloc.Rules.{Usable, Queued}
use ccann.Alloc.Total.{IsValid}
use ccann.Alloc.Erase.{erase_loc2id-now, erase_loc2id-IsSized, emptied-Free}

module _ (g : Geometry) (packed : IsPacked g) (M : CuckooMap PageArr)
    (few : g.nnodes_per_sector ≤ 16) where
  open g use {nnodes_per_sector}

  -- A slot below `cur_loc` that holds an id or kAllocatedID.
  pub record InUse (s : AllocState g M) (loc : ℕ) : Type 0 where
    pub below : loc < s.cur_loc
    pub used : (loc2id g M s.page_layout loc == invalid_id) ≡ false

  -- Its page is not queued.
  not_queued :
      (s : AllocState g M) (loc : ℕ)
      → IsValid g packed M few s
      → InUse s loc
      → contains (page_of g M loc) s.empty_pages ≡ false
  not_queued s loc valid u = elim (Bool-cases (contains (page_of g M loc) s.empty_pages)) [
    | inr absent ↦ absent
    | inl queued ↦
        let small : loc < loc_limit = omega (arith, u.below, valid.in_range) in
        let (whole, off) = of_page g packed M loc small in
        let free = valid.queued.free (page_of g M loc) queued loc (omega arith) (omega arith) in
        absurd (ground (arith, u.used))
  ]

  -- A slot of a queued page is not this one.
  queued-other :
      (s : AllocState g M) (loc page l : ℕ)
      → IsValid g packed M few s
      → InUse s loc
      → contains page s.empty_pages ≡ true
      → base g packed M page ≤ l
      → l < base g packed M page + nnodes_per_sector
      → (loc == l) ≡ false
  queued-other s loc page l valid u queued lo hi = elim (Bool-cases (loc == l)) [
    | inr other ↦ other
    | inl same ↦
        let e : l ≡ loc = ground arith in
        let free =
          subst (λ k. loc2id g M s.page_layout k ≡ invalid_id) e
            (valid.queued.free page queued l lo hi) in
        absurd (ground (arith, u.used))
  ]

  -- The last location of a page that is in the file.
  page-fits :
      (s : AllocState g M) (loc : ℕ)
      → IsValid g packed M few s
      → InUse s loc
      → page_of g M loc * nnodes_per_sector ≤ s.cur_loc
  page-fits s loc valid u =
      let k = nnodes_per_sector in
      let small : loc < loc_limit = omega (arith, u.below, valid.in_range) in
      let whole : s.cur_loc / k * k ≡ s.cur_loc =
        omega (arith, div-add-mod' s.cur_loc k, valid.aligned) in
      let row : loc / k * k < s.cur_loc / k * k = omega (arith, div-add-mod' loc k, u.below) in
      let lt : loc / k < s.cur_loc / k = lt_of_mul-lt-mul_right k row in
      let le : suc (loc / k) * k ≤ s.cur_loc / k * k = mul-le-mul_right k lt in
      rw (page_of_eq g packed M loc small) (omega arith)

  pub page-Usable :
      (s : AllocState g M) (loc : ℕ)
      → IsValid g packed M few s
      → InUse s loc
      → Usable g packed M 0 s.cur_loc s.page_layout (page_of g M loc)
  page-Usable s loc valid u =
      let fits = page-fits s loc valid u in
      let small : loc < loc_limit = omega (arith, u.below, valid.in_range) in
      record {
        in_file = record {
          pos = rw (page_of_eq g packed M loc small) (omega arith);
          small = omega (arith, valid.in_range);
        };
        old = fits;
      }

  pub set_loc2id-IsValid :
      (s : AllocState g M) (loc id : ℕ)
      → IsValid g packed M few s
      → InUse s loc
      → IsValid g packed M few (record s { page_layout = set_loc2id g M s.page_layout loc id })
  set_loc2id-IsValid s loc id valid u =
      let small : loc < loc_limit = omega (arith, u.below, valid.in_range) in
      let now : (l : ℕ)
          → l < loc_limit
          → loc2id g M (set_loc2id g M s.page_layout loc id) l
            ≡ (if loc == l then id else loc2id g M s.page_layout l) =
        λ l k. set_loc2id-now g packed M s.page_layout loc id l few valid.sized small k in
      record {
        sized = set_loc2id-IsSized g packed M s.page_layout loc id few valid.sized;
        queued = record {
          usable = λ page h.
              let q = valid.queued.usable page h in record { in_file = q.in_file; old = q.old };
          free = λ page h l lo hi.
              let (far, pg, off) =
                in_page g packed M page l (valid.queued.usable page h).in_file lo hi in
              now l far
              ∙ rw (queued-other s loc page l valid u h lo hi) (valid.queued.free page h l lo hi);
          once = valid.queued.once;
        };
        end_free = λ l lo hi.
            let ne : (loc == l) ≡ false = ground (arith, u.below) in
            now l hi ∙ rw ne (valid.end_free l lo hi);
        aligned = valid.aligned;
        in_range = valid.in_range;
      }

  -- What `erase_loc2id` leaves queued.
  erase_loc2id-Queued :
      (s : AllocState g M) (loc : ℕ) (b : Bool)
      → IsValid g packed M few s
      → InUse s loc
      → is_emptied g M (offset_of g M loc) (M.find s.page_layout (page_of g M loc)) ≡ b
      → Queued g packed M 0 s.cur_loc
          (erase_loc2id g M s loc).page_layout
          (erase_loc2id g M s loc).page_layout
          (if b then s.empty_pages ++ (page_of g M loc ∷ []) else s.empty_pages)
  erase_loc2id-Queued s loc b valid u e = queue b e
    where
      small : loc < loc_limit
      small = omega (arith, u.below, valid.in_range)

      old_usable :
          (page : ℕ)
          → contains page s.empty_pages ≡ true
          → Usable g packed M 0 s.cur_loc (erase_loc2id g M s loc).page_layout page
      old_usable page h =
          let q = valid.queued.usable page h in record { in_file = q.in_file; old = q.old }

      old_free :
          (page : ℕ)
          → contains page s.empty_pages ≡ true
          → Free g packed M 0 s.cur_loc s.page_layout (erase_loc2id g M s loc).page_layout page
      old_free page h l lo hi =
          let (far, pg, off) =
            in_page g packed M page l (valid.queued.usable page h).in_file lo hi in
          erase_loc2id-now g packed M few s loc l valid.sized u.used small far
          ∙ rw (queued-other s loc page l valid u h lo hi) (valid.queued.free page h l lo hi)

      mine :
          (page : ℕ)
          → contains page (s.empty_pages ++ (page_of g M loc ∷ [])) ≡ true
          → (contains page s.empty_pages ≡ true) ⊎ (page_of g M loc ≡ page)
      mine page h = elim (Bool-cases (contains page s.empty_pages)) [
        | inl old ↦ inl old
        | inr new ↦ inr (ground (arith, contains-append page s.empty_pages (page_of g M loc ∷ [])))
      ]

      queue :
          (b : Bool)
          → is_emptied g M (offset_of g M loc) (M.find s.page_layout (page_of g M loc)) ≡ b
          → Queued g packed M 0 s.cur_loc
              (erase_loc2id g M s loc).page_layout
              (erase_loc2id g M s loc).page_layout
              (if b then s.empty_pages ++ (page_of g M loc ∷ []) else s.empty_pages)
      queue false e = record { usable = old_usable; free = old_free; once = valid.queued.once }
      queue true e =
          let fresh = page-Usable s loc valid u in
          record {
            usable = λ page h. elim (mine page h) [
              | inl old ↦ old_usable page old
              | inr same ↦
                  subst (λ p. Usable g packed M 0 s.cur_loc (erase_loc2id g M s loc).page_layout p)
                    same (record { in_file = fresh.in_file; old = fresh.old })
            ];
            free = λ page h. elim (mine page h) [
              | inl old ↦ old_free page old
              | inr same ↦
                  subst
                    (λ p.
                      Free g packed M 0 s.cur_loc s.page_layout (erase_loc2id g M s loc).page_layout
                        p)
                    same (emptied-Free g packed M few s loc e fresh.in_file)
            ];
            once =
                Distinct-append g packed M s.empty_pages (page_of g M loc ∷ []) valid.queued.once
                  (refl, tt) (λ l h. ground (arith, not_queued s loc valid u));
          }

  pub erase_loc2id-IsValid :
      (s : AllocState g M) (loc : ℕ)
      → IsValid g packed M few s
      → InUse s loc
      → IsValid g packed M few (erase_loc2id g M s loc)
  unfolding erase_loc2id
  erase_loc2id-IsValid s loc valid u =
      let small : loc < loc_limit = omega (arith, u.below, valid.in_range) in
      record {
        sized = erase_loc2id-IsSized g packed M few s loc valid.sized;
        queued = erase_loc2id-Queued s loc _ valid u refl;
        end_free = λ l lo hi.
            let ne : (loc == l) ≡ false = ground (arith, u.below) in
            erase_loc2id-now g packed M few s loc l valid.sized u.used small hi
            ∙ rw ne (valid.end_free l lo hi);
        aligned = valid.aligned;
        in_range = valid.in_range;
      }
