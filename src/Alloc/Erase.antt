-- ===== src/Alloc/Erase.antt =====
-- `set_loc2id`, `erase_loc2id` and `erase_and_set_loc` of include/ssd_index.h on a valid state.
use ccann.Prelude.{
  get_or-set, ℕ, zero, suc, ◌+◌, ◌-◌, ◌≤◌, ◌<◌, ◌≡◌, refl, ◌∙◌, sym, subst, inl, inr, true, false,
  ◌==◌, if◌then◌else◌, none, some, Bool-cases, Option-cases, [], ◌∷◌, length, get_or, set,
  length-set, ==_refl, arith,
}
use ccann.CuckooMap.{CuckooMap}
use ccann.Layout.{Geometry}
use ccann.Layout.Slots.{IsPacked}
use ccann.VecLocks.{invalid_id}
use ccann.Alloc.{
  PageArr, AllocState, loc2id, page_of, offset_of, count_free, is_emptied, erase_slot, erase_loc2id,
}
use ccann.Alloc.View.{loc_limit, IsSized, InFile, base, slot_of, loc2id_eq, of_page, in_page}
use ccann.Alloc.Fresh.{upsert-now}
use ccann.Alloc.OnePage.{Free}

module _ (g : Geometry) (packed : IsPacked g) (M : CuckooMap PageArr)
    (few : g.nnodes_per_sector ≤ 16) where
  open g use {nnodes_per_sector}

  count_free_le : (n : ℕ) (v : PageArr) → count_free n v ≤ n
  unfolding count_free
  count_free_le zero v = omega arith
  count_free_le (suc n) [] = omega arith
  count_free_le (suc n) (x ∷ v) = ground (arith, count_free_le n v)

  -- Where all of the first `n` slots count as free, each is.
  count_free-all :
      (n : ℕ) (v : PageArr) (off : ℕ)
      → count_free n v ≡ n
      → off < n
      → get_or v off invalid_id ≡ invalid_id
  unfolding count_free
  count_free-all zero v off e h = elim h [ ]
  count_free-all (suc n) [] off e h = refl
  count_free-all (suc n) (x ∷ v) zero e h = ground (arith, count_free_le n v)
  count_free-all (suc n) (x ∷ v) (suc off) e h =
      count_free-all n v off (ground (arith, count_free_le n v)) (omega arith)

  -- The map holds the page of a slot in use.
  held :
      (layout : M.Map) (loc : ℕ)
      → (loc2id g M layout loc == invalid_id) ≡ false
      → (v : PageArr) × (M.find layout (page_of g M loc) ≡ some v)
  unfolding slot_of
  held layout loc h = elim (Option-cases (M.find layout (page_of g M loc))) [
    | inl absent ↦
        let z =
          loc2id_eq g packed M layout loc (page_of g M loc) (offset_of g M loc) none refl refl
            absent in
        absurd (ground arith)
    | inr found ↦ found
  ]

  -- `erase_loc2id` on a slot in use frees this slot only.
  pub erase_loc2id-now :
      (s : AllocState g M) (loc l : ℕ)
      → IsSized g packed M s.page_layout
      → (loc2id g M s.page_layout loc == invalid_id) ≡ false
      → loc < loc_limit
      → l < loc_limit
      → loc2id g M (erase_loc2id g M s loc).page_layout l
        ≡ (if loc == l then invalid_id else loc2id g M s.page_layout l)
  unfolding erase_loc2id slot_of
  erase_loc2id-now s loc l sized used h k =
      let off = offset_of g M loc in
      let (v, found) = held s.page_layout loc used in
      upsert-now g packed M s.page_layout loc invalid_id l (erase_slot g M off)
        (λ j q. rw found (
          get_or-set v off invalid_id j invalid_id
            (omega (arith, sized (page_of g M loc) v found, (of_page g packed M loc h).1))))
        h k

  length-erase_slot :
      (layout : M.Map) (page off : ℕ)
      → IsSized g packed M layout
      → nnodes_per_sector ≤ length (erase_slot g M off (M.find layout page))
  length-erase_slot layout page off sized = elim (Option-cases (M.find layout page)) [
    | inl absent ↦ rw absent few
    | inr (v, found) ↦ rw found (omega (arith, length-set v off invalid_id, sized page v found))
  ]

  pub erase_loc2id-IsSized :
      (s : AllocState g M) (loc : ℕ)
      → IsSized g packed M s.page_layout
      → IsSized g packed M (erase_loc2id g M s loc).page_layout
  unfolding erase_loc2id
  erase_loc2id-IsSized s loc sized q w h =
      let page = page_of g M loc in
      let f = erase_slot g M (offset_of g M loc) in
      elim (Bool-cases (page == q)) [
        | inl here ↦
            let found : some w ≡ some (f (M.find s.page_layout page)) =
              sym h ∙ M.find-upsert s.page_layout page q f ∙ rw here refl in
            let whole : w ≡ f (M.find s.page_layout page) = cc in
            rw whole (length-erase_slot s.page_layout page (offset_of g M loc) sized)
        | inr other ↦ sized q w (rw (M.find-upsert s.page_layout page q f, other) at h)
      ]

  -- Where `erase_loc2id` queues the page, all its slots are free now.
  pub emptied-Free :
      (s : AllocState g M) (loc : ℕ)
      → is_emptied g M (offset_of g M loc) (M.find s.page_layout (page_of g M loc)) ≡ true
      → InFile g packed M (page_of g M loc)
      → Free g packed M 0 0 s.page_layout (erase_loc2id g M s loc).page_layout (page_of g M loc)
  unfolding erase_loc2id is_emptied slot_of
  emptied-Free s loc e f l lo hi =
      let (small, pg, off) = in_page g packed M (page_of g M loc) l f lo hi in
      let page = page_of g M loc in
      let erase = erase_slot g M (offset_of g M loc) in
      let now = M.find-upsert s.page_layout page page erase in
      elim (Option-cases (M.find s.page_layout page)) [
        | inl absent ↦
            absurd (cc (subst (λ o. is_emptied g M (offset_of g M loc) o ≡ true) absent e))
        | inr (v, found) ↦
            let v' = set v (offset_of g M loc) invalid_id in
            let after : M.find (M.upsert s.page_layout page erase) page ≡ some v' =
              now ∙ rw (==_refl page, found) refl in
            let counted : (count_free nnodes_per_sector v' == nnodes_per_sector) ≡ true =
              subst (λ o. is_emptied g M (offset_of g M loc) o ≡ true) found e in
            loc2id_eq g packed M (M.upsert s.page_layout page erase) l page
              (l - base g packed M page) (some v') pg off after
            ∙ count_free-all nnodes_per_sector v' (l - base g packed M page) (ground arith)
                (omega arith)
      ]

  -- Where not all of the first `n` slots count as free, one of them is in use.
  count_free-some :
      (n : ℕ) (v : PageArr)
      → n ≤ length v
      → (count_free n v == n) ≡ false
      → (off : ℕ) × (off < n) × ((get_or v off invalid_id == invalid_id) ≡ false)
  unfolding count_free
  count_free-some zero v h e = absurd (ground arith)
  count_free-some (suc n) [] h e = absurd (omega arith)
  count_free-some (suc n) (x ∷ v) h e = elim (Bool-cases (x == invalid_id)) [
    | inl free ↦
        let (off, lo, q) = count_free-some n v (omega arith) (ground arith) in
        (suc off, omega arith, q)
    | inr used ↦ (0, omega arith, used)
  ]

  -- Where `erase_loc2id` does not queue the page, a slot of it is still in use.
  pub emptied-used :
      (s : AllocState g M) (loc : ℕ)
      → IsSized g packed M s.page_layout
      → (loc2id g M s.page_layout loc == invalid_id) ≡ false
      → is_emptied g M (offset_of g M loc) (M.find s.page_layout (page_of g M loc)) ≡ false
      → InFile g packed M (page_of g M loc)
      → (l : ℕ) × (l < loc_limit)
        × (page_of g M l ≡ page_of g M loc)
        × (base g packed M (page_of g M loc) ≤ l)
        × (l < base g packed M (page_of g M loc) + nnodes_per_sector)
        × ((loc2id g M (erase_loc2id g M s loc).page_layout l == invalid_id) ≡ false)
  unfolding erase_loc2id is_emptied slot_of
  emptied-used s loc sized used e f =
      let page = page_of g M loc in
      let off = offset_of g M loc in
      let erase = erase_slot g M off in
      let (v, found) = held s.page_layout loc used in
      let v' = set v off invalid_id in
      let after : M.find (M.upsert s.page_layout page erase) page ≡ some v' =
        M.find-upsert s.page_layout page page erase ∙ rw (==_refl page, found) refl in
      let counted : (count_free nnodes_per_sector v' == nnodes_per_sector) ≡ false =
        subst (λ o. is_emptied g M off o ≡ false) found e in
      let whole : nnodes_per_sector ≤ length v' =
        omega (arith, length-set v off invalid_id, sized page v found) in
      let (k, lo, q) = count_free-some nnodes_per_sector v' whole counted in
      let l = base g packed M page + k in
      let (small, pg, here) = in_page g packed M page l f (omega arith) (omega arith) in
      let there : offset_of g M l ≡ k = omega (arith, here) in
      let id =
        loc2id_eq g packed M (M.upsert s.page_layout page erase) l page k (some v') pg there
          after in
      (l, small, pg, omega arith, omega arith, rw id q)
