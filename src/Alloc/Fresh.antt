-- ===== src/Alloc/Fresh.antt =====
-- `set_loc2id` of include/ssd_index.h, as `loc2id` shows it.
use ccann.Prelude.{
  get_or-set, ℕ, zero, suc, ◌+◌, ◌≤◌, ◌<◌, ◌≡◌, refl, ◌∙◌, ap, sym, subst, inl, inr, false, ◌==◌,
  if◌then◌else◌, Option, some, Bool-cases, Option-cases, [], ◌∷◌, get_or, length, length-set,
  ==_refl, arith,
}
use ccann.CuckooMap.{CuckooMap}
use ccann.Layout.{Geometry}
use ccann.Layout.Slots.{IsPacked}
use ccann.VecLocks.{invalid_id}
use ccann.Alloc.{PageArr, page_of, offset_of, loc2id, set_slot, set_loc2id, clear_slots, new_page}
use ccann.Alloc.View.{loc_limit, base, IsSized, slot_of, loc2id_eq, of_page}

shift-== : (p x y a b : ℕ) → p + x ≡ a → p + y ≡ b → (a == b) ≡ (x == y)
shift-== p x y a b h k = ground arith

module _ (g : Geometry) (packed : IsPacked g) (M : CuckooMap PageArr) where
  open g use {nnodes_per_sector}

  -- One new slot at the end of the file: `set_loc2id` with kAllocatedID.
  get_or-clear_slots :
      (k : ℕ) (v : PageArr) (off d : ℕ)
      → off < k
      → off < length v
      → get_or (clear_slots k v) off d ≡ invalid_id
  unfolding clear_slots
  get_or-clear_slots zero v off d h s = elim h [ ]
  get_or-clear_slots (suc k) [] off d h s = elim s [ ]
  get_or-clear_slots (suc k) (x ∷ v) zero d h s = refl
  get_or-clear_slots (suc k) (x ∷ v) (suc off) d h s =
      get_or-clear_slots k v off d (omega arith) (omega arith)

  length-clear_slots : (k : ℕ) (v : PageArr) → length (clear_slots k v) ≡ length v
  unfolding clear_slots
  length-clear_slots zero v = refl
  length-clear_slots (suc k) [] = refl
  length-clear_slots (suc k) (x ∷ v) = ap suc (length-clear_slots k v)

  -- `set_slot` on what the map holds of a page, seen slot by slot.
  slot_of-set_slot :
      (layout : M.Map) (page off id j : ℕ)
      → nnodes_per_sector ≤ 16
      → IsSized g packed M layout
      → off < nnodes_per_sector
      → j < nnodes_per_sector
      → slot_of g packed M (some (set_slot g M off id (M.find layout page))) j
        ≡ (if off == j then id else slot_of g packed M (M.find layout page) j)
  unfolding slot_of
  slot_of-set_slot layout page off id j few sized h k = elim (Option-cases (M.find layout page)) [
    | inl e ↦ rw e (
        get_or-set (clear_slots nnodes_per_sector (new_page g M)) off id j invalid_id
          (omega (arith, length-clear_slots nnodes_per_sector (new_page g M)))
        ∙ rw (get_or-clear_slots nnodes_per_sector (new_page g M) j invalid_id k (omega arith)))
    | inr (v, e) ↦ rw e (get_or-set v off id j invalid_id (omega (arith, sized page v e)))
  ]

  length-set_slot :
      (layout : M.Map) (page off id : ℕ)
      → nnodes_per_sector ≤ 16
      → IsSized g packed M layout
      → nnodes_per_sector ≤ length (set_slot g M off id (M.find layout page))
  length-set_slot layout page off id few sized = elim (Option-cases (M.find layout page)) [
    | inl e ↦ rw e (
        omega (
          arith,
          length-set (clear_slots nnodes_per_sector (new_page g M)) off id,
          length-clear_slots nnodes_per_sector (new_page g M),
        ))
    | inr (v, e) ↦ rw e (omega (arith, length-set v off id, sized page v e))
  ]

  same_slot :
      (a b : ℕ)
      → a < loc_limit
      → b < loc_limit
      → page_of g M b ≡ page_of g M a
      → (a == b) ≡ (offset_of g M a == offset_of g M b)
  same_slot a b ha hb pg =
      shift-== (base g packed M (page_of g M a)) (offset_of g M a) (offset_of g M b) a b
        (of_page g packed M a ha).0
        (subst (λ p. base g packed M p + offset_of g M b ≡ b) pg (of_page g packed M b hb).0)

  -- A call of `upsert` on the page of `loc` that writes one slot, as `loc2id` shows it.
  pub upsert-now :
      (layout : M.Map) (loc id l : ℕ) (f : Option PageArr → PageArr)
      → ((j : ℕ)
          → j < nnodes_per_sector
          → slot_of g packed M (some (f (M.find layout (page_of g M loc)))) j ≡ (
              if offset_of g M loc == j
              then id
              else slot_of g packed M (M.find layout (page_of g M loc)) j))
      → loc < loc_limit
      → l < loc_limit
      → loc2id g M (M.upsert layout (page_of g M loc) f) l
        ≡ (if loc == l then id else loc2id g M layout l)
  upsert-now layout loc id l f one h k =
      let page = page_of g M loc in
      let off = offset_of g M loc in
      let after = M.upsert layout page f in
      let (whole, small) = of_page g packed M loc h in
      let (whole', small') = of_page g packed M l k in
      let found = M.find-upsert layout page (page_of g M l) f in
      elim (Bool-cases (page == page_of g M l)) [
        | inl here ↦
            let pg : page_of g M l ≡ page = ground arith in
            let now : M.find after page ≡ some (f (M.find layout page)) =
              rw (M.find-upsert layout page page f, ==_refl page) in
            let same : (loc == l) ≡ (off == offset_of g M l) = same_slot loc l h k pg in
            loc2id_eq g packed M after l page (offset_of g M l) _ pg refl now
            ∙ one (offset_of g M l) small'
            ∙ rw (same, loc2id_eq g packed M layout l page (offset_of g M l) _ pg refl refl)
        | inr other ↦
            let same : M.find after (page_of g M l) ≡ M.find layout (page_of g M l) =
              rw (found, other) in
            let ne : (loc == l) ≡ false = elim (Bool-cases (loc == l)) [
              | inl e ↦
                  let q : loc ≡ l = ground arith in
                  let z : (page == page) ≡ false =
                    subst (λ x. (page == page_of g M x) ≡ false) (sym q) other in
                  absurd (cc (z, ==_refl page))
              | inr e ↦ e
            ] in
            loc2id_eq g packed M after l (page_of g M l) (offset_of g M l) _ refl refl same
            ∙ sym (loc2id_eq g packed M layout l (page_of g M l) (offset_of g M l) _ refl refl refl)
            ∙ rw ne
      ]

  pub set_loc2id-now :
      (layout : M.Map) (loc id l : ℕ)
      → nnodes_per_sector ≤ 16
      → IsSized g packed M layout
      → loc < loc_limit
      → l < loc_limit
      → loc2id g M (set_loc2id g M layout loc id) l ≡ (if loc == l then id else loc2id g M layout l)
  unfolding set_loc2id
  set_loc2id-now layout loc id l few sized h k =
      let off = offset_of g M loc in
      let small = (of_page g packed M loc h).1 in
      upsert-now layout loc id l (set_slot g M off id)
        (λ j q. slot_of-set_slot layout (page_of g M loc) off id j few sized small q) h k

  pub set_loc2id-IsSized :
      (layout : M.Map) (loc id : ℕ)
      → nnodes_per_sector ≤ 16
      → IsSized g packed M layout
      → IsSized g packed M (set_loc2id g M layout loc id)
  unfolding set_loc2id
  set_loc2id-IsSized layout loc id few sized q w h =
      let page = page_of g M loc in
      let f = set_slot g M (offset_of g M loc) id in
      elim (Bool-cases (page == q)) [
        | inl here ↦
            let found : some w ≡ some (f (M.find layout page)) =
              sym h ∙ M.find-upsert layout page q f ∙ rw here refl in
            let whole : w ≡ f (M.find layout page) = cc in
            rw whole (length-set_slot layout page (offset_of g M loc) id few sized)
        | inr other ↦ sized q w (rw (M.find-upsert layout page q f, other) at h)
      ]
