-- ===== src/Tests/Alloc.antt =====
-- The theorems on the slots, for a file with one page in use and one empty page, which is queued.
use ccann.Prelude.{
  ℕ, zero, suc, ◌≤◌, ◌<◌, ◌≡◌, ◌∙◌, ◌⊎◌, refl, false, ◌==◌, if◌then◌else◌, none, some, List, [],
  ◌∷◌, contains, arith, get_or, Bool-cases, inl, inr,
}
use ccann.CuckooMap.{function_map, CuckooMap}
use ccann.Layout.{loc_sector_no}
use ccann.VecLocks.{invalid_id, allocated_id}
use ccann.Alloc.{
  AllocState, PageArr, loc2id, page_of, offset_of, alloc_loc, erase_and_set_loc, repeat,
}
use ccann.Alloc.View.{loc_limit, page_of_eq, slot_of, loc2id_eq}
use ccann.Alloc.Rules.{Usable}
use ccann.Alloc.Total.{IsValid, Allocated, alloc_loc-Allocated}
use ccann.Alloc.Switch.{AllQueued, Changed, written, erase_and_set_loc-Changed}
use ccann.Alloc.Commit.{InUse}
use ccann.Tests.Disk.{four_slots, four_slots-IsPacked}

abbrev pages : CuckooMap PageArr
pages = function_map PageArr

abbrev in_use : PageArr
in_use = 10 ∷ 11 ∷ 12 ∷ allocated_id ∷ repeat 12 0

abbrev layout : pages.Map
layout k = if k == 1 then some in_use else if k == 2 then some (repeat 16 invalid_id) else none

abbrev file : AllocState four_slots pages
file = record { page_layout = layout; empty_pages = 2 ∷ []; cur_loc = 8 }

get_or-repeat : (n i a : ℕ) → get_or (repeat n a) i a ≡ a
get_or-repeat zero i a = refl
get_or-repeat (suc n) zero a = refl
get_or-repeat (suc n) (suc i) a = get_or-repeat n i a

layout_cases :
    (k : ℕ) → (k == 1) ≡ false → (layout k ≡ some (repeat 16 invalid_id)) ⊎ (layout k ≡ none)
layout_cases k h = elim (Bool-cases (k == 2)) [
  | inl two ↦ inl (rw (h, two) refl)
  | inr more ↦ inr (rw (h, more) refl)
]

free_from : (l : ℕ) → 4 ≤ l → l < loc_limit → loc2id four_slots pages layout l ≡ invalid_id
unfolding slot_of
free_from l lo hi =
    let page = page_of four_slots pages l in
    let off = offset_of four_slots pages l in
    let pg = page_of_eq four_slots four_slots-IsPacked pages l hi in
    let not_1 : (page == 1) ≡ false = ground (arith, pg) in
    elim (layout_cases page not_1) [
      | inl two ↦
          loc2id_eq four_slots four_slots-IsPacked pages layout l page off
            (some (repeat 16 invalid_id)) refl refl two
          ∙ get_or-repeat 16 off invalid_id
      | inr more ↦
          loc2id_eq four_slots four_slots-IsPacked pages layout l page off none refl refl more
    ]

usable :
    (n page : ℕ)
    → (1 ≤ page)
    → page ≤ 2
    → Usable four_slots four_slots-IsPacked pages n 8 layout page
usable n page h k = record {
  in_file = record { pos = omega arith; small = omega arith };
  old = omega arith;
}

file-IsValid : IsValid four_slots four_slots-IsPacked pages (omega arith) file
file-IsValid = record {
  sized = λ page v h. elim (Bool-cases (page == 1)) [
    | inl one ↦ ground arith
    | inr other ↦ ground (arith, layout_cases page other)
  ];
  queued = record {
    usable = λ page h. usable 0 page (ground arith) (ground arith);
    free = λ page h l lo hi. free_from l (ground arith) (ground arith);
    once = (refl, tt);
  };
  end_free = λ l lo hi. free_from l (omega arith) hi;
  aligned = refl;
  in_range = omega arith;
}

-- Six locations: the empty page, and two new ones.
alloc_loc-Allocated_example :
    (r : AllocState four_slots pages × List ℕ × List ℕ) × (alloc_loc four_slots pages file 6
        (1 ∷ [])
      ≡ some r)
    × Allocated four_slots four_slots-IsPacked pages (omega arith) 6 file r
alloc_loc-Allocated_example =
    alloc_loc-Allocated four_slots four_slots-IsPacked pages (omega arith) 6 file (1 ∷ [])
      file-IsValid (omega arith) (omega arith)
      (λ page h. usable 6 page (ground arith) (ground arith))

first_page : (l : ℕ) → l < 4 → InUse four_slots four_slots-IsPacked pages (omega arith) file l
unfolding loc2id loc_sector_no
first_page zero h = record { below = omega arith; used = refl }
first_page (suc zero) h = record { below = omega arith; used = refl }
first_page (suc (suc zero)) h = record { below = omega arith; used = refl }
first_page (suc (suc (suc zero))) h = record { below = omega arith; used = refl }
first_page (suc (suc (suc (suc l)))) h = absurd (omega arith)

-- Slot 3 gets id 9; slots 0 and 1 are left.
erase_and_set_loc-Changed_example :
    Changed four_slots four_slots-IsPacked pages
      (omega arith)
      file
      (erase_and_set_loc four_slots pages file (0 ∷ 1 ∷ []) (3 ∷ []) (9 ∷ []))
      (λ l id. if contains l (0 ∷ 1 ∷ []) then invalid_id else written l (3 ∷ []) (9 ∷ []) id)
    × AllQueued four_slots four_slots-IsPacked pages
        (omega arith)
        (erase_and_set_loc four_slots pages file (0 ∷ 1 ∷ []) (3 ∷ []) (9 ∷ []))
        (0 ∷ 1 ∷ [])
erase_and_set_loc-Changed_example =
    erase_and_set_loc-Changed four_slots four_slots-IsPacked pages (omega arith) file (0 ∷ 1 ∷ [])
      (3 ∷ []) (9 ∷ []) file-IsValid (λ l h. first_page l (ground arith))
      (λ l h. first_page l (ground arith)) (refl, (refl, tt)) refl
