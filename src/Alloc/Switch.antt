-- ===== src/Alloc/Switch.antt =====
-- `erase_and_set_loc` of include/ssd_index.h: an update hands its new slots their ids and frees the
-- slots that it leaves.
use ccann.Prelude.{
  ℕ, ◌+◌, Bool-cases, inl, inr, sym, subst, contains-append, ◌≤◌, ◌<◌, ◌≡◌, refl, ◌∙◌, ap, true,
  false, ◌==◌, if◌then◌else◌, List, [], ◌∷◌, contains, Distinct, ==_refl, arith,
}
use ccann.CuckooMap.{CuckooMap}
use ccann.Layout.{Geometry}
use ccann.Layout.Slots.{IsPacked}
use ccann.VecLocks.{invalid_id}
use ccann.Alloc.{
  PageArr, AllocState, loc2id, page_of, offset_of, is_emptied, erase_loc2id, set_loc2id, set_all,
  erase_all, erase_and_set_loc,
}
use ccann.Alloc.View.{loc_limit, base}
use ccann.Alloc.Fresh.{set_loc2id-now}
use ccann.Alloc.Total.{IsValid}
use ccann.Alloc.Erase.{erase_loc2id-now, emptied-used}
use ccann.Alloc.Commit.{InUse, page-Usable, set_loc2id-IsValid, erase_loc2id-IsValid}

-- The last id that `ids` writes to the location `l`, and `before` where there is none.
abbrev pub written : ℕ → List ℕ → List ℕ → ℕ → ℕ
written l [] ids before = before
written l (loc ∷ locs) [] before = before
written l (loc ∷ locs) (id ∷ ids) before = written l locs ids (if loc == l then id else before)

written-used :
    (l : ℕ) (locs ids : List ℕ) (before : ℕ)
    → contains invalid_id ids ≡ false
    → (before == invalid_id) ≡ false
    → (written l locs ids before == invalid_id) ≡ false
written-used l [] ids before v h = h
written-used l (loc ∷ locs) [] before v h = h
written-used l (loc ∷ locs) (id ∷ ids) before v h =
    written-used l locs ids (if loc == l then id else before) (ground (arith, v))
      (ground (arith, v, h))

module _ (g : Geometry) (packed : IsPacked g) (M : CuckooMap PageArr)
    (few : g.nnodes_per_sector ≤ 16) where
  abbrev pub AllInUse : AllocState g M → List ℕ → Type 0
  AllInUse s locs = (l : ℕ) → contains l locs ≡ true → InUse g packed M few s l

  -- From `s` to `s'`, the slots change as `f` says, and the state stays valid.
  pub record Changed (s s' : AllocState g M) (f : ℕ → ℕ → ℕ) : Type 0 where
    pub valid : IsValid g packed M few s'
    pub now :
        (l : ℕ) → l < loc_limit → loc2id g M s'.page_layout l ≡ f l (loc2id g M s.page_layout l)

  abbrev pub IsFreePage : AllocState g M → ℕ → Type 0
  IsFreePage s page =
      (l : ℕ)
      → base g packed M page ≤ l
      → l < base g packed M page + g.nnodes_per_sector
      → loc2id g M s.page_layout l ≡ invalid_id

  -- A page of one of the locations whose slots are all free is queued.
  abbrev pub AllQueued : AllocState g M → List ℕ → Type 0
  AllQueued s' locs =
      (l : ℕ)
      → contains l locs ≡ true
      → IsFreePage s' (page_of g M l)
      → contains (page_of g M l) s'.empty_pages ≡ true

  just_queued :
      (s : AllocState g M) (x : ℕ)
      → is_emptied g M (offset_of g M x) (M.find s.page_layout (page_of g M x)) ≡ true
      → contains (page_of g M x) (erase_loc2id g M s x).empty_pages ≡ true
  unfolding erase_loc2id
  just_queued s x e = rw e (
      ground (
        arith,
        contains-append (page_of g M x) s.empty_pages (page_of g M x ∷ []),
        ==_refl (page_of g M x),
      ))

  erase_all-queue :
      (locs : List ℕ) (s : AllocState g M) (page : ℕ)
      → contains page s.empty_pages ≡ true
      → contains page (erase_all g M s locs).empty_pages ≡ true
  unfolding erase_all erase_loc2id
  erase_all-queue [] s page h = h
  erase_all-queue (x ∷ locs) s page h =
      erase_all-queue locs (erase_loc2id g M s x) page
        (elim (Bool-cases
          (is_emptied g M (offset_of g M x) (M.find s.page_layout (page_of g M x)))) [
            | inl e ↦
                rw e (ground (arith, h, contains-append page s.empty_pages (page_of g M x ∷ [])))
            | inr e ↦ rw e h
          ])

  -- The other locations stay in use when one is erased.
  still_used :
      (x : ℕ) (locs : List ℕ) (s : AllocState g M)
      → IsValid g packed M few s
      → AllInUse s (x ∷ locs)
      → Distinct (x ∷ locs)
      → AllInUse (erase_loc2id g M s x) locs
  unfolding erase_loc2id
  still_used x locs s valid used d l h =
      let u = used x (ground (arith, ==_refl x)) in
      let w = used l (ground (arith, h)) in
      let ne : (x == l) ≡ false = ground (arith, d.0, h) in
      let now =
        erase_loc2id-now g packed M few s x l valid.sized u.used
          (omega (arith, u.below, valid.in_range)) (omega (arith, w.below, valid.in_range)) in
      record { below = w.below; used = rw (now, ne) w.used }

  erase_all-Changed :
      (locs : List ℕ) (s : AllocState g M)
      → IsValid g packed M few s
      → AllInUse s locs
      → Distinct locs
      → Changed s (erase_all g M s locs) (λ l id. if contains l locs then invalid_id else id)
  unfolding erase_all
  erase_all-Changed [] s valid used d = record { valid = valid; now = λ l h. refl }
  erase_all-Changed (x ∷ locs) s valid used d =
      let u = used x (ground (arith, ==_refl x)) in
      let now : (l : ℕ)
          → l < loc_limit
          → loc2id g M (erase_loc2id g M s x).page_layout l
            ≡ (if x == l then invalid_id else loc2id g M s.page_layout l) =
        λ l k.
          erase_loc2id-now g packed M few s x l valid.sized u.used
            (omega (arith, u.below, valid.in_range)) k in
      let rest =
        erase_all-Changed locs (erase_loc2id g M s x)
          (erase_loc2id-IsValid g packed M few s x valid u) (still_used x locs s valid used d)
          d.1 in
      record { valid = rest.valid; now = λ l h. rest.now l h ∙ ground (arith, now l h, d.0) }

  erase_all-AllQueued :
      (locs : List ℕ) (s : AllocState g M)
      → IsValid g packed M few s
      → AllInUse s locs
      → Distinct locs
      → AllQueued (erase_all g M s locs) locs
  unfolding erase_all
  erase_all-AllQueued [] s valid used d l h free = absurd (cc h)
  erase_all-AllQueued (x ∷ locs) s valid used d l h free =
      let u = used x (ground (arith, ==_refl x)) in
      let one = erase_loc2id g M s x in
      let valid1 = erase_loc2id-IsValid g packed M few s x valid u in
      let used1 = still_used x locs s valid used d in
      let rest = erase_all-AllQueued locs one valid1 used1 d.1 in
      elim (Bool-cases (contains l locs)) [
        | inl later ↦ rest l later free
        | inr not_later ↦
            let z : x ≡ l = ground arith in
            let pages : page_of g M x ≡ page_of g M l = ap (page_of g M) z in
            elim (Bool-cases
              (is_emptied g M (offset_of g M x) (M.find s.page_layout (page_of g M x)))) [
                | inl e ↦
                    subst (λ p. contains p (erase_all g M one locs).empty_pages ≡ true) pages
                      (erase_all-queue locs one (page_of g M x) (just_queued s x e))
                | inr e ↦
                    let (m, small, pg, lo, hi, q) =
                      emptied-used g packed M few s x valid.sized u.used e
                        (page-Usable g packed M few s x valid u).in_file in
                    let same : page_of g M m ≡ page_of g M l = pg ∙ pages in
                    let now = (erase_all-Changed locs one valid1 used1 d.1).now m small in
                    let free_m =
                      subst (IsFreePage (erase_all g M one locs)) (sym pages) free m lo hi in
                    let there : contains m locs ≡ true = ground (arith, now, free_m, q) in
                    subst (λ p. contains p (erase_all g M one locs).empty_pages ≡ true) same
                      (rest m there (subst (IsFreePage (erase_all g M one locs)) (sym same) free))
              ]
      ]

  set_all-Changed :
      (locs ids : List ℕ) (s : AllocState g M)
      → IsValid g packed M few s
      → AllInUse s locs
      → contains invalid_id ids ≡ false
      → Changed s
          (record s { page_layout = set_all g M s.page_layout locs ids })
          (λ l id. written l locs ids id)
  unfolding set_all
  set_all-Changed [] ids s valid used v = record { valid = valid; now = λ l h. refl }
  set_all-Changed (x ∷ locs) [] s valid used v = record { valid = valid; now = λ l h. refl }
  set_all-Changed (x ∷ locs) (id ∷ ids) s valid used v =
      let u = used x (ground (arith, ==_refl x)) in
      let s' = record s { page_layout = set_loc2id g M s.page_layout x id } in
      let now : (l : ℕ)
          → l < loc_limit
          → loc2id g M s'.page_layout l ≡ (if x == l then id else loc2id g M s.page_layout l) =
        λ l k.
          set_loc2id-now g packed M s.page_layout x id l few valid.sized
            (omega (arith, u.below, valid.in_range)) k in
      let rest =
        set_all-Changed locs ids s' (set_loc2id-IsValid g packed M few s x id valid u)
          (λ l h.
            let w = used l (ground (arith, h)) in
            record {
              below = w.below;
              used =
                  rw (now l (omega (arith, w.below, valid.in_range))) (ground (arith, w.used, v));
            })
          (ground (arith, v)) in
      record { valid = rest.valid; now = λ l h. rest.now l h ∙ ap (written l locs ids) (now l h) }

  -- With 1 to 16 slots in a sector: from a valid state, with old locations that are distinct and in
  -- use, new ones that are in use, and ids other than kInvalidID, `erase_and_set_loc` frees exactly
  -- the old locations, writes the ids to the other new ones, changes no other slot, queues the page
  -- of every old location whose slots are all free then, and leaves the state valid (each page in
  -- the queue stands there once and has no slot in use).
  pub erase_and_set_loc-Changed :
      (s : AllocState g M) (old_locs new_locs new_ids : List ℕ)
      → IsValid g packed M few s
      → AllInUse s old_locs
      → AllInUse s new_locs
      → Distinct old_locs
      → contains invalid_id new_ids ≡ false
      → Changed s
          (erase_and_set_loc g M s old_locs new_locs new_ids)
          (λ l id. if contains l old_locs then invalid_id else written l new_locs new_ids id)
        × AllQueued (erase_and_set_loc g M s old_locs new_locs new_ids) old_locs
  unfolding erase_and_set_loc
  erase_and_set_loc-Changed s old_locs new_locs new_ids valid old new d v =
      let set = set_all-Changed new_locs new_ids s valid new v in
      let s' = record s { page_layout = set_all g M s.page_layout new_locs new_ids } in
      let used : AllInUse s' old_locs = λ l h.
        let w = old l h in
        record {
          below = w.below;
          used =
              rw (set.now l (omega (arith, w.below, valid.in_range)))
                (written-used l new_locs new_ids _ v w.used);
        } in
      let erase = erase_all-Changed old_locs s' set.valid used d in
      (
        record { valid = erase.valid; now = λ l h. erase.now l h ∙ rw (set.now l h) },
        erase_all-AllQueued old_locs s' set.valid used d,
      )
