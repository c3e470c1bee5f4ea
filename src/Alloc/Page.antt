-- ===== src/Alloc/Page.antt =====
-- The loop of `alloc_loc` over one page.
use ccann.Prelude.{
  ℕ, zero, suc, ◌+◌, ◌-◌, ◌≤◌, ◌<◌, ◌≡◌, refl, ◌⊎◌, inl, inr, Bool, true, false, ltb, ◌==◌,
  if◌then◌else◌, some, Bool-cases, Option-cases, List, [], ◌∷◌, get_or, length, contains, arith,
  ==_refl, subst,
}
use ccann.Layout.{Geometry, sector_to_loc}
use ccann.VecLocks.{invalid_id, allocated_id}
use ccann.VecLocks.Order.{Ascending, below-Ascending}
use ccann.Alloc.{PageArr, fill_slots}

module _ (g : Geometry) (strict : Bool) (page n base : ℕ)
    (located : (off : ℕ) → off < g.nnodes_per_sector → sector_to_loc g page off ≡ base + off) where
  open g use {nnodes_per_sector}

  -- What the loop from slot `i` has done with the slots `v`.
  pub record Filled (i cur : ℕ) (v : PageArr) (r : PageArr × List ℕ) : Type 0 where
    pub ascending : Ascending (base + i) r.1
    pub was_free :
        (l : ℕ)
        → contains l r.1 ≡ true
        → (l < base + nnodes_per_sector)
          × (base + i ≤ l)
          × (l - (base + i) < length v)
          × (get_or v (l - (base + i)) invalid_id ≡ invalid_id)
    pub now :
        (j d : ℕ)
        → get_or r.0 j d ≡ (if contains (base + i + j) r.1 then allocated_id else get_or v j d)
    pub same_length : length r.0 ≡ length v
    pub enough : cur + length r.1 ≤ n

  Filled-stop : (i cur : ℕ) (v : PageArr) → cur ≤ n → Filled i cur v (v, [])
  Filled-stop i cur v h = record {
    ascending = tt;
    was_free = λ l q. absurd (cc q);
    now = λ j d. refl;
    same_length = refl;
    enough = omega arith;
  }

  Ascending-mono : {lo hi : ℕ} (xs : List ℕ) → lo ≤ hi → Ascending hi xs → Ascending lo xs
  Ascending-mono [] h a = tt
  Ascending-mono (x ∷ xs) h a = (omega arith, a.1)

  get_or-cons : (x : ℕ) (v : PageArr) (k m d : ℕ) → k ≡ suc m → get_or (x ∷ v) k d ≡ get_or v m d
  get_or-cons x v k m d e = rw e

  absent_here :
      (i : ℕ) (locs : List ℕ) → Ascending (base + (i + 1)) locs → contains (base + i) locs ≡ false
  absent_here i locs a = below-Ascending (base + (i + 1)) (base + i) locs a (omega arith)

  module _ (i cur x : ℕ) (v v' : PageArr) (locs : List ℕ) where
    skip-now :
        Filled (i + 1) cur v (v', locs)
        → (j d : ℕ)
        → get_or (x ∷ v') j d
          ≡ (if contains (base + i + j) locs then allocated_id else get_or (x ∷ v) j d)
    skip-now f zero d =
        let e : base + i + 0 ≡ base + i = omega arith in rw (e, absent_here i locs f.ascending)
    skip-now f (suc j) d =
        let e : base + i + suc j ≡ base + (i + 1) + j = omega arith in rw (e, f.now j d)

    later_free :
        {cur' : ℕ}
        → Filled (i + 1) cur' v (v', locs)
        → (l : ℕ) → contains l locs ≡ true
        → (l < base + nnodes_per_sector)
          × (base + i ≤ l)
          × (l - (base + i) < suc (length v))
          × (get_or (x ∷ v) (l - (base + i)) invalid_id ≡ invalid_id)
    later_free f l q =
        let (up, lo, inside, was) = f.was_free l q in
        (
          up,
          omega arith,
          omega arith,
          rw (get_or-cons x v (l - (base + i)) (l - (base + (i + 1))) invalid_id (omega arith)) was,
        )

    Filled-skip : Filled (i + 1) cur v (v', locs) → Filled i cur (x ∷ v) (x ∷ v', locs)
    Filled-skip f = record {
      ascending = Ascending-mono locs (omega arith) f.ascending;
      was_free = later_free f;
      now = skip-now f;
      same_length = omega (arith, f.same_length);
      enough = f.enough;
    }

    take-now :
        Filled (i + 1) (cur + 1) v (v', locs)
        → (j d : ℕ)
        → get_or (allocated_id ∷ v') j d ≡ (
            if contains (base + i + j) ((base + i) ∷ locs)
            then allocated_id
            else get_or (x ∷ v) j d)
    take-now f zero d = let e : base + i + 0 ≡ base + i = omega arith in rw (e, ==_refl (base + i))
    take-now f (suc j) d =
        let e : base + i + suc j ≡ base + (i + 1) + j = omega arith in
        let ne : (base + (i + 1) + j == base + i) ≡ false = ground arith in
        ground (arith, e, ne, f.now j d)

    Filled-take :
        i < nnodes_per_sector
        → x ≡ invalid_id
        → Filled (i + 1) (cur + 1) v (v', locs)
        → Filled i cur (x ∷ v) (allocated_id ∷ v', (base + i) ∷ locs)
    Filled-take h e f = record {
      ascending = (omega arith, subst (λ k. Ascending k locs) (omega arith) f.ascending);
      was_free = λ l q. elim (Bool-cases (l == base + i)) [
        | inl here ↦
            let zero_off : l - (base + i) ≡ 0 = ground arith in
            (ground arith, ground arith, ground arith, rw (zero_off, e))
        | inr other ↦ later_free f l (ground arith)
      ];
      now = take-now f;
      same_length = omega (arith, f.same_length);
      enough = omega (arith, f.enough);
    }

  Filled-last :
      (i cur x : ℕ) (v : PageArr)
      → i < nnodes_per_sector
      → x ≡ invalid_id
      → cur + 1 ≡ n
      → Filled i cur (x ∷ v) (allocated_id ∷ v, (base + i) ∷ [])
  Filled-last i cur x v h e m =
      Filled-take i cur x v v [] h e (Filled-stop (i + 1) (cur + 1) v (omega arith))

  -- The loop over a page, where it does not crash.
  pub fill_slots-Filled :
      (i cur : ℕ) (v : PageArr) (r : PageArr × List ℕ)
      → cur < n
      → fill_slots g strict page n i cur v ≡ some r
      → Filled i cur v r
  unfolding fill_slots
  fill_slots-Filled i cur [] r h e =
      subst (Filled i cur []) (ground arith) (Filled-stop i cur [] (omega arith))
  fill_slots-Filled i cur (x ∷ v) r h e = elim (Bool-cases (ltb i nnodes_per_sector)) [
    | inr out ↦
        subst (Filled i cur (x ∷ v)) (ground arith) (Filled-stop i cur (x ∷ v) (omega arith))
    | inl in_page ↦ elim (Bool-cases (x == invalid_id)) [
      | inl free ↦ elim (Bool-cases (cur + 1 == n)) [
        | inl last ↦
            subst (Filled i cur (x ∷ v)) (ground (arith, located i))
              (Filled-last i cur x v (ground arith) (ground arith) (ground arith))
        | inr more ↦ elim (Option-cases (fill_slots g strict page n (i + 1) (cur + 1) v)) [
          | inl crashed ↦ absurd (ground arith)
          | inr (r', e') ↦ subst (Filled i cur (x ∷ v)) (ground (arith, located i)) (
              Filled-take i cur x v r'.0 r'.1 (ground arith) (ground arith)
                (fill_slots-Filled (i + 1) (cur + 1) v r' (ground arith) e'))
        ]
      ]
      | inr used ↦ elim (Option-cases (fill_slots g strict page n (i + 1) cur v)) [
        | inl crashed ↦ absurd (ground arith)
        | inr (r', e') ↦
            subst (Filled i cur (x ∷ v)) (ground arith)
              (Filled-skip i cur x v r'.0 r'.1 (fill_slots-Filled (i + 1) cur v r' h e'))
      ]
    ]
  ]

  -- Every slot of the page from index `i` on is free.
  abbrev pub Clean : ℕ → PageArr → Type 0
  Clean i [] = Unit
  Clean i (x ∷ v) = (i < nnodes_per_sector → x ≡ invalid_id) × Clean (i + 1) v

  -- There is no crash on a hint page, nor on a page that is empty.
  pub fill_slots-some :
      (i cur : ℕ) (v : PageArr)
      → (strict ≡ false) ⊎ Clean i v
      → (r : PageArr × List ℕ) × (fill_slots g strict page n i cur v ≡ some r)
  unfolding fill_slots
  fill_slots-some i cur [] fine = (([], []), refl)
  fill_slots-some i cur (x ∷ v) fine =
      let (r, e) =
        fill_slots-some (i + 1) (if x == invalid_id then cur + 1 else cur) v (clean_rest fine) in
      elim (Bool-cases (ltb i nnodes_per_sector)) [
        | inr out ↦ ((x ∷ v, []), rw out)
        | inl in_page ↦ elim (Bool-cases (x == invalid_id)) [
          | inl free ↦ elim (Bool-cases (cur + 1 == n)) [
            | inl last ↦ ((allocated_id ∷ v, sector_to_loc g page i ∷ []), rw (in_page, free, last))
            | inr more ↦ ((allocated_id ∷ r.0, sector_to_loc g page i ∷ r.1), ground arith)
          ]
          | inr used ↦ ((x ∷ r.0, r.1), ground (arith, lax fine used in_page))
        ]
      ]
    where
      clean_rest : (strict ≡ false) ⊎ Clean i (x ∷ v) → (strict ≡ false) ⊎ Clean (i + 1) v
      clean_rest (inl h) = inl h
      clean_rest (inr h) = inr h.1

      lax :
          (strict ≡ false) ⊎ Clean i (x ∷ v)
          → (x == invalid_id) ≡ false
          → ltb i nnodes_per_sector ≡ true
          → strict ≡ false
      lax (inl h) used in_page = h
      lax (inr h) used in_page =
          let e : x ≡ invalid_id = h.0 (ground arith) in absurd (ground arith)
