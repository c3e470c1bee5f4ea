-- ===== src/Alloc/View.antt =====
-- The slots as `loc2id` shows them, and what an allocation does to that view.
use native.Mathlib.Nat.{
  div-add-mod', mod-lt, mul-add-div_right, mul-add-mod_self_right, div-eq_of_lt, mod-eq_of_lt,
  div-le_self,
}
use ccann.Prelude.{
  ℕ, zero, suc, ◌+◌, ◌-◌, ◌*◌, ◌/◌, ◌%◌, ◌^◌, ◌≤◌, ◌<◌, ◌≡◌, refl, ◌∙◌, inl, inr, Bool, true, false,
  ◌==◌, if◌then◌else◌, Option, none, some, Bool-cases, List, [], ◌∷◌, ◌++◌, get_or, length,
  contains, contains-append, Distinct, arith, ap, sym, subst, ==_refl,
}
use ccann.CuckooMap.{CuckooMap}
use ccann.Layout.{Geometry, u32, sector_to_loc}
use ccann.Layout.Slots.{IsPacked, loc_sector_no_eq, sector_to_loc_eq}
use ccann.VecLocks.{invalid_id, allocated_id}
use ccann.VecLocks.Order.{Ascending, below-Ascending}
use ccann.Alloc.{PageArr, page_of, offset_of, loc2id}
use ccann.Alloc.Page.{Filled}

-- Locations stay below this bound, so no cast to `uint32_t` changes one.
abbrev pub loc_limit : ℕ
loc_limit = 2 ^ 31

pub base-next : (page k : ℕ) → 0 < page → (page - 1) * k + k ≡ page * k
base-next zero k h = elim h [ ]
base-next (suc q) k h = let e : suc q - 1 ≡ q = omega arith in rw e (omega arith)

module _ (g : Geometry) (packed : IsPacked g) (M : CuckooMap PageArr) where
  open g use {nnodes_per_sector}

  -- A page of the graph file; `base` is its first location.
  pub record InFile (page : ℕ) : Type 0 where
    pub pos : 0 < page
    pub small : page * nnodes_per_sector < loc_limit

  abbrev pub base : ℕ → ℕ
  base page = (page - 1) * nnodes_per_sector

  -- The locations `locs`, each once, go from free to allocated; every other slot stays.
  pub record Allocates (before after : M.Map) (locs : List ℕ) : Type 0 where
    pub was_free :
        (l : ℕ) → contains l locs ≡ true → (l < loc_limit) × (loc2id g M before l ≡ invalid_id)
    pub distinct : Distinct locs
    pub now :
        (l : ℕ)
        → l < loc_limit
        → loc2id g M after l ≡ (if contains l locs then allocated_id else loc2id g M before l)

  pub Allocates-nil : (layout : M.Map) → Allocates layout layout []
  Allocates-nil layout = record {
    was_free = λ l h. absurd (cc h);
    distinct = tt;
    now = λ l h. refl;
  }

  pub Distinct-append :
      (xs ys : List ℕ)
      → Distinct xs
      → Distinct ys
      → ((l : ℕ) → contains l xs ≡ true → contains l ys ≡ false)
      → Distinct (xs ++ ys)
  Distinct-append [] ys d e h = e
  Distinct-append (x ∷ xs) ys d e h = (
    ground (arith, contains-append x xs ys, h x),
    Distinct-append xs ys d.1 e (λ l q. ground (arith, h l)),
  )

  pub Allocates-append :
      {a b c : M.Map} {xs ys : List ℕ}
      → Allocates a b xs
      → Allocates b c ys
      → Allocates a c (xs ++ ys)
  Allocates-append {a} {b} {c} {xs} {ys} p q = record {
    was_free = λ l h. ground (arith, contains-append l xs ys, p.was_free l, p.now l, q.was_free l);
    distinct =
        Distinct-append xs ys p.distinct q.distinct
          (λ l h. ground (arith, p.was_free l, p.now l, q.was_free l));
    now = λ l h. ground (arith, contains-append l xs ys, p.now l, q.now l);
  }

  pub page_of_eq : (loc : ℕ) → loc < loc_limit → page_of g M loc ≡ 1 + loc / nnodes_per_sector
  page_of_eq loc h =
      let e : u32 loc ≡ loc = omega arith in
      rw (e, loc_sector_no_eq g packed loc (omega arith))
        (omega (arith, div-le_self loc nnodes_per_sector))

  offset_of_eq : (loc : ℕ) → loc < loc_limit → offset_of g M loc ≡ loc % nnodes_per_sector
  offset_of_eq loc h = let e : u32 loc ≡ loc = omega arith in rw e

  -- A location of a page is the first one and the offset.
  pub in_page :
      (page loc : ℕ)
      → InFile page
      → base page ≤ loc
      → loc < base page + nnodes_per_sector
      → (loc < loc_limit) × (page_of g M loc ≡ page) × (offset_of g M loc ≡ loc - base page)
  in_page page loc f lo hi =
      let whole : base page + nnodes_per_sector ≡ page * nnodes_per_sector =
        base-next page nnodes_per_sector f.pos in
      let small : loc < loc_limit = omega (arith, f.small) in
      let k = loc - base page in
      let split : loc ≡ (page - 1) * nnodes_per_sector + k = omega arith in
      let row : loc / nnodes_per_sector ≡ page - 1 = rw split (
        omega (
          arith,
          mul-add-div_right packed.some_nodes (page - 1) k,
          div-eq_of_lt {n = k} {m = nnodes_per_sector} (omega arith),
        )) in
      let column : loc % nnodes_per_sector ≡ k =
        ap (λ x. x % nnodes_per_sector) split
        ∙ mul-add-mod_self_right (page - 1) nnodes_per_sector k
        ∙ mod-eq_of_lt {n = k} {m = nnodes_per_sector} (omega arith) in
      (small, omega (arith, page_of_eq loc small, f.pos), offset_of_eq loc small ∙ column)

  pub of_page :
      (loc : ℕ)
      → loc < loc_limit
      → (base (page_of g M loc) + offset_of g M loc ≡ loc) × (offset_of g M loc < nnodes_per_sector)
  of_page loc h =
      let e : page_of g M loc - 1 ≡ loc / nnodes_per_sector = omega (arith, page_of_eq loc h) in
      (
        rw (e, offset_of_eq loc h) (div-add-mod' loc nnodes_per_sector),
        rw (offset_of_eq loc h) (mod-lt loc packed.some_nodes),
      )

  pub located :
      (page : ℕ)
      → InFile page
      → (off : ℕ) → off < nnodes_per_sector
      → sector_to_loc g page off ≡ base page + off
  located page f off h = sector_to_loc_eq g packed page off f.pos h (omega (arith, f.small))

  Ascending-Distinct : (lo : ℕ) (xs : List ℕ) → Ascending lo xs → Distinct xs
  Ascending-Distinct lo [] a = tt
  Ascending-Distinct lo (x ∷ xs) a =
      (below-Ascending (suc x) x xs a.1 (omega arith), Ascending-Distinct (suc x) xs a.1)

  -- What `loc2id` reads of a page that the map holds.
  unfoldable pub slot_of : Option PageArr → ℕ → ℕ
  slot_of o off = elim o [ none ↦ invalid_id | some v ↦ get_or v off invalid_id ]

  pub loc2id_eq :
      (layout : M.Map) (l page off : ℕ) (o : Option PageArr)
      → page_of g M l ≡ page
      → offset_of g M l ≡ off
      → M.find layout page ≡ o
      → loc2id g M layout l ≡ slot_of o off
  unfolding loc2id slot_of
  loc2id_eq layout l page off o p q e =
      ap (λ k. slot_of (M.find layout k) (offset_of g M l)) p
      ∙ ap (slot_of (M.find layout page)) q
      ∙ ap (λ x. slot_of x off) e

  -- Every page that the map holds has its slots.
  abbrev pub IsSized : M.Map → Type 0
  IsSized layout =
      (page : ℕ) (v : PageArr) → M.find layout page ≡ some v → nnodes_per_sector ≤ length v

  -- One page filled, seen through `loc2id`.
  module _ (layout : M.Map) (page : ℕ) (v v' : PageArr) (locs : List ℕ) (cur n : ℕ) (strict : Bool)
      (f : InFile page) (e : M.find layout page ≡ some v)
      (fill : Filled g strict page n (base page) (located page f) 0 cur v (v', locs)) where
    abbrev pub after : M.Map
    after = M.update_fn layout page (λ _. v')

    page-was_free :
        (l : ℕ) → contains l locs ≡ true → (l < loc_limit) × (loc2id g M layout l ≡ invalid_id)
    unfolding slot_of
    page-was_free l h =
        let (up, lo, inside, was) = fill.was_free l h in
        let (small, pg, off) = in_page page l f (omega arith) up in
        let z : l - base page ≡ l - (base page + 0) = omega arith in
        (small, loc2id_eq layout l page (l - (base page + 0)) (some v) pg (off ∙ z) e ∙ was)

    find_after : M.find after page ≡ some v'
    find_after = rw (M.find-update_fn layout page page (λ _. v'), ==_refl page, e)

    pub page-outside :
        (l : ℕ) → (page == page_of g M l) ≡ false → loc2id g M after l ≡ loc2id g M layout l
    page-outside l other =
        let same : M.find after (page_of g M l) ≡ M.find layout (page_of g M l) =
          rw (M.find-update_fn layout page (page_of g M l) (λ _. v'), other) in
        let o = M.find layout (page_of g M l) in
        loc2id_eq after l (page_of g M l) (offset_of g M l) o refl refl same
        ∙ sym (loc2id_eq layout l (page_of g M l) (offset_of g M l) o refl refl refl)

    page-now :
        (l : ℕ)
        → l < loc_limit
        → loc2id g M after l ≡ (if contains l locs then allocated_id else loc2id g M layout l)
    unfolding slot_of
    page-now l h = elim (Bool-cases (page == page_of g M l)) [
      | inl here ↦
          let pg : page_of g M l ≡ page = ground arith in
          let off = offset_of g M l in
          let at : base page + 0 + off ≡ l =
            omega (arith, subst (λ k. base k + off ≡ l) pg (of_page l h).0) in
          loc2id_eq after l page off (some v') pg refl find_after
          ∙ fill.now off invalid_id
          ∙ rw (at, loc2id_eq layout l page off (some v) pg refl e)
      | inr other ↦
          let absent : contains l locs ≡ false = elim (Bool-cases (contains l locs)) [
            | inl q ↦
                let (up, lo, inside, was) = fill.was_free l q in
                let (small, pg, off) = in_page page l f (omega arith) up in absurd (ground arith)
            | inr q ↦ q
          ] in
          page-outside l other ∙ rw absent
    ]

    pub page-IsSized : IsSized layout → IsSized after
    page-IsSized sized q w h = elim (Bool-cases (page == q)) [
      | inl here ↦
          let found : some w ≡ some v' =
            sym h ∙ M.find-update_fn layout page q (λ _. v') ∙ rw (here, e) refl in
          ground (arith, found, fill.same_length, sized page v e)
      | inr other ↦ sized q w (rw (M.find-update_fn layout page q (λ _. v'), other) at h)
    ]

    pub page-Allocates : Allocates layout after locs
    page-Allocates = record {
      was_free = page-was_free;
      distinct = Ascending-Distinct (base page + 0) locs fill.ascending;
      now = page-now;
    }
