-- ===== src/Alloc/Rules.antt =====
use native.Mathlib.Nat.{mul-le-mul_left}
-- The three rules of `alloc_loc` of include/ssd_index.h.
use ccann.Prelude.{
  ℕ, zero, suc, ◌+◌, ◌*◌, ◌≤◌, ◌<◌, ◌≡◌, refl, ◌∙◌, ap, inl, inr, Bool, true, false, ltb, ◌==◌,
  if◌then◌else◌, some, Bool-cases, Option-cases, List, [], ◌∷◌, length, contains, Distinct, ==_refl,
  arith,
}
use ccann.CuckooMap.{CuckooMap}
use ccann.Layout.{Geometry}
use ccann.Layout.Slots.{IsPacked}
use ccann.VecLocks.{invalid_id, allocated_id}
use ccann.Alloc.{
  PageArr, page_of, loc2id, set_loc2id, count_free, threshold, Progress, fill_page, take_empty,
  fill_hint, needs_read, take_hints, take_fresh,
}
use ccann.Alloc.View.{
  loc_limit, InFile, Allocates, Allocates-nil, Allocates-append, IsSized, in_page,
}
use ccann.Alloc.Fresh.{set_loc2id-now, set_loc2id-IsSized}
use ccann.Alloc.OnePage.{Sofar, Free, Outside, fill_page-Sofar, fill_page-some}

module _ (g : Geometry) (packed : IsPacked g) (M : CuckooMap PageArr) (n top : ℕ)
    (start : M.Map) where
  open g use {nnodes_per_sector}

  -- A page below the end of the allocated space.
  pub record Usable (page : ℕ) : Type 0 where
    pub in_file : InFile g packed M page
    pub old : page * nnodes_per_sector ≤ top

  -- The pages in the queue of empty pages: each once, and with no slot in use.
  pub record Queued (layout : M.Map) (queue : List ℕ) : Type 0 where
    pub usable : (page : ℕ) → contains page queue ≡ true → Usable page
    pub free : (page : ℕ) → contains page queue ≡ true → Free g packed M n top start layout page
    pub once : Distinct queue

  page-valid : (page : ℕ) → Usable page → (page == invalid_id) ≡ false
  page-valid page u =
      let le : page * 1 ≤ page * nnodes_per_sector =
        mul-le-mul_left {m = 1} {n = nnodes_per_sector} page packed.some_nodes in
      let small = u.in_file.small in ground (arith, le, small)

  Queued-tail :
      (page : ℕ) (queue : List ℕ) (p p' : Progress g M)
      → Queued p.layout (page ∷ queue)
      → Outside g packed M n top start page p p'
      → Queued p'.layout queue
  Queued-tail page queue p p' q out = record {
    usable = λ r h. q.usable r (ground arith);
    free = λ r h l lo hi.
        let f = q.usable r (ground arith) in
        let (small, pg, off) = in_page g packed M r l f.in_file lo hi in
        let ne : (page == page_of g M l) ≡ false = ground (arith, q.once.0) in
        out l ne ∙ q.free r (ground arith) l lo hi;
    once = q.once.1;
  }

  -- Whether the request is met.
  abbrev pub Met : Bool → ℕ → Type 0
  Met true cur = cur ≡ n
  Met false cur = cur < n

  room_or_done : (b : Bool) (cur : ℕ) → cur ≤ n → (cur == n) ≡ b → Met b cur
  room_or_done true cur h e = ground arith
  room_or_done false cur h e = ground arith

  -- Rule #1 does not crash, and leaves a queue of empty pages.
  pub record Emptied (layout : M.Map) (r : Progress g M × List ℕ × Bool) : Type 0 where
    pub sofar : Sofar g packed M n top start r.0
    pub queued : Queued r.0.layout r.1
    pub met : Met r.2 r.0.cur
    pub drained : r.2 ≡ false → r.1 ≡ []

  pub take_empty-Emptied :
      (queue : List ℕ) (p : Progress g M)
      → Sofar g packed M n top start p
      → p.cur < n
      → Queued p.layout queue
      → (r : Progress g M × List ℕ × Bool) × (take_empty g M n queue p ≡ some r)
        × Emptied p.layout r
  unfolding take_empty
  take_empty-Emptied [] p s h q =
      ((p, [], false), refl, record { sofar = s; queued = q; met = h; drained = λ x. refl })
  take_empty-Emptied (page ∷ queue) p s h q =
      let u = q.usable page (ground (arith, ==_refl page)) in
      let (p', e) =
        fill_page-some g packed M n top start true page p u.in_file
          (inr (q.free page (ground (arith, ==_refl page)))) in
      filled p' u e (λ s' h' q'. take_empty-Emptied queue p' s' h' q')
    where
      filled :
          (p' : Progress g M)
          → Usable page
          → fill_page g M true n page p ≡ some p'
          → (Sofar g packed M n top start p'
              → p'.cur < n
              → Queued p'.layout queue
              → (r : Progress g M × List ℕ × Bool) × (take_empty g M n queue p' ≡ some r)
                × Emptied p'.layout r)
          → (r : Progress g M × List ℕ × Bool) × (take_empty g M n (page ∷ queue) p ≡ some r)
            × Emptied p.layout r
      filled p' u e next =
          let (s', out) =
            fill_page-Sofar g packed M n top start true page p p' u.in_file s h u.old e in
          let q' = Queued-tail page queue p p' q out in
          let valid = page-valid page u in
          elim (Bool-cases (p'.cur == n)) [
            | inl full ↦ (
              (p', queue, true),
              rw (valid, e, full) refl,
              record {
                sofar = s';
                queued = q';
                met = room_or_done true p'.cur s'.room full;
                drained = λ x. absurd (cc x);
              },
            )
            | inr more ↦
                let (r, e', d) = next s' (room_or_done false p'.cur s'.room more) q' in
                (
                  r,
                  rw (valid, e, more) e',
                  record { sofar = d.sofar; queued = d.queued; met = d.met; drained = d.drained },
                )
          ]

  fill_hint-some :
      (page : ℕ) (p : Progress g M)
      → Sofar g packed M n top start p
      → p.cur < n
      → Usable page
      → (p' : Progress g M) × (fill_hint g M n page p ≡ some p') × Sofar g packed M n top start p'
  unfolding fill_hint
  fill_hint-some page p s h u =
      let (p', e) = fill_page-some g packed M n top start false page p u.in_file (inl refl) in
      let s' = (fill_page-Sofar g packed M n top start false page p p' u.in_file s h u.old e).0 in
      elim (Option-cases (M.find p.layout page)) [
        | inl absent ↦ (p, rw (absent, fill_hint) refl, s)
        | inr (v, found) ↦
            elim (Bool-cases (ltb (count_free nnodes_per_sector v) (threshold g M))) [
              | inl few ↦ (p, rw (found, fill_hint, few) refl, s)
              | inr enough ↦ (p', rw (found, fill_hint, enough) e, s')
            ]
      ]

  -- Rule #2 never crashes.
  pub take_hints-Sofar :
      (hints : List ℕ) (p : Progress g M) (reads : List ℕ)
      → Sofar g packed M n top start p
      → p.cur < n
      → ((page : ℕ) → contains page hints ≡ true → Usable page)
      → (r : Progress g M × List ℕ × Bool) × (take_hints g M n hints p reads ≡ some r)
        × Sofar g packed M n top start r.0
        × Met r.2 r.0.cur
  unfolding take_hints
  take_hints-Sofar [] p reads s h u = ((p, reads, false), refl, s, h)
  take_hints-Sofar (page ∷ hints) p reads s h u =
      let (p', e, s') = fill_hint-some page p s h (u page (ground (arith, ==_refl page))) in
      filled p' e s' (λ h'. take_hints-Sofar hints p' reads' s' h' (λ q m. u q (ground (arith, m))))
    where
      reads' : List ℕ
      reads' = if needs_read g M page p then page ∷ reads else reads

      filled :
          (p' : Progress g M)
          → fill_hint g M n page p ≡ some p'
          → Sofar g packed M n top start p'
          → (p'.cur < n
              → (r : Progress g M × List ℕ × Bool) × (take_hints g M n hints p' reads' ≡ some r)
                × Sofar g packed M n top start r.0
                × Met r.2 r.0.cur)
          → (r : Progress g M × List ℕ × Bool) × (take_hints g M n (page ∷ hints) p reads ≡ some r)
            × Sofar g packed M n top start r.0
            × Met r.2 r.0.cur
      filled p' e s' next = elim (Bool-cases (p'.cur == n)) [
        | inl full ↦ (
          (p', reads', true),
          rw (take_hints, e, full) refl,
          s',
          room_or_done true p'.cur s'.room full,
        )
        | inr more ↦
            let (r, e', d, m) = next (room_or_done false p'.cur s'.room more) in
            (r, rw (take_hints, e, more) e', d, m)
      ]

module _ (g : Geometry) (packed : IsPacked g) (M : CuckooMap PageArr)
    (few : g.nnodes_per_sector ≤ 16) where
  -- Every location from `loc` on that a run may take is free.
  abbrev pub FreeFrom : M.Map → ℕ → Type 0
  FreeFrom layout loc = (l : ℕ) → loc ≤ l → l < loc_limit → loc2id g M layout l ≡ invalid_id

  -- Rule #3 takes the next `remaining` locations.
  pub record Appended (loc remaining : ℕ) (before after : M.Map) (locs : List ℕ) : Type 0 where
    pub allocates : Allocates g packed M before after locs
    pub sized : IsSized g packed M after
    pub counted : length locs ≡ remaining
    pub range : (l : ℕ) → contains l locs ≡ true → (loc ≤ l) × (l < loc + remaining)

  pub take_fresh-Appended :
      (remaining loc : ℕ) (layout : M.Map)
      → loc + remaining ≤ loc_limit
      → IsSized g packed M layout
      → FreeFrom layout loc
      → let r = take_fresh g M remaining loc layout in Appended loc remaining layout r.0 r.1
  unfolding take_fresh
  take_fresh-Appended zero loc layout h sized free = record {
    allocates = Allocates-nil g packed M layout;
    sized = sized;
    counted = refl;
    range = λ l q. absurd (cc q);
  }
  take_fresh-Appended (suc remaining) loc layout h sized free =
      let layout' = set_loc2id g M layout loc allocated_id in
      let now : (l : ℕ)
          → l < loc_limit
          → loc2id g M layout' l ≡ (if loc == l then allocated_id else loc2id g M layout l) =
        λ l k. set_loc2id-now g packed M layout loc allocated_id l few sized (omega arith) k in
      let rest =
        take_fresh-Appended remaining (loc + 1) layout' (omega arith)
          (set_loc2id-IsSized g packed M layout loc allocated_id few sized)
          (λ l lo k. now l k ∙ ground (arith, free l (omega arith) k)) in
      let one : Allocates g packed M layout layout' (loc ∷ []) = record {
        was_free = λ l q. (ground arith, free l (ground arith) (ground arith));
        distinct = (refl, tt);
        now = λ l k. now l k ∙ ground arith;
      } in
      record {
        allocates = Allocates-append g packed M one rest.allocates;
        sized = rest.sized;
        counted = ap suc rest.counted;
        range = λ l q. ground (arith, rest.range l);
      }
