-- ===== src/Alloc/Total.antt =====
-- `alloc_loc` of include/ssd_index.h as a whole.
use native.Mathlib.Nat.{mod-lt, div-add-mod', mul-add-mod_self_right, zero-mod}
use ccann.Prelude.{
  ℕ, suc, ◌+◌, ◌-◌, ◌*◌, ◌%◌, ◌/◌, ◌≤◌, ◌<◌, ◌≡◌, refl, ◌∙◌, inl, inr, Bool, true, false, ◌==◌,
  some, Bool-cases, List, [], ◌∷◌, length, length-append, contains, arith,
}
use ccann.CuckooMap.{CuckooMap}
use ccann.Layout.{Geometry, u64}
use ccann.Layout.Slots.{IsPacked}
use ccann.Alloc.{
  PageArr, AllocState, Progress, take_empty, take_hints, take_fresh, overprovision, align_loc,
  settled, alloc_loc,
}
use ccann.Alloc.View.{loc_limit, Allocates, Allocates-nil, Allocates-append, IsSized}
use ccann.Alloc.OnePage.{Sofar}
use ccann.Alloc.Rules.{
  Usable, Queued, Met, Emptied, take_empty-Emptied, take_hints-Sofar, FreeFrom, take_fresh-Appended,
}

module _ (g : Geometry) (packed : IsPacked g) (M : CuckooMap PageArr)
    (few : g.nnodes_per_sector ≤ 16) where
  open g use {nnodes_per_sector}

  -- Pages in the queue are below `cur_loc`, each once and with no slot in use, and no slot from
  -- `cur_loc` on is in use; `cur_loc` starts a page.
  pub record IsValid (s : AllocState g M) : Type 0 where
    pub sized : IsSized g packed M s.page_layout
    pub queued : Queued g packed M 0 s.cur_loc s.page_layout s.page_layout s.empty_pages
    pub end_free : FreeFrom g packed M few s.page_layout s.cur_loc
    pub aligned : s.cur_loc % nnodes_per_sector ≡ 0
    pub in_range : s.cur_loc < loc_limit

  -- The result of an allocation of `n` locations.
  pub record Allocated (n : ℕ) (s : AllocState g M) (r : AllocState g M × List ℕ × List ℕ)
      : Type 0 where
    pub allocates : Allocates g packed M s.page_layout r.0.page_layout r.1
    pub counted : length r.1 ≡ n
    pub valid : IsValid r.0

  module _ (n : ℕ) (s : AllocState g M) (valid : IsValid s) where
    settled-IsValid :
        (p : Progress g M) (queue : List ℕ)
        → Sofar g packed M n s.cur_loc s.page_layout p
        → Queued g packed M n s.cur_loc s.page_layout p.layout queue
        → IsValid (settled g M s queue p)
    settled-IsValid p queue sofar q = record {
      sized = sofar.sized;
      queued = record {
        usable = λ page h. let u = q.usable page h in record { in_file = u.in_file; old = u.old };
        free = λ page h. q.free page h;
        once = q.once;
      };
      end_free = λ l lo hi.
          sofar.allocates.now l hi ∙ ground (arith, sofar.below l, valid.end_free l lo hi);
      aligned = valid.aligned;
      in_range = valid.in_range;
    }

    settled-Allocated :
        (p : Progress g M) (queue reads : List ℕ)
        → Sofar g packed M n s.cur_loc s.page_layout p
        → p.cur ≡ n
        → Queued g packed M n s.cur_loc s.page_layout p.layout queue
        → Allocated n s (settled g M s queue p, p.ret, reads)
    settled-Allocated p queue reads sofar met q = record {
      allocates = sofar.allocates;
      counted = omega (arith, sofar.counted, met);
      valid = settled-IsValid p queue sofar q;
    }

    align_le : (loc : ℕ) → (loc ≤ align_loc g M loc) × (align_loc g M loc < loc + nnodes_per_sector)
    align_le loc = ground (arith, packed.some_nodes)

    align-aligned : (loc : ℕ) → align_loc g M loc % nnodes_per_sector ≡ 0
    align-aligned loc = elim (Bool-cases (loc % nnodes_per_sector == 0)) [
      | inl even ↦ rw even (ground arith)
      | inr odd ↦
          let k = nnodes_per_sector in
          let whole : loc + (k - loc % k) ≡ suc (loc / k) * k + 0 =
            omega (arith, div-add-mod' loc k, mod-lt loc packed.some_nodes) in
          rw (odd, whole) (mul-add-mod_self_right (suc (loc / k)) k 0 ∙ zero-mod k)
    ]

    moved_lem :
        (loc : ℕ)
        → loc + nnodes_per_sector ≤ loc_limit
        → u64 (align_loc g M (u64 loc)) ≡ align_loc g M loc
    moved_lem loc h =
        let inner : u64 loc ≡ loc = omega arith in rw inner (omega (arith, (align_le loc).1))

    overprovision-Allocated :
        (p : Progress g M) (reads : List ℕ)
        → s.cur_loc + n + nnodes_per_sector ≤ loc_limit
        → Sofar g packed M n s.cur_loc s.page_layout p
        → let r = overprovision g M n s [] p in Allocated n s (r.0, r.1, reads)
    unfolding overprovision
    overprovision-Allocated p reads room sofar =
        let k = n - p.cur in
        let still_free : FreeFrom g packed M few p.layout s.cur_loc = λ l lo hi.
          sofar.allocates.now l hi ∙ ground (arith, sofar.below l, valid.end_free l lo hi) in
        let t =
          take_fresh-Appended g packed M few k s.cur_loc p.layout (omega (arith, sofar.room))
            sofar.sized still_free in
        let moved : u64 (align_loc g M (u64 (s.cur_loc + k))) ≡ align_loc g M (s.cur_loc + k) =
          moved_lem (s.cur_loc + k) (omega (arith, sofar.room)) in
        record {
          allocates = Allocates-append g packed M sofar.allocates t.allocates;
          counted = omega (
            arith,
            sofar.counted,
            sofar.room,
            t.counted,
            length-append p.ret (take_fresh g M k s.cur_loc p.layout).1,
          );
          valid = record {
            sized = t.sized;
            queued = record {
              usable = λ page h. absurd (cc h);
              free = λ page h. absurd (cc h);
              once = tt;
            };
            end_free = λ l lo hi.
                let above : s.cur_loc + k ≤ l =
                  omega (arith, lo, moved, (align_le (s.cur_loc + k)).0) in
                t.allocates.now l hi ∙ ground (arith, t.range l, still_free l (omega arith) hi);
            aligned = rw moved (align-aligned (s.cur_loc + k));
            in_range = omega (arith, moved, (align_le (s.cur_loc + k)).1, sofar.room);
          };
        }

  -- With 1 to 16 slots in a sector: from a state that is valid, with hint pages that lie below
  -- `cur_loc` and with room in the file for `n > 0` more locations, `alloc_loc` returns (it does not crash): it returns `n` distinct
  -- locations, all of them free before and allocated after, it changes no other slot, and the state
  -- is valid again.
  pub alloc_loc-Allocated :
      (n : ℕ) (s : AllocState g M) (hint_pages : List ℕ)
      → IsValid s
      → 0 < n
      → s.cur_loc + n + nnodes_per_sector ≤ loc_limit
      → ((page : ℕ)
          → contains page hint_pages ≡ true
          → Usable g packed M n s.cur_loc s.page_layout page)
      → (r : AllocState g M × List ℕ × List ℕ) × (alloc_loc g M s n hint_pages ≡ some r)
        × Allocated n s r
  unfolding alloc_loc
  alloc_loc-Allocated n s hint_pages valid pos room hints =
      let p : Progress g M = record { layout = s.page_layout; ret = []; cur = 0 } in
      let begin : Sofar g packed M n s.cur_loc s.page_layout p = record {
        allocates = Allocates-nil g packed M s.page_layout;
        sized = valid.sized;
        counted = refl;
        room = omega arith;
        below = λ l h. absurd (cc h);
      } in
      let waiting : Queued g packed M n s.cur_loc s.page_layout s.page_layout s.empty_pages =
        record {
          usable = λ page h.
              let u = valid.queued.usable page h in record { in_file = u.in_file; old = u.old };
          free = λ page h. valid.queued.free page h;
          once = valid.queued.once;
        } in
      let (r, e, d) =
        take_empty-Emptied g packed M n s.cur_loc s.page_layout s.empty_pages p begin pos waiting in
      emptied r.0 r.1 r.2 e d
    where
      Result : Type 0
      Result =
          (r : AllocState g M × List ℕ × List ℕ) × (alloc_loc g M s n hint_pages ≡ some r)
          × Allocated n s r

      hinted :
          (p : Progress g M)
          → take_empty g M n s.empty_pages (record { layout = s.page_layout; ret = []; cur = 0 })
            ≡ some (p, [], false)
          → (p' : Progress g M) (reads : List ℕ) (full : Bool)
          → take_hints g M n hint_pages p [] ≡ some (p', reads, full)
          → Sofar g packed M n s.cur_loc s.page_layout p'
          → Met g packed M n s.cur_loc s.page_layout full p'.cur
          → Result
      hinted p e p' reads true e' sofar met = (
        (settled g M s [] p', p'.ret, reads),
        rw (alloc_loc, e, e') refl,
        settled-Allocated n s valid p' [] reads sofar met (record {
          usable = λ page h. absurd (cc h);
          free = λ page h. absurd (cc h);
          once = tt;
        }),
      )
      hinted p e p' reads false e' sofar met =
          let r = overprovision g M n s [] p' in
          (
            (r.0, r.1, reads),
            rw (alloc_loc, e, e') refl,
            overprovision-Allocated n s valid p' reads room sofar,
          )

      emptied :
          (p : Progress g M) (queue : List ℕ) (full : Bool)
          → take_empty g M n s.empty_pages (record { layout = s.page_layout; ret = []; cur = 0 })
            ≡ some (p, queue, full)
          → Emptied g packed M n s.cur_loc s.page_layout s.page_layout (p, queue, full)
          → Result
      emptied p queue true e d = (
        (settled g M s queue p, p.ret, []),
        rw (alloc_loc, e) refl,
        settled-Allocated n s valid p queue [] d.sofar d.met d.queued,
      )
      emptied p (x ∷ queue) false e d = let drained = d.drained refl in absurd (cc drained)
      emptied p [] false e d =
          let (r, e', sofar, met) =
            take_hints-Sofar g packed M n s.cur_loc s.page_layout hint_pages p [] d.sofar d.met
              hints in
          hinted p e r.0 r.1 r.2 e' sofar met
