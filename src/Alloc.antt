-- ===== src/Alloc.antt =====
-- include/ssd_index.h: the slots of the graph file (`page_layout`, `empty_pages`, `cur_loc`) and
-- the calls that allocate, fill and free them. Each runs under `alloc_lock`, so it is one step.
-- Built without ANN_LARGE and NO_POLLUTE_ORIGINAL, and with `nnodes_per_sector > 0`.
pub mod Page
pub mod View
pub mod Fresh
pub mod OnePage
pub mod Rules
pub mod Total
pub mod Erase
pub mod Commit
pub mod Switch
use ccann.Prelude.{
  ℕ, zero, suc, ◌+◌, ◌-◌, ◌/◌, ◌%◌, ◌^◌, Bool, true, false, not, ltb, ◌==◌, if◌then◌else◌, Option,
  none, some, List, [], ◌∷◌, ◌++◌, get_or, set, length, ◌&&◌,
}
use ccann.CuckooMap.{CuckooMap}
use ccann.Layout.{Geometry, u32, u64, loc_sector_no, sector_to_loc}
use ccann.VecLocks.{invalid_id, allocated_id}

-- `PageArr`: kMaxElemInAPage ids
abbrev pub PageArr : Type 0
PageArr = List ℕ

abbrev pub repeat : ℕ → ℕ → PageArr
repeat zero a = []
repeat (suc n) a = a ∷ repeat n a

-- The first `n` slots of a page set to kInvalidID.
unfoldable pub clear_slots : ℕ → PageArr → PageArr
clear_slots zero v = v
clear_slots (suc n) [] = []
clear_slots (suc n) (x ∷ v) = invalid_id ∷ clear_slots n v

-- How many of the first `n` slots hold kInvalidID.
unfoldable pub count_free : ℕ → PageArr → ℕ
count_free zero v = 0
count_free (suc n) [] = 0
count_free (suc n) (x ∷ v) = (if x == invalid_id then 1 else 0) + count_free n v

-- The loop over the slots of a page from index `i` on, `cur` of `n` locations allocated so far: the
-- page and the locations that it allocates. A slot in use is a crash where the page is meant to be
-- empty (`strict`, Rule #1), and is passed over on a hint page (Rule #2).
unfoldable pub fill_slots : Geometry → Bool → ℕ → ℕ → ℕ → ℕ → PageArr → Option (PageArr × List ℕ)
fill_slots g strict page n i cur [] = some ([], [])
fill_slots g strict page n i cur (x ∷ v) =
    let is_free = x == invalid_id in
    let rest = fill_slots g strict page n (i + 1) (if is_free then cur + 1 else cur) v in
    let loc = sector_to_loc g page i in
    let skipped : Option (PageArr × List ℕ) = elim rest [
      | none ↦ none
      | some (v', locs) ↦ some (x ∷ v', locs)
    ] in
    let taken : Option (PageArr × List ℕ) = elim rest [
      | none ↦ none
      | some (v', locs) ↦ some (allocated_id ∷ v', loc ∷ locs)
    ] in
    if ltb i g.nnodes_per_sector
    then if is_free
      then if cur + 1 == n then some (allocated_id ∷ v, loc ∷ []) else taken
      else if strict
      then none
      else skipped
    else some (x ∷ v, [])

module _ (g : Geometry) (M : CuckooMap PageArr) where
  open g use {nnodes_per_sector}

  pub record AllocState : Type 0 where
    pub page_layout : M.Map
    pub empty_pages : List ℕ
    pub cur_loc : ℕ

  -- `uint32_t page = loc_sector_no(loc)`
  abbrev pub page_of : ℕ → ℕ
  page_of loc = u32 (loc_sector_no g (u32 loc))

  abbrev pub offset_of : ℕ → ℕ
  offset_of loc = u32 loc % nnodes_per_sector

  unfoldable pub loc2id : M.Map → ℕ → ℕ
  loc2id layout loc = elim (M.find layout (page_of loc)) [
    | none ↦ invalid_id
    | some v ↦ get_or v (offset_of loc) invalid_id
  ]

  -- `std::array` of kMaxElemInAPage = 16 values, zero where it is newly inserted
  abbrev pub new_page : PageArr
  new_page = repeat 16 0

  abbrev pub set_slot : ℕ → ℕ → Option PageArr → PageArr
  set_slot offset id none = set (clear_slots nnodes_per_sector new_page) offset id
  set_slot offset id (some v) = set v offset id

  unfoldable pub set_loc2id : M.Map → ℕ → ℕ → M.Map
  set_loc2id layout loc id = M.upsert layout (page_of loc) (set_slot (offset_of loc) id)

  -- The functor of `erase_loc2id` takes no context, so that the map calls it on a page that it finds
  -- only: a new page keeps its zeros.
  abbrev pub erase_slot : ℕ → Option PageArr → PageArr
  erase_slot offset none = new_page
  erase_slot offset (some v) = set v offset invalid_id

  unfoldable pub is_emptied : ℕ → Option PageArr → Bool
  unfolding count_free
  is_emptied offset none = false
  is_emptied offset (some v) =
      count_free nnodes_per_sector (set v offset invalid_id) == nnodes_per_sector

  -- A page that it leaves empty goes to `empty_pages`.
  unfoldable pub erase_loc2id : AllocState → ℕ → AllocState
  unfolding is_emptied
  erase_loc2id s loc =
      let page = page_of loc in
      record s {
        page_layout = M.upsert s.page_layout page (erase_slot (offset_of loc));
        empty_pages =
            if is_emptied (offset_of loc) (M.find s.page_layout page)
            then s.empty_pages ++ (page ∷ [])
            else s.empty_pages;
      }

  unfoldable pub set_all : M.Map → List ℕ → List ℕ → M.Map
  unfolding set_loc2id
  set_all layout [] ids = layout
  set_all layout (l ∷ locs) [] = layout
  set_all layout (l ∷ locs) (id ∷ ids) = set_all (set_loc2id layout l id) locs ids

  unfoldable pub erase_all : AllocState → List ℕ → AllocState
  unfolding erase_loc2id
  erase_all s [] = s
  erase_all s (l ∷ locs) = erase_all (erase_loc2id s l) locs

  -- `new_ids` is at least as long as `new_locs`.
  unfoldable pub erase_and_set_loc : AllocState → List ℕ → List ℕ → List ℕ → AllocState
  unfolding set_all erase_all
  erase_and_set_loc s old_locs new_locs new_ids =
      erase_all (record s { page_layout = set_all s.page_layout new_locs new_ids }) old_locs

  -- What an allocation has done so far: the layout, the locations, and how many there are.
  pub record Progress : Type 0 where
    pub layout : M.Map
    pub ret : List ℕ
    pub cur : ℕ

  -- `update_fn` with one of the two loops over a page; a page that the map lacks gives nothing.
  unfoldable pub fill_page : Bool → ℕ → ℕ → Progress → Option Progress
  unfolding fill_slots
  fill_page strict n page p = elim (M.find p.layout page) [
    | none ↦ some p
    | some v ↦ elim (fill_slots g strict page n 0 p.cur v) [
      | none ↦ none
      | some (v', locs) ↦ some (record {
        layout = M.update_fn p.layout page (λ _. v');
        ret = p.ret ++ locs;
        cur = p.cur + length locs;
      })
    ]
  ]

  -- Rule #1: the queue of empty pages, until it gives kInvalidID. The second part is what stays
  -- queued, the last whether `alloc_loc` returns here.
  unfoldable pub take_empty : ℕ → List ℕ → Progress → Option (Progress × List ℕ × Bool)
  unfolding fill_page
  take_empty n [] p = some (p, [], false)
  take_empty n (page ∷ queue) p =
      let next : Option (Progress × List ℕ × Bool) = elim (fill_page true n page p) [
        | none ↦ none
        | some p' ↦
            let rest = take_empty n queue p' in if p'.cur == n then some (p', queue, true) else rest
      ] in
      if page == invalid_id then some (p, queue, false) else next

  -- kIndexSizeFactor = 2
  abbrev pub threshold : ℕ
  threshold = (nnodes_per_sector + 2 - 1) / 2

  -- Rule #2, one hint page: only where enough slots are free.
  unfoldable pub fill_hint : ℕ → ℕ → Progress → Option Progress
  unfolding fill_page count_free
  fill_hint n page p = elim (M.find p.layout page) [
    | none ↦ some p
    | some v ↦
        if ltb (count_free nnodes_per_sector v) threshold then some p else fill_page false n page p
  ]

  -- Whether the page joins `page_need_to_read`: some of its slots are in use.
  unfoldable pub needs_read : ℕ → Progress → Bool
  unfolding count_free
  needs_read page p = elim (M.find p.layout page) [
    | none ↦ false
    | some v ↦
        not (ltb (count_free nnodes_per_sector v) threshold)
        && ltb (count_free nnodes_per_sector v) nnodes_per_sector
  ]

  unfoldable pub take_hints : ℕ → List ℕ → Progress → List ℕ → Option (Progress × List ℕ × Bool)
  unfolding fill_hint needs_read
  take_hints n [] p reads = some (p, reads, false)
  take_hints n (page ∷ hints) p reads =
      let reads' = if needs_read page p then page ∷ reads else reads in
      elim (fill_hint n page p) [
        | none ↦ none
        | some p' ↦
            let rest = take_hints n hints p' reads' in
            if p'.cur == n then some (p', reads', true) else rest
      ]

  -- Rule #3: new slots at the end, `remaining` of them from `loc` on.
  unfoldable pub take_fresh : ℕ → ℕ → M.Map → M.Map × List ℕ
  unfolding set_loc2id
  take_fresh zero loc layout = (layout, [])
  take_fresh (suc remaining) loc layout =
      let (layout', locs) = take_fresh remaining (loc + 1) (set_loc2id layout loc allocated_id) in
      (layout', loc ∷ locs)

  -- `cur_loc` moved past the new slots and on to the next page.
  abbrev pub align_loc : ℕ → ℕ
  align_loc loc =
      if loc % nnodes_per_sector == 0
      then loc
      else loc + (nnodes_per_sector - loc % nnodes_per_sector)

  unfoldable pub overprovision : ℕ → AllocState → List ℕ → Progress → AllocState × List ℕ
  unfolding take_fresh
  overprovision n s queue p =
      let (layout, locs) = take_fresh (n - p.cur) s.cur_loc p.layout in
      (
        record {
          page_layout = layout;
          empty_pages = queue;
          cur_loc = u64 (align_loc (u64 (s.cur_loc + (n - p.cur))));
        },
        p.ret ++ locs,
      )

  abbrev pub settled : AllocState → List ℕ → Progress → AllocState
  settled s queue p = record s { page_layout = p.layout; empty_pages = queue }

  -- `alloc_loc(n, hint_pages, page_need_to_read)`: the state, the locations, and the pages that it
  -- adds to `page_need_to_read`. none: `crash()`, on a queued page that is not empty.
  unfoldable pub alloc_loc : AllocState → ℕ → List ℕ → Option (AllocState × List ℕ × List ℕ)
  unfolding take_empty take_hints overprovision
  alloc_loc s n hint_pages =
      elim (take_empty n s.empty_pages (record { layout = s.page_layout; ret = []; cur = 0 })) [
        | none ↦ none
        | some (p, queue, full) ↦
            let hinted : Option (AllocState × List ℕ × List ℕ) =
              elim (take_hints n hint_pages p []) [
                | none ↦ none
                | some (p', reads, full') ↦
                    if full'
                    then some (settled s queue p', p'.ret, reads)
                    else let (s', ret) = overprovision n s queue p' in some (s', ret, reads)
              ] in
            if full then some (settled s queue p, p.ret, []) else hinted
      ]
