-- ===== src/Persist/Insert.antt =====
-- `insert_phase_pm` of src/update/direct_insert.cpp, as the events that it makes in persistent memory.
-- Built with BATCH_PRUNING and FINE_GRAINED_CONCURRENCY and without IN_PLACE_RECORD_UPDATE, as
-- build.sh does.
use ccann.Prelude.{
  ℕ, zero, suc, ◌+◌, ◌-◌, ◌*◌, ◌/◌, Bool, if◌then◌else◌, List, [], ◌∷◌, ◌++◌, map, length,
}
use ccann.Layout.{
  Geometry, sector_len, loc_sector_no, offset_to_loc, offset_to_node_nhood, nbrs_address, node_len,
  flush_dax,
}
use ccann.Persist.{node_line, tag, loc_entry, Event, store, write_back, flush, fence}

-- A neighbour, the slot of its new version, and how many neighbours it keeps after pruning.
pub record Version : Type 0 where
  pub id : ℕ
  pub loc : ℕ
  pub degree : ℕ

pub record Insert : Type 0 where
  pub target_id : ℕ
  pub target_loc : ℕ
  pub enable_tags : Bool
  -- `new_nhood` with `locs`
  pub new_nhood : List Version

-- The stores of `len` bytes from address `p`, which lie in slot `loc`.
abbrev pub store_lines : ℕ → ℕ → ℕ → List Event
store_lines loc line zero = []
store_lines loc line (suc n) = store (node_line loc line) ∷ store_lines loc (line + 1) n

unfoldable pub store_bytes : ℕ → ℕ → ℕ → List Event
store_bytes loc p zero = []
store_bytes loc p (suc len) = store_lines loc (p / 64) ((p + len) / 64 - p / 64 + 1)

module _ (g : Geometry) (faddr : ℕ) where
  open g use {data_dim, coord_size}

  -- `offset_to_loc(faddr + sector * SECTOR_LEN, loc)`
  unfoldable pub node_address : ℕ → ℕ
  node_address loc = offset_to_loc g (faddr + loc_sector_no g loc * sector_len) loc

  -- The stores of a node: the word `nnbrs`, the coordinates and the neighbour ids. Where the page is
  -- read into a buffer first, the node goes to the buffer and then to persistent memory.
  unfoldable pub write_node : ℕ → ℕ → List Event
  unfolding store_bytes
  write_node loc nnbrs =
      let p = node_address loc in
      store_bytes loc (offset_to_node_nhood g p) 4
      ++ store_bytes loc p (data_dim * coord_size)
      ++ store_bytes loc (nbrs_address g p) (nnbrs * 4)

  -- `flush_dax(node_buf, node_len)`
  unfoldable pub flush_node : ℕ → ℕ → List Event
  flush_node loc nnbrs = map write_back (flush_dax (node_address loc) (node_len g nnbrs))

  -- `pmem_memcpy_persist` of the tag
  unfoldable pub persist_tag : Bool → ℕ → List Event
  persist_tag enable_tags id =
      if enable_tags then store (tag id) ∷ flush (tag id) ∷ fence ∷ [] else []

  -- `pmem_memcpy(..., PMEM_TRANSFER)` of an entry: PMEM_F_MEM_NODRAIN leaves out the fence only.
  abbrev pub write_loc : ℕ → List Event
  write_loc id = store (loc_entry id) ∷ flush (loc_entry id) ∷ []

  unfoldable pub write_neighbours : List Version → List Event
  unfolding write_node
  write_neighbours [] = []
  write_neighbours (v ∷ vs) = write_node v.loc v.degree ++ write_neighbours vs

  -- The loop over `flush_requests`.
  unfoldable pub flush_neighbours : List Version → List Event
  unfolding flush_node
  flush_neighbours [] = []
  flush_neighbours (v ∷ vs) = flush_node v.loc v.degree ++ flush_neighbours vs

  -- The target's node and tag, up to the first `barrier_dax`.
  unfoldable pub target_phase : Insert → List Event
  unfolding write_node flush_node persist_tag
  target_phase i =
      let nnbrs = length i.new_nhood in
      write_node i.target_loc nnbrs
      ++ flush_node i.target_loc nnbrs
      ++ persist_tag i.enable_tags i.target_id

  -- From there to the second `barrier_dax`.
  unfoldable pub neighbour_phase : Insert → List Event
  unfolding write_neighbours flush_neighbours
  neighbour_phase i =
      write_neighbours i.new_nhood ++ write_loc i.target_id ++ flush_neighbours i.new_nhood

  -- `insert_phase_pm`; it queues the neighbours' entries in `id2loc_pm_queue`.
  unfoldable pub insert_phase_pm : Insert → List Event
  unfolding target_phase neighbour_phase
  insert_phase_pm i = (target_phase i ++ (fence ∷ [])) ++ (neighbour_phase i ++ (fence ∷ []))

  -- `insert_commit_thread` writes the queued entries.
  unfoldable pub write_queued : List Version → List Event
  write_queued [] = []
  write_queued (v ∷ vs) = write_loc v.id ++ write_queued vs
