-- ===== src/Layout.antt =====
-- include/ssd_index.h and include/utils.h: where a node slot (`loc`) lies in the graph file, and
-- src/utils/linux_aligned_file_reader.cpp: which cache lines `flush_dax` writes back.
-- Addresses and offsets are `uint64_t`; a product that could wrap is taken modulo 2^64.
pub mod Slots
pub mod Flush
use ccann.Prelude.{
  ℕ, zero, suc, ◌+◌, ◌-◌, ◌*◌, ◌/◌, ◌%◌, ◌^◌, ltb, ◌==◌, if◌then◌else◌, List, [], ◌∷◌,
}

-- SECTOR_LEN
abbrev pub sector_len : ℕ
sector_len = 4096

abbrev pub u64 : ℕ → ℕ
u64 x = x % 2 ^ 64

abbrev pub u32 : ℕ → ℕ
u32 x = x % 2 ^ 32

-- DIV_ROUND_UP
abbrev pub div_round_up : ℕ → ℕ → ℕ
div_round_up x y = x / y + (if x % y == 0 then 0 else 1)

-- ROUND_UP, which gives Y at X = 0
unfoldable pub round_up : ℕ → ℕ → ℕ
round_up x y = if x == 0 then y else div_round_up x y * y

-- The fields of `SSDIndex` that fix the layout; `coord_size` is `sizeof(T)`.
pub record Geometry : Type 0 where
  pub nnodes_per_sector : ℕ
  pub max_node_len : ℕ
  pub data_dim : ℕ
  pub coord_size : ℕ

module _ (g : Geometry) where
  open g use {nnodes_per_sector, max_node_len, data_dim, coord_size}

  -- the offset of a slot inside its sector
  abbrev pub slot_offset : ℕ → ℕ
  slot_offset loc =
      if nnodes_per_sector == 0 then 0 else u64 (loc % nnodes_per_sector * max_node_len)

  unfoldable pub loc_sector_no : ℕ → ℕ
  loc_sector_no loc = u64 (
      1
      + (if ltb 0 nnodes_per_sector
          then loc / nnodes_per_sector
          else loc * div_round_up max_node_len sector_len))

  unfoldable pub u_loc_offset : ℕ → ℕ
  unfolding loc_sector_no
  u_loc_offset loc = u64 (loc_sector_no loc * sector_len + slot_offset loc)

  -- `offset_to_loc`: the address of a slot in the buffer of its sector
  unfoldable pub offset_to_loc : ℕ → ℕ → ℕ
  offset_to_loc sector_buf loc = u64 (sector_buf + slot_offset loc)

  -- `sector_no - 1` wraps at 0.
  unfoldable pub sector_to_loc : ℕ → ℕ → ℕ
  sector_to_loc sector_no sector_off =
      u64 (u64 (sector_no + 2 ^ 64 - 1) * nnodes_per_sector + sector_off)

  -- A node is its coordinates, the word `nnbrs`, and the neighbour ids.
  unfoldable pub offset_to_node_nhood : ℕ → ℕ
  offset_to_node_nhood node_buf = node_buf + data_dim * coord_size

  -- `DiskNode`: `nnbrs = *nhood; nbrs = nhood + 1`
  unfoldable pub nbrs_address : ℕ → ℕ
  unfolding offset_to_node_nhood
  nbrs_address node_buf = offset_to_node_nhood node_buf + 4

  -- the length that `insert_phase_pm` flushes for a node
  unfoldable pub node_len : ℕ → ℕ
  node_len nnbrs = data_dim * coord_size + nnbrs * 4

-- The numbers of the cache lines that `flush_dax p size` writes back: `clwb` writes back the line
-- that holds its address.
unfoldable pub flush_lines : ℕ → ℕ → ℕ → List ℕ
flush_lines p i zero = []
flush_lines p i (suc n) = ((p + i * 64) / 64) ∷ flush_lines p (i + 1) n

unfoldable pub flush_dax : ℕ → ℕ → List ℕ
unfolding round_up flush_lines
flush_dax p size = flush_lines p 0 (round_up size 64 / 64)
