-- ===== src/Tests/Disk.antt =====
-- The layout theorems for four slots of 1000 bytes in a sector, and vectors of 124 bytes.
use ccann.Prelude.{◌+◌, ◌-◌, ◌*◌, ◌%◌, ◌≤◌, ◌≡◌, refl, false, ltb, arith}
use ccann.Layout.{Geometry, loc_sector_no, sector_to_loc, u_loc_offset, node_len, nbrs_address}
use ccann.Layout.Slots.{IsPacked, sector_to_loc-loc_sector_no, slots_disjoint}
use ccann.Layout.Flush.{is_flushed, flush_dax-last_byte, node_len-misses_last_neighbour}

abbrev pub four_slots : Geometry
four_slots = record { nnodes_per_sector = 4; max_node_len = 1000; data_dim = 31; coord_size = 4 }

pub four_slots-IsPacked : IsPacked four_slots
four_slots-IsPacked = record { some_nodes = omega arith; fits = omega arith }

sector_to_loc-loc_sector_no_example :
    sector_to_loc four_slots (loc_sector_no four_slots 10) (10 % 4) ≡ 10
sector_to_loc-loc_sector_no_example =
    sector_to_loc-loc_sector_no four_slots four_slots-IsPacked 10 (omega arith)

slots_disjoint_example : u_loc_offset four_slots 3 + 1000 ≤ u_loc_offset four_slots 4
slots_disjoint_example =
    slots_disjoint four_slots four_slots-IsPacked 3 4 (omega arith) (omega arith)

flush_dax-last_byte_example : is_flushed 4 64 (4 + 64 - 1) ≡ ltb (4 % 64 + (64 - 1) % 64) 64
flush_dax-last_byte_example = flush_dax-last_byte 4 64 (omega arith)

-- 124 bytes of coordinates and one neighbour
node_len-misses_last_neighbour_example :
    is_flushed 4096 (node_len four_slots 1) (nbrs_address four_slots 4096 + (1 - 1) * 4) ≡ false
unfolding node_len
node_len-misses_last_neighbour_example =
    node_len-misses_last_neighbour four_slots 4096 1 refl (omega arith) refl
