-- ===== src/Layout/Flush.antt =====
-- What `flush_dax` of src/utils/linux_aligned_file_reader.cpp writes back.
use ccann.Prelude.{
  ℕ, zero, suc, ◌+◌, ◌-◌, ◌*◌, ◌/◌, ◌%◌, ◌≤◌, ◌<◌, ◌≡◌, Bool, true, false, contains, arith, ltb,
  leb, ◌&&◌,
}
use ccann.Layout.{Geometry, round_up, flush_lines, flush_dax, nbrs_address, node_len}

-- A byte is written back when its cache line is.
abbrev pub is_flushed : ℕ → ℕ → ℕ → Bool
is_flushed p size byte = contains (byte / 64) (flush_dax p size)

contains-flush_lines :
    (p i n line : ℕ)
    → contains line (flush_lines p i n) ≡ (leb (p / 64 + i) line && ltb line (p / 64 + i + n))
unfolding flush_lines
contains-flush_lines p i zero line = ground arith
contains-flush_lines p i (suc n) line = ground (arith, contains-flush_lines p (i + 1) n line)

-- From an aligned address every byte of the range is written back.
pub flush_dax-covers :
    (p size byte : ℕ) → p % 64 ≡ 0 → p ≤ byte → byte < p + size → is_flushed p size byte ≡ true
unfolding flush_dax
flush_dax-covers p size byte a h k =
    ground (arith, contains-flush_lines p 0 (round_up size 64 / 64) (byte / 64))

-- The last byte of a non-empty range is written back exactly when the offset of the address in its
-- cache line and the offset of the last byte in the range stay together below one line.
pub flush_dax-last_byte :
    (p size : ℕ) → 0 < size → is_flushed p size (p + size - 1) ≡ ltb (p % 64 + (size - 1) % 64) 64
unfolding flush_dax round_up
flush_dax-last_byte p size h =
    ground (arith, contains-flush_lines p 0 (round_up size 64 / 64) ((p + size - 1) / 64))

-- For a node with neighbours at an aligned address, `node_len` leaves out the word `nnbrs`: where
-- the coordinates and neighbour ids fill whole cache lines, the last neighbour id stays unflushed.
pub node_len-misses_last_neighbour :
    (g : Geometry) (p nnbrs : ℕ)
    → p % 64 ≡ 0
    → 0 < nnbrs
    → node_len g nnbrs % 64 ≡ 0
    → is_flushed p (node_len g nnbrs) (nbrs_address g p + (nnbrs - 1) * 4) ≡ false
unfolding node_len nbrs_address flush_dax round_up
node_len-misses_last_neighbour g p nnbrs a h whole =
    let n = round_up (node_len g nnbrs) 64 / 64 in
    let last = (nbrs_address g p + (nnbrs - 1) * 4) / 64 in
    ground (arith, contains-flush_lines p 0 n last)
