-- ===== src/Persist.antt =====
-- Persistent memory as src/update/direct_insert.cpp uses it: stores, `clwb` and `sfence`, and what
-- a crash can leave. A store may reach the memory at any time; it surely has once its cache line was
-- written back after it and a fence followed.
pub mod Order
pub mod Insert
pub mod Soft
pub mod Safe
pub mod Recovery
use ccann.Prelude.{
  ℕ, ◌≡◌, Bool, true, false, not, ◌&&◌, ◌||◌, ◌==◌, if◌then◌else◌, List, [], ◌∷◌, ◌++◌,
}

-- The bytes of slot `loc` in one cache line of the graph file, the tag of an id, and the entry of an
-- id in the table of locations.
pub data Cell : Type 0 where
  node_line : ℕ → ℕ → Cell
  tag : ℕ → Cell
  loc_entry : ℕ → Cell

abbrev pub same_cell : Cell → Cell → Bool
same_cell (node_line l a) (node_line k b) = (l == k) && (a == b)
same_cell (tag i) (tag j) = i == j
same_cell (loc_entry i) (loc_entry j) = i == j
same_cell c d = false

pub data Event : Type 0 where
  store : Cell → Event
  -- `_mm_clwb` of a cache line of the graph file
  write_back : ℕ → Event
  -- the flush inside `pmem_memcpy`, where its flags ask for one
  flush : Cell → Event
  -- `_mm_sfence`, `barrier_dax`
  fence : Event

abbrev pub is_store : Cell → Event → Bool
is_store c (store d) = same_cell d c
is_store c e = false

abbrev pub is_flush : Cell → Event → Bool
is_flush (node_line loc line) (write_back l) = l == line
is_flush c (flush d) = same_cell d c
is_flush c e = false

abbrev pub is_fence : Event → Bool
is_fence fence = true
is_fence e = false

-- What holds of each cell: it has been stored to, it has been flushed since, and that flush is fenced.
pub record Memory : Type 0 where
  pub stored : Cell → Bool
  pub flushed : Cell → Bool
  pub durable : Cell → Bool

abbrev pub step : Memory → Event → Memory
step m e = record {
  stored = λ c. is_store c e || m.stored c;
  flushed = λ c. is_flush c e || (not (is_store c e) && m.flushed c);
  durable = λ c. (is_fence e && m.flushed c && m.stored c) || (not (is_store c e) && m.durable c);
}

unfoldable pub run : Memory → List Event → Memory
run m [] = m
run m (e ∷ es) = run (step m e) es

-- A property of the memory at every point of a run, where a crash can come.
unfoldable pub Always : (Memory → Type 0) → Memory → List Event → Type 0
Always Q m [] = Q m
Always Q m (e ∷ es) = Q m × Always Q (step m e) es

-- What a crash can leave: `kept c` says that the new bytes of the cell survive. All that is durable
-- does, and nothing that was not stored.
pub record Crash (m : Memory) (kept : Cell → Bool) : Type 0 where
  pub all_durable : (c : Cell) → m.durable c ≡ true → kept c ≡ true
  pub only_stored : (c : Cell) → kept c ≡ true → m.stored c ≡ true

abbrev pub untouched : Memory
untouched = record { stored = λ c. false; flushed = λ c. false; durable = λ c. false }
