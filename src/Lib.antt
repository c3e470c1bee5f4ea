-- ===== src/Lib.antt =====
-- CCANN: an approximate nearest-neighbour index on disk and persistent memory, with inserts in place.
--
-- The graph lives in a file of sectors of 4096 bytes. Each sector but the first holds
-- `nnodes_per_sector` slots, and a slot (`loc`) holds the coordinates of a vector and the ids of its
-- neighbours. An insert picks neighbours, allocates slots for the new vector and for the new versions
-- of its neighbours, writes them, moves the map from ids to slots over, and frees the old slots. It
-- does so under locks on ids, pages and sectors, which it takes in ascending order. Deletions only note
-- a tag; a merge writes a new graph without the deleted nodes. Beside the graph file there is an index
-- that is held in memory, with a graph, tags and locations of its own.
--
--   Prelude            shared names, Boolean tests, and lists over the native numbers
--   CuckooMap          the hash map of include/libcuckoo, by the documented effect of its calls
--   RwLock             read-write locks of POSIX threads, by who holds them
--   Floats             single-precision numbers, by their order
--   Layout             include/ssd_index.h and include/utils.h: locations, sectors, slot offsets and the
--                      fields of a node; src/utils/linux_aligned_file_reader.cpp: `flush_dax`.
--                      `loc_sector_no`, `u_loc_offset` and `sector_to_loc` are the functions of the same
--                      names (Layout/Slots, Layout/Flush for the proofs)
--   Neighbor           include/neighbor.h: `insert_into_pool` is `InsertIntoPool` on the first K entries
--                      of the array, as a list (Neighbor/Search for its loops, Neighbor/Pool for it)
--   LockTable          include/v2/lock_table.h: `SparseLockTable`. `tryrdlock_key`, `trywrlock_key` and
--                      `unlock_key` are its calls on the hash map of entries (LockTable/Holds)
--   VecLocks           include/ssd_index.h and include/linux_aligned_file_reader.h: the keys that
--                      `lock_vec`, `lock_idx`, `lock_page_idx` and `lockReqs` lock, in order
--                      (VecLocks/Order), updates that take them as a step relation
--                      (VecLocks/Deadlock), and the unlocks at the end of an insert (VecLocks/Twice)
--   Alloc              include/ssd_index.h: `page_layout`, `empty_pages` and `cur_loc` as one state, and
--                      `loc2id`, `set_loc2id`, `erase_loc2id`, `erase_and_set_loc` and `alloc_loc` on it.
--                      Alloc/Page and Alloc/OnePage are about the loop over one page, Alloc/View about
--                      the slots as `loc2id` shows them, Alloc/Fresh about new pages, Alloc/Rules about
--                      the three rules of `alloc_loc`, Alloc/Total about the whole of it, Alloc/Erase,
--                      Alloc/Commit and Alloc/Switch about `erase_and_set_loc`
--   Persist            src/update/direct_insert.cpp: `insert_phase_pm` as the stores, write-backs and fences
--                      that it makes in persistent memory (Persist/Insert), with the documented behaviour
--                      of `clwb` and `sfence`; Persist/Order is about the order of stores, Persist/Soft
--                      about the parts of an insert, Persist/Safe and Persist/Recovery about crashes
--   Commit             src/update/direct_insert.cpp: `insert_commit_thread`, its queue of finished ids and
--                      its checkpoint (Commit/Prefix, Commit/Checkpoint), and the table of locations
--                      behind `id2loc_` (Commit/Locations)
--   Prune              src/utils/prune_neighbors.cpp: the delta pruning of a node with one neighbour too
--                      many, on distances that are parameters (Prune/Delta)
--                      (Prune/Whole for the choice among a whole pool, Prune/Degree for its result)
--   RobinSet           the hash set of include/tsl, by the documented effect of its calls
--   UnorderedMap       `std::unordered_map` as a list of entries
--   Occlude            the choice of neighbours by occlusion that src/index.cpp and
--                      src/utils/prune_neighbors.cpp share, with sorting of pools (Occlude/Bounds)
--   Index              include/index.h and src/index.cpp: the index in memory as one record, and the calls
--                      on its slots. Index/Tags has the deletions and the bookkeeping of an insertion,
--                      Index/Graph the links (`prune_neighbors`, `inter_insert`), Index/Walk
--                      `iterate_to_fixed_point`, Index/Query the searches, Index/Insert `insert_point`,
--                      `link` and `build`, Index/Consolidate and Index/Compact `consolidate_deletes` and
--                      `compact_data`, Index/Store the files. The functions have the names of the source.
--                      Index/Slots, Index/Delete, Index/Place and Index/Reached are about tags and slots,
--                      Index/Growth has the size after growth, Index/Chosen the links that are always chosen,
--                      Index/Degree, Index/Links and Index/Connect about the links, Index/Rounds,
--                      Index/Kept, Index/Loop, Index/FixedPoint and Index/Fast about walks,
--                      Index/Live about what a search returns, Index/Alive and Index/Renumber about
--                      consolidation and compaction, Index/Reload about saving and loading
--   Dynamic            src/update/dynamic_index.cpp: the two deletion sets, their switch before a merge, and
--                      the filter of `search` (Dynamic/Deleted)
--   Merge              src/update/delete_merge.cpp: the two passes of `merge_deletes` (Merge/FirstPass,
--                      Merge/Closed, Merge/Origin for where links come from, Merge/Linked)
--   PageCache          include/v2/page_cache.h and its callers in include/aligned_file_reader.h and
--                      src/utils/linux_aligned_file_reader.cpp: `get`, `put`, `deref`, `read_alloc`,
--                      `wbc_write`, one call at a time (PageCache/Effects for one block,
--                      PageCache/Reads, PageCache/Release, PageCache/Writes)
--   Tests              the theorems at concrete inputs
--
-- Numbers are natural numbers; a cast or a product that can wrap in the program is taken modulo 2^32 or
-- 2^64. Locations are taken to stay below 2^31 where a cast to 32 bits must not change them. The loop of
-- `InsertIntoPool` that halves its range runs on fuel, K rounds, which suffice since the range has fewer
-- than K entries. The fast path of the pruning runs on fuel too, and does not depend on it once it is
-- more than the rounds that bring `cur_alpha` below its bound. Calls under a mutex, and calls of the hash
-- map, are one step each. The occlusion raises
-- `cur_alpha` by a factor in every round, so that it too needs as many rounds as bring it above alpha;
-- what is shown of it holds for any number of rounds. The walk over the graph in memory runs on fuel, and
-- the number of rounds that is enough is given with it. Loops that OpenMP runs in parallel are run in
-- their order, and the index in memory is that of one thread at a time. `crash()`, and an exception of
-- a map, are none or an outcome of its own. Asserts are on, as in the repository's build: those on the
-- initial ids of a walk (src/index.cpp:596), in `inter_insert` (792, 796, 800), in `insert_point` (1786,
-- 1797), in `reserve_location` (1633, 1634) and `resize` (1683), and on the node that replaces the start
-- node (1539) end a call as `crash()` does. The other asserts are left out: in src/index.cpp that a
-- result list or tag file has its form (290, 1085), that a sorted pool is sorted (716), that a list the
-- call itself has just bounded is within its bound (717, 770, 1806), that tags are enabled (1351, 1388),
-- on the sizes of the sets when `consolidate_deletes` starts (1389, 1390), that `compact_data` moves
-- points down (1572), and that a tag's location is below `_max_points` (1828), which holds on a
-- consistent index.
--
-- Not modelled: system calls, mappings of devices and files, distance kernels, product quantization,
-- `calculate_entry_point`, the search routines on disk, `load_from_disk_index`, the index in one file, and
-- the libraries under third_party, include/libcuckoo, include/tsl and include/mpmc.h. `alloc_loc` is
-- modelled as it is built by default, without ANN_LARGE and NO_POLLUTE_ORIGINAL.
pub mod Prelude
pub mod Layout
pub mod Floats
pub mod Neighbor
pub mod CuckooMap
pub mod RwLock
pub mod LockTable
pub mod VecLocks
pub mod Alloc
pub mod PageCache
pub mod Persist
pub mod Commit
pub mod Prune
pub mod RobinSet
pub mod UnorderedMap
pub mod Occlude
pub mod Index
pub mod Dynamic
pub mod Merge
pub mod Tests
