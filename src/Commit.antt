-- ===== src/Commit.antt =====
-- `insert_commit_thread` of src/update/direct_insert.cpp: the finish of inserts in the background, in
-- the order in which they were queued, and the checkpoint of ids. Built without NO_ISS and ANN_LARGE.
pub mod Prefix
pub mod Checkpoint
pub mod Locations
use ccann.Prelude.{
  ℕ, zero, suc, ◌+◌, ◌%◌, Bool, true, false, not, ◌&&◌, ◌==◌, if◌then◌else◌, Option, none, some,
  List, [], ◌∷◌, ◌++◌,
}
use ccann.VecLocks.{insert_id}

-- `id2loc_` and its copy in persistent memory, with the pairs (id, loc) in `id2loc_pm_queue`.
pub record IdMap : Type 0 where
  pub id2loc : ℕ → Option ℕ
  pub id2loc_pm : ℕ → Option ℕ
  pub id2loc_pm_queue : List (ℕ × ℕ)

abbrev pub assign : (ℕ → Option ℕ) → ℕ → ℕ → ℕ → Option ℕ
assign table id loc j = if id == j then some loc else table j

unfoldable pub id2loc_insert_or_assign : IdMap → ℕ → ℕ → IdMap
id2loc_insert_or_assign m id loc = record m {
  id2loc = assign m.id2loc id loc;
  id2loc_pm_queue = m.id2loc_pm_queue ++ ((id, loc) ∷ []);
}

-- `insert_phase_pm` publishes its target: the entry in persistent memory, then the map.
unfoldable pub publish_target : IdMap → ℕ → ℕ → IdMap
publish_target m id loc = record m {
  id2loc = assign m.id2loc id loc;
  id2loc_pm = assign m.id2loc_pm id loc;
}

unfoldable pub write_batch : (ℕ → Option ℕ) → List (ℕ × ℕ) → ℕ → Option ℕ
write_batch table [] = table
write_batch table ((id, loc) ∷ batch) = write_batch (assign table id loc) batch

-- The commit thread pops the whole queue and writes it.
unfoldable pub drain : IdMap → IdMap
unfolding write_batch
drain m = record m { id2loc_pm = write_batch m.id2loc_pm m.id2loc_pm_queue; id2loc_pm_queue = [] }

-- COMMIT_INTERVAL
abbrev pub commit_interval : ℕ
commit_interval = 1000

-- The state of the thread: `commit_queue` in ascending order, whose head is `top()`; `pq_done` are
-- the ids whose PQ code is persistent, `super_block` the checkpoint in persistent memory.
pub record CommitState : Type 0 where
  pub ckpt_id : ℕ
  pub super_block : ℕ
  pub commit_queue : List ℕ
  pub pq_done : List ℕ
  pub mapping : IdMap
  pub n_tasks : ℕ

-- The loop of `process_commit_queue`: the ids that follow `cur` without a gap.
unfoldable pub pop_prefix : ℕ → List ℕ → ℕ × List ℕ
pop_prefix cur [] = (cur, [])
pop_prefix cur (smallest ∷ queue) =
    let rest = pop_prefix (smallest + 1) queue in
    if cur == smallest then rest else (cur, smallest ∷ queue)

unfoldable pub process_commit_queue : CommitState → CommitState
unfolding pop_prefix
process_commit_queue s =
    let (cur, queue) = pop_prefix s.ckpt_id s.commit_queue in
    let ckpt = not (cur == s.ckpt_id) in
    record s {
      ckpt_id = cur;
      super_block = if ckpt then cur else s.super_block;
      commit_queue = queue;
    }

-- One round of the loop, for the task of `target_id`; `elapsed` says that the timer of the log has run
-- out, which starts the count of tasks again.
unfoldable pub commit_task : CommitState → ℕ → Bool → CommitState
unfolding drain process_commit_queue
commit_task s target_id elapsed =
    let done = record s {
      pq_done = target_id ∷ s.pq_done;
      mapping = drain s.mapping;
      commit_queue = insert_id target_id s.commit_queue;
    } in
    let processed =
      if not (s.n_tasks == 0) && (s.n_tasks % commit_interval == 0)
      then process_commit_queue done
      else done in
    record processed { n_tasks = if elapsed then 0 else s.n_tasks + 1 }

unfoldable pub commit_tasks : CommitState → List (ℕ × Bool) → CommitState
unfolding commit_task
commit_tasks s [] = s
commit_tasks s ((t, elapsed) ∷ ts) = commit_tasks (commit_task s t elapsed) ts

-- The end of the thread: ids that still wait are a crash.
unfoldable pub end_thread : CommitState → List ℕ → Option CommitState
end_thread last [] = some last
end_thread last (id ∷ queue) = none

-- The thread, from its first task to the sentinel. none: `crash()`.
unfoldable pub insert_commit_thread : CommitState → List (ℕ × Bool) → Option CommitState
unfolding commit_tasks process_commit_queue end_thread
insert_commit_thread s tasks =
    let last = process_commit_queue (commit_tasks s tasks) in end_thread last last.commit_queue
