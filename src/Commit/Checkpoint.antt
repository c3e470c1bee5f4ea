-- ===== src/Commit/Checkpoint.antt =====
-- What `insert_commit_thread` promises of the checkpoint (src/update/direct_insert.cpp).
use ccann.Prelude.{
  ℕ, ◌+◌, ◌≤◌, ◌≡◌, refl, ◌∙◌, ap, Bool, false, ◌||◌, ◌&&◌, ltb, leb, some, List, [], ◌∷◌, contains,
  Distinct, arith, ==_refl,
}
use ccann.VecLocks.Order.{Ascending}
use ccann.Commit.{CommitState, process_commit_queue, commit_tasks, end_thread, insert_commit_thread}
use ccann.Commit.Prefix.{
  task_ids, Committed, commit_tasks-Committed, process-Committed, pop_prefix-stops,
}

-- The thread at its start: nothing waits, and the checkpoint is saved.
pub record Started (s : CommitState) : Type 0 where
  pub nothing_waits : s.commit_queue ≡ []
  pub saved : s.super_block ≡ s.ckpt_id

Started-Committed : (s : CommitState) → Started s → Committed s.ckpt_id [] s
Started-Committed s h = record {
  waiting = rw h.nothing_waits tt;
  accounted = λ id k. rw h.nothing_waits (ground arith);
  advanced = omega arith;
  saved = h.saved;
}

interval_end :
    (begin n k : ℕ) (queue all : List ℕ)
    → Ascending k queue
    → begin ≤ k
    → ((id : ℕ) → begin ≤ id → contains id all ≡ (ltb id k || contains id queue))
    → ((id : ℕ) → contains id all ≡ (leb begin id && ltb id (begin + n)))
    → contains k queue ≡ false
    → (k ≡ begin + n) × (queue ≡ [])
interval_end begin n k [] all a h known range gap =
    (ground (arith, known k, range k, known (begin + n), range (begin + n)), refl)
interval_end begin n k (x ∷ queue) all a h known range gap =
    absurd (ground (arith, known k, range k, known x, range x, ==_refl x))

-- From a start where nothing waits, and where the ids of the tasks are an interval from the
-- checkpoint on, each once and in any order, the thread ends without a crash, and the checkpoint,
-- also the one that it has saved, is the end of the interval.
pub insert_commit_thread-some :
    (s : CommitState) (ts : List (ℕ × Bool)) (n : ℕ)
    → Started s
    → Distinct (task_ids ts)
    → ((id : ℕ) → contains id (task_ids ts) ≡ (leb s.ckpt_id id && ltb id (s.ckpt_id + n)))
    → (last : CommitState) × (insert_commit_thread s ts ≡ some last)
      × (last.ckpt_id ≡ s.ckpt_id + n)
      × (last.super_block ≡ s.ckpt_id + n)
unfolding insert_commit_thread
insert_commit_thread-some s ts n start d range =
    let (all, c, e) =
      commit_tasks-Committed s.ckpt_id [] s ts (λ t q. ground (arith, range t)) d (λ t q. refl)
        (Started-Committed s start) in
    let last = process_commit_queue (commit_tasks s ts) in
    let c' = process-Committed s.ckpt_id all (commit_tasks s ts) c in
    let gap : contains last.ckpt_id last.commit_queue ≡ false =
      pop_prefix-stops (commit_tasks s ts).ckpt_id (commit_tasks s ts).commit_queue c.waiting in
    let (reached, empty) =
      interval_end s.ckpt_id n last.ckpt_id last.commit_queue all c'.waiting c'.advanced
        c'.accounted (λ id. e id ∙ range id) gap in
    (last, ap (end_thread last) empty, reached, c'.saved ∙ reached)
