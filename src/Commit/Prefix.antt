-- ===== src/Commit/Prefix.antt =====
-- The checkpoint of `insert_commit_thread` (src/update/direct_insert.cpp).
use ccann.Prelude.{
  ℕ, suc, ◌+◌, ◌%◌, ◌≤◌, ◌≡◌, refl, ◌∙◌, sym, Bool, true, false, not, ◌&&◌, ◌||◌, ltb, ◌==◌,
  if◌then◌else◌, List, [], ◌∷◌, contains, Distinct, arith, ==_refl,
}
use ccann.VecLocks.{insert_id}
use ccann.VecLocks.Order.{Ascending, contains-insert_id, insert_id-Ascending, below-Ascending}
use ccann.Commit.{
  CommitState, pop_prefix, process_commit_queue, commit_task, commit_tasks, drain, commit_interval,
}

abbrev pub task_ids : List (ℕ × Bool) → List ℕ
task_ids [] = []
task_ids ((t, elapsed) ∷ ts) = t ∷ task_ids ts

-- Popping the prefix: the ids below the new checkpoint are those below the old one and those popped.
pop_prefix-Ascending :
    (cur : ℕ) (queue : List ℕ)
    → Ascending cur queue
    → Ascending (pop_prefix cur queue).0 (pop_prefix cur queue).1
unfolding pop_prefix
pop_prefix-Ascending cur [] a = tt
pop_prefix-Ascending cur (x ∷ queue) a = ground (arith, pop_prefix-Ascending (x + 1) queue)

pop_prefix-contains :
    (cur id : ℕ) (queue : List ℕ)
    → Ascending cur queue
    → (ltb id (pop_prefix cur queue).0 || contains id (pop_prefix cur queue).1)
      ≡ (ltb id cur || contains id queue)
unfolding pop_prefix
pop_prefix-contains cur id [] a = refl
pop_prefix-contains cur id (x ∷ queue) a =
    ground (arith, pop_prefix-contains (x + 1) id queue, below-Ascending (suc x) id queue)

pop_prefix-le : (cur : ℕ) (queue : List ℕ) → cur ≤ (pop_prefix cur queue).0
unfolding pop_prefix
pop_prefix-le cur [] = omega arith
pop_prefix-le cur (x ∷ queue) = ground (arith, pop_prefix-le (x + 1) queue)

-- Where it stops, the next id is not in the queue.
pub pop_prefix-stops :
    (cur : ℕ) (queue : List ℕ)
    → Ascending cur queue
    → contains (pop_prefix cur queue).0 (pop_prefix cur queue).1 ≡ false
unfolding pop_prefix
pop_prefix-stops cur [] a = refl
pop_prefix-stops cur (x ∷ queue) a =
    ground (arith, pop_prefix-stops (x + 1) queue, below-Ascending (suc x) cur queue)

-- What the thread knows after the ids `done`, from the checkpoint `begin` on: an id is done exactly
-- if it lies below the checkpoint or waits in the queue.
pub record Committed (begin : ℕ) (done : List ℕ) (s : CommitState) : Type 0 where
  pub waiting : Ascending s.ckpt_id s.commit_queue
  pub accounted :
      (id : ℕ) → begin ≤ id → contains id done ≡ (ltb id s.ckpt_id || contains id s.commit_queue)
  pub advanced : begin ≤ s.ckpt_id
  pub saved : s.super_block ≡ s.ckpt_id

pub process-Committed :
    (begin : ℕ) (done : List ℕ) (s : CommitState)
    → Committed begin done s
    → Committed begin done (process_commit_queue s)
unfolding process_commit_queue
process-Committed begin done s c = record {
  waiting = pop_prefix-Ascending s.ckpt_id s.commit_queue c.waiting;
  accounted =
      λ id h. c.accounted id h ∙ sym (pop_prefix-contains s.ckpt_id id s.commit_queue c.waiting);
  advanced = omega (arith, c.advanced, pop_prefix-le s.ckpt_id s.commit_queue);
  saved = ground (arith, c.saved);
}

process-if :
    (begin : ℕ) (done : List ℕ) (s : CommitState) (b : Bool)
    → Committed begin done s
    → Committed begin done (if b then process_commit_queue s else s)
process-if begin done s true c = process-Committed begin done s c
process-if begin done s false c = c

-- One task: its id joins the others.
commit_task-Committed :
    (begin : ℕ) (done : List ℕ) (s : CommitState) (t : ℕ) (elapsed : Bool)
    → begin ≤ t
    → contains t done ≡ false
    → Committed begin done s
    → Committed begin (t ∷ done) (commit_task s t elapsed)
unfolding commit_task
commit_task-Committed begin done s t elapsed h fresh c =
    let joined : Committed begin (t ∷ done) (record s {
      pq_done = t ∷ s.pq_done;
      mapping = drain s.mapping;
      commit_queue = insert_id t s.commit_queue;
    }) =
      record {
        waiting =
            insert_id-Ascending s.ckpt_id t s.commit_queue (ground (arith, c.accounted t h))
              (ground (arith, c.accounted t h)) c.waiting;
        accounted =
            λ id k. ground (arith, c.accounted id k, contains-insert_id id t s.commit_queue);
        advanced = c.advanced;
        saved = c.saved;
      } in
    let p =
      process-if begin (t ∷ done) _ (not (s.n_tasks == 0) && (s.n_tasks % commit_interval == 0))
        joined in
    record { waiting = p.waiting; accounted = p.accounted; advanced = p.advanced; saved = p.saved }

pub commit_tasks-Committed :
    (begin : ℕ) (done : List ℕ) (s : CommitState) (ts : List (ℕ × Bool))
    → ((id : ℕ) → contains id (task_ids ts) ≡ true → begin ≤ id)
    → Distinct (task_ids ts)
    → ((id : ℕ) → contains id (task_ids ts) ≡ true → contains id done ≡ false)
    → Committed begin done s
    → (all : List ℕ) × Committed begin all (commit_tasks s ts)
      × ((id : ℕ) → contains id all ≡ (contains id done || contains id (task_ids ts)))
unfolding commit_tasks
commit_tasks-Committed begin done s [] low d fresh c = (done, c, λ id. ground arith)
commit_tasks-Committed begin done s ((t, elapsed) ∷ ts) low d fresh c =
    let (all, c', e) =
      commit_tasks-Committed begin (t ∷ done) (commit_task s t elapsed) ts
        (λ id k. low id (ground arith)) d.1 (λ id k. ground (arith, d.0, fresh id))
        (commit_task-Committed begin done s t elapsed (low t (ground (arith, ==_refl t)))
          (fresh t (ground (arith, ==_refl t))) c) in
    (all, c', λ id. ground (arith, e id))
