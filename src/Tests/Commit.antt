-- ===== src/Tests/Commit.antt =====
-- The theorems on the commit thread, for three inserts that finish out of order.
use ccann.Prelude.{ℕ, ◌≡◌, refl, Bool, false, none, some, List, [], ◌∷◌, arith}
use ccann.Commit.{
  IdMap, CommitState, publish_target, id2loc_insert_or_assign, drain, insert_commit_thread,
}
use ccann.Commit.Locations.{Updated, published, relocated, loaded, drain-Updated}
use ccann.Commit.Checkpoint.{Started, insert_commit_thread-some}

abbrev no_ids : IdMap
no_ids = record { id2loc = λ j. none; id2loc_pm = λ j. none; id2loc_pm_queue = [] }

-- Id 2 has moved to slot 9.
abbrev moved : IdMap
moved = id2loc_insert_or_assign no_ids 2 9

-- Then the new id 4 gets slot 6.
abbrev grown : IdMap
grown = publish_target moved 4 6

no_4 : moved.id2loc 4 ≡ none
unfolding id2loc_insert_or_assign
no_4 = refl

grown-Updated : Updated grown
grown-Updated = published moved 4 6 no_4 (relocated no_ids 2 9 (loaded (λ j. none)))

drain-Updated_example :
    ((j : ℕ) → (drain grown).id2loc_pm j ≡ grown.id2loc j) × ((drain grown).id2loc_pm_queue ≡ [])
drain-Updated_example = drain-Updated grown grown-Updated

abbrev at_5 : CommitState
at_5 = record {
  ckpt_id = 5;
  super_block = 5;
  commit_queue = [];
  pq_done = [];
  mapping = moved;
  n_tasks = 1000;
}

at_5-Started : Started at_5
at_5-Started = record { nothing_waits = refl; saved = refl }

-- The first task makes the thread look for the prefix.
abbrev finished : List (ℕ × Bool)
finished = (5, false) ∷ (7, false) ∷ (6, false) ∷ []

insert_commit_thread-some_example :
    (last : CommitState) × (insert_commit_thread at_5 finished ≡ some last)
    × (last.ckpt_id ≡ 8)
    × (last.super_block ≡ 8)
insert_commit_thread-some_example =
    insert_commit_thread-some at_5 finished 3 at_5-Started (refl, (refl, (refl, tt)))
      (λ id. ground arith)
