-- ===== src/Tests/Merging.antt =====
-- The theorems on merges, for three nodes of which one is deleted, and on the pruning for the disk.
use ccann.Prelude.{
  ℕ, ◌+◌, ◌-◌, ◌*◌, ◌≤◌, ◌≡◌, refl, true, false, List, [], ◌∷◌, contains, count, arith,
}
use ccann.RobinSet.{list_set}
use ccann.Floats.{hundredths}
use ccann.Neighbor.{Neighbor}
use ccann.Prune.Whole.{prune_neighbors_pq, prune_neighbors}
use ccann.Prune.Degree.{Selected, prune_neighbors-Selected}
use ccann.Dynamic.{Dynamic, start, lazy_delete, final_merge, search}
use ccann.Dynamic.Deleted.{
  Event, deletes, merges, since, run, Reached, started, deleted, final_merge_lem,
  search-final_merge,
}
use ccann.Merge.{DiskNode}

abbrev dist_100 : ℕ → ℕ → ℕ
dist_100 a b = 100 * ((a - b) + (b - a))

abbrev pool : List (Neighbor hundredths)
pool =
    record { id = 3; distance = 300; flag = true; visited = false }
    ∷ record { id = 1; distance = 100; flag = true; visited = false }
    ∷ []

prune_neighbors-Selected_example :
    Selected hundredths 120 1 5 9 refl
      (3 ∷ 1 ∷ [])
      (prune_neighbors_pq hundredths 120 1 5 9 dist_100 pool [])
    × Selected hundredths 120 1 5 9 refl
        (3 ∷ 1 ∷ [])
        (prune_neighbors hundredths 120 1 5 9 0 dist_100 pool [])
prune_neighbors-Selected_example =
    prune_neighbors-Selected hundredths 120 1 5 9 refl 0 dist_100 dist_100 pool [] (omega arith)
      (λ k. ground arith)

abbrev file : List DiskNode
file =
    record { id = 0; nbrs = 1 ∷ 2 ∷ [] }
    ∷ record { id = 1; nbrs = 0 ∷ 2 ∷ [] }
    ∷ record { id = 2; nbrs = 1 ∷ [] }
    ∷ []

abbrev after_7 : Dynamic list_set
after_7 = lazy_delete list_set 7 (start list_set)

after_7-Reached : Reached list_set after_7
after_7-Reached = deleted (start list_set) 7 started

-- The tag 7 is deleted, a merge takes it, and then 9 is deleted twice.
abbrev history : List Event
history = deletes 9 ∷ deletes 9 ∷ merges ∷ deletes 7 ∷ []

final_merge_lem_example :
    let ((tags, frozen), after) = final_merge list_set (run list_set history) in
    ((t : ℕ) → contains t tags ≡ since history t)
    × ((t : ℕ) → contains t frozen ≡ since history t)
    × ((t : ℕ) → count t tags ≤ 1)
    × ((t : ℕ) → contains t (after.deletion_sets after.active_delete_set) ≡ false)
final_merge_lem_example = final_merge_lem list_set history

abbrev found : List (ℕ × ℕ)
found = (7, 30) ∷ (9, 40) ∷ []

search-final_merge_example : search list_set 2 found (final_merge list_set after_7).1 ≡ found
search-final_merge_example =
    search-final_merge list_set 2 found after_7 after_7-Reached (omega arith)
