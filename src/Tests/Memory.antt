-- ===== src/Tests/Memory.antt =====
-- The theorems on the bookkeeping of the index in memory, for an index of two points and a frozen one.
use ccann.Prelude.{
  ℕ, ◌↔◌, ◌⊎◌, ◌*◌, ◌≤◌, ◌<◌, ◌≡◌, refl, true, false, not, ◌==◌, if◌then◌else◌, none, some, List,
  [], ◌∷◌, ◌&&◌, contains, arith,
}
use ccann.RobinSet.{list_set}
use ccann.UnorderedMap.{find, has}
use ccann.Index.{Index, row, construct, write_at}
use ccann.Index.Growth.{growth, to_float, round_at}
use ccann.Index.Slots.{IsConsistent}
use ccann.Index.Tags.{place_point, lazy_delete, lazy_delete_all, done}
use ccann.Index.Delete.{Deleted, lazy_delete-Deleted, lazy_delete_all_lem}
use ccann.Index.Place.{place_point_lem}
use ccann.Index.Reached.{Reached}
use ccann.Index.Compact.{new_location, tagged_below, compact_data}
use ccann.Index.Renumber.{new_location-order, compact_data-deleted_start}
use ccann.Index.Store.{save_graph, load_graph}
use ccann.Index.Reload.{load_graph-save_graph}

-- Points on a line, with the tags 7 and 8; the frozen point is the third.
abbrev pub line : Index list_set ℕ
line = record {
  data_at = λ j. j * 100;
  nd = 2;
  max_points = 2;
  num_frozen_pts = 1;
  width = 2;
  ep = 2;
  has_built = true;
  saturate_graph = false;
  dynamic_index = true;
  enable_tags = true;
  eager_done = false;
  lazy_done = false;
  data_compacted = true;
  final_graph = (1 ∷ 2 ∷ []) ∷ (0 ∷ 2 ∷ []) ∷ (0 ∷ 1 ∷ []) ∷ [];
  tag_to_location = (7, 0) ∷ (8, 1) ∷ [];
  location_to_tag = (0, 7) ∷ (1, 8) ∷ [];
  delete_set = [];
  empty_slots = [];
}

pub line-IsConsistent : IsConsistent list_set ℕ line
line-IsConsistent = record {
  located = λ t l h. ground arith;
  tagged = λ l t h. ground arith;
  alive = λ l t h. refl;
  taken = λ l t h. refl;
  inside = λ l t h. ground arith;
  packed = λ k l t h. ground arith;
  packed_deleted = λ k l h. absurd (cc h);
  packed_slots = λ k l h. absurd (cc h);
  slots = λ l h. absurd (cc h);
  counted = λ k. absurd (cc k);
  room = omega arith;
  small = omega arith;
  enabled = refl;
}

-- An index of one place does not grow.
growths : (growth 1 ≡ 1) × ((growth 2 ≡ 3) × (growth 5 ≡ 7))
unfolding growth to_float round_at
growths = (refl, (refl, refl))

place_point_lem_example :
    (location : ℕ) × (after : Index list_set ℕ) × (place_point list_set ℕ 0 500 9 line
      ≡ some (location, after))
    × (find after.tag_to_location 9 ≡ some location)
    × (after.data_at location ≡ 500)
    × ((t : ℕ) → (9 == t) ≡ false → find after.tag_to_location t ≡ find line.tag_to_location t)
    × IsConsistent list_set ℕ after
place_point_lem_example =
    place_point_lem list_set ℕ 0 500 9 line line-IsConsistent (omega arith)
      (omega (arith, growths.1.0))

lazy_delete-Deleted_example : Deleted list_set ℕ 0 7 line (lazy_delete list_set ℕ 0 7 line)
lazy_delete-Deleted_example = lazy_delete-Deleted list_set ℕ 0 7 line line-IsConsistent

lazy_delete_all_lem_example :
    (failed : List ℕ) × (after : Index list_set ℕ) × (lazy_delete_all list_set ℕ 0
        (8 ∷ 3 ∷ [])
        []
        line
      ≡ (done, (failed, after)))
    × ((t : ℕ) → contains t failed ≡ contains t (8 ∷ 3 ∷ []) && not (has line.tag_to_location t))
    × ((t : ℕ)
        → find after.tag_to_location t
          ≡ (if contains t (8 ∷ 3 ∷ []) then none else find line.tag_to_location t))
    × ((l : ℕ)
        → (contains l after.delete_set ≡ true) ↔ (
            (contains l line.delete_set ≡ true)
            ⊎ ((t : ℕ) × (contains t (8 ∷ 3 ∷ []) ≡ true)
                × (find line.tag_to_location t ≡ some l))))
    × IsConsistent list_set ℕ after
lazy_delete_all_lem_example =
    lazy_delete_all_lem list_set ℕ 0 (8 ∷ 3 ∷ []) line line-IsConsistent refl

abbrev nothing : Index list_set ℕ
nothing = construct list_set ℕ 0 (λ j. 0) 5 true true

-- The point with tag 4 is inserted, then deleted.
abbrev inserted_4 : Index list_set ℕ
inserted_4 = record nothing {
  data_at = write_at (λ j. 0) 0 300;
  nd = 1;
  tag_to_location = (4, 0) ∷ [];
  location_to_tag = (0, 4) ∷ [];
}

new_location-order_example :
    ((a : ℕ) → has line.location_to_tag a ≡ true → new_location list_set ℕ 0 line a ≤ a)
    × ((a b : ℕ)
        → has line.location_to_tag a ≡ true
        → has line.location_to_tag b ≡ true
        → a < b
        → new_location list_set ℕ 0 line a < new_location list_set ℕ 0 line b)
    × ((l : ℕ)
        → l < tagged_below list_set ℕ 0 line.location_to_tag 3
        → (old : ℕ) × (old < 3)
          × (has line.location_to_tag old ≡ true)
          × (new_location list_set ℕ 0 line old ≡ l))
new_location-order_example = new_location-order list_set ℕ 0 line 3

-- The start node is deleted, its neighbours are not.
abbrev headless : Index list_set ℕ
headless = record line { delete_set = 2 ∷ []; lazy_done = true; data_compacted = false }

compact_data-deleted_start_example : compact_data list_set ℕ 0 headless ≡ none
compact_data-deleted_start_example =
    compact_data-deleted_start list_set ℕ 0 headless refl refl refl refl

load_graph-save_graph_example :
    (after : Index list_set ℕ) × (load_graph list_set ℕ 0 (save_graph list_set ℕ 0 line) 3 line
      ≡ some (3, after))
    × ((x : ℕ) → x < 3 → row after.final_graph x ≡ row line.final_graph x)
    × (after.ep ≡ line.ep)
load_graph-save_graph_example =
    load_graph-save_graph list_set ℕ 0 line line 3 (omega arith) (omega arith)
      (omega arith, (omega arith, (omega arith, tt))) refl refl
