-- ===== src/Index.antt =====
-- include/index.h and src/index.cpp: the index that is held in memory. The state and the
-- bookkeeping of its slots: which locations are in use, which are free, which are deleted.
pub mod Slots
pub mod Growth
pub mod Delete
pub mod Place
pub mod Reached
pub mod Graph
pub mod Degree
pub mod Chosen
pub mod Links
pub mod Walk
pub mod Rounds
pub mod Kept
pub mod Loop
pub mod FixedPoint
pub mod Fast
pub mod Query
pub mod Live
pub mod Insert
pub mod Connect
pub mod Consolidate
pub mod Alive
pub mod Compact
pub mod Renumber
pub mod Store
pub mod Reload
pub mod Tags
use ccann.Prelude.{
  ℕ, zero, suc, ◌+◌, ◌-◌, ◌*◌, ◌%◌, ◌^◌, Bool, true, false, not, ltb, leb, ◌==◌, if◌then◌else◌,
  Option, none, some, List, [], ◌∷◌, ◌++◌, length, get_or, set, map, ◌&&◌, ◌||◌,
}
use ccann.RobinSet.{RobinSet}
use ccann.UnorderedMap.{UnorderedMap, find, erase, assign, has}

-- The state without the locks, and `V` a vector of `_aligned_dim` coordinates. A vector at index i
-- of `data` is `_data + _aligned_dim * i`.
pub record Index (S : RobinSet) (V : Type 0) : Type 0 where
  pub data_at : ℕ → V
  pub nd : ℕ
  pub max_points : ℕ
  pub num_frozen_pts : ℕ
  pub width : ℕ
  pub ep : ℕ
  pub has_built : Bool
  pub saturate_graph : Bool
  pub dynamic_index : Bool
  pub enable_tags : Bool
  pub eager_done : Bool
  pub lazy_done : Bool
  pub data_compacted : Bool
  pub final_graph : List (List ℕ)
  pub tag_to_location : UnorderedMap
  pub location_to_tag : UnorderedMap
  pub delete_set : S.Set
  pub empty_slots : S.Set

-- A conversion to `unsigned`, and a subtraction of `size_t`.
abbrev pub to_unsigned : ℕ → ℕ
to_unsigned n = n % 2 ^ 32

abbrev pub sub_size : ℕ → ℕ → ℕ
sub_size a b = if ltb a b then a + 2 ^ 64 - b else a - b

abbrev pub repeat_empty : ℕ → List (List ℕ)
repeat_empty zero = []
repeat_empty (suc n) = [] ∷ repeat_empty n

-- `vec.resize(n)`
abbrev pub resize_graph : List (List ℕ) → ℕ → List (List ℕ)
resize_graph graph zero = []
resize_graph [] (suc n) = repeat_empty (suc n)
resize_graph (row ∷ graph) (suc n) = row ∷ resize_graph graph n

-- `memcpy` and `memset` of one vector
abbrev pub write_at {ℓ} : {V : Type ℓ} → (ℕ → V) → ℕ → V → ℕ → V
write_at d i v j = if i == j then v else d j

abbrev pub row : List (List ℕ) → ℕ → List ℕ
row graph i = get_or graph i []

module _ (S : RobinSet) (V : Type 0) (zero_vec : V) where
  -- The constructor; `raw` is what the allocated memory holds.
  unfoldable pub construct : (ℕ → V) → ℕ → Bool → Bool → Index S V
  construct raw max_points dynamic_index enable_tags =
      let frozen : ℕ = if dynamic_index then 1 else 0 in
      let points : ℕ = if max_points == 0 then 1 else max_points in
      record {
        data_at = raw;
        nd = 0;
        max_points = points;
        num_frozen_pts = frozen;
        width = 0;
        ep = to_unsigned points;
        has_built = false;
        saturate_graph = false;
        dynamic_index = dynamic_index;
        enable_tags = enable_tags || dynamic_index;
        eager_done = false;
        lazy_done = false;
        data_compacted = true;
        final_graph = repeat_empty (points + frozen);
        tag_to_location = [];
        location_to_tag = [];
        delete_set = S.empty;
        empty_slots = S.empty;
      }

  unfoldable pub clear_index : Index S V → Index S V
  clear_index i = record i {
    data_at = λ j. if ltb j (i.max_points + i.num_frozen_pts) then zero_vec else i.data_at j;
    nd = 0;
    final_graph = repeat_empty (length i.final_graph);
    tag_to_location = [];
    location_to_tag = [];
    delete_set = S.empty;
    empty_slots = S.empty;
  }

  -- `for (i = from; i < from + n; i++) slots.insert(i)`
  unfoldable pub insert_slots : S.Set → ℕ → ℕ → S.Set
  insert_slots slots from zero = slots
  insert_slots slots from (suc n) = insert_slots (S.insert slots from) (from + 1) n

  -- The result is the code that the call returns, -2 being none; `assert` is off.
  unfoldable pub enable_delete : Index S V → Option (Index S V)
  unfolding insert_slots
  enable_delete i =
      let slots : S.Set =
        if i.data_compacted
        then insert_slots i.empty_slots i.nd (i.max_points - i.nd)
        else i.empty_slots in
      if i.enable_tags
      then some (record i { empty_slots = slots; lazy_done = false; eager_done = false })
      else none

  unfoldable pub release_location : Index S V → Index S V
  release_location i = record i { nd = sub_size i.nd 1 }

  -- The head of the iteration order; the default is `*end()`, which is not read on a set that is
  -- not empty.
  abbrev pub first_slot : S.Set → ℕ
  first_slot s = get_or (S.elements s) 0 0

  -- The location is no free slot any more, and `++_nd`.
  abbrev pub with_location : ℕ → S.Set → Index S V → Index S V
  with_location location deleted i = record i {
    nd = i.nd + 1;
    empty_slots = S.erase i.empty_slots location;
    delete_set = deleted;
  }

  -- none for -1.
  unfoldable pub reserve_location : Index S V → Option (ℕ × Index S V)
  reserve_location i =
      let next = to_unsigned i.nd in
      let slot = first_slot i.empty_slots in
      if leb i.max_points i.nd
      then none
      else if i.data_compacted
      then some (next, with_location next i.delete_set i)
      else some (slot, with_location slot (S.erase i.delete_set slot) i)

  -- Every link to `old` becomes one to `new`.
  unfoldable pub redirect : ℕ → ℕ → List ℕ → List ℕ
  redirect old new [] = []
  redirect old new (x ∷ xs) = (if x == old then new else x) ∷ redirect old new xs

  -- The loop over the first n rows.
  unfoldable pub redirect_rows : ℕ → ℕ → ℕ → List (List ℕ) → List (List ℕ)
  unfolding redirect
  redirect_rows old new zero graph = graph
  redirect_rows old new (suc n) [] = []
  redirect_rows old new (suc n) (r ∷ graph) = redirect old new r ∷ redirect_rows old new n graph

  -- The first n entries of a row, as `emplace_back(row[k])` copies them. An index past the row is
  -- out of its bounds; the callers pass the length of the row.
  abbrev pub copied : ℕ → List ℕ → List ℕ
  copied zero xs = []
  copied (suc n) [] = []
  copied (suc n) (x ∷ xs) = x ∷ copied n xs

  unfoldable pub reposition_point : ℕ → ℕ → Index S V → Index S V
  unfolding redirect_rows
  reposition_point old new i =
      let graph = redirect_rows old new i.nd i.final_graph in
      let cleared = set graph new [] in
      let moved = set cleared new (copied (length (row cleared i.nd)) (row cleared old)) in
      record i {
        final_graph = set moved old [];
        data_at = write_at (write_at i.data_at new (i.data_at old)) old zero_vec;
      }

  unfoldable pub reposition_frozen_point_to_end : Index S V → Index S V
  unfolding reposition_point
  reposition_frozen_point_to_end i =
      let moved = reposition_point i.nd i.max_points i in
      if i.num_frozen_pts == 0
      then i
      else if i.nd == i.max_points
      then i
      else record moved { ep = to_unsigned i.max_points }

  -- `_data` is copied to a larger block, so that no vector changes.
  unfoldable pub resize : ℕ → Index S V → Index S V
  unfolding reposition_point insert_slots
  resize new_max_points i =
      let larger = record i { final_graph = resize_graph i.final_graph (new_max_points + 1) } in
      let moved = reposition_point i.max_points new_max_points larger in
      record moved {
        max_points = new_max_points;
        ep = new_max_points;
        empty_slots = insert_slots i.empty_slots i.nd (new_max_points - i.nd);
      }

  -- While there are more slots than points, the frozen point moves from the end to `_nd`.
  unfoldable pub compact_frozen_point : Index S V → Index S V
  unfolding redirect_rows
  compact_frozen_point i =
      let frozen = row i.final_graph i.max_points in
      let graph = redirect_rows i.max_points (to_unsigned i.nd) i.nd i.final_graph in
      let moved = set (set graph i.nd frozen) i.max_points [] in
      let at_end = record i { ep = to_unsigned i.nd } in
      if ltb i.nd i.max_points && not (i.num_frozen_pts == 0)
      then (if length frozen == 0 then at_end else record at_end {
        final_graph = moved;
        data_at = write_at (write_at i.data_at i.nd (i.data_at i.max_points)) i.max_points zero_vec;
      })
      else i
