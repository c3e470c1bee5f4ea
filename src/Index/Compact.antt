-- ===== src/Index/Compact.antt =====
-- src/index.cpp: compact_data, which renumbers the points so that no location below the number of points is free.
use ccann.Prelude.{
  ℕ, zero, suc, ◌+◌, ◌-◌, Bool, true, false, not, ltb, ◌==◌, if◌then◌else◌, Option, none, some,
  List, [], ◌∷◌, set, ◌&&◌, ◌||◌,
}
use ccann.RobinSet.{RobinSet}
use ccann.UnorderedMap.{UnorderedMap, assign, has}
use ccann.Index.{Index, row, write_at, insert_slots, to_unsigned}

module _ (S : RobinSet) (V : Type 0) (zero_vec : V) where
  -- The points with a tag below a location: `new_counter` when the loop comes to it.
  unfoldable pub tagged_below : UnorderedMap → ℕ → ℕ
  tagged_below tags zero = 0
  tagged_below tags (suc l) = (if has tags l then 1 else 0) + tagged_below tags l

  -- The entry of `new_location`; the points without a tag keep `_max_points`.
  unfoldable pub new_location : Index S V → ℕ → ℕ
  unfolding tagged_below
  new_location i old =
      if has i.location_to_tag old
      then tagged_below i.location_to_tag old
      else to_unsigned i.max_points

  -- The first neighbour of the start node that the loop takes in its place. The condition of the
  -- source asks for one that is in the delete set.
  abbrev pub replacement : S.Set → List ℕ → Option ℕ
  replacement deleted [] = none
  replacement deleted (x ∷ links) = if S.find deleted x then some x else replacement deleted links

  -- none for `crash()` and for the assert on the new start node.
  unfoldable pub replace_start : Index S V → Option (Index S V)
  replace_start i =
      if S.find i.delete_set i.ep
      then elim (replacement i.delete_set (row i.final_graph i.ep)) [
        | none ↦ none
        | some x ↦ if x == i.ep || S.find i.delete_set x then none else some (record i { ep = x })
      ]
      else some i

  abbrev renumbered : (ℕ → ℕ) → List ℕ → List ℕ
  renumbered new [] = []
  renumbered new (x ∷ links) = new x ∷ renumbered new links

  -- A neighbour whose new location lies behind its old one.
  abbrev moves_up : (ℕ → ℕ) → List ℕ → Bool
  moves_up new [] = false
  moves_up new (x ∷ links) = ltb x (new x) || moves_up new links

  -- One round of the loop over the old locations; none for `crash()`. `swap` leaves the row of the
  -- new location at the old one.
  unfoldable pub move_point : (ℕ → ℕ) → ℕ → ℕ → Index S V → Option (Index S V)
  move_point new max_points old i =
      let links = row i.final_graph old in
      let target = new old in
      let renamed = renumbered new links in
      let moved = set (set i.final_graph old (row i.final_graph target)) target renamed in
      if ltb target max_points || (old == max_points)
      then (if moves_up new links
          then none
          else if target == old
          then some (record i { final_graph = set i.final_graph old renamed })
          else some (record i {
            final_graph = moved;
            data_at = write_at i.data_at target (i.data_at old);
          }))
      else some (record i { final_graph = set i.final_graph old [] })

  -- The loop over the first n old locations.
  unfoldable pub move_points : (ℕ → ℕ) → ℕ → ℕ → Index S V → Option (Index S V)
  unfolding move_point
  move_points new max_points zero i = some i
  move_points new max_points (suc n) i = elim (move_points new max_points n i) [
    | none ↦ none
    | some before ↦ move_point new max_points n before
  ]

  -- `_tag_to_location[iter.second] = new_location[iter.first]` for every entry.
  abbrev pub relocate_tags : (ℕ → ℕ) → UnorderedMap → UnorderedMap → UnorderedMap
  relocate_tags new [] m = m
  relocate_tags new ((location, tag) ∷ entries) m =
      relocate_tags new entries (assign m tag (new location))

  -- `_location_to_tag[iter.second] = iter.first` for every entry.
  abbrev pub invert_tags : UnorderedMap → UnorderedMap → UnorderedMap
  invert_tags [] m = m
  invert_tags ((tag, location) ∷ entries) m = invert_tags entries (assign m location tag)

  -- The rows of the locations from `from` on, n of them.
  abbrev cleared : List (List ℕ) → ℕ → ℕ → List (List ℕ)
  cleared graph from zero = graph
  cleared graph from (suc n) = cleared (set graph from []) (from + 1) n

  abbrev compacted : (ℕ → ℕ) → Index S V → Index S V
  compacted new i =
      let tags = relocate_tags new i.location_to_tag [] in
      record i {
        tag_to_location = tags;
        location_to_tag = invert_tags tags [];
        final_graph = cleared i.final_graph i.nd (i.max_points - i.nd);
        delete_set = S.empty;
        empty_slots = insert_slots S V zero_vec S.empty i.nd (i.max_points - i.nd);
        lazy_done = false;
        eager_done = false;
        data_compacted = true;
      }

  unfoldable pub compact_data : Index S V → Option (Index S V)
  unfolding new_location replace_start move_points
  compact_data i =
      let new = new_location i in
      let done : Option (Index S V) = elim (replace_start i) [
        | none ↦ none
        | some started ↦ elim (move_points new i.max_points (i.max_points + 1) started) [
          | none ↦ none
          | some moved ↦ some (compacted new moved)
        ]
      ] in
      if not i.dynamic_index || (not i.lazy_done && not i.eager_done) || i.data_compacted
      then some i
      else done
