-- ===== src/Index/Tags.antt =====
-- src/index.cpp: tags and the locations of their points. Deletion, the bookkeeping of an insertion,
-- and the functions that read the two maps.
use ccann.Prelude.{
  ℕ, ◌+◌, Bool, ◌||◌, ◌==◌, true, not, leb, if◌then◌else◌, Option, none, some, List, [], ◌∷◌, ◌&&◌,
}
use ccann.RobinSet.{RobinSet, size}
use ccann.UnorderedMap.{UnorderedMap, find, erase, assign, has}
use ccann.Index.{Index, to_unsigned, write_at, reserve_location, resize}
use ccann.Index.Growth.{growth}

-- What a deletion returns: 0, -1, -2 and -3.
pub data DeleteCode : Type 0 where
  done : DeleteCode
  tag_not_found : DeleteCode
  eager_pending : DeleteCode
  failed_tags_not_empty : DeleteCode

-- `m[k]`, which enters 0 under an absent key: the value and the map after the call.
unfoldable pub subscript : UnorderedMap → ℕ → ℕ × UnorderedMap
subscript m k = elim (find m k) [ none ↦ (0, assign m k 0) | some v ↦ (v, m) ]

module _ (S : RobinSet) (V : Type 0) (zero_vec : V) where
  -- The step of `lazy_delete` under `_delete_lock`.
  unfoldable pub mark_deleted : ℕ → Index S V → Index S V
  unfolding subscript
  mark_deleted tag i =
      let (location, m) = subscript i.tag_to_location tag in
      record i { tag_to_location = m; delete_set = S.insert i.delete_set location }

  -- The step of `lazy_delete` under `_tag_lock`.
  unfoldable pub drop_tag : ℕ → Index S V → Index S V
  unfolding subscript
  drop_tag tag i =
      let (location, m) = subscript i.tag_to_location tag in
      record i { location_to_tag = erase i.location_to_tag location; tag_to_location = erase m tag }

  unfoldable pub delete_tag : ℕ → Index S V → Index S V
  unfolding mark_deleted drop_tag
  delete_tag tag i = drop_tag tag (mark_deleted tag i)

  -- `lazy_delete` of one tag, when no other thread runs between its steps.
  unfoldable pub lazy_delete : ℕ → Index S V → DeleteCode × Index S V
  unfolding delete_tag
  lazy_delete tag i =
      let started = record i { lazy_done = true } in
      if i.eager_done && not i.data_compacted
      then (eager_pending, i)
      else if has i.tag_to_location tag
      then (done, delete_tag tag started)
      else (tag_not_found, started)

  -- The loop over a set of tags, in the order in which it is met: the tags that are not found, and
  -- the index.
  unfoldable pub delete_tags : List ℕ → Index S V → List ℕ × Index S V
  unfolding delete_tag
  delete_tags [] i = ([], i)
  delete_tags (tag ∷ tags) i =
      if has i.tag_to_location tag
      then delete_tags tags (delete_tag tag i)
      else (let (failed, after) = delete_tags tags i in (tag ∷ failed, after))

  -- `lazy_delete` of a set of tags, with `failed_tags`.
  unfoldable pub lazy_delete_all : S.Set → List ℕ → Index S V → DeleteCode × (List ℕ × Index S V)
  unfolding delete_tags
  lazy_delete_all tags failed_tags i = elim failed_tags [
    | x ∷ xs ↦ (failed_tags_not_empty, (x ∷ xs, i))
    | [] ↦
        if i.eager_done && not i.data_compacted
        then (eager_pending, ([], i))
        else (done, delete_tags (S.elements tags) (record i { lazy_done = true }))
  ]

  -- `insert_point` first deletes a point that has the tag.
  unfoldable pub replace_tag : ℕ → Index S V → Index S V
  unfolding delete_tag
  replace_tag tag i =
      if i.enable_tags && has i.tag_to_location tag
      then delete_tag tag (record i { lazy_done = true })
      else i

  -- `if (_nd >= _max_points) resize(...)` under the unique lock; none for the assert of `resize`.
  unfoldable pub grow : Index S V → Option (Index S V)
  unfolding growth resize
  grow i =
      let larger = resize S V zero_vec (to_unsigned (growth i.max_points)) i in
      if leb i.max_points i.nd
      then (if size S i.empty_slots == 0 then some larger else none)
      else some i

  -- The asserts of `reserve_location`, which it comes to when the data is not compact.
  abbrev pub slots_fit : Index S V → Bool
  slots_fit i =
      leb i.max_points i.nd
      || (i.data_compacted
          || (not (size S i.empty_slots == 0) && (size S i.empty_slots + i.nd == i.max_points)))

  -- `reserve_location`, a second time after growth when there is no place; none for `crash()` and
  -- for the asserts.
  unfoldable pub reserve_or_grow : Index S V → Option (ℕ × Index S V)
  unfolding reserve_location grow
  reserve_or_grow i =
      if slots_fit i
      then elim (reserve_location S V zero_vec i) [
        | some found ↦ some found
        | none ↦ elim (grow i) [
          | none ↦ none
          | some larger ↦ if slots_fit larger then reserve_location S V zero_vec larger else none
        ]
      ]
      else none

  -- Tag and coordinates of a point at its location.
  unfoldable pub enter_point : ℕ → V → ℕ → Index S V → Index S V
  enter_point tag point location i = record i {
    tag_to_location = assign i.tag_to_location tag location;
    location_to_tag = assign i.location_to_tag location tag;
    data_at = write_at i.data_at location point;
  }

  -- `insert_point` up to the search for neighbours.
  unfoldable pub place_point : V → ℕ → Index S V → Option (ℕ × Index S V)
  unfolding replace_tag reserve_or_grow enter_point
  place_point point tag i = elim (reserve_or_grow (replace_tag tag i)) [
    | none ↦ none
    | some (location, reserved) ↦ some (location, enter_point tag point location reserved)
  ]

  abbrev insert_keys : UnorderedMap → S.Set → S.Set
  insert_keys [] tags = tags
  insert_keys ((tag, location) ∷ m) tags = insert_keys m (S.insert tags tag)

  unfoldable pub get_active_tags : Index S V → S.Set
  get_active_tags i = insert_keys i.tag_to_location S.empty

  -- none for -1.
  unfoldable pub get_vector_by_tag : ℕ → Index S V → Option V
  get_vector_by_tag tag i = elim (find i.tag_to_location tag) [
    | none ↦ none
    | some location ↦ some (i.data_at location)
  ]
