-- ===== src/Dynamic.antt =====
-- src/update/dynamic_index.cpp: the two deletion sets of the index that changes, and the filter of its searches.
pub mod Deleted
use ccann.Prelude.{
  ℕ, zero, suc, ◌+◌, ◌-◌, ◌*◌, ◌/◌, ◌%◌, ◌^◌, ◌≤◌, ◌<◌, ◌≡◌, ◌≢◌, ◌↔◌, refl, sym, ap, ◌∙◌, subst,
  ◌⊎◌, inl, inr, Bool, true, false, not, ltb, leb, ◌==◌, if◌then◌else◌, Option, none, some, List,
  [], ◌∷◌, ◌++◌, length, get_or, get_elem?, set, map, take, drop, ◌&&◌, ◌||◌, All, contains,
  Distinct, count, Bool-cases, Option-cases, ==_refl, arith, length-append, length-set,
  contains-append, count-append, insert_at, erase_at,
}
use ccann.RobinSet.{RobinSet}
use ccann.Index.{write_at}
use ccann.Index.Query.{collect}

-- `deletion_sets[k]`, `deleted_tags[k]` and `active_del[k]` for k 0 or 1.
pub record Dynamic (S : RobinSet) : Type 0 where
  pub active_delete_set : ℕ
  pub deletion_sets : ℕ → S.Set
  pub deleted_tags : ℕ → List ℕ
  pub active_del : ℕ → Bool

module _ (S : RobinSet) where
  -- The constructor.
  unfoldable pub start : Dynamic S
  start = record {
    active_delete_set = 0;
    deletion_sets = λ k. S.empty;
    deleted_tags = λ k. [];
    active_del = λ k. k == 0;
  }

  -- The test of `active_del` only writes to the log.
  unfoldable pub lazy_delete : ℕ → Dynamic S → Dynamic S
  lazy_delete tag d =
      let a = d.active_delete_set in
      let noted = record d {
        deletion_sets = write_at d.deletion_sets a (S.insert (d.deletion_sets a) tag);
        deleted_tags = write_at d.deleted_tags a (d.deleted_tags a ++ (tag ∷ []));
      } in
      if S.find (d.deletion_sets a) tag then d else noted

  -- `compare_exchange_strong(false, true)` turns the flag on, or finds it on.
  unfoldable pub save_del_set : Dynamic S → Dynamic S
  save_del_set d =
      let cur = d.active_delete_set in
      let next = 1 - cur in
      record {
        active_delete_set = next;
        deletion_sets = write_at d.deletion_sets next S.empty;
        deleted_tags = write_at d.deleted_tags next [];
        active_del = write_at (write_at d.active_del next true) cur false;
      }

  -- `final_merge`: the tags and the set that it hands to `merge_deletes`, and the state.
  unfoldable pub final_merge : Dynamic S → (List ℕ × S.Set) × Dynamic S
  unfolding save_del_set
  final_merge d =
      let saved = save_del_set d in
      let frozen = 1 - saved.active_delete_set in
      ((saved.deleted_tags frozen, saved.deletion_sets frozen), saved)

  -- `if (deletion_set->find(iter.tag) == deletion_set->end())`
  abbrev pub undeleted {ℓ} : {D : Type ℓ} → S.Set → ℕ × D → Option (ℕ × D)
  undeleted deleted (tag, distance) = if S.find deleted tag then none else some (tag, distance)

  -- The end of `search`: the results of the search on disk, `deletion_set` being the active set
  -- when the search starts.
  unfoldable pub search {ℓ} : {D : Type ℓ} → ℕ → List (ℕ × D) → Dynamic S → List (ℕ × D)
  search k best d = collect (undeleted (d.deletion_sets d.active_delete_set)) k [] best
