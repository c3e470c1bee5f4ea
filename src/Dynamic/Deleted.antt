-- ===== src/Dynamic/Deleted.antt =====
-- The deletion sets of src/update/dynamic_index.cpp: what a merge is handed, and what searches filter.
use ccann.Prelude.{
  ℕ, ◌+◌, ◌-◌, ◌≤◌, ◌≡◌, refl, sym, ap, ◌∙◌, inl, inr, Bool, true, false, ◌||◌, ◌==◌, List, [], ◌∷◌,
  ◌++◌, length, contains, count, Bool-cases, ==_refl, arith, length-append, contains-append,
  contains-false, count-append,
}
use ccann.RobinSet.{RobinSet}
use ccann.Index.Query.{collect}
use ccann.Dynamic.{Dynamic, start, lazy_delete, save_del_set, final_merge, undeleted, search}

-- What happens to the index: a tag is deleted, or a merge begins.
pub data Event : Type 0 where
  deletes : ℕ → Event
  merges : Event

-- Whether a tag was deleted since the last merge, the latest event first.
abbrev pub since : List Event → ℕ → Bool
since [] t = false
since (deletes tag ∷ events) t = (tag == t) || since events t
since (merges ∷ events) t = false

module _ (S : RobinSet) where
  -- Each list has the tags of its set, once each; the active set is one of the two.
  pub record IsSynced (d : Dynamic S) : Type 0 where
    pub active : d.active_delete_set ≤ 1
    pub open_set : d.active_del d.active_delete_set ≡ true
    pub closed_set : d.active_del (1 - d.active_delete_set) ≡ false
    pub members : (k t : ℕ) → contains t (d.deleted_tags k) ≡ S.find (d.deletion_sets k) t
    pub once : (k t : ℕ) → count t (d.deleted_tags k) ≤ 1

  -- Deletions and merges, in any order.
  pub data Reached : Dynamic S → Type 0 where
    started : Reached (start S)
    deleted : (d : Dynamic S) (tag : ℕ) → Reached d → Reached (lazy_delete S tag d)
    merged : (d : Dynamic S) → Reached d → Reached (final_merge S d).1

  start-IsSynced : IsSynced (start S)
  unfolding start
  start-IsSynced = record {
    active = omega arith;
    open_set = refl;
    closed_set = refl;
    members = λ k t. sym (S.find-empty t);
    once = λ k t. omega arith;
  }

  lazy_delete-IsSynced : (d : Dynamic S) (tag : ℕ) → IsSynced d → IsSynced (lazy_delete S tag d)
  unfolding lazy_delete
  lazy_delete-IsSynced d tag s =
      let a = d.active_delete_set in
      elim (Bool-cases (S.find (d.deletion_sets a) tag)) [
        | inl there ↦ rw there s
        | inr new ↦ rw new (record {
          active = s.active;
          open_set = s.open_set;
          closed_set = s.closed_set;
          members = λ k t. elim (Bool-cases (a == k)) [
            | inl same ↦ rw same (
                ground (
                  arith,
                  contains-append t (d.deleted_tags a) (tag ∷ []),
                  s.members a t,
                  S.find-insert (d.deletion_sets a) tag t,
                ))
            | inr other ↦ rw other (s.members k t)
          ];
          once = λ k t. elim (Bool-cases (a == k)) [
            | inl same ↦ rw same (
                ground (
                  arith,
                  count-append t (d.deleted_tags a) (tag ∷ []),
                  s.members a t,
                  s.once a t,
                  contains-false t (d.deleted_tags a),
                ))
            | inr other ↦ rw other (s.once k t)
          ];
        })
      ]

  save_del_set-IsSynced : (d : Dynamic S) → IsSynced d → IsSynced (save_del_set S d)
  unfolding save_del_set
  save_del_set-IsSynced d s =
      let next = 1 - d.active_delete_set in
      record {
        active = omega arith;
        open_set = ground (arith, s.active);
        closed_set = ground (arith, s.active);
        members = λ k t. elim (Bool-cases (next == k)) [
          | inl same ↦ rw same (sym (S.find-empty t))
          | inr other ↦ rw other (s.members k t)
        ];
        once = λ k t. elim (Bool-cases (next == k)) [
          | inl same ↦ rw same (omega arith)
          | inr other ↦ rw other (s.once k t)
        ];
      }

  Reached-IsSynced : (d : Dynamic S) → Reached d → IsSynced d
  unfolding final_merge
  Reached-IsSynced _ started = start-IsSynced
  Reached-IsSynced _ (deleted d tag r) = lazy_delete-IsSynced d tag (Reached-IsSynced d r)
  Reached-IsSynced _ (merged d r) = save_del_set-IsSynced d (Reached-IsSynced d r)

  handed :
      (d : Dynamic S)
      → Reached d
      → let ((tags, frozen), after) = final_merge S d in
        ((t : ℕ) → contains t tags ≡ S.find (d.deletion_sets d.active_delete_set) t)
        × ((t : ℕ) → S.find frozen t ≡ S.find (d.deletion_sets d.active_delete_set) t)
        × ((t : ℕ) → count t tags ≤ 1)
        × ((t : ℕ) → S.find (after.deletion_sets after.active_delete_set) t ≡ false)
  unfolding final_merge save_del_set
  handed d r =
      let s = Reached-IsSynced d r in
      let a = d.active_delete_set in
      let old : 1 - (1 - a) ≡ a = omega (arith, s.active) in
      let other : (1 - a == a) ≡ false = ground (arith, s.active) in
      let same : (1 - a == 1 - a) ≡ true = ==_refl (1 - a) in
      (
        λ t. rw (old, other) (s.members a t),
        λ t. rw (old, other) refl,
        λ t. rw (old, other) (s.once a t),
        λ t. rw same (S.find-empty t),
      )

  -- The state after some events, the latest first.
  unfoldable pub run : List Event → Dynamic S
  run [] = start S
  run (deletes tag ∷ events) = lazy_delete S tag (run events)
  run (merges ∷ events) = (final_merge S (run events)).1

  run-Reached : (events : List Event) → Reached (run events)
  unfolding run
  run-Reached [] = started
  run-Reached (deletes tag ∷ events) = deleted (run events) tag (run-Reached events)
  run-Reached (merges ∷ events) = merged (run events) (run-Reached events)

  lazy_delete-active :
      (d : Dynamic S) (tag t : ℕ)
      → let after = lazy_delete S tag d in
        S.find (after.deletion_sets after.active_delete_set) t
        ≡ (tag == t) || S.find (d.deletion_sets d.active_delete_set) t
  unfolding lazy_delete
  lazy_delete-active d tag t =
      let a = d.active_delete_set in
      elim (Bool-cases (S.find (d.deletion_sets a) tag)) [
        | inl there ↦ elim (Bool-cases (tag == t)) [
          | inl same ↦
              let z : tag ≡ t = ground arith in
              rw (there, same) (sym (ap (S.find (d.deletion_sets a)) z) ∙ there)
          | inr other ↦ rw (there, other) refl
        ]
        | inr new ↦
            let here : (a == a) ≡ true = ==_refl a in
            rw (new, here) (S.find-insert (d.deletion_sets a) tag t)
      ]

  start-empty : (t : ℕ) → S.find ((start S).deletion_sets (start S).active_delete_set) t ≡ false
  unfolding start
  start-empty t = S.find-empty t

  active-since :
      (events : List Event) (t : ℕ)
      → S.find ((run events).deletion_sets (run events).active_delete_set) t ≡ since events t
  unfolding run
  active-since [] t = start-empty t
  active-since (deletes tag ∷ events) t =
      lazy_delete-active (run events) tag t ∙ ap (λ b. (tag == t) || b) (active-since events t)
  active-since (merges ∷ events) t =
      let (a, b, c, none_left) = handed (run events) (run-Reached events) in none_left t

  -- After any deletions and merges, a merge is handed exactly the tags that were deleted since the
  -- last one, each of them once in the list and all in the set, and the set of deletions is empty
  -- after it.
  pub final_merge_lem :
      (events : List Event)
      → let ((tags, frozen), after) = final_merge S (run events) in
        ((t : ℕ) → contains t tags ≡ since events t)
        × ((t : ℕ) → S.find frozen t ≡ since events t)
        × ((t : ℕ) → count t tags ≤ 1)
        × ((t : ℕ) → S.find (after.deletion_sets after.active_delete_set) t ≡ false)
  final_merge_lem events =
      let (tags, frozen, once, none_left) = handed (run events) (run-Reached events) in
      (λ t. tags t ∙ active-since events t, λ t. frozen t ∙ active-since events t, once, none_left)

  append-nil : {D : Type 0} (xs : List (ℕ × D)) → xs ++ [] ≡ xs
  append-nil [] = refl
  append-nil (x ∷ xs) = ap (λ l. x ∷ l) (append-nil xs)

  append-one :
      {D : Type 0} (xs : List (ℕ × D)) (y : ℕ × D) (ys : List (ℕ × D))
      → (xs ++ (y ∷ [])) ++ ys ≡ xs ++ (y ∷ ys)
  append-one [] y ys = refl
  append-one (x ∷ xs) y ys = ap (λ l. x ∷ l) (append-one xs y ys)

  collect-undeleted :
      {D : Type 0} (gone : S.Set) (k : ℕ) (out best : List (ℕ × D))
      → ((t : ℕ) → S.find gone t ≡ false)
      → length out + length best ≤ k
      → collect (undeleted S gone) k out best ≡ out ++ best
  collect-undeleted gone k out [] h e = sym (append-nil out)
  collect-undeleted gone k out ((t, x) ∷ best) h e =
      let more = out ++ ((t, x) ∷ []) in
      let size = length-append out ((t, x) ∷ []) in
      elim (Bool-cases (length more == k)) [
        | inl full ↦
            let z = no_more best (ground (arith, size)) in
            rw (h t, full) (ap (λ l. out ++ ((t, x) ∷ l)) (sym z))
        | inr less ↦
            rw (h t, less)
              (collect-undeleted gone k more best h (omega (arith, size))
                ∙ append-one out (t, x) best)
      ]
    where
      no_more : {D : Type 0} (l : List (ℕ × D)) → length l ≡ 0 → l ≡ []
      no_more [] h = refl
      no_more (y ∷ l) h = absurd (omega arith)

  -- From the moment when a merge has switched the sets, searches filter nothing that was deleted
  -- before: as long as no tag is deleted since, at most K results of the search on disk all come
  -- through, also those whose tags are only being taken out by the merge.
  pub search-final_merge :
      {D : Type 0} (k : ℕ) (best : List (ℕ × D)) (d : Dynamic S)
      → Reached d
      → length best ≤ k
      → search S k best (final_merge S d).1 ≡ best
  unfolding search
  search-final_merge k best d r h =
      let (a, b, c, none_left) = handed d r in collect-undeleted _ k [] best none_left (omega arith)
