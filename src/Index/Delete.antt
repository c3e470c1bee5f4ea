-- ===== src/Index/Delete.antt =====
-- src/index.cpp: what deletions leave of the two maps, and which codes they return.
use ccann.Prelude.{
  ℕ, ◌≡◌, ◌↔◌, ◌⊎◌, ==_refl, refl, sym, ap, ◌∙◌, subst, inl, inr, true, false, not, ◌==◌,
  if◌then◌else◌, none, some, List, [], ◌∷◌, ◌&&◌, ◌||◌, contains, Distinct, Bool-cases,
  Option-cases, arith,
}
use ccann.RobinSet.{RobinSet}
use ccann.UnorderedMap.{UnorderedMap, find, erase, has, find-erase}
use ccann.Index.{Index}
use ccann.Index.Slots.{IsConsistent}
use ccann.Index.Tags.{
  DeleteCode, done, tag_not_found, eager_pending, subscript, mark_deleted, drop_tag, delete_tag,
  lazy_delete, delete_tags, lazy_delete_all,
}

subscript-found : (m : UnorderedMap) (k v : ℕ) → find m k ≡ some v → subscript m k ≡ (v, m)
unfolding subscript
subscript-found m k v found = rw (subscript, found) refl

module _ (S : RobinSet) (V : Type 0) (zero_vec : V) where
  -- The index without a tag and its location, which counts as deleted.
  abbrev pub without_tag : ℕ → ℕ → Index S V → Index S V
  without_tag tag location i = record i {
    tag_to_location = erase i.tag_to_location tag;
    location_to_tag = erase i.location_to_tag location;
    delete_set = S.insert i.delete_set location;
  }

  pub delete_tag_eq :
      (tag location : ℕ) (i : Index S V)
      → find i.tag_to_location tag ≡ some location
      → delete_tag S V zero_vec tag i ≡ without_tag tag location i
  unfolding delete_tag
  delete_tag_eq tag location i found =
      let at = subscript-found i.tag_to_location tag location found in
      let marked : mark_deleted S V zero_vec tag i
          ≡ record i { delete_set = S.insert i.delete_set location } =
        rw (mark_deleted, at) refl in
      let dropped : drop_tag S V zero_vec tag
            (record i { delete_set = S.insert i.delete_set location })
          ≡ without_tag tag location i =
        rw (drop_tag, at) refl in
      ap (drop_tag S V zero_vec tag) marked ∙ dropped

  pub without_tag-IsConsistent :
      (tag location : ℕ) (i : Index S V)
      → IsConsistent S V i
      → find i.tag_to_location tag ≡ some location
      → IsConsistent S V (without_tag tag location i)
  without_tag-IsConsistent tag location i c found =
      let no_tag = find-erase i.tag_to_location tag in
      let no_loc = find-erase i.location_to_tag location in
      let left : (l t : ℕ)
          → find (erase i.location_to_tag location) l ≡ some t
          → find i.location_to_tag l ≡ some t =
        λ l t h. ground (arith, no_loc l) in
      record {
        located =
            λ t l h. ground (arith, no_tag t, no_loc l, c.located t l, c.located tag location);
        tagged = λ l t h. ground (arith, no_tag t, no_loc l, c.tagged l t);
        alive =
            λ l t h. ground (arith, no_loc l, c.alive l t, S.find-insert i.delete_set location l);
        taken = λ l t h. c.taken l t (left l t h);
        inside = λ l t h. c.inside l t (left l t h);
        packed = λ k l t h. c.packed k l t (left l t h);
        packed_deleted = λ k l h. ground (
          arith,
          c.packed_deleted k l,
          c.packed k location tag (c.located tag location found),
          S.find-insert i.delete_set location l,
        );
        packed_slots = c.packed_slots;
        slots = c.slots;
        counted = c.counted;
        room = c.room;
        small = c.small;
        enabled = c.enabled;
      }

  pub started-IsConsistent :
      (i : Index S V) → IsConsistent S V i → IsConsistent S V (record i { lazy_done = true })
  started-IsConsistent i c = record {
    located = c.located;
    tagged = c.tagged;
    alive = c.alive;
    taken = c.taken;
    inside = c.inside;
    packed = c.packed;
    packed_deleted = c.packed_deleted;
    packed_slots = c.packed_slots;
    slots = c.slots;
    counted = c.counted;
    room = c.room;
    small = c.small;
    enabled = c.enabled;
  }

  -- What a deletion returns and leaves, on every path through `lazy_delete`.
  pub data Deleted (tag : ℕ) (i : Index S V) : DeleteCode × Index S V → Type 0 where
    refused : i.eager_done ≡ true → i.data_compacted ≡ false → Deleted tag i (eager_pending, i)
    absent :
        (i.eager_done && not i.data_compacted) ≡ false
        → find i.tag_to_location tag ≡ none
        → Deleted tag i (tag_not_found, record i { lazy_done = true })
    gone :
        (location : ℕ) (after : Index S V)
        → (i.eager_done && not i.data_compacted) ≡ false
        → find i.tag_to_location tag ≡ some location
        → ((t : ℕ)
            → find after.tag_to_location t ≡ (if tag == t then none else find i.tag_to_location t))
        → ((l : ℕ)
            → find after.location_to_tag l
              ≡ (if location == l then none else find i.location_to_tag l))
        → ((l : ℕ) → S.find after.delete_set l ≡ (location == l) || S.find i.delete_set l)
        → IsConsistent S V after
        → Deleted tag i (done, after)

  -- `lazy_delete` on a consistent index: while eager deletions are pending it returns -2 and changes
  -- nothing. Otherwise, for a tag that no point has it returns -1 and only notes the attempt, and for
  -- any other it returns 0, the tag and its location are gone from the two maps, the location is marked as
  -- deleted, all other tags, locations and marks stay, and the index is consistent again.
  pub lazy_delete-Deleted :
      (tag : ℕ) (i : Index S V)
      → IsConsistent S V i
      → Deleted tag i (lazy_delete S V zero_vec tag i)
  unfolding lazy_delete
  lazy_delete-Deleted tag i c = elim (Bool-cases (i.eager_done && not i.data_compacted)) [
    | inl pending ↦
        subst (Deleted tag i) (sym (rw (lazy_delete, pending) refl))
          (refused (ground arith) (ground arith))
    | inr free ↦ elim (Option-cases (find i.tag_to_location tag)) [
      | inl e ↦
          let not_there : has i.tag_to_location tag ≡ false = rw (has, e) refl in
          subst (Deleted tag i) (sym (rw (lazy_delete, free, not_there) refl)) (absent free e)
      | inr (location, e) ↦
          let started = record i { lazy_done = true } in
          let there : has i.tag_to_location tag ≡ true = rw (has, e) refl in
          let result : lazy_delete S V zero_vec tag i ≡ (done, without_tag tag location started) =
            rw (lazy_delete, free, there)
              (ap (λ j. (done, j)) (delete_tag_eq tag location started e)) in
          subst (Deleted tag i) (sym result) (
            gone location (without_tag tag location started) free e
              (find-erase i.tag_to_location tag) (find-erase i.location_to_tag location)
              (S.find-insert i.delete_set location)
              (without_tag-IsConsistent tag location started (started-IsConsistent i c) e))
    ]
  ]

  -- What the loop over distinct tags leaves: the tags that are not found, and the index.
  pub record AllDeleted (tags : List ℕ) (i : Index S V) (r : List ℕ × Index S V) : Type 0 where
    pub failing : (t : ℕ) → contains t r.0 ≡ contains t tags && not (has i.tag_to_location t)
    pub removed :
        (t : ℕ)
        → find r.1.tag_to_location t ≡ (if contains t tags then none else find i.tag_to_location t)
    pub marked :
        (t l : ℕ)
        → contains t tags ≡ true
        → find i.tag_to_location t ≡ some l
        → S.find r.1.delete_set l ≡ true
    pub still : (l : ℕ) → S.find i.delete_set l ≡ true → S.find r.1.delete_set l ≡ true
    pub only :
        (l : ℕ)
        → S.find r.1.delete_set l ≡ true
        → (S.find i.delete_set l ≡ true)
          ⊎ ((t : ℕ) × (contains t tags ≡ true) × (find i.tag_to_location t ≡ some l))
    pub consistent : IsConsistent S V r.1

  delete_tags-AllDeleted :
      (tags : List ℕ) (i : Index S V)
      → Distinct tags
      → IsConsistent S V i
      → AllDeleted tags i (delete_tags S V zero_vec tags i)
  unfolding delete_tags
  delete_tags-AllDeleted [] i d c = record {
    failing = λ t. refl;
    removed = λ t. refl;
    marked = λ t l h e. absurd (cc h);
    still = λ l h. h;
    only = λ l h. inl h;
    consistent = c;
  }
  delete_tags-AllDeleted (tag ∷ tags) i (fresh, d) c =
      elim (Option-cases (find i.tag_to_location tag)) [
        | inl e ↦
            let not_there : has i.tag_to_location tag ≡ false = rw (has, e) refl in
            let rest = delete_tags-AllDeleted tags i d c in
            let r = delete_tags S V zero_vec tags i in
            let result : delete_tags S V zero_vec (tag ∷ tags) i ≡ (tag ∷ r.0, r.1) =
              rw (delete_tags, not_there) refl in
            subst (AllDeleted (tag ∷ tags) i) (sym result) (record {
              failing = λ t. ground (arith, rest.failing t);
              removed = λ t. ground (arith, rest.removed t);
              marked = λ t l h q. elim (Bool-cases (t == tag)) [
                | inl same ↦
                    let z : t ≡ tag = ground arith in
                    absurd (cc (q, e, ap (find i.tag_to_location) z))
                | inr other ↦ rest.marked t l (ground arith) q
              ];
              still = rest.still;
              only = λ l h. elim (rest.only l h) [
                | inl old ↦ inl old
                | inr (t, there, q) ↦ inr (t, ground arith, q)
              ];
              consistent = rest.consistent;
            })
        | inr (location, e) ↦
            let there : has i.tag_to_location tag ≡ true = rw (has, e) refl in
            let less = find-erase i.tag_to_location tag in
            let after = without_tag tag location i in
            let rest =
              delete_tags-AllDeleted tags after d (without_tag-IsConsistent tag location i c e) in
            let result : delete_tags S V zero_vec (tag ∷ tags) i
                ≡ delete_tags S V zero_vec tags after =
              rw (delete_tags, there)
                (ap (delete_tags S V zero_vec tags) (delete_tag_eq tag location i e)) in
            subst (AllDeleted (tag ∷ tags) i) (sym result) (record {
              failing = λ t. ground (arith, rest.failing t, less t);
              removed = λ t. ground (arith, rest.removed t, less t);
              marked = λ t l h q. elim (Bool-cases (t == tag)) [
                | inl same ↦
                    let z : t ≡ tag = ground arith in
                    let w : some l ≡ some location = sym q ∙ ap (find i.tag_to_location) z ∙ e in
                    rest.still l (ground (arith, S.find-insert i.delete_set location l))
                | inr other ↦ rest.marked t l (ground arith) (ground (arith, less t))
              ];
              still = λ l h. rest.still l (ground (arith, S.find-insert i.delete_set location l));
              only = λ l h. elim (rest.only l h) [
                | inl old ↦ elim (Bool-cases (location == l)) [
                  | inl same ↦
                      let z : location ≡ l = ground arith in
                      inr (tag, ground (arith, ==_refl tag), e ∙ ap some z)
                  | inr other ↦ inl (ground (arith, S.find-insert i.delete_set location l))
                ]
                | inr (t, there, q) ↦ inr (t, ground arith, ground (arith, less t))
              ];
              consistent = rest.consistent;
            })
      ]

  -- `lazy_delete` of a set of tags on a consistent index, with an empty `failed_tags` and when no
  -- eager deletion is pending, returns 0. The failed tags are those of the set that no point has,
  -- none of the set is left in the index, every other tag keeps its location, the locations marked
  -- as deleted are those that were and those of the tags in the set, and the index is consistent
  -- again.
  pub lazy_delete_all_lem :
      (tags : S.Set) (i : Index S V)
      → IsConsistent S V i
      → (i.eager_done && not i.data_compacted) ≡ false
      → (failed : List ℕ) × (after : Index S V) × (lazy_delete_all S V zero_vec tags [] i
          ≡ (done, (failed, after)))
        × ((t : ℕ) → contains t failed ≡ S.find tags t && not (has i.tag_to_location t))
        × ((t : ℕ)
            → find after.tag_to_location t
              ≡ (if S.find tags t then none else find i.tag_to_location t))
        × ((l : ℕ)
            → (S.find after.delete_set l ≡ true) ↔ (
                (S.find i.delete_set l ≡ true)
                ⊎ ((t : ℕ) × (S.find tags t ≡ true) × (find i.tag_to_location t ≡ some l))))
        × IsConsistent S V after
  unfolding lazy_delete_all
  lazy_delete_all_lem tags i c free =
      let started = record i { lazy_done = true } in
      let same = S.contains-elements tags in
      let all =
        delete_tags-AllDeleted (S.elements tags) started (S.elements-Distinct tags)
          (started-IsConsistent i c) in
      let r = delete_tags S V zero_vec (S.elements tags) started in
      (
        r.0,
        r.1,
        rw (lazy_delete_all, free) refl,
        λ t. ground (arith, all.failing t, same t),
        λ t. ground (arith, all.removed t, same t),
        λ l. (
          λ h. elim (all.only l h) [
            | inl old ↦ inl old
            | inr (t, there, q) ↦ inr (t, sym (same t) ∙ there, q)
          ],
          λ h. elim h [
            | inl old ↦ all.still l old
            | inr (t, there, q) ↦ all.marked t l (same t ∙ there) q
          ],
        ),
        all.consistent,
      )
