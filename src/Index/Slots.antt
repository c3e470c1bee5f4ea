-- ===== src/Index/Slots.antt =====
-- src/index.cpp: the slots of the index in memory. Which locations `reserve_location` gives out.
use ccann.Prelude.{
  ℕ, zero, suc, ◌+◌, ◌^◌, ◌≤◌, ◌<◌, ◌≡◌, refl, sym, ◌∙◌, subst, inl, inr, true, false, ltb, leb,
  Option, none, some, List, [], ◌∷◌, length, get_or, ◌&&◌, ◌||◌, contains, Bool-cases, Option-cases,
  arith,
}
use ccann.RobinSet.{RobinSet, size}
use ccann.UnorderedMap.{find}
use ccann.Index.{Index, insert_slots, reserve_location, first_slot, to_unsigned, with_location}

module _ (S : RobinSet) (V : Type 0) where
  -- What the maps, the sets and the counters promise each other.
  pub record IsConsistent (i : Index S V) : Type 0 where
    pub located : (t l : ℕ) → find i.tag_to_location t ≡ some l → find i.location_to_tag l ≡ some t
    pub tagged : (l t : ℕ) → find i.location_to_tag l ≡ some t → find i.tag_to_location t ≡ some l
    pub alive : (l t : ℕ) → find i.location_to_tag l ≡ some t → S.find i.delete_set l ≡ false
    pub taken : (l t : ℕ) → find i.location_to_tag l ≡ some t → S.find i.empty_slots l ≡ false
    pub inside : (l t : ℕ) → find i.location_to_tag l ≡ some t → l < i.max_points
    pub packed : i.data_compacted ≡ true → (l t : ℕ) → find i.location_to_tag l ≡ some t → l < i.nd
    pub packed_deleted : i.data_compacted ≡ true → (l : ℕ) → S.find i.delete_set l ≡ true → l < i.nd
    pub packed_slots : i.data_compacted ≡ true → (l : ℕ) → S.find i.empty_slots l ≡ true → i.nd ≤ l
    pub slots : (l : ℕ) → S.find i.empty_slots l ≡ true → l < i.max_points
    pub counted : i.data_compacted ≡ false → size S i.empty_slots + i.nd ≡ i.max_points
    pub room : i.nd ≤ i.max_points
    pub small : i.max_points < 2 ^ 32
    pub enabled : i.enable_tags ≡ true

  first_slot-found :
      (zero_vec : V) (s : S.Set) → 0 < size S s → S.find s (first_slot S V zero_vec s) ≡ true
  first_slot-found zero_vec s h =
      sym (S.contains-elements s (first_slot S V zero_vec s)) ∙ head (S.elements s) h
    where
      head : (xs : List ℕ) → 0 < length xs → contains (get_or xs 0 0) xs ≡ true
      head [] h = elim h [ ]
      head (x ∷ xs) h = ground arith

  pub find-insert_slots :
      (zero_vec : V) (n : ℕ) (s : S.Set) (from l : ℕ)
      → S.find (insert_slots S V zero_vec s from n) l
        ≡ (S.find s l || (leb from l && ltb l (from + n)))
  unfolding insert_slots
  find-insert_slots zero_vec zero s from l = ground arith
  find-insert_slots zero_vec (suc n) s from l =
      ground
        (arith, find-insert_slots zero_vec n (S.insert s from) (from + 1) l, S.find-insert s from l)

  pub size-insert_slots :
      (zero_vec : V) (n : ℕ) (s : S.Set) (from : ℕ)
      → ((l : ℕ) → S.find s l ≡ true → l < from)
      → size S (insert_slots S V zero_vec s from n) ≡ size S s + n
  unfolding insert_slots
  size-insert_slots zero_vec zero s from h = omega arith
  size-insert_slots zero_vec (suc n) s from h =
      let fresh : S.find s from ≡ false = ground (arith, h from) in
      omega (
        arith,
        S.size-insert s from fresh,
        size-insert_slots zero_vec n (S.insert s from) (from + 1)
            (λ l k. ground (arith, h l, S.find-insert s from l)),
      )

  -- `reserve_location` gives out a location that no point has, that is not deleted any more and not
  -- free any more, and the index stays consistent; it finds none only when the index is full.
  pub data Reserved (zero_vec : V) (i : Index S V) : Option (ℕ × Index S V) → Type 0 where
    full : i.nd ≡ i.max_points → Reserved zero_vec i none
    free :
        (location : ℕ) (after : Index S V)
        → find i.location_to_tag location ≡ none
        → S.find after.delete_set location ≡ false
        → S.find after.empty_slots location ≡ false
        → location < after.max_points
        → (after.data_compacted ≡ true → location < after.nd)
        → after.tag_to_location ≡ i.tag_to_location
        → after.location_to_tag ≡ i.location_to_tag
        → IsConsistent after
        → Reserved zero_vec i (some (location, after))

  -- What a slot and the deleted points that are left must meet.
  record IsFree (i : Index S V) (location : ℕ) (deleted : S.Set) : Type 0 where
    untagged : find i.location_to_tag location ≡ none
    revived : S.find deleted location ≡ false
    fewer : (l : ℕ) → S.find deleted l ≡ true → S.find i.delete_set l ≡ true
    below : location < i.max_points
    next : i.data_compacted ≡ true → location ≡ i.nd
    listed : i.data_compacted ≡ false → S.find i.empty_slots location ≡ true

  IsFree-Reserved :
      (zero_vec : V) (i : Index S V) (location : ℕ) (deleted : S.Set)
      → IsConsistent i
      → i.nd < i.max_points
      → IsFree i location deleted
      → Reserved zero_vec i (some (location, with_location S V zero_vec location deleted i))
  IsFree-Reserved zero_vec i location deleted c less f =
      let erased = S.find-erase i.empty_slots location in
      free location _ f.untagged f.revived (ground (arith, erased location)) f.below
        (λ h. omega (arith, f.next h)) refl refl
        (record {
          located = c.located;
          tagged = c.tagged;
          alive = λ l t h. ground (arith, c.alive l t h, f.fewer l);
          taken = λ l t h. ground (arith, c.taken l t h, erased l);
          inside = c.inside;
          packed = λ h l t e. omega (arith, c.packed h l t e);
          packed_deleted = λ h l e. omega (arith, c.packed_deleted h l (f.fewer l e));
          packed_slots = λ h l e. ground (arith, c.packed_slots h l, f.next h, erased l);
          slots = λ l h. ground (arith, c.slots l, erased l);
          counted =
              λ h. omega (arith, c.counted h, S.size-erase i.empty_slots location (f.listed h));
          room = omega arith;
          small = c.small;
          enabled = c.enabled;
        })

  pub reserve_location-Reserved :
      (zero_vec : V) (i : Index S V)
      → IsConsistent i
      → Reserved zero_vec i (reserve_location S V zero_vec i)
  unfolding reserve_location
  reserve_location-Reserved zero_vec i c = elim (Bool-cases (leb i.max_points i.nd)) [
    | inl no_room ↦ rw (reserve_location, no_room) (full (ground (arith, c.room)))
    | inr some_room ↦
        let less : i.nd < i.max_points = ground arith in
        elim (Bool-cases i.data_compacted) [
          | inl compact ↦
              let next : to_unsigned i.nd ≡ i.nd = omega (arith, c.small) in
              subst (Reserved zero_vec i) (sym (rw (reserve_location, some_room, compact) refl)) (
                IsFree-Reserved zero_vec i (to_unsigned i.nd) i.delete_set c less (record {
                  untagged = elim (Option-cases (find i.location_to_tag (to_unsigned i.nd))) [
                    | inl e ↦ e
                    | inr (t, e) ↦ absurd (omega (arith, c.packed compact _ t e))
                  ];
                  revived = elim (Bool-cases (S.find i.delete_set (to_unsigned i.nd))) [
                    | inl e ↦ absurd (omega (arith, c.packed_deleted compact _ e))
                    | inr e ↦ e
                  ];
                  fewer = λ l h. h;
                  below = omega arith;
                  next = λ h. next;
                  listed = λ h. absurd (cc (h, compact));
                }))
          | inr sparse ↦
              let location = first_slot S V zero_vec i.empty_slots in
              let found =
                first_slot-found zero_vec i.empty_slots (omega (arith, c.counted sparse)) in
              subst (Reserved zero_vec i) (sym (rw (reserve_location, some_room, sparse) refl)) (
                IsFree-Reserved zero_vec i location (S.erase i.delete_set location) c less (record {
                  untagged = elim (Option-cases (find i.location_to_tag location)) [
                    | inl e ↦ e
                    | inr (t, e) ↦ absurd (cc (c.taken location t e, found))
                  ];
                  revived = ground (arith, S.find-erase i.delete_set location location);
                  fewer = λ l h. ground (arith, S.find-erase i.delete_set location l);
                  below = c.slots location found;
                  next = λ h. absurd (cc (h, sparse));
                  listed = λ h. found;
                }))
        ]
  ]
