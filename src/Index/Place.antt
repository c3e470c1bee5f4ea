-- ===== src/Index/Place.antt =====
-- src/index.cpp: a point that is inserted gets a location, with growth where there is none.
use ccann.Prelude.{
  ℕ, List, [], ◌∷◌, length, contains, ==_refl, if◌then◌else◌, ◌-◌, ◌^◌, ◌≤◌, ◌<◌, ◌≡◌, refl, sym,
  ap, ◌∙◌, subst, inl, inr, true, false, leb, ◌==◌, Option, none, some, ◌&&◌, Bool-cases,
  Option-cases, arith,
}
use ccann.RobinSet.{RobinSet, size}
use ccann.UnorderedMap.{find, has, find-erase, find-assign}
use ccann.Index.{Index, to_unsigned, reserve_location, resize, reposition_point}
use ccann.Index.Growth.{growth, growth-grows}
use ccann.Index.Slots.{
  IsConsistent, Reserved, full, free, reserve_location-Reserved, find-insert_slots,
  size-insert_slots,
}
use ccann.Index.Tags.{replace_tag, grow, slots_fit, reserve_or_grow, enter_point, place_point}
use ccann.Index.Delete.{without_tag, delete_tag_eq, without_tag-IsConsistent, started-IsConsistent}

module _ (S : RobinSet) (V : Type 0) (zero_vec : V) where
  resize-IsConsistent :
      (i : Index S V) (n : ℕ)
      → IsConsistent S V i
      → i.max_points ≤ i.nd
      → i.max_points < n
      → n < 2 ^ 32
      → IsConsistent S V (resize S V zero_vec n i)
  unfolding resize reposition_point
  resize-IsConsistent i n c no_room more fit =
      let added = find-insert_slots S V zero_vec (n - i.nd) i.empty_slots i.nd in
      record {
        located = c.located;
        tagged = c.tagged;
        alive = c.alive;
        taken = λ l t h. ground (arith, c.taken l t h, c.inside l t h, c.room, added l);
        inside = λ l t h. omega (arith, c.inside l t h);
        packed = c.packed;
        packed_deleted = c.packed_deleted;
        packed_slots = λ k l h. ground (arith, c.packed_slots k l, added l);
        slots = λ l h. ground (arith, c.slots l, added l, c.room);
        counted = λ k. omega (
          arith,
          c.counted k,
          c.room,
          size-insert_slots S V zero_vec (n - i.nd) i.empty_slots i.nd
              (λ l h. omega (arith, c.slots l h, c.room)),
        );
        room = omega (arith, c.room);
        small = fit;
        enabled = c.enabled;
      }

  -- A reserved location for an index that keeps the tags.
  record HasPlace (i : Index S V) (r : Option (ℕ × Index S V)) : Type 0 where
    location : ℕ
    after : Index S V
    returned : r ≡ some (location, after)
    unused : find i.location_to_tag location ≡ none
    alive : S.find after.delete_set location ≡ false
    taken : S.find after.empty_slots location ≡ false
    inside : location < after.max_points
    packed : after.data_compacted ≡ true → location < after.nd
    same_tags : after.tag_to_location ≡ i.tag_to_location
    same_locations : after.location_to_tag ≡ i.location_to_tag
    consistent : IsConsistent S V after

  Reserved-HasPlace :
      (i : Index S V) (r : Option (ℕ × Index S V))
      → Reserved S V zero_vec i r
      → i.nd < i.max_points
      → HasPlace i r
  Reserved-HasPlace i _ (full e) less = absurd (omega arith)
  Reserved-HasPlace i _ (free l after a b c d e f g h) less = record {
    location = l;
    after = after;
    returned = refl;
    unused = a;
    alive = b;
    taken = c;
    inside = d;
    packed = e;
    same_tags = f;
    same_locations = g;
    consistent = h;
  }

  reserve_location-full :
      (i : Index S V) → leb i.max_points i.nd ≡ true → reserve_location S V zero_vec i ≡ none
  unfolding reserve_location
  reserve_location-full i no_room = rw (reserve_location, no_room) refl

  before_resize :
      (n : ℕ) (i : Index S V) (r : Option (ℕ × Index S V))
      → HasPlace (resize S V zero_vec n i) r
      → HasPlace i r
  unfolding resize reposition_point
  before_resize n i r p = record {
    location = p.location;
    after = p.after;
    returned = p.returned;
    unused = p.unused;
    alive = p.alive;
    taken = p.taken;
    inside = p.inside;
    packed = p.packed;
    same_tags = p.same_tags;
    same_locations = p.same_locations;
    consistent = p.consistent;
  }

  resize-nd :
      (n : ℕ) (i : Index S V)
      → ((resize S V zero_vec n i).nd ≡ i.nd) × ((resize S V zero_vec n i).max_points ≡ n)
  unfolding resize reposition_point
  resize-nd n i = (refl, refl)

  no_slots : (s : S.Set) → ((l : ℕ) → S.find s l ≡ false) → size S s ≡ 0
  no_slots s h = none_listed (S.elements s) (λ l. S.contains-elements s l ∙ h l)
    where
      none_listed : (xs : List ℕ) → ((l : ℕ) → contains l xs ≡ false) → length xs ≡ 0
      none_listed [] k = refl
      none_listed (x ∷ xs) k = absurd (ground (arith, k x, ==_refl x))

  -- A full index has no free slot.
  full-size : (i : Index S V) → IsConsistent S V i → i.max_points ≤ i.nd → size S i.empty_slots ≡ 0
  full-size i c no_room = elim (Bool-cases i.data_compacted) [
    | inl compact ↦ no_slots i.empty_slots (λ l. elim (Bool-cases (S.find i.empty_slots l)) [
      | inl there ↦ absurd (omega (arith, c.packed_slots compact l there, c.slots l there))
      | inr absent ↦ absent
    ])
    | inr sparse ↦ omega (arith, c.counted sparse)
  ]

  slots_fit-true : (i : Index S V) → IsConsistent S V i → slots_fit S V zero_vec i ≡ true
  slots_fit-true i c = elim (Bool-cases i.data_compacted) [
    | inl compact ↦ ground (arith, compact)
    | inr sparse ↦ ground (arith, c.counted sparse)
  ]

  at_least : (a b : ℕ) → leb a b ≡ true → a ≤ b
  at_least a b h = ground arith

  below : (a b : ℕ) → leb a b ≡ false → b < a
  below a b h = ground arith

  grow-some :
      (i : Index S V)
      → leb i.max_points i.nd ≡ true
      → size S i.empty_slots ≡ 0
      → growth i.max_points < 2 ^ 32
      → grow S V zero_vec i ≡ some (resize S V zero_vec (growth i.max_points) i)
  unfolding grow
  grow-some i no_room no_free fit =
      let whole : to_unsigned (growth i.max_points) ≡ growth i.max_points = omega (arith, fit) in
      rw (grow, no_room, no_free) (ap (λ n. some (resize S V zero_vec n i)) whole)

  reserve_or_grow-HasPlace :
      (i : Index S V)
      → IsConsistent S V i
      → 2 ≤ i.max_points
      → growth i.max_points < 2 ^ 32
      → HasPlace i (reserve_or_grow S V zero_vec i)
  unfolding reserve_or_grow
  reserve_or_grow-HasPlace i c some_points fit =
      let asserted = slots_fit-true i c in
      elim (Bool-cases (leb i.max_points i.nd)) [
        | inl no_room ↦
            let is_full = at_least i.max_points i.nd no_room in
            let more = growth-grows i.max_points some_points in
            let larger = resize S V zero_vec (growth i.max_points) i in
            let d = resize-IsConsistent i (growth i.max_points) c is_full more fit in
            let counts = resize-nd (growth i.max_points) i in
            let p =
              Reserved-HasPlace larger _ (reserve_location-Reserved S V zero_vec larger d)
                (omega (arith, c.room, counts.0, counts.1, more)) in
            let grew = grow-some i no_room (full-size i c is_full) fit in
            let result : reserve_or_grow S V zero_vec i ≡ reserve_location S V zero_vec larger =
              rw (reserve_or_grow, asserted, reserve_location-full i no_room, grew)
                (ap (λ b. if b then reserve_location S V zero_vec larger else none)
                  (slots_fit-true larger d)) in
            subst (HasPlace i) (sym result) (before_resize (growth i.max_points) i _ p)
        | inr some_room ↦
            let p =
              Reserved-HasPlace i _ (reserve_location-Reserved S V zero_vec i c)
                (below i.max_points i.nd some_room) in
            let result : reserve_or_grow S V zero_vec i ≡ reserve_location S V zero_vec i =
              rw (reserve_or_grow, asserted, p.returned) refl in
            subst (HasPlace i) (sym result) p
      ]

  enter_point-IsConsistent :
      (tag location : ℕ) (point : V) (i : Index S V)
      → IsConsistent S V i
      → find i.tag_to_location tag ≡ none
      → find i.location_to_tag location ≡ none
      → S.find i.delete_set location ≡ false
      → S.find i.empty_slots location ≡ false
      → location < i.max_points
      → (i.data_compacted ≡ true → location < i.nd)
      → IsConsistent S V (enter_point S V zero_vec tag point location i)
  unfolding enter_point
  enter_point-IsConsistent tag location point i c no_tag no_loc alive taken inside packed =
      let tags = find-assign i.tag_to_location tag location in
      let locs = find-assign i.location_to_tag location tag in
      record {
        located = λ t l h. ground (arith, tags t, locs l, c.located t l);
        tagged = λ l t h. ground (arith, tags t, locs l, c.tagged l t);
        alive = λ l t h. ground (arith, locs l, c.alive l t);
        taken = λ l t h. ground (arith, locs l, c.taken l t);
        inside = λ l t h. ground (arith, locs l, c.inside l t);
        packed = λ k l t h. ground (arith, locs l, c.packed k l t, packed k);
        packed_deleted = c.packed_deleted;
        packed_slots = c.packed_slots;
        slots = c.slots;
        counted = c.counted;
        room = c.room;
        small = c.small;
        enabled = c.enabled;
      }

  -- The tag is free after `replace_tag`; other tags keep their locations.
  record TagFree (tag : ℕ) (i after : Index S V) : Type 0 where
    consistent : IsConsistent S V after
    no_tag : find after.tag_to_location tag ≡ none
    others : (t : ℕ) → (tag == t) ≡ false → find after.tag_to_location t ≡ find i.tag_to_location t
    points : after.max_points ≡ i.max_points

  replace_tag-TagFree :
      (tag : ℕ) (i : Index S V)
      → IsConsistent S V i
      → TagFree tag i (replace_tag S V zero_vec tag i)
  unfolding replace_tag
  replace_tag-TagFree tag i c = elim (Option-cases (find i.tag_to_location tag)) [
    | inl e ↦
        let not_there : has i.tag_to_location tag ≡ false = rw (has, e) refl in
        let neither : i.enable_tags && has i.tag_to_location tag ≡ false = ground arith in
        let result : replace_tag S V zero_vec tag i ≡ i = rw (replace_tag, neither) refl in
        subst (TagFree tag i) (sym result)
          (record { consistent = c; no_tag = e; others = λ t h. refl; points = refl })
    | inr (location, e) ↦
        let there : has i.tag_to_location tag ≡ true = rw (has, e) refl in
        let both : i.enable_tags && has i.tag_to_location tag ≡ true = ground (arith, c.enabled) in
        let started = record i { lazy_done = true } in
        let result : replace_tag S V zero_vec tag i
            ≡ without_tag S V zero_vec tag location started =
          rw (replace_tag, both) (delete_tag_eq S V zero_vec tag location started e) in
        let less = find-erase i.tag_to_location tag in
        subst (TagFree tag i) (sym result) (record {
          consistent =
              without_tag-IsConsistent S V zero_vec tag location started
                (started-IsConsistent S V zero_vec i c) e;
          no_tag = ground (arith, less tag);
          others = λ t h. ground (arith, less t);
          points = refl;
        })
  ]

  abbrev entered : V → ℕ → Option (ℕ × Index S V) → Option (ℕ × Index S V)
  entered point tag r = elim r [
    | none ↦ none
    | some (l, reserved) ↦ some (l, enter_point S V zero_vec tag point l reserved)
  ]

  -- From a reserved location to the point that stands there.
  enter-place :
      (point : V) (tag : ℕ) (i cleared : Index S V) (r : Option (ℕ × Index S V))
      → TagFree tag i cleared
      → HasPlace cleared r
      → (location : ℕ) × (after : Index S V) × (entered point tag r ≡ some (location, after))
        × (find after.tag_to_location tag ≡ some location)
        × (after.data_at location ≡ point)
        × ((t : ℕ) → (tag == t) ≡ false → find after.tag_to_location t ≡ find i.tag_to_location t)
        × IsConsistent S V after
  unfolding enter_point
  enter-place point tag i cleared r f p =
      let unused : find p.after.location_to_tag p.location ≡ none =
        ap (λ m. find m p.location) p.same_locations ∙ p.unused in
      let no_tag : find p.after.tag_to_location tag ≡ none =
        ap (λ m. find m tag) p.same_tags ∙ f.no_tag in
      (
        p.location,
        enter_point S V zero_vec tag point p.location p.after,
        rw (entered, p.returned) refl,
        ground (arith, find-assign p.after.tag_to_location tag p.location tag),
        ground arith,
        λ t h. ground (
          arith,
          find-assign p.after.tag_to_location tag p.location t,
          ap (λ m. find m t) p.same_tags,
          f.others t h,
        ),
        enter_point-IsConsistent tag p.location point p.after p.consistent no_tag unused p.alive
            p.taken p.inside p.packed,
      )

  -- On a consistent index of at least two places, whose size after growth stays below 2^32, an
  -- insertion does not end in `crash()` or in an assert of its allocation: the point gets a
  -- location, with growth if the index is full. The tag and the coordinates stand there, no other tag changes its location, a point that
  -- had the tag before is gone, and the index is consistent again.
  pub place_point_lem :
      (point : V) (tag : ℕ) (i : Index S V)
      → IsConsistent S V i
      → 2 ≤ i.max_points
      → growth i.max_points < 2 ^ 32
      → (location : ℕ) × (after : Index S V) × (place_point S V zero_vec point tag i
          ≡ some (location, after))
        × (find after.tag_to_location tag ≡ some location)
        × (after.data_at location ≡ point)
        × ((t : ℕ) → (tag == t) ≡ false → find after.tag_to_location t ≡ find i.tag_to_location t)
        × IsConsistent S V after
  unfolding place_point
  place_point_lem point tag i c some_points fit =
      let f = replace_tag-TagFree tag i c in
      let cleared = replace_tag S V zero_vec tag i in
      let points = f.points in
      enter-place point tag i cleared (reserve_or_grow S V zero_vec cleared) f
        (reserve_or_grow-HasPlace cleared f.consistent (rw points some_points) (rw points fit))
