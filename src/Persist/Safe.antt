-- ===== src/Persist/Safe.antt =====
-- What a crash during or after `insert_phase_pm` of src/update/direct_insert.cpp can leave.
use ccann.Prelude.{
  ℕ, ◌≡◌, refl, ◌∙◌, ap, Bool, true, false, ◌==◌, List, [], ◌∷◌, ◌++◌, length, contains, arith,
  subst, sym, ==_refl,
}
use ccann.Layout.{Geometry}
use ccann.Persist.{Cell, node_line, tag, loc_entry, Event, fence, Always, untouched}
use ccann.Persist.Order.{
  stores, leaves_flushed, stores-append, run-append, Ordered, ordered, durable-run,
}
use ccann.Persist.Insert.{
  Version, Insert, write_node, flush_node, persist_tag, write_loc, write_neighbours,
  flush_neighbours, target_phase, neighbour_phase, insert_phase_pm, write_queued,
}
use ccann.Persist.Soft.{
  ids, slots, Listed, is_one_of, stores-append3, leaves_flushed-before, leaves_flushed-after,
  leaves_flushed-write_back, covers, stores-write_node, stores-flush_node, stores-write_neighbours,
  stores-flush_neighbours, stores-write_neighbours-Listed, leaves_flushed-neighbours,
  stores-write_queued-node, stores-write_queued-tag, stores-write_queued-entry,
}

append_assoc : (es fs gs : List Event) → (es ++ fs) ++ gs ≡ es ++ (fs ++ gs)
append_assoc [] fs gs = refl
append_assoc (e ∷ es) fs gs = ap (λ l. e ∷ l) (append_assoc es fs gs)

no_node : (vs : List Version) (id : ℕ) → is_one_of vs (loc_entry id) ≡ false
no_node [] id = refl
no_node (v ∷ vs) id = no_node vs id

no_node-tag : (vs : List Version) (id : ℕ) → is_one_of vs (tag id) ≡ false
no_node-tag [] id = refl
no_node-tag (v ∷ vs) id = no_node-tag vs id

no_slot :
    (vs : List Version) (loc line : ℕ)
    → contains loc (slots vs) ≡ false
    → is_one_of vs (node_line loc line) ≡ false
no_slot [] loc line h = refl
no_slot (v ∷ vs) loc line h = ground (arith, no_slot vs loc line)

module _ (g : Geometry) (faddr : ℕ) (i : Insert) where
  abbrev pub nnbrs : ℕ
  nnbrs = length i.new_nhood

  -- The insert, and the writes of the entries that it queued.
  abbrev pub whole : List Event
  whole = insert_phase_pm g faddr i ++ write_queued g faddr i.new_nhood

  abbrev after_first : List Event
  after_first = (neighbour_phase g faddr i ++ (fence ∷ [])) ++ write_queued g faddr i.new_nhood

  stores-persist_tag :
      (b : Bool) (id : ℕ) → stores (loc_entry id) (persist_tag g faddr b i.target_id) ≡ false
  unfolding persist_tag
  stores-persist_tag true id = refl
  stores-persist_tag false id = refl

  -- The phases do not store to the entry of another id.
  stores-target_phase-entry : (id : ℕ) → stores (loc_entry id) (target_phase g faddr i) ≡ false
  unfolding target_phase persist_tag
  stores-target_phase-entry id =
      stores-append3 (loc_entry id) (write_node g faddr i.target_loc nnbrs)
        (flush_node g faddr i.target_loc nnbrs) (persist_tag g faddr i.enable_tags i.target_id)
        (stores-write_node g faddr i.target_loc nnbrs (loc_entry id) refl)
        (stores-flush_node g faddr i.target_loc nnbrs (loc_entry id))
        (stores-persist_tag i.enable_tags id)

  no_entry : (id : ℕ) → stores (loc_entry id) (target_phase g faddr i ++ (fence ∷ [])) ≡ false
  no_entry id = ground (
    arith,
    stores-target_phase-entry id,
    stores-append (loc_entry id) (target_phase g faddr i) (fence ∷ []),
  )

  stores-neighbour_phase :
      (id : ℕ)
      → (id == i.target_id) ≡ false
      → stores (loc_entry id) (neighbour_phase g faddr i) ≡ false
  unfolding neighbour_phase
  stores-neighbour_phase id other =
      stores-append3 (loc_entry id) (write_neighbours g faddr i.new_nhood)
        (write_loc g faddr i.target_id) (flush_neighbours g faddr i.new_nhood)
        (stores-write_neighbours g faddr i.new_nhood (loc_entry id) (no_node i.new_nhood id))
        (ground arith) (stores-flush_neighbours g faddr i.new_nhood (loc_entry id))

  stores-after_first :
      (c : Cell)
      → is_one_of i.new_nhood c ≡ false
      → stores c (write_loc g faddr i.target_id) ≡ false
      → stores c (write_queued g faddr i.new_nhood) ≡ false
      → stores c after_first ≡ false
  unfolding neighbour_phase
  stores-after_first c h k l =
      let n =
        stores-append3 c (write_neighbours g faddr i.new_nhood) (write_loc g faddr i.target_id)
          (flush_neighbours g faddr i.new_nhood) (stores-write_neighbours g faddr i.new_nhood c h) k
          (stores-flush_neighbours g faddr i.new_nhood c) in
      ground (
        arith,
        n,
        stores-append c (neighbour_phase g faddr i ++ (fence ∷ []))
            (write_queued g faddr i.new_nhood),
        stores-append c (neighbour_phase g faddr i) (fence ∷ []),
      )

  -- What the first fence makes durable comes before the target's entry.
  before_target :
      (b : Cell)
      → stores b (target_phase g faddr i) ≡ true
      → leaves_flushed b (target_phase g faddr i) ≡ true
      → stores b after_first ≡ false
      → Always (Ordered b (loc_entry i.target_id)) untouched whole
  unfolding insert_phase_pm
  before_target b st h k =
      subst (Always (Ordered b (loc_entry i.target_id)) untouched)
        (sym (
          append_assoc (target_phase g faddr i ++ (fence ∷ []))
            (neighbour_phase g faddr i ++ (fence ∷ [])) (write_queued g faddr i.new_nhood)))
        (ordered b (loc_entry i.target_id) (target_phase g faddr i ++ (fence ∷ [])) after_first
          untouched refl (no_entry i.target_id)
          (durable-run b (target_phase g faddr i) untouched st h) k)

  -- What the second fence makes durable comes before a neighbour's entry.
  before_neighbour :
      (b : Cell) (id : ℕ)
      → (id == i.target_id) ≡ false
      → stores b (neighbour_phase g faddr i) ≡ true
      → leaves_flushed b (neighbour_phase g faddr i) ≡ true
      → stores b (write_queued g faddr i.new_nhood) ≡ false
      → Always (Ordered b (loc_entry id)) untouched whole
  unfolding insert_phase_pm
  before_neighbour b id other st h k =
      ordered b (loc_entry id) (insert_phase_pm g faddr i) (write_queued g faddr i.new_nhood)
        untouched refl
        (ground (
          arith,
          no_entry id,
          stores-neighbour_phase id other,
          stores-append (loc_entry id) (target_phase g faddr i ++ (fence ∷ []))
              (neighbour_phase g faddr i ++ (fence ∷ [])),
          stores-append (loc_entry id) (neighbour_phase g faddr i) (fence ∷ []),
        ))
        (rw
          (run-append (target_phase g faddr i ++ (fence ∷ []))
            (neighbour_phase g faddr i ++ (fence ∷ [])) untouched)
          (durable-run b (neighbour_phase g faddr i) _ st h))
        k

  stores-persist_tag-node :
      (b : Bool) (line : ℕ)
      → stores (node_line i.target_loc line) (persist_tag g faddr b i.target_id) ≡ false
  unfolding persist_tag
  stores-persist_tag-node true line = refl
  stores-persist_tag-node false line = refl

  tag_flushed :
      (b : Bool)
      → b ≡ true
      → leaves_flushed (tag i.target_id) (persist_tag g faddr b i.target_id) ≡ true
  unfolding persist_tag
  tag_flushed true h = ground (arith, ==_refl i.target_id)
  tag_flushed false h = absurd (cc h)

  tag_stored :
      (b : Bool) → b ≡ true → stores (tag i.target_id) (persist_tag g faddr b i.target_id) ≡ true
  unfolding persist_tag
  tag_stored true h = ground (arith, ==_refl i.target_id)
  tag_stored false h = absurd (cc h)

  -- The first fence: the target's node and tag before its entry.
  pub node_first :
      (line : ℕ)
      → contains i.target_loc (slots i.new_nhood) ≡ false
      → stores (node_line i.target_loc line) (write_node g faddr i.target_loc nnbrs) ≡ true
      → covers g faddr i.target_loc nnbrs line ≡ true
      → Always (Ordered (node_line i.target_loc line) (loc_entry i.target_id)) untouched whole
  unfolding target_phase flush_node
  node_first line apart st h =
      let c = node_line i.target_loc line in
      before_target c
        (ground (
          arith,
          st,
          stores-append c (write_node g faddr i.target_loc nnbrs)
              (flush_node g faddr i.target_loc nnbrs),
          stores-append c
              (write_node g faddr i.target_loc nnbrs ++ flush_node g faddr i.target_loc nnbrs)
              (persist_tag g faddr i.enable_tags i.target_id),
        ))
        (leaves_flushed-before c
          (write_node g faddr i.target_loc nnbrs ++ flush_node g faddr i.target_loc nnbrs)
          (persist_tag g faddr i.enable_tags i.target_id)
          (leaves_flushed-after c (write_node g faddr i.target_loc nnbrs)
            (flush_node g faddr i.target_loc nnbrs)
            (leaves_flushed-write_back i.target_loc line _ h))
          (stores-persist_tag-node i.enable_tags line))
        (stores-after_first c (no_slot i.new_nhood i.target_loc line apart) refl
          (stores-write_queued-node g faddr i.new_nhood i.target_loc line))

  pub tag_first :
      i.enable_tags ≡ true
      → Always (Ordered (tag i.target_id) (loc_entry i.target_id)) untouched whole
  unfolding target_phase
  tag_first on =
      let c = tag i.target_id in
      before_target c
        (ground (
          arith,
          tag_stored i.enable_tags on,
          stores-append c
              (write_node g faddr i.target_loc nnbrs ++ flush_node g faddr i.target_loc nnbrs)
              (persist_tag g faddr i.enable_tags i.target_id),
        ))
        (leaves_flushed-after c
          (write_node g faddr i.target_loc nnbrs ++ flush_node g faddr i.target_loc nnbrs)
          (persist_tag g faddr i.enable_tags i.target_id) (tag_flushed i.enable_tags on))
        (stores-after_first c (no_node-tag i.new_nhood i.target_id) refl
          (stores-write_queued-tag g faddr i.new_nhood i.target_id))

  -- The second fence: a neighbour's new node and the target's entry before the neighbour's entry.
  pub neighbour_first :
      (v : Version) (line : ℕ)
      → (v.id == i.target_id) ≡ false
      → Listed v i.new_nhood
      → stores (node_line v.loc line) (write_node g faddr v.loc v.degree) ≡ true
      → covers g faddr v.loc v.degree line ≡ true
      → Always (Ordered (node_line v.loc line) (loc_entry v.id)) untouched whole
  unfolding neighbour_phase
  neighbour_first v line other m st h =
      let c = node_line v.loc line in
      before_neighbour c v.id other
        (ground (
          arith,
          stores-write_neighbours-Listed g faddr v i.new_nhood line m st,
          stores-append c (write_neighbours g faddr i.new_nhood) (write_loc g faddr i.target_id),
          stores-append c (write_neighbours g faddr i.new_nhood ++ write_loc g faddr i.target_id)
              (flush_neighbours g faddr i.new_nhood),
        ))
        (leaves_flushed-after c
          (write_neighbours g faddr i.new_nhood ++ write_loc g faddr i.target_id)
          (flush_neighbours g faddr i.new_nhood)
          (leaves_flushed-neighbours g faddr v i.new_nhood line m h))
        (stores-write_queued-node g faddr i.new_nhood v.loc line)

  pub entry_first :
      (v : Version)
      → (v.id == i.target_id) ≡ false
      → contains i.target_id (ids i.new_nhood) ≡ false
      → Always (Ordered (loc_entry i.target_id) (loc_entry v.id)) untouched whole
  unfolding neighbour_phase
  entry_first v other absent =
      let c = loc_entry i.target_id in
      before_neighbour c v.id other
        (ground (
          arith,
          ==_refl i.target_id,
          stores-append c (write_neighbours g faddr i.new_nhood) (write_loc g faddr i.target_id),
          stores-append c (write_neighbours g faddr i.new_nhood ++ write_loc g faddr i.target_id)
              (flush_neighbours g faddr i.new_nhood),
        ))
        (leaves_flushed-before c
          (write_neighbours g faddr i.new_nhood ++ write_loc g faddr i.target_id)
          (flush_neighbours g faddr i.new_nhood)
          (leaves_flushed-after c (write_neighbours g faddr i.new_nhood)
            (write_loc g faddr i.target_id) (ground (arith, ==_refl i.target_id)))
          (stores-flush_neighbours g faddr i.new_nhood c))
        (stores-write_queued-entry g faddr i.new_nhood i.target_id ∙ absent)
