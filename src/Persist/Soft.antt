-- ===== src/Persist/Soft.antt =====
-- What a crash during or after `insert_phase_pm` can leave (src/update/direct_insert.cpp).
use ccann.Prelude.{
  ℕ, zero, suc, ◌+◌, ◌*◌, ◌≡◌, refl, Bool, true, false, ◌||◌, ◌==◌, List, [], ◌∷◌, ◌++◌, map,
  contains, arith, ◌⊎◌, subst, inl, inr,
}
use ccann.Layout.{Geometry, flush_dax, node_len, nbrs_address, offset_to_node_nhood}
use ccann.Persist.{Cell, node_line, tag, loc_entry, Event, write_back}
use ccann.Persist.Order.{stores, leaves_flushed, stores-append}
use ccann.Persist.Insert.{
  Version, store_lines, store_bytes, node_address, write_node, flush_node, write_neighbours,
  flush_neighbours, write_queued,
}

abbrev pub ids : List Version → List ℕ
ids [] = []
ids (v ∷ vs) = v.id ∷ ids vs

abbrev pub slots : List Version → List ℕ
slots [] = []
slots (v ∷ vs) = v.loc ∷ slots vs

abbrev pub Listed : Version → List Version → Type 0
Listed v [] = ⊥
Listed v (w ∷ ws) = (v ≡ w) ⊎ Listed v ws

abbrev pub is_node : ℕ → Cell → Bool
is_node loc (node_line l line) = loc == l
is_node loc c = false

abbrev pub is_one_of : List Version → Cell → Bool
is_one_of [] c = false
is_one_of (v ∷ vs) c = is_node v.loc c || is_one_of vs c

-- Which cells the parts of the insert store to.
stores-store_lines :
    (loc line n : ℕ) (c : Cell) → is_node loc c ≡ false → stores c (store_lines loc line n) ≡ false
stores-store_lines loc line zero c h = refl
stores-store_lines loc line (suc n) (node_line l k) h =
    ground (arith, stores-store_lines loc (line + 1) n (node_line l k) h)
stores-store_lines loc line (suc n) (tag j) h = stores-store_lines loc (line + 1) n (tag j) h
stores-store_lines loc line (suc n) (loc_entry j) h =
    stores-store_lines loc (line + 1) n (loc_entry j) h

stores-store_bytes :
    (loc p len : ℕ) (c : Cell) → is_node loc c ≡ false → stores c (store_bytes loc p len) ≡ false
unfolding store_bytes
stores-store_bytes loc p zero c h = refl
stores-store_bytes loc p (suc len) c h = stores-store_lines loc _ _ c h

pub stores-append3 :
    (c : Cell) (es fs gs : List Event)
    → stores c es ≡ false
    → stores c fs ≡ false
    → stores c gs ≡ false
    → stores c (es ++ fs ++ gs) ≡ false
stores-append3 c es fs gs h k l =
    ground (arith, stores-append c (es ++ fs) gs, stores-append c es fs)

stores-write_back : (c : Cell) (lines : List ℕ) → stores c (map write_back lines) ≡ false
stores-write_back c [] = refl
stores-write_back c (l ∷ lines) = stores-write_back c lines

pub leaves_flushed-before :
    (c : Cell) (es fs : List Event)
    → leaves_flushed c es ≡ true
    → stores c fs ≡ false
    → leaves_flushed c (es ++ fs) ≡ true
leaves_flushed-before c [] fs h k = absurd (cc h)
leaves_flushed-before c (e ∷ es) fs h k =
    ground (arith, stores-append c es fs, leaves_flushed-before c es fs)

pub leaves_flushed-after :
    (c : Cell) (es fs : List Event)
    → leaves_flushed c fs ≡ true
    → leaves_flushed c (es ++ fs) ≡ true
leaves_flushed-after c [] fs h = h
leaves_flushed-after c (e ∷ es) fs h = ground (arith, leaves_flushed-after c es fs)

pub leaves_flushed-write_back :
    (loc line : ℕ) (lines : List ℕ)
    → contains line lines ≡ true
    → leaves_flushed (node_line loc line) (map write_back lines) ≡ true
leaves_flushed-write_back loc line [] h = absurd (cc h)
leaves_flushed-write_back loc line (l ∷ lines) h =
    ground (
      arith,
      stores-write_back (node_line loc line) lines,
      leaves_flushed-write_back loc line lines,
    )

module _ (g : Geometry) (faddr : ℕ) where
  -- The lines of a node that `flush_dax` writes back.
  abbrev pub covers : ℕ → ℕ → ℕ → Bool
  covers loc nnbrs line = contains line (flush_dax (node_address g faddr loc) (node_len g nnbrs))

  pub stores-write_node :
      (loc nnbrs : ℕ) (c : Cell)
      → is_node loc c ≡ false
      → stores c (write_node g faddr loc nnbrs) ≡ false
  unfolding write_node
  stores-write_node loc nnbrs c h =
      stores-append3 c (store_bytes loc (offset_to_node_nhood g (node_address g faddr loc)) 4)
        (store_bytes loc (node_address g faddr loc) (g.data_dim * g.coord_size))
        (store_bytes loc (nbrs_address g (node_address g faddr loc)) (nnbrs * 4))
        (stores-store_bytes loc (offset_to_node_nhood g (node_address g faddr loc)) 4 c h)
        (stores-store_bytes loc (node_address g faddr loc) (g.data_dim * g.coord_size) c h)
        (stores-store_bytes loc (nbrs_address g (node_address g faddr loc)) (nnbrs * 4) c h)

  pub stores-flush_node :
      (loc nnbrs : ℕ) (c : Cell) → stores c (flush_node g faddr loc nnbrs) ≡ false
  unfolding flush_node
  stores-flush_node loc nnbrs c =
      stores-write_back c (flush_dax (node_address g faddr loc) (node_len g nnbrs))

  pub stores-write_neighbours :
      (vs : List Version) (c : Cell)
      → is_one_of vs c ≡ false
      → stores c (write_neighbours g faddr vs) ≡ false
  unfolding write_neighbours
  stores-write_neighbours [] c h = refl
  stores-write_neighbours (v ∷ vs) c h = ground (
    arith,
    stores-append c (write_node g faddr v.loc v.degree) (write_neighbours g faddr vs),
    stores-write_node v.loc v.degree c,
    stores-write_neighbours vs c,
  )

  pub stores-write_neighbours-Listed :
      (v : Version) (vs : List Version) (line : ℕ)
      → Listed v vs
      → stores (node_line v.loc line) (write_node g faddr v.loc v.degree) ≡ true
      → stores (node_line v.loc line) (write_neighbours g faddr vs) ≡ true
  unfolding write_neighbours
  stores-write_neighbours-Listed v [] line h k = absurd h
  stores-write_neighbours-Listed v (w ∷ vs) line (inl h) k =
      let c = node_line v.loc line in
      let here : stores c (write_node g faddr w.loc w.degree) ≡ true =
        subst (λ x. stores c (write_node g faddr x.loc x.degree) ≡ true) h k in
      ground (
        arith,
        here,
        stores-append c (write_node g faddr w.loc w.degree) (write_neighbours g faddr vs),
      )
  stores-write_neighbours-Listed v (w ∷ vs) line (inr h) k =
      let c = node_line v.loc line in
      let there = stores-write_neighbours-Listed v vs line h k in
      ground (
        arith,
        there,
        stores-append c (write_node g faddr w.loc w.degree) (write_neighbours g faddr vs),
      )

  pub stores-flush_neighbours :
      (vs : List Version) (c : Cell) → stores c (flush_neighbours g faddr vs) ≡ false
  unfolding flush_neighbours
  stores-flush_neighbours [] c = refl
  stores-flush_neighbours (v ∷ vs) c = ground (
    arith,
    stores-append c (flush_node g faddr v.loc v.degree) (flush_neighbours g faddr vs),
    stores-flush_node v.loc v.degree c,
    stores-flush_neighbours vs c,
  )

  pub leaves_flushed-neighbours :
      (v : Version) (vs : List Version) (line : ℕ)
      → Listed v vs
      → covers v.loc v.degree line ≡ true
      → leaves_flushed (node_line v.loc line) (flush_neighbours g faddr vs) ≡ true
  unfolding flush_neighbours flush_node
  leaves_flushed-neighbours v [] line h k = absurd h
  leaves_flushed-neighbours v (w ∷ vs) line (inl h) k =
      leaves_flushed-before (node_line v.loc line) (flush_node g faddr w.loc w.degree)
        (flush_neighbours g faddr vs)
        (subst
          (λ x. leaves_flushed (node_line v.loc line) (flush_node g faddr x.loc x.degree) ≡ true) h
          (leaves_flushed-write_back v.loc line _ k))
        (stores-flush_neighbours vs (node_line v.loc line))
  leaves_flushed-neighbours v (w ∷ vs) line (inr h) k =
      leaves_flushed-after (node_line v.loc line) (flush_node g faddr w.loc w.degree)
        (flush_neighbours g faddr vs) (leaves_flushed-neighbours v vs line h k)

  pub stores-write_queued-node :
      (vs : List Version) (loc line : ℕ)
      → stores (node_line loc line) (write_queued g faddr vs) ≡ false
  unfolding write_queued
  stores-write_queued-node [] loc line = refl
  stores-write_queued-node (v ∷ vs) loc line = stores-write_queued-node vs loc line

  pub stores-write_queued-tag :
      (vs : List Version) (i : ℕ) → stores (tag i) (write_queued g faddr vs) ≡ false
  unfolding write_queued
  stores-write_queued-tag [] i = refl
  stores-write_queued-tag (v ∷ vs) i = stores-write_queued-tag vs i

  pub stores-write_queued-entry :
      (vs : List Version) (i : ℕ)
      → stores (loc_entry i) (write_queued g faddr vs) ≡ contains i (ids vs)
  unfolding write_queued
  stores-write_queued-entry [] i = refl
  stores-write_queued-entry (v ∷ vs) i = ground (arith, stores-write_queued-entry vs i)
