-- ===== src/Index/Renumber.antt =====
-- src/index.cpp: the new locations that compact_data gives.
use ccann.Prelude.{
  ℕ, zero, suc, ◌≤◌, ◌<◌, ◌≡◌, refl, sym, ap, ◌∙◌, inl, inr, true, false, not, ltb, ◌==◌, ◌&&◌,
  ◌||◌, none, some, List, [], ◌∷◌, Bool-cases, Option-cases, arith,
}
use ccann.RobinSet.{RobinSet}
use ccann.UnorderedMap.{UnorderedMap, has}
use ccann.Index.{Index, row}
use ccann.Index.Compact.{tagged_below, new_location, replacement, replace_start, compact_data}

module _ (S : RobinSet) (V : Type 0) (zero_vec : V) where
  tagged_below_mono :
      (tags : UnorderedMap) (a b : ℕ)
      → a ≤ b
      → tagged_below S V zero_vec tags a ≤ tagged_below S V zero_vec tags b
  unfolding tagged_below
  tagged_below_mono tags a zero h = ground arith
  tagged_below_mono tags a (suc b) h = elim (Bool-cases (a == suc b)) [
    | inl last ↦
        let q : a ≡ suc b = ground arith in omega (arith, ap (tagged_below S V zero_vec tags) q)
    | inr less ↦ omega (arith, tagged_below_mono tags a b (ground arith))
  ]

  tagged_below_next :
      (tags : UnorderedMap) (a : ℕ)
      → has tags a ≡ true
      → tagged_below S V zero_vec tags (suc a) ≡ suc (tagged_below S V zero_vec tags a)
  unfolding tagged_below
  tagged_below_next tags a h = rw (tagged_below, h) (omega arith)

  tagged_below_bound : (tags : UnorderedMap) (a : ℕ) → tagged_below S V zero_vec tags a ≤ a
  unfolding tagged_below
  tagged_below_bound tags zero = omega arith
  tagged_below_bound tags (suc a) = ground (arith, tagged_below_bound tags a)

  tagged_below_onto :
      (tags : UnorderedMap) (n l : ℕ)
      → l < tagged_below S V zero_vec tags n
      → (old : ℕ) × (old < n) × (has tags old ≡ true) × (tagged_below S V zero_vec tags old ≡ l)
  unfolding tagged_below
  tagged_below_onto tags zero l h = absurd (omega arith)
  tagged_below_onto tags (suc n) l h =
      elim (Bool-cases (ltb l (tagged_below S V zero_vec tags n))) [
        | inl before ↦
            let (old, a, b, c) = tagged_below_onto tags n l (ground arith) in
            (old, omega arith, b, c)
        | inr last ↦ elim (Bool-cases (has tags n)) [
          | inl here ↦ (n, omega arith, here, ground arith)
          | inr not_here ↦ absurd (ground arith)
        ]
      ]

  new_location_eq :
      (i : Index S V) (l : ℕ)
      → has i.location_to_tag l ≡ true
      → new_location S V zero_vec i l ≡ tagged_below S V zero_vec i.location_to_tag l
  unfolding new_location
  new_location_eq i l h = rw (new_location, h) refl

  -- Where `compact_data` moves the points: no point with a tag moves up, two points with tags keep
  -- their order, so that no two get one location, and every location below the number of points
  -- with a tag (those below n) is that of a point.
  pub new_location-order :
      (i : Index S V) (n : ℕ)
      → ((a : ℕ) → has i.location_to_tag a ≡ true → new_location S V zero_vec i a ≤ a)
        × ((a b : ℕ)
            → has i.location_to_tag a ≡ true
            → has i.location_to_tag b ≡ true
            → a < b
            → new_location S V zero_vec i a < new_location S V zero_vec i b)
        × ((l : ℕ)
            → l < tagged_below S V zero_vec i.location_to_tag n
            → (old : ℕ) × (old < n)
              × (has i.location_to_tag old ≡ true)
              × (new_location S V zero_vec i old ≡ l))
  new_location-order i n = (
    λ a h. omega (arith, new_location_eq i a h, tagged_below_bound i.location_to_tag a),
    λ a b h k less. omega (
      arith,
      new_location_eq i a h,
      new_location_eq i b k,
      tagged_below_next i.location_to_tag a h,
      tagged_below_mono i.location_to_tag (suc a) b (omega arith),
    ),
    λ l h.
        let (old, a, b, c) = tagged_below_onto i.location_to_tag n l h in
        (old, a, b, new_location_eq i old b ∙ c),
  )

  replacement-deleted :
      (deleted : S.Set) (links : List ℕ) (x : ℕ)
      → replacement S V zero_vec deleted links ≡ some x
      → S.find deleted x ≡ true
  replacement-deleted deleted [] x h = absurd (cc h)
  replacement-deleted deleted (y ∷ links) x h = elim (Bool-cases (S.find deleted y)) [
    | inl e ↦ let q : y ≡ x = ground arith in ap (S.find deleted) (sym q) ∙ e
    | inr e ↦ replacement-deleted deleted links x (ground arith)
  ]

  replace_start-none :
      (i : Index S V) → S.find i.delete_set i.ep ≡ true → replace_start S V zero_vec i ≡ none
  unfolding replace_start
  replace_start-none i h =
      elim (Option-cases (replacement S V zero_vec i.delete_set (row i.final_graph i.ep))) [
        | inl absent ↦ rw (replace_start, h, absent) refl
        | inr (x, found) ↦
            let gone = replacement-deleted i.delete_set (row i.final_graph i.ep) x found in
            let either : (x == i.ep || S.find i.delete_set x) ≡ true = ground arith in
            rw (replace_start, h, found, either) refl
      ]

  -- Where there is something to compact and the start node is deleted, `compact_data` never
  -- returns, whatever the neighbours of the start node are: either it finds no replacement and
  -- crashes, or its own assert on the replacement fails.
  pub compact_data-deleted_start :
      (i : Index S V)
      → i.dynamic_index ≡ true
      → (i.lazy_done || i.eager_done) ≡ true
      → i.data_compacted ≡ false
      → S.find i.delete_set i.ep ≡ true
      → compact_data S V zero_vec i ≡ none
  unfolding compact_data
  compact_data-deleted_start i dynamic changed sparse h =
      let go : (not i.dynamic_index || (not i.lazy_done && not i.eager_done) || i.data_compacted)
          ≡ false =
        ground arith in
      rw (compact_data, go, replace_start-none i h) refl
