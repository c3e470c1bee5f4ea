-- ===== src/Index/Live.antt =====
-- src/index.cpp: the searches by tag return live tags only, and no more than were asked for.
use ccann.Prelude.{
  ℕ, suc, ◌+◌, ◌≤◌, ◌<◌, ◌≡◌, refl, ap, ◌∙◌, inl, inr, false, ◌==◌, Option, some, List, [], ◌∷◌,
  ◌++◌, length, All, Bool-cases, Option-cases, arith, length-append,
}
use ccann.Floats.{Floats}
use ccann.RobinSet.{RobinSet}
use ccann.UnorderedMap.{find}
use ccann.Neighbor.{Neighbor}
use ccann.Index.{Index}
use ccann.Index.Slots.{IsConsistent}
use ccann.Index.Walk.{finished}
use ccann.Index.Loop.{HasValidLinks, enough}
use ccann.Index.FixedPoint.{iterate_to_fixed_point-finished}
use ccann.Index.Query.{collect, Result, search_tags, tagged_result}

module _ (S : RobinSet) (F : Floats) (V : Type 0) (compare : V → V → F.Float) where
  -- A result whose tag a point of the index has.
  abbrev pub IsLive : Index S V → Result S F V compare → Type 0
  IsLive i r = (location : ℕ) × (find i.tag_to_location r.0 ≡ some location)

  collect-length :
      {A : Type 0} (f : A → Option (Result S F V compare)) (k : ℕ)
      (out : List (Result S F V compare)) (xs : List A)
      → length out < k
      → length (collect f k out xs) ≤ k
  collect-length f k out [] h = omega arith
  collect-length f k out (x ∷ xs) h = elim (Option-cases (f x)) [
    | inl e ↦ ground (arith, collect-length f k out xs h)
    | inr (y, e) ↦
        ground (arith, collect-length f k (out ++ (y ∷ [])) xs, length-append out (y ∷ []))
  ]

  All-append :
      (P : Result S F V compare → Type 0) (xs : List (Result S F V compare))
      (y : Result S F V compare)
      → All P xs
      → P y
      → All P (xs ++ (y ∷ []))
  All-append P [] y h e = (e, tt)
  All-append P (x ∷ xs) y (p, h) e = (p, All-append P xs y h e)

  collect-All :
      {A : Type 0} (P : Result S F V compare → Type 0) (f : A → Option (Result S F V compare))
      (k : ℕ) (out : List (Result S F V compare)) (xs : List A)
      → ((x : A) (r : Result S F V compare) → f x ≡ some r → P r)
      → All P out
      → All P (collect f k out xs)
  collect-All P f k out [] g h = h
  collect-All P f k out (x ∷ xs) g h = elim (Option-cases (f x)) [
    | inl e ↦ elim (Bool-cases (length out == k)) [
      | inl full ↦ rw (e, full) h
      | inr more ↦ rw (e, more) (collect-All P f k out xs g h)
    ]
    | inr (y, e) ↦
        let kept = All-append P out y h (g x y e) in
        elim (Bool-cases (length (out ++ (y ∷ [])) == k)) [
          | inl full ↦ rw (e, full) kept
          | inr more ↦ rw (e, more) (collect-All P f k (out ++ (y ∷ [])) xs g kept)
        ]
  ]

  tagged-IsLive :
      (i : Index S V)
      → IsConsistent S V i
      → (x : Neighbor F) (r : Result S F V compare) → tagged_result S F V compare i x ≡ some r
      → IsLive i r
  tagged-IsLive i c x r h = elim (Option-cases (find i.location_to_tag x.id)) [
    | inl e ↦ absurd (ground arith)
    | inr (tag, e) ↦
        let now : tagged_result S F V compare i x ≡ some (tag, x.distance) =
          rw (tagged_result, e) refl in
        let same : r.0 ≡ tag = ground arith in
        (x.id, ap (find i.tag_to_location) same ∙ c.tagged x.id tag e)
  ]

  -- On a consistent index whose links and start node are ids of points or of the frozen point, with a
  -- row for each such id, and for K and L of at least 1, `search` for tags ends within the given
  -- rounds, without a crash or an assert that fails, and returns at most K results, each with a tag that a
  -- point of the index has, so none of a point that was deleted.
  pub search_tags-IsLive :
      (i : Index S V) (query : V) (k l fuel : ℕ)
      → IsConsistent S V i
      → HasValidLinks S F V compare i query l
      → i.ep < i.max_points + i.num_frozen_pts
      → length i.final_graph ≡ i.max_points + i.num_frozen_pts
      → 1 ≤ k
      → 1 ≤ l
      → enough S F V compare i query l (i.max_points + i.num_frozen_pts + suc l) l ≤ fuel
      → (results : List (Result S F V compare)) × (search_tags S F V compare i query k l fuel
          ≡ finished results)
        × (length results ≤ k)
        × All (IsLive i) results
  unfolding search_tags
  search_tags-IsLive i query k l fuel c v inside rows some_k some_l h =
      let (w, e, q) =
        iterate_to_fixed_point-finished S F V compare i query l (i.ep ∷ []) false fuel some_l v
          (inside, tt) rows h in
      let results = collect (tagged_result S F V compare i) k [] w.best in
      (
        results,
        rw (search_tags, e) refl,
        collect-length (tagged_result S F V compare i) k [] w.best some_k,
        collect-All (IsLive i) (tagged_result S F V compare i) k [] w.best (tagged-IsLive i c) tt,
      )
