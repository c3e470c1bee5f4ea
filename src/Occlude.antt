-- ===== src/Occlude.antt =====
-- src/index.cpp and src/utils/prune_neighbors.cpp: the choice of a node's neighbours among candidates, by occlusion.
-- The index on disk and the index in memory differ in the container of the result (`add`) and in the
-- distance between two candidates (`dist`).
pub mod Bounds
use ccann.Prelude.{
  ℕ, zero, suc, ◌+◌, ◌-◌, ◌*◌, ◌/◌, ◌%◌, ◌^◌, ◌≤◌, ◌<◌, ◌≡◌, ◌≢◌, ◌↔◌, refl, sym, ap, ◌∙◌, subst,
  ◌⊎◌, inl, inr, Bool, true, false, not, ltb, leb, ◌==◌, if◌then◌else◌, Option, none, some, List,
  [], ◌∷◌, ◌++◌, length, get_or, get_elem?, set, map, take, drop, ◌&&◌, ◌||◌, All, contains,
  Distinct, count, Bool-cases, Option-cases, ==_refl, arith, length-append, length-set,
  contains-append, count-append, insert_at, erase_at,
}
use ccann.Floats.{Floats, flt, feq}
use ccann.Neighbor.{Neighbor, neighbor_lt}

module _ (F : Floats) where
  abbrev pub ids_of : List (Neighbor F) → List ℕ
  ids_of [] = []
  ids_of (p ∷ pool) = p.id ∷ ids_of pool

  -- A candidate with its entry of `occlude_factor`.
  abbrev pub Entry : Type 0
  Entry = Neighbor F × F.Float

  -- `std::max`
  abbrev pub fmax : F.Float → F.Float → F.Float
  fmax a b = if flt F a b then b else a

  -- `std::vector<float> occlude_factor(pool.size(), 0)`
  abbrev pub with_factors : List (Neighbor F) → List Entry
  with_factors [] = []
  with_factors (p ∷ pool) = (p, F.zero_float) ∷ with_factors pool

  -- `result.push_back(p)`
  abbrev pub push_back : Neighbor F → List (Neighbor F) → List (Neighbor F)
  push_back p [] = p ∷ []
  push_back p (q ∷ result) = q ∷ push_back p result

  -- `result_set.insert(p)` on a `std::set<Neighbor>`
  unfoldable pub set_insert : Neighbor F → List (Neighbor F) → List (Neighbor F)
  set_insert p [] = p ∷ []
  set_insert p (q ∷ result) =
      let rest = set_insert p result in
      if neighbor_lt F p q
      then p ∷ q ∷ result
      else if neighbor_lt F q p
      then q ∷ rest
      else q ∷ result

  -- `std::sort(pool.begin(), pool.end())`
  unfoldable pub sort_insert : Neighbor F → List (Neighbor F) → List (Neighbor F)
  sort_insert p [] = p ∷ []
  sort_insert p (q ∷ pool) =
      let rest = sort_insert p pool in if neighbor_lt F q p then q ∷ rest else p ∷ q ∷ pool

  unfoldable pub sort_pool : List (Neighbor F) → List (Neighbor F)
  unfolding sort_insert
  sort_pool [] = []
  sort_pool (p ∷ pool) = sort_insert p (sort_pool pool)

  module _ (dist : ℕ → ℕ → F.Float) (add : Neighbor F → List (Neighbor F) → List (Neighbor F))
      (alpha : F.Float) (degree maxc : ℕ) where
    -- The loop over t: the factors of the next n candidates, once `p` is chosen.
    unfoldable pub occlude_rest : Neighbor F → ℕ → List Entry → List Entry
    occlude_rest p zero entries = entries
    occlude_rest p (suc n) [] = []
    occlude_rest p (suc n) ((q, f) ∷ entries) =
        let raised = fmax f (F.div q.distance (dist q.id p.id)) in
        (q, (if flt F alpha f then f else raised)) ∷ occlude_rest p n entries

    -- The loop over `start`, on the candidates from there and the number of them below `maxc`.
    unfoldable pub occlude_round :
        F.Float → ℕ → List (Neighbor F) → List Entry → List (Neighbor F) × List Entry
    unfolding occlude_rest
    occlude_round cur_alpha zero result entries = (result, entries)
    occlude_round cur_alpha (suc n) result [] = (result, [])
    occlude_round cur_alpha (suc n) result ((p, f) ∷ entries) =
        let skip = flt F cur_alpha f in
        let next =
          occlude_round cur_alpha n (if skip then result else add p result)
            (if skip then entries else occlude_rest p n entries) in
        if leb degree (length result)
        then (result, (p, f) ∷ entries)
        else (next.0, (p, (if skip then f else F.max_float)) ∷ next.1)

    -- `while (cur_alpha <= alpha && result.size() < degree)`, on fuel.
    unfoldable pub occlude_rounds : ℕ → F.Float → List (Neighbor F) → List Entry → List (Neighbor F)
    unfolding occlude_round
    occlude_rounds zero cur_alpha result entries = result
    occlude_rounds (suc fuel) cur_alpha result entries =
        let (chosen, left) = occlude_round cur_alpha maxc result entries in
        let more = occlude_rounds fuel (F.mul cur_alpha F.growth) chosen left in
        if flt F alpha cur_alpha || leb degree (length result) then result else more

    -- `occlude_list` on an empty result and factors of 0.
    unfoldable pub occlude_list : ℕ → List (Neighbor F) → List (Neighbor F)
    unfolding occlude_rounds
    occlude_list fuel pool = occlude_rounds fuel F.one_float [] (with_factors pool)

  -- Candidates that are not chosen fill the list up: `for (i = 0; i < pool.size() &&
  -- pruned_list.size() < range; i++)`. `left_out` holds for the node itself.
  unfoldable pub saturate : (ℕ → Bool) → ℕ → List ℕ → List (Neighbor F) → List ℕ
  saturate left_out range pruned [] = pruned
  saturate left_out range pruned (p ∷ pool) =
      let skip = contains p.id pruned || left_out p.id in
      let rest = saturate left_out range (if skip then pruned else pruned ++ (p.id ∷ [])) pool in
      if leb range (length pruned) then pruned else rest
