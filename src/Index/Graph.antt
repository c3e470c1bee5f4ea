-- ===== src/Index/Graph.antt =====
-- src/index.cpp: how the index in memory chooses the links of a node and puts the links back to it.
use ccann.Prelude.{
  ℕ, zero, suc, ◌+◌, not, ◌*◌, ◌/◌, true, false, ltb, ◌==◌, if◌then◌else◌, Option, none, some, List,
  [], ◌∷◌, ◌++◌, length, set, ◌&&◌, ◌||◌, contains,
}
use ccann.Floats.{Floats, flt}
use ccann.RobinSet.{RobinSet}
use ccann.Neighbor.{Neighbor}
use ccann.Occlude.{push_back, sort_pool, occlude_list, saturate}
use ccann.Index.{Index, row}

-- The entries "R", "C", "L" and "alpha" of the parameters.
pub record Parameters (F : Floats) : Type 0 where
  pub range : ℕ
  pub maxc : ℕ
  pub l_index : ℕ
  pub alpha : F.Float

-- `compare` is the distance of two vectors; `fuel` bounds the rounds of the occlusion.
module _ (S : RobinSet) (F : Floats) (V : Type 0) (compare : V → V → F.Float) (fuel : ℕ)
    (params : Parameters F) where
  abbrev pub dist : Index S V → ℕ → ℕ → F.Float
  dist i a b = compare (i.data_at a) (i.data_at b)

  -- `if (iter.id != location) pruned_list.emplace_back(iter.id)`
  unfoldable pub other_ids : ℕ → List (Neighbor F) → List ℕ
  other_ids location [] = []
  other_ids location (p ∷ result) =
      let rest = other_ids location result in if p.id == location then rest else p.id ∷ rest

  abbrev pub max_width : ℕ → ℕ → ℕ
  max_width a b = if ltb a b then b else a

  -- none for `crash()`.
  unfoldable pub prune_neighbors : ℕ → List (Neighbor F) → Index S V → Option (List ℕ × Index S V)
  unfolding other_ids
  prune_neighbors location pool i =
      let sorted = sort_pool F pool in
      let result =
        occlude_list F (dist i) (push_back F) params.alpha params.range params.maxc fuel sorted in
      let pruned = other_ids location result in
      let filled : List ℕ =
        if i.saturate_graph && flt F F.one_float params.alpha
        then saturate F (λ k. k == location) params.range pruned sorted
        else pruned in
      if length pool == 0
      then none
      else some (filled, record i { width = max_width i.width params.range })

  -- `(_u64) (SLACK_FACTOR * range)`, with SLACK_FACTOR 1.3
  abbrev pub slack : ℕ
  slack = 13 * params.range / 10

  -- The candidates of `des` among a list of ids: each id once, and not `des`.
  unfoldable pub candidates : Index S V → ℕ → S.Set → List ℕ → List (Neighbor F)
  candidates i des visited [] = []
  candidates i des visited (nbr ∷ nbrs) =
      let skip = S.find visited nbr || (nbr == des) in
      let rest = candidates i des (if skip then visited else S.insert visited nbr) nbrs in
      if skip
      then rest
      else record { id = nbr; distance = dist i des nbr; flag = true; visited = false } ∷ rest

  abbrev pub with_row : ℕ → List ℕ → Index S V → Index S V
  with_row des links i = record i { final_graph = set i.final_graph des links }

  -- `new_out_neighbors` of `des`, pruned from the given links.
  unfoldable pub prune_row : ℕ → List ℕ → Index S V → Option (Index S V)
  unfolding candidates prune_neighbors
  prune_row des links i = elim (prune_neighbors des (candidates i des S.empty links) i) [
    | none ↦ none
    | some (pruned, after) ↦ some (with_row des pruned after)
  ]

  -- The link from `des` back to n.
  unfoldable pub link_back : ℕ → ℕ → Index S V → Option (Index S V)
  unfolding prune_row
  link_back n des i =
      let links = row i.final_graph des in
      let more = links ++ (n ∷ []) in
      if contains n links
      then some i
      else if ltb (length links) slack
      then some (with_row des more i)
      else prune_row des more i

  -- The loop of `inter_insert`; none also for its assert that a target is below the limit.
  unfoldable pub link_all_back : ℕ → ℕ → List ℕ → Index S V → Option (Index S V)
  unfolding link_back
  link_all_back limit n [] i = some i
  link_all_back limit n (des ∷ pruned_list) i =
      let linked : Option (Index S V) = elim (link_back n des i) [
        | none ↦ none
        | some after ↦ link_all_back limit n pruned_list after
      ] in
      if ltb des limit then linked else none

  -- none for `crash()` and for the asserts.
  unfoldable pub inter_insert : ℕ → List ℕ → Index S V → Option (Index S V)
  unfolding link_all_back
  inter_insert n pruned_list i =
      if ltb n (i.nd + i.num_frozen_pts) && not (length pruned_list == 0)
      then link_all_back (i.max_points + i.num_frozen_pts) n pruned_list i
      else none

  -- The last part of `link` for one node: a row that is longer than `range` is pruned.
  unfoldable pub clean_up_row : ℕ → Index S V → Option (Index S V)
  unfolding prune_row
  clean_up_row node i =
      let links = row i.final_graph node in
      if ltb params.range (length links) then prune_row node links i else some i

  -- The loop over the first n nodes.
  unfoldable pub clean_up : ℕ → Index S V → Option (Index S V)
  unfolding clean_up_row
  clean_up zero i = some i
  clean_up (suc n) i = elim (clean_up n i) [ none ↦ none | some after ↦ clean_up_row n after ]
