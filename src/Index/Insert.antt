-- ===== src/Index/Insert.antt =====
-- src/index.cpp: an insertion from its point to its links, and the construction of a graph.
use ccann.Prelude.{
  ℕ, zero, suc, ◌+◌, Bool, true, not, ltb, ◌==◌, if◌then◌else◌, Option, none, some, List, [], ◌∷◌,
  length, ◌&&◌, ◌||◌,
}
use ccann.Floats.{Floats}
use ccann.RobinSet.{RobinSet}
use ccann.UnorderedMap.{assign}
use ccann.Neighbor.{Neighbor}
use ccann.Index.{Index, write_at, to_unsigned}
use ccann.Index.Tags.{place_point}
use ccann.Index.Graph.{Parameters, prune_neighbors, with_row, inter_insert, clean_up}
use ccann.Index.Walk.{Walk, Outcome, finished, crashed, out_of_fuel, get_expanded_nodes}

-- What follows a step that may crash.
abbrev pub or_crash {ℓ} : {A : Type ℓ} → Option A → Outcome A
or_crash none = crashed
or_crash (some a) = finished a

abbrev pub and_then {ℓ κ} : {A : Type ℓ} {B : Type κ} → Outcome A → (A → Outcome B) → Outcome B
and_then (finished a) f = f a
and_then crashed f = crashed
and_then out_of_fuel f = out_of_fuel

module _ (S : RobinSet) (F : Floats) (V : Type 0) (zero_vec : V) (compare : V → V → F.Float)
    (fuel : ℕ) (params : Parameters F) where
  -- The loop of `insert_point` that takes its own location out of the pool: the first entry only.
  unfoldable pub erase_first : ℕ → List (Neighbor F) → List (Neighbor F)
  erase_first location [] = []
  erase_first location (p ∷ pool) =
      let rest = erase_first location pool in if p.id == location then pool else p ∷ rest

  -- The loop of `link` that takes a node out of its pool: every entry.
  unfoldable pub erase_all : ℕ → List (Neighbor F) → List (Neighbor F)
  erase_all node [] = []
  erase_all node (p ∷ pool) =
      let rest = erase_all node pool in if p.id == node then rest else p ∷ rest

  -- From a pool to the links of a node and the links back to it. The assert of `insert_point` that
  -- there are links is met where the one in `inter_insert` is.
  unfoldable pub connect : ℕ → List (Neighbor F) → Index S V → Outcome (Index S V)
  unfolding prune_neighbors inter_insert
  connect location pool i =
      and_then (or_crash (prune_neighbors S F V compare fuel params location pool i))
        (λ (r : List ℕ × Index S V). or_crash (
          inter_insert S F V compare fuel params location r.0
            (with_row S F V compare fuel params location r.0 r.1)))

  -- The assert on the size of the graph stands behind the pruning, which leaves that size.
  unfoldable pub insert_point : V → ℕ → Index S V → Outcome (Index S V)
  unfolding place_point get_expanded_nodes erase_first connect
  insert_point point tag i =
      and_then (or_crash (place_point S V zero_vec point tag i)) (λ (placed : ℕ × Index S V).
        and_then (get_expanded_nodes S F V compare placed.1 placed.0 params.l_index [] fuel)
          (λ (w : Walk S F).
            let i' = placed.1 in
            let connected = connect placed.0 (erase_first placed.0 w.expanded_nodes_info) i' in
            if length i'.final_graph == i'.max_points + i'.num_frozen_pts
            then connected
            else crashed))

  -- One node of the first pass of `link`.
  unfoldable pub link_node : ℕ → Index S V → Outcome (Index S V)
  unfolding get_expanded_nodes erase_all connect
  link_node node i =
      and_then (get_expanded_nodes S F V compare i node params.l_index (i.ep ∷ []) fuel)
        (λ (w : Walk S F). connect node (erase_all node w.expanded_nodes_info) i)

  -- The first n nodes, in their order.
  unfoldable pub link_nodes : ℕ → Index S V → Outcome (Index S V)
  unfolding link_node
  link_nodes zero i = finished i
  link_nodes (suc n) i = and_then (link_nodes n i) (link_node n)

  -- `link` as one thread runs it; `entry_point` stands for `calculate_entry_point`.
  unfoldable pub link : (Index S V → ℕ) → Bool → Index S V → Outcome (Index S V)
  unfolding link_nodes clean_up
  link entry_point saturate i =
      let n = i.nd + i.num_frozen_pts in
      let ep : ℕ = if ltb 0 i.num_frozen_pts then to_unsigned i.max_points else entry_point i in
      and_then (link_nodes n (record i { saturate_graph = saturate; ep = ep }))
        (λ (linked : Index S V). or_crash (clean_up S F V compare fuel params n linked))

  unfoldable pub generate_frozen_point : (Index S V → ℕ) → Index S V → ℕ × Index S V
  generate_frozen_point entry_point i =
      let copied = record i {
        data_at = write_at i.data_at i.max_points (i.data_at (entry_point i));
      } in
      if i.num_frozen_pts == 0
      then (0, i)
      else if i.nd == 0
      then (1, record i { data_at = write_at i.data_at i.max_points zero_vec })
      else (0, copied)

  -- The tags of the points 0, 1, ...
  abbrev enter_tags : ℕ → List ℕ → Index S V → Index S V
  enter_tags at [] i = i
  enter_tags at (tag ∷ tags) i = enter_tags (at + 1) tags (record i {
    tag_to_location = assign i.tag_to_location tag at;
    location_to_tag = assign i.location_to_tag at tag;
  })

  -- The greatest out-degree of the first n rows.
  abbrev max_degree : List (List ℕ) → ℕ → ℕ
  max_degree graph zero = 0
  max_degree [] (suc n) = 0
  max_degree (r ∷ graph) (suc n) =
      let rest = max_degree graph n in if ltb rest (length r) then length r else rest

  -- A data file: whether it is there, its vectors, and their dimension.
  pub record DataFile : Type 0 where
    pub exists : Bool
    pub num_points : ℕ
    pub vectors : ℕ → V
    pub same_dim : Bool

  abbrev cannot_load : DataFile → ℕ → ℕ → List ℕ → Bool → Bool
  cannot_load file max_points to_load tags enable_tags =
      not file.exists
      || (ltb max_points file.num_points || ltb file.num_points to_load)
      || (not file.same_dim || (enable_tags && not (length tags == to_load)))

  abbrev loaded : DataFile → ℕ → List ℕ → Index S V → Index S V
  loaded file to_load tags i =
      let filled = record i {
        data_at = λ j. if ltb j file.num_points then file.vectors j else i.data_at j;
        nd = to_load;
      } in
      if i.enable_tags then enter_tags 0 tags filled else filled

  -- `build` with a list of tags.
  unfoldable pub build :
      (Index S V → ℕ) → Bool → DataFile → ℕ → List ℕ → Index S V → Outcome (Index S V)
  unfolding generate_frozen_point link
  build entry_point saturate file to_load tags i =
      let ready = (generate_frozen_point entry_point (loaded file to_load tags i)).1 in
      if cannot_load file i.max_points to_load tags i.enable_tags
      then crashed
      else and_then (link entry_point saturate ready) (λ (linked : Index S V).
        finished (record linked {
          width =
              let widest = max_degree linked.final_graph linked.nd in
              if ltb widest linked.width then linked.width else widest;
          has_built = true;
        }))
