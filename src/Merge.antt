-- ===== src/Merge.antt =====
-- src/update/delete_merge.cpp: merge_deletes, which writes a new graph without the deleted nodes.
pub mod FirstPass
pub mod Closed
pub mod Origin
pub mod Linked
use ccann.Prelude.{
  ℕ, zero, suc, ◌+◌, ◌-◌, ◌*◌, ◌/◌, ◌%◌, ◌^◌, ◌≤◌, ◌<◌, ◌≡◌, ◌≢◌, ◌↔◌, refl, sym, ap, ◌∙◌, subst,
  ◌⊎◌, inl, inr, Bool, true, false, not, ltb, leb, ◌==◌, if◌then◌else◌, Option, none, some, List,
  [], ◌∷◌, ◌++◌, length, get_or, get_elem?, set, map, take, drop, ◌&&◌, ◌||◌, All, contains,
  Distinct, count, Bool-cases, Option-cases, ==_refl, arith, length-append, length-set,
  contains-append, count-append, insert_at, erase_at,
}
use ccann.CuckooMap.{CuckooMap}
use ccann.RobinSet.{RobinSet}
use ccann.Floats.{Floats}
use ccann.Neighbor.{Neighbor}
use ccann.Occlude.{sort_pool}
use ccann.Prune.Whole.{prune_neighbors_pq}

-- A slot in use, as the scans over the file read it.
pub record DiskNode : Type 0 where
  pub id : ℕ
  pub nbrs : List ℕ

-- A node of the new graph.
pub record NewNode : Type 0 where
  pub new_id : ℕ
  pub old_id : ℕ
  pub tag : ℕ
  pub nbrs : List ℕ

-- `maps` is the map of ids, `nhoods` that of neighbourhoods; `std::unordered_set` has the calls of
-- the robin set. `id2tag` are the tags, `alpha`, `range`, `maxc` are fields of the index, and
-- `pq_dist` stands for `compute_pq_dists`.
module _ (maps : CuckooMap ℕ) (nhoods : CuckooMap (List ℕ)) (S : RobinSet) (F : Floats)
    (alpha : F.Float) (range maxc fuel : ℕ) (pq_dist : ℕ → ℕ → F.Float) (id2tag : ℕ → ℕ)
    (deleted_nodes_set : S.Set) where
  abbrev pub is_deleted : ℕ → Bool
  is_deleted id = S.find deleted_nodes_set (id2tag id)

  pub record Populated : Type 0 where
    pub id_map : maps.Map
    pub deleted_nhoods : nhoods.Map
    pub new_npoints : ℕ

  -- `nhood.push_back` of the neighbours that are alive.
  unfoldable pub alive_nbrs : List ℕ → List ℕ
  alive_nbrs [] = []
  alive_nbrs (nbr ∷ nbrs) =
      let rest = alive_nbrs nbrs in if is_deleted nbr then rest else nbr ∷ rest

  -- One slot of the first pass.
  unfoldable pub populate_node : ℕ → DiskNode → Populated → Populated
  unfolding alive_nbrs
  populate_node n_sampled_nbrs node p =
      if is_deleted node.id
      then record p {
        deleted_nhoods =
            nhoods.insert p.deleted_nhoods node.id (take n_sampled_nbrs (alive_nbrs node.nbrs));
      }
      else record p {
        id_map = maps.insert p.id_map node.id p.new_npoints;
        new_npoints = p.new_npoints + 1;
      }

  -- The first pass, in the order of the slots.
  unfoldable pub populate : ℕ → List DiskNode → Populated → Populated
  unfolding populate_node
  populate n_sampled_nbrs [] p = p
  populate n_sampled_nbrs (node ∷ nodes) p =
      populate n_sampled_nbrs nodes (populate_node n_sampled_nbrs node p)

  -- `nhood_set.insert(nhoods.begin(), nhoods.end())`
  abbrev pub insert_nbrs : List ℕ → S.Set → S.Set
  insert_nbrs [] s = s
  insert_nbrs (nbr ∷ nbrs) s = insert_nbrs nbrs (S.insert s nbr)

  -- The candidates of a node; none when `find` throws, on a deleted neighbour without an entry.
  unfoldable pub nhood_set : Populated → List ℕ → S.Set → Option S.Set
  nhood_set p [] s = some s
  nhood_set p (nbr ∷ nbrs) s =
      let alive = nhood_set p nbrs (S.insert s nbr) in
      if is_deleted nbr
      then elim (nhoods.find p.deleted_nhoods nbr) [
        | none ↦ none
        | some nhood ↦ nhood_set p nbrs (insert_nbrs nhood s)
      ]
      else alive

  abbrev pub as_pool : ℕ → List ℕ → List (Neighbor F)
  as_pool id [] = []
  as_pool id (nbr ∷ nbrs) =
      record { id = nbr; distance = pq_dist id nbr; flag = false; visited = false }
      ∷ as_pool id nbrs

  -- More candidates than `range` are pruned.
  unfoldable pub limit_nhood : ℕ → List ℕ → List ℕ
  unfolding prune_neighbors_pq
  limit_nhood id nhood =
      let pool = take maxc (sort_pool F (as_pool id nhood)) in
      if ltb range (length nhood)
      then prune_neighbors_pq F alpha range maxc fuel pq_dist pool []
      else nhood

  -- `nbr = id_map.find(nbr)` for every neighbour; none when `find` throws.
  unfoldable pub map_ids : maps.Map → List ℕ → Option (List ℕ)
  map_ids m [] = some []
  map_ids m (nbr ∷ nbrs) = elim (maps.find m nbr) [
    | none ↦ none
    | some new_id ↦ elim (map_ids m nbrs) [ none ↦ none | some rest ↦ some (new_id ∷ rest) ]
  ]

  -- One node of the second pass that is alive.
  unfoldable pub rebuild_node : Populated → DiskNode → Option NewNode
  unfolding nhood_set limit_nhood map_ids
  rebuild_node p node = elim (nhood_set p node.nbrs S.empty) [
    | none ↦ none
    | some s ↦ elim (map_ids p.id_map (limit_nhood node.id (S.elements (S.erase s node.id)))) [
      | none ↦ none
      | some nbrs ↦ elim (maps.find p.id_map node.id) [
        | none ↦ none
        | some new_id ↦
            some (record { new_id = new_id; old_id = node.id; tag = id2tag node.id; nbrs = nbrs })
      ]
    ]
  ]

  unfoldable pub rebuild : Populated → List DiskNode → Option (List NewNode)
  unfolding rebuild_node
  rebuild p [] = some []
  rebuild p (node ∷ nodes) =
      let later = rebuild p nodes in
      if is_deleted node.id then later else elim (rebuild_node p node) [
        | none ↦ none
        | some new ↦ elim later [ none ↦ none | some rest ↦ some (new ∷ rest) ]
      ]

  -- `while (... medoid is deleted) medoid = nhoods[0]`; none when `find` throws, for an entry
  -- without neighbours, and when the fuel is out.
  unfoldable pub live_medoid : ℕ → Populated → ℕ → Option ℕ
  live_medoid zero p medoid = none
  live_medoid (suc rounds) p medoid =
      if is_deleted medoid
      then elim (nhoods.find p.deleted_nhoods medoid) [
        | none ↦ none
        | some nhood ↦ elim nhood [ [] ↦ none | nbr ∷ nbrs ↦ live_medoid rounds p nbr ]
      ]
      else some medoid

  -- What the index has after the merge, and the new graph.
  pub record Merged : Type 0 where
    pub num_points : ℕ
    pub medoid : ℕ
    pub nodes : List NewNode

  unfoldable pub merge_deletes : ℕ → List DiskNode → ℕ → Option Merged
  unfolding populate rebuild live_medoid
  merge_deletes n_sampled_nbrs nodes medoid =
      let p =
        populate n_sampled_nbrs nodes
          (record { id_map = maps.empty; deleted_nhoods = nhoods.empty; new_npoints = 0 }) in
      elim (rebuild p nodes) [
        | none ↦ none
        | some new_nodes ↦ elim (live_medoid 2 p medoid) [
          | none ↦ none
          | some start ↦ elim (maps.find p.id_map start) [
            | none ↦ none
            | some new_medoid ↦
                some (record { num_points = p.new_npoints; medoid = new_medoid; nodes = new_nodes })
          ]
        ]
      ]
