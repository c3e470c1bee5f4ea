-- ===== src/Index/Consolidate.antt =====
-- src/index.cpp: consolidate_deletes, which takes the links to deleted points out of the graph.
use ccann.Prelude.{
  ℕ, zero, suc, ◌+◌, Bool, true, false, not, ◌==◌, if◌then◌else◌, List, [], ◌∷◌, ◌&&◌, ◌||◌,
}
use ccann.Floats.{Floats}
use ccann.RobinSet.{RobinSet, size}
use ccann.Neighbor.{Neighbor}
use ccann.Occlude.{push_back, sort_pool, occlude_list}
use ccann.Index.{Index, row, sub_size}
use ccann.Index.Graph.{Parameters, dist, with_row}

module _ (S : RobinSet) (F : Floats) (V : Type 0) (compare : V → V → F.Float) (fuel : ℕ)
    (params : Parameters F) where
  -- The links of a deleted neighbour that are not deleted, added to the candidates.
  unfoldable pub add_alive : S.Set → List ℕ → S.Set → S.Set
  add_alive deleted [] candidate_set = candidate_set
  add_alive deleted (j ∷ links) candidate_set =
      add_alive deleted links (if S.find deleted j then candidate_set else S.insert candidate_set j)

  -- The loop over the links of a node: whether one is deleted, and the candidates.
  unfoldable pub expand_links : S.Set → List (List ℕ) → List ℕ → Bool × S.Set → Bool × S.Set
  unfolding add_alive
  expand_links deleted graph [] state = state
  expand_links deleted graph (ngh ∷ links) (modify, candidate_set) =
      expand_links deleted graph links (
        if S.find deleted ngh
        then (true, add_alive deleted (row graph ngh) candidate_set)
        else (modify, S.insert candidate_set ngh))

  abbrev pub as_candidates : Index S V → ℕ → List ℕ → List (Neighbor F)
  as_candidates i node [] = []
  as_candidates i node (j ∷ ids) =
      record {
        id = j;
        distance = dist S F V compare fuel params i node j;
        flag = true;
        visited = false;
      }
      ∷ as_candidates i node ids

  -- `if (j.id != i && (_delete_set.find(j.id) == _delete_set.end()))`
  unfoldable pub alive_ids : S.Set → ℕ → List (Neighbor F) → List ℕ
  alive_ids deleted node [] = []
  alive_ids deleted node (p ∷ result) =
      let rest = alive_ids deleted node result in
      if not (p.id == node) && not (S.find deleted p.id) then p.id ∷ rest else rest

  -- One node that is neither deleted nor an empty slot.
  unfoldable pub consolidate_node : ℕ → Index S V → Index S V
  unfolding expand_links alive_ids
  consolidate_node node i =
      let (modify, candidate_set) =
        expand_links i.delete_set i.final_graph (row i.final_graph node) (false, S.empty) in
      let expanded = sort_pool F (as_candidates i node (S.elements candidate_set)) in
      let result =
        occlude_list F (dist S F V compare fuel params i) (push_back F) params.alpha params.range
          params.maxc fuel expanded in
      if modify
      then with_row S F V compare fuel params node (alive_ids i.delete_set node result) i
      else i

  -- The loop over the first n nodes; the blocks of nodes run in their order here.
  unfoldable pub consolidate_nodes : ℕ → Index S V → Index S V
  unfolding consolidate_node
  consolidate_nodes zero i = i
  consolidate_nodes (suc n) i =
      let before = consolidate_nodes n i in
      if S.find i.delete_set n || S.find i.empty_slots n then before else consolidate_node n before

  abbrev insert_all : List ℕ → S.Set → S.Set
  insert_all [] slots = slots
  insert_all (x ∷ xs) slots = insert_all xs (S.insert slots x)

  -- The number of points that are left, and the index; `assert` is off.
  unfoldable pub consolidate_deletes : Index S V → ℕ × Index S V
  unfolding consolidate_nodes
  consolidate_deletes i =
      let walked = consolidate_nodes (i.max_points + i.num_frozen_pts) i in
      let left = sub_size i.nd (size S i.delete_set) in
      if i.eager_done then (0, i) else (
        left,
        record walked {
          empty_slots = insert_all (S.elements i.delete_set) i.empty_slots;
          nd = left;
          data_compacted = size S i.delete_set == 0;
        },
      )
