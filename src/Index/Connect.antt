-- ===== src/Index/Connect.antt =====
-- src/index.cpp: an inserted point gets its links, and the graph keeps its bounds.
use ccann.Prelude.{
  ℕ, ◌+◌, contains, false, ◌≤◌, ◌<◌, ◌≡◌, sym, ap, ◌∙◌, subst, true, List, [], length, set, count,
  arith, get_or-set,
}
use ccann.Floats.{Floats, flt}
use ccann.RobinSet.{RobinSet}
use ccann.Neighbor.{Neighbor}
use ccann.Occlude.{ids_of}
use ccann.Index.{Index, row}
use ccann.Index.Graph.{Parameters, max_width, with_row}
use ccann.Index.Degree.{Chosen, chosen_links, prune_neighbors_eq, chosen_links-Chosen}
use ccann.Index.Chosen.{CanChoose, chosen_links-some}
use ccann.Index.Links.{IsGraph, with_row-IsGraph, inter_insert-IsGraph}
use ccann.Index.Walk.{finished}
use ccann.Index.Insert.{or_crash, connect}

pub row-set-inside :
    (graph : List (List ℕ)) (i : ℕ) (links : List ℕ)
    → i < length graph
    → row (set graph i links) i ≡ links
row-set-inside graph i links h = ground (arith, get_or-set graph i links i [] h)

module _ (S : RobinSet) (F : Floats) (V : Type 0) (zero_vec : V) (compare : V → V → F.Float)
    (fuel : ℕ) (params : Parameters F) (below_max : flt F params.alpha F.max_float ≡ true) where
  -- With alpha between 1 and the largest float, at least one round, candidate and link, a node of the
  -- graph that is in use, and a pool of candidates that is not empty, has no id twice, not the node
  -- itself and only ids of rows of the graph: the node is connected without a crash, and the asserts
  -- on the way hold. Its row gets at least one and at most `range` links, each a candidate, none
  -- twice and none to itself, and every row of the graph still has at most 1.3 times `range` links,
  -- none twice and none to its own node.
  pub connect-IsGraph :
      (location : ℕ) (pool : List (Neighbor F)) (i : Index S V)
      → CanChoose S F V compare fuel params below_max
      → IsGraph S F V compare fuel params below_max i
      → length i.final_graph ≡ i.max_points + i.num_frozen_pts
      → location < length i.final_graph
      → location < i.nd + i.num_frozen_pts
      → ((k : ℕ) → count k (ids_of F pool) ≤ 1)
      → contains location (ids_of F pool) ≡ false
      → ((k : ℕ) → contains k (ids_of F pool) ≡ true → k < length i.final_graph)
      → 0 < length pool
      → (after : Index S V) × (connect S F V zero_vec compare fuel params location pool i
          ≡ finished after)
        × Chosen S F V compare fuel params below_max location
            (ids_of F pool)
            (row after.final_graph location)
        × (0 < length (row after.final_graph location))
        × IsGraph S F V compare fuel params below_max after
  unfolding connect
  connect-IsGraph location pool i can g rows inside in_use once absent bound some_left =
      let links = chosen_links S F V compare fuel params below_max location pool i in
      let c = chosen_links-Chosen S F V compare fuel params below_max location pool i once in
      let e = prune_neighbors_eq S F V compare fuel params below_max location pool i some_left in
      let found =
        chosen_links-some S F V compare fuel params below_max location pool i can absent
          some_left in
      let wide = record i { width = max_width S F V compare fuel params i.width params.range } in
      let (after, q, g', others) =
        inter_insert-IsGraph S F V compare fuel params below_max location links
          (with_row S F V compare fuel params location links wide)
          (with_row-IsGraph S F V compare fuel params below_max wide location links g
            (record { bound = omega (arith, c.bound); once = c.once; not_self = c.not_self }))
          c.not_self in_use found (λ k h. omega (arith, rows, bound k (c.inside k h))) in
      let kept : row after.final_graph location ≡ links =
        others location c.not_self ∙ row-set-inside i.final_graph location links inside in
      (
        after,
        rw (connect, e) (ap or_crash q),
        subst (Chosen S F V compare fuel params below_max location (ids_of F pool)) (sym kept) c,
        subst (λ r. 0 < length r) (sym kept) found,
        g',
      )
