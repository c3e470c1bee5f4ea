-- ===== src/Tests/Walks.antt =====
-- The theorems on walks and links of the index in memory, for points on a line.
use ccann.Prelude.{
  ◌<◌, contains, ℕ, zero, suc, ◌+◌, ◌-◌, ◌*◌, ◌≤◌, ◌≡◌, refl, true, false, some, List, [], ◌∷◌,
  length, All, count, arith,
}
use ccann.Floats.{hundredths}
use ccann.RobinSet.{list_set}
use ccann.Neighbor.{Neighbor, neighbor_lt}
use ccann.Occlude.{
  ids_of, occlude_list, occlude_rounds, occlude_round, occlude_rest, sort_pool, sort_insert,
}
use ccann.Index.{Index, row}
use ccann.Index.Graph.{Parameters, prune_neighbors, max_width}
use ccann.Index.Chosen.{CanChoose}
use ccann.Index.Degree.{Chosen, prune_neighbors-Chosen}
use ccann.Index.Links.{IsGraph}
use ccann.Index.Insert.{connect}
use ccann.Index.Connect.{connect-IsGraph}
use ccann.Index.Walk.{Walk, finished, iterate_to_fixed_point, walk_from, walk_fast, blanks}
use ccann.Index.Loop.{HasValidLinks, enough, Expanded}
use ccann.Index.FixedPoint.{iterate_to_fixed_point-finished}
use ccann.Index.Fast.{plain, plain_outcome, walk_fast-walk_from}
use ccann.Index.Query.{Result, search_tags}
use ccann.Index.Live.{IsLive, search_tags-IsLive}
use ccann.Index.Consolidate.{
  consolidate_deletes, consolidate_nodes, consolidate_node, expand_links, add_alive, alive_ids,
}
use ccann.Index.Alive.{consolidate_deletes-IsAlive}
use ccann.Tests.Memory.{line, line-IsConsistent}

abbrev apart : ℕ → ℕ → ℕ
apart a b = (a - b) + (b - a)

abbrev two : Parameters hundredths
two = record { range = 2; maxc = 5; l_index = 3; alpha = 120 }

abbrev at : ℕ → Neighbor hundredths
at j = record { id = j; distance = apart 0 (j * 100); flag = true; visited = false }

abbrev pool : List (Neighbor hundredths)
pool = at 2 ∷ at 1 ∷ []

few : (k : ℕ) → count k (ids_of hundredths pool) ≤ 1
few k = ground arith

prune_neighbors-Chosen_example :
    (links : List ℕ) × (prune_neighbors list_set hundredths ℕ apart 9 two 0 pool line
      ≡ some
          (links, record line { width = max_width list_set hundredths ℕ apart 9 two line.width 2 }))
    × Chosen list_set hundredths ℕ apart 9 two refl 0 (2 ∷ 1 ∷ []) links
prune_neighbors-Chosen_example =
    prune_neighbors-Chosen list_set hundredths ℕ apart 9 two refl 0 pool line few (omega arith)

line-IsGraph : IsGraph list_set hundredths ℕ apart 9 two refl line
line-IsGraph zero = record { bound = omega arith; once = λ k. ground arith; not_self = refl }
line-IsGraph (suc zero) = record { bound = omega arith; once = λ k. ground arith; not_self = refl }
line-IsGraph (suc (suc zero)) = record {
  bound = omega arith;
  once = λ k. ground arith;
  not_self = refl;
}
line-IsGraph (suc (suc (suc n))) = record {
  bound = omega arith;
  once = λ k. omega arith;
  not_self = refl;
}

two-CanChoose : CanChoose list_set hundredths ℕ apart 9 two refl
two-CanChoose = record {
  some_rounds = omega arith;
  some_maxc = omega arith;
  some_range = omega arith;
  alpha_one = refl;
  one_zero = refl;
}

connect-IsGraph_example :
    (after : Index list_set ℕ) × (connect list_set hundredths ℕ 0 apart 9 two 0 pool line
      ≡ finished after)
    × Chosen list_set hundredths ℕ apart 9 two refl 0 (2 ∷ 1 ∷ []) (row after.final_graph 0)
    × (0 < length (row after.final_graph 0))
    × IsGraph list_set hundredths ℕ apart 9 two refl after
connect-IsGraph_example =
    connect-IsGraph list_set hundredths ℕ 0 apart 9 two refl 0 pool line two-CanChoose line-IsGraph
      refl (omega arith) (omega arith) few refl (λ k h. ground arith) (omega arith)

line-HasValidLinks : (query l : ℕ) → HasValidLinks list_set hundredths ℕ apart line query l
line-HasValidLinks query l zero = refl
line-HasValidLinks query l (suc zero) = refl
line-HasValidLinks query l (suc (suc zero)) = refl
line-HasValidLinks query l (suc (suc (suc n))) = refl

abbrev rounds : ℕ
rounds = enough list_set hundredths ℕ apart line 130 2 6 2

iterate_to_fixed_point-finished_example :
    (after : Walk list_set hundredths) × (iterate_to_fixed_point list_set hundredths ℕ apart line
        130 2
        (2 ∷ [])
        true
        rounds
      ≡ finished after)
    × Expanded list_set hundredths ℕ apart line 130 2 after.l after
iterate_to_fixed_point-finished_example =
    iterate_to_fixed_point-finished list_set hundredths ℕ apart line 130 2 (2 ∷ []) true rounds
      (omega arith) (line-HasValidLinks 130 2) (omega arith, tt) refl (omega arith)

abbrev first : Walk list_set hundredths
first = record {
  best = at 2 ∷ blanks list_set hundredths ℕ apart 2;
  l = 1;
  inserted_into_pool = 2 ∷ [];
  expanded_nodes_info = [];
  expanded_nodes_ids = [];
  cmps = 0;
}

walk_fast-walk_from_example :
    walk_fast list_set hundredths ℕ apart line 130 2 9 0
      (plain list_set hundredths ℕ apart line 130 2 first)
    ≡ plain_outcome list_set hundredths ℕ apart line 130 2
        (walk_from list_set hundredths ℕ apart line 130 2 true 9 0 first)
walk_fast-walk_from_example =
    walk_fast-walk_from list_set hundredths ℕ apart line 130 2 true 9 0 first
      (line-HasValidLinks 130 2)

search_tags-IsLive_example :
    (results : List (Result list_set hundredths ℕ apart)) × (search_tags list_set hundredths ℕ apart
        line 130 1 2 rounds
      ≡ finished results)
    × (length results ≤ 1)
    × All (IsLive list_set hundredths ℕ apart line) results
search_tags-IsLive_example =
    search_tags-IsLive list_set hundredths ℕ apart line 130 1 2 rounds line-IsConsistent
      (line-HasValidLinks 130 2) (omega arith) refl (omega arith) (omega arith) (omega arith)

-- The second point is deleted, and the others link to it.
abbrev smaller : Index list_set ℕ
smaller = record line {
  delete_set = 1 ∷ [];
  tag_to_location = (7, 0) ∷ [];
  location_to_tag = (0, 7) ∷ [];
}

linked_2 :
    contains 2 (row (consolidate_deletes list_set hundredths ℕ apart 9 two smaller).1.final_graph 0)
    ≡ true
unfolding consolidate_deletes consolidate_nodes consolidate_node expand_links add_alive alive_ids
    occlude_list occlude_rounds occlude_round occlude_rest sort_pool sort_insert neighbor_lt
linked_2 = refl

consolidate_deletes-IsAlive_example : list_set.find smaller.delete_set 2 ≡ false
consolidate_deletes-IsAlive_example =
    consolidate_deletes-IsAlive list_set hundredths ℕ apart 9 two smaller refl 0 (omega arith) refl
      refl 2 linked_2
