-- ===== src/Index/Alive.antt =====
-- src/index.cpp: after consolidate_deletes no live node links to a deleted point.
use ccann.Prelude.{
  ℕ, zero, suc, ◌+◌, ◌≤◌, ◌<◌, ◌≡◌, refl, sym, ap, ◌∙◌, subst, inl, inr, Bool, true, false, ltb,
  ◌==◌, List, [], ◌∷◌, length, set, ◌||◌, contains, Bool-cases, arith,
}
use ccann.Floats.{Floats}
use ccann.RobinSet.{RobinSet}
use ccann.Neighbor.{Neighbor}
use ccann.Occlude.{push_back, sort_pool, occlude_list}
use ccann.Index.{Index, row}
use ccann.Index.Graph.{Parameters, dist, with_row}
use ccann.Index.Links.{row-set}
use ccann.Index.Connect.{row-set-inside}
use ccann.Index.Consolidate.{
  add_alive, expand_links, as_candidates, alive_ids, consolidate_node, consolidate_nodes,
  consolidate_deletes,
}

row-past : (graph : List (List ℕ)) (i : ℕ) → length graph ≤ i → row graph i ≡ []
row-past [] i h = refl
row-past (r ∷ graph) zero h = absurd (omega arith)
row-past (r ∷ graph) (suc i) h = row-past graph i (omega arith)

module _ (S : RobinSet) (F : Floats) (V : Type 0) (compare : V → V → F.Float) (fuel : ℕ)
    (params : Parameters F) where
  -- No link goes to a deleted point.
  abbrev pub IsAlive : S.Set → List ℕ → Type 0
  IsAlive deleted links = (k : ℕ) → contains k links ≡ true → S.find deleted k ≡ false

  alive_ids-IsAlive :
      (deleted : S.Set) (node k : ℕ) (result : List (Neighbor F))
      → contains k (alive_ids S F V compare fuel params deleted node result) ≡ true
      → S.find deleted k ≡ false
  unfolding alive_ids
  alive_ids-IsAlive deleted node k [] h = absurd (cc h)
  alive_ids-IsAlive deleted node k (p ∷ result) h =
      ground (arith, alive_ids-IsAlive deleted node k result)

  -- A deleted link that is met stays noted.
  expand_links-noted :
      (deleted : S.Set) (graph : List (List ℕ)) (links : List ℕ) (candidate_set : S.Set)
      → (expand_links S F V compare fuel params deleted graph links (true, candidate_set)).0 ≡ true
  unfolding expand_links
  expand_links-noted deleted graph [] candidate_set = refl
  expand_links-noted deleted graph (ngh ∷ links) candidate_set =
      elim (Bool-cases (S.find deleted ngh)) [
        | inl e ↦ rw (expand_links, e) (expand_links-noted deleted graph links _)
        | inr e ↦ rw (expand_links, e) (expand_links-noted deleted graph links _)
      ]

  unmodified-IsAlive :
      (deleted : S.Set) (graph : List (List ℕ)) (links : List ℕ) (candidate_set : S.Set)
      → (expand_links S F V compare fuel params deleted graph links (false, candidate_set)).0
        ≡ false
      → IsAlive deleted links
  unfolding expand_links
  unmodified-IsAlive deleted graph [] candidate_set h = λ k e. absurd (cc e)
  unmodified-IsAlive deleted graph (ngh ∷ links) candidate_set h =
      elim (Bool-cases (S.find deleted ngh)) [
        | inl gone ↦ absurd (
            ground (
              arith,
              expand_links-noted deleted graph links
                  (add_alive S F V compare fuel params deleted (row graph ngh) candidate_set),
            ))
        | inr here ↦
            let next = S.insert candidate_set ngh in
            let step : expand_links S F V compare fuel params deleted graph (ngh ∷ links)
                  (false, candidate_set)
                ≡ expand_links S F V compare fuel params deleted graph links (false, next) =
              rw (expand_links, here) refl in
            let rest =
              unmodified-IsAlive deleted graph links next
                (ap (λ (r : Bool × S.Set). r.0) (sym step) ∙ h) in
            λ k e. ground (arith, rest k)
      ]

  nothing_found :
      (deleted : S.Set) (graph : List (List ℕ))
      → (expand_links S F V compare fuel params deleted graph [] (false, S.empty)).0 ≡ false
  unfolding expand_links
  nothing_found deleted graph = refl

  -- A node after its turn, and the other nodes.
  record Turned (node : ℕ) (i after : Index S V) : Type 0 where
    alive : IsAlive i.delete_set (row after.final_graph node)
    others : (x : ℕ) → (x == node) ≡ false → row after.final_graph x ≡ row i.final_graph x
    same : after.delete_set ≡ i.delete_set

  others_stay :
      (graph : List (List ℕ)) (node x : ℕ) (links : List ℕ)
      → (x == node) ≡ false
      → row (set graph node links) x ≡ row graph x
  others_stay graph node x links h = elim (row-set graph node x links) [
    | inl e ↦ e
    | inr (d, e) ↦ absurd (ground arith)
  ]

  consolidate_node-Turned :
      (node : ℕ) (i : Index S V) → Turned node i (consolidate_node S F V compare fuel params node i)
  unfolding consolidate_node
  consolidate_node-Turned node i =
      let links = row i.final_graph node in
      let walked =
        expand_links S F V compare fuel params i.delete_set i.final_graph links (false, S.empty) in
      let pool =
        sort_pool F (as_candidates S F V compare fuel params i node (S.elements walked.1)) in
      let result =
        occlude_list F (dist S F V compare fuel params i) (push_back F) params.alpha params.range
          params.maxc fuel pool in
      let chosen = alive_ids S F V compare fuel params i.delete_set node result in
      elim (Bool-cases walked.0) [
        | inl modify ↦
            let turned : consolidate_node S F V compare fuel params node i
                ≡ with_row S F V compare fuel params node chosen i =
              rw (consolidate_node, modify) refl in
            subst (Turned node i) (sym turned) (record {
              alive = elim (Bool-cases (ltb node (length i.final_graph))) [
                | inl inside ↦ λ k h. alive_ids-IsAlive i.delete_set node k result (
                    ap (contains k) (sym (row-set-inside i.final_graph node chosen (ground arith)))
                    ∙ h)
                | inr past ↦
                    let no_links = row-past i.final_graph node (ground arith) in
                    let untouched : walked.0 ≡ false =
                      ap
                        (λ (x : List ℕ).
                          (expand_links S F V compare fuel params i.delete_set i.final_graph x
                            (false, S.empty)).0)
                        no_links
                      ∙ nothing_found i.delete_set i.final_graph in
                    absurd (cc (untouched, modify))
              ];
              others = λ x h. others_stay i.final_graph node x chosen h;
              same = refl;
            })
        | inr kept ↦
            let turned : consolidate_node S F V compare fuel params node i ≡ i =
              rw (consolidate_node, kept) refl in
            subst (Turned node i) (sym turned) (record {
              alive = unmodified-IsAlive i.delete_set i.final_graph links S.empty kept;
              others = λ x h. refl;
              same = refl;
            })
      ]

  -- The live nodes among the first n have had their turn.
  record AllTurned (n : ℕ) (i after : Index S V) : Type 0 where
    same : after.delete_set ≡ i.delete_set
    alive :
        (x : ℕ)
        → x < n
        → S.find i.delete_set x ≡ false
        → S.find i.empty_slots x ≡ false
        → IsAlive i.delete_set (row after.final_graph x)

  nodes-AllTurned :
      (n : ℕ) (i : Index S V) → AllTurned n i (consolidate_nodes S F V compare fuel params n i)
  unfolding consolidate_nodes
  nodes-AllTurned zero i = record { same = refl; alive = λ x h. elim h [ ] }
  nodes-AllTurned (suc n) i =
      let before = consolidate_nodes S F V compare fuel params n i in
      let a = nodes-AllTurned n i in
      elim (Bool-cases (S.find i.delete_set n || S.find i.empty_slots n)) [
        | inl skip ↦
            let turned : consolidate_nodes S F V compare fuel params (suc n) i ≡ before =
              rw (consolidate_nodes, skip) refl in
            subst (AllTurned (suc n) i) (sym turned) (record {
              same = a.same;
              alive = λ x h d e. elim (Bool-cases (x == n)) [
                | inl last ↦
                    let q : x ≡ n = ground arith in
                    absurd (
                      cc (
                        ap (λ y. S.find i.delete_set y || S.find i.empty_slots y) q,
                        skip,
                        ap (λ y. y || S.find i.empty_slots x) d,
                        e,
                      ))
                | inr old ↦ a.alive x (ground arith) d e
              ];
            })
        | inr go ↦
            let turned : consolidate_nodes S F V compare fuel params (suc n) i
                ≡ consolidate_node S F V compare fuel params n before =
              rw (consolidate_nodes, go) refl in
            let t = consolidate_node-Turned n before in
            subst (AllTurned (suc n) i) (sym turned) (record {
              same = t.same ∙ a.same;
              alive = λ x h d e. elim (Bool-cases (x == n)) [
                | inl last ↦
                    let q : x ≡ n = ground arith in
                    let r : IsAlive i.delete_set
                        (row (consolidate_node S F V compare fuel params n before).final_graph n) =
                      subst
                        (λ s.
                          IsAlive s (
                            row (consolidate_node S F V compare fuel params n before).final_graph
                              n))
                        a.same t.alive in
                    subst
                      (λ y.
                        IsAlive i.delete_set
                          (row (consolidate_node S F V compare fuel params n before).final_graph y))
                      (sym q) r
                | inr old ↦
                    subst (IsAlive i.delete_set) (sym (t.others x old))
                      (a.alive x (ground arith) d e)
              ];
            })
      ]

  consolidated_graph :
      (i : Index S V)
      → i.eager_done ≡ false
      → (consolidate_deletes S F V compare fuel params i).1.final_graph
        ≡ (consolidate_nodes S F V compare fuel params
            (i.max_points + i.num_frozen_pts)
            i).final_graph
  unfolding consolidate_deletes
  consolidated_graph i h = rw (consolidate_deletes, h) refl

  -- Unless eager deletions were made, after `consolidate_deletes` no node that is neither deleted
  -- nor an empty slot has a link to a deleted point, whatever the graph was before.
  pub consolidate_deletes-IsAlive :
      (i : Index S V)
      → i.eager_done ≡ false
      → (x : ℕ) → x < i.max_points + i.num_frozen_pts
      → S.find i.delete_set x ≡ false
      → S.find i.empty_slots x ≡ false
      → IsAlive i.delete_set (row (consolidate_deletes S F V compare fuel params i).1.final_graph x)
  consolidate_deletes-IsAlive i h x k d e =
      subst (λ (graph : List (List ℕ)). IsAlive i.delete_set (row graph x))
        (sym (consolidated_graph i h))
        ((nodes-AllTurned (i.max_points + i.num_frozen_pts) i).alive x k d e)
