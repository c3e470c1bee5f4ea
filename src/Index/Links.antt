-- ===== src/Index/Links.antt =====
-- src/index.cpp: what inter_insert keeps true of the graph of the index in memory.
use ccann.Prelude.{
  ℕ, zero, suc, ◌+◌, not, ◌&&◌, ==_refl, ◌≤◌, ◌<◌, ◌≡◌, refl, sym, ap, ◌∙◌, subst, ◌⊎◌, inl, inr,
  true, false, ltb, ◌==◌, Option, some, List, [], ◌∷◌, ◌++◌, length, set, contains, count,
  Bool-cases, arith, length-append, contains-append, contains-false, count-append,
}
use ccann.Floats.{Floats, flt}
use ccann.RobinSet.{RobinSet}
use ccann.Occlude.{ids_of}
use ccann.Index.{Index, row}
use ccann.Index.Graph.{
  Parameters, max_width, slack, candidates, with_row, prune_row, link_back, link_all_back,
  inter_insert, clean_up_row, clean_up,
}
use ccann.Index.Degree.{chosen_links, prune_neighbors_eq, chosen_links-Chosen}

pub row-set :
    (graph : List (List ℕ)) (i j : ℕ) (links : List ℕ)
    → (row (set graph i links) j ≡ row graph j) ⊎ ((i ≡ j) × (row (set graph i links) j ≡ links))
row-set [] i j links = inl refl
row-set (r ∷ graph) zero zero links = inr (refl, refl)
row-set (r ∷ graph) zero (suc j) links = inl refl
row-set (r ∷ graph) (suc i) zero links = inl refl
row-set (r ∷ graph) (suc i) (suc j) links = elim (row-set graph i j links) [
  | inl e ↦ inl e
  | inr (e, q) ↦ inr (ap suc e, q)
]

length-row-set :
    (graph : List (List ℕ)) (i : ℕ) (links : List ℕ)
    → length (row (set graph i links) i) ≤ length links
length-row-set [] i links = omega arith
length-row-set (r ∷ graph) zero links = omega arith
length-row-set (r ∷ graph) (suc i) links = length-row-set graph i links

module _ (S : RobinSet) (F : Floats) (V : Type 0) (compare : V → V → F.Float) (fuel : ℕ)
    (params : Parameters F) (below_max : flt F params.alpha F.max_float ≡ true) where
  -- A row of the graph: not longer than the slack allows, no link twice, none to the node itself.
  pub record IsRow (node : ℕ) (links : List ℕ) : Type 0 where
    pub bound : length links ≤ slack S F V compare fuel params
    pub once : (k : ℕ) → count k links ≤ 1
    pub not_self : contains node links ≡ false

  abbrev pub IsGraph : Index S V → Type 0
  IsGraph i = (node : ℕ) → IsRow node (row i.final_graph node)

  visited-left :
      (i : Index S V) (des k : ℕ) (visited : S.Set) (nbrs : List ℕ)
      → S.find visited k ≡ true
      → count k (ids_of F (candidates S F V compare fuel params i des visited nbrs)) ≡ 0
  unfolding candidates
  visited-left i des k visited [] h = refl
  visited-left i des k visited (nbr ∷ nbrs) h = ground (
    arith,
    visited-left i des k visited nbrs h,
    visited-left i des k (S.insert visited nbr) nbrs,
    S.find-insert visited nbr k,
  )

  candidates-once :
      (i : Index S V) (des k : ℕ) (visited : S.Set) (nbrs : List ℕ)
      → count k (ids_of F (candidates S F V compare fuel params i des visited nbrs)) ≤ 1
  unfolding candidates
  candidates-once i des k visited [] = omega arith
  candidates-once i des k visited (nbr ∷ nbrs) = ground (
    arith,
    candidates-once i des k visited nbrs,
    candidates-once i des k (S.insert visited nbr) nbrs,
    visited-left i des k (S.insert visited nbr) nbrs,
    S.find-insert visited nbr k,
  )

  candidates-some :
      (i : Index S V) (des k : ℕ) (visited : S.Set) (nbrs : List ℕ)
      → contains k nbrs ≡ true
      → S.find visited k ≡ false
      → (k == des) ≡ false
      → 0 < length (candidates S F V compare fuel params i des visited nbrs)
  unfolding candidates
  candidates-some i des k visited [] h v d = absurd (cc h)
  candidates-some i des k visited (nbr ∷ nbrs) h v d =
      ground (arith, candidates-some i des k visited nbrs)

  pub with_row-IsGraph :
      (i : Index S V) (des : ℕ) (links : List ℕ)
      → IsGraph i
      → IsRow des links
      → IsGraph (with_row S F V compare fuel params des links i)
  with_row-IsGraph i des links g r node = elim (row-set i.final_graph des node links) [
    | inl e ↦ subst (IsRow node) (sym e) (g node)
    | inr (d, e) ↦ subst (IsRow node) (sym e) (subst (λ x. IsRow x links) d r)
  ]

  -- The index after a row is replaced: the other rows stay.
  pub record Linked (des : ℕ) (i : Index S V) (r : Option (Index S V)) : Type 0 where
    pub after : Index S V
    pub returned : r ≡ some after
    pub graph : IsGraph after
    pub others : (x : ℕ) → (x == des) ≡ false → row after.final_graph x ≡ row i.final_graph x

  others_stay :
      (graph : List (List ℕ)) (des x : ℕ) (links : List ℕ)
      → (x == des) ≡ false
      → row (set graph des links) x ≡ row graph x
  others_stay graph des x links h = elim (row-set graph des x links) [
    | inl e ↦ e
    | inr (d, e) ↦ absurd (ground arith)
  ]

  prune_row-Linked :
      (des : ℕ) (links : List ℕ) (i : Index S V)
      → IsGraph i
      → 0 < length (candidates S F V compare fuel params i des S.empty links)
      → (l : Linked des i (prune_row S F V compare fuel params des links i)) × (length
            (row l.after.final_graph des)
          ≤ params.range)
  unfolding prune_row
  prune_row-Linked des links i g h =
      let pool = candidates S F V compare fuel params i des S.empty links in
      let pruned = chosen_links S F V compare fuel params below_max des pool i in
      let c =
        chosen_links-Chosen S F V compare fuel params below_max des pool i
          (λ k. candidates-once i des k S.empty links) in
      let wide = record i { width = max_width S F V compare fuel params i.width params.range } in
      (
        record {
          after = with_row S F V compare fuel params des pruned wide;
          returned =
              rw (prune_row, prune_neighbors_eq S F V compare fuel params below_max des pool i h)
                refl;
          graph =
              with_row-IsGraph wide des pruned g
                (record { bound = omega (arith, c.bound); once = c.once; not_self = c.not_self });
          others = λ x e. others_stay i.final_graph des x pruned e;
        },
        omega (arith, c.bound, length-row-set i.final_graph des pruned),
      )

  link_back-Linked :
      (n des : ℕ) (i : Index S V)
      → IsGraph i
      → (n == des) ≡ false
      → Linked des i (link_back S F V compare fuel params n des i)
  unfolding link_back
  link_back-Linked n des i g d =
      let links = row i.final_graph des in
      let more = links ++ (n ∷ []) in
      elim (Bool-cases (contains n links)) [
        | inl there ↦ record {
          after = i;
          returned = rw (link_back, there) refl;
          graph = g;
          others = λ x e. refl;
        }
        | inr new ↦ elim (Bool-cases (ltb (length links) (slack S F V compare fuel params))) [
          | inl room ↦ record {
            after = with_row S F V compare fuel params des more i;
            returned = rw (link_back, new, room) refl;
            graph = with_row-IsGraph i des more g (record {
              bound = ground (arith, length-append links (n ∷ []));
              once = λ k.
                  ground
                    (arith, count-append k links (n ∷ []), (g des).once k, contains-false k links);
              not_self = ground (arith, contains-append des links (n ∷ []), (g des).not_self);
            });
            others = λ x e. others_stay i.final_graph des x more e;
          }
          | inr full ↦
              let found : contains n more ≡ true =
                ground (arith, contains-append n links (n ∷ [])) in
              let result : link_back S F V compare fuel params n des i
                  ≡ prune_row S F V compare fuel params des more i =
                rw (link_back, new, full) refl in
              subst (Linked des i) (sym result)
                (prune_row-Linked des more i g
                  (candidates-some i des n S.empty more found (S.find-empty n) d)).0
        ]
      ]

  link_all_back-IsGraph :
      (limit n : ℕ) (pruned_list : List ℕ) (i : Index S V)
      → IsGraph i
      → contains n pruned_list ≡ false
      → ((k : ℕ) → contains k pruned_list ≡ true → k < limit)
      → (after : Index S V) × (link_all_back S F V compare fuel params limit n pruned_list i
          ≡ some after)
        × IsGraph after
        × ((x : ℕ) → contains x pruned_list ≡ false → row after.final_graph x ≡ row i.final_graph x)
  unfolding link_all_back
  link_all_back-IsGraph limit n [] i g h b = (i, refl, g, λ x e. refl)
  link_all_back-IsGraph limit n (des ∷ pruned_list) i g h b =
      let one = link_back-Linked n des i g (ground arith) in
      let inside : ltb des limit ≡ true = ground (arith, b des (ground (arith, ==_refl des))) in
      let (after, e, g', rest) =
        link_all_back-IsGraph limit n pruned_list one.after one.graph (ground arith)
          (λ k c. b k (ground arith)) in
      (
        after,
        rw (link_all_back, inside, one.returned) e,
        g',
        λ x q. rest x (ground arith) ∙ one.others x (ground arith),
      )

  -- With alpha below the largest float, `inter_insert` on a graph whose rows have at most 1.3 times
  -- `range` links, none of them twice and none to the node itself, does not crash and meets its
  -- asserts, as long as the node n is one that is in use and not one of its own targets, of which
  -- there are some and which are below the limit of the ids: it keeps all that true of every row,
  -- and it changes no row but those of its targets.
  pub inter_insert-IsGraph :
      (n : ℕ) (pruned_list : List ℕ) (i : Index S V)
      → IsGraph i
      → contains n pruned_list ≡ false
      → n < i.nd + i.num_frozen_pts
      → 0 < length pruned_list
      → ((k : ℕ) → contains k pruned_list ≡ true → k < i.max_points + i.num_frozen_pts)
      → (after : Index S V) × (inter_insert S F V compare fuel params n pruned_list i ≡ some after)
        × IsGraph after
        × ((x : ℕ) → contains x pruned_list ≡ false → row after.final_graph x ≡ row i.final_graph x)
  unfolding inter_insert
  inter_insert-IsGraph n pruned_list i g h in_use some_left b =
      let both : ltb n (i.nd + i.num_frozen_pts) && not (length pruned_list == 0) ≡ true =
        ground arith in
      let (after, e, g', rest) =
        link_all_back-IsGraph (i.max_points + i.num_frozen_pts) n pruned_list i g h b in
      (after, rw (inter_insert, both) e, g', rest)

  not_self-some :
      (i : Index S V) (node : ℕ) (links : List ℕ)
      → contains node links ≡ false
      → 0 < length links
      → 0 < length (candidates S F V compare fuel params i node S.empty links)
  not_self-some i node [] h e = absurd (omega arith)
  not_self-some i node (x ∷ links) h e =
      candidates-some i node x S.empty (x ∷ links) (ground arith) (S.find-empty x) (ground arith)

  clean_up_row-Linked :
      (node : ℕ) (i : Index S V)
      → IsGraph i
      → (l : Linked node i (clean_up_row S F V compare fuel params node i)) × (length
            (row l.after.final_graph node)
          ≤ params.range)
  unfolding clean_up_row
  clean_up_row-Linked node i g =
      let links = row i.final_graph node in
      elim (Bool-cases (ltb params.range (length links))) [
        | inl long ↦
            let result : clean_up_row S F V compare fuel params node i
                ≡ prune_row S F V compare fuel params node links i =
              rw (clean_up_row, long) refl in
            subst
              (λ r. (l : Linked node i r) × (length (row l.after.final_graph node) ≤ params.range))
              (sym result)
              (prune_row-Linked node links i g
                (not_self-some i node links (g node).not_self (ground arith)))
        | inr short ↦ (
          record {
            after = i;
            returned = rw (clean_up_row, short) refl;
            graph = g;
            others = λ x e. refl;
          },
          ground arith,
        )
      ]

  -- With alpha below the largest float, the last pass of `link` over n nodes of a graph whose rows
  -- have at most 1.3 times `range` links, none twice and none to the node itself, does not crash,
  -- keeps that true, and leaves at most `range` links in the row of each of the n nodes.
  pub clean_up-IsGraph :
      (n : ℕ) (i : Index S V)
      → IsGraph i
      → (after : Index S V) × (clean_up S F V compare fuel params n i ≡ some after)
        × IsGraph after
        × ((x : ℕ) → x < n → length (row after.final_graph x) ≤ params.range)
  unfolding clean_up
  clean_up-IsGraph zero i g = (i, refl, g, λ x h. elim h [ ])
  clean_up-IsGraph (suc n) i g =
      let (before, e, g', short) = clean_up-IsGraph n i g in
      let (one, shorter) = clean_up_row-Linked n before g' in
      (
        one.after,
        rw (clean_up, e) one.returned,
        one.graph,
        λ x h. elim (Bool-cases (x == n)) [
          | inl last ↦
              let same : n ≡ x = ground arith in
              subst (λ y. length (row one.after.final_graph y) ≤ params.range) same shorter
          | inr old ↦ rw (one.others x old) (short x (ground arith))
        ],
      )
