-- ===== src/Merge/Origin.antt =====
-- src/update/delete_merge.cpp: where the links of the nodes that merge_deletes writes come from.
use ccann.Prelude.{
  ℕ, zero, suc, ◌≡◌, refl, sym, ap, ◌∙◌, subst, ◌⊎◌, inl, inr, Bool, true, ◌==◌, none, some, List,
  [], ◌∷◌, take, All, contains, Option, ==_refl, Bool-cases, Option-cases, arith,
}
use ccann.CuckooMap.{CuckooMap}
use ccann.RobinSet.{RobinSet}
use ccann.Floats.{Floats}
use ccann.Merge.{
  DiskNode, Populated, alive_nbrs, populate_node, populate, insert_nbrs, nhood_set, map_ids,
}

-- Some node of a list.
abbrev pub Some {ℓ} : {A : Type ℓ} → (A → Type 0) → List A → Type 0
Some P [] = ⊥
Some P (x ∷ xs) = P x ⊎ Some P xs

-- A node a of the file has the link k.
abbrev pub HasLink : List DiskNode → ℕ → ℕ → Type 0
HasLink nodes a k = Some (λ (node : DiskNode). (node.id ≡ a) × (contains k node.nbrs ≡ true)) nodes

take-inside : (k n : ℕ) (xs : List ℕ) → contains k (take n xs) ≡ true → contains k xs ≡ true
take-inside k zero xs h = absurd (cc h)
take-inside k (suc n) [] h = absurd (cc h)
take-inside k (suc n) (x ∷ xs) h = ground (arith, take-inside k n xs)

module _ (maps : CuckooMap ℕ) (nhoods : CuckooMap (List ℕ)) (S : RobinSet) (F : Floats)
    (alpha : F.Float) (range maxc fuel : ℕ) (pq_dist : ℕ → ℕ → F.Float) (id2tag : ℕ → ℕ)
    (deleted_nodes_set : S.Set) where
  abbrev pub Pop : Type 0
  Pop = Populated maps nhoods S F alpha range maxc fuel pq_dist id2tag deleted_nodes_set

  abbrev pub gone : ℕ → Bool
  gone id = S.find deleted_nodes_set (id2tag id)

  alive_nbrs-inside :
      (k : ℕ) (nbrs : List ℕ)
      → contains k
          (alive_nbrs maps nhoods S F alpha range maxc fuel pq_dist id2tag deleted_nodes_set nbrs)
        ≡ true
      → contains k nbrs ≡ true
  unfolding alive_nbrs
  alive_nbrs-inside k [] h = h
  alive_nbrs-inside k (nbr ∷ nbrs) h = ground (arith, alive_nbrs-inside k nbrs)

  -- What the first pass keeps of a deleted node are links of it.
  abbrev pub IsFrom : List DiskNode → Pop → Type 0
  IsFrom all p =
      (id k : ℕ) (l : List ℕ)
      → nhoods.find p.deleted_nhoods id ≡ some l
      → contains k l ≡ true
      → HasLink all id k

  abbrev pub LinksOf : List DiskNode → List DiskNode → Type 0
  LinksOf all nodes =
      All (λ (node : DiskNode). (k : ℕ) → contains k node.nbrs ≡ true → HasLink all node.id k) nodes

  abbrev sampled : ℕ → DiskNode → List ℕ
  sampled n node =
      take n (
        alive_nbrs maps nhoods S F alpha range maxc fuel pq_dist id2tag deleted_nodes_set node.nbrs)

  inserted-from :
      (all : List DiskNode) (n : ℕ) (node : DiskNode) (p : Pop) (id k : ℕ) (l : List ℕ)
      → ((j : ℕ) → contains j node.nbrs ≡ true → HasLink all node.id j)
      → IsFrom all p
      → nhoods.find (nhoods.insert p.deleted_nhoods node.id (sampled n node)) id ≡ some l
      → contains k l ≡ true
      → HasLink all id k
  inserted-from all n node p id k l h f q c =
      let now = nhoods.find-insert p.deleted_nhoods node.id id (sampled n node) in
      elim (Bool-cases (node.id == id)) [
        | inl same ↦
            let z : node.id ≡ id = ground arith in
            elim (Option-cases (nhoods.find p.deleted_nhoods node.id)) [
              | inl absent ↦
                  let w : l ≡ sampled n node = ground arith in
                  let there = sym (ap (contains k) w) ∙ c in
                  subst (λ a. HasLink all a k) z
                    (h k (alive_nbrs-inside k node.nbrs (take-inside k n _ there)))
              | inr (old, found) ↦
                  let w : l ≡ old = ground arith in
                  subst (λ a. HasLink all a k) z
                    (f node.id k old found (sym (ap (contains k) w) ∙ c))
            ]
        | inr other ↦
            let z : nhoods.find p.deleted_nhoods id ≡ some l = ground arith in f id k l z c
      ]

  step-IsFrom :
      (all : List DiskNode) (n : ℕ) (node : DiskNode) (p : Pop)
      → ((j : ℕ) → contains j node.nbrs ≡ true → HasLink all node.id j)
      → IsFrom all p
      → IsFrom all (
          populate_node maps nhoods S F alpha range maxc fuel pq_dist id2tag deleted_nodes_set n
            node p)
  unfolding populate_node
  step-IsFrom all n node p h f = elim (Bool-cases (gone node.id)) [
    | inr alive ↦ rw alive f
    | inl dead ↦ rw dead (λ id k l q c. inserted-from all n node p id k l h f q c)
  ]

  pub populate-IsFrom :
      (all : List DiskNode) (n : ℕ) (nodes : List DiskNode) (p : Pop)
      → LinksOf all nodes
      → IsFrom all p
      → IsFrom all (
          populate maps nhoods S F alpha range maxc fuel pq_dist id2tag deleted_nodes_set n nodes p)
  unfolding populate
  populate-IsFrom all n [] p h f = f
  populate-IsFrom all n (node ∷ nodes) p (h, hs) f =
      populate-IsFrom all n nodes _ hs (step-IsFrom all n node p h f)

  -- What the second pass takes as candidates of a node.
  abbrev pub Candidate : List DiskNode → List ℕ → ℕ → Type 0
  Candidate all nbrs k =
      (contains k nbrs ≡ true)
      ⊎ ((d : ℕ) × (contains d nbrs ≡ true) × (gone d ≡ true) × HasLink all d k)

  insert_nbrs-origin :
      (k : ℕ) (nbrs : List ℕ) (s : S.Set)
      → S.find
          (insert_nbrs maps nhoods S F alpha range maxc fuel pq_dist id2tag deleted_nodes_set nbrs
            s)
          k
        ≡ true
      → (contains k nbrs ≡ true) ⊎ (S.find s k ≡ true)
  insert_nbrs-origin k [] s h = inr h
  insert_nbrs-origin k (nbr ∷ nbrs) s h = elim (insert_nbrs-origin k nbrs (S.insert s nbr) h) [
    | inl later ↦ inl (ground arith)
    | inr before ↦ elim (Bool-cases (k == nbr)) [
      | inl same ↦ inl (ground arith)
      | inr other ↦ inr (ground (arith, S.find-insert s nbr k))
    ]
  ]

  widen :
      (all : List DiskNode) (nbr : ℕ) (nbrs : List ℕ) (k : ℕ)
      → Candidate all nbrs k
      → Candidate all (nbr ∷ nbrs) k
  widen all nbr nbrs k (inl there) = inl (ground arith)
  widen all nbr nbrs k (inr (d, there, dead, link)) = inr (d, ground arith, dead, link)

  abbrev nhood_at : Pop → List ℕ → S.Set → Option S.Set
  nhood_at p nbrs s =
      nhood_set maps nhoods S F alpha range maxc fuel pq_dist id2tag deleted_nodes_set p nbrs s

  pub nhood_set-origin :
      (all : List DiskNode) (p : Pop) (k : ℕ) (nbrs : List ℕ) (s after : S.Set)
      → IsFrom all p
      → nhood_set maps nhoods S F alpha range maxc fuel pq_dist id2tag deleted_nodes_set p nbrs s
        ≡ some after
      → S.find after k ≡ true
      → Candidate all nbrs k ⊎ (S.find s k ≡ true)
  unfolding nhood_set
  nhood_set-origin all p k [] s after f e h =
      let z : s ≡ after = cc (e) in inr (ap (λ x. S.find x k) z ∙ h)
  nhood_set-origin all p k (nbr ∷ nbrs) s after f e h = elim (Bool-cases (gone nbr)) [
    | inl dead ↦ elim (Option-cases (nhoods.find p.deleted_nhoods nbr)) [
      | inl absent ↦
          let z : nhood_at p (nbr ∷ nbrs) s ≡ none = rw (nhood_set, dead, absent) refl in
          absurd (cc (z, e))
      | inr (l, found) ↦
          let more =
            insert_nbrs maps nhoods S F alpha range maxc fuel pq_dist id2tag deleted_nodes_set l
              s in
          let z : nhood_at p (nbr ∷ nbrs) s ≡ nhood_at p nbrs more =
            rw (nhood_set, dead, found) refl in
          elim (nhood_set-origin all p k nbrs more after f (sym z ∙ e) h) [
            | inl later ↦ inl (widen all nbr nbrs k later)
            | inr before ↦ elim (insert_nbrs-origin k l s before) [
              | inl there ↦
                  inl (inr (nbr, ground (arith, ==_refl nbr), dead, f nbr k l found there))
              | inr old ↦ inr old
            ]
          ]
    ]
    | inr alive ↦
        let z : nhood_at p (nbr ∷ nbrs) s ≡ nhood_at p nbrs (S.insert s nbr) =
          rw (nhood_set, alive) refl in
        elim (nhood_set-origin all p k nbrs (S.insert s nbr) after f (sym z ∙ e) h) [
          | inl later ↦ inl (widen all nbr nbrs k later)
          | inr before ↦ elim (Bool-cases (k == nbr)) [
            | inl same ↦ inl (inl (ground arith))
            | inr other ↦ inr (ground (arith, S.find-insert s nbr k))
          ]
        ]
  ]

  abbrev ids_at : maps.Map → List ℕ → Option (List ℕ)
  ids_at m links =
      map_ids maps nhoods S F alpha range maxc fuel pq_dist id2tag deleted_nodes_set m links

  pub map_ids-origin :
      (m : maps.Map) (links ids : List ℕ) (v : ℕ)
      → map_ids maps nhoods S F alpha range maxc fuel pq_dist id2tag deleted_nodes_set m links
        ≡ some ids
      → contains v ids ≡ true
      → (k : ℕ) × (contains k links ≡ true) × (maps.find m k ≡ some v)
  unfolding map_ids
  map_ids-origin m [] ids v e h = absurd (cc (e, h))
  map_ids-origin m (nbr ∷ links) ids v e h = elim (Option-cases (maps.find m nbr)) [
    | inl absent ↦
        let z : ids_at m (nbr ∷ links) ≡ none = rw (map_ids, absent) refl in absurd (cc (z, e))
    | inr (new, found) ↦ elim (Option-cases (ids_at m links)) [
      | inl absent ↦
          let z : ids_at m (nbr ∷ links) ≡ none = rw (map_ids, found, absent) refl in
          absurd (cc (z, e))
      | inr (rest, q) ↦
          let z : ids_at m (nbr ∷ links) ≡ some (new ∷ rest) = rw (map_ids, found, q) refl in
          let w : ids ≡ new ∷ rest = cc (z, e) in
          let there : contains v (new ∷ rest) ≡ true = sym (ap (contains v) w) ∙ h in
          elim (Bool-cases (v == new)) [
            | inl same ↦
                let t : new ≡ v = ground arith in
                (nbr, ground (arith, ==_refl nbr), found ∙ ap some t)
            | inr other ↦
                let (k, c, g) = map_ids-origin m links rest v q (ground arith) in
                (k, ground arith, g)
          ]
    ]
  ]
