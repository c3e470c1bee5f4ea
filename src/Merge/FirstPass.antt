-- ===== src/Merge/FirstPass.antt =====
-- src/update/delete_merge.cpp: what the maps hold after the first pass of merge_deletes.
use ccann.Prelude.{
  ℕ, zero, suc, ◌≤◌, ◌<◌, ◌≡◌, refl, sym, ap, ◌∙◌, subst, inl, inr, Bool, true, false, ◌==◌, some,
  List, [], ◌∷◌, take, All, contains, Distinct, count, Bool-cases, Option-cases, ==_refl, arith,
  contains-false,
}
use ccann.CuckooMap.{CuckooMap}
use ccann.RobinSet.{RobinSet}
use ccann.Floats.{Floats, flt}
use ccann.Merge.{DiskNode, Populated, alive_nbrs, populate_node, populate}

abbrev pub ids_of_nodes : List DiskNode → List ℕ
ids_of_nodes [] = []
ids_of_nodes (node ∷ nodes) = node.id ∷ ids_of_nodes nodes

-- Every link of a node is the id of a node that is known.
abbrev pub AllIn : List ℕ → List ℕ → Type 0
AllIn known links = (k : ℕ) → contains k links ≡ true → contains k known ≡ true

take-AllIn : (n : ℕ) (xs : List ℕ) → AllIn xs (take n xs)
take-AllIn zero xs k h = absurd (cc h)
take-AllIn (suc n) [] k h = absurd (cc h)
take-AllIn (suc n) (x ∷ xs) k h = ground (arith, take-AllIn n xs k)

pub Distinct-count : (k : ℕ) (xs : List ℕ) → Distinct xs → count k xs ≤ 1
Distinct-count k [] h = omega arith
Distinct-count k (x ∷ xs) (h, d) = ground (arith, Distinct-count k xs d, contains-false k xs)

module _ (maps : CuckooMap ℕ) (nhoods : CuckooMap (List ℕ)) (S : RobinSet) (F : Floats)
    (alpha : F.Float) (range maxc fuel : ℕ) (pq_dist : ℕ → ℕ → F.Float) (id2tag : ℕ → ℕ)
    (deleted_nodes_set : S.Set) (below_max : flt F alpha F.max_float ≡ true) (known : List ℕ) where
  abbrev pub Pop : Type 0
  Pop = Populated maps nhoods S F alpha range maxc fuel pq_dist id2tag deleted_nodes_set

  abbrev pub gone : ℕ → Bool
  gone id = S.find deleted_nodes_set (id2tag id)

  -- Ids that are known and alive.
  abbrev pub Live : List ℕ → Type 0
  Live links = (k : ℕ) → contains k links ≡ true → (gone k ≡ false) × (contains k known ≡ true)

  -- What the maps of the first pass hold.
  pub record IsGood (p : Pop) : Type 0 where
    pub bounded : (id v : ℕ) → maps.find p.id_map id ≡ some v → v < p.new_npoints
    pub live : (id : ℕ) (l : List ℕ) → nhoods.find p.deleted_nhoods id ≡ some l → Live l

  -- A node that the first pass has seen.
  pub record IsSeen (id : ℕ) (p : Pop) : Type 0 where
    pub mapped : gone id ≡ false → (v : ℕ) × (maps.find p.id_map id ≡ some v)
    pub kept : gone id ≡ true → (l : List ℕ) × (nhoods.find p.deleted_nhoods id ≡ some l)

  alive_nbrs-Live :
      (nbrs : List ℕ)
      → AllIn known nbrs
      → Live
          (alive_nbrs maps nhoods S F alpha range maxc fuel pq_dist id2tag deleted_nodes_set nbrs)
  unfolding alive_nbrs
  alive_nbrs-Live [] h k e = absurd (cc e)
  alive_nbrs-Live (nbr ∷ nbrs) h k e =
      let rest = alive_nbrs-Live nbrs (λ j q. h j (ground arith)) k in ground (arith, rest, h k)

  abbrev step : ℕ → DiskNode → Pop → Pop
  step n node p =
      populate_node maps nhoods S F alpha range maxc fuel pq_dist id2tag deleted_nodes_set n node p

  abbrev sampled : ℕ → DiskNode → List ℕ
  sampled n node =
      take n (
        alive_nbrs maps nhoods S F alpha range maxc fuel pq_dist id2tag deleted_nodes_set node.nbrs)

  sampled-Live : (n : ℕ) (node : DiskNode) → AllIn known node.nbrs → Live (sampled n node)
  sampled-Live n node h k e = alive_nbrs-Live node.nbrs h k (take-AllIn n _ k e)

  inserted-Live :
      (n : ℕ) (node : DiskNode) (p : Pop) (id : ℕ) (l : List ℕ)
      → AllIn known node.nbrs
      → IsGood p
      → nhoods.find (nhoods.insert p.deleted_nhoods node.id (sampled n node)) id ≡ some l
      → Live l
  inserted-Live n node p id l h g q =
      let now = nhoods.find-insert p.deleted_nhoods node.id id (sampled n node) in
      elim (Bool-cases (node.id == id)) [
        | inl same ↦ elim (Option-cases (nhoods.find p.deleted_nhoods node.id)) [
          | inl absent ↦
              let z : l ≡ sampled n node = ground arith in
              subst Live (sym z) (sampled-Live n node h)
          | inr (w, found) ↦
              let z : l ≡ w = ground arith in subst Live (sym z) (g.live node.id w found)
        ]
        | inr other ↦
            let z : nhoods.find p.deleted_nhoods id ≡ some l = ground arith in g.live id l z
      ]

  step-IsGood :
      (n : ℕ) (node : DiskNode) (p : Pop)
      → AllIn known node.nbrs
      → IsGood p
      → IsGood (step n node p)
  unfolding populate_node
  step-IsGood n node p h g = elim (Bool-cases (gone node.id)) [
    | inl e ↦
        rw e (record { bounded = g.bounded; live = λ id l q. inserted-Live n node p id l h g q })
    | inr e ↦ rw e (record {
      bounded = λ id v q. ground (
        arith,
        g.bounded id v,
        maps.find-insert p.id_map node.id id p.new_npoints,
        g.bounded node.id v,
        Option-cases (maps.find p.id_map node.id),
      );
      live = g.live;
    })
  ]

  -- A key is there after an insertion if it was there before, or is the one that is inserted.
  stays :
      {V : Type 0} (m : CuckooMap V) (s : m.Map) (k j : ℕ) (v w : V)
      → m.find s j ≡ some w
      → m.find (m.insert s k v) j ≡ some w
  stays m s k j v w h = elim (Bool-cases (k == j)) [
    | inl same ↦
        let z : k ≡ j = ground arith in
        let old : m.find s k ≡ some w = ap (m.find s) z ∙ h in
        m.find-insert s k j v ∙ rw (same, old) refl
    | inr other ↦ m.find-insert s k j v ∙ rw other h
  ]

  arrives :
      {V : Type 0} (m : CuckooMap V) (s : m.Map) (k : ℕ) (v : V)
      → (w : V) × (m.find (m.insert s k v) k ≡ some w)
  arrives m s k v = elim (Option-cases (m.find s k)) [
    | inl absent ↦ (v, m.find-insert s k k v ∙ rw (==_refl k, absent) refl)
    | inr (w, found) ↦ (w, m.find-insert s k k v ∙ rw (==_refl k, found) refl)
  ]

  step-stays :
      (n : ℕ) (node : DiskNode) (p : Pop) (id : ℕ) → IsSeen id p → IsSeen id (step n node p)
  unfolding populate_node
  step-stays n node p id s = elim (Bool-cases (gone node.id)) [
    | inl e ↦ rw e (record {
      mapped = s.mapped;
      kept = λ q.
          let (l, f) = s.kept q in
          (l, stays nhoods p.deleted_nhoods node.id id (sampled n node) l f);
    })
    | inr e ↦ rw e (record {
      mapped =
          λ q. let (v, f) = s.mapped q in (v, stays maps p.id_map node.id id p.new_npoints v f);
      kept = s.kept;
    })
  ]

  step-sees : (n : ℕ) (node : DiskNode) (p : Pop) → IsSeen node.id (step n node p)
  unfolding populate_node
  step-sees n node p = elim (Bool-cases (gone node.id)) [
    | inl e ↦ rw e (record {
      mapped = λ q. absurd (cc (e, q));
      kept = λ q. arrives nhoods p.deleted_nhoods node.id (sampled n node);
    })
    | inr e ↦ rw e (record {
      mapped = λ q. arrives maps p.id_map node.id p.new_npoints;
      kept = λ q. absurd (cc (e, q));
    })
  ]

  abbrev pub AllClosed : List DiskNode → Type 0
  AllClosed nodes = All (λ (node : DiskNode). AllIn known node.nbrs) nodes

  abbrev pub pop : ℕ → List DiskNode → Pop → Pop
  pop n nodes p =
      populate maps nhoods S F alpha range maxc fuel pq_dist id2tag deleted_nodes_set n nodes p

  pub populate-IsGood :
      (n : ℕ) (nodes : List DiskNode) (p : Pop)
      → AllClosed nodes
      → IsGood p
      → IsGood (pop n nodes p)
  unfolding populate
  populate-IsGood n [] p h g = g
  populate-IsGood n (node ∷ nodes) p (h, hs) g =
      populate-IsGood n nodes (step n node p) hs (step-IsGood n node p h g)

  populate-stays :
      (n : ℕ) (nodes : List DiskNode) (p : Pop) (id : ℕ) → IsSeen id p → IsSeen id (pop n nodes p)
  unfolding populate
  populate-stays n [] p id s = s
  populate-stays n (node ∷ nodes) p id s =
      populate-stays n nodes (step n node p) id (step-stays n node p id s)

  pub populate-sees :
      (n : ℕ) (nodes : List DiskNode) (p : Pop) (id : ℕ)
      → contains id (ids_of_nodes nodes) ≡ true
      → IsSeen id (pop n nodes p)
  unfolding populate
  populate-sees n [] p id h = absurd (cc h)
  populate-sees n (node ∷ nodes) p id h = elim (Bool-cases (id == node.id)) [
    | inl same ↦
        let z : node.id ≡ id = ground arith in
        populate-stays n nodes (step n node p) id
          (subst (λ x. IsSeen x (step n node p)) z (step-sees n node p))
    | inr other ↦ populate-sees n nodes (step n node p) id (ground arith)
  ]
