-- ===== src/Merge/Closed.antt =====
-- src/update/delete_merge.cpp: the ids and the links of the nodes that merge_deletes writes.
use ccann.Prelude.{
  ℕ, zero, suc, ◌≤◌, ◌<◌, ◌≡◌, refl, ap, inl, inr, Bool, true, false, ltb, some, List, [], ◌∷◌,
  length, take, All, contains, count, Bool-cases, arith, contains-count,
}
use ccann.CuckooMap.{CuckooMap}
use ccann.RobinSet.{RobinSet}
use ccann.Floats.{Floats, flt}
use ccann.Neighbor.{Neighbor}
use ccann.Occlude.{ids_of, sort_pool}
use ccann.Occlude.Bounds.{sort_pool-count}
use ccann.Prune.Whole.{prune_neighbors_pq}
use ccann.Prune.Degree.{prune_neighbors-Selected}
use ccann.Merge.{
  DiskNode, NewNode, Populated, insert_nbrs, nhood_set, as_pool, limit_nhood, map_ids, rebuild_node,
  rebuild, live_medoid, Merged, merge_deletes,
}
use ccann.Merge.FirstPass.{
  ids_of_nodes, AllIn, AllClosed, IsGood, IsSeen, Live, Pop, pop, populate-IsGood, populate-sees,
  Distinct-count,
}

module _ (maps : CuckooMap ℕ) (nhoods : CuckooMap (List ℕ)) (S : RobinSet) (F : Floats)
    (alpha : F.Float) (range maxc fuel : ℕ) (pq_dist : ℕ → ℕ → F.Float) (id2tag : ℕ → ℕ)
    (deleted_nodes_set : S.Set) (below_max : flt F alpha F.max_float ≡ true) (known : List ℕ) where
  abbrev pub P : Type 0
  P = Pop maps nhoods S F alpha range maxc fuel pq_dist id2tag deleted_nodes_set below_max known

  abbrev pub Good : P → Type 0
  Good =
      IsGood maps nhoods S F alpha range maxc fuel pq_dist id2tag deleted_nodes_set below_max known

  abbrev pub AllSeen : P → Type 0
  AllSeen p =
      (id : ℕ)
      → contains id known ≡ true
      → IsSeen maps nhoods S F alpha range maxc fuel pq_dist id2tag deleted_nodes_set below_max
          known id p

  abbrev pub LiveIds : List ℕ → Type 0
  LiveIds =
      Live maps nhoods S F alpha range maxc fuel pq_dist id2tag deleted_nodes_set below_max known

  abbrev pub is_gone : ℕ → Bool
  is_gone id = S.find deleted_nodes_set (id2tag id)

  abbrev LiveSet : S.Set → Type 0
  LiveSet s = (k : ℕ) → S.find s k ≡ true → (is_gone k ≡ false) × (contains k known ≡ true)

  insert_nbrs-LiveSet :
      (nbrs : List ℕ) (s : S.Set)
      → LiveIds nbrs
      → LiveSet s
      → LiveSet (
          insert_nbrs maps nhoods S F alpha range maxc fuel pq_dist id2tag deleted_nodes_set nbrs s)
  insert_nbrs-LiveSet [] s h l = l
  insert_nbrs-LiveSet (nbr ∷ nbrs) s h l =
      insert_nbrs-LiveSet nbrs (S.insert s nbr) (λ k e. h k (ground arith))
        (λ k e. ground (arith, h k, l k, S.find-insert s nbr k))

  pub nhood_set-some :
      (p : P) (nbrs : List ℕ) (s : S.Set)
      → Good p
      → AllSeen p
      → AllIn known nbrs
      → LiveSet s
      → (after : S.Set) × (nhood_set maps nhoods S F alpha range maxc fuel pq_dist id2tag
            deleted_nodes_set p nbrs s
          ≡ some after)
        × LiveSet after
  unfolding nhood_set
  nhood_set-some p [] s g seen h l = (s, refl, l)
  nhood_set-some p (nbr ∷ nbrs) s g seen h l =
      let here = h nbr (ground arith) in
      elim (Bool-cases (is_gone nbr)) [
        | inl e ↦
            let (nhood, found) = (seen nbr here).kept e in
            let (after, q, r) =
              nhood_set-some p nbrs
                (insert_nbrs maps nhoods S F alpha range maxc fuel pq_dist id2tag deleted_nodes_set
                  nhood s)
                g seen (λ k c. h k (ground arith))
                (insert_nbrs-LiveSet nhood s (g.live nbr nhood found) l) in
            (after, rw (nhood_set, e, found) q, r)
        | inr e ↦
            let (after, q, r) =
              nhood_set-some p nbrs (S.insert s nbr) g seen (λ k c. h k (ground arith))
                (λ k c. ground (arith, h k, l k, S.find-insert s nbr k, e)) in
            (after, rw (nhood_set, e) q, r)
      ]

  ids_of-as_pool :
      (id : ℕ) (nbrs : List ℕ)
      → ids_of F
          (as_pool maps nhoods S F alpha range maxc fuel pq_dist id2tag deleted_nodes_set id nbrs)
        ≡ nbrs
  ids_of-as_pool id [] = refl
  ids_of-as_pool id (nbr ∷ nbrs) = ap (λ (l : List ℕ). nbr ∷ l) (ids_of-as_pool id nbrs)

  count-take :
      (k n : ℕ) (pool : List (Neighbor F))
      → count k (ids_of F (take n pool)) ≤ count k (ids_of F pool)
  count-take k zero pool = omega arith
  count-take k (suc n) [] = omega arith
  count-take k (suc n) (p ∷ pool) = ground (arith, count-take k n pool)

  -- The links of a node before they are renamed, chosen among `nhood`.
  pub record IsLimited (nhood links : List ℕ) : Type 0 where
    pub bound : length links ≤ range
    pub live : LiveIds links
    pub inside : (k : ℕ) → contains k links ≡ true → contains k nhood ≡ true

  pub limit_nhood-IsLimited :
      (id : ℕ) (nhood : List ℕ)
      → LiveIds nhood
      → ((k : ℕ) → count k nhood ≤ 1)
      → IsLimited nhood (
          limit_nhood maps nhoods S F alpha range maxc fuel pq_dist id2tag deleted_nodes_set id
            nhood)
  unfolding limit_nhood
  limit_nhood-IsLimited id nhood h once = elim (Bool-cases (ltb range (length nhood))) [
    | inr few ↦ rw few (record { bound = ground arith; live = h; inside = λ k e. e })
    | inl many ↦
        let all =
          as_pool maps nhoods S F alpha range maxc fuel pq_dist id2tag deleted_nodes_set id nhood in
        let pool = take maxc (sort_pool F all) in
        let sub : (k : ℕ) → count k (ids_of F pool) ≤ count k nhood = λ k. omega (
          arith,
          count-take k maxc (sort_pool F all),
          sort_pool-count F k all,
          ap (count k) (ids_of-as_pool id nhood),
        ) in
        rw many (pruned_pool pool sub)
  ]
    where
      pruned_pool :
          (pool : List (Neighbor F))
          → ((k : ℕ) → count k (ids_of F pool) ≤ count k nhood)
          → IsLimited nhood (prune_neighbors_pq F alpha range maxc fuel pq_dist pool [])
      pruned_pool [] sub = record {
        bound = omega arith;
        live = λ k e. absurd (cc e);
        inside = λ k e. absurd (cc e);
      }
      pruned_pool (p ∷ pool) sub =
          let (a, b) =
            prune_neighbors-Selected F alpha range maxc fuel below_max 0 pq_dist pq_dist (p ∷ pool)
              [] (omega arith) (λ k. omega (arith, sub k, once k)) in
          record {
            bound = a.bound;
            live = λ k e. h k (contains-count k (ids_of F (p ∷ pool)) nhood (sub k) (a.inside k e));
            inside = λ k e. contains-count k (ids_of F (p ∷ pool)) nhood (sub k) (a.inside k e);
          }

  -- A list of new ids.
  abbrev Below : ℕ → List ℕ → Type 0
  Below n ids = All (λ (id : ℕ). id < n) ids

  pub map_ids-some :
      (p : P) (links : List ℕ)
      → Good p
      → AllSeen p
      → LiveIds links
      → (ids : List ℕ) × (map_ids maps nhoods S F alpha range maxc fuel pq_dist id2tag
            deleted_nodes_set p.id_map links
          ≡ some ids)
        × (length ids ≡ length links)
        × Below p.new_npoints ids
  unfolding map_ids
  map_ids-some p [] g seen h = ([], refl, refl, tt)
  map_ids-some p (nbr ∷ links) g seen h =
      let (alive, there) = h nbr (ground arith) in
      let (v, found) = (seen nbr there).mapped alive in
      let (ids, e, size, below) = map_ids-some p links g seen (λ k c. h k (ground arith)) in
      (v ∷ ids, rw (map_ids, found, e) refl, ap suc size, (g.bounded nbr v found, below))

  -- A node of the new graph: its id and its links are below the number of points, and it has at
  -- most `range` links.
  pub record IsClosed (num_points : ℕ) (node : NewNode) : Type 0 where
    pub inside : node.new_id < num_points
    pub links : All (λ (id : ℕ). id < num_points) node.nbrs
    pub bound : length node.nbrs ≤ range

  rebuild_node-IsClosed :
      (p : P) (node : DiskNode)
      → Good p
      → AllSeen p
      → contains node.id known ≡ true
      → is_gone node.id ≡ false
      → AllIn known node.nbrs
      → (new : NewNode) × (rebuild_node maps nhoods S F alpha range maxc fuel pq_dist id2tag
            deleted_nodes_set p node
          ≡ some new)
        × IsClosed p.new_npoints new
  unfolding rebuild_node
  rebuild_node-IsClosed p node g seen there alive h =
      let (s, e, live) =
        nhood_set-some p node.nbrs S.empty g seen h (λ k c. absurd (cc (c, S.find-empty k))) in
      let others = S.erase s node.id in
      let nhood = S.elements others in
      let live_nhood : LiveIds nhood =
        λ k c. live k (ground (arith, S.contains-elements others k, S.find-erase s node.id k)) in
      let limited =
        limit_nhood-IsLimited node.id nhood live_nhood
          (λ k. Distinct-count k nhood (S.elements-Distinct others)) in
      let (ids, q, size, below) = map_ids-some p _ g seen limited.live in
      let (v, found) = (seen node.id there).mapped alive in
      (
        record { new_id = v; old_id = node.id; tag = id2tag node.id; nbrs = ids },
        rw (rebuild_node, e, q, found) refl,
        record {
          inside = g.bounded node.id v found;
          links = below;
          bound = omega (arith, size, limited.bound);
        },
      )

  rebuild-IsClosed :
      (p : P) (nodes : List DiskNode)
      → Good p
      → AllSeen p
      → AllIn known (ids_of_nodes nodes)
      → All (λ (node : DiskNode). AllIn known node.nbrs) nodes
      → (new : List NewNode) × (rebuild maps nhoods S F alpha range maxc fuel pq_dist id2tag
            deleted_nodes_set p nodes
          ≡ some new)
        × All (IsClosed p.new_npoints) new
  unfolding rebuild
  rebuild-IsClosed p [] g seen h hs = ([], refl, tt)
  rebuild-IsClosed p (node ∷ nodes) g seen h (c, cs) =
      let (rest, e, closed) = rebuild-IsClosed p nodes g seen (λ k q. h k (ground arith)) cs in
      elim (Bool-cases (is_gone node.id)) [
        | inl skip ↦ (rest, rw (rebuild, skip) e, closed)
        | inr alive ↦
            let (new, q, one) =
              rebuild_node-IsClosed p node g seen (h node.id (ground arith)) alive c in
            (new ∷ rest, rw (rebuild, alive, q, e) refl, (one, closed))
      ]

module _ (maps : CuckooMap ℕ) (nhoods : CuckooMap (List ℕ)) (S : RobinSet) (F : Floats)
    (alpha : F.Float) (range maxc fuel : ℕ) (pq_dist : ℕ → ℕ → F.Float) (id2tag : ℕ → ℕ)
    (deleted_nodes_set : S.Set) (below_max : flt F alpha F.max_float ≡ true) where
  -- Where every link of a node is the id of a node in the file, the start node is one that is not
  -- deleted, and alpha is below the largest float, `merge_deletes` ends without an exception of
  -- its maps: every node of the new graph has an id below the number of points, at most `range`
  -- links, and only links below the number of points, and so has the start node.
  pub merge_deletes-IsClosed :
      (n_sampled_nbrs : ℕ) (nodes : List DiskNode) (medoid : ℕ)
      → AllClosed maps nhoods S F alpha range maxc fuel pq_dist id2tag deleted_nodes_set below_max
          (ids_of_nodes nodes)
          nodes
      → contains medoid (ids_of_nodes nodes) ≡ true
      → S.find deleted_nodes_set (id2tag medoid) ≡ false
      → (m : Merged maps nhoods S F alpha range maxc fuel pq_dist id2tag deleted_nodes_set)
        × (merge_deletes maps nhoods S F alpha range maxc fuel pq_dist id2tag deleted_nodes_set
              n_sampled_nbrs nodes medoid
            ≡ some m)
        × (m.medoid < m.num_points)
        × All
            (IsClosed maps nhoods S F alpha range maxc fuel pq_dist id2tag deleted_nodes_set
              below_max
              (ids_of_nodes nodes)
              m.num_points)
            m.nodes
  unfolding merge_deletes live_medoid
  merge_deletes-IsClosed n nodes medoid closed there alive =
      let known = ids_of_nodes nodes in
      let p0 : Populated maps nhoods S F alpha range maxc fuel pq_dist id2tag deleted_nodes_set =
        record { id_map = maps.empty; deleted_nhoods = nhoods.empty; new_npoints = 0 } in
      let p =
        pop maps nhoods S F alpha range maxc fuel pq_dist id2tag deleted_nodes_set below_max known n
          nodes p0 in
      let good =
        populate-IsGood maps nhoods S F alpha range maxc fuel pq_dist id2tag deleted_nodes_set
          below_max known n nodes p0 closed
          (record {
            bounded = λ id v q. absurd (cc (q, maps.find-empty id));
            live = λ id l q. absurd (cc (q, nhoods.find-empty id));
          }) in
      let seen =
        populate-sees maps nhoods S F alpha range maxc fuel pq_dist id2tag deleted_nodes_set
          below_max known n nodes p0 in
      let (new, e, all) =
        rebuild-IsClosed maps nhoods S F alpha range maxc fuel pq_dist id2tag deleted_nodes_set
          below_max known p nodes good seen (λ k q. q) closed in
      let (v, found) = (seen medoid there).mapped alive in
      (
        record { num_points = p.new_npoints; medoid = v; nodes = new },
        rw (merge_deletes, e, live_medoid, alive, found) refl,
        good.bounded medoid v found,
        all,
      )
