-- ===== src/Merge/Linked.antt =====
-- src/update/delete_merge.cpp: from which nodes to which the links of merge_deletes go.
use ccann.Prelude.{ℕ, ◌≤◌, ◌≡◌, Bool, true, false, some, List, length, All, contains}
use ccann.CuckooMap.{CuckooMap}
use ccann.RobinSet.{RobinSet}
use ccann.Floats.{Floats, flt}
use ccann.Merge.{DiskNode, NewNode}
use ccann.Merge.Closed.{P, Good, AllSeen}
use ccann.Merge.Origin.{Some, gone, IsFrom, Candidate}

-- The nodes of a list stand in another one.
abbrev AllOf : List DiskNode → List DiskNode → Type 1
AllOf all nodes = All (λ (node : DiskNode). (P : DiskNode → Type 0) → P node → Some P all) nodes

module _ (maps : CuckooMap ℕ) (nhoods : CuckooMap (List ℕ)) (S : RobinSet) (F : Floats)
    (alpha : F.Float) (range maxc fuel : ℕ) (pq_dist : ℕ → ℕ → F.Float) (id2tag : ℕ → ℕ)
    (deleted_nodes_set : S.Set) (below_max : flt F alpha F.max_float ≡ true) where
  abbrev is_gone : ℕ → Bool
  is_gone = gone maps nhoods S F alpha range maxc fuel pq_dist id2tag deleted_nodes_set

  -- A node a of the file has k as a neighbour, or a deleted neighbour that has.
  abbrev pub IsNear : List DiskNode → ℕ → ℕ → Type 0
  IsNear all a k =
      Some
        (λ (node : DiskNode).
          (node.id ≡ a)
          × Candidate maps nhoods S F alpha range maxc fuel pq_dist id2tag deleted_nodes_set all
              node.nbrs k)
        all

  -- A node of the new graph: it was not deleted, has at most `range` links, and each is the new id
  -- of a node of the new graph that was near it.
  pub record IsLinked (all : List DiskNode) (new_nodes : List NewNode) (new : NewNode)
      : Type 0 where
    pub alive : is_gone new.old_id ≡ false
    pub tag : new.tag ≡ id2tag new.old_id
    pub bound : length new.nbrs ≤ range
    pub links :
        (v : ℕ)
        → contains v new.nbrs ≡ true
        → Some (λ (w : NewNode). (w.new_id ≡ v) × IsNear all new.old_id w.old_id) new_nodes

  module _ (known : List ℕ) (all : List DiskNode)
      (p : P maps nhoods S F alpha range maxc fuel pq_dist id2tag deleted_nodes_set below_max known)
      (good : Good maps nhoods S F alpha range maxc fuel pq_dist id2tag deleted_nodes_set below_max
        known p)
      (seen : AllSeen maps nhoods S F alpha range maxc fuel pq_dist id2tag deleted_nodes_set
        below_max known p)
      (from : IsFrom maps nhoods S F alpha range maxc fuel pq_dist id2tag deleted_nodes_set all
        p) where
    record IsNamed (new : NewNode) : Type 0 where
      alive : is_gone new.old_id ≡ false
      tag : new.tag ≡ id2tag new.old_id
      bound : length new.nbrs ≤ range
      links :
          (v : ℕ)
          → contains v new.nbrs ≡ true
          → (k : ℕ) × (maps.find p.id_map k ≡ some v)
            × (is_gone k ≡ false)
            × (contains k known ≡ true)
            × IsNear all new.old_id k
