-- ===== src/Tests/Prune.antt =====
-- The theorems on the delta pruning, for two candidates too many by one, in hundredths.
use ccann.Prelude.{ℕ, ◌<◌, ◌≡◌, refl, some, [], ◌∷◌, length, arith}
use ccann.Floats.{hundredths}
use ccann.Prune.{TriangleNeighbor, finish, delta_prune_neighbors_pq}
use ccann.Prune.Delta.{delta_prune_neighbors_pq-some, delta_prune_neighbors_pq-last}

abbrev near : TriangleNeighbor hundredths
near = record { id = 8; tgt_dis = 0; distance = 100 }

abbrev far : TriangleNeighbor hundredths
far = record { id = 3; tgt_dis = 200; distance = 300 }

abbrev pq_100 : ℕ → ℕ → ℕ
pq_100 a b = 100

delta_prune_neighbors_pq-some_example :
    (e : ℕ) × (e < 2)
    × (delta_prune_neighbors_pq hundredths 120 1 pq_100 9 (near ∷ far ∷ []) near 0
        ≡ some (finish hundredths 120 1 pq_100 (near ∷ far ∷ []) e))
    × (length (finish hundredths 120 1 pq_100 (near ∷ far ∷ []) e) ≡ 1)
delta_prune_neighbors_pq-some_example =
    delta_prune_neighbors_pq-some hundredths 120 1 pq_100 9 (near ∷ far ∷ []) near 0 refl
      (omega arith)

delta_prune_neighbors_pq-last_example :
    delta_prune_neighbors_pq hundredths 120 1 pq_100 9 (near ∷ far ∷ []) near 0
    ≡ some (finish hundredths 120 1 pq_100 (near ∷ far ∷ []) 0)
delta_prune_neighbors_pq-last_example =
    delta_prune_neighbors_pq-last hundredths 120 1 pq_100 8 (near ∷ []) far near 0 refl refl refl
      refl refl
