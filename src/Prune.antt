-- ===== src/Prune.antt =====
-- src/utils/prune_neighbors.cpp: which of `range + 1` neighbours a node gives up, by distances from the
-- product quantization.
pub mod Delta
pub mod Whole
pub mod Degree
use ccann.Prelude.{
  ℕ, zero, suc, ◌+◌, ◌-◌, Bool, not, ◌==◌, if◌then◌else◌, Option, none, some, List, [], ◌∷◌, length,
  erase_at, get_or,
}
use ccann.Floats.{Floats, flt, feq}

pub record TriangleNeighbor (F : Floats) : Type 0 where
  pub id : ℕ
  pub tgt_dis : F.Float
  pub distance : F.Float

-- `alpha` and `range` are fields of the index; `pq_dist` stands for `compute_pq_dists`.
module _ (F : Floats) (alpha : F.Float) (range : ℕ) (pq_dist : ℕ → ℕ → F.Float) where
  abbrev pub ids : List (TriangleNeighbor F) → List ℕ
  ids [] = []
  ids (p ∷ pool) = p.id ∷ ids pool

  -- One entry of the fast path: its index, or `range` for the target, or neither.
  unfoldable pub judge : F.Float → F.Float → ℕ → TriangleNeighbor F → Option ℕ
  judge cur_alpha tgt_nbr_dis i p =
      if feq F p.distance F.zero_float
      then none
      else if flt F tgt_nbr_dis p.distance
      then (if flt F cur_alpha (F.div p.distance p.tgt_dis) then some i else none)
      else (if flt F cur_alpha (F.div tgt_nbr_dis p.tgt_dis) then some range else none)

  -- The loop from the last entry down; `i` is the index of the first entry of the list.
  unfoldable pub fast_scan : F.Float → F.Float → ℕ → List (TriangleNeighbor F) → Option ℕ
  unfolding judge
  fast_scan cur_alpha tgt_nbr_dis i [] = none
  fast_scan cur_alpha tgt_nbr_dis i (p ∷ pool) =
      elim (fast_scan cur_alpha tgt_nbr_dis (i + 1) pool) [
        | some e ↦ some e
        | none ↦ judge cur_alpha tgt_nbr_dis i p
      ]

  -- `while (cur_alpha >= (1 - 1e-5) && to_evict == -1)`, on fuel; none stands for -1.
  unfoldable pub fast_rounds : ℕ → F.Float → F.Float → List (TriangleNeighbor F) → Option ℕ
  unfolding fast_scan
  fast_rounds zero cur_alpha tgt_nbr_dis pool = none
  fast_rounds (suc fuel) cur_alpha tgt_nbr_dis pool =
      let again = fast_rounds fuel (F.div cur_alpha F.growth) tgt_nbr_dis pool in
      if flt F cur_alpha F.almost_one
      then none
      else elim (fast_scan cur_alpha tgt_nbr_dis 0 pool) [ some e ↦ some e | none ↦ again ]

  unfoldable pub fast_delta_prune_neighbors_pq : ℕ → List (TriangleNeighbor F) → F.Float → Option ℕ
  unfolding fast_rounds
  fast_delta_prune_neighbors_pq fuel pool tgt_nbr_dis = fast_rounds fuel alpha tgt_nbr_dis pool

  -- The first entry behind `p` that `p` occludes.
  unfoldable pub occluded : TriangleNeighbor F → ℕ → List (TriangleNeighbor F) → Option ℕ
  occluded p t [] = none
  occluded p t (q ∷ pool) =
      let later = occluded p (t + 1) pool in
      if flt F alpha (F.div q.distance (pq_dist p.id q.id)) then some t else later

  unfoldable pub slow_scan : ℕ → ℕ → List (TriangleNeighbor F) → Option ℕ
  unfolding occluded
  slow_scan tgt_idx start [] = none
  slow_scan tgt_idx start (p ∷ pool) =
      let later = slow_scan tgt_idx (start + 1) pool in
      let here : Option ℕ = elim (occluded p (start + 1) pool) [ some t ↦ some t | none ↦ later ] in
      if start == tgt_idx then later else here

  -- `finish`: all ids but the one to evict.
  abbrev pub finish : List (TriangleNeighbor F) → ℕ → List ℕ
  finish pool to_evict = erase_at (ids pool) to_evict

  -- none: `crash()`, on a pool of another size.
  unfoldable pub slow_delta_prune_neighbors_pq : List (TriangleNeighbor F) → ℕ → Option (List ℕ)
  unfolding slow_scan
  slow_delta_prune_neighbors_pq pool tgt_idx =
      let pruned : List ℕ = elim (slow_scan tgt_idx 0 pool) [
        | some t ↦ finish pool t
        | none ↦ finish pool (length pool - 1)
      ] in
      if length pool == range + 1 then some pruned else none

  unfoldable pub delta_prune_neighbors_pq :
      ℕ → List (TriangleNeighbor F) → TriangleNeighbor F → ℕ → Option (List ℕ)
  unfolding fast_delta_prune_neighbors_pq slow_delta_prune_neighbors_pq
  delta_prune_neighbors_pq fuel pool tgt tgt_idx =
      elim (fast_delta_prune_neighbors_pq fuel pool (get_or pool tgt_idx tgt).distance) [
        | some e ↦ some (finish pool (if e == range then tgt_idx else e))
        | none ↦ slow_delta_prune_neighbors_pq pool tgt_idx
      ]
