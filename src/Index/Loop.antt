-- ===== src/Index/Loop.antt =====
-- src/index.cpp: the rounds of the walk over the graph, and how many there can be.
use ccann.Prelude.{
  ℕ, zero, suc, ◌+◌, ◌-◌, ◌≤◌, ◌<◌, ◌≡◌, refl, ap, ◌∙◌, inl, inr, Bool, true, false, not, ltb, leb,
  ◌==◌, List, length, get_or, set, ◌&&◌, Bool-cases, arith, get_or-set, length-set,
}
use ccann.Floats.{Floats}
use ccann.RobinSet.{RobinSet}
use ccann.Neighbor.{Neighbor}
use ccann.Index.{Index, row}
use ccann.Index.Walk.{
  Walk, finished, blank, entry, visit_all, wrong_id, mark_expanded, next_k, walk_from,
}
use ccann.Index.Rounds.{pending, pending-set, unseen, limit, work, visit_all-work}
use ccann.Index.Kept.{visit_all-Kept}

module _ (S : RobinSet) (F : Floats) (V : Type 0) (compare : V → V → F.Float) (i : Index S V)
    (node_coords : V) (l_size : ℕ) where
  -- Rounds that are enough while m expansions and j steps to the end of the array are left.
  abbrev pub enough : ℕ → ℕ → ℕ
  enough zero j = suc j
  enough (suc m) j = suc (j + enough m (suc l_size))

  enough-some : (m j : ℕ) → 1 ≤ enough m j
  enough-some zero j = omega arith
  enough-some (suc m) j = omega arith

  enough-step : (m j : ℕ) → 1 ≤ j → enough m (j - 1) < enough m j
  enough-step zero j h = omega arith
  enough-step (suc m) j h = omega arith

  enough-expand : (m j : ℕ) → 1 ≤ m → enough (m - 1) (suc l_size) < enough m j
  enough-expand zero j h = absurd (omega arith)
  enough-expand (suc m) j h =
      let z : suc m - 1 ≡ m = omega arith in omega (arith, ap (λ n. enough n (suc l_size)) z)

  abbrev off_at : ℕ → Walk S F → List (Neighbor F)
  off_at k w = set w.best k (record (entry S F V compare w.best k) { flag = false })

  mark_expanded_eq :
      (ret_frozen : Bool) (k : ℕ) (w : Walk S F)
      → let marked = mark_expanded S F V compare i ret_frozen k w in
        (marked.best ≡ off_at k w)
        × (marked.l ≡ w.l)
        × (marked.inserted_into_pool ≡ w.inserted_into_pool)
  unfolding mark_expanded
  mark_expanded_eq ret_frozen k w =
      elim (Bool-cases
        (((entry S F V compare w.best k).id == i.ep) && ltb 0 i.num_frozen_pts && not ret_frozen)) [
          | inl e ↦ rw e (refl, refl, refl)
          | inr e ↦ rw e (refl, refl, refl)
        ]

  -- The entries before k are expanded.
  abbrev pub Expanded : ℕ → Walk S F → Type 0
  Expanded k w = (j : ℕ) → j < k → (entry S F V compare w.best j).flag ≡ false

  -- Between two rounds of the walk.
  pub record Ready (m j k : ℕ) (w : Walk S F) : Type 0 where
    pub size : length w.best ≡ suc l_size
    pub fit : w.l ≤ l_size
    pub todo : work S F V compare i node_coords l_size w ≤ m
    pub ahead : w.l - k ≤ j
    pub done : Expanded k w

  off-flag :
      (k j : ℕ) (w : Walk S F)
      → Expanded k w
      → j ≤ k
      → k < length w.best
      → (get_or (off_at k w) j (blank S F V compare)).flag ≡ false
  off-flag k j w d h e =
      let now =
        get_or-set w.best k (record (entry S F V compare w.best k) { flag = false }) j
          (blank S F V compare) e in
      elim (Bool-cases (k == j)) [
        | inl last ↦ ground (arith, ap (λ (p : Neighbor F). p.flag) now)
        | inr old ↦ ground (arith, ap (λ (p : Neighbor F). p.flag) now, d j)
      ]

  expand-Ready :
      (ret_frozen : Bool) (m j k : ℕ) (w : Walk S F)
      → Ready m j k w
      → k < w.l
      → (entry S F V compare w.best k).flag ≡ true
      → wrong_id S F V compare
          (i.max_points + i.num_frozen_pts)
          (row i.final_graph (entry S F V compare w.best k).id)
        ≡ false
      → let (nk, after) =
          visit_all S F V compare i node_coords l_size
            (row i.final_graph (entry S F V compare w.best k).id)
            (w.l, mark_expanded S F V compare i ret_frozen k w) in
        (1 ≤ m) × Ready (m - 1) (suc l_size) (next_k S F V compare nk k) after
  expand-Ready ret_frozen m j k w r h fresh valid =
      let des = row i.final_graph (entry S F V compare w.best k).id in
      let marked = mark_expanded S F V compare i ret_frozen k w in
      let (b, l, s) = mark_expanded_eq ret_frozen k w in
      let size : length marked.best ≡ suc l_size = omega (
        arith,
        ap (λ (x : List (Neighbor F)). length x) b,
        length-set w.best k (record (entry S F V compare w.best k) { flag = false }),
        r.size,
      ) in
      let fit : marked.l ≤ l_size = omega (arith, l, r.fit) in
      let kept = visit_all-Kept S F V compare i node_coords l_size des w.l marked size fit in
      let (less, within) =
        visit_all-work S F V compare i node_coords l_size des w.l marked valid fit in
      let fewer : pending F (off_at k w) + 1 ≡ pending F w.best =
        pending-set F w.best k (record (entry S F V compare w.best k) { flag = false })
          (blank S F V compare) refl refl fresh in
      let lighter : work S F V compare i node_coords l_size marked + 1
          ≡ work S F V compare i node_coords l_size w =
        omega (
          arith,
          ap (λ (x : S.Set). unseen S (limit S F V compare i node_coords l_size) x) s,
          ap (λ (x : List (Neighbor F)). pending F x) b,
          fewer,
        ) in
      (
        omega (arith, r.todo, lighter),
        record {
          size = kept.size;
          fit = kept.within;
          todo = omega (arith, less, lighter, r.todo);
          ahead = omega (arith, kept.within);
          done = λ x e.
              ap (λ (p : Neighbor F). p.flag)
                (kept.same x (ground arith) (ground (arith, l, kept.least)))
              ∙ ap (λ (y : List (Neighbor F)). (get_or y x (blank S F V compare)).flag) b
              ∙ off-flag k x w r.done (ground arith) (omega (arith, r.size, r.fit));
        },
      )

  -- Every link of the graph is the id of a point or of the frozen point.
  abbrev pub HasValidLinks : Type 0
  HasValidLinks =
      (node : ℕ)
      → wrong_id S F V compare (i.max_points + i.num_frozen_pts) (row i.final_graph node) ≡ false

  pub walk_from-finished :
      (ret_frozen : Bool) (fuel m j k : ℕ) (w : Walk S F)
      → HasValidLinks
      → Ready m j k w
      → enough m j ≤ fuel
      → (after : Walk S F) × (walk_from S F V compare i node_coords l_size ret_frozen fuel k w
          ≡ finished after)
        × Expanded after.l after
  unfolding walk_from
  walk_from-finished ret_frozen zero m j k w v r h = absurd (omega (arith, enough-some m j))
  walk_from-finished ret_frozen (suc fuel) m j k w v r h = elim (Bool-cases (leb w.l k)) [
    | inl over ↦ (w, rw (walk_from, over) refl, λ x e. r.done x (ground arith))
    | inr more ↦ elim (Bool-cases (entry S F V compare w.best k).flag) [
      | inl fresh ↦
          let ok = v (entry S F V compare w.best k).id in
          let (some_left, next) = expand-Ready ret_frozen m j k w r (ground arith) fresh ok in
          let (after, e, q) =
            walk_from-finished ret_frozen fuel (m - 1) (suc l_size) _ _ v next
              (omega (arith, enough-expand m j some_left)) in
          (after, rw (walk_from, more, fresh, ok) e, q)
      | inr stale ↦
          let next : Ready m (j - 1) (k + 1) w = record {
            size = r.size;
            fit = r.fit;
            todo = r.todo;
            ahead = omega (arith, r.ahead);
            done = λ x e. elim (Bool-cases (x == k)) [
              | inl last ↦ ground arith
              | inr old ↦ r.done x (ground arith)
            ];
          } in
          let (after, e, q) =
            walk_from-finished ret_frozen fuel m (j - 1) (k + 1) w v next
              (omega (arith, enough-step m j (ground (arith, r.ahead)))) in
          (after, rw (walk_from, more, stale) e, q)
    ]
  ]
