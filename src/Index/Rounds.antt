-- ===== src/Index/Rounds.antt =====
-- src/index.cpp: the walk over the graph ends, and every entry of its result is expanded.
use ccann.Prelude.{
  ℕ, zero, suc, ◌+◌, ◌-◌, ◌≤◌, ◌<◌, ◌≡◌, refl, sym, subst, ◌⊎◌, inl, inr, true, false, ◌==◌,
  if◌then◌else◌, List, [], ◌∷◌, ◌++◌, length, get_or, set, take, drop, ◌||◌, Bool-cases,
  Option-cases, arith, insert_at, length-insert_at,
}
use ccann.Floats.{Floats}
use ccann.RobinSet.{RobinSet}
use ccann.Neighbor.{
  Neighbor, insert_into_pool, insert_between, place, scan_equal, farther, closer, same_id,
}
use ccann.Index.{Index}
use ccann.Index.Walk.{Walk, met, visit, visit_all, wrong_id}

-- A pool after `InsertIntoPool`: as it was, or with the new entry at the index that is returned.
module _ (F : Floats) (addr : List (Neighbor F)) (nn : Neighbor F) where
  pub record Shape (r : ℕ × List (Neighbor F)) : Type 0 where
    pub shape : ((r.1 ≡ addr) × (r.0 ≡ length addr + 1)) ⊎ (r.1 ≡ insert_at addr r.0 nn)

  place-Shape : (left right : ℕ) → Shape (place F addr nn left right)
  unfolding place
  place-Shape left right = elim (Bool-cases (same_id F addr nn left || same_id F addr nn right)) [
    | inl e ↦ rw e (record { shape = inl (refl, refl) })
    | inr e ↦ rw e (record { shape = inr refl })
  ]

  insert_between-Shape : (left right : ℕ) → Shape (insert_between F addr nn (left, right))
  unfolding insert_between
  insert_between-Shape left right = elim (Option-cases (scan_equal F addr nn left)) [
    | inl e ↦ rw (e, insert_between) (record { shape = inl (refl, refl) })
    | inr (stop, e) ↦ rw (e, insert_between) (place-Shape stop right)
  ]

  pub insert_into_pool-Shape : Shape (insert_into_pool F addr nn)
  unfolding insert_into_pool
  insert_into_pool-Shape = elim (Bool-cases (farther F addr nn 0)) [
    | inl e ↦ rw e (record { shape = inr refl })
    | inr e ↦ elim (Bool-cases (closer F addr nn (length addr - 1))) [
      | inl e' ↦ rw (e, e') (record { shape = inr refl })
      | inr e' ↦ rw (e, e') (insert_between-Shape _ _)
    ]
  ]

module _ (F : Floats) where
  abbrev array_after_of : List (Neighbor F) → ℕ → Neighbor F → List (Neighbor F)
  array_after_of best l nn =
      let placed = (insert_into_pool F (take l best) nn).1 in placed ++ drop (length placed) best

  -- The number of entries that are still to be expanded.
  abbrev pub pending : List (Neighbor F) → ℕ
  pending [] = 0
  pending (p ∷ best) = (if p.flag then 1 else 0) + pending best

  pending-append : (xs ys : List (Neighbor F)) → pending (xs ++ ys) ≡ pending xs + pending ys
  pending-append [] ys = omega arith
  pending-append (x ∷ xs) ys = ground (arith, pending-append xs ys)

  pending-insert_at :
      (xs : List (Neighbor F)) (j : ℕ) (nn : Neighbor F)
      → pending (insert_at xs j nn) ≤ pending xs + 1
  pending-insert_at [] j nn = ground arith
  pending-insert_at (x ∷ xs) zero nn = ground arith
  pending-insert_at (x ∷ xs) (suc j) nn = ground (arith, pending-insert_at xs j nn)

  pending-split :
      (n : ℕ) (xs : List (Neighbor F)) → pending (take n xs) + pending (drop n xs) ≡ pending xs
  pending-split zero xs = omega arith
  pending-split (suc n) [] = omega arith
  pending-split (suc n) (x ∷ xs) = ground (arith, pending-split n xs)

  pending-split_take :
      (n : ℕ) (xs : List (Neighbor F))
      → pending (take n xs) + pending (drop (length (take n xs)) xs) ≡ pending xs
  pending-split_take zero xs = omega arith
  pending-split_take (suc n) [] = omega arith
  pending-split_take (suc n) (x ∷ xs) = ground (arith, pending-split_take n xs)

  pending-drop :
      (m n : ℕ) (xs : List (Neighbor F)) → n ≤ m → pending (drop m xs) ≤ pending (drop n xs)
  pending-drop m zero xs h = omega (arith, pending-split m xs)
  pending-drop zero (suc n) xs h = absurd (omega arith)
  pending-drop (suc m) (suc n) [] h = omega arith
  pending-drop (suc m) (suc n) (x ∷ xs) h = pending-drop m n xs (omega arith)

  -- One insertion leaves at most one more entry to expand.
  pending-array_after :
      (best : List (Neighbor F)) (l : ℕ) (nn : Neighbor F)
      → pending (array_after_of best l nn) ≤ pending best + 1
  pending-array_after best l nn =
      let pool = take l best in
      let after = (insert_into_pool F pool nn).1 in
      let split = pending-split_take l best in
      let joined = pending-append after (drop (length after) best) in
      elim (insert_into_pool-Shape F pool nn).shape [
        | inl (e, q) ↦
            let same : pending (pool ++ drop (length pool) best) ≤ pending best + 1 =
              omega (arith, pending-append pool (drop (length pool) best), split) in
            subst (λ r. pending (r ++ drop (length r) best) ≤ pending best + 1) (sym e) same
        | inr e ↦
            let at = (insert_into_pool F pool nn).0 in
            let grown = insert_at pool at nn in
            let more : pending (grown ++ drop (length grown) best) ≤ pending best + 1 = omega (
              arith,
              pending-append grown (drop (length grown) best),
              split,
              pending-insert_at pool at nn,
              pending-drop (length grown) (length pool) best
                  (omega (arith, length-insert_at pool at nn)),
            ) in
            subst (λ r. pending (r ++ drop (length r) best) ≤ pending best + 1) (sym e) more
      ]

  pub pending-set :
      (best : List (Neighbor F)) (k : ℕ) (off d : Neighbor F)
      → off.flag ≡ false
      → d.flag ≡ false
      → (get_or best k d).flag ≡ true
      → pending (set best k off) + 1 ≡ pending best
  pending-set [] k off d o h e = absurd (cc (h, e))
  pending-set (x ∷ best) zero off d o h e = ground arith
  pending-set (x ∷ best) (suc k) off d o h e = ground (arith, pending-set best k off d o h e)

module _ (S : RobinSet) where
  -- The ids below n that were not met.
  abbrev pub unseen : ℕ → S.Set → ℕ
  unseen zero s = 0
  unseen (suc n) s = (if S.find s n then 0 else 1) + unseen n s

  unseen-past : (n id : ℕ) (s : S.Set) → n ≤ id → unseen n (S.insert s id) ≡ unseen n s
  unseen-past zero id s h = refl
  unseen-past (suc n) id s h = ground (arith, unseen-past n id s, S.find-insert s id n)

  unseen-insert :
      (n id : ℕ) (s : S.Set)
      → id < n
      → S.find s id ≡ false
      → unseen n (S.insert s id) + 1 ≡ unseen n s
  unseen-insert zero id s h e = absurd (omega arith)
  unseen-insert (suc n) id s h e = elim (Bool-cases (id == n)) [
    | inl last ↦
        let same : id ≡ n = ground arith in ground (arith, unseen-past n id s, S.find-insert s id n)
    | inr old ↦ ground (arith, unseen-insert n id s, S.find-insert s id n)
  ]

module _ (S : RobinSet) (F : Floats) (V : Type 0) (compare : V → V → F.Float) (i : Index S V)
    (node_coords : V) (l_size : ℕ) where
  abbrev pub limit : ℕ
  limit = i.max_points + i.num_frozen_pts

  -- What is left to do falls with every entry that is expanded.
  abbrev pub work : Walk S F → ℕ
  work w = unseen S limit w.inserted_into_pool + pending F w.best

  visit-work :
      (id nk : ℕ) (w : Walk S F)
      → id < limit
      → work (visit S F V compare i node_coords l_size id (nk, w)).1 ≤ work w
  unfolding visit
  visit-work id nk w h = ground (
    arith,
    unseen-insert S limit id w.inserted_into_pool,
    pending-array_after F w.best w.l (met S F V compare i node_coords id),
  )

  visit-l :
      (id nk : ℕ) (w : Walk S F)
      → w.l ≤ l_size
      → (visit S F V compare i node_coords l_size id (nk, w)).1.l ≤ l_size
  unfolding visit
  visit-l id nk w h = ground arith

  pub visit_all-work :
      (des : List ℕ) (nk : ℕ) (w : Walk S F)
      → wrong_id S F V compare limit des ≡ false
      → w.l ≤ l_size
      → let (m, after) = visit_all S F V compare i node_coords l_size des (nk, w) in
        (work after ≤ work w) × (after.l ≤ l_size)
  unfolding visit_all
  visit_all-work [] nk w h e = (omega arith, e)
  visit_all-work (id ∷ des) nk w h e =
      let (m, one) = visit S F V compare i node_coords l_size id (nk, w) in
      let (a, b) = visit_all-work des m one (ground arith) (visit-l id nk w e) in
      (omega (arith, a, visit-work id nk w (ground arith)), b)
