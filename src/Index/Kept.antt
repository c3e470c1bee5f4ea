-- ===== src/Index/Kept.antt =====
-- src/index.cpp: the entries of the list that the visits of one round leave as they are.
use ccann.Prelude.{
  ℕ, suc, ◌≤◌, ◌<◌, ◌≡◌, refl, ap, ◌∙◌, inl, inr, List, [], ◌∷◌, ◌++◌, length, get_or, take, drop,
  arith, length-append, length-take, length-drop, get_or-take, get_or-append, get_or-insert_before,
  length-insert_at, insert_at,
}
use ccann.Floats.{Floats}
use ccann.RobinSet.{RobinSet}
use ccann.Neighbor.{Neighbor, insert_into_pool}
use ccann.Index.{Index}
use ccann.Index.Walk.{Walk, blank, entry, met, array_after, visit, visit_all}
use ccann.Index.Rounds.{insert_into_pool-Shape}

module _ (S : RobinSet) (F : Floats) (V : Type 0) (compare : V → V → F.Float) (i : Index S V)
    (node_coords : V) (l_size : ℕ) where
  -- What one or more visits leave of the entries before the least index of an insertion.
  pub record Kept (nk : ℕ) (w : Walk S F) (m : ℕ) (after : Walk S F) : Type 0 where
    pub least : m ≤ nk
    pub size : length after.best ≡ suc l_size
    pub within : after.l ≤ l_size
    pub longer : w.l ≤ after.l
    pub same :
        (j : ℕ) → j < m → j < w.l → entry S F V compare after.best j ≡ entry S F V compare w.best j

  array_after-Kept :
      (best : List (Neighbor F)) (l : ℕ) (nn : Neighbor F)
      → length best ≡ suc l_size
      → l ≤ l_size
      → let placed = insert_into_pool F (take l best) nn in
        (length (array_after S F V compare placed.1 best) ≡ suc l_size)
        × ((j : ℕ)
            → j < placed.0
            → j < l
            → entry S F V compare (array_after S F V compare placed.1 best) j
              ≡ entry S F V compare best j)
  array_after-Kept best l nn size fit =
      let pool = take l best in
      let short = length-take l best (omega arith) in
      let at = (insert_into_pool F pool nn).0 in
      elim (insert_into_pool-Shape F pool nn).shape [
        | inl (e, q) ↦ (
          omega (
            arith,
            length-append pool (drop (length pool) best),
            length-drop (length pool) best,
            ap (λ r. length (r ++ drop (length r) best)) e,
          ),
          λ j h k.
              ap (λ r. get_or (r ++ drop (length r) best) j (blank S F V compare)) e
              ∙ get_or-append pool (drop (length pool) best) j (blank S F V compare) (omega arith)
              ∙ get_or-take l best j (blank S F V compare) k,
        )
        | inr e ↦
            let grown = insert_at pool at nn in
            (
              omega (
                arith,
                length-append grown (drop (length grown) best),
                length-drop (length grown) best,
                length-insert_at pool at nn,
                ap (λ r. length (r ++ drop (length r) best)) e,
              ),
              λ j h k.
                  ap (λ r. get_or (r ++ drop (length r) best) j (blank S F V compare)) e
                  ∙ get_or-append grown (drop (length grown) best) j (blank S F V compare)
                      (omega (arith, length-insert_at pool at nn))
                  ∙ get_or-insert_before pool at j nn (blank S F V compare) h (omega arith)
                  ∙ get_or-take l best j (blank S F V compare) k,
            )
      ]

  visit-Kept :
      (id nk : ℕ) (w : Walk S F)
      → length w.best ≡ suc l_size
      → w.l ≤ l_size
      → let (m, after) = visit S F V compare i node_coords l_size id (nk, w) in Kept nk w m after
  unfolding visit
  visit-Kept id nk w size fit =
      let (a, b) = array_after-Kept w.best w.l (met S F V compare i node_coords id) size fit in
      record {
        least = ground arith;
        size = ground arith;
        within = ground arith;
        longer = ground arith;
        same = λ j h k. ground (arith, b j);
      }

  pub visit_all-Kept :
      (des : List ℕ) (nk : ℕ) (w : Walk S F)
      → length w.best ≡ suc l_size
      → w.l ≤ l_size
      → let (m, after) = visit_all S F V compare i node_coords l_size des (nk, w) in
        Kept nk w m after
  unfolding visit_all
  visit_all-Kept [] nk w size fit = record {
    least = omega arith;
    size = size;
    within = fit;
    longer = omega arith;
    same = λ j h k. refl;
  }
  visit_all-Kept (id ∷ des) nk w size fit =
      let (m, one) = visit S F V compare i node_coords l_size id (nk, w) in
      let a = visit-Kept id nk w size fit in
      let b = visit_all-Kept des m one a.size a.within in
      record {
        least = omega (arith, a.least, b.least);
        size = b.size;
        within = b.within;
        longer = omega (arith, a.longer, b.longer);
        same = λ j h k. b.same j h (omega (arith, a.longer)) ∙ a.same j (omega (arith, b.least)) k;
      }
