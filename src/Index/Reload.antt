-- ===== src/Index/Reload.antt =====
-- src/index.cpp: a graph that is saved is the graph that is loaded.
use ccann.Prelude.{
  ℕ, zero, suc, ◌+◌, ◌-◌, ◌*◌, ◌^◌, ◌≤◌, ◌<◌, ◌≡◌, refl, ap, inl, inr, true, false, ltb, leb, ◌==◌,
  if◌then◌else◌, some, List, [], ◌∷◌, ◌++◌, length, set, take, drop, ◌&&◌, All, Bool-cases, arith,
  length-append, length-set, get_or-set, length-take, get_or-take,
}
use ccann.RobinSet.{RobinSet}
use ccann.Index.{Index, row, to_unsigned, sub_size}
use ccann.Index.Store.{row_words, rows_size, save_graph, load_rows, put_rows, load_graph}

module _ (S : RobinSet) (V : Type 0) (zero_vec : V) where
  take-all : (xs : List ℕ) → take (length xs) xs ≡ xs
  take-all [] = refl
  take-all (x ∷ xs) = ap (λ (l : List ℕ). x ∷ l) (take-all xs)

  take-append : (xs ys : List ℕ) → take (length xs) (xs ++ ys) ≡ xs
  take-append [] ys = refl
  take-append (x ∷ xs) ys = ap (λ (l : List ℕ). x ∷ l) (take-append xs ys)

  drop-append : (xs ys : List ℕ) → drop (length xs) (xs ++ ys) ≡ ys
  drop-append [] ys = refl
  drop-append (x ∷ xs) ys = drop-append xs ys

  load_rows-row_words :
      (n fuel expected bytes_read : ℕ) (graph : List (List ℕ))
      → n ≤ length graph
      → All (λ (r : List ℕ). length r < 2 ^ 32) graph
      → expected ≡ bytes_read + rows_size S V zero_vec n graph
      → n ≤ fuel
      → load_rows S V zero_vec fuel expected bytes_read (row_words S V zero_vec n graph)
        ≡ some (take n graph)
  unfolding load_rows row_words rows_size
  load_rows-row_words zero zero expected bytes_read graph h s e k =
      let q : (bytes_read == expected) ≡ true = ground arith in rw q refl
  load_rows-row_words zero (suc fuel) expected bytes_read graph h s e k =
      let q : (bytes_read == expected) ≡ true = ground arith in rw q refl
  load_rows-row_words (suc n) zero expected bytes_read graph h s e k = absurd (omega arith)
  load_rows-row_words (suc n) (suc fuel) expected bytes_read [] h s e k = absurd (omega arith)
  load_rows-row_words (suc n) (suc fuel) expected bytes_read (r ∷ graph) h (s, ss) e k =
      let size : to_unsigned (length r) ≡ length r = omega arith in
      let more : (bytes_read == expected) ≡ false = ground arith in
      let tail = row_words S V zero_vec n graph in
      let words = r ++ tail in
      let enough : ltb (length words) (length r) ≡ false = ground (arith, length-append r tail) in
      let rest =
        load_rows-row_words n fuel expected (bytes_read + 4 * (length r + 1)) graph (omega arith) ss
          (omega arith) (omega arith) in
      let rest' : load_rows S V zero_vec fuel expected (bytes_read + 4 * (length r + 1))
            (drop (length r) words)
          ≡ some (take n graph) =
        rw (drop-append r tail) rest in
      let step : take (to_unsigned (length r)) (take (to_unsigned (length r)) r ++ tail) ≡ r =
        rw (size, take-all r) (take-append r tail) in
      rw (size, take-all r, load_rows, more, enough, rest')
        (ap (λ (x : List ℕ). some (x ∷ take n graph)) step)

  length-row_words :
      (n : ℕ) (graph : List (List ℕ))
      → n ≤ length graph
      → n ≤ length (row_words S V zero_vec n graph)
  unfolding row_words
  length-row_words zero graph h = omega arith
  length-row_words (suc n) [] h = absurd (omega arith)
  length-row_words (suc n) (r ∷ graph) h = omega (
    arith,
    length-append (take (to_unsigned (length r)) r) (row_words S V zero_vec n graph),
    length-row_words n graph (omega arith),
  )

  row-put_rows :
      (rows graph : List (List ℕ)) (at x : ℕ)
      → at + length rows ≤ length graph
      → row (put_rows S V zero_vec at rows graph) x
        ≡ (if leb at x && ltb x (at + length rows) then row rows (x - at) else row graph x)
  row-put_rows [] graph at x h = ground arith
  row-put_rows (r ∷ rows) graph at x h =
      let rest =
        row-put_rows rows (set graph at r) (at + 1) x (omega (arith, length-set graph at r)) in
      let now = get_or-set graph at r x [] (omega arith) in
      elim (Bool-cases (at == x)) [
        | inl here ↦ let z : x - at ≡ 0 = ground arith in rw z (ground (arith, rest, now))
        | inr other ↦ elim (Bool-cases (ltb at x)) [
          | inl after ↦
              let z : x - at ≡ suc (x - (at + 1)) = ground arith in rw z (ground (arith, rest, now))
          | inr before ↦ ground (arith, rest, now)
        ]
      ]

  -- Where the index that loads has as many frozen points as the one that saved, and rows for all
  -- points of the file (each row below 2^32 links), `load_graph` reads what `save_graph` wrote: it
  -- does not crash, it finds as many rows as there are points, and every one of them has the links
  -- that it had, in their order; the entry point is the one that was saved.
  pub load_graph-save_graph :
      (i j : Index S V) (expected : ℕ)
      → let n = i.nd + i.num_frozen_pts in
        n ≤ length i.final_graph
        → n ≤ length j.final_graph
        → All (λ (r : List ℕ). length r < 2 ^ 32) i.final_graph
        → i.num_frozen_pts ≡ j.num_frozen_pts
        → ltb j.max_points (sub_size expected j.num_frozen_pts) ≡ false
        → (after : Index S V) × (load_graph S V zero_vec (save_graph S V zero_vec i) expected j
            ≡ some (n, after))
          × ((x : ℕ) → x < n → row after.final_graph x ≡ row i.final_graph x)
          × (after.ep ≡ i.ep)
  unfolding load_graph save_graph
  load_graph-save_graph i j expected h k small frozen sized =
      let n = i.nd + i.num_frozen_pts in
      let file = save_graph S V zero_vec i in
      let read =
        load_rows-row_words n (length file.words) file.index_size 24 i.final_graph h small refl
          (length-row_words n i.final_graph h) in
      let rows = take n i.final_graph in
      let full = length-take n i.final_graph h in
      let same : (file.frozen_pts == j.num_frozen_pts) ≡ true = ground arith in
      let after : Index S V = record j {
        width = file.max_degree;
        ep = file.ep;
        final_graph = put_rows S V zero_vec 0 rows j.final_graph;
      } in
      (
        after,
        rw (load_graph, same, read, sized) (ap (λ m. some (m, after)) full),
        λ x less. ground (
          arith,
          row-put_rows rows j.final_graph 0 x (omega (arith, full)),
          full,
          get_or-take n i.final_graph x [] less,
        ),
        refl,
      )
