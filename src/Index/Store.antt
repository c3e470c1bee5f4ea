-- ===== src/Index/Store.antt =====
-- src/index.cpp: the files of the index in memory, written and read.
use ccann.Prelude.{
  ℕ, zero, suc, ◌+◌, ◌-◌, ◌*◌, Bool, true, not, ltb, ◌==◌, if◌then◌else◌, Option, none, some, List,
  [], ◌∷◌, ◌++◌, length, set, take, drop, ◌&&◌, ◌||◌,
}
use ccann.RobinSet.{RobinSet, size}
use ccann.UnorderedMap.{UnorderedMap, find, assign}
use ccann.Index.{
  Index, row, to_unsigned, sub_size, resize_graph, resize, insert_slots, compact_frozen_point,
  reposition_frozen_point_to_end,
}

-- The header of a graph file and the words of 4 bytes behind it.
pub record GraphFile : Type 0 where
  pub index_size : ℕ
  pub max_degree : ℕ
  pub ep : ℕ
  pub frozen_pts : ℕ
  pub words : List ℕ

-- A data file: its number of points, whether its dimension is that of the index, its vectors.
pub record VectorFile (V : Type 0) : Type 0 where
  pub num_points : ℕ
  pub same_dim : Bool
  pub vectors : ℕ → V

-- The four files of an index; a file that is not there is none, and a file of tags has a dimension.
pub record Files (V : Type 0) : Type 0 where
  pub graph : GraphFile
  pub points : Option (VectorFile V)
  pub tags : Option (List ℕ × ℕ)
  pub deleted : Option (List ℕ)

module _ (S : RobinSet) (V : Type 0) (zero_vec : V) where
  -- The words of the first n rows.
  unfoldable pub row_words : ℕ → List (List ℕ) → List ℕ
  row_words zero graph = []
  row_words (suc n) [] = 0 ∷ row_words n []
  row_words (suc n) (r ∷ graph) =
      to_unsigned (length r) ∷ (take (to_unsigned (length r)) r ++ row_words n graph)

  unfoldable pub rows_size : ℕ → List (List ℕ) → ℕ
  rows_size zero graph = 0
  rows_size (suc n) graph =
      4 * (to_unsigned (length (row graph 0)) + 1) + rows_size n (drop 1 graph)

  unfoldable pub widest : ℕ → List (List ℕ) → ℕ
  widest zero graph = 0
  widest (suc n) graph =
      let rest = widest n (drop 1 graph) in
      if ltb rest (length (row graph 0)) then to_unsigned (length (row graph 0)) else rest

  unfoldable pub save_graph : Index S V → GraphFile
  unfolding row_words rows_size widest
  save_graph i =
      let n = i.nd + i.num_frozen_pts in
      record {
        index_size = 24 + rows_size n i.final_graph;
        max_degree = widest n i.final_graph;
        ep = i.ep;
        frozen_pts = i.num_frozen_pts;
        words = row_words n i.final_graph;
      }

  -- `while (bytes_read != expected_file_size)`, one round for each row; none when the file ends
  -- before.
  unfoldable pub load_rows : ℕ → ℕ → ℕ → List ℕ → Option (List (List ℕ))
  load_rows zero expected bytes_read words = if bytes_read == expected then some [] else none
  load_rows (suc fuel) expected bytes_read [] = if bytes_read == expected then some [] else none
  load_rows (suc fuel) expected bytes_read (k ∷ words) =
      let rest = load_rows fuel expected (bytes_read + 4 * (k + 1)) (drop k words) in
      if bytes_read == expected
      then some []
      else if ltb (length words) k
      then none
      else elim rest [ none ↦ none | some rows ↦ some (take k words ∷ rows) ]

  -- `_final_graph[nodes - 1].swap(tmp)` for every row that is read.
  abbrev pub put_rows : ℕ → List (List ℕ) → List (List ℕ) → List (List ℕ)
  put_rows at [] graph = graph
  put_rows at (r ∷ rows) graph = put_rows (at + 1) rows (set graph at r)

  -- The number of rows, and the index; none for `crash()` and for a file that is cut short.
  unfoldable pub load_graph : GraphFile → ℕ → Index S V → Option (ℕ × Index S V)
  unfolding load_rows
  load_graph file expected i =
      let points = sub_size expected i.num_frozen_pts in
      let sized =
        if ltb i.max_points points
        then record i { final_graph = resize_graph i.final_graph expected; max_points = points }
        else i in
      if file.frozen_pts == i.num_frozen_pts
      then elim (load_rows (length file.words) file.index_size 24 file.words) [
        | none ↦ none
        | some rows ↦ some (
          length rows,
          record sized {
            width = file.max_degree;
            ep = file.ep;
            final_graph = put_rows 0 rows sized.final_graph;
          },
        )
      ]
      else none

  abbrev tag_or_zero : UnorderedMap → ℕ → ℕ
  tag_or_zero m l = elim (find m l) [ none ↦ 0 | some tag ↦ tag ]

  abbrev tags_from : UnorderedMap → ℕ → ℕ → List ℕ
  tags_from m from zero = []
  tags_from m from (suc n) = tag_or_zero m from ∷ tags_from m (from + 1) n

  -- The entries of the file, none when tags are off; `raw` is the memory of the frozen points.
  unfoldable pub save_tags : List ℕ → Index S V → Option (List ℕ)
  save_tags raw i =
      let entries = tags_from i.location_to_tag 0 i.nd ++ take i.num_frozen_pts raw in
      if i.enable_tags
      then some (if ltb 0 i.num_frozen_pts then set entries i.ep 0 else entries)
      else none

  abbrev read_tags : ℕ → List ℕ → Index S V → Index S V
  read_tags l [] i = i
  read_tags l (tag ∷ tags) i = read_tags (l + 1) tags (
      if S.find i.delete_set l then i else record i {
        location_to_tag = assign i.location_to_tag l tag;
        tag_to_location = assign i.tag_to_location tag l;
      })

  -- The number of points of the file, and the index; none for `crash()`.
  unfoldable pub load_tags : Option (List ℕ × ℕ) → Index S V → Option (ℕ × Index S V)
  load_tags file i =
      let read : Option (ℕ × Index S V) = elim file [
        | none ↦ none
        | some (tags, dim) ↦
            let n = length tags in
            let points : ℕ = if ltb 0 i.num_frozen_pts then sub_size n 1 else n in
            if dim == 1 then some (n, read_tags 0 (take points tags) i) else none
      ] in
      if i.enable_tags then read else some (0, i)

  -- none when there is nothing to write.
  unfoldable pub save_delete_list : Index S V → Option (List ℕ)
  save_delete_list i = if size S i.delete_set == 0 then none else some (S.elements i.delete_set)

  abbrev pub insert_ids : List ℕ → S.Set → S.Set
  insert_ids [] s = s
  insert_ids (x ∷ xs) s = insert_ids xs (S.insert s x)

  unfoldable pub load_delete_set : List ℕ → Index S V → Index S V
  load_delete_set ids i = record i { delete_set = insert_ids ids i.delete_set }

  -- The number of points, and the index; none for `crash()`.
  unfoldable pub load_data : Option (VectorFile V) → Index S V → Option (ℕ × Index S V)
  unfolding resize
  load_data file i = elim file [
    | none ↦ none
    | some f ↦
        let emptied = record i { empty_slots = S.empty } in
        let roomy =
          if ltb (i.max_points + i.num_frozen_pts) f.num_points
          then resize S V zero_vec f.num_points emptied
          else emptied in
        if f.same_dim
        then some (
          f.num_points,
          record roomy {
            data_at = λ j. if ltb j f.num_points then f.vectors j else roomy.data_at j;
          },
        )
        else none
  ]

  abbrev with_deleted : Option (List ℕ) → Index S V → Index S V
  with_deleted none i = i
  with_deleted (some ids) i = load_delete_set ids i

  -- The end of `load`: the counters, the free slots, the place of the frozen point.
  abbrev settled : ℕ → Index S V → Index S V
  settled points i =
      let nd = sub_size points i.num_frozen_pts in
      reposition_frozen_point_to_end S V zero_vec (record i {
        nd = nd;
        empty_slots = insert_slots S V zero_vec S.empty nd (i.max_points - nd);
        lazy_done = not (size S i.delete_set == 0);
      })

  -- The check of the numbers of points.
  abbrev numbers_differ : ℕ → ℕ → ℕ → Bool → Bool
  numbers_differ points graph tags enable_tags =
      not (points == graph) || (not (points == tags) && enable_tags)

  -- `load` of an index in several files; none for `crash()`.
  unfoldable pub load : Files V → Index S V → Option (Index S V)
  unfolding load_data load_tags load_graph
  load files i = elim (load_data files.points i) [
    | none ↦ none
    | some (data_pts, with_data) ↦
        elim (load_tags files.tags (with_deleted files.deleted with_data)) [
          | none ↦ none
          | some (tag_pts, with_tags) ↦ elim (load_graph files.graph data_pts with_tags) [
            | none ↦ none
            | some (graph_pts, all) ↦
                if numbers_differ data_pts graph_pts tag_pts i.enable_tags
                then none
                else some (settled data_pts all)
          ]
        ]
  ]

  -- `save` in several files: what is written, and the index after it.
  unfoldable pub save : List ℕ → Index S V → Files V × Index S V
  unfolding save_graph save_tags save_delete_list
  save raw i =
      let compact = compact_frozen_point S V zero_vec i in
      (
        record {
          graph = save_graph compact;
          points = some (record {
            num_points = compact.nd + compact.num_frozen_pts;
            same_dim = true;
            vectors = compact.data_at;
          });
          tags = elim (save_tags raw compact) [ none ↦ none | some tags ↦ some (tags, 1) ];
          deleted = save_delete_list compact;
        },
        reposition_frozen_point_to_end S V zero_vec compact,
      )
