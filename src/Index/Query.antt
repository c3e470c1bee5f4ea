-- ===== src/Index/Query.antt =====
-- src/index.cpp: what the searches of the index in memory return of a finished walk.
use ccann.Prelude.{
  ℕ, ◌+◌, true, false, ltb, ◌==◌, if◌then◌else◌, Option, none, some, List, [], ◌∷◌, ◌++◌, length,
  set, take, drop,
}
use ccann.Floats.{Floats}
use ccann.RobinSet.{RobinSet}
use ccann.UnorderedMap.{find}
use ccann.Neighbor.{Neighbor}
use ccann.Index.{Index}
use ccann.Index.Walk.{
  Walk, Outcome, finished, crashed, out_of_fuel, iterate_to_fixed_point, walk_fast, blanks, met,
}

-- The loops that copy results out: entries that f passes are written one behind the other, until
-- there are K.
abbrev pub collect {ℓ κ} : {A : Type ℓ} {B : Type κ} → (A → Option B) → ℕ → List B → List A → List B
collect f k out [] = out
collect {B = B} f k out (x ∷ xs) =
    let more : List B = elim (f x) [ none ↦ out | some y ↦ out ++ (y ∷ []) ] in
    let rest = collect f k more xs in if length more == k then more else rest

module _ (S : RobinSet) (F : Floats) (V : Type 0) (compare : V → V → F.Float) where
  abbrev pub Result : Type 0
  Result = ℕ × F.Float

  -- A point that has a tag, with its tag.
  abbrev pub tagged_result : Index S V → Neighbor F → Option Result
  tagged_result i it = elim (find i.location_to_tag it.id) [
    | none ↦ none
    | some tag ↦ some (tag, it.distance)
  ]

  -- A point that is not the frozen one, with its location.
  abbrev pub point_result : Index S V → Neighbor F → Option Result
  point_result i it = if ltb it.id i.max_points then some (it.id, it.distance) else none

  abbrev pub any_result : Neighbor F → Option Result
  any_result it = some (it.id, it.distance)

  abbrev pub ids_or_ep : Index S V → List ℕ → List ℕ
  ids_or_ep i init_ids = if length init_ids == 0 then i.ep ∷ [] else init_ids

  -- What a search makes of the outcome of its walk.
  abbrev pub then_collect {ℓ} :
      {B : Type ℓ} → (Neighbor F → Option B) → ℕ → Outcome (Walk S F) → Outcome (List B)
  then_collect f k (finished w) = finished (collect f k [] w.best)
  then_collect f k crashed = crashed
  then_collect f k out_of_fuel = out_of_fuel

  -- `search` with the tags as its result.
  unfoldable pub search_tags : Index S V → V → ℕ → ℕ → ℕ → Outcome (List Result)
  unfolding iterate_to_fixed_point
  search_tags i query k l fuel =
      then_collect (tagged_result i) k
        (iterate_to_fixed_point S F V compare i query l (i.ep ∷ []) false fuel)

  -- `search` with the locations as its result.
  unfoldable pub search : Index S V → V → ℕ → ℕ → ℕ → Outcome (List Result)
  unfolding iterate_to_fixed_point
  search i query k l fuel =
      then_collect (point_result i) k
        (iterate_to_fixed_point S F V compare i query l (i.ep ∷ []) true fuel)

  -- `search` from given ids, on all entries.
  unfoldable pub search_from : Index S V → V → ℕ → ℕ → List ℕ → ℕ → Outcome (List Result)
  unfolding iterate_to_fixed_point
  search_from i query k l init_ids fuel =
      then_collect any_result k
        (iterate_to_fixed_point S F V compare i query l (ids_or_ep i init_ids) true fuel)

  -- The first l entries of the new arrays: what `search` wrote, and what the memory held behind it.
  abbrev pub written_over : List Result → List Result → List Result
  written_over found raw = found ++ drop (length found) raw

  abbrev pub tag_of : Index S V → Result → Option Result
  tag_of i (id, distance) = elim (find i.location_to_tag id) [
    | none ↦ none
    | some tag ↦ some (tag, distance)
  ]

  abbrev then_tags : Index S V → ℕ → List Result → Outcome (List Result) → Outcome (List Result)
  then_tags i k raw (finished found) = finished (collect (tag_of i) k [] (written_over found raw))
  then_tags i k raw crashed = crashed
  then_tags i k raw out_of_fuel = out_of_fuel

  -- `raw` is what the arrays of L entries hold when they are allocated.
  unfoldable pub search_with_tags : Index S V → V → ℕ → ℕ → List Result → ℕ → Outcome (List Result)
  unfolding search
  search_with_tags i query k l raw fuel = then_tags i k raw (search i query l l fuel)

  -- The entries of `tags` and `dists` that `search_with_tags_fast` writes; none is left as it was.
  abbrev tag_entries : Index S V → List (Neighbor F) → List (Option Result)
  tag_entries i [] = []
  tag_entries i (it ∷ best) = tagged_result i it ∷ tag_entries i best

  abbrev then_entries : Index S V → ℕ → Outcome (Walk S F) → Outcome (List (Option Result) × ℕ)
  then_entries i l (finished w) = finished (tag_entries i (take l w.best), w.cmps)
  then_entries i l crashed = crashed
  then_entries i l out_of_fuel = out_of_fuel

  unfoldable pub search_with_tags_fast : Index S V → V → ℕ → ℕ → Outcome (List (Option Result) × ℕ)
  unfolding walk_fast
  search_with_tags_fast i node_coords l fuel = then_entries i l (
      walk_fast S F V compare i node_coords l fuel 0 (record {
        best = set (blanks S F V compare (l + 1)) 0 (record (met S F V compare i node_coords i.ep) {
          distance = compare (i.data_at i.ep) node_coords;
        });
        l = 1;
        inserted_into_pool = S.insert S.empty i.ep;
        expanded_nodes_info = [];
        expanded_nodes_ids = S.empty;
        cmps = 0;
      }))
