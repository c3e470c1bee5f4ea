-- ===== src/CuckooMap.antt =====
-- The hash map `libcuckoo::cuckoohash_map` as the program calls it, by the documented effect of
-- each call on the lookups. A functor that mutates the value it is handed is a function to the new
-- value; `none` stands for a key that is newly inserted, or for a value that is erased.
use ccann.Prelude.{ℕ, ◌≡◌, refl, ◌==◌, if◌then◌else◌, Option, none, some}

pub record CuckooMap (V : Type 0) : Type 1 where
  pub Map : Type 0
  pub empty : Map
  pub find : Map → ℕ → Option V
  pub insert_or_assign : Map → ℕ → V → Map
  -- A key that is there keeps its value.
  pub insert : Map → ℕ → V → Map
  -- The functor is called on a found value and on a newly inserted one.
  pub upsert : Map → ℕ → (Option V → V) → Map
  pub uprase_fn : Map → ℕ → (Option V → Option V) → Map
  -- The functor is called on a found value only.
  pub update_fn : Map → ℕ → (V → V) → Map
  pub erase_fn : Map → ℕ → (V → Option V) → Map
  pub find-empty : (k : ℕ) → find empty k ≡ none
  pub find-insert_or_assign :
      (m : Map) (k j : ℕ) (v : V)
      → find (insert_or_assign m k v) j ≡ (if k == j then some v else find m j)
  pub find-insert :
      (m : Map) (k j : ℕ) (v : V)
      → find (insert m k v) j
        ≡ (if k == j then elim (find m k) [ none ↦ some v | some w ↦ some w ] else find m j)
  pub find-upsert :
      (m : Map) (k j : ℕ) (f : Option V → V)
      → find (upsert m k f) j ≡ (if k == j then some (f (find m k)) else find m j)
  pub find-uprase_fn :
      (m : Map) (k j : ℕ) (f : Option V → Option V)
      → find (uprase_fn m k f) j ≡ (if k == j then f (find m k) else find m j)
  pub find-update_fn :
      (m : Map) (k j : ℕ) (f : V → V)
      → find (update_fn m k f) j
        ≡ (if k == j then elim (find m k) [ none ↦ none | some v ↦ some (f v) ] else find m j)
  pub find-erase_fn :
      (m : Map) (k j : ℕ) (f : V → Option V)
      → find (erase_fn m k f) j
        ≡ (if k == j then elim (find m k) [ none ↦ none | some v ↦ f v ] else find m j)

-- Functions meet the laws.
abbrev updated : {V : Type 0} → (ℕ → Option V) → ℕ → Option V → ℕ → Option V
updated m k o j = if k == j then o else m j

abbrev pub function_map : (V : Type 0) → CuckooMap V
function_map V = record {
  Map = ℕ → Option V;
  empty = λ k. none;
  find = λ m k. m k;
  insert_or_assign = λ m k v. updated m k (some v);
  insert = λ m k v. updated m k (elim (m k) [ none ↦ some v | some w ↦ some w ]);
  upsert = λ m k f. updated m k (some (f (m k)));
  uprase_fn = λ m k f. updated m k (f (m k));
  update_fn = λ m k f. updated m k (elim (m k) [ none ↦ none | some v ↦ some (f v) ]);
  erase_fn = λ m k f. updated m k (elim (m k) [ none ↦ none | some v ↦ f v ]);
  find-empty = λ k. refl;
  find-insert_or_assign = λ m k j v. refl;
  find-insert = λ m k j v. refl;
  find-upsert = λ m k j f. refl;
  find-uprase_fn = λ m k j f. refl;
  find-update_fn = λ m k j f. refl;
  find-erase_fn = λ m k j f. refl;
}
