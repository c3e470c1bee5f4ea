-- ===== src/Commit/Locations.antt =====
-- The table of locations in persistent memory follows `id2loc_` (src/update/direct_insert.cpp).
use ccann.Prelude.{
  ℕ, ◌≡◌, refl, ◌∙◌, ap, Bool, false, ◌||◌, ◌==◌, if◌then◌else◌, Option, none, some, true, List, [],
  ◌∷◌, ◌++◌, arith, Bool-cases, inl, inr,
}
use ccann.Commit.{IdMap, assign, id2loc_insert_or_assign, publish_target, write_batch, drain}

-- The queued pairs bring the table in persistent memory to what `id2loc_` holds.
abbrev pub Mirrors : IdMap → Type 0
Mirrors m = (j : ℕ) → write_batch m.id2loc_pm m.id2loc_pm_queue j ≡ m.id2loc j

abbrev pub queued : ℕ → List (ℕ × ℕ) → Bool
queued id [] = false
queued id ((k, loc) ∷ batch) = (id == k) || queued id batch

write_batch-append :
    (table : ℕ → Option ℕ) (batch : List (ℕ × ℕ)) (id loc j : ℕ)
    → write_batch table (batch ++ ((id, loc) ∷ [])) j
      ≡ (if id == j then some loc else write_batch table batch j)
unfolding write_batch
write_batch-append table [] id loc j = refl
write_batch-append table ((k, l) ∷ batch) id loc j =
    write_batch-append (assign table k l) batch id loc j

write_batch-cong :
    (t u : ℕ → Option ℕ) (batch : List (ℕ × ℕ)) (j : ℕ)
    → ((queued j batch ≡ false) → t j ≡ u j)
    → write_batch t batch j ≡ write_batch u batch j
unfolding write_batch
write_batch-cong t u [] j h = h refl
write_batch-cong t u ((k, l) ∷ batch) j h =
    write_batch-cong (assign t k l) (assign u k l) batch j (λ q. elim (Bool-cases (k == j)) [
      | inl here ↦ rw here refl
      | inr other ↦ rw other (h (ground arith))
    ])

write_batch-absent :
    (t : ℕ → Option ℕ) (batch : List (ℕ × ℕ)) (j : ℕ)
    → queued j batch ≡ false
    → write_batch t batch j ≡ t j
unfolding write_batch
write_batch-absent t [] j h = refl
write_batch-absent t ((k, l) ∷ batch) j h =
    let other : (k == j) ≡ false = ground arith in
    write_batch-absent (assign t k l) batch j (ground arith) ∙ rw other refl

-- A neighbour's new location goes to `id2loc_` and to the queue: the two stay in step.
pub id2loc_insert_or_assign-Mirrors :
    (m : IdMap) (id loc : ℕ) → Mirrors m → Mirrors (id2loc_insert_or_assign m id loc)
unfolding id2loc_insert_or_assign
id2loc_insert_or_assign-Mirrors m id loc h j =
    write_batch-append m.id2loc_pm m.id2loc_pm_queue id loc j
    ∙ ap (λ x. if id == j then some loc else x) (h j)

-- The target's entry goes to both directly, which is right while the queue holds no pair of that id.
pub publish_target-Mirrors :
    (m : IdMap) (id loc : ℕ)
    → queued id m.id2loc_pm_queue ≡ false
    → Mirrors m
    → Mirrors (publish_target m id loc)
unfolding publish_target
publish_target-Mirrors m id loc free h j = elim (Bool-cases (id == j)) [
  | inl here ↦
      let q : queued j m.id2loc_pm_queue ≡ false = ground arith in
      write_batch-absent (assign m.id2loc_pm id loc) m.id2loc_pm_queue j q ∙ rw here refl
  | inr other ↦
      write_batch-cong (assign m.id2loc_pm id loc) m.id2loc_pm m.id2loc_pm_queue j
        (λ q. rw other refl)
      ∙ h j
      ∙ rw other refl
]

write_batch-queued :
    (t : ℕ → Option ℕ) (batch : List (ℕ × ℕ)) (j : ℕ)
    → queued j batch ≡ true
    → (l : ℕ) × (write_batch t batch j ≡ some l)
unfolding write_batch
write_batch-queued t [] j h = absurd (cc h)
write_batch-queued t ((k, l) ∷ batch) j h = elim (Bool-cases (queued j batch)) [
  | inl later ↦ write_batch-queued (assign t k l) batch j later
  | inr last ↦
      let same : (k == j) ≡ true = ground arith in
      (l, write_batch-absent (assign t k l) batch j last ∙ rw same refl)
]

-- The maps that updates and the commit thread reach from a table that was loaded: the entry of a new
-- id is published, a neighbour moves, and the queue is written.
pub data Updated : IdMap → Type 0 where
  loaded :
      (table : ℕ → Option ℕ)
      → Updated (record { id2loc = table; id2loc_pm = table; id2loc_pm_queue = [] })
  published :
      (m : IdMap) (id loc : ℕ) → m.id2loc id ≡ none → Updated m → Updated (publish_target m id loc)
  relocated : (m : IdMap) (id loc : ℕ) → Updated m → Updated (id2loc_insert_or_assign m id loc)
  written : (m : IdMap) → Updated m → Updated (drain m)

Updated-Mirrors : (m : IdMap) → Updated m → Mirrors m
unfolding drain write_batch
Updated-Mirrors _ (loaded table) = λ j. refl
Updated-Mirrors _ (published m id loc new u) =
    let h = Updated-Mirrors m u in
    let free : queued id m.id2loc_pm_queue ≡ false =
      elim (Bool-cases (queued id m.id2loc_pm_queue)) [
        | inl waits ↦
            let (l, e) = write_batch-queued m.id2loc_pm m.id2loc_pm_queue id waits in
            absurd (cc (e, h id, new))
        | inr absent ↦ absent
      ] in
    publish_target-Mirrors m id loc free h
Updated-Mirrors _ (relocated m id loc u) =
    id2loc_insert_or_assign-Mirrors m id loc (Updated-Mirrors m u)
Updated-Mirrors _ (written m u) = Updated-Mirrors m u

-- Whatever updates have published and moved, in any order and with the queue written at any times
-- between them, as long as a published id is new: once the commit thread has written the queue, the
-- table in persistent memory is `id2loc_`, and nothing is queued.
pub drain-Updated :
    (m : IdMap)
    → Updated m
    → ((j : ℕ) → (drain m).id2loc_pm j ≡ m.id2loc j) × ((drain m).id2loc_pm_queue ≡ [])
unfolding drain
drain-Updated m u = (Updated-Mirrors m u, refl)
