-- ===== src/VecLocks/Deadlock.antt =====
-- Updates that take their keys one by one in the order of `lockReqs` or `lock_idx`, and give them
-- back once they hold all, never wait for each other in a circle.
use ccann.Prelude.{
  ℕ, zero, suc, ◌-◌, ◌^◌, ◌≤◌, ◌<◌, ◌≡◌, refl, ◌≢◌, ◌⊎◌, inl, inr, Bool, true, false, ◌==◌,
  if◌then◌else◌, Option, none, some, List, [], ◌∷◌, contains, arith, Bool-cases, Option-cases,
  ℕ_discrete,
}
use ccann.VecLocks.{get_to_lock_idx}
use ccann.VecLocks.Order.{Ascending, get_to_lock_idx-Ascending}

-- An update: the keys that it holds, and those that it will still lock, in order.
pub record Update : Type 0 where
  pub held : List ℕ
  pub wanted : List ℕ

abbrev pub System : Type 0
System = ℕ → Update

abbrev pub assign : System → ℕ → Update → System
assign s i u j = if i == j then u else s j

-- A step of one of `n` updates: `wrlock` on a key that nobody holds, or an unlock once it holds all.
pub data Step (n : ℕ) (s : System) : System → Type 0 where
  acquire :
      (i k : ℕ) (ks : List ℕ)
      → i < n
      → (s i).wanted ≡ k ∷ ks
      → ((j : ℕ) → j < n → contains k (s j).held ≡ false)
      → Step n s (assign s i (record { held = k ∷ (s i).held; wanted = ks }))
  release :
      (i k : ℕ) (ks : List ℕ)
      → i < n
      → (s i).wanted ≡ []
      → (s i).held ≡ k ∷ ks
      → Step n s (assign s i (record { held = ks; wanted = [] }))

-- Each update starts with nothing held and a strictly ascending list of keys.
abbrev pub start : (ℕ → List ℕ) → System
start keys i = record { held = []; wanted = keys i }

pub data Reach (n : ℕ) (keys : ℕ → List ℕ) : System → Type 0 where
  here : Reach n keys (start keys)
  later : {s t : System} → Reach n keys s → Step n s t → Reach n keys t

-- Whatever an update holds lies below what it wants, and every key lies below the bound.
abbrev pub Climbs : ℕ → Update → Type 0
Climbs bound u =
    (lo : ℕ) × ((k : ℕ) → contains k u.held ≡ true → k < lo)
    × Ascending lo u.wanted
    × ((k : ℕ) → contains k u.wanted ≡ true → k < bound)

module _ (bound : ℕ) where
  Climbs-either :
      (b : Bool) (u v : Update)
      → Climbs bound u
      → Climbs bound v
      → Climbs bound (if b then u else v)
  Climbs-either true u v h k = h
  Climbs-either false u v h k = k

  Climbs-acquire :
      (u : Update) (k : ℕ) (ks : List ℕ)
      → u.wanted ≡ k ∷ ks
      → Climbs bound u
      → Climbs bound (record { held = k ∷ u.held; wanted = ks })
  Climbs-acquire u k ks e (lo, below, up, small) =
      let asc : Ascending lo (k ∷ ks) = rw e at up in
      (suc k, λ j h. ground (arith, below j), asc.1, λ j h. ground (arith, small j))

  Climbs-release :
      (u : Update) (k : ℕ) (ks : List ℕ)
      → u.held ≡ k ∷ ks
      → Climbs bound u
      → Climbs bound (record { held = ks; wanted = [] })
  Climbs-release u k ks e (lo, below, up, small) =
      (lo, λ j h. ground (arith, below j), tt, λ j h. absurd (cc h))

  Step-Climbs :
      {n : ℕ} {s t : System}
      → Step n s t
      → ((i : ℕ) → Climbs bound (s i))
      → (i : ℕ) → Climbs bound (t i)
  Step-Climbs {n} {s} (acquire i k ks lt e free) c j =
      Climbs-either (i == j) _ (s j) (Climbs-acquire (s i) k ks e (c i)) (c j)
  Step-Climbs {n} {s} (release i k ks lt e h) c j =
      Climbs-either (i == j) _ (s j) (Climbs-release (s i) k ks h (c i)) (c j)

  Reach-Climbs :
      {n : ℕ} {keys : ℕ → List ℕ} {s : System}
      → ((i : ℕ) → Ascending 0 (keys i))
      → ((i k : ℕ) → contains k (keys i) ≡ true → k < bound)
      → Reach n keys s
      → (i : ℕ) → Climbs bound (s i)
  Reach-Climbs asc small here i = (0, λ k h. absurd (cc h), asc i, small i)
  Reach-Climbs asc small (later r st) i = Step-Climbs st (Reach-Climbs asc small r) i

-- Who holds a key, among the first `n` updates.
holder : ℕ → System → ℕ → Option ℕ
holder zero s k = none
holder (suc n) s k = let rest = holder n s k in if contains k (s n).held then some n else rest

holder-none :
    (n : ℕ) (s : System) (k : ℕ)
    → holder n s k ≡ none
    → (j : ℕ) → j < n
    → contains k (s j).held ≡ false
unfolding holder
holder-none zero s k e j h = elim h [ ]
holder-none (suc n) s k e j h = elim (ℕ_discrete j n) [
  | yes same ↦ rw same (ground arith)
  | no other ↦ holder-none n s k (ground arith) j (omega arith)
]

holder-some :
    (n : ℕ) (s : System) (k j : ℕ)
    → holder n s k ≡ some j
    → (j < n) × (contains k (s j).held ≡ true)
unfolding holder
holder-some zero s k j e = absurd (cc e)
holder-some (suc n) s k j e = elim (Bool-cases (contains k (s n).held)) [
  | inl h ↦ ground arith
  | inr h ↦ ground (arith, holder-some n s k j)
]

-- Follow the wait for `k`: the key is free, or its holder has all its keys, or waits for a larger one.
unblocked :
    (fuel bound n : ℕ) (s : System)
    → ((i : ℕ) → Climbs bound (s i))
    → (i k : ℕ) (ks : List ℕ) → i < n
    → (s i).wanted ≡ k ∷ ks
    → bound - k ≤ fuel
    → (t : System) × Step n s t
unblocked zero bound n s c i k ks lt e h =
    let (lo, below, up, small) = c i in absurd (omega (arith, small k (ground arith)))
unblocked (suc fuel) bound n s c i k ks lt e h = elim (Option-cases (holder n s k)) [
  | inl nobody ↦ (_, acquire i k ks lt e (holder-none n s k nobody))
  | inr (j, held) ↦
      let (j_lt, has) = holder-some n s k j held in
      let (lo, below, up, small) = c j in
      waits_for (unblocked fuel bound n s c) (s j).wanted (s j).held refl refl j_lt has lo
        (below k has) up
]
  where
    waits_for :
        ((i' k' : ℕ) (ks' : List ℕ)
          → i' < n
          → (s i').wanted ≡ k' ∷ ks'
          → bound - k' ≤ fuel
          → (t : System) × Step n s t)
        → {j : ℕ} (w o : List ℕ) → (s j).wanted ≡ w
        → (s j).held ≡ o
        → j < n
        → contains k (s j).held ≡ true
        → (lo : ℕ) → k < lo
        → Ascending lo (s j).wanted
        → (t : System) × Step n s t
    waits_for again {j} [] [] p q j_lt has lo low up = absurd (cc (rw q at has))
    waits_for again {j} [] (x ∷ xs) p q j_lt has lo low up = (_, release j x xs j_lt p q)
    waits_for again {j} (x ∷ xs) o p q j_lt has lo low up =
        let asc : Ascending lo (x ∷ xs) = rw p at up in again j x xs j_lt p (omega arith)

-- It still has a key to lock or to give back.
abbrev pub Unfinished : Update → Type 0
Unfinished u = (u.wanted ≢ []) ⊎ (u.held ≢ [])

unblocked_by :
    (bound n : ℕ) (s : System)
    → ((i : ℕ) → Climbs bound (s i))
    → (i : ℕ) (w o : List ℕ) → i < n
    → (s i).wanted ≡ w
    → (s i).held ≡ o
    → Unfinished (s i)
    → (t : System) × Step n s t
unblocked_by bound n s c i [] [] lt p q (inl f) = absurd (f p)
unblocked_by bound n s c i [] [] lt p q (inr f) = absurd (f q)
unblocked_by bound n s c i [] (x ∷ xs) lt p q f = (_, release i x xs lt p q)
unblocked_by bound n s c i (x ∷ xs) o lt p q f =
    unblocked (bound - x) bound n s c i x xs lt p (omega arith)

-- Any number of updates that lock the ids of `get_to_lock_idx` (a target and neighbours each, of 32
-- bits) never deadlock: in every reachable state, while one of them is unfinished, some update of
-- them can take a step.
pub no_deadlock :
    (n : ℕ) (target : ℕ → ℕ) (neighbors : ℕ → List ℕ)
    → ((i k : ℕ) → contains k (get_to_lock_idx (target i) (neighbors i)) ≡ true → k < 2 ^ 32)
    → (s : System) → Reach n (λ i. get_to_lock_idx (target i) (neighbors i)) s
    → (i : ℕ) → i < n
    → Unfinished (s i)
    → (t : System) × Step n s t
no_deadlock n target neighbors small s r i lt f =
    unblocked_by (2 ^ 32) n s
      (Reach-Climbs (2 ^ 32) (λ j. get_to_lock_idx-Ascending (target j) (neighbors j)) small r) i
      (s i).wanted (s i).held lt refl refl f
