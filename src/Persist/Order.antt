-- ===== src/Persist/Order.antt =====
-- When one store is ordered before another in persistent memory.
use ccann.Prelude.{
  ℕ, zero, suc, take, ◌≡◌, refl, Bool, true, false, not, ◌&&◌, ◌||◌, List, [], ◌∷◌, ◌++◌, arith,
  Bool-cases, inl, inr,
}
use ccann.Persist.{Cell, Event, fence, is_store, is_flush, Memory, step, run, Always}

-- Whether a list of events stores to a cell.
abbrev pub stores : Cell → List Event → Bool
stores c [] = false
stores c (e ∷ es) = is_store c e || stores c es

-- Whether it flushes the cell and does not store to it after that.
abbrev pub leaves_flushed : Cell → List Event → Bool
leaves_flushed c [] = false
leaves_flushed c (e ∷ es) = (is_flush c e && not (stores c es)) || leaves_flushed c es

pub stores-append :
    (c : Cell) (es fs : List Event) → stores c (es ++ fs) ≡ (stores c es || stores c fs)
stores-append c [] fs = refl
stores-append c (e ∷ es) fs = ground (arith, stores-append c es fs)

pub run-append : (es fs : List Event) (m : Memory) → run m (es ++ fs) ≡ run (run m es) fs
unfolding run
run-append [] fs m = refl
run-append (e ∷ es) fs m = run-append es fs (step m e)

-- After `b` is durable for good, an order between `a` and `b` cannot be broken.
abbrev pub Ordered : Cell → Cell → Memory → Type 0
Ordered b a m = m.stored a ≡ true → m.durable b ≡ true

stays_durable :
    (b a : Cell) (es : List Event) (m : Memory)
    → stores b es ≡ false
    → m.durable b ≡ true
    → Always (Ordered b a) m es
unfolding Always
stays_durable b a [] m h d = λ s. d
stays_durable b a (e ∷ es) m h d =
    (λ s. d, stays_durable b a es (step m e) (ground arith) (ground arith))

-- Where nothing before some point stores to `a`, nothing after it to `b`, and `b` is durable at it:
-- at every point of the run, `a` stored implies `b` durable.
pub ordered :
    (b a : Cell) (es fs : List Event) (m : Memory)
    → m.stored a ≡ false
    → stores a es ≡ false
    → (run m es).durable b ≡ true
    → stores b fs ≡ false
    → Always (Ordered b a) m (es ++ fs)
unfolding Always run
ordered b a [] fs m fresh h d k = stays_durable b a fs m k d
ordered b a (e ∷ es) fs m fresh h d k =
    (λ s. ground arith, ordered b a es fs (step m e) (ground arith) (ground arith) d k)

keeps_flushed :
    (c : Cell) (es : List Event) (m : Memory)
    → stores c es ≡ false
    → m.flushed c ≡ true
    → (run m es).flushed c ≡ true
unfolding run
keeps_flushed c [] m h f = f
keeps_flushed c (e ∷ es) m h f = keeps_flushed c es (step m e) (ground arith) (ground arith)

flushed-run :
    (c : Cell) (es : List Event) (m : Memory)
    → leaves_flushed c es ≡ true
    → (run m es).flushed c ≡ true
unfolding run
flushed-run c [] m h = absurd (cc h)
flushed-run c (e ∷ es) m h = elim (Bool-cases (leaves_flushed c es)) [
  | inl later ↦ flushed-run c es (step m e) later
  | inr now ↦ keeps_flushed c es (step m e) (ground arith) (ground arith)
]

keeps_stored :
    (c : Cell) (es : List Event) (m : Memory) → m.stored c ≡ true → (run m es).stored c ≡ true
unfolding run
keeps_stored c [] m h = h
keeps_stored c (e ∷ es) m h = keeps_stored c es (step m e) (ground arith)

stored-run :
    (c : Cell) (es : List Event) (m : Memory) → stores c es ≡ true → (run m es).stored c ≡ true
unfolding run
stored-run c [] m h = absurd (cc h)
stored-run c (e ∷ es) m h = elim (Bool-cases (is_store c e)) [
  | inl now ↦ keeps_stored c es (step m e) (ground arith)
  | inr later ↦ stored-run c es (step m e) (ground arith)
]

-- A fence makes durable what is stored and flushed.
pub durable-run :
    (c : Cell) (es : List Event) (m : Memory)
    → stores c es ≡ true
    → leaves_flushed c es ≡ true
    → (run m (es ++ (fence ∷ []))).durable c ≡ true
unfolding run
durable-run c es m k h =
    rw (run-append es (fence ∷ []) m)
      (fenced (run m es) (stored-run c es m k) (flushed-run c es m h))
  where
    fenced :
        (n : Memory)
        → n.stored c ≡ true
        → n.flushed c ≡ true
        → (run n (fence ∷ [])).durable c ≡ true
    fenced n k f = ground arith

-- What is durable was stored, so that a crash is always possible.
pub durable-stored :
    (es : List Event) (m : Memory)
    → ((c : Cell) → m.durable c ≡ true → m.stored c ≡ true)
    → (c : Cell) → (run m es).durable c ≡ true
    → (run m es).stored c ≡ true
unfolding run
durable-stored [] m h c d = h c d
durable-stored (e ∷ es) m h c d = durable-stored es (step m e) (λ b k. ground (arith, h b)) c d

-- A property that always holds holds after any first part of the events.
pub Always-take :
    (Q : Memory → Type 0) (k : ℕ) (es : List Event) (m : Memory)
    → Always Q m es
    → Q (run m (take k es))
unfolding run Always
Always-take Q zero [] m a = a
Always-take Q zero (e ∷ es) m a = a.0
Always-take Q (suc k) [] m a = a
Always-take Q (suc k) (e ∷ es) m a = Always-take Q k es (step m e) a.1
