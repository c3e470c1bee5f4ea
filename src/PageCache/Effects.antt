-- ===== src/PageCache/Effects.antt =====
-- include/v2/page_cache.h: what each call does to the item of one block.
use ccann.Prelude.{
  ℕ, zero, suc, ◌+◌, ◌-◌, ◌%◌, ◌^◌, ◌≤◌, ◌<◌, ◌≡◌, refl, sym, ap, ◌∙◌, inl, inr, true, false, ◌==◌,
  if◌then◌else◌, Option, none, some, Bool-cases, arith,
}
use ccann.CuckooMap.{CuckooMap}
use ccann.PageCache.{Item, get, item_of, add_ref, put, deref_item, deref}

module _ (P : Type 0) (M : CuckooMap (Item P)) (fresh : P) where
  open M use {Map, find}

  -- The references to a block.
  abbrev pub refs_of : Option (Item P) → ℕ
  refs_of none = 0
  refs_of (some v) = v.ref_cnt

  abbrev pub buf_of : Option (Item P) → Option P
  buf_of o = elim o [ none ↦ none | some v ↦ some v.buf ]

  -- n references more to an item that is there.
  abbrev pub more : ℕ → Option (Item P) → Option (Item P)
  more n none = none
  more n (some v) = some (record v { ref_cnt = v.ref_cnt + n })

  pub more-zero : (o : Option (Item P)) → more 0 o ≡ o
  more-zero none = refl
  more-zero (some v) = ap (λ n. some (record v { ref_cnt = n })) (omega arith)

  pub more-more : (m n : ℕ) (o : Option (Item P)) → more m (more n o) ≡ more (n + m) o
  more-more m n none = refl
  more-more m n (some v) = ap (λ k. some (record v { ref_cnt = k })) (omega arith)

  one_more :
      (v : Item P)
      → v.ref_cnt + 1 < 2 ^ 64
      → add_ref P M fresh true v ≡ record v { ref_cnt = v.ref_cnt + 1 }
  one_more v h = ap (λ n. record v { ref_cnt = n }) (omega arith)

  get_item :
      (o : Option (Item P))
      → refs_of o + 1 < 2 ^ 64
      → (elim o [ none ↦ none | some v ↦ some (add_ref P M fresh true v) ]) ≡ more 1 o
  get_item none h = refl
  get_item (some v) h = ap some (one_more v h)

  pub find-get :
      (cache : Map) (block b : ℕ)
      → refs_of (find cache block) + 1 < 2 ^ 64
      → find (get P M fresh cache block true).1 b
        ≡ more (if b == block then 1 else 0) (find cache b)
  unfolding get
  find-get cache block b h =
      M.find-update_fn cache block b (add_ref P M fresh true) ∙ elim (Bool-cases (block == b)) [
        | inl e ↦
            let q : block ≡ b = ground arith in
            let t : (b == block) ≡ true = ground arith in
            rw (e, t) (get_item (find cache block) h ∙ ap (λ k. more 1 (find cache k)) q)
        | inr e ↦
            let t : (b == block) ≡ false = ground arith in
            rw (e, t) (sym (more-zero (find cache b)))
      ]

  -- n references more and the page p, where n is not 0.
  abbrev pub written : P → ℕ → Option (Item P) → Option (Item P)
  written p zero o = o
  written p (suc n) o = some (record { buf = p; ref_cnt = refs_of o + suc n })

  pub written-written :
      (p : P) (m : ℕ) (o : Option (Item P)) → written p m (written p 1 o) ≡ written p (suc m) o
  written-written p zero o = refl
  written-written p (suc m) o = ap (λ k. some (record { buf = p; ref_cnt = k })) (omega arith)

  put_item :
      (p : P) (o : Option (Item P))
      → refs_of o + 1 < 2 ^ 64
      → some (record (add_ref P M fresh true (item_of P M fresh o)) { buf = p }) ≡ written p 1 o
  put_item p none h = refl
  put_item p (some v) h = ap (λ (w : Item P). some (record w { buf = p })) (one_more v h)

  pub find-put :
      (cache : Map) (block b : ℕ) (p : P)
      → refs_of (find cache block) + 1 < 2 ^ 64
      → find (put P M fresh cache block p true) b
        ≡ written p (if b == block then 1 else 0) (find cache b)
  unfolding put
  find-put cache block b p h =
      M.find-upsert cache block b
        (λ o. record (add_ref P M fresh true (item_of P M fresh o)) { buf = p })
      ∙ elim (Bool-cases (block == b)) [
        | inl e ↦
            let q : block ≡ b = ground arith in
            let t : (b == block) ≡ true = ground arith in
            rw (e, t) (put_item p (find cache block) h ∙ ap (λ k. written p 1 (find cache k)) q)
        | inr e ↦ let t : (b == block) ≡ false = ground arith in rw (e, t) refl
      ]

  -- n references less; the item goes with the last one.
  abbrev pub less : ℕ → Option (Item P) → Option (Item P)
  less zero o = o
  less (suc n) none = none
  less (suc n) (some v) =
      if v.ref_cnt - suc n == 0 then none else some (record v { ref_cnt = v.ref_cnt - suc n })

  pub less-less :
      (m : ℕ) (o : Option (Item P)) → suc m ≤ refs_of o → less m (less 1 o) ≡ less (suc m) o
  less-less zero o h = refl
  less-less (suc m) none h = refl
  less-less (suc m) (some v) h =
      let there : (v.ref_cnt - 1 == 0) ≡ false = ground arith in
      let e : v.ref_cnt - 1 - suc m ≡ v.ref_cnt - suc (suc m) = omega arith in
      rw there (ap (λ k. if k == 0 then none else some (record v { ref_cnt = k })) e)

  deref_item_eq :
      (o : Option (Item P)) → refs_of o < 2 ^ 64 → 1 ≤ refs_of o → deref_item P M fresh o ≡ less 1 o
  deref_item_eq none h k = refl
  deref_item_eq (some v) h k =
      let e : (v.ref_cnt + (2 ^ 64 - 1)) % 2 ^ 64 ≡ v.ref_cnt - 1 = omega arith in
      ap (λ n. if n == 0 then none else some (record v { ref_cnt = n })) e

  pub find-deref :
      (cache : Map) (block b : ℕ)
      → refs_of (find cache block) < 2 ^ 64
      → 1 ≤ refs_of (find cache block)
      → find (deref P M fresh cache block) b ≡ less (if b == block then 1 else 0) (find cache b)
  unfolding deref
  find-deref cache block b h k =
      M.find-uprase_fn cache block b (deref_item P M fresh) ∙ elim (Bool-cases (block == b)) [
        | inl e ↦
            let q : block ≡ b = ground arith in
            let t : (b == block) ≡ true = ground arith in
            rw (e, t) (deref_item_eq (find cache block) h k ∙ ap (λ j. less 1 (find cache j)) q)
        | inr e ↦ let t : (b == block) ≡ false = ground arith in rw (e, t) refl
      ]

  pub refs-more : (n : ℕ) (o : Option (Item P)) → refs_of (more n o) ≤ refs_of o + n
  refs-more n none = omega arith
  refs-more n (some v) = omega arith

  pub buf-more : (n : ℕ) (o : Option (Item P)) → buf_of (more n o) ≡ buf_of o
  buf-more n none = refl
  buf-more n (some v) = refl

  pub refs-written : (p : P) (n : ℕ) (o : Option (Item P)) → refs_of (written p n o) ≡ refs_of o + n
  refs-written p zero o = omega arith
  refs-written p (suc n) o = refl

  pub refs-less : (n : ℕ) (o : Option (Item P)) → n ≤ refs_of o → refs_of (less n o) ≡ refs_of o - n
  refs-less zero o h = omega arith
  refs-less (suc n) none h = omega arith
  refs-less (suc n) (some v) h = elim (Bool-cases (v.ref_cnt - suc n == 0)) [
    | inl e ↦ rw e (ground arith)
    | inr e ↦ rw e refl
  ]
