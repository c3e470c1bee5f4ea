-- ===== src/Persist/Recovery.antt =====
-- What a recovery finds after a crash during or after `insert_phase_pm`
-- (src/update/direct_insert.cpp), with the entries that `insert_commit_thread` writes for it.
use ccann.Prelude.{
  ℕ, ◌≡◌, Bool, true, false, ◌==◌, contains, take, arith, List, [], ◌∷◌, inl, inr, subst, sym,
}
use ccann.Layout.{Geometry}
use ccann.Persist.{Cell, node_line, tag, loc_entry, Memory, run, Always, Crash, untouched}
use ccann.Persist.Order.{stores, Ordered, Always-take}
use ccann.Persist.Insert.{Version, Insert, write_node}
use ccann.Persist.Soft.{ids, slots, Listed, covers}
use ccann.Persist.Safe.{whole, nnbrs, node_first, tag_first, neighbour_first, entry_first}

module _ (g : Geometry) (faddr : ℕ) (i : Insert) where
  -- The memory after the first `k` events of the insert.
  abbrev pub after : ℕ → Memory
  after k = run untouched (take k (whole g faddr i))

  -- The cache lines of a new node that `flush_dax` writes back survive.
  abbrev pub NodeKept : (Cell → Bool) → ℕ → ℕ → Type 0
  NodeKept kept loc degree =
      (line : ℕ)
      → stores (node_line loc line) (write_node g faddr loc degree) ≡ true
      → covers g faddr loc degree line ≡ true
      → kept (node_line loc line) ≡ true

  pub record TargetKept (kept : Cell → Bool) : Type 0 where
    pub node : NodeKept kept i.target_loc (nnbrs g faddr i)
    pub tagged : i.enable_tags ≡ true → kept (tag i.target_id) ≡ true

  use_order :
      (b a : Cell) (k : ℕ) (kept : Cell → Bool)
      → Always (Ordered b a) untouched (whole g faddr i)
      → Crash (after k) kept
      → kept a ≡ true
      → kept b ≡ true
  use_order b a k kept always c h =
      c.all_durable b
        (Always-take (Ordered b a) k (whole g faddr i) untouched always (c.only_stored a h))

  -- At whatever point a crash comes and whatever it leaves: where the entry of the new id survives,
  -- so do its tag and every flushed cache line of its node (its slot is not one of the
  -- neighbours' new slots).
  pub recovery-TargetKept :
      (k : ℕ) (kept : Cell → Bool)
      → contains i.target_loc (slots i.new_nhood) ≡ false
      → Crash (after k) kept
      → kept (loc_entry i.target_id) ≡ true
      → TargetKept kept
  recovery-TargetKept k kept apart c h = record {
    node = λ line st f.
        use_order (node_line i.target_loc line) (loc_entry i.target_id) k kept
          (node_first g faddr i line apart st f) c h;
    tagged = λ on.
        use_order (tag i.target_id) (loc_entry i.target_id) k kept (tag_first g faddr i on) c h;
  }

  -- Where the new entry of a neighbour survives, so do every flushed cache line of the neighbour's new
  -- node, the entry of the new id to which it points, and what that entry needs (the target is not
  -- among the neighbours, and its slot is not one of theirs).
  pub recovery-NodeKept :
      (k : ℕ) (kept : Cell → Bool) (v : Version)
      → contains i.target_loc (slots i.new_nhood) ≡ false
      → contains i.target_id (ids i.new_nhood) ≡ false
      → Listed v i.new_nhood
      → Crash (after k) kept
      → kept (loc_entry v.id) ≡ true
      → NodeKept kept v.loc v.degree × (kept (loc_entry i.target_id) ≡ true) × TargetKept kept
  recovery-NodeKept k kept v apart absent m c h =
      let other = not_target i.new_nhood m absent in
      let entry : kept (loc_entry i.target_id) ≡ true =
        use_order (loc_entry i.target_id) (loc_entry v.id) k kept
          (entry_first g faddr i v other absent) c h in
      (
        λ line st f.
            use_order (node_line v.loc line) (loc_entry v.id) k kept
              (neighbour_first g faddr i v line other m st f) c h,
        entry,
        recovery-TargetKept k kept apart c entry,
      )
    where
      not_target :
          (vs : List Version)
          → Listed v vs
          → contains i.target_id (ids vs) ≡ false
          → (v.id == i.target_id) ≡ false
      not_target [] m h = absurd m
      not_target (w ∷ vs) (inl e) h =
          subst (λ x. (x.id == i.target_id) ≡ false) (sym e) (ground arith)
      not_target (w ∷ vs) (inr m) h = not_target vs m (ground arith)
