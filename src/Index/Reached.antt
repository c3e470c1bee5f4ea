-- ===== src/Index/Reached.antt =====
-- src/index.cpp: what any sequence of insertions and deletions keeps.
use ccann.Prelude.{ℕ, ◌≤◌, ◌-◌, ◌^◌, ◌<◌, ◌≡◌, Bool, true, false, if◌then◌else◌, some, List, []}
use ccann.RobinSet.{RobinSet}
use ccann.Index.{Index, construct, enable_delete, insert_slots}
use ccann.Index.Growth.{growth}
use ccann.Index.Tags.{DeleteCode, place_point, lazy_delete, lazy_delete_all}

module _ (S : RobinSet) (V : Type 0) (zero_vec : V) where
  -- The indices that a program gets from an empty dynamic index: by insertions that return, and
  -- deletions of one tag or of a set, whatever they return.
  pub data Reached : Index S V → Type 0 where
    empty :
        (raw : ℕ → V) (max_points : ℕ) (tags : Bool)
        → max_points < 2 ^ 32
        → Reached (construct S V zero_vec raw max_points true tags)
    inserted :
        (i after : Index S V) (point : V) (tag location : ℕ)
        → Reached i
        → 2 ≤ i.max_points
        → growth i.max_points < 2 ^ 32
        → place_point S V zero_vec point tag i ≡ some (location, after)
        → Reached after
    deleted :
        (i after : Index S V) (tag : ℕ) (code : DeleteCode)
        → Reached i
        → lazy_delete S V zero_vec tag i ≡ (code, after)
        → Reached after
    deleted_all :
        (i after : Index S V) (tags : S.Set) (failed : List ℕ) (code : DeleteCode)
        → Reached i
        → lazy_delete_all S V zero_vec tags [] i ≡ (code, (failed, after))
        → Reached after
    enabled :
        (i after : Index S V)
        → Reached i
        → enable_delete S V zero_vec i ≡ some after
        → Reached after

  abbrev enable_slots : Index S V → S.Set
  enable_slots i =
      if i.data_compacted
      then insert_slots S V zero_vec i.empty_slots i.nd (i.max_points - i.nd)
      else i.empty_slots

  abbrev with_slots : S.Set → Index S V → Index S V
  with_slots slots i = record i { empty_slots = slots; lazy_done = false; eager_done = false }
