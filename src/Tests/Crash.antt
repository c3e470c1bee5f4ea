-- ===== src/Tests/Crash.antt =====
-- The theorems on crashes, for an insert of id 9 with two neighbours, and a crash after its events.
use ccann.Prelude.{◌≡◌, refl, Bool, true, [], ◌∷◌, inl, inr}
use ccann.Persist.{Cell, loc_entry, run, Crash, untouched}
use ccann.Persist.Order.{durable-stored}
use ccann.Layout.{
  offset_to_loc, loc_sector_no, offset_to_node_nhood, nbrs_address, node_len, flush_dax,
  flush_lines, round_up,
}
use ccann.Persist.Insert.{
  Insert, insert_phase_pm, target_phase, neighbour_phase, write_node, flush_node, persist_tag,
  store_bytes, node_address, write_neighbours, flush_neighbours, write_queued,
}
use ccann.Persist.Recovery.{after, NodeKept, TargetKept, recovery-TargetKept, recovery-NodeKept}
use ccann.Tests.Disk.{four_slots}

abbrev insert_9 : Insert
insert_9 = record {
  target_id = 9;
  target_loc = 8;
  enable_tags = true;
  new_nhood = record { id = 2; loc = 9; degree = 3 } ∷ record { id = 3; loc = 10; degree = 4 } ∷ [];
}

-- All that was stored survives.
abbrev all_kept : Cell → Bool
all_kept = (after four_slots 0 insert_9 200).stored

image_200 : Crash (after four_slots 0 insert_9 200) all_kept
image_200 = record {
  all_durable = λ c h. durable-stored _ untouched (λ b k. absurd (cc k)) c h;
  only_stored = λ c h. h;
}

entries_kept : (all_kept (loc_entry 9) ≡ true) × (all_kept (loc_entry 3) ≡ true)
unfolding run insert_phase_pm target_phase neighbour_phase write_node flush_node persist_tag
    store_bytes node_address write_neighbours flush_neighbours write_queued offset_to_loc
    loc_sector_no offset_to_node_nhood nbrs_address node_len flush_dax flush_lines round_up
entries_kept = (refl, refl)

recovery-TargetKept_example : TargetKept four_slots 0 insert_9 all_kept
recovery-TargetKept_example =
    recovery-TargetKept four_slots 0 insert_9 200 all_kept refl image_200 entries_kept.0

recovery-NodeKept_example :
    NodeKept four_slots 0 insert_9 all_kept 10 4
    × (all_kept (loc_entry 9) ≡ true)
    × TargetKept four_slots 0 insert_9 all_kept
recovery-NodeKept_example =
    recovery-NodeKept four_slots 0 insert_9 200 all_kept (record { id = 3; loc = 10; degree = 4 })
      refl refl (inr (inl refl)) image_200 entries_kept.1
