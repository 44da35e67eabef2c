-- ===== src/PeerTable/Tests.antt =====
-- Tests of peer_table.c's model on small tables, and witnesses.
use waxwing.Common.{ℕ, ◌≡◌, ◌≢◌, refl, arith, [], ◌∷◌, true, inr, replicate, get_or}
use waxwing.Common.Bytes.{Bytes}
use waxwing.PeerTable.{PeerTable, PeerEntry, empty_entry, success}
use waxwing.PeerTable.{
  peer_table_decide, peer_table_record_sync, peer_table_size, pick_eviction_slot,
}
use waxwing.Common.{◌<◌, length}
use waxwing.PeerTable.Slots.{IsLeast, pick_eviction_slot-IsLeast}
use waxwing.PeerTable.Sync.{record_sync-other}

abbrev peer : ℕ → Bytes
peer n = replicate 8 n

abbrev entry : ℕ → ℕ → PeerEntry
entry n ms = record {
  tpk_prefix = peer n;
  last_version = 3;
  last_result = success;
  last_synced_ms = ms;
  used = true;
}

abbrev full : PeerTable
full = entry 1 500 ∷ entry 2 300 ∷ entry 3 400 ∷ []

record_sync-other_example :
    peer_table_decide
      (peer_table_record_sync (entry 1 500 ∷ empty_entry ∷ []) (peer 2) 9 success 600)
      (peer 1)
      3
      700
    ≡ peer_table_decide (entry 1 500 ∷ empty_entry ∷ []) (peer 1) 3 700
unfolding peer_table_size
record_sync-other_example =
    record_sync-other (entry 1 500 ∷ empty_entry ∷ []) (peer 2) (peer 1) 9 600 success 3 700
      peers_differ (inr (omega arith))
  where
    peers_differ : peer 2 ≢ peer 1
    peers_differ = λ e. cc

pick_eviction_slot-IsLeast_example :
    (pick_eviction_slot full < length full)
    × IsLeast full (get_or full (pick_eviction_slot full) empty_entry).last_synced_ms
pick_eviction_slot-IsLeast_example =
    pick_eviction_slot-IsLeast full (omega arith) (refl, (refl, (refl, tt))) (omega arith)
