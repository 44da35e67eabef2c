-- ===== src/PeerLedger/Tests.antt =====
-- Tests of peer_ledger.c's model over a medium with one blob, and witnesses.
use waxwing.Common.{◌+◌, ◌≤◌, ◌≡◌, refl, arith, List, [], ◌∷◌, true, some, take, replicate}
use waxwing.Common.Int.{negsuc}
use waxwing.Common.Bytes.{Bytes, bytes_eq}
use waxwing.Filestore.{Filestore, IsFilestore}
use waxwing.PeerLedger.{
  LedgerEntry, persist, peer_ledger_init, peer_ledger_apply, peer_ledger_get, find_index,
}
use waxwing.PeerLedger.Slot.{IsEntry}
use waxwing.PeerLedger.Restart.{persist-init}
use waxwing.PeerLedger.Lookup.{get-apply, entry_of, capped}

-- A medium that remembers the last write.
abbrev last_write : Filestore
last_write = record {
  Disk = Bytes;
  fs_system_read = λ disk blob buf_size. some (take buf_size disk);
  fs_system_write = λ disk blob data'. (data', true);
}

last_write-IsFilestore : IsFilestore last_write
last_write-IsFilestore = record { read-write = λ disk blob data' buf_size e. refl }

abbrev known : LedgerEntry
known = record {
  pub_key = replicate 32 1;
  last_meeting_count = 7;
  tx_bytes_lifetime = 18446744073709551615;
  rx_bytes_lifetime = 70000;
  file_count_lifetime = 2;
  my_rep_score = negsuc 4;
}

abbrev ledger : List LedgerEntry
ledger = known ∷ []

known-IsEntry : IsEntry known
known-IsEntry = record {
  pub_key = refl;
  last_meeting_count = omega arith;
  tx_bytes_lifetime = omega arith;
  rx_bytes_lifetime = omega arith;
  file_count_lifetime = omega arith;
  my_rep_score = omega arith;
}

persist-init_example : peer_ledger_init last_write (persist last_write ledger []).0 ≡ ledger
unfolding persist
persist-init_example =
    persist-init last_write ledger [] last_write-IsFilestore (known-IsEntry, tt) (omega arith) refl

-- The entry is at the largest number of bytes already.
get-apply_example :
    (e : LedgerEntry) × (peer_ledger_get
        (peer_ledger_apply last_write ledger [] (replicate 32 1) 5 6 1 3).0
        (replicate 32 1)
      ≡ some e)
    × (e.tx_bytes_lifetime ≡ capped (18446744073709551615 + 5))
    × (e.rx_bytes_lifetime ≡ capped (70000 + 6))
    × (e.file_count_lifetime ≡ capped (2 + 1))
    × (7 ≤ e.last_meeting_count)
    × (3 ≤ e.last_meeting_count)
    × (e.my_rep_score ≡ negsuc 4)
unfolding entry_of peer_ledger_get find_index bytes_eq
get-apply_example =
    get-apply last_write ledger [] (replicate 32 1) 5 6 1 3 (omega arith) (omega arith)
      (omega arith) (omega arith) (omega arith) (omega arith)
