-- ===== src/PeerTable.antt =====
-- firmware/core/peer_table.h and firmware/core/peer_table.c: the least-recently-used table of the
-- peers that were synced with, which decides whether to connect to a peer again.
pub mod Slots
pub mod Sync
mod Tests
use waxwing.Common.{
  ℕ, zero, suc, ◌+◌, ◌-◌, ◌^◌, ◌%◌, List, [], ◌∷◌, leb, ltb, ◌==◌, Bool, true, false,
}
use waxwing.Common.{Option, none, some, if◌then◌else◌, ◌&&◌, not, set, get_or, replicate}
use waxwing.Common.Bytes.{Bytes, bytes_eq}
use waxwing.Constants.{
  peer_tpk_prefix_len, peer_table_cap, peer_success_backoff_ms, peer_failed_backoff_ms,
}

-- `peer_sync_result_t`
pub data PeerSyncResult : Type 0 where
  success failed : PeerSyncResult

-- `peer_decision_t`
pub data PeerDecision : Type 0 where
  connect skip : PeerDecision

-- `peer_entry_t`
pub record PeerEntry : Type 0 where
  pub tpk_prefix : Bytes
  pub last_version : ℕ
  pub last_result : PeerSyncResult
  pub last_synced_ms : ℕ
  pub used : Bool

-- A slot of zero bytes.
abbrev pub empty_entry : PeerEntry
empty_entry = record {
  tpk_prefix = replicate peer_tpk_prefix_len 0;
  last_version = 0;
  last_result = success;
  last_synced_ms = 0;
  used = false;
}

-- `g_table`
abbrev pub PeerTable : Type 0
PeerTable = List PeerEntry

unfoldable pub peer_table_init : PeerTable
peer_table_init = replicate peer_table_cap empty_entry

abbrev pub holds : PeerEntry → Bytes → Bool
holds e tpk_prefix = e.used && bytes_eq e.tpk_prefix tpk_prefix

-- One slot further, where the search succeeded.
abbrev pub next_slot : Option ℕ → Option ℕ
next_slot none = none
next_slot (some i) = some (suc i)

-- `none` is the C result -1.
unfoldable pub find_slot : PeerTable → Bytes → Option ℕ
find_slot [] tpk_prefix = none
find_slot (e ∷ t) tpk_prefix =
    let rest = find_slot t tpk_prefix in if holds e tpk_prefix then some 0 else next_slot rest

-- The loop at slot `i`, with the least stamp so far and its slot.
unfoldable pub eviction_loop : PeerTable → ℕ → ℕ → ℕ → ℕ
eviction_loop [] i lru lru_stamp = lru
eviction_loop (e ∷ t) i lru lru_stamp =
    let older = ltb e.last_synced_ms lru_stamp in
    let rest =
      eviction_loop t (suc i) (if older then i else lru)
        (if older then e.last_synced_ms else lru_stamp) in
    if not e.used then i else rest

unfoldable pub pick_eviction_slot : PeerTable → ℕ
pick_eviction_slot t = eviction_loop t 0 0 (2 ^ 32 - 1)

abbrev pub backoff_for : PeerSyncResult → ℕ
backoff_for success = peer_success_backoff_ms
backoff_for failed = peer_failed_backoff_ms

-- `now_ms - e->last_synced_ms` in `uint32_t`.
unfoldable pub age_ms : ℕ → ℕ → ℕ
age_ms now_ms then_ms = (now_ms + 2 ^ 32 - then_ms) % 2 ^ 32

abbrev pub decide_known : PeerEntry → ℕ → ℕ → PeerDecision
decide_known e advertised_version now_ms =
    if not (e.last_version == advertised_version)
    then connect
    else if leb (backoff_for e.last_result) (age_ms now_ms e.last_synced_ms)
    then connect
    else skip

unfoldable pub peer_table_decide : PeerTable → Bytes → ℕ → ℕ → PeerDecision
peer_table_decide t tpk_prefix advertised_version now_ms = elim (find_slot t tpk_prefix) [
  | none ↦ connect
  | some idx ↦ decide_known (get_or t idx empty_entry) advertised_version now_ms
]

-- The slot for the peer: the one that it has, or else one that is taken for it.
unfoldable pub claim_slot : PeerTable → Bytes → PeerTable × ℕ
claim_slot t tpk_prefix = elim (find_slot t tpk_prefix) [
  | none ↦
      let idx = pick_eviction_slot t in
      (set t idx (record (get_or t idx empty_entry) { tpk_prefix = tpk_prefix; used = true }), idx)
  | some idx ↦ (t, idx)
]

abbrev pub record_in : PeerTable × ℕ → ℕ → PeerSyncResult → ℕ → PeerTable
record_in (t, idx) synced_version result now_ms = set t idx (record (get_or t idx empty_entry) {
  last_version = synced_version;
  last_result = result;
  last_synced_ms = now_ms;
})

unfoldable pub peer_table_record_sync : PeerTable → Bytes → ℕ → PeerSyncResult → ℕ → PeerTable
peer_table_record_sync t tpk_prefix synced_version result now_ms =
    record_in (claim_slot t tpk_prefix) synced_version result now_ms

unfoldable pub peer_table_size : PeerTable → ℕ
peer_table_size [] = 0
peer_table_size (e ∷ t) = (if e.used then 1 else 0) + peer_table_size t
