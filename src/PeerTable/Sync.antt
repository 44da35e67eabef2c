-- ===== src/PeerTable/Sync.antt =====
-- What peer_table_decide says after peer_table_record_sync.
use waxwing.Common.{ℕ, ◌<◌, ◌≡◌, ◌≢◌, refl, sym, ◌∙◌, ◌*◌, arith}
use waxwing.Common.{some, true, false}
use waxwing.Common.{length, set, get_or, get_or-set_self, get_or-set_ne}
use waxwing.Common.{Bool-cases, Option-cases, inl, inr, ◌⊎◌}
use waxwing.Common.Bytes.{Bytes, bytes_eq, bytes_eq_refl, bytes_eq-true}
use waxwing.PeerTable.{PeerTable, PeerEntry, PeerSyncResult, empty_entry, holds, success, failed}
use waxwing.PeerTable.{find_slot, pick_eviction_slot, peer_table_size, claim_slot}
use waxwing.PeerTable.{peer_table_decide, peer_table_record_sync}
use waxwing.PeerTable.Slots.{find_slot-some, find_slot-set_other}
use waxwing.PeerTable.Slots.{pick_eviction_slot-lt, pick_eviction_slot-free}

-- The slot of a peer that was claimed is found, inside the table, and holds the peer.
abbrev IsClaimed : PeerTable × ℕ → Bytes → Type 0
IsClaimed (t, i) p =
    (find_slot t p ≡ some i) × (i < length t) × (holds (get_or t i empty_entry) p ≡ true)

-- The back-off in milliseconds: six hours after a success, 30 seconds after a failure.
unfoldable pub documented_ms : PeerSyncResult → ℕ
documented_ms success = 6 * 60 * 60 * 1000
documented_ms failed = 30 * 1000

holds-other : (e : PeerEntry) (p q : Bytes) → p ≢ q → holds e p ≡ true → holds e q ≡ false
holds-other e p q ne h = elim (Bool-cases e.used) [
  | inl u ↦ elim (Bool-cases (bytes_eq e.tpk_prefix q)) [
    | inl b ↦
        absurd
          (ne (sym (bytes_eq-true e.tpk_prefix p (rw u at h)) ∙ bytes_eq-true e.tpk_prefix q b))
    | inr b ↦ rw (u, b) refl
  ]
  | inr u ↦ rw u refl
]

new_entry-holds :
    (e : PeerEntry) (p q : Bytes)
    → p ≢ q
    → holds (record e { tpk_prefix = p; used = true }) q ≡ false
new_entry-holds e p q ne =
    holds-other (record e { tpk_prefix = p; used = true }) p q ne (bytes_eq_refl p)

-- A write to a slot of another peer leaves the answer as it was.
decide-set_other :
    (t : PeerTable) (q : Bytes) (i : ℕ) (e : PeerEntry) (version now : ℕ)
    → holds (get_or t i empty_entry) q ≡ false
    → holds e q ≡ false
    → peer_table_decide (set t i e) q version now ≡ peer_table_decide t q version now
unfolding peer_table_decide
decide-set_other t q i e version now h k = elim (Option-cases (find_slot t q)) [
  | inl m ↦ rw (peer_table_decide, find_slot-set_other t q i e h k, m)
  | inr (j, m) ↦
      let (lt, held) = find_slot-some t q j m in
      rw (
        peer_table_decide,
        find_slot-set_other t q i e h k,
        m,
        get_or-set_ne t {i = i} {j = j} e empty_entry (λ eq. cc),
      )
]

-- Recording a sync with one peer does not change the answer for another peer, provided that the
-- first has a slot already or that a slot is free: nobody is evicted then.
pub record_sync-other :
    (t : PeerTable) (p q : Bytes) (version now : ℕ) (result : PeerSyncResult) (version' now' : ℕ)
    → p ≢ q
    → ((i : ℕ) × (find_slot t p ≡ some i)) ⊎ (peer_table_size t < length t)
    → peer_table_decide (peer_table_record_sync t p version result now) q version' now'
      ≡ peer_table_decide t q version' now'
unfolding peer_table_record_sync claim_slot
record_sync-other t p q version now result version' now' ne room =
    elim (Option-cases (find_slot t p)) [
      | inl e ↦ elim room [
        | inl (i, found) ↦ cc
        | inr free ↦
            let i = pick_eviction_slot t in
            let lt = pick_eviction_slot-lt t (omega arith) in
            let x = record (get_or t i empty_entry) { tpk_prefix = p; used = true } in
            let no = new_entry-holds (get_or t i empty_entry) p q ne in
            let unused : holds (get_or t i empty_entry) q ≡ false =
              rw (pick_eviction_slot-free t free) refl in
            rw (peer_table_record_sync, claim_slot, e)
              (decide-set_other (set t i x) q i _ version' now'
                  (rw (get_or-set_self t i x empty_entry lt) no)
                  (rw (get_or-set_self t i x empty_entry lt) no)
                ∙ decide-set_other t q i x version' now' unused no)
      ]
      | inr (i, e) ↦
          let (lt, held) = find_slot-some t p i e in
          let no = holds-other (get_or t i empty_entry) p q ne held in
          rw (peer_table_record_sync, claim_slot, e) (decide-set_other t q i _ version' now' no no)
    ]
