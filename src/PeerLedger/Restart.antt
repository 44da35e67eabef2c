-- ===== src/PeerLedger/Restart.antt =====
-- What peer_ledger.c persists, the next start loads.
use waxwing.Common.{
  ℕ, ◌-◌, ◌*◌, ◌%◌, ◌≤◌, ◌≡◌, refl, ap, subst, le→ltb_false, arith, List, [], ◌∷◌, All, true,
}
use waxwing.Common.{length, take, replicate, length-append, length-replicate}
use waxwing.Common.Bytes.{Bytes, bytes_eq}
use waxwing.Filestore.{Filestore, IsFilestore, peer_ledger_bin}
use waxwing.PeerLedger.{LedgerEntry, encode_slots, persist_bytes, load, peer_ledger_init, persist}
use waxwing.PeerLedger.Slot.{IsEntry, decode-encode_slots, length-encode_slots}

take-length : (bs : Bytes) → take (length bs) bs ≡ bs
take-length [] = refl
take-length (b ∷ bs) = ap (λ l. b ∷ l) (take-length bs)

take_all : (n : ℕ) (bs : Bytes) → length bs ≡ n → take n bs ≡ bs
take_all n bs h = subst (λ n. take n bs ≡ bs) h (take-length bs)

length-persist_bytes :
    (es : List LedgerEntry) → All IsEntry es → length es ≤ 64 → length (persist_bytes es) ≡ 5136
unfolding persist_bytes
length-persist_bytes es wf h = omega (
  arith,
  length-append (encode_slots es) (replicate ((64 - length es) * 80) 0),
  length-encode_slots es wf,
  length-replicate {A = ℕ} ((64 - length es) * 80) 0,
)

load-persist_bytes :
    (es : List LedgerEntry) → All IsEntry es → length es ≤ 64 → load (persist_bytes es) ≡ es
unfolding load persist_bytes bytes_eq
load-persist_bytes es wf h =
    let count : length es % 256 ≡ length es = omega arith in
    rw
      (
        load,
        length-persist_bytes es wf h,
        count,
        le→ltb_false 64 (length es) h,
        decode-encode_slots es (replicate ((64 - length es) * 80) 0) wf,
      )
      refl

-- If at most 64 entries that fit the structure were persisted, a start loads these entries.
pub persist-init :
    (fs : Filestore) (es : List LedgerEntry) (disk : fs.Disk)
    → IsFilestore fs
    → All IsEntry es
    → length es ≤ 64
    → (persist fs es disk).1 ≡ true
    → peer_ledger_init fs (persist fs es disk).0 ≡ es
unfolding peer_ledger_init persist
persist-init fs es disk ok wf h persisted =
    rw
      (
        peer_ledger_init,
        ok.read-write disk peer_ledger_bin (persist_bytes es) 5136 persisted,
        take_all 5136 (persist_bytes es) (length-persist_bytes es wf h),
      )
      (load-persist_bytes es wf h)
