-- ===== src/PeerLedger.antt =====
-- firmware/core/peer_ledger.h and firmware/core/peer_ledger.c: the running totals of each peer, in
-- memory and as one blob on the medium. The `g_used` first entries of the array are a list; the
-- entries behind them are zero and are not read.
pub mod Slot
pub mod Restart
pub mod Lookup
mod Tests
use waxwing.Common.{
  ℕ, zero, suc, ◌+◌, ◌-◌, ◌*◌, ◌^◌, ◌%◌, List, [], ◌∷◌, ◌++◌, ltb, leb, ◌==◌, Bool, not, ◌&&◌,
}
use waxwing.Common.{
  Option, none, some, if◌then◌else◌, length, take, drop, set, get_or, replicate, ◌>>=◌, ◌||◌,
}
use waxwing.Common.Int.{ℤ, pos, negsuc}
use waxwing.Common.Bytes.{Bytes, bytes_eq, le_bytes, le_value}
use waxwing.Filestore.{Filestore, peer_ledger_bin}

abbrev pub peer_ledger_cap : ℕ
peer_ledger_cap = 64

abbrev pub header_bytes : ℕ
header_bytes = 16

abbrev pub slot_bytes : ℕ
slot_bytes = 80

abbrev pub buffer_bytes : ℕ
buffer_bytes = header_bytes + peer_ledger_cap * slot_bytes

-- `peer_ledger_entry_t`
pub record LedgerEntry : Type 0 where
  pub pub_key : Bytes
  pub last_meeting_count : ℕ
  pub tx_bytes_lifetime : ℕ
  pub rx_bytes_lifetime : ℕ
  pub file_count_lifetime : ℕ
  pub my_rep_score : ℤ

unfoldable pub put_u64_le : ℕ → Bytes
put_u64_le v = le_bytes 8 v

unfoldable pub get_u64_le : Bytes → ℕ
get_u64_le p = le_value (take 8 p)

-- `(uint32_t)v`
abbrev pub to_u32 : ℤ → ℕ
to_u32 (pos n) = n % 2 ^ 32
to_u32 (negsuc n) = 2 ^ 32 - 1 - n % 2 ^ 32

-- `(int32_t)u`
abbrev pub from_u32 : ℕ → ℤ
from_u32 u = if ltb u (2 ^ 31) then pos u else negsuc (2 ^ 32 - 1 - u)

unfoldable pub put_i32_le : ℤ → Bytes
put_i32_le v = le_bytes 4 (to_u32 v)

unfoldable pub get_i32_le : Bytes → ℤ
get_i32_le p = from_u32 (le_value (take 4 p))

unfoldable pub encode_slot : LedgerEntry → Bytes
encode_slot e =
    e.pub_key
    ++ (put_u64_le e.last_meeting_count
        ++ (put_u64_le e.tx_bytes_lifetime
            ++ (put_u64_le e.rx_bytes_lifetime
                ++ (put_u64_le e.file_count_lifetime
                    ++ (put_i32_le e.my_rep_score ++ replicate 12 0)))))

-- `in + 32` and the four steps of eight bytes from there.
unfoldable pub decode_slot : Bytes → LedgerEntry
decode_slot bytes =
    let p32 = drop 32 bytes in
    let p40 = drop 8 p32 in
    let p48 = drop 8 p40 in
    let p56 = drop 8 p48 in
    record {
      pub_key = take 32 bytes;
      last_meeting_count = get_u64_le p32;
      tx_bytes_lifetime = get_u64_le p40;
      rx_bytes_lifetime = get_u64_le p48;
      file_count_lifetime = get_u64_le p56;
      my_rep_score = get_i32_le (drop 8 p56);
    }

unfoldable pub encode_slots : List LedgerEntry → Bytes
encode_slots [] = []
encode_slots (e ∷ es) = encode_slot e ++ encode_slots es

-- `n` slots are left at `p`.
unfoldable pub decode_slots : ℕ → Bytes → List LedgerEntry
decode_slots zero p = []
decode_slots (suc n) p = decode_slot p ∷ decode_slots n (drop slot_bytes p)

-- The magic "WXPL", the version, the count and ten bytes of zero.
abbrev pub header : ℕ → Bytes
header used = 87 ∷ 88 ∷ 80 ∷ 76 ∷ 1 ∷ used % 256 ∷ replicate 10 0

-- The buffer that `persist` writes.
unfoldable pub persist_bytes : List LedgerEntry → Bytes
persist_bytes es =
    header (length es)
    ++ (encode_slots es ++ replicate ((peer_ledger_cap - length es) * slot_bytes) 0)

-- The entries that the blob stands for, or none of them.
unfoldable pub load : Bytes → List LedgerEntry
load buf =
    if not (length buf == buffer_bytes)
    then []
    else if not (bytes_eq (take 4 buf) (87 ∷ 88 ∷ 80 ∷ 76 ∷ []))
    then []
    else if not (get_or buf 4 0 == 1)
    then []
    else if ltb peer_ledger_cap (get_or buf 5 0)
    then []
    else decode_slots (get_or buf 5 0) (drop header_bytes buf)

-- `none` is the C result -1.
unfoldable pub find_index : List LedgerEntry → Bytes → Option ℕ
find_index [] pub_key = none
find_index (e ∷ es) pub_key =
    let rest = find_index es pub_key in
    if bytes_eq e.pub_key pub_key then some 0 else (rest >>= λ i. some (suc i))

-- The loop at entry `i`, with the lowest count so far and its entry.
unfoldable pub victim_loop : List LedgerEntry → ℕ → ℕ → ℕ → ℕ
victim_loop [] i victim best = victim
victim_loop (e ∷ es) i victim best =
    let lower = ltb e.last_meeting_count best in
    victim_loop es (suc i) (if lower then i else victim)
      (if lower then e.last_meeting_count else best)

unfoldable pub pick_eviction_victim : List LedgerEntry → ℕ
pick_eviction_victim [] = 0
pick_eviction_victim (e ∷ es) = victim_loop es 1 0 e.last_meeting_count

-- A zeroed entry with the key.
abbrev pub fresh : Bytes → LedgerEntry
fresh pub_key = record {
  pub_key = pub_key;
  last_meeting_count = 0;
  tx_bytes_lifetime = 0;
  rx_bytes_lifetime = 0;
  file_count_lifetime = 0;
  my_rep_score = pos 0;
}

unfoldable pub upsert_slot : List LedgerEntry → Bytes → List LedgerEntry × ℕ
upsert_slot es pub_key = elim (find_index es pub_key) [
  | some i ↦ (es, i)
  | none ↦
      if ltb (length es) peer_ledger_cap
      then (es ++ (fresh pub_key ∷ []), length es)
      else (set es (pick_eviction_victim es) (fresh pub_key), pick_eviction_victim es)
]

unfoldable pub peer_ledger_get : List LedgerEntry → Bytes → Option LedgerEntry
peer_ledger_get es pub_key = find_index es pub_key >>= λ i. some (get_or es i (fresh []))

unfoldable pub peer_ledger_get_by_prefix : List LedgerEntry → Bytes → Option LedgerEntry
peer_ledger_get_by_prefix [] prefix = none
peer_ledger_get_by_prefix (e ∷ es) prefix =
    let rest = peer_ledger_get_by_prefix es prefix in
    if bytes_eq (take 8 e.pub_key) prefix then some e else rest

unfoldable pub sat_add_u64 : ℕ → ℕ → ℕ
sat_add_u64 a b = if ltb (2 ^ 64 - 1 - a) b then 2 ^ 64 - 1 else (a + b) % 2 ^ 64

-- The four updates of `peer_ledger_apply` to one entry.
unfoldable pub credited : LedgerEntry → ℕ → ℕ → ℕ → ℕ → LedgerEntry
credited e tx_delta rx_delta file_delta seen = record e {
  tx_bytes_lifetime = sat_add_u64 e.tx_bytes_lifetime tx_delta;
  rx_bytes_lifetime = sat_add_u64 e.rx_bytes_lifetime rx_delta;
  file_count_lifetime = sat_add_u64 e.file_count_lifetime file_delta;
  last_meeting_count = if ltb e.last_meeting_count seen then seen else e.last_meeting_count;
}

-- `g_entries[i]`, changed.
abbrev pub update_at : List LedgerEntry × ℕ → (LedgerEntry → LedgerEntry) → List LedgerEntry
update_at (es, i) change = set es i (change (get_or es i (fresh [])))

module _ (fs : Filestore) where
  open fs use {Disk, fs_system_read, fs_system_write}

  unfoldable pub peer_ledger_init : Disk → List LedgerEntry
  peer_ledger_init disk = elim (fs_system_read disk peer_ledger_bin buffer_bytes) [
    | none ↦ []
    | some buf ↦ load buf
  ]

  unfoldable pub persist : List LedgerEntry → Disk → Disk × Bool
  persist es disk = fs_system_write disk peer_ledger_bin (persist_bytes es)

  unfoldable pub peer_ledger_apply :
      List LedgerEntry → Disk → Bytes → ℕ → ℕ → ℕ → ℕ → List LedgerEntry × (Disk × Bool)
  peer_ledger_apply es disk pub_key tx_delta rx_delta file_delta seen =
      let es' =
        update_at (upsert_slot es pub_key) (λ e. credited e tx_delta rx_delta file_delta seen) in
      (es', persist es' disk)

  unfoldable pub peer_ledger_set_rep :
      List LedgerEntry → Disk → Bytes → ℤ → List LedgerEntry × (Disk × Bool)
  peer_ledger_set_rep es disk pub_key rep_score =
      let es' = update_at (upsert_slot es pub_key) (λ e. record e { my_rep_score = rep_score }) in
      (es', persist es' disk)
