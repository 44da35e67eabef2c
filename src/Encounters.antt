-- ===== src/Encounters.antt =====
-- firmware/core/encounters.h and firmware/core/encounters.c: the device's own signed records of the
-- access points that it saw, in a ring of 32 slots. A position in a record is the list of the bytes
-- from there on.
pub mod Layout
pub mod Time
pub mod Addresses
pub mod Throttle
pub mod Record
mod Tests
use waxwing.Common.{
  ℕ, zero, suc, ◌+◌, ◌-◌, ◌*◌, ◌/◌, ◌%◌, ◌^◌, List, [], ◌∷◌, ◌++◌, ltb, leb, ◌==◌, Bool, true,
  false,
}
use waxwing.Common.{
  not, ◌||◌, ◌&&◌, Option, none, some, if◌then◌else◌, length, take, drop, get_or, map, ◌>>=◌, ◌>>◌,
  guard,
}
use waxwing.Common.Int.{ℤ, pos, negsuc}
use waxwing.Common.Bytes.{Bytes, bytes_eq}
use waxwing.Cbor.Encode.{
  cborencode_uint, cborencode_byte_str, cborencode_map_header, cborencode_array_header, put_pairs,
  put_strs,
}
use waxwing.Filestore.{Filestore, encounters_bin}
use waxwing.HalCrypto.{HalCrypto}
use waxwing.SsidScan.{SsidObservation, ssid_scan_max}
use waxwing.BlobRing.{
  RingConfig, Ring, record_max, blank_ring, ring_append, ring_count, ring_for_each, ring_init,
  ring_persist, slot_at, slot_record_len, used_count_get, next_slot_get, is_record_len,
}

-- The magic is "WXEN".
abbrev pub encounters_config : RingConfig
encounters_config = record {
  cap = 32;
  slot_bytes = 256;
  magic0 = b'W';
  magic1 = b'X';
  magic2 = b'E';
  magic3 = b'N';
  blob_name = encounters_bin;
}

abbrev pub encounters_version : ℕ
encounters_version = 1

unfoldable pub encounters_reset : Ring
encounters_reset = blank_ring encounters_config

unfoldable pub encounters_count : Ring → ℕ
encounters_count r = ring_count encounters_config r

module _ {ℓ} {S : Type ℓ} (cb : S → Bytes → S × Bool) where
  unfoldable pub encounters_for_each : Ring → S → S × ℕ
  encounters_for_each r s = ring_for_each encounters_config cb r s

unfoldable pub newest_slot : Ring → ℕ
newest_slot r = (next_slot_get r + 32 - 1) % 32 % 256

abbrev pub bssids : List SsidObservation → List Bytes
bssids obs = map (λ (o : SsidObservation). o.bssid) obs

-- The array of the addresses of a scan.
unfoldable pub bssid_array : List SsidObservation → Bytes
bssid_array obs = cborencode_array_header (length obs) ++ put_strs (bssids obs)

-- The four fields that both encoders write.
abbrev pub body_pairs : Bytes → ℕ → List SsidObservation → List (ℕ × Bytes) → List (ℕ × Bytes)
body_pairs node time obs more =
    (1, cborencode_uint encounters_version)
    ∷ (2, cborencode_byte_str node)
    ∷ (3, cborencode_uint time)
    ∷ (4, bssid_array obs)
    ∷ more

unfoldable pub encode_signed_body : Bytes → ℕ → List SsidObservation → Bytes
encode_signed_body node time obs =
    cborencode_map_header 4 ++ put_pairs (body_pairs node time obs [])

-- `none` is the C result 0.
unfoldable pub encode_full_record : ℕ → Bytes → ℕ → List SsidObservation → Bytes → Option Bytes
encode_full_record out_max node time obs sig =
    if ltb out_max (record_max encounters_config)
    then none
    else some (
        cborencode_map_header 5
        ++ put_pairs (body_pairs node time obs ((5, cborencode_byte_str sig) ∷ [])))

-- The value behind the header byte at `p`, and the position behind it; `none` for a header that the
-- encoder does not write.
unfoldable pub read_time : Bytes → Option (ℕ × Bytes)
read_time p =
    let add = get_or p 0 0 % 2 ^ 5 in
    if ltb add 24
    then some (add, drop 1 p)
    else if add == 24
    then some (get_or p 1 0, drop 2 p)
    else if add == 25
    then some (get_or p 1 0 * 2 ^ 8 + get_or p 2 0, drop 3 p)
    else if add == 26
    then some (
      get_or p 1 0 * 2 ^ 24 + get_or p 2 0 * 2 ^ 16 + get_or p 3 0 * 2 ^ 8 + get_or p 4 0,
      drop 5 p,
    )
    else none

unfoldable pub scan_has : List SsidObservation → Bytes → Bool
scan_has [] bs = false
scan_has (o ∷ obs) bs = if bytes_eq o.bssid bs then true else scan_has obs bs

-- The loop over the stored addresses at `p`, of which `n` are left.
unfoldable pub some_new : List SsidObservation → ℕ → Bytes → Bool
some_new obs zero p = false
some_new obs (suc n) p =
    let rest = some_new obs n (drop 7 p) in
    if not (get_or p 0 0 == 0x46)
    then true
    else if not (scan_has obs (take 6 (drop 1 p)))
    then true
    else rest

-- The comparison with the stored array, behind its key at `p`.
unfoldable pub bssids_changed : List SsidObservation → Bytes → Bool
bssids_changed obs p =
    let hdr = get_or p 1 0 in
    if not (hdr / 2 ^ 5 == 4) || ltb ssid_scan_max (hdr % 2 ^ 5)
    then true
    else if not (hdr % 2 ^ 5 == length obs)
    then true
    else some_new obs (hdr % 2 ^ 5) (drop 2 p)

-- The part of `encounters_should_record` that reads the newest record. The header of the time stands
-- behind the map header, three small integers, the key and the time's own key.
unfoldable pub newest_differs : List SsidObservation → ℕ → ℕ → Bytes → Bool
newest_differs obs now_ms min_age_ms r =
    elim (read_time (drop (1 + (1 + 1) + (1 + 2 + 32) + 1) r)) [
      | none ↦ true
      | some (prev_time, p) ↦
          if leb min_age_ms ((now_ms + 2 ^ 32 - prev_time) % 2 ^ 32)
          then true
          else bssids_changed obs p
    ]

unfoldable pub encounters_should_record : Ring → List SsidObservation → ℕ → ℕ → Bool
encounters_should_record r obs now_ms min_age_ms =
    let slot = get_or r.slots (newest_slot r) [] in
    if not r.initialized || (length obs == 0)
    then false
    else if used_count_get r == 0
    then true
    else if not (is_record_len encounters_config (slot_record_len slot))
    then true
    else newest_differs obs now_ms min_age_ms (drop 2 slot)

-- The bytes that are compared one after the other from `p` on.
unfoldable pub starts_with : Bytes → Bytes → Bool
starts_with [] p = true
starts_with (b ∷ bs) p =
    let rest = starts_with bs (drop 1 p) in if get_or p 0 0 == b then rest else false

-- The value behind the header byte at `p`, where `left` bytes of the record are left behind it.
unfoldable pub time_value : Bytes → ℕ → Option ℕ
time_value p left =
    let add = get_or p 0 0 % 2 ^ 5 in
    if ltb add 24
    then some add
    else if (add == 24) && leb 1 left
    then some (get_or p 1 0)
    else if (add == 25) && leb 2 left
    then some (get_or p 1 0 * 2 ^ 8 + get_or p 2 0)
    else if (add == 26) && leb 4 left
    then some (get_or p 1 0 * 2 ^ 24 + get_or p 2 0 * 2 ^ 16 + get_or p 3 0 * 2 ^ 8 + get_or p 4 0)
    else none

-- `cbor` is the memory from the pointer on, which may hold more than the `len` bytes of the record.
unfoldable pub encounters_record_captured_at : Bytes → ℕ → Option ℕ
encounters_record_captured_at cbor len = if ltb len 4 then none else do
  guard (starts_with (0xA5 ∷ 1 ∷ 1 ∷ 2 ∷ 0x58 ∷ 0x20 ∷ []) cbor)
  guard (not (leb len 38))
  guard (get_or cbor 38 0 == 3)
  guard (not (leb len 39))
  time_value (drop 39 cbor) (len - 40)

module _ (fs : Filestore) where
  open fs use {Disk}

  unfoldable pub encounters_init : Disk → Ring
  encounters_init disk = ring_init encounters_config fs disk

  -- The ring with the record, the medium and the C result.
  abbrev pub store_record : Ring → Disk → Bytes → Ring × (Disk × ℤ)
  store_record r disk rec =
      let r' = ring_append encounters_config r rec in
      let (disk', ok) = ring_persist encounters_config fs r' disk in
      (r', (disk', if ok then pos 0 else negsuc 0))

  module _ (crypto : HalCrypto) where
    open crypto use {hal_ed25519_sign}

    -- A record that is too large would have been written over the slot before the check.
    unfoldable pub encounters_record :
        Ring → Disk → List SsidObservation → ℕ → Bytes → Bytes → Ring × (Disk × ℤ)
    encounters_record r disk obs captured_at_ms node_pub seed =
        if not r.initialized
        then (r, (disk, negsuc 0))
        else if (length obs == 0) || ltb ssid_scan_max (length obs)
        then (r, (disk, negsuc 0))
        else elim (hal_ed25519_sign seed (encode_signed_body node_pub captured_at_ms obs)) [
          | none ↦ (r, (disk, negsuc 0))
          | some sig ↦
              elim (encode_full_record (record_max encounters_config) node_pub captured_at_ms obs
                sig) [
                  | none ↦ (r, (disk, negsuc 0))
                  | some rec ↦
                      if (length rec == 0) || ltb (record_max encounters_config) (length rec)
                      then (r, (disk, negsuc 0))
                      else store_record r disk rec
                ]
        ]
