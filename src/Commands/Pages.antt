-- ===== src/Commands/Pages.antt =====
-- firmware/core/commands.c: the commands that return the last scan and the stored captures, a page
-- at a time.
use Prim.Native.String.{String}
use waxwing.Common.{
  ℕ, suc, ◌+◌, ◌-◌, ◌%◌, ◌^◌, List, [], ◌∷◌, ◌++◌, ltb, leb, Bool, true, false, not,
}
use waxwing.Common.{Option, none, some, if◌then◌else◌, length, take, drop}
use waxwing.Common.Bytes.{Bytes}
use waxwing.Cbor.Encode.{
  cborencode_map_header, cborencode_array_header, cborencode_text_str, cborencode_byte_str,
  cborencode_uint, cborencode_int, cborencode_bool,
}
use waxwing.Filestore.{Filestore}
use waxwing.SsidScan.{SsidObservation}
use waxwing.Encounters.{encounters_for_each, encounters_record_captured_at}
use waxwing.Commands.{Radio, Device, text, emit_error, get_uint_or, response_budget, budget_behind}

unfoldable pub obs_entry_size : ℕ → ℕ
obs_entry_size ssid_len =
    1
    + (1 + 5)
    + (2 + 6)
    + (1 + 4)
    + ((if leb ssid_len 23 then 1 else 2) + ssid_len)
    + (1 + 4)
    + 2
    + (1 + 7)
    + 2

-- The leading observations that fit, where `used` bytes are taken already.
unfoldable pub obs_fitting : ℕ → ℕ → List SsidObservation → ℕ
obs_fitting entry_budget used [] = 0
obs_fitting entry_budget used (o ∷ obs) =
    let size = obs_entry_size (length o.ssid) in
    let more = obs_fitting entry_budget (used + size) obs in
    if ltb entry_budget (used + size) then 0 else suc more

unfoldable pub obs_entry : SsidObservation → Bytes
obs_entry o =
    cborencode_map_header 4
    ++ (text "bssid"
        ++ (cborencode_byte_str o.bssid
            ++ (text "ssid"
                ++ (cborencode_text_str o.ssid
                    ++ (text "rssi"
                        ++ (cborencode_int o.rssi
                            ++ (text "channel" ++ cborencode_uint o.channel)))))))

unfoldable pub obs_entries : List SsidObservation → Bytes
obs_entries [] = []
obs_entries (o ∷ obs) = obs_entry o ++ obs_entries obs

-- `"next_offset"` and its value, if there is a next page.
abbrev pub next_page : Bool → ℕ → Bytes
next_page has_next next_offset =
    if has_next then text "next_offset" ++ cborencode_uint next_offset else []

unfoldable pub cmd_scan_get : Radio → Bytes → ℕ → ℕ → Option Bytes
cmd_scan_get radio body pc out_max = elim radio.latest_scan [
  | none ↦ emit_error out_max "no scan"
  | some scan ↦
      let offset : ℕ = get_uint_or body pc "offset" 0 in
      let start : ℕ = if ltb (length scan.obs) offset then length scan.obs else offset in
      let entry_budget : ℕ = budget_behind 48 (response_budget radio out_max) in
      let cnt : ℕ = obs_fitting entry_budget 0 (drop start scan.obs) in
      let has_next : Bool = ltb (start + cnt) (length scan.obs) in
      some (
        cborencode_map_header (if has_next then 4 else 3)
        ++ (text "ok"
            ++ (cborencode_bool true
                ++ (text "scanned_ms"
                    ++ (cborencode_uint scan.scanned_ms
                        ++ (text "obs"
                            ++ (cborencode_array_header cnt
                                ++ (obs_entries (take cnt (drop start scan.obs))
                                    ++ next_page has_next (start + cnt)))))))))
]

-- `enc_walk_t` and `attq_walk_t`, without the constants of a walk; the bytes behind the cursor are
-- the list `p`.
pub record PageWalk : Type 0 where
  pub skip_remaining : ℕ
  pub used : ℕ
  pub to_emit : ℕ
  pub emitted : ℕ
  pub p : Bytes
  pub overflow : Bool

abbrev pub page_walk : ℕ → ℕ → PageWalk
page_walk skip to_emit = record {
  skip_remaining = skip;
  used = 0;
  to_emit = to_emit;
  emitted = 0;
  p = [];
  overflow = false;
}

unfoldable pub outer_size : ℕ → ℕ
outer_size len = if leb len 23 then 1 + len else if leb len 0xFF then 2 + len else 3 + len

-- A round of the counting pass, for a record of `len` bytes that is to be returned.
unfoldable pub count_record : ℕ → PageWalk → ℕ → PageWalk × Bool
count_record budget w len =
    if ltb 0 w.skip_remaining
    then (record w { skip_remaining = w.skip_remaining - 1 }, false)
    else if ltb budget (w.used + outer_size len)
    then (record w { overflow = true }, true)
    else (record w { used = w.used + outer_size len; to_emit = w.to_emit + 1 }, false)

-- A round of the emitting pass.
unfoldable pub emit_record : PageWalk → Bytes → PageWalk × Bool
emit_record w rec =
    if ltb 0 w.skip_remaining
    then (record w { skip_remaining = w.skip_remaining - 1 }, false)
    else if leb w.to_emit w.emitted
    then (w, true)
    else (record w { p = w.p ++ cborencode_byte_str rec; emitted = w.emitted + 1 }, false)

-- Whether a stored capture is later than `since_ms`. Behind a record its slot holds zeros, so reading
-- past the record's bytes gives 0.
unfoldable pub is_later : ℕ → Bytes → Bool
is_later since_ms cbor = elim (encounters_record_captured_at cbor (length cbor)) [
  | none ↦ false
  | some cap_at ↦ ltb since_ms cap_at
]

unfoldable pub enc_count_cb : ℕ → ℕ → PageWalk → Bytes → PageWalk × Bool
enc_count_cb since_ms budget w cbor =
    if not (is_later since_ms cbor) then (w, false) else count_record budget w (length cbor)

unfoldable pub enc_emit_cb : ℕ → PageWalk → Bytes → PageWalk × Bool
enc_emit_cb since_ms w cbor =
    if not (is_later since_ms cbor) then (w, false) else emit_record w cbor

-- The response around a page: `counted` is the state behind the counting pass, `emitted` the one
-- behind the emitting pass.
unfoldable pub page_response : String → ℕ → PageWalk → PageWalk → Bytes
page_response key offset counted emitted =
    cborencode_map_header (if counted.overflow then 3 else 2)
    ++ (text "ok"
        ++ (cborencode_bool true
            ++ (text key
                ++ (cborencode_array_header counted.to_emit
                    ++ (emitted.p
                        ++ next_page counted.overflow ((offset + counted.to_emit) % 2 ^ 32))))))

module _ {fs : Filestore} (radio : Radio) where
  unfoldable pub cmd_encounters_get : Device fs → Bytes → ℕ → ℕ → Option Bytes
  cmd_encounters_get dev body pc out_max =
      let since_ms : ℕ = get_uint_or body pc "since_ms" 0 % 2 ^ 32 in
      let offset : ℕ = get_uint_or body pc "offset" 0 % 2 ^ 32 in
      let rec_budget : ℕ = budget_behind 32 (response_budget radio out_max) in
      let counted =
        (encounters_for_each (enc_count_cb since_ms rec_budget) dev.encounters
          (page_walk offset 0)).0 in
      let emitted =
        (encounters_for_each (enc_emit_cb since_ms) dev.encounters
          (page_walk offset counted.to_emit)).0 in
      some (page_response "records" offset counted emitted)
