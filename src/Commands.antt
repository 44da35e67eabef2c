-- ===== src/Commands.antt =====
-- firmware/core/commands.h and firmware/core/commands.c: the CBOR commands of the companion app and
-- of peers. A handler takes the pairs of the command's map and their number, and gives the state
-- behind it and the response; `none` is a negative result. A response is the list of the bytes that
-- are written, whatever room there is for them.
pub mod Files
pub mod Transfer
pub mod Pages
pub mod Attest
pub mod Dispatch
pub mod Gate
pub mod Fitting
pub mod Envelope
pub mod Paging
pub mod Captures
pub mod Size
pub mod Resolve
mod Tests
use Prim.Native.String.{String}
use waxwing.Common.{
  ℕ, zero, suc, ◌+◌, ◌-◌, ◌%◌, ◌^◌, ◌*◌, List, [], ◌∷◌, ◌++◌, ltb, leb, ◌==◌, Bool, true, false,
  min,
}
use waxwing.Common.{Option, none, some, if◌then◌else◌, length, take, ◌>>=◌, ◌||◌}
use waxwing.Common.Int.{ℤ, pos, negsuc}
use waxwing.Common.Bytes.{Bytes, bytes_eq}
use waxwing.Common.Text.{codes}
use waxwing.Cbor.Encode.{cborencode_map_header, cborencode_text_str, cborencode_bool}
use waxwing.Cbor.Decode.{cbor_map_get_uint, cbor_map_get_text, cbor_map_get_bytes}
use waxwing.Filestore.{Filestore}
use waxwing.SsidScan.{SsidObservation}
use waxwing.BlobRing.{Ring}

abbrev pub fs_max_name_len : ℕ
fs_max_name_len = 32

-- One entry of a listing. A name is the text without its NUL.
pub record FileEntry : Type 0 where
  pub name : Bytes
  pub size : ℕ
  pub hash : Bytes

pub record StorageInfo : Type 0 where
  pub free : ℕ
  pub used : ℕ
  pub reserve : ℕ
  pub count : ℕ

-- The calls of filestore.h on user files, which a port implements on the medium of its system blobs.
-- `none` is a negative result, and the flag of a write says whether it succeeded.
pub record UserFiles (fs : Filestore) : Type 0 where
  pub fs_list : fs.Disk → ℤ → ℕ → Option (List FileEntry × ℤ)
  pub fs_storage_info : fs.Disk → StorageInfo
  pub fs_read : fs.Disk → Bytes → ℕ → Option Bytes
  pub fs_write : fs.Disk → Bytes → Bytes → fs.Disk × Bool
  pub fs_chunked_start : fs.Disk → Bytes → ℕ → fs.Disk × Bool
  pub fs_chunked_append : fs.Disk → Bytes → fs.Disk × Bool
  pub fs_chunked_finish : fs.Disk → Bytes → fs.Disk × Bool
  pub fs_read_start : fs.Disk → Bytes → Option ℕ
  pub fs_read_chunk : fs.Disk → Bytes → ℕ → ℕ → ℕ → Option Bytes
  pub fs_delete : fs.Disk → Bytes → fs.Disk × Bool
  pub fs_read_meta : fs.Disk → Bytes → ℕ → Option Bytes
  pub fs_write_meta : fs.Disk → Bytes → Bytes → fs.Disk × Bool

-- `ssid_scan_t`
pub record SsidScanReport : Type 0 where
  pub scanned_ms : ℕ
  pub obs : List SsidObservation

-- What the calls of `ble_get_mtu` and `ssid_scan_hal_latest` find during a command.
pub record Radio : Type 0 where
  pub mtu : ℕ
  pub latest_scan : Option SsidScanReport

-- The state behind the calls of the other modules: the medium and what they keep in memory.
pub record Device (fs : Filestore) : Type 0 where
  pub disk : fs.Disk
  pub manifest : ℕ
  pub own : Ring
  pub cache : Ring
  pub encounters : Ring

-- A text key or value.
abbrev pub text : String → Bytes
text s = cborencode_text_str (codes s)

unfoldable pub emit_error : ℕ → String → Option Bytes
emit_error out_max msg =
    if ltb out_max 40
    then none
    else some
        (cborencode_map_header 1 ++ (text "error" ++ cborencode_text_str (take 24 (codes msg))))

unfoldable pub emit_ok : ℕ → Option Bytes
emit_ok out_max =
    if ltb out_max 8
    then none
    else some (cborencode_map_header 1 ++ (text "ok" ++ cborencode_bool true))

-- `cbor_map_get_uint` into a variable that holds `default` before the call.
unfoldable pub get_uint_or : Bytes → ℕ → String → ℕ → ℕ
get_uint_or body pc key default = elim (cbor_map_get_uint body pc (codes key)) [
  | none ↦ default
  | some v ↦ v
]

-- The bytes of a response that fit into one notification and the buffer.
unfoldable pub response_budget : Radio → ℕ → ℕ
response_budget radio out_max =
    let budget = if ltb 3 radio.mtu then radio.mtu - 3 else 20 in
    if ltb out_max budget then out_max else budget

-- What is left of it behind a reserve.
abbrev pub budget_behind : ℕ → ℕ → ℕ
budget_behind reserve budget = if ltb reserve budget then budget - reserve else 0

-- The text in front of the first NUL: what the C functions on strings see.
unfoldable pub c_str : Bytes → Bytes
c_str [] = []
c_str (b ∷ bs) = if b == 0 then [] else b ∷ c_str bs

-- The text under a key, copied to a buffer of `size` bytes.
unfoldable pub get_text : Bytes → ℕ → String → ℕ → Option Bytes
get_text body pc key size = cbor_map_get_text body pc (codes key) size >>= λ t. some (c_str t)

unfoldable pub get_name : Bytes → ℕ → Option Bytes
get_name body pc = get_text body pc "name" fs_max_name_len

abbrev pub max_inline_data : ℕ
max_inline_data = 220

abbrev pub response_envelope_budget : ℕ
response_envelope_budget = 16

-- `budget` is signed in the code: below 16, and so also below 0, it becomes 16.
unfoldable pub safe_chunk_for_response : Radio → ℕ
safe_chunk_for_response radio =
    let budget = radio.mtu - 3 - response_envelope_budget in
    let usable = if ltb budget 16 then 16 else budget in
    if ltb max_inline_data usable then max_inline_data else usable

-- What the loop over the pages of a listing finds.
pub data Resolved : Type 0 where
  found : Bytes → Resolved
  missing : Resolved
  out_of_fuel : Resolved

-- The name of the first entry with the hash.
unfoldable pub find_hash : List FileEntry → Bytes → Option Bytes
find_hash [] hash = none
find_hash (e ∷ es) hash = if bytes_eq e.hash hash then some e.name else find_hash es hash

module _ {fs : Filestore} (files : UserFiles fs) where
  open files use {fs_list}

  -- The loop at `offset`. Every round advances the offset, an `int`, so 2^31 rounds are enough.
  unfoldable pub resolve_loop : ℕ → fs.Disk → Bytes → ℕ → Resolved
  resolve_loop zero disk hash offset = out_of_fuel
  resolve_loop (suc fuel) disk hash offset = elim (fs_list disk (pos offset) 16) [
    | none ↦ missing
    | some (entries, next_offset) ↦ elim (find_hash entries hash) [
      | some name ↦ found name
      | none ↦ elim next_offset [
        | negsuc n ↦ missing
        | pos next ↦ elim (leb next offset || (length entries == 0)) [
          | true ↦ missing
          | false ↦ resolve_loop fuel disk hash next
        ]
      ]
    ]
  ]

  unfoldable pub resolve_hash_to_name : fs.Disk → Bytes → Option Bytes
  resolve_hash_to_name disk hash = elim (resolve_loop (2 ^ 31) disk hash 0) [
    | found name ↦ some name
    | missing ↦ none
    | out_of_fuel ↦ none
  ]

  unfoldable pub resolve_filename : fs.Disk → Bytes → ℕ → Option Bytes
  resolve_filename disk body pc = elim (get_name body pc) [
    | some name ↦ some name
    | none ↦ elim (cbor_map_get_bytes body pc (codes "hash")) [
      | none ↦ none
      | some hash ↦ if length hash == 8 then resolve_hash_to_name disk hash else none
    ]
  ]
