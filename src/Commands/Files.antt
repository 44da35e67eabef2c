-- ===== src/Commands/Files.antt =====
-- firmware/core/commands.c: the commands that list, read, write and delete user files.
use Prim.Native.String.{String}
use waxwing.Common.{
  ℕ, zero, suc, ◌+◌, ◌-◌, ◌%◌, ◌^◌, List, [], ◌∷◌, ◌++◌, ltb, leb, Bool, false, not,
}
use waxwing.Common.{Option, none, some, if◌then◌else◌, length, take}
use waxwing.Common.Int.{ℤ, pos, negsuc}
use waxwing.Common.Bytes.{Bytes}
use waxwing.Common.Text.{codes}
use waxwing.Cbor.Encode.{
  cborencode_map_header, cborencode_array_header, cborencode_text_str, cborencode_byte_str,
  cborencode_uint,
}
use waxwing.Cbor.Decode.{cbor_map_find, is_type, tstr, map}
use waxwing.Filestore.{Filestore}
use waxwing.PeerLedger.{from_u32}
use waxwing.ManifestCounter.{manifest_counter_bump}
use waxwing.Commands.{
  FileEntry, UserFiles, Radio, Device, text, emit_error, emit_ok, get_uint_or, get_name,
  response_budget, budget_behind, safe_chunk_for_response, max_inline_data, resolve_filename,
}

unfoldable pub cbor_arg_size : ℕ → ℕ
cbor_arg_size v = if leb v 23 then 1 else if leb v 0xFF then 2 else if leb v 0xFFFF then 3 else 5

unfoldable pub ls_entry_size : FileEntry → ℕ
ls_entry_size e =
    1
    + 1
    + 4
    + cbor_arg_size (length e.name)
    + length e.name
    + 1
    + 4
    + cbor_arg_size e.size
    + 1
    + 4
    + 1
    + 8

-- The leading entries that fit, where `used` bytes are taken already.
unfoldable pub ls_fitting : ℕ → ℕ → List FileEntry → ℕ
ls_fitting entry_budget used [] = 0
ls_fitting entry_budget used (e ∷ es) =
    let more = ls_fitting entry_budget (used + ls_entry_size e) es in
    if ltb entry_budget (used + ls_entry_size e) then 0 else suc more

unfoldable pub ls_entry : FileEntry → Bytes
ls_entry e =
    cborencode_map_header 3
    ++ (text "name"
        ++ (cborencode_text_str e.name
            ++ (text "size"
                ++ (cborencode_uint e.size ++ (text "hash" ++ cborencode_byte_str e.hash)))))

unfoldable pub ls_entries : List FileEntry → Bytes
ls_entries [] = []
ls_entries (e ∷ es) = ls_entry e ++ ls_entries es

-- The trailer, if there is a next page.
unfoldable pub next_offset_field : ℤ → Bytes
next_offset_field (negsuc n) = []
next_offset_field (pos zero) = []
next_offset_field (pos (suc n)) = text "next_offset" ++ cborencode_uint (suc n)

abbrev pub is_positive : ℤ → Bool
is_positive (pos n) = ltb 0 n
is_positive (negsuc n) = false

-- `offset + cnt`
abbrev pub add_count : ℤ → ℕ → ℤ
add_count (pos n) cnt = pos (n + cnt)
add_count (negsuc n) cnt = if ltb n cnt then pos (cnt - suc n) else negsuc (n - cnt)

unfoldable pub ls_response : List FileEntry → ℤ → Bytes
ls_response shipped next_offset =
    cborencode_map_header (if is_positive next_offset then 2 else 1)
    ++ (text "files"
        ++ (cborencode_array_header (length shipped)
            ++ (ls_entries shipped ++ next_offset_field next_offset)))

module _ {fs : Filestore} (files : UserFiles fs) (radio : Radio) where
  open files use {
    fs_list, fs_storage_info, fs_read, fs_write, fs_read_meta, fs_write_meta, fs_delete,
  }

  unfoldable pub cmd_ls : Device fs → Bytes → ℕ → ℕ → Option Bytes
  cmd_ls dev body pc out_max =
      let offset : ℤ = from_u32 (get_uint_or body pc "offset" 0 % 2 ^ 32) in
      let entry_budget : ℕ = budget_behind (9 + 18) (response_budget radio out_max) in
      elim (fs_list dev.disk offset 16) [
        | none ↦ emit_error out_max "list failed"
        | some (entries, fs_next) ↦
            let cnt : ℕ = ls_fitting entry_budget 0 entries in
            some (
              ls_response (take cnt entries)
                (if ltb cnt (length entries) then add_count offset cnt else fs_next))
      ]

  unfoldable pub cmd_storage_info : Device fs → ℕ → Option Bytes
  cmd_storage_info dev out_max =
      let info = fs_storage_info dev.disk in
      if ltb out_max 128
      then emit_error out_max "buffer too small"
      else some (
          cborencode_map_header 1
          ++ (text "info"
              ++ (cborencode_map_header 4
                  ++ (text "file_count"
                      ++ (cborencode_uint info.count
                          ++ (text "free"
                              ++ (cborencode_uint info.free
                                  ++ (text "reserve"
                                      ++ (cborencode_uint info.reserve
                                          ++ (text "used" ++ cborencode_uint info.used))))))))))

  unfoldable pub cmd_read : Device fs → Bytes → ℕ → ℕ → Option Bytes
  cmd_read dev body pc out_max =
      if ltb out_max 256
      then emit_error out_max "buffer too small"
      else elim (resolve_filename files dev.disk body pc) [
        | none ↦ emit_error out_max "missing name or hash"
        | some name ↦ elim (fs_read dev.disk name (safe_chunk_for_response radio)) [
          | none ↦ emit_error out_max "not found"
          | some scratch ↦
              some (cborencode_map_header 1 ++ (text "data" ++ cborencode_byte_str scratch))
        ]
      ]

  -- The device after a change of the user files, with the advertised version bumped.
  abbrev pub bumped_device : Device fs → fs.Disk → Device fs
  bumped_device dev disk =
      let (manifest', (disk', persisted)) = manifest_counter_bump fs dev.manifest disk in
      record dev { disk = disk'; manifest = manifest' }

  -- A call that changes the medium: what it leaves, and the response to its failure and success.
  abbrev pub change :
      Device fs → fs.Disk × Bool → ℕ → String → (fs.Disk → Device fs) → Device fs × Option Bytes
  change dev (disk, ok) out_max msg done =
      if ok
      then (done disk, emit_ok out_max)
      else (record dev { disk = disk }, emit_error out_max msg)

  unfoldable pub cmd_write : Device fs → Bytes → ℕ → ℕ → Device fs × Option Bytes
  cmd_write dev body pc out_max = elim (get_name body pc) [
    | none ↦ (dev, emit_error out_max "missing name")
    | some name ↦ elim (cbor_map_find body pc (codes "data")) [
      | none ↦ (dev, emit_error out_max "missing data")
      | some v ↦
          if not (is_type v.type tstr)
          then (dev, emit_error out_max "missing data")
          else if ltb max_inline_data v.arg
          then (dev, emit_error out_max "too big")
          else change dev (fs_write dev.disk name (take v.arg v.payload)) out_max "write failed"
              (bumped_device dev)
    ]
  ]

  unfoldable pub cmd_delete : Device fs → Bytes → ℕ → ℕ → Device fs × Option Bytes
  cmd_delete dev body pc out_max = elim (resolve_filename files dev.disk body pc) [
    | none ↦ (dev, emit_error out_max "missing name or hash")
    | some name ↦
        change dev (fs_delete dev.disk name) out_max "not found"
          (λ disk. record dev { disk = disk })
  ]

  unfoldable pub cmd_read_meta : Device fs → Bytes → ℕ → ℕ → Option Bytes
  cmd_read_meta dev body pc out_max = elim (resolve_filename files dev.disk body pc) [
    | none ↦ emit_error out_max "missing name or hash"
    | some name ↦
        let key = cborencode_map_header 1 ++ text "meta" in
        elim (fs_read_meta dev.disk name 200) [
          | none ↦ some (key ++ cborencode_map_header 0)
          | some meta ↦
              if ltb out_max (length key + length meta)
              then emit_error out_max "meta too big"
              else some (key ++ meta)
        ]
  ]

  -- The bytes from `start` up to `next`.
  unfoldable pub cmd_write_meta : Device fs → Bytes → ℕ → ℕ → Device fs × Option Bytes
  cmd_write_meta dev body pc out_max = elim (resolve_filename files dev.disk body pc) [
    | none ↦ (dev, emit_error out_max "missing name or hash")
    | some name ↦ elim (cbor_map_find body pc (codes "meta")) [
      | none ↦ (dev, emit_error out_max "missing meta")
      | some meta ↦
          if not (is_type meta.type map)
          then (dev, emit_error out_max "missing meta")
          else change dev
              (fs_write_meta dev.disk name (take (length meta.start - length meta.next) meta.start))
              out_max "write_meta failed" (λ disk. record dev { disk = disk })
    ]
  ]
