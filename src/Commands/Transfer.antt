-- ===== src/Commands/Transfer.antt =====
-- firmware/core/commands.c: the commands that read and write user files in chunks.
use waxwing.Common.{ℕ, ◌%◌, ◌^◌, ◌++◌, ltb, true, not, Option, none, some, if◌then◌else◌, take}
use waxwing.Common.Bytes.{Bytes}
use waxwing.Common.Text.{codes}
use waxwing.Cbor.Encode.{
  cborencode_map_header, cborencode_byte_str, cborencode_uint, cborencode_bool,
}
use waxwing.Cbor.Decode.{cbor_map_find, cbor_map_get_uint, is_type, bstr}
use waxwing.Filestore.{Filestore}
use waxwing.Commands.{
  UserFiles, Radio, Device, text, emit_error, get_uint_or, get_name, safe_chunk_for_response,
  max_inline_data, resolve_filename,
}
use waxwing.Commands.Files.{change, bumped_device}

module _ {fs : Filestore} (files : UserFiles fs) (radio : Radio) where
  open files use {
    fs_chunked_start, fs_chunked_append, fs_chunked_finish, fs_read_start, fs_read_chunk,
  }

  unfoldable pub cmd_write_start : Device fs → Bytes → ℕ → ℕ → Device fs × Option Bytes
  cmd_write_start dev body pc out_max = elim (get_name body pc) [
    | none ↦ (dev, emit_error out_max "missing name")
    | some name ↦ elim (cbor_map_get_uint body pc (codes "size")) [
      | none ↦ (dev, emit_error out_max "missing size")
      | some total ↦
          change files radio dev (fs_chunked_start dev.disk name (total % 2 ^ 32)) out_max
            "write_start failed" (λ disk. record dev { disk = disk })
    ]
  ]

  unfoldable pub cmd_write_chunk : Device fs → Bytes → ℕ → ℕ → Device fs × Option Bytes
  cmd_write_chunk dev body pc out_max = elim (cbor_map_find body pc (codes "data")) [
    | none ↦ (dev, emit_error out_max "missing data")
    | some v ↦
        if not (is_type v.type bstr)
        then (dev, emit_error out_max "missing data")
        else change files radio dev (fs_chunked_append dev.disk (take v.arg v.payload)) out_max
            "write_chunk failed" (λ disk. record dev { disk = disk })
  ]

  unfoldable pub cmd_write_end : Device fs → Bytes → ℕ → ℕ → Device fs × Option Bytes
  cmd_write_end dev body pc out_max = elim (get_name body pc) [
    | none ↦ (dev, emit_error out_max "missing name")
    | some name ↦
        change files radio dev (fs_chunked_finish dev.disk name) out_max "size mismatch"
          (bumped_device files radio dev)
  ]

  abbrev pub ok_header : Bytes
  ok_header = cborencode_map_header 2 ++ (text "ok" ++ cborencode_bool true)

  unfoldable pub cmd_read_start : Device fs → Bytes → ℕ → ℕ → Option Bytes
  cmd_read_start dev body pc out_max =
      if ltb out_max 64
      then emit_error out_max "buffer too small"
      else elim (resolve_filename files dev.disk body pc) [
        | none ↦ emit_error out_max "missing name or hash"
        | some name ↦ elim (fs_read_start dev.disk name) [
          | none ↦ emit_error out_max "not found"
          | some sz ↦ some (ok_header ++ (text "size" ++ cborencode_uint sz))
        ]
      ]

  unfoldable pub cmd_read_chunk : Device fs → Bytes → ℕ → ℕ → Option Bytes
  cmd_read_chunk dev body pc out_max =
      let mtu_cap : ℕ = safe_chunk_for_response radio in
      let asked : ℕ = get_uint_or body pc "size" max_inline_data in
      let size : ℕ = if ltb mtu_cap asked then mtu_cap else asked in
      let offset : ℕ = get_uint_or body pc "offset" 0 % 2 ^ 32 in
      if ltb out_max 256
      then emit_error out_max "buffer too small"
      else elim (resolve_filename files dev.disk body pc) [
        | none ↦ emit_error out_max "missing name or hash"
        | some name ↦ elim (fs_read_chunk dev.disk name offset (size % 2 ^ 32) max_inline_data) [
          | none ↦ emit_error out_max "read_chunk failed"
          | some scratch ↦ some (ok_header ++ (text "data" ++ cborencode_byte_str scratch))
        ]
      ]
