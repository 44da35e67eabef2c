-- ===== src/Commands/Dispatch.antt =====
-- firmware/core/commands.c: the dispatch of a command, and the commands that a peer may give.
use Prim.Native.String.{String}
use waxwing.Common.{ℕ, ltb, ◌==◌, Bool, true, false, not, ◌&&◌, ◌||◌}
use waxwing.Common.{Option, none, some, if◌then◌else◌, length}
use waxwing.Common.Bytes.{Bytes, bytes_eq}
use waxwing.Common.Text.{codes}
use waxwing.Cbor.Decode.{cbor_parse, is_type, map}
use waxwing.Filestore.{Filestore}
use waxwing.Commands.{UserFiles, Radio, Device, emit_error, get_text}
use waxwing.Commands.Files.{
  cmd_ls, cmd_storage_info, cmd_read, cmd_write, cmd_delete, cmd_read_meta, cmd_write_meta,
}
use waxwing.Commands.Transfer.{
  cmd_write_start, cmd_write_chunk, cmd_write_end, cmd_read_start, cmd_read_chunk,
}
use waxwing.Commands.Pages.{cmd_scan_get, cmd_encounters_get}
use waxwing.Commands.Attest.{cmd_attestation_write, cmd_attest_query, cmd_attest_ingest}

-- `commands_session_kind_t`
pub data CommandsSessionKind : Type 0 where
  companion peer : CommandsSessionKind

-- `strcmp(cmd_name, s) == 0`
unfoldable pub is_cmd : Bytes → String → Bool
is_cmd cmd_name s = bytes_eq cmd_name (codes s)

unfoldable pub peer_allowed : Bytes → Bool
peer_allowed cmd_name =
    is_cmd cmd_name "ls"
    || (is_cmd cmd_name "storage_info"
        || (is_cmd cmd_name "read"
            || (is_cmd cmd_name "read_start"
                || (is_cmd cmd_name "read_chunk"
                    || (is_cmd cmd_name "read_meta"
                        || (is_cmd cmd_name "attest_query" || is_cmd cmd_name "attest_ingest"))))))

abbrev pub is_peer : CommandsSessionKind → Bool
is_peer companion = false
is_peer peer = true

module _ {fs : Filestore} (files : UserFiles fs) (radio : Radio) where
  -- The chain of comparisons with the name of the command.
  unfoldable pub run_command : Bytes → Device fs → Bytes → ℕ → ℕ → Device fs × Option Bytes
  run_command cmd_name dev body pc out_max =
      if is_cmd cmd_name "ls"
      then (dev, cmd_ls files radio dev body pc out_max)
      else if is_cmd cmd_name "storage_info"
      then (dev, cmd_storage_info files radio dev out_max)
      else if is_cmd cmd_name "read"
      then (dev, cmd_read files radio dev body pc out_max)
      else if is_cmd cmd_name "write"
      then cmd_write files radio dev body pc out_max
      else if is_cmd cmd_name "write_start"
      then cmd_write_start files radio dev body pc out_max
      else if is_cmd cmd_name "write_chunk"
      then cmd_write_chunk files radio dev body pc out_max
      else if is_cmd cmd_name "write_end"
      then cmd_write_end files radio dev body pc out_max
      else if is_cmd cmd_name "read_start"
      then (dev, cmd_read_start files radio dev body pc out_max)
      else if is_cmd cmd_name "read_chunk"
      then (dev, cmd_read_chunk files radio dev body pc out_max)
      else if is_cmd cmd_name "delete"
      then cmd_delete files radio dev body pc out_max
      else if is_cmd cmd_name "read_meta"
      then (dev, cmd_read_meta files radio dev body pc out_max)
      else if is_cmd cmd_name "write_meta"
      then cmd_write_meta files radio dev body pc out_max
      else if is_cmd cmd_name "scan_get"
      then (dev, cmd_scan_get radio body pc out_max)
      else if is_cmd cmd_name "encounters_get"
      then (dev, cmd_encounters_get radio dev body pc out_max)
      else if is_cmd cmd_name "attestation_write"
      then cmd_attestation_write dev body pc out_max
      else if is_cmd cmd_name "attest_query"
      then (dev, cmd_attest_query radio dev body pc out_max)
      else if is_cmd cmd_name "attest_ingest"
      then cmd_attest_ingest dev body pc out_max
      else (dev, emit_error out_max "unknown cmd")

  -- `if (rc < 0) rc = emit_error(out_buf, out_max, "internal error");`
  abbrev pub or_internal_error : ℕ → Device fs × Option Bytes → Device fs × Option Bytes
  or_internal_error out_max (dev, none) = (dev, emit_error out_max "internal error")
  or_internal_error out_max (dev, some response) = (dev, some response)

  -- The part behind the parse of the request: `body` are the pairs of its map.
  unfoldable pub handle_pairs :
      CommandsSessionKind → Device fs → Bytes → ℕ → ℕ → Device fs × Option Bytes
  handle_pairs kind dev body pc out_max = elim (get_text body pc "cmd" 24) [
    | none ↦ (dev, emit_error out_max "missing cmd")
    | some cmd_name ↦
        if is_peer kind && not (peer_allowed cmd_name)
        then (dev, emit_error out_max "companion only")
        else or_internal_error out_max (run_command cmd_name dev body pc out_max)
  ]

  unfoldable pub commands_handle_session :
      CommandsSessionKind → Device fs → Bytes → ℕ → Device fs × Option Bytes
  commands_handle_session kind dev cmd_data out_max =
      if (length cmd_data == 0) || ltb out_max 32 then (dev, none) else elim (cbor_parse cmd_data) [
        | none ↦ (dev, emit_error out_max "bad request")
        | some root ↦
            if not (is_type root.type map)
            then (dev, emit_error out_max "bad request")
            else handle_pairs kind dev root.payload root.arg out_max
      ]

  unfoldable pub commands_handle : Device fs → Bytes → ℕ → Device fs × Option Bytes
  commands_handle dev cmd_data out_max = commands_handle_session companion dev cmd_data out_max
