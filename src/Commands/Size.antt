-- ===== src/Commands/Size.antt =====
-- The size of the paged responses of firmware/core/commands.c: what the code reserves is enough.
use waxwing.Common.{
  ℕ, zero, suc, ◌+◌, ◌-◌, ◌%◌, ◌^◌, ◌≤◌, ◌<◌, ◌≡◌, refl, ap, ◌∙◌, arith, List, [], ◌∷◌, ◌++◌, ltb,
  Bool, true, false, All,
}
use waxwing.Common.{
  if◌then◌else◌, length, take, length-append, length-take, Bool-cases, inl, inr, some, Option-cases,
}
use waxwing.Common.Int.{ℤ, pos, negsuc}
use waxwing.Common.Bytes.{Bytes}
use waxwing.Cbor.Encode.{
  encode_header, cborencode_map_header, cborencode_array_header, cborencode_text_str,
  cborencode_byte_str, cborencode_uint,
}
use waxwing.Cbor.Lengths.{
  length-cborencode_uint, length-cborencode_map_header, length-cborencode_array_header,
}
use mathlib.Core.Option.{some-injective}
use waxwing.Filestore.{Filestore}
use waxwing.PeerLedger.{from_u32}
use waxwing.Commands.{
  FileEntry, UserFiles, Radio, Device, text, emit_error, get_uint_or, response_budget,
  budget_behind,
}
use waxwing.Commands.Files.{
  cbor_arg_size, ls_entry_size, ls_entry, ls_entries, ls_fitting, ls_response, next_offset_field,
  is_positive, add_count, cmd_ls,
}

-- Entries that fit the types of the code.
pub record IsEntry (e : FileEntry) : Type 0 where
  pub name : length e.name < 32
  pub size : e.size < 2 ^ 32
  pub hash : length e.hash ≡ 8

length-header : (major arg : ℕ) → length (encode_header major arg) ≡ cbor_arg_size arg
unfolding encode_header cbor_arg_size
length-header major arg = ground arith

length-uint : (v : ℕ) → length (cborencode_uint v) ≡ cbor_arg_size v
unfolding cborencode_uint
length-uint v = length-header 0 v

arg_size_8 : cbor_arg_size 8 ≡ 1
unfolding cbor_arg_size
arg_size_8 = refl

length-text_str :
    (s : Bytes)
    → length s < 2 ^ 32
    → length (cborencode_text_str s) ≡ cbor_arg_size (length s) + length s
unfolding cborencode_text_str
length-text_str s h =
    length-append (encode_header 3 (length s % 2 ^ 32)) s
    ∙ ap (λ n. n + length s) (length-header 3 (length s % 2 ^ 32) ∙ ap cbor_arg_size (omega arith))

pub length-byte_str :
    (s : Bytes)
    → length s < 2 ^ 32
    → length (cborencode_byte_str s) ≡ cbor_arg_size (length s) + length s
unfolding cborencode_byte_str
length-byte_str s h =
    length-append (encode_header 2 (length s % 2 ^ 32)) s
    ∙ ap (λ n. n + length s) (length-header 2 (length s % 2 ^ 32) ∙ ap cbor_arg_size (omega arith))

length-name_key : length (text "name") ≡ 5
unfolding cborencode_text_str encode_header
length-name_key = refl

length-size_key : length (text "size") ≡ 5
unfolding cborencode_text_str encode_header
length-size_key = refl

length-hash_key : length (text "hash") ≡ 5
unfolding cborencode_text_str encode_header
length-hash_key = refl

length-files_key : length (text "files") ≡ 6
unfolding cborencode_text_str encode_header
length-files_key = refl

length-next_offset_key : length (text "next_offset") ≡ 12
unfolding cborencode_text_str encode_header
length-next_offset_key = refl

-- The size that `cmd_ls` counts is the size of an entry.
length-ls_entry : (e : FileEntry) → IsEntry e → length (ls_entry e) ≡ ls_entry_size e
unfolding ls_entry ls_entry_size
length-ls_entry e h =
    let hash_field : Bytes = text "hash" ++ cborencode_byte_str e.hash in
    let size_field : Bytes = text "size" ++ (cborencode_uint e.size ++ hash_field) in
    omega (
      arith,
      length-append (cborencode_map_header 3)
          (text "name" ++ (cborencode_text_str e.name ++ size_field)),
      length-append (text "name") (cborencode_text_str e.name ++ size_field),
      length-append (cborencode_text_str e.name) size_field,
      length-append (text "size") (cborencode_uint e.size ++ hash_field),
      length-append (cborencode_uint e.size) hash_field,
      length-append (text "hash") (cborencode_byte_str e.hash),
      length-cborencode_map_header 3 (omega arith),
      length-name_key,
      length-size_key,
      length-hash_key,
      length-text_str e.name (omega (arith, h.name)),
      length-uint e.size,
      length-byte_str e.hash (omega (arith, h.hash)) ∙ ap (λ n. cbor_arg_size n + n) h.hash,
      arg_size_8,
    )

-- The entries that are chosen fit what is left of the budget.
length-ls_fitting :
    (budget used : ℕ) (es : List FileEntry)
    → All IsEntry es
    → used ≤ budget
    → used + length (ls_entries (take (ls_fitting budget used es) es)) ≤ budget
unfolding ls_fitting ls_entries
length-ls_fitting budget used [] h le = omega arith
length-ls_fitting budget used (e ∷ es) (he, h) le =
    elim (Bool-cases (ltb budget (used + ls_entry_size e))) [
      | inl over ↦ rw (over) (omega arith)
      | inr fits ↦
          let more : used
                + ls_entry_size e
                + length (ls_entries (take (ls_fitting budget (used + ls_entry_size e) es) es))
              ≤ budget =
            length-ls_fitting budget (used + ls_entry_size e) es h (ground arith) in
          rw (fits) (
            omega (
              arith,
              length-append (ls_entry e)
                  (ls_entries (take (ls_fitting budget (used + ls_entry_size e) es) es)),
              length-ls_entry e he,
            ))
    ]

length-next_offset_field : (next : ℤ) → length (next_offset_field next) ≤ 17
unfolding next_offset_field
length-next_offset_field (negsuc n) = omega arith
length-next_offset_field (pos zero) = omega arith
length-next_offset_field (pos (suc n)) = omega (
  arith,
  length-append (text "next_offset") (cborencode_uint (suc n)),
  length-next_offset_key,
  length-cborencode_uint (suc n),
)

length-ls_response :
    (shipped : List FileEntry) (next : ℤ)
    → length shipped ≤ 16
    → length (ls_response shipped next) ≤ 25 + length (ls_entries shipped)
unfolding ls_response
length-ls_response shipped next few =
    let entries : Bytes = ls_entries shipped ++ next_offset_field next in
    let files : Bytes = cborencode_array_header (length shipped) ++ entries in
    omega (
      arith,
      length-append (cborencode_map_header (if is_positive next then 2 else 1))
          (text "files" ++ files),
      length-append (text "files") files,
      length-append (cborencode_array_header (length shipped)) entries,
      length-append (ls_entries shipped) (next_offset_field next),
      length-cborencode_map_header (if is_positive next then 2 else 1)
          (field_count (is_positive next)),
      length-files_key,
      length-cborencode_array_header (length shipped) (omega arith),
      length-next_offset_field next,
    )
  where
    field_count : (b : Bool) → (if b then 2 else 1) ≤ 23
    field_count true = omega arith
    field_count false = omega arith

-- What a listing gives: at most `limit` entries that fit the types of the code.
pub record IsPaged {fs : Filestore} (files : UserFiles fs) : Type 0 where
  pub entries_fit :
      (disk : fs.Disk) (offset : ℤ) (limit : ℕ) (entries : List FileEntry) (next : ℤ)
      → files.fs_list disk offset limit ≡ some (entries, next)
      → All IsEntry entries × (length entries ≤ limit)

list_failed-length :
    (out_max : ℕ) (response : Bytes)
    → emit_error out_max "list failed" ≡ some response
    → length response ≤ 27
unfolding emit_error cborencode_text_str encode_header cborencode_map_header
list_failed-length out_max response e = ground arith

response_budget-bounds :
    (radio : Radio) (out_max : ℕ)
    → 30 ≤ radio.mtu
    → 27 ≤ out_max
    → (27 ≤ response_budget radio out_max)
      × (response_budget radio out_max ≤ radio.mtu - 3)
      × (response_budget radio out_max ≤ out_max)
unfolding response_budget
response_budget-bounds radio out_max m o = (ground arith, ground arith, ground arith)

budget_behind-le : (budget : ℕ) → 27 ≤ budget → 27 + budget_behind 27 budget ≤ budget
budget_behind-le budget h = ground arith

cmd_ls-budget :
    {fs : Filestore} (files : UserFiles fs) (radio : Radio) (dev : Device fs) (body : Bytes)
    (pc out_max : ℕ) (response : Bytes)
    → IsPaged files
    → 27 ≤ response_budget radio out_max
    → cmd_ls files radio dev body pc out_max ≡ some response
    → length response ≤ response_budget radio out_max
unfolding cmd_ls
cmd_ls-budget files radio dev body pc out_max response ok enough e =
    let offset : ℤ = from_u32 (get_uint_or body pc "offset" 0 % 2 ^ 32) in
    elim (Option-cases (files.fs_list dev.disk offset 16)) [
      | inl none_listed ↦
          omega (arith, list_failed-length out_max response (rw (none_listed, cmd_ls) at e))
      | inr ((entries, fs_next), listed) ↦
          let b : ℕ = budget_behind 27 (response_budget radio out_max) in
          let cnt : ℕ = ls_fitting b 0 entries in
          let next : ℤ = if ltb cnt (length entries) then add_count offset cnt else fs_next in
          let written : ls_response (take cnt entries) next ≡ response =
            some-injective _ _ (rw (listed, cmd_ls) at e) in
          let (fit, few) = ok.entries_fit dev.disk offset 16 entries fs_next listed in
          let shipped : length (take cnt entries) ≤ 16 = omega (arith, length-take cnt entries) in
          omega (
            arith,
            ap length written,
            length-ls_response (take cnt entries) next shipped,
            length-ls_fitting b 0 entries fit (omega arith),
            budget_behind-le (response_budget radio out_max) enough,
          )
    ]

-- If the MTU is at least 30, there is room for 27 bytes and the listing gives at most as many entries as it is asked for, with names below 32 bytes and hashes of 8, then a response to `ls` fits both one notification, of 3 bytes less than the MTU, and the buffer.
pub cmd_ls-fits :
    {fs : Filestore} (files : UserFiles fs) (radio : Radio) (dev : Device fs) (body : Bytes)
    (pc out_max : ℕ) (response : Bytes)
    → IsPaged files
    → 30 ≤ radio.mtu
    → 27 ≤ out_max
    → cmd_ls files radio dev body pc out_max ≡ some response
    → (length response ≤ radio.mtu - 3) × (length response ≤ out_max)
cmd_ls-fits files radio dev body pc out_max response ok m o e =
    let (enough, notified, room) = response_budget-bounds radio out_max m o in
    let size : length response ≤ response_budget radio out_max =
      cmd_ls-budget files radio dev body pc out_max response ok enough e in
    (omega arith, omega arith)
