-- ===== src/Commands/Envelope.antt =====
-- firmware/core/commands.c: a page with its frame keeps to the room for a response.
use Prim.Native.String.{String}
use waxwing.Common.{
  ℕ, ◌+◌, ◌%◌, ◌^◌, ◌≤◌, ◌<◌, ◌≡◌, refl, arith, List, ◌++◌, ltb, Bool, true, false,
}
use waxwing.Common.{if◌then◌else◌, length, take, drop, length-take, Bool-cases, inl, inr}
use waxwing.Common.Bytes.{Bytes}
use waxwing.Common.{length-append, length-drop, ◌⊎◌}
use waxwing.Cbor.Lengths.{length-cborencode_uint, length-cborencode_map_header}
use waxwing.Cbor.Encode.{
  encode_header, cborencode_uint, cborencode_text_str, put_strs, cborencode_map_header,
  cborencode_array_header, cborencode_bool,
}
use waxwing.Commands.{text, budget_behind}
use waxwing.Commands.Pages.{next_page}
use waxwing.Commands.Fitting.{fitting, fitting-fits, page_bytes, page_of}

header_le : (major arg : ℕ) → arg ≤ 255 → length (encode_header major arg) ≤ 2
unfolding encode_header
header_le major arg h = ground arith

length-ok_key : length (text "ok") ≡ 3
unfolding cborencode_text_str encode_header
length-ok_key = refl

length-next_offset_key : length (text "next_offset") ≡ 12
unfolding cborencode_text_str encode_header
length-next_offset_key = refl

length-bool : (b : Bool) → length (cborencode_bool b) ≡ 1
unfolding cborencode_bool
length-bool true = refl
length-bool false = refl

length-next_page : (more : Bool) (offset : ℕ) → length (next_page more offset) ≤ 17
unfolding next_page
length-next_page false offset = omega arith
length-next_page true offset = omega (
  arith,
  length-append (text "next_offset") (cborencode_uint offset),
  length-next_offset_key,
  length-cborencode_uint offset,
)

length-map_header : (more : Bool) → length (cborencode_map_header (if more then 3 else 2)) ≡ 1
length-map_header true = length-cborencode_map_header 3 (omega arith)
length-map_header false = length-cborencode_map_header 2 (omega arith)

length-page_bytes :
    (key : String) (more : Bool) (shipped : List Bytes) (next_offset : ℕ)
    → length (text key) ≤ 8
    → length shipped ≤ 255
    → length (page_bytes key more shipped next_offset) ≤ 32 + length (put_strs shipped)
unfolding page_bytes cborencode_array_header
length-page_bytes key more shipped next_offset short few =
    let tail : Bytes = put_strs shipped ++ next_page more next_offset in
    let list : Bytes = cborencode_array_header (length shipped) ++ tail in
    omega (
      arith,
      length-map_header more,
      length-append (cborencode_map_header (if more then 3 else 2))
          (text "ok" ++ (cborencode_bool true ++ (text key ++ list))),
      length-append (text "ok") (cborencode_bool true ++ (text key ++ list)),
      length-append (cborencode_bool true) (text key ++ list),
      length-append (text key) list,
      length-append (cborencode_array_header (length shipped)) tail,
      length-append (put_strs shipped) (next_page more next_offset),
      length-ok_key,
      length-bool true,
      header_le 4 (length shipped) few,
      length-next_page more next_offset,
    )

-- A response is within the room for it, or there is not even room for the frame of a page.
abbrev pub Fits : Bytes → ℕ → Type 0
Fits response room = (length response ≤ room) ⊎ (room < 32)

pub page_of-Fits :
    (key : String) (room offset : ℕ) (xs : List Bytes)
    → length (text key) ≤ 8
    → length xs ≤ 255
    → Fits (page_of key (budget_behind 32 room) offset xs) room
page_of-Fits key room offset xs short few =
    let n : ℕ = fitting (budget_behind 32 room) 0 (drop offset xs) in
    let frame =
      length-page_bytes key (ltb n (length (drop offset xs))) (take n (drop offset xs))
        ((offset + n) % 2 ^ 32) short
        (omega (arith, length-take n (drop offset xs), length-drop offset xs)) in
    let fits = fitting-fits (budget_behind 32 room) 0 (drop offset xs) (omega arith) in
    elim (Bool-cases (ltb room 32)) [
      | inl e ↦ inr (ground arith)
      | inr e ↦ inl (omega (arith, frame, fits, budget_le room e))
    ]
  where
    budget_le : (room : ℕ) → ltb room 32 ≡ false → 32 + budget_behind 32 room ≤ room
    budget_le room e = ground arith
