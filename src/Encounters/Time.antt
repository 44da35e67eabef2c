-- ===== src/Encounters/Time.antt =====
-- The time that a record of encounters.c holds is the time that it was captured.
use waxwing.Common.{subst, append-nil, []}
use waxwing.Common.{ℕ, ◌-◌, ◌^◌, ◌≤◌, ◌<◌, ◌≡◌, ap, ◌∙◌, arith, List, ◌∷◌, ◌++◌}
use waxwing.Common.{length, get_or, some, leb, le→ltb_false, false, append_assoc}
use waxwing.Common.Bytes.{Bytes}
use waxwing.Common.Index.{get_or-append_right, get_or_ap}
use waxwing.Cbor.Encode.{cborencode_uint, encode_header}
use waxwing.SsidScan.{SsidObservation}
use waxwing.Encounters.{read_time, time_value, encounters_record_captured_at, starts_with}
use waxwing.Encounters.Layout.{
  IsCapture, record_bytes, at_time, behind_time, record_bytes-layout, length-record_bytes_min,
  drop_node,
}

lt→leb_false : (a b : ℕ) → b < a → leb a b ≡ false
lt→leb_false a b h = ground arith

pub read_time-cborencode_uint :
    (time : ℕ) (rest : Bytes)
    → time < 2 ^ 32
    → read_time (cborencode_uint time ++ rest) ≡ some (time, rest)
unfolding read_time cborencode_uint encode_header
read_time-cborencode_uint time rest h = ground arith

time_value-cborencode_uint :
    (time : ℕ) (rest : Bytes) (left : ℕ)
    → time < 2 ^ 32
    → 4 ≤ left
    → time_value (cborencode_uint time ++ rest) left ≡ some time
unfolding time_value cborencode_uint encode_header
time_value-cborencode_uint time rest left h l = ground arith

captured_at-layout :
    (node p : Bytes) (time len : ℕ)
    → length node ≡ 32
    → time < 2 ^ 32
    → 44 ≤ len
    → encounters_record_captured_at
        (0xA5 ∷ 1 ∷ 1 ∷ 2 ∷ 0x58 ∷ 0x20 ∷ node ++ (3 ∷ (cborencode_uint time ++ p)))
        len
      ≡ some time
unfolding encounters_record_captured_at starts_with
captured_at-layout node p time len n t l =
    let key : get_or (node ++ (3 ∷ (cborencode_uint time ++ p))) 32 0 ≡ 3 =
      get_or-append_right node (3 ∷ (cborencode_uint time ++ p)) 32 0 (omega arith)
      ∙ get_or_ap (3 ∷ (cborencode_uint time ++ p)) 0 {i = 32 - length node} {j = 0}
          (omega arith) in
    rw
      (
        encounters_record_captured_at,
        le→ltb_false len 4 (omega arith),
        lt→leb_false len 38 (omega arith),
        lt→leb_false len 39 (omega arith),
        key,
        drop_node node (cborencode_uint time ++ p) n,
      )
      (time_value-cborencode_uint time p (len - 40) t (omega arith))

-- Of a record that the encoder wrote, whatever bytes follow it in memory, the time that is read is the time that it was captured.
pub captured_at-record_bytes :
    (node : Bytes) (time : ℕ) (obs : List SsidObservation) (sig rest : Bytes)
    → IsCapture node time obs sig
    → encounters_record_captured_at
        (record_bytes node time obs sig ++ rest)
        (length (record_bytes node time obs sig))
      ≡ some time
captured_at-record_bytes node time obs sig rest h =
    let len : ℕ = length (record_bytes node time obs sig) in
    let p : Bytes = behind_time obs sig ++ rest in
    ap (λ bs. encounters_record_captured_at bs len)
      (ap (λ bs. bs ++ rest) (record_bytes-layout node time obs sig h.node)
        ∙ ap (λ bs. 0xA5 ∷ 1 ∷ 1 ∷ 2 ∷ 0x58 ∷ 0x20 ∷ bs)
            (append_assoc node (3 ∷ at_time time obs sig) rest
              ∙ ap (λ bs. node ++ (3 ∷ bs))
                  (append_assoc (cborencode_uint time) (behind_time obs sig) rest)))
    ∙ captured_at-layout node p time len h.node h.time (length-record_bytes_min node time obs sig h)

-- The same without bytes behind the record.
pub captured_at-record_bytes_alone :
    (node : Bytes) (time : ℕ) (obs : List SsidObservation) (sig : Bytes)
    → IsCapture node time obs sig
    → encounters_record_captured_at
        (record_bytes node time obs sig)
        (length (record_bytes node time obs sig))
      ≡ some time
captured_at-record_bytes_alone node time obs sig h =
    let rec : Bytes = record_bytes node time obs sig in
    subst (λ bs. encounters_record_captured_at bs (length rec) ≡ some time) (append-nil rec)
      (captured_at-record_bytes node time obs sig [] h)
