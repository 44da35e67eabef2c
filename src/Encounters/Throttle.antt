-- ===== src/Encounters/Throttle.antt =====
-- What the throttle of encounters.c reads from the newest record.
use waxwing.Common.{
  ℕ, suc, ◌+◌, ◌-◌, ◌/◌, ◌%◌, ◌^◌, ◌≤◌, ◌<◌, ◌≡◌, refl, ap, subst, ◌∙◌, arith, List, [], ◌∷◌, ◌++◌,
  All,
}
use waxwing.Common.{
  length, take, drop, get_or, set, replicate, get_or-set_self, leb, ◌==◌, not, if◌then◌else◌, ◌&&◌,
  ◌||◌, le→ltb_false, Bool, true, false, append_assoc, take-append, drop-append, ne→==_false,
}
use waxwing.Common.Bytes.{Bytes}
use waxwing.Cbor.Encode.{
  cborencode_byte_str, cborencode_array_header, put_strs, encode_header, cborencode_uint,
}
use waxwing.SsidScan.{SsidObservation}
use waxwing.BlobRing.{Ring, ring_append, used_count_get, next_slot_get, filled_slot}
use waxwing.Encounters.{
  some_new, bssids_changed, newest_differs, bssid_array, bssids, encounters_should_record,
  encounters_config, newest_slot,
}
use waxwing.Encounters.Layout.{
  IsCapture, record_bytes, behind_time, drop-record_bytes, record_bytes-IsRecord,
}
use waxwing.Common.Index.{get_or_ap}
use waxwing.BlobRing.Append.{ring_append-IsFilled}
use waxwing.BlobRing.Counters.{next-append, used-append_positive}
use waxwing.BlobRing.Contents.{IsConfig, IsFilled, IsRecord, IsSlot, filled_slot-IsSlot}
use waxwing.Encounters.Time.{read_time-cborencode_uint}
use waxwing.Encounters.Addresses.{all_seen, same_addresses}

byte_str_bssid : (b : Bytes) → length b ≡ 6 → cborencode_byte_str b ≡ 0x46 ∷ b
unfolding cborencode_byte_str encode_header
byte_str_bssid b h = rw h refl

some_new-put_strs :
    (scan : List SsidObservation) (bs : List Bytes) (rest : Bytes)
    → All (λ b. length b ≡ 6) bs
    → some_new scan (length bs) (put_strs bs ++ rest) ≡ not (all_seen scan bs)
unfolding some_new all_seen put_strs
some_new-put_strs scan [] rest h = refl
some_new-put_strs scan (b ∷ bs) rest (hb, h) =
    let p : Bytes = put_strs bs ++ rest in
    let head : take 6 (b ++ p) ≡ b = subst (λ n. take n (b ++ p) ≡ b) hb (take-append b p) in
    let behind : drop 6 (b ++ p) ≡ p = subst (λ n. drop n (b ++ p) ≡ p) hb (drop-append b p) in
    rw
      (
        byte_str_bssid b hb,
        append_assoc b (put_strs bs) rest,
        some_new,
        head,
        behind,
        some_new-put_strs scan bs rest h,
      )
      (ground arith)

array_header_few : (n : ℕ) → n ≤ 8 → cborencode_array_header n ≡ (128 + n) ∷ []
unfolding cborencode_array_header encode_header
array_header_few n h = ground arith

bssids_changed-array :
    (scan : List SsidObservation) (n : ℕ) (p : Bytes)
    → n ≤ 8
    → bssids_changed scan (4 ∷ (128 + n) ∷ p) ≡ not ((n == length scan) && not (some_new scan n p))
unfolding bssids_changed
bssids_changed-array scan n p h =
    let high : (128 + n) / 32 ≡ 4 = omega arith in
    let low : (128 + n) % 32 ≡ n = omega arith in
    rw (bssids_changed, high, low, le→ltb_false 8 n h) (ground arith)

behind_time-array :
    (obs : List SsidObservation) (sig rest : Bytes)
    → length obs ≤ 8
    → behind_time obs sig ++ rest
      ≡ 4 ∷ (128 + length obs) ∷ put_strs (bssids obs)
        ++ ((5 ∷ cborencode_byte_str sig ++ []) ++ rest)
unfolding bssid_array
behind_time-array obs sig rest few = rw (array_header_few (length obs) few) (
    ap (λ bs. 4 ∷ (128 + length obs) ∷ bs)
      (append_assoc (put_strs (bssids obs)) (5 ∷ cborencode_byte_str sig ++ []) rest))

length-bssids : (obs : List SsidObservation) → length (bssids obs) ≡ length obs
length-bssids [] = refl
length-bssids (o ∷ obs) = ap suc (length-bssids obs)

not-not : (b : Bool) → not (not b) ≡ b
not-not true = refl
not-not false = refl

bssids_changed-behind_time :
    (scan obs : List SsidObservation) (sig rest : Bytes)
    → length obs ≤ 8
    → All (λ b. length b ≡ 6) (bssids obs)
    → bssids_changed scan (behind_time obs sig ++ rest) ≡ not (same_addresses scan obs)
bssids_changed-behind_time scan obs sig rest few h =
    let more : Bytes = (5 ∷ cborencode_byte_str sig ++ []) ++ rest in
    let new : some_new scan (length obs) (put_strs (bssids obs) ++ more)
        ≡ not (all_seen scan (bssids obs)) =
      subst
        (λ n. some_new scan n (put_strs (bssids obs) ++ more) ≡ not (all_seen scan (bssids obs)))
        (length-bssids obs) (some_new-put_strs scan (bssids obs) more h) in
    ap (bssids_changed scan) (behind_time-array obs sig rest few)
    ∙ (bssids_changed-array scan (length obs) (put_strs (bssids obs) ++ more) few
        ∙ ap (λ b. not ((length obs == length scan) && b))
            (ap not new ∙ not-not (all_seen scan (bssids obs))))

-- `(uint32_t)(now_ms - time) >= min_age_ms`
abbrev pub old_enough : ℕ → ℕ → ℕ → Bool
old_enough now_ms time min_age_ms = leb min_age_ms ((now_ms + 2 ^ 32 - time) % 2 ^ 32)

pub old_enough-since :
    (time e min_age_ms : ℕ)
    → time < 2 ^ 32
    → e < 2 ^ 32
    → old_enough ((time + e) % 2 ^ 32) time min_age_ms ≡ leb min_age_ms e
old_enough-since time e min_age_ms small late = ap (leb min_age_ms) (omega arith)

newest_differs-record_bytes :
    (scan obs : List SsidObservation) (now_ms min_age_ms time : ℕ) (node sig rest : Bytes)
    → IsCapture node time obs sig
    → newest_differs scan now_ms min_age_ms (record_bytes node time obs sig ++ rest)
      ≡ old_enough now_ms time min_age_ms || not (same_addresses scan obs)
unfolding newest_differs
newest_differs-record_bytes scan obs now_ms min_age_ms time node sig rest h =
    rw
      (
        newest_differs,
        drop-record_bytes node time obs sig rest h.node,
        append_assoc (cborencode_uint time) (behind_time obs sig) rest,
        read_time-cborencode_uint time (behind_time obs sig ++ rest) h.time,
        bssids_changed-behind_time scan obs sig rest h.few_seen h.addresses,
      )
      (or_lem (old_enough now_ms time min_age_ms) (not (same_addresses scan obs)))
  where
    or_lem : (a b : Bool) → (if a then true else b) ≡ a || b
    or_lem true b = refl
    or_lem false b = refl

pub encounters_config-IsConfig : IsConfig encounters_config
encounters_config-IsConfig = record {
  cap_positive = omega arith;
  cap_byte = omega arith;
  slot_min = omega arith;
  slot_max = omega arith;
}

-- The record that was appended last is the one that the throttle reads.
newest-ring_append :
    (r : Ring) (rec : Bytes)
    → IsFilled encounters_config r
    → get_or
        (ring_append encounters_config r rec).slots
        (newest_slot (ring_append encounters_config r rec))
        []
      ≡ filled_slot encounters_config rec
unfolding newest_slot ring_append
newest-ring_append r rec wf =
    let at : newest_slot (ring_append encounters_config r rec) ≡ next_slot_get r = omega (
      arith,
      next-append encounters_config r rec encounters_config-IsConfig wf,
      wf.ring.next_slot,
    ) in
    get_or_ap (set r.slots (next_slot_get r) (filled_slot encounters_config rec)) [] at
    ∙ get_or-set_self r.slots (next_slot_get r) (filled_slot encounters_config rec) []
        (omega (arith, wf.ring.next_slot, wf.ring.slot_count))

should_record-newest :
    (r : Ring) (rec : Bytes) (now_ms min_age_ms : ℕ) (scan : List SsidObservation)
    → r.initialized ≡ true
    → 0 < used_count_get r
    → get_or r.slots (newest_slot r) [] ≡ filled_slot encounters_config rec
    → IsRecord encounters_config rec
    → 0 < length scan
    → encounters_should_record r scan now_ms min_age_ms
      ≡ newest_differs scan now_ms min_age_ms (rec ++ replicate (254 - length rec) 0)
unfolding encounters_should_record filled_slot
should_record-newest r rec now_ms min_age_ms scan init used slot fits some_scan =
    let valid : IsSlot encounters_config (filled_slot encounters_config rec) =
      filled_slot-IsSlot encounters_config rec encounters_config-IsConfig fits in
    rw
      (
        encounters_should_record,
        slot,
        valid.valid,
        ne→==_false (length scan) 0 (omega arith),
        ne→==_false (used_count_get r) 0 (omega arith),
        init,
      )
      refl

-- After a record was appended, the throttle lets the next scan pass if it is not empty and either the time that has passed, modulo 2^32, is at least the age, or it is not a scan of the same number of addresses with every recorded address among them.
pub should_record-ring_append :
    (r : Ring) (node sig : Bytes) (time now_ms min_age_ms : ℕ) (obs scan : List SsidObservation)
    → IsFilled encounters_config r
    → IsCapture node time obs sig
    → 0 < length scan
    → encounters_should_record
        (ring_append encounters_config r (record_bytes node time obs sig))
        scan
        now_ms
        min_age_ms
      ≡ old_enough now_ms time min_age_ms || not (same_addresses scan obs)
unfolding encounters_should_record
should_record-ring_append r node sig time now_ms min_age_ms obs scan wf h some_scan =
    let rec : Bytes = record_bytes node time obs sig in
    let fits : IsRecord encounters_config rec = record_bytes-IsRecord node time obs sig h in
    let r' : Ring = ring_append encounters_config r rec in
    let wf' : IsFilled encounters_config r' =
      ring_append-IsFilled encounters_config r rec encounters_config-IsConfig wf fits in
    should_record-newest r' rec now_ms min_age_ms scan wf'.ring.initialized
      (used-append_positive encounters_config r rec encounters_config-IsConfig wf)
      (newest-ring_append r rec wf) fits some_scan
    ∙ newest_differs-record_bytes scan obs now_ms min_age_ms time node sig
        (replicate (254 - length rec) 0) h
