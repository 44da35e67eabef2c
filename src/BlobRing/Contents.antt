-- ===== src/BlobRing/Contents.antt =====
-- The abstract view of a ring: the records it holds, the oldest first, and the rings that the code
-- reaches.
use waxwing.Common.{ℕ, suc, ◌-◌, ◌≤◌, ◌<◌, ◌≡◌, refl, ap, subst, arith, List, [], ◌∷◌, ◌++◌}
use waxwing.Common.{
  ltb, true, if◌then◌else◌, length, take, drop, replicate, All, length-append, length-replicate,
  take-append, lt→ltb, le→ltb_false, ltb→lt, Bool-cases, inl, inr, length-take, length-drop,
  All-append, All-take, All-drop,
}
use waxwing.Common.Bytes.{Bytes}
use waxwing.Common.Index.{take_all}
use waxwing.BlobRing.{
  RingConfig, Ring, slot_record_len, slot_record, next_slot_get, used_count_get, record_max,
  filled_slot, is_record_len, ring_header_bytes,
}

-- The constants fit the byte of an index and the two bytes of a length.
pub record IsConfig (c : RingConfig) : Type 0 where
  pub cap_positive : 0 < c.cap
  pub cap_byte : c.cap < 256
  pub slot_min : 2 < c.slot_bytes
  pub slot_max : c.slot_bytes ≤ 65537

-- A blob that the ring can hold.
pub record IsRecord (c : RingConfig) (blob : Bytes) : Type 0 where
  pub not_empty : 0 < length blob
  pub fits : length blob ≤ record_max c

-- A slot in use.
pub record IsSlot (c : RingConfig) (slot : Bytes) : Type 0 where
  pub valid : is_record_len c (slot_record_len slot) ≡ true

-- The slots in use, the oldest first, where `next` is the slot to write next.
abbrev pub window : ℕ → ℕ → ℕ → List Bytes → List Bytes
window cap used next slots =
    if ltb used cap then take used slots else drop next slots ++ take next slots

abbrev pub live_slots : RingConfig → Ring → List Bytes
live_slots c r = window c.cap (used_count_get r) (next_slot_get r) r.slots

pub window_free :
    (cap used next : ℕ) (slots : List Bytes)
    → used < cap
    → window cap used next slots ≡ take used slots
window_free cap used next slots h = rw (lt→ltb used cap h) refl

pub window_full :
    (cap used next : ℕ) (slots : List Bytes)
    → cap ≤ used
    → window cap used next slots ≡ drop next slots ++ take next slots
window_full cap used next slots h = rw (le→ltb_false used cap h) refl

-- The records of those slots that hold one.
unfoldable pub records : RingConfig → List Bytes → List Bytes
records c [] = []
records c (s ∷ ss) =
    if is_record_len c (slot_record_len s) then slot_record s ∷ records c ss else records c ss

unfoldable pub contents : RingConfig → Ring → List Bytes
contents c r = records c (live_slots c r)

-- What `header_valid` and the size of the buffer say of a ring.
pub record IsRing (c : RingConfig) (r : Ring) : Type 0 where
  pub initialized : r.initialized ≡ true
  pub slot_count : length r.slots ≡ c.cap
  pub next_slot : next_slot_get r < c.cap
  pub used_count : used_count_get r ≤ c.cap

-- What the operations keep besides: until the ring is full the next slot is the first free one, and
-- the slots in use hold records.
pub record IsFilled (c : RingConfig) (r : Ring) : Type 0 where
  pub ring : IsRing c r
  pub header_length : length r.header ≡ ring_header_bytes
  pub front : used_count_get r < c.cap → next_slot_get r ≡ used_count_get r
  pub live : All (IsSlot c) (take (used_count_get r) r.slots)

pub records-append :
    (c : RingConfig) (ss ts : List Bytes) → records c (ss ++ ts) ≡ records c ss ++ records c ts
unfolding records
records-append c [] ts = refl
records-append c (s ∷ ss) ts = ground (arith, records-append c ss ts)

pub length-records :
    (c : RingConfig) (ss : List Bytes) → All (IsSlot c) ss → length (records c ss) ≡ length ss
unfolding records
length-records c [] h = refl
length-records c (s ∷ ss) (h, hs) = rw (records, h.valid) (ap suc (length-records c ss hs))

pub records-cons :
    (c : RingConfig) (s : Bytes) (ss : List Bytes)
    → IsSlot c s
    → records c (s ∷ ss) ≡ slot_record s ∷ records c ss
unfolding records
records-cons c s ss h = rw (records, h.valid) refl

pub slot_record_len-filled_slot :
    (c : RingConfig) (blob : Bytes)
    → IsConfig c
    → IsRecord c blob
    → slot_record_len (filled_slot c blob) ≡ length blob
unfolding slot_record_len filled_slot
slot_record_len-filled_slot c blob ok h = omega (arith, ok.slot_max, h.fits)

pub slot_record-filled_slot :
    (c : RingConfig) (blob : Bytes)
    → IsConfig c
    → IsRecord c blob
    → slot_record (filled_slot c blob) ≡ blob
unfolding slot_record filled_slot
slot_record-filled_slot c blob ok h =
    rw (slot_record, slot_record_len-filled_slot c blob ok h)
      (take-append blob (replicate (record_max c - length blob) 0))

pub filled_slot-IsSlot :
    (c : RingConfig) (blob : Bytes) → IsConfig c → IsRecord c blob → IsSlot c (filled_slot c blob)
filled_slot-IsSlot c blob ok h = record {
  valid = rw (slot_record_len-filled_slot c blob ok h) (ground (arith, h.not_empty, h.fits));
}

pub records-filled_slot :
    (c : RingConfig) (blob : Bytes)
    → IsConfig c
    → IsRecord c blob
    → records c (filled_slot c blob ∷ []) ≡ blob ∷ []
unfolding records
records-filled_slot c blob ok h =
    rw
      (
        records-cons c (filled_slot c blob) [] (filled_slot-IsSlot c blob ok h),
        slot_record-filled_slot c blob ok h,
      )
      refl

pub length-filled_slot :
    (c : RingConfig) (blob : Bytes)
    → IsConfig c
    → IsRecord c blob
    → length (filled_slot c blob) ≡ c.slot_bytes
unfolding filled_slot
length-filled_slot c blob ok h = omega (
  arith,
  ok.slot_min,
  h.fits,
  length-append blob (replicate (record_max c - length blob) 0),
  length-replicate {A = ℕ} (record_max c - length blob) 0,
)

-- The slots of a full ring hold records.
pub full-IsSlot :
    (c : RingConfig) (r : Ring) → IsFilled c r → c.cap ≤ used_count_get r → All (IsSlot c) r.slots
full-IsSlot c r wf ge =
    subst (λ xs. All (IsSlot c) xs)
      (take_all (used_count_get r) r.slots (omega (arith, wf.ring.slot_count))) wf.live

-- The records of a ring are as many as its count of used slots.
pub length-contents :
    (c : RingConfig) (r : Ring) → IsFilled c r → length (contents c r) ≡ used_count_get r
unfolding contents
length-contents c r wf = elim (Bool-cases (ltb (used_count_get r) c.cap)) [
  | inl e ↦
      rw
        (window_free c.cap (used_count_get r) (next_slot_get r) r.slots
          (ltb→lt (used_count_get r) c.cap e))
        (omega (
          arith,
          length-records c (take (used_count_get r) r.slots) wf.live,
          length-take (used_count_get r) r.slots,
          wf.ring.slot_count,
          wf.ring.used_count,
        ))
  | inr e ↦
      let ge : c.cap ≤ used_count_get r = ground arith in
      let all : All (IsSlot c) r.slots = full-IsSlot c r wf ge in
      let ns : ℕ = next_slot_get r in
      rw (window_full c.cap (used_count_get r) ns r.slots ge) (
        omega (
          arith,
          length-records c (drop ns r.slots ++ take ns r.slots) (
              All-append (IsSlot c) (drop ns r.slots) (take ns r.slots)
                (All-drop (IsSlot c) ns r.slots all) (All-take (IsSlot c) ns r.slots all)),
          length-append (drop ns r.slots) (take ns r.slots),
          length-drop ns r.slots,
          length-take ns r.slots,
          wf.ring.slot_count,
          wf.ring.next_slot,
          wf.ring.used_count,
        ))
]

-- A record that a walk gives is no longer than a slot has room for.
pub records-max :
    (c : RingConfig) (ss : List Bytes) → All (λ x. length x ≤ record_max c) (records c ss)
unfolding records slot_record
records-max c [] = tt
records-max c (s ∷ ss) = elim (Bool-cases (is_record_len c (slot_record_len s))) [
  | inl e ↦
      rw (records, e)
        (
          omega (
            arith,
            record_len_le c (slot_record_len s) e,
            length-take (slot_record_len s) (drop 2 s),
          ),
          records-max c ss,
        )
  | inr e ↦ rw (records, e) (records-max c ss)
]
  where
    record_len_le : (c : RingConfig) (len : ℕ) → is_record_len c len ≡ true → len ≤ record_max c
    record_len_le c len e = ground arith

length-records_le : (c : RingConfig) (ss : List Bytes) → length (records c ss) ≤ length ss
unfolding records
length-records_le c [] = omega arith
length-records_le c (s ∷ ss) = ground (arith, length-records_le c ss)

-- There are no more records than slots.
pub length-contents_le : (c : RingConfig) (r : Ring) → IsRing c r → length (contents c r) ≤ c.cap
unfolding contents
length-contents_le c r wf = elim (Bool-cases (ltb (used_count_get r) c.cap)) [
  | inl e ↦
      rw
        (window_free c.cap (used_count_get r) (next_slot_get r) r.slots
          (ltb→lt (used_count_get r) c.cap e))
        (omega (
          arith,
          length-records_le c (take (used_count_get r) r.slots),
          length-take (used_count_get r) r.slots,
          wf.slot_count,
        ))
  | inr e ↦
      let ns : ℕ = next_slot_get r in
      rw (window_full c.cap (used_count_get r) ns r.slots (ground arith)) (
        omega (
          arith,
          length-records_le c (drop ns r.slots ++ take ns r.slots),
          length-append (drop ns r.slots) (take ns r.slots),
          length-drop ns r.slots,
          length-take ns r.slots,
          wf.slot_count,
        ))
]
