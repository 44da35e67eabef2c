-- ===== src/AttestCache/Present.antt =====
-- The duplicate check of attest_cache.c looks a blob up in the list of the cache's records.
use waxwing.Common.{ℕ, suc, ◌+◌, ◌<◌, ◌≡◌, ◌≢◌, refl, ap, sym, ◌∙◌, arith, List, [], ◌∷◌}
use waxwing.Common.{
  ltb, ◌==◌, ==_refl, Bool, true, false, if◌then◌else◌, length, take, drop, get_or, Bool-cases, inl,
  inr, All, All-append, All-take, All-drop, length-take, length-drop, ltb→lt,
}
use waxwing.Common.Bytes.{Bytes, bytes_eq, bytes_eq-true}
use waxwing.BlobRing.{
  Ring, slot_record_len, slot_record, is_record_len, slot_at, used_count_get, next_slot_get,
  oldest_slot,
}
use waxwing.BlobRing.Contents.{
  IsConfig, IsRecord, live_slots, window_free, window_full, records, contents,
}
use waxwing.BlobRing.Order.{live_slot, length-live_slots}
use waxwing.BlobRing.Restart.{IsStored}
use waxwing.AttestCache.{attest_cache_config, slot_holds, present_loop, blob_already_present}

pub attest_cache_config-IsConfig : IsConfig attest_cache_config
attest_cache_config-IsConfig = record {
  cap_positive = omega arith;
  cap_byte = omega arith;
  slot_min = omega arith;
  slot_max = omega arith;
}

-- Whether a blob is in a list.
unfoldable pub contains : List Bytes → Bytes → Bool
contains [] blob = false
contains (x ∷ xs) blob = if bytes_eq x blob then true else contains xs blob

abbrev IsCacheSlot : Bytes → Type 0
IsCacheSlot slot = length slot ≡ 200

length-slot_record :
    (slot : Bytes)
    → IsCacheSlot slot
    → is_record_len attest_cache_config (slot_record_len slot) ≡ true
    → length (slot_record slot) ≡ slot_record_len slot
unfolding slot_record
length-slot_record slot size h =
    ground (arith, length-take (slot_record_len slot) (drop 2 slot), length-drop 2 slot)

-- A slot with a record of another length holds another record.
other_length :
    (blob slot : Bytes)
    → IsRecord attest_cache_config blob
    → IsCacheSlot slot
    → slot_record_len slot ≢ length blob
    → (if is_record_len attest_cache_config (slot_record_len slot)
        then bytes_eq (slot_record slot) blob
        else false)
      ≡ false
other_length blob slot rec size ne =
    elim (Bool-cases (is_record_len attest_cache_config (slot_record_len slot))) [
      | inr e ↦ rw e refl
      | inl e ↦ elim (Bool-cases (bytes_eq (slot_record slot) blob)) [
        | inr f ↦ rw (e, f) refl
        | inl f ↦ absurd (
            ne (
              sym (length-slot_record slot size e)
              ∙ ap length (bytes_eq-true (slot_record slot) blob f)))
      ]
    ]

slot_holds-record :
    (blob slot : Bytes)
    → IsRecord attest_cache_config blob
    → IsCacheSlot slot
    → slot_holds blob slot ≡ (
        if is_record_len attest_cache_config (slot_record_len slot)
        then bytes_eq (slot_record slot) blob
        else false)
unfolding slot_holds slot_record
slot_holds-record blob slot rec size = elim (Bool-cases (slot_record_len slot == length blob)) [
  | inl e ↦
      let q : slot_record_len slot ≡ length blob = ground arith in
      rw (q, ==_refl (length blob)) (ground (arith, rec.not_empty, rec.fits))
  | inr e ↦ rw (e, other_length blob slot rec size (ground arith)) refl
]

holds-contains :
    (blob slot : Bytes) (ss : List Bytes)
    → IsRecord attest_cache_config blob
    → IsCacheSlot slot
    → (if slot_holds blob slot then true else contains (records attest_cache_config ss) blob)
      ≡ contains (records attest_cache_config (slot ∷ ss)) blob
unfolding records contains
holds-contains blob slot ss rec size =
    elim (Bool-cases (is_record_len attest_cache_config (slot_record_len slot))) [
      | inl e ↦ rw (slot_holds-record blob slot rec size, e) refl
      | inr e ↦ rw (slot_holds-record blob slot rec size, e) refl
    ]

module _ (r : Ring) (blob : Bytes) where
  present_loop-contains :
      (ss : List Bytes) (i : ℕ)
      → IsRecord attest_cache_config blob
      → All IsCacheSlot ss
      → ((j k : ℕ) → k ≡ i + j → j < length ss → slot_at attest_cache_config r k ≡ get_or ss j [])
      → present_loop r blob (length ss) i ≡ contains (records attest_cache_config ss) blob
  unfolding present_loop contains records
  present_loop-contains [] i rec size h = refl
  present_loop-contains (x ∷ ss) i rec (sx, size) h =
      let here : slot_at attest_cache_config r i ≡ x = h 0 i (omega arith) (omega arith) in
      let there : present_loop r blob (length ss) (suc i)
          ≡ contains (records attest_cache_config ss) blob =
        present_loop-contains ss (suc i) rec size
          (λ j k e lt. h (suc j) k (omega arith) (omega arith)) in
      ap (λ slot. if slot_holds blob slot then true else present_loop r blob (length ss) (suc i))
        here
      ∙ (ap (λ b. if slot_holds blob x then true else b) there ∙ holds-contains blob x ss rec sx)

  live-size : IsStored attest_cache_config r → All IsCacheSlot (live_slots attest_cache_config r)
  live-size wf = elim (Bool-cases (ltb (used_count_get r) 64)) [
    | inl e ↦
        rw
          (window_free 64 (used_count_get r) (next_slot_get r) r.slots
            (ltb→lt (used_count_get r) 64 e))
          (All-take IsCacheSlot (used_count_get r) r.slots wf.slots)
    | inr e ↦ rw (window_full 64 (used_count_get r) (next_slot_get r) r.slots (ground arith)) (
        All-append IsCacheSlot (drop (next_slot_get r) r.slots) (take (next_slot_get r) r.slots)
          (All-drop IsCacheSlot (next_slot_get r) r.slots wf.slots)
          (All-take IsCacheSlot (next_slot_get r) r.slots wf.slots))
  ]

  -- In a well-formed cache, the duplicate check finds a blob that fits a slot if and only if it is among the records.
  pub blob_already_present-contains :
      IsStored attest_cache_config r
      → IsRecord attest_cache_config blob
      → blob_already_present r blob ≡ contains (contents attest_cache_config r) blob
  unfolding blob_already_present contents
  blob_already_present-contains wf rec =
      ap (λ n. present_loop r blob n (oldest_slot attest_cache_config r))
        (sym (length-live_slots attest_cache_config r wf.filled.ring))
      ∙ present_loop-contains (live_slots attest_cache_config r) (oldest_slot attest_cache_config r)
          rec (live-size wf)
          (λ j k e lt.
            live_slot attest_cache_config r j k attest_cache_config-IsConfig wf.filled.ring e
              (omega (arith, length-live_slots attest_cache_config r wf.filled.ring)))
