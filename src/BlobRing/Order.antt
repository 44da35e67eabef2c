-- ===== src/BlobRing/Order.antt =====
-- The slots that a walk over a ring visits, in their order.
use waxwing.Common.{ℕ, ◌+◌, ◌-◌, ◌%◌, ◌≤◌, ◌<◌, ◌≡◌, ap, sym, ◌∙◌, arith, List, [], ◌++◌}
use waxwing.Common.{
  ltb, length, take, drop, get_or, length-append, length-take, length-drop, Bool-cases, ltb→lt, inl,
  inr,
}
use waxwing.Common.Bytes.{Bytes}
use waxwing.Common.Index.{
  get_or-take, get_or-append_left, get_or-append_right, get_or-drop, get_or_ap,
}
use waxwing.BlobRing.{RingConfig, Ring, next_slot_get, used_count_get, oldest_slot, slot_at}
use waxwing.BlobRing.Contents.{IsConfig, IsRing, live_slots, window_free, window_full}
use native.Mathlib.Nat.{mod-eq_of_lt, mod-eq-sub-mod}

module _ (c : RingConfig) (r : Ring) where
  index : (i : ℕ) → IsConfig c → i < c.cap → i % c.cap % 256 ≡ i
  index i ok h = rw (mod-eq_of_lt {n = i} {m = c.cap} h) (mod-eq_of_lt (omega (arith, ok.cap_byte)))

  index_wrap : (i : ℕ) → IsConfig c → c.cap ≤ i → i < c.cap + c.cap → i % c.cap % 256 ≡ i - c.cap
  index_wrap i ok h lt =
      rw
        (
          mod-eq-sub-mod {n = i} {m = c.cap} h,
          mod-eq_of_lt {n = i - c.cap} {m = c.cap} (omega arith),
        )
        (mod-eq_of_lt (omega (arith, ok.cap_byte)))

  -- Behind the oldest slot of a full ring come the slots up to the end, and then the first ones.
  full_slot :
      (j k : ℕ)
      → IsConfig c
      → IsRing c r
      → k ≡ next_slot_get r + j
      → j < c.cap
      → slot_at c r k
        ≡ get_or (drop (next_slot_get r) r.slots ++ take (next_slot_get r) r.slots) j []
  full_slot j k ok wf e lt =
      let back : List Bytes = drop (next_slot_get r) r.slots in
      let front : List Bytes = take (next_slot_get r) r.slots in
      let lb : length back ≡ c.cap - next_slot_get r =
        omega (arith, length-drop (next_slot_get r) r.slots, wf.slot_count) in
      elim (Bool-cases (ltb k c.cap)) [
        | inl b ↦
            get_or_ap r.slots [] (index k ok (ltb→lt k c.cap b) ∙ e)
            ∙ (sym (get_or-drop (next_slot_get r) r.slots j [])
                ∙ sym (get_or-append_left back front j [] (ground arith)))
        | inr b ↦
            let ge : c.cap ≤ k = ground arith in
            get_or_ap r.slots [] (index_wrap k ok (ground arith) (omega (arith, wf.next_slot)))
            ∙ (sym (
                  get_or-take (next_slot_get r) r.slots (k - c.cap) []
                    (omega (arith, wf.next_slot)))
                ∙ (get_or_ap front [] (omega (arith, wf.next_slot))
                    ∙ sym (get_or-append_right back front j [] (ground arith))))
      ]

  length-full :
      IsRing c r → length (drop (next_slot_get r) r.slots ++ take (next_slot_get r) r.slots) ≡ c.cap
  length-full wf = omega (
    arith,
    length-append (drop (next_slot_get r) r.slots) (take (next_slot_get r) r.slots),
    length-drop (next_slot_get r) r.slots,
    length-take (next_slot_get r) r.slots,
    wf.slot_count,
    wf.next_slot,
  )

  pub length-live_slots : IsRing c r → length (live_slots c r) ≡ used_count_get r
  length-live_slots wf = elim (Bool-cases (ltb (used_count_get r) c.cap)) [
    | inl e ↦
        rw
          (window_free c.cap (used_count_get r) (next_slot_get r) r.slots
            (ltb→lt (used_count_get r) c.cap e))
          (omega (arith, length-take (used_count_get r) r.slots, wf.slot_count, wf.used_count))
    | inr e ↦
        rw (window_full c.cap (used_count_get r) (next_slot_get r) r.slots (ground arith))
          (length-full wf ∙ ground (arith, wf.used_count))
  ]

  -- The slot `j` places behind the oldest one.
  pub live_slot :
      (j k : ℕ)
      → IsConfig c
      → IsRing c r
      → k ≡ oldest_slot c r + j
      → j < used_count_get r
      → slot_at c r k ≡ get_or (live_slots c r) j []
  unfolding oldest_slot
  live_slot j k ok wf e lt = elim (Bool-cases (ltb (used_count_get r) c.cap)) [
    | inl b ↦
        let free : used_count_get r < c.cap = ltb→lt (used_count_get r) c.cap b in
        get_or_ap r.slots [] (index k ok (ground (arith, free)) ∙ ground (arith, free))
        ∙ (sym (get_or-take (used_count_get r) r.slots j [] lt)
            ∙ ap (λ ss. get_or ss j [])
                (sym (window_free c.cap (used_count_get r) (next_slot_get r) r.slots free)))
    | inr b ↦
        let full : c.cap ≤ used_count_get r = ground arith in
        full_slot j k ok wf (ground (arith, full)) (omega (arith, wf.used_count))
        ∙ ap (λ ss. get_or ss j [])
            (sym (window_full c.cap (used_count_get r) (next_slot_get r) r.slots full))
  ]
