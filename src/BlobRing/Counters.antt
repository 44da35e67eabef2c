-- ===== src/BlobRing/Counters.antt =====
-- The write position and the count of a ring after an append.
use waxwing.Common.{ℕ, ◌+◌, ◌%◌, ◌≤◌, ◌<◌, ◌≡◌, refl, ap, ◌∙◌, arith}
use waxwing.Common.{
  ltb, length, set, get_or, length-set, Bool-cases, ltb→lt, lt→ltb, inl, inr, ◌⊎◌, le→ltb_false,
  get_or-set_self, get_or-set_ne,
}
use waxwing.Common.Bytes.{Bytes}
use waxwing.BlobRing.{RingConfig, Ring, next_slot_get, used_count_get, used_bumped, ring_append}
use waxwing.BlobRing.Contents.{IsConfig, IsFilled}
use native.Mathlib.Nat.{mod-eq_of_lt, mod_self}

module _ (c : RingConfig) (h : Bytes) where
  used_bumped_next : get_or (used_bumped c h) 6 0 ≡ get_or h 6 0
  unfolding used_bumped
  used_bumped_next = elim (Bool-cases (ltb (get_or h 7 0) c.cap)) [
    | inl e ↦ rw e (get_or-set_ne h ((get_or h 7 0 + 1) % 256) 0 (omega arith))
    | inr e ↦ rw e refl
  ]

  used_bumped_more :
      IsConfig c
      → length h ≡ 16
      → get_or h 7 0 < c.cap
      → get_or (used_bumped c h) 7 0 ≡ get_or h 7 0 + 1
  unfolding used_bumped
  used_bumped_more ok n lt = rw (lt→ltb (get_or h 7 0) c.cap lt) (
      get_or-set_self h 7 ((get_or h 7 0 + 1) % 256) 0 (omega arith)
      ∙ mod-eq_of_lt (omega (arith, ok.cap_byte)))

  used_bumped_full : c.cap ≤ get_or h 7 0 → get_or (used_bumped c h) 7 0 ≡ get_or h 7 0
  unfolding used_bumped
  used_bumped_full ge = rw (le→ltb_false (get_or h 7 0) c.cap ge) refl

  length-used_bumped : length (used_bumped c h) ≡ length h
  unfolding used_bumped
  length-used_bumped = elim (Bool-cases (ltb (get_or h 7 0) c.cap)) [
    | inl e ↦ rw e (length-set h 7 ((get_or h 7 0 + 1) % 256))
    | inr e ↦ rw e refl
  ]

module _ (c : RingConfig) (r : Ring) (blob : Bytes) (ok : IsConfig c) (wf : IsFilled c r) where
  abbrev pub next_index : ℕ
  next_index = (next_slot_get r + 1) % c.cap % 256

  abbrev bumped_header : Bytes
  bumped_header = set r.header 6 next_index

  used_kept : get_or bumped_header 7 0 ≡ used_count_get r
  used_kept = get_or-set_ne r.header next_index 0 (omega arith)

  length-bumped : length bumped_header ≡ 16
  length-bumped = length-set r.header 6 next_index ∙ wf.header_length

  pub next-append : next_slot_get (ring_append c r blob) ≡ next_index
  unfolding ring_append
  next-append =
      used_bumped_next c bumped_header
      ∙ get_or-set_self r.header 6 next_index 0 (omega (arith, wf.header_length))

  pub used-append_more :
      used_count_get r < c.cap → used_count_get (ring_append c r blob) ≡ used_count_get r + 1
  unfolding ring_append
  used-append_more lt =
      used_bumped_more c bumped_header ok length-bumped (omega (arith, used_kept))
      ∙ ap (λ n. n + 1) used_kept

  pub used-append_full :
      c.cap ≤ used_count_get r → used_count_get (ring_append c r blob) ≡ used_count_get r
  unfolding ring_append
  used-append_full ge = used_bumped_full c bumped_header (omega (arith, used_kept)) ∙ used_kept

  -- The slot behind the one that was written, or the first one.
  pub next_index-cases :
      (next_index ≡ next_slot_get r + 1) × (next_slot_get r + 1 < c.cap)
      ⊎ (next_index ≡ 0) × (next_slot_get r + 1 ≡ c.cap)
  next_index-cases = elim (Bool-cases (ltb (next_slot_get r + 1) c.cap)) [
    | inl e ↦
        let lt : next_slot_get r + 1 < c.cap = ltb→lt (next_slot_get r + 1) c.cap e in
        inl (
          rw (mod-eq_of_lt {n = next_slot_get r + 1} {m = c.cap} lt)
              (mod-eq_of_lt (omega (arith, ok.cap_byte))),
          lt,
        )
    | inr e ↦
        let q : next_slot_get r + 1 ≡ c.cap = ground (arith, wf.ring.next_slot) in
        inr (ap (λ n. n % c.cap % 256) q ∙ ap (λ n. n % 256) (mod_self c.cap), q)
  ]

  abbrev used' : ℕ
  used' = used_count_get (ring_append c r blob)

  abbrev next' : ℕ
  next' = next_slot_get (ring_append c r blob)

  pub next-append_less : next_slot_get (ring_append c r blob) < c.cap
  next-append_less = elim next_index-cases [
    | inl (q, lt) ↦ omega (arith, next-append)
    | inr (q, last) ↦ omega (arith, next-append, ok.cap_positive)
  ]

  pub used-append_le : used_count_get (ring_append c r blob) ≤ c.cap
  used-append_le = elim (Bool-cases (ltb (used_count_get r) c.cap)) [
    | inl e ↦
        let lt : used_count_get r < c.cap = ltb→lt (used_count_get r) c.cap e in
        omega (arith, used-append_more lt)
    | inr e ↦
        let ge : c.cap ≤ used_count_get r = ground arith in
        omega (arith, used-append_full ge, wf.ring.used_count)
  ]

  -- The ring is not empty any more.
  pub used-append_positive : 0 < used_count_get (ring_append c r blob)
  used-append_positive = elim (Bool-cases (ltb (used_count_get r) c.cap)) [
    | inl e ↦ omega (arith, used-append_more (ltb→lt (used_count_get r) c.cap e))
    | inr e ↦
        let ge : c.cap ≤ used_count_get r = ground arith in
        omega (arith, used-append_full ge, ok.cap_positive)
  ]

  pub front-append : used' < c.cap → next' ≡ used'
  front-append h = elim (Bool-cases (ltb (used_count_get r) c.cap)) [
    | inl e ↦
        let lt : used_count_get r < c.cap = ltb→lt (used_count_get r) c.cap e in
        let front : next_slot_get r ≡ used_count_get r = wf.front lt in
        elim next_index-cases [
          | inl (q, _) ↦ omega (arith, next-append, used-append_more lt)
          | inr (q, last) ↦ absurd (omega (arith, used-append_more lt))
        ]
    | inr e ↦
        let ge : c.cap ≤ used_count_get r = ground arith in
        absurd (omega (arith, used-append_full ge))
  ]

  pub header_length-append : length (ring_append c r blob).header ≡ 16
  unfolding ring_append
  header_length-append = length-used_bumped c bumped_header ∙ length-bumped
