-- ===== src/BlobRing/Append.antt =====
-- An append to a ring pushes onto the queue of its records.
use waxwing.Common.{
  ℕ, suc, ◌+◌, ◌≤◌, ◌<◌, ◌≡◌, ap, ap₂, sym, subst, ◌∙◌, arith, List, [], ◌∷◌, ◌++◌,
}
use waxwing.Common.{
  ltb, length, take, drop, set, get_or, length-append, length-take, length-drop, length-set,
  Bool-cases, ltb→lt, inl, inr, All, All-append, All-take, All-drop, append-nil, append_assoc,
}
use waxwing.Common.Bytes.{Bytes}
use waxwing.Common.Index.{
  take_all, drop_all, take-suc-set, drop-suc-set, drop-cons, All-set, All-get_or,
}
use waxwing.BlobRing.{
  RingConfig, Ring, next_slot_get, used_count_get, filled_slot, ring_append, slot_record,
}
use waxwing.BlobRing.Contents.{
  full-IsSlot, IsConfig, IsFilled, IsSlot, IsRecord, live_slots, window_free, window_full, records,
  contents, length-records, records-append, records-cons, records-filled_slot, filled_slot-IsSlot,
}
use waxwing.BlobRing.Queue.{push, push_free, push_full}
use waxwing.BlobRing.Counters.{
  next_index, used-append_more, used-append_full, next_index-cases, next-append_less,
  used-append_le, front-append, header_length-append, next-append,
}

module _ (c : RingConfig) (r : Ring) (blob : Bytes) (ok : IsConfig c) (wf : IsFilled c r) where
  abbrev slots' : List Bytes
  slots' = set r.slots (next_slot_get r) (filled_slot c blob)

  -- The slots up to the one that was written, and the ones behind it.
  abbrev turned : List Bytes
  turned = drop (suc (next_slot_get r)) slots' ++ take (suc (next_slot_get r)) slots'

  length-slots' : length slots' ≡ c.cap
  length-slots' = length-set r.slots (next_slot_get r) (filled_slot c blob) ∙ wf.ring.slot_count

  turned-eq :
      turned
      ≡ drop (suc (next_slot_get r)) r.slots
        ++ (take (next_slot_get r) r.slots ++ (filled_slot c blob ∷ []))
  turned-eq =
      ap₂ (λ a b. a ++ b) (drop-suc-set (next_slot_get r) r.slots (filled_slot c blob))
        (take-suc-set (next_slot_get r) r.slots (filled_slot c blob)
          (omega (arith, wf.ring.next_slot, wf.ring.slot_count)))

  rotate : (n : ℕ) → n ≡ next_index c r blob ok wf → drop n slots' ++ take n slots' ≡ turned
  rotate n e = elim (next_index-cases c r blob ok wf) [
    | inl (q, _) ↦
        ap (λ n. drop n slots' ++ take n slots') {x = n} {y = suc (next_slot_get r)} (omega arith)
    | inr (q, l) ↦
        ap (λ n. drop n slots' ++ take n slots') {x = n} {y = 0} (e ∙ q)
        ∙ (append-nil slots'
            ∙ ap₂ (λ a b. a ++ b)
                (sym (drop_all (suc (next_slot_get r)) slots' (omega (arith, length-slots'))))
                (sym (take_all (suc (next_slot_get r)) slots' (omega (arith, length-slots')))))
  ]

  abbrev used' : ℕ
  used' = used_count_get (ring_append c r blob)

  abbrev next' : ℕ
  next' = next_slot_get (ring_append c r blob)

  -- Until the ring is full, its live slots are the first ones, also when it has just become full.
  live-append_more :
      used_count_get r < c.cap
      → live_slots c (ring_append c r blob)
        ≡ take (used_count_get r) r.slots ++ (filled_slot c blob ∷ [])
  unfolding ring_append
  live-append_more lt =
      let front : next_slot_get r ≡ used_count_get r = wf.front lt in
      let cut : take (suc (next_slot_get r)) slots'
          ≡ take (used_count_get r) r.slots ++ (filled_slot c blob ∷ []) =
        take-suc-set (next_slot_get r) r.slots (filled_slot c blob)
          (omega (arith, wf.ring.next_slot, wf.ring.slot_count))
        ∙ ap (λ n. take n r.slots ++ (filled_slot c blob ∷ [])) front in
      elim (Bool-cases (ltb (used_count_get r + 1) c.cap)) [
        | inl e ↦
            window_free c.cap used' next' slots'
              (ground (arith, used-append_more c r blob ok wf lt))
            ∙ (ap (λ n. take n slots') {x = used'} {y = suc (next_slot_get r)}
                  (omega (arith, used-append_more c r blob ok wf lt))
                ∙ cut)
        | inr e ↦
            let last : c.cap ≤ suc (next_slot_get r) = ground arith in
            window_full c.cap used' next' slots' (omega (arith, used-append_more c r blob ok wf lt))
            ∙ (rotate next' (next-append c r blob ok wf)
                ∙ ap₂ (λ a b. a ++ b) {y = []}
                    (drop_all (suc (next_slot_get r)) slots' (omega (arith, length-slots'))) cut)
      ]

  live-append_full : c.cap ≤ used_count_get r → live_slots c (ring_append c r blob) ≡ turned
  unfolding ring_append
  live-append_full ge =
      window_full c.cap used' next' slots' (omega (arith, used-append_full c r blob ok wf ge))
      ∙ rotate next' (next-append c r blob ok wf)

  contents-append_more :
      IsRecord c blob
      → used_count_get r < c.cap
      → contents c (ring_append c r blob) ≡ push c.cap (contents c r) blob
  unfolding contents
  contents-append_more h lt =
      let old : live_slots c r ≡ take (used_count_get r) r.slots =
        window_free c.cap (used_count_get r) (next_slot_get r) r.slots lt in
      let few : length (records c (live_slots c r)) < c.cap = omega (
        arith,
        length-records c (take (used_count_get r) r.slots) wf.live,
        length-take (used_count_get r) r.slots,
        ap (λ xs. length (records c xs)) old,
      ) in
      ap (records c) (live-append_more lt)
      ∙ (records-append c (take (used_count_get r) r.slots) (filled_slot c blob ∷ [])
          ∙ (ap₂ (λ a b. a ++ b) (ap (records c) (sym old)) (records-filled_slot c blob ok h)
              ∙ sym (push_free c.cap (records c (live_slots c r)) blob few)))

  contents-append_full :
      IsRecord c blob
      → c.cap ≤ used_count_get r
      → contents c (ring_append c r blob) ≡ push c.cap (contents c r) blob
  unfolding contents
  contents-append_full h ge =
      let ns : ℕ = next_slot_get r in
      let lt : ns < length r.slots = omega (arith, wf.ring.next_slot, wf.ring.slot_count) in
      let oldest : Bytes = get_or r.slots ns [] in
      let rest : List Bytes = drop (suc ns) r.slots ++ take ns r.slots in
      let valid : IsSlot c oldest =
        All-get_or (IsSlot c) r.slots ns [] (full-IsSlot c r wf ge) lt in
      let others : All (IsSlot c) rest =
        All-append (IsSlot c) (drop (suc ns) r.slots) (take ns r.slots)
          (All-drop (IsSlot c) (suc ns) r.slots (full-IsSlot c r wf ge))
          (All-take (IsSlot c) ns r.slots (full-IsSlot c r wf ge)) in
      let old : records c (live_slots c r) ≡ slot_record oldest ∷ records c rest =
        ap (records c) (
          window_full c.cap (used_count_get r) ns r.slots ge
          ∙ ap (λ l. l ++ take ns r.slots) (drop-cons ns r.slots [] lt))
        ∙ records-cons c oldest rest valid in
      let many : c.cap ≤ suc (length (records c rest)) = omega (
        arith,
        length-records c rest others,
        length-append (drop (suc ns) r.slots) (take ns r.slots),
        length-drop (suc ns) r.slots,
        length-take ns r.slots,
        wf.ring.slot_count,
        wf.ring.next_slot,
      ) in
      ap (records c) (
        live-append_full ge
        ∙ (turned-eq
            ∙ sym
                (append_assoc (drop (suc ns) r.slots) (take ns r.slots) (filled_slot c blob ∷ []))))
      ∙ (records-append c rest (filled_slot c blob ∷ [])
          ∙ (ap (λ l. records c rest ++ l) (records-filled_slot c blob ok h)
              ∙ sym (
                  ap (λ q. push c.cap q blob) old
                  ∙ push_full c.cap (slot_record oldest ∷ records c rest) blob many)))

  -- An append to a well-formed ring pushes the record onto the queue of the ring's records.
  pub contents-ring_append :
      IsRecord c blob → contents c (ring_append c r blob) ≡ push c.cap (contents c r) blob
  contents-ring_append h = elim (Bool-cases (ltb (used_count_get r) c.cap)) [
    | inl e ↦ contents-append_more h (ltb→lt (used_count_get r) c.cap e)
    | inr e ↦ contents-append_full h (ground arith)
  ]

  live-append : IsRecord c blob → All (IsSlot c) (take used' slots')
  live-append h = elim (Bool-cases (ltb (used_count_get r) c.cap)) [
    | inl e ↦
        let lt : used_count_get r < c.cap = ltb→lt (used_count_get r) c.cap e in
        let front : next_slot_get r ≡ used_count_get r = wf.front lt in
        subst (λ n. All (IsSlot c) (take n slots')) {x = suc (next_slot_get r)} {y = used'}
          (omega (arith, used-append_more c r blob ok wf lt))
          (subst (λ xs. All (IsSlot c) xs)
            (sym (
              take-suc-set (next_slot_get r) r.slots (filled_slot c blob)
                (omega (arith, wf.ring.next_slot, wf.ring.slot_count))))
            (All-append (IsSlot c) (take (next_slot_get r) r.slots) (filled_slot c blob ∷ [])
              (subst (λ n. All (IsSlot c) (take n r.slots)) (sym front) wf.live)
              (filled_slot-IsSlot c blob ok h, tt)))
    | inr e ↦ All-take (IsSlot c) used' slots' (
        All-set (IsSlot c) r.slots (next_slot_get r) (filled_slot c blob)
          (full-IsSlot c r wf (ground arith)) (filled_slot-IsSlot c blob ok h))
  ]

  -- An append keeps a ring well formed.
  pub ring_append-IsFilled : IsRecord c blob → IsFilled c (ring_append c r blob)
  unfolding ring_append
  ring_append-IsFilled h = record {
    ring = record {
      initialized = wf.ring.initialized;
      slot_count = length-slots';
      next_slot = next-append_less c r blob ok wf;
      used_count = used-append_le c r blob ok wf;
    };
    header_length = header_length-append c r blob ok wf;
    front = front-append c r blob ok wf;
    live = live-append h;
  }
