-- ===== src/BlobRing/Walk.antt =====
-- The walk over a ring is a walk over the list of its records.
use waxwing.Common.{ℕ, suc, ◌+◌, ◌<◌, ◌≡◌, refl, ap, sym, ◌∙◌, arith, List, [], ◌∷◌}
use waxwing.Common.{Bool, true, false, if◌then◌else◌, length, get_or, Bool-cases, inl, inr}
use waxwing.Common.Bytes.{Bytes}
use waxwing.BlobRing.{
  RingConfig, Ring, slot_record_len, slot_record, used_count_get, is_record_len, oldest_slot,
  slot_at, for_each_loop, ring_for_each,
}
use waxwing.BlobRing.Contents.{IsConfig, IsRing, live_slots, records, contents}
use waxwing.BlobRing.Order.{live_slot, length-live_slots}

-- The records of a list, in turn, until the callback stops: its state and the number it saw.
unfoldable pub walk {ℓ} : {S : Type ℓ} → (S → Bytes → S × Bool) → List Bytes → S → ℕ → S × ℕ
walk cb [] s seen = (s, seen)
walk cb (x ∷ xs) s seen =
    let (s', stop) = cb s x in
    elim stop [ true ↦ (s', seen + 1) | false ↦ walk cb xs s' (seen + 1) ]

-- What a walk does with a callback's result.
abbrev pub after {ℓ} : {S : Type ℓ} → (S → Bytes → S × Bool) → List Bytes → ℕ → S × Bool → S × ℕ
after cb xs seen (s, true) = (s, seen + 1)
after cb xs seen (s, false) = walk cb xs s (seen + 1)

pub walk-cons {ℓ} :
    {S : Type ℓ} (cb : S → Bytes → S × Bool) (x : Bytes) (xs : List Bytes) (s : S) (seen : ℕ)
    → walk cb (x ∷ xs) s seen ≡ after cb xs seen (cb s x)
unfolding walk
walk-cons cb x xs s seen = refl

module _ {ℓ} {S : Type ℓ} (cb : S → Bytes → S × Bool) (c : RingConfig) (r : Ring) where
  -- What a walk does with a record: `k` is the rest of the walk.
  abbrev visit : (S → ℕ → S × ℕ) → Bytes → S → ℕ → S × ℕ
  visit k x s seen =
      let (s', stop) = cb s x in elim stop [ true ↦ (s', seen + 1) | false ↦ k s' (seen + 1) ]

  -- What the loop does with a slot.
  abbrev round : (S → ℕ → S × ℕ) → Bytes → S → ℕ → S × ℕ
  round k slot s seen = elim (is_record_len c (slot_record_len slot)) [
    | false ↦ k s seen
    | true ↦ visit k (slot_record slot) s seen
  ]

  visit_ap :
      (k m : S → ℕ → S × ℕ) (x : Bytes) (s : S) (seen : ℕ)
      → ((s : S) (seen : ℕ) → k s seen ≡ m s seen)
      → visit k x s seen ≡ visit m x s seen
  visit_ap k m x s seen h = go (cb s x)
    where
      go :
          (res : S × Bool)
          → (elim res.1 as (λ _. S × ℕ) [ true ↦ (res.0, seen + 1) | false ↦ k res.0 (seen + 1) ])
            ≡ (elim res.1 as (λ _. S × ℕ) [ true ↦ (res.0, seen + 1) | false ↦ m res.0 (seen + 1) ])
      go (s', true) = refl
      go (s', false) = h s' (seen + 1)

  round-records :
      (k : S → ℕ → S × ℕ) (ss : List Bytes) (x : Bytes) (s : S) (seen : ℕ)
      → ((s : S) (seen : ℕ) → k s seen ≡ walk cb (records c ss) s seen)
      → round k x s seen ≡ walk cb (records c (x ∷ ss)) s seen
  unfolding walk records
  round-records k ss x s seen h = elim (Bool-cases (is_record_len c (slot_record_len x))) [
    | inl e ↦ rw (e, round) (visit_ap k (walk cb (records c ss)) (slot_record x) s seen h)
    | inr e ↦ rw (e, round) (h s seen)
  ]

  for_each_loop-walk :
      (ss : List Bytes) (i : ℕ) (s : S) (seen : ℕ)
      → ((j k : ℕ) → k ≡ i + j → j < length ss → slot_at c r k ≡ get_or ss j [])
      → for_each_loop c cb r (length ss) i s seen ≡ walk cb (records c ss) s seen
  unfolding for_each_loop walk records
  for_each_loop-walk [] i s seen h = refl
  for_each_loop-walk (x ∷ ss) i s seen h =
      let here : slot_at c r i ≡ x = h 0 i (omega arith) (omega arith) in
      let there : (j k : ℕ) → k ≡ suc i + j → j < length ss → slot_at c r k ≡ get_or ss j [] =
        λ j k e lt. h (suc j) k (omega arith) (omega arith) in
      ap (λ slot. round (λ s seen. for_each_loop c cb r (length ss) (suc i) s seen) slot s seen)
        here
      ∙ round-records (λ s seen. for_each_loop c cb r (length ss) (suc i) s seen) ss x s seen
          (λ s seen. for_each_loop-walk ss (suc i) s seen there)

  -- The loop runs once for each slot in use.
  live_loop :
      (s : S)
      → IsConfig c
      → IsRing c r
      → for_each_loop c cb r (used_count_get r) (oldest_slot c r) s 0 ≡ walk cb (contents c r) s 0
  unfolding contents
  live_loop s ok wf =
      ap (λ n. for_each_loop c cb r n (oldest_slot c r) s 0) (sym (length-live_slots c r wf))
      ∙ for_each_loop-walk (live_slots c r) (oldest_slot c r) s 0
          (λ j k e lt. live_slot c r j k ok wf e (omega (arith, length-live_slots c r wf)))

  -- If the constants fit their bytes and the ring's header is valid, the walk of the code over the slots calls back with the records of the abstract list, in their order, until a callback asks to stop.
  pub ring_for_each-walk :
      (s : S) → IsConfig c → IsRing c r → ring_for_each c cb r s ≡ walk cb (contents c r) s 0
  unfolding ring_for_each
  ring_for_each-walk s ok wf =
      ap (λ b. if b then for_each_loop c cb r (used_count_get r) (oldest_slot c r) s 0 else (s, 0))
        wf.initialized
      ∙ live_loop s ok wf
