-- ===== src/EncounterRecord/Id.antt =====
-- The content id of encounter_record.c does not depend on which of the two keys is called A.
use waxwing.Common.{◌≡◌, refl, arith, [], ◌∷◌, true, false, length}
use waxwing.Common.{inl, inr, ◌⊎◌}
use waxwing.Common.Bytes.{Bytes, bytes_gt}
use waxwing.EncounterRecord.{EncounterRecord, encounter_record_id}

-- Strings of one length are compared in one order, or they are equal.
bytes_gt-cases :
    (a b : Bytes)
    → length a ≡ length b
    → ((bytes_gt a b ≡ true) × (bytes_gt b a ≡ false))
      ⊎ (((bytes_gt a b ≡ false) × (bytes_gt b a ≡ true)) ⊎ (a ≡ b))
unfolding bytes_gt
bytes_gt-cases [] [] h = inr (inr refl)
bytes_gt-cases [] (b ∷ bs) h = absurd (omega arith)
bytes_gt-cases (a ∷ as') [] h = absurd (omega arith)
bytes_gt-cases (a ∷ as') (b ∷ bs) h = ground (arith, bytes_gt-cases as' bs)

-- Exchanging two keys of one length, the nonces staying where they are, does not change the id,
-- whatever the hash is.
encounter_record_id-swap :
    (sha256 : Bytes → Bytes) (rec : EncounterRecord)
    → length rec.pub_a ≡ length rec.pub_b
    → encounter_record_id sha256 (record rec { pub_a = rec.pub_b; pub_b = rec.pub_a })
      ≡ encounter_record_id sha256 rec
unfolding encounter_record_id
encounter_record_id-swap sha256 rec h = elim (bytes_gt-cases rec.pub_a rec.pub_b h) [
  | inl (x, y) ↦ rw (encounter_record_id, x, y) refl
  | inr d ↦ elim d [
    | inl (x, y) ↦ rw (encounter_record_id, x, y) refl
    | inr e ↦ rw (encounter_record_id, e) refl
  ]
]
