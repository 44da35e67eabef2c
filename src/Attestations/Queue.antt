-- ===== src/Attestations/Queue.antt =====
-- attestations.c implements a queue of the last 64 blobs.
use waxwing.Common.{
  ◌≡◌, refl, ap, sym, ◌∙◌, arith, List, [], ◌∷◌, ◌++◌, append_assoc, append-nil, ltb, ◌==◌,
}
use waxwing.Common.{
  length, true, false, if◌then◌else◌, Bool-cases, inl, inr, Bool, not, ne→==_false, le→ltb_false,
}
use waxwing.Common.Bytes.{Bytes}
use waxwing.Common.Int.{pos, negsuc}
use waxwing.Filestore.{Filestore, IsFilestore}
use waxwing.BlobRing.{Ring, record_max, ring_append, ring_persist}
use waxwing.BlobRing.Contents.{IsConfig, IsRecord, contents}
use waxwing.BlobRing.Append.{contents-ring_append}
use waxwing.BlobRing.Queue.{push, last_of, push-last_of}
use waxwing.BlobRing.Restart.{
  IsStored, ring_append-IsStored, blank_ring-IsStored, contents-blank_ring, ring_init-ring_persist,
}
use waxwing.BlobRing.Walk.{walk, ring_for_each-walk}
use waxwing.Attestations.{
  attestations_config, attestations_reset, attestations_write, write_result, attestations_init,
  attestations_for_each,
}

pub attestations_config-IsConfig : IsConfig attestations_config
attestations_config-IsConfig = record {
  cap_positive = omega arith;
  cap_byte = omega arith;
  slot_min = omega arith;
  slot_max = omega arith;
}

-- The blobs that the store takes.
abbrev pub is_attestation : Bytes → Bool
is_attestation blob =
    if length blob == 0 then false else not (ltb (record_max attestations_config) (length blob))

unfoldable pub attestations_of : List Bytes → List Bytes
attestations_of [] = []
attestations_of (b ∷ bs) = if is_attestation b then b ∷ attestations_of bs else attestations_of bs

is_attestation-IsRecord :
    (blob : Bytes) → is_attestation blob ≡ true → IsRecord attestations_config blob
is_attestation-IsRecord blob h = record { not_empty = ground arith; fits = ground arith }

module _ (fs : Filestore) where
  open fs use {Disk}

  -- A run of calls of `attestations_write`.
  unfoldable pub write_all : Ring → Disk → List Bytes → Ring × Disk
  write_all r disk [] = (r, disk)
  write_all r disk (b ∷ bs) =
      let (r', (disk', result)) = attestations_write fs r disk b in write_all r' disk' bs

  write_accepted :
      (r : Ring) (disk : Disk) (blob : Bytes)
      → IsStored attestations_config r
      → IsRecord attestations_config blob
      → attestations_write fs r disk blob ≡ (
        ring_append attestations_config r blob,
        write_result
            (ring_persist attestations_config fs (ring_append attestations_config r blob) disk),
      )
  unfolding attestations_write
  write_accepted r disk blob wf h =
      rw
        (
          attestations_write,
          wf.filled.ring.initialized,
          ne→==_false (length blob) 0 (omega (arith, h.not_empty)),
          le→ltb_false 198 (length blob) h.fits,
        )
        refl

  write_refused :
      (r : Ring) (disk : Disk) (blob : Bytes)
      → is_attestation blob ≡ false
      → attestations_write fs r disk blob ≡ (r, (disk, negsuc 0))
  unfolding attestations_write
  write_refused r disk blob h = ground arith

  write_all-contents :
      (r : Ring) (disk : Disk) (seen blobs : List Bytes)
      → IsStored attestations_config r
      → contents attestations_config r ≡ last_of 64 seen
      → contents attestations_config (write_all r disk blobs).0
        ≡ last_of 64 (seen ++ attestations_of blobs)
  unfolding write_all attestations_of
  write_all-contents r disk seen [] wf h = h ∙ ap (last_of 64) (sym (append-nil seen))
  write_all-contents r disk seen (b ∷ bs) wf h = elim (Bool-cases (is_attestation b)) [
    | inl e ↦
        let ok : IsRecord attestations_config b = is_attestation-IsRecord b e in
        let wf' : IsStored attestations_config (ring_append attestations_config r b) =
          ring_append-IsStored attestations_config r b attestations_config-IsConfig wf ok in
        let pushed : contents attestations_config (ring_append attestations_config r b)
            ≡ last_of 64 (seen ++ (b ∷ [])) =
          contents-ring_append attestations_config r b attestations_config-IsConfig wf.filled ok
          ∙ (ap (λ q. push 64 q b) h ∙ push-last_of 64 seen b (omega arith)) in
        rw (write_all, write_accepted r disk b wf ok, e)
          (write_all-contents (ring_append attestations_config r b)
              (ring_persist attestations_config fs (ring_append attestations_config r b) disk).0
              (seen ++ (b ∷ [])) bs wf' pushed
            ∙ ap (last_of 64) (append_assoc seen (b ∷ []) (attestations_of bs)))
    | inr e ↦ rw (write_all, write_refused r disk b e, e) (write_all-contents r disk seen bs wf h)
  ]

  -- A write keeps the store well formed, whatever its result.
  pub attestations_write-IsStored :
      (r : Ring) (disk : Disk) (blob : Bytes)
      → IsStored attestations_config r
      → IsStored attestations_config (attestations_write fs r disk blob).0
  attestations_write-IsStored r disk blob wf = elim (Bool-cases (is_attestation blob)) [
    | inl e ↦
        let ok : IsRecord attestations_config blob = is_attestation-IsRecord blob e in
        rw (write_accepted r disk blob wf ok)
          (ring_append-IsStored attestations_config r blob attestations_config-IsConfig wf ok)
    | inr e ↦ rw (write_refused r disk blob e) wf
  ]

  write_all-IsStored :
      (r : Ring) (disk : Disk) (blobs : List Bytes)
      → IsStored attestations_config r
      → IsStored attestations_config (write_all r disk blobs).0
  unfolding write_all
  write_all-IsStored r disk [] wf = wf
  write_all-IsStored r disk (b ∷ bs) wf =
      write_all-IsStored (attestations_write fs r disk b).0 (attestations_write fs r disk b).1.0 bs
        (attestations_write-IsStored r disk b wf)

reset-IsStored : IsStored attestations_config attestations_reset
unfolding attestations_reset
reset-IsStored = blank_ring-IsStored attestations_config attestations_config-IsConfig

reset-contents : contents attestations_config attestations_reset ≡ []
unfolding attestations_reset
reset-contents = contents-blank_ring attestations_config attestations_config-IsConfig

-- After any run of writes to the emptied store, a walk whose callback never stops visits the last 64 of the blobs that are not empty and have at most 198 bytes, in the order in which they were written, and so does any other walk until its callback asks to stop.
pub for_each-write_all {ℓ} :
    {S : Type ℓ} (cb : S → Bytes → S × Bool) (s : S) (fs : Filestore) (disk : fs.Disk)
    (blobs : List Bytes)
    → attestations_for_each cb (write_all fs attestations_reset disk blobs).0 s
      ≡ walk cb (last_of 64 (attestations_of blobs)) s 0
unfolding attestations_for_each last_of
for_each-write_all cb s fs disk blobs =
    let r : Ring = (write_all fs attestations_reset disk blobs).0 in
    let wf : IsStored attestations_config r =
      write_all-IsStored fs attestations_reset disk blobs reset-IsStored in
    ring_for_each-walk cb attestations_config r s attestations_config-IsConfig wf.filled.ring
    ∙ ap (λ q. walk cb q s 0)
        (write_all-contents fs attestations_reset disk [] blobs reset-IsStored reset-contents)

persisted-result : {D : Type 0} (res : D × Bool) → (write_result res).1 ≡ pos 0 → res.1 ≡ true
persisted-result (disk, true) h = refl
persisted-result (disk, false) h = cc

-- If a write to a well-formed store returns 0, a start from the medium that it left behind finds the store as it is in memory.
pub init-attestations_write :
    (fs : Filestore) (r : Ring) (disk : fs.Disk) (blob : Bytes)
    → IsFilestore fs
    → IsStored attestations_config r
    → (attestations_write fs r disk blob).1.1 ≡ pos 0
    → attestations_init fs (attestations_write fs r disk blob).1.0
      ≡ (attestations_write fs r disk blob).0
unfolding attestations_init
init-attestations_write fs r disk blob ok wf h = elim (Bool-cases (is_attestation blob)) [
  | inl e ↦
      let rec : IsRecord attestations_config blob = is_attestation-IsRecord blob e in
      let r' : Ring = ring_append attestations_config r blob in
      let written : attestations_write fs r disk blob
          ≡ (r', write_result (ring_persist attestations_config fs r' disk)) =
        write_accepted fs r disk blob wf rec in
      rw written (
        ring_init-ring_persist attestations_config fs r' disk ok
          (ring_append-IsStored attestations_config r blob attestations_config-IsConfig wf rec)
          (persisted-result (ring_persist attestations_config fs r' disk)
            (sym (ap (λ t. t.1.1) written) ∙ h)))
  | inr e ↦ absurd (cc (write_refused fs r disk blob e))
]
