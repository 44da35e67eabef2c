-- ===== src/Commands/Gate.antt =====
-- What a peer's command can change: firmware/core/commands.c gives a peer no way to anything but the
-- cache of attestations.
use Prim.Native.String.{String}
use waxwing.Common.{ℕ, zero, suc, ◌≡◌, refl, ap, ◌==◌, Bool, true, false, not, ◌||◌}
use waxwing.Common.{
  Option, none, some, if◌then◌else◌, length, take, Bool-cases, Option-cases, inl, inr, ltb,
}
use waxwing.Common.Int.{negsuc}
use waxwing.Common.Bytes.{Bytes, bytes_eq, bytes_eq-true}
use waxwing.Common.Text.{codes}
use waxwing.Cbor.Decode.{cbor_parse, cbor_map_find, is_type, bstr, array, map}
use waxwing.Filestore.{Filestore}
use waxwing.AttestCache.{attest_cache_write}
use waxwing.Commands.{UserFiles, Radio, Device, get_text}
use waxwing.Commands.Attest.{Ingested, with_cache, ingest_loop, cmd_attest_ingest, count_result}
use waxwing.Commands.Dispatch.{
  peer, is_cmd, peer_allowed, run_command, or_internal_error, handle_pairs, commands_handle_session,
}

-- What follows from both branches of a test follows from the test.
if_elim {ℓ κ} :
    {A : Type ℓ} (P : A → Type κ) (b : Bool) {x y : A}
    → (b ≡ true → P x)
    → (b ≡ false → P y)
    → P (if b then x else y)
if_elim P true f g = f refl
if_elim P false f g = g refl

-- A command that peers may not give has another name than a command that they may.
not_peer :
    {C : Type 0} (cmd_name : Bytes) (s : String)
    → peer_allowed (codes s) ≡ false
    → peer_allowed cmd_name ≡ true
    → is_cmd cmd_name s ≡ true
    → C
unfolding is_cmd
not_peer cmd_name s refused ok e =
    absurd (cc (ap peer_allowed (bytes_eq-true cmd_name (codes s) e)))

module _ {fs : Filestore} where
  -- The devices that writes to the attestation cache lead to.
  pub data IngestSteps : Device fs → Device fs → Type 0 where
    done : {dev : Device fs} → IngestSteps dev dev
    write :
        {dev dev' : Device fs} (blob : Bytes)
        → IngestSteps
            (with_cache dev
              (attest_cache_write fs dev.cache dev.disk blob).1.0
              (attest_cache_write fs dev.cache dev.disk blob).0)
            dev'
        → IngestSteps dev dev'

  ingest_loop-steps :
      (i : ℕ) (p : Bytes) (dev : Device fs) (n : Ingested)
      → IngestSteps dev (ingest_loop i p dev n).0
  unfolding ingest_loop
  ingest_loop-steps zero p dev n = done
  ingest_loop-steps (suc i) p dev n = elim (Option-cases (cbor_parse p)) [
    | inl e ↦ rw (ingest_loop, e) done
    | inr (item, e) ↦ elim (Bool-cases (not (is_type item.type bstr) || (item.arg == 0))) [
      | inl f ↦
          rw (ingest_loop, e, f) (ingest_loop-steps i item.next dev (count_result n (negsuc 0)))
      | inr f ↦
          let blob : Bytes = take item.arg item.payload in
          let res = attest_cache_write fs dev.cache dev.disk blob in
          rw (ingest_loop, e, f)
            (write blob (
              ingest_loop-steps i item.next (with_cache dev res.1.0 res.0)
                (count_result n res.1.1)))
    ]
  ]

  cmd_attest_ingest-steps :
      (dev : Device fs) (body : Bytes) (pc out_max : ℕ)
      → IngestSteps dev (cmd_attest_ingest dev body pc out_max).0
  unfolding cmd_attest_ingest
  cmd_attest_ingest-steps dev body pc out_max =
      elim (Option-cases (cbor_map_find body pc (codes "blobs"))) [
        | inl e ↦ rw (cmd_attest_ingest, e) done
        | inr (arr, e) ↦ elim (Bool-cases (is_type arr.type array)) [
          | inr f ↦ rw (cmd_attest_ingest, e, f) done
          | inl f ↦
              let start : Ingested = record { stored = 0; dup = 0; err = 0 } in
              let steps : IngestSteps dev (ingest_loop arr.arg arr.payload dev start).0 =
                ingest_loop-steps arr.arg arr.payload dev start in
              elim (Option-cases (ingest_loop arr.arg arr.payload dev start).1) [
                | inl g ↦ rw (cmd_attest_ingest, e, f, g) steps
                | inr (m, g) ↦ rw (cmd_attest_ingest, e, f, g) steps
              ]
        ]
      ]

  module _ (files : UserFiles fs) (radio : Radio) where
    abbrev Steps : Device fs → Device fs × Option Bytes → Type 0
    Steps dev res = IngestSteps dev res.0

    run_command-Steps :
        (cmd_name : Bytes) (dev : Device fs) (body : Bytes) (pc out_max : ℕ)
        → peer_allowed cmd_name ≡ true
        → Steps dev (run_command files radio cmd_name dev body pc out_max)
    unfolding run_command peer_allowed is_cmd bytes_eq
    run_command-Steps cmd_name dev body pc out_max ok =
        if_elim (Steps dev) (is_cmd cmd_name "ls") (λ _. done)
          (λ _.
            if_elim (Steps dev) (is_cmd cmd_name "storage_info") (λ _. done)
              (λ _.
                if_elim (Steps dev) (is_cmd cmd_name "read") (λ _. done)
                  (λ _.
                    if_elim (Steps dev) (is_cmd cmd_name "write")
                      (λ e. not_peer cmd_name "write" refl ok e)
                      (λ _.
                        if_elim (Steps dev) (is_cmd cmd_name "write_start")
                          (λ e. not_peer cmd_name "write_start" refl ok e)
                          (λ _.
                            if_elim (Steps dev) (is_cmd cmd_name "write_chunk")
                              (λ e. not_peer cmd_name "write_chunk" refl ok e)
                              (λ _.
                                if_elim (Steps dev) (is_cmd cmd_name "write_end")
                                  (λ e. not_peer cmd_name "write_end" refl ok e)
                                  (λ _.
                                    if_elim (Steps dev) (is_cmd cmd_name "read_start") (λ _. done)
                                      (λ _.
                                        if_elim (Steps dev) (is_cmd cmd_name "read_chunk")
                                          (λ _. done)
                                          (λ _.
                                            if_elim (Steps dev) (is_cmd cmd_name "delete")
                                              (λ e. not_peer cmd_name "delete" refl ok e)
                                              (λ _.
                                                if_elim (Steps dev) (is_cmd cmd_name "read_meta")
                                                  (λ _. done)
                                                  (λ _.
                                                    if_elim (Steps dev)
                                                      (is_cmd cmd_name "write_meta")
                                                      (λ e.
                                                        not_peer cmd_name "write_meta" refl ok e)
                                                      (λ _.
                                                        if_elim (Steps dev)
                                                          (is_cmd cmd_name "scan_get") (λ _. done)
                                                          (λ _.
                                                            if_elim (Steps dev)
                                                            (is_cmd cmd_name "encounters_get")
                                                            (λ _. done)
                                                            (λ _.
                                                            if_elim (Steps dev)
                                                            (is_cmd cmd_name "attestation_write")
                                                            (λ e.
                                                            not_peer cmd_name "attestation_write"
                                                            refl ok e)
                                                            (λ _.
                                                            if_elim (Steps dev)
                                                            (is_cmd cmd_name "attest_query")
                                                            (λ _. done)
                                                            (λ _.
                                                            if_elim (Steps dev)
                                                            (is_cmd cmd_name "attest_ingest")
                                                            (λ _.
                                                            cmd_attest_ingest-steps dev body pc
                                                            out_max)
                                                            (λ _. done)))))))))))))))))

    or_internal_error-Steps :
        (out_max : ℕ) (dev : Device fs) (res : Device fs × Option Bytes)
        → Steps dev res
        → Steps dev (or_internal_error files radio out_max res)
    or_internal_error-Steps out_max dev (dev', none) h = h
    or_internal_error-Steps out_max dev (dev', some response) h = h

    handle_pairs-Steps :
        (dev : Device fs) (body : Bytes) (pc out_max : ℕ)
        → Steps dev (handle_pairs files radio peer dev body pc out_max)
    unfolding handle_pairs
    handle_pairs-Steps dev body pc out_max = elim (Option-cases (get_text body pc "cmd" 24)) [
      | inl e ↦ rw (handle_pairs, e) done
      | inr (cmd_name, e) ↦ elim (Bool-cases (peer_allowed cmd_name)) [
        | inr f ↦ rw (handle_pairs, e, f) done
        | inl f ↦
            rw (handle_pairs, e, f)
              (or_internal_error-Steps out_max dev
                (run_command files radio cmd_name dev body pc out_max)
                (run_command-Steps cmd_name dev body pc out_max f))
      ]
    ]

    -- Whatever a peer sends, the device is afterwards as some number of writes to the attestation cache leaves it: user files, the advertised version, the device's own attestations and its captures are untouched, and system blobs change only by those writes.
    pub peer-IngestSteps :
        (dev : Device fs) (cmd_data : Bytes) (out_max : ℕ)
        → IngestSteps dev (commands_handle_session files radio peer dev cmd_data out_max).0
    unfolding commands_handle_session
    peer-IngestSteps dev cmd_data out_max =
        elim (Bool-cases ((length cmd_data == 0) || ltb out_max 32)) [
          | inl e ↦ rw (commands_handle_session, e) done
          | inr e ↦ elim (Option-cases (cbor_parse cmd_data)) [
            | inl f ↦ rw (commands_handle_session, e, f) done
            | inr (root, f) ↦ elim (Bool-cases (is_type root.type map)) [
              | inr g ↦ rw (commands_handle_session, e, f, g) done
              | inl g ↦
                  rw (commands_handle_session, e, f, g)
                    (handle_pairs-Steps dev root.payload root.arg out_max)
            ]
          ]
        ]
