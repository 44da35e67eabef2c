-- ===== src/Commands/Attest.antt =====
-- firmware/core/commands.c: the commands on attestations.
use waxwing.Common.{
  ℕ, zero, suc, ◌+◌, ◌%◌, ◌^◌, List, [], ◌∷◌, ◌++◌, ◌==◌, Bool, true, false, not, ◌&&◌, ◌||◌,
}
use waxwing.Common.{Option, none, some, if◌then◌else◌, length, take}
use waxwing.Common.Int.{ℤ, pos, negsuc}
use waxwing.Common.Bytes.{Bytes}
use waxwing.Common.Text.{codes}
use waxwing.Cbor.Encode.{cborencode_map_header, cborencode_uint, cborencode_bool}
use waxwing.Cbor.Decode.{cbor_parse, cbor_map_find, cbor_map_get_bytes, is_type, bstr, array}
use waxwing.Filestore.{Filestore}
use waxwing.BlobRing.{Ring}
use waxwing.Attestations.{attestations_write}
use waxwing.AttestCache.{attest_cache_write}
use waxwing.AttestQuery.{attest_query_for_each}
use waxwing.Commands.{
  Radio, Device, text, emit_error, emit_ok, get_uint_or, response_budget, budget_behind,
}
use waxwing.Commands.Pages.{PageWalk, page_walk, count_record, emit_record, page_response}

abbrev pub attest_query_max_bssids : ℕ
attest_query_max_bssids = 12

unfoldable pub attq_count_cb : ℕ → PageWalk → Bytes → PageWalk × Bool
attq_count_cb budget w blob = count_record budget w (length blob)

unfoldable pub attq_emit_cb : PageWalk → Bytes → PageWalk × Bool
attq_emit_cb w blob = emit_record w blob

-- The loop over the queried addresses: `i` items are left at `p`, and there is room for `room` more.
unfoldable pub query_bssids : ℕ → Bytes → ℕ → Option (List Bytes)
query_bssids zero p room = some []
query_bssids (suc i) p zero = some []
query_bssids (suc i) p (suc room) = elim (cbor_parse p) [
  | none ↦ none
  | some item ↦ elim (is_type item.type bstr && (item.arg == 6)) [
    | false ↦ query_bssids i item.next (suc room)
    | true ↦ elim (query_bssids i item.next room) [
      | none ↦ none
      | some rest ↦ some (take 6 item.payload ∷ rest)
    ]
  ]
]

-- The three counters of `cmd_attest_ingest`.
pub record Ingested : Type 0 where
  pub stored : ℕ
  pub dup : ℕ
  pub err : ℕ

unfoldable pub count_result : Ingested → ℤ → Ingested
count_result n (pos zero) = record n { dup = (n.dup + 1) % 2 ^ 32 }
count_result n (pos (suc zero)) = record n { stored = (n.stored + 1) % 2 ^ 32 }
count_result n (pos (suc (suc rc))) = record n { err = (n.err + 1) % 2 ^ 32 }
count_result n (negsuc rc) = record n { err = (n.err + 1) % 2 ^ 32 }

unfoldable pub ingest_response : Ingested → Bytes
ingest_response n =
    cborencode_map_header 4
    ++ (text "ok"
        ++ (cborencode_bool true
            ++ (text "stored"
                ++ (cborencode_uint n.stored
                    ++ (text "dup"
                        ++ (cborencode_uint n.dup ++ (text "err" ++ cborencode_uint n.err)))))))

module _ {fs : Filestore} where
  -- A device after a write to its cache.
  abbrev pub with_cache : Device fs → fs.Disk → Ring → Device fs
  with_cache dev disk cache = record dev { disk = disk; cache = cache }

  -- The loop over the blobs, of which `i` are left at `p`: the device, and the counters or `none`
  -- where an item cannot be parsed.
  unfoldable pub ingest_loop : ℕ → Bytes → Device fs → Ingested → Device fs × Option Ingested
  ingest_loop zero p dev n = (dev, some n)
  ingest_loop (suc i) p dev n = elim (cbor_parse p) [
    | none ↦ (dev, none)
    | some item ↦ elim (not (is_type item.type bstr) || (item.arg == 0)) [
      | true ↦ ingest_loop i item.next dev (count_result n (negsuc 0))
      | false ↦
          let (cache, (disk, rc)) =
            attest_cache_write fs dev.cache dev.disk (take item.arg item.payload) in
          ingest_loop i item.next (with_cache dev disk cache) (count_result n rc)
    ]
  ]

  unfoldable pub cmd_attestation_write : Device fs → Bytes → ℕ → ℕ → Device fs × Option Bytes
  cmd_attestation_write dev body pc out_max = elim (cbor_map_get_bytes body pc (codes "blob")) [
    | none ↦ (dev, emit_error out_max "missing blob")
    | some blob ↦
        if length blob == 0
        then (dev, emit_error out_max "missing blob")
        else let (own, (disk, rc)) = attestations_write fs dev.own dev.disk blob in
          let dev' : Device fs = record dev { disk = disk; own = own } in
          (
            dev',
            elim rc [
              | pos zero ↦ emit_ok out_max
              | _ ↦ emit_error out_max "attestation_write failed"
            ],
          )
  ]

  unfoldable pub cmd_attest_ingest : Device fs → Bytes → ℕ → ℕ → Device fs × Option Bytes
  cmd_attest_ingest dev body pc out_max = elim (cbor_map_find body pc (codes "blobs")) [
    | none ↦ (dev, emit_error out_max "missing blobs")
    | some arr ↦
        if not (is_type arr.type array)
        then (dev, emit_error out_max "missing blobs")
        else let (dev', counted) =
            ingest_loop arr.arg arr.payload dev (record { stored = 0; dup = 0; err = 0 }) in
          elim counted [
            | none ↦ (dev', emit_error out_max "bad blobs array")
            | some n ↦ (dev', some (ingest_response n))
          ]
  ]

  module _ (radio : Radio) where
    -- The answer to a query of at least one address.
    unfoldable pub answer_query : Device fs → List Bytes → ℕ → ℕ → Bytes
    answer_query dev query offset out_max =
        let rec_budget : ℕ = budget_behind 32 (response_budget radio out_max) in
        let counted =
          (attest_query_for_each query (attq_count_cb rec_budget) dev.own dev.cache
            (page_walk offset 0)).0 in
        let emitted =
          (attest_query_for_each query attq_emit_cb dev.own dev.cache
            (page_walk offset counted.to_emit)).0 in
        page_response "blobs" offset counted emitted

    unfoldable pub cmd_attest_query : Device fs → Bytes → ℕ → ℕ → Option Bytes
    cmd_attest_query dev body pc out_max = elim (cbor_map_find body pc (codes "bssids")) [
      | none ↦ emit_error out_max "missing bssids"
      | some arr ↦
          if not (is_type arr.type array)
          then emit_error out_max "missing bssids"
          else elim (query_bssids arr.arg arr.payload attest_query_max_bssids) [
            | none ↦ emit_error out_max "bad bssid array"
            | some [] ↦ emit_error out_max "no valid bssids"
            | some query ↦
                some (answer_query dev query (get_uint_or body pc "offset" 0 % 2 ^ 32) out_max)
          ]
    ]
