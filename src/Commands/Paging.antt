-- ===== src/Commands/Paging.antt =====
-- firmware/core/commands.c: the page of attestations that answers a query.
use waxwing.Common.{ℕ, ◌≤◌, ◌<◌, ◌≡◌, refl, ap, sym, ◌∙◌, arith, List, [], ◌∷◌, ◌++◌}
use waxwing.Common.{length, Bool-cases, inl, inr, append-nil}
use waxwing.Common.Bytes.{Bytes}
use waxwing.Common.{length-append, All}
use waxwing.Cbor.Encode.{encode_header, cborencode_text_str}
use waxwing.Filestore.{Filestore}
use waxwing.BlobRing.Contents.{contents, live_slots}
use waxwing.BlobRing.{Ring}
use waxwing.Common.{subst}
use waxwing.BlobRing.Restart.{IsStored}
use waxwing.Attestations.{attestations_config}
use waxwing.AttestCache.{attest_cache_config}
use waxwing.AttestQuery.Filter.{matching, attest_query_for_each-matching}
use waxwing.Commands.{text, Radio, Device, budget_behind, response_budget}
use waxwing.Commands.Attest.{answer_query, attq_count_cb, attq_emit_cb}
use waxwing.BlobRing.Walk.{walk}
use waxwing.Commands.Pages.{page_walk}
use waxwing.BlobRing.Contents.{records-max, length-contents_le}
use waxwing.Common.{ap₂}
use waxwing.AttestQuery.{attest_match_any_bssid}
use waxwing.AttestQuery.Named.{Attestation, blobs_of, naming, matching-blobs_of}
use waxwing.Commands.Fitting.{AreShort, count_cb, page_of, page_response-passes}
use waxwing.Commands.Envelope.{Fits, page_of-Fits}

pub AreShort-of :
    (max : ℕ) (xs : List Bytes) → max < 65536 → All (λ x. length x ≤ max) xs → AreShort xs
AreShort-of max [] h all = tt
AreShort-of max (x ∷ xs) h (le, all) = (omega arith, AreShort-of max xs h all)

matching-AreShort :
    (query xs ys : List Bytes) → AreShort xs → AreShort ys → AreShort (matching query xs ++ ys)
unfolding matching
matching-AreShort query [] ys h k = k
matching-AreShort query (x ∷ xs) ys (short, h) k =
    elim (Bool-cases (attest_match_any_bssid x query)) [
      | inl e ↦ rw (matching, e) (short, matching-AreShort query xs ys h k)
      | inr e ↦ rw (matching, e) (matching-AreShort query xs ys h k)
    ]

length-matching_le : (query xs : List Bytes) → length (matching query xs) ≤ length xs
unfolding matching
length-matching_le query [] = omega arith
length-matching_le query (x ∷ xs) = ground (arith, length-matching_le query xs)

module _ (own cache : Ring) (wo : IsStored attestations_config own)
    (wc : IsStored attest_cache_config cache) (query : List Bytes) where
  -- The records of both stores that the match test accepts, the device's own first.
  abbrev pub both_matching : List Bytes
  both_matching =
      matching query (contents attestations_config own)
      ++ matching query (contents attest_cache_config cache)

  both_matching-AreShort : AreShort both_matching
  unfolding contents
  both_matching-AreShort =
      let own_short =
        AreShort-of 198 (contents attestations_config own) (omega arith)
          (records-max attestations_config (live_slots attestations_config own)) in
      let cache_short =
        AreShort-of 198 (contents attest_cache_config cache) (omega arith)
          (records-max attest_cache_config (live_slots attest_cache_config cache)) in
      matching-AreShort query (contents attestations_config own)
        (matching query (contents attest_cache_config cache)) own_short
        (subst AreShort (append-nil (matching query (contents attest_cache_config cache)))
          (matching-AreShort query (contents attest_cache_config cache) [] cache_short tt))

  length-both_matching : length both_matching ≤ 128
  length-both_matching = omega (
    arith,
    length-append (matching query (contents attestations_config own))
        (matching query (contents attest_cache_config cache)),
    length-matching_le query (contents attestations_config own),
    length-matching_le query (contents attest_cache_config cache),
    length-contents_le attestations_config own wo.filled.ring,
    length-contents_le attest_cache_config cache wc.filled.ring,
  )

length-blobs_key : length (text "blobs") ≡ 6
unfolding cborencode_text_str encode_header
length-blobs_key = refl

answer_query-matching :
    {fs : Filestore} (radio : Radio) (dev : Device fs) (query : List Bytes) (offset out_max : ℕ)
    → IsStored attestations_config dev.own
    → IsStored attest_cache_config dev.cache
    → (answer_query radio dev query offset out_max
        ≡ page_of "blobs" (budget_behind 32 (response_budget radio out_max)) offset (
            matching query (contents attestations_config dev.own)
            ++ matching query (contents attest_cache_config dev.cache)))
      × Fits (answer_query radio dev query offset out_max) (response_budget radio out_max)
unfolding answer_query attq_count_cb attq_emit_cb
answer_query-matching radio dev query offset out_max wo wc =
    let room : ℕ = response_budget radio out_max in
    let budget : ℕ = budget_behind 32 room in
    let all : List Bytes =
      matching query (contents attestations_config dev.own)
      ++ matching query (contents attest_cache_config dev.cache) in
    let page : answer_query radio dev query offset out_max ≡ page_of "blobs" budget offset all =
      rw
        (
          attest_query_for_each-matching query (attq_count_cb budget) dev.own dev.cache
              (page_walk offset 0) wo wc,
          attest_query_for_each-matching query attq_emit_cb dev.own dev.cache
              (page_walk offset (walk (count_cb budget) all (page_walk offset 0) 0).0.to_emit) wo
              wc,
        )
        (page_response-passes "blobs" budget offset all
          (both_matching-AreShort dev.own dev.cache wo wc query)) in
    (
      page,
      subst (λ a. Fits a room) (sym page)
          (page_of-Fits "blobs" room offset all (omega (arith, length-blobs_key))
            (omega (arith, length-both_matching dev.own dev.cache wo wc query))),
    )

-- If both stores are well formed and hold encoded attestations, the answer to a query of at least one
-- address is the page of those, the device's own first, that have one of the queried addresses among
-- their first 8, behind the first `offset` of them: the leading ones whose byte strings together fit the
-- room less 32 bytes, announced by their number, and the offset of the next page exactly if one is left.
-- The answer is within the room for a response, unless that is less than 32 bytes.
pub answer_query-page :
    {fs : Filestore} (radio : Radio) (dev : Device fs) (query : List Bytes) (offset out_max : ℕ)
    (own cache : List Attestation)
    → IsStored attestations_config dev.own
    → IsStored attest_cache_config dev.cache
    → contents attestations_config dev.own ≡ blobs_of own
    → contents attest_cache_config dev.cache ≡ blobs_of cache
    → (answer_query radio dev query offset out_max
        ≡ page_of "blobs"
            (budget_behind 32 (response_budget radio out_max))
            offset
            (blobs_of (naming query own) ++ blobs_of (naming query cache)))
      × Fits (answer_query radio dev query offset out_max) (response_budget radio out_max)
answer_query-page radio dev query offset out_max own cache wo wc held_own held_cache =
    let (page, fits) = answer_query-matching radio dev query offset out_max wo wc in
    (
      page
          ∙ ap₂
              (λ xs ys.
                page_of "blobs" (budget_behind 32 (response_budget radio out_max)) offset
                  (xs ++ ys))
              (ap (matching query) held_own ∙ matching-blobs_of query own)
              (ap (matching query) held_cache ∙ matching-blobs_of query cache),
      fits,
    )
