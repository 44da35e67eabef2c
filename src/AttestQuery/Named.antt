-- ===== src/AttestQuery/Named.antt =====
-- The attestations of a store that attest_query.c finds, named by the addresses they hold.
use waxwing.Common.{
  ◌^◌, ◌<◌, ◌≡◌, ◌≢◌, refl, ap, ◌∙◌, List, [], ◌∷◌, ◌++◌, Bool-cases, inl, inr, All, length, take,
  append-nil, subst, true, false, ◌↔◌, Bool, if◌then◌else◌,
}
use waxwing.Common.Bytes.{Bytes}
use waxwing.Cbor.Fields.{Field, map_bytes}
use waxwing.AttestQuery.{attest_match_any_bssid, any_queried}
use waxwing.AttestQuery.Filter.{matching}
use waxwing.AttestQuery.Extract.{
  Shared, bssids_field, any_queried-Shared, attest_match_any_bssid-map_bytes,
}

-- An attestation: a map with the list of addresses under key 4, between other fields.
pub record Attestation : Type 0 where
  pub front : List Field
  pub addresses : List Bytes
  pub few : length addresses < 2 ^ 32
  pub six : All (λ s. length s ≡ 6) addresses
  pub back : List Field
  pub other : All (λ f. f.key ≢ 4) front
  pub count : length (front ++ (bssids_field addresses few six ∷ back)) < 2 ^ 32

abbrev pub blob_of : Attestation → Bytes
blob_of a = map_bytes (a.front ++ (bssids_field a.addresses a.few a.six ∷ a.back))

abbrev pub blobs_of : List Attestation → List Bytes
blobs_of [] = []
blobs_of (a ∷ as') = blob_of a ∷ blobs_of as'

pub Shared-Dec : (bs query : List Bytes) → Dec (Shared bs query)
Shared-Dec bs query = elim (Bool-cases (any_queried query bs)) [
  | inl e ↦ yes ((any_queried-Shared query bs).0 e)
  | inr e ↦ no (λ m. cc (e, (any_queried-Shared query bs).1 m))
]

-- The list with an attestation in front, if it is to be kept.
abbrev pub kept {ℓ} : {P : Type ℓ} → Dec P → Attestation → List Attestation → List Attestation
kept (yes _) a rest = a ∷ rest
kept (no _) a rest = rest

-- Those with one of the queried addresses among their first 8.
unfoldable pub naming : List Bytes → List Attestation → List Attestation
naming query [] = []
naming query (a ∷ as') = kept (Shared-Dec (take 8 a.addresses) query) a (naming query as')

match-blob_of :
    (query : List Bytes) (a : Attestation)
    → (attest_match_any_bssid (blob_of a) query ≡ true) ↔ Shared (take 8 a.addresses) query
match-blob_of query a =
    subst (λ bs. (attest_match_any_bssid bs query ≡ true) ↔ Shared (take 8 a.addresses) query)
      (append-nil (blob_of a))
      (attest_match_any_bssid-map_bytes a.addresses a.few a.six a.front a.back [] query a.other
        a.count)

blobs_of-kept {ℓ} :
    {P : Type ℓ} (b : Bool) (d : Dec P) (a : Attestation) (rest : List Attestation)
    → (b ≡ true) ↔ P
    → (if b then blob_of a ∷ blobs_of rest else blobs_of rest) ≡ blobs_of (kept d a rest)
blobs_of-kept true (yes p) a rest h = refl
blobs_of-kept true (no np) a rest h = absurd (np (h.0 refl))
blobs_of-kept false (yes p) a rest h = cc (h.1 p)
blobs_of-kept false (no np) a rest h = refl

pub matching-blobs_of :
    (query : List Bytes) (as' : List Attestation)
    → matching query (blobs_of as') ≡ blobs_of (naming query as')
unfolding matching naming
matching-blobs_of query [] = refl
matching-blobs_of query (a ∷ as') =
    ap (λ xs. if attest_match_any_bssid (blob_of a) query then blob_of a ∷ xs else xs)
      (matching-blobs_of query as')
    ∙ blobs_of-kept (attest_match_any_bssid (blob_of a) query)
        (Shared-Dec (take 8 a.addresses) query) a (naming query as') (match-blob_of query a)
