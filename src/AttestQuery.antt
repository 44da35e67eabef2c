-- ===== src/AttestQuery.antt =====
-- firmware/core/attest_query.h and firmware/core/attest_query.c: the attestations that name one of
-- the queried access points.
pub mod Filter
pub mod Extract
pub mod Named
mod Tests
use waxwing.Common.{ℕ, zero, suc, ◌+◌, ◌-◌, List, [], ◌∷◌, Bool, true, false, not, ◌&&◌, ◌||◌, ◌==◌}
use waxwing.Common.{Option, none, some, if◌then◌else◌, length, take}
use waxwing.Common.Bytes.{Bytes, bytes_eq}
use waxwing.Cbor.Decode.{CborItem, cbor_parse, parse_pair, is_type, uint, bstr, array, map}
use waxwing.BlobRing.{Ring}
use waxwing.Attestations.{attestations_for_each}
use waxwing.AttestCache.{attest_cache_for_each}

abbrev pub bssid_key : ℕ
bssid_key = 4

abbrev pub bssid_bytes : ℕ
bssid_bytes = 6

abbrev pub max_extracted : ℕ
max_extracted = 8

-- The loop over the array, with room for `room` more addresses; `j` entries are left.
unfoldable pub extract_items : ℕ → Bytes → ℕ → Option (List Bytes)
extract_items zero ap room = some []
extract_items (suc j) ap room = elim (cbor_parse ap) [
  | none ↦ none
  | some it ↦ elim (is_type it.type bstr && (it.arg == bssid_bytes)) [
    | false ↦ extract_items j it.next room
    | true ↦ elim room [
      | zero ↦ some []
      | suc room' ↦ elim (extract_items j it.next room') [
        | none ↦ none
        | some rest ↦ some (take bssid_bytes it.payload ∷ rest)
      ]
    ]
  ]
]

-- The loop over the pairs of the map, of which `i` are left.
unfoldable pub extract_loop : ℕ → Bytes → ℕ → Option (List Bytes)
extract_loop zero p max = none
extract_loop (suc i) p max = elim (parse_pair p) [
  | none ↦ none
  | some (key, val) ↦ elim (is_type key.type uint && (key.arg == bssid_key)) [
    | false ↦ extract_loop i val.next max
    | true ↦ if not (is_type val.type array) then none else extract_items val.arg val.payload max
  ]
]

-- The addresses written to `out_bssids`; `none` is the C `return false`.
unfoldable pub attest_extract_bssids : Bytes → ℕ → Option (List Bytes)
attest_extract_bssids blob max =
    if (length blob == 0) || (max == 0) then none else elim (cbor_parse blob) [
      | none ↦ none
      | some root ↦ if is_type root.type map then extract_loop root.arg root.payload max else none
    ]

unfoldable pub query_has : List Bytes → Bytes → Bool
query_has [] bssid = false
query_has (q ∷ qs) bssid = if bytes_eq bssid q then true else query_has qs bssid

unfoldable pub any_queried : List Bytes → List Bytes → Bool
any_queried query [] = false
any_queried query (b ∷ bs) = if query_has query b then true else any_queried query bs

unfoldable pub attest_match_any_bssid : Bytes → List Bytes → Bool
attest_match_any_bssid blob query =
    if length query == 0 then false else elim (attest_extract_bssids blob max_extracted) [
      | none ↦ false
      | some bssids ↦ any_queried query bssids
    ]

-- `walk_t`, with the state of the user's callback.
pub record Walk {ℓ} (S : Type ℓ) : Type ℓ where
  pub user_ctx : S
  pub matches : ℕ
  pub stopped : Bool

module _ {ℓ} {S : Type ℓ} (query : List Bytes) (cb : S → Bytes → S × Bool) where
  -- What the user's callback left, counted.
  abbrev pub called : ℕ → S × Bool → Walk S × Bool
  called n (s, stop) = (record { user_ctx = s; matches = n + 1; stopped = stop }, stop)

  unfoldable pub walk_cb : Walk S → Bytes → Walk S × Bool
  walk_cb w blob =
      if w.stopped
      then (w, true)
      else if not (attest_match_any_bssid blob query)
      then (w, false)
      else called w.matches (cb w.user_ctx blob)

  unfoldable pub attest_query_for_each : Ring → Ring → S → S × ℕ
  attest_query_for_each own cache s =
      if length query == 0
      then (s, 0)
      else let w =
          (attestations_for_each walk_cb own
            (record { user_ctx = s; matches = 0; stopped = false })).0 in
        let w' = if w.stopped then w else (attest_cache_for_each walk_cb cache w).0 in
        (w'.user_ctx, w'.matches)
