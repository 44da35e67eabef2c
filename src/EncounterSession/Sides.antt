-- ===== src/EncounterSession/Sides.antt =====
-- The two sides of the record of encounter_session.c: whose values stand where, and what a decoded
-- message and the callback leave as they are.
use waxwing.Common.{◌≡◌, refl, true, Option, none, some, >>=-eq-some, guard-some}
use waxwing.Common.{ap, sym}
use mathlib.Core.Option.{some-injective}
use waxwing.Common.Bytes.{Bytes}
use waxwing.Cbor.Decode.{cbor_parse}
use waxwing.EncounterRecord.{EncounterRecord}
use waxwing.EncounterRecord.{encounter_record_version}
use waxwing.EncounterSession.{Session, Role, initiator, responder}
use waxwing.EncounterSession.{late_bound, refreshed}
use waxwing.EncounterSession.Message.{
  LocalInput, PerPeerInput, Half, local_half, b_half, prefix_matches_or_zero, is_uint,
}
use waxwing.EncounterSession.Message.{decode_half_message, msg_accept}
use waxwing.EncounterSession.Message.{find_int_key, decode_half, decode_sig}

-- The A side of the record.
abbrev pub a_half : EncounterRecord → Half
a_half rec = record {
  pub_key = rec.pub_a;
  meeting_count = rec.meeting_count_a;
  rep_of_peer = rec.rep_of_b_by_a;
  bssids = rec.bssids_a;
  nonce = rec.nonce_a;
  tx_lifetime = rec.tx_bytes_a_to_b_lifetime;
  rx_lifetime = rec.rx_bytes_a_from_b_lifetime;
  file_lifetime = rec.file_count_a_from_b_lifetime;
}

abbrev pub own_half : Role → EncounterRecord → Half
own_half initiator rec = a_half rec
own_half responder rec = b_half rec

abbrev pub peer_key : Role → EncounterRecord → Bytes
peer_key initiator rec = rec.pub_b
peer_key responder rec = rec.pub_a

-- The side's own values stand in the record, and the peer's key is the one that was asked for.
pub record IsOurs (s : Session) (rec : EncounterRecord) : Type 0 where
  pub own : own_half s.role rec ≡ local_half s.me
  pub peer : prefix_matches_or_zero s.me.expected_peer_prefix (peer_key s.role rec) ≡ true

-- A successful decode of one side leaves the other side as it was.
pub a_half-decode_half_message :
    (in_buf : Bytes) (rec rec' : EncounterRecord)
    → decode_half_message in_buf msg_accept true rec ≡ some rec'
    → a_half rec' ≡ a_half rec
unfolding decode_half_message
a_half-decode_half_message in_buf rec rec' e =
    let (root, e₁, e₂) = >>=-eq-some (cbor_parse in_buf) _ e in
    let (type_item, e₃, e₄) = >>=-eq-some (find_int_key root 1) _ e₂ in
    let (t, e₅) = guard-some (is_uint type_item msg_accept) e₄ in
    let (version_item, e₆, e₇) = >>=-eq-some (find_int_key root 2) _ e₅ in
    let (v, e₈) = guard-some (is_uint version_item encounter_record_version) e₇ in
    let (h, e₉, e₁₀) = >>=-eq-some (decode_half root) _ e₈ in
    let (sig, e₁₁, e₁₂) = >>=-eq-some (decode_sig root) _ e₁₀ in
    sym (ap a_half (some-injective _ _ e₁₂))

pub initiator-IsOurs :
    (s : Session) (rec : EncounterRecord)
    → s.role ≡ initiator
    → a_half rec ≡ local_half s.me
    → prefix_matches_or_zero s.me.expected_peer_prefix rec.pub_b ≡ true
    → IsOurs s rec
initiator-IsOurs s rec i h k = record { own = rw i h; peer = rw i k }

pub responder-IsOurs :
    (s : Session) (rec : EncounterRecord)
    → s.role ≡ responder
    → b_half rec ≡ local_half s.me
    → prefix_matches_or_zero s.me.expected_peer_prefix rec.pub_a ≡ true
    → IsOurs s rec
responder-IsOurs s rec i h k = record { own = rw i h; peer = rw i k }

-- The callback changes neither the keys nor the prefix nor the addresses.
pub record Keeps (me me' : LocalInput) : Type 0 where
  pub seed : me'.seed ≡ me.seed
  pub pub_key : me'.pub_key ≡ me.pub_key
  pub prefix : me'.expected_peer_prefix ≡ me.expected_peer_prefix
  pub bssids : me'.bssids ≡ me.bssids

refreshed-Keeps : (me : LocalInput) (pp : Option PerPeerInput) → Keeps me (refreshed me pp)
refreshed-Keeps me none = record { seed = refl; pub_key = refl; prefix = refl; bssids = refl }
refreshed-Keeps me (some pp) = record { seed = refl; pub_key = refl; prefix = refl; bssids = refl }

pub late_bound-Keeps : (me : LocalInput) (peer_pub : Bytes) → Keeps me (late_bound me peer_pub)
unfolding late_bound
late_bound-Keeps me peer_pub = refreshed-Keeps me _
