-- ===== src/EncounterSession.antt =====
-- firmware/core/encounter_session.h and firmware/core/encounter_session.c: the three-message
-- encounter handshake. `Message` has the wire format, this file the state machine. A call returns
-- the new session, the step and the bytes put into `out_buf`. Where a handler fails the code leaves
-- whatever it had filled in so far in a session that no call reads again; the model leaves the
-- record and the inputs as they were. NULL pointers are not modelled.
pub mod Message
pub mod Sides
pub mod Sound
pub mod RoundTrip
pub mod Size
pub mod Complete
mod Tests
use waxwing.Common.{
  ℕ, List, [], ◌∷◌, ◌++◌, leb, ltb, Bool, true, false, Option, none, some, ◌>>=◌, ◌>>◌,
}
use waxwing.Common.{guard, if◌then◌else◌, length, ◌&&◌, ◌||◌, not, ◌==◌}
use waxwing.Common.Bytes.{Bytes}
use waxwing.HalCrypto.{HalCrypto}
use waxwing.EncounterRecord.{EncounterRecord, zero_record, encounter_record_encode_body}
use waxwing.EncounterRecord.{
  encounter_body_max_bytes, encounter_record_version, encounter_bssid_max,
}
use Message.{
  PerPeerInput, LocalInput, msg_accept, msg_propose, fill_local_half, decode_half_message,
}
use Message.{prefix_matches_or_zero, encode_propose, encode_accept, encode_confirm, decode_confirm}
use Message.{encounter_msg_max_bytes}

-- `encounter_role_t`
pub data Role : Type 0 where
  initiator responder : Role

-- `encounter_step_t`
pub data SessionStep : Type 0 where
  need_write need_read done error : SessionStep

-- The private states, `ST_INIT` to `ST_ERROR`.
pub data SessionState : Type 0 where
  st_init st_i_await_accept st_r_await_confirm st_done st_error : SessionState

-- `encounter_session_t`; `body_buf` is scratch space that no call reads before it writes it.
pub record Session : Type 0 where
  pub role : Role
  pub state : SessionState
  pub me : LocalInput
  pub rec : EncounterRecord

pub record Reply : Type 0 where
  pub session : Session
  pub step : SessionStep
  pub out : Bytes

-- `s->state = ST_ERROR; *out_len = 0; return ENCOUNTER_STEP_ERROR;`
abbrev pub fail : Session → Reply
fail s = record { session = record s { state = st_error }; step = error; out = [] }

-- A handler's result, or the failure of the session `s`.
abbrev pub or_fail : Session → Option Reply → Reply
or_fail s none = fail s
or_fail s (some r) = r

unfoldable pub inputs_valid : LocalInput → Bool
inputs_valid me = leb (length me.bssids) encounter_bssid_max

-- The session after `memset`, with the role, the inputs and the version filled in.
abbrev pub fresh_session : Role → LocalInput → Session
fresh_session role me = record {
  role = role;
  state = st_init;
  me = me;
  rec = record zero_record { version = encounter_record_version };
}

unfoldable pub start_initiator : Session → ℕ → Option Reply
start_initiator s out_max = do
  out ← encode_propose s.me out_max
  some (record {
    session = record s { rec = fill_local_half s.rec s.me false; state = st_i_await_accept };
    step = need_write;
    out = out;
  })

-- `if (role == ENCOUNTER_ROLE_INITIATOR) { … }`, on the session that is filled in.
abbrev pub start_as : Role → LocalInput → ℕ → Reply
start_as initiator me out_max =
    or_fail (fresh_session initiator me) (start_initiator (fresh_session initiator me) out_max)
start_as responder me out_max = record {
  session = fresh_session responder me;
  step = need_read;
  out = [];
}

-- The guards fail before the session is touched but for its state, which is `s`.
unfoldable pub encounter_session_start : Session → Role → LocalInput → ℕ → Reply
encounter_session_start s role me out_max =
    if not (inputs_valid me) || ltb out_max encounter_msg_max_bytes
    then fail s
    else start_as role me out_max

-- The four fields that the callback may refresh.
abbrev pub refreshed : LocalInput → Option PerPeerInput → LocalInput
refreshed me none = me
refreshed me (some pp) = record me {
  rep_of_peer = pp.rep_of_peer;
  tx_bytes_to_peer_lifetime = pp.tx_bytes_to_peer_lifetime;
  rx_bytes_from_peer_lifetime = pp.rx_bytes_from_peer_lifetime;
  file_count_from_peer_lifetime = pp.file_count_from_peer_lifetime;
}

-- The callback runs once the peer's key is known.
unfoldable pub late_bound : LocalInput → Bytes → LocalInput
late_bound me peer_pub = refreshed me (me.late_bind >>= λ bind. bind peer_pub)

module _ (c : HalCrypto) where
  open c use {hal_ed25519_sign, hal_ed25519_verify}

  unfoldable pub handle_initiator_accept : Session → Bytes → ℕ → Option Reply
  handle_initiator_accept s in_buf out_max = do
    rec ← decode_half_message in_buf msg_accept true s.rec
    guard (prefix_matches_or_zero s.me.expected_peer_prefix rec.pub_b)
    body ← encounter_record_encode_body rec encounter_body_max_bytes
    guard (hal_ed25519_verify rec.pub_b body rec.sig_b)
    sig ← hal_ed25519_sign s.me.seed body
    out ← encode_confirm sig out_max
    some (record {
      session = record s { rec = record rec { sig_a = sig }; state = st_done };
      step = need_write;
      out = out;
    })

  unfoldable pub handle_responder_propose : Session → Bytes → ℕ → Option Reply
  handle_responder_propose s in_buf out_max = do
    peer ← decode_half_message in_buf msg_propose false s.rec
    guard (prefix_matches_or_zero s.me.expected_peer_prefix peer.pub_a)
    let me' = late_bound s.me peer.pub_a
    let rec = fill_local_half peer me' true
    body ← encounter_record_encode_body rec encounter_body_max_bytes
    sig ← hal_ed25519_sign me'.seed body
    out ← encode_accept (record rec { sig_b = sig }) out_max
    some (record {
      session = record s { me = me'; rec = record rec { sig_b = sig }; state = st_r_await_confirm };
      step = need_write;
      out = out;
    })

  unfoldable pub handle_responder_confirm : Session → Bytes → Option Reply
  handle_responder_confirm s in_buf = do
    sig ← decode_confirm in_buf
    let rec = record s.rec { sig_a = sig }
    body ← encounter_record_encode_body rec encounter_body_max_bytes
    guard (hal_ed25519_verify rec.pub_a body rec.sig_a)
    some (record { session = record s { rec = rec; state = st_done }; step = done; out = [] })

  -- Which handler the role and the state select; any other pair is an error.
  abbrev pub handle_in : Role → SessionState → Session → Bytes → ℕ → Reply
  handle_in initiator st_i_await_accept s in_buf out_max =
      or_fail s (handle_initiator_accept s in_buf out_max)
  handle_in responder st_init s in_buf out_max =
      or_fail s (handle_responder_propose s in_buf out_max)
  handle_in responder st_r_await_confirm s in_buf out_max =
      or_fail s (handle_responder_confirm s in_buf)
  handle_in _ _ s in_buf out_max = fail s

  unfoldable pub encounter_session_handle : Session → Bytes → ℕ → Reply
  encounter_session_handle s in_buf out_max =
      if ltb out_max encounter_msg_max_bytes
      then fail s
      else handle_in s.role s.state s in_buf out_max

abbrev pub is_done : SessionState → Bool
is_done st_done = true
is_done _ = false

unfoldable pub encounter_session_take_record : Session → Option EncounterRecord
encounter_session_take_record s = if is_done s.state then some s.rec else none
