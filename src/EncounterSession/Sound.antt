-- ===== src/EncounterSession/Sound.antt =====
-- What a finished handshake of encounter_session.c guarantees, whatever the peer sends.
use waxwing.Common.{ℕ, ◌≡◌, refl, true, false, Option, none, some, >>=-eq-some, guard-some, ltb}
use waxwing.Common.{if◌then◌else◌, Bool-cases, inl, inr, subst, ap, sym, ◌∙◌, ◌==◌, not, ◌||◌}
use mathlib.Core.Option.{some-injective}
use waxwing.Common.Bytes.{Bytes}
use waxwing.HalCrypto.{HalCrypto, IsCorrect}
use waxwing.EncounterRecord.{EncounterRecord, encounter_record_encode_body, encounter_record_verify}
use waxwing.EncounterRecord.{encode_record, encounter_record_version, record_bytes}
use waxwing.EncounterSession.{Session, SessionState, Role, Reply, initiator, responder, st_init}
use waxwing.EncounterSession.{
  st_i_await_accept, st_r_await_confirm, st_done, st_error, or_fail, start_as,
}
use waxwing.EncounterSession.{encounter_session_start, encounter_session_handle, start_initiator}
use waxwing.EncounterSession.{
  handle_initiator_accept, handle_responder_propose, handle_responder_confirm,
}
use waxwing.EncounterSession.{
  encounter_session_take_record, late_bound, handle_in, fresh_session, is_done,
}
use waxwing.EncounterSession.{inputs_valid}
use waxwing.EncounterSession.Message.{LocalInput, local_half, prefix_matches_or_zero}
use waxwing.EncounterSession.Message.{
  decode_half_message, msg_accept, msg_propose, write_half, encode_confirm,
}
use waxwing.EncounterSession.Message.{
  fill_local_half, encode_propose, encode_accept, decode_confirm,
}
use waxwing.EncounterSession.Message.{encounter_msg_max_bytes}
use waxwing.EncounterSession.Sides.{a_half, own_half, peer_key, IsOurs, a_half-decode_half_message}
use waxwing.EncounterSession.Sides.{initiator-IsOurs, responder-IsOurs, Keeps, late_bound-Keeps}

module _ (c : HalCrypto) where
  open c use {hal_ed25519_derive_pub, hal_ed25519_sign, hal_ed25519_verify}

  -- The caller's key belongs to its seed.
  abbrev pub IsKeyPair : LocalInput → Type 0
  IsKeyPair me = hal_ed25519_derive_pub me.seed ≡ some me.pub_key

  -- The sessions that calls can lead to, the peer's bytes being arbitrary.
  pub data Reaches : Session → Type 0 where
    started :
        (s : Session) (role : Role) (me : LocalInput) (out_max : ℕ)
        → IsKeyPair me
        → Reaches (encounter_session_start s role me out_max).session
    handled :
        (s : Session) (in_buf : Bytes) (out_max : ℕ)
        → Reaches s
        → Reaches (encounter_session_handle c s in_buf out_max).session

  abbrev BSigned : EncounterRecord → Type 0
  BSigned rec =
      (body : Bytes) × (encounter_record_encode_body rec 384 ≡ some body)
      × (hal_ed25519_verify rec.pub_b body rec.sig_b ≡ true)

  abbrev AwaitAccept : Role → Session → Type 0
  AwaitAccept initiator s = IsKeyPair s.me × (a_half s.rec ≡ local_half s.me)
  AwaitAccept responder s = Unit {0}

  abbrev InvAt : SessionState → Session → Type 0
  InvAt st_init s = IsKeyPair s.me
  InvAt st_i_await_accept s = AwaitAccept s.role s
  InvAt st_r_await_confirm s = BSigned s.rec × IsOurs s s.rec
  InvAt st_done s = (encounter_record_verify c s.rec ≡ true) × IsOurs s s.rec
  InvAt st_error s = Unit {0}

  abbrev Inv : Session → Type 0
  Inv s = InvAt s.state s

  start_initiator-Inv :
      (s : Session) (out_max : ℕ) (r : Reply)
      → s.role ≡ initiator
      → IsKeyPair s.me
      → start_initiator s out_max ≡ some r
      → Inv r.session
  unfolding start_initiator fill_local_half
  start_initiator-Inv s out_max r i k e =
      let (out, e₁, e₂) = >>=-eq-some (encode_propose s.me out_max) _ e in
      let s' = record s { rec = fill_local_half s.rec s.me false; state = st_i_await_accept } in
      subst (λ r. Inv r.session) (some-injective _ _ e₂)
        (subst (λ role. AwaitAccept role s') (sym i) (k, refl))

  or_fail-Inv :
      (s : Session) (m : Option Reply)
      → ((r : Reply) → m ≡ some r → Inv r.session)
      → Inv (or_fail s m).session
  or_fail-Inv s none h = tt
  or_fail-Inv s (some r) h = h r refl

  start_as-Inv :
      (role : Role) (me : LocalInput) (out_max : ℕ)
      → IsKeyPair me
      → Inv (start_as role me out_max).session
  start_as-Inv initiator me out_max k =
      or_fail-Inv (fresh_session initiator me) _
        (λ r e. start_initiator-Inv (fresh_session initiator me) out_max r refl k e)
  start_as-Inv responder me out_max k = k

  start-Inv :
      (s : Session) (role : Role) (me : LocalInput) (out_max : ℕ)
      → IsKeyPair me
      → Inv (encounter_session_start s role me out_max).session
  unfolding encounter_session_start
  start-Inv s role me out_max k =
      elim (Bool-cases (not (inputs_valid me) || ltb out_max encounter_msg_max_bytes)) [
        | inl b ↦ rw b tt
        | inr b ↦ rw b (start_as-Inv role me out_max k)
      ]

  version-encode_body :
      (rec : EncounterRecord) (body : Bytes)
      → encounter_record_encode_body rec 384 ≡ some body
      → (rec.version == encounter_record_version) ≡ true
  unfolding encounter_record_encode_body encode_record
  version-encode_body rec body e = (guard-some (rec.version == encounter_record_version) e).0

  verify-body :
      (rec : EncounterRecord) (body : Bytes)
      → encounter_record_encode_body rec 384 ≡ some body
      → hal_ed25519_verify rec.pub_a body rec.sig_a ≡ true
      → hal_ed25519_verify rec.pub_b body rec.sig_b ≡ true
      → encounter_record_verify c rec ≡ true
  unfolding encounter_record_verify
  verify-body rec body e a b = rw (version-encode_body rec body e, e, a, b)

  -- The body does not contain the signatures.
  encode_body-sig_a :
      (rec : EncounterRecord) (sig : Bytes)
      → encounter_record_encode_body (record rec { sig_a = sig }) 384
        ≡ encounter_record_encode_body rec 384
  unfolding encounter_record_encode_body encode_record record_bytes
  encode_body-sig_a rec sig = refl

  encode_body-sig_b :
      (rec : EncounterRecord) (sig : Bytes)
      → encounter_record_encode_body (record rec { sig_b = sig }) 384
        ≡ encounter_record_encode_body rec 384
  unfolding encounter_record_encode_body encode_record record_bytes
  encode_body-sig_b rec sig = refl

  accept-Inv :
      (s : Session) (in_buf : Bytes) (out_max : ℕ) (r : Reply)
      → IsCorrect c
      → s.role ≡ initiator
      → IsKeyPair s.me × (a_half s.rec ≡ local_half s.me)
      → handle_initiator_accept c s in_buf out_max ≡ some r
      → Inv r.session
  unfolding handle_initiator_accept
  accept-Inv s in_buf out_max r ok i (pair, half) e =
      let (rec, e₁, e₂) = >>=-eq-some (decode_half_message in_buf msg_accept true s.rec) _ e in
      let (peer, e₃) = guard-some (prefix_matches_or_zero s.me.expected_peer_prefix rec.pub_b) e₂ in
      let (body, e₄, e₅) = >>=-eq-some (encounter_record_encode_body rec 384) _ e₃ in
      let (good, e₆) = guard-some (hal_ed25519_verify rec.pub_b body rec.sig_b) e₅ in
      let (sig, e₇, e₈) = >>=-eq-some (hal_ed25519_sign s.me.seed body) _ e₆ in
      let (out, e₉, e₁₀) = >>=-eq-some (encode_confirm sig out_max) _ e₈ in
      let own = a_half-decode_half_message in_buf s.rec rec e₁ ∙ half in
      let key =
        subst (λ k. hal_ed25519_derive_pub s.me.seed ≡ some k) (sym (ap (λ h. h.pub_key) own))
          pair in
      let rec' = record rec { sig_a = sig } in
      subst (λ r. Inv r.session) (some-injective _ _ e₁₀)
        (
          verify-body rec' body (encode_body-sig_a rec sig ∙ e₄) (ok.verify-sign _ _ _ _ key e₇)
              good,
          initiator-IsOurs (record s { rec = rec'; state = st_done }) rec' i own peer,
        )

  pub Keeps-IsKeyPair : {me me' : LocalInput} → Keeps me me' → IsKeyPair me → IsKeyPair me'
  Keeps-IsKeyPair same pair = rw (same.seed, same.pub_key) pair

  propose-Inv :
      (s : Session) (in_buf : Bytes) (out_max : ℕ) (r : Reply)
      → IsCorrect c
      → s.role ≡ responder
      → IsKeyPair s.me
      → handle_responder_propose c s in_buf out_max ≡ some r
      → Inv r.session
  unfolding handle_responder_propose fill_local_half
  propose-Inv s in_buf out_max r ok i pair e =
      let (peer, e₁, e₂) = >>=-eq-some (decode_half_message in_buf msg_propose false s.rec) _ e in
      let (match, e₃) =
        guard-some (prefix_matches_or_zero s.me.expected_peer_prefix peer.pub_a) e₂ in
      let me' = late_bound s.me peer.pub_a in
      let same = late_bound-Keeps s.me peer.pub_a in
      let key = Keeps-IsKeyPair same pair in
      let rec = write_half true peer (local_half me') in
      let (body, e₄, e₅) = >>=-eq-some (encounter_record_encode_body rec 384) _ e₃ in
      let (sig, e₆, e₇) = >>=-eq-some (hal_ed25519_sign me'.seed body) _ e₅ in
      let (out, e₈, e₉) = >>=-eq-some (encode_accept (record rec { sig_b = sig }) out_max) _ e₇ in
      let s' = record s {
        me = me';
        rec = record rec { sig_b = sig };
        state = st_r_await_confirm;
      } in
      subst (λ r. Inv r.session) (some-injective _ _ e₉)
        (
          (body, encode_body-sig_b rec sig ∙ e₄, ok.verify-sign _ _ _ _ key e₆),
          responder-IsOurs s' s'.rec i refl (rw same.prefix match),
        )

  confirm-Inv :
      (s : Session) (in_buf : Bytes) (r : Reply)
      → s.role ≡ responder
      → BSigned s.rec × IsOurs s s.rec
      → handle_responder_confirm c s in_buf ≡ some r
      → Inv r.session
  unfolding handle_responder_confirm
  confirm-Inv s in_buf r i ((body, enc, b_ok), ours) e =
      let (sig, e₁, e₂) = >>=-eq-some (decode_confirm in_buf) _ e in
      let rec = record s.rec { sig_a = sig } in
      let (body', e₃, e₄) = >>=-eq-some (encounter_record_encode_body rec 384) _ e₂ in
      let (a_ok, e₅) = guard-some (hal_ed25519_verify rec.pub_a body' rec.sig_a) e₄ in
      let same = some-injective _ _ (sym enc ∙ (sym (encode_body-sig_a s.rec sig) ∙ e₃)) in
      let s' = record s { rec = rec; state = st_done } in
      subst (λ r. Inv r.session) (some-injective _ _ e₅)
        (
          verify-body rec body' e₃ a_ok
              (subst (λ b. hal_ed25519_verify rec.pub_b b rec.sig_b ≡ true) same b_ok),
          responder-IsOurs s' rec i
              (subst (λ role. own_half role s.rec ≡ local_half s.me) i ours.own)
              (subst
                (λ role.
                  prefix_matches_or_zero s.me.expected_peer_prefix (peer_key role s.rec) ≡ true)
                i ours.peer),
        )

  in_state-Inv :
      (role : Role) (state : SessionState) (s : Session) (in_buf : Bytes) (out_max : ℕ)
      → IsCorrect c
      → s.role ≡ role
      → s.state ≡ state
      → Inv s
      → Inv (handle_in c role state s in_buf out_max).session
  in_state-Inv initiator st_i_await_accept s in_buf out_max ok i k inv = or_fail-Inv s _ (λ r.
      accept-Inv s in_buf out_max r ok i
        (subst (λ role. AwaitAccept role s) i (subst (λ st. InvAt st s) k inv)))
  in_state-Inv responder st_init s in_buf out_max ok i k inv =
      or_fail-Inv s _ (λ r. propose-Inv s in_buf out_max r ok i (subst (λ st. InvAt st s) k inv))
  in_state-Inv responder st_r_await_confirm s in_buf out_max ok i k inv =
      or_fail-Inv s _ (λ r. confirm-Inv s in_buf r i (subst (λ st. InvAt st s) k inv))
  in_state-Inv initiator st_init s in_buf out_max ok i k inv = tt
  in_state-Inv initiator st_r_await_confirm s in_buf out_max ok i k inv = tt
  in_state-Inv initiator st_done s in_buf out_max ok i k inv = tt
  in_state-Inv initiator st_error s in_buf out_max ok i k inv = tt
  in_state-Inv responder st_i_await_accept s in_buf out_max ok i k inv = tt
  in_state-Inv responder st_done s in_buf out_max ok i k inv = tt
  in_state-Inv responder st_error s in_buf out_max ok i k inv = tt

  handle-Inv :
      (s : Session) (in_buf : Bytes) (out_max : ℕ)
      → IsCorrect c
      → Inv s
      → Inv (encounter_session_handle c s in_buf out_max).session
  unfolding encounter_session_handle
  handle-Inv s in_buf out_max ok inv = elim (Bool-cases (ltb out_max encounter_msg_max_bytes)) [
    | inl b ↦ rw b tt
    | inr b ↦ rw b (in_state-Inv s.role s.state s in_buf out_max ok refl refl inv)
  ]

  Reaches-Inv : (s : Session) → IsCorrect c → Reaches s → Inv s
  Reaches-Inv _ ok (started s role me out_max k) = start-Inv s role me out_max k
  Reaches-Inv _ ok (handled s in_buf out_max r) =
      handle-Inv s in_buf out_max ok (Reaches-Inv s ok r)

  done-Inv :
      (state : SessionState) (s : Session) (rec : EncounterRecord)
      → InvAt state s
      → (if is_done state then some s.rec else none) ≡ some rec
      → (encounter_record_verify c rec ≡ true) × IsOurs s rec
  done-Inv st_done s rec inv e =
      subst (λ rec. (encounter_record_verify c rec ≡ true) × IsOurs s rec) (some-injective _ _ e)
        inv
  done-Inv st_init s rec inv e = cc
  done-Inv st_i_await_accept s rec inv e = cc
  done-Inv st_r_await_confirm s rec inv e = cc
  done-Inv st_error s rec inv e = cc

  -- Whatever bytes the peer sends, in whatever order: if the caller's key belongs to its seed, a
  -- record that the session hands out has both signatures valid, its own side holds the
  -- session's own inputs, and the other side's key matches the prefix that the caller expected.
  pub take_record-verify :
      (s : Session) (rec : EncounterRecord)
      → IsCorrect c
      → Reaches s
      → encounter_session_take_record s ≡ some rec
      → (encounter_record_verify c rec ≡ true) × IsOurs s rec
  unfolding encounter_session_take_record
  take_record-verify s rec ok r e = done-Inv s.state s rec (Reaches-Inv s ok r) e
