-- ===== src/EncounterSession/Complete.antt =====
-- Two honest sides of encounter_session.c that exchange their three messages both finish.
use waxwing.Common.{ℕ, ◌≤◌, ◌≡◌, refl, subst, arith, leb, ltb, true, false, some, none}
use waxwing.Common.{[], length, le→leb}
use waxwing.Common.Bytes.{Bytes}
use waxwing.HalCrypto.{HalCrypto, IsCorrect}
use waxwing.EncounterRecord.{EncounterRecord, encounter_record_encode_body, encounter_record_verify}
use waxwing.EncounterRecord.{encode_record, record_bytes, zero_record}
use waxwing.EncounterSession.{Session, Reply, initiator, responder, st_init}
use waxwing.EncounterSession.{
  st_i_await_accept, st_r_await_confirm, st_done, need_write, need_read, done,
}
use waxwing.EncounterSession.{encounter_session_start, encounter_session_handle, start_initiator}
use waxwing.EncounterSession.{
  handle_initiator_accept, handle_responder_propose, handle_responder_confirm,
}
use waxwing.EncounterSession.{encounter_session_take_record, late_bound, inputs_valid}
use waxwing.EncounterSession.Message.{
  LocalInput, local_half, b_half, prefix_matches_or_zero, write_half, half_bytes,
}
use waxwing.EncounterSession.Message.{
  encode_propose, encode_accept, encode_confirm, encode_half_message,
}
use waxwing.EncounterSession.Message.{fill_local_half, confirm_bytes}
use waxwing.EncounterSession.Sides.{a_half, late_bound-Keeps}
use waxwing.EncounterSession.Sound.{IsKeyPair, Keeps-IsKeyPair}
use waxwing.EncounterSession.RoundTrip.{IsHalf, decode-propose, decode-accept, decode-confirm}

-- A caller's inputs as the structure holds them.
abbrev pub IsInput : LocalInput → Type 0
IsInput me = IsHalf (local_half me)

-- `s₁` and `s₂` are what the two sides' sessions held before they were started.
pub record Handshake : Type 0 where
  pub a_start : Reply
  pub b_start : Reply
  pub b_accept : Reply
  pub a_confirm : Reply
  pub b_done : Reply

abbrev pub handshake : HalCrypto → Session → Session → LocalInput → LocalInput → ℕ → Handshake
handshake c s₁ s₂ a b out_max =
    let a₀ = encounter_session_start s₁ initiator a out_max in
    let b₀ = encounter_session_start s₂ responder b out_max in
    let b₁ = encounter_session_handle c b₀.session a₀.out out_max in
    let a₁ = encounter_session_handle c a₀.session b₁.out out_max in
    let b₂ = encounter_session_handle c b₁.session a₁.out out_max in
    record { a_start = a₀; b_start = b₀; b_accept = b₁; a_confirm = a₁; b_done = b₂ }

abbrev started_rec : EncounterRecord
started_rec = record zero_record { version = 1 }

-- The record with both sides filled in, without the signatures.
abbrev unsigned : LocalInput → LocalInput → EncounterRecord
unsigned a b = write_half true (write_half false started_rec (local_half a)) (local_half b)

start-initiator :
    (s : Session) (a : LocalInput) (out_max : ℕ)
    → IsInput a
    → 256 ≤ out_max
    → encounter_session_start s initiator a out_max ≡ record {
      session = record {
        role = initiator;
        state = st_i_await_accept;
        me = a;
        rec = write_half false started_rec (local_half a);
      };
      step = need_write;
      out = half_bytes 1 1 (local_half a) none;
    }
unfolding encounter_session_start start_initiator encode_propose encode_half_message fill_local_half
    inputs_valid
start-initiator s a out_max wf h = ground (arith, wf.bssids)

start-responder :
    (s : Session) (b : LocalInput) (out_max : ℕ)
    → length b.bssids ≤ 8
    → 256 ≤ out_max
    → encounter_session_start s responder b out_max ≡ record {
      session = record { role = responder; state = st_init; me = b; rec = started_rec };
      step = need_read;
      out = [];
    }
unfolding encounter_session_start inputs_valid
start-responder s b out_max wf h = ground arith

-- What both sides sign.
abbrev body : LocalInput → LocalInput → Bytes
body a b = record_bytes (unsigned a b) false

encode_body-signed :
    (a b : LocalInput) (sig_a sig_b : Bytes)
    → IsInput a
    → IsInput b
    → encounter_record_encode_body (record (unsigned a b) { sig_a = sig_a; sig_b = sig_b }) 384
      ≡ some (body a b)
unfolding encounter_record_encode_body encode_record record_bytes
encode_body-signed a b sig_a sig_b wf_a wf_b = ground (arith, wf_a.bssids, wf_b.bssids)

module _ (c : HalCrypto) (out_max : ℕ) (room : 256 ≤ out_max) where
  open c use {hal_ed25519_sign, hal_ed25519_verify}

  room_test : ltb out_max 256 ≡ false
  room_test = ground arith

  room_leb : leb 256 out_max ≡ true
  room_leb = ground arith

  handle-propose :
      (a b : LocalInput) (sig : Bytes)
      → IsInput a
      → IsInput (late_bound b a.pub_key)
      → prefix_matches_or_zero b.expected_peer_prefix a.pub_key ≡ true
      → hal_ed25519_sign (late_bound b a.pub_key).seed (body a (late_bound b a.pub_key)) ≡ some sig
      → encounter_session_handle c
          (record { role = responder; state = st_init; me = b; rec = started_rec })
          (half_bytes 1 1 (local_half a) none)
          out_max
        ≡ record {
          session = record {
            role = responder;
            state = st_r_await_confirm;
            me = late_bound b a.pub_key;
            rec = record (unsigned a (late_bound b a.pub_key)) { sig_b = sig };
          };
          step = need_write;
          out = half_bytes 2 1 (local_half (late_bound b a.pub_key)) (some sig);
        }
  unfolding encounter_session_handle handle_responder_propose encode_accept encode_half_message
      fill_local_half
  handle-propose a b sig wf_a wf_b match signed = rw (
    room_test,
    decode-propose (local_half a) wf_a false started_rec,
    match,
    encode_body-signed a (late_bound b a.pub_key) zero_record.sig_a zero_record.sig_b wf_a wf_b,
    signed,
    room_leb,
    le→leb _ _ wf_b.bssids.0,
  )

  handle-accept :
      (a b : LocalInput) (sig_a sig_b : Bytes)
      → IsInput a
      → IsInput b
      → length sig_b ≡ 64
      → prefix_matches_or_zero a.expected_peer_prefix b.pub_key ≡ true
      → hal_ed25519_verify b.pub_key (body a b) sig_b ≡ true
      → hal_ed25519_sign a.seed (body a b) ≡ some sig_a
      → encounter_session_handle c
          (record {
            role = initiator;
            state = st_i_await_accept;
            me = a;
            rec = write_half false started_rec (local_half a);
          })
          (half_bytes 2 1 (local_half b) (some sig_b))
          out_max
        ≡ record {
          session = record {
            role = initiator;
            state = st_done;
            me = a;
            rec = record (unsigned a b) { sig_a = sig_a; sig_b = sig_b };
          };
          step = need_write;
          out = confirm_bytes sig_a;
        }
  unfolding encounter_session_handle handle_initiator_accept encode_confirm
  handle-accept a b sig_a sig_b wf_a wf_b size match good signed = rw (
    room_test,
    decode-accept (local_half b) wf_b sig_b size true (write_half false started_rec (local_half a)),
    match,
    encode_body-signed a b zero_record.sig_a sig_b wf_a wf_b,
    good,
    signed,
    room_leb,
  )

  handle-confirm :
      (a b : LocalInput) (sig_a sig_b : Bytes)
      → IsInput a
      → IsInput b
      → length sig_a ≡ 64
      → hal_ed25519_verify a.pub_key (body a b) sig_a ≡ true
      → encounter_session_handle c
          (record {
            role = responder;
            state = st_r_await_confirm;
            me = b;
            rec = record (unsigned a b) { sig_b = sig_b };
          })
          (confirm_bytes sig_a)
          out_max
        ≡ record {
          session = record {
            role = responder;
            state = st_done;
            me = b;
            rec = record (unsigned a b) { sig_a = sig_a; sig_b = sig_b };
          };
          step = done;
          out = [];
        }
  unfolding encounter_session_handle handle_responder_confirm
  handle-confirm a b sig_a sig_b wf_a wf_b size good =
      rw (room_test, decode-confirm sig_a size, encode_body-signed a b sig_a sig_b wf_a wf_b, good)

-- Both sides' inputs fit the structure, before and after the callback, each key belongs to its
-- seed, each side expects the other's key, and signing does not fail.
pub record Honest (c : HalCrypto) (a b : LocalInput) : Type 0 where
  pub input_a : IsInput a
  pub input_b : IsInput (late_bound b a.pub_key)
  pub pair_a : IsKeyPair c a
  pub pair_b : IsKeyPair c b
  pub expects_a : prefix_matches_or_zero b.expected_peer_prefix a.pub_key ≡ true
  pub expects_b : prefix_matches_or_zero a.expected_peer_prefix b.pub_key ≡ true
  pub signs : (seed message : Bytes) → (sig : Bytes) × (c.hal_ed25519_sign seed message ≡ some sig)

-- Both sides hand out the same record, which has the inputs of both and two valid signatures.
abbrev pub Agrees : HalCrypto → LocalInput → LocalInput → Handshake → Type 0
Agrees c a b h =
    (rec : EncounterRecord) × (encounter_session_take_record h.a_confirm.session ≡ some rec)
    × (encounter_session_take_record h.b_done.session ≡ some rec)
    × (encounter_record_verify c rec ≡ true)
    × (a_half rec ≡ local_half a)
    × (b_half rec ≡ local_half (late_bound b a.pub_key))

verify-signed :
    (c : HalCrypto) (a b : LocalInput) (sig_a sig_b : Bytes)
    → IsInput a
    → IsInput b
    → c.hal_ed25519_verify a.pub_key (body a b) sig_a ≡ true
    → c.hal_ed25519_verify b.pub_key (body a b) sig_b ≡ true
    → encounter_record_verify c (record (unsigned a b) { sig_a = sig_a; sig_b = sig_b }) ≡ true
unfolding encounter_record_verify
verify-signed c a b sig_a sig_b wf_a wf_b good_a good_b =
    rw (encode_body-signed a b sig_a sig_b wf_a wf_b, good_a, good_b)

-- If both sides' inputs fit, each key belongs to its seed, each side expects the other's key,
-- signing does not fail and the buffers have the 256 bytes that the code asks for, then the three
-- messages bring both sides to the end with the same record: it has the inputs of both sides (the
-- responder's as its callback refreshed them) and both signatures in it are valid.
pub handshake-Agrees :
    (c : HalCrypto) (s₁ s₂ : Session) (a b : LocalInput) (out_max : ℕ)
    → IsCorrect c
    → Honest c a b
    → 256 ≤ out_max
    → Agrees c a b (handshake c s₁ s₂ a b out_max)
unfolding encounter_session_take_record
handshake-Agrees c s₁ s₂ a b out_max ok h room =
    let b' = late_bound b a.pub_key in
    let same = late_bound-Keeps b a.pub_key in
    let (sig_b, signed_b) = h.signs b'.seed (body a b') in
    let (sig_a, signed_a) = h.signs a.seed (body a b') in
    let good_a : c.hal_ed25519_verify a.pub_key (body a b') sig_a ≡ true =
      ok.verify-sign _ _ _ _ h.pair_a signed_a in
    let good_b : c.hal_ed25519_verify b'.pub_key (body a b') sig_b ≡ true =
      ok.verify-sign _ _ _ _ (Keeps-IsKeyPair c same h.pair_b) signed_b in
    let count : length b.bssids ≤ 8 = subst (λ ss. length ss ≤ 8) same.bssids h.input_b.bssids.0 in
    let rec = record (unsigned a b') { sig_a = sig_a; sig_b = sig_b } in
    let size_a = ok.length-sign _ _ _ signed_a in
    let size_b = ok.length-sign _ _ _ signed_b in
    let expects_b : prefix_matches_or_zero a.expected_peer_prefix b'.pub_key ≡ true =
      rw same.pub_key h.expects_b in
    rw
      (
        start-initiator s₁ a out_max h.input_a room,
        start-responder s₂ b out_max count room,
        handle-propose c out_max room a b sig_b h.input_a h.input_b h.expects_a signed_b,
        handle-accept c out_max room a b' sig_a sig_b h.input_a h.input_b size_b expects_b good_b
            signed_a,
        handle-confirm c out_max room a b' sig_a sig_b h.input_a h.input_b size_a good_a,
      )
      (
        rec,
        refl,
        refl,
        verify-signed c a b' sig_a sig_b h.input_a h.input_b good_a good_b,
        refl,
        refl,
      )
