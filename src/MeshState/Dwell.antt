-- ===== src/MeshState/Dwell.antt =====
-- How long a role of mesh_state.c lasts.
use waxwing.Common.{ℕ, ◌+◌, ◌*◌, ◌/◌, ◌%◌, ◌^◌, ◌≤◌, ◌<◌, ◌≡◌, refl, ◌∙◌, arith, ◌==◌, true, false}
use waxwing.Common.{Bool-cases, inl, inr, ◌⊎◌, lt→ltb, le→ltb_false}
use native.Mathlib.Nat.{mod-lt}
use waxwing.Common.{subst, sym}
use waxwing.MeshState.{
  MeshState, MeshPhase, MeshAction, advertising, scanning, action_none, start_advertising,
  start_scanning,
}
use waxwing.MeshState.{dwell_base, jittered, expired, draw_dwell_ms}
use waxwing.MeshState.{flip_role, flip_if, mesh_state_tick, mesh_state_on_disconnected}

dwell_base-bounds : (r : ℕ) → (1000 ≤ dwell_base r) × (dwell_base r ≤ 5000)
unfolding dwell_base
dwell_base-bounds r = (omega arith, omega arith)

jittered-bounds :
    (base r : ℕ) → 1000 ≤ base → base ≤ 5000 → (800 ≤ jittered base r) × (jittered base r ≤ 6000)
unfolding jittered
jittered-bounds base r h k =
    let x = mod-lt r {m = 2 * (base * 20 / 100) + 1} (omega arith) in (ground arith, ground arith)

module _ {R : Type 0} (rng : R → ℕ × R) where
  draw_dwell_ms-bounds :
      (r : R) → (800 ≤ (draw_dwell_ms rng r).0) × ((draw_dwell_ms rng r).0 ≤ 6000)
  unfolding draw_dwell_ms
  draw_dwell_ms-bounds r =
      let (low, high) = dwell_base-bounds (rng r).0 in
      jittered-bounds (dwell_base (rng r).0) (rng (rng r).1).0 low high

expired-early :
    (now e dwell : ℕ)
    → e < dwell
    → dwell ≤ 6000
    → expired ((now + e) % 2 ^ 32) ((now + dwell) % 2 ^ 32) ≡ false
unfolding expired
expired-early now e dwell h k = le→ltb_false _ _ (omega arith)

expired-late :
    (now e dwell : ℕ)
    → dwell ≤ e
    → e < 2 ^ 31
    → dwell ≤ 6000
    → expired ((now + e) % 2 ^ 32) ((now + dwell) % 2 ^ 32) ≡ true
unfolding expired
expired-late now e dwell h k m = lt→ltb _ _ (omega arith)

expired-since : (now e : ℕ) → now < 2 ^ 32 → e < 2 ^ 31 → expired ((now + e) % 2 ^ 32) now ≡ true
unfolding expired
expired-since now e small h = lt→ltb _ _ (omega arith)

abbrev IsRole : MeshPhase → Type 0
IsRole phase = (phase ≡ advertising) ⊎ (phase ≡ scanning)

-- A role was taken up at `now`: the lowest bit of the number drawn first decides which, the action
-- that starts it is returned, and its deadline is 800 to 6000 ms ahead.
pub record HasStarted {R : Type 0} (coin now : ℕ) (res : MeshAction × MeshState × R) : Type 0 where
  pub role :
      ((coin % 2 ≡ 1) × (res.0 ≡ start_advertising) × (res.1.phase ≡ advertising))
      ⊎ ((coin % 2 ≡ 0) × (res.0 ≡ start_scanning) × (res.1.phase ≡ scanning))
  pub deadline :
      (dwell : ℕ) × (800 ≤ dwell)
      × (dwell ≤ 6000)
      × (res.1.dwell_deadline_ms ≡ (now + dwell) % 2 ^ 32)

module _ {R : Type 0} (rng : R → ℕ × R) where
  -- The state in which a flip leaves the machine.
  abbrev IsArmed : MeshState → ℕ → Type 0
  IsArmed g now =
      (dwell : ℕ) × (800 ≤ dwell)
      × (dwell ≤ 6000)
      × IsRole g.phase
      × (g.dwell_deadline_ms ≡ (now + dwell) % 2 ^ 32)

  flip_role-IsArmed : (g : MeshState) (r : R) (now : ℕ) → IsArmed (flip_role rng g r now).1 now
  unfolding flip_role
  flip_role-IsArmed g r now =
      let (low, high) = draw_dwell_ms-bounds rng (rng r).1 in
      let dwell = (draw_dwell_ms rng (rng r).1).0 in
      elim (Bool-cases ((rng r).0 % 2 == 1)) [
        | inl b ↦ rw (flip_role, b) (dwell, low, high, inl refl, refl)
        | inr b ↦ rw (flip_role, b) (dwell, low, high, inr refl, refl)
      ]

  tick-role :
      (g : MeshState) (r : R) (now : ℕ)
      → IsRole g.phase
      → mesh_state_tick rng g r now ≡ flip_if rng (expired now g.dwell_deadline_ms) g r now
  unfolding mesh_state_tick
  tick-role g r now (inl e) = rw (mesh_state_tick, e) refl
  tick-role g r now (inr e) = rw (mesh_state_tick, e) refl

  -- For the 800 ms after a change of role, on a clock of 32 bits that may wrap, a tick does nothing.
  pub flip_role-tick_early :
      (g : MeshState) (r : R) (now e : ℕ)
      → e < 800
      → let (action, g', r') = flip_role rng g r now in
        mesh_state_tick rng g' r' ((now + e) % 2 ^ 32) ≡ (action_none, g', r')
  flip_role-tick_early g r now e h =
      let (dwell, low, high, role, deadline) = flip_role-IsArmed g r now in
      tick-role (flip_role rng g r now).1 (flip_role rng g r now).2 ((now + e) % 2 ^ 32) role
      ∙ rw (deadline, expired-early now e dwell (omega arith) high) refl

  flip_role-HasStarted :
      (g : MeshState) (r : R) (now : ℕ) → HasStarted (rng r).0 now (flip_role rng g r now)
  unfolding flip_role
  flip_role-HasStarted g r now =
      let (low, high) = draw_dwell_ms-bounds rng (rng r).1 in
      let dwell = (draw_dwell_ms rng (rng r).1).0 in
      elim (Bool-cases ((rng r).0 % 2 == 1)) [
        | inl b ↦
            rw (flip_role, b)
              (record {
                role = inl (ground arith, refl, refl);
                deadline = (dwell, low, high, refl);
              })
        | inr b ↦
            rw (flip_role, b)
              (record {
                role = inr (ground arith, refl, refl);
                deadline = (dwell, low, high, refl);
              })
      ]

  -- A tick 6000 ms or more after a role was taken up, and less than 2 ^ 31 ms after it, on a clock of
  -- 32 bits that may wrap, takes up a role anew, which the generator may draw to be the same: the
  -- lowest bit of its next number decides, and the deadline is 800 to 6000 ms ahead.
  pub flip_role-tick_late :
      (g : MeshState) (r : R) (now e : ℕ)
      → 6000 ≤ e
      → e < 2 ^ 31
      → let (action, g', r') = flip_role rng g r now in
        HasStarted (rng r').0 ((now + e) % 2 ^ 32) (mesh_state_tick rng g' r' ((now + e) % 2 ^ 32))
  flip_role-tick_late g r now e h k =
      let (dwell, low, high, role, deadline) = flip_role-IsArmed g r now in
      let g' : MeshState = (flip_role rng g r now).1 in
      let r' : R = (flip_role rng g r now).2 in
      let due : flip_if rng (expired ((now + e) % 2 ^ 32) g'.dwell_deadline_ms) g' r'
            ((now + e) % 2 ^ 32)
          ≡ flip_role rng g' r' ((now + e) % 2 ^ 32) =
        rw (deadline, expired-late now e dwell (omega arith) k high) refl in
      subst (HasStarted (rng r').0 ((now + e) % 2 ^ 32))
        (sym (tick-role g' r' ((now + e) % 2 ^ 32) role ∙ due))
        (flip_role-HasStarted g' r' ((now + e) % 2 ^ 32))

  -- The next tick after a disconnection, within 2 ^ 31 ms of it, takes up a role: the lowest bit of
  -- the generator's next number decides which, and the deadline is 800 to 6000 ms ahead.
  pub on_disconnected-tick :
      (g : MeshState) (r : R) (now e : ℕ)
      → now < 2 ^ 32
      → e < 2 ^ 31
      → HasStarted
          (rng r).0
          ((now + e) % 2 ^ 32)
          (mesh_state_tick rng (mesh_state_on_disconnected g now) r ((now + e) % 2 ^ 32))
  unfolding mesh_state_on_disconnected
  on_disconnected-tick g r now e small h =
      let g' : MeshState = mesh_state_on_disconnected g now in
      let due : flip_if rng (expired ((now + e) % 2 ^ 32) now) g' r ((now + e) % 2 ^ 32)
          ≡ flip_role rng g' r ((now + e) % 2 ^ 32) =
        rw (expired-since now e small h) refl in
      subst (HasStarted (rng r).0 ((now + e) % 2 ^ 32))
        (sym (tick-role g' r ((now + e) % 2 ^ 32) (inl refl) ∙ due))
        (flip_role-HasStarted g' r ((now + e) % 2 ^ 32))
