-- ===== src/MeshState/Phases.antt =====
-- Which phases of mesh_state.c follow which.
use waxwing.Common.{ℕ, ◌%◌, ◌≡◌, refl, ◌==◌, Bool, true, false, Bool-cases, inl, inr}
use waxwing.MeshState.{MeshState, MeshPhase, grace, advertising, scanning, connected}
use waxwing.MeshState.{flip_role, flip_if, tick_in, mesh_state_tick, mesh_state_on_connected}
use waxwing.MeshState.{mesh_state_on_disconnected}

abbrev pub is_grace : MeshPhase → Bool
is_grace grace = true
is_grace _ = false

module _ {R : Type 0} (rng : R → ℕ × R) where
  -- The calls that change the state after mesh_state_init, in any order.
  pub data Steps : MeshState → MeshState → Type 0 where
    stop : (g : MeshState) → Steps g g
    tick :
        (g g' : MeshState) (r : R) (now : ℕ) → Steps g g' → Steps g (mesh_state_tick rng g' r now).1
    connect : (g g' : MeshState) → Steps g g' → Steps g (mesh_state_on_connected g')
    disconnect :
        (g g' : MeshState) (now : ℕ) → Steps g g' → Steps g (mesh_state_on_disconnected g' now)

  flip_role-role :
      (g : MeshState) (r : R) (now : ℕ) → is_grace (flip_role rng g r now).1.phase ≡ false
  unfolding flip_role
  flip_role-role g r now = elim (Bool-cases ((rng r).0 % 2 == 1)) [
    | inl b ↦ rw (flip_role, b) refl
    | inr b ↦ rw (flip_role, b) refl
  ]

  flip_if-role :
      (due : Bool) (g : MeshState) (r : R) (now : ℕ)
      → is_grace g.phase ≡ false
      → is_grace (flip_if rng due g r now).1.phase ≡ false
  flip_if-role true g r now h = flip_role-role g r now
  flip_if-role false g r now h = h

  tick_in-role :
      (phase : MeshPhase) (g : MeshState) (r : R) (now : ℕ)
      → is_grace g.phase ≡ false
      → is_grace (tick_in rng phase g r now).1.phase ≡ false
  tick_in-role grace g r now h = flip_if-role _ g r now h
  tick_in-role advertising g r now h = flip_if-role _ g r now h
  tick_in-role scanning g r now h = flip_if-role _ g r now h
  tick_in-role connected g r now h = h

  -- The grace window after the start is never entered again.
  pub Steps-grace :
      (g g' : MeshState) → Steps g g' → is_grace g.phase ≡ false → is_grace g'.phase ≡ false
  unfolding mesh_state_tick mesh_state_on_connected mesh_state_on_disconnected
  Steps-grace _ _ (stop g) h = h
  Steps-grace _ _ (tick g g' r now s) h = tick_in-role g'.phase g' r now (Steps-grace g g' s h)
  Steps-grace _ _ (connect g g' s) h = refl
  Steps-grace _ _ (disconnect g g' now s) h = refl
