-- ===== src/MeshState.antt =====
-- firmware/core/mesh_state.h and firmware/core/mesh_state.c: the state machine that alternates
-- between advertising and scanning. The random generator is the caller's function pointer: a
-- parameter, whose own state is passed along.
pub mod Dwell
pub mod Phases
mod Tests
use waxwing.Common.{
  ℕ, ◌+◌, ◌-◌, ◌*◌, ◌/◌, ◌%◌, ◌^◌, ltb, leb, ◌==◌, Bool, true, false, if◌then◌else◌,
}
use waxwing.Constants.{mesh_grace_ms, mesh_dwell_min_ms, mesh_dwell_max_ms, mesh_dwell_jitter_pct}

-- `mesh_phase_t`
pub data MeshPhase : Type 0 where
  grace advertising scanning connected : MeshPhase

-- `mesh_action_t`
pub data MeshAction : Type 0 where
  action_none start_advertising start_scanning : MeshAction

-- The static `g`, without the function pointer.
pub record MeshState : Type 0 where
  pub phase : MeshPhase
  pub dwell_deadline_ms : ℕ
  pub grace_deadline_ms : ℕ

-- The centre of the draw.
unfoldable pub dwell_base : ℕ → ℕ
dwell_base r1 = mesh_dwell_min_ms + r1 % (mesh_dwell_max_ms - mesh_dwell_min_ms + 1)

-- The jittered value. `jitter_range` is at most `base`, so the subtraction does not stop at 0.
unfoldable pub jittered : ℕ → ℕ → ℕ
jittered base r2 =
    let jitter_range = base * mesh_dwell_jitter_pct / 100 in
    let result = base + r2 % (2 * jitter_range + 1) - jitter_range in
    if ltb result (mesh_dwell_min_ms / 2) then mesh_dwell_min_ms / 2 else result

-- `(int32_t)(now_ms - deadline) >= 0`
unfoldable pub expired : ℕ → ℕ → Bool
expired now_ms deadline = ltb ((now_ms + 2 ^ 32 - deadline) % 2 ^ 32) (2 ^ 31)

unfoldable pub mesh_state_init : ℕ → MeshState
mesh_state_init now_ms = record {
  phase = grace;
  dwell_deadline_ms = 0;
  grace_deadline_ms = (now_ms + mesh_grace_ms) % 2 ^ 32;
}

unfoldable pub mesh_state_on_connected : MeshState → MeshState
mesh_state_on_connected g = record g { phase = connected }

unfoldable pub mesh_state_on_disconnected : MeshState → ℕ → MeshState
mesh_state_on_disconnected g now_ms = record g { phase = advertising; dwell_deadline_ms = now_ms }

module _ {R : Type 0} (rng : R → ℕ × R) where
  unfoldable pub draw_dwell_ms : R → ℕ × R
  draw_dwell_ms r =
      let (r1, r') = rng r in let (r2, r'') = rng r' in (jittered (dwell_base r1) r2, r'')

  abbrev pub armed : MeshState → MeshPhase → ℕ → ℕ → MeshState
  armed g phase now_ms dwell = record g {
    phase = phase;
    dwell_deadline_ms = (now_ms + dwell) % 2 ^ 32;
  }

  unfoldable pub flip_role : MeshState → R → ℕ → MeshAction × MeshState × R
  flip_role g r now_ms =
      let (coin, r') = rng r in
      let (dwell, r'') = draw_dwell_ms r' in
      if coin % 2 == 1
      then (start_advertising, armed g advertising now_ms dwell, r'')
      else (start_scanning, armed g scanning now_ms dwell, r'')

  abbrev pub flip_if : Bool → MeshState → R → ℕ → MeshAction × MeshState × R
  flip_if due g r now_ms = if due then flip_role g r now_ms else (action_none, g, r)

  abbrev pub tick_in : MeshPhase → MeshState → R → ℕ → MeshAction × MeshState × R
  tick_in grace g r now_ms = flip_if (expired now_ms g.grace_deadline_ms) g r now_ms
  tick_in advertising g r now_ms = flip_if (expired now_ms g.dwell_deadline_ms) g r now_ms
  tick_in scanning g r now_ms = flip_if (expired now_ms g.dwell_deadline_ms) g r now_ms
  tick_in connected g r now_ms = (action_none, g, r)

  unfoldable pub mesh_state_tick : MeshState → R → ℕ → MeshAction × MeshState × R
  mesh_state_tick g r now_ms = tick_in g.phase g r now_ms
