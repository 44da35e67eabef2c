-- ===== src/MeshState/Tests.antt =====
-- Tests of mesh_state.c's model with a generator that counts, and witnesses.
use waxwing.Common.{ℕ, ◌+◌, ◌%◌, ◌^◌, ◌≡◌, refl, arith, false, suc}
use waxwing.MeshState.{MeshState, scanning, action_none, flip_role, mesh_state_tick}
use waxwing.MeshState.{mesh_state_on_disconnected}
use waxwing.MeshState.Dwell.{
  HasStarted, flip_role-tick_early, flip_role-tick_late, on_disconnected-tick,
}
use waxwing.MeshState.Phases.{Steps-grace, is_grace, tick, stop}

abbrev counting : ℕ → ℕ × ℕ
counting r = (r, suc r)

abbrev scan : MeshState
scan = record { phase = scanning; dwell_deadline_ms = 4294967295; grace_deadline_ms = 10000 }

flip_role-tick_early_example :
    let (action, g', r') = flip_role counting scan 3000 4294967295 in
    mesh_state_tick counting g' r' ((4294967295 + 799) % 2 ^ 32) ≡ (action_none, g', r')
flip_role-tick_early_example = flip_role-tick_early counting scan 3000 4294967295 799 (omega arith)

flip_role-tick_late_example :
    let (action, g', r') = flip_role counting scan 3000 4294967295 in
    HasStarted
      (counting r').0
      ((4294967295 + 6000) % 2 ^ 32)
      (mesh_state_tick counting g' r' ((4294967295 + 6000) % 2 ^ 32))
flip_role-tick_late_example =
    flip_role-tick_late counting scan 3000 4294967295 6000 (omega arith) (omega arith)

on_disconnected-tick_example :
    HasStarted
      (counting 8).0
      ((70 + 0) % 2 ^ 32)
      (mesh_state_tick counting (mesh_state_on_disconnected scan 70) 8 ((70 + 0) % 2 ^ 32))
on_disconnected-tick_example = on_disconnected-tick counting scan 8 70 0 (omega arith) (omega arith)

Steps-grace_example : is_grace (mesh_state_tick counting scan 7 9).1.phase ≡ false
Steps-grace_example = Steps-grace counting scan _ (tick scan scan 7 9 (stop scan)) refl
