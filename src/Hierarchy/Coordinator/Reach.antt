-- ===== src/Hierarchy/Coordinator/Reach.antt =====
-- The states that calls of the coordinator can reach, for a caller that activates a next
-- subgoal only under `stop_required`, as coordinator.py asks of it.
use hunter_kinodynamic_rl.Prelude.{String, ◌≡◌, true, Option, arith}
use hunter_kinodynamic_rl.Prelude.Int.{ℤ}
use hunter_kinodynamic_rl.Prelude.Result.{ok}
use hunter_kinodynamic_rl.Floats.{Floats, Float}
use hunter_kinodynamic_rl.Hierarchy.Geometry.{PoseXyYaw}
use hunter_kinodynamic_rl.Hierarchy.Goal
use hunter_kinodynamic_rl.Hierarchy.Subgoal
use hunter_kinodynamic_rl.Hierarchy.Subgoal.{SubgoalResult}
use hunter_kinodynamic_rl.Hierarchy.Subgoal.Status.{SubgoalStatus}
use hunter_kinodynamic_rl.Hierarchy.Coordinator.{
  HierarchyCoordinatorConfig, Coordinator, init, start_mission, enqueue_subgoal, stop_required,
  mission_done,
}
use hunter_kinodynamic_rl.Hierarchy.Coordinator.Activation.{
  SubgoalValidityCheck, Now, activate_next_subgoal,
}
use hunter_kinodynamic_rl.Hierarchy.Coordinator.Ticks.{LocalTick, record_local_tick}
use hunter_kinodynamic_rl.Hierarchy.Coordinator.Forced.{force_terminate_active_subgoal}
use hunter_kinodynamic_rl.Hierarchy.Coordinator.ForcedInvariant.{force-Inv}
use hunter_kinodynamic_rl.Hierarchy.Coordinator.Invariant.{Inv, Idle, activate_next_subgoal-Inv}
use hunter_kinodynamic_rl.Hierarchy.Coordinator.Preserved.{record_local_tick-Inv}

module _ ⦃M : Floats⦄ where
  -- One call of the coordinator's interface.
  pub data Step (c d : Coordinator) : Type 0 where
    starts :
        (goal : Float × Float) (now_step : ℤ) (now_time_sec : Float)
        → d ≡ start_mission c goal now_step now_time_sec
        → Step c d
    enqueues : (xy : Float × Float) → d ≡ enqueue_subgoal c xy → Step c d
    activates :
        (now : Now) (confidence : Option Float)
        → stop_required c ≡ true
        → d ≡ (activate_next_subgoal now confidence c).1
        → Step c d
    ticks : (t : LocalTick) → d ≡ (record_local_tick t c).1 → Step c d
    forces :
        (status : SubgoalStatus) (reason : String) (pose : Option PoseXyYaw) (now_step : ℤ)
        (now_time_sec : Float) (check : Option SubgoalValidityCheck)
        → d ≡ (force_terminate_active_subgoal status reason pose now_step now_time_sec check c).1
        → Step c d
    cancels : d ≡ record c { goal_manager = Goal.cancel c.goal_manager } → Step c d

  pub data Reach (config : HierarchyCoordinatorConfig) : Coordinator → Type 0 where
    begins : {c : Coordinator} → init config ≡ ok c → Reach config c
    next : {c d : Coordinator} → Reach config c → Step c d → Reach config d

  init-Inv : (config : HierarchyCoordinatorConfig) (c : Coordinator) → init config ≡ ok c → Inv c
  unfolding init Subgoal.init Subgoal.active
  init-Inv config c e = ground arith

  start_mission-Inv :
      (c : Coordinator) (goal : Float × Float) (now_step : ℤ) (now_time_sec : Float)
      → Inv (start_mission c goal now_step now_time_sec)
  unfolding start_mission Subgoal.reset Subgoal.active
  start_mission-Inv c (x, y) now_step now_time_sec = ground arith

  stop-Idle : (c : Coordinator) → Inv c → stop_required c ≡ true → Idle c
  stop-Idle c v h = ground arith

  -- Every call keeps the invariant, whatever its arguments and whether or not it raises.
  pub Step-Inv : {c d : Coordinator} → Inv c → Step c d → Inv d
  Step-Inv {c} v (starts goal s t e) = rw e (start_mission-Inv c goal s t)
  Step-Inv {c} v (enqueues xy e) = rw e (
      unfold enqueue_subgoal in
      record { activity = ground arith; retries = v.retries; history = v.history })
  Step-Inv {c} v (activates now conf stop e) =
      rw e (activate_next_subgoal-Inv now conf c (stop-Idle c v stop) v)
  Step-Inv {c} v (ticks t e) = rw e (record_local_tick-Inv t c v)
  Step-Inv {c} v (forces s reason pose step time check e) =
      rw e (force-Inv s reason pose step time check c v)
  Step-Inv {c} v (cancels e) = rw e (
      unfold Goal.cancel in
      record { activity = ground arith; retries = v.retries; history = v.history })

  -- Every state that calls reach from a fresh coordinator, where `activate_next_subgoal` is called
  -- only while `stop_required` holds, satisfies the invariant: an active subgoal is the current candidate of a mission that has a goal, has not ended and is localized;
  -- retries stay within the configured number; and the distance history fits its window.
  pub Reach-Inv : {config : HierarchyCoordinatorConfig} {c : Coordinator} → Reach config c → Inv c
  Reach-Inv {config} {c} (begins e) = init-Inv config c e
  Reach-Inv (next r s) = Step-Inv (Reach-Inv r) s

  -- In every state that calls reach from a fresh coordinator, where `activate_next_subgoal` is called
  -- only while `stop_required` holds, motion is forbidden while localization is degraded, and once
  -- the mission is reached, failed or timed out no subgoal is active.
  pub Reach-stops :
      {config : HierarchyCoordinatorConfig} {c : Coordinator}
      → Reach config c
      → (c.localization_degraded ≡ true → stop_required c ≡ true) × (mission_done c ≡ true → Idle c)
  Reach-stops r = let v = Reach-Inv r in (λ h. ground arith, λ h. ground arith)
