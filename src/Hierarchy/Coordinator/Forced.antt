-- ===== src/Hierarchy/Coordinator/Forced.antt =====
-- `force_terminate_active_subgoal` of coordinator.py.
use text.Mathlib.Text.{◌==◌ as str_eq}
use hunter_kinodynamic_rl.Prelude.{String, Bool, true, not, ◌&&◌, Option, none, some, if◌then◌else◌}
use hunter_kinodynamic_rl.Prelude.Int.{ℤ}
use hunter_kinodynamic_rl.Prelude.Result.{ok, runtime_error}
use hunter_kinodynamic_rl.Prelude.Exec.{Exec, pure, modify, raise_if, ◌>>=◌, ◌>>◌}
use hunter_kinodynamic_rl.Floats.{Floats, Float}
use hunter_kinodynamic_rl.Hierarchy.Geometry.{PoseXyYaw}
use hunter_kinodynamic_rl.Hierarchy.Subgoal
use hunter_kinodynamic_rl.Hierarchy.Subgoal.{SubgoalResult, Tick}
use hunter_kinodynamic_rl.Hierarchy.Subgoal.Status.{SubgoalStatus, is_reached, is_cancelled}
use hunter_kinodynamic_rl.Hierarchy.Coordinator.{Coordinator}
use hunter_kinodynamic_rl.Hierarchy.Coordinator.Ticks.{apply_recovery, finish_subgoal}
use hunter_kinodynamic_rl.Hierarchy.Coordinator.Activation.{SubgoalValidityCheck}

module _ ⦃M : Floats⦄ where
  -- `status == CANCELLED_BY_REPLAN and reason == "localization_confidence_degraded"`
  unfoldable pub is_degraded_cancel : SubgoalStatus → String → Bool
  is_degraded_cancel status reason =
      is_cancelled status && str_eq reason "localization_confidence_degraded"

  unfoldable pub first_pose : Option PoseXyYaw → Option PoseXyYaw → Option PoseXyYaw
  first_pose (some pose) last = some pose
  first_pose none last = last

  unfoldable pub recover_from :
      Option PoseXyYaw
      → ℤ
      → Float
      → Option SubgoalValidityCheck
      → SubgoalResult
      → Exec Coordinator (Unit {0})
  recover_from none now_step now_time_sec is_valid result =
      modify (λ c. record c { mission_failed = true })
  recover_from (some pose) now_step now_time_sec is_valid result =
      apply_recovery
        (record {
          pose = pose;
          now_step = now_step;
          now_time_sec = now_time_sec;
          is_valid = is_valid;
        })
        result

  unfoldable pub fail_over_from :
      SubgoalStatus
      → String
      → Option PoseXyYaw
      → ℤ
      → Float
      → Option SubgoalValidityCheck
      → SubgoalResult
      → Exec Coordinator (Unit {0})
  unfolding is_degraded_cancel first_pose recover_from
  fail_over_from status reason pose now_step now_time_sec is_valid result c =
      let failed = record c { subgoal_failed = true } in
      if is_degraded_cancel status reason
      then (ok tt, record failed { localization_degraded = true })
      else recover_from (first_pose pose c.last_pose) now_step now_time_sec is_valid result failed

  unfoldable pub force_terminate_active_subgoal :
      SubgoalStatus
      → String
      → Option PoseXyYaw
      → ℤ
      → Float
      → Option SubgoalValidityCheck
      → Exec Coordinator SubgoalResult
  unfolding fail_over_from
  force_terminate_active_subgoal status reason pose now_step now_time_sec is_valid = do
    raise_if (λ c. not (Subgoal.active c.subgoal_manager)) runtime_error
    result ← finish_subgoal status reason now_time_sec
    if is_reached status
        then modify (λ c. record c { subgoal_reached = true })
        else fail_over_from status reason pose now_step now_time_sec is_valid result
    pure result
