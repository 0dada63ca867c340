-- ===== src/Hierarchy/Coordinator/Ticks.antt =====
-- `record_local_tick`, `_apply_recovery` and `force_terminate_active_subgoal` of coordinator.py.
use hunter_kinodynamic_rl.Prelude.{
  ◌+◌, String, Bool, true, false, Option, none, some, List, [], ◌∷◌, if◌then◌else◌,
}
use hunter_kinodynamic_rl.Prelude.Int.{ℤ}
use hunter_kinodynamic_rl.Prelude.Result.{runtime_error}
use hunter_kinodynamic_rl.Prelude.Exec.{Exec, pure, lift, modify, raise_if, ◌>>=◌, ◌>>◌}
use hunter_kinodynamic_rl.Floats.{Floats, Float}
use hunter_kinodynamic_rl.Hierarchy.Geometry.{PoseXyYaw, euclidean_distance}
use hunter_kinodynamic_rl.Hierarchy.Goal
use hunter_kinodynamic_rl.Hierarchy.Subgoal
use hunter_kinodynamic_rl.Hierarchy.Subgoal.{SubgoalResult, Tick}
use hunter_kinodynamic_rl.Hierarchy.Subgoal.Status.{SubgoalStatus, is_reached}
use hunter_kinodynamic_rl.Hierarchy.Replanning.{
  Evidence, ReplanTrigger, confidence_is_degraded, evaluate_replanning,
}
use hunter_kinodynamic_rl.Hierarchy.Recovery.{
  RecoveryAction, retry_same, advance_next, abort_mission, decide,
}
use hunter_kinodynamic_rl.Hierarchy.Coordinator.{
  Coordinator, stop_required, check_mission_timeout, push_max,
}
use hunter_kinodynamic_rl.Hierarchy.Coordinator.Activation.{
  SubgoalValidityCheck, Now, on_subgoals, activate_next_subgoal, retry_current_candidate,
}

module _ ⦃M : Floats⦄ where
  open M use {zero_f}

  abbrev pub is_nonempty : List (Float × Float) → Bool
  is_nonempty [] = false
  is_nonempty (xy ∷ rest) = true

  unfoldable pub recover : Now → RecoveryAction → Exec Coordinator (Unit {0})
  recover now retry_same = do
    modify (λ c. record c { retry_count = c.retry_count + 1 })
    retry_current_candidate now
    pure tt
  recover now advance_next = do
    modify (λ c. record c { retry_count = 0 })
    activate_next_subgoal now none
    pure tt
  recover now abort_mission = modify (λ c. record c { retry_count = 0; mission_failed = true })

  unfoldable pub apply_recovery : Now → SubgoalResult → Exec Coordinator (Unit {0})
  apply_recovery now result = do
    action ← lift (λ c. decide c.config.recovery result.status c.retry_count (is_nonempty c.queue))
    recover now action

  -- The arguments of `record_local_tick`.
  pub record LocalTick : Type 0 where
    pub pose : PoseXyYaw
    pub now_step : ℤ
    pub now_time_sec : Float
    pub speed_mps : Option Float
    pub clearance_m : Option Float
    pub predicted_risk : Option Float
    pub emergency_stop : Bool
    pub steering_saturated : Bool
    pub newly_explored_cells : ℤ
    pub subgoal_endpoint_blocked : Bool
    pub localization_confidence : Option Float
    pub junction_detected : Bool
    pub subgoal_is_valid : Option SubgoalValidityCheck

  abbrev pub now_of : LocalTick → Now
  now_of t = record {
    pose = t.pose;
    now_step = t.now_step;
    now_time_sec = t.now_time_sec;
    is_valid = t.subgoal_is_valid;
  }

  -- `self._last_subgoal_result = self._subgoal_manager.finish(status, reason, …)`
  unfoldable pub finish_subgoal : SubgoalStatus → String → Float → Exec Coordinator SubgoalResult
  finish_subgoal status reason now_time_sec = do
    result ← on_subgoals (λ m. Subgoal.finish m status reason now_time_sec)
    modify (λ c. record c { last_subgoal_result = some result })
    pure result

  step_delta : Option PoseXyYaw → PoseXyYaw → Float
  step_delta none pose = zero_f
  step_delta (some last) pose = euclidean_distance last.x last.y pose.x pose.y

  note_distances : Float → Float → Coordinator → Coordinator
  note_distances final_goal_distance subgoal_distance c = record c {
    previous_final_goal_distance = c.last_final_goal_distance;
    previous_subgoal_distance = c.last_subgoal_distance;
    last_final_goal_distance = final_goal_distance;
    last_subgoal_distance = subgoal_distance;
  }

  note_tick : LocalTick → Float → Coordinator → Coordinator
  unfolding push_max
  note_tick t subgoal_distance c = record c {
    distance_history =
        push_max c.config.replanning.no_progress_window_steps c.distance_history subgoal_distance;
    consecutive_emergency_stops = if t.emergency_stop then c.consecutive_emergency_stops + 1 else 0;
  }

  -- The bookkeeping of a tick, down to the first decision.
  unfoldable pub measure : LocalTick → Exec Coordinator (Unit {0})
  unfolding step_delta note_distances note_tick
  measure t c =
      rest (record c { subgoal_reached = false; subgoal_failed = false; last_pose = some t.pose })
    where
      delta : Float
      delta = step_delta c.last_pose t.pose

      rest : Exec Coordinator (Unit {0})
      rest = do
        (final_goal_distance, _) ← lift (λ c. Goal.distance_and_bearing c.goal_manager t.pose)
        (subgoal_distance, _) ← lift (λ c. Subgoal.distance_to_subgoal c.subgoal_manager t.pose)
        modify (note_distances final_goal_distance subgoal_distance)
        on_subgoals (λ m. Subgoal.record_tick m (record {
          step_delta_m = delta;
          final_goal_distance_m = final_goal_distance;
          subgoal_distance_m = subgoal_distance;
          clearance_m = t.clearance_m;
          predicted_risk = t.predicted_risk;
          emergency_stop = t.emergency_stop;
          steering_saturated = t.steering_saturated;
          newly_explored_cells = t.newly_explored_cells;
        }))
        modify (note_tick t subgoal_distance)

  unfoldable pub cancel_degraded : LocalTick → Exec Coordinator (Unit {0})
  cancel_degraded t = do
    finish_subgoal SubgoalStatus.cancelled_by_replan "localization_confidence_degraded"
        t.now_time_sec
    modify (λ c. record c { subgoal_failed = true; localization_degraded = true })

  unfoldable pub goal_reached : LocalTick → Exec Coordinator (Unit {0})
  goal_reached t = do
    finish_subgoal SubgoalStatus.reached "final_goal_reached_during_subgoal" t.now_time_sec
    modify (λ c. record c { subgoal_reached = true })

  unfoldable pub time_out : LocalTick → Exec Coordinator (Unit {0})
  time_out t = do
    finish_subgoal SubgoalStatus.cancelled_by_replan "mission_timeout" t.now_time_sec
    modify (λ c. record c { mission_timed_out = true })

  unfoldable pub fail_over : Now → SubgoalResult → Exec Coordinator (Unit {0})
  fail_over now result = do
    modify (λ c. record c { subgoal_failed = true })
    apply_recovery now result

  unfoldable pub end_by_trigger : LocalTick → Option ReplanTrigger → Exec Coordinator (Unit {0})
  unfolding fail_over
  end_by_trigger t none = pure tt
  end_by_trigger t (some trigger) = do
    result ← finish_subgoal trigger.status trigger.reason t.now_time_sec
    if is_reached trigger.status
        then modify (λ c. record c { subgoal_reached = true })
        else fail_over (now_of t) result

  unfoldable pub evidence : LocalTick → Bool → Coordinator → Evidence
  evidence t reached c = record {
    reached = reached;
    local_steps = c.subgoal_manager.stats.local_steps;
    subgoal_distance_history = c.distance_history;
    subgoal_endpoint_blocked = t.subgoal_endpoint_blocked;
    consecutive_emergency_stops = c.consecutive_emergency_stops;
    latest_predicted_risk = t.predicted_risk;
    localization_confidence = t.localization_confidence;
    junction_detected = t.junction_detected;
  }

  unfoldable pub replan : LocalTick → Exec Coordinator (Unit {0})
  unfolding evidence
  replan t = do
    reached ← lift (λ c. Subgoal.check_reached c.subgoal_manager t.pose t.speed_mps)
    trigger ← lift (λ c. evaluate_replanning c.config.replanning (evidence t reached c))
    end_by_trigger t trigger

  -- A call of `check_reached` of the goal manager, which may change its status.
  unfoldable pub check_goal : LocalTick → Exec Coordinator Bool
  check_goal t c =
      let (r, g) = Goal.check_reached c.goal_manager t.pose t.speed_mps in
      (r, record c { goal_manager = g })

  unfoldable pub time_out_or_replan : LocalTick → Exec Coordinator (Unit {0})
  time_out_or_replan t c =
      if check_mission_timeout c t.now_step t.now_time_sec then time_out t c else replan t c

  unfoldable pub goal_or_subgoal : LocalTick → Exec Coordinator (Unit {0})
  unfolding check_goal
  goal_or_subgoal t = do
    at_goal ← check_goal t
    if at_goal then goal_reached t else time_out_or_replan t

  -- The decisions of a tick, in the order of the code.
  unfoldable pub settle : LocalTick → Exec Coordinator (Unit {0})
  settle t c =
      if confidence_is_degraded t.localization_confidence
        c.config.replanning.localization_min_confidence
      then cancel_degraded t c
      else goal_or_subgoal t c

  unfoldable pub record_local_tick : LocalTick → Exec Coordinator (Unit {0})
  record_local_tick t = do raise_if stop_required runtime_error; measure t; settle t
