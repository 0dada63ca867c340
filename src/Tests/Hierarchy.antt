-- ===== src/Tests/Hierarchy.antt =====
-- A mission with an active subgoal, and the hierarchy's theorems at it.
use hunter_kinodynamic_rl.Prelude.{◌≡◌, refl, true, false, none, some, [], ◌∷◌, arith}
use hunter_kinodynamic_rl.Prelude.Int.{pos}
use hunter_kinodynamic_rl.Prelude.Result.{ok, Returns}
use hunter_kinodynamic_rl.Floats.{Floats}
use hunter_kinodynamic_rl.Hierarchy.Geometry.{PoseXyYaw}
use hunter_kinodynamic_rl.Hierarchy.Goal
use hunter_kinodynamic_rl.Hierarchy.Goal.{MissionStatus, GoalManagerConfig}
use hunter_kinodynamic_rl.Hierarchy.Subgoal
use hunter_kinodynamic_rl.Hierarchy.Subgoal.{SubgoalManager, SubgoalManagerConfig}
use hunter_kinodynamic_rl.Hierarchy.Subgoal.Status.{SubgoalStatus}
use hunter_kinodynamic_rl.Hierarchy.Replanning
use hunter_kinodynamic_rl.Hierarchy.Replanning.{
  confidence_is_degraded, ReplanningConfig, Evidence, evaluate_replanning,
}
use hunter_kinodynamic_rl.Hierarchy.Replanning.Order.{
  trigger_table, first_firing, evaluate_replanning-first_firing,
}
use hunter_kinodynamic_rl.Hierarchy.Recovery
use hunter_kinodynamic_rl.Hierarchy.Recovery.{FailureRecoveryConfig, default_retryable}
use hunter_kinodynamic_rl.Hierarchy.Coordinator.{
  HierarchyCoordinatorConfig, Coordinator, stop_required, check_mission_timeout, mission_done, init,
  start_mission, enqueue_subgoal,
}
use hunter_kinodynamic_rl.Hierarchy.Coordinator.Activation.{
  Now, try_candidates, is_usable, take_candidate, activate_next_subgoal,
}
use hunter_kinodynamic_rl.Hierarchy.Coordinator.Ticks.{LocalTick, record_local_tick}
use hunter_kinodynamic_rl.Hierarchy.Coordinator.Invariant.{Inv, Idle}
use hunter_kinodynamic_rl.Hierarchy.Coordinator.Reach.{
  Reach, begins, next, starts, enqueues, activates, Reach-Inv, Reach-stops,
}
use hunter_kinodynamic_rl.Hierarchy.Coordinator.Total.{record_local_tick-Returns}
use hunter_kinodynamic_rl.Hierarchy.Coordinator.Outcomes.{
  Degraded, Chosen, drop_unusable, record_local_tick-Degraded, activate_next_subgoal-Chosen,
}
use hunter_kinodynamic_rl.Tests.Numbers.{numbers}

instance abbrev sample_numbers : Floats
sample_numbers = numbers

abbrev sample_config : HierarchyCoordinatorConfig
sample_config = record {
  goal = record {
    position_tolerance_m = pos 1;
    heading_tolerance_rad = pos 3;
    require_low_speed_on_goal = false;
    goal_speed_threshold_mps = pos 1;
  };
  subgoal = record {
    position_tolerance_m = pos 1;
    heading_tolerance_rad = pos 3;
    require_low_speed_on_reach = false;
    goal_speed_threshold_mps = pos 1;
  };
  replanning = record {
    local_option_timeout_steps = pos 50;
    no_progress_window_steps = 3;
    no_progress_min_delta_m = pos 1;
    consecutive_emergency_stop_limit = pos 2;
    local_risk_threshold = pos 5;
    localization_min_confidence = pos 1;
  };
  recovery = record { max_retries_per_subgoal = pos 1; retryable_statuses = default_retryable };
  mission_timeout_steps = some (pos 100);
  mission_timeout_sec = none;
}

abbrev origin : PoseXyYaw
origin = record { x = pos 0; y = pos 0; yaw = pos 0 }

abbrev sample_now : Now
sample_now = record { pose = origin; now_step = pos 1; now_time_sec = pos 1; is_valid = none }

abbrev fresh : Coordinator
fresh = record {
  config = sample_config;
  goal_manager = Goal.init sample_config.goal true;
  subgoal_manager = record {
    config = sample_config.subgoal;
    next_id = 0;
    subgoal_xy = none;
    status = none;
    stats = Subgoal.cleared;
  };
  queue = [];
  retry_count = 0;
  current_candidate = none;
  distance_history = [];
  consecutive_emergency_stops = 0;
  last_pose = none;
  mission_start_step = pos 0;
  mission_start_time_sec = pos 0;
  mission_failed = false;
  mission_timed_out = false;
  last_subgoal_result = none;
  subgoal_reached = false;
  subgoal_failed = false;
  previous_final_goal_distance = pos 0;
  previous_subgoal_distance = pos 0;
  last_final_goal_distance = pos 0;
  last_subgoal_distance = pos 0;
  localization_degraded = false;
}

-- A mission to (9, 9) with two candidates, none active yet.
abbrev waiting : Coordinator
waiting =
    enqueue_subgoal
      (enqueue_subgoal (start_mission fresh (pos 9, pos 9) (pos 0) (pos 0)) (pos 4, pos 0))
      (pos 6, pos 6)

abbrev running : Coordinator
running = (activate_next_subgoal sample_now none waiting).1

abbrev sample_tick : LocalTick
sample_tick = record {
  pose = origin;
  now_step = pos 2;
  now_time_sec = pos 2;
  speed_mps = some (pos 0);
  clearance_m = none;
  predicted_risk = some (pos 1);
  emergency_stop = false;
  steering_saturated = false;
  newly_explored_cells = pos 4;
  subgoal_endpoint_blocked = false;
  localization_confidence = some (pos 0);
  junction_detected = false;
  subgoal_is_valid = none;
}

waiting_reached : Reach sample_config waiting
unfolding init Subgoal.init Subgoal.validate Recovery.validate
waiting_reached =
    next
      (next (next (begins refl) (starts (pos 9, pos 9) (pos 0) (pos 0) refl))
        (enqueues (pos 4, pos 0) refl))
      (enqueues (pos 6, pos 6) refl)

running_reached : Reach sample_config running
unfolding start_mission enqueue_subgoal Goal.set_goal Subgoal.active Subgoal.reset
running_reached = next waiting_reached (activates sample_now none refl refl)

Reach-Inv_example : Inv running
Reach-Inv_example = Reach-Inv running_reached

Reach-stops_example :
    (running.localization_degraded ≡ true → stop_required running ≡ true)
    × (mission_done running ≡ true → Idle running)
Reach-stops_example = Reach-stops running_reached

running_moves : (stop_required running ≡ false) × (running.config ≡ sample_config)
unfolding start_mission enqueue_subgoal activate_next_subgoal Goal.set_goal check_mission_timeout
    confidence_is_degraded try_candidates is_usable take_candidate Goal.distance_and_bearing
    Subgoal.activate Subgoal.reset
running_moves = (refl, refl)

record_local_tick-Returns_example : Returns (record_local_tick sample_tick running).0
record_local_tick-Returns_example =
    record_local_tick-Returns sample_tick running (Reach-Inv running_reached) running_moves.0
      (rw running_moves.1 (omega arith))

record_local_tick-Degraded_example : Degraded running (record_local_tick sample_tick running).1
unfolding confidence_is_degraded
record_local_tick-Degraded_example =
    record_local_tick-Degraded sample_tick running (Reach-Inv running_reached) running_moves.0
      (rw running_moves.1 refl)

activate_next_subgoal-Chosen_example :
    Chosen (drop_unusable none waiting.queue) (activate_next_subgoal sample_now none waiting).1
unfolding start_mission enqueue_subgoal Goal.set_goal Subgoal.active Subgoal.reset
    check_mission_timeout confidence_is_degraded
activate_next_subgoal-Chosen_example =
    activate_next_subgoal-Chosen sample_now none waiting refl refl refl refl refl

abbrev sample_evidence : Evidence
sample_evidence = record {
  reached = false;
  local_steps = 7;
  subgoal_distance_history = pos 9 ∷ pos 8 ∷ pos 8 ∷ pos 8 ∷ [];
  subgoal_endpoint_blocked = true;
  consecutive_emergency_stops = 3;
  latest_predicted_risk = none;
  localization_confidence = none;
  junction_detected = false;
}

evaluate_replanning-first_firing_example :
    evaluate_replanning sample_config.replanning sample_evidence
    ≡ ok (first_firing (trigger_table sample_config.replanning sample_evidence))
evaluate_replanning-first_firing_example =
    evaluate_replanning-first_firing sample_config.replanning sample_evidence (omega arith)

-- The window of 3 has made no progress, although the whole history has.
evaluate_stuck :
    evaluate_replanning sample_config.replanning sample_evidence
    ≡ ok (
        some (record {
          status = SubgoalStatus.failed_no_progress;
          reason = "no_progress_within_window";
        }))
unfolding evaluate_replanning confidence_is_degraded Replanning.no_progress
evaluate_stuck = refl
