-- ===== src/Hierarchy/Coordinator/Activation.antt =====
-- `activate_next_subgoal` and `_retry_current_candidate` of coordinator.py.
use hunter_kinodynamic_rl.Prelude.{
  Bool, true, false, Option, none, some, List, [], ◌∷◌, if◌then◌else◌,
}
use hunter_kinodynamic_rl.Prelude.Int.{ℤ}
use hunter_kinodynamic_rl.Prelude.Result.{Result, ok}
use hunter_kinodynamic_rl.Prelude.Exec.{Exec, pure, lift, modify, ◌>>=◌, ◌>>◌}
use hunter_kinodynamic_rl.Floats.{Floats, Float}
use hunter_kinodynamic_rl.Hierarchy.Geometry.{PoseXyYaw, goal_distance_and_heading}
use hunter_kinodynamic_rl.Hierarchy.Goal
use hunter_kinodynamic_rl.Hierarchy.Subgoal
use hunter_kinodynamic_rl.Hierarchy.Subgoal.{SubgoalManager}
use hunter_kinodynamic_rl.Hierarchy.Replanning.{confidence_is_degraded}
use hunter_kinodynamic_rl.Hierarchy.Coordinator.{
  Coordinator, mission_done, check_mission_timeout, confidence_is_healthy, push_max,
}

module _ ⦃M : Floats⦄ where
  abbrev pub SubgoalValidityCheck : Type 0
  SubgoalValidityCheck = Float → Float → Bool

  -- What the calls that may activate a subgoal have in common.
  pub record Now : Type 0 where
    pub pose : PoseXyYaw
    pub now_step : ℤ
    pub now_time_sec : Float
    pub is_valid : Option SubgoalValidityCheck

  unfoldable pub is_usable : Option SubgoalValidityCheck → Float × Float → Bool
  is_usable none xy = true
  is_usable (some check) (x, y) = check x y

  -- A call of a method of the subgoal manager.
  abbrev pub on_subgoals :
      {A : Type 0} → (SubgoalManager → Result A × SubgoalManager) → Exec Coordinator A
  on_subgoals f c = let (r, m) = f c.subgoal_manager in (r, record c { subgoal_manager = m })

  -- What is recorded once the subgoal manager has taken the candidate.
  note_activation : Now → Float → Float → Coordinator → Coordinator
  unfolding push_max
  note_activation now final_goal_distance subgoal_distance c = record c {
    distance_history = push_max c.config.replanning.no_progress_window_steps [] subgoal_distance;
    consecutive_emergency_stops = 0;
    last_pose = some now.pose;
    last_final_goal_distance = final_goal_distance;
    last_subgoal_distance = subgoal_distance;
  }

  unfoldable pub take_candidate : Now → Float × Float → Exec Coordinator Bool
  unfolding note_activation
  take_candidate now (x, y) = do
    modify (λ c. record c { current_candidate = some (x, y) })
    (final_goal_distance, _) ← lift (λ c. Goal.distance_and_bearing c.goal_manager now.pose)
    let subgoal_distance = (goal_distance_and_heading now.pose x y).0
    on_subgoals (λ m.
        Subgoal.activate m (x, y) now.now_step now.now_time_sec final_goal_distance
          subgoal_distance)
    modify (note_activation now final_goal_distance subgoal_distance)
    pure true

  -- `while self._queue: …`, over the candidates that are left.
  unfoldable pub try_candidates : Now → List (Float × Float) → Exec Coordinator Bool
  try_candidates now [] c = (ok false, record c { queue = []; mission_failed = true })
  try_candidates now (xy ∷ rest) c =
      let skipped = try_candidates now rest c in
      if is_usable now.is_valid xy
      then take_candidate now xy (record c { queue = rest })
      else skipped

  unfoldable pub activate_next_subgoal : Now → Option Float → Exec Coordinator Bool
  activate_next_subgoal now confidence c =
      if mission_done c
      then (ok false, c)
      else if check_mission_timeout c now.now_step now.now_time_sec
      then (ok false, record c { mission_timed_out = true })
      else if c.localization_degraded
      then (if confidence_is_healthy confidence c.config.replanning.localization_min_confidence
          then try_candidates now c.queue (record c { localization_degraded = false })
          else (ok false, c))
      else if confidence_is_degraded confidence c.config.replanning.localization_min_confidence
      then (ok false, record c { localization_degraded = true })
      else try_candidates now c.queue c

  unfoldable pub retry_current_candidate : Now → Exec Coordinator Bool
  retry_current_candidate now c = elim c.current_candidate [
    | none ↦ (ok false, c)
    | some xy ↦ activate_next_subgoal now none (record c { queue = xy ∷ c.queue })
  ]
