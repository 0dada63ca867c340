-- ===== src/Hierarchy/Coordinator/Outcomes.antt =====
-- The coordinator's calls: degraded localization and the choice of the next subgoal.
use hunter_kinodynamic_rl.Prelude.{
  ◌≡◌, refl, inl, inr, Bool, true, false, not, Option, none, some, List, [], ◌∷◌, Bool-cases, arith,
  ◌∙◌, if◌then◌else◌,
}
use hunter_kinodynamic_rl.Floats.{Floats, Float}
use hunter_kinodynamic_rl.Hierarchy.Goal
use hunter_kinodynamic_rl.Hierarchy.Subgoal
use hunter_kinodynamic_rl.Hierarchy.Subgoal.{SubgoalResult}
use hunter_kinodynamic_rl.Hierarchy.Subgoal.Status.{SubgoalStatus}
use hunter_kinodynamic_rl.Hierarchy.Replanning.{confidence_is_degraded}
use hunter_kinodynamic_rl.Hierarchy.Coordinator.{
  Coordinator, stop_required, mission_done, check_mission_timeout, confidence_is_healthy,
}
use hunter_kinodynamic_rl.Hierarchy.Coordinator.Activation.{
  Now, SubgoalValidityCheck, is_usable, take_candidate, try_candidates, activate_next_subgoal,
}
use hunter_kinodynamic_rl.Hierarchy.Coordinator.Ticks.{
  LocalTick, measure, settle, cancel_degraded, finish_subgoal, record_local_tick,
}
use hunter_kinodynamic_rl.Hierarchy.Coordinator.Invariant.{Inv, Idle, Kept, is_some}
use hunter_kinodynamic_rl.Hierarchy.Coordinator.Total.{measure-keeps, Inv-Running}
use hunter_kinodynamic_rl.Hierarchy.Coordinator.Returns.{measure_returns}

module _ ⦃M : Floats⦄ where
  -- The result of a subgoal that was cancelled for its localization.
  abbrev pub Cancelled : Option SubgoalResult → Type 0
  Cancelled none = ⊥
  Cancelled (some r) =
      (r.status ≡ SubgoalStatus.cancelled_by_replan)
      × (r.reason ≡ "localization_confidence_degraded")

  -- A tick that ends because localization is degraded.
  pub record Degraded (c d : Coordinator) : Type 0 where
    pub degraded : d.localization_degraded ≡ true
    pub stopped : stop_required d ≡ true
    pub not_reached : d.subgoal_reached ≡ false
    pub failed : d.subgoal_failed ≡ true
    pub cancelled : d.subgoal_manager.status ≡ some SubgoalStatus.cancelled_by_replan
    pub result : Cancelled d.last_subgoal_result
    pub mission_failed : d.mission_failed ≡ c.mission_failed
    pub mission_timed_out : d.mission_timed_out ≡ c.mission_timed_out
    pub candidate : d.current_candidate ≡ c.current_candidate
    pub goal_manager : d.goal_manager ≡ c.goal_manager
    pub queue : d.queue ≡ c.queue
    pub retry_count : d.retry_count ≡ c.retry_count

  measure-Kept : (t : LocalTick) (c : Coordinator) → Kept c (measure t c).1
  unfolding measure Goal.distance_and_bearing Subgoal.distance_to_subgoal Subgoal.record_tick
  measure-Kept t c = ground arith

  measure-not_reached : (t : LocalTick) (c : Coordinator) → (measure t c).1.subgoal_reached ≡ false
  unfolding measure Goal.distance_and_bearing Subgoal.distance_to_subgoal Subgoal.record_tick
  measure-not_reached t c = ground arith

  cancel_degraded-Degraded :
      (t : LocalTick) (c : Coordinator)
      → Subgoal.active c.subgoal_manager ≡ true
      → c.subgoal_reached ≡ false
      → Degraded c (cancel_degraded t c).1
  unfolding cancel_degraded finish_subgoal Subgoal.finish Subgoal.result_of
  cancel_degraded-Degraded t c a n = ground arith

  -- A tick whose confidence reading is degraded never confirms the goal or the subgoal, whatever
  -- the pose: it ends the subgoal as cancelled, never as failed, with a result that says so and names
  -- the degraded localization as the reason; it forbids motion, and leaves the goal manager, the
  -- mission's failure and timeout, the candidate, the queue and the retry counter alone. It is stated
  -- for states that satisfy the invariant and allow motion.
  pub record_local_tick-Degraded :
      (t : LocalTick) (c : Coordinator)
      → Inv c
      → stop_required c ≡ false
      → confidence_is_degraded t.localization_confidence
          c.config.replanning.localization_min_confidence
        ≡ true
      → Degraded c (record_local_tick t c).1
  unfolding record_local_tick settle
  record_local_tick-Degraded t c v go low =
      let a : Subgoal.active c.subgoal_manager ≡ true = ground arith in
      let k = measure-Kept t c in
      let (act, cfg) = measure-keeps t c in
      let x = cancel_degraded-Degraded t (measure t c).1 (act ∙ a) (measure-not_reached t c) in
      rw (go, measure_returns t c a (Inv-Running c v a), cfg, low)
        (record {
          degraded = x.degraded;
          stopped = x.stopped;
          not_reached = x.not_reached;
          failed = x.failed;
          cancelled = x.cancelled;
          result = x.result;
          mission_failed = x.mission_failed ∙ k.mission_failed;
          mission_timed_out = x.mission_timed_out ∙ k.mission_timed_out;
          candidate = x.candidate ∙ k.current_candidate;
          goal_manager = x.goal_manager ∙ k.goal_manager;
          queue = x.queue ∙ k.queue;
          retry_count = x.retry_count ∙ k.retry_count;
        })

  -- The candidates from the first usable one on, found without the coordinator.
  pub drop_unusable : Option SubgoalValidityCheck → List (Float × Float) → List (Float × Float)
  drop_unusable check [] = []
  drop_unusable check (xy ∷ rest) =
      let skipped = drop_unusable check rest in if is_usable check xy then xy ∷ rest else skipped

  -- What the search for a candidate leaves: the first usable one becomes the active subgoal and
  -- the ones behind it stay queued, or none is usable and the mission has failed.
  pub Chosen : List (Float × Float) → Coordinator → Type 0
  Chosen [] d =
      (d.queue ≡ []) × (d.mission_failed ≡ true) × (Subgoal.active d.subgoal_manager ≡ false)
  Chosen (xy ∷ rest) d =
      (d.queue ≡ rest)
      × (d.subgoal_manager.subgoal_xy ≡ some xy)
      × (d.current_candidate ≡ some xy)
      × (Subgoal.active d.subgoal_manager ≡ true)

  take_candidate-Chosen :
      (now : Now) (xy : Float × Float) (rest : List (Float × Float)) (c : Coordinator)
      → is_some c.goal_manager.mission_goal ≡ true
      → Idle c
      → Chosen (xy ∷ rest) (take_candidate now xy (record c { queue = rest })).1
  unfolding take_candidate Chosen Goal.distance_and_bearing Subgoal.activate
  take_candidate-Chosen now (x, y) rest c g idle = ground arith

  try_candidates-Chosen :
      (now : Now) (xys : List (Float × Float)) (c : Coordinator)
      → is_some c.goal_manager.mission_goal ≡ true
      → Idle c
      → Chosen (drop_unusable now.is_valid xys) (try_candidates now xys c).1
  unfolding try_candidates drop_unusable Chosen
  try_candidates-Chosen now [] c g idle = (refl, refl, idle)
  try_candidates-Chosen now (xy ∷ rest) c g idle = elim (Bool-cases (is_usable now.is_valid xy)) [
    | inl e ↦ rw e (take_candidate-Chosen now xy rest c g idle)
    | inr e ↦ rw e (try_candidates-Chosen now rest c g idle)
  ]

  -- Whether a confidence reading lets a subgoal start: a degraded coordinator wants a healthy
  -- reading, any other only no degraded one.
  abbrev pub is_trusted : Option Float → Coordinator → Bool
  is_trusted confidence c =
      let min_confidence = c.config.replanning.localization_min_confidence in
      if c.localization_degraded
      then confidence_is_healthy confidence min_confidence
      else not (confidence_is_degraded confidence min_confidence)

  -- A mission with a goal that has not ended nor timed out, asked for a next subgoal with a
  -- trusted confidence reading while none is active, gets the first usable candidate of the queue
  -- and keeps the ones behind it; without a usable one, the mission has failed.
  pub activate_next_subgoal-Chosen :
      (now : Now) (confidence : Option Float) (c : Coordinator)
      → is_some c.goal_manager.mission_goal ≡ true
      → Idle c
      → mission_done c ≡ false
      → check_mission_timeout c now.now_step now.now_time_sec ≡ false
      → is_trusted confidence c ≡ true
      → Chosen (drop_unusable now.is_valid c.queue) (activate_next_subgoal now confidence c).1
  unfolding activate_next_subgoal
  activate_next_subgoal-Chosen now confidence c g idle going early h = ground (
    arith,
    try_candidates-Chosen now c.queue (record c { localization_degraded = false }) g idle,
    try_candidates-Chosen now c.queue c g idle,
  )
