-- ===== src/Hierarchy/Coordinator/Returns.antt =====
-- What the calls of a local tick need to raise nothing.
use hunter_kinodynamic_rl.Prelude.{
  ℕ, String, ◌+◌, ◌<◌, ◌≡◌, refl, inl, inr, Bool, true, false, Option, none, some, List, [], ◌∷◌,
  Bool-cases, Option-cases, arith, if◌then◌else◌,
}
use hunter_kinodynamic_rl.Prelude.Result.{Result, ok, err, Returns}
use hunter_kinodynamic_rl.Prelude.Exec.{continue, modify}
use hunter_kinodynamic_rl.Floats.{Floats, Float}
use hunter_kinodynamic_rl.Hierarchy.Goal
use hunter_kinodynamic_rl.Hierarchy.Goal.{GoalManager}
use hunter_kinodynamic_rl.Hierarchy.Subgoal
use hunter_kinodynamic_rl.Hierarchy.Subgoal.{SubgoalResult}
use hunter_kinodynamic_rl.Hierarchy.Subgoal.Status.{SubgoalStatus, is_reached, is_terminal}
use hunter_kinodynamic_rl.Hierarchy.Replanning.{
  ReplanningConfig, ReplanTrigger, Evidence, evaluate_replanning,
}
use hunter_kinodynamic_rl.Hierarchy.Replanning.Order.{evaluate_replanning-first_firing}
use hunter_kinodynamic_rl.Hierarchy.Recovery.{
  FailureRecoveryConfig, RecoveryAction, retry_same, advance_next, abort_mission, decide,
}
use hunter_kinodynamic_rl.Hierarchy.Coordinator.{Coordinator}
use hunter_kinodynamic_rl.Hierarchy.Coordinator.Activation.{
  Now, is_usable, take_candidate, try_candidates, activate_next_subgoal, retry_current_candidate,
}
use hunter_kinodynamic_rl.Hierarchy.Coordinator.Ticks.{
  LocalTick, now_of, measure, end_by_trigger, fail_over, finish_subgoal, recover, apply_recovery,
  is_nonempty,
}
use hunter_kinodynamic_rl.Hierarchy.Coordinator.Invariant.{Idle, Running, is_some}

module _ ⦃M : Floats⦄ where
  abbrev pub GoalSet : Coordinator → Type 0
  GoalSet c = is_some c.goal_manager.mission_goal ≡ true

  take_candidate-Returns :
      (now : Now) (xy : Float × Float) (c : Coordinator)
      → Idle c
      → GoalSet c
      → Returns (take_candidate now xy c).0
  unfolding take_candidate Goal.distance_and_bearing Subgoal.activate
  take_candidate-Returns now (x, y) c idle g = ground arith

  try_candidates-Returns :
      (now : Now) (xys : List (Float × Float)) (c : Coordinator)
      → Idle c
      → GoalSet c
      → Returns (try_candidates now xys c).0
  unfolding try_candidates
  try_candidates-Returns now [] c idle g = tt
  try_candidates-Returns now (xy ∷ rest) c idle g = elim (Bool-cases (is_usable now.is_valid xy)) [
    | inl e ↦ rw e (take_candidate-Returns now xy (record c { queue = rest }) idle g)
    | inr e ↦ rw e (try_candidates-Returns now rest c idle g)
  ]

  activate_next_subgoal-Returns :
      (now : Now) (conf : Option Float) (c : Coordinator)
      → Idle c
      → GoalSet c
      → Returns (activate_next_subgoal now conf c).0
  unfolding activate_next_subgoal
  activate_next_subgoal-Returns now conf c idle g = ground (
    arith,
    try_candidates-Returns now c.queue (record c { localization_degraded = false }) idle g,
    try_candidates-Returns now c.queue c idle g,
  )

  retry-Returns :
      (now : Now) (c : Coordinator) → Idle c → GoalSet c → Returns (retry_current_candidate now c).0
  unfolding retry_current_candidate
  retry-Returns now c idle g = elim (Option-cases c.current_candidate) [
    | inl e ↦ rw (e, retry_current_candidate) tt
    | inr (xy, e) ↦
        rw (e, retry_current_candidate)
          (activate_next_subgoal-Returns now none (record c { queue = xy ∷ c.queue }) idle g)
  ]

  pub measure_returns :
      (t : LocalTick) (c : Coordinator)
      → Subgoal.active c.subgoal_manager ≡ true
      → Running c
      → (measure t c).0 ≡ ok tt
  unfolding measure Goal.distance_and_bearing Subgoal.distance_to_subgoal Subgoal.record_tick
  measure_returns t c a r = ground arith

  pub evaluate_replanning-Returns :
      (config : ReplanningConfig) (e : Evidence)
      → 0 < config.no_progress_window_steps
      → Returns (evaluate_replanning config e)
  evaluate_replanning-Returns config e h = rw (evaluate_replanning-first_firing config e h) tt

  decide-Returns :
      (config : FailureRecoveryConfig) (s : SubgoalStatus) (n : ℕ) (b : Bool)
      → is_reached s ≡ false
      → Returns (decide config s n b)
  unfolding decide
  decide-Returns config s n b h = ground arith

  continue-pure-Returns :
      {A B S : Type 0} (b : B) (s : S) (r : Result A)
      → Returns r
      → Returns (continue (λ _ d. (ok b, d)) s r).0
  continue-pure-Returns b s (ok a) h = tt
  continue-pure-Returns b s (err e) h = absurd h

  recover-Returns :
      (now : Now) (a : RecoveryAction) (c : Coordinator)
      → Idle c
      → GoalSet c
      → Returns (recover now a c).0
  unfolding recover
  recover-Returns now retry_same c idle g =
      let again = record c { retry_count = c.retry_count + 1 } in
      continue-pure-Returns tt (retry_current_candidate now again).1
        (retry_current_candidate now again).0 (retry-Returns now again idle g)
  recover-Returns now advance_next c idle g =
      let fresh = record c { retry_count = 0 } in
      continue-pure-Returns tt (activate_next_subgoal now none fresh).1
        (activate_next_subgoal now none fresh).0
        (activate_next_subgoal-Returns now none fresh idle g)
  recover-Returns now abort_mission c idle g = tt

  apply_recovery-Returns :
      (now : Now) (r : SubgoalResult) (c : Coordinator)
      → Idle c
      → GoalSet c
      → is_reached r.status ≡ false
      → Returns (apply_recovery now r c).0
  unfolding apply_recovery
  apply_recovery-Returns now r c idle g n =
      go (decide c.config.recovery r.status c.retry_count (is_nonempty c.queue))
        (decide-Returns c.config.recovery r.status c.retry_count (is_nonempty c.queue) n)
    where
      go : (d : Result RecoveryAction) → Returns d → Returns (continue (recover now) c d).0
      go (ok a) h = recover-Returns now a c idle g
      go (err e) h = absurd h

  -- What `finish` returns for an active subgoal and a terminal status.
  pub record Finished (s : SubgoalStatus) (c d : Coordinator) (r : SubgoalResult) : Type 0 where
    status : r.status ≡ s
    idle : Idle d
    goal : d.goal_manager ≡ c.goal_manager

  pub finish_subgoal_returns :
      (s : SubgoalStatus) (reason : String) (time : Float) (c : Coordinator)
      → Subgoal.active c.subgoal_manager ≡ true
      → is_terminal s ≡ true
      → (r : SubgoalResult) × ((finish_subgoal s reason time c).0 ≡ ok r)
        × Finished s c (finish_subgoal s reason time c).1 r
  unfolding finish_subgoal Subgoal.finish
  finish_subgoal_returns s reason time c a h = (
    Subgoal.result_of c.subgoal_manager s reason time,
    ground arith,
    record { status = refl; idle = ground arith; goal = ground arith },
  )

  pub end_by_trigger-Returns :
      (t : LocalTick) (o : Option ReplanTrigger) (c : Coordinator)
      → Subgoal.active c.subgoal_manager ≡ true
      → GoalSet c
      → ((x : ReplanTrigger) → o ≡ some x → is_terminal x.status ≡ true)
      → Returns (end_by_trigger t o c).0
  unfolding end_by_trigger
  end_by_trigger-Returns t none c a g h = tt
  end_by_trigger-Returns t (some x) c a g h =
      let (r, e, f) = finish_subgoal_returns x.status x.reason t.now_time_sec c a (h x refl) in
      rw e (go r (finish_subgoal x.status x.reason t.now_time_sec c).1 f)
    where
      go :
          (r : SubgoalResult) (d : Coordinator)
          → Finished x.status c d r
          → Returns
              ((if is_reached x.status
                  then modify (λ c. record c { subgoal_reached = true })
                  else fail_over (now_of t) r)
                d).0
      go r d f = elim (Bool-cases (is_reached x.status)) [
        | inl e ↦ rw e tt
        | inr e ↦ rw e (
            apply_recovery-Returns (now_of t) r (record d { subgoal_failed = true }) f.idle
              (rw f.goal g) (rw f.status e))
      ]

  pub check_reached-Returns :
      (t : LocalTick) (c : Coordinator)
      → Subgoal.active c.subgoal_manager ≡ true
      → Running c
      → Returns (Subgoal.check_reached c.subgoal_manager t.pose t.speed_mps)
  unfolding Subgoal.check_reached
  check_reached-Returns t c a r = ground arith
