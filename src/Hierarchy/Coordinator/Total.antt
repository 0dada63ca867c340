-- ===== src/Hierarchy/Coordinator/Total.antt =====
-- Under the invariant no exception can leave a local tick, whatever its readings.
use hunter_kinodynamic_rl.Prelude.{
  String, ◌<◌, ◌≡◌, refl, ◌⊎◌, inl, inr, Bool, true, false, Option, Bool-cases, ap, ◌∙◌, arith,
  if◌then◌else◌,
}
use hunter_kinodynamic_rl.Prelude.Result.{Result, ok, err, Returns}
use hunter_kinodynamic_rl.Prelude.Exec.{Exec, continue}
use hunter_kinodynamic_rl.Floats.{Floats, Float}
use hunter_kinodynamic_rl.Hierarchy.Goal
use hunter_kinodynamic_rl.Hierarchy.Goal.{GoalManager}
use hunter_kinodynamic_rl.Hierarchy.Subgoal
use hunter_kinodynamic_rl.Hierarchy.Subgoal.{SubgoalResult}
use hunter_kinodynamic_rl.Hierarchy.Subgoal.Status.{SubgoalStatus, is_terminal}
use hunter_kinodynamic_rl.Hierarchy.Replanning.{
  ReplanTrigger, confidence_is_degraded, evaluate_replanning,
}
use hunter_kinodynamic_rl.Hierarchy.Coordinator.{Coordinator, stop_required, check_mission_timeout}
use hunter_kinodynamic_rl.Hierarchy.Coordinator.Ticks.{
  LocalTick, measure, settle, replan, end_by_trigger, evidence, cancel_degraded, goal_reached,
  time_out, time_out_or_replan, goal_or_subgoal, finish_subgoal, record_local_tick,
}
use hunter_kinodynamic_rl.Hierarchy.Coordinator.Invariant.{Inv, Running}
use hunter_kinodynamic_rl.Hierarchy.Coordinator.Preserved.{
  evaluate_replanning-terminal, check_reached-keeps, measure-Inv,
}
use hunter_kinodynamic_rl.Hierarchy.Coordinator.Returns.{
  GoalSet, measure_returns, finish_subgoal_returns, end_by_trigger-Returns, check_reached-Returns,
  evaluate_replanning-Returns,
}

module _ ⦃M : Floats⦄ where
  replan-Returns :
      (t : LocalTick) (c : Coordinator)
      → Subgoal.active c.subgoal_manager ≡ true
      → Running c
      → 0 < c.config.replanning.no_progress_window_steps
      → Returns (replan t c).0
  unfolding replan
  replan-Returns t c a r w =
      go (Subgoal.check_reached c.subgoal_manager t.pose t.speed_mps)
        (check_reached-Returns t c a r)
    where
      decided : Bool → Result (Option ReplanTrigger)
      decided b = evaluate_replanning c.config.replanning (evidence t b c)

      ends :
          (b : Bool) (d : Result (Option ReplanTrigger))
          → decided b ≡ d
          → Returns d
          → Returns (continue (end_by_trigger t) c d).0
      ends b (err e) h k = absurd k
      ends b (ok o) h k =
          end_by_trigger-Returns t o c a r.goal_set (λ x e.
            evaluate_replanning-terminal c.config.replanning (evidence t b c) x (h ∙ ap ok e))

      go :
          (d : Result Bool)
          → Returns d
          → Returns
              (continue
                (λ b c'.
                  continue
                    (end_by_trigger t)
                    c'
                    (evaluate_replanning c'.config.replanning (evidence t b c')))
                c
                d).0
      go (err e) k = absurd k
      go (ok b) k =
          ends b (decided b) refl
            (evaluate_replanning-Returns c.config.replanning (evidence t b c) w)

  finishing-Returns :
      (s : SubgoalStatus) (reason : String) (f : Coordinator → Coordinator) (time : Float)
      (c : Coordinator)
      → Subgoal.active c.subgoal_manager ≡ true
      → is_terminal s ≡ true
      → Returns
          (continue
            (λ _ d. (ok tt, f d))
            (finish_subgoal s reason time c).1
            (finish_subgoal s reason time c).0).0
  finishing-Returns s reason f time c a h =
      let (r, e, _) = finish_subgoal_returns s reason time c a h in rw e tt

  time_out_or_replan-Returns :
      (t : LocalTick) (c : Coordinator)
      → Subgoal.active c.subgoal_manager ≡ true
      → Running c
      → 0 < c.config.replanning.no_progress_window_steps
      → Returns (time_out_or_replan t c).0
  unfolding time_out_or_replan time_out
  time_out_or_replan-Returns t c a r w =
      elim (Bool-cases (check_mission_timeout c t.now_step t.now_time_sec)) [
        | inl e ↦ rw e (
            finishing-Returns SubgoalStatus.cancelled_by_replan "mission_timeout"
              (λ c. record c { mission_timed_out = true }) t.now_time_sec c a refl)
        | inr e ↦ rw e (replan-Returns t c a r w)
      ]

  goal_check-Returns :
      (t : LocalTick) (c : Coordinator)
      → GoalSet c
      → Returns (Goal.check_reached c.goal_manager t.pose t.speed_mps).0
  unfolding Goal.check_reached Goal.distance_and_bearing
  goal_check-Returns t c g = ground arith

  goal_or_subgoal-Returns :
      (t : LocalTick) (c : Coordinator)
      → Subgoal.active c.subgoal_manager ≡ true
      → Running c
      → 0 < c.config.replanning.no_progress_window_steps
      → Returns (goal_or_subgoal t c).0
  unfolding goal_or_subgoal goal_reached
  goal_or_subgoal-Returns t c a r w =
      go (Goal.check_reached c.goal_manager t.pose t.speed_mps).0
        (Goal.check_reached c.goal_manager t.pose t.speed_mps).1 (goal_check-Returns t c r.goal_set)
        (check_reached-keeps c.goal_manager t.pose t.speed_mps)
    where
      after : Bool → Exec Coordinator (Unit {0})
      after at_goal = if at_goal then goal_reached t else time_out_or_replan t

      go :
          (d : Result Bool) (g : GoalManager)
          → Returns d
          → (d ≡ ok true) ⊎ (g ≡ c.goal_manager)
          → Returns (continue after (record c { goal_manager = g }) d).0
      go (ok true) g k h =
          finishing-Returns SubgoalStatus.reached "final_goal_reached_during_subgoal"
            (λ c. record c { subgoal_reached = true }) t.now_time_sec
            (record c { goal_manager = g }) a refl
      go (ok false) g k (inl e) = cc
      go (ok false) g k (inr e) = rw e (time_out_or_replan-Returns t c a r w)
      go (err x) g k h = absurd k

  settle-Returns :
      (t : LocalTick) (c : Coordinator)
      → Subgoal.active c.subgoal_manager ≡ true
      → Running c
      → 0 < c.config.replanning.no_progress_window_steps
      → Returns (settle t c).0
  unfolding settle cancel_degraded
  settle-Returns t c a r w =
      elim (Bool-cases (
        confidence_is_degraded t.localization_confidence
          c.config.replanning.localization_min_confidence)) [
            | inl e ↦ rw e (
                finishing-Returns SubgoalStatus.cancelled_by_replan
                  "localization_confidence_degraded"
                  (λ c. record c { subgoal_failed = true; localization_degraded = true })
                  t.now_time_sec c a refl)
            | inr e ↦ rw e (goal_or_subgoal-Returns t c a r w)
          ]

  -- The bookkeeping of a tick keeps the subgoal active and the configuration as it is.
  pub measure-keeps :
      (t : LocalTick) (c : Coordinator)
      → (Subgoal.active (measure t c).1.subgoal_manager ≡ Subgoal.active c.subgoal_manager)
        × ((measure t c).1.config ≡ c.config)
  unfolding measure Goal.distance_and_bearing Subgoal.distance_to_subgoal Subgoal.record_tick
  measure-keeps t c = ground arith

  pub Inv-Running : (c : Coordinator) → Inv c → Subgoal.active c.subgoal_manager ≡ true → Running c
  Inv-Running c v a = ground arith

  -- In a state that satisfies the invariant and in which motion is allowed, a local tick raises
  -- nothing, whatever it reads, as long as the progress window holds a sample.
  pub record_local_tick-Returns :
      (t : LocalTick) (c : Coordinator)
      → Inv c
      → stop_required c ≡ false
      → 0 < c.config.replanning.no_progress_window_steps
      → Returns (record_local_tick t c).0
  unfolding record_local_tick
  record_local_tick-Returns t c v go w =
      let a : Subgoal.active c.subgoal_manager ≡ true = ground arith in
      let (k, e) = measure-keeps t c in
      rw (go, measure_returns t c a (Inv-Running c v a))
        (settle-Returns t (measure t c).1 (k ∙ a)
          (Inv-Running (measure t c).1 (measure-Inv t c v) (k ∙ a)) (rw e w))
