-- ===== src/Hierarchy/Coordinator/Preserved.antt =====
-- Every call keeps the coordinator's invariant, so it holds in every state that calls can reach.
use hunter_kinodynamic_rl.Prelude.{
  ◌≡◌, refl, ◌⊎◌, inl, inr, Bool, true, false, Option, none, some, Bool-cases, arith, if◌then◌else◌,
  ap, ◌∙◌,
}
use hunter_kinodynamic_rl.Prelude.Result.{Result, ok, err, runtime_error}
use hunter_kinodynamic_rl.Prelude.Exec.{Exec, continue, modify}
use hunter_kinodynamic_rl.Floats.{Floats, Float}
use hunter_kinodynamic_rl.Hierarchy.Geometry.{PoseXyYaw}
use hunter_kinodynamic_rl.Hierarchy.Goal
use hunter_kinodynamic_rl.Hierarchy.Goal.{GoalManager}
use hunter_kinodynamic_rl.Hierarchy.Subgoal
use hunter_kinodynamic_rl.Hierarchy.Subgoal.{SubgoalResult}
use hunter_kinodynamic_rl.Hierarchy.Subgoal.Status.{is_terminal, is_reached}
use hunter_kinodynamic_rl.Hierarchy.Replanning.{
  ReplanningConfig, ReplanTrigger, Evidence, confidence_is_degraded, evaluate_replanning,
}
use hunter_kinodynamic_rl.Hierarchy.Coordinator.{Coordinator, stop_required, check_mission_timeout}
use hunter_kinodynamic_rl.Hierarchy.Coordinator.Ticks.{
  LocalTick, now_of, measure, settle, replan, end_by_trigger, fail_over, evidence, cancel_degraded,
  goal_reached, time_out, time_out_or_replan, goal_or_subgoal, finish_subgoal, record_local_tick,
}
use hunter_kinodynamic_rl.Hierarchy.Coordinator.Invariant.{
  Inv, Idle, apply_recovery-Inv, finish_subgoal-Inv, length-push_max,
}

module _ ⦃M : Floats⦄ where
  -- A trigger always names a terminal status.
  pub evaluate_replanning-terminal :
      (config : ReplanningConfig) (e : Evidence) (t : ReplanTrigger)
      → evaluate_replanning config e ≡ ok (some t)
      → is_terminal t.status ≡ true
  unfolding evaluate_replanning
  evaluate_replanning-terminal config e t h = ground arith

  pub measure-Inv : (t : LocalTick) (c : Coordinator) → Inv c → Inv (measure t c).1
  unfolding measure Goal.distance_and_bearing Subgoal.distance_to_subgoal Subgoal.record_tick
  measure-Inv t c v = record {
    activity = ground arith;
    retries = ground arith;
    history = grind (arith, length-push_max);
  }

  end_by_trigger-Inv :
      (t : LocalTick) (o : Option ReplanTrigger) (c : Coordinator)
      → Inv c
      → ((tr : ReplanTrigger) → o ≡ some tr → is_terminal tr.status ≡ true)
      → Inv (end_by_trigger t o c).1
  unfolding end_by_trigger
  end_by_trigger-Inv t none c v h = v
  end_by_trigger-Inv t (some tr) c v h =
      let (idle, w) = finish_subgoal-Inv tr.status tr.reason t.now_time_sec c v (h tr refl) in
      go (finish_subgoal tr.status tr.reason t.now_time_sec c).0
        (finish_subgoal tr.status tr.reason t.now_time_sec c).1 idle w
    where
      after : SubgoalResult → Exec Coordinator (Unit {0})
      after result =
          if is_reached tr.status
          then modify (λ c. record c { subgoal_reached = true })
          else fail_over (now_of t) result

      go :
          (r : Result SubgoalResult) (d : Coordinator) → Idle d → Inv d → Inv (continue after d r).1
      go (err e) d idle w = w
      go (ok result) d idle w = elim (Bool-cases (is_reached tr.status)) [
        | inl e ↦ rw e (record { activity = inl idle; retries = w.retries; history = w.history })
        | inr e ↦ rw e (
            apply_recovery-Inv (now_of t) result (record d { subgoal_failed = true }) idle
              (record { activity = inl idle; retries = w.retries; history = w.history }))
      ]

  replan-Inv : (t : LocalTick) (c : Coordinator) → Inv c → Inv (replan t c).1
  unfolding replan
  replan-Inv t c v = go (Subgoal.check_reached c.subgoal_manager t.pose t.speed_mps)
    where
      decided : Bool → Result (Option ReplanTrigger)
      decided b = evaluate_replanning c.config.replanning (evidence t b c)

      ends :
          (b : Bool) (r : Result (Option ReplanTrigger))
          → decided b ≡ r
          → Inv (continue (end_by_trigger t) c r).1
      ends b (err e) h = v
      ends b (ok o) h = end_by_trigger-Inv t o c v (λ tr e.
          evaluate_replanning-terminal c.config.replanning (evidence t b c) tr (h ∙ ap ok e))

      go :
          (r : Result Bool)
          → Inv
              (continue
                (λ b c'.
                  continue
                    (end_by_trigger t)
                    c'
                    (evaluate_replanning c'.config.replanning (evidence t b c')))
                c
                r).1
      go (err e) = v
      go (ok b) = ends b (decided b) refl

  goal_reached-Inv :
      (t : LocalTick) (g : GoalManager) (c : Coordinator)
      → Inv c
      → Inv (goal_reached t (record c { goal_manager = g })).1
  unfolding goal_reached finish_subgoal Subgoal.finish
  goal_reached-Inv t g c v = ground arith

  cancel_degraded-Inv : (t : LocalTick) (c : Coordinator) → Inv c → Inv (cancel_degraded t c).1
  unfolding cancel_degraded finish_subgoal Subgoal.finish
  cancel_degraded-Inv t c v = ground arith

  time_out-Inv : (t : LocalTick) (c : Coordinator) → Inv c → Inv (time_out t c).1
  unfolding time_out finish_subgoal Subgoal.finish
  time_out-Inv t c v = ground arith

  -- The goal manager changes only when it confirms the goal.
  pub check_reached-keeps :
      (g : GoalManager) (pose : PoseXyYaw) (speed : Option Float)
      → ((Goal.check_reached g pose speed).0 ≡ ok true) ⊎ ((Goal.check_reached g pose speed).1 ≡ g)
  unfolding Goal.check_reached
  check_reached-keeps g pose speed = ground arith

  time_out_or_replan-Inv :
      (t : LocalTick) (c : Coordinator) → Inv c → Inv (time_out_or_replan t c).1
  unfolding time_out_or_replan
  time_out_or_replan-Inv t c v =
      elim (Bool-cases (check_mission_timeout c t.now_step t.now_time_sec)) [
        | inl e ↦ rw e (time_out-Inv t c v)
        | inr e ↦ rw e (replan-Inv t c v)
      ]

  goal_or_subgoal-Inv : (t : LocalTick) (c : Coordinator) → Inv c → Inv (goal_or_subgoal t c).1
  unfolding goal_or_subgoal
  goal_or_subgoal-Inv t c v =
      go (Goal.check_reached c.goal_manager t.pose t.speed_mps).0
        (Goal.check_reached c.goal_manager t.pose t.speed_mps).1
        (check_reached-keeps c.goal_manager t.pose t.speed_mps)
    where
      after : Bool → Exec Coordinator (Unit {0})
      after at_goal = if at_goal then goal_reached t else time_out_or_replan t

      go :
          (r : Result Bool) (g : GoalManager)
          → (r ≡ ok true) ⊎ (g ≡ c.goal_manager)
          → Inv (continue after (record c { goal_manager = g }) r).1
      go (ok true) g h = goal_reached-Inv t g c v
      go (ok false) g (inl e) = cc
      go (ok false) g (inr e) = rw e (time_out_or_replan-Inv t c v)
      go (err x) g (inl e) = cc
      go (err x) g (inr e) = rw e v

  pub settle-Inv : (t : LocalTick) (c : Coordinator) → Inv c → Inv (settle t c).1
  unfolding settle
  settle-Inv t c v =
      elim (Bool-cases (
        confidence_is_degraded t.localization_confidence
          c.config.replanning.localization_min_confidence)) [
            | inl e ↦ rw e (cancel_degraded-Inv t c v)
            | inr e ↦ rw e (goal_or_subgoal-Inv t c v)
          ]

  -- A local tick keeps the invariant, also where it raises.
  pub record_local_tick-Inv :
      (t : LocalTick) (c : Coordinator) → Inv c → Inv (record_local_tick t c).1
  unfolding record_local_tick
  record_local_tick-Inv t c v = go (if stop_required c then err runtime_error else ok tt)
    where
      settled :
          (r : Result (Unit {0})) (d : Coordinator) → Inv d → Inv (continue (λ _. settle t) d r).1
      settled (ok x) d w = settle-Inv t d w
      settled (err x) d w = w

      go :
          (r : Result (Unit {0}))
          → Inv
              (continue (λ _ c'. continue (λ _. settle t) (measure t c').1 (measure t c').0) c r).1
      go (err e) = v
      go (ok x) = settled (measure t c).0 (measure t c).1 (measure-Inv t c v)
