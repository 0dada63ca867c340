-- ===== src/Hierarchy/Coordinator/ForcedInvariant.antt =====
-- A forced termination keeps the invariant.
use hunter_kinodynamic_rl.Prelude.{
  String, ◌≡◌, ◌⊎◌, inl, inr, some, none, true, Option, not, Bool-cases, arith, if◌then◌else◌,
}
use hunter_kinodynamic_rl.Prelude.Int.{ℤ}
use hunter_kinodynamic_rl.Prelude.Result.{Result, ok, err, runtime_error, value_error}
use hunter_kinodynamic_rl.Prelude.Exec.{Exec, continue, continue-pure, modify, pure, ◌>>◌}
use hunter_kinodynamic_rl.Floats.{Floats, Float}
use hunter_kinodynamic_rl.Hierarchy.Geometry.{PoseXyYaw}
use hunter_kinodynamic_rl.Hierarchy.Subgoal
use hunter_kinodynamic_rl.Hierarchy.Subgoal.{SubgoalResult}
use hunter_kinodynamic_rl.Hierarchy.Subgoal.Status.{SubgoalStatus, is_reached}
use hunter_kinodynamic_rl.Hierarchy.Coordinator.{Coordinator}
use hunter_kinodynamic_rl.Hierarchy.Coordinator.Activation.{SubgoalValidityCheck}
use hunter_kinodynamic_rl.Hierarchy.Coordinator.Ticks.{finish_subgoal}
use hunter_kinodynamic_rl.Hierarchy.Coordinator.Forced.{
  recover_from, is_degraded_cancel, first_pose, fail_over_from, force_terminate_active_subgoal,
}
use hunter_kinodynamic_rl.Hierarchy.Coordinator.Invariant.{Inv, Idle, apply_recovery-Inv}

module _ ⦃M : Floats⦄ where
  recover_from-Inv :
      (pose : Option PoseXyYaw) (step : ℤ) (time : Float) (check : Option SubgoalValidityCheck)
      (r : SubgoalResult) (c : Coordinator)
      → Idle c
      → Inv c
      → Inv (recover_from pose step time check r c).1
  unfolding recover_from
  recover_from-Inv none step time check r c idle v = record {
    activity = inl idle;
    retries = v.retries;
    history = v.history;
  }
  recover_from-Inv (some pose) step time check r c idle v = apply_recovery-Inv _ r c idle v

  pub fail_over_from-Inv :
      (s : SubgoalStatus) (reason : String) (pose : Option PoseXyYaw) (step : ℤ) (time : Float)
      (check : Option SubgoalValidityCheck) (r : SubgoalResult) (c : Coordinator)
      → Idle c
      → Inv c
      → Inv (fail_over_from s reason pose step time check r c).1
  unfolding fail_over_from
  fail_over_from-Inv s reason pose step time check r c idle v =
      let kept : Inv (record c { subgoal_failed = true }) = record {
        activity = inl idle;
        retries = v.retries;
        history = v.history;
      } in
      elim (Bool-cases (is_degraded_cancel s reason)) [
        | inl e ↦ rw e (record { activity = inl idle; retries = v.retries; history = v.history })
        | inr e ↦ rw e (
            recover_from-Inv (first_pose pose c.last_pose) step time check r
              (record c { subgoal_failed = true }) idle kept)
      ]

  finish_any :
      (s : SubgoalStatus) (reason : String) (time : Float) (c : Coordinator)
      → Inv c
      → Inv (finish_subgoal s reason time c).1
        × (Idle (finish_subgoal s reason time c).1
            ⊎ ((finish_subgoal s reason time c).0 ≡ err value_error))
  unfolding finish_subgoal Subgoal.finish
  finish_any s reason time c v = ground arith

  pub force-Inv :
      (s : SubgoalStatus) (reason : String) (pose : Option PoseXyYaw) (step : ℤ) (time : Float)
      (check : Option SubgoalValidityCheck) (c : Coordinator)
      → Inv c
      → Inv (force_terminate_active_subgoal s reason pose step time check c).1
  unfolding force_terminate_active_subgoal
  force-Inv s reason pose step time check c v =
      let (w, ends) = finish_any s reason time c v in
      go (if not (Subgoal.active c.subgoal_manager) then err runtime_error else ok tt)
        (λ _. finished (finish_subgoal s reason time c).0 (finish_subgoal s reason time c).1 w ends)
    where
      after : SubgoalResult → Exec Coordinator (Unit {0})
      after r =
          if is_reached s
          then modify (λ c. record c { subgoal_reached = true })
          else fail_over_from s reason pose step time check r

      ended : SubgoalResult → Exec Coordinator SubgoalResult
      ended r = after r >> pure r

      finished :
          (r : Result SubgoalResult) (d : Coordinator)
          → Inv d
          → Idle d ⊎ (r ≡ err value_error)
          → Inv (continue ended d r).1
      finished (err e) d w h = w
      finished (ok r) d w (inr e) = cc
      finished (ok r) d w (inl idle) =
          rw (continue-pure r (after r d).1 (after r d).0) (elim (Bool-cases (is_reached s)) [
            | inl e ↦
                rw e (record { activity = inl idle; retries = w.retries; history = w.history })
            | inr e ↦ rw e (fail_over_from-Inv s reason pose step time check r d idle w)
          ])

      go :
          (r : Result (Unit {0}))
          → (Unit {0}
              → Inv
                  (continue ended
                    (finish_subgoal s reason time c).1
                    (finish_subgoal s reason time c).0).1)
          → Inv
              (continue
                (λ _ d.
                  continue ended
                    (finish_subgoal s reason time d).1
                    (finish_subgoal s reason time d).0)
                c
                r).1
      go (err e) h = v
      go (ok x) h = h tt
