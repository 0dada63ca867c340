-- ===== src/Hierarchy/Replanning.antt =====
-- navigation/hierarchy/replanning.py: whether the active subgoal ends on this tick, and how.
pub mod Order
use hunter_kinodynamic_rl.Prelude.{
  ℕ, ◌-◌, String, Bool, false, not, ◌&&◌, ◌||◌, Option, none, some, List, [], ◌∷◌, length, drop,
  last?, leb, ◌==◌, if◌then◌else◌,
}
use hunter_kinodynamic_rl.Prelude.Int.{ℤ, pos, leb_ℤ}
use hunter_kinodynamic_rl.Prelude.Result.{
  Result, ok, err, value_error, index_error, guard, ◌>>◌, ◌>>=◌,
}
use hunter_kinodynamic_rl.Floats.{Floats, Float}
use hunter_kinodynamic_rl.Hierarchy.Subgoal.Status.{SubgoalStatus}

module _ ⦃M : Floats⦄ where
  open M use {zero_f, of_ℕ, sub, lt, le, is_finite}

  -- The window is the length of a deque, which is never negative.
  pub record ReplanningConfig : Type 0 where
    pub local_option_timeout_steps : ℤ
    pub no_progress_window_steps : ℕ
    pub no_progress_min_delta_m : Float
    pub consecutive_emergency_stop_limit : ℤ
    pub local_risk_threshold : Float
    pub localization_min_confidence : Float

  unfoldable pub validate : ReplanningConfig → Result (Unit {0})
  validate config =
      guard (not (leb_ℤ config.local_option_timeout_steps (pos 0))) value_error
      >> guard (not (leb config.no_progress_window_steps 0)) value_error
      >> guard (not (lt config.no_progress_min_delta_m zero_f)) value_error
      >> guard (not (leb_ℤ config.consecutive_emergency_stop_limit (pos 0))) value_error
      >> guard (not (le config.local_risk_threshold zero_f)) value_error
      >> guard
          (le zero_f config.localization_min_confidence
            && le config.localization_min_confidence (of_ℕ 1))
          value_error

  pub record ReplanTrigger : Type 0 where
    pub status : SubgoalStatus
    pub reason : String

  unfoldable pub confidence_is_degraded : Option Float → Float → Bool
  confidence_is_degraded none min_confidence = false
  confidence_is_degraded (some value) min_confidence =
      not (is_finite value) || lt value min_confidence

  -- `history[-w:]`
  window : ℕ → List Float → List Float
  window w history = if w == 0 then history else drop (length history - w) history

  -- `(window[0] - window[-1]) < min_delta`
  stalled : Float → List Float → Result Bool
  stalled min_delta [] = err index_error
  stalled min_delta (x ∷ xs) = elim (last? (x ∷ xs)) [
    | none ↦ err index_error
    | some y ↦ ok (lt (sub x y) min_delta)
  ]

  unfoldable pub no_progress : ReplanningConfig → List Float → Result Bool
  unfolding window stalled
  no_progress config history =
      if leb config.no_progress_window_steps (length history)
      then stalled config.no_progress_min_delta_m (window config.no_progress_window_steps history)
      else ok false

  -- The keyword arguments of `evaluate_replanning`.
  pub record Evidence : Type 0 where
    pub reached : Bool
    pub local_steps : ℕ
    pub subgoal_distance_history : List Float
    pub subgoal_endpoint_blocked : Bool
    pub consecutive_emergency_stops : ℕ
    pub latest_predicted_risk : Option Float
    pub localization_confidence : Option Float
    pub junction_detected : Bool

  risk_exceeds : ReplanningConfig → Option Float → Bool
  risk_exceeds config none = false
  risk_exceeds config (some risk) = lt config.local_risk_threshold risk

  abbrev fires : SubgoalStatus → String → Option ReplanTrigger
  fires status reason = some (record { status = status; reason = reason })

  -- The checks below the progress window.
  late_checks : ReplanningConfig → Evidence → Option ReplanTrigger
  unfolding risk_exceeds
  late_checks config e =
      if e.subgoal_endpoint_blocked
      then fires SubgoalStatus.failed_blocked "subgoal_endpoint_occupied_or_inflated"
      else if leb_ℤ config.consecutive_emergency_stop_limit (pos e.consecutive_emergency_stops)
      then fires SubgoalStatus.failed_blocked "consecutive_emergency_stops"
      else if risk_exceeds config e.latest_predicted_risk
      then fires SubgoalStatus.failed_high_risk "local_risk_threshold_exceeded"
      else if e.junction_detected
      then fires SubgoalStatus.cancelled_by_replan "new_junction_detected"
      else none

  unfoldable pub evaluate_replanning : ReplanningConfig → Evidence → Result (Option ReplanTrigger)
  unfolding late_checks
  evaluate_replanning config e =
      if confidence_is_degraded e.localization_confidence config.localization_min_confidence
      then ok (fires SubgoalStatus.cancelled_by_replan "localization_confidence_degraded")
      else if e.reached
      then ok (fires SubgoalStatus.reached "subgoal_tolerance_reached")
      else if leb_ℤ config.local_option_timeout_steps (pos e.local_steps)
      then ok (fires SubgoalStatus.failed_timeout "local_option_timeout")
      else (do
        stuck ← no_progress config e.subgoal_distance_history
        ok (
            if stuck
            then fires SubgoalStatus.failed_no_progress "no_progress_within_window"
            else late_checks config e))
