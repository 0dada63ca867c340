-- ===== src/Hierarchy/Replanning/Order.antt =====
-- The triggers of replanning.py as a table: the first check that fires decides.
use hunter_kinodynamic_rl.Prelude.{
  ℕ, String, ◌-◌, ◌<◌, ◌≤◌, ◌≡◌, refl, inl, inr, Bool, false, ◌&&◌, Option, none, some, List, [],
  ◌∷◌, length, drop, get_elem?, last?, last?-some, last?-drop, drop-cons, leb, Bool-cases, ◌∙◌,
  arith, if◌then◌else◌,
}
use hunter_kinodynamic_rl.Prelude.Int.{pos, leb_ℤ}
use hunter_kinodynamic_rl.Prelude.Result.{ok}
use hunter_kinodynamic_rl.Floats.{Floats, Float}
use hunter_kinodynamic_rl.Hierarchy.Subgoal.Status.{SubgoalStatus}
use hunter_kinodynamic_rl.Hierarchy.Replanning.{
  ReplanningConfig, ReplanTrigger, Evidence, window, stalled, no_progress, confidence_is_degraded,
  evaluate_replanning,
}

module _ ⦃M : Floats⦄ where
  open M use {sub, lt}

  abbrev falls_short : Float → Option Float → Option Float → Bool
  falls_short min_delta (some oldest) (some newest) = lt (sub oldest newest) min_delta
  falls_short min_delta _ _ = false

  -- The history holds a whole window, and over it the distance fell by less than the minimum:
  -- the sample `w` from the end against the last one.
  abbrev pub is_stuck : ReplanningConfig → List Float → Bool
  is_stuck config history =
      leb config.no_progress_window_steps (length history)
      && falls_short config.no_progress_min_delta_m
          (get_elem? history (length history - config.no_progress_window_steps)) (last? history)

  window-drop : (w : ℕ) (xs : List Float) → 0 < w → window w xs ≡ drop (length xs - w) xs
  unfolding window
  window-drop w xs h = ground arith

  stalled-last :
      (d : Float) (xs : List Float) (x y : Float) (rest : List Float)
      → xs ≡ x ∷ rest
      → last? xs ≡ some y
      → stalled d xs ≡ ok (lt (sub x y) d)
  unfolding stalled
  stalled-last d [] x y rest e l = cc
  stalled-last d (a ∷ tail) x y rest e l = rw (l, stalled) (ground arith)

  stalled-window :
      (w : ℕ) (d : Float) (xs : List Float)
      → 0 < w
      → w ≤ length xs
      → stalled d (window w xs) ≡ ok (falls_short d (get_elem? xs (length xs - w)) (last? xs))
  stalled-window w d xs h k =
      let (x, rest, e, g) = drop-cons (length xs - w) xs (omega arith) in
      let l = last?-drop (length xs - w) xs (omega arith) in
      let (y, n) = last?-some xs (omega arith) in
      rw (window-drop w xs h, g, n) (stalled-last d (drop (length xs - w) xs) x y rest e (l ∙ n))

  pub no_progress-is_stuck :
      (config : ReplanningConfig) (history : List Float)
      → 0 < config.no_progress_window_steps
      → no_progress config history ≡ ok (is_stuck config history)
  unfolding no_progress
  no_progress-is_stuck config history h =
      elim (Bool-cases (leb config.no_progress_window_steps (length history))) [
        | inl e ↦ rw e (
            stalled-window config.no_progress_window_steps config.no_progress_min_delta_m history h
              (ground arith))
        | inr e ↦ rw e refl
      ]

  pub first_firing : List (Bool × ReplanTrigger) → Option ReplanTrigger
  first_firing [] = none
  first_firing ((test, t) ∷ rest) = if test then some t else first_firing rest

  abbrev row : Bool → SubgoalStatus → String → Bool × ReplanTrigger
  row test status reason = (test, record { status = status; reason = reason })

  abbrev over : Float → Option Float → Bool
  over threshold none = false
  over threshold (some risk) = lt threshold risk

  -- The plan's table: each check with the trigger that it raises, the most urgent first.
  pub trigger_table : ReplanningConfig → Evidence → List (Bool × ReplanTrigger)
  trigger_table config e =
      row (confidence_is_degraded e.localization_confidence config.localization_min_confidence)
        SubgoalStatus.cancelled_by_replan "localization_confidence_degraded"
      ∷ row e.reached SubgoalStatus.reached "subgoal_tolerance_reached"
      ∷ row (leb_ℤ config.local_option_timeout_steps (pos e.local_steps))
          SubgoalStatus.failed_timeout "local_option_timeout"
      ∷ row (is_stuck config e.subgoal_distance_history) SubgoalStatus.failed_no_progress
          "no_progress_within_window"
      ∷ row e.subgoal_endpoint_blocked SubgoalStatus.failed_blocked
          "subgoal_endpoint_occupied_or_inflated"
      ∷ row (leb_ℤ config.consecutive_emergency_stop_limit (pos e.consecutive_emergency_stops))
          SubgoalStatus.failed_blocked "consecutive_emergency_stops"
      ∷ row (over config.local_risk_threshold e.latest_predicted_risk)
          SubgoalStatus.failed_high_risk "local_risk_threshold_exceeded"
      ∷ row e.junction_detected SubgoalStatus.cancelled_by_replan "new_junction_detected"
      ∷ []

  -- With a window of at least one sample, evaluation raises nothing and returns the trigger of the
  -- first check of the table that fires, or none if no check fires.
  pub evaluate_replanning-first_firing :
      (config : ReplanningConfig) (e : Evidence)
      → 0 < config.no_progress_window_steps
      → evaluate_replanning config e ≡ ok (first_firing (trigger_table config e))
  unfolding evaluate_replanning first_firing trigger_table
  evaluate_replanning-first_firing config e h =
      ground (arith, no_progress-is_stuck config e.subgoal_distance_history h)
