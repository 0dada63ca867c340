-- ===== src/Hierarchy/Coordinator/Invariant.antt =====
-- What holds of a coordinator between two calls: an active subgoal belongs to a mission that
-- goes on, is the current candidate, and is never kept while localization is degraded.
use hunter_kinodynamic_rl.Prelude.{
  ℕ, String, ◌-◌, ◌+◌, ◌≤◌, ◌≡◌, refl, ◌⊎◌, inl, inr, Bool, true, false, Option, none, some, List,
  [], ◌∷◌, ◌++◌, length, length-drop, Bool-cases, Option-cases, arith,
}
use hunter_kinodynamic_rl.Prelude.Int.{pos, ◌≤ℤ◌}
use hunter_kinodynamic_rl.Prelude.Result.{Result, ok, err}
use hunter_kinodynamic_rl.Prelude.Exec.{continue, continue-pure}
use hunter_kinodynamic_rl.Floats.{Floats, Float}
use hunter_kinodynamic_rl.Hierarchy.Geometry.{goal_distance_and_heading}
use hunter_kinodynamic_rl.Hierarchy.Goal
use hunter_kinodynamic_rl.Hierarchy.Subgoal
use hunter_kinodynamic_rl.Hierarchy.Subgoal.{SubgoalResult}
use hunter_kinodynamic_rl.Hierarchy.Coordinator.{Coordinator, mission_done, push_max}
use hunter_kinodynamic_rl.Hierarchy.Coordinator.Activation.{
  Now, is_usable, take_candidate, try_candidates, activate_next_subgoal, retry_current_candidate,
}
use hunter_kinodynamic_rl.Hierarchy.Recovery.{
  RecoveryAction, retry_same, advance_next, abort_mission, decide,
}
use hunter_kinodynamic_rl.Hierarchy.Subgoal.Status.{SubgoalStatus, is_terminal}
use hunter_kinodynamic_rl.Hierarchy.Coordinator.Ticks.{
  recover, apply_recovery, is_nonempty, finish_subgoal,
}

abbrev pub is_some {ℓ} : {A : Type ℓ} → Option A → Bool
is_some none = false
is_some (some a) = true

module _ ⦃M : Floats⦄ where
  pub record Running (c : Coordinator) : Type 0 where
    pub goal_set : is_some c.goal_manager.mission_goal ≡ true
    pub candidate_set : is_some c.current_candidate ≡ true
    pub is_candidate : c.subgoal_manager.subgoal_xy ≡ c.current_candidate
    pub going_on : mission_done c ≡ false
    pub localized : c.localization_degraded ≡ false

  -- The fields that the bookkeeping of a tick leaves alone.
  pub record Kept (c d : Coordinator) : Type 0 where
    pub config : d.config ≡ c.config
    pub goal_manager : d.goal_manager ≡ c.goal_manager
    pub queue : d.queue ≡ c.queue
    pub retry_count : d.retry_count ≡ c.retry_count
    pub current_candidate : d.current_candidate ≡ c.current_candidate
    pub mission_failed : d.mission_failed ≡ c.mission_failed
    pub mission_timed_out : d.mission_timed_out ≡ c.mission_timed_out
    pub localization_degraded : d.localization_degraded ≡ c.localization_degraded
    pub status : d.subgoal_manager.status ≡ c.subgoal_manager.status
    pub subgoal_xy : d.subgoal_manager.subgoal_xy ≡ c.subgoal_manager.subgoal_xy

  -- The retries of a candidate never pass the configured number.
  abbrev pub RetriesBounded : Coordinator → Type 0
  RetriesBounded c =
      (c.retry_count ≡ 0) ⊎ (pos c.retry_count ≤ℤ c.config.recovery.max_retries_per_subgoal)

  abbrev pub HistoryBounded : Coordinator → Type 0
  HistoryBounded c = length c.distance_history ≤ c.config.replanning.no_progress_window_steps

  abbrev pub Idle : Coordinator → Type 0
  Idle c = Subgoal.active c.subgoal_manager ≡ false

  pub record Inv (c : Coordinator) : Type 0 where
    pub activity : Idle c ⊎ Running c
    pub retries : RetriesBounded c
    pub history : HistoryBounded c

  pub length-push_max : (w : ℕ) (xs : List Float) (x : Float) → length (push_max w xs x) ≤ w
  unfolding push_max
  length-push_max w xs x = omega (arith, length-drop (length (xs ++ x ∷ []) - w) (xs ++ x ∷ []))

  take_candidate-Inv :
      (now : Now) (xy : Float × Float) (c : Coordinator)
      → Idle c
      → mission_done c ≡ false
      → c.localization_degraded ≡ false
      → RetriesBounded c
      → HistoryBounded c
      → Inv (take_candidate now xy c).1
  unfolding take_candidate Goal.distance_and_bearing Subgoal.activate
  take_candidate-Inv now (x, y) c idle going here r h = record {
    activity = ground arith;
    retries = ground arith;
    history = ground (
      arith,
      length-push_max c.config.replanning.no_progress_window_steps []
          (goal_distance_and_heading now.pose x y).0,
    );
  }

  pub try_candidates-Inv :
      (now : Now) (xys : List (Float × Float)) (c : Coordinator)
      → Idle c
      → mission_done c ≡ false
      → c.localization_degraded ≡ false
      → RetriesBounded c
      → HistoryBounded c
      → Inv (try_candidates now xys c).1
  unfolding try_candidates
  try_candidates-Inv now [] c idle going here r h = record {
    activity = inl idle;
    retries = r;
    history = h;
  }
  try_candidates-Inv now (xy ∷ rest) c idle going here r h =
      elim (Bool-cases (is_usable now.is_valid xy)) [
        | inl e ↦ rw e (take_candidate-Inv now xy (record c { queue = rest }) idle going here r h)
        | inr e ↦ rw e (try_candidates-Inv now rest c idle going here r h)
      ]

  pub activate_next_subgoal-Inv :
      (now : Now) (confidence : Option Float) (c : Coordinator)
      → Idle c
      → Inv c
      → Inv (activate_next_subgoal now confidence c).1
  unfolding activate_next_subgoal
  activate_next_subgoal-Inv now confidence c idle v = ground (
    arith,
    try_candidates-Inv now c.queue (record c { localization_degraded = false }) idle,
    try_candidates-Inv now c.queue c idle,
  )

  retry_current_candidate-Inv :
      (now : Now) (c : Coordinator) → Idle c → Inv c → Inv (retry_current_candidate now c).1
  unfolding retry_current_candidate
  retry_current_candidate-Inv now c idle v = elim (Option-cases c.current_candidate) [
    | inl e ↦ rw (e, retry_current_candidate) v
    | inr (xy, e) ↦
        rw (e, retry_current_candidate)
          (activate_next_subgoal-Inv now none (record c { queue = xy ∷ c.queue }) idle
            (record { activity = inl idle; retries = v.retries; history = v.history }))
  ]

  -- The retry that `decide` allows stays within the bound.
  abbrev MayTake : RecoveryAction → Coordinator → Type 0
  MayTake retry_same c = pos (c.retry_count + 1) ≤ℤ c.config.recovery.max_retries_per_subgoal
  MayTake _ c = Unit

  decide-MayTake :
      (s : SubgoalStatus) (next : Bool) (c : Coordinator) (a : RecoveryAction)
      → decide c.config.recovery s c.retry_count next ≡ ok a
      → MayTake a c
  unfolding decide
  decide-MayTake s next c retry_same e = ground arith
  decide-MayTake s next c _ e = tt

  recover-Inv :
      (now : Now) (a : RecoveryAction) (c : Coordinator)
      → Idle c
      → Inv c
      → MayTake a c
      → Inv (recover now a c).1
  unfolding recover
  recover-Inv now retry_same c idle v m =
      let again = record c { retry_count = c.retry_count + 1 } in
      rw
        (continue-pure tt (retry_current_candidate now again).1
          (retry_current_candidate now again).0)
        (retry_current_candidate-Inv now again idle
          (record { activity = inl idle; retries = inr m; history = v.history }))
  recover-Inv now advance_next c idle v m =
      let fresh = record c { retry_count = 0 } in
      rw
        (continue-pure tt (activate_next_subgoal now none fresh).1
          (activate_next_subgoal now none fresh).0)
        (activate_next_subgoal-Inv now none fresh idle
          (record { activity = inl idle; retries = inl refl; history = v.history }))
  recover-Inv now abort_mission c idle v m = record {
    activity = inl idle;
    retries = inl refl;
    history = v.history;
  }

  pub apply_recovery-Inv :
      (now : Now) (r : SubgoalResult) (c : Coordinator)
      → Idle c
      → Inv c
      → Inv (apply_recovery now r c).1
  unfolding apply_recovery
  apply_recovery-Inv now r c idle v =
      go (decide c.config.recovery r.status c.retry_count (is_nonempty c.queue))
        (decide-MayTake r.status (is_nonempty c.queue) c)
    where
      go :
          (d : Result RecoveryAction)
          → ((a : RecoveryAction) → d ≡ ok a → MayTake a c)
          → Inv (continue (recover now) c d).1
      go (ok a) may = recover-Inv now a c idle v (may a refl)
      go (err e) may = v

  -- `finish` ends an active subgoal, or raises and changes nothing.
  pub finish_subgoal-Inv :
      (s : SubgoalStatus) (reason : String) (time : Float) (c : Coordinator)
      → Inv c
      → is_terminal s ≡ true
      → Idle (finish_subgoal s reason time c).1 × Inv (finish_subgoal s reason time c).1
  unfolding finish_subgoal Subgoal.finish
  finish_subgoal-Inv s reason time c v h = ground arith
