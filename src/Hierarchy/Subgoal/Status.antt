-- ===== src/Hierarchy/Subgoal/Status.antt =====
-- `SubgoalStatus` and its two subsets of subgoal_manager.py.
use hunter_kinodynamic_rl.Prelude.{Bool, true, false}

pub data SubgoalStatus : Type 0 where
  created active reached failed_blocked failed_timeout failed_no_progress : SubgoalStatus
  failed_high_risk cancelled_by_replan : SubgoalStatus

abbrev pub is_active : SubgoalStatus → Bool
is_active SubgoalStatus.active = true
is_active _ = false

abbrev pub is_reached : SubgoalStatus → Bool
is_reached SubgoalStatus.reached = true
is_reached _ = false

abbrev pub is_cancelled : SubgoalStatus → Bool
is_cancelled SubgoalStatus.cancelled_by_replan = true
is_cancelled _ = false

-- `status in TERMINAL_SUBGOAL_STATUSES`
abbrev pub is_terminal : SubgoalStatus → Bool
is_terminal SubgoalStatus.created = false
is_terminal SubgoalStatus.active = false
is_terminal _ = true

-- `status in FAILURE_SUBGOAL_STATUSES`
abbrev pub is_failure : SubgoalStatus → Bool
is_failure SubgoalStatus.failed_blocked = true
is_failure SubgoalStatus.failed_timeout = true
is_failure SubgoalStatus.failed_no_progress = true
is_failure SubgoalStatus.failed_high_risk = true
is_failure _ = false
