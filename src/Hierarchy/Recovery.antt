-- ===== src/Hierarchy/Recovery.antt =====
-- navigation/hierarchy/failure_recovery.py: retry, advance or abort after a subgoal that failed.
use hunter_kinodynamic_rl.Prelude.{ℕ, Bool, true, false, not, ◌&&◌, if◌then◌else◌}
use hunter_kinodynamic_rl.Prelude.Int.{ℤ, pos, ltb_ℤ}
use hunter_kinodynamic_rl.Prelude.Result.{Result, ok, err, value_error, guard}
use hunter_kinodynamic_rl.Hierarchy.Subgoal.Status.{SubgoalStatus, is_reached}

pub data RecoveryAction : Type 0 where
  retry_same advance_next abort_mission : RecoveryAction

abbrev pub default_retryable : SubgoalStatus → Bool
default_retryable SubgoalStatus.failed_timeout = true
default_retryable SubgoalStatus.failed_no_progress = true
default_retryable _ = false

-- The frozen set is its membership test.
pub record FailureRecoveryConfig : Type 0 where
  pub max_retries_per_subgoal : ℤ
  pub retryable_statuses : SubgoalStatus → Bool

unfoldable pub validate : FailureRecoveryConfig → Result (Unit {0})
validate config = guard (not (ltb_ℤ config.max_retries_per_subgoal (pos 0))) value_error

unfoldable pub decide : FailureRecoveryConfig → SubgoalStatus → ℕ → Bool → Result RecoveryAction
decide config status retry_count has_next_candidate =
    if is_reached status
    then err value_error
    else if config.retryable_statuses status
        && ltb_ℤ (pos retry_count) config.max_retries_per_subgoal
    then ok RecoveryAction.retry_same
    else if has_next_candidate
    then ok RecoveryAction.advance_next
    else ok RecoveryAction.abort_mission
