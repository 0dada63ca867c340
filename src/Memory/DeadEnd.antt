-- ===== src/Memory/DeadEnd.antt =====
-- navigation/memory/dead_end_detector.py: the votes for a dead end, and its verdict.
pub mod Signals
pub mod Verdicts
use hunter_kinodynamic_rl.Prelude.{
  ℕ, ◌+◌, ◌-◌, leb, ◌==◌, Bool, true, false, not, ◌&&◌, Option, none, some, List, [], ◌∷◌, length,
  drop, last?, if◌then◌else◌,
}
use hunter_kinodynamic_rl.Prelude.Int.{ℤ, pos, leb_ℤ, ltb_ℤ}
use hunter_kinodynamic_rl.Prelude.Result.{
  Result, ok, err, index_error, config_error, guard, ◌>>=◌, ◌>>◌,
}
use hunter_kinodynamic_rl.Floats.{Floats, Float}
use hunter_kinodynamic_rl.Memory.Graph.{TopologicalGraph, has_node, get_node}

pub record DeadEndEvidence : Type 0 where
  pub low_free_direction_degree : Bool
  pub frontier_absent : Bool
  pub progress_stalled : Bool
  pub repeated_emergency_stop : Bool
  pub shrinking_valid_candidate_mask : Bool

abbrev pub vote : Bool → ℕ
vote b = if b then 1 else 0

unfoldable pub vote_count : DeadEndEvidence → ℕ
vote_count e =
    vote e.low_free_direction_degree
    + vote e.frontier_absent
    + vote e.progress_stalled
    + vote e.repeated_emergency_stop
    + vote e.shrinking_valid_candidate_mask

module _ ⦃M : Floats⦄ where
  open M use {zero_f, of_ℕ, sub, div, lt}

  pub record DeadEndVerdict : Type 0 where
    pub is_dead_end : Bool
    pub confidence : Float
    pub evidence : DeadEndEvidence
    pub is_repeated : Bool

  -- The window is a number of samples, which `validate` wants positive.
  pub record DeadEndDetectorConfig : Type 0 where
    pub free_direction_threshold : ℤ
    pub progress_stall_window_steps : ℕ
    pub progress_stall_min_delta_m : Float
    pub repeated_estop_limit : ℤ
    pub evidence_vote_threshold : ℤ

  unfoldable pub validate : DeadEndDetectorConfig → Result (Unit {0})
  validate c = do
    guard (not (ltb_ℤ c.free_direction_threshold (pos 0))) config_error
    guard (not (leb c.progress_stall_window_steps 0)) config_error
    guard (not (lt c.progress_stall_min_delta_m zero_f)) config_error
    guard (not (leb_ℤ c.repeated_estop_limit (pos 0))) config_error
    guard (leb_ℤ (pos 1) c.evidence_vote_threshold && leb_ℤ c.evidence_vote_threshold (pos 5))
        config_error

  -- The constructor keeps a valid configuration.
  unfoldable pub init : DeadEndDetectorConfig → Result DeadEndDetectorConfig
  init c = do validate c; ok c

  -- `window[0] - window[-1] < min_delta`
  unfoldable pub fell_less : Float → List Float → Result Bool
  fell_less min_delta [] = err index_error
  fell_less min_delta (x ∷ xs) = elim (last? (x ∷ xs)) [
    | none ↦ err index_error
    | some y ↦ ok (lt (sub x y) min_delta)
  ]

  unfoldable pub progress_stalled : DeadEndDetectorConfig → List Float → Result Bool
  unfolding fell_less
  progress_stalled c history =
      if leb c.progress_stall_window_steps (length history)
      then fell_less c.progress_stall_min_delta_m (
          if c.progress_stall_window_steps == 0
          then history
          else drop (length history - c.progress_stall_window_steps) history)
      else ok false

  -- The arguments of `evaluate_evidence`.
  pub record Readings : Type 0 where
    pub known_free_direction_count : ℤ
    pub known_frontier_direction_count : ℤ
    pub recent_final_goal_distance_history : List Float
    pub consecutive_emergency_stops : ℤ
    pub valid_candidate_count : ℤ

  unfoldable pub evaluate_evidence : DeadEndDetectorConfig → Readings → Result DeadEndEvidence
  evaluate_evidence c r = do
    stalled ← progress_stalled c r.recent_final_goal_distance_history
    ok (record {
      low_free_direction_degree = leb_ℤ r.known_free_direction_count c.free_direction_threshold;
      frontier_absent = leb_ℤ r.known_frontier_direction_count (pos 0);
      progress_stalled = stalled;
      repeated_emergency_stop = leb_ℤ c.repeated_estop_limit r.consecutive_emergency_stops;
      shrinking_valid_candidate_mask = leb_ℤ r.valid_candidate_count (pos 1);
    })

  -- Whether the graph, as it was before this arrival, has the node as a dead end.
  unfoldable pub was_dead_end : TopologicalGraph → Option ℕ → Result Bool
  was_dead_end g none = ok false
  was_dead_end g (some node_id) =
      if has_node g node_id then (do node ← get_node g node_id; ok node.dead_end) else ok false

  unfoldable pub verdict :
      DeadEndDetectorConfig → DeadEndEvidence → TopologicalGraph → Option ℕ → Result DeadEndVerdict
  verdict c evidence g node_id = do
    let votes = vote_count evidence
    let is_dead_end = leb_ℤ c.evidence_vote_threshold (pos votes)
    is_repeated ← if is_dead_end then was_dead_end g node_id else ok false
    ok (record {
      is_dead_end = is_dead_end;
      confidence = div (of_ℕ votes) (of_ℕ 5);
      evidence = evidence;
      is_repeated = is_repeated;
    })
