-- ===== src/Memory/DeadEnd/Signals.antt =====
-- The signals for a dead end that a reading gives, and the evidence they make.
use hunter_kinodynamic_rl.Prelude.{
  ℕ, zero, suc, ◌+◌, ◌-◌, ◌==◌, leb, ◌<◌, ◌≤◌, ◌≡◌, refl, inl, inr, Bool, true, false, ◌&&◌, Option,
  none, some, List, [], ◌∷◌, length, drop, get_elem?, last?, last?-some, last?-drop, drop-cons,
  Bool-cases, arith, ◌∙◌,
}
use hunter_kinodynamic_rl.Prelude.Int.{pos, leb_ℤ}
use hunter_kinodynamic_rl.Prelude.Result.{ok}
use hunter_kinodynamic_rl.Floats.{Floats, Float}
use hunter_kinodynamic_rl.Prelude.Dict.{number_key}
use hunter_kinodynamic_rl.Memory.DeadEnd.{
  DeadEndEvidence, DeadEndDetectorConfig, Readings, vote, vote_count, fell_less, progress_stalled,
  evaluate_evidence,
}

-- How many of the signals are given.
unfoldable pub how_many : List Bool → ℕ
how_many [] = zero
how_many (true ∷ signals) = suc (how_many signals)
how_many (false ∷ signals) = how_many signals

how_many-cons : (b : Bool) (bs : List Bool) → how_many (b ∷ bs) ≡ vote b + how_many bs
unfolding how_many
how_many-cons true bs = omega arith
how_many-cons false bs = omega arith

module _ ⦃M : Floats⦄ where
  open M use {of_ℕ, div, sub, lt}

  -- Whether the first of two samples is above the second by less than a bound.
  abbrev pub short_of : Float → Option Float → Option Float → Bool
  short_of bound (some x) (some y) = lt (sub x y) bound
  short_of bound (some x) none = false
  short_of bound none y = false

  -- Whether over the last samples, as many as the window has, the distance fell by less than the
  -- bound: the sample that begins the window against the newest one.
  abbrev pub is_stalled : DeadEndDetectorConfig → List Float → Bool
  is_stalled c history =
      leb c.progress_stall_window_steps (length history)
      && short_of c.progress_stall_min_delta_m
          (get_elem? history (length history - c.progress_stall_window_steps)) (last? history)

  -- What speaks for a dead end in a reading.
  abbrev pub signals : DeadEndDetectorConfig → Readings → List Bool
  signals c r =
      leb_ℤ r.known_free_direction_count c.free_direction_threshold
      ∷ leb_ℤ r.known_frontier_direction_count (pos 0)
      ∷ is_stalled c r.recent_final_goal_distance_history
      ∷ leb_ℤ c.repeated_estop_limit r.consecutive_emergency_stops
      ∷ leb_ℤ r.valid_candidate_count (pos 1)
      ∷ []

  fell_less-ends :
      (d : Float) (zs rest : List Float) (x y : Float)
      → zs ≡ x ∷ rest
      → last? zs ≡ some y
      → fell_less d zs ≡ ok (lt (sub x y) d)
  unfolding fell_less
  fell_less-ends d [] rest x y e l = cc
  fell_less-ends d (z ∷ zs) rest x y e l = rw (l, fell_less) (ground arith)

  progress_stalled-is_stalled :
      (c : DeadEndDetectorConfig) (history : List Float)
      → 0 < c.progress_stall_window_steps
      → progress_stalled c history ≡ ok (is_stalled c history)
  unfolding progress_stalled
  progress_stalled-is_stalled c history h =
      let w = c.progress_stall_window_steps in
      let z : (w == 0) ≡ false = ground arith in
      elim (Bool-cases (leb w (length history))) [
        | inl e ↦
            let k : w ≤ length history = ground arith in
            let start = length history - w in
            let (x, rest, begins, g) = drop-cons start history (omega arith) in
            let (y, n) = last?-some history (omega arith) in
            let l = last?-drop start history (omega arith) in
            rw (e, z, g, n)
              (fell_less-ends c.progress_stall_min_delta_m (drop start history) rest x y begins
                (l ∙ n))
        | inr e ↦ rw e refl
      ]

  pub evidence_of : DeadEndDetectorConfig → Readings → DeadEndEvidence
  evidence_of c r = record {
    low_free_direction_degree = leb_ℤ r.known_free_direction_count c.free_direction_threshold;
    frontier_absent = leb_ℤ r.known_frontier_direction_count (pos 0);
    progress_stalled = is_stalled c r.recent_final_goal_distance_history;
    repeated_emergency_stop = leb_ℤ c.repeated_estop_limit r.consecutive_emergency_stops;
    shrinking_valid_candidate_mask = leb_ℤ r.valid_candidate_count (pos 1);
  }

  pub evaluate_evidence-evidence_of :
      (c : DeadEndDetectorConfig) (r : Readings)
      → 0 < c.progress_stall_window_steps
      → evaluate_evidence c r ≡ ok (evidence_of c r)
  unfolding evaluate_evidence evidence_of
  evaluate_evidence-evidence_of c r h =
      rw (progress_stalled-is_stalled c r.recent_final_goal_distance_history h) refl

  pub vote_count-how_many :
      (c : DeadEndDetectorConfig) (r : Readings)
      → vote_count (evidence_of c r) ≡ how_many (signals c r)
  unfolding vote_count evidence_of how_many
  vote_count-how_many c r =
      let a = leb_ℤ r.known_free_direction_count c.free_direction_threshold in
      let b = leb_ℤ r.known_frontier_direction_count (pos 0) in
      let s = is_stalled c r.recent_final_goal_distance_history in
      let d = leb_ℤ c.repeated_estop_limit r.consecutive_emergency_stops in
      let e = leb_ℤ r.valid_candidate_count (pos 1) in
      omega (
        arith,
        how_many-cons a (b ∷ s ∷ d ∷ e ∷ []),
        how_many-cons b (s ∷ d ∷ e ∷ []),
        how_many-cons s (d ∷ e ∷ []),
        how_many-cons d (e ∷ []),
        how_many-cons e [],
      )
