-- ===== src/Replay/Local/Written.antt =====
-- What `add` stores: a row that depends on the transition alone, and nothing on a bad shape.
use hunter_kinodynamic_rl.Prelude.{
  ℕ, zero, suc, ◌-◌, ◌≤◌, min, ltb, ◌≡◌, refl, ◌∙◌, ◌⊎◌, inl, inr, List, [], ◌∷◌, ◌++◌, length,
  take, drop, replicate, map, length-take, length-map, length-replicate, Bool-cases, arith,
}
use hunter_kinodynamic_rl.Prelude.Result.{ok}
use hunter_kinodynamic_rl.Floats.{Floats, Float, flag}
use hunter_kinodynamic_rl.Replay.Arrays.{RandomState, broadcast, broadcast-length}
use hunter_kinodynamic_rl.Replay.Local.{RiskTransition, Row, ReplayBuffer}
use hunter_kinodynamic_rl.Replay.Local.Add.{
  Transition, label_of, valid_of, target_of, write_core, write_label, clear_candidates,
  write_candidates, write_progress, write_risk, write_row,
}

module _ ⦃M : Floats⦄ where
  open M use {zero_f, of_ℕ, single}

  -- The first `n` values and zeros up to the width.
  abbrev pub padded : ℕ → ℕ → List Float → List Float
  padded width n xs = take n (map single xs) ++ replicate (width - n) zero_f

  abbrev pub padded_progress : ℕ → ℕ → List Float → List Float
  padded_progress width n [] = replicate width zero_f
  padded_progress width n (x ∷ xs) = padded width n (x ∷ xs)

  abbrev pub candidate_count : ℕ → RiskTransition → ℕ
  candidate_count width risk = min (length risk.candidate_kappa) width

  -- A row made from the transition alone.
  pub row_of : ℕ → Transition → Row
  row_of width t = record {
    base = record {
      state = map single t.state;
      action = map single t.action;
      next_state = map single t.next_state;
      reward = single t.reward;
      done = flag t.done;
      risk_target = target_of risk.risk_target;
      valid = valid_of risk.risk_target;
      min_clearance_m = single risk.min_clearance_m;
      ttc_sec = single risk.ttc_sec;
      collision_within_horizon = flag risk.collision_within_horizon;
      stopping_margin_m = single risk.stopping_margin_m;
      unrecoverable = flag risk.unrecoverable;
      safer_alternative_margin = single risk.safer_alternative_margin;
      candidate_kappa = padded width n risk.candidate_kappa;
      candidate_v_ref = padded width n risk.candidate_v_ref;
      candidate_horizon = padded width n risk.candidate_horizon;
      candidate_risk = padded width n risk.candidate_risk;
      candidate_valid_mask = replicate n (of_ℕ 1) ++ replicate (width - n) zero_f;
      actor_candidate_index = single (of_ℕ risk.actor_candidate_index);
    };
    added = record {
      steering_saturation = flag risk.steering_saturation;
      goal_progress_m = single risk.goal_progress_m;
      candidate_goal_progress = padded_progress width n risk.candidate_goal_progress;
    };
  }
    where
      risk : RiskTransition
      risk = label_of t.risk

      n : ℕ
      n = candidate_count width risk

  -- The shapes that fit a buffer's arrays.
  pub record Fits (state_dim action_dim width : ℕ) (t : Transition) : Type 0 where
    pub state : length t.state ≡ state_dim
    pub action : length t.action ≡ action_dim
    pub next_state : length t.next_state ≡ state_dim
    pub v_ref : candidate_count width (label_of t.risk) ≤ length (label_of t.risk).candidate_v_ref
    pub horizon :
        candidate_count width (label_of t.risk) ≤ length (label_of t.risk).candidate_horizon
    pub risk : candidate_count width (label_of t.risk) ≤ length (label_of t.risk).candidate_risk
    pub progress :
        ((label_of t.risk).candidate_goal_progress ≡ [])
        ⊎ (candidate_count width (label_of t.risk)
            ≤ length (label_of t.risk).candidate_goal_progress)

  broadcast-singles :
      (k : ℕ) (xs : List Float) → length xs ≡ k → broadcast k (map single xs) ≡ ok (map single xs)
  broadcast-singles k xs h = broadcast-length k (map single xs) (length-map single xs ∙ h)

  broadcast-take :
      (n : ℕ) (xs : List Float)
      → n ≤ length xs
      → broadcast n (take n (map single xs)) ≡ ok (take n (map single xs))
  broadcast-take n xs h =
      broadcast-length n (take n (map single xs))
        (omega (arith, length-take n (map single xs), length-map single xs))

  drop-replicate : (k w : ℕ) → drop k (replicate w zero_f) ≡ replicate (w - k) zero_f
  drop-replicate zero w = let e : w - 0 ≡ w = omega arith in rw e refl
  drop-replicate (suc k) zero = let e : 0 - suc k ≡ 0 = omega arith in rw e refl
  drop-replicate (suc k) (suc w) =
      let e : suc w - suc k ≡ w - k = omega arith in rw e (drop-replicate k w)

  length-take_singles :
      (n : ℕ) (xs : List Float) → n ≤ length xs → length (take n (map single xs)) ≡ n
  length-take_singles n xs h = omega (arith, length-take n (map single xs), length-map single xs)

  core_written :
      (s a w : ℕ) (t : Transition) (old : Row)
      → Fits s a w t
      → write_core s a t old ≡ (
        ok tt,
        record old {
          base = record old.base {
            state = map single t.state;
            action = map single t.action;
            next_state = map single t.next_state;
            reward = single t.reward;
            done = flag t.done;
          };
        },
      )
  unfolding write_core
  core_written s a w t old f =
      rw
        (
          broadcast-singles s t.state f.state,
          broadcast-singles a t.action f.action,
          broadcast-singles s t.next_state f.next_state,
        )
        refl

  abbrev overlaid : ℕ → List Float → List Float → List Float
  overlaid n xs old = take n (map single xs) ++ drop n old

  abbrev overlaid_progress : ℕ → List Float → List Float → List Float
  overlaid_progress n [] old = old
  overlaid_progress n (x ∷ xs) old = overlaid n (x ∷ xs) old

  progress_written :
      (n : ℕ) (xs : List Float) (row : Row)
      → (xs ≡ []) ⊎ (n ≤ length xs)
      → write_progress n xs row ≡ (
        ok tt,
        record row {
          added = record row.added {
            candidate_goal_progress = overlaid_progress n xs row.added.candidate_goal_progress;
          };
        },
      )
  unfolding write_progress
  progress_written n [] row h = refl
  progress_written n (x ∷ xs) row (inl e) = cc
  progress_written n (x ∷ xs) row (inr h) =
      rw (broadcast-take n (x ∷ xs) h, length-take_singles n (x ∷ xs) h) refl

  candidates_written :
      (s a w : ℕ) (t : Transition) (row : Row)
      → Fits s a w t
      → (let risk = label_of t.risk in
          let n = candidate_count w risk in
          write_candidates n risk row ≡ (
            ok tt,
            record row {
              base = record row.base {
                candidate_kappa = overlaid n risk.candidate_kappa row.base.candidate_kappa;
                candidate_v_ref = overlaid n risk.candidate_v_ref row.base.candidate_v_ref;
                candidate_horizon = overlaid n risk.candidate_horizon row.base.candidate_horizon;
                candidate_risk = overlaid n risk.candidate_risk row.base.candidate_risk;
                candidate_valid_mask = replicate n (of_ℕ 1) ++ drop n row.base.candidate_valid_mask;
              };
              added = record row.added {
                candidate_goal_progress =
                    overlaid_progress n risk.candidate_goal_progress
                      row.added.candidate_goal_progress;
              };
            },
          ))
  unfolding write_candidates
  candidates_written s a w t row f =
      let risk = label_of t.risk in
      let n = candidate_count w risk in
      let k : n ≤ length risk.candidate_kappa = omega arith in
      rw
        (
          broadcast-take n risk.candidate_kappa k,
          length-take_singles n risk.candidate_kappa k,
          broadcast-take n risk.candidate_v_ref f.v_ref,
          length-take_singles n risk.candidate_v_ref f.v_ref,
          broadcast-take n risk.candidate_horizon f.horizon,
          length-take_singles n risk.candidate_horizon f.horizon,
          broadcast-take n risk.candidate_risk f.risk,
          length-take_singles n risk.candidate_risk f.risk,
          progress_written n risk.candidate_goal_progress _ f.progress,
          length-replicate n (of_ℕ 1),
        )
        refl

  progress_padded :
      (n w : ℕ) (xs : List Float)
      → overlaid_progress n xs (replicate w zero_f) ≡ padded_progress w n xs
  progress_padded n w [] = refl
  progress_padded n w (x ∷ xs) = rw (drop-replicate n w) refl

  padded_none : (w : ℕ) (xs : List Float) → padded_progress w 0 xs ≡ replicate w zero_f
  padded_none w [] = refl
  padded_none w (x ∷ xs) = let k : w - 0 ≡ w = omega arith in rw k refl

  module _ ⦃R : RandomState⦄ where
    pub row_written :
        (b : ReplayBuffer) (t : Transition) (old : Row)
        → Fits b.state_dim b.action_dim b.max_candidates t
        → write_row b t old ≡ (ok tt, row_of b.max_candidates t)
    unfolding write_row write_risk write_label clear_candidates row_of
    row_written b t old f =
        let w = b.max_candidates in
        let risk = label_of t.risk in
        let n = candidate_count w risk in
        rw (core_written b.state_dim b.action_dim w t old f) (elim (Bool-cases (ltb 0 n)) [
          | inl e ↦
              rw
                (
                  e,
                  candidates_written b.state_dim b.action_dim w t _ f,
                  drop-replicate n w,
                  progress_padded n w risk.candidate_goal_progress,
                )
                refl
          | inr e ↦
              let z : n ≡ 0 = ground arith in
              let k : w - 0 ≡ w = omega arith in
              rw (e, z, k, padded_none w risk.candidate_goal_progress) refl
        ])
