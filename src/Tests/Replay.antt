-- ===== src/Tests/Replay.antt =====
-- A local buffer of two rows and the replay theorems at it.
use hunter_kinodynamic_rl.Prelude.{
  All, ℕ, zero, suc, ◌<◌, ◌≡◌, refl, inl, true, false, Option, none, some, List, [], ◌∷◌, ◌++◌,
  length, map, replicate, length-replicate, arith,
}
use hunter_kinodynamic_rl.Prelude.Int.{pos}
use hunter_kinodynamic_rl.Prelude.Result.{ok}
use hunter_kinodynamic_rl.Floats.{Floats}
use hunter_kinodynamic_rl.Replay.Arrays.{RandomState, Draws}
use hunter_kinodynamic_rl.Replay.Ring.{empty, push, overwrite, advance}
use hunter_kinodynamic_rl.Replay.Ring.Order.{
  IsRing, oldest_first, latest, empty-IsRing, push-IsRing,
}
use hunter_kinodynamic_rl.Replay.Local.{no_label, ReplayBuffer, RiskTransition, blank}
use hunter_kinodynamic_rl.Replay.Local.Add.{Transition}
use hunter_kinodynamic_rl.Replay.Local.Sample.{Batch, sample}
use hunter_kinodynamic_rl.Replay.Local.Archive.{save, load}
use hunter_kinodynamic_rl.Replay.Local.RoundTrip.{SameContents, load-save}
use hunter_kinodynamic_rl.Replay.Local.Written.{Fits, row_of}
use hunter_kinodynamic_rl.Replay.Local.Latest.{adds, Stored, adds-latest, sample-Stored}
use hunter_kinodynamic_rl.Tests.Numbers.{numbers}

instance abbrev sample_numbers : Floats
sample_numbers = numbers

instance abbrev first_draws : RandomState
first_draws = record {
  State = ℕ;
  seeded = λ n. n;
  randint = λ bound count s. (replicate count 0, suc s);
}

All-replicate : (bound count : ℕ) → 0 < bound → All (λ i. i < bound) (replicate count 0)
All-replicate bound zero h = tt
All-replicate bound (suc count) h = (h, All-replicate bound count h)

first_draws-Draws : Draws first_draws
first_draws-Draws bound count s h = (length-replicate count 0, All-replicate bound count h)

abbrev label : RiskTransition
label = record {
  risk_target = some (pos 1);
  min_clearance_m = pos 2;
  ttc_sec = pos 3;
  collision_within_horizon = true;
  stopping_margin_m = pos 4;
  steering_saturation = false;
  goal_progress_m = pos 5;
  unrecoverable = false;
  safer_alternative_margin = pos 0;
  candidate_kappa = pos 1 ∷ pos 2 ∷ pos 3 ∷ [];
  candidate_v_ref = pos 4 ∷ pos 5 ∷ pos 6 ∷ [];
  candidate_horizon = pos 7 ∷ pos 8 ∷ [];
  candidate_risk = pos 9 ∷ pos 9 ∷ pos 9 ∷ [];
  candidate_goal_progress = [];
  actor_candidate_index = 0;
}

abbrev step_of : ℕ → Option RiskTransition → Transition
step_of n risk = record {
  state = pos n ∷ pos n ∷ [];
  action = pos 7 ∷ [];
  next_state = pos n ∷ pos 0 ∷ [];
  reward = pos 1;
  done = false;
  risk = risk;
}

abbrev empty_buffer : ReplayBuffer
empty_buffer = record {
  state_dim = 2;
  action_dim = 1;
  max_candidates = 2;
  ring = empty 2 (blank 2 1 2);
  rng = 0;
  generation = none;
}

abbrev steps : List Transition
steps = step_of 1 none ∷ step_of 2 (some label) ∷ step_of 3 (some label) ∷ []

empty_buffer-IsRing : IsRing empty_buffer.ring
empty_buffer-IsRing = empty-IsRing 2 (blank 2 1 2) (omega arith)

step_of-Fits : (n : ℕ) → Fits 2 1 2 (step_of n none)
unfolding no_label
step_of-Fits n = record {
  state = refl;
  action = refl;
  next_state = refl;
  v_ref = omega arith;
  horizon = omega arith;
  risk = omega arith;
  progress = inl refl;
}

labelled-Fits : (n : ℕ) → Fits 2 1 2 (step_of n (some label))
labelled-Fits n = record {
  state = refl;
  action = refl;
  next_state = refl;
  v_ref = omega arith;
  horizon = omega arith;
  risk = omega arith;
  progress = inl refl;
}

steps-Fits : All (Fits 2 1 2) steps
steps-Fits = (step_of-Fits 1, (labelled-Fits 2, (labelled-Fits 3, tt)))

adds-latest_example :
    oldest_first (adds steps empty_buffer).ring
    ≡ latest 2 (oldest_first empty_buffer.ring ++ map (row_of 2) steps)
unfolding empty
adds-latest_example = adds-latest steps empty_buffer empty_buffer-IsRing steps-Fits

-- A buffer that has dropped its oldest row.
abbrev full_buffer : ReplayBuffer
full_buffer = record empty_buffer {
  ring =
      push (row_of 2 (step_of 3 (some label))) (
        push (row_of 2 (step_of 2 none))
          (push (row_of 2 (step_of 1 none)) (empty 2 (blank 2 1 2))));
}

full_buffer-IsRing : IsRing full_buffer.ring
full_buffer-IsRing = push-IsRing _ _ (push-IsRing _ _ (push-IsRing _ _ empty_buffer-IsRing))

load-save_example :
    (c : ReplayBuffer) × (load (save full_buffer "tag") 5 ≡ ok c)
    × SameContents full_buffer c
    × (c.generation ≡ some "tag")
load-save_example = load-save full_buffer "tag" 5 full_buffer-IsRing (omega arith) (omega arith)

full_buffer-size : full_buffer.ring.size ≡ 2
unfolding push empty overwrite advance
full_buffer-size = refl

sample-Stored_example :
    (batch : Batch) × ((sample 3 full_buffer).0 ≡ ok batch)
    × (length batch.rows ≡ 3)
    × All (Stored full_buffer.ring) batch.rows
    × ((sample 3 full_buffer).1 ≡ record full_buffer {
      rng = (first_draws.randint full_buffer.ring.size 3 full_buffer.rng).1;
    })
sample-Stored_example =
    sample-Stored 3 full_buffer full_buffer-IsRing (rw full_buffer-size (omega arith))
      first_draws-Draws
