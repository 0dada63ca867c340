-- ===== src/Tests/GlobalReplay.antt =====
-- A global buffer of two rows and its theorems, with lists of integers for the tensors.
use mathlib.Core.Bool.{true≢false}
use hunter_kinodynamic_rl.Prelude.Dict.{string_key}
use hunter_kinodynamic_rl.Prelude.{
  ℕ, suc, ◌-◌, ◌^◌, ◌&&◌, ◌==◌, ◌≡◌, ◌≢◌, sym, subst, refl, inl, inr, true, false, some, List, [],
  ◌∷◌, ◌++◌, length, map, replicate, String, if◌then◌else◌, arith,
}
use hunter_kinodynamic_rl.Prelude.Int.{ℤ, pos, negsuc, leb_ℤ, ltb_ℤ}
use hunter_kinodynamic_rl.Prelude.Result.{ok, err, value_error}
use hunter_kinodynamic_rl.Floats.{Floats}
use hunter_kinodynamic_rl.Hierarchy.Subgoal.Status.{SubgoalStatus}
use hunter_kinodynamic_rl.Replay.Arrays.{RandomState}
use hunter_kinodynamic_rl.Replay.Ring.{empty, push, overwrite, advance}
use hunter_kinodynamic_rl.Replay.Ring.Order.{
  IsRing, oldest_first, latest, empty-IsRing, push-IsRing,
}
use hunter_kinodynamic_rl.Replay.Global.{
  Tensors, Dims, Columns, Observation, GlobalReplayBuffer, blank_row,
}
use hunter_kinodynamic_rl.Replay.Global.Add.{
  GlobalTransition, add_global, write_global_row, write_observations, write_option, write_nodes,
}
use hunter_kinodynamic_rl.Replay.Global.Archive.{save_global, load_global}
use hunter_kinodynamic_rl.Replay.Global.RoundTrip.{
  SameGlobal, load_global-save_global, load_global-refuses,
}
use hunter_kinodynamic_rl.Replay.Global.Latest.{
  FitsTransition, adds_global, trained, global_row_of, blank-Untouched, adds_global-latest,
}
use hunter_kinodynamic_rl.Tests.Numbers.{numbers}

instance abbrev sample_numbers : Floats
sample_numbers = numbers

instance abbrev first_draws : RandomState
first_draws = record {
  State = ℕ;
  seeded = λ n. n;
  randint = λ bound count s. (replicate count 0, suc s);
}

abbrev entries : List ℕ → ℕ
entries [] = 1
entries (n ∷ shape) = n

-- Arrays of one dimension: the length has to be that of the slot.
instance abbrev lists : Tensors
lists = record {
  Array = List ℤ;
  zeros = λ shape. replicate (entries shape) (pos 0);
  fit = λ shape a. if length a == entries shape then ok a else err value_error;
  fit_int = λ bits n.
      if leb_ℤ (negsuc (2 ^ (bits - 1) - 1)) n && ltb_ℤ n (pos (2 ^ (bits - 1)))
      then ok n
      else err value_error;
  each = λ f a. map f a;
  round = λ x. x;
}

abbrev sample_dims : Dims
sample_dims = record {
  map_shape = 2 ∷ [];
  n_scalars = 1;
  n_candidates = 1;
  n_candidate_features = 1;
  node_rows = 0;
  node_features = 0;
}

abbrev sample_columns : Columns
sample_columns = record {
  map_channel_names = "free" ∷ "visited" ∷ [];
  scalar_names = "speed" ∷ [];
  candidate_feature_names = "range" ∷ [];
}

abbrev seen : ℕ → Observation
seen n = record {
  map_tensor = pos n ∷ pos 1 ∷ [];
  scalar_tensor = pos n ∷ [];
  candidate_tensor = pos 3 ∷ [];
  action_mask = pos 1 ∷ [];
  node_tensor = [];
  node_validity_mask = [];
}

abbrev option_of : ℕ → GlobalTransition
option_of n = record {
  obs = seen n;
  next_obs = seen (suc n);
  action = pos 0;
  option_reward = pos n;
  mission_done = false;
  subgoal_success = false;
  failure_reason = some SubgoalStatus.failed_timeout;
  local_steps = pos 12;
  exploration_gain = pos 2;
  risk_integral = pos 0;
}

abbrev sample_buffer : GlobalReplayBuffer
sample_buffer = record {
  dims = sample_dims;
  columns = sample_columns;
  ring = empty 2 (blank_row sample_dims);
  rng = 7;
  generation = "";
}

sample-IsRing : IsRing sample_buffer.ring
sample-IsRing = empty-IsRing 2 (blank_row sample_dims) (omega arith)

abbrev calls : List (String × GlobalTransition)
calls =
    ("train", option_of 1)
    ∷ ("test", option_of 2)
    ∷ ("train", option_of 3)
    ∷ ("train", option_of 4)
    ∷ []

head_eq : {a b : String} {as' bs : List String} → (a ∷ as') ≡ (b ∷ bs) → a ≡ b
head_eq e = cc e

-- The test transition is not stored, and the first one has been overwritten.
two_latest :
    oldest_first (adds_global calls sample_buffer).ring
    ≡ global_row_of sample_dims (option_of 3) ∷ global_row_of sample_dims (option_of 4) ∷ []
unfolding oldest_first add_global write_global_row write_observations write_option write_nodes push
    overwrite advance empty blank_row global_row_of
two_latest = refl

option_of-Fits : (n : ℕ) → FitsTransition sample_dims (option_of n)
option_of-Fits n = (
  record {
    maps = refl;
    scalars = refl;
    features = refl;
    masks = refl;
    nodes = λ h. absurd (omega arith);
    node_masks = λ h. absurd (omega arith);
  },
  record {
    maps = refl;
    scalars = refl;
    features = refl;
    masks = refl;
    nodes = λ h. absurd (omega arith);
    node_masks = λ h. absurd (omega arith);
  },
  record { actions = refl; codes = refl; steps = refl },
)

-- A count of steps that its column cannot hold is refused, and the row is not counted.
too_many_steps :
    add_global (record (option_of 1) { local_steps = pos (2 ^ 31) }) "train" sample_buffer ≡ (
      err value_error,
      record sample_buffer {
        ring =
            overwrite
              (record (global_row_of sample_dims (option_of 1)) {
                local_steps = pos 0;
                exploration_gain = pos 0;
                risk_integral = pos 0;
              })
              (empty 2 (blank_row sample_dims));
      },
    )
unfolding add_global write_global_row write_observations write_option write_nodes overwrite empty
    blank_row global_row_of
too_many_steps = refl

adds_global-latest_example :
    oldest_first (adds_global calls sample_buffer).ring
    ≡ latest 2 (oldest_first sample_buffer.ring ++ map (global_row_of sample_dims) (trained calls))
unfolding empty
adds_global-latest_example =
    adds_global-latest calls sample_buffer sample-IsRing (blank-Untouched sample_dims 2)
      (option_of-Fits 1, (option_of-Fits 3, (option_of-Fits 4, tt)))

-- A buffer that has dropped its oldest row.
abbrev full_buffer : GlobalReplayBuffer
full_buffer = record sample_buffer {
  ring = push (global_row_of sample_dims (option_of 3)) (
      push (global_row_of sample_dims (option_of 2))
        (push (global_row_of sample_dims (option_of 1)) (empty 2 (blank_row sample_dims))));
}

full-IsRing : IsRing full_buffer.ring
full-IsRing = push-IsRing _ _ (push-IsRing _ _ (push-IsRing _ _ sample-IsRing))

load_global-save_global_example :
    (c : GlobalReplayBuffer) × (load_global (save_global full_buffer "tag") 5 sample_columns ≡ ok c)
    × SameGlobal full_buffer c
    × (c.generation ≡ "tag")
load_global-save_global_example = load_global-save_global full_buffer "tag" 5 full-IsRing

abbrev reordered : Columns
reordered = record sample_columns { map_channel_names = "visited" ∷ "free" ∷ [] }

other_order : sample_columns.map_channel_names ≢ reordered.map_channel_names
other_order q =
    let t : string_key.same "free" "visited" ≡ true =
      subst (λ s. string_key.same "free" s ≡ true) (head_eq q) (string_key.same_refl "free") in
    true≢false (sym t)

load_global-refuses_example :
    load_global (save_global full_buffer "tag") 5 reordered ≡ err value_error
unfolding save_global
load_global-refuses_example =
    load_global-refuses (save_global full_buffer "tag") 5 reordered (inr (inl other_order))
