-- ===== src/Seeds.antt =====
-- The pools of episode seeds, env/scenarios/seed_scheduler.py, with `seed_split` of
-- env/scenarios/procedural_generator.py and the checks of the ranges in config/schema.py.
-- A range is a pair here: that a configured list has two entries is not modelled.
pub mod Pools
pub mod Draws
use hunter_kinodynamic_rl.Prelude.{
  ℕ, suc, zero, ◌+◌, ◌-◌, ◌%◌, ◌^◌, String, Bool, true, false, not, ◌&&◌, Option, none, some, List,
  [], ◌∷◌, if◌then◌else◌,
}
use hunter_kinodynamic_rl.Prelude.Int.{ℤ, pos, negsuc, pos_part, leb_ℤ, ltb_ℤ, ◌+ℤ◌, ◌-ℤ◌}
use hunter_kinodynamic_rl.Prelude.Result.{Result, ok, err, Error, guard, ◌>>=◌, ◌>>◌}
use text.Mathlib.Text.{◌==◌ as str_eq}

pub data Mode : Type 0 where
  train validation test : Mode

-- `mode in _MODE_RANGE_ATTR`
abbrev pub mode_named : String → Option Mode
mode_named name =
    if str_eq name "train"
    then some Mode.train
    else if str_eq name "validation"
    then some Mode.validation
    else if str_eq name "test"
    then some Mode.test
    else none

abbrev pub mode_name : Mode → String
mode_name Mode.train = "train"
mode_name Mode.validation = "validation"
mode_name Mode.test = "test"

abbrev pub same_mode : Mode → Mode → Bool
same_mode Mode.train Mode.train = true
same_mode Mode.validation Mode.validation = true
same_mode Mode.test Mode.test = true
same_mode a b = false

pub record ScenarioConfig : Type 0 where
  pub train_seed_range : ℤ × ℤ
  pub validation_seed_range : ℤ × ℤ
  pub test_seed_range : ℤ × ℤ

abbrev pub range_of : ScenarioConfig → Mode → ℤ × ℤ
range_of cfg Mode.train = cfg.train_seed_range
range_of cfg Mode.validation = cfg.validation_seed_range
range_of cfg Mode.test = cfg.test_seed_range

-- `sorted(ranges, key=lambda r: r[0])`, which keeps the order of equal keys.
unfoldable pub insert_range : ℤ × ℤ → List (ℤ × ℤ) → List (ℤ × ℤ)
insert_range r [] = r ∷ []
insert_range r (x ∷ xs) =
    let rest = insert_range r xs in if ltb_ℤ x.0 r.0 then x ∷ rest else r ∷ x ∷ xs

unfoldable pub sort_ranges : List (ℤ × ℤ) → List (ℤ × ℤ)
sort_ranges [] = []
sort_ranges (r ∷ rs) = insert_range r (sort_ranges rs)

unfoldable pub check_overlaps : List (ℤ × ℤ) → Result (Unit {0})
check_overlaps [] = ok tt
check_overlaps (a ∷ []) = ok tt
check_overlaps (a ∷ b ∷ rs) =
    guard (not (leb_ℤ b.0 a.1)) Error.config_error >> check_overlaps (b ∷ rs)

abbrev pub ranges_of : ScenarioConfig → List (ℤ × ℤ)
ranges_of cfg = cfg.train_seed_range ∷ cfg.validation_seed_range ∷ cfg.test_seed_range ∷ []

-- The seed ranges' part of `ScenarioConfig.validate`.
unfoldable pub validate_ranges : ScenarioConfig → Result (Unit {0})
validate_ranges cfg =
    guard (leb_ℤ cfg.train_seed_range.0 cfg.train_seed_range.1) Error.config_error
    >> (guard (leb_ℤ cfg.validation_seed_range.0 cfg.validation_seed_range.1) Error.config_error
        >> (guard (leb_ℤ cfg.test_seed_range.0 cfg.test_seed_range.1) Error.config_error
            >> check_overlaps (sort_ranges (ranges_of cfg))))

abbrev pub in_range : ℤ × ℤ → ℤ → Bool
in_range r seed = leb_ℤ r.0 seed && leb_ℤ seed r.1

-- `none` where `SeedSplitError` is raised.
abbrev pub seed_split : ℤ → ScenarioConfig → Option Mode
seed_split seed cfg =
    if in_range cfg.train_seed_range seed
    then some Mode.train
    else if in_range cfg.validation_seed_range seed
    then some Mode.validation
    else if in_range cfg.test_seed_range seed
    then some Mode.test
    else none

pub record SeedScheduler : Type 0 where
  pub run_seed : ℤ
  pub scenario_cfg : ScenarioConfig
  pub mode : Mode
  pub episode_index : ℤ
  pub lo : ℤ
  pub hi : ℤ

abbrev pub scheduler : ℤ → ScenarioConfig → Mode → ℤ → SeedScheduler
scheduler run_seed cfg mode episode_index = record {
  run_seed = run_seed;
  scenario_cfg = cfg;
  mode = mode;
  episode_index = episode_index;
  lo = (range_of cfg mode).0;
  hi = (range_of cfg mode).1;
}

-- The constructor.
abbrev pub init_mode : ℤ → ScenarioConfig → ℤ → Option Mode → Result SeedScheduler
init_mode run_seed cfg episode_index none = err Error.value_error
init_mode run_seed cfg episode_index (some mode) =
    guard (not (ltb_ℤ (range_of cfg mode).1 (range_of cfg mode).0)) Error.value_error
    >> ok (scheduler run_seed cfg mode episode_index)

abbrev pub init : ℤ → ScenarioConfig → String → ℤ → Result SeedScheduler
init run_seed cfg mode episode_index = init_mode run_seed cfg episode_index (mode_named mode)

-- `SeedPoolViolation` is a `ValueError`.
abbrev pub accept : Mode → Option Mode → Result (Unit {0})
accept mode none = err Error.value_error
accept mode (some actual) = guard (same_mode actual mode) Error.value_error

abbrev pub validate_explicit_seed : SeedScheduler → ℤ → Result (Unit {0})
validate_explicit_seed s seed = accept s.mode (seed_split seed s.scenario_cfg)

-- `n & 0xFFFFFFFF`
abbrev pub mask32 : ℤ → ℕ
mask32 (pos n) = n % 2 ^ 32
mask32 (negsuc n) = 2 ^ 32 - 1 - n % 2 ^ 32

abbrev pub mode_salt : Mode → ℕ
mode_salt Mode.train = 0
mode_salt Mode.validation = 1
mode_salt Mode.test = 2

-- `hi - lo + 1`, which the constructor has made positive.
abbrev pub range_size : SeedScheduler → ℕ
range_size s = pos_part (s.hi -ℤ s.lo +ℤ pos 1)

-- `word entropy` is the first word of the state that numpy's `SeedSequence` generates from it.
module _ (word : List ℕ → ℕ) where
  unfoldable pub next_seed : SeedScheduler → ℤ × SeedScheduler
  next_seed s =
      let drawn =
        word (mask32 s.run_seed ∷ mode_salt s.mode ∷ mask32 s.episode_index ∷ []) % range_size s in
      (s.lo +ℤ pos drawn, record s { episode_index = s.episode_index +ℤ pos 1 })

pub record SchedulerState : Type 0 where
  pub run_seed : ℤ
  pub mode : String
  pub episode_index : ℤ

abbrev pub state_dict : SeedScheduler → SchedulerState
state_dict s = record {
  run_seed = s.run_seed;
  mode = mode_name s.mode;
  episode_index = s.episode_index;
}

abbrev pub from_state_dict : SchedulerState → ScenarioConfig → Result SeedScheduler
from_state_dict state cfg = init state.run_seed cfg state.mode state.episode_index
