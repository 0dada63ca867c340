-- ===== src/Tests/Seeds.antt =====
-- The default seed ranges, and the scheduler's theorems at them.
use hunter_kinodynamic_rl.Prelude.{ℕ, ◌+◌, ◌≡◌, refl, ◌↔◌, List, [], ◌∷◌, true}
use hunter_kinodynamic_rl.Prelude.Int.{pos}
use hunter_kinodynamic_rl.Prelude.Result.{ok, err, Error, Returns}
use hunter_kinodynamic_rl.Seeds.{
  Mode, ScenarioConfig, SeedScheduler, init, scheduler, next_seed, validate_ranges, sort_ranges,
  insert_range, check_overlaps, validate_explicit_seed, state_dict, from_state_dict, range_of,
  in_range,
}
use hunter_kinodynamic_rl.Seeds.Pools.{validate_explicit_seed-in_range}
use hunter_kinodynamic_rl.Seeds.Draws.{draws, Accepted, draws-Accepted, from_state_dict-draws}

abbrev defaults : ScenarioConfig
defaults = record {
  train_seed_range = (pos 0, pos 9999);
  validation_seed_range = (pos 10000, pos 10999);
  test_seed_range = (pos 20000, pos 20999);
}

defaults_pass : validate_ranges defaults ≡ ok tt
unfolding validate_ranges check_overlaps sort_ranges insert_range
defaults_pass = refl

overlap_refused :
    validate_ranges record defaults { validation_seed_range = (pos 15000, pos 20000) }
    ≡ err Error.config_error
unfolding validate_ranges check_overlaps sort_ranges insert_range
overlap_refused = refl

abbrev validating : SeedScheduler
validating = scheduler (pos 7) defaults Mode.validation (pos 0)

-- A generator that adds the words of its entropy.
abbrev total : List ℕ → ℕ
total [] = 0
total (w ∷ ws) = w + total ws

drawn : (draws total 3 validating).0 ≡ pos 10008 ∷ pos 10009 ∷ pos 10010 ∷ []
unfolding draws next_seed
drawn = refl

refused : validate_explicit_seed validating (pos 20000) ≡ err Error.value_error
refused = refl

unnamed : init (pos 7) defaults "testing" (pos 0) ≡ err Error.value_error
unnamed = refl

validate_explicit_seed-in_range_example :
    Returns (validate_explicit_seed validating (pos 10500))
    ↔ (in_range (range_of defaults Mode.validation) (pos 10500) ≡ true)
unfolding validate_ranges check_overlaps sort_ranges insert_range
validate_explicit_seed-in_range_example = validate_explicit_seed-in_range validating (pos 10500) tt

draws-Accepted_example : Accepted validating (draws total 3 validating).0
unfolding validate_ranges check_overlaps sort_ranges insert_range
draws-Accepted_example =
    draws-Accepted total 3 (pos 7) (pos 0) defaults "validation" validating tt refl

from_state_dict-draws_example :
    from_state_dict (state_dict (draws total 3 validating).1) defaults
    ≡ ok (draws total 3 validating).1
from_state_dict-draws_example =
    from_state_dict-draws total 3 (pos 7) (pos 0) defaults "validation" validating refl
