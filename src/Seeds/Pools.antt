-- ===== src/Seeds/Pools.antt =====
-- Checked ranges do not overlap, so a seed belongs to one pool.
use hunter_kinodynamic_rl.Prelude.{◌≡◌, refl, ◌↔◌, Bool, true, false, arith}
use hunter_kinodynamic_rl.Prelude.Int.{ℤ}
use hunter_kinodynamic_rl.Prelude.Result.{Returns}
use hunter_kinodynamic_rl.Seeds.{
  Mode, ScenarioConfig, SeedScheduler, range_of, in_range, seed_split, validate_ranges, sort_ranges,
  insert_range, check_overlaps, validate_explicit_seed, accept,
}

-- One range lies below the other.
abbrev Apart : ℤ × ℤ → ℤ × ℤ → Type 0
Apart a b = (x : ℤ) → in_range a x ≡ true → in_range b x ≡ false

checked :
    (a b c : ℤ × ℤ)
    → Returns (
        validate_ranges
          record { train_seed_range = a; validation_seed_range = b; test_seed_range = c })
    → Apart a b × (Apart a c × Apart b c)
unfolding validate_ranges sort_ranges insert_range check_overlaps
checked a b c h = (λ x i. ground arith, (λ x i. ground arith, λ x i. ground arith))

pools :
    (mode : Mode) (cfg : ScenarioConfig) (seed : ℤ) (a b c : Bool)
    → in_range cfg.train_seed_range seed ≡ a
    → in_range cfg.validation_seed_range seed ≡ b
    → in_range cfg.test_seed_range seed ≡ c
    → (a ≡ true → b ≡ false)
    → (a ≡ true → c ≡ false)
    → (b ≡ true → c ≡ false)
    → Returns (accept mode (seed_split seed cfg)) ↔ (in_range (range_of cfg mode) seed ≡ true)
pools Mode.train cfg seed a b c p q r ab ac bc = (λ t. ground arith, λ t. ground arith)
pools Mode.validation cfg seed a b c p q r ab ac bc = (λ t. ground arith, λ t. ground arith)
pools Mode.test cfg seed a b c p q r ab ac bc = (λ t. ground arith, λ t. ground arith)

pub accept-in_range :
    (cfg : ScenarioConfig) (mode : Mode) (seed : ℤ)
    → Returns (validate_ranges cfg)
    → Returns (accept mode (seed_split seed cfg)) ↔ (in_range (range_of cfg mode) seed ≡ true)
accept-in_range cfg mode seed h =
    let (ab, (ac, bc)) =
      checked cfg.train_seed_range cfg.validation_seed_range cfg.test_seed_range h in
    pools mode cfg seed _ _ _ refl refl refl (ab seed) (ac seed) (bc seed)

-- Over a configuration whose seed ranges pass the check, a scheduler accepts a seed just when the
-- seed lies in the configured range of the scheduler's own mode.
pub validate_explicit_seed-in_range :
    (s : SeedScheduler) (seed : ℤ)
    → Returns (validate_ranges s.scenario_cfg)
    → Returns (validate_explicit_seed s seed)
      ↔ (in_range (range_of s.scenario_cfg s.mode) seed ≡ true)
validate_explicit_seed-in_range s seed h = accept-in_range s.scenario_cfg s.mode seed h
