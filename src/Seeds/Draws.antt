-- ===== src/Seeds/Draws.antt =====
-- Drawn seeds stay in their pool, and a saved scheduler draws on.
use native.Mathlib.Nat.{mod-lt}
use hunter_kinodynamic_rl.Prelude.{
  ℕ, suc, zero, ◌+◌, ◌-◌, ◌≤◌, ◌<◌, ◌≡◌, refl, sym, ap, subst, ◌∙◌, String, Bool, true, false, ◌&&◌,
  not, some, none, Option, List, [], ◌∷◌, arith, leb,
}
use hunter_kinodynamic_rl.Prelude.Int.{ℤ, pos, pos_part, neg_part, sub_ℕ, ltb_ℤ, ◌+ℤ◌, ◌-ℤ◌}
use hunter_kinodynamic_rl.Prelude.Result.{Result, Returns, Error, ok, err, guard, ◌>>◌}
use hunter_kinodynamic_rl.Seeds.{
  Mode, ScenarioConfig, SeedScheduler, range_of, in_range, scheduler, next_seed, init, mode_named,
  mode_name, init_mode, mask32, mode_salt, validate_ranges, validate_explicit_seed, state_dict,
  from_state_dict,
}
use hunter_kinodynamic_rl.Seeds.Pools.{accept-in_range}

pos_part-sub : (a b : ℕ) → pos_part (sub_ℕ a b) ≡ a - b
pos_part-sub a b = ground arith

neg_part-sub : (a b : ℕ) → neg_part (sub_ℕ a b) ≡ b - a
neg_part-sub a b = ground arith

le→leb : (a b : ℕ) → a ≤ b → leb a b ≡ true
le→leb a b h = ground arith

range_size_lem :
    (lo hi : ℤ)
    → pos_part (hi -ℤ lo +ℤ pos 1)
      ≡ (pos_part hi + neg_part lo - (neg_part hi + pos_part lo) + 1)
        - (neg_part hi + pos_part lo - (pos_part hi + neg_part lo))
range_size_lem lo hi =
    let p = pos_part-sub (pos_part hi + neg_part lo) (neg_part hi + pos_part lo) in
    let n = neg_part-sub (pos_part hi + neg_part lo) (neg_part hi + pos_part lo) in
    let q = pos_part-sub (pos_part (hi -ℤ lo) + 1) (neg_part (hi -ℤ lo) + 0) in
    omega (arith, p, n, q)

range_size-positive : (lo hi : ℤ) → ltb_ℤ hi lo ≡ false → 0 < pos_part (hi -ℤ lo +ℤ pos 1)
range_size-positive lo hi h =
    let e = range_size_lem lo hi in
    let l : pos_part lo + neg_part hi ≤ pos_part hi + neg_part lo = ground arith in
    omega (arith, e, l)

and_true : {a b : Bool} → a ≡ true → b ≡ true → (a && b) ≡ true
and_true h k = rw (h, k) refl

-- An offset below the size of the range leads to a seed of the range.
offset_in_range :
    (lo hi : ℤ) (d : ℕ)
    → ltb_ℤ hi lo ≡ false
    → d < pos_part (hi -ℤ lo +ℤ pos 1)
    → in_range (lo, hi) (lo +ℤ pos d) ≡ true
offset_in_range lo hi d h k =
    let e = range_size_lem lo hi in
    let l : pos_part lo + neg_part hi ≤ pos_part hi + neg_part lo = ground arith in
    let p = pos_part-sub (pos_part lo + d) (neg_part lo + 0) in
    let n = neg_part-sub (pos_part lo + d) (neg_part lo + 0) in
    let x = lo +ℤ pos d in
    let above =
      le→leb (pos_part lo + neg_part x) (pos_part x + neg_part lo) (omega (arith, p, n)) in
    let below =
      le→leb (pos_part x + neg_part hi) (pos_part hi + neg_part x) (omega (arith, e, k, l, p, n)) in
    and_true above below

module _ (word : List ℕ → ℕ) where
  -- The scheduler after `n` draws, and what it drew.
  unfoldable pub draws : ℕ → SeedScheduler → List ℤ × SeedScheduler
  draws zero s = ([], s)
  draws (suc n) s =
      let (seed, t) = next_seed word s in let (seeds, u) = draws n t in (seed ∷ seeds, u)

-- All of them are accepted.
abbrev pub Accepted : SeedScheduler → List ℤ → Type 0
Accepted s [] = Unit
Accepted s (seed ∷ seeds) = Returns (validate_explicit_seed s seed) × Accepted s seeds

-- What the constructor establishes and the draws keep.
record IsScheduler (cfg : ScenarioConfig) (run_seed : ℤ) (mode : Mode) (s : SeedScheduler)
    : Type 0 where
  is_nonempty : ltb_ℤ (range_of cfg mode).1 (range_of cfg mode).0 ≡ false
  is_built : s ≡ scheduler run_seed cfg mode s.episode_index

ok_inj : {A : Type 0} (a b : A) → ◌≡◌ {A = Result A} (ok a) (ok b) → a ≡ b
ok_inj a b q = ap (λ r. elim r [ ok x ↦ x | err e ↦ a ]) q

passed :
    (b : Bool) (e : Error) (t s : SeedScheduler)
    → (guard (not b) e >> ok t) ≡ ok s
    → (b ≡ false) × (t ≡ s)
passed true e t s h = absurd (subst (λ r. Returns r) (sym h) tt)
passed false e t s h = (refl, ok_inj t s h)

init_mode-IsScheduler :
    (run_seed : ℤ) (cfg : ScenarioConfig) (o : Option Mode) (index : ℤ) (s : SeedScheduler)
    → init_mode run_seed cfg index o ≡ ok s
    → (mode : Mode) × IsScheduler cfg run_seed mode s
init_mode-IsScheduler run_seed cfg none index s h = absurd (subst (λ r. Returns r) (sym h) tt)
init_mode-IsScheduler run_seed cfg (some mode) index s h =
    let b = ltb_ℤ (range_of cfg mode).1 (range_of cfg mode).0 in
    let (nonempty, q) = passed b Error.value_error (scheduler run_seed cfg mode index) s h in
    (
      mode,
      record {
        is_nonempty = nonempty;
        is_built = sym q ∙ ap (λ t. scheduler run_seed cfg mode t.episode_index) q;
      },
    )

module _ (word : List ℕ → ℕ) (cfg : ScenarioConfig) (run_seed : ℤ) (mode : Mode) where
  next_seed-IsScheduler :
      (s : SeedScheduler)
      → IsScheduler cfg run_seed mode s
      → IsScheduler cfg run_seed mode (next_seed word s).1
  unfolding next_seed
  next_seed-IsScheduler s i = record {
    is_nonempty = i.is_nonempty;
    is_built =
        let later : SeedScheduler → SeedScheduler =
          λ t. record t { episode_index = s.episode_index +ℤ pos 1 } in
        ap later i.is_built;
  }

  next_seed-in_range :
      (s : SeedScheduler)
      → IsScheduler cfg run_seed mode s
      → in_range (range_of cfg mode) (next_seed word s).0 ≡ true
  unfolding next_seed
  next_seed-in_range s i =
      let r = range_of cfg mode in
      let index = s.episode_index in
      subst (λ t. in_range r (next_seed word t).0 ≡ true) (sym i.is_built)
        (offset_in_range r.0 r.1 _ i.is_nonempty (
          mod-lt (word (mask32 run_seed ∷ mode_salt mode ∷ mask32 index ∷ []))
            (range_size-positive r.0 r.1 i.is_nonempty)))

  draws-IsScheduler :
      (n : ℕ) (s : SeedScheduler)
      → IsScheduler cfg run_seed mode s
      → IsScheduler cfg run_seed mode (draws word n s).1
  unfolding draws
  draws-IsScheduler zero s i = i
  draws-IsScheduler (suc n) s i =
      draws-IsScheduler n (next_seed word s).1 (next_seed-IsScheduler s i)

  draws_in_pool :
      (n : ℕ) (s t : SeedScheduler)
      → Returns (validate_ranges cfg)
      → IsScheduler cfg run_seed mode s
      → IsScheduler cfg run_seed mode t
      → Accepted t (draws word n s).0
  unfolding draws
  draws_in_pool zero s t v i j = tt
  draws_in_pool (suc n) s t v i j = (
    subst (λ u. Returns (validate_explicit_seed u (next_seed word s).0)) (sym j.is_built)
        ((accept-in_range cfg mode (next_seed word s).0 v).1 (next_seed-in_range s i)),
    draws_in_pool n (next_seed word s).1 t v (next_seed-IsScheduler s i) j,
  )

mode_named-mode_name : (m : Mode) → mode_named (mode_name m) ≡ some m
mode_named-mode_name Mode.train = refl
mode_named-mode_name Mode.validation = refl
mode_named-mode_name Mode.test = refl

IsScheduler-resumes :
    (cfg : ScenarioConfig) (run_seed : ℤ) (mode : Mode) (s : SeedScheduler)
    → IsScheduler cfg run_seed mode s
    → from_state_dict (state_dict s) cfg ≡ ok s
IsScheduler-resumes cfg run_seed mode s i =
    subst (λ t. from_state_dict (state_dict t) cfg ≡ ok t) (sym i.is_built)
      (rw (mode_named-mode_name mode, i.is_nonempty) refl)

module _ (word : List ℕ → ℕ) (n : ℕ) (run_seed index : ℤ) (cfg : ScenarioConfig) (name : String)
    (s : SeedScheduler) where
  -- Over a configuration whose seed ranges pass the check, every seed that a newly constructed
  -- scheduler draws is one that it accepts as its own: none comes from another mode's pool,
  -- whatever words the generator produces.
  pub draws-Accepted :
      Returns (validate_ranges cfg)
      → init run_seed cfg name index ≡ ok s
      → Accepted s (draws word n s).0
  draws-Accepted v h =
      let (mode, i) = init_mode-IsScheduler run_seed cfg (mode_named name) index s h in
      draws_in_pool word cfg run_seed mode n s s v i i

  -- After any number of draws from a newly constructed scheduler, the state that it saves rebuilds
  -- the same scheduler, which so draws on where the saved one stopped.
  pub from_state_dict-draws :
      init run_seed cfg name index ≡ ok s
      → from_state_dict (state_dict (draws word n s).1) cfg ≡ ok (draws word n s).1
  from_state_dict-draws h =
      let (mode, i) = init_mode-IsScheduler run_seed cfg (mode_named name) index s h in
      IsScheduler-resumes cfg run_seed mode (draws word n s).1
        (draws-IsScheduler word cfg run_seed mode n s i)
