-- ===== src/Tests/Sequence.antt =====
-- A store of two episodes, and the sequence index's theorems at it.
use hunter_kinodynamic_rl.Prelude.{ℕ, ◌+◌, String, ◌≡◌, refl, ◌↔◌, List, [], ◌∷◌, map, arith}
use hunter_kinodynamic_rl.Prelude.Int.{ℤ, pos}
use hunter_kinodynamic_rl.Prelude.Result.{ok, err, Error, Returns}
use hunter_kinodynamic_rl.Sequence.{
  SequenceWindow, SequenceIndex, burn, episode_windows, store_windows, build, sequence_index,
  check_isolation, validate_split_isolation,
}
use hunter_kinodynamic_rl.Sequence.Made.{Listed, Episode, stored}
use hunter_kinodynamic_rl.Sequence.Windows.{Indexes, build-Indexes}
use hunter_kinodynamic_rl.Sequence.Isolation.{Isolated, validate_split_isolation-Isolated}

abbrev episode : String → String → String → List ℤ → ℕ → Episode
episode id group split resets count = record {
  digest = id;
  header = record { episode_id = id; group_id = group; split_id = split; step_count = count };
  resets = resets;
}

-- The epoch changes after two steps.
abbrev restarted : Episode
restarted = episode "a" "g" "development" (pos 0 ∷ pos 0 ∷ pos 1 ∷ pos 1 ∷ pos 1 ∷ []) 5

abbrev leaked : Episode
leaked = episode "b" "g" "locked_test" (pos 4 ∷ pos 4 ∷ []) 2

abbrev window : Episode → ℤ → ℕ → ℕ → SequenceWindow
window e epoch first start = record {
  episode_id = e.header.episode_id;
  group_id = e.header.group_id;
  split_id = e.header.split_id;
  reset_epoch = epoch;
  burn_start = first;
  loss_start = start;
  loss_end = start + 2;
  episode_sha256 = e.digest;
}

abbrev listed : List SequenceWindow
listed =
    window restarted (pos 0) 0 0
    ∷ window restarted (pos 1) 2 2
    ∷ window restarted (pos 1) 2 3
    ∷ window leaked (pos 4) 0 0
    ∷ []

built : build (stored restarted ∷ stored leaked ∷ []) (pos 2) ≡ ok (sequence_index (pos 2) listed)
unfolding build store_windows episode_windows burn
built = refl

not_positive : build (stored leaked ∷ []) (pos 0) ≡ err Error.value_error
unfolding build
not_positive = refl

leaks : validate_split_isolation (sequence_index (pos 2) listed) ≡ err Error.value_error
unfolding check_isolation
leaks = refl

build-Indexes_example :
    (index : SequenceIndex) × ((build (map stored (restarted ∷ leaked ∷ [])) (pos 2) ≡ ok index)
      × ((w : SequenceWindow) → Listed w index.windows ↔ Indexes 2 (restarted ∷ leaked ∷ []) w))
build-Indexes_example =
    build-Indexes (restarted ∷ leaked ∷ []) 2 (omega arith) (omega arith, (omega arith, tt))

validate_split_isolation-Isolated_example :
    Returns (validate_split_isolation (sequence_index (pos 2) listed)) ↔ Isolated listed
validate_split_isolation-Isolated_example =
    validate_split_isolation-Isolated (sequence_index (pos 2) listed)
