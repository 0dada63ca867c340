-- ===== src/Sequence.antt =====
-- The index of training sequences over stored episodes, rl/replay/sequence_index.py.
-- What the episode store answers for a path is data here: the digest of the file, and the header
-- and the column of reset epochs that `load` returns, or the exception that it raises.
mod Burn
mod Runs
pub mod Made
pub mod Windows
pub mod Isolation
use hunter_kinodynamic_rl.Prelude.{
  ℕ, zero, suc, ◌+◌, ◌-◌, String, Bool, true, false, ◌&&◌, Option, none, some, List, [], ◌∷◌, ◌++◌,
  take, drop, get_elem?, if◌then◌else◌,
}
use hunter_kinodynamic_rl.Prelude.Int.{ℤ, pos, pos_part, ltb_ℤ, eq_ℤ}
use text.Mathlib.Text.{◌==◌ as str_eq}
use text.Mathlib.TextEquality.{eq_iff}
use text.Mathlib.TextPositions.{eq_refl}
use hunter_kinodynamic_rl.Prelude.Dict.{string_key, Key, Dict, lookup, insert}
use hunter_kinodynamic_rl.Prelude.Result.{Result, ok, err, Error, guard, ◌>>=◌, ◌>>◌}

pub record SequenceWindow : Type 0 where
  pub episode_id : String
  pub group_id : String
  pub split_id : String
  pub reset_epoch : ℤ
  pub burn_start : ℕ
  pub loss_start : ℕ
  pub loss_end : ℕ
  pub episode_sha256 : String

pub record SequenceIndex : Type 0 where
  pub schema_id : String
  pub sequence_contract : String
  pub loss_window : ℤ
  pub windows : List SequenceWindow

-- The fields of a header that the index reads, with a positive count of steps.
pub record EpisodeHeader : Type 0 where
  pub episode_id : String
  pub group_id : String
  pub split_id : String
  pub step_count : ℕ

-- The file of one episode, as the store reads it.
pub record Stored : Type 0 where
  pub digest : String
  pub loaded : Result (EpisodeHeader × List ℤ)

abbrev pub same_epoch : Option ℤ → ℤ → Bool
same_epoch none epoch = false
same_epoch (some e) epoch = eq_ℤ e epoch

-- `int(resets[i]) == epoch`
abbrev pub is_epoch : List ℤ → ℤ → ℕ → Bool
is_epoch resets epoch i = same_epoch (get_elem? resets i) epoch

-- `not np.any(epochs != epoch)`
abbrev pub uniform : ℤ → List ℤ → Bool
uniform epoch [] = true
uniform epoch (e ∷ epochs) = eq_ℤ e epoch && uniform epoch epochs

-- The loop that moves `burn_start` back while the epoch before it is the same.
unfoldable pub burn : List ℤ → ℤ → ℕ → ℕ
burn resets epoch zero = zero
burn resets epoch (suc start) =
    let further = burn resets epoch start in
    if is_epoch resets epoch start then further else suc start

abbrev pub window_at : String → EpisodeHeader → List ℤ → ℕ → ℕ → ℤ → SequenceWindow
window_at digest header resets size start epoch = record {
  episode_id = header.episode_id;
  group_id = header.group_id;
  split_id = header.split_id;
  reset_epoch = epoch;
  burn_start = burn resets epoch start;
  loss_start = start;
  loss_end = start + size;
  episode_sha256 = digest;
}

-- The body of the inner loop, where `resets[loss_start]` may be out of range, before the windows
-- of the later starts.
abbrev pub with_start :
    String
    → EpisodeHeader
    → List ℤ
    → ℕ
    → ℕ
    → Result (List SequenceWindow)
    → Option ℤ
    → Result (List SequenceWindow)
with_start digest header resets size start later none = err Error.index_error
with_start digest header resets size start later (some epoch) =
    if uniform epoch (take size (drop start resets))
    then later >>= (λ ws. ok (window_at digest header resets size start epoch ∷ ws))
    else later

-- The inner loop at each of `count` starts from `start` on.
unfoldable pub episode_windows :
    String → EpisodeHeader → List ℤ → ℕ → ℕ → ℕ → Result (List SequenceWindow)
episode_windows digest header resets size zero start = ok []
episode_windows digest header resets size (suc count) start =
    let later = episode_windows digest header resets size count (suc start) in
    with_start digest header resets size start later (get_elem? resets start)

-- The outer loop over the paths of the store.
unfoldable pub store_windows : ℕ → List Stored → Result (List SequenceWindow)
store_windows size [] = ok []
store_windows size (file ∷ files) =
    let later = store_windows size files in
    file.loaded >>= (λ e.
      episode_windows file.digest e.0 e.1 size (e.0.step_count + 1 - size) 0
      >>= (λ ws. later >>= (λ more. ok (ws ++ more))))

abbrev pub sequence_index : ℤ → List SequenceWindow → SequenceIndex
sequence_index size ws = record {
  schema_id = "tractor_sequence_v2";
  sequence_contract = "reset_prefix_exact_v1";
  loss_window = size;
  windows = ws;
}

unfoldable pub build : List Stored → ℤ → Result SequenceIndex
build files loss_window =
    guard (ltb_ℤ (pos 0) loss_window) Error.value_error
    >> (store_windows (pos_part loss_window) files >>= (λ ws. ok (sequence_index loss_window ws)))

abbrev pub defaulted :
    Dict String String → String → String → Option String → String × Dict String String
defaulted d key value none = (value, insert d key value)
defaulted d key value (some v) = (v, d)

-- `assignments.setdefault(key, value)`, with the assignments after it.
abbrev pub setdefault : Dict String String → String → String → String × Dict String String
setdefault d key value = defaulted d key value (lookup d key)

unfoldable pub check_isolation : Dict String String → List SequenceWindow → Result (Unit {0})
check_isolation assignments [] = ok tt
check_isolation assignments (w ∷ ws) =
    let (previous, now) = setdefault assignments w.group_id w.split_id in
    let rest = check_isolation now ws in
    if str_eq previous w.split_id then rest else err Error.value_error

abbrev pub validate_split_isolation : SequenceIndex → Result (Unit {0})
validate_split_isolation index = check_isolation [] index.windows
