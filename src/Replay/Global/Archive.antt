-- ===== src/Replay/Global/Archive.antt =====
-- `GlobalReplayBuffer.save` and `load`: the arrays of the .npz file. The columns of a file have the
-- shapes that its own numbers name. Writing and reading the file itself is numpy's.
use hunter_kinodynamic_rl.Prelude.{
  ℕ, min, ◌==◌, Bool, true, false, ◌&&◌, String, Option, none, some, List, [], ◌∷◌, take,
}
use hunter_kinodynamic_rl.Prelude.Int.{ℤ, pos}
use hunter_kinodynamic_rl.Prelude.Dict.{string_key}
use hunter_kinodynamic_rl.Prelude.Result.{Result, ok, value_error, guard, ◌>>=◌, ◌>>◌}
use hunter_kinodynamic_rl.Floats.{Floats}
use hunter_kinodynamic_rl.Replay.Arrays.{RandomState, broadcast, write_prefix}
use hunter_kinodynamic_rl.Replay.Global.{
  Tensors, Dims, Columns, GlobalRow, GlobalReplayBuffer, global_init,
}

-- `SCHEMA_VERSION` of replay_schema.py.
abbrev pub global_version : ℕ
global_version = 3

abbrev pub same_names : List String → List String → Bool
same_names [] [] = true
same_names [] (b ∷ bs) = false
same_names (a ∷ as') [] = false
same_names (a ∷ as') (b ∷ bs) = string_key.same a b && same_names as' bs

abbrev pub check_channel_metadata : List String → List String → Result (Unit {0})
check_channel_metadata saved current = guard (same_names saved current) value_error

abbrev pub or_none : Option String → String
or_none none = ""
or_none (some generation) = generation

-- `(0, 0)` for a file without the entry.
abbrev pub with_nodes : Option (ℕ × ℕ) → Dims → Dims
with_nodes none d = record d { node_rows = 0; node_features = 0 }
with_nodes (some (rows, features)) d = record d { node_rows = rows; node_features = features }

module _ ⦃M : Floats⦄ ⦃T : Tensors⦄ ⦃R : RandomState⦄ where
  pub record GlobalArchive : Type 0 where
    pub version : ℕ
    pub generation : Option String
    pub dims : Dims
    pub node_shape : Option (ℕ × ℕ)
    pub columns : Columns
    pub capacity : ℤ
    pub rows : List GlobalRow
    pub ptr : ℕ
    pub size : ℕ
    pub rng_state : R.State

  unfoldable pub save_global : GlobalReplayBuffer → String → GlobalArchive
  save_global b generation = record {
    version = global_version;
    generation = some generation;
    dims = b.dims;
    node_shape = some (b.dims.node_rows, b.dims.node_features);
    columns = b.columns;
    capacity = pos b.ring.capacity;
    rows = take b.ring.size b.ring.rows;
    ptr = b.ring.ptr;
    size = b.ring.size;
    rng_state = b.rng;
  }

  -- What `load` does after its checks.
  unfoldable pub read_rows : GlobalArchive → ℕ → Result GlobalReplayBuffer
  read_rows file seed = do
    b ← global_init (with_nodes file.node_shape file.dims) file.columns file.capacity seed
    rows ← broadcast (min file.size b.ring.capacity) file.rows
    ok (record b {
      ring = record {
        capacity = b.ring.capacity;
        ptr = file.ptr;
        size = file.size;
        rows = write_prefix rows b.ring.rows;
      };
      rng = file.rng_state;
      generation = or_none file.generation;
    })

  unfoldable pub load_global : GlobalArchive → ℕ → Columns → Result GlobalReplayBuffer
  load_global file seed expected = do
    guard (file.version == global_version) value_error
    check_channel_metadata file.columns.map_channel_names expected.map_channel_names
    check_channel_metadata file.columns.scalar_names expected.scalar_names
    check_channel_metadata file.columns.candidate_feature_names expected.candidate_feature_names
    read_rows file seed
