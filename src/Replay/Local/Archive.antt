-- ===== src/Replay/Local/Archive.antt =====
-- `ReplayBuffer.save` and `load`: the arrays of the .npz file, with the migration from schema 3.
-- Writing and reading the file itself is numpy's.
use hunter_kinodynamic_rl.Prelude.{
  ℕ, min, leb, ◌==◌, ◌||◌, String, Option, none, some, List, [], ◌∷◌, take, map, if◌then◌else◌,
}
use hunter_kinodynamic_rl.Prelude.Int.{ℤ, pos}
use hunter_kinodynamic_rl.Prelude.Result.{
  Result, ok, err, value_error, key_error, guard, ◌>>=◌, ◌>>◌,
}
use hunter_kinodynamic_rl.Floats.{Floats}
use hunter_kinodynamic_rl.Replay.Arrays.{RandomState, broadcast}
use hunter_kinodynamic_rl.Replay.Local.{BaseRow, AddedRow, Row, ReplayBuffer, init}

-- `SCHEMA_VERSION` of schema.py.
abbrev pub schema_version : ℕ
schema_version = 4

module _ ⦃M : Floats⦄ where
  -- `a[:len(xs)] = xs` on the arrays of one schema.
  unfoldable pub put_base : List BaseRow → List Row → List Row
  put_base [] rows = rows
  put_base (x ∷ xs) [] = []
  put_base (x ∷ xs) (row ∷ rows) = record row { base = x } ∷ put_base xs rows

  unfoldable pub put_added : List AddedRow → List Row → List Row
  put_added [] rows = rows
  put_added (x ∷ xs) [] = []
  put_added (x ∷ xs) (row ∷ rows) = record row { added = x } ∷ put_added xs rows

module _ ⦃M : Floats⦄ ⦃R : RandomState⦄ where
  -- The file's entries. A file of schema 3 has no columns that schema 4 added.
  pub record Archive : Type 0 where
    pub version : ℕ
    pub generation : Option String
    pub base : List BaseRow
    pub added : Option (List AddedRow)
    pub ptr : ℕ
    pub size : ℕ
    pub max_candidates : ℤ
    pub state_dim : ℤ
    pub action_dim : ℤ
    pub capacity : ℤ
    pub rng_state : Option R.State

  unfoldable pub save : ReplayBuffer → String → Archive
  save b generation = record {
    version = schema_version;
    generation = some generation;
    base = map (λ row. row.base) (take b.ring.size b.ring.rows);
    added = some (map (λ row. row.added) (take b.ring.size b.ring.rows));
    ptr = b.ring.ptr;
    size = b.ring.size;
    max_candidates = pos b.max_candidates;
    state_dim = pos b.state_dim;
    action_dim = pos b.action_dim;
    capacity = pos b.ring.capacity;
    rng_state = some b.rng;
  }

  add_columns : ℕ → Option (List AddedRow) → List Row → Result (List Row)
  add_columns k none rows = err key_error
  add_columns k (some column) rows = do xs ← broadcast k column; ok (put_added xs rows)

  restored : R.State → Option R.State → R.State
  restored fresh none = fresh
  restored fresh (some saved) = saved

  or_empty : Option String → String
  or_empty none = ""
  or_empty (some generation) = generation

  unfoldable pub load : Archive → ℕ → Result ReplayBuffer
  unfolding add_columns restored or_empty
  load file seed = do
    guard (file.version == 3 || file.version == schema_version) value_error
    b ← init file.state_dim file.action_dim file.capacity seed file.max_candidates
    base ← broadcast (min file.size b.ring.capacity) file.base
    let rows = put_base base b.ring.rows
    rows' ←
        if leb 4 file.version
        then add_columns (min file.size b.ring.capacity) file.added rows
        else ok rows
    ok (record b {
      ring = record { capacity = b.ring.capacity; ptr = file.ptr; size = file.size; rows = rows' };
      rng = restored b.rng file.rng_state;
      generation = some (or_empty file.generation);
    })

  -- `peek_replay_generation`
  unfoldable pub peek_replay_generation : Archive → String
  unfolding or_empty
  peek_replay_generation file = or_empty file.generation
