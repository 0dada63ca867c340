-- ===== src/Checkpoint.antt =====
-- The checkpoint generations of rl/checkpointing/manager.py: what stands in a checkpoint directory.
-- torch's and numpy's files are their contents, with the digest and the size of a file as functions
-- of what it holds; flushing to the disk is not modelled.
pub mod Saving
pub mod Loading
pub mod Pruning
pub mod Steps
pub mod Complete
pub mod Changed
pub mod Swept
pub mod Published
pub mod Verified
pub mod RoundTrip
pub mod Due
pub mod Pruned
use hunter_kinodynamic_rl.Prelude.{
  ℕ, String, ◌≡◌, Bool, true, false, Option, none, some, List, [], ◌∷◌, arith, if◌then◌else◌,
}
use hunter_kinodynamic_rl.Prelude.Dict.{Dict, lookup, insert, string_key}
use hunter_kinodynamic_rl.Prelude.Result.{Error}
use hunter_kinodynamic_rl.Floats.{Floats, Float}

-- An agent's components by name: the state of a module or an optimizer, or None.
abbrev pub Components : Type 0 → Type 0
Components State = Dict String (Option State)

-- The contents of `model.pt`.
pub record ModelFile (State : Type 0) : Type 0 where
  pub payload : Components State
  pub generation : Option String

-- The contents of `replay.npz`.
pub record ReplayFile (Buffer : Type 0) : Type 0 where
  pub buffer : Buffer
  pub generation : String

-- The states of components, replay buffers and the caller's metadata, and what `hashlib` and
-- `os.path.getsize` answer for a file. `load_error c s` is what `load_state_dict` raises when a
-- component of state `c` is given the state `s`, because of other keys or shapes; `none` if it takes it.
pub record Files : Type 1 where
  pub State : Type 0
  pub Buffer : Type 0
  pub Meta : Type 0
  pub pt_sha256 : ModelFile State → String
  pub pt_size : ModelFile State → ℕ
  pub replay_sha256 : ReplayFile Buffer → String
  pub replay_size : ReplayFile Buffer → ℕ
  pub load_error : State → State → Option Error

module _ ⦃F : Files⦄ where
  -- The contents of `manifest.json`; `none` where a key is missing.
  pub record Manifest : Type 0 where
    pub meta : F.Meta
    pub generation : Option String
    pub pt_sha256 : Option String
    pub pt_size_bytes : Option ℕ
    pub replay_sha256 : Option String
    pub replay_size_bytes : Option ℕ
    pub present_components : List String

-- How far a save has come in the directory that it made.
pub data Phase : Type 0 where
  made wrote_model wrote_replay wrote_manifest linked published : Phase

module _ ⦃F : Files⦄ where
  -- What one call of `save_generation` saves.
  pub record Save : Type 0 where
    pub tag : String
    pub generation : String
    pub components : Components F.State
    pub meta : F.Meta
    pub buffer : F.Buffer

module _ ⦃M : Floats⦄ where
  -- The contents of `.orphaned_since`: a time, or text that is no number.
  pub data Marker : Type 0 where
    since : Float → Marker
    unreadable : Marker

module _ ⦃F : Files⦄ ⦃M : Floats⦄ where
  -- A directory `.generations/<id>`. Its `.lock` is held by the save that writes it, or shared by
  -- readers.
  pub record Generation : Type 0 where
    pub model : Option (ModelFile F.State)
    pub manifest : Option Manifest
    pub replay : Option (ReplayFile F.Buffer)
    pub marker : Option Marker
    pub writer : Option (Save × Phase)
    pub readers : ℕ

  -- A checkpoint directory: the symbolic links in it, each with the generation that it names, and the
  -- holders of `.generation-lifecycle.lock` (saves share it, a prune has it alone).
  pub record Directory : Type 0 where
    pub links : Dict String String
    pub generations : Dict String Generation
    pub savers : ℕ
    pub pruning : Bool

  abbrev pub empty_generation : Save → Generation
  empty_generation s = record {
    model = none;
    manifest = none;
    replay = none;
    marker = none;
    writer = some (s, Phase.made);
    readers = 0;
  }

  abbrev pub put_generation : String → Generation → Directory → Directory
  put_generation name g d = record d { generations = insert d.generations name g }
