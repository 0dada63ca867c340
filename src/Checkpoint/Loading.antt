-- ===== src/Checkpoint/Loading.antt =====
-- `load_generation`: what it verifies before the components take their states.
use hunter_kinodynamic_rl.Prelude.{
  ℕ, String, ◌==◌, Bool, true, false, ◌&&◌, ◌||◌, Option, none, some, List, [], ◌∷◌, if◌then◌else◌,
}
use text.Mathlib.Text.{◌==◌ as str_eq}
use hunter_kinodynamic_rl.Prelude.Dict.{lookup, string_key}
use hunter_kinodynamic_rl.Prelude.Names.{sort_names}
use hunter_kinodynamic_rl.Prelude.Result.{Result, ok, err, Error, guard, ◌>>=◌, ◌>>◌}
use hunter_kinodynamic_rl.Floats.{Floats}
use hunter_kinodynamic_rl.Checkpoint.{
  Components, ModelFile, ReplayFile, Files, Manifest, Generation, Directory,
}

-- `a == b` for texts that may be None.
abbrev pub same_text : Option String → Option String → Bool
same_text none none = true
same_text (some a) (some b) = str_eq a b
same_text a b = false

abbrev pub contains : List String → String → Bool
contains [] name = false
contains (x ∷ xs) name = str_eq x name || contains xs name

abbrev pub flatten : {S : Type 0} → Option (Option S) → Option S
flatten none = none
flatten (some o) = o

-- `_resolve_missing`: the names that have a state on both sides, the names that have not, and those
-- of the latter that the agent needs.
pub record Resolved : Type 0 where
  pub loaded : List String
  pub skipped : List String
  pub missing_required : List String

abbrev pub resolve_one : {S : Type 0} → String → Option S → Option S → Bool → Resolved → Resolved
resolve_one name none state allowed r = record r { skipped = name ∷ r.skipped }
resolve_one name (some c) none allowed r = record r {
  skipped = name ∷ r.skipped;
  missing_required = if allowed then r.missing_required else name ∷ r.missing_required;
}
resolve_one name (some c) (some s) allowed r = record r { loaded = name ∷ r.loaded }

unfoldable pub resolve_missing : {S : Type 0} → Components S → Components S → List String → Resolved
resolve_missing [] payload allow_missing = record {
  loaded = [];
  skipped = [];
  missing_required = [];
}
resolve_missing ((name, component) ∷ components) payload allow_missing =
    resolve_one name component (flatten (lookup payload name)) (contains allow_missing name)
      (resolve_missing components payload allow_missing)

abbrev pub is_empty : List String → Bool
is_empty [] = true
is_empty (x ∷ xs) = false

-- A recorded size is compared if there is one, a recorded digest if there is one that is not empty.
abbrev pub size_agrees : Option ℕ → ℕ → Bool
size_agrees none actual = true
size_agrees (some recorded) actual = actual == recorded

abbrev pub digest_agrees : Option String → String → Bool
digest_agrees none actual = true
digest_agrees (some recorded) actual = str_eq actual recorded || str_eq recorded ""

abbrev pub required : {A : Type 0} → Option A → Result A
required none = err Error.file_not_found
required (some a) = ok a

-- `components[name].load_state_dict(payload[name])` for the names that are loaded, in their order: the
-- others keep their states. The first call that raises ends the load; what it and those before it
-- leave in the components is not modelled then.
module _ ⦃F : Files⦄ where
  abbrev pub raise_or : Option Error → F.State → Result (Option F.State)
  raise_or none s = ok (some s)
  raise_or (some e) s = err e

  abbrev pub take_state : Option F.State → Option F.State → Result (Option F.State)
  take_state none state = ok none
  take_state (some c) none = ok (some c)
  take_state (some c) (some s) = raise_or (F.load_error c s) s

  abbrev pub put_first :
      String → Option F.State → Result (Components F.State) → Result (Components F.State)
  put_first name state (ok rest) = ok ((name, state) ∷ rest)
  put_first name state (err e) = err e

  abbrev pub then_load :
      String → Result (Components F.State) → Result (Option F.State) → Result (Components F.State)
  then_load name rest (ok state) = put_first name state rest
  then_load name rest (err e) = err e

  abbrev pub load_states : Components F.State → Components F.State → Result (Components F.State)
  load_states [] payload = ok []
  load_states ((name, component) ∷ components) payload =
      then_load name (load_states components payload)
        (take_state component (flatten (lookup payload name)))

module _ ⦃F : Files⦄ where
  pub record Loaded : Type 0 where
    pub manifest : Manifest
    pub loaded : List String
    pub skipped : List String
    pub generation : Option String
    pub generation_dir : String
    -- The components after the call.
    pub components : Components F.State

  -- The three embedded generations, the sizes and the digests.
  unfoldable pub verify : ModelFile F.State → Manifest → ReplayFile F.Buffer → Result (Unit {0})
  verify model manifest replay =
      guard
        (same_text model.generation manifest.generation
          && same_text manifest.generation (some replay.generation))
        Error.runtime_error
      >> (guard (size_agrees manifest.pt_size_bytes (F.pt_size model)) Error.runtime_error
          >> (guard (digest_agrees manifest.pt_sha256 (F.pt_sha256 model)) Error.runtime_error
              >> (guard (size_agrees manifest.replay_size_bytes (F.replay_size replay))
                    Error.runtime_error
                  >> guard (digest_agrees manifest.replay_sha256 (F.replay_sha256 replay))
                      Error.runtime_error)))

  -- The rest, once the files are verified.
  unfoldable pub take_in :
      String → Components F.State → List String → ModelFile F.State → Manifest → Result Loaded
  take_in name components allow_missing model manifest =
      let r = resolve_missing components model.payload allow_missing in
      guard (is_empty r.missing_required) Error.runtime_error
      >> (load_states components model.payload >>= (λ after. ok record {
        manifest = manifest;
        loaded = sort_names r.loaded;
        skipped = sort_names r.skipped;
        generation = manifest.generation;
        generation_dir = name;
        components = after;
      }))

module _ ⦃F : Files⦄ ⦃M : Floats⦄ where
  -- `_read_and_verify_generation`
  unfoldable pub read_and_verify :
      String → Components F.State → List String → Generation → Result Loaded
  read_and_verify name components allow_missing g = required g.model >>= (λ model.
      required g.manifest >>= (λ manifest. required g.replay >>= (λ replay.
        verify model manifest replay >> take_in name components allow_missing model manifest)))

  -- The tag is resolved once; everything is read from the directory that it named then.
  unfoldable pub load_generation :
      String → Components F.State → List String → Directory → Result Loaded
  load_generation tag components allow_missing d = required (lookup d.links tag) >>= (λ name.
      required (lookup d.generations name)
      >>= (λ g. read_and_verify name components allow_missing g))
