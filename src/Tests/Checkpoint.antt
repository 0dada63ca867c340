-- ===== src/Tests/Checkpoint.antt =====
-- A checkpoint directory through saves, a load and prunes, with numbers for all contents.
use hunter_kinodynamic_rl.Prelude.{
  ℕ, ltb, if◌then◌else◌, String, ◌≡◌, refl, ◌≢◌, Option, none, some, List, [], ◌∷◌, length,
}
use hunter_kinodynamic_rl.Prelude.Int.{pos}
use hunter_kinodynamic_rl.Prelude.Names.{sort_names, insert_name}
use hunter_kinodynamic_rl.Prelude.Dict.{lookup, string_key}
use hunter_kinodynamic_rl.Prelude.Result.{Result, Error, ok, err}
use hunter_kinodynamic_rl.Floats.{Floats}
use hunter_kinodynamic_rl.Tests.Numbers.{numbers}
use hunter_kinodynamic_rl.Checkpoint.{
  Components, Files, Save, Generation, Directory, put_generation, empty_generation, since,
}
use hunter_kinodynamic_rl.Checkpoint.Saving.{
  model_file, replay_file, manifest_file, write_model, write_replay, write_manifest, has_linked,
  make_link, save_generation, staging,
}
use hunter_kinodynamic_rl.Checkpoint.Loading.{
  Loaded, load_generation, take_in, read_and_verify, verify, resolve_missing,
}
use hunter_kinodynamic_rl.Checkpoint.Pruning.{
  removed, prune_locked, scan, scan_step, sweep, sweep_step, sort_candidates, insert_candidate,
  is_referenced,
}
use hunter_kinodynamic_rl.Checkpoint.Steps.{
  empty, Reach, begins, writes_model, writes_replay, writes_manifest, stages, here, next,
}
use hunter_kinodynamic_rl.Checkpoint.Published.{Reach-loads}
use hunter_kinodynamic_rl.Checkpoint.Verified.{Read, load_generation-Read, Took}
use hunter_kinodynamic_rl.Checkpoint.RoundTrip.{load_generation-save_generation}
use hunter_kinodynamic_rl.Checkpoint.Due.{Orphaned}
use hunter_kinodynamic_rl.Checkpoint.Pruned.{prune_locked-Orphaned}

instance abbrev sample_numbers : Floats
sample_numbers = numbers

instance abbrev sample_files : Files
sample_files = record {
  State = ℕ;
  Buffer = ℕ;
  Meta = ℕ;
  pt_sha256 = λ f. "model";
  pt_size = λ f. length f.payload;
  replay_sha256 = λ f. "replay";
  replay_size = λ f. f.buffer;
  load_error = λ c s. if ltb s 100 then none else some Error.runtime_error;
}

abbrev saving : String → ℕ → Save
saving generation n = record {
  tag = "best";
  generation = generation;
  components = ("actor", some n) ∷ ("risk", none) ∷ [];
  meta = 0;
  buffer = n;
}

abbrev first : Save
first = saving "g1" 7

abbrev second : Save
second = saving "g2" 8

abbrev agent : Components ℕ
agent = ("actor", some 0) ∷ ("risk", none) ∷ []

abbrev after_result : Result Directory → Directory
after_result r = elim r [ ok d ↦ d | err e ↦ empty ]

abbrev once : Directory
once = after_result (save_generation first empty)

abbrev twice : Directory
twice = after_result (save_generation second once)

abbrev found : Result Loaded → Option Loaded
found r = elim r [ ok l ↦ some l | err e ↦ none ]

abbrev names : List String
names = "g1" ∷ "g2" ∷ []

abbrev mark_all : Directory
mark_all = (prune_locked (λ name. removed) (pos 10) 0 (pos 5) names twice).directory

repointed : lookup twice.links "best" ≡ some "g2"
unfolding save_generation
repointed = refl

-- The first prune marks the orphan, a later one removes it.
kept_at_first : lookup mark_all.generations "g1" ≢ none
unfolding save_generation prune_locked scan scan_step sweep sweep_step sort_candidates
    insert_candidate is_referenced
kept_at_first q = cc q

gone_later :
    lookup
      (prune_locked (λ name. removed) (pos 20) 0 (pos 5) names mark_all).directory.generations
      "g1"
    ≡ none
unfolding save_generation prune_locked scan scan_step sweep sweep_step sort_candidates
    insert_candidate is_referenced
gone_later = refl

-- The first save, step by step up to its temporary link.
abbrev with_model : Generation
with_model = write_model first (empty_generation first)

abbrev with_replay : Generation
with_replay = write_replay first with_model

abbrev with_manifest : Generation
with_manifest = write_manifest first with_replay

abbrev written : Directory
written = put_generation "g1" with_manifest (
    put_generation "g1" with_replay (
      put_generation "g1" with_model
        (put_generation "g1" (empty_generation first) (record empty { savers = 1 }))))

abbrev staged : Directory
staged = make_link first (put_generation "g1" (has_linked first with_manifest) written)

staged-Reach : Reach staged
staged-Reach =
    next
      (next
        (next
          (next (next here (begins first refl refl))
            (writes_model first (empty_generation first) (refl, refl)))
          (writes_replay first with_model (refl, refl)))
        (writes_manifest first with_replay (refl, refl)))
      (stages first with_manifest (refl, refl))

Reach-loads_example :
    (s : Save) × (s.generation ≡ "g1")
    × (load_generation (staging "best" "g1") agent [] staged
        ≡ take_in "g1" agent [] (model_file s) (manifest_file s))
Reach-loads_example = Reach-loads staged-Reach (staging "best" "g1") "g1" agent [] refl

-- A component that does not take the saved state.
refused :
    load_generation "best" agent [] (after_result (save_generation (saving "g1" 200) empty))
    ≡ err Error.runtime_error
unfolding save_generation load_generation read_and_verify verify take_in resolve_missing
refused = refl

abbrev loaded : Loaded
loaded = record {
  manifest = manifest_file second;
  loaded = "actor" ∷ [];
  skipped = "risk" ∷ [];
  generation = some "g2";
  generation_dir = "g2";
  components = ("actor", some 8) ∷ ("risk", none) ∷ [];
}

load_generation-Read_example : Read twice "best" agent [] loaded
unfolding save_generation load_generation read_and_verify verify take_in resolve_missing sort_names
    insert_name
load_generation-Read_example = load_generation-Read "best" agent [] twice loaded refl

load_generation-save_generation_example :
    (r : Loaded) × (load_generation "best" agent [] once ≡ ok r)
    × (r.generation ≡ some "g1")
    × (r.manifest ≡ manifest_file first)
    × Took agent first.components [] r.components
    × ((g : Generation) × (lookup once.generations r.generation_dir ≡ some g)
        × (g.replay ≡ some (replay_file first)))
    × ((name : String)
        → first.tag ≢ name
        → staging first.tag first.generation ≢ name
        → lookup once.links name ≡ lookup empty.links name)
    × ((name : String)
        → first.generation ≢ name
        → lookup once.generations name ≡ lookup empty.generations name)
unfolding save_generation
load_generation-save_generation_example =
    load_generation-save_generation first empty once agent [] refl ((7, refl, refl), tt)

abbrev orphan : Generation
orphan = record with_manifest { marker = some (since (pos 10)); writer = none }

prune_locked-Orphaned_example : Orphaned (pos 20) (pos 5) mark_all "g1" orphan
unfolding save_generation prune_locked scan scan_step sweep sweep_step sort_candidates
    insert_candidate is_referenced
prune_locked-Orphaned_example =
    prune_locked-Orphaned (pos 20) (pos 5) (λ name. removed) 0 names mark_all "g1" orphan
      (refl, (refl, tt)) refl refl
