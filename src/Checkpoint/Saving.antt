-- ===== src/Checkpoint/Saving.antt =====
-- `save_generation`, step by step. Each step is what the save does between two points at which
-- another process may be seen to act.
use hunter_kinodynamic_rl.Prelude.{suc, ◌-◌, String, none, some, List, [], ◌∷◌, if◌then◌else◌}
use Prim.Native.String.{◌++◌ as ◌<>◌}
use hunter_kinodynamic_rl.Prelude.Dict.{lookup, insert, erase, has, string_key}
use hunter_kinodynamic_rl.Prelude.Names.{sort_names}
use hunter_kinodynamic_rl.Prelude.Result.{Result, ok, err, Error, ◌>>=◌}
use hunter_kinodynamic_rl.Floats.{Floats}
use hunter_kinodynamic_rl.Checkpoint.{
  Components, Save, ModelFile, ReplayFile, Files, Manifest, Phase, Generation, Directory,
  empty_generation, put_generation,
}

-- The names of the components that are not None.
abbrev pub present : {S : Type 0} → Components S → List String
present [] = []
present ((name, none) ∷ components) = present components
present ((name, some s) ∷ components) = name ∷ present components

-- The name of the link that is made before it replaces the tag.
abbrev pub staging : String → String → String
staging tag generation = "." <> tag <> "." <> generation <> ".symlink.tmp"

module _ ⦃F : Files⦄ where
  abbrev pub model_file : Save → ModelFile F.State
  model_file s = record { payload = s.components; generation = some s.generation }

  abbrev pub replay_file : Save → ReplayFile F.Buffer
  replay_file s = record { buffer = s.buffer; generation = s.generation }

  abbrev pub manifest_file : Save → Manifest
  manifest_file s = record {
    meta = s.meta;
    generation = some s.generation;
    pt_sha256 = some (F.pt_sha256 (model_file s));
    pt_size_bytes = some (F.pt_size (model_file s));
    replay_sha256 = some (F.replay_sha256 (replay_file s));
    replay_size_bytes = some (F.replay_size (replay_file s));
    present_components = sort_names (present s.components);
  }

module _ ⦃F : Files⦄ ⦃M : Floats⦄ where
  -- `os.makedirs(gen_dir, exist_ok=False)` under the shared lifecycle lock, and the exclusive lock of
  -- the new directory.
  abbrev pub make_directory : Save → Directory → Result Directory
  make_directory s d =
      if has d.generations s.generation
      then err Error.file_exists
      else ok
          (put_generation s.generation (empty_generation s) (record d { savers = suc d.savers }))

  abbrev pub write_model : Save → Generation → Generation
  write_model s g = record g { model = some (model_file s); writer = some (s, Phase.wrote_model) }

  abbrev pub write_replay : Save → Generation → Generation
  write_replay s g = record g {
    replay = some (replay_file s);
    writer = some (s, Phase.wrote_replay);
  }

  abbrev pub write_manifest : Save → Generation → Generation
  write_manifest s g = record g {
    manifest = some (manifest_file s);
    writer = some (s, Phase.wrote_manifest);
  }

  abbrev pub has_linked : Save → Generation → Generation
  has_linked s g = record g { writer = some (s, Phase.linked) }

  abbrev pub has_published : Save → Generation → Generation
  has_published s g = record g { writer = some (s, Phase.published) }

  -- The lock of the directory is released.
  abbrev pub release : Generation → Generation
  release g = record g { writer = none }

  -- One generation is changed where it stands.
  abbrev pub change : String → (Generation → Generation) → Directory → Directory
  change name f d = elim (lookup d.generations name) [
    | none ↦ d
    | some g ↦ put_generation name (f g) d
  ]

  -- `_publish_generation_symlink`: the link under its temporary name, and the rename.
  abbrev pub make_link : Save → Directory → Directory
  make_link s d =
      let name = staging s.tag s.generation in
      record d { links = insert (erase d.links name) name s.generation }

  abbrev pub rename_link : Save → Directory → Directory
  rename_link s d = record d {
    links = insert (erase d.links (staging s.tag s.generation)) s.tag s.generation;
  }

  abbrev pub leave : Directory → Directory
  leave d = record d { savers = d.savers - 1 }

  -- The whole call, with no other process in between.
  unfoldable pub save_generation : Save → Directory → Result Directory
  save_generation s d = make_directory s d >>= (λ made.
      let wrote =
        change s.generation (λ g. write_manifest s (write_replay s (write_model s g))) made in
      let named = rename_link s (make_link s wrote) in
      ok (leave (change s.generation release named)))
