-- ===== src/Checkpoint/Published.antt =====
-- In whatever order saves, readers and prunes act, a tag loads the files of one save.
use text.Mathlib.TextPositions.{eq_refl}
use hunter_kinodynamic_rl.Prelude.{==_refl, String, ◌≡◌, refl, some, List}
use hunter_kinodynamic_rl.Prelude.Dict.{lookup, string_key}
use hunter_kinodynamic_rl.Prelude.Result.{ok}
use hunter_kinodynamic_rl.Floats.{Floats}
use hunter_kinodynamic_rl.Checkpoint.{
  Components, Files, Save, Generation, Directory, made, wrote_model, wrote_replay, wrote_manifest,
  linked,
}
use hunter_kinodynamic_rl.Checkpoint.Saving.{
  model_file, replay_file, manifest_file, write_model, write_replay, write_manifest, has_linked,
  has_published, staging,
}
use hunter_kinodynamic_rl.Checkpoint.Steps.{
  Step, Reach, begins, writes_model, writes_replay, writes_manifest, stages, publishes, stops,
  opens, closes, prune_begins, scans, sweeps, prune_ends, here, next,
}
use hunter_kinodynamic_rl.Checkpoint.Complete.{Linkable, Inv, none_not_some}
use hunter_kinodynamic_rl.Checkpoint.Changed.{
  Writes-Written, refill, write-Inv, begins-Inv, settle-Inv, same-Inv, stop-Inv,
}
use hunter_kinodynamic_rl.Checkpoint.Swept.{scan_found-Inv, sweep_step-Inv}
use hunter_kinodynamic_rl.Checkpoint.Loading.{verify, take_in, read_and_verify, load_generation}

module _ ⦃F : Files⦄ ⦃M : Floats⦄ where
  Step-Inv : {d d' : Directory} → Step d d' → Inv d → Inv d'
  Step-Inv (begins {d} {d'} s b q) i = begins-Inv d d' s q i
  Step-Inv (writes_model {d} s g w) i =
      write-Inv d s made g (write_model s g) i w (λ x. x) (refl, refl)
  Step-Inv (writes_replay {d} s g w) i =
      write-Inv d s wrote_model g (write_replay s g) i w (λ x. x)
        (refl, (Writes-Written d s wrote_model g i w, refl))
  Step-Inv (writes_manifest {d} s g w) i =
      let (m, r) = Writes-Written d s wrote_replay g i w in
      write-Inv d s wrote_replay g (write_manifest s g) i w (λ x. x)
        (refl, record { model = m; replay = r; manifest = refl })
  Step-Inv (stages {d} s g w) i =
      let f =
        refill s g (has_linked s g) (Writes-Written d s wrote_manifest g i w) refl refl refl in
      settle-Inv d s wrote_manifest g (has_linked s g) (staging s.tag s.generation)
        (staging s.tag s.generation) i w (refl, f) f tt
  Step-Inv (publishes {d} s g w) i =
      let f = refill s g (has_published s g) (Writes-Written d s linked g i w) refl refl refl in
      settle-Inv d s linked g (has_published s g) s.tag (staging s.tag s.generation) i w (refl, f) f
        tt
  Step-Inv (stops {d} s p g w) i =
      let j = stop-Inv d s p g i w in record { written = j.written; complete = j.complete }
  Step-Inv (opens {d} name g at w) i = same-Inv d name g _ at refl refl refl refl i
  Step-Inv (closes {d} name g at) i = same-Inv d name g _ at refl refl refl refl i
  Step-Inv (prune_begins q) i = record { written = i.written; complete = i.complete }
  Step-Inv (scans {d} now min_age_sec name q) i =
      scan_found-Inv d name now min_age_sec (lookup d.generations name) refl i
  Step-Inv (sweeps {d} rmtree name q) i = sweep_step-Inv d rmtree name i
  Step-Inv prune_ends i = record { written = i.written; complete = i.complete }

  pub Reach-Inv : {d : Directory} → Reach d → Inv d
  Reach-Inv here = record {
    written = λ n g q. absurd (none_not_some q);
    complete = λ link n q. absurd (none_not_some q);
  }
  Reach-Inv (next r st) = Step-Inv st (Reach-Inv r)

  pub verify_saved : (s : Save) → verify (model_file s) (manifest_file s) (replay_file s) ≡ ok tt
  unfolding verify
  verify_saved s =
      rw
        (
          eq_refl s.generation,
          ==_refl (F.pt_size (model_file s)),
          eq_refl (F.pt_sha256 (model_file s)),
          ==_refl (F.replay_size (replay_file s)),
          eq_refl (F.replay_sha256 (replay_file s)),
        )
        refl

  read_Linkable :
      (name : String) (components : Components F.State) (allow_missing : List String)
      (g : Generation) (l : Linkable name g)
      → read_and_verify name components allow_missing g
        ≡ take_in name components allow_missing (model_file l.save) (manifest_file l.save)
  unfolding read_and_verify
  read_Linkable name components allow_missing g l =
      rw (l.full.model, l.full.manifest, l.full.replay, verify_saved l.save) refl

  -- In whatever order the steps of saves, readers and prunes come, and wherever saves die, a link of
  -- the directory names a generation that one save has written completely: loading it verifies, and
  -- goes on to take in the components and the manifest of that save.
  pub Reach-loads :
      {d : Directory}
      → Reach d
      → (tag name : String) (components : Components F.State) (allow_missing : List String)
      → lookup d.links tag ≡ some name
      → (s : Save) × (s.generation ≡ name)
        × (load_generation tag components allow_missing d
            ≡ take_in name components allow_missing (model_file s) (manifest_file s))
  unfolding load_generation
  Reach-loads {d} r tag name components allow_missing q =
      let (g, at, l) = (Reach-Inv r).complete tag name q in
      (l.save, l.named, rw (q, at) (read_Linkable name components allow_missing g l))
