-- ===== src/Checkpoint/Steps.antt =====
-- Saves, readers and prunes of one checkpoint directory, interleaved. A save may stop after any of its
-- steps, as it does when its process dies; its locks go with it.
use hunter_kinodynamic_rl.Prelude.{suc, ◌-◌, String, ◌≡◌, true, false, none, some, []}
use hunter_kinodynamic_rl.Prelude.Dict.{lookup, string_key}
use hunter_kinodynamic_rl.Prelude.Result.{ok}
use hunter_kinodynamic_rl.Floats.{Floats, Float}
use hunter_kinodynamic_rl.Checkpoint.{
  Files, Save, Phase, Generation, Directory, put_generation, made, wrote_model, wrote_replay,
  wrote_manifest, linked,
}
use hunter_kinodynamic_rl.Checkpoint.Saving.{
  make_directory, write_model, write_replay, write_manifest, has_linked, has_published, release,
  make_link, rename_link, leave,
}
use hunter_kinodynamic_rl.Checkpoint.Pruning.{scan_step, sweep_step, Removal, Swept}

module _ ⦃F : Files⦄ ⦃M : Floats⦄ where
  abbrev pub empty : Directory
  empty = record { links = []; generations = []; savers = 0; pruning = false }

  -- The save `s` stands at the phase `p` in its directory `g`.
  abbrev pub Writes : Directory → Save → Phase → Generation → Type 0
  Writes d s p g = (lookup d.generations s.generation ≡ some g) × (g.writer ≡ some (s, p))

  abbrev pub swept : Directory → Swept
  swept d = record { directory = d; deleted = []; failures = [] }

  pub data Step : Directory → Directory → Type 0 where
    begins :
        {d d' : Directory} (s : Save) → d.pruning ≡ false → make_directory s d ≡ ok d' → Step d d'
    writes_model :
        {d : Directory} (s : Save) (g : Generation)
        → Writes d s made g
        → Step d (put_generation s.generation (write_model s g) d)
    writes_replay :
        {d : Directory} (s : Save) (g : Generation)
        → Writes d s wrote_model g
        → Step d (put_generation s.generation (write_replay s g) d)
    writes_manifest :
        {d : Directory} (s : Save) (g : Generation)
        → Writes d s wrote_replay g
        → Step d (put_generation s.generation (write_manifest s g) d)
    stages :
        {d : Directory} (s : Save) (g : Generation)
        → Writes d s wrote_manifest g
        → Step d (make_link s (put_generation s.generation (has_linked s g) d))
    publishes :
        {d : Directory} (s : Save) (g : Generation)
        → Writes d s linked g
        → Step d (rename_link s (put_generation s.generation (has_published s g) d))
    -- The save returns, or dies.
    stops :
        {d : Directory} (s : Save) (p : Phase) (g : Generation)
        → Writes d s p g
        → Step d (leave (put_generation s.generation (release g) d))
    -- A load takes the shared lock of a generation, and gives it back.
    opens :
        {d : Directory} (name : String) (g : Generation)
        → lookup d.generations name ≡ some g
        → g.writer ≡ none
        → Step d (put_generation name (record g { readers = suc g.readers }) d)
    closes :
        {d : Directory} (name : String) (g : Generation)
        → lookup d.generations name ≡ some g
        → Step d (put_generation name (record g { readers = g.readers - 1 }) d)
    prune_begins : {d : Directory} → d.savers ≡ 0 → Step d (record d { pruning = true })
    scans :
        {d : Directory} (now min_age_sec : Float) (name : String)
        → d.pruning ≡ true
        → Step d (scan_step now min_age_sec name d).0
    sweeps :
        {d : Directory} (rmtree : String → Removal) (name : String)
        → d.pruning ≡ true
        → Step d (sweep_step rmtree name (swept d)).directory
    prune_ends : {d : Directory} → Step d (record d { pruning = false })

  pub data Reach : Directory → Type 0 where
    here : Reach empty
    next : {d d' : Directory} → Reach d → Step d d' → Reach d'
