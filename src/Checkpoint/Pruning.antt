-- ===== src/Checkpoint/Pruning.antt =====
-- `prune_orphan_generations`: mark, then sweep.
use hunter_kinodynamic_rl.Prelude.{
  ℕ, ◌-◌, String, ◌==◌, ltb, Bool, true, false, not, ◌||◌, Option, none, some, List, [], ◌∷◌, ◌++◌,
  length, take, if◌then◌else◌,
}
use text.Mathlib.Text.{◌==◌ as str_eq}
use hunter_kinodynamic_rl.Prelude.Dict.{Dict, lookup, erase, string_key}
use hunter_kinodynamic_rl.Prelude.Names.{name_leb}
use hunter_kinodynamic_rl.Prelude.Result.{Result, ok, err, Error}
use hunter_kinodynamic_rl.Floats.{Floats, Float}
use hunter_kinodynamic_rl.Checkpoint.{
  Files, Marker, ModelFile, Manifest, ReplayFile, Generation, Directory, put_generation, since,
  unreadable,
}

-- `name in _currently_referenced_generations(directory)`
unfoldable pub is_referenced : Dict String String → String → Bool
is_referenced [] name = false
is_referenced ((link, target) ∷ links) name = str_eq target name || is_referenced links name

module _ ⦃F : Files⦄ ⦃M : Floats⦄ where
  -- The exclusive lock can be had at once.
  abbrev pub is_free : Generation → Bool
  is_free g = elim g.writer [ none ↦ g.readers == 0 | some p ↦ false ]

  abbrev pub clear_marker : Generation → Generation
  clear_marker g = record g { marker = none }

  abbrev pub mark : Float → Generation → Generation
  mark now g = record g { marker = some (since now) }

  -- Of an orphan that is marked: the time of its mark, if it is old enough.
  abbrev pub aged : Float → Float → Option Marker → Option Float
  aged now min_age_sec none = none
  aged now min_age_sec (some unreadable) = none
  aged now min_age_sec (some (since t)) = if M.le min_age_sec (M.sub now t) then some t else none

  -- What the scan leaves of an orphan's marker.
  abbrev pub marked : Float → Option Marker → Option Marker
  marked now none = some (since now)
  marked now (some unreadable) = some (since now)
  marked now (some (since t)) = some (since t)

  -- One generation of the scan, under its lock: its new state, and its time if it may go.
  abbrev pub scan_one : Float → Float → Bool → Generation → Generation × Option Float
  scan_one now min_age_sec referenced g =
      if not (is_free g)
      then (g, none)
      else if referenced
      then (clear_marker g, none)
      else (record g { marker = marked now g.marker }, aged now min_age_sec g.marker)

  abbrev pub Candidate : Type 0
  Candidate = Float × String

  unfoldable pub scan_step : Float → Float → String → Directory → Directory × Option Float
  scan_step now min_age_sec name d = elim (lookup d.generations name) [
    | none ↦ (d, none)
    | some g ↦
        let (after, time) = scan_one now min_age_sec (is_referenced d.links name) g in
        (put_generation name after d, time)
  ]

  abbrev pub candidate : String → Option Float → List Candidate → List Candidate
  candidate name none found = found
  candidate name (some t) found = (t, name) ∷ found

  unfoldable pub scan : Float → Float → List String → Directory → Directory × List Candidate
  scan now min_age_sec [] d = (d, [])
  scan now min_age_sec (name ∷ names) d =
      let (d', time) = scan_step now min_age_sec name d in
      let (after, found) = scan now min_age_sec names d' in (after, candidate name time found)

  -- `eligible.sort()`, on the time and then the name.
  abbrev pub before : Candidate → Candidate → Bool
  before (t, a) (u, b) = if M.lt t u then true else if M.lt u t then false else name_leb a b

  unfoldable pub insert_candidate : Candidate → List Candidate → List Candidate
  insert_candidate c [] = c ∷ []
  insert_candidate c (x ∷ xs) =
      let rest = insert_candidate c xs in if before c x then c ∷ x ∷ xs else x ∷ rest

  unfoldable pub sort_candidates : List Candidate → List Candidate
  sort_candidates [] = []
  sort_candidates (c ∷ cs) = insert_candidate c (sort_candidates cs)

  -- `eligible[:-keep_last_n] if keep_last_n > 0 else eligible`
  abbrev pub to_delete : ℕ → List Candidate → List Candidate
  to_delete keep_last_n eligible = take (length eligible - keep_last_n) eligible

  -- What `shutil.rmtree` does with a directory: it is gone, or an error leaves some of it.
  pub data Removal : Type 0 where
    removed : Removal
    failed :
        Option (ModelFile F.State)
        → Option Manifest
        → Option (ReplayFile F.Buffer)
        → Option Marker
        → Removal

  pub record Swept : Type 0 where
    pub directory : Directory
    pub deleted : List String
    pub failures : List String

  abbrev pub remove : String → Generation → Removal → Swept → Swept
  remove name g removed s = record s {
    directory = record (s.directory) { generations = erase s.directory.generations name };
    deleted = s.deleted ++ name ∷ [];
  }
  remove name g (failed model manifest replay marker) s =
      let rest : Generation = record g {
        model = model;
        manifest = manifest;
        replay = replay;
        marker = marker;
      } in
      record s {
        directory = put_generation name rest s.directory;
        failures = s.failures ++ name ∷ [];
      }

  abbrev pub sweep_found : String → Removal → Bool → Option Generation → Swept → Swept
  sweep_found name act true found s = s
  sweep_found name act false none s = record s { deleted = s.deleted ++ name ∷ [] }
  sweep_found name act false (some g) s = if is_free g then remove name g act s else s

  -- One candidate of the sweep, under its lock.
  unfoldable pub sweep_step : (String → Removal) → String → Swept → Swept
  sweep_step rmtree name s =
      sweep_found name (rmtree name) (is_referenced s.directory.links name)
        (lookup s.directory.generations name) s

  unfoldable pub sweep : (String → Removal) → List Candidate → Swept → Swept
  sweep rmtree [] s = s
  sweep rmtree ((t, name) ∷ cs) s = sweep rmtree cs (sweep_step rmtree name s)

  abbrev pub outcome : Swept → Result (List String)
  outcome s = elim s.failures [ [] ↦ ok s.deleted | name ∷ names ↦ err Error.runtime_error ]

  -- The whole call, with no other process in between. `names` is the order in which the directory
  -- lists its generations.
  unfoldable pub prune_locked :
      (String → Removal) → Float → ℕ → Float → List String → Directory → Swept
  prune_locked rmtree now keep_last_n min_age_sec names d =
      let (marked_directory, eligible) = scan now min_age_sec names d in
      sweep rmtree (to_delete keep_last_n (sort_candidates eligible))
        (record { directory = marked_directory; deleted = []; failures = [] })

  unfoldable pub prune_orphan_generations :
      (String → Removal)
      → Float
      → ℕ
      → Float
      → List String
      → Directory
      → Result (List String) × Directory
  prune_orphan_generations rmtree now keep_last_n min_age_sec names d =
      if d.pruning
      then (err Error.runtime_error, d)
      else if ltb 0 d.savers
      then (ok [], d)
      else let s = prune_locked rmtree now keep_last_n min_age_sec names d in
        (outcome s, s.directory)
