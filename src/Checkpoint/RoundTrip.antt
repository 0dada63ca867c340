-- ===== src/Checkpoint/RoundTrip.antt =====
-- What a save leaves is what a load of its tag finds.
use hunter_kinodynamic_rl.Prelude.{
  suc, String, ◌≡◌, refl, sym, subst, ap, ◌∙◌, ◌≢◌, inl, inr, true, false, none, some, List, [],
  ◌∷◌, Bool-cases,
}
use hunter_kinodynamic_rl.Prelude.Dict.{
  lookup, insert, erase, has, string_key, lookup-insert_self, lookup-insert_ne, lookup-erase_ne,
}
use hunter_kinodynamic_rl.Prelude.Names.{sort_names}
use hunter_kinodynamic_rl.Prelude.Result.{Result, ok, err, Error}
use hunter_kinodynamic_rl.Floats.{Floats}
use hunter_kinodynamic_rl.Checkpoint.{
  Components, Files, Save, Generation, Directory, put_generation, empty_generation,
}
use hunter_kinodynamic_rl.Checkpoint.Saving.{
  model_file, replay_file, manifest_file, write_model, write_replay, write_manifest, release,
  change, make_link, rename_link, leave, staging, save_generation,
}
use hunter_kinodynamic_rl.Checkpoint.Loading.{
  flatten, resolve_missing, is_empty, Loaded, take_in, read_and_verify, load_generation,
  load_states,
}
use hunter_kinodynamic_rl.Checkpoint.Published.{verify_saved}
use hunter_kinodynamic_rl.Checkpoint.Verified.{Took, resolve_missing-Took, ok-inj, err_not_ok}

module _ ⦃F : Files⦄ where
  -- Every component that the agent declares has a saved state, and takes it.
  abbrev pub Covers : Components F.State → Components F.State → Type 0
  Covers [] payload = Unit
  Covers ((name, none) ∷ components) payload = Covers components payload
  Covers ((name, some c) ∷ components) payload =
      ((s : F.State) × (flatten (lookup payload name) ≡ some s) × (F.load_error c s ≡ none))
      × Covers components payload

  resolve_missing-Covers :
      (components payload : Components F.State) (allow_missing : List String)
      → Covers components payload
      → is_empty (resolve_missing components payload allow_missing).missing_required ≡ true
  unfolding resolve_missing
  resolve_missing-Covers [] payload allow_missing c = refl
  resolve_missing-Covers ((name, none) ∷ components) payload allow_missing c =
      resolve_missing-Covers components payload allow_missing c
  resolve_missing-Covers ((name, some x) ∷ components) payload allow_missing ((s, q, t), c) =
      rw q (resolve_missing-Covers components payload allow_missing c)

  load_states-Covers :
      (components payload : Components F.State)
      → Covers components payload
      → (after : Components F.State) × (load_states components payload ≡ ok after)
  load_states-Covers [] payload c = ([], refl)
  load_states-Covers ((name, none) ∷ components) payload c =
      let (after, e) = load_states-Covers components payload c in ((name, none) ∷ after, rw e refl)
  load_states-Covers ((name, some x) ∷ components) payload ((s, q, t), c) =
      let (after, e) = load_states-Covers components payload c in
      ((name, some s) ∷ after, rw (q, t, e) refl)

module _ ⦃F : Files⦄ ⦃M : Floats⦄ where
  -- The generation as a save leaves it.
  abbrev saved : Save → Generation
  saved s = release (write_manifest s (write_replay s (write_model s (empty_generation s))))

  -- What a save leaves in the directory.
  record Left (s : Save) (d d' : Directory) : Type 0 where
    tag_link : lookup d'.links s.tag ≡ some s.generation
    directory : lookup d'.generations s.generation ≡ some (saved s)
    others :
        (name : String)
        → s.tag ≢ name
        → staging s.tag s.generation ≢ name
        → lookup d'.links name ≡ lookup d.links name
    kept :
        (name : String)
        → s.generation ≢ name
        → lookup d'.generations name ≡ lookup d.generations name

  change_put :
      (name : String) (f : Generation → Generation) (g : Generation) (d : Directory)
      → change name f (put_generation name g d)
        ≡ put_generation name (f g) (put_generation name g d)
  change_put name f g d = rw (lookup-insert_self d.generations name g, change) refl

  -- The directory with the generation and its links in place.
  abbrev left_by : Save → Directory → Directory
  left_by s d =
      let fresh =
        put_generation s.generation (empty_generation s) (record d { savers = suc d.savers }) in
      let full = write_manifest s (write_replay s (write_model s (empty_generation s))) in
      let named = rename_link s (make_link s (put_generation s.generation full fresh)) in
      leave (put_generation s.generation (saved s) named)

  after-Left : (s : Save) (d : Directory) → Left s d (left_by s d)
  after-Left s d =
      let n = s.generation in
      let st = staging s.tag n in
      let bare = erase d.links st in
      let staged = insert bare st n in
      let one = insert d.generations n (empty_generation s) in
      let full = write_manifest s (write_replay s (write_model s (empty_generation s))) in
      let two = insert one n full in
      record {
        tag_link = lookup-insert_self (erase staged st) s.tag n;
        directory = lookup-insert_self two n (saved s);
        others = λ name a b.
            lookup-insert_ne (erase staged st) s.tag name n a
            ∙ lookup-erase_ne staged st name b
            ∙ lookup-insert_ne bare st name n b
            ∙ lookup-erase_ne d.links st name b;
        kept = λ name a.
            lookup-insert_ne two n name (saved s) a
            ∙ lookup-insert_ne one n name full a
            ∙ lookup-insert_ne d.generations n name (empty_generation s) a;
      }

  save_generation-after :
      (s : Save) (d : Directory)
      → has d.generations s.generation ≡ false
      → save_generation s d ≡ ok (left_by s d)
  unfolding save_generation
  save_generation-after s d f =
      let start = record d { savers = suc d.savers } in
      let fresh = put_generation s.generation (empty_generation s) start in
      let write : Generation → Generation =
        λ g. write_manifest s (write_replay s (write_model s g)) in
      let full = write (empty_generation s) in
      let named = rename_link s (make_link s fresh) in
      let first =
        ap (λ x. ok (leave (change s.generation release (rename_link s (make_link s x)))))
          (change_put s.generation write (empty_generation s) start) in
      let second = ap (λ x. ok (leave x)) (change_put s.generation release full named) in
      rw f (first ∙ second)

  save_generation-Left : (s : Save) (d d' : Directory) → save_generation s d ≡ ok d' → Left s d d'
  unfolding save_generation
  save_generation-Left s d d' h = elim (Bool-cases (has d.generations s.generation)) [
    | inl t ↦
        let c : ◌≡◌ {A = Result Directory} (err Error.file_exists) (ok d') = rw t at h in
        absurd (err_not_ok c)
    | inr f ↦
        subst (λ x. Left s d x) (ok-inj (sym (save_generation-after s d f) ∙ h)) (after-Left s d)
  ]

  read_saved :
      (s : Save) (components : Components F.State) (allow_missing : List String)
      → read_and_verify s.generation components allow_missing (saved s)
        ≡ take_in s.generation components allow_missing (model_file s) (manifest_file s)
  unfolding read_and_verify
  read_saved s components allow_missing = rw (verify_saved s) refl

  -- A load of the tag of a save that returned, by an agent for all of whose components the save holds
  -- a state that their `load_state_dict` takes, returns with the save's generation and manifest, and
  -- every component that is not on the list of those that may be missing has the state that was saved
  -- for it. The buffer in the generation is the saved one, and every link but the tag and its
  -- temporary name is as it was before the save, as is every other generation.
  pub load_generation-save_generation :
      (s : Save) (d d' : Directory) (components : Components F.State) (allow_missing : List String)
      → save_generation s d ≡ ok d'
      → Covers components s.components
      → (r : Loaded) × (load_generation s.tag components allow_missing d' ≡ ok r)
        × (r.generation ≡ some s.generation)
        × (r.manifest ≡ manifest_file s)
        × Took components s.components allow_missing r.components
        × ((g : Generation) × (lookup d'.generations r.generation_dir ≡ some g)
            × (g.replay ≡ some (replay_file s)))
        × ((name : String)
            → s.tag ≢ name
            → staging s.tag s.generation ≢ name
            → lookup d'.links name ≡ lookup d.links name)
        × ((name : String)
            → s.generation ≢ name
            → lookup d'.generations name ≡ lookup d.generations name)
  unfolding load_generation take_in
  load_generation-save_generation s d d' components allow_missing h c =
      let l = save_generation-Left s d d' h in
      let m = resolve_missing-Covers components s.components allow_missing c in
      let r = resolve_missing components s.components allow_missing in
      let (after, t) = load_states-Covers components s.components c in
      (
        record {
          manifest = manifest_file s;
          loaded = sort_names r.loaded;
          skipped = sort_names r.skipped;
          generation = some s.generation;
          generation_dir = s.generation;
          components = after;
        },
        rw (l.tag_link, l.directory, read_saved s components allow_missing, m, t) refl,
        refl,
        refl,
        resolve_missing-Took components s.components allow_missing after m t,
        (saved s, l.directory, refl),
        l.others,
        l.kept,
      )
