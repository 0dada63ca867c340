-- ===== src/Checkpoint/Swept.antt =====
-- The changes of a prune: a mark on a generation, and a generation that no link names gone.
use mathlib.Core.Bool.{true≢false}
use hunter_kinodynamic_rl.Prelude.{
  String, ◌≡◌, refl, sym, subst, ◌∙◌, inl, inr, Bool, true, false, Option, none, some, Bool-cases,
}
use hunter_kinodynamic_rl.Prelude.Dict.{lookup, string_key}
use hunter_kinodynamic_rl.Floats.{Floats, Float}
use hunter_kinodynamic_rl.Checkpoint.{Files, Save, Phase, Generation, Directory, put_generation}
use hunter_kinodynamic_rl.Checkpoint.Pruning.{
  is_referenced, is_free, scan_one, scan_step, sweep_step, sweep_found, remove, Removal, removed,
  failed,
}
use hunter_kinodynamic_rl.Checkpoint.Steps.{swept}
use hunter_kinodynamic_rl.Checkpoint.Complete.{WriterOk, Inv, put-Inv, erase-Inv, referenced-lookup}
use hunter_kinodynamic_rl.Checkpoint.Changed.{same-Inv}

module _ ⦃F : Files⦄ ⦃M : Floats⦄ where
  pub remove-Inv :
      (d : Directory) (name : String) (g : Generation) (act : Removal)
      → lookup d.generations name ≡ some g
      → is_referenced d.links name ≡ false
      → g.writer ≡ none
      → Inv d
      → Inv (remove name g act (swept d)).directory
  remove-Inv d name g removed at f w i = erase-Inv d name f i
  remove-Inv d name g (failed model manifest replay marker) at f w i =
      put-Inv d name g _ at
        (subst
          (λ o.
            WriterOk name o
              (record g { model = model; manifest = manifest; replay = replay; marker = marker }))
          (sym w) tt)
        (λ link q _. absurd (true≢false (sym (referenced-lookup d.links link name q) ∙ f))) i

  pub is_free-writer :
      (g : Generation) (o : Option (Save × Phase)) → g.writer ≡ o → is_free g ≡ true → o ≡ none
  is_free-writer g none q f = refl
  is_free-writer g (some w) q f = absurd (true≢false (sym f ∙ rw q refl))

  pub sweep_found-Inv :
      (d : Directory) (name : String) (act : Removal) (b : Bool) (o : Option Generation)
      → is_referenced d.links name ≡ b
      → lookup d.generations name ≡ o
      → Inv d
      → Inv (sweep_found name act b o (swept d)).directory
  sweep_found-Inv d name act true o r q i = i
  sweep_found-Inv d name act false none r q i = i
  sweep_found-Inv d name act false (some g) r q i = elim (Bool-cases (is_free g)) [
    | inl f ↦ rw f (remove-Inv d name g act q r (is_free-writer g g.writer refl f) i)
    | inr f ↦ rw f i
  ]

  pub scan_one-Inv :
      (d : Directory) (name : String) (now min_age_sec : Float) (g : Generation) (b : Bool)
      → lookup d.generations name ≡ some g
      → Inv d
      → Inv (put_generation name (scan_one now min_age_sec b g).0 d)
  scan_one-Inv d name now min_age_sec g b at i = elim (Bool-cases (is_free g)) [
    | inl f ↦ elim (Bool-cases b) [
      | inl t ↦ rw (f, t) (same-Inv d name g _ at refl refl refl refl i)
      | inr t ↦ rw (f, t) (same-Inv d name g _ at refl refl refl refl i)
    ]
    | inr f ↦ rw f (same-Inv d name g g at refl refl refl refl i)
  ]

  pub scan_found-Inv :
      (d : Directory) (name : String) (now min_age_sec : Float) (o : Option Generation)
      → lookup d.generations name ≡ o
      → Inv d
      → Inv (scan_step now min_age_sec name d).0
  unfolding scan_step
  scan_found-Inv d name now min_age_sec none q i = rw (q, scan_step) i
  scan_found-Inv d name now min_age_sec (some g) q i =
      rw (q, scan_step) (scan_one-Inv d name now min_age_sec g (is_referenced d.links name) q i)

  pub sweep_step-Inv :
      (d : Directory) (rmtree : String → Removal) (name : String)
      → Inv d
      → Inv (sweep_step rmtree name (swept d)).directory
  unfolding sweep_step
  sweep_step-Inv d rmtree name i =
      sweep_found-Inv d name (rmtree name) (is_referenced d.links name) (lookup d.generations name)
        refl refl i
