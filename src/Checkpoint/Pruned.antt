-- ===== src/Checkpoint/Pruned.antt =====
-- What a prune may remove.
use hunter_kinodynamic_rl.Prelude.{
  ℕ, ◌-◌, String, ◌≡◌, refl, sym, subst, ◌∙◌, ◌≢◌, inl, inr, Bool, true, false, Option, none, some,
  List, [], ◌∷◌, length, Bool-cases,
}
use hunter_kinodynamic_rl.Prelude.Dict.{
  lookup, string_key, key_eq_or_ne, lookup-insert_ne, lookup-erase_ne,
}
use hunter_kinodynamic_rl.Floats.{Floats, Float}
use hunter_kinodynamic_rl.Checkpoint.{Files, Generation, Directory}
use hunter_kinodynamic_rl.Checkpoint.Complete.{none_not_some, some-inj}
use hunter_kinodynamic_rl.Checkpoint.Pruning.{
  Candidate, is_referenced, is_free, scan, sort_candidates, to_delete, Removal, Swept, removed,
  failed, sweep_found, sweep_step, sweep, prune_locked,
}
use hunter_kinodynamic_rl.Checkpoint.Due.{
  Distinct, Orphaned, AllDue, Due, take-AllDue, sort_candidates-AllDue, scan-AllDue, scan-there,
}

module _ ⦃F : Files⦄ ⦃M : Floats⦄ (now min_age_sec : Float) where
  sweep_found_ne :
      (s : Swept) (name other : String) (act : Removal) (b : Bool) (o : Option Generation)
      → name ≢ other
      → lookup (sweep_found name act b o s).directory.generations other
        ≡ lookup s.directory.generations other
  sweep_found_ne s name other act true o n = refl
  sweep_found_ne s name other act false none n = refl
  sweep_found_ne s name other removed false (some g) n = elim (Bool-cases (is_free g)) [
    | inl f ↦ rw f (lookup-erase_ne s.directory.generations name other n)
    | inr f ↦ rw f refl
  ]
  sweep_found_ne s name other (failed a b c m) false (some g) n = elim (Bool-cases (is_free g)) [
    | inl f ↦ rw f (lookup-insert_ne s.directory.generations name other _ n)
    | inr f ↦ rw f refl
  ]

  -- A generation that the sweep loses was a candidate.
  sweep-Due :
      (d : Directory) (names : List String) (rmtree : String → Removal) (cs : List Candidate)
      (s : Swept) (name : String) (g : Generation)
      → AllDue now min_age_sec d names cs
      → lookup s.directory.generations name ≡ some g
      → lookup (sweep rmtree cs s).directory.generations name ≡ none
      → Due now min_age_sec d names name
  unfolding sweep sweep_step
  sweep-Due d names rmtree [] s name g a q r = absurd (none_not_some (sym r ∙ q))
  sweep-Due d names rmtree ((t, other) ∷ cs) s name g (u, a) q r = elim (key_eq_or_ne other name) [
    | inl e ↦ subst (λ n. Due now min_age_sec d names n) e u
    | inr n ↦
        let keep =
          sweep_found_ne s other name (rmtree other) (is_referenced s.directory.links other)
            (lookup s.directory.generations other) n in
        sweep-Due d names rmtree cs (sweep_step rmtree other s) name g a (keep ∙ q) r
  ]

  -- A prune removes a generation only if, when the prune began, no link named it, neither a save nor
  -- a reader had it open, and it carried a marker that was at least the minimal age old. It is stated for listings that hold no name twice, and whatever the removal of a directory
  -- does.
  pub prune_locked-Orphaned :
      (rmtree : String → Removal) (keep_last_n : ℕ) (names : List String) (d : Directory)
      (name : String) (g : Generation)
      → Distinct names
      → lookup d.generations name ≡ some g
      → lookup (prune_locked rmtree now keep_last_n min_age_sec names d).directory.generations name
        ≡ none
      → Orphaned now min_age_sec d name g
  unfolding prune_locked
  prune_locked-Orphaned rmtree keep_last_n names d name g u q r =
      let found = (scan now min_age_sec names d).1 in
      let sorted = sort_candidates found in
      let due = take-AllDue now min_age_sec d names (length sorted - keep_last_n) sorted (
        sort_candidates-AllDue now min_age_sec d names found
          (scan-AllDue now min_age_sec names d u)) in
      let (h, k) = scan-there now min_age_sec names d name g q in
      let w =
        sweep-Due d names rmtree (to_delete keep_last_n sorted)
          (record { directory = (scan now min_age_sec names d).0; deleted = []; failures = [] })
          name h due k r in
      subst (λ x. Orphaned now min_age_sec d name x) (some-inj (sym w.there ∙ q)) w.orphaned
