-- ===== src/Checkpoint/Due.antt =====
-- The candidates of a prune: what the scan finds is due.
use mathlib.Core.Bool.{true≢false}
use hunter_kinodynamic_rl.Prelude.{
  ℕ, zero, suc, String, ◌≡◌, refl, sym, subst, ap, ◌∙◌, ◌≢◌, inl, inr, Bool, true, false, ◌||◌,
  Option, none, some, List, [], ◌∷◌, take, Bool-cases, Option-cases,
}
use hunter_kinodynamic_rl.Prelude.Dict.{
  lookup, insert, string_key, key_eq_or_ne, lookup-insert_self, lookup-insert_ne,
}
use hunter_kinodynamic_rl.Floats.{Floats, Float}
use hunter_kinodynamic_rl.Checkpoint.{Files, Marker, Generation, Directory, since, unreadable}
use hunter_kinodynamic_rl.Checkpoint.Loading.{contains}
use hunter_kinodynamic_rl.Checkpoint.Complete.{none_not_some, some-inj}
use hunter_kinodynamic_rl.Checkpoint.Pruning.{
  Candidate, is_referenced, is_free, aged, scan_one, scan_step, scan, candidate, before,
  insert_candidate, sort_candidates,
}

-- A directory lists each name once.
abbrev pub Distinct : List String → Type 0
Distinct [] = Unit
Distinct (name ∷ names) = (contains names name ≡ false) × Distinct names

or_right : (a b : Bool) → b ≡ true → (a || b) ≡ true
or_right true b h = refl
or_right false b h = h

module _ ⦃F : Files⦄ ⦃M : Floats⦄ (now min_age_sec : Float) where
  -- No link names the generation, nobody has it open, and its marker is old enough.
  pub record Orphaned (d : Directory) (name : String) (g : Generation) : Type 0 where
    pub unreferenced : is_referenced d.links name ≡ false
    pub free : is_free g ≡ true
    pub time : Float
    pub marker : g.marker ≡ some (since time)
    pub old : M.le min_age_sec (M.sub now time) ≡ true

  pub record Due (d : Directory) (names : List String) (name : String) : Type 0 where
    pub listed : contains names name ≡ true
    pub generation : Generation
    pub there : lookup d.generations name ≡ some generation
    pub orphaned : Orphaned d name generation

  -- All candidates are due.
  abbrev pub AllDue : Directory → List String → List Candidate → Type 0
  AllDue d names [] = Unit
  AllDue d names ((t, name) ∷ cs) = Due d names name × AllDue d names cs

  aged-some :
      (m : Option Marker) (t : Float)
      → aged now min_age_sec m ≡ some t
      → (m ≡ some (since t)) × (M.le min_age_sec (M.sub now t) ≡ true)
  aged-some none t q = absurd (none_not_some q)
  aged-some (some unreadable) t q = absurd (none_not_some q)
  aged-some (some (since u)) t q = elim (Bool-cases (M.le min_age_sec (M.sub now u))) [
    | inl e ↦
        let p : u ≡ t = some-inj (rw e at q) in
        (ap (λ x. some (since x)) p, subst (λ x. M.le min_age_sec (M.sub now x) ≡ true) p e)
    | inr e ↦ absurd (none_not_some (rw e at q))
  ]

  scan_one-Orphaned :
      (d : Directory) (name : String) (g : Generation) (t : Float)
      → (scan_one now min_age_sec (is_referenced d.links name) g).1 ≡ some t
      → Orphaned d name g
  scan_one-Orphaned d name g t q = elim (Bool-cases (is_free g)) [
    | inl f ↦ elim (Bool-cases (is_referenced d.links name)) [
      | inl r ↦ absurd (none_not_some (rw (f, r) at q))
      | inr r ↦
          let (m, o) = aged-some g.marker t (rw (f, r) at q) in
          record { unreferenced = r; free = f; time = t; marker = m; old = o }
    ]
    | inr f ↦ absurd (none_not_some (rw f at q))
  ]

  scan_step_ne :
      (d : Directory) (name other : String)
      → name ≢ other
      → lookup (scan_step now min_age_sec name d).0.generations other ≡ lookup d.generations other
  unfolding scan_step
  scan_step_ne d name other n = elim (Option-cases (lookup d.generations name)) [
    | inl e ↦ rw (e, scan_step) refl
    | inr (g, e) ↦
        rw (e, scan_step)
          (lookup-insert_ne d.generations name other
            (scan_one now min_age_sec (is_referenced d.links name) g).0 n)
  ]

  scan_step-links :
      (d : Directory) (name : String) → (scan_step now min_age_sec name d).0.links ≡ d.links
  unfolding scan_step
  scan_step-links d name = elim (Option-cases (lookup d.generations name)) [
    | inl e ↦ rw (e, scan_step) refl
    | inr (g, e) ↦ rw (e, scan_step) refl
  ]

  -- The scan loses no generation.
  scan_step-there :
      (d : Directory) (name other : String) (g : Generation)
      → lookup d.generations other ≡ some g
      → (h : Generation) × (lookup (scan_step now min_age_sec name d).0.generations other ≡ some h)
  unfolding scan_step
  scan_step-there d name other g q = elim (key_eq_or_ne name other) [
    | inl e ↦
        let at : lookup d.generations name ≡ some g = ap (lookup d.generations) e ∙ q in
        let h = (scan_one now min_age_sec (is_referenced d.links name) g).0 in
        (
          h,
          rw (at, scan_step)
              (ap (lookup (insert d.generations name h)) (sym e)
                ∙ lookup-insert_self d.generations name h),
        )
    | inr n ↦ (g, scan_step_ne d name other n ∙ q)
  ]

  pub scan-there :
      (names : List String) (d : Directory) (other : String) (g : Generation)
      → lookup d.generations other ≡ some g
      → (h : Generation) × (lookup (scan now min_age_sec names d).0.generations other ≡ some h)
  unfolding scan
  scan-there [] d other g q = (g, q)
  scan-there (name ∷ names) d other g q =
      let (h, r) = scan_step-there d name other g q in
      scan-there names (scan_step now min_age_sec name d).0 other h r

  scan_step-Due :
      (d : Directory) (name : String) (names : List String) (t : Float)
      → (scan_step now min_age_sec name d).1 ≡ some t
      → Due d (name ∷ names) name
  unfolding scan_step
  scan_step-Due d name names t q = elim (Option-cases (lookup d.generations name)) [
    | inl e ↦ absurd (none_not_some (rw (e, scan_step) at q))
    | inr (g, e) ↦ record {
      listed = rw (string_key.same_refl name) refl;
      generation = g;
      there = e;
      orphaned = scan_one-Orphaned d name g t (rw (e, scan_step) at q);
    }
  ]

  -- What is due after one step of the scan was due before it.
  Due-earlier :
      (d : Directory) (name other : String) (names : List String)
      → contains names name ≡ false
      → Due (scan_step now min_age_sec name d).0 names other
      → Due d (name ∷ names) other
  Due-earlier d name other names f u =
      let n : name ≢ other = λ e. true≢false (sym u.listed ∙ ap (contains names) (sym e) ∙ f) in
      record {
        listed = or_right (string_key.same name other) (contains names other) u.listed;
        generation = u.generation;
        there = sym (scan_step_ne d name other n) ∙ u.there;
        orphaned = record {
          unreferenced =
              ap (λ ls. is_referenced ls other) (sym (scan_step-links d name))
              ∙ u.orphaned.unreferenced;
          free = u.orphaned.free;
          time = u.orphaned.time;
          marker = u.orphaned.marker;
          old = u.orphaned.old;
        };
      }

  AllDue-earlier :
      (d : Directory) (name : String) (names : List String) (cs : List Candidate)
      → contains names name ≡ false
      → AllDue (scan_step now min_age_sec name d).0 names cs
      → AllDue d (name ∷ names) cs
  AllDue-earlier d name names [] f a = tt
  AllDue-earlier d name names ((t, other) ∷ cs) f (u, a) =
      (Due-earlier d name other names f u, AllDue-earlier d name names cs f a)

  candidate-AllDue :
      (d : Directory) (names : List String) (name : String) (o : Option Float) (cs : List Candidate)
      → ((t : Float) → o ≡ some t → Due d names name)
      → AllDue d names cs
      → AllDue d names (candidate name o cs)
  candidate-AllDue d names name none cs u a = a
  candidate-AllDue d names name (some t) cs u a = (u t refl, a)

  pub scan-AllDue :
      (names : List String) (d : Directory)
      → Distinct names
      → AllDue d names (scan now min_age_sec names d).1
  unfolding scan
  scan-AllDue [] d u = tt
  scan-AllDue (name ∷ names) d (f, u) =
      let d' = (scan_step now min_age_sec name d).0 in
      candidate-AllDue d (name ∷ names) name (scan_step now min_age_sec name d).1
        (scan now min_age_sec names d').1 (scan_step-Due d name names)
        (AllDue-earlier d name names (scan now min_age_sec names d').1 f (scan-AllDue names d' u))

  insert_candidate-AllDue :
      (d : Directory) (names : List String) (t : Float) (name : String) (cs : List Candidate)
      → Due d names name
      → AllDue d names cs
      → AllDue d names (insert_candidate (t, name) cs)
  unfolding insert_candidate
  insert_candidate-AllDue d names t name [] u a = (u, tt)
  insert_candidate-AllDue d names t name ((x, other) ∷ cs) u (v, a) =
      elim (Bool-cases (before (t, name) (x, other))) [
        | inl e ↦ rw e (u, (v, a))
        | inr e ↦ rw e (v, insert_candidate-AllDue d names t name cs u a)
      ]

  pub sort_candidates-AllDue :
      (d : Directory) (names : List String) (cs : List Candidate)
      → AllDue d names cs
      → AllDue d names (sort_candidates cs)
  unfolding sort_candidates
  sort_candidates-AllDue d names [] a = tt
  sort_candidates-AllDue d names ((t, name) ∷ cs) (u, a) =
      insert_candidate-AllDue d names t name (sort_candidates cs) u
        (sort_candidates-AllDue d names cs a)

  pub take-AllDue :
      (d : Directory) (names : List String) (n : ℕ) (cs : List Candidate)
      → AllDue d names cs
      → AllDue d names (take n cs)
  take-AllDue d names zero cs a = tt
  take-AllDue d names (suc n) [] a = tt
  take-AllDue d names (suc n) ((t, name) ∷ cs) (u, a) = (u, take-AllDue d names n cs a)
