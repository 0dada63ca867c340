-- ===== src/Checkpoint/Verified.antt =====
-- What holds of the files whenever `load_generation` returns.
use text.Mathlib.TextEquality.{eq_iff}
use hunter_kinodynamic_rl.Prelude.{
  ℕ, String, ◌≡◌, refl, sym, subst, ap, ◌∙◌, ◌≢◌, inl, inr, Bool, true, false, ◌&&◌, Option, none,
  some, List, [], ◌∷◌, Bool-cases, arith,
}
use hunter_kinodynamic_rl.Prelude.Dict.{lookup, string_key}
use hunter_kinodynamic_rl.Prelude.Result.{Result, Returns, ok, err, Error, guard, ◌>>=◌, ◌>>◌}
use hunter_kinodynamic_rl.Floats.{Floats}
use hunter_kinodynamic_rl.Checkpoint.{
  Components, ModelFile, ReplayFile, Files, Manifest, Generation, Directory,
}
use hunter_kinodynamic_rl.Checkpoint.Loading.{
  same_text, contains, flatten, Resolved, resolve_one, resolve_missing, take_state, load_states,
  raise_or, put_first, then_load, is_empty, size_agrees, digest_agrees, required, Loaded, verify,
  take_in, read_and_verify, load_generation,
}

pub ok-inj : {A : Type 0} {a b : A} → ◌≡◌ {A = Result A} (ok a) (ok b) → a ≡ b
ok-inj {a} q = ap (λ r. elim r [ ok x ↦ x | err e ↦ a ]) q

some-inj : {A : Type 0} {a b : A} → ◌≡◌ {A = Option A} (some a) (some b) → a ≡ b
some-inj {a} q = ap (λ o. elim o [ none ↦ a | some x ↦ x ]) q

pub err_not_ok : {A : Type 0} {e : Error} {a : A} → ◌≡◌ {A = Result A} (err e) (ok a) → ⊥
err_not_ok q = subst (λ r. Returns r) (sym q) tt

module _ {A B : Type 0} (rest : A → Result B) {b : B} where
  bind_ok :
      (first : Result A)
      → (first >>= rest) ≡ ok b
      → (value : A) × (first ≡ ok value) × (rest value ≡ ok b)
  bind_ok (ok value) returned = (value, refl, returned)
  bind_ok (err raised) returned = absurd (err_not_ok returned)

then_ok :
    {B : Type 0} (m : Result (Unit {0})) (k : Result B) {b : B}
    → (m >> k) ≡ ok b
    → (u : Unit {0}) × (m ≡ ok u) × (k ≡ ok b)
then_ok (ok u) k h = (u, refl, h)
then_ok (err e) k h = absurd (err_not_ok h)

guard_ok :
    {B : Type 0} (t : Bool) (e : Error) (k : Result B) {b : B}
    → (guard t e >> k) ≡ ok b
    → (t ≡ true) × (k ≡ ok b)
guard_ok true e k h = (refl, h)
guard_ok false e k h = absurd (err_not_ok h)

last_guard_ok : (t : Bool) (e : Error) {b : Unit {0}} → guard t e ≡ ok b → t ≡ true
last_guard_ok true e h = refl
last_guard_ok false e h = absurd (err_not_ok h)

required_ok : {A : Type 0} (o : Option A) {a : A} → required o ≡ ok a → o ≡ some a
required_ok none h = absurd (err_not_ok h)
required_ok (some x) h = ap (λ y. some y) (ok-inj h)

same_text-eq : (a b : Option String) → same_text a b ≡ true → a ≡ b
same_text-eq none none h = refl
same_text-eq (some a) (some b) h = ap (λ x. some x) ((eq_iff a b).0 h)
same_text-eq none (some b) h = cc
same_text-eq (some a) none h = cc

size_agrees-eq : (o : Option ℕ) (n k : ℕ) → size_agrees o n ≡ true → o ≡ some k → n ≡ k
size_agrees-eq none n k h q = cc
size_agrees-eq (some m) n k h q = ground arith

digest_agrees-eq :
    (o : Option String) (t u : String) → digest_agrees o t ≡ true → o ≡ some u → u ≢ "" → t ≡ u
digest_agrees-eq none t u h q n = cc
digest_agrees-eq (some v) t u h q n = ground (arith, eq_iff t v, eq_iff v "")

-- A component that the agent declares and that may not be missing took the state of the file.
abbrev pub Took : {S : Type 0} → Components S → Components S → List String → Components S → Type 0
Took {S} components payload allow_missing after =
    (name : String) (c : S)
    → lookup components name ≡ some (some c)
    → contains allow_missing name ≡ false
    → (s : S) × (flatten (lookup payload name) ≡ some s) × (lookup after name ≡ some (some s))

module _ {S : Type 0} where
  resolve_one-tail :
      (name : String) (component state : Option S) (allowed : Bool) (r : Resolved)
      → is_empty (resolve_one name component state allowed r).missing_required ≡ true
      → is_empty r.missing_required ≡ true
  resolve_one-tail name none state allowed r h = h
  resolve_one-tail name (some c) none true r h = h
  resolve_one-tail name (some c) none false r h = cc
  resolve_one-tail name (some c) (some s) allowed r h = h

module _ ⦃F : Files⦄ where
  raise_or-ok :
      (e : Option Error) (s : F.State) {o : Option F.State} → raise_or e s ≡ ok o → o ≡ some s
  raise_or-ok none s h = sym (ok-inj h)
  raise_or-ok (some e) s h = absurd (err_not_ok h)

  put_first-ok :
      (name : String) (state : Option F.State) (rest : Result (Components F.State))
      {after : Components F.State}
      → put_first name state rest ≡ ok after
      → (others : Components F.State) × (rest ≡ ok others) × (after ≡ (name, state) ∷ others)
  put_first-ok name state (ok others) h = (others, refl, sym (ok-inj h))
  put_first-ok name state (err e) h = absurd (err_not_ok h)

  then_load-ok :
      (name : String) (rest : Result (Components F.State)) (m : Result (Option F.State))
      {after : Components F.State}
      → then_load name rest m ≡ ok after
      → (state : Option F.State) × (m ≡ ok state)
        × ((others : Components F.State) × (rest ≡ ok others) × (after ≡ (name, state) ∷ others))
  then_load-ok name rest (ok state) h = (state, refl, put_first-ok name state rest h)
  then_load-ok name rest (err e) h = absurd (err_not_ok h)

  resolve_one-head :
      (name : String) (component state : Option F.State) (r : Resolved) (c : F.State)
      {taken : Option F.State}
      → is_empty (resolve_one name component state false r).missing_required ≡ true
      → component ≡ some c
      → take_state component state ≡ ok taken
      → (s : F.State) × (state ≡ some s) × (taken ≡ some s)
  resolve_one-head name none state r c h q t = cc
  resolve_one-head name (some b) none r c h q t = cc
  resolve_one-head name (some b) (some s) r c h q t = (s, refl, raise_or-ok (F.load_error b s) s t)

  pub resolve_missing-Took :
      (components payload : Components F.State) (allow_missing : List String)
      (after : Components F.State)
      → is_empty (resolve_missing components payload allow_missing).missing_required ≡ true
      → load_states components payload ≡ ok after
      → Took components payload allow_missing after
  unfolding resolve_missing
  resolve_missing-Took [] payload allow_missing after h l name c q f = cc
  resolve_missing-Took ((n, component) ∷ components) payload allow_missing after h l name c q f =
      let state = flatten (lookup payload n) in
      let r = resolve_missing components payload allow_missing in
      let (taken, t, (others, o, a)) =
        then_load-ok n (load_states components payload) (take_state component state) l in
      subst
        (λ x.
          (s : F.State) × (flatten (lookup payload name) ≡ some s)
          × (lookup x name ≡ some (some s)))
        (sym a)
        (elim (Bool-cases (string_key.same n name)) [
          | inl e ↦
              let k : n ≡ name = string_key.same-eq n name e in
              let absent : contains allow_missing n ≡ false = ap (contains allow_missing) k ∙ f in
              let here =
                resolve_one-head n component state r c (rw absent at h) (some-inj (rw e at q)) t in
              rw e (
                here.0,
                ap (λ m. flatten (lookup payload m)) (sym k) ∙ here.1,
                ap (λ o. some o) here.2,
              )
          | inr e ↦ rw e (
              resolve_missing-Took components payload allow_missing others
                (resolve_one-tail n component state (contains allow_missing n) r h) o name c
                (rw e at q) f)
        ])

module _ ⦃F : Files⦄ where
  -- The three files belong together, and to the manifest.
  pub record Agree (model : ModelFile F.State) (manifest : Manifest) (replay : ReplayFile F.Buffer)
      : Type 0 where
    pub model_generation : model.generation ≡ some replay.generation
    pub manifest_generation : manifest.generation ≡ some replay.generation
    pub model_size : (n : ℕ) → manifest.pt_size_bytes ≡ some n → F.pt_size model ≡ n
    pub model_digest : (t : String) → manifest.pt_sha256 ≡ some t → t ≢ "" → F.pt_sha256 model ≡ t
    pub replay_size : (n : ℕ) → manifest.replay_size_bytes ≡ some n → F.replay_size replay ≡ n
    pub replay_digest :
        (t : String) → manifest.replay_sha256 ≡ some t → t ≢ "" → F.replay_sha256 replay ≡ t

  and_split : (a b : Bool) → (a && b) ≡ true → (a ≡ true) × (b ≡ true)
  and_split true b h = (refl, h)
  and_split false b h = cc

  verify-Agree :
      (model : ModelFile F.State) (manifest : Manifest) (replay : ReplayFile F.Buffer)
      {u : Unit {0}}
      → verify model manifest replay ≡ ok u
      → Agree model manifest replay
  unfolding verify
  verify-Agree model manifest replay h =
      let (ids, h1) = guard_ok _ _ _ h in
      let (a, b) = and_split _ _ ids in
      let (size1, h2) = guard_ok _ _ _ h1 in
      let (digest1, h3) = guard_ok _ _ _ h2 in
      let (size2, h4) = guard_ok _ _ _ h3 in
      let digest2 = last_guard_ok _ _ h4 in
      let m = same_text-eq manifest.generation (some replay.generation) b in
      record {
        model_generation = same_text-eq model.generation manifest.generation a ∙ m;
        manifest_generation = m;
        model_size = λ n q. size_agrees-eq manifest.pt_size_bytes _ n size1 q;
        model_digest = λ t q e. digest_agrees-eq manifest.pt_sha256 _ t digest1 q e;
        replay_size = λ n q. size_agrees-eq manifest.replay_size_bytes _ n size2 q;
        replay_digest = λ t q e. digest_agrees-eq manifest.replay_sha256 _ t digest2 q e;
      }

module _ ⦃F : Files⦄ ⦃M : Floats⦄ where
  -- What a load that returned has read.
  pub record Read (d : Directory) (tag : String) (components : Components F.State)
      (allow_missing : List String) (r : Loaded) : Type 0 where
    pub read : Generation
    pub model : ModelFile F.State
    pub replay : ReplayFile F.Buffer
    pub tag_link : lookup d.links tag ≡ some r.generation_dir
    pub directory : lookup d.generations r.generation_dir ≡ some read
    pub model_there : read.model ≡ some model
    pub manifest_there : read.manifest ≡ some r.manifest
    pub replay_there : read.replay ≡ some replay
    pub agree : Agree model r.manifest replay
    pub took : Took components model.payload allow_missing r.components

  take_in_ok :
      (name : String) (components : Components F.State) (allow_missing : List String)
      (model : ModelFile F.State) (manifest : Manifest) (r : Loaded)
      → take_in name components allow_missing model manifest ≡ ok r
      → (r.generation_dir ≡ name)
        × (r.manifest ≡ manifest)
        × Took components model.payload allow_missing r.components
  unfolding take_in
  take_in_ok name components allow_missing model manifest r h =
      let (e, k) = guard_ok _ _ _ h in
      let (after, l, k') = bind_ok _ _ k in
      let q = ok-inj k' in
      (
        ap (λ x. x.generation_dir) (sym q),
        ap (λ x. x.manifest) (sym q),
        subst (λ x. Took components model.payload allow_missing x.components) q
            (resolve_missing-Took components model.payload allow_missing after e l),
      )

  -- `load_generation` returns only if the tag names a directory in which all three files stand, embed
  -- one generation, and have the sizes and digests that the manifest records; and every component
  -- that the agent declares and that was not allowed to be missing has then taken the state that
  -- the file holds for it.
  pub load_generation-Read :
      (tag : String) (components : Components F.State) (allow_missing : List String) (d : Directory)
      (r : Loaded)
      → load_generation tag components allow_missing d ≡ ok r
      → Read d tag components allow_missing r
  unfolding load_generation read_and_verify
  load_generation-Read tag components allow_missing d r h =
      let (name, linked, h1) = bind_ok _ _ h in
      let (g, at, h2) = bind_ok _ _ h1 in
      let (model, a, h3) = bind_ok _ _ h2 in
      let (manifest, b, h4) = bind_ok _ _ h3 in
      let (replay, c, h5) = bind_ok _ _ h4 in
      let (u, v, h6) = then_ok _ _ h5 in
      let (dir, man, took) = take_in_ok name components allow_missing model manifest r h6 in
      record {
        read = g;
        model = model;
        replay = replay;
        tag_link = required_ok _ linked ∙ ap (λ n. some n) (sym dir);
        directory = ap (lookup d.generations) dir ∙ required_ok _ at;
        model_there = required_ok _ a;
        manifest_there = required_ok _ b ∙ ap (λ m. some m) (sym man);
        replay_there = required_ok _ c;
        agree = subst (λ m. Agree model m replay) (sym man) (verify-Agree model manifest replay v);
        took = took;
      }
