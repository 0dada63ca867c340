-- ===== src/Checkpoint/Complete.antt =====
-- What a checkpoint directory keeps under every step: a link names a complete generation.
use mathlib.Core.Bool.{true≢false}
use text.Mathlib.TextEquality.{eq_iff}
use hunter_kinodynamic_rl.Prelude.{
  String, ◌≡◌, sym, subst, ap, ◌∙◌, ◌⊎◌, inl, inr, true, false, Option, none, some, [], ◌∷◌, arith,
}
use hunter_kinodynamic_rl.Prelude.Dict.{
  Dict, lookup, insert, erase, string_key, key_eq_or_ne, lookup-insert_self, lookup-insert_ne,
  lookup-erase_self, lookup-erase_ne,
}
use hunter_kinodynamic_rl.Floats.{Floats}
use hunter_kinodynamic_rl.Checkpoint.{
  Files, Save, Phase, Generation, Directory, put_generation, made, wrote_model, wrote_replay,
  wrote_manifest, linked, published,
}
use hunter_kinodynamic_rl.Checkpoint.Saving.{model_file, replay_file, manifest_file}
use hunter_kinodynamic_rl.Checkpoint.Pruning.{is_referenced}

module _ ⦃F : Files⦄ ⦃M : Floats⦄ where
  -- The files of the generation are those that the save writes.
  pub record Full (s : Save) (g : Generation) : Type 0 where
    pub model : g.model ≡ some (model_file s)
    pub replay : g.replay ≡ some (replay_file s)
    pub manifest : g.manifest ≡ some (manifest_file s)

  -- What the save has written when it stands at a phase.
  abbrev pub Written : Save → Phase → Generation → Type 0
  Written s made g = Unit
  Written s wrote_model g = g.model ≡ some (model_file s)
  Written s wrote_replay g = (g.model ≡ some (model_file s)) × (g.replay ≡ some (replay_file s))
  Written s wrote_manifest g = Full s g
  Written s linked g = Full s g
  Written s published g = Full s g

  abbrev pub WriterOk : String → Option (Save × Phase) → Generation → Type 0
  WriterOk name none g = Unit
  WriterOk name (some (s, p)) g = (s.generation ≡ name) × Written s p g

  -- No writer will change the files.
  abbrev pub Settled : Option (Save × Phase) → Type 0
  Settled none = Unit
  Settled (some (s, linked)) = Unit
  Settled (some (s, published)) = Unit
  Settled (some (s, p)) = ⊥

  -- The generation may be linked.
  pub record Linkable (name : String) (g : Generation) : Type 0 where
    pub save : Save
    pub named : save.generation ≡ name
    pub full : Full save g
    pub settled : Settled g.writer

  pub record Inv (d : Directory) : Type 0 where
    pub written :
        (name : String) (g : Generation)
        → lookup d.generations name ≡ some g
        → WriterOk name g.writer g
    pub complete :
        (link name : String)
        → lookup d.links link ≡ some name
        → (g : Generation) × (lookup d.generations name ≡ some g) × Linkable name g

  pub none_not_some : {A : Type 0} {a : A} → ◌≡◌ {A = Option A} none (some a) → ⊥
  none_not_some q = true≢false (ap (λ o. elim o [ none ↦ true | some x ↦ false ]) q)

  -- A generation stands in the directory and may be linked.
  abbrev pub HasLinkable : Directory → String → Type 0
  HasLinkable d name = (g : Generation) × (lookup d.generations name ≡ some g) × Linkable name g

  pub some-inj : {A : Type 0} {a b : A} → ◌≡◌ {A = Option A} (some a) (some b) → a ≡ b
  some-inj {a} q = ap (λ o. elim o [ none ↦ a | some x ↦ x ]) q

  -- One generation is replaced by one that its links can name as well.
  pub put-Inv :
      (d : Directory) (name : String) (g g' : Generation)
      → lookup d.generations name ≡ some g
      → WriterOk name g'.writer g'
      → ((link : String) → lookup d.links link ≡ some name → Linkable name g → Linkable name g')
      → Inv d
      → Inv (put_generation name g' d)
  put-Inv d name g g' at w keep i = record {
    written = λ n h q. elim (key_eq_or_ne name n) [
      | inl e ↦
          let r : g' ≡ h = some-inj (
            sym (lookup-insert_self d.generations name g')
            ∙ ap (lookup (insert d.generations name g')) e
            ∙ q) in
          subst (λ m. WriterOk m h.writer h) e (subst (λ k. WriterOk name k.writer k) r w)
      | inr e ↦ i.written n h (sym (lookup-insert_ne d.generations name n g' e) ∙ q)
    ];
    complete = λ link n q.
        let (h, k, l) = i.complete link n q in
        elim (key_eq_or_ne name n) [
          | inl e ↦
              let same : h ≡ g = some-inj (sym k ∙ ap (lookup d.generations) (sym e) ∙ at) in
              let old : Linkable name g =
                subst (λ m. Linkable m g) (sym e) (subst (λ x. Linkable n x) same l) in
              (
                g',
                ap (lookup (insert d.generations name g')) (sym e)
                    ∙ lookup-insert_self d.generations name g',
                subst (λ m. Linkable m g') e (keep link (q ∙ ap (λ m. some m) (sym e)) old),
              )
          | inr e ↦ (h, lookup-insert_ne d.generations name n g' e ∙ k, l)
        ];
  }

  -- Links are changed so that each names what an old one does, or a generation that may be linked.
  pub links-Inv :
      (d : Directory) (links : Dict String String)
      → ((link name : String)
          → lookup links link ≡ some name
          → (lookup d.links link ≡ some name) ⊎ HasLinkable d name)
      → Inv d
      → Inv (record d { links = links })
  links-Inv d links step i = record {
    written = i.written;
    complete = λ link name q. elim (step link name q) [
      | inl old ↦ i.complete link name old
      | inr new ↦ new
    ];
  }

  pub referenced-lookup :
      (links : Dict String String) (link name : String)
      → lookup links link ≡ some name
      → is_referenced links name ≡ true
  unfolding is_referenced
  referenced-lookup [] link name q = absurd (ground arith)
  referenced-lookup ((l, n) ∷ links) link name q =
      ground (arith, referenced-lookup links link name, eq_iff n name, eq_iff l link)

  -- A generation that no link names goes.
  pub erase-Inv :
      (d : Directory) (name : String)
      → is_referenced d.links name ≡ false
      → Inv d
      → Inv (record d { generations = erase d.generations name })
  erase-Inv d name f i = record {
    written = λ n h q. elim (key_eq_or_ne name n) [
      | inl e ↦
          let gone : lookup (erase d.generations name) n ≡ none =
            ap (lookup (erase d.generations name)) (sym e) ∙ lookup-erase_self d.generations name in
          absurd (none_not_some (sym gone ∙ q))
      | inr e ↦ i.written n h (sym (lookup-erase_ne d.generations name n e) ∙ q)
    ];
    complete = λ link n q.
        let (h, k, l) = i.complete link n q in
        elim (key_eq_or_ne name n) [
          | inl e ↦
              let t = referenced-lookup d.links link name (q ∙ ap (λ m. some m) (sym e)) in
              absurd (true≢false (sym t ∙ f))
          | inr e ↦ (h, lookup-erase_ne d.generations name n e ∙ k, l)
        ];
  }
