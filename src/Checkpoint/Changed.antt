-- ===== src/Checkpoint/Changed.antt =====
-- The changes of a save and of a reader, one lemma for each kind.
use mathlib.Core.Bool.{true≢false}
use hunter_kinodynamic_rl.Prelude.{
  ℕ, suc, String, ◌≡◌, refl, sym, subst, ap, ◌∙◌, inl, inr, false, Option, none, some, Bool-cases,
}
use hunter_kinodynamic_rl.Prelude.Dict.{
  lookup, insert, erase, has, is_some, string_key, key_eq_or_ne, lookup-insert_self,
  lookup-insert_ne, lookup-erase_self, lookup-erase_ne,
}
use hunter_kinodynamic_rl.Prelude.Result.{Result, ok, err, Error, Returns}
use hunter_kinodynamic_rl.Floats.{Floats}
use hunter_kinodynamic_rl.Checkpoint.{
  Files, Save, Phase, Generation, Directory, put_generation, made, wrote_model, wrote_replay,
  wrote_manifest, linked, published, empty_generation,
}
use hunter_kinodynamic_rl.Checkpoint.Saving.{make_directory, release}
use hunter_kinodynamic_rl.Checkpoint.Steps.{Writes}
use hunter_kinodynamic_rl.Checkpoint.Complete.{
  Full, Written, WriterOk, Settled, Linkable, Inv, HasLinkable, put-Inv, links-Inv, some-inj,
  none_not_some,
}

module _ ⦃F : Files⦄ ⦃M : Floats⦄ where
  -- What a save has written, read from what the directory keeps.
  pub Writes-Written :
      (d : Directory) (s : Save) (p : Phase) (g : Generation)
      → Inv d
      → Writes d s p g
      → Written s p g
  Writes-Written d s p g i (at, w) =
      (subst (λ o. WriterOk s.generation o g) w (i.written s.generation g at)).1

  pub unsettled :
      (d : Directory) (s : Save) (p : Phase) (g : Generation)
      → Writes d s p g
      → Linkable s.generation g
      → Settled (some (s, p))
  unsettled d s p g (at, w) l = subst (λ o. Settled o) w l.settled

  pub Full-Linkable :
      (s : Save) (g : Generation) → Full s g → Settled g.writer → Linkable s.generation g
  Full-Linkable s g f t = record { save = s; named = refl; full = f; settled = t }

  pub refill :
      (s : Save) (g h : Generation)
      → Full s g
      → h.model ≡ g.model
      → h.replay ≡ g.replay
      → h.manifest ≡ g.manifest
      → Full s h
  refill s g h f a b c = record {
    model = a ∙ f.model;
    replay = b ∙ f.replay;
    manifest = c ∙ f.manifest;
  }

  -- A save that stands at a phase goes on to one that is not linked yet.
  pub write-Inv :
      (d : Directory) (s : Save) (p : Phase) (g g' : Generation)
      → Inv d
      → Writes d s p g
      → (Settled (some (s, p)) → ⊥)
      → WriterOk s.generation g'.writer g'
      → Inv (put_generation s.generation g' d)
  write-Inv d s p g g' i w early ok_now =
      put-Inv d s.generation g g' w.0 ok_now (λ _ _ l. absurd (early (unsettled d s p g w l))) i

  pub has-false :
      (d : Directory) (name : String) (g : Generation)
      → has d.generations name ≡ false
      → lookup d.generations name ≡ some g
      → ⊥
  has-false d name g f q = true≢false (sym (ap is_some q) ∙ f)

  pub fresh-Inv :
      (d : Directory) (s : Save) (k : ℕ)
      → has d.generations s.generation ≡ false
      → Inv d
      → Inv (put_generation s.generation (empty_generation s) (record d { savers = k }))
  fresh-Inv d s k f i = record {
    written = λ n h q. elim (key_eq_or_ne s.generation n) [
      | inl e ↦
          let r : empty_generation s ≡ h = some-inj (
            sym (lookup-insert_self d.generations s.generation (empty_generation s))
            ∙ ap (lookup (insert d.generations s.generation (empty_generation s))) e
            ∙ q) in
          subst (λ x. WriterOk n x.writer x) r (e, tt)
      | inr e ↦
          i.written n h
            (sym (lookup-insert_ne d.generations s.generation n (empty_generation s) e) ∙ q)
    ];
    complete = λ link n q.
        let (h, k, l) = i.complete link n q in
        elim (key_eq_or_ne s.generation n) [
          | inl e ↦ absurd (has-false d s.generation h f (ap (lookup d.generations) e ∙ k))
          | inr e ↦ (h, lookup-insert_ne d.generations s.generation n (empty_generation s) e ∙ k, l)
        ];
  }

  pub ok-inj : {A : Type 0} {a b : A} → ◌≡◌ {A = Result A} (ok a) (ok b) → a ≡ b
  ok-inj {a} q = ap (λ r. elim r [ ok x ↦ x | err e ↦ a ]) q

  pub begins-Inv : (d d' : Directory) (s : Save) → make_directory s d ≡ ok d' → Inv d → Inv d'
  begins-Inv d d' s q i = elim (Bool-cases (has d.generations s.generation)) [
    | inl t ↦
        let c : ◌≡◌ {A = Result Directory} (err Error.file_exists) (ok d') = (rw t at q) in
        absurd (subst (λ r. Returns r) (sym c) tt)
    | inr f ↦ subst (λ x. Inv x) (ok-inj (rw f at q)) (fresh-Inv d s (suc d.savers) f i)
  ]

  -- The links after a link is made, or renamed.
  pub linked-Inv :
      (d : Directory) (s : Save) (name other : String)
      → HasLinkable d s.generation
      → Inv d
      → Inv (record d { links = insert (erase d.links other) name s.generation })
  linked-Inv d s name other h i =
      let less = erase d.links other in
      links-Inv d (insert less name s.generation)
        (λ link n q. elim (key_eq_or_ne name link) [
          | inl a ↦
              let e : s.generation ≡ n = some-inj (
                sym (lookup-insert_self less name s.generation)
                ∙ ap (lookup (insert less name s.generation)) a
                ∙ q) in
              inr (subst (λ m. HasLinkable d m) e h)
          | inr a ↦
              let old : lookup less link ≡ some n =
                sym (lookup-insert_ne less name link s.generation a) ∙ q in
              elim (key_eq_or_ne other link) [
                | inl b ↦ absurd (
                    none_not_some
                      (sym (ap (lookup less) (sym b) ∙ lookup-erase_self d.links other) ∙ old))
                | inr b ↦ inl (sym (lookup-erase_ne d.links other link b) ∙ old)
              ]
        ])
        i

  -- A save that has written everything goes on, and its generation may be linked.
  pub settle-Inv :
      (d : Directory) (s : Save) (p : Phase) (g g' : Generation) (name other : String)
      → Inv d
      → Writes d s p g
      → WriterOk s.generation g'.writer g'
      → Full s g'
      → Settled g'.writer
      → Inv (record (put_generation s.generation g' d) {
        links = insert (erase d.links other) name s.generation;
      })
  settle-Inv d s p g g' name other i w ok_now full settled =
      let l = Full-Linkable s g' full settled in
      linked-Inv (put_generation s.generation g' d) s name other
        (g', lookup-insert_self d.generations s.generation g', l)
        (put-Inv d s.generation g g' w.0 ok_now (λ _ _ _. l) i)

  pub Written-same :
      (s : Save) (p : Phase) (g g' : Generation)
      → g'.model ≡ g.model
      → g'.replay ≡ g.replay
      → g'.manifest ≡ g.manifest
      → Written s p g
      → Written s p g'
  Written-same s made g g' a b c w = tt
  Written-same s wrote_model g g' a b c w = a ∙ w
  Written-same s wrote_replay g g' a b c w = (a ∙ w.0, b ∙ w.1)
  Written-same s wrote_manifest g g' a b c w = refill s g g' w a b c
  Written-same s linked g g' a b c w = refill s g g' w a b c
  Written-same s published g g' a b c w = refill s g g' w a b c

  pub WriterOk-same :
      (name : String) (o : Option (Save × Phase)) (g g' : Generation)
      → g'.model ≡ g.model
      → g'.replay ≡ g.replay
      → g'.manifest ≡ g.manifest
      → WriterOk name o g
      → WriterOk name o g'
  WriterOk-same name none g g' a b c w = tt
  WriterOk-same name (some (s, p)) g g' a b c (e, w) = (e, Written-same s p g g' a b c w)

  -- A generation whose files and writer stay as they are.
  pub same-Inv :
      (d : Directory) (name : String) (g g' : Generation)
      → lookup d.generations name ≡ some g
      → g'.model ≡ g.model
      → g'.replay ≡ g.replay
      → g'.manifest ≡ g.manifest
      → g'.writer ≡ g.writer
      → Inv d
      → Inv (put_generation name g' d)
  same-Inv d name g g' at a b c w i =
      put-Inv d name g g' at
        (subst (λ o. WriterOk name o g') (sym w)
          (WriterOk-same name g.writer g g' a b c (i.written name g at)))
        (λ link q l. record {
          save = l.save;
          named = l.named;
          full = refill l.save g g' l.full a b c;
          settled = subst (λ o. Settled o) (sym w) l.settled;
        })
        i

  pub stop-Inv :
      (d : Directory) (s : Save) (p : Phase) (g : Generation)
      → Inv d
      → Writes d s p g
      → Inv (put_generation s.generation (release g) d)
  stop-Inv d s p g i w =
      put-Inv d s.generation g (release g) w.0 tt
        (λ _ _ l. record {
          save = l.save;
          named = l.named;
          full = refill l.save g (release g) l.full refl refl refl;
          settled = tt;
        })
        i
