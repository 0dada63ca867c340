-- ===== src/Sequence/Isolation.antt =====
-- What `validate_split_isolation` accepts.
use mathlib.Core.Bool.{true≢false}
use hunter_kinodynamic_rl.Prelude.{
  ◌≡◌, refl, sym, ap, subst, ◌∙◌, ◌≢◌, ◌↔◌, ◌⊎◌, inl, inr, String, true, false, Option, none, some,
  List, [], ◌∷◌, Bool-cases,
}
use hunter_kinodynamic_rl.Prelude.Result.{Returns}
use hunter_kinodynamic_rl.Prelude.Dict.{
  key_eq_or_ne, string_key, Dict, lookup, lookup-insert_self, lookup-insert_ne,
}
use hunter_kinodynamic_rl.Sequence.{
  SequenceWindow, SequenceIndex, setdefault, defaulted, check_isolation, validate_split_isolation,
}
use hunter_kinodynamic_rl.Sequence.Made.{Listed}

some-text : (a b : String) → ◌≡◌ {A = Option String} (some a) (some b) → a ≡ b
some-text a b q = ap (λ o. elim o [ none ↦ a | some x ↦ x ]) q

none_not_some : {A : Type 0} (s : String) → ◌≡◌ {A = Option String} none (some s) → A
none_not_some s q = absurd (true≢false (ap (λ o. elim o [ none ↦ true | some x ↦ false ]) q))

-- What `setdefault` answers and keeps.
record Default (d : Dict String String) (key given : String) (r : String × Dict String String)
    : Type 0 where
  there : lookup r.1 key ≡ some r.0
  keeps : (j s : String) → lookup d j ≡ some s → lookup r.1 j ≡ some s
  others : (j s : String) → j ≢ key → lookup r.1 j ≡ some s → lookup d j ≡ some s
  origin : (r.0 ≡ given) ⊎ (lookup d key ≡ some r.0)

defaulted-Default :
    (d : Dict String String) (key given : String) (o : Option String)
    → lookup d key ≡ o
    → Default d key given (defaulted d key given o)
defaulted-Default d key given (some v) q = record {
  there = q;
  keeps = λ j s h. h;
  others = λ j s n h. h;
  origin = inr q;
}
defaulted-Default d key given none q = record {
  there = lookup-insert_self d key given;
  keeps = λ j s h. elim (key_eq_or_ne key j) [
    | inl e ↦ none_not_some s (sym q ∙ ap (lookup d) e ∙ h)
    | inr n ↦ lookup-insert_ne d key j given n ∙ h
  ];
  others = λ j s n h. sym (lookup-insert_ne d key j given (λ e. n (sym e))) ∙ h;
  origin = inl refl;
}

-- The windows agree with what their groups are assigned.
Agrees : Dict String String → List SequenceWindow → Type 0
Agrees d ws =
    (w : SequenceWindow)
    → Listed w ws
    → (s : String) → lookup d w.group_id ≡ some s
    → s ≡ w.split_id

-- No two windows of a group stand in different splits.
abbrev pub Isolated : List SequenceWindow → Type 0
Isolated ws =
    (v w : SequenceWindow)
    → Listed v ws
    → Listed w ws
    → v.group_id ≡ w.group_id
    → v.split_id ≡ w.split_id

module _ (d : Dict String String) (w : SequenceWindow) (ws : List SequenceWindow)
    (r : String × Dict String String) (D : Default d w.group_id w.split_id r) where
  agree_back : r.0 ≡ w.split_id → Agrees r.1 ws → Agrees d (w ∷ ws)
  unfolding Agrees
  agree_back q a x (inl e) s h =
      some-text s r.0 (sym (D.keeps x.group_id s h) ∙ ap (λ v. lookup r.1 v.group_id) e ∙ D.there)
      ∙ q
      ∙ ap (λ v. v.split_id) (sym e)
  agree_back q a x (inr l) s h = a x l s (D.keeps x.group_id s h)

  agree_now : Agrees d (w ∷ ws) → r.0 ≡ w.split_id
  unfolding Agrees
  agree_now a = elim D.origin [ inl e ↦ e | inr q ↦ a w (inl refl) r.0 q ]

  agree_on : Agrees d (w ∷ ws) → Isolated (w ∷ ws) → Agrees r.1 ws
  unfolding Agrees
  agree_on a i x l s h = elim (key_eq_or_ne x.group_id w.group_id) [
    | inl e ↦
        some-text s r.0 (sym h ∙ ap (lookup r.1) e ∙ D.there)
        ∙ agree_now a
        ∙ i w x (inl refl) (inr l) (sym e)
    | inr n ↦ a x (inr l) s (D.others x.group_id s n h)
  ]

  isolate_first :
      (x y : SequenceWindow)
      → r.0 ≡ w.split_id
      → Agrees r.1 ws
      → x ≡ w
      → Listed y ws
      → x.group_id ≡ y.group_id
      → x.split_id ≡ y.split_id
  unfolding Agrees
  isolate_first x y q a e m g =
      let at : lookup r.1 y.group_id ≡ some w.split_id =
        ap (lookup r.1) (sym g)
        ∙ ap (λ v. lookup r.1 v.group_id) e
        ∙ D.there
        ∙ ap (λ t. some t) q in
      ap (λ v. v.split_id) e ∙ a y m w.split_id at

  isolate : r.0 ≡ w.split_id → Agrees r.1 ws → Isolated ws → Isolated (w ∷ ws)
  unfolding Agrees
  isolate q a i x y (inl e) (inl f) g = ap (λ v. v.split_id) (e ∙ sym f)
  isolate q a i x y (inl e) (inr m) g = isolate_first x y q a e m g
  isolate q a i x y (inr l) (inl f) g = sym (isolate_first y x q a f l (sym g))
  isolate q a i x y (inr l) (inr m) g = i x y l m g

check_isolation-Isolated :
    (d : Dict String String) (ws : List SequenceWindow)
    → Returns (check_isolation d ws) ↔ (Agrees d ws × Isolated ws)
unfolding check_isolation Agrees
check_isolation-Isolated d [] = (λ r. (λ w l. absurd l, λ v w l. absurd l), λ h. tt)
check_isolation-Isolated d (w ∷ ws) =
    let r = setdefault d w.group_id w.split_id in
    let D = defaulted-Default d w.group_id w.split_id (lookup d w.group_id) refl in
    let (to, from) = check_isolation-Isolated r.1 ws in
    elim (Bool-cases (string_key.same r.0 w.split_id)) [
      | inl t ↦
          let q = string_key.same-eq r.0 w.split_id t in
          rw t (
            λ c. let (a, i) = to c in (agree_back d w ws r D q a, isolate d w ws r D q a i),
            λ h. from (agree_on d w ws r D h.0 h.1, λ x y l m. h.1 x y (inr l) (inr m)),
          )
      | inr f ↦ rw f (
        λ c. absurd c,
        λ h.
            let q = agree_now d w ws r D h.0 in
            let u = subst (λ v. string_key.same r.0 v ≡ true) q (string_key.same_refl r.0) in
            true≢false (sym u ∙ f),
      )
    ]

-- `validate_split_isolation` returns just for an index in which no two windows of one group stand
-- in different splits.
pub validate_split_isolation-Isolated :
    (index : SequenceIndex) → Returns (validate_split_isolation index) ↔ Isolated index.windows
unfolding Agrees
validate_split_isolation-Isolated index =
    let (to, from) = check_isolation-Isolated [] index.windows in
    (λ r. (to r).1, λ i. from (λ w l s h. none_not_some s h, i))
