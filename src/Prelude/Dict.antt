-- ===== src/Prelude/Dict.antt =====
-- Python's `dict`: entries in the order of insertion, one for each key.
use text.Mathlib.Text.{◌==◌ as str_eq}
use text.Mathlib.TextEquality.{eq_iff}
use text.Mathlib.TextPositions.{eq_refl}
use mathlib.Core.Bool.{true≢false}
use hunter_kinodynamic_rl.Prelude.{
  String, ℕ, ◌==◌, ==→eq, ==_refl, ◌≡◌, refl, ◌≢◌, sym, subst, ◌∙◌, ◌⊎◌, inl, inr, Bool, true,
  false, ◌&&◌, Option, none, some, List, [], ◌∷◌, map, Bool-cases, arith, if◌then◌else◌,
}

-- Keys with a test of equality.
pub record Key (K : Type 0) : Type 0 where
  pub same : K → K → Bool
  pub same-eq : (a b : K) → same a b ≡ true → a ≡ b
  pub same_refl : (a : K) → same a a ≡ true

instance abbrev pub number_key : Key ℕ
number_key = record { same = λ a b. a == b; same-eq = ==→eq; same_refl = ==_refl }

abbrev pub Dict : Type 0 → Type 0 → Type 0
Dict K V = List (K × V)

abbrev pub is_some : {V : Type 0} → Option V → Bool
is_some none = false
is_some (some v) = true

module _ {K : Type 0} ⦃E : Key K⦄ where
  pub same_ne : (a b : K) → a ≢ b → E.same a b ≡ false
  same_ne a b h = elim (Bool-cases (E.same a b)) [
    | inl e ↦ absurd (h (E.same-eq a b e))
    | inr e ↦ e
  ]

pub pair-eq : (a b : ℕ × ℕ) → ((a.0 == b.0) && (a.1 == b.1)) ≡ true → a ≡ b
pair-eq a b h = ground arith

pub pair_refl : (a : ℕ × ℕ) → ((a.0 == a.0) && (a.1 == a.1)) ≡ true
pair_refl a = ground arith

instance abbrev pub pair_key : Key (ℕ × ℕ)
pair_key = record {
  same = λ a b. (a.0 == b.0) && (a.1 == b.1);
  same-eq = pair-eq;
  same_refl = pair_refl;
}

instance abbrev pub string_key : Key String
string_key = record { same = str_eq; same-eq = λ a b. (eq_iff a b).0; same_refl = eq_refl }

-- Equal keys or not.
module _ {K : Type 0} ⦃E : Key K⦄ where
  pub key_eq_or_ne : (a b : K) → (a ≡ b) ⊎ (a ≢ b)
  key_eq_or_ne a b = elim (Bool-cases (E.same a b)) [
    | inl e ↦ inl (E.same-eq a b e)
    | inr e ↦ inr (λ q.
        let t : E.same a b ≡ true = subst (λ c. E.same a c ≡ true) q (E.same_refl a) in
        true≢false (sym t ∙ e))
  ]

module _ {K V : Type 0} ⦃E : Key K⦄ where
  abbrev pub lookup : Dict K V → K → Option V
  lookup [] k = none
  lookup ((j, v) ∷ d) k = let rest = lookup d k in if E.same j k then some v else rest

  -- `d[k] = v`: in place, or at the end.
  abbrev pub insert : Dict K V → K → V → Dict K V
  insert [] k v = (k, v) ∷ []
  insert ((j, w) ∷ d) k v =
      let rest = insert d k v in if E.same j k then (j, v) ∷ d else (j, w) ∷ rest

  abbrev pub has : Dict K V → K → Bool
  has d k = is_some (lookup d k)

  abbrev pub keys : Dict K V → List K
  keys d = map (λ e. e.0) d

  pub lookup-insert_self : (d : Dict K V) (k : K) (v : V) → lookup (insert d k v) k ≡ some v
  lookup-insert_self [] k v = rw (E.same_refl k) refl
  lookup-insert_self ((j, w) ∷ d) k v = elim (Bool-cases (E.same j k)) [
    | inl e ↦ rw (e, e) refl
    | inr e ↦ rw (e, e) (lookup-insert_self d k v)
  ]

  pub lookup-insert_ne :
      (d : Dict K V) (k j : K) (v : V) → k ≢ j → lookup (insert d k v) j ≡ lookup d j
  lookup-insert_ne [] k j v h = rw (same_ne k j h) refl
  lookup-insert_ne ((i, w) ∷ d) k j v h = elim (Bool-cases (E.same i k)) [
    | inl e ↦ let n : E.same i j ≡ false = rw (E.same-eq i k e) (same_ne k j h) in rw (e, n) refl
    | inr e ↦ elim (Bool-cases (E.same i j)) [
      | inl o ↦ rw (e, o) refl
      | inr o ↦ rw (e, o) (lookup-insert_ne d k j v h)
    ]
  ]

module _ {K V : Type 0} ⦃E : Key K⦄ where
  -- `del d[k]`
  abbrev pub erase : Dict K V → K → Dict K V
  erase [] k = []
  erase ((j, w) ∷ d) k = let rest = erase d k in if E.same j k then rest else (j, w) ∷ rest

  pub lookup-erase_self : (d : Dict K V) (k : K) → lookup (erase d k) k ≡ none
  lookup-erase_self [] k = refl
  lookup-erase_self ((j, w) ∷ d) k = elim (Bool-cases (E.same j k)) [
    | inl e ↦ rw e (lookup-erase_self d k)
    | inr e ↦ rw (e, e) (lookup-erase_self d k)
  ]

  pub lookup-erase_ne : (d : Dict K V) (k j : K) → k ≢ j → lookup (erase d k) j ≡ lookup d j
  lookup-erase_ne [] k j h = refl
  lookup-erase_ne ((i, w) ∷ d) k j h = elim (Bool-cases (E.same i k)) [
    | inl e ↦
        let n : E.same i j ≡ false = rw (E.same-eq i k e) (same_ne k j h) in
        rw (e, n) (lookup-erase_ne d k j h)
    | inr e ↦ elim (Bool-cases (E.same i j)) [
      | inl o ↦ rw (e, o) refl
      | inr o ↦ rw (e, o) (lookup-erase_ne d k j h)
    ]
  ]
