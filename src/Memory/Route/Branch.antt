-- ===== src/Memory/Route/Branch.antt =====
-- What the route history says of the sequence of arrivals.
use hunter_kinodynamic_rl.Prelude.{
  ℕ, zero, suc, ◌+◌, ◌-◌, ◌==◌, ==→eq, ◌≡◌, refl, sym, ap, ◌∙◌, ◌⊎◌, inl, inr, false, ◌||◌, none,
  some, List, [], ◌∷◌, ◌++◌, length, length-append, drop, Bool-cases, arith,
}
use hunter_kinodynamic_rl.Prelude.Slices.{append_assoc, append-nil}
use hunter_kinodynamic_rl.Memory.Graph.Edges.{member}
use hunter_kinodynamic_rl.Memory.Route.{RouteHistory, reversed, index_of, branch_since, after_index}

length-reversed : (xs : List ℕ) → length (reversed xs) ≡ length xs
length-reversed [] = refl
length-reversed (x ∷ xs) = omega (arith, length-append (reversed xs) (x ∷ []), length-reversed xs)

reversed-append : (xs ys : List ℕ) → reversed (xs ++ ys) ≡ reversed ys ++ reversed xs
reversed-append [] ys = sym (append-nil (reversed ys))
reversed-append (x ∷ xs) ys =
    ap (λ zs. zs ++ x ∷ []) (reversed-append xs ys)
    ∙ append_assoc (reversed ys) (reversed xs) (x ∷ [])

reversed-reversed : (xs : List ℕ) → reversed (reversed xs) ≡ xs
reversed-reversed [] = refl
reversed-reversed (x ∷ xs) =
    reversed-append (reversed xs) (x ∷ []) ∙ ap (λ zs. x ∷ zs) (reversed-reversed xs)

pub member-append : (x : ℕ) (xs ys : List ℕ) → member x (xs ++ ys) ≡ (member x xs || member x ys)
member-append x [] ys = refl
member-append x (y ∷ xs) ys = elim (Bool-cases (y == x)) [
  | inl e ↦ rw e refl
  | inr e ↦ rw e (member-append x xs ys)
]

member-reversed : (x : ℕ) (xs : List ℕ) → member x (reversed xs) ≡ member x xs
member-reversed x [] = refl
member-reversed x (y ∷ xs) =
    rw (member-append x (reversed xs) (y ∷ []), member-reversed x xs) (ground arith)

drop_past : (n x : ℕ) (xs ys : List ℕ) → n ≡ length xs + 1 → drop n (xs ++ x ∷ ys) ≡ ys
drop_past zero x xs ys h = absurd (omega arith)
drop_past (suc n) x [] ys h = let e : n ≡ 0 = omega arith in rw e refl
drop_past (suc n) x (y ∷ xs) ys h = drop_past n x xs ys (omega arith)

-- Where `index` finds a value, no earlier entry has it.
record Found (x : ℕ) (xs : List ℕ) (i : ℕ) : Type 0 where
  before : List ℕ
  behind : List ℕ
  split : xs ≡ before ++ x ∷ behind
  position : length before ≡ i
  first : member x before ≡ false

Found-next : (x y i : ℕ) (ys : List ℕ) → (y == x) ≡ false → Found x ys i → Found x (y ∷ ys) (suc i)
Found-next x y i ys e f = record {
  before = y ∷ f.before;
  behind = f.behind;
  split = ap (λ zs. y ∷ zs) f.split;
  position = ap suc f.position;
  first = rw e f.first;
}

index_of-Found :
    (x : ℕ) (xs : List ℕ)
    → ((index_of xs x ≡ none) × (member x xs ≡ false))
      ⊎ ((i : ℕ) × (index_of xs x ≡ some i) × Found x xs i)
index_of-Found x [] = inl (refl, refl)
index_of-Found x (y ∷ ys) = elim (Bool-cases (y == x)) [
  | inl e ↦ rw e (
      inr (
        0,
        refl,
        record {
          before = [];
          behind = ys;
          split = ap (λ z. z ∷ ys) (==→eq y x e);
          position = refl;
          first = refl;
        },
      ))
  | inr e ↦ elim (index_of-Found x ys) [
    | inl (n, m) ↦ rw (e, n, m) (inl (refl, refl))
    | inr (i, s, f) ↦ rw (e, s) (inr (suc i, refl, Found-next x y i ys e f))
  ]
]

-- A split of the sequence at the last place of a node.
pub record LastAt (x : ℕ) (xs : List ℕ) (tail : List ℕ) : Type 0 where
  pub front : List ℕ
  pub split : xs ≡ front ++ x ∷ tail
  pub gone : member x tail ≡ false

-- The branch since a junction is what follows its last visit, and is empty if it was never visited.
pub branch_since-LastAt :
    (h : RouteHistory) (junction : ℕ)
    → LastAt junction h.sequence (branch_since h junction)
      ⊎ ((member junction h.sequence ≡ false) × (branch_since h junction ≡ []))
unfolding branch_since after_index
branch_since-LastAt h junction =
    let xs = h.sequence in
    elim (index_of-Found junction (reversed xs)) [
      | inl (n, m) ↦ rw n (inr (sym (member-reversed junction xs) ∙ m, refl))
      | inr (i, s, f) ↦
          let e : xs ≡ reversed f.behind ++ junction ∷ reversed f.before =
            sym (reversed-reversed xs)
            ∙ ap reversed f.split
            ∙ reversed-append f.before (junction ∷ f.behind)
            ∙ append_assoc (reversed f.behind) (junction ∷ []) (reversed f.before) in
          let n : length xs - 1 - i + 1 ≡ length (reversed f.behind) + 1 = omega (
            arith,
            ap length e,
            length-append (reversed f.behind) (junction ∷ reversed f.before),
            length-reversed f.before,
            f.position,
          ) in
          let d : drop (length xs - 1 - i + 1) xs ≡ reversed f.before =
            ap (drop (length xs - 1 - i + 1)) e
            ∙ drop_past (length xs - 1 - i + 1) junction (reversed f.behind) (reversed f.before)
                n in
          rw (s, d)
            (inl (record {
              front = reversed f.behind;
              split = e;
              gone = member-reversed junction f.before ∙ f.first;
            }))
    ]
