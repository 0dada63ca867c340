-- ===== src/Memory/Graph/Reachable/Scan.antt =====
-- One round of the search: what it adds to the nodes seen and to the next frontier.
use hunter_kinodynamic_rl.Prelude.{
  ℕ, ◌+◌, ◌==◌, ==→eq, ==_refl, ◌≡◌, ◌≢◌, refl, sym, ◌∙◌, ◌⊎◌, inl, inr, true, false, none, some,
  List, [], ◌∷◌, ◌++◌, length, length-append, Bool-cases, arith,
}
use hunter_kinodynamic_rl.Memory.Graph.Edges.{member}
use hunter_kinodynamic_rl.Memory.Graph.Search.{scan}
use hunter_kinodynamic_rl.Memory.Route.Branch.{member-append}

abbrev pub In : ℕ → List ℕ → Type 0
In x xs = member x xs ≡ true

abbrev pub Distinct : List ℕ → Type 0
Distinct [] = Unit
Distinct (x ∷ xs) = (member x xs ≡ false) × Distinct xs

-- The effect of a scan of `xs` for `b` that does not meet it.
pub record Scanned (b : ℕ) (xs s n s' n' : List ℕ) : Type 0 where
  pub grows : (x : ℕ) → In x s → In x s'
  pub covers : (x : ℕ) → In x xs → (x ≢ b) × In x s'
  pub frontier : (x : ℕ) → In x n' → In x n ⊎ In x xs
  pub keeps : (x : ℕ) → In x n → In x n'
  pub added : (x : ℕ) → In x s' → In x s ⊎ In x n'
  pub distinct : Distinct s → Distinct s'
  pub count : length s' + length n ≡ length s + length n'

pub In-cons : (x y : ℕ) (ys : List ℕ) → In x (y ∷ ys) → (y ≡ x) ⊎ In x ys
In-cons x y ys h = elim (Bool-cases (y == x)) [
  | inl e ↦ inl (==→eq y x e)
  | inr e ↦ inr (ground arith)
]

pub In-here : (x : ℕ) (ys : List ℕ) → In x (x ∷ ys)
In-here x ys = rw (==_refl x) refl

pub In-there : (x y : ℕ) (ys : List ℕ) → In x ys → In x (y ∷ ys)
In-there x y ys h = ground arith

pub In-left : (x : ℕ) (xs ys : List ℕ) → In x xs → In x (xs ++ ys)
In-left x xs ys h = rw (member-append x xs ys, h) refl

pub In-right : (x : ℕ) (xs ys : List ℕ) → In x ys → In x (xs ++ ys)
In-right x xs ys h = rw (member-append x xs ys, h) (ground arith)

pub In-append : (x : ℕ) (xs ys : List ℕ) → In x (xs ++ ys) → In x xs ⊎ In x ys
In-append x xs ys h = let e = member-append x xs ys in ground arith

ne_of_test : (x b : ℕ) → (x == b) ≡ false → x ≢ b
ne_of_test x b e h = ground arith

-- A neighbor that was seen before.
skip-Scanned :
    (b x : ℕ) (xs s n s' n' : List ℕ)
    → (x == b) ≡ false
    → In x s
    → Scanned b xs s n s' n'
    → Scanned b (x ∷ xs) s n s' n'
skip-Scanned b x xs s n s' n' e m c = record {
  grows = c.grows;
  covers = λ y h. elim (In-cons y x xs h) [
    | inl q ↦ (λ r. ne_of_test x b e (q ∙ r), c.grows y (rw (sym q) m))
    | inr h' ↦ c.covers y h'
  ];
  frontier = λ y h. elim (c.frontier y h) [ inl q ↦ inl q | inr q ↦ inr (In-there y x xs q) ];
  keeps = c.keeps;
  added = c.added;
  distinct = c.distinct;
  count = c.count;
}

-- A neighbor that is new: it is seen from now on, and stands in the next frontier.
take-Scanned :
    (b x : ℕ) (xs s n s' n' : List ℕ)
    → (x == b) ≡ false
    → member x s ≡ false
    → Scanned b xs (x ∷ s) (n ++ x ∷ []) s' n'
    → Scanned b (x ∷ xs) s n s' n'
take-Scanned b x xs s n s' n' e m c = record {
  grows = λ y h. c.grows y (In-there y x s h);
  covers = λ y h. elim (In-cons y x xs h) [
    | inl q ↦ (λ r. ne_of_test x b e (q ∙ r), c.grows y (rw q (In-here y s)))
    | inr h' ↦ c.covers y h'
  ];
  frontier = λ y h. elim (c.frontier y h) [
    | inl q ↦ elim (In-append y n (x ∷ []) q) [
      | inl r ↦ inl r
      | inr r ↦ elim (In-cons y x [] r) [
        | inl w ↦ inr (rw w (In-here y xs))
        | inr w ↦ absurd (ground arith)
      ]
    ]
    | inr q ↦ inr (In-there y x xs q)
  ];
  keeps = λ y h. c.keeps y (In-left y n (x ∷ []) h);
  added = λ y h. elim (c.added y h) [
    | inl q ↦ elim (In-cons y x s q) [
      | inl w ↦ inr (c.keeps y (In-right y n (x ∷ []) (rw w (In-here y []))))
      | inr w ↦ inl w
    ]
    | inr q ↦ inr q
  ];
  distinct = λ d. c.distinct (m, d);
  count = omega (arith, c.count, length-append n (x ∷ []));
}

pub scan-Scanned :
    (b : ℕ) (xs s n : List ℕ)
    → ((scan b xs (s, n) ≡ none) × In b xs)
      ⊎ ((s' : List ℕ) × (n' : List ℕ) × (scan b xs (s, n) ≡ some (s', n'))
          × Scanned b xs s n s' n')
unfolding scan
scan-Scanned b [] s n = inr (
  s,
  n,
  refl,
  record {
    grows = λ x h. h;
    covers = λ x h. absurd (ground arith);
    frontier = λ x h. inl h;
    keeps = λ x h. h;
    added = λ x h. inl h;
    distinct = λ d. d;
    count = refl;
  },
)
scan-Scanned b (x ∷ xs) s n = elim (Bool-cases (x == b)) [
  | inl e ↦ rw e (inl (refl, refl))
  | inr e ↦ elim (Bool-cases (member x s)) [
    | inl m ↦ elim (scan-Scanned b xs s n) [
      | inl (q, h) ↦ rw (e, m, q) (inl (refl, h))
      | inr (s', n', q, c) ↦ rw (e, m, q) (inr (s', n', refl, skip-Scanned b x xs s n s' n' e m c))
    ]
    | inr m ↦ elim (scan-Scanned b xs (x ∷ s) (n ++ x ∷ [])) [
      | inl (q, h) ↦ rw (e, m, q) (inl (refl, h))
      | inr (s', n', q, c) ↦ rw (e, m, q) (inr (s', n', refl, take-Scanned b x xs s n s' n' e m c))
    ]
  ]
]
