-- ===== src/Memory/Graph/Reachable/Closed.antt =====
-- A search that fails has seen every node that a walk reaches: the fuel is enough.
use hunter_kinodynamic_rl.Prelude.{
  ℕ, zero, suc, ◌+◌, ◌==◌, ==→eq, ==_refl, ◌<◌, ◌≤◌, ◌≡◌, ◌≢◌, refl, sym, ap, ◌∙◌, ◌⊎◌, inl, inr,
  true, false, none, some, List, [], ◌∷◌, length, Bool-cases, arith, if◌then◌else◌,
}
use hunter_kinodynamic_rl.Prelude.Dict.{Dict}
use hunter_kinodynamic_rl.Memory.Graph.Edges.{adjacent}
use hunter_kinodynamic_rl.Memory.Graph.Search.{search}
use hunter_kinodynamic_rl.Memory.Graph.Reachable.{
  Walk, stay, go_on, around, sweep-scan, In-around, around-In,
}
use hunter_kinodynamic_rl.Memory.Graph.Reachable.Scan.{
  In, Distinct, Scanned, scan-Scanned, In-cons, In-here,
}

remove : ℕ → List ℕ → List ℕ
remove x [] = []
remove x (y ∷ ys) = let rest = remove x ys in if y == x then ys else y ∷ rest

length-remove : (x : ℕ) (ys : List ℕ) → In x ys → length (remove x ys) + 1 ≡ length ys
unfolding remove
length-remove x [] h = absurd (ground arith)
length-remove x (y ∷ ys) h = elim (Bool-cases (y == x)) [
  | inl e ↦ rw e (omega arith)
  | inr e ↦ let i : In x ys = ground arith in rw e (omega (arith, length-remove x ys i))
]

In-remove : (x z : ℕ) (ys : List ℕ) → x ≢ z → In z ys → In z (remove x ys)
unfolding remove
In-remove x z [] n h = absurd (ground arith)
In-remove x z (y ∷ ys) n h = elim (Bool-cases (y == x)) [
  | inl e ↦ elim (In-cons z y ys h) [ inl q ↦ absurd (n (sym (==→eq y x e) ∙ q)) | inr q ↦ rw e q ]
  | inr e ↦ elim (In-cons z y ys h) [
    | inl q ↦ rw (e, q, ==_refl z) refl
    | inr q ↦ let r = In-remove x z ys n q in rw e (ground arith)
  ]
]

-- Distinct values that are all in a list are no more than its entries.
length-Distinct :
    (xs ys : List ℕ) → Distinct xs → ((x : ℕ) → In x xs → In x ys) → length xs ≤ length ys
length-Distinct [] ys d h = omega arith
length-Distinct (x ∷ xs) ys (new, d) h =
    let i = h x (In-here x xs) in
    let k = length-Distinct xs (remove x ys) d (λ z j.
      In-remove x z ys (λ e. let q : In x xs = rw e j in ground arith) (h z (ground arith))) in
    omega (arith, length-remove x ys i)

-- All neighbors of the node are seen, and none of them is the target.
abbrev Processed : Dict ℕ (List ℕ) → ℕ → List ℕ → ℕ → Type 0
Processed d b seen n = (x : ℕ) → In x (adjacent d n) → (x ≢ b) × In x seen

-- The state of the search between two rounds.
record Pending (fuel b : ℕ) (d : Dict ℕ (List ℕ)) (ks seen fr : List ℕ) : Type 0 where
  processed : (n : ℕ) → In n seen → In n fr ⊎ Processed d b seen n
  distinct : Distinct seen
  bounded : (x : ℕ) → In x seen → In x ks
  enough : (fr ≡ []) ⊎ (length ks < fuel + length seen)

record Ended (b : ℕ) (d : Dict ℕ (List ℕ)) (seen all : List ℕ) : Type 0 where
  grows : (x : ℕ) → In x seen → In x all
  closed : (n : ℕ) → In n all → Processed d b all n

Ended-now :
    (fuel b : ℕ) (d : Dict ℕ (List ℕ)) (ks seen : List ℕ)
    → Pending fuel b d ks seen []
    → Ended b d seen seen
Ended-now fuel b d ks seen p = record {
  grows = λ x i. i;
  closed = λ n i. elim (p.processed n i) [ inl q ↦ absurd (ground arith) | inr q ↦ q ];
}

next_round :
    (fuel b : ℕ) (d : Dict ℕ (List ℕ)) (ks seen fr s' n' : List ℕ)
    → ((n x : ℕ) → In x (adjacent d n) → In x ks)
    → length ks < suc fuel + length seen
    → Pending (suc fuel) b d ks seen fr
    → Scanned b (around d fr) seen [] s' n'
    → Pending fuel b d ks s' n'
next_round fuel b d ks seen fr s' n' inside e p c = record {
  processed = λ m i. elim (c.added m i) [
    | inr q ↦ inl q
    | inl q ↦ inr (elim (p.processed m q) [
      | inl f ↦ λ x j. c.covers x (around-In d x m fr f j)
      | inr f ↦ λ x j. let (o, k) = f x j in (o, c.grows x k)
    ])
  ];
  distinct = c.distinct p.distinct;
  bounded = λ x i. elim (c.added x i) [
    | inl q ↦ p.bounded x q
    | inr q ↦ elim (c.frontier x q) [
      | inl r ↦ absurd (ground arith)
      | inr r ↦ let (m, j, k) = In-around d x fr r in inside m x k
    ]
  ];
  enough = later n' c.count;
}
  where
    later :
        (n' : List ℕ)
        → length s' + 0 ≡ length seen + length n'
        → (n' ≡ []) ⊎ (length ks < fuel + length s')
    later [] k = inl refl
    later (x ∷ xs) k = inr (omega arith)

search-none : (fuel b : ℕ) (d : Dict ℕ (List ℕ)) → search fuel b d none ≡ true
unfolding search
search-none zero b d = refl
search-none (suc fuel) b d = refl

search-Ended :
    (fuel b : ℕ) (d : Dict ℕ (List ℕ)) (ks seen fr : List ℕ)
    → ((n x : ℕ) → In x (adjacent d n) → In x ks)
    → Pending fuel b d ks seen fr
    → search fuel b d (some (seen, fr)) ≡ false
    → (all : List ℕ) × Ended b d seen all
unfolding search
search-Ended zero b d ks seen [] inside p h = (seen, Ended-now zero b d ks seen p)
search-Ended zero b d ks seen (n ∷ ns) inside p h = elim p.enough [
  | inl e ↦ absurd (ground arith)
  | inr e ↦ absurd (omega (arith, length-Distinct seen ks p.distinct p.bounded))
]
search-Ended (suc fuel) b d ks seen [] inside p h = (seen, Ended-now (suc fuel) b d ks seen p)
search-Ended (suc fuel) b d ks seen (n ∷ ns) inside p h = elim p.enough [
  | inl e ↦ absurd (ground arith)
  | inr e ↦ elim (scan-Scanned b (around d (n ∷ ns)) seen []) [
    | inl (q, i) ↦
        let t =
          ap (search fuel b d) (sweep-scan b d (n ∷ ns) (seen, []) ∙ q) ∙ search-none fuel b d in
        absurd (ground arith)
    | inr (s', n', q, c) ↦
        let t = ap (search fuel b d) (sweep-scan b d (n ∷ ns) (seen, []) ∙ q) in
        let (all, r) =
          search-Ended fuel b d ks s' n' inside
            (next_round fuel b d ks seen (n ∷ ns) s' n' inside e p c) (sym t ∙ h) in
        (all, record { grows = λ x i. r.grows x (c.grows x i); closed = r.closed })
  ]
]

Walk-Ended :
    (b : ℕ) (d : Dict ℕ (List ℕ)) (seen all : List ℕ) (a n : ℕ)
    → Ended b d seen all
    → In a seen
    → Walk d a n
    → In n all
Walk-Ended b d seen all a n r i stay = r.grows a i
Walk-Ended b d seen all a x r i (go_on {n} w j) =
    (r.closed n (Walk-Ended b d seen all a n r i w) x j).1

not_reached :
    (b : ℕ) (d : Dict ℕ (List ℕ)) (seen all : List ℕ) (a : ℕ)
    → Ended b d seen all
    → In a seen
    → a ≢ b
    → Walk d a b
    → ⊥
not_reached b d seen all a r i ne stay = ne refl
not_reached b d seen all a r i ne (go_on {n} w j) =
    (r.closed n (Walk-Ended b d seen all a n r i w) b j).0 refl

-- The search for another node, from one node alone, fails only if no walk leads to it.
pub search_fails :
    (fuel b : ℕ) (d : Dict ℕ (List ℕ)) (ks : List ℕ) (a : ℕ)
    → ((n x : ℕ) → In x (adjacent d n) → In x ks)
    → In a ks
    → length ks < fuel + 1
    → a ≢ b
    → search fuel b d (some (a ∷ [], a ∷ [])) ≡ false
    → Walk d a b
    → ⊥
search_fails fuel b d ks a inside i e ne h w =
    let (all, r) =
      search-Ended fuel b d ks (a ∷ []) (a ∷ []) inside
        (record {
          processed = λ n j. inl j;
          distinct = (refl, tt);
          bounded = λ x j. elim (In-cons x a [] j) [
            | inl q ↦ rw (sym q) i
            | inr q ↦ absurd (ground arith)
          ];
          enough = inr (omega arith);
        })
        h in
    not_reached b d (a ∷ []) all a r (In-here a []) ne w
