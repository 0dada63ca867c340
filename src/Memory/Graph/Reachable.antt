-- ===== src/Memory/Graph/Reachable.antt =====
-- The breadth-first search finds a node exactly when a walk leads to it.
pub mod Scan
pub mod Closed
use hunter_kinodynamic_rl.Prelude.{
  ℕ, zero, suc, ◌+◌, ◌==◌, ==→eq, ==_refl, ◌<◌, ◌≤◌, ◌≡◌, ◌≢◌, refl, sym, ap, ◌∙◌, ◌↔◌, ◌⊎◌, inl,
  inr, Bool, true, false, not, ◌||◌, Option, none, some, List, [], ◌∷◌, ◌++◌, length, map,
  length-map, Bool-cases, arith, if◌then◌else◌,
}
use hunter_kinodynamic_rl.Floats.{Floats}
use hunter_kinodynamic_rl.Prelude.Dict.{Dict, has, keys, number_key}
use hunter_kinodynamic_rl.Memory.Graph.{TopologicalGraph}
use hunter_kinodynamic_rl.Memory.Graph.Edges.{adjacent, member}
use hunter_kinodynamic_rl.Memory.Graph.Search.{scan, sweep, search, is_connected}
use Scan.{In, Distinct, Scanned, scan-Scanned, In-cons, In-append, In-left, In-right, In-here}

-- A walk along the adjacency, from its first node to its last.
pub data Walk (d : Dict ℕ (List ℕ)) (a : ℕ) : ℕ → Type 0 where
  stay : Walk d a a
  go_on : {n x : ℕ} → Walk d a n → In x (adjacent d n) → Walk d a x

-- The neighbors of a frontier, in the order in which the search meets them.
around : Dict ℕ (List ℕ) → List ℕ → List ℕ
around d [] = []
around d (n ∷ ns) = adjacent d n ++ around d ns

sweep-none : (b : ℕ) (d : Dict ℕ (List ℕ)) (ns : List ℕ) → sweep b d ns none ≡ none
unfolding sweep
sweep-none b d [] = refl
sweep-none b d (n ∷ ns) = refl

scan-append :
    (b : ℕ) (d : Dict ℕ (List ℕ)) (ns xs : List ℕ) (acc : List ℕ × List ℕ)
    → ((acc' : List ℕ × List ℕ) → sweep b d ns (some acc') ≡ scan b (around d ns) acc')
    → sweep b d ns (scan b xs acc) ≡ scan b (xs ++ around d ns) acc
unfolding scan
scan-append b d ns [] acc h = h acc
scan-append b d ns (x ∷ xs) (seen, nxt) h = elim (Bool-cases (x == b)) [
  | inl e ↦ rw e (sweep-none b d ns)
  | inr e ↦
      rw e
        (scan-append b d ns xs (if member x seen then (seen, nxt) else (x ∷ seen, nxt ++ x ∷ [])) h)
]

sweep-scan :
    (b : ℕ) (d : Dict ℕ (List ℕ)) (ns : List ℕ) (acc : List ℕ × List ℕ)
    → sweep b d ns (some acc) ≡ scan b (around d ns) acc
unfolding sweep around scan
sweep-scan b d [] acc = refl
sweep-scan b d (n ∷ ns) acc = scan-append b d ns (adjacent d n) acc (sweep-scan b d ns)

In-around :
    (d : Dict ℕ (List ℕ)) (x : ℕ) (ns : List ℕ)
    → In x (around d ns)
    → (n : ℕ) × In n ns × In x (adjacent d n)
unfolding around
In-around d x [] h = absurd (ground arith)
In-around d x (n ∷ ns) h = elim (In-append x (adjacent d n) (around d ns) h) [
  | inl q ↦ (n, In-here n ns, q)
  | inr q ↦ let (m, i, r) = In-around d x ns q in (m, Scan.In-there m n ns i, r)
]

around-In :
    (d : Dict ℕ (List ℕ)) (x n : ℕ) (ns : List ℕ)
    → In n ns
    → In x (adjacent d n)
    → In x (around d ns)
unfolding around
around-In d x n [] i h = absurd (ground arith)
around-In d x n (m ∷ ns) i h = elim (In-cons n m ns i) [
  | inl q ↦ In-left x (adjacent d m) (around d ns) (rw q h)
  | inr q ↦ In-right x (adjacent d m) (around d ns) (around-In d x n ns q h)
]

-- Whatever the search finds, a walk leads there.
pub search_sound :
    (fuel b : ℕ) (d : Dict ℕ (List ℕ)) (a : ℕ) (seen fr : List ℕ)
    → ((n : ℕ) → In n fr → Walk d a n)
    → search fuel b d (some (seen, fr)) ≡ true
    → Walk d a b
unfolding search
search_sound zero b d a seen fr w h = absurd (ground arith)
search_sound (suc fuel) b d a seen [] w h = absurd (ground arith)
search_sound (suc fuel) b d a seen (n ∷ ns) w h =
    elim (scan-Scanned b (around d (n ∷ ns)) seen []) [
      | inl (q, i) ↦ let (m, j, k) = In-around d b (n ∷ ns) i in go_on (w m j) k
      | inr (s', n', q, c) ↦
          search_sound fuel b d a s' n'
            (λ x i. elim (c.frontier x i) [
              | inl e ↦ absurd (ground arith)
              | inr e ↦ let (m, j, k) = In-around d x (n ∷ ns) e in go_on (w m j) k
            ])
            (sym (ap (search fuel b d) (sweep-scan b d (n ∷ ns) (seen, []) ∙ q)) ∙ h)
    ]
