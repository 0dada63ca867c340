-- ===== src/Memory/Graph/Connected.antt =====
-- `is_connected` answers whether a walk along the edges leads from one node to the other.
use hunter_kinodynamic_rl.Prelude.{
  ℕ, suc, ◌==◌, ==→eq, ◌≡◌, refl, sym, ◌↔◌, inl, inr, true, some, [], ◌∷◌, length, length-map,
  Bool-cases, arith,
}
use hunter_kinodynamic_rl.Floats.{Floats}
use hunter_kinodynamic_rl.Prelude.Dict.{Dict, has, keys, number_key}
use hunter_kinodynamic_rl.Memory.Graph.{TopologicalGraph}
use hunter_kinodynamic_rl.Memory.Graph.Edges.{adjacent}
use hunter_kinodynamic_rl.Memory.Graph.Search.{search, is_connected}
use hunter_kinodynamic_rl.Memory.Graph.Reachable.{Walk, stay, search_sound}
use hunter_kinodynamic_rl.Memory.Graph.Reachable.Scan.{In, In-cons}
use hunter_kinodynamic_rl.Memory.Graph.Reachable.Closed.{search_fails}

pub has-In : {V : Type 0} (d : Dict ℕ V) (k : ℕ) → has d k ≡ true → In k (keys d)
has-In [] k h = absurd (ground arith)
has-In ((j, v) ∷ d) k h = elim (Bool-cases (j == k)) [
  | inl e ↦ rw e refl
  | inr e ↦ let r = has-In d k (ground arith) in ground arith
]

module _ ⦃M : Floats⦄ where
  -- Only nodes are neighbors.
  abbrev pub NeighborsAreNodes : TopologicalGraph → Type 0
  NeighborsAreNodes g = (n x : ℕ) → In x (adjacent g.adjacency n) → has g.nodes x ≡ true

  -- In a graph whose neighbors are all nodes, two nodes are connected just when a walk leads from
  -- one to the other: the search never stops short.
  pub is_connected-Walk :
      (g : TopologicalGraph) (a b : ℕ)
      → NeighborsAreNodes g
      → has g.nodes a ≡ true
      → has g.nodes b ≡ true
      → (is_connected g a b ≡ true) ↔ Walk g.adjacency a b
  unfolding is_connected
  is_connected-Walk g a b inside ha hb = elim (Bool-cases (a == b)) [
    | inl e ↦ rw (ha, hb, e) (λ t. rw (==→eq a b e) stay, λ w. refl)
    | inr e ↦
        let ks = keys g.nodes in
        let k : length ks ≡ length g.nodes = length-map (λ x. x.0) g.nodes in
        let from = search_sound (suc (length g.nodes)) b g.adjacency a (a ∷ []) (a ∷ []) (λ n i.
          elim (In-cons n a [] i) [ inl q ↦ rw (sym q) stay | inr q ↦ absurd (ground arith) ]) in
        let fails =
          search_fails (suc (length g.nodes)) b g.adjacency ks a
            (λ n x i. has-In g.nodes x (inside n x i)) (has-In g.nodes a ha) (omega arith)
            (λ q. ground arith) in
        rw (ha, hb, e)
          (
            from,
            λ w.
                elim (Bool-cases
                  (search (suc (length g.nodes)) b g.adjacency (some (a ∷ [], a ∷ [])))) [
                    | inl t ↦ t
                    | inr f ↦ absurd (fails f w)
                  ],
          )
  ]
