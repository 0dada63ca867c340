-- ===== src/Memory/Graph/Invariant.antt =====
-- The graph's dictionaries agree: edges and adjacency say the same, between nodes that exist.
use hunter_kinodynamic_rl.Prelude.{
  ℕ, ◌==◌, ==→eq, ◌<◌, ◌≡◌, ◌≢◌, refl, sym, ap, ◌∙◌, inl, inr, true, false, ◌||◌, ◌&&◌, Option,
  List, [], Bool-cases, Option-cases, arith, if◌then◌else◌,
}
use hunter_kinodynamic_rl.Prelude.Int.{ℤ}
use hunter_kinodynamic_rl.Floats.{Floats}
use hunter_kinodynamic_rl.Prelude.Dict.{
  Key, Dict, has, lookup, insert, is_some, number_key, pair_key, lookup-insert_self,
  lookup-insert_ne,
}
use hunter_kinodynamic_rl.Memory.Graph.{
  TopoEdge, TopologicalGraph, NewNode, init, put_node, fresh_node,
}
use hunter_kinodynamic_rl.Memory.Graph.Edges.{
  adjacent, member, set_add, link, edge_key, Traversal, put_edge,
}
use hunter_kinodynamic_rl.Memory.Graph.Connected.{NeighborsAreNodes}
use hunter_kinodynamic_rl.Memory.Route.Arrivals.{member-set_add}

pub has-insert :
    {K V : Type 0} ⦃E : Key K⦄ (d : Dict K V) (k j : K) (v : V)
    → has (insert d k v) j ≡ (E.same k j || has d j)
has-insert ⦃E⦄ d k j v = elim (Bool-cases (E.same k j)) [
  | inl e ↦ rw (e, sym (E.same-eq k j e), lookup-insert_self d k v) refl
  | inr e ↦
      rw
        (
          e,
          lookup-insert_ne d k j v
              (λ q. let t : E.same k j ≡ true = rw (sym q) (E.same_refl k) in ground arith),
        )
        refl
]

adjacent-insert :
    (d : Dict ℕ (List ℕ)) (k n : ℕ) (xs : List ℕ)
    → adjacent (insert d k xs) n ≡ (if k == n then xs else adjacent d n)
unfolding adjacent
adjacent-insert d k n xs = elim (Bool-cases (k == n)) [
  | inl e ↦ rw (e, sym (==→eq k n e), lookup-insert_self d k xs, adjacent) refl
  | inr e ↦ rw (e, lookup-insert_ne d k n xs (λ q. ground arith), adjacent) refl
]

-- What a link adds: each of the two nodes becomes a neighbor of the other.
member-link :
    (a b n y : ℕ) (d : Dict ℕ (List ℕ))
    → a ≢ b
    → member y (adjacent (link a b d) n)
      ≡ (member y (adjacent d n) || ((a == n) && (b == y)) || ((b == n) && (a == y)))
unfolding link
member-link a b n y d ne =
    let d' = insert d a (set_add (adjacent d a) b) in
    let ab : (a == b) ≡ false = ground arith in
    rw
      (
        adjacent-insert d' b n (set_add (adjacent d' b) a),
        adjacent-insert d a n (set_add (adjacent d a) b),
        adjacent-insert d a b (set_add (adjacent d a) b),
        ab,
      )
      (elim (Bool-cases (b == n)) [
        | inl e ↦
            let o : (a == n) ≡ false = ground arith in
            rw (e, o, sym (==→eq b n e), member-set_add y a (adjacent d b)) (ground arith)
        | inr e ↦ elim (Bool-cases (a == n)) [
          | inl o ↦ rw (e, o, sym (==→eq a n o), member-set_add y b (adjacent d a)) (ground arith)
          | inr o ↦ rw (e, o) (ground arith)
        ]
      ])

same-edge_key :
    (a b n y : ℕ)
    → pair_key.same (edge_key a b) (edge_key n y)
      ≡ (((a == n) && (b == y)) || ((b == n) && (a == y)))
same-edge_key a b n y = ground arith

module _ ⦃M : Floats⦄ where
  pub record IsGraph (g : TopologicalGraph) : Type 0 where
    pub below : (n : ℕ) → has g.nodes n ≡ true → n < g.next_node_id
    pub inside : NeighborsAreNodes g
    pub no_loop : (n : ℕ) → member n (adjacent g.adjacency n) ≡ false
    pub agree : (a b : ℕ) → a ≢ b → has g.edges (edge_key a b) ≡ member b (adjacent g.adjacency a)

  edge_key_comm : (a b : ℕ) → edge_key a b ≡ edge_key b a
  edge_key_comm a b = ground arith

  -- An edge can be walked both ways.
  pub member-adjacent_comm :
      (g : TopologicalGraph)
      → IsGraph g
      → (a b : ℕ) → member b (adjacent g.adjacency a) ≡ true
      → member a (adjacent g.adjacency b) ≡ true
  member-adjacent_comm g v a b h =
      let ne : a ≢ b = λ e.
        let q : member a (adjacent g.adjacency a) ≡ true =
          ap (λ z. member z (adjacent g.adjacency a)) e ∙ h in
        let l = v.no_loop a in ground arith in
      sym (v.agree b a (λ e. ne (sym e)))
      ∙ ap (has g.edges) (edge_key_comm b a)
      ∙ v.agree a b ne
      ∙ h

  pub init-IsGraph : (max_nodes : Option ℤ) → IsGraph (init max_nodes)
  unfolding init adjacent
  init-IsGraph max_nodes = record {
    below = λ n h. ground arith;
    inside = λ n x h. ground arith;
    no_loop = λ n. refl;
    agree = λ a b ne. refl;
  }

  -- The next id is no node yet, so it has no neighbors.
  pub alone :
      (g : TopologicalGraph)
      → IsGraph g
      → (x : ℕ) → member x (adjacent g.adjacency g.next_node_id) ≡ false
  alone g v x = elim (Bool-cases (member x (adjacent g.adjacency g.next_node_id))) [
    | inl h ↦
        let back = member-adjacent_comm g v g.next_node_id x h in
        let b = v.below g.next_node_id (v.inside x g.next_node_id back) in absurd (omega arith)
    | inr h ↦ h
  ]

  member-put_node :
      (g : TopologicalGraph)
      → IsGraph g
      → (n x : ℕ)
      → member x (adjacent (insert g.adjacency g.next_node_id []) n)
        ≡ member x (adjacent g.adjacency n)
  member-put_node g v n x =
      rw (adjacent-insert g.adjacency g.next_node_id n [])
        (elim (Bool-cases (g.next_node_id == n)) [
          | inl e ↦ rw (e, sym (==→eq g.next_node_id n e), alone g v x) refl
          | inr e ↦ rw e refl
        ])

  pub put_node-IsGraph :
      (a : NewNode) (g : TopologicalGraph) → IsGraph g → IsGraph (put_node g.next_node_id a g)
  unfolding put_node
  put_node-IsGraph a g v = record {
    below = λ n h.
        let i = sym (has-insert g.nodes g.next_node_id n (fresh_node g.next_node_id a)) ∙ h in
        elim (Bool-cases (g.next_node_id == n)) [
          | inl e ↦ omega (arith, ==→eq g.next_node_id n e)
          | inr e ↦ omega (arith, v.below n (ground arith))
        ];
    inside = λ n x h.
        let i = v.inside n x (sym (member-put_node g v n x) ∙ h) in
        rw (has-insert g.nodes g.next_node_id x _, i) (ground arith);
    no_loop = λ n. member-put_node g v n n ∙ v.no_loop n;
    agree = λ b c ne. v.agree b c ne ∙ sym (member-put_node g v b c);
  }

  -- A traversal of an edge that is there changes its numbers alone.
  again-IsGraph :
      (a b : ℕ) (e : TopoEdge) (g : TopologicalGraph)
      → IsGraph g
      → has g.edges (edge_key a b) ≡ true
      → IsGraph (record g { edges = insert g.edges (edge_key a b) e })
  again-IsGraph a b e g v h = record {
    below = v.below;
    inside = v.inside;
    no_loop = v.no_loop;
    agree = λ c d ne.
        rw (has-insert g.edges (edge_key a b) (edge_key c d) e)
          (elim (Bool-cases (pair_key.same (edge_key a b) (edge_key c d))) [
            | inl o ↦
                let k = ap (has g.edges) (pair_key.same-eq (edge_key a b) (edge_key c d) o) in
                rw o (sym h ∙ k ∙ v.agree c d ne)
            | inr o ↦ rw o (v.agree c d ne)
          ]);
  }

  first-IsGraph :
      (a b : ℕ) (e : TopoEdge) (g : TopologicalGraph)
      → IsGraph g
      → a ≢ b
      → has g.nodes a ≡ true
      → has g.nodes b ≡ true
      → IsGraph
          (record g { edges = insert g.edges (edge_key a b) e; adjacency = link a b g.adjacency })
  first-IsGraph a b e g v ne ha hb = record {
    below = v.below;
    inside = λ n x h.
        let i = sym (member-link a b n x g.adjacency ne) ∙ h in
        elim (Bool-cases (member x (adjacent g.adjacency n))) [
          | inl o ↦ v.inside n x o
          | inr o ↦ elim (Bool-cases (b == x)) [
            | inl q ↦ ap (has g.nodes) (sym (==→eq b x q)) ∙ hb
            | inr q ↦
                let r : (a == x) ≡ true = ground arith in ap (has g.nodes) (sym (==→eq a x r)) ∙ ha
          ]
        ];
    no_loop = λ n. let l = v.no_loop n in rw (member-link a b n n g.adjacency ne, l) (ground arith);
    agree = λ c d cd.
        let m = v.agree c d cd in
        rw
          (
            has-insert g.edges (edge_key a b) (edge_key c d) e,
            member-link a b c d g.adjacency ne,
            same-edge_key a b c d,
            m,
          )
          (ground arith);
  }

  pub put_edge-IsGraph :
      (a b : ℕ) (t : Traversal) (g : TopologicalGraph)
      → IsGraph g
      → a ≢ b
      → has g.nodes a ≡ true
      → has g.nodes b ≡ true
      → IsGraph (put_edge a b t (lookup g.edges (edge_key a b)) g)
  unfolding put_edge
  put_edge-IsGraph a b t g v ne ha hb = elim (Option-cases (lookup g.edges (edge_key a b))) [
    | inl o ↦ rw (o, put_edge) (first-IsGraph a b _ g v ne ha hb)
    | inr (e, o) ↦ rw (o, put_edge) (again-IsGraph a b _ g v (ap is_some o))
  ]
