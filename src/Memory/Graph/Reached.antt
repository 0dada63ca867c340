-- ===== src/Memory/Graph/Reached.antt =====
-- The graphs that calls can reach.
use hunter_kinodynamic_rl.Prelude.{
  ℕ, ◌==◌, ◌||◌, ==→eq, ◌≡◌, refl, sym, ap, ◌∙◌, ◌↔◌, inl, inr, true, not, Option, List, length,
  Bool-cases, Option-cases, arith,
}
use hunter_kinodynamic_rl.Prelude.Int.{ℤ}
use hunter_kinodynamic_rl.Floats.{Floats}
use hunter_kinodynamic_rl.Prelude.Dict.{Dict, has, lookup, insert, is_some, number_key, pair_key}
use hunter_kinodynamic_rl.Memory.Graph.{
  TopoNode, TopologicalGraph, NewNode, init, is_full, add_node, get_node, change_node,
}
use hunter_kinodynamic_rl.Memory.Graph.Edges.{adjacent, Traversal, add_or_update_edge}
use hunter_kinodynamic_rl.Memory.Graph.Search.{is_connected}
use hunter_kinodynamic_rl.Memory.Graph.Reachable.{Walk, stay, go_on}
use hunter_kinodynamic_rl.Memory.Graph.Reachable.Scan.{In}
use hunter_kinodynamic_rl.Memory.Graph.Connected.{is_connected-Walk}
use hunter_kinodynamic_rl.Memory.Graph.Invariant.{
  IsGraph, init-IsGraph, put_node-IsGraph, put_edge-IsGraph, has-insert, member-adjacent_comm,
}

module _ ⦃M : Floats⦄ where
  -- A call that changes the graph. `changes` covers the calls that change one node's fields.
  pub data Step (g h : TopologicalGraph) : Type 0 where
    adds : (a : NewNode) → h ≡ (add_node a g).1 → Step g h
    changes : (node_id : ℕ) (f : TopoNode → TopoNode) → h ≡ (change_node node_id f g).1 → Step g h
    connects : (a b : ℕ) (t : Traversal) → h ≡ (add_or_update_edge a b t g).1 → Step g h

  pub data Reached (max_nodes : Option ℤ) : TopologicalGraph → Type 0 where
    begins : Reached max_nodes (init max_nodes)
    next : {g h : TopologicalGraph} → Reached max_nodes g → Step g h → Reached max_nodes h

  pub add_node-IsGraph : (a : NewNode) (g : TopologicalGraph) → IsGraph g → IsGraph (add_node a g).1
  unfolding add_node
  add_node-IsGraph a g v =
      let w = put_node-IsGraph a g v in
      elim (Bool-cases (is_full g.max_nodes (length g.nodes))) [ inl e ↦ rw e v | inr e ↦ rw e w ]

  has-changed :
      (d : Dict ℕ TopoNode) (n x : ℕ) (node : TopoNode)
      → has d n ≡ true
      → has (insert d n node) x ≡ has d x
  has-changed d n x node h =
      rw (has-insert d n x node) (elim (Bool-cases (n == x)) [
        | inl e ↦ rw (e, sym (==→eq n x e), h) refl
        | inr e ↦ rw e refl
      ])

  pub changed_node :
      (n : ℕ) (node : TopoNode) (g : TopologicalGraph)
      → IsGraph g
      → has g.nodes n ≡ true
      → IsGraph (record g { nodes = insert g.nodes n node })
  changed_node n node g v h = record {
    below = λ x i. v.below x (sym (has-changed g.nodes n x node h) ∙ i);
    inside = λ x y i. has-changed g.nodes n y node h ∙ v.inside x y i;
    no_loop = v.no_loop;
    agree = v.agree;
  }

  pub change_node-IsGraph :
      (node_id : ℕ) (f : TopoNode → TopoNode) (g : TopologicalGraph)
      → IsGraph g
      → IsGraph (change_node node_id f g).1
  unfolding change_node get_node
  change_node-IsGraph n f g v = elim (Option-cases (lookup g.nodes n)) [
    | inl e ↦ rw (e) v
    | inr (node, e) ↦ rw e (changed_node n (f node) g v (ap is_some e))
  ]

  pub add_or_update_edge-IsGraph :
      (a b : ℕ) (t : Traversal) (g : TopologicalGraph)
      → IsGraph g
      → IsGraph (add_or_update_edge a b t g).1
  unfolding add_or_update_edge
  add_or_update_edge-IsGraph a b t g v = elim (Bool-cases (a == b)) [
    | inl e ↦ rw e v
    | inr e ↦ elim (Bool-cases (not (has g.nodes a) || not (has g.nodes b))) [
      | inl o ↦ rw (e, o) v
      | inr o ↦
          rw (e, o) (put_edge-IsGraph a b t g v (λ q. ground arith) (ground arith) (ground arith))
    ]
  ]

  Step-IsGraph : {g h : TopologicalGraph} → IsGraph g → Step g h → IsGraph h
  Step-IsGraph {g} v (adds a e) = rw e (add_node-IsGraph a g v)
  Step-IsGraph {g} v (changes n f e) = rw e (change_node-IsGraph n f g v)
  Step-IsGraph {g} v (connects a b t e) = rw e (add_or_update_edge-IsGraph a b t g v)

  -- In every graph that calls reach, node ids lie below the next one, all neighbors are nodes, no
  -- node neighbors itself, and two nodes are neighbors exactly when they have an edge.
  pub Reached-IsGraph : {m : Option ℤ} {g : TopologicalGraph} → Reached m g → IsGraph g
  Reached-IsGraph {m} begins = init-IsGraph m
  Reached-IsGraph (next r s) = Step-IsGraph (Reached-IsGraph r) s

  prepend : {d : Dict ℕ (List ℕ)} {a n b : ℕ} → In n (adjacent d a) → Walk d n b → Walk d a b
  prepend i stay = go_on stay i
  prepend i (go_on w j) = go_on (prepend i w) j

  back :
      (g : TopologicalGraph) → IsGraph g → {a b : ℕ} → Walk g.adjacency a b → Walk g.adjacency b a
  back g v stay = stay
  back g v (go_on {n} {x} w j) = prepend (member-adjacent_comm g v n x j) (back g v w)

  -- In every graph that calls reach, two nodes are connected just when a walk over the edges leads
  -- from one to the other, and connectedness does not depend on the direction.
  pub is_connected-Reached :
      {m : Option ℤ} {g : TopologicalGraph}
      → Reached m g
      → (a b : ℕ) → has g.nodes a ≡ true
      → has g.nodes b ≡ true
      → ((is_connected g a b ≡ true) ↔ Walk g.adjacency a b)
        × ((is_connected g a b ≡ true) ↔ (is_connected g b a ≡ true))
  is_connected-Reached {m} {g} r a b ha hb =
      let v = Reached-IsGraph r in
      let there = is_connected-Walk g a b v.inside ha hb in
      let return = is_connected-Walk g b a v.inside hb ha in
      (there, (λ t. return.1 (back g v (there.0 t)), λ t. there.1 (back g v (return.0 t))))
