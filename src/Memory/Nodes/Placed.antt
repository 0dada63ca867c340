-- ===== src/Memory/Nodes/Placed.antt =====
-- The calls of an arrival on the graph: none of them raises.
use hunter_kinodynamic_rl.Prelude.{
  ℕ, ◌==◌, ◌≡◌, refl, ap, ◌∙◌, inl, inr, Bool, true, false, Option, none, some, length, Bool-cases,
  Option-cases, ==_refl, arith, if◌then◌else◌,
}
use hunter_kinodynamic_rl.Prelude.Int.{ℤ}
use hunter_kinodynamic_rl.Prelude.Result.{Result, ok}
use hunter_kinodynamic_rl.Prelude.Exec.{Exec, pure}
use hunter_kinodynamic_rl.Floats.{Floats, Float}
use hunter_kinodynamic_rl.Prelude.Dict.{has, lookup, insert, number_key, pair_key}
use hunter_kinodynamic_rl.Memory.Graph.{
  TopoNode, TopologicalGraph, add_node, put_node, fresh_node, get_node, change_node, is_full,
  add_risk, record_visit, record_failure, mark_dead_end,
}
use hunter_kinodynamic_rl.Memory.Graph.Edges.{edge_key, Traversal, put_edge, add_or_update_edge}
use hunter_kinodynamic_rl.Memory.Graph.Invariant.{
  IsGraph, has-insert, put_edge-IsGraph, put_node-IsGraph,
}
use hunter_kinodynamic_rl.Memory.Graph.Reached.{changed_node}
use hunter_kinodynamic_rl.Memory.Nodes.{
  Arrival, new_node_of, attach, annotate, counts, connect, connect_from, traversal_of,
}

module _ ⦃M : Floats⦄ where
  -- The graph after a call: well formed, and with every node that was there.
  pub record Extends (g h : TopologicalGraph) : Type 0 where
    pub is_graph : IsGraph h
    pub still : (x : ℕ) → has g.nodes x ≡ true → has h.nodes x ≡ true
    pub max_nodes : h.max_nodes ≡ g.max_nodes

  pub also : (g h k : TopologicalGraph) → Extends g h → Extends h k → Extends g k
  also g h k u v = record {
    is_graph = v.is_graph;
    still = λ x i. v.still x (u.still x i);
    max_nodes = v.max_nodes ∙ u.max_nodes;
  }

  -- A call that returned, and the graph that it left.
  abbrev pub Done : {A : Type 0} → Result A × TopologicalGraph → A → TopologicalGraph → Type 0
  Done call a g = (h : TopologicalGraph) × (call ≡ (ok a, h)) × Extends g h

  change_node-Done :
      (n : ℕ) (f : TopoNode → TopoNode) (g : TopologicalGraph)
      → IsGraph g
      → has g.nodes n ≡ true
      → Done (change_node n f g) tt g
  unfolding change_node get_node
  change_node-Done n f g v i = elim (Option-cases (lookup g.nodes n)) [
    | inl e ↦ absurd (ground arith)
    | inr (node, e) ↦ (
      record g { nodes = insert g.nodes n (f node) },
      rw e refl,
      record {
        is_graph = changed_node n (f node) g v i;
        still = λ x j. rw (has-insert g.nodes n x (f node), j) (ground arith);
        max_nodes = refl;
      },
    )
  ]

  pub unchanged : (g : TopologicalGraph) → IsGraph g → Extends g g
  unchanged g v = record { is_graph = v; still = λ x i. i; max_nodes = refl }

  when-Done :
      (b : Bool) (call : Exec TopologicalGraph (Unit {0})) (g : TopologicalGraph)
      → IsGraph g
      → Done (call g) tt g
      → Done ((if b then call else pure tt) g) tt g
  when-Done true call g v d = d
  when-Done false call g v d = (g, refl, unchanged g v)

  record_visit-Done :
      (n : ℕ) (step : ℤ) (g : TopologicalGraph)
      → IsGraph g
      → has g.nodes n ≡ true
      → Done (record_visit n step g) tt g
  unfolding record_visit
  record_visit-Done n step g v i = change_node-Done n _ g v i

  mark_dead_end-Done :
      (n : ℕ) (b : Bool) (g : TopologicalGraph)
      → IsGraph g
      → has g.nodes n ≡ true
      → Done (mark_dead_end n b g) tt g
  unfolding mark_dead_end
  mark_dead_end-Done n b g v i = change_node-Done n _ g v i

  record_failure-Done :
      (n : ℕ) (risk : Option Float) (g : TopologicalGraph)
      → IsGraph g
      → has g.nodes n ≡ true
      → Done (record_failure n risk g) tt g
  unfolding record_failure
  record_failure-Done n risk g v i = change_node-Done n _ g v i

  pub annotate-Done :
      (a : Arrival) (n : ℕ) (g : TopologicalGraph)
      → IsGraph g
      → has g.nodes n ≡ true
      → Done (annotate a n g) tt g
  unfolding annotate
  annotate-Done a n g v i =
      let (h, q, x) =
        when-Done (counts a.risk)
          (change_node n (λ m. record m { risk_samples = add_risk a.risk m.risk_samples })) g v
          (change_node-Done n _ g v i) in
      let (k, r, y) =
        when-Done a.subgoal_failed (record_failure n none) h x.is_graph
          (record_failure-Done n none h x.is_graph (x.still n i)) in
      (k, rw (q, r) refl, also g h k x y)

  pub attach_old :
      (a : Arrival) (n : ℕ) (g : TopologicalGraph)
      → IsGraph g
      → has g.nodes n ≡ true
      → Done (attach a (some n) g) n g
  unfolding attach
  attach_old a n g v i =
      let (h, q, x) = record_visit-Done n a.now_step g v i in
      let (k, r, y) =
        when-Done a.dead_end_detected (mark_dead_end n true) h x.is_graph
          (mark_dead_end-Done n true h x.is_graph (x.still n i)) in
      (k, rw (q, r) refl, also g h k x y)

  pub attach_new :
      (a : Arrival) (g : TopologicalGraph)
      → IsGraph g
      → g.max_nodes ≡ none
      → (h : TopologicalGraph) × (attach a none g ≡ (ok g.next_node_id, h))
        × Extends g h
        × (has h.nodes g.next_node_id ≡ true)
  unfolding attach add_node
  attach_new a g v m =
      let n = g.next_node_id in
      let p = put_node n (new_node_of a) g in
      let put : Extends g p =
        unfold put_node in
        record {
          is_graph = put_node-IsGraph (new_node_of a) g v;
          still =
              λ x j. rw (has-insert g.nodes n x (fresh_node n (new_node_of a)), j) (ground arith);
          max_nodes = refl;
        } in
      let here : has p.nodes n ≡ true =
        unfold put_node in
        rw (has-insert g.nodes n n (fresh_node n (new_node_of a)), ==_refl n) refl in
      let (h, q, x) = record_visit-Done n a.now_step p put.is_graph here in
      let open_ended : is_full g.max_nodes (length g.nodes) ≡ false = unfold is_full in rw m refl in
      (h, rw (open_ended, q) refl, also g p h put x, x.still n here)

  nodes-put_edge :
      (x n : ℕ) (t : Traversal) (g : TopologicalGraph)
      → (put_edge x n t (lookup g.edges (edge_key x n)) g).nodes ≡ g.nodes
  unfolding put_edge
  nodes-put_edge x n t g = elim (Option-cases (lookup g.edges (edge_key x n))) [
    | inl e ↦ rw e refl
    | inr (edge, e) ↦ rw e refl
  ]

  max_nodes-put_edge :
      (x n : ℕ) (t : Traversal) (g : TopologicalGraph)
      → (put_edge x n t (lookup g.edges (edge_key x n)) g).max_nodes ≡ g.max_nodes
  unfolding put_edge
  max_nodes-put_edge x n t g = elim (Option-cases (lookup g.edges (edge_key x n))) [
    | inl e ↦ rw e refl
    | inr (edge, e) ↦ rw e refl
  ]

  pub connect-Done :
      (a : Arrival) (last : Option ℕ) (n : ℕ) (g : TopologicalGraph)
      → IsGraph g
      → has g.nodes n ≡ true
      → ((x : ℕ) → last ≡ some x → has g.nodes x ≡ true)
      → (b : Bool) × Done (connect a last n g) b g
  unfolding connect connect_from get_node add_or_update_edge
  connect-Done a none n g v i j = (false, (g, refl, unchanged g v))
  connect-Done a (some x) n g v i j = elim (Bool-cases (x == n)) [
    | inl e ↦ (false, (g, rw e refl, unchanged g v))
    | inr e ↦ elim (Option-cases (lookup g.nodes x)) [
      | inl o ↦ let k = j x refl in absurd (ground arith)
      | inr (node, o) ↦
          let t = traversal_of a node.x_mission node.y_mission in
          let h = put_edge x n t (lookup g.edges (edge_key x n)) g in
          let hx = j x refl in
          (
            true,
            (
              h,
              rw (e, o, e, hx, i) refl,
              record {
                is_graph = put_edge-IsGraph x n t g v (λ q. ground arith) hx i;
                still = λ y k. ap (λ d. has d y) (nodes-put_edge x n t g) ∙ k;
                max_nodes = max_nodes-put_edge x n t g;
              },
            ),
          )
    ]
  ]
