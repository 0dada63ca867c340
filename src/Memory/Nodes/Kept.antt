-- ===== src/Memory/Nodes/Kept.antt =====
-- An arrival that triggers is always placed, and the graph and the history stay in step.
use hunter_kinodynamic_rl.Prelude.{
  ℕ, ◌==◌, ◌≡◌, refl, sym, ◌∙◌, ◌⊎◌, inl, inr, Bool, true, false, Option, none, some, List, [], ◌∷◌,
  last?, Bool-cases, arith, if◌then◌else◌,
}
use hunter_kinodynamic_rl.Prelude.Result.{ok}
use hunter_kinodynamic_rl.Floats.{Floats, Float}
use hunter_kinodynamic_rl.Prelude.Dict.{Dict, has, keys, number_key}
use hunter_kinodynamic_rl.Memory.Graph.{
  TopoNode, TopologicalGraph, find_nearest_node, nearest, closer, too_far, distance_to, id_of,
}
use hunter_kinodynamic_rl.Memory.Graph.Reachable.Scan.{In, In-cons, In-here, In-append, In-there}
use hunter_kinodynamic_rl.Memory.Graph.Invariant.{IsGraph}
use hunter_kinodynamic_rl.Memory.Route.{record_arrival, current_node_id}
use hunter_kinodynamic_rl.Memory.Route.Arrivals.{last-append}
use hunter_kinodynamic_rl.Memory.Nodes.{
  NodeManager, NodeEvent, Arrival, should_trigger, attach, arrive, place, is_none,
  maybe_create_or_update_node,
}
use hunter_kinodynamic_rl.Memory.Nodes.Placed.{
  Extends, attach_old, attach_new, annotate-Done, connect-Done,
}

module _ ⦃M : Floats⦄ where
  In-has : (d : Dict ℕ TopoNode) (k : ℕ) → In k (keys d) → has d k ≡ true
  In-has [] k h = absurd (ground arith)
  In-has ((j, v) ∷ d) k h = elim (Bool-cases (j == k)) [
    | inl e ↦ rw e refl
    | inr e ↦ let r = In-has d k (ground arith) in rw e r
  ]

  -- The best node so far is one of the nodes.
  abbrev Among : Option (ℕ × Float) → List ℕ → Type 0
  Among none ks = Unit
  Among (some (n, dist)) ks = In n ks

  closer-Among :
      (best : Option (ℕ × Float)) (n : ℕ) (dist : Float) (ks : List ℕ)
      → Among best ks
      → In n ks
      → Among (closer best n dist) ks
  unfolding closer
  closer-Among none n dist ks h i = i
  closer-Among (some (b, best)) n dist ks h i = elim (Bool-cases (M.lt dist best)) [
    | inl e ↦ rw e i
    | inr e ↦ rw e h
  ]

  nearest-Among :
      (x y : Float) (radius : Option Float) (ks : List ℕ) (ns : Dict ℕ TopoNode)
      (best : Option (ℕ × Float))
      → Among best ks
      → ((n : ℕ) → In n (keys ns) → In n ks)
      → Among (nearest x y radius best ns) ks
  unfolding nearest
  nearest-Among x y radius ks [] best h i = h
  nearest-Among x y radius ks ((n, node) ∷ ns) best h i =
      nearest-Among x y radius ks ns _ (kept (too_far radius (distance_to x y node)))
        (λ m j. i m (In-there m n (keys ns) j))
    where
      kept : (far : Bool) → Among (if far then best else closer best n (distance_to x y node)) ks
      kept true = h
      kept false = closer-Among best n (distance_to x y node) ks h (i n (In-here n (keys ns)))

  find_nearest_node-has :
      (g : TopologicalGraph) (x y : Float) (radius : Option Float) (n : ℕ)
      → find_nearest_node g x y radius ≡ some n
      → has g.nodes n ≡ true
  unfolding find_nearest_node id_of
  find_nearest_node-has g x y radius n e =
      go (nearest x y radius none g.nodes)
        (nearest-Among x y radius (keys g.nodes) g.nodes none tt (λ m j. j)) e
    where
      go :
          (o : Option (ℕ × Float))
          → Among o (keys g.nodes)
          → id_of o ≡ some n
          → has g.nodes n ≡ true
      go none h e = absurd (ground arith)
      go (some (m, dist)) h e = let q : m ≡ n = ground arith in In-has g.nodes n (rw (sym q) h)

  -- A manager of a graph without a bound, in which every visited node exists.
  pub record IsManager (m : NodeManager) : Type 0 where
    pub is_graph : IsGraph m.graph
    pub visited : (x : ℕ) → In x m.route_history.sequence → has m.graph.nodes x ≡ true
    pub unbounded : m.graph.max_nodes ≡ none

  attach-Done :
      (a : Arrival) (o : Option ℕ) (g : TopologicalGraph)
      → IsGraph g
      → g.max_nodes ≡ none
      → ((n : ℕ) → o ≡ some n → has g.nodes n ≡ true)
      → (n : ℕ) × ((h : TopologicalGraph) × (attach a o g ≡ (ok n, h))
          × Extends g h
          × (has h.nodes n ≡ true))
  attach-Done a none g v m h = (g.next_node_id, attach_new a g v m)
  attach-Done a (some n) g v m h =
      let (k, q, x) = attach_old a n g v (h n refl) in (n, (k, q, x, x.still n (h n refl)))

  last-In : (xs : List ℕ) (n : ℕ) → last? xs ≡ some n → In n xs
  last-In [] n e = absurd (ground arith)
  last-In (x ∷ []) n e = let q : x ≡ n = ground arith in rw q (In-here n [])
  last-In (x ∷ y ∷ ys) n e = In-there n x (y ∷ ys) (last-In (y ∷ ys) n e)

  place-IsManager :
      (a : Arrival) (m : NodeManager)
      → IsManager m
      → (e : NodeEvent) × ((k : NodeManager) × (place a m ≡ (ok e, k))
          × IsManager k
          × (has k.graph.nodes e.node_id ≡ true)
          × (current_node_id k.route_history ≡ some e.node_id))
  unfolding place arrive record_arrival
  place-IsManager a m v =
      let existing =
        find_nearest_node m.graph a.pose.x a.pose.y (some m.config.node_merge_radius_m) in
      let (n, (g1, q1, x1, i1)) =
        attach-Done a existing m.graph v.is_graph v.unbounded
          (find_nearest_node-has m.graph a.pose.x a.pose.y (some m.config.node_merge_radius_m)) in
      let (g2, q2, x2) = annotate-Done a n g1 x1.is_graph i1 in
      let (b, (g3, q3, x3)) =
        connect-Done a (current_node_id m.route_history) n g2 x2.is_graph (x2.still n i1)
          (λ x e. x2.still x (x1.still x (v.visited x (last-In m.route_history.sequence x e)))) in
      let h = m.route_history.sequence in
      let event : NodeEvent = record {
        node_id = n;
        created = is_none existing;
        route_event = (record_arrival m.route_history n a.now_step).0;
        edge_updated = b;
      } in
      let placed : NodeManager = record m {
        graph = g3;
        route_history = (record_arrival m.route_history n a.now_step).1;
        last_trigger_pose = some a.pose;
      } in
      (
        event,
        (
          placed,
          rw (q1, q2, q3) refl,
          record {
            is_graph = x3.is_graph;
            visited = λ x i. x3.still x (
                x2.still x (elim (In-append x h (n ∷ []) i) [
                  | inl j ↦ x1.still x (v.visited x j)
                  | inr j ↦ elim (In-cons x n [] j) [
                    | inl e ↦ rw (sym e) i1
                    | inr e ↦ absurd (ground arith)
                  ]
                ]));
            unbounded = x3.max_nodes ∙ x2.max_nodes ∙ x1.max_nodes ∙ v.unbounded;
          },
          x3.still n (x2.still n i1),
          last-append n h,
        ),
      )

  -- What one call leaves: nothing changed without a trigger, and otherwise a placed arrival.
  pub Placed : Arrival → NodeManager → Type 0
  Placed a m =
      ((should_trigger m a ≡ false) × (maybe_create_or_update_node a m ≡ (ok none, m)))
      ⊎ ((should_trigger m a ≡ true)
          × ((e : NodeEvent) × ((k : NodeManager) × (maybe_create_or_update_node a m
                  ≡ (ok (some e), k))
                × IsManager k
                × (has k.graph.nodes e.node_id ≡ true)
                × (current_node_id k.route_history ≡ some e.node_id))))

  -- For a manager of an unbounded graph in which every visited node exists, no call raises. A call
  -- without a trigger changes nothing; one with a trigger returns an event whose node exists and is
  -- the last of the route, and the manager it leaves is again such a one.
  pub maybe_create_or_update_node-Placed :
      (a : Arrival) (m : NodeManager) → IsManager m → Placed a m
  unfolding maybe_create_or_update_node Placed
  maybe_create_or_update_node-Placed a m v = elim (Bool-cases (should_trigger m a)) [
    | inl t ↦
        let (e, (k, q, w, i, c)) = place-IsManager a m v in
        inr (t, (e, (k, rw (t, q) refl, w, i, c)))
    | inr t ↦ inl (t, rw t refl)
  ]
