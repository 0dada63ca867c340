-- ===== src/Memory/Graph/Edges.antt =====
-- The edges of the graph: an undirected edge is stored once, under the ordered pair of its ends.
use hunter_kinodynamic_rl.Prelude.{
  ℕ, ◌+◌, ◌==◌, leb, Bool, true, false, not, ◌||◌, Option, none, some, List, [], ◌∷◌, ◌++◌,
  if◌then◌else◌,
}
use hunter_kinodynamic_rl.Prelude.Result.{ok, err, key_error}
use hunter_kinodynamic_rl.Prelude.Exec.{Exec}
use hunter_kinodynamic_rl.Floats.{Floats, Float, max_f}
use hunter_kinodynamic_rl.Prelude.Dict.{Dict, lookup, insert, has, number_key, pair_key}
use hunter_kinodynamic_rl.Memory.Graph.{TopoEdge, TopologicalGraph}

abbrev pub edge_key : ℕ → ℕ → ℕ × ℕ
edge_key a b = if leb a b then (a, b) else (b, a)

abbrev pub member : ℕ → List ℕ → Bool
member x [] = false
member x (y ∷ ys) = (y == x) || member x ys

-- `set.add`, on a set kept in the order of insertion.
abbrev pub set_add : List ℕ → ℕ → List ℕ
set_add xs x = if member x xs then xs else xs ++ x ∷ []

-- `adjacency.get(id, ())`
unfoldable pub adjacent : Dict ℕ (List ℕ) → ℕ → List ℕ
adjacent d node_id = elim (lookup d node_id) [ none ↦ [] | some xs ↦ xs ]

-- `adjacency[a].add(b); adjacency[b].add(a)` for two nodes of the dictionary.
unfoldable pub link : ℕ → ℕ → Dict ℕ (List ℕ) → Dict ℕ (List ℕ)
link a b d =
    let d' = insert d a (set_add (adjacent d a) b) in insert d' b (set_add (adjacent d' b) a)

module _ ⦃M : Floats⦄ where
  open M use {zero_f, of_ℕ, add, mul, div, is_finite}

  -- The arguments of `add_or_update_edge`.
  pub record Traversal : Type 0 where
    pub path_length_m : Float
    pub elapsed_time_sec : Float
    pub risk : Option Float
    pub success : Bool
    pub blocked : Bool
    pub direction_rad : Float

  -- `(mean * n + value) / (n + 1)`
  running_mean : ℕ → Float → Float → Float
  running_mean n mean value = div (add (mul mean (of_ℕ n)) value) (of_ℕ (n + 1))

  with_risk : Option Float → TopoEdge → TopoEdge
  unfolding running_mean
  with_risk none e = e
  with_risk (some risk) e =
      if is_finite risk
      then record e {
        mean_risk = running_mean e.traversal_count e.mean_risk risk;
        max_risk = max_f e.max_risk risk;
      }
      else e

  counted : Bool → TopoEdge → TopoEdge
  counted true e = record e { success_count = e.success_count + 1 }
  counted false e = record e { failure_count = e.failure_count + 1 }

  unfoldable pub traversed : Traversal → TopoEdge → TopoEdge
  unfolding running_mean with_risk counted
  traversed t e =
      let averaged = with_risk t.risk (record e {
        path_length_m = running_mean e.traversal_count e.path_length_m t.path_length_m;
        elapsed_time_sec = running_mean e.traversal_count e.elapsed_time_sec t.elapsed_time_sec;
      }) in
      let done =
        counted t.success (record averaged { traversal_count = averaged.traversal_count + 1 }) in
      record done { blocked = t.blocked; last_direction_rad = t.direction_rad }

  -- `TopoEdge(from_id=…, to_id=…)`
  unfoldable pub new_edge : ℕ → ℕ → TopoEdge
  new_edge from_id to_id = record {
    from_id = from_id;
    to_id = to_id;
    traversal_count = 0;
    path_length_m = zero_f;
    elapsed_time_sec = zero_f;
    mean_risk = zero_f;
    max_risk = zero_f;
    success_count = 0;
    failure_count = 0;
    last_direction_rad = zero_f;
    blocked = false;
  }

  unfoldable pub put_edge :
      ℕ → ℕ → Traversal → Option TopoEdge → TopologicalGraph → TopologicalGraph
  put_edge a b t none g = record g {
    edges = insert g.edges (edge_key a b) (traversed t (new_edge a b));
    adjacency = link a b g.adjacency;
  }
  put_edge a b t (some e) g = record g { edges = insert g.edges (edge_key a b) (traversed t e) }

  unfoldable pub add_or_update_edge : ℕ → ℕ → Traversal → Exec TopologicalGraph (Unit {0})
  add_or_update_edge a b t g =
      if a == b
      then (ok tt, g)
      else if not (has g.nodes a) || not (has g.nodes b)
      then (err key_error, g)
      else (ok tt, put_edge a b t (lookup g.edges (edge_key a b)) g)

  unfoldable pub get_edge : TopologicalGraph → ℕ → ℕ → Option TopoEdge
  get_edge g a b = lookup g.edges (edge_key a b)
