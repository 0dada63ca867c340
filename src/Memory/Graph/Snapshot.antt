-- ===== src/Memory/Graph/Snapshot.antt =====
-- `to_dict` and `from_dict`: the graph as lists of rows.
use hunter_kinodynamic_rl.Prelude.{ℕ, not, ◌||◌, Option, List, [], ◌∷◌, map, if◌then◌else◌}
use hunter_kinodynamic_rl.Prelude.Int.{ℤ}
use hunter_kinodynamic_rl.Prelude.Result.{Result, ok, err, key_error, ◌>>=◌}
use hunter_kinodynamic_rl.Floats.{Floats}
use hunter_kinodynamic_rl.Prelude.Dict.{insert, has, number_key, pair_key}
use hunter_kinodynamic_rl.Memory.Graph.{TopoNode, TopoEdge, TopologicalGraph, init}
use hunter_kinodynamic_rl.Memory.Graph.Edges.{edge_key, link}

module _ ⦃M : Floats⦄ where
  -- A row has the fields of the object that it stands for.
  pub record Snapshot : Type 0 where
    pub max_nodes : Option ℤ
    pub next_node_id : ℕ
    pub nodes : List TopoNode
    pub edges : List TopoEdge

  unfoldable pub to_dict : TopologicalGraph → Snapshot
  to_dict g = record {
    max_nodes = g.max_nodes;
    next_node_id = g.next_node_id;
    nodes = map (λ e. e.1) g.nodes;
    edges = map (λ e. e.1) g.edges;
  }

  unfoldable pub read_nodes : List TopoNode → TopologicalGraph → TopologicalGraph
  read_nodes [] g = g
  read_nodes (n ∷ rows) g =
      read_nodes rows (record g {
        nodes = insert g.nodes n.node_id n;
        adjacency = insert g.adjacency n.node_id [];
      })

  unfoldable pub read_edges : List TopoEdge → TopologicalGraph → Result TopologicalGraph
  read_edges [] g = ok g
  read_edges (e ∷ rows) g =
      let rest = read_edges rows (record g {
        edges = insert g.edges (edge_key e.from_id e.to_id) e;
        adjacency = link e.from_id e.to_id g.adjacency;
      }) in
      if not (has g.adjacency e.from_id) || not (has g.adjacency e.to_id)
      then err key_error
      else rest

  unfoldable pub from_dict : Snapshot → Result TopologicalGraph
  from_dict file = do
    g ← read_edges file.edges (read_nodes file.nodes (init file.max_nodes))
    ok (record g { next_node_id = file.next_node_id })
