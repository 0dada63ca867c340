-- ===== src/Memory/Graph.antt =====
-- navigation/memory/topological_graph.py: the nodes and edges and the operations on them.
pub mod Edges
pub mod Search
pub mod Reachable
pub mod Connected
pub mod Invariant
pub mod Reached
pub mod Snapshot
use hunter_kinodynamic_rl.Prelude.{
  ℕ, ◌+◌, leb, Bool, true, false, ◌||◌, not, Option, none, some, List, [], ◌∷◌, ◌++◌, length,
  if◌then◌else◌,
}
use mathlib.Core.List.{foldl}
use hunter_kinodynamic_rl.Prelude.Int.{ℤ, pos, leb_ℤ}
use hunter_kinodynamic_rl.Prelude.Result.{Result, ok, err, runtime_error, key_error}
use hunter_kinodynamic_rl.Prelude.Exec.{Exec, pure, lift, modify, raise_if, ◌>>=◌, ◌>>◌}
use hunter_kinodynamic_rl.Floats.{Floats, Float, max_f}
use hunter_kinodynamic_rl.Prelude.Dict.{Dict, lookup, insert, has, number_key, pair_key}

pub data TopoNodeType : Type 0 where
  start junction room_entrance intersection dead_end waypoint : TopoNodeType

module _ ⦃M : Floats⦄ where
  open M use {zero_f, of_ℕ, add, sub, div, hypot, lt, is_finite}

  pub record TopoNode : Type 0 where
    pub node_id : ℕ
    pub node_type : TopoNodeType
    pub x_mission : Float
    pub y_mission : Float
    pub visit_count : ℕ
    pub free_direction_count : ℤ
    pub dead_end : Bool
    pub failure_count : ℕ
    pub risk_samples : List Float
    pub final_goal_distance_m : Float
    pub final_goal_bearing_rad : Float
    pub last_visited_step : ℤ
    pub created_step : ℤ

  pub record TopoEdge : Type 0 where
    pub from_id : ℕ
    pub to_id : ℕ
    pub traversal_count : ℕ
    pub path_length_m : Float
    pub elapsed_time_sec : Float
    pub mean_risk : Float
    pub max_risk : Float
    pub success_count : ℕ
    pub failure_count : ℕ
    pub last_direction_rad : Float
    pub blocked : Bool

  pub record TopologicalGraph : Type 0 where
    pub max_nodes : Option ℤ
    pub nodes : Dict ℕ TopoNode
    pub edges : Dict (ℕ × ℕ) TopoEdge
    pub adjacency : Dict ℕ (List ℕ)
    pub next_node_id : ℕ

  unfoldable pub init : Option ℤ → TopologicalGraph
  init max_nodes = record {
    max_nodes = max_nodes;
    nodes = [];
    edges = [];
    adjacency = [];
    next_node_id = 0;
  }

  unfoldable pub mean_risk : TopoNode → Float
  mean_risk n = mean n.risk_samples
    where
      mean : List Float → Float
      mean [] = zero_f
      mean (x ∷ xs) = div (foldl add zero_f (x ∷ xs)) (of_ℕ (length (x ∷ xs)))

  -- The arguments of `add_node`.
  pub record NewNode : Type 0 where
    pub node_type : TopoNodeType
    pub x_mission : Float
    pub y_mission : Float
    pub now_step : ℤ
    pub free_direction_count : ℤ
    pub dead_end : Bool
    pub final_goal_distance_m : Float
    pub final_goal_bearing_rad : Float

  unfoldable pub is_full : Option ℤ → ℕ → Bool
  is_full none n = false
  is_full (some max_nodes) n = leb_ℤ max_nodes (pos n)

  unfoldable pub fresh_node : ℕ → NewNode → TopoNode
  fresh_node node_id a = record {
    node_id = node_id;
    node_type = a.node_type;
    x_mission = a.x_mission;
    y_mission = a.y_mission;
    visit_count = 0;
    free_direction_count = a.free_direction_count;
    dead_end = a.dead_end;
    failure_count = 0;
    risk_samples = [];
    final_goal_distance_m = a.final_goal_distance_m;
    final_goal_bearing_rad = a.final_goal_bearing_rad;
    last_visited_step = a.now_step;
    created_step = a.now_step;
  }

  unfoldable pub put_node : ℕ → NewNode → TopologicalGraph → TopologicalGraph
  put_node node_id a g = record g {
    next_node_id = node_id + 1;
    nodes = insert g.nodes node_id (fresh_node node_id a);
    adjacency = insert g.adjacency node_id [];
  }

  unfoldable pub add_node : NewNode → Exec TopologicalGraph ℕ
  unfolding is_full
  add_node a g =
      if is_full g.max_nodes (length g.nodes)
      then (err runtime_error, g)
      else (ok g.next_node_id, put_node g.next_node_id a g)

  or_key_error : {A : Type 0} → Option A → Result A
  or_key_error none = err key_error
  or_key_error (some a) = ok a

  unfoldable pub get_node : TopologicalGraph → ℕ → Result TopoNode
  unfolding or_key_error
  get_node g node_id = or_key_error (lookup g.nodes node_id)

  abbrev pub has_node : TopologicalGraph → ℕ → Bool
  has_node g node_id = has g.nodes node_id

  -- A change to the node object that the dictionary holds.
  unfoldable pub change_node : ℕ → (TopoNode → TopoNode) → Exec TopologicalGraph (Unit {0})
  change_node node_id f = do
    node ← lift (λ g. get_node g node_id)
    modify (λ g. record g { nodes = insert g.nodes node_id (f node) })

  unfoldable pub update_node_pose : ℕ → Float → Float → Exec TopologicalGraph (Unit {0})
  update_node_pose node_id x y =
      change_node node_id (λ n. record n { x_mission = x; y_mission = y })

  unfoldable pub record_visit : ℕ → ℤ → Exec TopologicalGraph (Unit {0})
  record_visit node_id now_step =
      change_node node_id
        (λ n. record n { visit_count = n.visit_count + 1; last_visited_step = now_step })

  -- `risk is not None and math.isfinite(risk)`: the sample, if it counts.
  unfoldable pub add_risk : Option Float → List Float → List Float
  add_risk none samples = samples
  add_risk (some risk) samples = if is_finite risk then samples ++ risk ∷ [] else samples

  unfoldable pub record_failure : ℕ → Option Float → Exec TopologicalGraph (Unit {0})
  record_failure node_id risk = change_node node_id (λ n. record n {
    failure_count = n.failure_count + 1;
    risk_samples = add_risk risk n.risk_samples;
  })

  unfoldable pub mark_dead_end : ℕ → Bool → Exec TopologicalGraph (Unit {0})
  mark_dead_end node_id flagged = change_node node_id (λ n. record n { dead_end = flagged })

  unfoldable pub distance_to : Float → Float → TopoNode → Float
  distance_to x y n = hypot (sub n.x_mission x) (sub n.y_mission y)

  unfoldable pub too_far : Option Float → Float → Bool
  too_far none dist = false
  too_far (some max_radius_m) dist = lt max_radius_m dist

  -- The best node so far and its distance, after one more.
  unfoldable pub closer : Option (ℕ × Float) → ℕ → Float → Option (ℕ × Float)
  closer none node_id dist = some (node_id, dist)
  closer (some (best_id, best_dist)) node_id dist =
      if lt dist best_dist then some (node_id, dist) else some (best_id, best_dist)

  unfoldable pub nearest :
      Float → Float → Option Float → Option (ℕ × Float) → Dict ℕ TopoNode → Option (ℕ × Float)
  unfolding distance_to too_far closer
  nearest x y radius best [] = best
  nearest x y radius best ((node_id, node) ∷ rest) =
      nearest x y radius
        (if too_far radius (distance_to x y node)
          then best
          else closer best node_id (distance_to x y node))
        rest

  unfoldable pub id_of : Option (ℕ × Float) → Option ℕ
  id_of none = none
  id_of (some (node_id, dist)) = some node_id

  unfoldable pub find_nearest_node : TopologicalGraph → Float → Float → Option Float → Option ℕ
  unfolding id_of
  find_nearest_node g x y max_radius_m = id_of (nearest x y max_radius_m none g.nodes)
