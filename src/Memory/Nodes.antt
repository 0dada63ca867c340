-- ===== src/Memory/Nodes.antt =====
-- navigation/memory/node_manager.py: when an arrival makes a node, and what it updates.
pub mod Placed
pub mod Kept
use hunter_kinodynamic_rl.Prelude.{
  ℕ, ◌==◌, Bool, true, false, not, ◌&&◌, ◌||◌, Option, none, some, List, [], ◌∷◌, if◌then◌else◌,
}
use hunter_kinodynamic_rl.Prelude.Int.{ℤ}
use hunter_kinodynamic_rl.Prelude.Result.{Result, ok, err, config_error, guard, ◌>>◌ as ◌>>ᵣ◌}
use hunter_kinodynamic_rl.Prelude.Exec.{Exec, pure, lift, modify, ◌>>=◌, ◌>>◌}
use hunter_kinodynamic_rl.Floats.{Floats, Float}
use hunter_kinodynamic_rl.Hierarchy.Geometry.{PoseXyYaw, euclidean_distance, wrap_to_pi}
use hunter_kinodynamic_rl.Memory.Graph.{
  TopoNodeType, TopologicalGraph, NewNode, init, add_node, get_node, change_node, record_visit,
  record_failure, mark_dead_end, add_risk, find_nearest_node,
}
use hunter_kinodynamic_rl.Memory.Graph.Edges.{Traversal, add_or_update_edge}
use hunter_kinodynamic_rl.Memory.Route
use hunter_kinodynamic_rl.Memory.Route.{RouteHistory, RouteEvent, record_arrival, current_node_id}

module _ ⦃M : Floats⦄ where
  open M use {zero_f, pi, sub, abs, atan2, lt, le, is_finite}

  pub record NodeManagerConfig : Type 0 where
    pub node_min_distance_m : Float
    pub node_heading_change_rad : Float
    pub node_merge_radius_m : Float

  unfoldable pub validate : NodeManagerConfig → Result (Unit {0})
  validate c =
      guard (not (le c.node_min_distance_m zero_f)) config_error
      >>ᵣ guard (lt zero_f c.node_heading_change_rad && le c.node_heading_change_rad pi)
          config_error
      >>ᵣ guard (not (le c.node_merge_radius_m zero_f)) config_error
      >>ᵣ guard (not (le c.node_min_distance_m c.node_merge_radius_m)) config_error

  pub record NodeEvent : Type 0 where
    pub node_id : ℕ
    pub created : Bool
    pub route_event : RouteEvent
    pub edge_updated : Bool

  pub record NodeManager : Type 0 where
    pub graph : TopologicalGraph
    pub route_history : RouteHistory
    pub config : NodeManagerConfig
    pub last_trigger_pose : Option PoseXyYaw

  unfoldable pub reset : NodeManager → Bool → NodeManager
  reset m clear_graph = record m {
    last_trigger_pose = none;
    route_history = Route.reset m.route_history;
    graph = if clear_graph then init m.graph.max_nodes else m.graph;
  }

  -- The arguments of `maybe_create_or_update_node`.
  pub record Arrival : Type 0 where
    pub pose : PoseXyYaw
    pub now_step : ℤ
    pub node_type_hint : Option TopoNodeType
    pub junction_detected : Bool
    pub subgoal_reached : Bool
    pub subgoal_failed : Bool
    pub dead_end_detected : Bool
    pub free_direction_count : ℤ
    pub final_goal_distance_m : Float
    pub final_goal_bearing_rad : Float
    pub path_length_since_last_m : Float
    pub elapsed_time_since_last_sec : Float
    pub risk : Option Float

  moved : NodeManagerConfig → Option PoseXyYaw → PoseXyYaw → Bool
  moved c none pose = true
  moved c (some last) pose =
      le c.node_min_distance_m (euclidean_distance last.x last.y pose.x pose.y)
      || le c.node_heading_change_rad (abs (wrap_to_pi (sub pose.yaw last.yaw)))

  unfoldable pub should_trigger : NodeManager → Arrival → Bool
  unfolding moved
  should_trigger m a =
      a.junction_detected
      || a.subgoal_reached
      || a.subgoal_failed
      || a.dead_end_detected
      || moved m.config m.last_trigger_pose a.pose

  new_type : Arrival → Option TopoNodeType → TopoNodeType
  new_type a (some hint) = hint
  new_type a none =
      if a.dead_end_detected
      then TopoNodeType.dead_end
      else if a.junction_detected
      then TopoNodeType.junction
      else TopoNodeType.waypoint

  unfoldable pub new_node_of : Arrival → NewNode
  unfolding new_type
  new_node_of a = record {
    node_type = new_type a a.node_type_hint;
    x_mission = a.pose.x;
    y_mission = a.pose.y;
    now_step = a.now_step;
    free_direction_count = a.free_direction_count;
    dead_end = a.dead_end_detected;
    final_goal_distance_m = a.final_goal_distance_m;
    final_goal_bearing_rad = a.final_goal_bearing_rad;
  }

  -- The node of this arrival: a new one, or the existing one that it merges into.
  unfoldable pub attach : Arrival → Option ℕ → Exec TopologicalGraph ℕ
  attach a none = do
    node_id ← add_node (new_node_of a)
    record_visit node_id a.now_step
    pure node_id
  attach a (some node_id) = do
    record_visit node_id a.now_step
    if a.dead_end_detected then mark_dead_end node_id true else pure tt
    pure node_id

  unfoldable pub counts : Option Float → Bool
  counts none = false
  counts (some risk) = is_finite risk

  -- The risk sample and the failure of this arrival.
  unfoldable pub annotate : Arrival → ℕ → Exec TopologicalGraph (Unit {0})
  unfolding counts
  annotate a node_id = do
    if counts a.risk
        then change_node node_id (λ n. record n { risk_samples = add_risk a.risk n.risk_samples })
        else pure tt
    if a.subgoal_failed then record_failure node_id none else pure tt

  unfoldable pub traversal_of : Arrival → Float → Float → Traversal
  traversal_of a x y = record {
    path_length_m = a.path_length_since_last_m;
    elapsed_time_sec = a.elapsed_time_since_last_sec;
    risk = a.risk;
    success = not a.subgoal_failed;
    blocked = a.subgoal_failed && a.dead_end_detected;
    direction_rad = atan2 (sub a.pose.y y) (sub a.pose.x x);
  }

  unfoldable pub connect_from : Arrival → ℕ → ℕ → Exec TopologicalGraph Bool
  connect_from a previous node_id = do
    last ← lift (λ g. get_node g previous)
    add_or_update_edge previous node_id (traversal_of a last.x_mission last.y_mission)
    pure true

  -- The edge from the node that came before, unless there is none or it is the same.
  unfoldable pub connect : Arrival → Option ℕ → ℕ → Exec TopologicalGraph Bool
  unfolding connect_from
  connect a none node_id = pure false
  connect a (some previous) node_id =
      if previous == node_id then pure false else connect_from a previous node_id

  -- A call of a method of the graph.
  abbrev pub on_graph : {A : Type 0} → Exec TopologicalGraph A → Exec NodeManager A
  on_graph f m = let (r, g) = f m.graph in (r, record m { graph = g })

  unfoldable pub arrive : Arrival → ℕ → Exec NodeManager RouteEvent
  arrive a node_id m =
      let (event, h) = record_arrival m.route_history node_id a.now_step in
      (ok event, record m { route_history = h })

  unfoldable pub is_none : Option ℕ → Bool
  is_none none = true
  is_none (some node_id) = false

  unfoldable pub place : Arrival → Exec NodeManager NodeEvent
  unfolding is_none
  place a = do
    existing ←
        lift (λ m.
          ok (find_nearest_node m.graph a.pose.x a.pose.y (some m.config.node_merge_radius_m)))
    node_id ← on_graph (attach a existing)
    on_graph (annotate a node_id)
    previous ← lift (λ m. ok (current_node_id m.route_history))
    event ← arrive a node_id
    edge_updated ← on_graph (connect a previous node_id)
    modify (λ m. record m { last_trigger_pose = some a.pose })
    pure (record {
      node_id = node_id;
      created = is_none existing;
      route_event = event;
      edge_updated = edge_updated;
    })

  unfoldable pub maybe_create_or_update_node : Arrival → Exec NodeManager (Option NodeEvent)
  maybe_create_or_update_node a m =
      if should_trigger m a then (place a >>= (λ event. pure (some event))) m else (ok none, m)
