-- ===== src/Tests/Memory.antt =====
-- A graph of two nodes and a route over it, and the memory's theorems at them.
use hunter_kinodynamic_rl.Prelude.{
  ℕ, ◌≡◌, ◌&&◌, refl, ◌↔◌, ◌⊎◌, true, false, none, some, List, [], ◌∷◌, arith,
}
use hunter_kinodynamic_rl.Prelude.Int.{ℤ, pos}
use hunter_kinodynamic_rl.Prelude.Result.{ok}
use hunter_kinodynamic_rl.Floats.{Floats}
use hunter_kinodynamic_rl.Prelude.Dict.{has, number_key}
use hunter_kinodynamic_rl.Memory.Graph.{
  TopologicalGraph, TopoNodeType, NewNode, init, add_node, put_node, fresh_node, is_full,
  mark_dead_end,
}
use hunter_kinodynamic_rl.Memory.Graph.Edges.{
  Traversal, add_or_update_edge, member, put_edge, adjacent, link,
}
use hunter_kinodynamic_rl.Memory.Graph.Search.{is_connected, search, sweep, scan}
use hunter_kinodynamic_rl.Memory.Graph.Reachable.{Walk}
use hunter_kinodynamic_rl.Memory.Graph.Invariant.{IsGraph}
use hunter_kinodynamic_rl.Memory.Graph.Reached.{
  Reached, begins, next, adds, connects, Reached-IsGraph, is_connected-Reached,
}
use hunter_kinodynamic_rl.Memory.Route.{
  RouteHistory, RouteEventType, empty, record_arrival, arrival_type, branch_since,
}
use hunter_kinodynamic_rl.Memory.Route.Branch.{LastAt, branch_since-LastAt}
use hunter_kinodynamic_rl.Memory.Route.Arrivals.{
  arrivals, CameFrom, arrivals-Consistent, empty-Consistent, record_arrival-classified,
}
use hunter_kinodynamic_rl.Memory.DeadEnd.{
  DeadEndEvidence, DeadEndVerdict, DeadEndDetectorConfig, Readings, evaluate_evidence, verdict,
}
use hunter_kinodynamic_rl.Memory.DeadEnd.Signals.{signals, how_many}
use hunter_kinodynamic_rl.Memory.DeadEnd.Verdicts.{Judged, verdict-Judged, verdict-mark_dead_end}
use hunter_kinodynamic_rl.Memory.Nodes.{NodeManager, Arrival}
use hunter_kinodynamic_rl.Memory.Nodes.Kept.{IsManager, Placed, maybe_create_or_update_node-Placed}
use hunter_kinodynamic_rl.Tests.Numbers.{numbers}

instance abbrev sample_numbers : Floats
sample_numbers = numbers

abbrev at_x : ℕ → NewNode
at_x n = record {
  node_type = TopoNodeType.waypoint;
  x_mission = pos n;
  y_mission = pos 0;
  now_step = pos 1;
  free_direction_count = pos 2;
  dead_end = false;
  final_goal_distance_m = pos 9;
  final_goal_bearing_rad = pos 0;
}

abbrev crossing : Traversal
crossing = record {
  path_length_m = pos 5;
  elapsed_time_sec = pos 2;
  risk = some (pos 1);
  success = true;
  blocked = false;
  direction_rad = pos 0;
}

abbrev two_nodes : TopologicalGraph
two_nodes =
    (add_or_update_edge 0 1 crossing (add_node (at_x 5) (add_node (at_x 0) (init none)).1).1).1

two_nodes-Reached : Reached none two_nodes
two_nodes-Reached =
    next (next (next begins (adds (at_x 0) refl)) (adds (at_x 5) refl)) (connects 0 1 crossing refl)

two_nodes_has : (has two_nodes.nodes 0 ≡ true) × (has two_nodes.nodes 1 ≡ true)
unfolding init add_node put_node fresh_node is_full add_or_update_edge put_edge
two_nodes_has = (refl, refl)

Reached-IsGraph_example : IsGraph two_nodes
Reached-IsGraph_example = Reached-IsGraph two_nodes-Reached

is_connected-Reached_example :
    ((is_connected two_nodes 1 0 ≡ true) ↔ Walk two_nodes.adjacency 1 0)
    × ((is_connected two_nodes 1 0 ≡ true) ↔ (is_connected two_nodes 0 1 ≡ true))
is_connected-Reached_example =
    is_connected-Reached two_nodes-Reached 1 0 two_nodes_has.1 two_nodes_has.0

two_nodes_connected : is_connected two_nodes 1 0 ≡ true
unfolding init add_node put_node fresh_node is_full add_or_update_edge put_edge is_connected search
    sweep scan adjacent link
two_nodes_connected = refl

abbrev visits : List (ℕ × ℤ)
visits = (0, pos 1) ∷ (1, pos 2) ∷ (2, pos 3) ∷ []

abbrev route : RouteHistory
route = arrivals visits empty

record_arrival-classified_example :
    (((record_arrival route 1 (pos 4)).0.event_type ≡ RouteEventType.enter)
      ↔ (member 1 route.sequence ≡ false))
    × (((record_arrival route 1 (pos 4)).0.event_type ≡ RouteEventType.backtrack)
        ↔ CameFrom 1 route.sequence)
record_arrival-classified_example =
    record_arrival-classified route 1 (pos 4) (arrivals-Consistent visits empty empty-Consistent)

branch_since-LastAt_example :
    LastAt 0 route.sequence (branch_since route 0)
    ⊎ ((member 0 route.sequence ≡ false) × (branch_since route 0 ≡ []))
branch_since-LastAt_example = branch_since-LastAt route 0

abbrev sample_detector : DeadEndDetectorConfig
sample_detector = record {
  free_direction_threshold = pos 1;
  progress_stall_window_steps = 2;
  progress_stall_min_delta_m = pos 1;
  repeated_estop_limit = pos 3;
  evidence_vote_threshold = pos 2;
}

abbrev sample_readings : Readings
sample_readings = record {
  known_free_direction_count = pos 1;
  known_frontier_direction_count = pos 0;
  recent_final_goal_distance_history = pos 4 ∷ pos 4 ∷ [];
  consecutive_emergency_stops = pos 0;
  valid_candidate_count = pos 5;
}

verdict-Judged_example :
    (e : DeadEndEvidence) × (v : DeadEndVerdict) × (evaluate_evidence sample_detector
        sample_readings
      ≡ ok e)
    × (verdict sample_detector e two_nodes (some 1) ≡ ok v)
    × Judged sample_detector sample_readings two_nodes (some 1) v
verdict-Judged_example =
    verdict-Judged sample_detector sample_readings two_nodes (some 1) (omega arith)

verdict-mark_dead_end_example :
    (e : DeadEndEvidence) × (v : DeadEndVerdict) × (w : DeadEndVerdict) × (evaluate_evidence
        sample_detector sample_readings
      ≡ ok e)
    × (verdict sample_detector e two_nodes (some 1) ≡ ok v)
    × (verdict sample_detector e (mark_dead_end 1 true two_nodes).1 (some 1) ≡ ok w)
    × (w.is_dead_end ≡ v.is_dead_end)
    × (w.is_repeated ≡ (v.is_dead_end && true))
unfolding init add_node put_node fresh_node is_full add_or_update_edge put_edge link
verdict-mark_dead_end_example =
    verdict-mark_dead_end sample_detector sample_readings two_nodes 1 true (omega arith) refl

-- Three of the five signals: one free direction, no frontier, and no progress over the window.
three_signals : how_many (signals sample_detector sample_readings) ≡ 3
unfolding how_many
three_signals = refl

-- A third arrival in a row at one node.
stays_twice :
    (record_arrival (arrivals ((4, pos 1) ∷ (4, pos 2) ∷ []) empty) 4 (pos 3)).0.event_type
    ≡ RouteEventType.backtrack
unfolding arrivals record_arrival arrival_type empty
stays_twice = refl

abbrev manager : NodeManager
manager = record {
  graph = two_nodes;
  route_history = empty;
  config = record {
    node_min_distance_m = pos 2;
    node_heading_change_rad = pos 1;
    node_merge_radius_m = pos 1;
  };
  last_trigger_pose = none;
}

manager-IsManager : IsManager manager
unfolding init add_node put_node fresh_node is_full add_or_update_edge put_edge empty
manager-IsManager = record {
  is_graph = Reached-IsGraph two_nodes-Reached;
  visited = λ x i. ground arith;
  unbounded = refl;
}

abbrev sample_arrival : Arrival
sample_arrival = record {
  pose = record { x = pos 5; y = pos 0; yaw = pos 0 };
  now_step = pos 9;
  node_type_hint = none;
  junction_detected = false;
  subgoal_reached = false;
  subgoal_failed = true;
  dead_end_detected = true;
  free_direction_count = pos 1;
  final_goal_distance_m = pos 4;
  final_goal_bearing_rad = pos 0;
  path_length_since_last_m = pos 3;
  elapsed_time_since_last_sec = pos 2;
  risk = some (pos 1);
}

maybe_create_or_update_node-Placed_example : Placed sample_arrival manager
maybe_create_or_update_node-Placed_example =
    maybe_create_or_update_node-Placed sample_arrival manager manager-IsManager
