-- ===== src/Lib.antt =====
-- The navigation core of hunter_kinodynamic_rl: how a robot works through the subgoals of a mission,
-- what it remembers of the way, and how its experience is stored for training. Paths below are those
-- of hunter_kinodynamic_rl/.
--
-- Parts and files:
--
-- Prelude and its children pass on the library's names and add lists and integers over the native
-- numbers, Python exceptions as values (Result), and methods of one object (Exec): a function from the
-- state to a result beside the state, where what was written before a raise stays written.
--
-- Floats: floating-point numbers and the functions of `math` are one parameter, an instance argument
-- of everything that computes with them. Only Safety/Guard and Spawning/Pool/Enough assume laws of
-- them, on comparisons.
--
-- Hierarchy is navigation/hierarchy and the modules it calls.
--   Hierarchy/Geometry: common/geometry.py, and the pose of navigation/mission/mission_frame.py.
--   Hierarchy/Goal: navigation/mission/goal_manager.py, `GoalManager`.
--   Hierarchy/Subgoal, Subgoal/Status: navigation/hierarchy/subgoal_manager.py, `SubgoalManager`.
--   Hierarchy/Replanning: navigation/hierarchy/replanning.py, `evaluate_replanning`;
--     Replanning/Order compares it with a table of checks.
--   Hierarchy/Recovery: navigation/hierarchy/failure_recovery.py, `FailureRecoveryPolicy.decide`.
--   Hierarchy/Coordinator: navigation/hierarchy/coordinator.py. The record `Coordinator` has the fields
--     of `HierarchyCoordinator`. Coordinator/Activation is `activate_next_subgoal` and
--     `_retry_current_candidate`, Coordinator/Ticks `record_local_tick` and `_apply_recovery`,
--     Coordinator/Forced `force_terminate_active_subgoal`. The other children hold proofs: Invariant,
--     Preserved and ForcedInvariant keep the invariant, Reach is the relation of calls, Returns and
--     Total show that a tick raises nothing, Outcomes what single calls leave.
-- The coordinator owns the two managers; a tick measures the distances, updates the subgoal's
-- statistics, and then decides in the order of the code: degraded localization, final goal, mission
-- timeout, replanning triggers, recovery.
--
-- Memory is navigation/memory.
--   Prelude/Dict: Python's dictionaries as lists of entries in the order of insertion.
--   Memory/Graph: topological_graph.py, the nodes; Graph/Edges the edges, Graph/Search `neighbors` and
--     `is_connected`, Graph/Snapshot `to_dict` and `from_dict`; Graph/Reachable, Connected, Invariant and
--     Reached hold proofs.
--   Memory/Route: route_history.py; Route/Branch and Route/Arrivals hold proofs.
--   Memory/DeadEnd: dead_end_detector.py; DeadEnd/Signals and Verdicts hold proofs.
--   Memory/Nodes: node_manager.py, which feeds the graph and the route; Nodes/Placed and Nodes/Kept hold
--     proofs.
--
-- Replay is rl/replay/buffer.py and navigation/global_rl/replay.py.
--   Replay/Arrays: what the buffers use of numpy, with the random generator as a parameter.
--   Replay/Ring: the write pointer; Ring/Order and Ring/Index hold proofs.
--   Replay/Local: the rows and the constructor; Local/Add, Local/Sample and Local/Archive are `add`,
--     `sample` and `save`/`load`; Local/Written, Local/Latest and Local/RoundTrip hold proofs.
--   Replay/Global: the global buffer, its rows and constructor; Global/Add, Sample and Archive are `add`,
--     `sample` and `save`/`load`, with numpy's arrays of several dimensions, and what its integer
--     columns take, as a parameter; Global/Latest and RoundTrip hold proofs.
--
-- Sequence is rl/replay/sequence_index.py: `SequenceIndex.build` over what the episode store answers for
-- its paths, and `validate_split_isolation`. Sequence/Burn, Runs, Made, Windows and Isolation hold
-- proofs.
--
-- Seeds is env/scenarios/seed_scheduler.py, `seed_split` of env/scenarios/procedural_generator.py and the
-- checks of the seed ranges in config/schema.py. numpy's generator is a parameter. Seeds/Pools and
-- Seeds/Draws hold proofs.
--
-- Worker is navigation/local_rl/single_flight_worker.py. The interleaving of calls and of threads that
-- end is a sequence of steps; Worker/Flights holds proofs.
--
-- Checkpoint is rl/checkpointing/manager.py, the generation layout. Checkpoint/Saving, Loading and Pruning
-- are `save_generation`, `load_generation` and `prune_orphan_generations`; Checkpoint/Steps interleaves
-- the steps of saves, readers and prunes, with saves that die. Creating the directory of a generation and
-- locking it is one step, since the lifecycle lock keeps prunes away meanwhile. Checkpoint/Complete,
-- Changed, Swept, Published, Verified, RoundTrip, Due and Pruned hold proofs. Whether `load_state_dict` of
-- a component takes a state or raises is a parameter.
--
-- Mapping/Raytracing is `bresenham_line` of navigation/mapping/raytracing.py; Raytracing/Distances, Rounds,
-- Line and Length hold proofs.
--
-- Spawning/Pool is env/spawning/obstacle_pool.py. The simulator is a parameter: a world, and what
-- its services do with it and answer. A call that fails may have changed the world. What the services
-- document is `Documented` of Pool/Spawned and `Posed` of Pool/Placed. Pool/Activation is
-- `activate_static` and `activate_dynamic`. Pool/Spawned, Finished, Taken, Placed, Parked, Activated,
-- Counted and Enough hold proofs; Enough assumes that two floats that equal a third equal each other.
--
-- Safety/Guard is env/safety/action_guard.py; Guard/Bounded and Guarded hold proofs, from what IEEE 754
-- says of comparisons.
--
-- Tests has sample data and the theorems at concrete inputs, with integers for the floats.
--
-- Bounds and fuel: the `while` of `is_connected` is recursion on fuel, one unit for each node and one
-- more. Each round but the last marks a node as seen that was not, so the fuel suffices for graphs whose
-- neighbors are nodes. The `while True` of `bresenham_line` has one unit of fuel for each row and each
-- column to cross and one more, and each round crosses a row or a column. Every other loop is
-- recursion on a list or a number. Counters are unbounded, as Python's are; where the seed scheduler masks to 32 bits, the remainder is written out.
--
-- Not modelled: floating-point arithmetic itself; the files, ROS topics and simulator calls; networks and
-- tensors (`to_fixed_tensor`, `sample_torch`); the buffer of sequences and the store of episodes, the
-- flushing of checkpoints to the disk, what a load that raises has changed in the components before; the
-- maps and the clipping of rays, scenario generation, training and evaluation.
pub mod Prelude
pub mod Checkpoint
pub mod Floats
pub mod Hierarchy
pub mod Mapping
pub mod Memory
pub mod Replay
pub mod Safety
pub mod Seeds
pub mod Sequence
pub mod Spawning
pub mod Tests
pub mod Worker
