-- ===== src/Spawning/Pool/Activation.antt =====
-- Teleporting the slots that an episode needs and parking the others, `activate_static` and
-- `activate_dynamic` of env/spawning/obstacle_pool.py.
use hunter_kinodynamic_rl.Prelude.{
  ℕ, suc, ltb, String, Bool, true, false, not, ◌&&◌, Option, none, some, List, [], ◌∷◌, length,
  if◌then◌else◌,
}
use hunter_kinodynamic_rl.Prelude.Result.{Result, ok, err, Error}
use hunter_kinodynamic_rl.Floats.{Floats, Float}
use hunter_kinodynamic_rl.Spawning.Pool.{
  Slot, ObstaclePool, Obstacle, Gazebo, Outcome, parking_position, parking_z,
}

module _ ⦃M : Floats⦄ where
  abbrev pub tolerance : Float
  tolerance = M.div (M.of_ℕ 1) (M.of_ℕ 1000000000)

  abbrev pub is_exact : Float → Float → Bool
  is_exact radius c = M.le (M.abs (M.sub c radius)) tolerance

  unfoldable pub matching_exact_class : Float → List Float → Option Float
  matching_exact_class radius [] = none
  matching_exact_class radius (c ∷ cs) =
      let rest = matching_exact_class radius cs in if is_exact radius c then some c else rest

  -- The first class that is not below the radius.
  unfoldable pub snap_up_to_class : Float → List Float → Result Float
  snap_up_to_class radius [] = err Error.runtime_error
  snap_up_to_class radius (c ∷ cs) =
      let rest = snap_up_to_class radius cs in
      if M.le (M.sub radius tolerance) c then ok c else rest

  unfoldable pub insert_class : Float → List Float → List Float
  insert_class c [] = c ∷ []
  insert_class c (d ∷ ds) =
      let rest = insert_class c ds in
      if M.eq c d then d ∷ ds else if M.lt c d then c ∷ d ∷ ds else d ∷ rest

  -- `sorted({slot.size_class_m for slot in slots})`
  unfoldable pub classes_ascending : List Slot → List Float
  classes_ascending [] = []
  classes_ascending (slot ∷ slots) = insert_class slot.size (classes_ascending slots)

  abbrev pub with_active : Bool → Slot → Slot
  with_active b slot = record slot { active = b }

  abbrev pub deactivate : List Slot → List Slot
  deactivate [] = []
  deactivate (slot ∷ slots) = with_active false slot ∷ deactivate slots

  abbrev pub is_free : Float → Slot → Bool
  is_free needed slot = M.eq slot.size needed && not slot.active

  abbrev pub behind : Slot → Option (String × List Slot) → Option (String × List Slot)
  behind slot none = none
  behind slot (some (n, slots)) = some (n, slot ∷ slots)

  -- The name of the first free slot of a class, and the slots with that one active.
  unfoldable pub take_free : Float → List Slot → Option (String × List Slot)
  take_free needed [] = none
  take_free needed (slot ∷ slots) =
      let rest = take_free needed slots in
      if is_free needed slot
      then some (slot.name, with_active true slot ∷ slots)
      else behind slot rest

module _ ⦃M : Floats⦄ ⦃G : Gazebo⦄ where
  abbrev pub teleported : String → List Slot → Bool × G.World → Outcome String
  teleported n slots (true, w) = (ok n, (slots, w))
  teleported n slots (false, w) = (err Error.runtime_error, (slots, w))

  abbrev pub place_in :
      Obstacle → List Slot → G.World → Option (String × List Slot) → Outcome String
  place_in o slots w none = (err Error.runtime_error, (slots, w))
  place_in o slots w (some (n, taken)) = teleported n taken (G.set_pose n o.x o.y M.zero_f w)

  abbrev pub place : Obstacle → List Slot → G.World → Option Float → Outcome String
  place o slots w none = (err Error.runtime_error, (slots, w))
  place o slots w (some needed) = place_in o slots w (take_free needed slots)

  abbrev pub add_name : String → Outcome (List String) → Outcome (List String)
  add_name n (err e, s) = (err e, s)
  add_name n (ok names, s) = (ok (n ∷ names), s)

  abbrev pub then_place :
      (List Slot → G.World → Outcome (List String)) → Outcome String → Outcome (List String)
  then_place rest (err e, s) = (err e, s)
  then_place rest (ok n, (slots, w)) = add_name n (rest slots w)

  unfoldable pub place_all :
      List Float → List Obstacle → List Slot → G.World → Outcome (List String)
  place_all classes [] slots w = (ok [], (slots, w))
  place_all classes (o ∷ os) slots w =
      then_place (place_all classes os) (place o slots w (matching_exact_class o.radius classes))

  abbrev pub park : Float → ℕ → String → G.World → Bool × G.World
  park distance i n w =
      G.set_pose n (parking_position distance i).0 (parking_position distance i).1 parking_z w

  abbrev pub after_park :
      (G.World → Result (Unit {0}) × G.World) → Bool × G.World → Result (Unit {0}) × G.World
  after_park rest (true, w) = rest w
  after_park rest (false, w) = (err Error.runtime_error, w)

  unfoldable pub park_inactive : Float → ℕ → List Slot → G.World → Result (Unit {0}) × G.World
  park_inactive distance i [] w = (ok tt, w)
  park_inactive distance i (slot ∷ slots) w =
      let rest = λ (v : G.World). park_inactive distance (suc i) slots v in
      elim slot.active [ true ↦ rest w | false ↦ after_park rest (park distance i slot.name w) ]

  abbrev pub all_parked :
      List String → List Slot → Result (Unit {0}) × G.World → Outcome (List String)
  all_parked names slots (err e, w) = (err e, (slots, w))
  all_parked names slots (ok u, w) = (ok names, (slots, w))

  abbrev pub then_park : Float → Outcome (List String) → Outcome (List String)
  then_park distance (err e, s) = (err e, s)
  then_park distance (ok names, (slots, w)) =
      all_parked names slots (park_inactive distance 0 slots w)

  abbrev pub with_static :
      ObstaclePool → Outcome (List String) → Result (List String) × (ObstaclePool × G.World)
  with_static pool (r, (slots, w)) = (r, (record pool { static_slots = slots }, w))

  unfoldable pub activate_static :
      ObstaclePool → List Obstacle → G.World → Result (List String) × (ObstaclePool × G.World)
  activate_static pool obstacles w =
      if ltb (length pool.static_slots) (length obstacles)
      then (err Error.runtime_error, (pool, w))
      else with_static pool (
          then_park pool.parking_distance_m (
            place_all (classes_ascending pool.static_slots) obstacles (deactivate pool.static_slots)
              w))

  abbrev pub keep_first : Slot → Outcome (List String) → Outcome (List String)
  keep_first slot (r, (slots, w)) = (r, (slot ∷ slots, w))

  -- After a pose that could not be set the later slots stay as they are.
  abbrev pub after_pose :
      Slot → List Slot → (G.World → Outcome (List String)) → Bool × G.World → Outcome (List String)
  after_pose slot slots rest (false, w) = (err Error.runtime_error, (slot ∷ slots, w))
  after_pose slot slots rest (true, w) = keep_first slot (rest w)

  unfoldable pub activate_slots :
      Float → ℕ → List Obstacle → List Slot → G.World → Outcome (List String)
  activate_slots distance i os [] w = (ok [], ([], w))
  activate_slots distance i [] (slot ∷ slots) w =
      after_pose (with_active false slot) slots (activate_slots distance (suc i) [] slots)
        (park distance i slot.name w)
  activate_slots distance i (o ∷ os) (slot ∷ slots) w =
      after_pose (with_active true slot) slots
        (λ v. add_name slot.name (activate_slots distance (suc i) os slots v))
        (G.set_pose slot.name o.x o.y M.zero_f w)

  abbrev pub with_dynamic :
      ObstaclePool → Outcome (List String) → Result (List String) × (ObstaclePool × G.World)
  with_dynamic pool (r, (slots, w)) = (r, (record pool { dynamic_slots = slots }, w))

  unfoldable pub activate_dynamic :
      ObstaclePool → List Obstacle → G.World → Result (List String) × (ObstaclePool × G.World)
  activate_dynamic pool specs w =
      if ltb (length pool.dynamic_slots) (length specs)
      then (err Error.runtime_error, (pool, w))
      else with_dynamic pool (
          activate_slots pool.parking_distance_m (length pool.static_slots) specs pool.dynamic_slots
            w)
