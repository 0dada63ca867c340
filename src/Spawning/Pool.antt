-- ===== src/Spawning/Pool.antt =====
-- The pool of markers, env/spawning/obstacle_pool.py. The simulator is a parameter: a world, and what
-- its two services do with it and answer.
pub mod Spawned
pub mod Finished
pub mod Activation
pub mod Taken
pub mod Placed
pub mod Parked
pub mod Activated
pub mod Counted
pub mod Enough
use Prim.Native.String.{◌++◌ as ◌<>◌}
use hunter_kinodynamic_rl.Prelude.{
  ℕ, zero, suc, ◌+◌, ◌/◌, ◌%◌, ltb, String, Bool, true, false, not, ◌&&◌, Option, none, some, List,
  [], ◌∷◌, length, get_elem?, if◌then◌else◌,
}
use hunter_kinodynamic_rl.Prelude.Names.{decimal}
use hunter_kinodynamic_rl.Prelude.Result.{Result, ok, err, Error, ◌>>=◌}
use hunter_kinodynamic_rl.Floats.{Floats, Float}

module _ ⦃M : Floats⦄ where
  -- A static slot with its size class, or a dynamic one with the radius of all dynamic obstacles.
  pub record Slot : Type 0 where
    pub name : String
    pub size : Float
    pub active : Bool
    pub spawned : Bool

  pub record ObstaclePool : Type 0 where
    pub parking_distance_m : Float
    pub static_slots : List Slot
    pub dynamic_slots : List Slot
    pub ready : Bool

  pub record ObstaclePoolConfig : Type 0 where
    pub static_size_classes_m : List Float
    pub max_static : ℕ
    pub max_dynamic : ℕ
    pub parking_margin_m : Float

  pub record Obstacle : Type 0 where
    pub x : Float
    pub y : Float
    pub radius : Float

  abbrev pub dynamic_radius : Float
  dynamic_radius = M.div (M.of_ℕ 3) (M.of_ℕ 10)

  abbrev pub fresh_slot : String → Float → Slot
  fresh_slot name size = record { name = name; size = size; active = false; spawned = false }

  abbrev pub one_of : Option Float → Result Float
  one_of none = err Error.index_error
  one_of (some c) = ok c

  -- `classes[i % len(classes)]`
  abbrev pub class_at : List Float → ℕ → Result Float
  class_at [] i = err Error.zero_division
  class_at (c ∷ cs) i = one_of (get_elem? (c ∷ cs) (i % length (c ∷ cs)))

  unfoldable pub build_static : List Float → ℕ → ℕ → Result (List Slot)
  build_static classes zero i = ok []
  build_static classes (suc n) i = do
    size ← class_at classes i
    slots ← build_static classes n (suc i)
    ok (fresh_slot ("hkrl_pool_static_" <> decimal i) size ∷ slots)

  unfoldable pub build_dynamic : ℕ → ℕ → List Slot
  build_dynamic zero i = []
  build_dynamic (suc n) i =
      fresh_slot ("hkrl_pool_dynamic_" <> decimal i) dynamic_radius ∷ build_dynamic n (suc i)

  unfoldable pub build_pool : ObstaclePoolConfig → Float → Float → Result ObstaclePool
  build_pool cfg world_size_m lidar_max_range_m = do
    static_slots ← build_static cfg.static_size_classes_m cfg.max_static 0
    ok (record {
      parking_distance_m =
          M.add (M.add (M.div world_size_m (M.of_ℕ 2)) lidar_max_range_m) cfg.parking_margin_m;
      static_slots = static_slots;
      dynamic_slots = build_dynamic cfg.max_dynamic 0;
      ready = false;
    })

  abbrev pub parking_position : Float → ℕ → Float × Float
  parking_position distance slot_index = (
    M.add distance (M.mul (M.of_ℕ (slot_index % 20)) (M.of_ℕ 2)),
    M.sub (M.sub M.zero_f distance) (M.mul (M.of_ℕ (slot_index / 20)) (M.of_ℕ 2)),
  )

  abbrev pub parking_z : Float
  parking_z = M.sub M.zero_f (M.of_ℕ 50)

  -- Each service answers whether the call succeeded; a call that fails may have changed the world.
  pub record Gazebo : Type 1 where
    pub World : Type 0
    -- name, radius, x, y, z
    pub spawn : String → Float → Float → Float → Float → World → Bool × World
    -- name, x, y, z
    pub set_pose : String → Float → Float → Float → World → Bool × World

module _ ⦃M : Floats⦄ ⦃G : Gazebo⦄ where
  abbrev pub Outcome : Type 0 → Type 0
  Outcome A = Result A × (List Slot × G.World)

  abbrev pub confirm : Slot → Slot
  confirm slot = record slot { spawned = true }

  -- The probe after a spawn that failed: a pose that can be set proves that the entity is there.
  abbrev pub probe : Slot → Bool × G.World → Result (Unit {0}) × (Slot × G.World)
  probe slot (true, w) = (ok tt, (confirm slot, w))
  probe slot (false, w) = (err Error.runtime_error, (slot, w))

  abbrev pub after_spawn :
      Slot → Float → Float → Bool × G.World → Result (Unit {0}) × (Slot × G.World)
  after_spawn slot x y (true, w) = (ok tt, (confirm slot, w))
  after_spawn slot x y (false, w) = probe slot (G.set_pose slot.name x y parking_z w)

  unfoldable pub ensure_slot_spawned :
      Slot → Float → Float → G.World → Result (Unit {0}) × (Slot × G.World)
  ensure_slot_spawned slot x y w =
      after_spawn slot x y (G.spawn slot.name slot.size x y parking_z w)

  abbrev pub keep_slot : Slot → Outcome (Unit {0}) → Outcome (Unit {0})
  keep_slot slot (r, (slots, w)) = (r, (slot ∷ slots, w))

  -- After an exception the other slots stay as they are.
  abbrev pub go_on :
      List Slot
      → (G.World → Outcome (Unit {0}))
      → Result (Unit {0}) × (Slot × G.World)
      → Outcome (Unit {0})
  go_on slots rest (err e, (slot, w)) = (err e, (slot ∷ slots, w))
  go_on slots rest (ok u, (slot, w)) = keep_slot slot (rest w)

  -- One loop of `ensure_spawned`, from the slot of the given index on.
  unfoldable pub ensure_slots : Float → ℕ → List Slot → G.World → Outcome (Unit {0})
  ensure_slots distance i [] w = (ok tt, ([], w))
  ensure_slots distance i (slot ∷ slots) w =
      let rest = λ (v : G.World). ensure_slots distance (suc i) slots v in
      let (x, y) = parking_position distance i in
      elim slot.spawned [
        | true ↦ keep_slot slot (rest w)
        | false ↦ go_on slots rest (ensure_slot_spawned slot x y w)
      ]

  abbrev pub all_spawned : List Slot → Bool
  all_spawned [] = true
  all_spawned (slot ∷ slots) = slot.spawned && all_spawned slots

  abbrev pub after_dynamic :
      ObstaclePool → Outcome (Unit {0}) → Result (Unit {0}) × (ObstaclePool × G.World)
  after_dynamic pool (err e, (slots, w)) = (err e, (record pool { dynamic_slots = slots }, w))
  after_dynamic pool (ok u, (slots, w)) = (
    ok tt,
    (
      record pool {
        dynamic_slots = slots;
        ready = all_spawned pool.static_slots && all_spawned slots;
      },
      w,
    ),
  )

  abbrev pub after_static :
      ObstaclePool → Outcome (Unit {0}) → Result (Unit {0}) × (ObstaclePool × G.World)
  after_static pool (err e, (slots, w)) = (err e, (record pool { static_slots = slots }, w))
  after_static pool (ok u, (slots, w)) =
      after_dynamic (record pool { static_slots = slots })
        (ensure_slots pool.parking_distance_m (length slots) pool.dynamic_slots w)

  unfoldable pub ensure_spawned :
      ObstaclePool → G.World → Result (Unit {0}) × (ObstaclePool × G.World)
  ensure_spawned pool w =
      if pool.ready
      then (ok tt, (pool, w))
      else after_static pool (ensure_slots pool.parking_distance_m 0 pool.static_slots w)
