-- ===== src/Spawning/Pool/Finished.antt =====
-- One call of `ensure_spawned` is enough once the simulator answers.
use hunter_kinodynamic_rl.Prelude.{
  if-either, elim-either, ℕ, suc, ◌≡◌, ◌⊎◌, inl, inr, String, Bool, true, false, List, [], ◌∷◌,
  length,
}
use hunter_kinodynamic_rl.Prelude.Result.{Result, Returns, ok, err}
use hunter_kinodynamic_rl.Floats.{Floats, Float}
use hunter_kinodynamic_rl.Spawning.Pool.{
  Slot, ObstaclePool, Gazebo, Outcome, after_spawn, probe, ensure_slot_spawned, keep_slot, go_on,
  ensure_slots, after_dynamic, after_static, ensure_spawned, parking_position, parking_z,
}
use hunter_kinodynamic_rl.Spawning.Pool.Spawned.{Documented, Honest, ensure_spawned-Ensured}

module _ ⦃M : Floats⦄ ⦃G : Gazebo⦄ where
  -- A spawn is answered with success, or the entity is there already and its pose can be set.
  abbrev pub Answering : Type 0
  Answering =
      (n : String) (r x y z : Float) (w : G.World)
      → ((G.spawn n r x y z w).0 ≡ true) ⊎ ((G.set_pose n x y z (G.spawn n r x y z w).1).0 ≡ true)

  probe-Returns : (slot : Slot) (a : Bool × G.World) → a.0 ≡ true → Returns (probe slot a).0
  probe-Returns slot (true, w) t = tt
  probe-Returns slot (false, w) t = cc

  after_spawn-Returns :
      (slot : Slot) (x y : Float) (a : Bool × G.World)
      → (a.0 ≡ true) ⊎ ((G.set_pose slot.name x y parking_z a.1).0 ≡ true)
      → Returns (after_spawn slot x y a).0
  after_spawn-Returns slot x y (true, w) t = tt
  after_spawn-Returns slot x y (false, w) (inl t) = cc
  after_spawn-Returns slot x y (false, w) (inr t) = probe-Returns slot _ t

  keep_slot-Returns :
      (slot : Slot) (r : Outcome (Unit {0})) → Returns r.0 → Returns (keep_slot slot r).0
  keep_slot-Returns slot (r, (slots, w)) h = h

  go_on-Returns :
      (slots : List Slot) (rest : G.World → Outcome (Unit {0}))
      (r : Result (Unit {0}) × (Slot × G.World))
      → Returns r.0
      → ((w : G.World) → Returns (rest w).0)
      → Returns (go_on slots rest r).0
  go_on-Returns slots rest (err e, (slot, w)) a h = absurd a
  go_on-Returns slots rest (ok u, (slot, w)) a h = keep_slot-Returns slot (rest w) (h w)

  ensure_slots-Returns :
      Answering
      → (distance : Float) (i : ℕ) (slots : List Slot) (w : G.World)
      → Returns (ensure_slots distance i slots w).0
  unfolding ensure_slots ensure_slot_spawned
  ensure_slots-Returns h distance i [] w = tt
  ensure_slots-Returns h distance i (slot ∷ slots) w =
      elim-either {A = Outcome (Unit {0})} (λ r. Returns r.0) slot.spawned
        (λ _.
          keep_slot-Returns slot (ensure_slots distance (suc i) slots w)
            (ensure_slots-Returns h distance (suc i) slots w))
        (λ _.
          go_on-Returns slots (ensure_slots distance (suc i) slots)
            (ensure_slot_spawned slot (parking_position distance i).0
              (parking_position distance i).1 w)
            (after_spawn-Returns slot _ _ _ (h slot.name slot.size _ _ parking_z w))
            (ensure_slots-Returns h distance (suc i) slots))

  after_dynamic-Returns :
      (pool : ObstaclePool) (r : Outcome (Unit {0}))
      → Returns r.0
      → Returns (after_dynamic pool r).0
  after_dynamic-Returns pool (err e, (slots, w)) h = absurd h
  after_dynamic-Returns pool (ok u, (slots, w)) h = tt

  after_static-Returns :
      (pool : ObstaclePool) (r : Outcome (Unit {0}))
      → Answering
      → Returns r.0
      → Returns (after_static pool r).0
  after_static-Returns pool (err e, (slots, w)) a h = absurd h
  after_static-Returns pool (ok u, (slots, w)) a h =
      after_dynamic-Returns (record pool { static_slots = slots }) _
        (ensure_slots-Returns a pool.parking_distance_m (length slots) pool.dynamic_slots w)

  -- If the simulator answers each spawn with success, or else lets the pose of the entity be set
  -- after it, then one call of `ensure_spawned` on any pool whose flags are true of the world, however
  -- many slots earlier calls have left unspawned, returns, and leaves the pool ready.
  pub ensure_spawned-Returns :
      (D : Documented G) (pool : ObstaclePool) (w : G.World)
      → Honest D w pool
      → Answering
      → Returns (ensure_spawned pool w).0 × ((ensure_spawned pool w).1.0.ready ≡ true)
  unfolding ensure_spawned
  ensure_spawned-Returns D pool w h a =
      let r : Returns (ensure_spawned pool w).0 =
        if-either {A = Result (Unit {0}) × (ObstaclePool × G.World)} (λ r. Returns r.0) pool.ready
          (λ _. tt)
          (λ _. after_static-Returns pool _ a (ensure_slots-Returns a _ _ pool.static_slots w)) in
      (r, (ensure_spawned-Ensured D pool w h).ready r)
