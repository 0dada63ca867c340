-- ===== src/Spawning/Pool/Spawned.antt =====
-- A slot that is marked as spawned stands in the world, whatever calls have failed.
use hunter_kinodynamic_rl.Prelude.{
  ℕ, suc, ◌≡◌, refl, inl, inr, String, Bool, true, false, ◌&&◌, List, [], ◌∷◌, length, Bool-cases,
  if-either,
}
use hunter_kinodynamic_rl.Prelude.Result.{Result, Returns, ok, err, Error}
use hunter_kinodynamic_rl.Floats.{Floats, Float}
use hunter_kinodynamic_rl.Spawning.Pool.{
  Slot, ObstaclePool, Gazebo, probe, after_spawn, ensure_slot_spawned, keep_slot, go_on,
  ensure_slots, all_spawned, after_dynamic, after_static, ensure_spawned, parking_position,
  parking_z, Outcome,
}

-- What the simulator documents: an entity that it has spawned is there, a pose can be set only for
-- an entity that is there, and neither service removes an entity.
pub record Documented ⦃M : Floats⦄ (G : Gazebo) : Type 1 where
  pub Exists : G.World → String → Type 0
  pub spawn-Exists :
      (n : String) (r x y z : Float) (w : G.World)
      → (G.spawn n r x y z w).0 ≡ true
      → Exists (G.spawn n r x y z w).1 n
  pub spawn_keeps :
      (n : String) (r x y z : Float) (w : G.World) (m : String)
      → Exists w m
      → Exists (G.spawn n r x y z w).1 m
  pub set_pose-Exists :
      (n : String) (x y z : Float) (w : G.World)
      → (G.set_pose n x y z w).0 ≡ true
      → Exists (G.set_pose n x y z w).1 n
  pub set_pose_keeps :
      (n : String) (x y z : Float) (w : G.World) (m : String)
      → Exists w m
      → Exists (G.set_pose n x y z w).1 m

module _ ⦃M : Floats⦄ ⦃G : Gazebo⦄ (D : Documented G) where
  abbrev pub AllThere : G.World → List Slot → Type 0
  AllThere w [] = Unit
  AllThere w (slot ∷ slots) = (slot.spawned ≡ true → D.Exists w slot.name) × AllThere w slots

  -- Nothing of the world is gone.
  abbrev Grown : G.World → G.World → Type 0
  Grown v w = (n : String) → D.Exists v n → D.Exists w n

  AllThere-Grown :
      (v w : G.World) (slots : List Slot) → Grown v w → AllThere v slots → AllThere w slots
  AllThere-Grown v w [] g a = tt
  AllThere-Grown v w (slot ∷ slots) g (h, a) =
      (λ s. g slot.name (h s), AllThere-Grown v w slots g a)

  -- What one slot's call leaves: it returns only if the slot stands in the world.
  record Attempt (w : G.World) (slot : Slot) (r : Result (Unit {0}) × (Slot × G.World))
      : Type 0 where
    grown : Grown w r.1.1
    named : r.1.0.name ≡ slot.name
    marked : r.1.0.spawned ≡ true → D.Exists r.1.1 r.1.0.name
    returned : Returns r.0 → r.1.0.spawned ≡ true

  probe-Attempt :
      (w : G.World) (slot : Slot) (a : Bool × G.World)
      → slot.spawned ≡ false
      → Grown w a.1
      → (a.0 ≡ true → D.Exists a.1 slot.name)
      → Attempt w slot (probe slot a)
  probe-Attempt w slot (true, v) s g h = record {
    grown = g;
    named = refl;
    marked = λ _. h refl;
    returned = λ _. refl;
  }
  probe-Attempt w slot (false, v) s g h = record {
    grown = g;
    named = refl;
    marked = λ t. cc;
    returned = λ r. absurd r;
  }

  after_spawn-Attempt :
      (w : G.World) (slot : Slot) (x y : Float) (a : Bool × G.World)
      → slot.spawned ≡ false
      → Grown w a.1
      → (a.0 ≡ true → D.Exists a.1 slot.name)
      → Attempt w slot (after_spawn slot x y a)
  after_spawn-Attempt w slot x y (true, v) s g h = record {
    grown = g;
    named = refl;
    marked = λ _. h refl;
    returned = λ _. refl;
  }
  after_spawn-Attempt w slot x y (false, v) s g h =
      probe-Attempt w slot (G.set_pose slot.name x y parking_z v) s
        (λ n e. D.set_pose_keeps slot.name x y parking_z v n (g n e))
        (D.set_pose-Exists slot.name x y parking_z v)

  ensure_slot-Attempt :
      (w : G.World) (slot : Slot) (x y : Float)
      → slot.spawned ≡ false
      → Attempt w slot (ensure_slot_spawned slot x y w)
  unfolding ensure_slot_spawned
  ensure_slot-Attempt w slot x y s =
      after_spawn-Attempt w slot x y (G.spawn slot.name slot.size x y parking_z w) s
        (D.spawn_keeps slot.name slot.size x y parking_z w)
        (D.spawn-Exists slot.name slot.size x y parking_z w)

  -- What a loop leaves.
  record Loop (w : G.World) (r : Outcome (Unit {0})) : Type 0 where
    grown : Grown w r.1.1
    there : AllThere r.1.1 r.1.0
    returned : Returns r.0 → all_spawned r.1.0 ≡ true

  keep_slot-Loop :
      (w v : G.World) (slot : Slot) (r : Outcome (Unit {0}))
      → Grown w v
      → slot.spawned ≡ true
      → D.Exists v slot.name
      → Loop v r
      → Loop w (keep_slot slot r)
  keep_slot-Loop w v slot (r, (slots, u)) g s e l = record {
    grown = λ n x. l.grown n (g n x);
    there = (λ _. l.grown slot.name e, l.there);
    returned = λ o. rw (s, l.returned o) refl;
  }

  stop-Loop :
      (w : G.World) (slot : Slot) (slots : List Slot) (e : Error) (s : Slot) (v : G.World)
      → AllThere w slots
      → Attempt w slot (err e, (s, v))
      → Loop w (err e, (s ∷ slots, v))
  stop-Loop w slot slots e s v a t = record {
    grown = t.grown;
    there = (t.marked, AllThere-Grown w v slots t.grown a);
    returned = λ o. absurd o;
  }

  go_on-Loop :
      (w : G.World) (slot : Slot) (slots : List Slot) (rest : G.World → Outcome (Unit {0}))
      (r : Result (Unit {0}) × (Slot × G.World))
      → AllThere w slots
      → Attempt w slot r
      → ((v : G.World) → AllThere v slots → Loop v (rest v))
      → Loop w (go_on slots rest r)
  go_on-Loop w slot slots rest (err e, (s, v)) a t h = stop-Loop w slot slots e s v a t
  go_on-Loop w slot slots rest (ok u, (s, v)) a t h =
      keep_slot-Loop w v s (rest v) t.grown (t.returned tt) (t.marked (t.returned tt))
        (h v (AllThere-Grown w v slots t.grown a))

  ensure_slots-Loop :
      (distance : Float) (i : ℕ) (slots : List Slot) (w : G.World)
      → AllThere w slots
      → Loop w (ensure_slots distance i slots w)
  unfolding ensure_slots
  ensure_slots-Loop distance i [] w a = record {
    grown = λ n e. e;
    there = tt;
    returned = λ _. refl;
  }
  ensure_slots-Loop distance i (slot ∷ slots) w (h, a) = elim (Bool-cases slot.spawned) [
    | inl t ↦ rw t (
        keep_slot-Loop w w slot (ensure_slots distance (suc i) slots w) (λ n e. e) t (h t)
          (ensure_slots-Loop distance (suc i) slots w a))
    | inr f ↦ rw f (
        go_on-Loop w slot slots (ensure_slots distance (suc i) slots)
          (ensure_slot_spawned slot (parking_position distance i).0 (parking_position distance i).1
            w)
          a (ensure_slot-Attempt w slot _ _ f) (ensure_slots-Loop distance (suc i) slots))
  ]

  -- The pool's flags are true of the world.
  pub record Honest (w : G.World) (pool : ObstaclePool) : Type 0 where
    pub static_there : AllThere w pool.static_slots
    pub dynamic_there : AllThere w pool.dynamic_slots
    pub all_if_ready :
        pool.ready ≡ true → (all_spawned pool.static_slots && all_spawned pool.dynamic_slots) ≡ true

  -- What a call leaves.
  pub record Ensured (w : G.World) (r : Result (Unit {0}) × (ObstaclePool × G.World)) : Type 0 where
    pub kept : Grown w r.1.1
    pub honest : Honest r.1.1 r.1.0
    pub ready : Returns r.0 → r.1.0.ready ≡ true

  after_dynamic-Ensured :
      (w v : G.World) (pool : ObstaclePool) (r : Outcome (Unit {0}))
      → Grown w v
      → AllThere v pool.static_slots
      → all_spawned pool.static_slots ≡ true
      → pool.ready ≡ false
      → Loop v r
      → Ensured w (after_dynamic pool r)
  after_dynamic-Ensured w v pool (err e, (slots, u)) g s a f l = record {
    kept = λ n x. l.grown n (g n x);
    honest = record {
      static_there = AllThere-Grown v u pool.static_slots l.grown s;
      dynamic_there = l.there;
      all_if_ready = λ t. cc;
    };
    ready = λ o. absurd o;
  }
  after_dynamic-Ensured w v pool (ok _, (slots, u)) g s a f l = record {
    kept = λ n x. l.grown n (g n x);
    honest = record {
      static_there = AllThere-Grown v u pool.static_slots l.grown s;
      dynamic_there = l.there;
      all_if_ready = λ t. t;
    };
    ready = λ _. rw (a, l.returned tt) refl;
  }

  after_static-Ensured :
      (w : G.World) (pool : ObstaclePool) (r : Outcome (Unit {0}))
      → pool.ready ≡ false
      → AllThere w pool.dynamic_slots
      → Loop w r
      → Ensured w (after_static pool r)
  after_static-Ensured w pool (err e, (slots, v)) f d l = record {
    kept = l.grown;
    honest = record {
      static_there = l.there;
      dynamic_there = AllThere-Grown w v pool.dynamic_slots l.grown d;
      all_if_ready = λ t. cc;
    };
    ready = λ o. absurd o;
  }
  after_static-Ensured w pool (ok _, (slots, v)) f d l =
      after_dynamic-Ensured w v (record pool { static_slots = slots }) _ l.grown l.there
        (l.returned tt) f
        (ensure_slots-Loop pool.parking_distance_m (length slots) pool.dynamic_slots v
          (AllThere-Grown w v pool.dynamic_slots l.grown d))

  -- If every slot that is marked as spawned stands in the simulated world, and a pool that is ready
  -- has all of its slots marked, then after a call of `ensure_spawned` this still holds, whether the
  -- call returns or raises, and no entity is gone; when the call returns the pool is ready, so that
  -- every one of its slots stands in the world. The simulator may fail any call, and may have created
  -- the entity of a spawn that it reports as failed.
  pub ensure_spawned-Ensured :
      (pool : ObstaclePool) (w : G.World) → Honest w pool → Ensured w (ensure_spawned pool w)
  unfolding ensure_spawned
  ensure_spawned-Ensured pool w h =
      if-either (Ensured w) pool.ready (λ t. record { kept = λ n e. e; honest = h; ready = λ _. t })
        (λ f.
          after_static-Ensured w pool (ensure_slots pool.parking_distance_m 0 pool.static_slots w) f
            h.dynamic_there
            (ensure_slots-Loop pool.parking_distance_m 0 pool.static_slots w h.static_there))
