-- ===== src/Spawning/Pool/Enough.antt =====
-- Activation returns when the classes have enough slots and the simulator answers.
use mathlib.Core.Bool.{true≢false}
use hunter_kinodynamic_rl.Prelude.{
  All, ℕ, suc, ◌+◌, ◌≤◌, ◌≡◌, refl, sym, subst, String, Bool, true, false, Option, none, some, List,
  [], ◌∷◌, length, ltb, elim-either, arith,
}
use hunter_kinodynamic_rl.Prelude.Result.{Result, Returns, ok, err}
use hunter_kinodynamic_rl.Floats.{Floats, Float}
use hunter_kinodynamic_rl.Spawning.Pool.{Slot, ObstaclePool, Obstacle, Gazebo, Outcome, parking_z}
use hunter_kinodynamic_rl.Spawning.Pool.Activation.{
  take_free, matching_exact_class, classes_ascending, deactivate, teleported, place_in, place,
  add_name, then_place, place_all, park, after_park, park_inactive, all_parked, then_park,
  with_static, activate_static,
}
use hunter_kinodynamic_rl.Spawning.Pool.Counted.{
  weight, Euclidean, free_count, needs, demand, Classed, LeftIf, take_free-LeftIf,
  free_count-deactivate, Roomy, Enough,
}

module _ ⦃M : Floats⦄ ⦃G : Gazebo⦄ where
  -- The simulator sets every pose.
  abbrev pub SetsPoses : Type 0
  SetsPoses = (n : String) (x y z : Float) (w : G.World) → (G.set_pose n x y z w).0 ≡ true

  abbrev PlacedOne : List Float → List Slot → Obstacle → List Obstacle → Outcome String → Type 0
  PlacedOne classes slots o os (err e, s) = ⊥
  PlacedOne classes slots o os (ok n, (taken, w)) = Enough classes taken os

  teleported-PlacedOne :
      (classes : List Float) (slots : List Slot) (o : Obstacle) (os : List Obstacle) (n : String)
      (taken : List Slot) (a : Bool × G.World)
      → a.0 ≡ true
      → Enough classes taken os
      → PlacedOne classes slots o os (teleported n taken a)
  teleported-PlacedOne classes slots o os n taken (true, w) t e = e
  teleported-PlacedOne classes slots o os n taken (false, w) t e = absurd (true≢false (sym t))

  place_in-PlacedOne :
      (classes : List Float) (slots : List Slot) (o : Obstacle) (os : List Obstacle) (w : G.World)
      (needed : Float) (r : Option (String × List Slot))
      → SetsPoses
      → M.eq needed needed ≡ true
      → ((c : Float) → weight (M.eq needed c) + demand classes c os ≤ free_count c slots)
      → LeftIf needed slots r
      → PlacedOne classes slots o os (place_in o slots w r)
  place_in-PlacedOne classes slots o os w needed none S e h l =
      let k : weight (M.eq needed needed) ≡ 1 = rw e refl in absurd (omega (arith, h needed, k, l))
  place_in-PlacedOne classes slots o os w needed (some (n, taken)) S e h l =
      teleported-PlacedOne classes slots o os n taken (G.set_pose n o.x o.y M.zero_f w)
        (S n o.x o.y M.zero_f w) (λ c. omega (arith, h c, l c))

  place-PlacedOne :
      (classes : List Float) (slots : List Slot) (o : Obstacle) (os : List Obstacle) (w : G.World)
      → SetsPoses
      → Euclidean
      → Classed classes o
      → Enough classes slots (o ∷ os)
      → PlacedOne classes slots o os (place o slots w (matching_exact_class o.radius classes))
  place-PlacedOne classes slots o os w S E (needed, e, same) h =
      subst (λ r. PlacedOne classes slots o os (place o slots w r)) (sym e)
        (place_in-PlacedOne classes slots o os w needed (take_free needed slots) S same
          (λ c. subst (λ r. weight (needs c r) + demand classes c os ≤ free_count c slots) e (h c))
          (take_free-LeftIf needed slots E))

  add_name-Returns :
      (n : String) (r : Outcome (List String)) → Returns r.0 → Returns (add_name n r).0
  add_name-Returns n (ok names, s) h = tt
  add_name-Returns n (err e, s) h = absurd h

  then_place-Returns :
      (classes : List Float) (slots : List Slot) (o : Obstacle) (os : List Obstacle)
      (rest : List Slot → G.World → Outcome (List String)) (r : Outcome String)
      → PlacedOne classes slots o os r
      → ((taken : List Slot) (w : G.World) → Enough classes taken os → Returns (rest taken w).0)
      → Returns (then_place rest r).0
  then_place-Returns classes slots o os rest (err e, s) p h = absurd p
  then_place-Returns classes slots o os rest (ok n, (taken, w)) p h =
      add_name-Returns n (rest taken w) (h taken w p)

  place_all-Returns :
      (classes : List Float) (os : List Obstacle) (slots : List Slot) (w : G.World)
      → SetsPoses
      → Euclidean
      → All (Classed classes) os
      → Enough classes slots os
      → Returns (place_all classes os slots w).0
  unfolding place_all
  place_all-Returns classes [] slots w S E c h = tt
  place_all-Returns classes (o ∷ os) slots w S E (c, cs) h =
      then_place-Returns classes slots o os (place_all classes os)
        (place o slots w (matching_exact_class o.radius classes))
        (place-PlacedOne classes slots o os w S E c h)
        (λ taken v k. place_all-Returns classes os taken v S E cs k)

  after_park-Returns :
      (rest : G.World → Result (Unit {0}) × G.World) (a : Bool × G.World)
      → a.0 ≡ true
      → ((w : G.World) → Returns (rest w).0)
      → Returns (after_park rest a).0
  after_park-Returns rest (true, w) t h = h w
  after_park-Returns rest (false, w) t h = absurd (true≢false (sym t))

  park_inactive-Returns :
      (distance : Float) (i : ℕ) (slots : List Slot) (w : G.World)
      → SetsPoses
      → Returns (park_inactive distance i slots w).0
  unfolding park_inactive
  park_inactive-Returns distance i [] w S = tt
  park_inactive-Returns distance i (slot ∷ slots) w S =
      let rest = park_inactive distance (suc i) slots in
      elim-either {A = Result (Unit {0}) × G.World} (λ r. Returns r.0) slot.active
        (λ _. park_inactive-Returns distance (suc i) slots w S)
        (λ _.
          after_park-Returns rest (park distance i slot.name w) (S slot.name _ _ parking_z w)
            (λ v. park_inactive-Returns distance (suc i) slots v S))

  all_parked-Returns :
      (pool : ObstaclePool) (names : List String) (slots : List Slot)
      (r : Result (Unit {0}) × G.World)
      → Returns r.0
      → Returns (with_static pool (all_parked names slots r)).0
  all_parked-Returns pool names slots (ok u, w) h = tt
  all_parked-Returns pool names slots (err e, w) h = absurd h

  then_park-Returns :
      (pool : ObstaclePool) (distance : Float) (r : Outcome (List String))
      → SetsPoses
      → Returns r.0
      → Returns (with_static pool (then_park distance r)).0
  then_park-Returns pool distance (err e, s) S h = absurd h
  then_park-Returns pool distance (ok names, (slots, w)) S h =
      all_parked-Returns pool names slots (park_inactive distance 0 slots w)
        (park_inactive-Returns distance 0 slots w S)

  -- If two floats that equal a third equal each other, there are no more obstacles than static slots,
  -- every obstacle's radius equals a size class within the tolerance, every class has at least as many
  -- slots as obstacles that need it, and the simulator sets every pose, then `activate_static`
  -- returns, whichever slots were active before.
  pub activate_static-Returns :
      (pool : ObstaclePool) (os : List Obstacle) (w : G.World)
      → Euclidean
      → SetsPoses
      → length os ≤ length pool.static_slots
      → All (Classed (classes_ascending pool.static_slots)) os
      → Roomy (classes_ascending pool.static_slots) pool.static_slots os
      → Returns (activate_static pool os w).0
  unfolding activate_static
  activate_static-Returns pool os w E S l c h =
      let f : ltb (length pool.static_slots) (length os) ≡ false = ground arith in
      let enough : Enough (classes_ascending pool.static_slots) (deactivate pool.static_slots) os =
        λ k. omega (arith, h k, free_count-deactivate k pool.static_slots) in
      rw f (
        then_park-Returns pool pool.parking_distance_m
          (place_all (classes_ascending pool.static_slots) os (deactivate pool.static_slots) w) S
          (place_all-Returns (classes_ascending pool.static_slots) os (deactivate pool.static_slots)
            w S E c enough))
