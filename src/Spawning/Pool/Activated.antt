-- ===== src/Spawning/Pool/Activated.antt =====
-- What activation leaves in the world.
use mathlib.Core.List.{Memᴰ, Perm, append-nil}
use hunter_kinodynamic_rl.Prelude.{
  if-either, ◌≡◌, refl, sym, ◌∙◌, ap, subst, String, true, List, [], ◌∷◌, ◌++◌, length, ltb,
}
use hunter_kinodynamic_rl.Prelude.Result.{Result, ok, err}
use hunter_kinodynamic_rl.Floats.{Floats}
use hunter_kinodynamic_rl.Spawning.Pool.{Slot, ObstaclePool, Obstacle, Gazebo, Outcome}
use hunter_kinodynamic_rl.Spawning.Pool.Activation.{
  classes_ascending, deactivate, place_all, park_inactive, all_parked, then_park, with_static,
  activate_static,
}
use hunter_kinodynamic_rl.Spawning.Pool.Taken.{
  Distinct, names, fixed, active_names, names_same, fixed-deactivate, active_names-deactivate,
  names_apart,
}
use hunter_kinodynamic_rl.Spawning.Pool.Placed.{
  Posed, AllStand, AllPlaced, AllPlacedIf, kept_standing, place_all-AllPlacedIf,
}
use hunter_kinodynamic_rl.Spawning.Pool.Parked.{Parked, LotIf, park_inactive-LotIf}

module _ ⦃M : Floats⦄ ⦃G : Gazebo⦄ (P : Posed G) where
  -- What a call that returns leaves.
  pub record Activated (pool : ObstaclePool) (os : List Obstacle) (ns : List String)
      (after : ObstaclePool) (w : G.World) : Type 0 where
    pub stand : AllStand P after.static_slots w os ns
    pub used : Perm (active_names after.static_slots) ns
    pub parked : Parked P pool.parking_distance_m 0 after.static_slots w
    pub same : fixed after.static_slots ≡ fixed pool.static_slots
    pub dynamic : after.dynamic_slots ≡ pool.dynamic_slots

  abbrev pub ActivatedIf :
      ObstaclePool → List Obstacle → Result (List String) × (ObstaclePool × G.World) → Type 0
  ActivatedIf pool os (err e, s) = Unit
  ActivatedIf pool os (ok ns, (after, w)) = Activated pool os ns after w

  all_still_stand :
      (slots : List Slot) (v w : G.World) (os : List Obstacle) (ns : List String)
      → ((s : Slot) → Memᴰ s slots → s.active ≡ true → P.pose w s.name ≡ P.pose v s.name)
      → AllStand P slots v os ns
      → AllStand P slots w os ns
  all_still_stand slots v w [] [] k a = tt
  all_still_stand slots v w [] (n ∷ ns) k a = absurd a
  all_still_stand slots v w (o ∷ os) [] k a = absurd a
  all_still_stand slots v w (o ∷ os) (n ∷ ns) k (s, a) = (
    kept_standing P slots v slots w o n (λ t m b. (m, k t m b)) s,
    all_still_stand slots v w os ns k a,
  )

  all_parked-ActivatedIf :
      (pool : ObstaclePool) (os : List Obstacle) (v u : G.World) (ns : List String)
      (others : List Slot) (r : Result (Unit {0}) × G.World)
      → Distinct (names others)
      → AllPlaced P (deactivate pool.static_slots) v os ns others u
      → LotIf P pool.parking_distance_m 0 others u r
      → ActivatedIf pool os (with_static pool (all_parked ns others r))
  all_parked-ActivatedIf pool os v u ns others (err e, w) d a l = tt
  all_parked-ActivatedIf pool os v u ns others (ok _, w) d a l = record {
    stand =
        all_still_stand others u w os ns
          (λ s m b. l.others s.name (λ t n f. names_apart others s t d m n b f)) a.stand;
    used =
        subst (λ k. Perm (active_names others) k)
          (ap (λ k. ns ++ k) (active_names-deactivate pool.static_slots) ∙ append-nil ns) a.more;
    parked = l.parked;
    same = a.same ∙ fixed-deactivate pool.static_slots;
    dynamic = refl;
  }

  then_park-ActivatedIf :
      (pool : ObstaclePool) (os : List Obstacle) (v : G.World) (r : Outcome (List String))
      → Distinct (names pool.static_slots)
      → AllPlacedIf P (deactivate pool.static_slots) v os r
      → ActivatedIf pool os (with_static pool (then_park pool.parking_distance_m r))
  then_park-ActivatedIf pool os v (err e, s) d a = tt
  then_park-ActivatedIf pool os v (ok ns, (others, u)) d a =
      let same = a.same ∙ fixed-deactivate pool.static_slots in
      let apart = subst Distinct (sym (names_same others pool.static_slots same)) d in
      all_parked-ActivatedIf pool os v u ns others
        (park_inactive pool.parking_distance_m 0 others u) apart a
        (park_inactive-LotIf P pool.parking_distance_m 0 others u apart)

  -- For a pool whose static slots have different names: when `activate_static` returns names, one for
  -- each obstacle, then the entity of that name is an active slot whose size class equals the
  -- obstacle's radius within the tolerance, and it stands at the obstacle; no other slot is active;
  -- every slot that is not active is at its own parking position; and the slots keep their names,
  -- sizes and spawned flags.
  pub activate_static-ActivatedIf :
      (pool : ObstaclePool) (os : List Obstacle) (w : G.World)
      → Distinct (names pool.static_slots)
      → ActivatedIf pool os (activate_static pool os w)
  unfolding activate_static
  activate_static-ActivatedIf pool os w d =
      let slots = deactivate pool.static_slots in
      let apart =
        subst Distinct
          (sym (names_same slots pool.static_slots (fixed-deactivate pool.static_slots))) d in
      if-either (ActivatedIf pool os) (ltb (length pool.static_slots) (length os)) (λ _. tt)
        (λ _.
          then_park-ActivatedIf pool os w
            (place_all (classes_ascending pool.static_slots) os slots w) d
            (place_all-AllPlacedIf P (classes_ascending pool.static_slots) os slots w apart))
