-- ===== src/Tests/Spawning.antt =====
-- A pool of three markers in a simulator that loses its answers to spawns.
use mathlib.Core.Bool.{true≢false}
use mathlib.Core.List.{Memᴰ}
use hunter_kinodynamic_rl.Prelude.{
  ◌+◌, ◌≤◌, length, arith, ◌≡◌, refl, ◌∙◌, ◌≢◌, sym, ap, subst, inl, inr, String, Bool, true, false,
  some, List, [], ◌∷◌, if◌then◌else◌,
}
use hunter_kinodynamic_rl.Prelude.Int.{ℤ, pos, eq_ℤ, eq_ℤ→eq, eq_ℤ_refl}
use hunter_kinodynamic_rl.Prelude.Dict.{
  lookup, Dict, is_some, insert, string_key, key_eq_or_ne, lookup-insert_self, lookup-insert_ne,
  has,
}
use hunter_kinodynamic_rl.Prelude.Names.{digits}
use hunter_kinodynamic_rl.Prelude.Result.{Result, ok, Returns, err, Error}
use hunter_kinodynamic_rl.Floats.{Floats, Float}
use hunter_kinodynamic_rl.Tests.Numbers.{numbers}
use hunter_kinodynamic_rl.Spawning.Pool.{
  Obstacle, Gazebo, ObstaclePool, ObstaclePoolConfig, build_pool, build_static, build_dynamic,
  ensure_spawned, ensure_slots, ensure_slot_spawned,
}
use hunter_kinodynamic_rl.Spawning.Pool.Spawned.{
  Documented, Honest, Ensured, ensure_spawned-Ensured,
}
use hunter_kinodynamic_rl.Spawning.Pool.Activation.{
  activate_static, place_all, park_inactive, take_free, classes_ascending, insert_class,
  matching_exact_class,
}
use hunter_kinodynamic_rl.Spawning.Pool.Taken.{Distinct, names}
use hunter_kinodynamic_rl.Spawning.Pool.Placed.{Posed}
use hunter_kinodynamic_rl.Spawning.Pool.Activated.{ActivatedIf, activate_static-ActivatedIf}
use hunter_kinodynamic_rl.Spawning.Pool.Counted.{weight, Roomy, Classed}
use hunter_kinodynamic_rl.Spawning.Pool.Enough.{activate_static-Returns}
use hunter_kinodynamic_rl.Spawning.Pool.Finished.{ensure_spawned-Returns}

instance abbrev sample_numbers : Floats
sample_numbers = numbers

abbrev Poses : Type 0
Poses = Dict String (Float × (Float × Float))

abbrev put_pose : Bool → String → Float → Float → Float → Poses → Bool × Poses
put_pose true n x y z w = (true, insert w n (x, (y, z)))
put_pose false n x y z w = (false, w)

-- Every spawn is reported as failed; the entity is created all the same unless its name is refused.
abbrev lossy : (String → Bool) → Gazebo
lossy refused = record {
  World = Poses;
  spawn = λ n r x y z w. (false, if refused n then w else insert w n (x, (y, z)));
  set_pose = λ n x y z w. put_pose (has w n) n x y z w;
}

insert_keeps :
    (w : Poses) (n : String) (p : Float × (Float × Float)) (m : String)
    → has w m ≡ true
    → has (insert w n p) m ≡ true
insert_keeps w n p m h = elim (key_eq_or_ne n m) [
  | inl e ↦
      subst (λ k. has (insert w n p) k ≡ true) e (ap (λ o. is_some o) (lookup-insert_self w n p))
  | inr e ↦ ap (λ o. is_some o) (lookup-insert_ne w n m p e) ∙ h
]

spawn_keeps :
    (refused : Bool) (w : Poses) (n : String) (p : Float × (Float × Float)) (m : String)
    → has w m ≡ true
    → has (if refused then w else insert w n p) m ≡ true
spawn_keeps true w n p m h = h
spawn_keeps false w n p m h = insert_keeps w n p m h

put_pose-has :
    (b : Bool) (n : String) (x y z : Float) (w : Poses)
    → (put_pose b n x y z w).0 ≡ true
    → has (put_pose b n x y z w).1 n ≡ true
put_pose-has true n x y z w h = ap (λ o. is_some o) (lookup-insert_self w n (x, (y, z)))
put_pose-has false n x y z w h = cc

put_pose_keeps :
    (b : Bool) (n : String) (x y z : Float) (w : Poses) (m : String)
    → has w m ≡ true
    → has (put_pose b n x y z w).1 m ≡ true
put_pose_keeps true n x y z w m h = insert_keeps w n (x, (y, z)) m h
put_pose_keeps false n x y z w m h = h

lossy-Documented : (refused : String → Bool) → Documented (lossy refused)
lossy-Documented refused = record {
  Exists = λ w n. has w n ≡ true;
  spawn-Exists = λ n r x y z w h. cc;
  spawn_keeps = λ n r x y z w m h. spawn_keeps (refused n) w n (x, (y, z)) m h;
  set_pose-Exists = λ n x y z w h. put_pose-has (has w n) n x y z w h;
  set_pose_keeps = λ n x y z w m h. put_pose_keeps (has w n) n x y z w m h;
}

abbrev sizes_of : List Float → ObstaclePoolConfig
sizes_of classes = record {
  static_size_classes_m = classes;
  max_static = 2;
  max_dynamic = 1;
  parking_margin_m = pos 5;
}

abbrev built : Result ObstaclePool → ObstaclePool
built (ok pool) = pool
built (err e) = record {
  parking_distance_m = pos 0;
  static_slots = [];
  dynamic_slots = [];
  ready = false;
}

abbrev sample_pool : ObstaclePool
sample_pool = built (build_pool (sizes_of (pos 2 ∷ pos 5 ∷ [])) (pos 20) (pos 10))

no_classes : build_pool (sizes_of []) (pos 20) (pos 10) ≡ err Error.zero_division
unfolding build_pool build_static
no_classes = refl

abbrev second : String → Bool
second n = string_key.same n "hkrl_pool_static_1"

-- A call that raises at the second slot leaves the first one marked and the rest unmarked.
stops_at_the_second :
    let r = ensure_spawned ⦃G = lossy second⦄ sample_pool [] in
    (r.0 ≡ err Error.runtime_error) × (has r.1.1 "hkrl_pool_static_0" ≡ true)
unfolding ensure_spawned ensure_slots ensure_slot_spawned build_pool build_static build_dynamic
    digits
stops_at_the_second = (refl, refl)

sample-Honest :
    (refused : String → Bool) → Honest ⦃G = lossy refused⦄ (lossy-Documented refused) [] sample_pool
unfolding build_pool build_static build_dynamic digits
sample-Honest refused = record {
  static_there = (λ t. cc, (λ t. cc, tt));
  dynamic_there = (λ t. cc, tt);
  all_if_ready = λ t. cc;
}

ensure_spawned-Ensured_example :
    Ensured ⦃G = lossy second⦄
      (lossy-Documented second)
      []
      (ensure_spawned ⦃G = lossy second⦄ sample_pool [])
ensure_spawned-Ensured_example =
    ensure_spawned-Ensured ⦃G = lossy second⦄ (lossy-Documented second) sample_pool []
      (sample-Honest second)

abbrev nothing : String → Bool
nothing n = false

lossy-Answering :
    (n : String) (r x y z : Float) (w : Poses)
    → (put_pose (has (insert w n (x, (y, z))) n) n x y z (insert w n (x, (y, z)))).0 ≡ true
lossy-Answering n r x y z w = rw (lookup-insert_self w n (x, (y, z))) refl

-- Every spawn loses its answer.
ensure_spawned-Returns_example :
    let r = ensure_spawned ⦃G = lossy nothing⦄ sample_pool [] in Returns r.0 × (r.1.0.ready ≡ true)
ensure_spawned-Returns_example =
    ensure_spawned-Returns ⦃G = lossy nothing⦄ (lossy-Documented nothing) sample_pool []
      (sample-Honest nothing) (λ n r x y z w. inr (lossy-Answering n r x y z w))

put_pose_self :
    (b : Bool) (n : String) (x y z : Float) (w : Poses)
    → (put_pose b n x y z w).0 ≡ true
    → lookup (put_pose b n x y z w).1 n ≡ some (x, (y, z))
put_pose_self true n x y z w h = lookup-insert_self w n (x, (y, z))
put_pose_self false n x y z w h = cc

put_pose_other :
    (b : Bool) (n : String) (x y z : Float) (w : Poses) (m : String)
    → m ≢ n
    → lookup (put_pose b n x y z w).1 m ≡ lookup w m
put_pose_other true n x y z w m h = lookup-insert_ne w n m (x, (y, z)) (λ q. h (sym q))
put_pose_other false n x y z w m h = refl

-- Poses in this simulator.
lossy-Posed : (refused : String → Bool) → Posed (lossy refused)
lossy-Posed refused = record {
  pose = λ w n. lookup w n;
  set_pose_self = λ n x y z w h. put_pose_self (has w n) n x y z w h;
  set_pose_other = λ n x y z w m h. put_pose_other (has w n) n x y z w m h;
}

abbrev spawned_pool : ObstaclePool × Poses
spawned_pool = (ensure_spawned ⦃G = lossy nothing⦄ sample_pool []).1

abbrev sample_obstacle : Obstacle
sample_obstacle = record { x = pos 1; y = pos 2; radius = pos 5 }

-- The only slot of class 5 is the second.
takes_the_second :
    (activate_static ⦃G = lossy nothing⦄ spawned_pool.0 (sample_obstacle ∷ []) spawned_pool.1).0
    ≡ ok ("hkrl_pool_static_1" ∷ [])
unfolding activate_static place_all park_inactive take_free classes_ascending insert_class
    matching_exact_class ensure_spawned ensure_slots ensure_slot_spawned build_pool build_static
    build_dynamic digits
takes_the_second = refl

runs_out :
    (activate_static ⦃G = lossy nothing⦄ spawned_pool.0
      (sample_obstacle ∷ sample_obstacle ∷ [])
      spawned_pool.1).0
    ≡ err Error.runtime_error
unfolding activate_static place_all park_inactive take_free classes_ascending insert_class
    matching_exact_class ensure_spawned ensure_slots ensure_slot_spawned build_pool build_static
    build_dynamic digits
runs_out = refl

apart : ◌≢◌ {A = String} "hkrl_pool_static_0" "hkrl_pool_static_1"
apart q =
    let a : String = "hkrl_pool_static_0" in
    let t : string_key.same a "hkrl_pool_static_1" ≡ true =
      subst (λ s. string_key.same a s ≡ true) q (string_key.same_refl a) in
    true≢false (sym t)

only : (m : String) → Memᴰ m ("hkrl_pool_static_1" ∷ []) → "hkrl_pool_static_0" ≢ m
only m (Memᴰ.head e) = λ q. apart (q ∙ e)
only m (Memᴰ.tail h) = elim h [ ]

spawned-Distinct : Distinct (names spawned_pool.0.static_slots)
unfolding ensure_spawned ensure_slots ensure_slot_spawned build_pool build_static build_dynamic
    digits
spawned-Distinct = (only, (λ m h. elim h [ ], tt))

activate_static-ActivatedIf_example :
    ActivatedIf ⦃G = lossy nothing⦄
      (lossy-Posed nothing)
      spawned_pool.0
      (sample_obstacle ∷ [])
      (activate_static ⦃G = lossy nothing⦄ spawned_pool.0 (sample_obstacle ∷ []) spawned_pool.1)
activate_static-ActivatedIf_example =
    activate_static-ActivatedIf ⦃G = lossy nothing⦄ (lossy-Posed nothing) spawned_pool.0
      (sample_obstacle ∷ []) spawned_pool.1 spawned-Distinct

-- A simulator that does what it is told.
instance abbrev obedient : Gazebo
obedient = record {
  World = Poses;
  spawn = λ n r x y z w. (true, insert w n (x, (y, z)));
  set_pose = λ n x y z w. (true, insert w n (x, (y, z)));
}

integers-Euclidean : (a b c : ℤ) → eq_ℤ a b ≡ true → eq_ℤ a c ≡ true → eq_ℤ b c ≡ true
integers-Euclidean a b c e f =
    subst (λ k. eq_ℤ b k ≡ true) (sym (eq_ℤ→eq a b e) ∙ eq_ℤ→eq a c f) (eq_ℤ_refl b)

room : (a b : Bool) → weight b + 0 ≤ weight a + (weight b + 0)
room a b = omega arith

sample-Roomy :
    Roomy
      (classes_ascending sample_pool.static_slots)
      sample_pool.static_slots
      (sample_obstacle ∷ [])
unfolding classes_ascending insert_class matching_exact_class build_pool build_static build_dynamic
    digits
sample-Roomy c = room (eq_ℤ (pos 2) c) (eq_ℤ (pos 5) c)

sample-Classed : Classed (classes_ascending sample_pool.static_slots) sample_obstacle
unfolding classes_ascending insert_class matching_exact_class build_pool build_static build_dynamic
    digits
sample-Classed = (pos 5, refl, refl)

sample_length : length (sample_obstacle ∷ []) ≤ length sample_pool.static_slots
unfolding build_pool build_static build_dynamic digits
sample_length = omega arith

activate_static-Returns_example : Returns (activate_static sample_pool (sample_obstacle ∷ []) []).0
activate_static-Returns_example =
    activate_static-Returns sample_pool (sample_obstacle ∷ []) [] integers-Euclidean
      (λ n x y z w. refl) sample_length (sample-Classed, tt) sample-Roomy
