-- ===== src/Spawning/Pool/Placed.antt =====
-- What placing the obstacles of an episode leaves.
use mathlib.Core.List.{Memᴰ, Perm, perm_middle}
use mathlib.Core.List.Perm
use hunter_kinodynamic_rl.Prelude.{
  ◌≡◌, refl, sym, ◌∙◌, subst, ◌≢◌, String, Bool, true, false, Option, none, some, List, [], ◌∷◌,
  ◌++◌,
}
use hunter_kinodynamic_rl.Prelude.Result.{ok, err}
use hunter_kinodynamic_rl.Floats.{Floats, Float}
use hunter_kinodynamic_rl.Spawning.Pool.{Slot, Obstacle, Gazebo, Outcome}
use hunter_kinodynamic_rl.Spawning.Pool.Activation.{
  is_exact, matching_exact_class, with_active, take_free, teleported, place_in, place, add_name,
  then_place, place_all,
}
use hunter_kinodynamic_rl.Spawning.Pool.Taken.{
  Distinct, names, fixed, active_names, names_same, names_apart, Taken, TakenIf, take_free-TakenIf,
  Exact, matching_exact_class-Exact,
}

abbrev pub Pose : ⦃M : Floats⦄ → Type 0
Pose ⦃M⦄ = Float × (Float × Float)

-- What the simulator documents of poses: a call that succeeds sets the pose of the entity that it
-- names, and none changes that of another.
pub record Posed ⦃M : Floats⦄ (G : Gazebo) : Type 0 where
  pub pose : G.World → String → Option Pose
  pub set_pose_self :
      (n : String) (x y z : Float) (w : G.World)
      → (G.set_pose n x y z w).0 ≡ true
      → pose (G.set_pose n x y z w).1 n ≡ some (x, (y, z))
  pub set_pose_other :
      (n : String) (x y z : Float) (w : G.World) (m : String)
      → m ≢ n
      → pose (G.set_pose n x y z w).1 m ≡ pose w m

module _ ⦃M : Floats⦄ ⦃G : Gazebo⦄ (P : Posed G) where
  -- The entity `n` is an active slot of the obstacle's own size, at the obstacle.
  pub record Stands (slots : List Slot) (w : G.World) (o : Obstacle) (n : String) : Type 0 where
    pub slot : Slot
    pub listed : Memᴰ slot slots
    pub named : slot.name ≡ n
    pub is_active : slot.active ≡ true
    pub class : Float
    pub sized : M.eq slot.size class ≡ true
    pub exact : is_exact o.radius class ≡ true
    pub posed : P.pose w n ≡ some (o.x, (o.y, M.zero_f))

  abbrev pub AllStand : List Slot → G.World → List Obstacle → List String → Type 0
  AllStand slots w [] [] = Unit
  AllStand slots w [] (n ∷ ns) = ⊥
  AllStand slots w (o ∷ os) [] = ⊥
  AllStand slots w (o ∷ os) (n ∷ ns) = Stands slots w o n × AllStand slots w os ns

  -- The active slots are still there, with their poses.
  abbrev pub Kept : List Slot → G.World → List Slot → G.World → Type 0
  Kept slots v others w =
      (t : Slot)
      → Memᴰ t slots
      → t.active ≡ true
      → Memᴰ t others × (P.pose w t.name ≡ P.pose v t.name)

  pub record Placed (slots : List Slot) (v : G.World) (o : Obstacle) (n : String)
      (taken : List Slot) (w : G.World) : Type 0 where
    pub stands : Stands taken w o n
    pub same : fixed taken ≡ fixed slots
    pub more : Perm (active_names taken) (n ∷ active_names slots)
    pub kept : Kept slots v taken w

  abbrev PlacedIf : List Slot → G.World → Obstacle → Outcome String → Type 0
  PlacedIf slots v o (err e, s) = Unit
  PlacedIf slots v o (ok n, (taken, w)) = Placed slots v o n taken w

  teleported-PlacedIf :
      (slots : List Slot) (v : G.World) (o : Obstacle) (needed : Float) (n : String)
      (taken : List Slot) (a : Bool × G.World)
      → Distinct (names slots)
      → is_exact o.radius needed ≡ true
      → Taken needed slots n taken
      → (a.0 ≡ true → P.pose a.1 n ≡ some (o.x, (o.y, M.zero_f)))
      → ((m : String) → m ≢ n → P.pose a.1 m ≡ P.pose v m)
      → PlacedIf slots v o (teleported n taken a)
  teleported-PlacedIf slots v o needed n taken (false, w) d e t h k = tt
  teleported-PlacedIf slots v o needed n taken (true, w) d e t h k = record {
    stands = record {
      slot = with_active true t.slot;
      listed = t.now;
      named = t.named;
      is_active = refl;
      class = needed;
      sized = t.fits;
      exact = e;
      posed = h refl;
    };
    same = t.same;
    more = t.more;
    kept = λ u m a. (
      t.kept u m a,
      k u.name (λ q. names_apart slots u t.slot d m t.was a t.was_free (q ∙ sym t.named)),
    );
  }

  place_in-PlacedIf :
      (slots : List Slot) (v : G.World) (o : Obstacle) (needed : Float)
      (r : Option (String × List Slot))
      → Distinct (names slots)
      → is_exact o.radius needed ≡ true
      → TakenIf needed slots r
      → PlacedIf slots v o (place_in o slots v r)
  place_in-PlacedIf slots v o needed none d e t = tt
  place_in-PlacedIf slots v o needed (some (n, taken)) d e t =
      teleported-PlacedIf slots v o needed n taken (G.set_pose n o.x o.y M.zero_f v) d e t
        (P.set_pose_self n o.x o.y M.zero_f v) (P.set_pose_other n o.x o.y M.zero_f v)

  place-PlacedIf :
      (slots : List Slot) (v : G.World) (o : Obstacle) (c : Option Float)
      → Distinct (names slots)
      → Exact o.radius c
      → PlacedIf slots v o (place o slots v c)
  place-PlacedIf slots v o none d e = tt
  place-PlacedIf slots v o (some c) d e =
      place_in-PlacedIf slots v o c (take_free c slots) d e (take_free-TakenIf c slots)

  -- What placing all obstacles leaves.
  pub record AllPlaced (slots : List Slot) (v : G.World) (os : List Obstacle) (ns : List String)
      (others : List Slot) (w : G.World) : Type 0 where
    pub stand : AllStand others w os ns
    pub same : fixed others ≡ fixed slots
    pub more : Perm (active_names others) (ns ++ active_names slots)
    pub kept : Kept slots v others w

  abbrev pub AllPlacedIf : List Slot → G.World → List Obstacle → Outcome (List String) → Type 0
  AllPlacedIf slots v os (err e, s) = Unit
  AllPlacedIf slots v os (ok ns, (others, w)) = AllPlaced slots v os ns others w

  pub kept_standing :
      (slots : List Slot) (v : G.World) (others : List Slot) (w : G.World) (o : Obstacle)
      (n : String)
      → Kept slots v others w
      → Stands slots v o n
      → Stands others w o n
  kept_standing slots v others w o n k s =
      let (m, e) = k s.slot s.listed s.is_active in
      record {
        slot = s.slot;
        listed = m;
        named = s.named;
        is_active = s.is_active;
        class = s.class;
        sized = s.sized;
        exact = s.exact;
        posed = subst (λ a. P.pose w a ≡ P.pose v a) s.named e ∙ s.posed;
      }

  add_name-AllPlacedIf :
      (slots : List Slot) (v : G.World) (o : Obstacle) (os : List Obstacle) (n : String)
      (taken : List Slot) (u : G.World) (r : Outcome (List String))
      → Placed slots v o n taken u
      → AllPlacedIf taken u os r
      → AllPlacedIf slots v (o ∷ os) (add_name n r)
  add_name-AllPlacedIf slots v o os n taken u (err e, s) p a = tt
  add_name-AllPlacedIf slots v o os n taken u (ok ns, (others, w)) p a = record {
    stand = (kept_standing taken u others w o n a.kept p.stands, a.stand);
    same = a.same ∙ p.same;
    more =
        Perm.trans a.more
          (Perm.trans (Perm.append_left ns p.more) (perm_middle ns (active_names slots)));
    kept = λ t m b. let (k, e) = p.kept t m b in let (l, f) = a.kept t k b in (l, f ∙ e);
  }

  then_place-AllPlacedIf :
      (slots : List Slot) (v : G.World) (o : Obstacle) (os : List Obstacle)
      (rest : List Slot → G.World → Outcome (List String)) (r : Outcome String)
      → Distinct (names slots)
      → ((taken : List Slot) (u : G.World)
          → Distinct (names taken)
          → AllPlacedIf taken u os (rest taken u))
      → PlacedIf slots v o r
      → AllPlacedIf slots v (o ∷ os) (then_place rest r)
  then_place-AllPlacedIf slots v o os rest (err e, s) d h p = tt
  then_place-AllPlacedIf slots v o os rest (ok n, (taken, u)) d h p =
      add_name-AllPlacedIf slots v o os n taken u (rest taken u) p
        (h taken u (subst Distinct (sym (names_same taken slots p.same)) d))

  pub place_all-AllPlacedIf :
      (classes : List Float) (os : List Obstacle) (slots : List Slot) (v : G.World)
      → Distinct (names slots)
      → AllPlacedIf slots v os (place_all classes os slots v)
  unfolding place_all
  place_all-AllPlacedIf classes [] slots v d = record {
    stand = tt;
    same = refl;
    more = Perm.rfl;
    kept = λ t m a. (m, refl);
  }
  place_all-AllPlacedIf classes (o ∷ os) slots v d =
      then_place-AllPlacedIf slots v o os (place_all classes os)
        (place o slots v (matching_exact_class o.radius classes)) d
        (place_all-AllPlacedIf classes os)
        (place-PlacedIf slots v o (matching_exact_class o.radius classes) d
          (matching_exact_class-Exact o.radius classes))
