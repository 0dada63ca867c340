-- ===== src/Spawning/Pool/Parked.antt =====
-- What parking the slots that are not active leaves.
use mathlib.Core.List.{Memᴰ}
use hunter_kinodynamic_rl.Prelude.{
  elim-either, ℕ, suc, ◌≡◌, refl, ◌∙◌, ◌≢◌, String, Bool, true, false, some, List, [], ◌∷◌,
}
use hunter_kinodynamic_rl.Prelude.Result.{Result, ok, err}
use hunter_kinodynamic_rl.Floats.{Floats, Float}
use hunter_kinodynamic_rl.Spawning.Pool.{Slot, Gazebo, parking_position, parking_z}
use hunter_kinodynamic_rl.Spawning.Pool.Activation.{park, after_park, park_inactive}
use hunter_kinodynamic_rl.Spawning.Pool.Taken.{Distinct, names, name_in}
use hunter_kinodynamic_rl.Spawning.Pool.Placed.{Posed}

module _ ⦃M : Floats⦄ ⦃G : Gazebo⦄ (P : Posed G) where
  -- Every slot that is not active is at its own parking position.
  abbrev pub Parked : Float → ℕ → List Slot → G.World → Type 0
  Parked distance i [] w = Unit
  Parked distance i (slot ∷ slots) w =
      (slot.active ≡ false
        → P.pose w slot.name
          ≡ some ((parking_position distance i).0, ((parking_position distance i).1, parking_z)))
      × Parked distance (suc i) slots w

  pub record Lot (distance : Float) (i : ℕ) (slots : List Slot) (v w : G.World) : Type 0 where
    pub parked : Parked distance i slots w
    pub others :
        (n : String)
        → ((t : Slot) → Memᴰ t slots → t.active ≡ false → n ≢ t.name)
        → P.pose w n ≡ P.pose v n

  abbrev pub LotIf : Float → ℕ → List Slot → G.World → Result (Unit {0}) × G.World → Type 0
  LotIf distance i slots v (err e, w) = Unit
  LotIf distance i slots v (ok u, w) = Lot distance i slots v w

  skip-LotIf :
      (distance : Float) (i : ℕ) (slot : Slot) (slots : List Slot) (v : G.World)
      (r : Result (Unit {0}) × G.World)
      → slot.active ≡ true
      → LotIf distance (suc i) slots v r
      → LotIf distance i (slot ∷ slots) v r
  skip-LotIf distance i slot slots v (err e, w) a l = tt
  skip-LotIf distance i slot slots v (ok u, w) a l = record {
    parked = (λ f. absurd cc, l.parked);
    others = λ n h. l.others n (λ t m f. h t (Memᴰ.tail m) f);
  }

  behind-LotIf :
      (distance : Float) (i : ℕ) (slot : Slot) (slots : List Slot) (v u : G.World)
      (r : Result (Unit {0}) × G.World)
      → Distinct (names (slot ∷ slots))
      → slot.active ≡ false
      → (P.pose u slot.name
          ≡ some ((parking_position distance i).0, ((parking_position distance i).1, parking_z)))
      → ((m : String) → m ≢ slot.name → P.pose u m ≡ P.pose v m)
      → LotIf distance (suc i) slots u r
      → LotIf distance i (slot ∷ slots) v r
  behind-LotIf distance i slot slots v u (err e, w) d a p k l = tt
  behind-LotIf distance i slot slots v u (ok _, w) (d, ds) a p k l = record {
    parked = (λ f. l.others slot.name (λ t m g. d t.name (name_in slots t m)) ∙ p, l.parked);
    others = λ n h. l.others n (λ t m f. h t (Memᴰ.tail m) f) ∙ k n (h slot (Memᴰ.head refl) a);
  }

  after_park-LotIf :
      (distance : Float) (i : ℕ) (slot : Slot) (slots : List Slot) (v : G.World)
      (rest : G.World → Result (Unit {0}) × G.World) (a : Bool × G.World)
      → Distinct (names (slot ∷ slots))
      → slot.active ≡ false
      → (a.0 ≡ true
          → P.pose a.1 slot.name
            ≡ some ((parking_position distance i).0, ((parking_position distance i).1, parking_z)))
      → ((m : String) → m ≢ slot.name → P.pose a.1 m ≡ P.pose v m)
      → ((u : G.World) → LotIf distance (suc i) slots u (rest u))
      → LotIf distance i (slot ∷ slots) v (after_park rest a)
  after_park-LotIf distance i slot slots v rest (false, u) d f p k l = tt
  after_park-LotIf distance i slot slots v rest (true, u) d f p k l =
      behind-LotIf distance i slot slots v u (rest u) d f (p refl) k (l u)

  pub park_inactive-LotIf :
      (distance : Float) (i : ℕ) (slots : List Slot) (v : G.World)
      → Distinct (names slots)
      → LotIf distance i slots v (park_inactive distance i slots v)
  unfolding park_inactive
  park_inactive-LotIf distance i [] v d = record { parked = tt; others = λ n h. refl }
  park_inactive-LotIf distance i (slot ∷ slots) v (d, ds) =
      let rest = park_inactive distance (suc i) slots in
      elim-either (LotIf distance i (slot ∷ slots) v) slot.active
        (λ a.
          skip-LotIf distance i slot slots v (rest v) a
            (park_inactive-LotIf distance (suc i) slots v ds))
        (λ f.
          after_park-LotIf distance i slot slots v rest (park distance i slot.name v) (d, ds) f
            (P.set_pose_self slot.name _ _ parking_z v) (P.set_pose_other slot.name _ _ parking_z v)
            (λ u. park_inactive-LotIf distance (suc i) slots u ds))
