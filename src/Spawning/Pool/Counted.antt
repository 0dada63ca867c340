-- ===== src/Spawning/Pool/Counted.antt =====
-- How many slots a class has left.
use hunter_kinodynamic_rl.Prelude.{
  ℕ, ◌+◌, ◌≤◌, ◌≡◌, refl, String, Bool, true, false, not, ◌&&◌, Option, none, some, List, [], ◌∷◌,
  if-either, arith, if◌then◌else◌,
}
use hunter_kinodynamic_rl.Floats.{Floats, Float}
use hunter_kinodynamic_rl.Spawning.Pool.{Slot, Obstacle}
use hunter_kinodynamic_rl.Spawning.Pool.Activation.{
  is_free, take_free, behind, matching_exact_class, deactivate,
}

abbrev pub weight : Bool → ℕ
weight b = if b then 1 else 0

module _ ⦃M : Floats⦄ where
  -- Two numbers that equal a third equal each other, as IEEE 754 has it.
  abbrev pub Euclidean : Type 0
  Euclidean = (a b c : Float) → M.eq a b ≡ true → M.eq a c ≡ true → M.eq b c ≡ true

  abbrev pub free_count : Float → List Slot → ℕ
  free_count c [] = 0
  free_count c (slot ∷ slots) = weight (is_free c slot) + free_count c slots

  abbrev pub needs : Float → Option Float → Bool
  needs c none = false
  needs c (some needed) = M.eq needed c

  -- How many obstacles need a slot of the class `c`.
  abbrev pub demand : List Float → Float → List Obstacle → ℕ
  demand classes c [] = 0
  demand classes c (o ∷ os) =
      weight (needs c (matching_exact_class o.radius classes)) + demand classes c os

  abbrev pub Classed : List Float → Obstacle → Type 0
  Classed classes o =
      (c : Float) × (matching_exact_class o.radius classes ≡ some c) × (M.eq c c ≡ true)

  abbrev pub LeftIf : Float → List Slot → Option (String × List Slot) → Type 0
  LeftIf needed slots none = free_count needed slots ≡ 0
  LeftIf needed slots (some (n, taken)) =
      (c : Float) → free_count c slots ≤ weight (M.eq needed c) + free_count c taken

  weight_le : (a b : Bool) → (a ≡ true → b ≡ true) → weight a ≤ weight b
  weight_le true b h = let e = h refl in rw e (omega arith)
  weight_le false b h = omega arith

  first_left : (a b r : Bool) → (a && not r) ≡ true → (a ≡ true) × (r ≡ false)
  first_left true b false h = (refl, refl)
  first_left true b true h = cc
  first_left false b r h = cc

  left_part : (a b : Bool) → (a && b) ≡ true → a ≡ true
  left_part true b h = refl
  left_part false b h = cc

  free_slot_weight :
      (needed c : Float) (slot : Slot)
      → Euclidean
      → M.eq slot.size needed ≡ true
      → weight (is_free c slot) ≤ weight (M.eq needed c)
  free_slot_weight needed c slot E h =
      weight_le (is_free c slot) (M.eq needed c)
        (λ f. E slot.size needed c h (left_part (M.eq slot.size c) (not slot.active) f))

  behind-LeftIf :
      (needed : Float) (slot : Slot) (slots : List Slot) (r : Option (String × List Slot))
      → is_free needed slot ≡ false
      → LeftIf needed slots r
      → LeftIf needed (slot ∷ slots) (behind slot r)
  behind-LeftIf needed slot slots none f l = rw (f, l) refl
  behind-LeftIf needed slot slots (some (n, taken)) f l = λ c. omega (arith, l c)

  pub take_free-LeftIf :
      (needed : Float) (slots : List Slot)
      → Euclidean
      → LeftIf needed slots (take_free needed slots)
  unfolding take_free
  take_free-LeftIf needed [] E = refl
  take_free-LeftIf needed (slot ∷ slots) E =
      if-either (LeftIf needed (slot ∷ slots)) (is_free needed slot)
        (λ h c.
          let (e, a) = first_left (M.eq slot.size needed) true slot.active h in
          omega (arith, free_slot_weight needed c slot E e))
        (λ h.
          behind-LeftIf needed slot slots (take_free needed slots) h
            (take_free-LeftIf needed slots E))

  abbrev pub class_count : Float → List Slot → ℕ
  class_count c [] = 0
  class_count c (slot ∷ slots) = weight (M.eq slot.size c) + class_count c slots

  and_true : (b : Bool) → weight (b && true) ≡ weight b
  and_true true = refl
  and_true false = refl

  pub free_count-deactivate :
      (c : Float) (slots : List Slot) → free_count c (deactivate slots) ≡ class_count c slots
  free_count-deactivate c [] = refl
  free_count-deactivate c (slot ∷ slots) =
      rw (and_true (M.eq slot.size c), free_count-deactivate c slots) refl

  -- Every class has as many slots as obstacles that need it.
  abbrev pub Roomy : List Float → List Slot → List Obstacle → Type 0
  Roomy classes slots os = (c : Float) → demand classes c os ≤ class_count c slots

  -- Every class has as many free slots as obstacles that need it.
  abbrev pub Enough : List Float → List Slot → List Obstacle → Type 0
  Enough classes slots os = (c : Float) → demand classes c os ≤ free_count c slots
