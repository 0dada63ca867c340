-- ===== src/Spawning/Pool/Taken.antt =====
-- Taking a free slot, in the list of all slots.
use mathlib.Core.List.{Memᴰ, Perm}
use mathlib.Core.List.Perm
use hunter_kinodynamic_rl.Prelude.{
  if-either, ◌≡◌, refl, sym, ◌∙◌, ap, subst, ◌≢◌, String, Bool, true, false, not, ◌&&◌, Option,
  none, some, List, [], ◌∷◌, map,
}
use hunter_kinodynamic_rl.Floats.{Floats, Float}
use hunter_kinodynamic_rl.Spawning.Pool.{Slot}
use hunter_kinodynamic_rl.Spawning.Pool.Activation.{
  is_free, take_free, behind, with_active, deactivate, is_exact, matching_exact_class,
}

abbrev pub Distinct : List String → Type 0
Distinct [] = Unit
Distinct (n ∷ ns) = ((m : String) → Memᴰ m ns → n ≢ m) × Distinct ns

module _ ⦃M : Floats⦄ where
  abbrev pub names : List Slot → List String
  names slots = map (λ s. s.name) slots

  -- What activation leaves as it is.
  abbrev pub fixed : List Slot → List (String × (Float × Bool))
  fixed slots = map (λ s. (s.name, (s.size, s.spawned))) slots

  abbrev pub add_active : Bool → String → List String → List String
  add_active true n ns = n ∷ ns
  add_active false n ns = ns

  abbrev pub active_names : List Slot → List String
  active_names [] = []
  active_names (slot ∷ slots) = add_active slot.active slot.name (active_names slots)

  pub names-fixed : (slots : List Slot) → names slots ≡ map (λ f. f.0) (fixed slots)
  names-fixed [] = refl
  names-fixed (slot ∷ slots) = ap (λ ns. slot.name ∷ ns) (names-fixed slots)

  pub names_same :
      (slots others : List Slot) → fixed slots ≡ fixed others → names slots ≡ names others
  names_same slots others e = names-fixed slots ∙ ap (map (λ f. f.0)) e ∙ sym (names-fixed others)

  pub fixed-deactivate : (slots : List Slot) → fixed (deactivate slots) ≡ fixed slots
  fixed-deactivate [] = refl
  fixed-deactivate (slot ∷ slots) =
      ap (λ fs. (slot.name, (slot.size, slot.spawned)) ∷ fs) (fixed-deactivate slots)

  pub active_names-deactivate : (slots : List Slot) → active_names (deactivate slots) ≡ []
  active_names-deactivate [] = refl
  active_names-deactivate (slot ∷ slots) = active_names-deactivate slots

  pub name_in : (slots : List Slot) (s : Slot) → Memᴰ s slots → Memᴰ s.name (names slots)
  name_in [] s m = elim m [ ]
  name_in (x ∷ xs) s (Memᴰ.head e) = Memᴰ.head (ap (λ t. t.name) e)
  name_in (x ∷ xs) s (Memᴰ.tail m) = Memᴰ.tail (name_in xs s m)

  -- An active slot and another one have different names.
  pub names_apart :
      (slots : List Slot) (s t : Slot)
      → Distinct (names slots)
      → Memᴰ s slots
      → Memᴰ t slots
      → s.active ≡ true
      → t.active ≡ false
      → s.name ≢ t.name
  names_apart [] s t d m n a b = elim m [ ]
  names_apart (x ∷ xs) s t d (Memᴰ.head e) (Memᴰ.head k) a b = absurd cc
  names_apart (x ∷ xs) s t (h, d) (Memᴰ.head e) (Memᴰ.tail n) a b =
      λ q. h t.name (name_in xs t n) (sym (ap (λ u. u.name) e) ∙ q)
  names_apart (x ∷ xs) s t (h, d) (Memᴰ.tail m) (Memᴰ.head k) a b =
      λ q. h s.name (name_in xs s m) (sym (ap (λ u. u.name) k) ∙ sym q)
  names_apart (x ∷ xs) s t (h, d) (Memᴰ.tail m) (Memᴰ.tail n) a b = names_apart xs s t d m n a b

  -- The slot `s` has become active.
  pub record Taken (needed : Float) (slots : List Slot) (n : String) (taken : List Slot)
      : Type 0 where
    pub slot : Slot
    pub named : slot.name ≡ n
    pub was : Memᴰ slot slots
    pub was_free : slot.active ≡ false
    pub fits : M.eq slot.size needed ≡ true
    pub now : Memᴰ (with_active true slot) taken
    pub same : fixed taken ≡ fixed slots
    pub more : Perm (active_names taken) (n ∷ active_names slots)
    pub kept : (t : Slot) → Memᴰ t slots → t.active ≡ true → Memᴰ t taken

  abbrev pub TakenIf : Float → List Slot → Option (String × List Slot) → Type 0
  TakenIf needed slots none = Unit
  TakenIf needed slots (some (n, taken)) = Taken needed slots n taken

  kept_first :
      (slot : Slot) (slots : List Slot) (t : Slot)
      → slot.active ≡ false
      → Memᴰ t (slot ∷ slots)
      → t.active ≡ true
      → Memᴰ t (with_active true slot ∷ slots)
  kept_first slot slots t f (Memᴰ.head e) a = absurd cc
  kept_first slot slots t f (Memᴰ.tail m) a = Memᴰ.tail m

  kept_behind :
      (slot : Slot) (slots taken : List Slot)
      → ((t : Slot) → Memᴰ t slots → t.active ≡ true → Memᴰ t taken)
      → (t : Slot) → Memᴰ t (slot ∷ slots)
      → t.active ≡ true
      → Memᴰ t (slot ∷ taken)
  kept_behind slot slots taken k t (Memᴰ.head e) a = Memᴰ.head e
  kept_behind slot slots taken k t (Memᴰ.tail m) a = Memᴰ.tail (k t m a)

  free_parts : (a b : Bool) → (a && not b) ≡ true → (a ≡ true) × (b ≡ false)
  free_parts true false h = (refl, refl)
  free_parts true true h = cc
  free_parts false b h = cc

  take_first :
      (needed : Float) (slot : Slot) (slots : List Slot)
      → (M.eq slot.size needed ≡ true) × (slot.active ≡ false)
      → Taken needed (slot ∷ slots) slot.name (with_active true slot ∷ slots)
  take_first needed slot slots (e, f) = record {
    slot = slot;
    named = refl;
    was = Memᴰ.head refl;
    was_free = f;
    fits = e;
    now = Memᴰ.head refl;
    same = refl;
    more =
        subst
          (λ b.
            Perm (slot.name ∷ active_names slots)
              (slot.name ∷ add_active b slot.name (active_names slots)))
          (sym f) Perm.rfl;
    kept = λ t m a. kept_first slot slots t f m a;
  }

  add_active-perm :
      (b : Bool) (m n : String) {l k : List String}
      → Perm l (n ∷ k)
      → Perm (add_active b m l) (n ∷ add_active b m k)
  add_active-perm true m n p = Perm.trans (Perm.cons m p) (Perm.swap n m _)
  add_active-perm false m n p = p

  behind-TakenIf :
      (needed : Float) (slot : Slot) (slots : List Slot) (r : Option (String × List Slot))
      → TakenIf needed slots r
      → TakenIf needed (slot ∷ slots) (behind slot r)
  behind-TakenIf needed slot slots none t = tt
  behind-TakenIf needed slot slots (some (n, taken)) t = record {
    slot = t.slot;
    named = t.named;
    was = Memᴰ.tail t.was;
    was_free = t.was_free;
    fits = t.fits;
    now = Memᴰ.tail t.now;
    same = ap (λ fs. (slot.name, (slot.size, slot.spawned)) ∷ fs) t.same;
    more = add_active-perm slot.active slot.name n t.more;
    kept = λ x m a. kept_behind slot slots taken t.kept x m a;
  }

  pub take_free-TakenIf :
      (needed : Float) (slots : List Slot) → TakenIf needed slots (take_free needed slots)
  unfolding take_free
  take_free-TakenIf needed [] = tt
  take_free-TakenIf needed (slot ∷ slots) =
      if-either (TakenIf needed (slot ∷ slots)) (is_free needed slot)
        (λ h. take_first needed slot slots (free_parts (M.eq slot.size needed) slot.active h))
        (λ _.
          behind-TakenIf needed slot slots (take_free needed slots)
            (take_free-TakenIf needed slots))

  abbrev pub Exact : Float → Option Float → Type 0
  Exact radius none = Unit
  Exact radius (some c) = is_exact radius c ≡ true

  pub matching_exact_class-Exact :
      (radius : Float) (classes : List Float) → Exact radius (matching_exact_class radius classes)
  unfolding matching_exact_class
  matching_exact_class-Exact radius [] = tt
  matching_exact_class-Exact radius (c ∷ cs) =
      if-either (Exact radius) (is_exact radius c) (λ h. h)
        (λ _. matching_exact_class-Exact radius cs)
