-- ===== src/Replay/Ring/Index.antt =====
-- Every filled row of a ring is one of its contents.
use hunter_kinodynamic_rl.Prelude.{
  ℕ, zero, suc, ◌+◌, ◌-◌, ◌<◌, ◌≤◌, ◌≡◌, refl, ◌∙◌, inl, inr, some, List, [], ◌∷◌, ◌++◌, length,
  take, drop, get_elem?, get_elem?-some, length-drop, ltb, Bool-cases, arith, if◌then◌else◌,
}
use hunter_kinodynamic_rl.Replay.Ring.{Ring}
use hunter_kinodynamic_rl.Replay.Ring.Order.{IsRing, oldest_first}

module _ {A : Type 0} where
  get_elem?-take : (n i : ℕ) (xs : List A) → i < n → get_elem? (take n xs) i ≡ get_elem? xs i
  get_elem?-take zero i xs h = absurd (omega arith)
  get_elem?-take (suc n) i [] h = refl
  get_elem?-take (suc n) zero (x ∷ xs) h = refl
  get_elem?-take (suc n) (suc i) (x ∷ xs) h = get_elem?-take n i xs (omega arith)

  get_elem?-append_left :
      (i : ℕ) (xs ys : List A) → i < length xs → get_elem? (xs ++ ys) i ≡ get_elem? xs i
  get_elem?-append_left i [] ys h = absurd (omega arith)
  get_elem?-append_left zero (x ∷ xs) ys h = refl
  get_elem?-append_left (suc i) (x ∷ xs) ys h = get_elem?-append_left i xs ys (omega arith)

  get_elem?-append_right :
      (k i : ℕ) (xs ys : List A) → k ≡ length xs + i → get_elem? (xs ++ ys) k ≡ get_elem? ys i
  get_elem?-append_right k i [] ys h = let e : k ≡ i = omega arith in rw e refl
  get_elem?-append_right zero i (x ∷ xs) ys h = absurd (omega arith)
  get_elem?-append_right (suc k) i (x ∷ xs) ys h = get_elem?-append_right k i xs ys (omega arith)

  get_elem?-drop : (p k i : ℕ) (xs : List A) → i ≡ p + k → get_elem? (drop p xs) k ≡ get_elem? xs i
  get_elem?-drop zero k i xs h = let e : i ≡ k = omega arith in rw e refl
  get_elem?-drop (suc p) k i [] h = refl
  get_elem?-drop (suc p) k zero (x ∷ xs) h = absurd (omega arith)
  get_elem?-drop (suc p) k (suc i) (x ∷ xs) h = get_elem?-drop p k i xs (omega arith)

  -- The place of a filled row in the order of age.
  age_of : (r : Ring A) → ℕ → ℕ
  age_of r i =
      if ltb r.size r.capacity then i else if ltb i r.ptr then r.capacity - r.ptr + i else i - r.ptr

  get_elem?-age_of :
      (r : Ring A)
      → IsRing r
      → (i : ℕ) → i < r.size
      → get_elem? (oldest_first r) (age_of r i) ≡ get_elem? r.rows i
  unfolding age_of oldest_first
  get_elem?-age_of r v i h = elim (Bool-cases (ltb r.size r.capacity)) [
    | inl e ↦ rw e (get_elem?-take r.size i r.rows h)
    | inr e ↦
        let d = drop r.ptr r.rows in
        let n : length d ≡ r.capacity - r.ptr =
          omega (arith, length-drop r.ptr r.rows, v.length_rows) in
        let l = v.ptr_lt in
        let b = v.size_le in
        elim (Bool-cases (ltb i r.ptr)) [
          | inl o ↦
              let q : i < r.ptr = ground arith in
              rw (e, o)
                (get_elem?-append_right (r.capacity - r.ptr + i) i d (take r.ptr r.rows)
                    (omega arith)
                  ∙ get_elem?-take r.ptr i r.rows q)
          | inr o ↦
              let q : r.ptr ≤ i = ground arith in
              rw (e, o)
                (get_elem?-append_left (i - r.ptr) d (take r.ptr r.rows) (omega arith)
                  ∙ get_elem?-drop r.ptr (i - r.ptr) i r.rows (omega arith))
        ]
  ]

  pub stored_at :
      (r : Ring A)
      → IsRing r
      → (i : ℕ) → i < r.size
      → (a : A) × (get_elem? r.rows i ≡ some a)
        × ((k : ℕ) × (get_elem? (oldest_first r) k ≡ some a))
  stored_at r v i h =
      let (a, e) = get_elem?-some r.rows i (omega (arith, v.length_rows, v.size_le)) in
      (a, e, (age_of r i, get_elem?-age_of r v i h ∙ e))
