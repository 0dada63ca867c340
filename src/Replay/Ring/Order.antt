-- ===== src/Replay/Ring/Order.antt =====
-- A ring holds the latest rows: its contents in order of age are those of a bounded queue.
use hunter_kinodynamic_rl.Prelude.{
  ℕ, suc, ◌+◌, ◌-◌, ◌%◌, ◌<◌, ◌≤◌, min, ◌≡◌, refl, sym, ap, ◌∙◌, inl, inr, ◌⊎◌, true, false, List,
  [], ◌∷◌, ◌++◌, length, set, take, drop, length-append, length-set, length-take, length-drop,
  length-replicate, ltb, Bool-cases, arith, if◌then◌else◌,
}
use native.Mathlib.Nat.{mod-eq_of_lt, mod_self}
use hunter_kinodynamic_rl.Prelude.Slices.{
  take-append, take-all, take-set, drop-set, set-last, drop-all, drop-tail, drop-append,
  append_assoc, append-nil, drop-drop,
}
use hunter_kinodynamic_rl.Replay.Ring.{Ring, empty, push, overwrite, advance}

next_ptr :
    (p c : ℕ) → p < c → ((p + 1 ≡ c) × ((p + 1) % c ≡ 0)) ⊎ ((p + 1 < c) × ((p + 1) % c ≡ p + 1))
next_ptr p c h = grind (arith, mod_self c, mod-eq_of_lt {n = p + 1} {m = c})

module _ {A : Type 0} where
  pub record IsRing (r : Ring A) : Type 0 where
    pub capacity_pos : 0 < r.capacity
    pub length_rows : length r.rows ≡ r.capacity
    pub ptr_lt : r.ptr < r.capacity
    pub size_le : r.size ≤ r.capacity
    pub filling : r.size < r.capacity → r.ptr ≡ r.size

  -- The stored rows, the oldest first.
  unfoldable pub oldest_first : Ring A → List A
  oldest_first r =
      if ltb r.size r.capacity then take r.size r.rows else drop r.ptr r.rows ++ take r.ptr r.rows

  -- What a queue of at most `n` entries keeps.
  pub latest : ℕ → List A → List A
  latest n xs = drop (length xs - n) xs

  pub push-IsRing : (a : A) (r : Ring A) → IsRing r → IsRing (push a r)
  unfolding push overwrite advance
  push-IsRing a r v = record {
    capacity_pos = v.capacity_pos;
    length_rows = length-set r.rows r.ptr a ∙ v.length_rows;
    ptr_lt = elim (next_ptr r.ptr r.capacity v.ptr_lt) [
      | inl (e, m) ↦ rw m v.capacity_pos
      | inr (l, m) ↦ rw m l
    ];
    size_le = omega arith;
    filling = λ h. grind (arith, mod-eq_of_lt {n = r.ptr + 1} {m = r.capacity});
  }

  -- After a push into a ring that was filling.
  filling-push :
      (a : A) (r : Ring A)
      → IsRing r
      → r.size < r.capacity
      → oldest_first (push a r) ≡ take r.ptr r.rows ++ a ∷ []
  unfolding push overwrite advance oldest_first
  filling-push a r v h = elim (next_ptr r.ptr r.capacity v.ptr_lt) [
    | inl (e, m) ↦
        let n : min (r.size + 1) r.capacity ≡ r.capacity = omega (arith, v.filling h) in
        let t : ltb r.capacity r.capacity ≡ false = ground arith in
        rw (n, t, m)
          (append-nil (set r.rows r.ptr a) ∙ set-last r.rows r.ptr a (omega (arith, v.length_rows)))
    | inr (l, m) ↦
        let n : min (r.size + 1) r.capacity ≡ suc r.ptr = omega (arith, v.filling h) in
        let t : ltb (suc r.ptr) r.capacity ≡ true = ground arith in
        rw (n, t) (take-set r.rows r.ptr a (omega (arith, v.length_rows, v.ptr_lt)))
  ]

  -- After a push into a full ring.
  full-push :
      (a : A) (r : Ring A)
      → IsRing r
      → r.size ≡ r.capacity
      → oldest_first (push a r) ≡ drop (suc r.ptr) r.rows ++ (take r.ptr r.rows ++ a ∷ [])
  unfolding push overwrite advance oldest_first
  full-push a r v h = elim (next_ptr r.ptr r.capacity v.ptr_lt) [
    | inl (e, m) ↦
        let n : min (r.size + 1) r.capacity ≡ r.capacity = omega arith in
        let t : ltb r.capacity r.capacity ≡ false = ground arith in
        rw (n, t, m, drop-all (suc r.ptr) r.rows (omega (arith, v.length_rows)))
          (append-nil (set r.rows r.ptr a) ∙ set-last r.rows r.ptr a (omega (arith, v.length_rows)))
    | inr (l, m) ↦
        let n : min (r.size + 1) r.capacity ≡ r.capacity = omega arith in
        let t : ltb r.capacity r.capacity ≡ false = ground arith in
        let k : (r.ptr + 1) % r.capacity ≡ suc r.ptr = omega arith in
        rw
          (
            n,
            t,
            k,
            drop-set r.rows r.ptr a,
            take-set r.rows r.ptr a (omega (arith, v.length_rows, v.ptr_lt)),
          )
          refl
  ]

  -- A row that is pushed comes last, and a full ring lets its oldest row go.
  pub oldest_first-push :
      (a : A) (r : Ring A)
      → IsRing r
      → oldest_first (push a r) ≡ latest r.capacity (oldest_first r ++ a ∷ [])
  oldest_first-push a r v = elim (Bool-cases (ltb r.size r.capacity)) [
    | inl e ↦
        let l : r.size < r.capacity = ground arith in
        let n : length (take r.size r.rows ++ a ∷ []) - r.capacity ≡ 0 =
          omega (arith, length-append (take r.size r.rows) (a ∷ []), length-take r.size r.rows) in
        unfold oldest_first latest in
        rw (e, n) (filling-push a r v l ∙ ap (λ i. take i r.rows ++ a ∷ []) (v.filling l))
    | inr e ↦
        let l : r.size ≡ r.capacity = ground (arith, v.size_le) in
        let d = drop r.ptr r.rows in
        let t = take r.ptr r.rows in
        let n : length ((d ++ t) ++ a ∷ []) - r.capacity ≡ 1 = omega (
          arith,
          length-append (d ++ t) (a ∷ []),
          length-append d t,
          length-take r.ptr r.rows,
          length-drop r.ptr r.rows,
          v.length_rows,
          v.ptr_lt,
        ) in
        let one : 1 ≤ length d = omega (arith, length-drop r.ptr r.rows, v.length_rows, v.ptr_lt) in
        unfold oldest_first latest in
        rw (e, n, append_assoc d t (a ∷ []), drop-append 1 d (t ++ a ∷ []) one)
          (full-push a r v l ∙ ap (λ xs. xs ++ (t ++ a ∷ [])) (sym (drop-tail r.ptr r.rows)))
  ]

  -- One after the other.
  unfoldable pub pushes : List A → Ring A → Ring A
  pushes [] r = r
  pushes (a ∷ as') r = pushes as' (push a r)

  latest-latest : (n : ℕ) (xs ys : List A) → latest n (latest n xs ++ ys) ≡ latest n (xs ++ ys)
  latest-latest n xs ys =
      let d = length xs - n in
      let e = drop-append d xs ys (omega arith) in
      let k : length (drop d (xs ++ ys)) ≡ length xs + length ys - d =
        omega (arith, length-drop d (xs ++ ys), length-append xs ys) in
      unfold latest in
      rw (sym e, k, length-append xs ys)
        (drop-drop (length xs + length ys - d - n) d (length xs + length ys - n) (xs ++ ys)
          (omega arith))

  latest_all : (n : ℕ) (xs : List A) → length xs ≤ n → latest n xs ≡ xs
  unfolding latest
  latest_all n xs h = let e : length xs - n ≡ 0 = omega arith in rw e refl

  pub length-oldest_first : (r : Ring A) → IsRing r → length (oldest_first r) ≡ r.size
  unfolding oldest_first
  length-oldest_first r v = elim (Bool-cases (ltb r.size r.capacity)) [
    | inl e ↦ rw e (omega (arith, length-take r.size r.rows, v.length_rows, v.size_le))
    | inr e ↦
        let l : r.size ≡ r.capacity = ground (arith, v.size_le) in
        rw e (
          omega (
            arith,
            length-append (drop r.ptr r.rows) (take r.ptr r.rows),
            length-drop r.ptr r.rows,
            length-take r.ptr r.rows,
            v.length_rows,
            v.ptr_lt,
          ))
  ]

  capacity-push : (a : A) (r : Ring A) → (push a r).capacity ≡ r.capacity
  unfolding push overwrite advance
  capacity-push a r = refl

  pub oldest_first-pushes :
      (xs : List A) (r : Ring A)
      → IsRing r
      → oldest_first (pushes xs r) ≡ latest r.capacity (oldest_first r ++ xs)
  unfolding pushes latest oldest_first push
  oldest_first-pushes [] r v = sym (
      rw (append-nil (oldest_first r)) (
        latest_all r.capacity (oldest_first r) (omega (arith, length-oldest_first r v, v.size_le))))
  oldest_first-pushes (x ∷ xs) r v =
      let o = oldest_first r in
      rw
        (
          oldest_first-pushes xs (push x r) (push-IsRing x r v),
          capacity-push x r,
          oldest_first-push x r v,
        )
        (latest-latest r.capacity (o ++ x ∷ []) xs
          ∙ ap (latest r.capacity) (append_assoc o (x ∷ []) xs))

  pub empty-IsRing : (c : ℕ) (a : A) → 0 < c → IsRing (empty c a)
  unfolding empty
  empty-IsRing c a h = record {
    capacity_pos = h;
    length_rows = length-replicate c a;
    ptr_lt = h;
    size_le = omega arith;
    filling = λ l. refl;
  }

  -- The rows that no push has filled are of no account.
  pub oldest_first-refill :
      (r : Ring A)
      → IsRing r
      → (ys : List A) → length ys ≡ r.capacity
      → oldest_first
          (record r { rows = take r.size r.rows ++ drop (length (take r.size r.rows)) ys })
        ≡ oldest_first r
  unfolding oldest_first
  oldest_first-refill r v ys h =
      let xs = take r.size r.rows in
      let k : length xs ≡ r.size =
        omega (arith, length-take r.size r.rows, v.length_rows, v.size_le) in
      elim (Bool-cases (ltb r.size r.capacity)) [
        | inl e ↦ rw e (take-append r.size xs (drop (length xs) ys) k)
        | inr e ↦
            let l : r.size ≡ r.capacity = ground (arith, v.size_le) in
            rw
              (
                e,
                drop-all (length xs) ys (omega arith),
                append-nil xs,
                take-all r.size r.rows (omega (arith, v.length_rows)),
              )
              refl
      ]
