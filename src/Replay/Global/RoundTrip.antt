-- ===== src/Replay/Global/RoundTrip.antt =====
-- A saved global buffer loads with the same contents, and only under the names it was saved with.
use hunter_kinodynamic_rl.Prelude.{
  ℕ, min, ◌==◌, ◌≡◌, ◌≢◌, refl, inl, inr, ◌⊎◌, Bool, true, false, ◌&&◌, String, List, [], ◌∷◌, ◌++◌,
  length, take, drop, replicate, length-take, length-replicate, Bool-cases, arith,
}
use hunter_kinodynamic_rl.Prelude.Int.{pos, leb_ℤ}
use hunter_kinodynamic_rl.Prelude.Dict.{string_key}
use hunter_kinodynamic_rl.Prelude.Result.{Result, ok, err, value_error, guard, ◌>>◌}
use hunter_kinodynamic_rl.Floats.{Floats}
use hunter_kinodynamic_rl.Replay.Arrays.{RandomState, broadcast-length}
use hunter_kinodynamic_rl.Replay.Ring.{empty}
use hunter_kinodynamic_rl.Replay.Ring.Order.{IsRing, oldest_first, oldest_first-refill}
use hunter_kinodynamic_rl.Replay.Global.{
  Tensors, Columns, GlobalReplayBuffer, global_init, blank_row,
}
use hunter_kinodynamic_rl.Replay.Global.Archive.{
  GlobalArchive, global_version, same_names, save_global, load_global, read_rows,
}

same_names_refl : (names : List String) → same_names names names ≡ true
same_names_refl [] = refl
same_names_refl (a ∷ names) = rw (string_key.same_refl a, same_names_refl names) refl

both : (a b : Bool) → (a && b) ≡ true → (a ≡ true) × (b ≡ true)
both true b h = (refl, h)
both false b h = cc

same_names-eq : (xs ys : List String) → same_names xs ys ≡ true → xs ≡ ys
same_names-eq [] [] h = refl
same_names-eq [] (b ∷ bs) h = cc
same_names-eq (a ∷ as') [] h = cc
same_names-eq (a ∷ as') (b ∷ bs) h =
    let (e, es) = both (string_key.same a b) (same_names as' bs) h in
    cc (string_key.same-eq a b e, same_names-eq as' bs es)

names_differ : (xs ys : List String) → xs ≢ ys → same_names xs ys ≡ false
names_differ xs ys h = elim (Bool-cases (same_names xs ys)) [
  | inl e ↦ absurd (h (same_names-eq xs ys e))
  | inr e ↦ e
]

version_differs : (v : ℕ) → v ≢ global_version → (v == global_version) ≡ false
version_differs v h = ground arith

-- A test that fails, or a failure of what comes after it.
refuses :
    {B : Type 0} (test : Bool) (next : Result B)
    → (test ≡ false) ⊎ (next ≡ err value_error)
    → (guard test value_error >> next) ≡ err value_error
refuses true next (inl h) = cc
refuses true next (inr h) = h
refuses false next h = refl

four_refuse :
    {B : Type 0} (a b c d : Bool) (next : Result B)
    → (a ≡ false) ⊎ ((b ≡ false) ⊎ ((c ≡ false) ⊎ (d ≡ false)))
    → (guard a value_error
        >> (guard b value_error >> (guard c value_error >> (guard d value_error >> next))))
      ≡ err value_error
four_refuse a b c d next (inl h) = refuses a _ (inl h)
four_refuse a b c d next (inr (inl h)) = refuses a _ (inr (refuses b _ (inl h)))
four_refuse a b c d next (inr (inr (inl h))) =
    refuses a _ (inr (refuses b _ (inr (refuses c _ (inl h)))))
four_refuse a b c d next (inr (inr (inr h))) =
    refuses a _ (inr (refuses b _ (inr (refuses c _ (inr (refuses d _ (inl h)))))))

module _ ⦃M : Floats⦄ ⦃T : Tensors⦄ ⦃R : RandomState⦄ where
  -- What `save` keeps of a buffer: everything but the rows that no transition fills.
  pub record SameGlobal (b c : GlobalReplayBuffer) : Type 0 where
    pub dims : c.dims ≡ b.dims
    pub columns : c.columns ≡ b.columns
    pub capacity : c.ring.capacity ≡ b.ring.capacity
    pub ptr : c.ring.ptr ≡ b.ring.ptr
    pub size : c.ring.size ≡ b.ring.size
    pub contents : oldest_first c.ring ≡ oldest_first b.ring
    pub rng : c.rng ≡ b.rng

  -- A buffer whose pointer and size are well formed, saved and loaded under any seed by code that
  -- expects the names of its columns, has the same dimensions, names, pointer, size, rows in order of
  -- age and generator state; its generation is the saved tag.
  pub load_global-save_global :
      (b : GlobalReplayBuffer) (generation : String) (seed : ℕ)
      → IsRing b.ring
      → (c : GlobalReplayBuffer) × (load_global (save_global b generation) seed b.columns ≡ ok c)
        × SameGlobal b c
        × (c.generation ≡ generation)
  unfolding load_global read_rows save_global global_init empty
  load_global-save_global b generation seed v =
      let xs = take b.ring.size b.ring.rows in
      let k : length xs ≡ b.ring.size =
        omega (arith, length-take b.ring.size b.ring.rows, v.length_rows, v.size_le) in
      let m : min b.ring.size b.ring.capacity ≡ b.ring.size = omega (arith, v.size_le) in
      let room : leb_ℤ (pos b.ring.capacity) (pos 0) ≡ false = ground (arith, v.capacity_pos) in
      let blanks = replicate b.ring.capacity (blank_row b.dims) in
      let rows = broadcast-length b.ring.size xs k in
      (
        record b {
          ring = record b.ring { rows = xs ++ drop (length xs) blanks };
          generation = generation;
        },
        rw
            (
              same_names_refl b.columns.map_channel_names,
              same_names_refl b.columns.scalar_names,
              same_names_refl b.columns.candidate_feature_names,
              room,
              m,
              rows,
            )
            refl,
        record {
          dims = refl;
          columns = refl;
          capacity = refl;
          ptr = refl;
          size = refl;
          contents =
              oldest_first-refill b.ring v blanks
                (length-replicate b.ring.capacity (blank_row b.dims));
          rng = refl;
        },
        refl,
      )

  -- A file of another schema version, or whose names of map channels, scalars or candidate features are
  -- not, in order, the ones that the caller expects, is refused with a ValueError, whatever else it holds.
  pub load_global-refuses :
      (file : GlobalArchive) (seed : ℕ) (expected : Columns)
      → (file.version ≢ global_version)
        ⊎ ((file.columns.map_channel_names ≢ expected.map_channel_names)
            ⊎ ((file.columns.scalar_names ≢ expected.scalar_names)
                ⊎ (file.columns.candidate_feature_names ≢ expected.candidate_feature_names)))
      → load_global file seed expected ≡ err value_error
  unfolding load_global
  load_global-refuses file seed expected h =
      four_refuse (file.version == global_version)
        (same_names file.columns.map_channel_names expected.map_channel_names)
        (same_names file.columns.scalar_names expected.scalar_names)
        (same_names file.columns.candidate_feature_names expected.candidate_feature_names)
        (read_rows file seed)
        (elim h [
          | inl v ↦ inl (version_differs file.version v)
          | inr (inl m) ↦ inr (inl (names_differ _ _ m))
          | inr (inr (inl c)) ↦ inr (inr (inl (names_differ _ _ c)))
          | inr (inr (inr f)) ↦ inr (inr (inr (names_differ _ _ f)))
        ])
