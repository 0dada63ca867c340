-- ===== src/Replay/Local/RoundTrip.antt =====
-- A saved local buffer loads with the same contents.
use hunter_kinodynamic_rl.Prelude.{
  ℕ, ◌<◌, ◌≤◌, min, ◌≡◌, refl, ap, ◌∙◌, false, ◌||◌, String, some, List, [], ◌∷◌, ◌++◌, length,
  take, drop, replicate, map, length-take, length-map, length-replicate, arith,
}
use hunter_kinodynamic_rl.Prelude.Int.{pos, leb_ℤ, ltb_ℤ}
use hunter_kinodynamic_rl.Prelude.Result.{ok}
use hunter_kinodynamic_rl.Floats.{Floats}
use hunter_kinodynamic_rl.Replay.Arrays.{RandomState, broadcast-length}
use hunter_kinodynamic_rl.Replay.Ring.{empty}
use hunter_kinodynamic_rl.Replay.Ring.Order.{IsRing, oldest_first, oldest_first-refill}
use hunter_kinodynamic_rl.Replay.Local.{Row, ReplayBuffer, init, blank}
use hunter_kinodynamic_rl.Replay.Local.Archive.{save, load, put_base, put_added}

module _ ⦃M : Floats⦄ where
  put-rows :
      (xs rows : List Row)
      → length xs ≤ length rows
      → put_added (map (λ row. row.added) xs) (put_base (map (λ row. row.base) xs) rows)
        ≡ xs ++ drop (length xs) rows
  unfolding put_added put_base
  put-rows [] rows h = refl
  put-rows (x ∷ xs) [] h = absurd (omega arith)
  put-rows (x ∷ xs) (row ∷ rows) h = ap (λ ys. x ∷ ys) (put-rows xs rows (omega arith))

  module _ ⦃R : RandomState⦄ where
    -- What `save` keeps of a buffer: everything but the rows that no transition fills.
    pub record SameContents (b c : ReplayBuffer) : Type 0 where
      pub state_dim : c.state_dim ≡ b.state_dim
      pub action_dim : c.action_dim ≡ b.action_dim
      pub max_candidates : c.max_candidates ≡ b.max_candidates
      pub capacity : c.ring.capacity ≡ b.ring.capacity
      pub ptr : c.ring.ptr ≡ b.ring.ptr
      pub size : c.ring.size ≡ b.ring.size
      pub contents : oldest_first c.ring ≡ oldest_first b.ring
      pub rng : c.rng ≡ b.rng

    -- A buffer that the constructor made and calls filled, saved and loaded under any seed, has the
    -- same dimensions, pointer, size, rows in order of age and generator state, so that it samples
    -- and overwrites as the saved one would; its generation is the saved tag.
    pub load-save :
        (b : ReplayBuffer) (generation : String) (seed : ℕ)
        → IsRing b.ring
        → 0 < b.state_dim
        → 0 < b.action_dim
        → (c : ReplayBuffer) × (load (save b generation) seed ≡ ok c)
          × SameContents b c
          × (c.generation ≡ some generation)
    unfolding load save init empty
    load-save b generation seed v s a =
        let xs = take b.ring.size b.ring.rows in
        let k : length xs ≡ b.ring.size =
          omega (arith, length-take b.ring.size b.ring.rows, v.length_rows, v.size_le) in
        let m : min b.ring.size b.ring.capacity ≡ b.ring.size = omega (arith, v.size_le) in
        let dims : (leb_ℤ (pos b.state_dim) (pos 0) || leb_ℤ (pos b.action_dim) (pos 0)) ≡ false =
          ground arith in
        let room : leb_ℤ (pos b.ring.capacity) (pos 0) ≡ false = ground (arith, v.capacity_pos) in
        let wide : ltb_ℤ (pos b.max_candidates) (pos 0) ≡ false = ground arith in
        let blanks = replicate b.ring.capacity (blank b.state_dim b.action_dim b.max_candidates) in
        let base =
          broadcast-length b.ring.size (map (λ row. row.base) xs)
            (length-map (λ row. row.base) xs ∙ k) in
        let added =
          broadcast-length b.ring.size (map (λ row. row.added) xs)
            (length-map (λ row. row.added) xs ∙ k) in
        let put = put-rows xs blanks (
          omega (
            arith,
            length-replicate b.ring.capacity (blank b.state_dim b.action_dim b.max_candidates),
            v.size_le,
          )) in
        (
          record b {
            ring = record b.ring { rows = xs ++ drop (length xs) blanks };
            generation = some generation;
          },
          rw (dims, room, wide, m, base, added, put) refl,
          record {
            state_dim = refl;
            action_dim = refl;
            max_candidates = refl;
            capacity = refl;
            ptr = refl;
            size = refl;
            contents = oldest_first-refill b.ring v blanks (
                length-replicate b.ring.capacity (blank b.state_dim b.action_dim b.max_candidates));
            rng = refl;
          },
          refl,
        )
