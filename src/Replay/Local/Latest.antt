-- ===== src/Replay/Local/Latest.antt =====
-- The local buffer as a bounded queue of rows, and what a sample of it returns.
use hunter_kinodynamic_rl.Prelude.{
  All, ℕ, suc, ◌<◌, ◌==◌, ◌≡◌, refl, ap, ◌∙◌, false, some, List, [], ◌∷◌, ◌++◌, length, map,
  get_elem?, get_elem?-some, arith,
}
use hunter_kinodynamic_rl.Prelude.Result.{ok}
use hunter_kinodynamic_rl.Floats.{Floats}
use hunter_kinodynamic_rl.Replay.Arrays.{RandomState, Draws, gather}
use hunter_kinodynamic_rl.Replay.Ring.{Ring, push}
use hunter_kinodynamic_rl.Replay.Ring.Order.{
  IsRing, oldest_first, latest, pushes, push-IsRing, oldest_first-pushes,
}
use hunter_kinodynamic_rl.Replay.Ring.Index.{stored_at}
use hunter_kinodynamic_rl.Replay.Local.{Row, ReplayBuffer}
use hunter_kinodynamic_rl.Replay.Local.Add.{Transition, kept, add}
use hunter_kinodynamic_rl.Replay.Local.Sample.{Batch, sample_indices, sample}
use hunter_kinodynamic_rl.Replay.Local.Written.{Fits, row_of, row_written}

module _ ⦃M : Floats⦄ where
  open M use {of_ℕ, sub}

  -- The row is one of the ring's contents.
  abbrev pub Stored : Ring Row → Row → Type 0
  Stored r row = (k : ℕ) × (get_elem? (oldest_first r) k ≡ some row)

  module _ ⦃R : RandomState⦄ where
    -- A transition whose shapes fit is stored whole, in a row that the overwritten one leaves no trace in.
    add-row :
        (t : Transition) (b : ReplayBuffer)
        → IsRing b.ring
        → Fits b.state_dim b.action_dim b.max_candidates t
        → add t b ≡ (ok tt, record b { ring = push (row_of b.max_candidates t) b.ring })
    unfolding add kept
    add-row t b v f =
        let (old, e) =
          get_elem?-some b.ring.rows b.ring.ptr (omega (arith, v.length_rows, v.ptr_lt)) in
        rw (e, row_written b t old f) refl

    -- One call of `add` after the other.
    pub adds : List Transition → ReplayBuffer → ReplayBuffer
    adds [] b = b
    adds (t ∷ ts) b = adds ts (add t b).1

    adds-pushes :
        (ts : List Transition) (b : ReplayBuffer)
        → IsRing b.ring
        → All (Fits b.state_dim b.action_dim b.max_candidates) ts
        → adds ts b ≡ record b { ring = pushes (map (row_of b.max_candidates) ts) b.ring }
    unfolding adds pushes
    adds-pushes [] b v f = refl
    adds-pushes (t ∷ ts) b v (f, fs) =
        let row = row_of b.max_candidates t in
        rw (add-row t b v f)
          (adds-pushes ts (record b { ring = push row b.ring }) (push-IsRing row b.ring v) fs)

    -- Any number of transitions whose shapes fit, added to any buffer, leave the latest rows: the old
    -- contents and then one row for each transition, cut to the capacity from the front.
    pub adds-latest :
        (ts : List Transition) (b : ReplayBuffer)
        → IsRing b.ring
        → All (Fits b.state_dim b.action_dim b.max_candidates) ts
        → oldest_first (adds ts b).ring
          ≡ latest b.ring.capacity (oldest_first b.ring ++ map (row_of b.max_candidates) ts)
    adds-latest ts b v f =
        rw (adds-pushes ts b v f) (oldest_first-pushes (map (row_of b.max_candidates) ts) b.ring v)

    gather-Stored :
        (r : Ring Row)
        → IsRing r
        → (indices : List ℕ) → All (λ i. i < r.size) indices
        → (rows : List Row) × (gather r.rows indices ≡ ok rows)
          × (length rows ≡ length indices)
          × All (Stored r) rows
    unfolding gather
    gather-Stored r v [] h = ([], refl, refl, tt)
    gather-Stored r v (i ∷ is) (h, hs) =
        let (row, e, st) = stored_at r v i h in
        let (rows, g, l, sts) = gather-Stored r v is hs in
        (row ∷ rows, rw (e, g) refl, ap suc l, (st, sts))

    -- If the generator draws as documented, a sample of a buffer that holds a row returns as many rows
    -- as were asked for, each of them stored, and changes nothing but the generator.
    pub sample-Stored :
        (count : ℕ) (b : ReplayBuffer)
        → IsRing b.ring
        → 0 < b.ring.size
        → Draws R
        → (batch : Batch) × ((sample count b).0 ≡ ok batch)
          × (length batch.rows ≡ count)
          × All (Stored b.ring) batch.rows
          × ((sample count b).1 ≡ record b { rng = (R.randint b.ring.size count b.rng).1 })
    unfolding sample sample_indices
    sample-Stored count b v h d =
        let (l, in_range) = d b.ring.size count b.rng h in
        let (rows, g, k, st) =
          gather-Stored b.ring v (R.randint b.ring.size count b.rng).0 in_range in
        let nonempty : (b.ring.size == 0) ≡ false = ground arith in
        (
          record { rows = rows; not_done = map (λ row. sub (of_ℕ 1) row.base.done) rows },
          rw (nonempty, g) refl,
          k ∙ l,
          st,
          rw (nonempty, g) refl,
        )
