-- ===== src/Replay/Ring.antt =====
-- The write pointer that `ReplayBuffer` and `GlobalReplayBuffer` move in the same way: arrays of a
-- fixed capacity, overwritten in a circle. One row stands for the arrays' entries at one index.
pub mod Order
pub mod Index
use hunter_kinodynamic_rl.Prelude.{ℕ, ◌+◌, ◌%◌, min, List, set, replicate}

pub record Ring (A : Type 0) : Type 0 where
  pub capacity : ℕ
  pub ptr : ℕ
  pub size : ℕ
  pub rows : List A

module _ {A : Type 0} where
  -- The arrays filled with one value.
  unfoldable pub empty : ℕ → A → Ring A
  empty capacity a = record { capacity = capacity; ptr = 0; size = 0; rows = replicate capacity a }

  -- A write to the row under the pointer that does not advance it.
  unfoldable pub overwrite : A → Ring A → Ring A
  overwrite a r = record r { rows = set r.rows r.ptr a }

  unfoldable pub advance : Ring A → Ring A
  advance r = record r { ptr = (r.ptr + 1) % r.capacity; size = min (r.size + 1) r.capacity }

  unfoldable pub push : A → Ring A → Ring A
  unfolding overwrite advance
  push a r = advance (overwrite a r)
