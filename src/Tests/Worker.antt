-- ===== src/Tests/Worker.antt =====
-- A call that outlives its time, and the worker's theorems at it.
use hunter_kinodynamic_rl.Prelude.{ℕ, ◌≡◌, refl, true, some}
use hunter_kinodynamic_rl.Worker.{
  Joined, Process, init, call, busy, thread_ends, returned, raised, pending,
}
use hunter_kinodynamic_rl.Worker.Flights.{
  IsSingle, starts, calls, ends, Reached-IsSingle, call-busy,
}

abbrev slow : Joined ℕ ℕ
slow = pending

abbrev hung : Process
hung = (call slow init).1

abbrev done : Joined ℕ ℕ
done = returned 5

abbrev failed : Joined ℕ ℕ
failed = raised 3

-- While the thread hangs, the next call starts none.
refused : (call done hung).0.timed_out ≡ true
unfolding call
refused = refl

recovered : (call done (thread_ends 0 hung)).0.result ≡ some 5
unfolding call
recovered = refl

Reached-IsSingle_example : IsSingle (call failed (thread_ends 0 hung)).1
Reached-IsSingle_example = Reached-IsSingle (calls (ends (calls starts slow) 0) failed)

call-busy_example : (call slow init).0.timed_out ≡ busy (call slow init).1
call-busy_example = call-busy slow init
