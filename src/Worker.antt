-- ===== src/Worker.antt =====
-- The worker that runs one bounded call at a time, navigation/local_rl/single_flight_worker.py.
-- Threads are numbers, in the order in which they start, and the process keeps those that run. How a
-- call's function has fared when `join` returns is data, and a thread that outlives its call may
-- end at any later time.
pub mod Flights
use hunter_kinodynamic_rl.Prelude.{
  ℕ, suc, ◌==◌, Bool, true, false, ◌||◌, Option, none, some, List, [], ◌∷◌, if◌then◌else◌,
}

-- At the return of `join`: the function returned, it raised an exception, it left the thread by
-- something that is no `Exception`, or it still runs.
pub data Joined {ℓ} (T : Type ℓ) (E : Type ℓ) : Type ℓ where
  returned : T → Joined T E
  raised : E → Joined T E
  left pending : Joined T E

pub record Answer {ℓ} (T : Type ℓ) (E : Type ℓ) : Type ℓ where
  pub result : Option T
  pub error : Option E
  pub timed_out : Bool

-- The worker's `_thread`, beside the threads of the process that run and the next thread.
pub record Process : Type 0 where
  pub thread : Option ℕ
  pub alive : List ℕ
  pub next_thread : ℕ

abbrev pub init : Process
init = record { thread = none; alive = []; next_thread = 0 }

abbrev pub is_alive : List ℕ → ℕ → Bool
is_alive [] t = false
is_alive (x ∷ xs) t = (x == t) || is_alive xs t

abbrev pub holds : List ℕ → Option ℕ → Bool
holds alive none = false
holds alive (some t) = is_alive alive t

abbrev pub busy : Process → Bool
busy p = holds p.alive p.thread

-- The thread is no longer among those that run.
abbrev pub without : List ℕ → ℕ → List ℕ
without [] t = []
without (x ∷ xs) t = let rest = without xs t in if x == t then rest else x ∷ rest

abbrev pub thread_ends : ℕ → Process → Process
thread_ends t p = record p { alive = without p.alive t }

-- `Thread(...)`, `self._thread = thread` and `thread.start()`.
abbrev pub started : Process → Process
started p = record {
  thread = some p.next_thread;
  alive = p.next_thread ∷ p.alive;
  next_thread = suc p.next_thread;
}

-- `join` has seen the thread end, and the worker lets it go.
abbrev pub released : Process → Process
released p = record (started p) { thread = none; alive = without (started p).alive p.next_thread }

module _ {ℓ} {T E : Type ℓ} where
  abbrev timeout : Answer T E
  timeout = record { result = none; error = none; timed_out = true }

  -- A new thread, which then `join` waits for.
  abbrev pub flight : Joined T E → Process → Answer T E × Process
  flight joined p = elim joined [
    | pending ↦ (timeout, started p)
    | returned v ↦ (record { result = some v; error = none; timed_out = false }, released p)
    | raised e ↦ (record { result = none; error = some e; timed_out = false }, released p)
    | left ↦ (record { result = none; error = none; timed_out = false }, released p)
  ]

  unfoldable pub call : Joined T E → Process → Answer T E × Process
  call joined p = if busy p then (timeout, p) else flight joined p
