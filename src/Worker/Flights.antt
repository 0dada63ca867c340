-- ===== src/Worker/Flights.antt =====
-- The worker never has two threads running.
use hunter_kinodynamic_rl.Prelude.{
  ℕ, ◌==◌, ==_refl, ◌≡◌, refl, ◌⊎◌, inl, inr, true, some, [], ◌∷◌, Bool-cases,
}
use hunter_kinodynamic_rl.Worker.{
  Joined, Process, init, busy, thread_ends, flight, call, returned, raised, left, pending,
}

-- The processes that calls and ending threads lead to, in any order.
pub data Reached {ℓ} (T E : Type ℓ) : Process → Type ℓ where
  starts : Reached T E init
  calls : {p : Process} → Reached T E p → (joined : Joined T E) → Reached T E (call joined p).1
  ends : {p : Process} → Reached T E p → (t : ℕ) → Reached T E (thread_ends t p)

-- At most the thread that the worker holds runs.
abbrev pub IsSingle : Process → Type 0
IsSingle p = (p.alive ≡ []) ⊎ ((t : ℕ) × ((p.thread ≡ some t) × (p.alive ≡ t ∷ [])))

without-IsSingle : (p : Process) (t : ℕ) → IsSingle p → IsSingle (thread_ends t p)
without-IsSingle p t (inl e) = inl (rw e refl)
without-IsSingle p t (inr (s, (q, e))) = elim (Bool-cases (s == t)) [
  | inl k ↦ inl (rw (e, k) refl)
  | inr k ↦ inr (s, (q, rw (e, k) refl))
]

module _ {ℓ} {T E : Type ℓ} where
  flight-IsSingle :
      (joined : Joined T E) (p : Process) → p.alive ≡ [] → IsSingle (flight joined p).1
  flight-IsSingle (returned v) p e = inl (rw (e, ==_refl p.next_thread) refl)
  flight-IsSingle (raised v) p e = inl (rw (e, ==_refl p.next_thread) refl)
  flight-IsSingle left p e = inl (rw (e, ==_refl p.next_thread) refl)
  flight-IsSingle pending p e = inr (p.next_thread, (refl, rw e refl))

  flight_lem :
      (joined : Joined T E) (p : Process) → (flight joined p).0.timed_out ≡ busy (flight joined p).1
  flight_lem (returned v) p = refl
  flight_lem (raised v) p = refl
  flight_lem left p = refl
  flight_lem pending p = rw (==_refl p.next_thread) refl

  call-IsSingle : (joined : Joined T E) (p : Process) → IsSingle p → IsSingle (call joined p).1
  unfolding call
  call-IsSingle joined p (inl e) = elim (Bool-cases (busy p)) [
    | inl b ↦ rw b (inl e)
    | inr b ↦ rw b (flight-IsSingle joined p e)
  ]
  call-IsSingle joined p (inr (t, (q, e))) =
      let b : busy p ≡ true = rw (q, e, ==_refl t) refl in rw b (inr (t, (q, e)))

  -- Whatever calls are made and whenever their threads end, no two threads of the worker run at
  -- once, and one that runs is the one that the worker holds.
  pub Reached-IsSingle : {p : Process} → Reached T E p → IsSingle p
  Reached-IsSingle starts = inl refl
  Reached-IsSingle (calls {p} r joined) = call-IsSingle joined p (Reached-IsSingle r)
  Reached-IsSingle (ends {p} r t) = without-IsSingle p t (Reached-IsSingle r)

  -- A call reports a timeout just when the thread that the worker holds still runs as the call
  -- returns, however its function fared and whatever ran before.
  pub call-busy :
      (joined : Joined T E) (p : Process) → (call joined p).0.timed_out ≡ busy (call joined p).1
  unfolding call
  call-busy joined p = elim (Bool-cases (busy p)) [
    | inl b ↦ rw (b, b) refl
    | inr b ↦ rw b (flight_lem joined p)
  ]
