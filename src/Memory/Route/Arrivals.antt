-- ===== src/Memory/Route/Arrivals.antt =====
-- What an arrival is called, and what the history keeps of a run of arrivals.
use hunter_kinodynamic_rl.Prelude.{
  ℕ, ◌==◌, ==→eq, ==_refl, ◌≡◌, refl, sym, ap, ◌∙◌, ◌↔◌, inl, inr, true, false, ◌||◌, ◌&&◌, some,
  List, [], ◌∷◌, ◌++◌, length, length-append, last?, Bool-cases, arith,
}
use hunter_kinodynamic_rl.Prelude.Int.{ℤ}
use hunter_kinodynamic_rl.Prelude.Slices.{append_assoc}
use hunter_kinodynamic_rl.Prelude.Dict.{is_some}
use hunter_kinodynamic_rl.Memory.Graph.Edges.{member, set_add}
use hunter_kinodynamic_rl.Memory.Route.{
  RouteHistory, RouteEventType, empty, record_arrival, arrival_type, current_node_id, second_last?,
  is_node,
}
use hunter_kinodynamic_rl.Memory.Route.Branch.{member-append}

-- Arrivals at the nodes of a list, one step each.
unfoldable pub arrivals : List (ℕ × ℤ) → RouteHistory → RouteHistory
arrivals [] h = h
arrivals ((node_id, step) ∷ rest) h = arrivals rest (record_arrival h node_id step).1

-- The visited set is the set of the sequence, and each arrival has its event.
pub record Consistent (h : RouteHistory) : Type 0 where
  pub visited : (x : ℕ) → member x h.visited_node_ids ≡ member x h.sequence
  pub length_events : length h.events ≡ length h.sequence

pub member-set_add : (x y : ℕ) (xs : List ℕ) → member x (set_add xs y) ≡ (member x xs || (y == x))
member-set_add x y xs = elim (Bool-cases (member y xs)) [
  | inl e ↦ elim (Bool-cases (y == x)) [
    | inl o ↦ rw (e, o, ap (λ z. member z xs) (sym (==→eq y x o)) ∙ e) refl
    | inr o ↦ rw (e, o) (ground arith)
  ]
  | inr e ↦ rw (e, member-append x xs (y ∷ [])) (ground arith)
]

pub record_arrival-Consistent :
    (h : RouteHistory) (node_id : ℕ) (step : ℤ)
    → Consistent h
    → Consistent (record_arrival h node_id step).1
unfolding record_arrival
record_arrival-Consistent h n step c = record {
  visited = λ x.
      rw (member-set_add x n h.visited_node_ids, member-append x h.sequence (n ∷ []), c.visited x)
        (ground arith);
  length_events = omega (
    arith,
    c.length_events,
    length-append h.sequence (n ∷ []),
    length-append h.events ((record_arrival h n step).0 ∷ []),
  );
}

-- The last arrival but one was at the node.
pub CameFrom : ℕ → List ℕ → Type 0
CameFrom n xs = (front : List ℕ) × (y : ℕ) × (xs ≡ front ++ n ∷ y ∷ [])

second_last-CameFrom : (n : ℕ) (xs : List ℕ) → is_node n (second_last? xs) ≡ true → CameFrom n xs
unfolding CameFrom
second_last-CameFrom n [] h = absurd (ground arith)
second_last-CameFrom n (x ∷ []) h = absurd (ground arith)
second_last-CameFrom n (x ∷ y ∷ []) h = ([], y, ap (λ z. z ∷ y ∷ []) (sym (==→eq n x h)))
second_last-CameFrom n (x ∷ y ∷ z ∷ zs) h =
    let (front, w, e) = second_last-CameFrom n (y ∷ z ∷ zs) h in (x ∷ front, w, ap (λ ys. x ∷ ys) e)

second_last-append : (n y : ℕ) (front : List ℕ) → second_last? (front ++ n ∷ y ∷ []) ≡ some n
second_last-append n y [] = refl
second_last-append n y (a ∷ []) = refl
second_last-append n y (a ∷ b ∷ []) = refl
second_last-append n y (a ∷ b ∷ c ∷ front) = second_last-append n y (b ∷ c ∷ front)

pub last-append : (n : ℕ) (front : List ℕ) → last? (front ++ n ∷ []) ≡ some n
last-append n [] = refl
last-append n (a ∷ []) = refl
last-append n (a ∷ b ∷ front) = last-append n (b ∷ front)

last-CameFrom :
    (n : ℕ) (xs : List ℕ)
    → CameFrom n xs
    → (is_some (last? xs) && is_node n (second_last? xs)) ≡ true
unfolding CameFrom
last-CameFrom n xs (front, y, e) =
    let l : last? xs ≡ some y =
      ap last? (e ∙ sym (append_assoc front (n ∷ []) (y ∷ []))) ∙ last-append y (front ++ n ∷ []) in
    let s : second_last? xs ≡ some n = ap second_last? e ∙ second_last-append n y front in
    rw (l, s, ==_refl n) refl

member-CameFrom : (n : ℕ) (xs : List ℕ) → CameFrom n xs → member n xs ≡ true
unfolding CameFrom
member-CameFrom n xs (front, y, e) =
    rw (e, member-append n front (n ∷ y ∷ []), ==_refl n) (ground arith)

-- In a history that calls made, an arrival is called an entrance just when its node was never
-- visited, and a backtrack just when the last arrival but one was at its node, also when that and
-- the last one were at the same node: a third arrival in a row at one node is no revisit.
pub record_arrival-classified :
    (h : RouteHistory) (node_id : ℕ) (step : ℤ)
    → Consistent h
    → (((record_arrival h node_id step).0.event_type ≡ RouteEventType.enter)
        ↔ (member node_id h.sequence ≡ false))
      × (((record_arrival h node_id step).0.event_type ≡ RouteEventType.backtrack)
          ↔ CameFrom node_id h.sequence)
unfolding record_arrival arrival_type
record_arrival-classified h n step c =
    elim (Bool-cases (is_some (current_node_id h) && is_node n (second_last? h.sequence))) [
      | inl t ↦
          let from = second_last-CameFrom n h.sequence (ground arith) in
          let m = member-CameFrom n h.sequence from in
          rw t ((λ e. ground arith, λ e. ground arith), (λ e. from, λ e. refl))
      | inr f ↦
          let never : CameFrom n h.sequence → ⊥ =
            λ from. let q = last-CameFrom n h.sequence from in ground arith in
          let v = c.visited n in
          rw f (
            (λ e. ground arith, λ e. ground arith),
            (λ e. absurd (ground arith), λ from. absurd (never from)),
          )
    ]

pub arrivals-Consistent :
    (visits : List (ℕ × ℤ)) (h : RouteHistory) → Consistent h → Consistent (arrivals visits h)
unfolding arrivals
arrivals-Consistent [] h c = c
arrivals-Consistent ((n, step) ∷ visits) h c =
    arrivals-Consistent visits (record_arrival h n step).1 (record_arrival-Consistent h n step c)

pub empty-Consistent : Consistent empty
unfolding empty
empty-Consistent = record { visited = λ x. refl; length_events = refl }
