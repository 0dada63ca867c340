-- ===== src/Memory/Route.antt =====
-- navigation/memory/route_history.py: the sequence of visited nodes and what each arrival was.
pub mod Branch
pub mod Arrivals
use hunter_kinodynamic_rl.Prelude.{
  ℕ, suc, ◌+◌, ◌-◌, ◌==◌, Bool, true, false, ◌&&◌, Option, none, some, List, [], ◌∷◌, ◌++◌, length,
  drop, last?, get_elem?, if◌then◌else◌,
}
use hunter_kinodynamic_rl.Prelude.Int.{ℤ}
use hunter_kinodynamic_rl.Prelude.Dict.{is_some}
use hunter_kinodynamic_rl.Memory.Graph.Edges.{member, set_add}

pub data RouteEventType : Type 0 where
  enter revisit backtrack : RouteEventType

pub record RouteEvent : Type 0 where
  pub step : ℤ
  pub node_id : ℕ
  pub event_type : RouteEventType
  pub from_node_id : Option ℕ

pub record RouteHistory : Type 0 where
  pub sequence : List ℕ
  pub events : List RouteEvent
  pub visited_node_ids : List ℕ

unfoldable pub empty : RouteHistory
empty = record { sequence = []; events = []; visited_node_ids = [] }

unfoldable pub reset : RouteHistory → RouteHistory
unfolding empty
reset h = record h { sequence = []; events = []; visited_node_ids = [] }

abbrev pub current_node_id : RouteHistory → Option ℕ
current_node_id h = last? h.sequence

-- `sequence[-2]`, if there are two entries.
abbrev pub second_last? : List ℕ → Option ℕ
second_last? [] = none
second_last? (x ∷ []) = none
second_last? (x ∷ y ∷ []) = some x
second_last? (x ∷ y ∷ z ∷ zs) = second_last? (y ∷ z ∷ zs)

abbrev pub is_node : ℕ → Option ℕ → Bool
is_node x none = false
is_node x (some y) = x == y

unfoldable pub arrival_type : RouteHistory → ℕ → RouteEventType
arrival_type h node_id =
    if is_some (current_node_id h) && is_node node_id (second_last? h.sequence)
    then RouteEventType.backtrack
    else if member node_id h.visited_node_ids
    then RouteEventType.revisit
    else RouteEventType.enter

unfoldable pub record_arrival : RouteHistory → ℕ → ℤ → RouteEvent × RouteHistory
record_arrival h node_id now_step =
    let event : RouteEvent = record {
      step = now_step;
      node_id = node_id;
      event_type = arrival_type h node_id;
      from_node_id = current_node_id h;
    } in
    (
      event,
      record h {
        sequence = h.sequence ++ node_id ∷ [];
        visited_node_ids = set_add h.visited_node_ids node_id;
        events = h.events ++ event ∷ [];
      },
    )

abbrev pub has_visited : RouteHistory → ℕ → Bool
has_visited h node_id = member node_id h.visited_node_ids

-- `list.index`
abbrev pub index_of : List ℕ → ℕ → Option ℕ
index_of [] x = none
index_of (y ∷ ys) x =
    let rest = index_of ys x in
    if y == x then some 0 else elim rest [ none ↦ none | some i ↦ some (suc i) ]

-- `sequence[::-1]`
abbrev pub reversed : List ℕ → List ℕ
reversed [] = []
reversed (x ∷ xs) = reversed xs ++ x ∷ []

after_index : List ℕ → Option ℕ → List ℕ
after_index xs none = []
after_index xs (some i) = drop (length xs - 1 - i + 1) xs

unfoldable pub branch_since : RouteHistory → ℕ → List ℕ
unfolding after_index
branch_since h junction = after_index h.sequence (index_of (reversed h.sequence) junction)

abbrev pub occurrences : ℕ → List ℕ → ℕ
occurrences x [] = 0
occurrences x (y ∷ ys) = let rest = occurrences x ys in if y == x then rest + 1 else rest

abbrev pub visit_count : RouteHistory → ℕ → ℕ
visit_count h node_id = occurrences node_id h.sequence
