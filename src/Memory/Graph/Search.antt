-- ===== src/Memory/Graph/Search.antt =====
-- `neighbors` and `is_connected`: a breadth-first search, whose `while` is recursion on fuel.
use hunter_kinodynamic_rl.Prelude.{
  ℕ, zero, suc, ◌==◌, leb, Bool, true, false, not, ◌||◌, Option, none, some, List, [], ◌∷◌, ◌++◌,
  length, if◌then◌else◌,
}
use hunter_kinodynamic_rl.Floats.{Floats}
use hunter_kinodynamic_rl.Prelude.Dict.{Dict, has, number_key}
use hunter_kinodynamic_rl.Memory.Graph.{TopologicalGraph}
use hunter_kinodynamic_rl.Memory.Graph.Edges.{adjacent, member}

-- The neighbors of one node, with the nodes seen and the next frontier. `none`: the target is met.
unfoldable pub scan : ℕ → List ℕ → List ℕ × List ℕ → Option (List ℕ × List ℕ)
scan b [] acc = some acc
scan b (x ∷ xs) (seen, nxt) =
    let rest = scan b xs (if member x seen then (seen, nxt) else (x ∷ seen, nxt ++ x ∷ [])) in
    if x == b then none else rest

-- The frontier, one node after the other.
unfoldable pub sweep :
    ℕ → Dict ℕ (List ℕ) → List ℕ → Option (List ℕ × List ℕ) → Option (List ℕ × List ℕ)
sweep b d [] acc = acc
sweep b d (n ∷ ns) none = none
sweep b d (n ∷ ns) (some acc) = sweep b d ns (scan b (adjacent d n) acc)

-- One round for each unit of fuel.
unfoldable pub search : ℕ → ℕ → Dict ℕ (List ℕ) → Option (List ℕ × List ℕ) → Bool
search fuel b d none = true
search zero b d (some acc) = false
search (suc fuel) b d (some (seen, [])) = false
search (suc fuel) b d (some (seen, n ∷ ns)) = search fuel b d (sweep b d (n ∷ ns) (some (seen, [])))

-- The order in which `sorted` puts distinct numbers.
pub insert_sorted : ℕ → List ℕ → List ℕ
insert_sorted x [] = x ∷ []
insert_sorted x (y ∷ ys) = let rest = insert_sorted x ys in if leb x y then x ∷ y ∷ ys else y ∷ rest

module _ ⦃M : Floats⦄ where
  unfoldable pub neighbors : TopologicalGraph → ℕ → List ℕ
  neighbors g node_id = sorted (adjacent g.adjacency node_id)
    where
      sorted : List ℕ → List ℕ
      sorted [] = []
      sorted (x ∷ xs) = insert_sorted x (sorted xs)

  -- The search runs at most once for each node and once more.
  unfoldable pub is_connected : TopologicalGraph → ℕ → ℕ → Bool
  is_connected g a b =
      if not (has g.nodes a) || not (has g.nodes b)
      then false
      else if a == b
      then true
      else search (suc (length g.nodes)) b g.adjacency (some (a ∷ [], a ∷ []))
