-- ===== src/Prelude/Names.antt =====
-- Lists of names, sorted as Python sorts texts: by their code points.
use Prim.Native.Nat.{ℕ, zero, suc, ◌/◌, ◌%◌, Ordering}
use Prim.Native.String.{String, compare, ◌++◌ as ◌<>◌}
use mathlib.Core.Bool.{Bool, true, false}
use mathlib.Core.List.{List, [], ◌∷◌}
use hunter_kinodynamic_rl.Prelude.Tests.{ltb, ◌==◌, if◌then◌else◌}

abbrev pub name_leb : String → String → Bool
name_leb a b = elim (compare a b) [ Ordering.gt ↦ false | _ ↦ true ]

unfoldable pub insert_name : String → List String → List String
insert_name a [] = a ∷ []
insert_name a (b ∷ names) =
    let rest = insert_name a names in if name_leb a b then a ∷ b ∷ names else b ∷ rest

-- `sorted(names)`
unfoldable pub sort_names : List String → List String
sort_names [] = []
sort_names (a ∷ names) = insert_name a (sort_names names)

abbrev digit : ℕ → String
digit n =
    if n == 0
    then "0"
    else if n == 1
    then "1"
    else if n == 2
    then "2"
    else if n == 3
    then "3"
    else if n == 4
    then "4"
    else if n == 5
    then "5"
    else if n == 6
    then "6"
    else if n == 7
    then "7"
    else if n == 8
    then "8"
    else "9"

-- `str(n)` of a number that is not negative, with one unit of fuel for each digit and to spare.
unfoldable pub digits : ℕ → ℕ → String
digits zero n = ""
digits (suc fuel) n =
    let front = digits fuel (n / 10) in if ltb n 10 then digit n else front <> digit (n % 10)

abbrev pub decimal : ℕ → String
decimal n = digits (suc n) n
