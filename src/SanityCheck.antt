-- ===== src/SanityCheck.antt =====
-- src/units/unitset_manipulation/sanity_check.rs: a depth-first search for circles in the start order.
pub mod Acyclic
pub mod Accepted
pub mod Circles
pub mod Ends
pub mod Rounds
pub mod Loop
use rustysd.Prelude.{
  ℕ, zero, suc, ◌+◌, Bool, true, false, ◌&&◌, List, [], ◌∷◌, ◌++◌, Option, none, some,
  if◌then◌else◌, ◌==◌, contains, retain, length, not,
}
use rustysd.Prelude.Map.{get, keys}
use rustysd.Units.Id.{UnitId, unit_id_eq}
use rustysd.Units.Unit.{UnitEntry}
use rustysd.Units.Runtime.{UnitTable}

-- `finished_ids` and `not_finished_ids`.
pub record Progress : Type 0 where
  pub finished : List UnitId
  pub not_finished : List UnitId

unfoldable pub finish : UnitId → Progress → Progress
finish id p = record {
  finished = id ∷ p.finished;
  not_finished = retain (λ j. not (j == id)) p.not_finished;
}

unfoldable pub finish_all : List UnitId → Progress → Progress
unfolding finish
finish_all [] p = p
finish_all (id ∷ ids) p = finish_all ids (finish id p)

-- How `search_backedge` ends; `panicked` is the `unwrap` of a unit that is not in the table.
pub data Search : Type 0 where
  fine : Progress → Search
  circle : List UnitId → Progress → Search
  panicked out_of_fuel : Search

-- `visited_ids[circle_start_idx..]`: from the first occurrence on.
unfoldable pub from_first : UnitId → List UnitId → List UnitId
from_first id [] = []
from_first id (x ∷ xs) = if x == id then x ∷ xs else from_first id xs

unfoldable pub then_search : Search → (Progress → Search) → Search
then_search (fine p) next = next p
then_search (circle ids p) next = circle ids p
then_search panicked next = panicked
then_search out_of_fuel next = out_of_fuel

-- `for next_id in before { search_backedge(next_id)? }`
unfoldable pub search_all : (UnitId → Progress → Search) → List UnitId → Progress → Search
unfolding then_search
search_all search [] p = fine p
search_all search (id ∷ ids) p = then_search (search id p) (search_all search ids)

-- `visited` is the current path. The fuel bounds its length.
unfoldable pub search_backedge : ℕ → UnitTable → List UnitId → UnitId → Progress → Search
unfolding finish_all from_first search_all
search_backedge zero table visited id p = out_of_fuel
search_backedge (suc fuel) table visited id p = elim (contains p.finished id) [
  | true ↦ fine p
  | false ↦ elim (contains visited id) [
    | true ↦ let ids = from_first id visited in circle ids (finish_all ids p)
    | false ↦ elim (get id table) [
      | none ↦ panicked
      | some unit ↦
          then_search
            (search_all (search_backedge fuel table (visited ++ id ∷ []))
              unit.common.dependencies.before p)
            (λ p'. fine (finish id p'))
    ]
  ]
]

-- No incoming edge from a unit that is not finished.
unfoldable pub is_free : List UnitId → List UnitId → Bool
is_free finished [] = true
is_free finished (id ∷ ids) = contains finished id && is_free finished ids

pub data Root : Type 0 where
  root : UnitId → Root
  no_root missing_unit : Root

-- The first unfinished unit with no incoming edge.
unfoldable pub find_root : UnitTable → List UnitId → List UnitId → Root
unfolding is_free
find_root table finished [] = no_root
find_root table finished (id ∷ ids) =
    let rest = find_root table finished ids in
    elim (get id table) [
      | none ↦ missing_unit
      | some unit ↦ if is_free finished unit.common.dependencies.after then root id else rest
    ]

-- How the loop ends: with the circles that were found.
pub data Checked : Type 0 where
  circles_found : List (List UnitId) → Checked
  check_panicked check_out_of_fuel : Checked

unfoldable pub next_round :
    (List (List UnitId) → Progress → Checked) → List (List UnitId) → Search → Checked
next_round continue circles (fine p) = continue circles p
next_round continue circles (circle ids p) = continue (circles ++ ids ∷ []) p
next_round continue circles panicked = check_panicked
next_round continue circles out_of_fuel = check_out_of_fuel

unfoldable pub check_round :
    (List (List UnitId) → Progress → Checked)
    → UnitTable
    → List (List UnitId)
    → Progress
    → Root
    → Checked
unfolding next_round search_backedge
check_round continue table circles p (root id) =
    next_round continue circles (search_backedge (length table + 2) table [] id p)
check_round continue table circles p no_root = circles_found (circles ++ p.not_finished ∷ [])
check_round continue table circles p missing_unit = check_panicked

unfoldable pub check_loop : ℕ → UnitTable → List (List UnitId) → Progress → Checked
unfolding find_root check_round
check_loop zero table circles p = check_out_of_fuel
check_loop (suc fuel) table circles p = elim p.not_finished [
  | [] ↦ circles_found circles
  | _ ∷ _ ↦
      check_round (check_loop fuel table) table circles p
        (find_root table p.finished p.not_finished)
]

-- Each round finishes a unit. `circles_found []` is `Ok(())`.
unfoldable pub sanity_check_dependencies : UnitTable → Checked
unfolding check_loop
sanity_check_dependencies table =
    check_loop (length table + 1) table [] (record { finished = []; not_finished = keys table })
