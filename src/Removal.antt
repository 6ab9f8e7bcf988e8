-- ===== src/Removal.antt =====
-- src/units/unitset_manipulation/remove.rs: a unit is taken out of the table, with the units that name
-- it in their configuration, once it and the units that require it are stopped.
pub mod Checks
pub mod Referrers
pub mod Clean
pub mod Gone
pub mod Ends
use rustysd.Prelude.{
  ℕ, zero, suc, ◌+◌, ◌*◌, String, Bool, true, false, not, ◌&&◌, List, [], ◌∷◌, ◌++◌, Option, none,
  some, if◌then◌else◌, ◌==◌, contains, length,
}
use rustysd.Prelude.Map.{get, remove, map_values}
use rustysd.Units.Id.{UnitId, unit_id_eq}
use rustysd.Units.Status.{is_stopped}
use rustysd.Units.Dependencies.{remove_id}
use rustysd.Units.Unit.{UnitEntry}
use rustysd.Units.Runtime.{UnitTable}

-- How a check ends: `Ok`, `Err` with the name of a unit that is not stopped, or the panic at a unit that is
-- not in the table.
pub data Check : Type 0 where
  passed : Check
  refused : String → Check
  check_panicked check_out_of_fuel : Check

-- `?`
unfoldable pub and_also : Check → Check → Check
and_also passed next = next
and_also (refused name) next = refused name
and_also check_panicked next = check_panicked
and_also check_out_of_fuel next = check_out_of_fuel

unfoldable pub check_each : (UnitId → Check) → List UnitId → Check
unfolding and_also
check_each check [] = passed
check_each check (id ∷ ids) = and_also (check id) (check_each check ids)

-- The fuel bounds the depth of the recursion.
unfoldable pub check_deactivated_recursive : ℕ → UnitTable → UnitId → Check
unfolding check_each is_stopped
check_deactivated_recursive zero table id = check_out_of_fuel
check_deactivated_recursive (suc fuel) table id = elim (get id table) [
  | none ↦ check_panicked
  | some unit ↦
      let rest =
        check_each (check_deactivated_recursive fuel table) unit.common.dependencies.required_by in
      if is_stopped unit.common.status then rest else refused unit.id.name
]

-- The units but `rm_id` that name it in their configuration, in the order of the table.
unfoldable pub referrers : UnitId → UnitTable → List UnitId
referrers rm_id [] = []
referrers rm_id ((id, unit) ∷ units) =
    let rest = referrers rm_id units in
    if not (id == rm_id) && contains unit.common.unit.refs_by_name rm_id then id ∷ rest else rest

-- `for id in new_ids { find_all_depending(id, unit_table, ids) }`
unfoldable pub find_each :
    (UnitId → List UnitId → List UnitId) → List UnitId → List UnitId → List UnitId
find_each find [] ids = ids
find_each find (id ∷ new_ids) ids = find_each find new_ids (find id ids)

-- Each call extends `ids` by all that its own calls are for, so that these return at once: two levels are
-- all that any run needs.
unfoldable pub find_all_depending : ℕ → UnitTable → UnitId → List UnitId → List UnitId
unfolding referrers find_each
find_all_depending zero table rm_id ids = ids
find_all_depending (suc fuel) table rm_id ids =
    let new_ids = referrers rm_id table in
    let found = find_each (find_all_depending fuel table) new_ids (ids ++ new_ids) in
    if contains ids rm_id then ids else found

unfoldable pub forget : UnitId → UnitEntry → UnitEntry
unfolding remove_id
forget rm_id unit = record unit {
  common = record unit.common { dependencies = remove_id rm_id unit.common.dependencies };
}

unfoldable pub remove_single_unit : UnitId → UnitTable → UnitTable
unfolding forget
remove_single_unit rm_id table = remove rm_id (map_values (forget rm_id) table)

-- `for id in next_ids { remove_with_depending_units(id, unit_table) }`, where `none` is out of fuel.
unfoldable pub remove_each :
    (UnitId → UnitTable → Option UnitTable) → List UnitId → UnitTable → Option UnitTable
remove_each step [] table = some table
remove_each step (id ∷ ids) table = elim (step id table) [
  | none ↦ none
  | some table' ↦ remove_each step ids table'
]

unfoldable pub remove_with_depending_units : ℕ → UnitId → UnitTable → Option UnitTable
unfolding remove_single_unit referrers remove_each
remove_with_depending_units zero rm_id table = none
remove_with_depending_units (suc fuel) rm_id table =
    let table' = remove_single_unit rm_id table in
    remove_each (remove_with_depending_units fuel) (referrers rm_id table') table'

-- How a removal ends.
pub data Removed : Type 0 where
  removed : UnitTable → Removed
  removal_refused : String → Removed
  removal_panicked removal_out_of_fuel : Removed

unfoldable pub remove_checked : Option UnitTable → Check → Removed
remove_checked (some table) passed = removed table
remove_checked none passed = removal_out_of_fuel
remove_checked table (refused name) = removal_refused name
remove_checked table check_panicked = removal_panicked
remove_checked table check_out_of_fuel = removal_out_of_fuel

-- `fuel` is for the two checks, whose recursion nothing else bounds.
unfoldable pub remove_unit_with_dependencies : ℕ → UnitId → UnitTable → Removed
unfolding check_deactivated_recursive find_all_depending remove_with_depending_units remove_checked
    and_also check_each
remove_unit_with_dependencies fuel rm_id table =
    remove_checked (remove_with_depending_units (2 * length table + 2) rm_id table) (
      and_also (check_deactivated_recursive fuel table rm_id)
        (check_each (check_deactivated_recursive fuel table) (find_all_depending 2 table rm_id [])))
