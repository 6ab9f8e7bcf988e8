-- ===== src/Insertion.antt =====
-- `insert_new_units` of src/units/unitset_manipulation/insert_new.rs. The search for a unit file and its
-- parsing are not part of it.
pub mod Mirrored
pub mod Names
use text.Mathlib.Text.{◌==◌ as str_eq}
use rustysd.Prelude.{
  String, Bool, true, false, not, List, [], ◌∷◌, ◌++◌, if◌then◌else◌, ◌==◌, contains, retain,
}
use rustysd.Prelude.Map.{insert, map_values}
use rustysd.Units.Id.{UnitId, unit_id_eq}
use rustysd.Units.Dependencies.{Dependencies}
use rustysd.Units.Unit.{UnitEntry}
use rustysd.Units.Runtime.{UnitTable}

-- How the check ends: with `Ok`, or one of its three errors.
pub data NameCheck : Type 0 where
  all_exist : NameCheck
  id_exists : UnitId → NameCheck
  name_exists : String → NameCheck
  names_missing : List UnitId → NameCheck

-- The keys of `names_needed`: each name once.
unfoldable pub add_names : List UnitId → List UnitId → List UnitId
add_names [] needed = needed
add_names (id ∷ ids) needed =
    add_names ids (if contains needed id then needed else needed ++ id ∷ [])

unfoldable pub names_needed : UnitTable → List UnitId → List UnitId
unfolding add_names
names_needed [] needed = needed
names_needed ((_, unit) ∷ units) needed =
    names_needed units (add_names unit.common.unit.refs_by_name needed)

-- One unit of the table against all new ones.
unfoldable pub clash : UnitId → UnitTable → NameCheck
clash id [] = all_exist
clash id ((_, new_unit) ∷ units) =
    let rest = clash id units in
    if id == new_unit.id
    then id_exists new_unit.id
    else if str_eq id.name new_unit.id.name
    then name_exists new_unit.id.name
    else rest

unfoldable pub clashes : UnitTable → UnitTable → NameCheck
unfolding clash
clashes new_units [] = all_exist
clashes new_units ((_, unit) ∷ units) =
    let rest = clashes new_units units in
    elim (clash unit.id new_units) [ all_exist ↦ rest | found ↦ found ]

-- `names_needed.remove(&unit.id)` for every unit of a table.
unfoldable pub drop_known : UnitTable → List UnitId → List UnitId
drop_known [] needed = needed
drop_known ((_, unit) ∷ units) needed = drop_known units (retain (λ id. not (id == unit.id)) needed)

unfoldable pub missing : List UnitId → NameCheck
missing [] = all_exist
missing (id ∷ ids) = names_missing (id ∷ ids)

-- The clashes are looked for while the names are dropped; an error ends the check.
unfoldable pub check_all_names_exist : UnitTable → UnitTable → NameCheck
unfolding clashes names_needed drop_known missing
check_all_names_exist new_units table =
    let rest = missing (drop_known new_units (drop_known table (names_needed new_units []))) in
    elim (clashes new_units table) [ all_exist ↦ rest | found ↦ found ]

unfoldable pub push_if : Bool → UnitId → List UnitId → List UnitId
push_if b id ids = if b then ids ++ id ∷ [] else ids

-- The relations to the new unit, in a unit of the table.
unfoldable pub relate : UnitId → Dependencies → UnitEntry → UnitEntry
unfolding push_if
relate new_id new unit =
    let deps = unit.common.dependencies in
    record unit {
      common = record unit.common {
        dependencies = record {
          wants = push_if (contains new.wanted_by unit.id) new_id deps.wants;
          wanted_by = push_if (contains new.wants unit.id) new_id deps.wanted_by;
          requires = push_if (contains new.required_by unit.id) new_id deps.requires;
          required_by = push_if (contains new.requires unit.id) new_id deps.required_by;
          before = push_if (contains new.after unit.id) new_id deps.before;
          after = push_if (contains new.before unit.id) new_id deps.after;
        };
      };
    }

unfoldable pub insert_unit : UnitId → UnitEntry → UnitTable → UnitTable
unfolding relate
insert_unit new_id new_unit table =
    insert new_id new_unit (map_values (relate new_id new_unit.common.dependencies) table)

unfoldable pub insert_all : UnitTable → UnitTable → UnitTable
unfolding insert_unit
insert_all [] table = table
insert_all ((new_id, new_unit) ∷ units) table = insert_all units (insert_unit new_id new_unit table)

unfoldable pub insert_new_units : UnitTable → UnitTable → NameCheck × UnitTable
unfolding check_all_names_exist insert_all
insert_new_units new_units table = elim (check_all_names_exist new_units table) [
  | all_exist ↦ (all_exist, insert_all new_units table)
  | found ↦ (found, table)
]
