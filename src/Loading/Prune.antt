-- ===== src/Loading/Prune.antt =====
-- `prune_units` of src/units/loading/dependency_resolving.rs.
pub mod Cut
pub mod Kept
use text.Mathlib.Text.{◌==◌ as str_eq}
use rustysd.Prelude.{
  String, Bool, not, List, [], ◌∷◌, Option, none, some, contains, if◌then◌else◌, retain,
}
use rustysd.Prelude.Map.{keys, remove, map_values}
use rustysd.Units.Id.{UnitId, unit_id_eq}
use rustysd.Units.Dependencies.{Dependencies, dedup_dependencies}
use rustysd.Units.Unit.{UnitEntry, Specific, service, socket, target}
use rustysd.Units.Runtime.{UnitTable}
use rustysd.Activation.Subgraph.{Collected, done, collect_unit_start_subgraph}

-- The fold over the units: the last unit with the name wins.
unfoldable pub find_start : String → UnitTable → Option UnitId → Option UnitId
find_start name [] found = found
find_start name ((_, unit) ∷ units) found =
    find_start name units (if str_eq unit.id.name name then some unit.id else found)

unfoldable pub keep : List UnitId → List UnitId → List UnitId
unfolding retain
keep ids_to_keep ids = retain (λ id. contains ids_to_keep id) ids

unfoldable pub prune_specific : List UnitId → Specific → Specific
unfolding keep
prune_specific ids_to_keep (service s) =
    service (record s { conf = record s.conf { sockets = keep ids_to_keep s.conf.sockets } })
prune_specific ids_to_keep (socket s) =
    socket (record s { conf = record s.conf { services = keep ids_to_keep s.conf.services } })
prune_specific ids_to_keep (target s) = target s

unfoldable pub prune_dependencies : List UnitId → Dependencies → Dependencies
unfolding keep
prune_dependencies ids_to_keep d = record {
  before = keep ids_to_keep d.before;
  after = keep ids_to_keep d.after;
  requires = keep ids_to_keep d.requires;
  wants = keep ids_to_keep d.wants;
  required_by = keep ids_to_keep d.required_by;
  wanted_by = keep ids_to_keep d.wanted_by;
}

unfoldable pub prune_unit : List UnitId → UnitEntry → UnitEntry
unfolding prune_specific prune_dependencies dedup_dependencies
prune_unit ids_to_keep u = record u {
  common = record u.common {
    dependencies = dedup_dependencies (prune_dependencies ids_to_keep u.common.dependencies);
  };
  specific = prune_specific ids_to_keep u.specific;
}

-- `unit_table.remove(id)` for each identifier. They are keys of the table, so no `unwrap` fails.
unfoldable pub remove_all : List UnitId → UnitTable → UnitTable
unfolding remove
remove_all [] table = table
remove_all (id ∷ ids) table = remove_all ids (remove id table)

unfoldable pub prune_table : List UnitId → UnitTable → UnitTable
unfolding remove_all retain keys map_values prune_unit
prune_table ids_to_keep table =
    map_values (prune_unit ids_to_keep)
      (remove_all (retain (λ id. not (contains ids_to_keep id)) (keys table)) table)

-- `Ok` with the table, `Err`, or the two other ends of the collection of the subgraph.
pub data Pruned : Type 0 where
  pruned : UnitTable → Pruned
  target_not_found panicked unfinished : Pruned

unfoldable pub after_collecting : UnitTable → Collected → Pruned
unfolding prune_table
after_collecting table (done ids_to_keep) = pruned (prune_table ids_to_keep table)
after_collecting table Collected.panicked = panicked
after_collecting table Collected.out_of_fuel = unfinished

unfoldable pub prune_units : String → UnitTable → Pruned
unfolding find_start after_collecting
prune_units target_unit_name table = elim (find_start target_unit_name table none) [
  | none ↦ target_not_found
  | some startunit_id ↦
      after_collecting table (collect_unit_start_subgraph (startunit_id ∷ []) table)
]
