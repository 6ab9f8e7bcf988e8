-- ===== src/Loading/Resolve.antt =====
-- `fill_dependencies` as a whole, and the steps of `load_all_units` (src/units/loading/mod.rs) that follow the
-- reading of the files.
pub mod Target
pub mod Symmetric
pub mod Loaded
pub mod Fresh
pub mod Unstarted
use Prim.Native.String.{String}
use rustysd.Prelude.{Bool, true, false, List, [], ◌∷◌, Option, none, some, if◌then◌else◌, is_empty}
use rustysd.Prelude.Map.{keys, remove, map_values}
use rustysd.Units.Id.{UnitId, UnitIdKind, kind_eq, unit_id_eq}
use rustysd.Units.Dependencies.{dedup_dependencies, remove_id}
use rustysd.Units.Unit.{UnitEntry, Specific, service, socket, target}
use rustysd.Units.Runtime.{UnitTable, Result, ok, err, panic}
use rustysd.Loading.Edges.{with_dependencies}
use rustysd.Loading.Fill.{mirror_relations}
use rustysd.Loading.Sockets.{TooManyServices, apply_socket, add_socket_target_relations}
use rustysd.Loading.Prune.{Pruned, pruned, target_not_found, unfinished, prune_units}

-- The keys of one kind.
unfoldable pub of_kind : UnitIdKind → List UnitId → List UnitId
unfolding kind_eq
of_kind kind [] = []
of_kind kind (id ∷ ids) =
    let rest = of_kind kind ids in if kind_eq id.kind kind then id ∷ rest else rest

unfoldable pub apply_sockets :
    List UnitId → List UnitId → UnitTable → Result TooManyServices UnitTable
unfolding apply_socket
apply_sockets service_ids [] table = ok table
apply_sockets service_ids (id ∷ ids) table = elim (apply_socket service_ids id table) [
  | ok next ↦ apply_sockets service_ids ids next
  | err e ↦ err e
  | panic ↦ panic
]

unfoldable pub apply_sockets_to_services : UnitTable → Result TooManyServices UnitTable
unfolding of_kind apply_sockets keys
apply_sockets_to_services table =
    apply_sockets (of_kind UnitIdKind.service (keys table)) (of_kind UnitIdKind.socket (keys table))
      table

unfoldable pub add_all_implicit_relations : UnitTable → Result TooManyServices UnitTable
unfolding apply_sockets_to_services add_socket_target_relations
add_all_implicit_relations table = apply_sockets_to_services (add_socket_target_relations table)

abbrev pub dedup_unit : UnitEntry → UnitEntry
dedup_unit u = with_dependencies (dedup_dependencies u.common.dependencies) u

unfoldable pub dedup_all : Result TooManyServices UnitTable → Result TooManyServices UnitTable
unfolding map_values dedup_dependencies
dedup_all (ok table) = ok (map_values dedup_unit table)
dedup_all (err e) = err e
dedup_all panic = panic

unfoldable pub fill_dependencies : UnitTable → Result TooManyServices UnitTable
unfolding mirror_relations add_all_implicit_relations dedup_all
fill_dependencies table = elim (mirror_relations table) [
  | none ↦ panic
  | some filled ↦ dedup_all (add_all_implicit_relations filled)
]

-- A socket with no service.
unfoldable pub is_unused_socket : Specific → Bool
is_unused_socket (socket sock) = is_empty sock.conf.services
is_unused_socket (service srvc) = false
is_unused_socket (target common) = false

unfoldable pub unused_sockets : UnitTable → List UnitId
unfolding is_unused_socket
unused_sockets [] = []
unused_sockets ((_, unit) ∷ units) =
    let rest = unused_sockets units in
    if is_unused_socket unit.specific then unit.id ∷ rest else rest

unfoldable pub remove_sockets : List UnitId → UnitTable → UnitTable
unfolding remove
remove_sockets [] table = table
remove_sockets (id ∷ ids) table = remove_sockets ids (remove id table)

unfoldable pub forget_ids : List UnitId → UnitEntry → UnitEntry
unfolding remove_id
forget_ids [] unit = unit
forget_ids (id ∷ ids) unit =
    forget_ids ids (with_dependencies (remove_id id unit.common.dependencies) unit)

unfoldable pub cleanup_removed_ids : List UnitId → UnitTable → UnitTable
unfolding map_values forget_ids
cleanup_removed_ids removed_ids table = map_values (forget_ids removed_ids) table

-- `prune_unused_sockets`, and the clean-up of the identifiers that it returns.
unfoldable pub drop_unused_sockets : UnitTable → UnitTable
unfolding cleanup_removed_ids remove_sockets unused_sockets
drop_unused_sockets table =
    let removed_ids = unused_sockets table in
    cleanup_removed_ids removed_ids (remove_sockets removed_ids table)

-- `prune_units(..).unwrap()`: an error is a panic, and so is an unending collection no result.
unfoldable pub after_pruning : Pruned → Result TooManyServices UnitTable
unfolding drop_unused_sockets
after_pruning (pruned table) = ok (drop_unused_sockets table)
after_pruning target_not_found = panic
after_pruning Pruned.panicked = panic
after_pruning unfinished = panic

-- `load_all_units` from the table of all parsed units on.
unfoldable pub resolve : String → UnitTable → Result TooManyServices UnitTable
unfolding fill_dependencies after_pruning prune_units
resolve target_unit table = elim (fill_dependencies table) [
  | ok filled ↦ after_pruning (prune_units target_unit filled)
  | err e ↦ err e
  | panic ↦ panic
]
