-- ===== src/Control/Run.antt =====
-- `execute_command` of src/control/control.rs as a whole.
pub mod Names
pub mod Steady
pub mod Orderly
use Prim.Native.String.{String}
use rustysd.Prelude.{
  ℕ, Bool, true, false, List, [], ◌∷◌, ◌++◌, Option, none, some, if◌then◌else◌, contains, string_eq,
}
use rustysd.Prelude.Map.{insert}
use rustysd.Units.Id.{UnitId, unit_id_eq}
use rustysd.Units.Status.{UnitOperationError}
use rustysd.Units.Unit.{UnitEntry}
use rustysd.Units.Runtime.{UnitTable, RuntimeInfo, Result, ok, err, panic}
use rustysd.Units.Lifecycle.{Ops, regular}
use rustysd.Activation.Pool.{Pool, activate_unit, activate_needed_units}
use rustysd.Deactivation.{deactivate_unit, deactivate_unit_recursive, reactivate_unit}
use rustysd.Insertion.{NameCheck, all_exist, insert_new_units}
use rustysd.Removal.{remove_unit_with_dependencies}
use rustysd.Loading.Sockets.{TooManyServices}
use rustysd.Loading.Resolve.{resolve}
use rustysd.Control.Json.{
  Value, string, array, object, Object, empty, Items, nil, cons, array_of, insert_field,
}
use rustysd.Control.Rpc.{
  Call, make_error, make_error_response, make_result_response, invalid_request_error,
  method_not_found_error, invalid_params_error, server_error,
}
use rustysd.Control.Command.{
  Command, list_units, status, load_new, load_all_new, load_all_new_dry, shutdown, remove, restart,
  start, start_all, stop, stop_all, ParseError, method_not_found, params_invalid, parse_command,
}
use rustysd.Control.Format.{DebugTexts, find_units_with_name}
use rustysd.Control.Execute.{
  CommandError, not_loaded, not_inserted, Executed, answered, unfinished, shutdown_begun, no_values,
  after_action, after_bounded, with_unit, run_schedule, after_pool, after_removal, listed,
  show_status,
}

-- The unit files: the search for one unit, and the units of all files. They are read from the directories of
-- the configuration.
pub record UnitFiles : Type 0 where
  pub load_new_unit : String → Result String UnitEntry
  pub parse_all : Result String UnitTable
  pub resolve_error : TooManyServices → String

unfoldable pub load_all_units : UnitFiles → String → Result String UnitTable
unfolding resolve
load_all_units files target_unit = elim (files.parse_all) [
  | err e ↦ err e
  | panic ↦ panic
  | ok parsed ↦ elim (resolve target_unit parsed) [
    | ok table ↦ ok table
    | err e ↦ err (files.resolve_error e)
    | panic ↦ panic
  ]
]

-- `insert_new_units(..)?`
unfoldable pub after_insertion : Value → NameCheck × UnitTable → RuntimeInfo → Executed
after_insertion value (all_exist, table) ri = answered (ok value) (record ri { unit_table = table })
after_insertion value (problem, table) ri = answered (err (not_inserted problem)) ri

-- The loop over the names of `LoadNew`.
unfoldable pub load_each : UnitFiles → List String → UnitTable → Result String UnitTable
unfolding insert
load_each files [] units = ok units
load_each files (name ∷ names) units = elim (files.load_new_unit name) [
  | ok unit ↦ load_each files names (insert unit.id unit units)
  | err e ↦ err e
  | panic ↦ panic
]

unfoldable pub run_load_new : Result String UnitTable → RuntimeInfo → Executed
unfolding after_insertion insert_new_units
run_load_new (ok units) ri = after_insertion no_values (insert_new_units units ri.unit_table) ri
run_load_new (err e) ri = answered (err (not_loaded e)) ri
run_load_new panic ri = answered panic ri

abbrev pub names_of : UnitTable → List String
names_of [] = []
names_of ((_, unit) ∷ units) = unit.id.name ∷ names_of units

-- The units that were loaded, parted by whether their name is known.
unfoldable pub new_of : List String → UnitTable → UnitTable
unfolding contains
new_of existing [] = []
new_of existing ((id, unit) ∷ units) =
    let rest = new_of existing units in
    if contains existing unit.id.name then rest else (id, unit) ∷ rest

unfoldable pub ignored_of : List String → UnitTable → UnitTable
unfolding contains
ignored_of existing [] = []
ignored_of existing ((id, unit) ∷ units) =
    let rest = ignored_of existing units in
    if contains existing unit.id.name then (id, unit) ∷ rest else rest

abbrev strings_of : List String → List Value
strings_of [] = []
strings_of (s ∷ ss) = string s ∷ strings_of ss

-- The answer, with the keys for the two lists of names.
unfoldable pub reload_answer : String → String → UnitTable → UnitTable → Value
unfolding insert_field array_of
reload_answer added ignored new old =
    let o =
      insert_field ignored (array (array_of (strings_of (names_of old))))
        (insert_field added (array (array_of (strings_of (names_of new)))) empty) in
    array (cons (object o) nil)

unfoldable pub run_reload : Result String UnitTable → RuntimeInfo → Executed
unfolding new_of ignored_of reload_answer after_insertion insert_new_units
run_reload (ok units) ri =
    let existing = names_of ri.unit_table in
    let new = new_of existing units in
    after_insertion (reload_answer "Added" "Ignored" new (ignored_of existing units))
      (insert_new_units new ri.unit_table) ri
run_reload (err e) ri = answered (err (not_loaded e)) ri
run_reload panic ri = answered panic ri

unfoldable pub run_reload_dry : Result String UnitTable → RuntimeInfo → Executed
unfolding new_of ignored_of reload_answer
run_reload_dry (ok units) ri =
    let existing = names_of ri.unit_table in
    answered
      (ok (
        reload_answer "Would add" "Would ignore" (new_of existing units)
          (ignored_of existing units)))
      ri
run_reload_dry (err e) ri = answered (err (not_loaded e)) ri
run_reload_dry panic ri = answered panic ri

unfoldable pub start_units : Ops → List ℕ → RuntimeInfo → Option Pool → Executed
unfolding after_pool run_schedule
start_units ops schedule ri none = answered panic ri
start_units ops schedule ri (some pool) = after_pool (run_schedule ops schedule pool)

-- What a command depends on beside the state: the calls of the units, the fuel for the recursion along
-- `required_by`, the order in which the threads take jobs, the unit files and the configured target.
pub record Context : Type 0 where
  pub ops : Ops
  pub fuel : ℕ
  pub schedule : List ℕ
  pub files : UnitFiles
  pub target_unit : String
  pub texts : DebugTexts
  pub error_text : CommandError → String

module _ (ctx : Context) where
  abbrev on_unit : String → RuntimeInfo → (UnitId → Executed) → Executed
  on_unit unit_name ri = with_unit unit_name (find_units_with_name unit_name ri.unit_table) ri

  unfoldable pub execute_command : Command → RuntimeInfo → Executed
  unfolding with_unit find_units_with_name after_action after_bounded after_removal show_status
      listed run_load_new run_reload run_reload_dry load_each load_all_units start_units
      activate_unit deactivate_unit deactivate_unit_recursive reactivate_unit
      remove_unit_with_dependencies activate_needed_units
  execute_command shutdown ri = shutdown_begun ri
  execute_command (restart name) ri =
      on_unit name ri (λ id. after_action {A = Unit {0}} (reactivate_unit ctx.ops id ri))
  execute_command (start name) ri =
      on_unit name ri (λ id. after_action {A = List UnitId} (activate_unit ctx.ops id regular ri))
  execute_command (start_all name) ri =
      on_unit name ri (λ id. start_units ctx.ops ctx.schedule ri (activate_needed_units id ri))
  execute_command (remove name) ri =
      on_unit name ri
        (λ id. after_removal (remove_unit_with_dependencies ctx.fuel id ri.unit_table) ri)
  execute_command (stop name) ri =
      on_unit name ri (λ id. after_action {A = Unit {0}} (deactivate_unit ctx.ops id ri))
  execute_command (stop_all name) ri =
      on_unit name ri (λ id. after_bounded (deactivate_unit_recursive ctx.ops ctx.fuel id ri) ri)
  execute_command (status name) ri = answered (show_status ctx.texts name ri.unit_table) ri
  execute_command (list_units kind) ri =
      answered (ok (array (array_of (listed kind ri.unit_table)))) ri
  execute_command (load_new names) ri = run_load_new (load_each ctx.files names []) ri
  execute_command load_all_new ri = run_reload (load_all_units ctx.files ctx.target_unit) ri
  execute_command load_all_new_dry ri = run_reload_dry (load_all_units ctx.files ctx.target_unit) ri
