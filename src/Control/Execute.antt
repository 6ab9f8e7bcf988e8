-- ===== src/Control/Execute.antt =====
-- `execute_command` of src/control/control.rs, over the operations on units that the other modules model.
use Prim.Native.String.{String}
use rustysd.Prelude.{
  ℕ, zero, suc, List, [], ◌∷◌, Option, none, some, if◌then◌else◌, is_empty, string_eq,
}
use rustysd.Units.Id.{UnitId, UnitIdKind, kind_eq, ends_with, unit_id_eq}
use rustysd.Units.Status.{UnitOperationError}
use rustysd.Units.Unit.{UnitEntry, Specific, service, socket, target}
use rustysd.Units.Runtime.{UnitTable, RuntimeInfo, Result, ok, err, panic}
use rustysd.Units.Lifecycle.{Ops}
use rustysd.Activation.Pool.{Pool, Job, run_job}
use rustysd.Insertion.{NameCheck}
use rustysd.Removal.{Removed, removed, removal_refused, removal_panicked, removal_out_of_fuel}
use rustysd.Control.Json.{Value, string, array, object, Object, nil, array_of}
use rustysd.Control.Format.{
  DebugTexts, format_target, format_socket, format_service, find_units_with_name,
}

-- The errors of a command; the program has their texts.
pub data CommandError : Type 0 where
  more_than_one_unit : String → List String → CommandError
  no_unit : String → CommandError
  operation_failed : UnitOperationError → CommandError
  start_errors : List UnitOperationError → CommandError
  not_removed : String → CommandError
  suffix_not_recognized : CommandError
  not_loaded : String → CommandError
  not_inserted : NameCheck → CommandError

-- An answer with what is left of the state, a run that is cut short, or the empty answer while the shutdown
-- begins in a thread of its own.
pub data Executed : Type 0 where
  answered : Result CommandError Value → RuntimeInfo → Executed
  unfinished : RuntimeInfo → Executed
  shutdown_begun : RuntimeInfo → Executed

abbrev pub no_values : Value
no_values = array nil

-- The end of a command that worked and has nothing to tell.
unfoldable pub after_action : {A : Type 0} → Result UnitOperationError A × RuntimeInfo → Executed
after_action (ok _, ri) = answered (ok no_values) ri
after_action (err e, ri) = answered (err (operation_failed e)) ri
after_action (panic, ri) = answered panic ri

unfoldable pub after_bounded :
    Option (Result UnitOperationError Unit × RuntimeInfo) → RuntimeInfo → Executed
unfolding after_action
after_bounded (some r) ri = after_action {A = Unit {0}} r
after_bounded none ri = unfinished ri

abbrev pub unit_names : List UnitEntry → List String
unit_names [] = []
unit_names (unit ∷ units) = unit.id.name ∷ unit_names units

-- The unit with a name, for a command on one unit.
unfoldable pub with_unit : String → List UnitEntry → RuntimeInfo → (UnitId → Executed) → Executed
with_unit unit_name [] ri command = answered (err (no_unit unit_name)) ri
with_unit unit_name (unit ∷ []) ri command = command unit.id
with_unit unit_name (unit ∷ other ∷ units) ri command =
    answered (err (more_than_one_unit unit_name (unit_names (unit ∷ other ∷ units)))) ri

-- The job at a place of the queue, and the others.
unfoldable pub pick : ℕ → List Job → Option (Job × List Job)
pick n [] = none
pick zero (job ∷ jobs) = some (job, jobs)
pick (suc n) (job ∷ jobs) = elim (pick n jobs) [
  | none ↦ none
  | some (chosen, rest) ↦ some (chosen, job ∷ rest)
]

-- The threads of the pool, as the places of the jobs that they take, one after the other.
unfoldable pub run_schedule : Ops → List ℕ → Pool → Pool
unfolding run_job pick
run_schedule ops [] p = p
run_schedule ops (n ∷ schedule) p = elim (pick n p.jobs) [
  | none ↦ run_schedule ops schedule p
  | some (job, rest) ↦ run_schedule ops schedule (run_job ops job (record p { jobs = rest }))
]

-- `tpool.join()`, and the errors that were collected.
unfoldable pub after_pool : Pool → Executed
after_pool p =
    if is_empty p.jobs
    then (if is_empty p.errors
        then answered (ok no_values) p.run_info
        else answered (err (start_errors p.errors)) p.run_info)
    else unfinished p.run_info

unfoldable pub after_removal : Removed → RuntimeInfo → Executed
after_removal (removed table) ri = answered (ok no_values) (record ri { unit_table = table })
after_removal (removal_refused name) ri = answered (err (not_removed name)) ri
after_removal removal_panicked ri = answered panic ri
after_removal removal_out_of_fuel ri = unfinished ri

-- The names of the units of one kind, or of all.
unfoldable pub listed : Option UnitIdKind → UnitTable → List Value
unfolding kind_eq
listed kind [] = []
listed none ((id, unit) ∷ units) = string unit.id.name ∷ listed none units
listed (some kind) ((id, unit) ∷ units) =
    let rest = listed (some kind) units in
    if kind_eq id.kind kind then string unit.id.name ∷ rest else rest

module _ (texts : DebugTexts) where
  -- By the suffix of the name that was asked for. `none` is the error.
  unfoldable pub format_by_name : String → UnitEntry → Option Value
  unfolding format_service format_socket format_target ends_with
  format_by_name name unit =
      if ends_with name ".service"
      then some (object (format_service texts unit unit.common.status))
      else if ends_with name ".socket"
      then some (object (format_socket texts unit unit.common.status))
      else if ends_with name ".target"
      then some (object (format_target texts unit unit.common.status))
      else none

  unfoldable pub format_found : String → List UnitEntry → Option (List Value)
  unfolding format_by_name
  format_found name [] = some []
  format_found name (unit ∷ units) = elim (format_by_name name unit) [
    | none ↦ none
    | some v ↦ elim (format_found name units) [ none ↦ none | some vs ↦ some (v ∷ vs) ]
  ]

  unfoldable pub format_specific : Specific → UnitEntry → Object
  unfolding format_service format_socket format_target
  format_specific (socket _) unit = format_socket texts unit unit.common.status
  format_specific (service _) unit = format_service texts unit unit.common.status
  format_specific (target _) unit = format_target texts unit unit.common.status

  unfoldable pub format_all : UnitTable → List Value
  unfolding format_specific
  format_all [] = []
  format_all ((_, unit) ∷ units) = object (format_specific unit.specific unit) ∷ format_all units

  unfoldable pub show_status : Option String → UnitTable → Result CommandError Value
  unfolding format_found format_all find_units_with_name array_of
  show_status (some name) table = elim (format_found name (find_units_with_name name table)) [
    | none ↦ err suffix_not_recognized
    | some vs ↦ ok (array (array_of vs))
  ]
  show_status none table = ok (array (array_of (format_all table)))
