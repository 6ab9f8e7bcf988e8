-- ===== src/Control/Command.antt =====
-- `parse_command` of src/control/control.rs.
pub mod Requests
use Prim.Native.String.{String, ◌++◌ as ◌<>◌}
use text.Mathlib.Text.{◌==◌ as str_eq}
use rustysd.Prelude.{List, [], ◌∷◌, Option, none, some, if◌then◌else◌}
use rustysd.Units.Id.{UnitIdKind}
use rustysd.Units.Runtime.{Result, ok, err, panic}
use rustysd.Control.Json.{Value, null, bool, number, string, array, object, Items, nil, cons}
use rustysd.Control.Rpc.{Call}

pub data Command : Type 0 where
  list_units : Option UnitIdKind → Command
  status : Option String → Command
  load_new : List String → Command
  load_all_new load_all_new_dry shutdown : Command
  remove restart start start_all stop stop_all : String → Command

pub data ParseError : Type 0 where
  method_not_found params_invalid : String → ParseError

-- The parameter of a method that works on one unit.
unfoldable pub single_name : Option Value → (String → Command) → Result ParseError Command
single_name (some (string s)) command = ok (command s)
single_name (some _) command = err (params_invalid "Params must be a single string")
single_name none command = err (params_invalid "Params must be a single string")

unfoldable pub optional_name : Option Value → Result ParseError Command
optional_name (some (string s)) = ok (status (some s))
optional_name (some _) = err (params_invalid "Params must be either none or a single string")
optional_name none = ok (status none)

unfoldable pub kind_named : String → Result ParseError Command
kind_named s =
    if str_eq s "target"
    then ok (list_units (some UnitIdKind.target))
    else if str_eq s "socket"
    then ok (list_units (some UnitIdKind.socket))
    else if str_eq s "service"
    then ok (list_units (some UnitIdKind.service))
    else err (params_invalid ("Kind not recognized: " <> s))

unfoldable pub optional_kind : Option Value → Result ParseError Command
unfolding kind_named
optional_kind (some (string s)) = kind_named s
optional_kind (some _) = err (params_invalid "Params must be a single string")
optional_kind none = ok (list_units none)

-- The loop over the elements of an array, with the names so far.
unfoldable pub string_names : Items → Option (List String)
string_names nil = some []
string_names (cons (string name) items) = elim (string_names items) [
  | none ↦ none
  | some names ↦ some (name ∷ names)
]
string_names (cons _ items) = none

unfoldable pub load_names : Option (List String) → Result ParseError Command
load_names (some names) = ok (load_new names)
load_names none = err (params_invalid "Params must be at least one string")

unfoldable pub several_names : Option Value → Result ParseError Command
unfolding string_names load_names
several_names (some (string s)) = ok (load_new (s ∷ []))
several_names (some (array items)) = load_names (string_names items)
several_names (some _) = load_names none
several_names none = load_names none

unfoldable pub parse_command : Call → Result ParseError Command
unfolding single_name optional_name optional_kind several_names
parse_command call =
    if str_eq call.method "status"
    then optional_name call.params
    else if str_eq call.method "restart"
    then single_name call.params restart
    else if str_eq call.method "start"
    then single_name call.params start
    else if str_eq call.method "start-all"
    then single_name call.params start_all
    else if str_eq call.method "remove"
    then single_name call.params remove
    else if str_eq call.method "stop"
    then single_name call.params stop
    else if str_eq call.method "stop-all"
    then single_name call.params stop_all
    else if str_eq call.method "list-units"
    then optional_kind call.params
    else if str_eq call.method "shutdown"
    then ok shutdown
    else if str_eq call.method "reload"
    then ok load_all_new
    else if str_eq call.method "reload-dry"
    then ok load_all_new_dry
    else if str_eq call.method "enable"
    then several_names call.params
    else err (method_not_found ("Unknown method: " <> call.method))
