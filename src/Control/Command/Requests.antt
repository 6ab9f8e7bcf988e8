-- ===== src/Control/Command/Requests.antt =====
-- Every command can be asked for by the client, and no request is taken for another.
use Prim.Native.String.{String}
use rustysd.Prelude.{◌≡◌, refl, List, [], ◌∷◌, none, some}
use rustysd.Units.Id.{UnitIdKind}
use rustysd.Units.Runtime.{ok}
use rustysd.Control.Json.{array_of}
use rustysd.Control.Rpc.{Call, from_json, to_json}
use rustysd.Control.Rpc.Calls.{from_json-to_json}
use rustysd.Control.Client.{string_values, call_of}
use rustysd.Control.Command.{
  Command, list_units, status, load_new, load_all_new, load_all_new_dry, shutdown, remove, restart,
  start, start_all, stop, stop_all, string_names, parse_command,
}

abbrev pub kind_arg : UnitIdKind → String
kind_arg UnitIdKind.target = "target"
kind_arg UnitIdKind.socket = "socket"
kind_arg UnitIdKind.service = "service"

-- The arguments of rsdctl for each command. `enable` wants at least one name, which stands before the others.
abbrev pub args_for : Command → List String
args_for (list_units none) = "list-units" ∷ []
args_for (list_units (some kind)) = "list-units" ∷ kind_arg kind ∷ []
args_for (status none) = "status" ∷ []
args_for (status (some name)) = "status" ∷ name ∷ []
args_for (load_new names) = "enable" ∷ names
args_for load_all_new = "reload" ∷ []
args_for load_all_new_dry = "reload-dry" ∷ []
args_for shutdown = "shutdown" ∷ []
args_for (remove name) = "remove" ∷ name ∷ []
args_for (restart name) = "restart" ∷ name ∷ []
args_for (start name) = "start" ∷ name ∷ []
args_for (start_all name) = "start-all" ∷ name ∷ []
args_for (stop name) = "stop" ∷ name ∷ []
args_for (stop_all name) = "stop-all" ∷ name ∷ []

-- Everything but an `enable` without names.
abbrev pub IsComplete : Command → Type 0
IsComplete (load_new []) = ⊥
IsComplete _ = Unit

string_names-array_of :
    (names : List String) → string_names (array_of (string_values names)) ≡ some names
unfolding string_names array_of string_values
string_names-array_of [] = refl
string_names-array_of (n ∷ names) = rw (string_names-array_of names) refl

-- The call that the client makes for a command is written out, read back and parsed as that command.
pub parse_command-args_for :
    (command : Command)
    → IsComplete command
    → (call : Call) × (call_of (args_for command) ≡ some call)
      × (from_json (to_json call) ≡ ok call)
      × (parse_command call ≡ ok command)
unfolding call_of parse_command
parse_command-args_for (list_units none) h = (_, refl, from_json-to_json _, refl)
parse_command-args_for (list_units (some UnitIdKind.target)) h =
    (_, refl, from_json-to_json _, refl)
parse_command-args_for (list_units (some UnitIdKind.socket)) h =
    (_, refl, from_json-to_json _, refl)
parse_command-args_for (list_units (some UnitIdKind.service)) h =
    (_, refl, from_json-to_json _, refl)
parse_command-args_for (status none) h = (_, refl, from_json-to_json _, refl)
parse_command-args_for (status (some name)) h = (_, refl, from_json-to_json _, refl)
parse_command-args_for (load_new (name ∷ [])) h = (_, refl, from_json-to_json _, refl)
parse_command-args_for load_all_new h = (_, refl, from_json-to_json _, refl)
parse_command-args_for load_all_new_dry h = (_, refl, from_json-to_json _, refl)
parse_command-args_for shutdown h = (_, refl, from_json-to_json _, refl)
parse_command-args_for (remove name) h = (_, refl, from_json-to_json _, refl)
parse_command-args_for (restart name) h = (_, refl, from_json-to_json _, refl)
parse_command-args_for (start name) h = (_, refl, from_json-to_json _, refl)
parse_command-args_for (start_all name) h = (_, refl, from_json-to_json _, refl)
parse_command-args_for (stop name) h = (_, refl, from_json-to_json _, refl)
parse_command-args_for (stop_all name) h = (_, refl, from_json-to_json _, refl)
parse_command-args_for (load_new []) h = absurd h
parse_command-args_for (load_new (name ∷ other ∷ names)) h =
    (_, refl, from_json-to_json _, rw (string_names-array_of names) refl)
