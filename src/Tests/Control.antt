-- ===== src/Tests/Control.antt =====
-- Calls to the sample system.
use rustysd.Prelude.{◌≡◌, refl, [], ◌∷◌, none, some}
use rustysd.Units.Runtime.{ok, err}
use rustysd.Control.Json.{Value, number, pos, null}
use rustysd.Control.Rpc.{Call, from_json, to_json}
use rustysd.Control.Rpc.Calls.{IsResponse}
use rustysd.Control.Command.{stop_all, load_new, parse_command}
use rustysd.Control.Command.Requests.{args_for, parse_command-args_for}
use rustysd.Control.Client.{call_of}
use rustysd.Control.Format.{DebugTexts}
use rustysd.Control.Run.{UnitFiles, Context, execute_command}
use rustysd.Control.Listen.{Handled, replied, value, listen_on_commands}
use rustysd.Control.Listen.Answers.{listen_on_commands-IsResponse}
use rustysd.Control.Run.Steady.{IsSteady}
use rustysd.Control.Run.Orderly.{LeavesSteady, execute_command-LeavesSteady}
use rustysd.Shutdown.Ends.{HasOwnKeys, get-HasOwnKeys}
use rustysd.Units.Status.{started, running}
use rustysd.Tests.Samples.{working, both, system-IsMirrored, both-IsOrderly}

abbrev texts : DebugTexts
texts = record {
  of_status = λ status. "status";
  of_elapsed = λ instant. "1s";
  of_count = λ n. "0";
  of_socket = λ conf. "socket";
}

-- There are no unit files.
abbrev files : UnitFiles
files = record {
  load_new_unit = λ name. err "Cannot find unit file";
  parse_all = ok [];
  resolve_error = λ e. "too many services";
}

abbrev ctx : Context
ctx = record {
  ops = working;
  fuel = 5;
  schedule = [];
  files = files;
  target_unit = "default.target";
  texts = texts;
  error_text = λ e. "failed";
}

parse_command-args_for_example :
    (call : Call) × (call_of (args_for (load_new ("db.service" ∷ "web.service" ∷ []))) ≡ some call)
    × (from_json (to_json call) ≡ ok call)
    × (parse_command call ≡ ok (load_new ("db.service" ∷ "web.service" ∷ [])))
parse_command-args_for_example =
    parse_command-args_for (load_new ("db.service" ∷ "web.service" ∷ [])) tt

abbrev list_call : Call
list_call = record { method = "list-units"; params = none; id = some (number (pos 7)) }

abbrev response_of : Handled → Value
response_of (replied response ri) = response
response_of _ = null

list_reply :
    listen_on_commands ctx (value (to_json list_call)) both
    ≡ replied (response_of (listen_on_commands ctx (value (to_json list_call)) both)) both
unfolding listen_on_commands to_json
list_reply = refl

listen_on_commands-IsResponse_example :
    IsResponse
      (some (number (pos 7)))
      (response_of (listen_on_commands ctx (value (to_json list_call)) both))
listen_on_commands-IsResponse_example =
    listen_on_commands-IsResponse ctx list_call
      (response_of (listen_on_commands ctx (value (to_json list_call)) both)) both both list_reply

both-HasOwnKeys : HasOwnKeys both.unit_table
both-HasOwnKeys = (refl, (refl, tt))

both-IsSteady : IsSteady both.unit_table
both-IsSteady = record {
  keyed = λ id u found. get-HasOwnKeys id u both.unit_table both-HasOwnKeys found;
  mirrored = system-IsMirrored (started running) (started running);
  orderly = both-IsOrderly;
}

execute_command-LeavesSteady_example : LeavesSteady (execute_command ctx (stop_all "db") both)
execute_command-LeavesSteady_example =
    execute_command-LeavesSteady ctx (stop_all "db") both tt both-IsSteady
