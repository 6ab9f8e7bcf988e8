-- ===== src/Control/Listen/Answers.antt =====
-- The replies to calls.
use rustysd.Prelude.{◌∙◌, ap, ◌≡◌, subst, sym, Option, none}
use rustysd.Units.Runtime.{RuntimeInfo, Result, ok, err, panic}
use rustysd.Control.Json.{Value}
use rustysd.Control.Rpc.{Call, to_json, make_error, server_error}
use rustysd.Control.Rpc.Calls.{
  from_json-to_json, IsResponse, make_result_response-IsResponse, make_error_response-IsResponse,
}
use rustysd.Control.Command.{Command, ParseError, parse_command}
use rustysd.Control.Execute.{Executed, answered, unfinished, shutdown_begun, no_values}
use rustysd.Control.Run.{Context, execute_command}
use rustysd.Control.Listen.{
  Handled, replied, closed, panicked, cut_short, value, respond, run_parsed, run_call,
  listen_on_commands, code_of, message_of,
}

-- What a turn may do with a call that has an identifier: it answers that call, or it ends without an answer.
abbrev Answers : Option Value → Handled → Type 0
Answers id (replied response ri) = IsResponse id response
Answers id (closed last ri) = Unit {0}
Answers id (panicked ri) = Unit {0}
Answers id (cut_short ri) = Unit {0}

respond-Answers : (ctx : Context) (id : Option Value) (x : Executed) → Answers id (respond ctx id x)
unfolding respond
respond-Answers ctx id (answered (ok result) ri) = make_result_response-IsResponse id result
respond-Answers ctx id (answered (err e) ri) =
    make_error_response-IsResponse id (make_error server_error (ctx.error_text e) none)
respond-Answers ctx id (answered panic ri) = tt
respond-Answers ctx id (unfinished ri) = tt
respond-Answers ctx id (shutdown_begun ri) = make_result_response-IsResponse id no_values

run_parsed-Answers :
    (ctx : Context) (id : Option Value) (r : Result ParseError Command) (ri : RuntimeInfo)
    → Answers id (run_parsed ctx id r ri)
unfolding run_parsed
run_parsed-Answers ctx id (ok command) ri = respond-Answers ctx id (execute_command ctx command ri)
run_parsed-Answers ctx id (err e) ri =
    make_error_response-IsResponse id (make_error (code_of e) (message_of e) none)
run_parsed-Answers ctx id panic ri = tt

-- A reply to a call carries the version and the identifier of the call, and a result or an error, never both.
pub listen_on_commands-IsResponse :
    (ctx : Context) (call : Call) (response : Value) (ri ri' : RuntimeInfo)
    → listen_on_commands ctx (value (to_json call)) ri ≡ replied response ri'
    → IsResponse call.id response
unfolding listen_on_commands run_call
listen_on_commands-IsResponse ctx call response ri ri' e =
    let parsed = run_parsed-Answers ctx call.id (parse_command call) ri in
    let same : run_parsed ctx call.id (parse_command call) ri ≡ replied response ri' =
      ap (λ r. run_call ctx r ri) (sym (from_json-to_json call)) ∙ e in
    subst (Answers call.id) same parsed
