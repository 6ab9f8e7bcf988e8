-- ===== src/Control/Listen.antt =====
-- One turn of the loop in `listen_on_commands` of src/control/control.rs.
pub mod Answers
use Prim.Native.String.{String}
use rustysd.Prelude.{Option, none, some}
use rustysd.Units.Runtime.{RuntimeInfo, Result, ok, err, panic}
use rustysd.Control.Json.{Number, Value}
use rustysd.Control.Rpc.{
  Call, from_json, make_error, make_error_response, make_result_response, parse_error,
  invalid_request_error, method_not_found_error, invalid_params_error, server_error,
}
use rustysd.Control.Command.{Command, ParseError, method_not_found, params_invalid, parse_command}
use rustysd.Control.Execute.{
  CommandError, Executed, answered, unfinished, shutdown_begun, no_values,
}
use rustysd.Control.Run.{Context, execute_command}

-- What `serde_json::from_reader` gives: a value, the end of the stream, or another error with its text.
pub data Incoming : Type 0 where
  value : Value → Incoming
  end_of_stream : Incoming
  malformed : String → Incoming

-- How the turn ends: a reply, after which the loop goes on; the end of the loop, perhaps with a last reply; a
-- panic, or a command that is cut short.
pub data Handled : Type 0 where
  replied : Value → RuntimeInfo → Handled
  closed : Option Value → RuntimeInfo → Handled
  panicked cut_short : RuntimeInfo → Handled

abbrev error_reply : Option Value → Number → String → Value
error_reply id code message = make_error_response id (make_error code message none)

unfoldable pub code_of : ParseError → Number
code_of (params_invalid s) = invalid_params_error
code_of (method_not_found s) = method_not_found_error

unfoldable pub message_of : ParseError → String
message_of (params_invalid s) = s
message_of (method_not_found s) = s

module _ (ctx : Context) where
  unfoldable pub respond : Option Value → Executed → Handled
  unfolding make_result_response make_error_response
  respond id (answered (ok result) ri) = replied (make_result_response id result) ri
  respond id (answered (err e) ri) = replied (error_reply id server_error (ctx.error_text e)) ri
  respond id (answered panic ri) = panicked ri
  respond id (unfinished ri) = cut_short ri
  respond id (shutdown_begun ri) = replied (make_result_response id no_values) ri

  unfoldable pub run_parsed : Option Value → Result ParseError Command → RuntimeInfo → Handled
  unfolding respond execute_command make_error_response code_of message_of
  run_parsed id (ok command) ri = respond id (execute_command ctx command ri)
  run_parsed id (err e) ri = replied (error_reply id (code_of e) (message_of e)) ri
  run_parsed id panic ri = panicked ri

  unfoldable pub run_call : Result String Call → RuntimeInfo → Handled
  unfolding run_parsed parse_command make_error_response
  run_call (ok call) ri = run_parsed call.id (parse_command call) ri
  run_call (err e) ri = replied (error_reply none invalid_request_error e) ri
  run_call panic ri = panicked ri

  unfoldable pub listen_on_commands : Incoming → RuntimeInfo → Handled
  unfolding run_call from_json make_error_response
  listen_on_commands (value v) ri = run_call (from_json v) ri
  listen_on_commands end_of_stream ri = closed none ri
  listen_on_commands (malformed message) ri =
      closed (some (error_reply none parse_error message)) ri
