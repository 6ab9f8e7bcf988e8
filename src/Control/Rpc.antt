-- ===== src/Control/Rpc.antt =====
-- src/control/jsonrpc2.rs.
pub mod Calls
use Prim.Native.String.{String}
use rustysd.Prelude.{ℕ, Option, none, some}
use rustysd.Units.Runtime.{Result, ok, err}
use rustysd.Control.Json.{
  Number, neg, Value, number, string, object, null, bool, array, Object, empty, get_field,
  insert_field, insert_some,
}

pub record Call : Type 0 where
  pub method : String
  pub params : Option Value
  pub id : Option Value

-- The string behind the key `method`.
unfoldable pub method_of : Object → Option Value → Result String Call
unfolding get_field
method_of m none = err "No method name given"
method_of m (some (string s)) =
    ok (record { method = s; params = get_field "params" m; id = get_field "id" m })
method_of m (some _) = err "method was not  a string"

unfoldable pub from_json : Value → Result String Call
unfolding method_of get_field
from_json (object m) = method_of m (get_field "method" m)
from_json _ = err "Value wasn't an object"

unfoldable pub to_json : Call → Value
unfolding insert_field insert_some
to_json call =
    let m =
      insert_field "method" (string call.method) (insert_field "jsonrpc" (string "2.0") empty) in
    object (insert_some "id" call.id (insert_some "params" call.params m))

unfoldable pub make_result_response : Option Value → Value → Value
unfolding insert_field insert_some
make_result_response id result = object (
    insert_some "id" id
      (insert_field "result" result (insert_field "jsonrpc" (string "2.0") empty)))

abbrev pub parse_error : Number
parse_error = neg 32700

abbrev pub invalid_request_error : Number
invalid_request_error = neg 32600

abbrev pub method_not_found_error : Number
method_not_found_error = neg 32601

abbrev pub invalid_params_error : Number
invalid_params_error = neg 32602

abbrev pub server_error : Number
server_error = neg 32000

-- `Error`
pub record RpcError : Type 0 where
  pub code : Number
  pub message : String
  pub extra : Option Value

abbrev pub make_error : Number → String → Option Value → RpcError
make_error code message extra = record { code = code; message = message; extra = extra }

unfoldable pub error_object : RpcError → Object
unfolding insert_field insert_some
error_object error =
    insert_some "data" error.extra (
      insert_field "message" (string error.message) (insert_field "code" (number error.code) empty))

unfoldable pub make_error_response : Option Value → RpcError → Value
unfolding insert_field insert_some error_object
make_error_response id error = object (
    insert_some "id" id (
      insert_field "error" (object (error_object error))
        (insert_field "jsonrpc" (string "2.0") empty)))
