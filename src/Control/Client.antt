-- ===== src/Control/Client.antt =====
-- The client src/bin/rsdctl.rs: the call that it makes of its arguments, without the connection.
use Prim.Native.String.{String}
use rustysd.Prelude.{List, [], ◌∷◌, Option, none, some}
use rustysd.Control.Json.{Value, string, array, array_of}
use rustysd.Control.Rpc.{Call}

unfoldable pub string_values : List String → List Value
string_values [] = []
string_values (s ∷ ss) = string s ∷ string_values ss

-- `params`, of the arguments that follow the name of the command.
unfoldable pub params_of : List String → Option Value
unfolding string_values array_of
params_of [] = none
params_of (arg ∷ []) = some (string arg)
params_of (arg ∷ other ∷ args) = some (array (array_of (string_values (arg ∷ other ∷ args))))

-- The arguments behind the address. `none` is the panic of `args[0]`.
unfoldable pub call_of : List String → Option Call
unfolding params_of
call_of [] = none
call_of (method ∷ args) = some (record { method = method; params = params_of args; id = none })
