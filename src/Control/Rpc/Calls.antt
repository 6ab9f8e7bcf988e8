-- ===== src/Control/Rpc/Calls.antt =====
-- Calls and responses as they are read back.
use Prim.Native.String.{String}
use rustysd.Prelude.{◌↔◌, ◌≡◌, refl, Option, none, some}
use rustysd.Units.Runtime.{ok}
use rustysd.Control.Json.{Value, string, object, Object, get_field}
use rustysd.Control.Rpc.{
  Call, from_json, to_json, RpcError, make_error_response, make_result_response,
}

read_back :
    (method : String) (params id : Option Value)
    → from_json (to_json (record { method = method; params = params; id = id }))
      ≡ ok (record { method = method; params = params; id = id })
unfolding from_json to_json
read_back method none none = refl
read_back method none (some i) = refl
read_back method (some ps) none = refl
read_back method (some ps) (some i) = refl

-- A call that is written out is read back as it was.
pub from_json-to_json : (call : Call) → from_json (to_json call) ≡ ok call
from_json-to_json call = read_back call.method call.params call.id

-- What a response is: it carries the version and the identifier of the call, and a result or an error, never
-- both.
pub record IsResponse (id : Option Value) (response : Value) : Type 0 where
  pub fields : Object
  pub is_object : response ≡ object fields
  pub version : get_field "jsonrpc" fields ≡ some (string "2.0")
  pub same_id : get_field "id" fields ≡ id
  pub one_of :
      (get_field "result" fields ≡ none) ↔ ((e : Value) × (get_field "error" fields ≡ some e))

pub make_result_response-IsResponse :
    (id : Option Value) (result : Value) → IsResponse id (make_result_response id result)
unfolding make_result_response get_field
make_result_response-IsResponse none result = record {
  fields = _;
  is_object = refl;
  version = refl;
  same_id = refl;
  one_of = ((λ e. absurd (cc)), (λ h. absurd (cc)));
}
make_result_response-IsResponse (some i) result = record {
  fields = _;
  is_object = refl;
  version = refl;
  same_id = refl;
  one_of = ((λ e. absurd (cc)), (λ h. absurd (cc)));
}

pub make_error_response-IsResponse :
    (id : Option Value) (error : RpcError) → IsResponse id (make_error_response id error)
unfolding make_error_response get_field
make_error_response-IsResponse none error = record {
  fields = _;
  is_object = refl;
  version = refl;
  same_id = refl;
  one_of = ((λ e. (_, refl)), (λ h. refl));
}
make_error_response-IsResponse (some i) error = record {
  fields = _;
  is_object = refl;
  version = refl;
  same_id = refl;
  one_of = ((λ e. (_, refl)), (λ h. refl));
}
