-- ===== src/Rpc/Protocol.antt =====
-- include/rpcxx/protocol.hpp, exception.hpp and the error codes of common.hpp.
pub mod RoundTrip
use rpcxx.Prelude.{
  ℕ, ◌≡◌, ◌≢◌, refl, Bool, true, false, List, [], ◌∷◌, ◌++◌, Option, none, some, if◌then◌else◌, not,
  ◌&&◌,
}
use rpcxx.Prelude.Int.{ℤ, pos, negsuc}
use rpcxx.Prelude.Text.{codes}
use rpcxx.Json.Value.{Bytes, JsonView, null, string, signed, unsigned, array, object, no_items}
use rpcxx.Json.Key.{key_eq}
use rpcxx.Json.Access.{
  RpcException, Exception, rpc, Result, ok, throw, ◌>>=◌, ◌>>◌, find_field, at_field, get_string,
  get_int64, type_name, is_string, is_object, make_object, is_null,
}

pub data Protocol : Type 0 where
  json_v2_compliant json_v2_minified : Protocol

abbrev pub is_compliant : Protocol → Bool
is_compliant json_v2_compliant = true
is_compliant json_v2_minified = false

-- `Fields<proto>`.
abbrev pub id_field : Bytes
id_field = codes "id"

unfoldable pub method_field : Protocol → Bytes
method_field json_v2_compliant = codes "method"
method_field json_v2_minified = codes "m"

unfoldable pub params_field : Protocol → Bytes
params_field json_v2_compliant = codes "params"
params_field json_v2_minified = codes "p"

unfoldable pub result_field : Protocol → Bytes
result_field json_v2_compliant = codes "result"
result_field json_v2_minified = codes "r"

unfoldable pub error_field : Protocol → Bytes
error_field json_v2_compliant = codes "error"
error_field json_v2_minified = codes "e"

-- `ErrorCode`.
abbrev pub parse_code : ℤ
parse_code = negsuc 32699

abbrev pub invalid_request_code : ℤ
invalid_request_code = negsuc 32599

abbrev pub method_not_found_code : ℤ
method_not_found_code = negsuc 32600

abbrev pub internal_code : ℤ
internal_code = negsuc 32602

abbrev pub rpc_error : Bytes → ℤ → Option JsonView → RpcException
rpc_error message code details = record { code = code; message = message; error_data = details }

abbrev pub empty_array : JsonView
empty_array = array no_items

abbrev pub version_pair : Protocol → List (Bytes × JsonView)
version_pair json_v2_compliant = (codes "jsonrpc", string (codes "2.0")) ∷ []
version_pair json_v2_minified = []

-- The conversions of `RpcException` that its DESCRIBE block generates: an empty `data` is null.
unfoldable pub exception_view : RpcException → JsonView
exception_view e = make_object (
    (codes "code", signed e.code)
    ∷ (codes "message", string e.message)
    ∷ (codes "data", elim e.error_data [ none ↦ null | some d ↦ d ])
    ∷ [])

unfoldable pub exception_data : Option JsonView → Option JsonView
exception_data none = none
exception_data (some d) = if is_null d then none else some d

unfoldable pub get_exception : JsonView → Result RpcException
unfolding exception_data
get_exception v = do
  code ← at_field v (codes "code")
  code ← get_int64 code
  message ← at_field v (codes "message")
  message ← get_string message
  details ← find_field v (codes "data")
  ok (rpc_error message code (exception_data details))

-- `Formatter<proto>`.
unfoldable pub make_request : Protocol → JsonView → Bytes → JsonView → JsonView
make_request proto id method params = make_object (
    (id_field, id)
    ∷ (method_field proto, string method)
    ∷ (params_field proto, params)
    ∷ version_pair proto)

unfoldable pub make_notify : Protocol → Bytes → JsonView → JsonView
make_notify proto method params =
    make_object
      ((method_field proto, string method) ∷ (params_field proto, params) ∷ version_pair proto)

unfoldable pub make_response : Protocol → JsonView → JsonView → JsonView
make_response proto id result =
    make_object ((id_field, id) ∷ (result_field proto, result) ∷ version_pair proto)

unfoldable pub make_error : Protocol → JsonView → RpcException → JsonView
make_error proto id e =
    make_object ((id_field, id) ∷ (error_field proto, exception_view e) ∷ version_pair proto)

-- `UnpackSingleRequest`.
pub record UnpackedRequest : Type 0 where
  pub method : Bytes
  pub params : JsonView

abbrev was_type : JsonView → JsonView
was_type v = make_object ((codes "was_type", string (type_name v)) ∷ [])

unfoldable pub required_method : Option JsonView → Result Bytes
required_method none =
    throw (rpc (rpc_error (codes "Missing 'method' field") invalid_request_code none))
required_method (some (string s)) = ok s
required_method (some v) = throw (
    rpc
      (rpc_error (codes "'method' field is not a string") invalid_request_code (some (was_type v))))

-- `DeepEqual(*tag, "2.0")`, for the tag of the version.
unfoldable pub is_version : Option JsonView → Bool
is_version none = false
is_version (some (string s)) = key_eq s (codes "2.0")
is_version (some _) = false

unfoldable pub check_version : Protocol → JsonView → Result (Unit {0})
unfolding is_version
check_version json_v2_minified req = ok tt
check_version json_v2_compliant req = do
  tag ← find_field req (codes "jsonrpc")
  (if is_version tag
      then ok tt
      else throw
          (rpc (rpc_error (codes "'jsonrpc' field missing or != '2.0'") invalid_request_code none)))

unfoldable pub unpack_request : Protocol → JsonView → Result UnpackedRequest
unfolding required_method check_version
unpack_request proto req = do
  found ← find_field req (method_field proto)
  method ← required_method found
  check_version proto req
  params ← find_field req (params_field proto)
  ok (record { method = method; params = elim params [ none ↦ empty_array | some p ↦ p ] })

-- `UnpackSingleResponce`.
unfoldable pub response_error : Protocol → JsonView → Result JsonView
response_error proto resp = do
  found ← find_field resp (error_field proto)
  elim found [
    | none ↦ throw (rpc (rpc_error (codes "Missing 'result' or 'error' field") parse_code none))
    | some e ↦ get_exception e >>= λ x. throw (rpc x)
  ]

unfoldable pub unpack_response : Protocol → JsonView → Result JsonView
unfolding response_error
unpack_response proto resp =
    if not (is_object resp)
    then throw (rpc (rpc_error (codes "non-object responce") parse_code (some (was_type resp))))
    else (do
      found ← find_field resp (result_field proto)
      elim found [ none ↦ response_error proto resp | some r ↦ ok r ])
