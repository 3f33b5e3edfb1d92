-- ===== src/Rpc/Protocol/RoundTrip.antt =====
-- include/rpcxx/protocol.hpp: `Formatter`, and the unpackers on what it formats.
use rpcxx.Prelude.{◌≡◌, refl, ◌∙◌, Option, none, some}
use rpcxx.Json.Value.{Bytes, JsonView}
use rpcxx.Json.Key.{key_lt, key_eq}
use rpcxx.Json.Object.{sorted_insert}
use rpcxx.Json.Find.{find_val}
use rpcxx.Json.Access.{
  RpcException, rpc, ok, throw, find_field, at_field, get_string, get_int64, make_object, ◌>>=◌,
}
use rpcxx.Rpc.Protocol.{
  Protocol, json_v2_compliant, json_v2_minified, make_request, make_notify, make_response,
  make_error, unpack_request, unpack_response, exception_view, get_exception, exception_data,
  method_field, params_field, result_field, error_field, rpc_error,
}

-- Under either protocol a request that `MakeRequest` formats, and a notification that `MakeNotify`
-- formats, unpack to the method and the params given.
pub unpack-make_request :
    (proto : Protocol) (id : JsonView) (method : Bytes) (params : JsonView)
    → (unpack_request proto (make_request proto id method params)
        ≡ ok (record { method = method; params = params }))
      × (unpack_request proto (make_notify proto method params)
          ≡ ok (record { method = method; params = params }))
unfolding unpack_request make_request make_notify make_object sorted_insert key_lt key_eq find_field
    find_val method_field params_field
unpack-make_request json_v2_compliant id method params = (refl, refl)
unpack-make_request json_v2_minified id method params = (refl, refl)

-- An exception without `data` reads back without it, and so does one whose `data` is JSON null.
pub get_exception-view :
    (e : RpcException)
    → get_exception (exception_view e)
      ≡ ok (rpc_error e.message e.code (exception_data e.error_data))
unfolding get_exception exception_view make_object sorted_insert key_lt key_eq find_field find_val
    at_field get_int64 get_string exception_data
get_exception-view e = by_data e.error_data
  where
    by_data :
        (d : Option JsonView)
        → get_exception (exception_view (rpc_error e.message e.code d))
          ≡ ok (rpc_error e.message e.code (exception_data d))
    by_data none = refl
    by_data (some d) = refl

error_found :
    (proto : Protocol) (id : JsonView) (e : RpcException)
    → unpack_response proto (make_error proto id e)
      ≡ (get_exception (exception_view e) >>= λ x. throw (rpc x))
unfolding unpack_response make_error make_object sorted_insert key_lt key_eq find_field find_val
    result_field error_field
error_found json_v2_compliant id e = refl
error_found json_v2_minified id e = refl

-- Under either protocol `UnpackSingleResponce` returns the result that `MakeResponce` formats, and
-- throws the exception that `MakeError` formats: the same code and message, and the same data,
-- where data that is JSON null counts as none.
pub unpack-make_response :
    (proto : Protocol) (id result : JsonView) (e : RpcException)
    → (unpack_response proto (make_response proto id result) ≡ ok result)
      × (unpack_response proto (make_error proto id e)
          ≡ throw (rpc (rpc_error e.message e.code (exception_data e.error_data))))
unfolding unpack_response make_response make_object sorted_insert key_lt key_eq find_field find_val
    result_field
unpack-make_response json_v2_compliant id result e =
    (refl, error_found json_v2_compliant id e ∙ rw (get_exception-view e))
unpack-make_response json_v2_minified id result e =
    (refl, error_found json_v2_minified id e ∙ rw (get_exception-view e))
