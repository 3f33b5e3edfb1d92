-- ===== src/Tests/Messages.antt =====
-- Messages on their way in and out (src/rpcxx/transport.cpp).
use rpcxx.Prelude.{◌≡◌, refl, [], ◌∷◌, none, some}
use rpcxx.Prelude.Text.{codes}
use rpcxx.Prelude.Int.{negsuc}
use rpcxx.Json.Value.{Bytes, JsonView, unsigned}
use rpcxx.Json.Access.{Exception, Result, throw, rpc, runtime_error}
use rpcxx.Rpc.Protocol.{
  json_v2_compliant, make_request, make_notify, make_response, make_error, rpc_error,
  exception_data, empty_array,
}
use rpcxx.Rpc.Transport.{Transact, Impl, value, failed, find_pending}
use rpcxx.Rpc.Receive.{to_client, to_notify, to_handle, receive}
use rpcxx.Rpc.Receive.Dispatched.{answered, receive-make_request, receive-make_response}

abbrev no_text : JsonView → Bytes
no_text v = []

abbrev call_of_3 : Transact
call_of_3 = record { method = codes "sum"; prom = 3; timeout = 100 }

abbrev waits : Impl
waits = record { next_id = 6; proto = json_v2_compliant; pending = (5, call_of_3) ∷ []; last = 0 }

receive-make_request_example :
    (receive no_text (make_request json_v2_compliant (unsigned 1) (codes "sum") empty_array) waits
      ≡ to_handle (unsigned 1) (codes "sum") empty_array)
    × (receive no_text (make_notify json_v2_compliant (codes "sum") empty_array) waits
        ≡ to_notify (codes "sum") empty_array)
receive-make_request_example =
    receive-make_request no_text (unsigned 1) (codes "sum") empty_array waits refl

found_5 : find_pending 5 ((5, call_of_3) ∷ []) ≡ some call_of_3
unfolding find_pending
found_5 = refl

receive-make_response_example :
    (receive no_text (make_response json_v2_compliant (unsigned 5) (unsigned 42)) waits
      ≡ to_client (answered 5 3 (value (unsigned 42)) waits))
    × (receive no_text
          (make_error json_v2_compliant (unsigned 5) (rpc_error (codes "no") (negsuc 0) none))
          waits
        ≡ to_client (
            answered 5 3
              (failed (rpc (rpc_error (codes "no") (negsuc 0) (exception_data none))))
              waits))
receive-make_response_example =
    receive-make_response no_text 5 call_of_3 (unsigned 42) (rpc_error (codes "no") (negsuc 0) none)
      waits found_5

abbrev error_text : Exception → Bytes
error_text e = codes "error"

abbrev closed_socket : JsonView → Result (Unit {0})
closed_socket v = throw (runtime_error (codes "closed"))
