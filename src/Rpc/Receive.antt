-- ===== src/Rpc/Receive.antt =====
-- src/rpcxx/transport.cpp, the way of a message: `Receive`, `handle`, `handleBatch`, `handleServer` and
-- `sendResult`.
--
-- The handler and the peer are outside: a message ends in what is handed to them. A handler is
-- registered; without one `NoServerFound` throws before it would be called.
pub mod Dispatched
pub mod Replied
use rpcxx.Prelude.{ℕ, Bool, true, false, List, [], ◌∷◌, Option, none, some, if◌then◌else◌}
use rpcxx.Prelude.Text.{codes}
use rpcxx.Json.Value.{Bytes, JsonView, Items, null, array, object, string, no_items, item, items}
use rpcxx.Json.Access.{
  Exception, rpc, Result, ok, throw, ◌>>=◌, find_field, value_or, get_string, is_null, type_name,
  make_object,
}
use rpcxx.Rpc.Protocol.{
  Protocol, id_field, method_field, params_field, empty_array, rpc_error, invalid_request_code,
  make_response, make_error,
}
use rpcxx.Rpc.Transport.{Impl, Run, handle_resp_to_client, handle_batch_resp}
use rpcxx.Rpc.Batch.{wrap_error}

-- Where a message goes: to the promises of the calls, as a batch to the loop over its requests, to
-- `HandleNotify` or to `Handle` with the id of the call, or nowhere, with the exception thrown.
pub data Routed : Type 0 where
  to_client : Run → Routed
  to_batch : List JsonView → Routed
  to_notify : Bytes → JsonView → Routed
  to_handle : JsonView → Bytes → JsonView → Routed
  refused : Exception → Routed

abbrev pub routed : Result Routed → Routed
routed (ok r) = r
routed (throw e) = refused e

-- `handleServer`.
unfoldable pub handle_server : Protocol → Bytes → JsonView → Result Routed
handle_server proto method req = do
  id ← value_or req id_field null
  params ← value_or req (params_field proto) empty_array
  ok (if is_null id then to_notify method params else to_handle id method params)

-- `handle`, on what the search for the method gives.
unfoldable pub handle_one : (JsonView → Bytes) → JsonView → Impl → Option JsonView → Result Routed
unfolding handle_server
handle_one dump msg s none = ok (to_client (handle_resp_to_client dump msg s))
handle_one dump msg s (some method) = get_string method >>= λ name. handle_server s.proto name msg

-- `handleBatch`, on what the first part has as its method.
unfoldable pub handle_batch :
    (JsonView → Bytes) → List JsonView → Impl → Option JsonView → Result Routed
handle_batch dump parts s none = ok (to_client (handle_batch_resp dump parts s))
handle_batch dump parts s (some method) = ok (to_batch parts)

abbrev pub not_a_message : JsonView → Routed
not_a_message msg = refused (
    rpc (
      rpc_error (codes "Request/Responce should be an array or object") invalid_request_code
        (some (make_object ((codes "was_type", string (type_name msg)) ∷ [])))))

-- `Receive`.
unfoldable pub receive : (JsonView → Bytes) → JsonView → Impl → Routed
unfolding handle_one handle_batch
receive dump (array no_items) s =
    refused (rpc (rpc_error (codes "Empty batch array") invalid_request_code none))
receive dump (array (item part parts)) s = routed (
    find_field part (method_field s.proto) >>= λ method.
    handle_batch dump (part ∷ items parts) s method)
receive dump (object ps) s = routed (
    find_field (object ps) (method_field s.proto) >>= λ method.
    handle_one dump (object ps) s method)
receive dump msg s = not_a_message msg

-- `sendResult`: the messages handed to `Send`, whose outcome on each is given.
unfoldable pub send_error : Protocol → (Exception → Bytes) → JsonView → Exception → JsonView
unfolding wrap_error
send_error proto what id e = make_error proto id (wrap_error what e)

unfoldable pub send_result :
    Protocol
    → (Exception → Bytes)
    → (JsonView → Result (Unit {0}))
    → JsonView
    → Result JsonView
    → List JsonView
unfolding send_error
send_result proto what sending id (throw e) = send_error proto what id e ∷ []
send_result proto what sending id (ok v) =
    make_response proto id v ∷ elim (sending (make_response proto id v)) [
      | ok _ ↦ []
      | throw e ↦ send_error proto what id e ∷ []
    ]
