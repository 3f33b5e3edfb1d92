-- ===== src/Rpc/Receive/Dispatched.antt =====
-- A message that one side formats, at the other side.
use rpcxx.Prelude.{ℕ, ◌≡◌, refl, ◌∙◌, false, [], ◌∷◌, none, some, if◌then◌else◌}
use rpcxx.Json.Value.{Bytes, JsonView, unsigned}
use rpcxx.Json.Key.{key_lt, key_eq}
use rpcxx.Json.Object.{sorted_insert}
use rpcxx.Json.Find.{find_val}
use rpcxx.Json.Access.{
  rpc, find_field, value_or, get_string, get_size, is_null, make_object, RpcException,
}
use rpcxx.Rpc.Protocol.{
  Protocol, json_v2_compliant, json_v2_minified, make_request, make_notify, make_response,
  make_error, method_field, params_field, result_field, error_field, exception_data, rpc_error,
}
use rpcxx.Rpc.Protocol.RoundTrip.{get_exception-view}
use rpcxx.Rpc.Transport.{
  Transact, Impl, Run, Settled, settle, value, failed, find_pending, erase_pending,
  handle_resp_to_client, response_id, response_outcome, response_target, settle_pending,
  finish_response,
}
use rpcxx.Rpc.Receive.{to_client, to_notify, to_handle, handle_server, handle_one, receive}

abbrev pub answered : ℕ → ℕ → Settled → Impl → Run
answered num prom out s = record {
  state = record s { pending = erase_pending num s.pending };
  actions = settle prom out ∷ [];
  thrown = none;
}

module _ (dump : JsonView → Bytes) where
  request-at :
      (proto : Protocol) (id : JsonView) (method : Bytes) (params : JsonView) (s : Impl)
      → s.proto ≡ proto
      → receive dump (make_request proto id method params) s
        ≡ (if is_null id then to_notify method params else to_handle id method params)
  unfolding receive handle_one make_request make_object sorted_insert key_lt key_eq find_field
      find_val method_field params_field get_string value_or handle_server
  request-at json_v2_compliant id method params s e = rw e refl
  request-at json_v2_minified id method params s e = rw e refl

  notify-at :
      (proto : Protocol) (method : Bytes) (params : JsonView) (s : Impl)
      → s.proto ≡ proto
      → receive dump (make_notify proto method params) s ≡ to_notify method params
  unfolding receive handle_one make_notify make_object sorted_insert key_lt key_eq find_field
      find_val method_field params_field get_string value_or handle_server
  notify-at json_v2_compliant method params s e = rw e refl
  notify-at json_v2_minified method params s e = rw e refl

  -- A transport that receives what another one under the same protocol formats hands to its handler
  -- the method and the params given: as a call under the same id for a request whose id is not
  -- null, and as a notification for a notification.
  pub receive-make_request :
      (id : JsonView) (method : Bytes) (params : JsonView) (s : Impl)
      → is_null id ≡ false
      → (receive dump (make_request s.proto id method params) s ≡ to_handle id method params)
        × (receive dump (make_notify s.proto method params) s ≡ to_notify method params)
  receive-make_request id method params s e = (
    request-at s.proto id method params s refl ∙ rw e refl,
    notify-at s.proto method params s refl,
  )

  response-at :
      (proto : Protocol) (num : ℕ) (t : Transact) (v : JsonView) (s : Impl)
      → s.proto ≡ proto
      → find_pending num s.pending ≡ some t
      → receive dump (make_response proto (unsigned num) v) s
        ≡ to_client (answered num t.prom (value v) s)
  unfolding receive handle_one make_response make_object sorted_insert key_lt key_eq find_field
      find_val method_field result_field handle_resp_to_client response_target response_id get_size
      settle_pending response_outcome finish_response
  response-at json_v2_compliant num t v s e h = rw (e, h) refl
  response-at json_v2_minified num t v s e h = rw (e, h) refl

  error-at :
      (proto : Protocol) (num : ℕ) (t : Transact) (x : RpcException) (s : Impl)
      → s.proto ≡ proto
      → find_pending num s.pending ≡ some t
      → receive dump (make_error proto (unsigned num) x) s
        ≡ to_client (
            answered num t.prom
              (failed (rpc (rpc_error x.message x.code (exception_data x.error_data))))
              s)
  unfolding receive handle_one make_error make_object sorted_insert key_lt key_eq find_field
      find_val method_field result_field error_field handle_resp_to_client response_target
      response_id get_size settle_pending response_outcome finish_response
  error-at json_v2_compliant num t x s e h = rw (e, h) (rw (get_exception-view x) refl)
  error-at json_v2_minified num t x s e h = rw (e, h) (rw (get_exception-view x) refl)

  -- A transport that waits for a call and receives the response that its peer under the same protocol
  -- formats for the id of that call takes the entry out and calls the promise: with the result, or
  -- with the exception of an error, whose data counts as none where it is JSON null.
  pub receive-make_response :
      (num : ℕ) (t : Transact) (v : JsonView) (x : RpcException) (s : Impl)
      → find_pending num s.pending ≡ some t
      → (receive dump (make_response s.proto (unsigned num) v) s
          ≡ to_client (answered num t.prom (value v) s))
        × (receive dump (make_error s.proto (unsigned num) x) s
            ≡ to_client (
                answered num t.prom
                  (failed (rpc (rpc_error x.message x.code (exception_data x.error_data))))
                  s))
  receive-make_response num t v x s h =
      (response-at s.proto num t v s refl h, error-at s.proto num t x s refl h)
