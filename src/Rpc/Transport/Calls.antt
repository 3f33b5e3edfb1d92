-- ===== src/Rpc/Transport/Calls.antt =====
-- Runs of the transport: any sequence of its methods and of responses.
use rpcxx.Prelude.{ℕ, List, [], ◌∷◌, ◌++◌}
use rpcxx.Json.Value.{Bytes, JsonView}
use rpcxx.Rpc.Transport.{
  Impl, Run, Action, RequestMethod, RequestNotify, send_method, send_notify, send_batch,
  check_timeouts, handle_resp_to_client, handle_batch_resp,
}

-- The calls of the transport that the program and the peer make.
pub data Call : Type 0 where
  method : Bytes → JsonView → ℕ → ℕ → Call
  notify : Bytes → JsonView → Call
  batch : List RequestNotify → List RequestMethod → Call
  response : JsonView → Call
  responses : List JsonView → Call
  check : ℕ → Call

module _ (dump : JsonView → Bytes) where
  unfoldable pub run_call : Call → Impl → Run
  run_call (method m params prom timeout) s = send_method m params prom timeout s
  run_call (notify m params) s = send_notify m params s
  run_call (batch ns ms) s = send_batch ns ms s
  run_call (response resp) s = handle_resp_to_client dump resp s
  run_call (responses parts) s = handle_batch_resp dump parts s
  run_call (check now) s = check_timeouts now s

  unfoldable pub run_calls : List Call → Impl → Impl × List Action
  unfolding run_call
  run_calls [] s = (s, [])
  run_calls (call ∷ calls) s =
      let one = run_call call s in
      let (last, acts) = run_calls calls one.state in (last, one.actions ++ acts)
