-- ===== src/Rpc/Transport/Invariant.antt =====
-- The invariant of the table of pending calls: no id stands twice.
use rpcxx.Prelude.{Bool-cases, inl, inr, ℕ, ◌+◌, ◌-◌, ◌%◌, ◌^◌, refl, List, [], ◌∷◌}
use rpcxx.Json.Value.{Bytes, JsonView}
use rpcxx.Json.Access.{Result, ok, throw}
use rpcxx.Rpc.Transport.{
  Transact, Impl, Settled, find_pending, add_to, add_pending, RequestMethod, RequestNotify,
  send_parts, is_too_big, send_method, send_notify, send_batch, batch_methods, check_timeouts,
  handle_resp_to_client, handle_batch_resp, response_target, finish_response,
}
use rpcxx.Rpc.Transport.Table.{IsDistinct, add_to-IsDistinct, erase-IsDistinct, tick-IsDistinct}
use rpcxx.Rpc.Transport.Calls.{
  Call, method, notify, batch, response, responses, check, run_call, run_calls,
}

batch_methods-IsDistinct :
    (ms : List RequestMethod) (s : Impl)
    → IsDistinct s.pending
    → IsDistinct (batch_methods ms s).0.pending
unfolding batch_methods add_pending
batch_methods-IsDistinct [] s h = h
batch_methods-IsDistinct (m ∷ ms) s h =
    let tr : Transact = record { method = m.method; prom = m.cb; timeout = m.timeout } in
    let added = add_to (find_pending s.next_id s.pending) s.next_id tr s.pending in
    let next : Impl = record s { next_id = (s.next_id + 1) % 2 ^ 64; pending = added.0 } in
    batch_methods-IsDistinct ms next (add_to-IsDistinct s.next_id tr s.pending _ refl h)

send_parts-IsDistinct :
    (ns : List RequestNotify) (ms : List RequestMethod) (s : Impl)
    → IsDistinct s.pending
    → IsDistinct (send_parts ns ms s).state.pending
unfolding send_parts
send_parts-IsDistinct ns ms s h = batch_methods-IsDistinct ms s h

finish-IsDistinct :
    (s : Impl) (r : Result (ℕ × ℕ × Settled))
    → IsDistinct s.pending
    → IsDistinct (finish_response s r).state.pending
unfolding finish_response
finish-IsDistinct s (throw e) h = h
finish-IsDistinct s (ok (num, prom, out)) h = erase-IsDistinct num s.pending h

module _ (dump : JsonView → Bytes) where
  handle_resp-IsDistinct :
      (resp : JsonView) (s : Impl)
      → IsDistinct s.pending
      → IsDistinct (handle_resp_to_client dump resp s).state.pending
  unfolding handle_resp_to_client
  handle_resp-IsDistinct resp s h = finish-IsDistinct s (response_target dump resp s) h

  handle_batch_resp-IsDistinct :
      (parts : List JsonView) (s : Impl)
      → IsDistinct s.pending
      → IsDistinct (handle_batch_resp dump parts s).state.pending
  unfolding handle_batch_resp
  handle_batch_resp-IsDistinct [] s h = h
  handle_batch_resp-IsDistinct (part ∷ parts) s h =
      handle_batch_resp-IsDistinct parts (handle_resp_to_client dump part s).state
        (handle_resp-IsDistinct part s h)

  run_call-IsDistinct :
      (call : Call) (s : Impl)
      → IsDistinct s.pending
      → IsDistinct (run_call dump call s).state.pending
  unfolding run_call send_method send_notify send_batch check_timeouts add_pending
  run_call-IsDistinct (method m params prom timeout) s h =
      add_to-IsDistinct s.next_id (record { method = m; prom = prom; timeout = timeout }) s.pending
        _ refl h
  run_call-IsDistinct (notify m params) s h = h
  run_call-IsDistinct (batch ns ms) s h = elim (Bool-cases (is_too_big ns ms)) [
    | inl big ↦ rw big h
    | inr fits ↦ rw fits (send_parts-IsDistinct ns ms s h)
  ]
  run_call-IsDistinct (response resp) s h = handle_resp-IsDistinct resp s h
  run_call-IsDistinct (responses parts) s h = handle_batch_resp-IsDistinct parts s h
  run_call-IsDistinct (check now) s h = tick-IsDistinct (now - s.last) s.pending h

  -- No sequence of calls ever puts an id twice into a table in which none stands twice, also when the
  -- counter of the ids wraps around.
  pub run_calls-IsDistinct :
      (calls : List Call) (s : Impl)
      → IsDistinct s.pending
      → IsDistinct (run_calls dump calls s).0.pending
  unfolding run_calls
  run_calls-IsDistinct [] s h = h
  run_calls-IsDistinct (call ∷ calls) s h =
      run_calls-IsDistinct calls (run_call dump call s).state (run_call-IsDistinct call s h)
