-- ===== src/Rpc/Transport/Promises.antt =====
-- src/rpcxx/transport.cpp: where every promise is, over runs of the transport.
use rpcxx.Prelude.{
  ℕ, ◌+◌, ◌-◌, ◌%◌, ◌^◌, ◌≡◌, refl, Bool, List, [], ◌∷◌, ◌++◌, Option, none, some, inl, inr,
  Bool-cases, ◌==◌, if◌then◌else◌, arith,
}
use rpcxx.Json.Value.{Bytes, JsonView, unsigned, array, of_items}
use rpcxx.Json.Access.{Result-cases, Result, ok, throw, ◌>>=◌}
use rpcxx.Rpc.Transport.{
  Transact, Pending, Impl, Run, Action, Settled, settle, send, find_pending, replace_pending,
  erase_pending, add_to, add_pending, batch_notifs, tick, tick_entry, RequestMethod, send_method,
  send_notify, send_batch, send_parts, is_too_big, RequestNotify, batch_methods, check_timeouts,
  handle_resp_to_client, handle_batch_resp, response_target, finish_response, settle_pending,
  response_id, response_outcome,
}
use rpcxx.Rpc.Protocol.{make_request}
use rpcxx.Rpc.Transport.Calls.{
  Call, method, notify, batch, response, responses, check, run_call, run_calls,
}

abbrev one_if : Bool → ℕ
one_if b = if b then 1 else 0

-- How often the promise waits in the table, and how often it is called.
unfoldable pub waiting : ℕ → Pending → ℕ
waiting c [] = 0
waiting c ((i, t) ∷ p) = one_if (t.prom == c) + waiting c p

unfoldable pub settles : ℕ → List Action → ℕ
settles c [] = 0
settles c (settle q out ∷ acts) = one_if (q == c) + settles c acts
settles c (send msg ∷ acts) = settles c acts

settles-append : (c : ℕ) (a b : List Action) → settles c (a ++ b) ≡ settles c a + settles c b
unfolding settles
settles-append c [] b = omega arith
settles-append c (settle q out ∷ a) b = omega (arith, settles-append c a b)
settles-append c (send msg ∷ a) b = settles-append c a b

waiting-append : (c : ℕ) (p q : Pending) → waiting c (p ++ q) ≡ waiting c p + waiting c q
unfolding waiting
waiting-append c [] q = omega arith
waiting-append c ((i, t) ∷ p) q = omega (arith, waiting-append c p q)

waiting-replace :
    (c i : ℕ) (tr old : Transact) (p : Pending)
    → find_pending i p ≡ some old
    → waiting c (replace_pending i tr p) + one_if (old.prom == c)
      ≡ waiting c p + one_if (tr.prom == c)
unfolding waiting find_pending replace_pending
waiting-replace c i tr old [] e = cc
waiting-replace c i tr old ((k, t) ∷ p) e = ground (arith, waiting-replace c i tr old p)

waiting-erase :
    (c i : ℕ) (t : Transact) (p : Pending)
    → find_pending i p ≡ some t
    → waiting c (erase_pending i p) + one_if (t.prom == c) ≡ waiting c p
unfolding waiting find_pending erase_pending
waiting-erase c i t [] e = cc
waiting-erase c i t ((k, u) ∷ p) e = ground (arith, waiting-erase c i t p)

waiting-add_to :
    (c i : ℕ) (tr : Transact) (p : Pending) (o : Option Transact)
    → find_pending i p ≡ o
    → waiting c (add_to o i tr p).0 + settles c (add_to o i tr p).1
      ≡ waiting c p + one_if (tr.prom == c)
unfolding add_to waiting settles
waiting-add_to c i tr p none e = omega (arith, waiting-append c p ((i, tr) ∷ []))
waiting-add_to c i tr p (some old) e = omega (arith, waiting-replace c i tr old p e)

waiting-tick :
    (c diff : ℕ) (p : Pending) → waiting c (tick diff p).0 + settles c (tick diff p).1 ≡ waiting c p
unfolding tick tick_entry waiting settles
waiting-tick c diff [] = refl
waiting-tick c diff ((i, t) ∷ p) = ground (arith, waiting-tick c diff p)

-- A run of one method keeps the balance when `handed` promises are passed in.
abbrev Balanced : ℕ → ℕ → Impl → Run → Type 0
Balanced c handed s r =
    waiting c r.state.pending + settles c r.actions ≡ waiting c s.pending + handed

handed_methods : ℕ → List RequestMethod → ℕ
handed_methods c [] = 0
handed_methods c (m ∷ ms) = one_if (m.cb == c) + handed_methods c ms

-- How often a call hands the promise in.
unfoldable pub handed : ℕ → Call → ℕ
unfolding handed_methods
handed c (method m params prom timeout) = one_if (prom == c)
handed c (batch ns ms) = if is_too_big ns ms then 0 else handed_methods c ms
handed c _ = 0

unfoldable pub handed_in : ℕ → List Call → ℕ
unfolding handed
handed_in c [] = 0
handed_in c (call ∷ calls) = handed c call + handed_in c calls

batch_methods-balanced :
    (c : ℕ) (ms : List RequestMethod) (s : Impl)
    → waiting c (batch_methods ms s).0.pending + settles c (batch_methods ms s).1
      ≡ waiting c s.pending + handed_methods c ms
unfolding batch_methods add_pending handed_methods
batch_methods-balanced c [] s = unfold settles in refl
batch_methods-balanced c (m ∷ ms) s =
    let tr : Transact = record { method = m.method; prom = m.cb; timeout = m.timeout } in
    let added = add_to (find_pending s.next_id s.pending) s.next_id tr s.pending in
    let next : Impl = record s { next_id = (s.next_id + 1) % 2 ^ 64; pending = added.0 } in
    omega (
      arith,
      waiting-add_to c s.next_id tr s.pending (find_pending s.next_id s.pending) refl,
      batch_methods-balanced c ms next,
      settles-append c added.1 (batch_methods ms next).1,
    )

send_parts-Balanced :
    (c : ℕ) (ns : List RequestNotify) (ms : List RequestMethod) (s : Impl)
    → Balanced c (handed_methods c ms) s (send_parts ns ms s)
unfolding send_parts settles
send_parts-Balanced c ns ms s = omega (
  arith,
  batch_methods-balanced c ms s,
  settles-append c (batch_methods ms s).1
      (send (array (of_items (batch_notifs s.proto ns ++ (batch_methods ms s).2))) ∷ []),
)

module _ (dump : JsonView → Bytes) where
  finish-Balanced :
      (c num : ℕ) (t : Transact) (s : Impl) (r : Result Settled)
      → find_pending num s.pending ≡ some t
      → Balanced c 0 s (finish_response s (r >>= λ out. ok (num, t.prom, out)))
  unfolding finish_response settles
  finish-Balanced c num t s (throw e) h = refl
  finish-Balanced c num t s (ok out) h = omega (arith, waiting-erase c num t s.pending h)

  target-Balanced :
      (c num : ℕ) (resp : JsonView) (s : Impl) (o : Option Transact)
      → find_pending num s.pending ≡ o
      → Balanced c 0 s
          (finish_response s (settle_pending dump resp num o s >>= λ hit. ok (num, hit.0, hit.1)))
  unfolding settle_pending
  target-Balanced c num resp s none h = unfold finish_response settles in refl
  target-Balanced c num resp s (some t) h = elim (Result-cases (response_outcome s.proto resp)) [
    | inl (out, e) ↦ rw e (finish-Balanced c num t s (ok out) h)
    | inr (x, e) ↦ rw e (finish-Balanced c num t s (throw x) h)
  ]

  handle_resp-Balanced :
      (c : ℕ) (resp : JsonView) (s : Impl) → Balanced c 0 s (handle_resp_to_client dump resp s)
  unfolding handle_resp_to_client response_target
  handle_resp-Balanced c resp s = elim (Result-cases (response_id resp)) [
    | inl (num, e) ↦ rw e (target-Balanced c num resp s (find_pending num s.pending) refl)
    | inr (x, e) ↦ rw e (unfold finish_response settles in refl)
  ]

  handle_batch_resp-Balanced :
      (c : ℕ) (parts : List JsonView) (s : Impl) → Balanced c 0 s (handle_batch_resp dump parts s)
  unfolding handle_batch_resp
  handle_batch_resp-Balanced c [] s = unfold settles in refl
  handle_batch_resp-Balanced c (part ∷ parts) s =
      let one = handle_resp_to_client dump part s in
      omega (
        arith,
        handle_resp-Balanced c part s,
        handle_batch_resp-Balanced c parts one.state,
        settles-append c one.actions (handle_batch_resp dump parts one.state).actions,
      )

  run_call-Balanced :
      (c : ℕ) (call : Call) (s : Impl) → Balanced c (handed c call) s (run_call dump call s)
  unfolding run_call handed settles send_method send_notify send_batch check_timeouts add_pending
  run_call-Balanced c (method m params prom timeout) s =
      let tr : Transact = record { method = m; prom = prom; timeout = timeout } in
      let found = find_pending s.next_id s.pending in
      omega (
        arith,
        waiting-add_to c s.next_id tr s.pending found refl,
        settles-append c (add_to found s.next_id tr s.pending).1
            (send (make_request s.proto (unsigned s.next_id) m params) ∷ []),
      )
  run_call-Balanced c (notify m params) s = refl
  run_call-Balanced c (batch ns ms) s = elim (Bool-cases (is_too_big ns ms)) [
    | inl big ↦ rw big refl
    | inr fits ↦ rw fits (send_parts-Balanced c ns ms s)
  ]
  run_call-Balanced c (response resp) s = handle_resp-Balanced c resp s
  run_call-Balanced c (responses parts) s = handle_batch_resp-Balanced c parts s
  run_call-Balanced c (check now) s = omega (arith, waiting-tick c (now - s.last) s.pending)

  -- For every promise c and every sequence of calls of SendMethod, SendNotify, SendBatch, of
  -- single and batched responses and of CheckTimeouts: how often c waits in the final table plus
  -- how often it was called on the way is how often it waited at first plus how often it was
  -- handed in. A batch that is refused as too big hands nothing in.
  pub run_calls-balanced :
      (c : ℕ) (calls : List Call) (s : Impl)
      → waiting c (run_calls dump calls s).0.pending + settles c (run_calls dump calls s).1
        ≡ waiting c s.pending + handed_in c calls
  unfolding run_calls handed_in
  run_calls-balanced c [] s = unfold settles in refl
  run_calls-balanced c (call ∷ calls) s =
      let one = run_call dump call s in
      omega (
        arith,
        run_call-Balanced c call s,
        run_calls-balanced c calls one.state,
        settles-append c one.actions (run_calls dump calls one.state).1,
      )
