-- ===== src/Tests/Calls.antt =====
-- The client's side of the transport (src/rpcxx/transport.cpp), the messages
-- (include/rpcxx/protocol.hpp) and the client (src/rpcxx/client.cpp).
use rpcxx.Prelude.{ℕ, ◌≡◌, refl, ◌+◌, ◌⊎◌, true, List, [], ◌∷◌}
use rpcxx.Prelude.Text.{codes}
use rpcxx.Json.Value.{Bytes, JsonView, null, unsigned}
use rpcxx.Json.Access.{ok}
use rpcxx.Rpc.Protocol.{json_v2_compliant, make_response, empty_array}
use rpcxx.Rpc.Transport.{Pending, Impl, find_pending, handle_resp_to_client}
use rpcxx.Rpc.Transport.Table.{IsDistinct}
use rpcxx.Rpc.Transport.Calls.{Call, method, response, check, run_calls}
use rpcxx.Rpc.Transport.Promises.{waiting, settles, handed_in, run_calls-balanced}
use rpcxx.Rpc.Transport.Response.{Serves, Refuses, handle_resp-effect}
use rpcxx.Rpc.Client.{ClientTransport}
use rpcxx.Rpc.Client.Session.{Ask, request, closed, session, session-send_batch}

abbrev no_text : JsonView → Bytes
no_text v = []

-- Promise 3 waits under id 5 for 100 ms.
abbrev one_call : Pending
one_call = (5, record { method = codes "sum"; prom = 3; timeout = 100 }) ∷ []

abbrev idle : Impl
idle = record { next_id = 6; proto = json_v2_compliant; pending = one_call; last = 0 }

one_call-IsDistinct : IsDistinct one_call
unfolding find_pending
one_call-IsDistinct = (refl, tt)

-- The response to the call, a new call, and a check that comes too late for nothing.
abbrev some_calls : List Call
some_calls =
    response (make_response json_v2_compliant (unsigned 5) (unsigned 42))
    ∷ method (codes "sum") empty_array 4 20
    ∷ check 10
    ∷ []

run_calls-balanced_example :
    waiting 3 (run_calls no_text some_calls idle).0.pending
      + settles 3 (run_calls no_text some_calls idle).1
    ≡ waiting 3 one_call + handed_in 3 some_calls
run_calls-balanced_example = run_calls-balanced no_text 3 some_calls idle

abbrev the_answer : JsonView
the_answer = make_response json_v2_compliant (unsigned 5) (unsigned 42)

handle_resp-effect_example :
    Serves the_answer idle (handle_resp_to_client no_text the_answer idle)
    ⊎ Refuses idle (handle_resp_to_client no_text the_answer idle)
handle_resp-effect_example = handle_resp-effect no_text the_answer idle one_call-IsDistinct

-- A transport that counts what is sent.
abbrev counter : ClientTransport ℕ
counter = record {
  send_method = λ method params prom timeout t. t + 1;
  send_notify = λ method params t. t + 1;
  send_batch = λ notifs methods t. t + 10;
}

abbrev two_asks : List Ask
two_asks = request 3 (codes "sum") 100 empty_array ∷ Ask.notify (codes "log") null ∷ []

session-send_batch_example :
    session counter two_asks (closed true (codes "math")) 0 ≡ ok (closed true (codes "math"), 10)
session-send_batch_example = session-send_batch counter two_asks (codes "math") 0
