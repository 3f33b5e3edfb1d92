-- ===== src/Rpc/Transport.antt =====
-- src/rpcxx/transport.cpp, the client's side of `IAsyncTransport`: the table of pending calls.
--
-- A promise is a number that names it. A method gives the new state with the actions it takes, in
-- order: the calls of promises and of `Send`, and with the exception that it throws, if it does.
-- What a failing `Send` throws is caught and logged by its callers here, so that it has no effect.
-- The hash table is a list of entries, in whatever order it is walked.
pub mod Table
pub mod Calls
pub mod Invariant
pub mod Promises
pub mod Response
use rpcxx.Prelude.{
  length, Bool, ℕ, suc, ◌+◌, ◌-◌, ◌%◌, ◌^◌, ◌≡◌, refl, Bool, true, false, List, [], ◌∷◌, ◌++◌,
  Option, none, some, ltb, leb, ◌==◌, if◌then◌else◌,
}
use rpcxx.Prelude.Text.{codes}
use rpcxx.Json.Value.{Bytes, JsonView, unsigned, array, of_items, items, object, string}
use rpcxx.Json.Access.{
  Exception, rpc, future_error, runtime_error, Result, ok, throw, ◌>>=◌, ◌>>◌, find_field, get_size,
  make_object, type_name,
}
use rpcxx.Rpc.Protocol.{
  Protocol, make_request, make_notify, get_exception, id_field, result_field, error_field,
  rpc_error, parse_code, invalid_request_code,
}

pub record Transact : Type 0 where
  pub method : Bytes
  pub prom : ℕ
  pub timeout : ℕ

abbrev pub Pending : Type 0
Pending = List (ℕ × Transact)

-- `IAsyncTransport::Impl`; `last` is the time of the last check, in milliseconds.
pub record Impl : Type 0 where
  pub next_id : ℕ
  pub proto : Protocol
  pub pending : Pending
  pub last : ℕ

-- What a promise is called with, and what the transport does.
pub data Settled : Type 0 where
  value : JsonView → Settled
  failed : Exception → Settled

pub data Action : Type 0 where
  settle : ℕ → Settled → Action
  send : JsonView → Action

pub record Run : Type 0 where
  pub state : Impl
  pub actions : List Action
  pub thrown : Option Exception

abbrev pub no_timeout : ℕ
no_timeout = 2 ^ 32 - 1

-- `find`, `try_emplace` of a key that is absent, assignment through an iterator, and `erase`.
unfoldable pub find_pending : ℕ → Pending → Option Transact
find_pending id [] = none
find_pending id ((i, t) ∷ p) = if i == id then some t else find_pending id p

unfoldable pub replace_pending : ℕ → Transact → Pending → Pending
replace_pending id tr [] = []
replace_pending id tr ((i, t) ∷ p) =
    if i == id then (i, tr) ∷ p else (i, t) ∷ replace_pending id tr p

unfoldable pub erase_pending : ℕ → Pending → Pending
erase_pending id [] = []
erase_pending id ((i, t) ∷ p) = if i == id then p else (i, t) ∷ erase_pending id p

abbrev pub timeout_error : Bytes → Settled
timeout_error method = failed (future_error (method ++ codes ": Timeout Error"))

-- `addPending`: a call that still waits under the same id times out.
unfoldable pub add_to : Option Transact → ℕ → Transact → Pending → Pending × List Action
add_to none id tr p = (p ++ (id, tr) ∷ [], [])
add_to (some old) id tr p =
    (replace_pending id tr p, settle old.prom (timeout_error old.method) ∷ [])

unfoldable pub add_pending : ℕ → Transact → Pending → Pending × List Action
unfolding add_to find_pending replace_pending
add_pending id tr p = add_to (find_pending id p) id tr p

-- `SendMethod`; the id is a size_t.
unfoldable pub send_method : Bytes → JsonView → ℕ → ℕ → Impl → Run
unfolding add_pending
send_method method params prom timeout s =
    let tr : Transact = record { method = method; prom = prom; timeout = timeout } in
    let (p, acts) = add_pending s.next_id tr s.pending in
    record {
      state = record s { next_id = (s.next_id + 1) % 2 ^ 64; pending = p };
      actions = acts ++ send (make_request s.proto (unsigned s.next_id) method params) ∷ [];
      thrown = none;
    }

unfoldable pub send_notify : Bytes → JsonView → Impl → Run
send_notify method params s = record {
  state = s;
  actions = send (make_notify s.proto method params) ∷ [];
  thrown = none;
}

-- One request of a batch.
pub record RequestMethod : Type 0 where
  pub method : Bytes
  pub params : JsonView
  pub timeout : ℕ
  pub cb : ℕ

pub record RequestNotify : Type 0 where
  pub method : Bytes
  pub params : JsonView

-- The loop of `SendBatch` over the methods: the state, the actions and the formatted requests.
unfoldable pub batch_methods : List RequestMethod → Impl → Impl × List Action × List JsonView
unfolding add_pending
batch_methods [] s = (s, [], [])
batch_methods (m ∷ ms) s =
    let tr : Transact = record { method = m.method; prom = m.cb; timeout = m.timeout } in
    let (p, acts) = add_pending s.next_id tr s.pending in
    let (s', more, parts) =
      batch_methods ms (record s { next_id = (s.next_id + 1) % 2 ^ 64; pending = p }) in
    (s', acts ++ more, make_request s.proto (unsigned s.next_id) m.method m.params ∷ parts)

unfoldable pub batch_notifs : Protocol → List RequestNotify → List JsonView
batch_notifs proto [] = []
batch_notifs proto (n ∷ ns) = make_notify proto n.method n.params ∷ batch_notifs proto ns

-- `SendBatch`; the number of requests is an `unsigned`.
unfoldable pub is_too_big : List RequestNotify → List RequestMethod → Bool
is_too_big notifs methods = let total = length methods + length notifs in ltb (total % 2 ^ 32) total

-- The Copy of a part is the value itself: its DepthError, which leaves `SendBatch`, is left out.
unfoldable pub send_parts : List RequestNotify → List RequestMethod → Impl → Run
unfolding batch_methods batch_notifs
send_parts notifs methods s =
    let (s', acts, parts) = batch_methods methods s in
    record {
      state = s';
      actions = acts ++ send (array (of_items (batch_notifs s.proto notifs ++ parts))) ∷ [];
      thrown = none;
    }

unfoldable pub send_batch : List RequestNotify → List RequestMethod → Impl → Run
unfolding send_parts is_too_big
send_batch notifs methods s =
    if is_too_big notifs methods
    then record {
      state = s;
      actions = [];
      thrown = some (runtime_error (codes "Batch is too big"));
    }
    else send_parts notifs methods s

-- `ClearAllPending`.
unfoldable pub cancel_all : Pending → List Action
cancel_all [] = []
cancel_all ((i, t) ∷ p) =
    settle t.prom (failed (future_error (codes "Manual Cancel"))) ∷ cancel_all p

unfoldable pub clear_all_pending : Impl → Run
unfolding cancel_all
clear_all_pending s = record { state = s; actions = cancel_all s.pending; thrown = none }

-- The loop of `CheckTimeouts`, for `diff` milliseconds: the entries kept and the promises called,
-- from one entry on and from the entries behind it.
unfoldable pub tick_entry : ℕ → ℕ → Transact → Pending → List Action → Pending × List Action
tick_entry diff i t kept acts =
    if t.timeout == no_timeout
    then ((i, t) ∷ kept, acts)
    else if ltb diff t.timeout
    then ((i, record t { timeout = t.timeout - diff }) ∷ kept, acts)
    else (kept, settle t.prom (timeout_error t.method) ∷ acts)

unfoldable pub tick : ℕ → Pending → Pending × List Action
unfolding tick_entry
tick diff [] = ([], [])
tick diff ((i, t) ∷ p) = let (kept, acts) = tick diff p in tick_entry diff i t kept acts

unfoldable pub check_timeouts : ℕ → Impl → Run
unfolding tick
check_timeouts now s =
    let (kept, acts) = tick (now - s.last) s.pending in
    record { state = record s { pending = kept; last = now }; actions = acts; thrown = none }

-- `handleRespToClient`. What the response holds for the promise of its call.
unfoldable pub response_outcome : Protocol → JsonView → Result Settled
response_outcome proto resp = do
  result ← find_field resp (result_field proto)
  elim result [
    | some r ↦ ok (value r)
    | none ↦ find_field resp (error_field proto) >>= λ e. elim e [
      | some x ↦ get_exception x >>= λ exc. ok (failed (rpc exc))
      | none ↦
          throw
            (rpc (rpc_error (codes "missing 'error' or 'result' fields") invalid_request_code none))
    ]
  ]

unfoldable pub response_id : JsonView → Result ℕ
response_id resp = do
  id ← find_field resp id_field
  elim id [
    | none ↦
        throw (rpc (rpc_error (codes "Could not find 'id' in responce to client") parse_code none))
    | some v ↦ get_size v
  ]

-- `dump` is `resp.Dump()`, for the message.
unfoldable pub settle_pending :
    (JsonView → Bytes) → JsonView → ℕ → Option Transact → Impl → Result (ℕ × Settled)
settle_pending dump resp num none s = throw (
    rpc (
      rpc_error (codes "Could not find match id with any pending request => " ++ dump resp)
        invalid_request_code (some (make_object ((codes "was_id", unsigned num) ∷ [])))))
settle_pending dump resp num (some t) s = response_outcome s.proto resp >>= λ out. ok (t.prom, out)

unfoldable pub response_target : (JsonView → Bytes) → JsonView → Impl → Result (ℕ × ℕ × Settled)
unfolding response_id settle_pending find_pending response_outcome
response_target dump resp s = do
  num ← response_id resp
  hit ← settle_pending dump resp num (find_pending num s.pending) s
  ok (num, hit.0, hit.1)

unfoldable pub finish_response : Impl → Result (ℕ × ℕ × Settled) → Run
finish_response s (throw e) = record { state = s; actions = []; thrown = some e }
finish_response s (ok (num, prom, out)) = record {
  state = record s { pending = erase_pending num s.pending };
  actions = settle prom out ∷ [];
  thrown = none;
}

unfoldable pub handle_resp_to_client : (JsonView → Bytes) → JsonView → Impl → Run
unfolding response_target finish_response erase_pending
handle_resp_to_client dump resp s = finish_response s (response_target dump resp s)

-- `handleBatch` on responses: an exception of one part does not stop the others.
unfoldable pub handle_batch_resp : (JsonView → Bytes) → List JsonView → Impl → Run
unfolding handle_resp_to_client
handle_batch_resp dump [] s = record { state = s; actions = []; thrown = none }
handle_batch_resp dump (part ∷ parts) s =
    let one = handle_resp_to_client dump part s in
    let rest = handle_batch_resp dump parts one.state in
    record rest { actions = one.actions ++ rest.actions }
