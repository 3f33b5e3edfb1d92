-- ===== src/Rpc/Batch.antt =====
-- src/rpcxx/transport.cpp, the server's side of a batch: `handleServerBatch`, `Batch` and
-- `addBatchResp`.
--
-- The loop over the parts and the replies of the handler interleave: a reply may come while `Handle` or
-- `HandleNotify` runs, between two parts or after the loop. An event is one turn of the loop, with the
-- replies that come while `HandleNotify` runs, or one reply, and a run is a list of events. The handler is
-- the application's: an event carries what it does. Nothing comes behind `Handle` in a turn, so that a
-- reply within it is one behind the turn.
-- The text of an exception, with its trace, is the parameter `what`.
pub mod Once
pub mod Account
use rpcxx.Prelude.{
  ℕ, zero, suc, ◌+◌, ◌-◌, ◌%◌, ◌^◌, Bool, true, false, List, [], ◌∷◌, ◌++◌, Option, none, some,
  ◌==◌, if◌then◌else◌, length,
}
use rpcxx.Json.Value.{Bytes, JsonView, null, array, of_items}
use rpcxx.Json.Access.{
  Exception, rpc, Result, ok, throw, ◌>>=◌, value_or, at_field, get_string, is_null, RpcException,
}
use rpcxx.Rpc.Protocol.{
  Protocol, make_response, make_error, id_field, params_field, method_field, empty_array, rpc_error,
  internal_code,
}

-- `Batch`.
pub record Batch : Type 0 where
  pub left : ℕ
  pub parts : List JsonView

-- A batch that is served: the parts that the loop has not reached, the ids of the calls that the
-- handler has not answered, and the messages sent.
pub record Serving : Type 0 where
  pub batch : Batch
  pub todo : List JsonView
  pub calls : List JsonView
  pub sent : List JsonView

-- A turn of the loop, with the replies that come while `HandleNotify` runs if it is called and with what it
-- returns or throws then; and the answer of the call at the given place among those that wait.
abbrev pub Reply : Type 0
Reply = ℕ × Result JsonView

pub data Event : Type 0 where
  turn : List Reply → Result (Unit {0}) → Event
  reply : ℕ → Result JsonView → Event

-- `--left` on a size_t.
unfoldable pub pred_size : ℕ → ℕ
pred_size zero = 2 ^ 64 - 1
pred_size (suc n) = n

unfoldable pub wrap_error : (Exception → Bytes) → Exception → RpcException
wrap_error what (rpc e) = e
wrap_error what e = rpc_error (what e) internal_code none

-- The part of a response. Its Copy is the value itself: the DepthError of a response of more than 300
-- levels, which makes it an error part, is left out.
unfoldable pub answer : Protocol → (Exception → Bytes) → JsonView → Result JsonView → JsonView
unfolding wrap_error
answer proto what id (ok v) = make_response proto id v
answer proto what id (throw e) = make_error proto id (wrap_error what e)

unfoldable pub add_batch_resp :
    Protocol → (Exception → Bytes) → JsonView → Result JsonView → Batch → Batch × List JsonView
unfolding answer pred_size
add_batch_resp proto what id res b =
    let parts = b.parts ++ answer proto what id res ∷ [] in
    let left = pred_size b.left in
    (record { left = left; parts = parts }, if left == 0 then array (of_items parts) ∷ [] else [])

-- The call at a place, and the others.
unfoldable pub put_back :
    JsonView → Option (JsonView × List JsonView) → Option (JsonView × List JsonView)
put_back id none = none
put_back id (some (j, js)) = some (j, id ∷ js)

unfoldable pub pick : ℕ → List JsonView → Option (JsonView × List JsonView)
unfolding put_back
pick n [] = none
pick zero (id ∷ ids) = some (id, ids)
pick (suc n) (id ∷ ids) = put_back id (pick n ids)

unfoldable pub take_reply :
    Protocol
    → (Exception → Bytes)
    → Result JsonView
    → Option (JsonView × List JsonView)
    → Serving
    → Serving
unfolding add_batch_resp
take_reply proto what res none s = s
take_reply proto what res (some (id, rest)) s =
    let (b, out) = add_batch_resp proto what id res s.batch in
    record s { batch = b; calls = rest; sent = s.sent ++ out }

-- The body of the loop's `try` up to the handler: the id of a part that is a call, or nothing for a
-- notification.
unfoldable pub read_part : Protocol → JsonView → Result (Option JsonView)
read_part proto part = do
  id ← value_or part id_field null
  params ← value_or part (params_field proto) empty_array
  method ← at_field part (method_field proto)
  name ← get_string method
  (if is_null id then ok none else ok (some id))

unfoldable pub take_replies : Protocol → (Exception → Bytes) → List Reply → Serving → Serving
unfolding take_reply pick
take_replies proto what [] s = s
take_replies proto what ((n, res) ∷ rs) s =
    take_replies proto what rs (take_reply proto what res (pick n s.calls) s)

-- The `catch` blocks.
unfoldable pub add_error : Protocol → (Exception → Bytes) → Exception → Serving → Serving
unfolding wrap_error
add_error proto what e s = record s {
  batch = record s.batch {
    parts = s.batch.parts ++ make_error proto null (wrap_error what e) ∷ [];
  };
}

unfoldable pub end_notify : Protocol → (Exception → Bytes) → Result (Unit {0}) → Serving → Serving
unfolding add_error
end_notify proto what (ok u) s = s
end_notify proto what (throw e) s = add_error proto what e s

-- The rest of a turn, after `left--`.
unfoldable pub finish_part :
    Protocol
    → (Exception → Bytes)
    → List Reply
    → Result (Unit {0})
    → Serving
    → Result (Option JsonView)
    → Serving
unfolding end_notify take_replies add_error
finish_part proto what replies notified s (ok none) =
    end_notify proto what notified (take_replies proto what replies s)
finish_part proto what replies notified s (ok (some id)) = record s {
  batch = record s.batch { left = (s.batch.left + 1) % 2 ^ 64 };
  calls = s.calls ++ id ∷ [];
}
finish_part proto what replies notified s (throw e) = add_error proto what e s

unfoldable pub take_part :
    Protocol
    → (Exception → Bytes)
    → List Reply
    → Result (Unit {0})
    → List JsonView
    → Serving
    → Serving
unfolding finish_part read_part pred_size
take_part proto what replies notified [] s = s
take_part proto what replies notified (part ∷ rest) s =
    finish_part proto what replies notified
      (record s { batch = record s.batch { left = pred_size s.batch.left }; todo = rest })
      (read_part proto part)

unfoldable pub serve : Protocol → (Exception → Bytes) → Event → Serving → Serving
unfolding take_part take_reply pick
serve proto what (turn replies notified) s = take_part proto what replies notified s.todo s
serve proto what (reply n res) s = take_reply proto what res (pick n s.calls) s

unfoldable pub serve_all : Protocol → (Exception → Bytes) → List Event → Serving → Serving
unfolding serve
serve_all proto what [] s = s
serve_all proto what (e ∷ es) s = serve_all proto what es (serve proto what e s)

unfoldable pub start_batch : List JsonView → Serving
start_batch parts = record {
  batch = record { left = length parts; parts = [] };
  todo = parts;
  calls = [];
  sent = [];
}
