-- ===== src/Rpc/Batch/Account.antt =====
-- src/rpcxx/transport.cpp: where every part of a served batch is.
use rpcxx.Prelude.{
  ◌∙◌, ℕ, suc, ◌+◌, ◌≡◌, refl, ap, List, [], ◌∷◌, Option, none, some, length, length-append, arith,
}
use rpcxx.Json.Value.{Bytes, JsonView, null}
use rpcxx.Json.Access.{Exception, Result, ok, throw}
use rpcxx.Rpc.Protocol.{Protocol, make_error}
use rpcxx.Rpc.Batch.{
  Serving, Reply, Event, turn, reply, pred_size, answer, take_replies, add_error, end_notify,
  wrap_error, add_batch_resp, read_part, finish_part, take_part, pick, take_reply, serve, serve_all,
  start_batch,
}
use rpcxx.Rpc.Batch.Once.{length-pick}

-- The notifications that the handler took, in a turn and in a run.
unfoldable pub quiet_result : Result (Unit {0}) → Result (Option JsonView) → ℕ
quiet_result (ok u) (ok none) = 1
quiet_result (throw e) (ok none) = 0
quiet_result o (ok (some id)) = 0
quiet_result o (throw e) = 0

unfoldable pub quiet_turn : Protocol → Result (Unit {0}) → List JsonView → ℕ
unfolding quiet_result
quiet_turn proto o [] = 0
quiet_turn proto o (part ∷ rest) = quiet_result o (read_part proto part)

unfoldable pub quiet : Protocol → Event → Serving → ℕ
unfolding quiet_turn
quiet proto (turn replies o) s = quiet_turn proto o s.todo
quiet proto (reply n res) s = 0

abbrev accounted : Serving → ℕ
accounted s = length s.batch.parts + length s.calls + length s.todo

module _ (proto : Protocol) (what : Exception → Bytes) where
  unfoldable pub quiet_all : List Event → Serving → ℕ
  unfolding quiet
  quiet_all [] s = 0
  quiet_all (e ∷ es) s = quiet proto e s + quiet_all es (serve proto what e s)

  reply-accounted :
      (res : Result JsonView) (n : ℕ) (s : Serving) (o : Option (JsonView × List JsonView))
      → pick n s.calls ≡ o
      → accounted (take_reply proto what res o s) ≡ accounted s
  unfolding take_reply add_batch_resp
  reply-accounted res n s none e = refl
  reply-accounted res n s (some (id, rest)) e = omega (
    arith,
    length-pick n s.calls rest id e,
    length-append s.batch.parts (answer proto what id res ∷ []),
  )

  replies-accounted :
      (rs : List Reply) (s : Serving) → accounted (take_replies proto what rs s) ≡ accounted s
  unfolding take_replies
  replies-accounted [] s = refl
  replies-accounted ((n, res) ∷ rs) s =
      replies-accounted rs (take_reply proto what res (pick n s.calls) s)
      ∙ reply-accounted res n s (pick n s.calls) refl

  error-accounted :
      (e : Exception) (s : Serving) → accounted (add_error proto what e s) ≡ suc (accounted s)
  unfolding add_error
  error-accounted e s =
      omega (arith, length-append s.batch.parts (make_error proto null (wrap_error what e) ∷ []))

  finish-accounted :
      (replies : List Reply) (o : Result (Unit {0})) (s : Serving) (r : Result (Option JsonView))
      → accounted (finish_part proto what replies o s r) + quiet_result o r ≡ suc (accounted s)
  unfolding finish_part end_notify quiet_result
  finish-accounted replies (ok u) s (ok none) = omega (arith, replies-accounted replies s)
  finish-accounted replies (throw e) s (ok none) =
      omega
        (arith, error-accounted e (take_replies proto what replies s), replies-accounted replies s)
  finish-accounted replies o s (ok (some id)) = omega (arith, length-append s.calls (id ∷ []))
  finish-accounted replies o s (throw e) = omega (arith, error-accounted e s)

  turn-accounted :
      (replies : List Reply) (o : Result (Unit {0})) (todo : List JsonView) (s : Serving)
      → s.todo ≡ todo
      → accounted (take_part proto what replies o todo s) + quiet_turn proto o todo ≡ accounted s
  unfolding take_part quiet_turn
  turn-accounted replies o [] s e = omega arith
  turn-accounted replies o (part ∷ rest) s e =
      let s' : Serving = record s {
        batch = record s.batch { left = pred_size s.batch.left };
        todo = rest;
      } in
      omega (arith, ap length e, finish-accounted replies o s' (read_part proto part))

  serve-accounted :
      (e : Event) (s : Serving) → accounted (serve proto what e s) + quiet proto e s ≡ accounted s
  unfolding serve quiet
  serve-accounted (turn replies o) s = turn-accounted replies o s.todo s refl
  serve-accounted (reply n res) s = omega (arith, reply-accounted res n s (pick n s.calls) refl)

  serve_all-accounted :
      (es : List Event) (s : Serving)
      → accounted (serve_all proto what es s) + quiet_all es s ≡ accounted s
  unfolding serve_all quiet_all
  serve_all-accounted [] s = omega arith
  serve_all-accounted (e ∷ es) s =
      omega (arith, serve-accounted e s, serve_all-accounted es (serve proto what e s))

  -- In every run of a batch, the answers collected, the calls that wait for one, the parts that the
  -- loop has not reached and the notifications that the handler took are together as many as the
  -- parts of the request.
  pub served-accounted :
      (es : List Event) (req : List JsonView)
      → length (serve_all proto what es (start_batch req)).batch.parts
          + length (serve_all proto what es (start_batch req)).calls
          + length (serve_all proto what es (start_batch req)).todo
          + quiet_all es (start_batch req)
        ≡ length req
  unfolding start_batch
  served-accounted es req = omega (arith, serve_all-accounted es (start_batch req))
