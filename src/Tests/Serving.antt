-- ===== src/Tests/Serving.antt =====
-- The server's side: batches (src/rpcxx/transport.cpp) and routes (src/rpcxx/handler.cpp).
use rpcxx.Prelude.{
  if◌then◌else◌, Bool-cases, inr, ℕ, zero, suc, ◌≡◌, refl, inl, List, [], ◌∷◌, some, arith,
}
use rpcxx.Prelude.Text.{codes}
use rpcxx.Json.Value.{Bytes, JsonView, null, unsigned, array, of_items}
use rpcxx.Json.Key.{key_eq, key_lt}
use rpcxx.Json.Find.{find_val}
use rpcxx.Json.Object.{sorted_insert}
use rpcxx.Json.Access.{
  value_or, make_object, at_field, get_string, ok, throw, runtime_error, Exception,
}
use rpcxx.Rpc.Protocol.{
  method_field, params_field, json_v2_compliant, make_request, make_notify, empty_array,
}
use rpcxx.Rpc.Batch.{
  take_part, finish_part, take_replies, take_reply, pick, add_batch_resp, read_part, end_notify,
  add_error, pred_size, Event, turn, reply, Serving, serve, serve_all, start_batch, answer,
}
use rpcxx.Rpc.Batch.Once.{last_reply-sends}
use rpcxx.Rpc.Handler.{
  OnForward, Routes, sanitize_slashes, sanitize_loop, strip_front, handle, find_route, get_route,
}
use rpcxx.Rpc.Handler.Slashes.{split, nonempty, segments, join, lead, sanitize_slashes-join}
use rpcxx.Rpc.Handler.Dispatch.{IsKept, walk, result_of, handle-walk}

abbrev text : Exception → Bytes
text e = codes "error"

abbrev a_call : JsonView
a_call = make_request json_v2_compliant (unsigned 1) (codes "sum") empty_array

abbrev a_notify : JsonView
a_notify = make_notify json_v2_compliant (codes "log") empty_array

-- The call is answered while the loop stands before the notification.
abbrev call_first : List Event
call_first = turn [] (ok tt) ∷ reply 0 (ok null) ∷ turn [] (ok tt) ∷ []

-- The notification's handler answers the call and throws: what is left to send is not sent.
abbrev within : List Event
within = turn [] (ok tt) ∷ turn ((0, ok null) ∷ []) (throw (runtime_error (codes "late"))) ∷ []

within_sent :
    (serve_all json_v2_compliant text within (start_batch (a_call ∷ a_notify ∷ []))).sent
    ≡ array (of_items (answer json_v2_compliant text (unsigned 1) (ok null) ∷ [])) ∷ []
unfolding serve_all serve take_part finish_part take_replies take_reply pick add_batch_resp
    read_part start_batch end_notify add_error pred_size value_or make_request make_object at_field
    find_val sorted_insert key_lt method_field params_field key_eq get_string make_notify
within_sent = refl

abbrev one_left : Serving
one_left = record {
  batch = record { left = 1; parts = [] };
  todo = [];
  calls = unsigned 1 ∷ [];
  sent = [];
}

last_reply-sends_example :
    (serve json_v2_compliant text (reply 0 (ok null)) one_left).sent
    ≡ array (of_items (answer json_v2_compliant text (unsigned 1) (ok null) ∷ [])) ∷ []
last_reply-sends_example =
    last_reply-sends json_v2_compliant text (ok null) (unsigned 1) one_left
      (refl, omega arith, inl refl) refl refl

-- The call has been answered, and the notification is still to come.
abbrev notify_left : Serving
notify_left = record {
  batch = record { left = 1; parts = null ∷ [] };
  todo = a_notify ∷ [];
  calls = [];
  sent = [];
}

sanitize_runs : sanitize_slashes (codes "/a/b////c//d/") ≡ codes "a/b/c/d"
unfolding sanitize_slashes sanitize_loop strip_front
sanitize_runs = refl

sanitize_slashes-join_example :
    sanitize_slashes (codes "//a//b/") ≡ join (segments (codes "//a//b/"))
sanitize_slashes-join_example = sanitize_slashes-join (codes "//a//b/")

-- Handler 0 leads to handler 1 under the name "math", and handler 1 back to handler 0 as "up".
abbrev two_handlers : ℕ → Routes
two_handlers zero = (codes "math", some 1) ∷ []
two_handlers (suc h) = (codes "up", some 0) ∷ []

-- Handler 1 refuses to go on to "secret".
abbrev guarded : OnForward
guarded h route method =
    if key_eq method (codes "secret") then throw (runtime_error (codes "no access")) else ok method

guarded-IsKept : IsKept guarded
guarded-IsKept h route method = elim (Bool-cases (key_eq method (codes "secret"))) [
  | inl e ↦ rw e (inr (_, refl))
  | inr e ↦ rw e (inl refl)
]

handle-walk_example :
    handle guarded two_handlers 20 0 (codes "/math//up/math/sum")
    ≡ some (result_of (walk guarded two_handlers 0 (segments (codes "/math//up/math/sum"))))
handle-walk_example =
    handle-walk guarded guarded-IsKept two_handlers 20 0 (codes "/math//up/math/sum") (omega arith)

walk_runs :
    result_of (walk guarded two_handlers 0 (segments (codes "/math//up/math/sum")))
    ≡ ok (1, codes "sum", (0, codes "math") ∷ (1, codes "up") ∷ (0, codes "math") ∷ [])
unfolding walk segments nonempty split join lead get_route find_route key_eq
walk_runs = refl

walk_stops :
    result_of (walk guarded two_handlers 0 (segments (codes "math/secret")))
    ≡ throw (runtime_error (codes "no access"))
unfolding walk segments nonempty split join lead get_route find_route key_eq
walk_stops = refl
