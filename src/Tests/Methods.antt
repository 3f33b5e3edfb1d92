-- ===== src/Tests/Methods.antt =====
-- The server's methods and middlewares (src/rpcxx/server.cpp).
use rpcxx.Prelude.{ℕ, ◌≡◌, refl, [], ◌∷◌, Option, none, some, if◌then◌else◌}
use rpcxx.Prelude.Text.{codes}
use rpcxx.Json.Value.{Bytes, JsonView, string}
use rpcxx.Json.Key.{key_eq}
use rpcxx.Json.Object.{assoc}
use rpcxx.Json.Access.{Exception, runtime_error, Result, ok, throw}
use rpcxx.Rpc.Protocol.{empty_array}
use rpcxx.Rpc.Server.{Request, Server, Passed, do_handle, run_middlewares, exc_loop, exc_result}
use rpcxx.Rpc.Server.Forward.{
  RouteHooks, HandedOn, run_route_middlewares, route_exception, orig_answer, hand_on, settled,
  on_forward, forward, forward_notify, forward-forward_notify,
}
use rpcxx.Rpc.Server.Notify.{Ends, notify_passed, do_handle_notify, do_handle_notify-do_handle}

abbrev one_method : Server
one_method = record {
  calls = (codes "sum", 1) ∷ [];
  middlewares = 4 ∷ [];
  handlers = 7 ∷ [];
  fallback = none;
}

abbrev ask_sum : Request
ask_sum = record { method = codes "sum"; params = empty_array }

abbrev refusing : ℕ → Request → Passed
refusing m req = (req, some (runtime_error (codes "no access")))

abbrev silent : ℕ → Bytes → Exception → Result (Option Exception)
silent h method e = ok none

abbrev error_text : Exception → Bytes
error_text e = codes "error"

do_handle_notify-do_handle_example :
    Ends refusing silent error_text one_method ask_sum
      (do_handle_notify refusing silent error_text ask_sum one_method)
      (do_handle refusing silent error_text ask_sum one_method)
do_handle_notify-do_handle_example =
    do_handle_notify-do_handle refusing silent error_text ask_sum one_method

-- A method that is registered is called by a notification.
abbrev letting : ℕ → Request → Passed
letting m req = (req, none)

notify_sum : do_handle_notify letting silent error_text ask_sum one_method ≡ ok (some (1, ask_sum))
unfolding do_handle_notify notify_passed run_middlewares assoc key_eq
notify_sum = refl

-- One route middleware and one exception handler of routes.
abbrev math_hooks : RouteHooks
math_hooks = record { middlewares = 4 ∷ []; handlers = 7 ∷ [] }

-- A middleware of routes that lets all routes pass but one.
abbrev barred : Bytes → ℕ → Request → Passed
barred route m req =
    if key_eq route (codes "math")
    then (req, some (runtime_error (codes "no access")))
    else (req, none)

abbrev mute : Bytes → ℕ → Bytes → Exception → Result (Option Exception)
mute route h method e = ok none

abbrev answering : Request → Result JsonView
answering req = ok (string (codes "done"))

forward-forward_notify_example :
    HandedOn barred mute error_text math_hooks
      (codes "math")
      answering
      ask_sum
      (forward barred mute error_text math_hooks (codes "math") answering ask_sum)
      (forward_notify barred mute error_text math_hooks (codes "math") ask_sum)
forward-forward_notify_example =
    forward-forward_notify barred mute error_text math_hooks (codes "math") answering ask_sum

-- The request that was refused is handed on all the same.
forward-barred :
    (forward barred mute error_text math_hooks (codes "math") answering ask_sum).handed
    ≡ ask_sum ∷ []
unfolding forward hand_on on_forward settled run_route_middlewares run_middlewares key_eq
forward-barred = refl

forward-barred_answer :
    (forward barred mute error_text math_hooks (codes "math") answering ask_sum).answer
    ≡ throw (runtime_error (codes "no access"))
unfolding forward hand_on on_forward settled run_route_middlewares route_exception orig_answer
    run_middlewares exc_loop exc_result key_eq
forward-barred_answer = refl
