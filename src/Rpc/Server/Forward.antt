-- ===== src/Rpc/Server/Forward.antt =====
-- src/rpcxx/server.cpp: `OnForward` and `OnForwardNotify`, and src/rpcxx/handler.cpp: what `Handle` and
-- `HandleNotify` do behind them.
--
-- `middleware` and `handler` say what the route middlewares and the route exception handlers do, with the
-- route as their first argument. `next` is the handler that the route leads to.
use rpcxx.Prelude.{false, ℕ, ◌≡◌, refl, List, [], ◌∷◌, ◌++◌, Option, none, some}
use rpcxx.Json.Value.{Bytes, JsonView}
use rpcxx.Json.Access.{Exception, Result, ok, throw}
use rpcxx.Rpc.Server.Ran.{Ran, Becomes, last_first, run_middlewares-Ran, exc_result-Becomes}
use rpcxx.Rpc.Server.{Request, Passed, current, run_middlewares, exc_loop, exc_result}

-- What `Impl` has for routes. A route is not empty: SetRoute refuses an empty one.
pub record RouteHooks : Type 0 where
  pub middlewares : List ℕ
  pub handlers : List ℕ

unfoldable pub add_route_middleware : ℕ → RouteHooks → RouteHooks
add_route_middleware m s = record s { middlewares = s.middlewares ++ m ∷ [] }

unfoldable pub add_route_exception_handler : ℕ → RouteHooks → RouteHooks
add_route_exception_handler h s = record s { handlers = s.handlers ++ h ∷ [] }

-- The answer to a request, and what has been handed to the next handler.
pub record Forwarded : Type 0 where
  pub handed : List Request
  pub answer : Result JsonView

module _ (middleware : Bytes → ℕ → Request → Passed)
    (handler : Bytes → ℕ → Bytes → Exception → Result (Option Exception)) (what : Exception → Bytes)
    (s : RouteHooks) (route : Bytes) where
  -- `runRouteMiddlewares`.
  unfoldable pub run_route_middlewares : Request → Passed
  unfolding run_middlewares
  run_route_middlewares req =
      run_middlewares (middleware route) (handler route) what s.middlewares req

  -- `excHandlers` with a route, and the exception itself where there is no other.
  unfoldable pub route_exception : Bytes → Exception → Exception
  unfolding exc_loop exc_result
  route_exception method e =
      current
        (exc_result (middleware route) (handler route) what
          (exc_loop (middleware route) (handler route) what s.handlers method e))
        e

  -- What the promise in front of `cb` is called with after `cb`.
  unfoldable pub orig_answer : Bytes → Result JsonView → Result JsonView
  unfolding route_exception
  orig_answer method (ok v) = ok v
  orig_answer method (throw e) = throw (route_exception method e)

  -- `cb` keeps the first result that it gets.
  abbrev pub settled_or : Option Exception → Result JsonView → Result JsonView
  settled_or none reply = reply
  settled_or (some e) reply = throw e

  -- `OnForward`: the request as it is then, and the exception that `cb` has been called with.
  unfoldable pub settled : Passed → Passed
  unfolding route_exception
  settled (req, none) = (req, none)
  settled (req, some e) = (req, some (route_exception req.method e))

  unfoldable pub on_forward : Request → Passed
  unfolding settled run_route_middlewares
  on_forward req = settled (run_route_middlewares req)

  unfoldable pub hand_on : Bytes → (Request → Result JsonView) → Passed → Forwarded
  unfolding orig_answer
  hand_on method next (req, e) = record {
    handed = req ∷ [];
    answer = orig_answer method (settled_or e (next req));
  }

  -- `Handle` of a handler with a route.
  unfoldable pub forward : (Request → Result JsonView) → Request → Forwarded
  unfolding hand_on on_forward
  forward next req = hand_on req.method next (on_forward req)

  abbrev pub passed_on : Passed → Result Request
  passed_on (req, none) = ok req
  passed_on (req, some e) = throw e

  -- `OnForwardNotify` and `HandleNotify`: the request that is handed on, or what is thrown.
  unfoldable pub forward_notify : Request → Result Request
  unfolding run_route_middlewares
  forward_notify req = passed_on (run_route_middlewares req)

  -- What becomes of an exception.
  abbrev pub EndsAs : Bytes → Exception → Exception → Type 0
  EndsAs method e x = Becomes (handler route) what false (last_first s.handlers) method e x

  -- The answer to a request whose next handler has answered.
  abbrev pub IsAnswer : Bytes → Result JsonView → Result JsonView → Type 0
  IsAnswer method (ok v) answer = answer ≡ ok v
  IsAnswer method (throw e) answer = (x : Exception) × EndsAs method e x × (answer ≡ throw x)

  -- How a request and a notification go on behind the middlewares.
  abbrev pub GoesOn :
      (Request → Result JsonView) → Request → Passed → Forwarded → Result Request → Type 0
  GoesOn next req (r, none) f n =
      (n ≡ ok r) × (f.handed ≡ r ∷ []) × IsAnswer req.method (next r) f.answer
  GoesOn next req (r, some e) f n =
      (n ≡ throw e)
      × (f.handed ≡ r ∷ [])
      × ((y : Exception) × (x : Exception) × EndsAs r.method e y
          × EndsAs req.method y x
          × (f.answer ≡ throw x))

  abbrev pub HandedOn : (Request → Result JsonView) → Request → Forwarded → Result Request → Type 0
  HandedOn next req f n =
      (p : Passed) × Ran (middleware route) (last_first s.middlewares) req p × GoesOn next req p f n

  route_exception-EndsAs :
      (method : Bytes) (e : Exception) → EndsAs method e (route_exception method e)
  unfolding route_exception
  route_exception-EndsAs method e =
      exc_result-Becomes (middleware route) (handler route) what s.handlers method e

  orig_answer-IsAnswer :
      (method : Bytes) (r : Result JsonView) → IsAnswer method r (orig_answer method r)
  unfolding orig_answer
  orig_answer-IsAnswer method (ok v) = refl
  orig_answer-IsAnswer method (throw e) = (_, route_exception-EndsAs method e, refl)

  passed-GoesOn :
      (next : Request → Result JsonView) (req : Request) (p : Passed)
      → GoesOn next req p (hand_on req.method next (settled p)) (passed_on p)
  unfolding hand_on settled
  passed-GoesOn next req (r, none) = (refl, refl, orig_answer-IsAnswer req.method (next r))
  passed-GoesOn next req (r, some e) = (
    refl,
    refl,
    (
      _,
      _,
      route_exception-EndsAs r.method e,
      route_exception-EndsAs req.method (route_exception r.method e),
      unfold orig_answer in refl,
    ),
  )

  -- A request and a notification with a route. The route middlewares run from the last added to the
  -- first, each on what the one before has left of the request, up to one that throws. Where none
  -- throws, the next handler gets the request, and an exception that it answers goes through the
  -- route exception handlers. Where one throws, the notification throws this and goes no further;
  -- the request is answered with the exception, which has been through the exception handlers
  -- twice, and is handed to the next handler in spite of it. The exception handlers run from the
  -- last added to the first, each on what the one before has put in place of the exception; where
  -- one throws there is an internal error.
  pub forward-forward_notify :
      (next : Request → Result JsonView) (req : Request)
      → HandedOn next req (forward next req) (forward_notify req)
  unfolding forward forward_notify on_forward run_route_middlewares
  forward-forward_notify next req =
      let p = run_middlewares (middleware route) (handler route) what s.middlewares req in
      (
        p,
        run_middlewares-Ran (middleware route) (handler route) what s.middlewares req,
        passed-GoesOn next req p,
      )
