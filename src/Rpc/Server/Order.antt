-- ===== src/Rpc/Server/Order.antt =====
-- The order of middlewares and exception handlers, and what a refused request is answered with.
use rpcxx.Prelude.{ℕ, ◌≡◌, refl, ap, ◌⊎◌, inl, inr, List, [], ◌∷◌, ◌++◌, Option, none, some}
use rpcxx.Json.Value.{Bytes}
use rpcxx.Json.Access.{Exception, rpc, RpcException, Result, ok, throw}
use rpcxx.Rpc.Server.{
  Request, Server, Passed, pass, current, replied, add_middleware, run_middlewares, exc_loop,
  exc_result, exc_handlers, handle_passed, do_handle, refuse,
}

pass-pass :
    (p : Passed) (f g : Request → Passed) → pass (pass p f) g ≡ pass p (λ req. pass (f req) g)
pass-pass (req, none) f g = refl
pass-pass (req, some e) f g = refl

module _ (middleware : ℕ → Request → Passed)
    (handler : ℕ → Bytes → Exception → Result (Option Exception)) (what : Exception → Bytes) where
  run_middlewares-append :
      (ms : List ℕ) (m : ℕ) (req : Request)
      → run_middlewares middleware handler what (ms ++ m ∷ []) req
        ≡ pass (middleware m req) (run_middlewares middleware handler what ms)
  unfolding run_middlewares
  run_middlewares-append [] m req = last (middleware m req)
    where
      last : (p : Passed) → p ≡ pass p (λ r. (r, none))
      last (r, none) = refl
      last (r, some e) = refl
  run_middlewares-append (n ∷ ms) m req =
      rw (run_middlewares-append ms m req)
        (pass-pass (middleware m req) (run_middlewares middleware handler what ms) (middleware n))

  -- A middleware that is added runs in front of those added before, on the request as it came:
  -- DoHandle goes on with what those make of the request that it leaves, or, without them, with
  -- the exception that it throws.
  pub do_handle-add_middleware :
      (m : ℕ) (req : Request) (s : Server)
      → do_handle middleware handler what req (add_middleware m s)
        ≡ handle_passed middleware handler what
            (add_middleware m s)
            (pass (middleware m req) (run_middlewares middleware handler what s.middlewares))
  unfolding do_handle add_middleware
  do_handle-add_middleware m req s =
      ap (handle_passed middleware handler what (add_middleware m s))
        (run_middlewares-append s.middlewares m req)

  -- Whatever the exception handlers do, a request that is refused with an exception is answered
  -- with this exception or with an RpcException.
  pub refuse-rpc :
      (s : Server) (method : Bytes) (e : Exception)
      → (refuse middleware handler what s method e ≡ replied (throw e))
        ⊎ ((x : RpcException) × (refuse middleware handler what s method e
              ≡ replied (throw (rpc x))))
  unfolding refuse exc_handlers exc_result
  refuse-rpc s method e = by_result (exc_loop middleware handler what s.handlers method e)
    where
      by_result :
          (r : Result (Option Exception))
          → (replied (throw (current (exc_result middleware handler what r) e)) ≡ replied (throw e))
            ⊎ ((x : RpcException) × (replied
                    (throw (current (exc_result middleware handler what r) e))
                  ≡ replied (throw (rpc x))))
      by_result (throw x) = inr (_, refl)
      by_result (ok none) = inl refl
      by_result (ok (some x)) = inr (_, refl)
