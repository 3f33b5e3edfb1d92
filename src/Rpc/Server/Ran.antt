-- ===== src/Rpc/Server/Ran.antt =====
-- src/rpcxx/server.cpp: what middlewares and exception handlers lead to, step by step.
use rpcxx.Prelude.{
  ℕ, ◌≡◌, refl, ◌⊎◌, inl, inr, Bool, true, false, List, [], ◌∷◌, ◌++◌, Option, none, some,
  if◌then◌else◌,
}
use rpcxx.Prelude.Text.{codes}
use rpcxx.Json.Value.{Bytes}
use rpcxx.Json.Access.{Exception, rpc, Result, ok, throw, ◌>>=◌}
use rpcxx.Rpc.Protocol.{rpc_error, internal_code}
use rpcxx.Rpc.Batch.{wrap_error}
use rpcxx.Rpc.Server.{
  Request, Passed, pass, current, override, is_some, run_middlewares, exc_loop, exc_result,
}

abbrev pub last_first : List ℕ → List ℕ
last_first [] = []
last_first (m ∷ ms) = last_first ms ++ m ∷ []

abbrev pub internal_error : Exception
internal_error = rpc (rpc_error (codes "Internal Error") internal_code none)

module _ (middleware : ℕ → Request → Passed) where
  -- The middlewares run one after another, each on the request that the one before has left, up to
  -- the first that throws.
  abbrev pub Ran : List ℕ → Request → Passed → Type 0
  Ran [] req p = p ≡ (req, none)
  Ran (m ∷ ms) req p =
      ((r : Request) × (middleware m req ≡ (r, none)) × Ran ms r p)
      ⊎ ((r : Request) × (e : Exception) × (middleware m req ≡ (r, some e)) × (p ≡ (r, some e)))

  Ran-one : (m : ℕ) (req : Request) (p : Passed) → middleware m req ≡ p → Ran (m ∷ []) req p
  Ran-one m req (r, none) e = inl (r, e, refl)
  Ran-one m req (r, some x) e = inr (r, x, e, refl)

  Ran-more :
      (ms : List ℕ) (m : ℕ) (req : Request) (p : Passed)
      → Ran ms req p
      → Ran (ms ++ m ∷ []) req (pass p (middleware m))
  Ran-more [] m req (r, none) h =
      let same : req ≡ r = cc in rw same (Ran-one m r (middleware m r) refl)
  Ran-more [] m req (r, some x) h = absurd cc
  Ran-more (k ∷ ms) m req p (inl (r, e, h)) = inl (r, e, Ran-more ms m r p h)
  Ran-more (k ∷ ms) m req (r', none) (inr (r, x, e, h)) = absurd cc
  Ran-more (k ∷ ms) m req (r', some y) (inr (r, x, e, h)) = inr (r, x, e, h)

module _ (handler : ℕ → Bytes → Exception → Result (Option Exception))
    (what : Exception → Bytes) where
  -- The exception handlers run one after another, each on the exception that the one before has put in
  -- its place. One that has been put in place is wrapped in the end, and where a handler throws there
  -- is an internal error instead.
  abbrev pub Becomes : Bool → List ℕ → Bytes → Exception → Exception → Type 0
  Becomes put [] method e x = x ≡ (if put then rpc (wrap_error what e) else e)
  Becomes put (h ∷ hs) method e x =
      ((handler h method e ≡ ok none) × Becomes put hs method e x)
      ⊎ ((e' : Exception) × (handler h method e ≡ ok (some e')) × Becomes true hs method e' x)
      ⊎ ((t : Exception) × (handler h method e ≡ throw t) × (x ≡ internal_error))

  unfoldable forward_loop :
      Option Exception → List ℕ → Bytes → Exception → Result (Option Exception)
  forward_loop old [] method e = ok old
  forward_loop old (h ∷ hs) method e =
      handler h method (current old e) >>= λ next. forward_loop (override old next) hs method e

  forward_loop-snoc :
      (old : Option Exception) (hs : List ℕ) (h : ℕ) (method : Bytes) (e : Exception)
      → forward_loop old (hs ++ h ∷ []) method e ≡ (
          forward_loop old hs method e >>= λ o.
          handler h method (current o e) >>= λ next. ok (override o next))
  unfolding forward_loop
  forward_loop-snoc old [] h method e = refl
  forward_loop-snoc old (k ∷ hs) h method e =
      by_step (handler k method (current old e)) λ o. forward_loop-snoc o hs h method e
    where
      by_step :
          (r : Result (Option Exception))
          → ((o : Option Exception)
              → forward_loop o (hs ++ h ∷ []) method e ≡ (
                  forward_loop o hs method e >>= λ p.
                  handler h method (current p e) >>= λ next. ok (override p next)))
          → (r >>= λ next. forward_loop (override old next) (hs ++ h ∷ []) method e) ≡ (
              (r >>= λ next. forward_loop (override old next) hs method e) >>= λ o.
              handler h method (current o e) >>= λ next. ok (override o next))
      by_step (ok next) rest = rest (override old next)
      by_step (throw t) rest = refl

  forward_loop-Becomes :
      (old : Option Exception) (hs : List ℕ) (method : Bytes) (e : Exception)
      → Becomes (is_some old) hs method (current old e) (
          current (exc_result (λ m req. (req, none)) handler what (forward_loop old hs method e)) e)
  unfolding forward_loop exc_result
  forward_loop-Becomes none [] method e = refl
  forward_loop-Becomes (some x) [] method e = refl
  forward_loop-Becomes old (h ∷ hs) method e =
      by_step (handler h method (current old e)) refl λ o. forward_loop-Becomes o hs method e
    where
      by_step :
          (r : Result (Option Exception))
          → handler h method (current old e) ≡ r
          → ((o : Option Exception)
              → Becomes (is_some o) hs method (current o e) (
                  current
                    (exc_result (λ m req. (req, none)) handler what (forward_loop o hs method e))
                    e))
          → Becomes (is_some old) (h ∷ hs) method (current old e) (
              current
                (exc_result
                  (λ m req. (req, none))
                  handler
                  what
                  (r >>= λ next. forward_loop (override old next) hs method e))
                e)
      by_step (throw t) f rest = inr (inr (t, f, refl))
      by_step (ok none) f rest = inl (f, rest old)
      by_step (ok (some x)) f rest = inr (inl (x, f, rest (some x)))

module _ (middleware : ℕ → Request → Passed)
    (handler : ℕ → Bytes → Exception → Result (Option Exception)) (what : Exception → Bytes) where
  pub run_middlewares-Ran :
      (ms : List ℕ) (req : Request)
      → Ran middleware (last_first ms) req (run_middlewares middleware handler what ms req)
  unfolding run_middlewares
  run_middlewares-Ran [] req = refl
  run_middlewares-Ran (m ∷ ms) req =
      Ran-more middleware (last_first ms) m req (run_middlewares middleware handler what ms req)
        (run_middlewares-Ran ms req)

  exc_loop-forward :
      (hs : List ℕ) (method : Bytes) (e : Exception)
      → exc_loop middleware handler what hs method e
        ≡ forward_loop handler what none (last_first hs) method e
  unfolding exc_loop forward_loop
  exc_loop-forward [] method e = refl
  exc_loop-forward (h ∷ hs) method e =
      rw
        (
          forward_loop-snoc handler what none (last_first hs) h method e,
          exc_loop-forward hs method e,
        )
        refl

  -- What `excHandlers` gives.
  pub exc_result-Becomes :
      (hs : List ℕ) (method : Bytes) (e : Exception)
      → Becomes handler what false (last_first hs) method e (
          current
            (exc_result middleware handler what (exc_loop middleware handler what hs method e))
            e)
  unfolding exc_result
  exc_result-Becomes hs method e =
      rw (exc_loop-forward hs method e)
        (forward_loop-Becomes handler what none (last_first hs) method e)
