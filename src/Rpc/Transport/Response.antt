-- ===== src/Rpc/Transport/Response.antt =====
-- What a response does to the transport: `handleRespToClient` on every branch.
use rpcxx.Prelude.{ℕ, ◌≡◌, refl, ◌⊎◌, inl, inr, [], ◌∷◌, Option, none, some, ◌==◌, if◌then◌else◌}
use rpcxx.Json.Value.{Bytes, JsonView}
use rpcxx.Json.Access.{Result, ok, throw, ◌>>=◌, Exception}
use rpcxx.Rpc.Transport.{
  Transact, Impl, Run, Settled, settle, find_pending, handle_resp_to_client, response_target,
  finish_response, settle_pending, response_id, response_outcome,
}
use rpcxx.Rpc.Transport.Table.{IsDistinct, find-erase_pending}

-- The response names a call that waits and settles its promise, and its entry alone is gone.
abbrev pub Serves : JsonView → Impl → Run → Type 0
Serves resp s r =
    (num : ℕ) × (t : Transact) × (out : Settled) × (response_id resp ≡ ok num)
    × (find_pending num s.pending ≡ some t)
    × (response_outcome s.proto resp ≡ ok out)
    × (r.actions ≡ settle t.prom out ∷ [])
    × (r.thrown ≡ none)
    × ((j : ℕ)
        → find_pending j r.state.pending ≡ (if num == j then none else find_pending j s.pending))

-- The response is refused with an exception, and nothing has happened.
abbrev pub Refuses : Impl → Run → Type 0
Refuses s r = (e : Exception) × (r.thrown ≡ some e) × (r.actions ≡ []) × (r.state ≡ s)

abbrev target : (JsonView → Bytes) → JsonView → ℕ → Impl → Result (ℕ × ℕ × Settled)
target dump resp num s =
    settle_pending dump resp num (find_pending num s.pending) s >>= λ hit. ok (num, hit.0, hit.1)

abbrev named : ℕ → Result Settled → Result (ℕ × Settled)
named prom o = o >>= λ out. ok (prom, out)

abbrev entry_of : ℕ → Result (ℕ × Settled) → Result (ℕ × ℕ × Settled)
entry_of num r = r >>= λ hit. ok (num, hit.0, hit.1)

module _ (dump : JsonView → Bytes) where
  serve_hit :
      (resp : JsonView) (num : ℕ) (t : Transact) (s : Impl) (o : Result Settled)
      → response_id resp ≡ ok num
      → find_pending num s.pending ≡ some t
      → response_outcome s.proto resp ≡ o
      → IsDistinct s.pending
      → Serves resp s (finish_response s (entry_of num (named t.prom o)))
        ⊎ Refuses s (finish_response s (entry_of num (named t.prom o)))
  unfolding finish_response
  serve_hit resp num t s (throw e) i f o h = inr (e, refl, refl, refl)
  serve_hit resp num t s (ok out) i f o h =
      inl (num, t, out, i, f, o, refl, refl, λ j. find-erase_pending num j s.pending h)

  serve_found :
      (resp : JsonView) (num : ℕ) (s : Impl) (found : Option Transact)
      → response_id resp ≡ ok num
      → find_pending num s.pending ≡ found
      → IsDistinct s.pending
      → Serves resp s (
          finish_response s
            (settle_pending dump resp num found s >>= λ hit. ok (num, hit.0, hit.1)))
        ⊎ Refuses s (
            finish_response s
              (settle_pending dump resp num found s >>= λ hit. ok (num, hit.0, hit.1)))
  unfolding settle_pending
  serve_found resp num s none i f h = unfold finish_response in inr (_, refl, refl, refl)
  serve_found resp num s (some t) i f h =
      serve_hit resp num t s (response_outcome s.proto resp) i f refl h

  serve_by_id :
      (resp : JsonView) (s : Impl) (id : Result ℕ)
      → response_id resp ≡ id
      → IsDistinct s.pending
      → Serves resp s (finish_response s (id >>= λ num. target dump resp num s))
        ⊎ Refuses s (finish_response s (id >>= λ num. target dump resp num s))
  serve_by_id resp s (throw e) i h = unfold finish_response in inr (e, refl, refl, refl)
  serve_by_id resp s (ok num) i h = serve_found resp num s (find_pending num s.pending) i refl h

  -- In a table where no id stands twice, a response of any shape has one of two effects. Its id is that of a
  -- call that waits and its `result` or `error` can be read: then the promise of that call is called,
  -- once and with what was read, and of all the entries only that of the call is removed. Or an
  -- exception is thrown, no promise is called and the transport is as before.
  pub handle_resp-effect :
      (resp : JsonView) (s : Impl)
      → IsDistinct s.pending
      → Serves resp s (handle_resp_to_client dump resp s)
        ⊎ Refuses s (handle_resp_to_client dump resp s)
  unfolding handle_resp_to_client response_target
  handle_resp-effect resp s h = serve_by_id resp s (response_id resp) refl h
