-- ===== src/Rpc/Receive/Replied.antt =====
-- What the peer gets for a single call: `sendResult`.
use rpcxx.Prelude.{◌≡◌, refl, ◌⊎◌, inl, inr, [], ◌∷◌}
use rpcxx.Json.Value.{Bytes, JsonView}
use rpcxx.Json.Access.{Exception, Result, ok, throw}
use rpcxx.Rpc.Protocol.{Protocol, make_response, make_error}
use rpcxx.Rpc.Batch.{wrap_error, answer}
use rpcxx.Rpc.Receive.{send_result, send_error}

module _ (proto : Protocol) (what : Exception → Bytes)
    (sending : JsonView → Result (Unit {0})) where
  -- A call gets one message, the same answer that a batch would hold for it; or, when the call has a
  -- result and Send throws on the response to it, this response and then the error of that
  -- exception, under the same id.
  pub send_result-answer :
      (id : JsonView) (res : Result JsonView)
      → (send_result proto what sending id res ≡ answer proto what id res ∷ [])
        ⊎ ((v : JsonView) × (e : Exception) × (res ≡ ok v)
            × (sending (make_response proto id v) ≡ throw e)
            × (send_result proto what sending id res
                ≡ make_response proto id v ∷ make_error proto id (wrap_error what e) ∷ []))
  unfolding send_result send_error answer
  send_result-answer id (throw e) = inl refl
  send_result-answer id (ok v) = by_sending (sending (make_response proto id v)) refl
    where
      by_sending :
          (sent : Result (Unit {0}))
          → sending (make_response proto id v) ≡ sent
          → (send_result proto what sending id (ok v) ≡ answer proto what id (ok v) ∷ [])
            ⊎ ((w : JsonView) × (e : Exception) × (ok v ≡ ok w)
                × (sending (make_response proto id w) ≡ throw e)
                × (send_result proto what sending id (ok v)
                    ≡ make_response proto id w ∷ make_error proto id (wrap_error what e) ∷ []))
      by_sending (ok u) h = inl (rw h refl)
      by_sending (throw e) h = inr (v, e, refl, h, rw h refl)
