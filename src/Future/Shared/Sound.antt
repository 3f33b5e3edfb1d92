-- ===== src/Future/Shared/Sound.antt =====
-- include/future/future.hpp and src/future.cpp: what holds of a state however its threads
-- interleave.
use rpcxx.Prelude.{
  ℕ, ◌≡◌, ◌≢◌, refl, ◌⊎◌, inl, inr, Bool, true, false, Option, none, some, [], ◌∷◌, arith,
}
use rpcxx.Json.Access.{Result, ok}
use rpcxx.Future.Cell.{Cell, Notify, publish, claim, ref}
use rpcxx.Future.Shared.{
  Shared, start, drive, Step, copies, resolves, drops, takes, forgets, installs, drives_on, Reach,
  here, next,
}
use rpcxx.Future.Shared.Phase.{
  Phase, idle, waiting, called, IsSound, Phase-cell, resolve-IsSound, drop_promise-IsSound,
  take-IsSound, install-IsSound, claimed-IsSound,
}

module _ {ℓ} {A : Type ℓ} where
  Phase-forgets : (s : Shared A) → Phase s → Phase (record s { held = false })
  Phase-forgets s (idle n k t) = idle n k (λ e. cc)
  Phase-forgets s (waiting n m k d t w) = waiting n m k refl t w
  Phase-forgets s (called n r m k o d t) = called n r m k o refl t

  Step-IsSound : {s t : Shared A} → Step s t → IsSound s → IsSound t
  unfolding IsSound drive ref
  Step-IsSound {s = s} (copies p) h =
      (Phase-cell s (ref s.cell) refl refl (λ t. t) h.0, λ z. absurd (omega arith))
  Step-IsSound {s = s} (resolves r p) h = resolve-IsSound r s h
  Step-IsSound {s = s} (drops p) h = drop_promise-IsSound s p h
  Step-IsSound {s = s} (takes c p e) h = take-IsSound s c p e h
  Step-IsSound {s = s} (forgets e) h = (Phase-forgets s h.0, h.1)
  Step-IsSound {s = s} (installs exec n chain c held e) h =
      install-IsSound exec n chain s c held e h
  Step-IsSound {s = s} (drives_on p) h = claimed-IsSound s (claim s.cell) refl h

  pub Reach-IsSound : {s : Shared A} → Reach start s → IsSound s
  unfolding IsSound
  Reach-IsSound here = (idle refl refl (λ e. cc), λ z. λ k. absurd (omega arith))
  Reach-IsSound (next r st) = Step-IsSound st (Reach-IsSound r)

  -- However the threads interleave, from a new promise on: either no continuation was called, or
  -- exactly one was, once, with the result that the state has.
  pub calls-once :
      {s : Shared A}
      → Reach start s
      → (s.calls ≡ [])
        ⊎ ((n : Notify) × (r : Result A) × (s.calls ≡ (n, r) ∷ []) × (s.cell.outcome ≡ some r))
  unfolding IsSound
  calls-once reached = elim (Reach-IsSound reached).0 [
    | idle n k t ↦ inl k
    | waiting n m k d t w ↦ inl k
    | called n r m k o d t ↦ inr (n, r, k, o)
  ]

  -- However the threads interleave: when every promise is gone and every call of continueChain has
  -- come to its locked section, the state has a result, if nothing else a broken promise, and no
  -- continuation is left waiting.
  pub quiet-called :
      {s : Shared A}
      → Reach start s
      → s.cell.promises ≡ 0
      → s.drives ≡ 0
      → (s.cell.outcome ≢ none) × (s.cell.notify ≡ none)
  unfolding IsSound
  quiet-called {s = s} reached p d = (h.1 p, by_phase h.0)
    where
      h : IsSound s
      h = Reach-IsSound reached

      by_phase : Phase s → s.cell.notify ≡ none
      by_phase (idle n k t) = n
      by_phase (waiting n m k f t w) = absurd (omega (arith, w (h.1 p)))
      by_phase (called n r m k o f t) = m

  -- "Then() Called Twice" is never thrown through a future that came from GetFuture: while the
  -- future is held the state is free for a continuation.
  pub publish-held :
      {s : Shared A} (exec : Bool) (n : Notify) (chain : Option ℕ)
      → Reach start s
      → s.held ≡ true
      → (c : Cell A) × (publish exec n chain s.cell ≡ ok c)
  unfolding IsSound publish
  publish-held {s = s} exec n chain reached held = by_phase (Reach-IsSound reached).0
    where
      by_phase : Phase s → (c : Cell A) × (publish exec n chain s.cell ≡ ok c)
      by_phase (idle m k t) = rw m (_, refl)
      by_phase (waiting m q k d t w) = absurd (ground arith)
      by_phase (called m r q k o d t) = absurd (ground arith)
