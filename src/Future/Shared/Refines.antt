-- ===== src/Future/Shared/Refines.antt =====
-- include/future/future.hpp and src/future.cpp: a future as its users see it, and that the states
-- with their locks, flags and calls of continueChain implement it.
use rpcxx.Prelude.{
  ℕ, ◌+◌, ◌≡◌, refl, inl, inr, Option, none, some, List, [], ◌∷◌, ◌==◌, Bool-cases, Option-cases,
  arith,
}
use rpcxx.Json.Access.{Result}
use rpcxx.Future.Cell.{Cell, Notify, fulfil, fulfil_from, claim, is_valid, deref, ref, broken}
use rpcxx.Future.Shared.{
  Shared, start, drive, call_claimed, resolve, drop_promise, Step, copies, resolves, drops, takes,
  forgets, installs, drives_on, Reach, here, next,
}
use rpcxx.Future.Shared.Sound.{Reach-IsSound}
use rpcxx.Future.Shared.Phase.{
  Phase, idle, waiting, called, IsSound, get_future-taken, publish-free, claim-ready,
}

-- A result that is written once, a listener that is set once, and all that has been told, in order.
pub record Promised {ℓ} (A : Type ℓ) : Type ℓ where
  pub result : Option (Result A)
  pub listener : Option Notify
  pub heard : List (Result A)

abbrev pub promised {ℓ} : {A : Type ℓ} → Promised A
promised = record { result = none; listener = none; heard = [] }

-- One move, or none.
pub data Move {ℓ} {A : Type ℓ} (p : Promised A) : Promised A → Type ℓ where
  stays : Move p p
  settles : (r : Result A) → p.result ≡ none → Move p (record p { result = some r })
  listens : (n : Notify) → p.listener ≡ none → Move p (record p { listener = some n })
  hears :
      (n : Notify) (r : Result A)
      → p.result ≡ some r
      → p.listener ≡ some n
      → p.heard ≡ []
      → Move p (record p { heard = r ∷ [] })

pub data Moves {ℓ} {A : Type ℓ} (p : Promised A) : Promised A → Type ℓ where
  begun : Moves p p
  moved : {q r : Promised A} → Moves p q → Move q r → Moves p r

module _ {ℓ} {A : Type ℓ} where
  -- The listener is the continuation that waits, or the one that was called.
  unfoldable pub listener_of : Option Notify → List (Notify × Result A) → Option Notify
  listener_of (some n) calls = some n
  listener_of none [] = none
  listener_of none ((n, r) ∷ calls) = some n

  unfoldable pub heard_of : List (Notify × Result A) → List (Result A)
  heard_of [] = []
  heard_of ((n, r) ∷ calls) = r ∷ heard_of calls

  unfoldable pub seen : Shared A → Promised A
  unfolding listener_of heard_of
  seen s = record {
    result = s.cell.outcome;
    listener = listener_of s.cell.notify s.calls;
    heard = heard_of s.calls;
  }

  fulfil-Move :
      (r : Result A) (s : Shared A) (n : ℕ)
      → Move (seen s) (seen (record s { cell = (fulfil r s.cell).1; drives = n }))
  unfolding fulfil fulfil_from seen
  fulfil-Move r s n = elim (Option-cases s.cell.outcome) [
    | inl e ↦ rw e (settles r refl)
    | inr (o, e) ↦ rw e stays
  ]

  drop-Move : (s : Shared A) → Move (seen s) (seen (drop_promise s))
  unfolding drop_promise deref is_valid seen fulfil fulfil_from
  drop-Move s = elim (Bool-cases (s.cell.promises == 1)) [
    | inr e ↦ rw e stays
    | inl e ↦ elim (Option-cases s.cell.outcome) [
      | inl o ↦ rw (e, o) (settles broken refl)
      | inr (r, o) ↦ rw (e, o) stays
    ]
  ]

  drive-Move :
      (s : Shared A) (o : Option (Notify × Result A × Cell A))
      → Phase s
      → claim s.cell ≡ o
      → Move (seen s) (seen (call_claimed o s))
  unfolding seen call_claimed
  drive-Move s none p e = stays
  drive-Move s (some (n, r, c)) (idle m k t) e = absurd (ground (arith, claim-ready s.cell c n r e))
  drive-Move s (some (n, r, c)) (called m q k z o d t) e =
      absurd (ground (arith, claim-ready s.cell c n r e))
  drive-Move s (some (n, r, c)) (waiting m q k d t w) e =
      let got = claim-ready s.cell c n r e in rw (got.2, k, got.1, got.0) (hears n r refl refl refl)

  Step-Move : {s t : Shared A} → Phase s → Step s t → Move (seen s) (seen t)
  unfolding seen ref resolve drive
  Step-Move p (copies q) = stays
  Step-Move {s = s} p (resolves r q) = fulfil-Move r s (s.drives + 1)
  Step-Move {s = s} p (drops q) = drop-Move s
  Step-Move {s = s} p (takes c q e) = rw (get_future-taken s.cell c e).1 stays
  Step-Move p (forgets e) = stays
  Step-Move {s = s} (idle m k t) (installs exec n chain c held e) =
      let free = publish-free exec n chain s.cell c e in rw (free.1, k, m) (listens n refl)
  Step-Move {s = s} (waiting m q k d t w) (installs exec n chain c held e) = absurd (ground arith)
  Step-Move {s = s} (called m r q k o d t) (installs exec n chain c held e) = absurd (ground arith)
  Step-Move {s = s} p (drives_on q) = drive-Move s (claim s.cell) p refl

  -- Every run of a state, from a new promise on and in whatever order its threads come, is seen
  -- from outside as a run of a result that is written once, a listener that is set once, and the
  -- listener being told this result once, after both are there. What is seen as told is the list of
  -- the results of all calls of continuations.
  pub Reach-Moves : {s : Shared A} → Reach start s → Moves promised (seen s)
  unfolding seen IsSound
  Reach-Moves here = begun
  Reach-Moves (next r st) = moved (Reach-Moves r) (Step-Move (Reach-IsSound r).0 st)
