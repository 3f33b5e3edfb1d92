-- ===== src/Future/Multi/Cancelled.antt =====
-- include/future/multi_future.hpp and include/future/cancel_token.hpp: what the listeners hear.
use rpcxx.Prelude.{
  ℕ, zero, suc, ◌<◌, ◌≡◌, refl, ap, Option, none, some, List, [], ◌∷◌, ◌++◌, map, length, get_elem?,
  arith,
}
use rpcxx.Json.Value.{Bytes}
use rpcxx.Json.Access.{Result, ok}
use rpcxx.Future.Multi.{
  new_state, try_res, settle_all, get_multi_future, cancel, on_cancel, Use, cancels, listens,
  run_use, run_uses,
}

-- The first reason that the controller is called with.
unfoldable pub first_reason : List Use → Option (Result Bytes)
first_reason [] = none
first_reason (cancels reason ∷ us) = some (ok reason)
first_reason (listens ∷ us) = first_reason us

-- Every promise has been called with the same, or none has.
AllAre : Option (Result Bytes) → List (Option (Result Bytes)) → Type 0
AllAre r [] = Unit
AllAre r (p ∷ ps) = (p ≡ r) × AllAre r ps

AllAre-settled :
    (r : Result Bytes) (ps : List (Option (Result Bytes)))
    → AllAre none ps
    → AllAre (some r) (map (λ p. try_res (some r) p) ps)
unfolding AllAre try_res
AllAre-settled r [] h = tt
AllAre-settled r (p ∷ ps) (e, h) = (rw e refl, AllAre-settled r ps h)

AllAre-append :
    (r : Option (Result Bytes)) (ps : List (Option (Result Bytes)))
    → AllAre r ps
    → AllAre r (ps ++ try_res r none ∷ [])
unfolding AllAre try_res
AllAre-append none [] h = (refl, tt)
AllAre-append (some r) [] h = (refl, tt)
AllAre-append r (p ∷ ps) (e, h) = (e, AllAre-append r ps h)

AllAre-at :
    (r : Option (Result Bytes)) (ps : List (Option (Result Bytes))) (i : ℕ)
    → AllAre r ps
    → i < length ps
    → get_elem? ps i ≡ some r
unfolding AllAre
AllAre-at r [] i h lt = absurd (omega arith)
AllAre-at r (p ∷ ps) zero (e, h) lt = ap (λ x. some x) e
AllAre-at r (p ∷ ps) (suc i) (e, h) lt = AllAre-at r ps i h (omega arith)

abbrev result_or : Option (Result Bytes) → Option (Result Bytes) → Option (Result Bytes)
result_or none later = later
result_or (some r) later = some r

run_uses-AllAre :
    (us : List Use) (done : Option (Result Bytes)) (ps : List (Option (Result Bytes)))
    → AllAre done ps
    → AllAre
        (result_or done (first_reason us))
        (run_uses us (record { done = done; proms = ps })).proms
unfolding run_uses run_use cancel on_cancel settle_all get_multi_future first_reason
run_uses-AllAre [] none ps h = h
run_uses-AllAre [] (some r) ps h = h
run_uses-AllAre (cancels reason ∷ us) none ps h =
    run_uses-AllAre us (some (ok reason)) _ (AllAre-settled (ok reason) ps h)
run_uses-AllAre (cancels reason ∷ us) (some r) ps h = run_uses-AllAre us (some r) ps h
run_uses-AllAre (listens ∷ us) none ps h = run_uses-AllAre us none _ (AllAre-append none ps h)
run_uses-AllAre (listens ∷ us) (some r) ps h =
    run_uses-AllAre us (some r) _ (AllAre-append (some r) ps h)

-- However calls of a controller and of OnCancel come, every listener, also one that came after the
-- cancellation, ends with the first reason that the controller was called with, and none hears
-- anything when it was never called.
pub run_uses-first_reason :
    (us : List Use) (i : ℕ)
    → i < length (run_uses us new_state).proms
    → get_elem? (run_uses us new_state).proms i ≡ some (first_reason us)
unfolding AllAre
run_uses-first_reason us i lt =
    AllAre-at (first_reason us) (run_uses us new_state).proms i (run_uses-AllAre us none [] tt) lt
