-- ===== src/Future/Multi.antt =====
-- include/future/multi_future.hpp and include/future/cancel_token.hpp: one result for any number of
-- listeners, and a cancellation on it.
pub mod Cancelled
use rpcxx.Prelude.{ℕ, Option, none, some, List, [], ◌∷◌, ◌++◌, map, length}
use rpcxx.Json.Value.{Bytes}
use rpcxx.Json.Access.{Result, ok}

-- `MultiState`: `done` with `exc` or the value, and what each promise was called with.
pub record MultiState {ℓ} (A : Type ℓ) : Type ℓ where
  pub done : Option (Result A)
  pub proms : List (Option (Result A))

module _ {ℓ} {A : Type ℓ} where
  -- A promise that has been called keeps its result.
  unfoldable pub try_res : Option (Result A) → Option (Result A) → Option (Result A)
  try_res none p = p
  try_res (some r) (some old) = some old
  try_res (some r) none = some r

  -- What `MultiFuture(Future)` installs on its future.
  unfoldable pub settle_all : Result A → MultiState A → MultiState A
  unfolding try_res
  settle_all r state = record state {
    done = some r;
    proms = map (λ p. try_res (some r) p) state.proms;
  }

  -- `GetFuture`, through `prom`; Then, Try and AtLast install on the future that it gives.
  unfoldable pub get_multi_future : MultiState A → ℕ × MultiState A
  unfolding try_res
  get_multi_future state =
      (length state.proms, record state { proms = state.proms ++ try_res state.done none ∷ [] })

  abbrev pub new_state : MultiState A
  new_state = record { done = none; proms = [] }

-- `CancelController::operator()`: the promise is valid as long as it has not been called, and its
-- call settles the signal.
unfoldable pub cancel : Bytes → MultiState Bytes → MultiState Bytes
unfolding settle_all
cancel reason state = elim state.done [ none ↦ settle_all (ok reason) state | some r ↦ state ]

-- `CancelSignal::OnCancel`.
unfoldable pub on_cancel : MultiState Bytes → MultiState Bytes
unfolding get_multi_future
on_cancel state = (get_multi_future state).1

pub data Use : Type 0 where
  cancels : Bytes → Use
  listens : Use

unfoldable pub run_use : Use → MultiState Bytes → MultiState Bytes
unfolding cancel on_cancel
run_use (cancels reason) state = cancel reason state
run_use listens state = on_cancel state

unfoldable pub run_uses : List Use → MultiState Bytes → MultiState Bytes
unfolding run_use
run_uses [] state = state
run_uses (u ∷ us) state = run_uses us (run_use u state)
