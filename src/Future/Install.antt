-- ===== src/Future/Install.antt =====
-- include/future/future.hpp: what is done with a future and with a promise, on the states of a
-- program. The fuel of continueChain is the one that Chain.Ends shows to be enough.
pub mod Linked
pub mod Delivered
pub mod Grown
pub mod Results
pub mod Attached
use rpcxx.Prelude.{ℕ, suc, Bool, Option, none, some, List, [], ◌∷◌, ◌++◌, length, get_elem?}
use rpcxx.Prelude.Text.{codes}
use rpcxx.Json.Access.{future_error, Result, ok, throw, ◌>>=◌}
use rpcxx.Future.Cell.{
  Cell, Notify, notify_then, notify_try, notify_last, fresh, publish, get_future, ref, deref,
}
use rpcxx.Future.Chain.{Returned, Job, World, put, fulfil_at, notify, continue_chain}
use rpcxx.Future.Chain.Ends.{weight}

module _ {ℓ} {A : Type ℓ} where
  unfoldable pub world_or : World A → Option (World A) → World A
  world_or w none = w
  world_or w (some v) = v

  -- `new Data<T>`: the next number.
  unfoldable pub new_data : Cell A → World A → World A
  new_data c w = record w { cells = w.cells ++ c ∷ [] }

  unfoldable pub find_cell : ℕ → World A → Result (Cell A)
  find_cell d w = elim (get_elem? w.cells d) [
    | none ↦ throw (future_error (codes "Invalid Future"))
    | some c ↦ ok c
  ]

module _ {ℓ} {A : Type ℓ} (call : ℕ → Result A → Returned A)
    (last_throws : ℕ → Result A → Bool) where
  unfoldable pub drive_all : Option ℕ → World A → World A
  unfolding world_or weight continue_chain
  drive_all d w = world_or w (continue_chain call last_throws (suc (weight w)) d w)

  -- `Future::install`.
  unfoldable pub install : Bool → Notify → Option ℕ → ℕ → World A → Result (World A)
  unfolding find_cell publish put drive_all
  install exec n chain d w =
      find_cell d w >>= λ c. publish exec n chain c >>= λ e. ok (drive_all (some d) (put d e w))

  -- `Then` and `Try` give the future of a new state, `AtLast` gives none.
  unfoldable pub then_or_try : Bool → Notify → ℕ → World A → Result (ℕ × World A)
  unfolding install new_data
  then_or_try exec n d w =
      install exec n (some (length w.cells)) d (new_data fresh w) >>= λ v. ok (length w.cells, v)

  unfoldable pub at_last : Bool → ℕ → ℕ → World A → Result (World A)
  unfolding install
  at_last exec f d w = install exec (notify_last f) none d w

  -- `SharedPromise::operator()`.
  unfoldable pub call_promise : ℕ → Result A → World A → Bool × World A
  unfolding fulfil_at drive_all
  call_promise d r w = let done = fulfil_at d r w in (done.0, drive_all (some d) done.1)

  -- The job that `continueChain` hands to an executor.
  unfoldable pub run_job : Job → Result A → World A → World A
  unfolding notify drive_all
  run_job j r w =
      let told = notify call last_throws j.notif j.chain r w in
      drive_all j.chain (drive_all told.0 told.1)
