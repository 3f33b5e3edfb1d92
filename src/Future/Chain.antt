-- ===== src/Future/Chain.antt =====
-- include/future/future.hpp and src/future.cpp: the states of a program's futures, how a
-- continuation passes its result on, and the loop of continueChain. The users' functions are
-- parameters: what the function with a number does with its argument.
pub mod Ends
use rpcxx.Prelude.{
  ℕ, zero, suc, Bool, true, false, Option, none, some, List, [], ◌∷◌, ◌++◌, ◌||◌, if◌then◌else◌,
  length, get_elem?, set,
}
use rpcxx.Prelude.Text.{codes}
use rpcxx.Json.Access.{Exception, future_error, Result, ok, throw, ◌>>=◌}
use rpcxx.Future.Cell.{
  Cell, Notify, notify_then, notify_try, notify_last, notify_forward, fresh, fulfil, publish, claim,
}

-- What a user's function does: it returns a value or a future, or throws.
pub data Returned {ℓ} (A : Type ℓ) : Type ℓ where
  returned : A → Returned A
  returned_future : ℕ → Returned A
  raised : Exception → Returned A

-- `NotifyCtx`: the continuation that an executor was given.
pub record Job : Type 0 where
  pub notif : Notify
  pub data_of : ℕ
  pub chain : Option ℕ

-- The states by number, the jobs that executors hold, and the calls of functions given to AtLast,
-- each with its argument; `terminated` after one of them threw.
pub record World {ℓ} (A : Type ℓ) : Type ℓ where
  pub cells : List (Cell A)
  pub jobs : List Job
  pub log : List (ℕ × Result A)
  pub terminated : Bool

module _ {ℓ} {A : Type ℓ} where
  unfoldable pub put : ℕ → Cell A → World A → World A
  put d c w = record w { cells = set w.cells d c }

  unfoldable pub fulfil_found : Option (Cell A) → ℕ → Result A → World A → Bool × World A
  unfolding fulfil put
  fulfil_found none d r w = (false, w)
  fulfil_found (some c) d r w = ((fulfil r c).0, put d (fulfil r c).1 w)

  unfoldable pub fulfil_at : ℕ → Result A → World A → Bool × World A
  unfolding fulfil_found
  fulfil_at d r w = fulfil_found (get_elem? w.cells d) d r w

  -- A continuation without a chain, which the code asserts away, leaves its result nowhere.
  unfoldable pub fulfil_chain : Option ℕ → Result A → World A → World A
  unfolding fulfil_at
  fulfil_chain none r w = w
  fulfil_chain (some d) r w = (fulfil_at d r w).1

  -- The part of `setResult` under the lock of the future that the function returned.
  unfoldable pub splice_found : Option (Cell A) → ℕ → Option ℕ → World A → World A
  unfolding put
  splice_found none parent chain w = w
  splice_found (some c) parent chain w =
      put parent (record c { chain = chain; notify = some notify_forward }) w

  unfoldable pub splice : ℕ → Option ℕ → World A → World A
  unfolding splice_found
  splice parent chain w = splice_found (get_elem? w.cells parent) parent chain w

  unfoldable pub claim_found : Option (Cell A) → Option (Notify × Result A × Cell A)
  unfolding claim
  claim_found none = none
  claim_found (some c) = claim c

  unfoldable pub claim_at : ℕ → World A → Option (Notify × Result A × Cell A)
  unfolding claim_found
  claim_at d w = claim_found (get_elem? w.cells d)

  -- `Execute` of the executor that the state has: the job is kept until it is run or dropped.
  unfoldable pub hand_over : ℕ → Notify → Cell A → World A → World A
  hand_over d n c w = record w {
    jobs = w.jobs ++ record { notif = n; data_of = d; chain = c.chain } ∷ [];
  }

  unfoldable pub go_on :
      (Option ℕ → World A → Option (World A)) → Option ℕ → Option (World A) → Option (World A)
  go_on loop chain none = none
  go_on loop chain (some w) = loop chain w

module _ {ℓ} {A : Type ℓ} (call : ℕ → Result A → Returned A)
    (last_throws : ℕ → Result A → Bool) where
  -- `setResult` after the function returned; the future to drive then, if it returned one.
  unfoldable pub finish : Returned A → Option ℕ → World A → Option ℕ × World A
  unfolding fulfil_chain splice
  finish (returned a) chain w = (none, fulfil_chain chain (ok a) w)
  finish (raised e) chain w = (none, fulfil_chain chain (throw e) w)
  finish (returned_future p) chain w = (some p, splice p chain w)

  unfoldable pub set_result : Bool → ℕ → Option ℕ → Result A → World A → Option ℕ × World A
  unfolding finish fulfil_chain
  set_result true f chain (throw e) w = (none, fulfil_chain chain (throw e) w)
  set_result true f chain (ok a) w = finish (call f (ok a)) chain w
  set_result false f chain r w = finish (call f r) chain w

  -- `notifyImpl`, `notifyTryImpl`, `notifyLastImpl` and `notifyForward`.
  unfoldable pub notify : Notify → Option ℕ → Result A → World A → Option ℕ × World A
  unfolding set_result fulfil_chain
  notify (notify_then f) chain r w = set_result true f chain r w
  notify (notify_try f) chain r w = set_result false f chain r w
  notify (notify_last f) chain r w =
      (none, record w { log = w.log ++ (f, r) ∷ []; terminated = w.terminated || last_throws f r })
  notify notify_forward chain r w = (none, fulfil_chain chain r w)

  -- A claimed continuation runs at once, or goes to the executor (the first argument), and the loop
  -- goes on as `loop`.
  unfoldable pub run_claimed :
      Bool
      → (Option ℕ → World A → Option (World A))
      → ℕ
      → Notify
      → Result A
      → Cell A
      → World A
      → Option (World A)
  unfolding notify
  run_claimed true loop d n r c w = some (hand_over d n c w)
  run_claimed false loop d n r c w =
      let told = notify n c.chain r w in go_on loop c.chain (loop told.0 told.1)

  unfoldable pub drive_claimed :
      (Option ℕ → World A → Option (World A))
      → ℕ
      → Option (Notify × Result A × Cell A)
      → World A
      → Option (World A)
  unfolding run_claimed put
  drive_claimed loop d none w = some w
  drive_claimed loop d (some (n, r, c)) w = run_claimed c.exec loop d n r c (put d c w)

  -- `continueChain`: none when the fuel is out.
  unfoldable pub continue_chain : ℕ → Option ℕ → World A → Option (World A)
  unfolding drive_claimed claim_at
  continue_chain fuel none w = some w
  continue_chain zero (some d) w = none
  continue_chain (suc fuel) (some d) w =
      drive_claimed (λ e v. continue_chain fuel e v) d (claim_at d w) w
