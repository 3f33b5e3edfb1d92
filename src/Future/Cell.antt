-- ===== src/Future/Cell.antt =====
-- include/future/future.hpp: the state that promises and a future share, `Base` with `Data<T>`, and
-- the sections that run under its lock. A value and an exception are the two results; `notify`
-- names the function that is to run (with its `ctx`), and a state is named by its number.
use rpcxx.Prelude.{ℕ, ◌+◌, ◌-◌, Bool, true, false, Option, none, some, if◌then◌else◌, ◌==◌}
use rpcxx.Prelude.Text.{codes}
use rpcxx.Json.Access.{future_error, Result, ok, throw}

-- `notifyImpl`, `notifyTryImpl` and `notifyLastImpl` with the number of the user's function, and
-- `notifyForward`.
pub data Notify : Type 0 where
  notify_then : ℕ → Notify
  notify_try : ℕ → Notify
  notify_last : ℕ → Notify
  notify_forward : Notify

-- `outcome` is `fullfilled` with `exc` or the data, `exec` tells whether there is an executor.
pub record Cell {ℓ} (A : Type ℓ) : Type ℓ where
  pub outcome : Option (Result A)
  pub notify : Option Notify
  pub chain : Option ℕ
  pub exec : Bool
  pub future_taken : Bool
  pub promises : ℕ

abbrev pub fresh {ℓ} : {A : Type ℓ} → Cell A
fresh = record {
  outcome = none;
  notify = none;
  chain = none;
  exec = false;
  future_taken = false;
  promises = 0;
}

-- `fulfilExc`, `fulfilVoid` and `fulfilValue`: the first result stays.
unfoldable pub fulfil_from {ℓ} :
    {A : Type ℓ} → Option (Result A) → Result A → Cell A → Bool × Cell A
fulfil_from (some old) r c = (false, c)
fulfil_from none r c = (true, record c { outcome = some r })

unfoldable pub fulfil {ℓ} : {A : Type ℓ} → Result A → Cell A → Bool × Cell A
fulfil r c = fulfil_from c.outcome r c

-- The locked section of `install`.
unfoldable pub publish {ℓ} : {A : Type ℓ} → Bool → Notify → Option ℕ → Cell A → Result (Cell A)
publish exec n chain c = elim c.notify [
  | some old ↦ throw (future_error (codes "Then() Called Twice"))
  | none ↦ ok (record c { exec = exec; chain = chain; notify = some n })
]

-- The locked section of `continueChain`: the continuation that is claimed, with the result.
unfoldable pub claim_from {ℓ} :
    {A : Type ℓ} → Option (Result A) → Option Notify → Cell A → Option (Notify × Result A × Cell A)
claim_from none n c = none
claim_from (some r) none c = none
claim_from (some r) (some n) c = some (n, r, record c { notify = none })

unfoldable pub claim {ℓ} : {A : Type ℓ} → Cell A → Option (Notify × Result A × Cell A)
claim c = claim_from c.outcome c.notify c

-- `GetFuture`.
unfoldable pub get_future {ℓ} : {A : Type ℓ} → Cell A → Result (Cell A)
get_future c =
    if c.future_taken
    then throw (future_error (codes "Future already taken"))
    else ok (record c { future_taken = true })

-- `SharedPromise::IsValid`.
unfoldable pub is_valid {ℓ} : {A : Type ℓ} → Cell A → Bool
is_valid c = elim c.outcome [ none ↦ true | some r ↦ false ]

-- `ref` and `deref`: who drops the last promise of an unfulfilled state breaks it, and drives the
-- chain then (the Boolean).
unfoldable pub ref {ℓ} : {A : Type ℓ} → Cell A → Cell A
ref c = record c { promises = c.promises + 1 }

abbrev pub broken {ℓ} : {A : Type ℓ} → Result A
broken = throw (future_error (codes "Broken Promise"))

unfoldable pub deref {ℓ} : {A : Type ℓ} → Cell A → Bool × Cell A
unfolding fulfil is_valid
deref c =
    let left = record c { promises = c.promises - 1 } in
    if c.promises == 1
    then if is_valid c then fulfil broken left else (false, left)
    else (false, left)
