-- ===== src/Future/Shared.antt =====
-- include/future/future.hpp and src/future.cpp: one state that several threads use. A step is a
-- section under the state's lock with the moves of handles around it; a thread that has changed the
-- state calls continueChain, and until that call has reached its own locked section it is counted
-- in `drives`. The steps come in any order.
pub mod Phase
pub mod Sound
pub mod Refines
use rpcxx.Prelude.{
  ℕ, ◌+◌, ◌-◌, ◌≤◌, ◌≡◌, Bool, true, false, Option, none, some, List, [], ◌∷◌, ◌++◌, if◌then◌else◌,
}
use rpcxx.Json.Access.{Result, ok}
use rpcxx.Future.Cell.{Cell, Notify, fresh, fulfil, publish, claim, get_future, ref, deref}

-- `held`: a Future owns the state and nothing was installed through it. `calls`: the continuations
-- that were called, each with the result that it got.
pub record Shared {ℓ} (A : Type ℓ) : Type ℓ where
  pub cell : Cell A
  pub held : Bool
  pub drives : ℕ
  pub calls : List (Notify × Result A)

module _ {ℓ} {A : Type ℓ} where
  -- `Promise<T>()`.
  abbrev pub start : Shared A
  start = record { cell = record fresh { promises = 1 }; held = false; drives = 0; calls = [] }

  -- One pass of the loop of `continueChain` up to the call of the continuation.
  unfoldable pub call_claimed : Option (Notify × Result A × Cell A) → Shared A → Shared A
  call_claimed none s = record s { drives = s.drives - 1 }
  call_claimed (some (n, r, c)) s = record s {
    cell = c;
    drives = s.drives - 1;
    calls = s.calls ++ (n, r) ∷ [];
  }

  unfoldable pub drive : Shared A → Shared A
  unfolding claim call_claimed
  drive s = call_claimed (claim s.cell) s

  -- `SharedPromise::operator()`, its destructor, and `install`.
  unfoldable pub resolve : Result A → Shared A → Shared A
  unfolding fulfil
  resolve r s = record s { cell = (fulfil r s.cell).1; drives = s.drives + 1 }

  unfoldable pub drop_promise : Shared A → Shared A
  unfolding deref
  drop_promise s = record s {
    cell = (deref s.cell).1;
    drives = if (deref s.cell).0 then s.drives + 1 else s.drives;
  }

  abbrev pub installed : Cell A → Shared A → Shared A
  installed c s = record s { cell = c; held = false; drives = s.drives + 1 }

-- What the threads can do: a promise is copied, called or dropped while there is one, the future is
-- taken from a promise, and is dropped or gets its continuation while it is held.
pub data Step {ℓ} {A : Type ℓ} (s : Shared A) : Shared A → Type ℓ where
  copies : 1 ≤ s.cell.promises → Step s (record s { cell = ref s.cell })
  resolves : (r : Result A) → 1 ≤ s.cell.promises → Step s (resolve r s)
  drops : 1 ≤ s.cell.promises → Step s (drop_promise s)
  takes :
      (c : Cell A)
      → 1 ≤ s.cell.promises
      → get_future s.cell ≡ ok c
      → Step s (record s { cell = c; held = true })
  forgets : s.held ≡ true → Step s (record s { held = false })
  installs :
      (exec : Bool) (n : Notify) (chain : Option ℕ) (c : Cell A)
      → s.held ≡ true
      → publish exec n chain s.cell ≡ ok c
      → Step s (installed c s)
  drives_on : 1 ≤ s.drives → Step s (drive s)

pub data Reach {ℓ} {A : Type ℓ} (s : Shared A) : Shared A → Type ℓ where
  here : Reach s s
  next : {t u : Shared A} → Reach s t → Step t u → Reach s u
