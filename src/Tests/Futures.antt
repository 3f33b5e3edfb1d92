-- ===== src/Tests/Futures.antt =====
-- include/future and src/future.cpp at concrete inputs.
use rpcxx.Prelude.{
  ℕ, zero, suc, ◌+◌, ◌≤◌, ◌<◌, ◌≡◌, ◌≢◌, refl, ◌⊎◌, Bool, true, false, none, some, List, [], ◌∷◌,
  ◌++◌, length, get_elem?, arith,
}
use rpcxx.Json.Access.{runtime_error, Result, ok, throw}
use rpcxx.Future.Cell.{
  Cell, Notify, notify_then, notify_last, fresh, get_future, publish, broken, deref, is_valid,
  fulfil, fulfil_from, claim, claim_from,
}
use rpcxx.Future.Shared.{
  Shared, start, Reach, here, next, takes, installs, drops, drives_on, installed, drive,
  drop_promise, call_claimed,
}
use rpcxx.Future.Shared.Sound.{calls-once, quiet-called}
use rpcxx.Future.Shared.Refines.{Moves, promised, seen, Reach-Moves}
use rpcxx.Future.Chain.{Returned, returned, returned_future, World, continue_chain}
use rpcxx.Future.Chain.Ends.{weight, weight_of, continue_chain-ends}
use rpcxx.Future.Install.Linked.{Has, Stage}
use rpcxx.Future.Install.Delivered.{IsReady, results}
use rpcxx.Future.Install.Attached.{attach, attach-results}
use rpcxx.Future.Gather.{gather, gather_all}
use rpcxx.Future.Gather.Outcome.{all_ok, first_throw, gather-values, gather-first_throw}
use rpcxx.Future.Multi.{
  Use, cancels, listens, run_uses, run_use, cancel, on_cancel, settle_all, get_multi_future,
  try_res, new_state,
}
use rpcxx.Future.Multi.Cancelled.{first_reason, run_uses-first_reason}

-- The future is taken and gets function 7; the only promise is dropped without a call.
abbrev taken_cell : Cell ℕ
taken_cell = record fresh { future_taken = true; promises = 1 }

abbrev listening_cell : Cell ℕ
listening_cell = record taken_cell { notify = some (notify_last 7) }

abbrev held_state : Shared ℕ
held_state = record start { cell = taken_cell; held = true }

abbrev dropped_state : Shared ℕ
dropped_state = drive (drop_promise (drive (installed listening_cell held_state)))

dropped_run : Reach start dropped_state
unfolding get_future publish drive drop_promise claim claim_from call_claimed deref is_valid fulfil
    fulfil_from
dropped_run =
    next
      (next
        (next
          (next (next here (takes taken_cell (omega arith) refl))
            (installs false (notify_last 7) none listening_cell refl refl))
          (drives_on (omega arith)))
        (drops (omega arith)))
      (drives_on (omega arith))

dropped_calls : dropped_state.calls ≡ (notify_last 7, broken) ∷ []
unfolding get_future publish drive drop_promise claim claim_from call_claimed deref is_valid fulfil
    fulfil_from
dropped_calls = refl

dropped_promises : dropped_state.cell.promises ≡ 0
unfolding drive drop_promise claim claim_from call_claimed deref is_valid fulfil fulfil_from
dropped_promises = refl

dropped_drives : dropped_state.drives ≡ 0
unfolding drive drop_promise claim claim_from call_claimed deref is_valid fulfil fulfil_from
dropped_drives = refl

calls-once_example :
    (dropped_state.calls ≡ [])
    ⊎ ((n : Notify) × (r : Result ℕ) × (dropped_state.calls ≡ (n, r) ∷ [])
        × (dropped_state.cell.outcome ≡ some r))
calls-once_example = calls-once dropped_run

quiet-called_example : (dropped_state.cell.outcome ≢ none) × (dropped_state.cell.notify ≡ none)
quiet-called_example = quiet-called dropped_run dropped_promises dropped_drives

Reach-Moves_example : Moves promised (seen dropped_state)
Reach-Moves_example = Reach-Moves dropped_run

-- Function 0 returns the future of state 0, function f + 1 the value f.
abbrev some_functions : ℕ → Result ℕ → Returned ℕ
some_functions zero r = returned_future 0
some_functions (suc f) r = returned f

abbrev no_throws : ℕ → Result ℕ → Bool
no_throws f r = false

abbrev resolved_cell : Cell ℕ
resolved_cell = record fresh { outcome = some (ok 10) }

-- State 0 has a result, state 1 waits.
abbrev two_cells : World ℕ
two_cells = record { cells = resolved_cell ∷ fresh ∷ []; jobs = []; log = []; terminated = false }

-- A chain that leads in a circle.
abbrev circle : World ℕ
circle = record two_cells {
  cells = record resolved_cell { notify = some (notify_then 0); chain = some 0 } ∷ [];
}

weight-circle : weight circle < 3
unfolding weight weight_of
weight-circle = omega arith

continue_chain-ends_example :
    (v : World ℕ) × (continue_chain some_functions no_throws 3 (some 0) circle ≡ some v)
    × (weight v ≤ weight circle)
continue_chain-ends_example =
    continue_chain-ends some_functions no_throws 3 (some 0) circle weight-circle

abbrev their_results : ℕ → Result ℕ
their_results p = ok 10

functions_below : (f : ℕ) (q : Result ℕ) (p : ℕ) → some_functions f q ≡ returned_future p → p < 1
functions_below zero q p e = ground arith
functions_below (suc f) q p e = ground arith

two_cells-IsReady : IsReady some_functions no_throws 1 their_results two_cells
unfolding IsReady
two_cells-IsReady zero lt = (none, record { taken = false; owners = 0; found = refl })
two_cells-IsReady (suc p) lt = absurd (omega arith)

abbrev two_stages : List Stage
two_stages = (true, 4) ∷ (false, 0) ∷ []

attach-results_example :
    (n : ℕ) × (v : World ℕ) × (attach some_functions no_throws 1 their_results two_stages two_stages
        (throw (runtime_error []))
        1
        two_cells
      ≡ ok (n, v))
    × Has n
        (some (
          results some_functions no_throws 1 their_results
            (two_stages ++ two_stages)
            (throw (runtime_error []))))
        none
        none
        v
attach-results_example =
    attach-results some_functions no_throws 1 their_results two_stages two_stages
      (throw (runtime_error [])) 1 two_cells functions_below (omega arith)
      (record { taken = false; owners = 0; found = refl }) two_cells-IsReady

abbrev squares : ℕ → ℕ
squares i = i + i

abbrev second_first : List ℕ
second_first = 1 ∷ 0 ∷ []

each_comes : (j : ℕ) → j < 2 → (k : ℕ) × (get_elem? second_first k ≡ some j)
each_comes zero lt = (1, refl)
each_comes (suc zero) lt = (0, refl)
each_comes (suc (suc j)) lt = absurd (omega arith)

gather-values_example :
    (vs : List ℕ) × ((gather_all (all_ok squares second_first) (gather 0 2)).prom ≡ some (ok vs))
    × (length vs ≡ 2)
    × ((j : ℕ) → j < 2 → get_elem? vs j ≡ some (squares j))
gather-values_example = gather-values squares 0 2 second_first refl each_comes

abbrev one_fails : List (ℕ × Result ℕ)
one_fails = (2, ok 5) ∷ (0, throw (runtime_error [])) ∷ (1, ok 6) ∷ []

one_fails-first : first_throw one_fails ≡ some (runtime_error [])
unfolding first_throw
one_fails-first = refl

gather-first_throw_example :
    (gather_all one_fails (gather 0 3)).prom ≡ some (throw (runtime_error []))
gather-first_throw_example =
    gather-first_throw 0 3 one_fails (runtime_error []) (omega arith) one_fails-first

-- One listener before the cancellation, one between it and a later one, and the last behind both.
abbrev some_uses : List Use
some_uses = listens ∷ cancels (1 ∷ []) ∷ listens ∷ cancels (2 ∷ []) ∷ listens ∷ []

some_uses-listeners : 2 < length (run_uses some_uses new_state).proms
unfolding run_uses run_use cancel on_cancel settle_all get_multi_future try_res
some_uses-listeners = omega arith

run_uses-first_reason_example :
    get_elem? (run_uses some_uses new_state).proms 2 ≡ some (first_reason some_uses)
run_uses-first_reason_example = run_uses-first_reason some_uses 2 some_uses-listeners
