-- ===== src/Future/Install/Attached.antt =====
-- include/future/future.hpp: a chain of Then and Try whose promise is called at any time.
use rpcxx.Prelude.{
  ℕ, suc, ◌≤◌, ◌<◌, ◌≡◌, refl, ap, ◌∙◌, Bool, false, Option, none, some, List, [], ◌∷◌, ◌++◌,
  get_elem?, get_elem?_below, get_elem?-append, length, append-nil, append_assoc, arith,
}
use rpcxx.Json.Access.{Result, ok, ◌>>=◌}
use rpcxx.Future.Cell.{Cell, Notify, fresh, publish}
use rpcxx.Future.Chain.{Returned, returned_future, World, put, fulfil_at, continue_chain}
use rpcxx.Future.Chain.Ends.{weight, continue_chain-ends}
use rpcxx.Future.Install.{
  drive_all, world_or, install, then_or_try, call_promise, new_data, find_cell,
}
use rpcxx.Future.Install.Linked.{
  cell_of, Has, Has-put, Stage, notify_of, Linked, at_end, Linked-fulfil, continue_chain-pending,
}
use rpcxx.Future.Install.Delivered.{results, after, IsReady, IsReady-put, IsReady-fulfil}
use rpcxx.Future.Install.Grown.{Has-new, Linked-one, Linked-last, Linked-then, Linked-bound}
use rpcxx.Future.Install.Results.{run_linked}

module _ {ℓ} {A : Type ℓ} (call : ℕ → Result A → Returned A) (last_throws : ℕ → Result A → Bool)
    (base : ℕ) (futures : ℕ → Result A) where
  abbrev Ready : World A → Type ℓ
  Ready w = IsReady call last_throws base futures w

  Ready-new : (c : Cell A) (w : World A) → Ready w → Ready (new_data c w)
  unfolding IsReady
  Ready-new c w h p lt = let (ch, had) = h p lt in (ch, Has-new p c w had)

  -- The loop gives the world that `drive_all` is.
  drive_all-continue :
      (d : ℕ) (w : World A)
      → continue_chain call last_throws (suc (weight w)) (some d) w
        ≡ some (drive_all call last_throws (some d) w)
  unfolding drive_all world_or
  drive_all-continue d w =
      let (v, k, less) =
        continue_chain-ends call last_throws (suc (weight w)) (some d) w (omega arith) in
      rw k refl

  drive_all-pending :
      {n : Option Notify} {ch : Option ℕ} (d : ℕ) (w : World A)
      → Has d none n ch w
      → drive_all call last_throws (some d) w ≡ w
  unfolding drive_all world_or
  drive_all-pending d w h = rw (continue_chain-pending call last_throws (weight w) w h) refl

  install-Has :
      {o : Option (Result A)} {t : Bool} {p : ℕ} (last : ℕ) (w : World A) (n : Notify)
      (ch : Option ℕ)
      → get_elem? w.cells last ≡ some (cell_of o none none t p)
      → install call last_throws false n ch last w
        ≡ ok (drive_all call last_throws (some last) (put last (cell_of o (some n) ch t p) w))
  unfolding install find_cell publish
  install-Has last w n ch h = rw (h, find_cell, publish) refl

  -- The world in which state `last` has a continuation that leads to a new state.
  abbrev grown :
      {o : Option (Result A)}
      → (last : ℕ) → Stage
      → (w : World A) → Has last o none none w
      → World A
  grown {o = o} last s w h =
      put last (cell_of o (some (notify_of s)) (some (length w.cells)) h.taken h.owners)
        (new_data fresh w)

  -- Then and Try at a state without a continuation: the state is linked to a new one, and driven.
  then_or_try-Has :
      {o : Option (Result A)} (last : ℕ) (w : World A) (s : Stage) (h : Has last o none none w)
      → then_or_try call last_throws false (notify_of s) last w
        ≡ ok (length w.cells, drive_all call last_throws (some last) (grown last s w h))
  unfolding then_or_try new_data
  then_or_try-Has last w s h =
      rw
        (install-Has last (new_data fresh w) (notify_of s) (some (length w.cells))
          (get_elem?-append w.cells (fresh ∷ []) last _ h.found))
        refl

  Ready-grown :
      {o : Option (Result A)} (last : ℕ) (w : World A) (s : Stage) (h : Has last o none none w)
      → base ≤ last
      → Ready w
      → Ready (grown last s w h)
  Ready-grown last w s h le ready =
      IsReady-put call last_throws base futures (new_data fresh w) last _ le
        (Ready-new fresh w ready)

  -- `chain` of these calls, each on the future that the one before gave.
  unfoldable pub then_all : List Stage → ℕ → World A → Result (ℕ × World A)
  unfolding then_or_try
  then_all [] d w = ok (d, w)
  then_all (s ∷ ss) d w =
      then_or_try call last_throws false (notify_of s) d w >>= λ x. then_all ss x.0 x.1

  pub record Waits (d : ℕ) (ss : List Stage) (n : ℕ) (v : World A) : Type ℓ where
    pub wait_linked : Linked n v none ss d
    pub wait_ready : Ready v

  pub record Settles (r : Result A) (n : ℕ) (v : World A) : Type ℓ where
    pub settled : Has n (some r) none none v
    pub settled_ready : Ready v
    pub settled_base : base ≤ n

  then_or_try-Waits :
      (d last : ℕ) (s : Stage) (ss : List Stage) (w : World A)
      → base ≤ d
      → Waits d ss last w
      → (n : ℕ) × (v : World A) × (then_or_try call last_throws false (notify_of s) last w
          ≡ ok (n, v))
        × Waits d (ss ++ s ∷ []) n v
  then_or_try-Waits d last s ss w le h =
      let had = Linked-last w h.wait_linked in
      let stays =
        drive_all-pending last (grown last s w had) (
          Has-put last had.taken had.owners (new_data fresh w) _
            (Has-new last fresh w had).found) in
      (
        length w.cells,
        grown last s w had,
        then_or_try-Has last w s had ∙ ap (λ x. ok (length w.cells, x)) stays,
        record {
          wait_linked = Linked-then w s had h.wait_linked;
          wait_ready =
              Ready-grown last w s had (omega (arith, Linked-bound w h.wait_linked)) h.wait_ready;
        },
      )

  then_or_try-Settles :
      (last : ℕ) (s : Stage) (r : Result A) (w : World A)
      → ((f : ℕ) (q : Result A) (p : ℕ) → call f q ≡ returned_future p → p < base)
      → Settles r last w
      → (n : ℕ) × (v : World A) × (then_or_try call last_throws false (notify_of s) last w
          ≡ ok (n, v))
        × Settles (after call last_throws base futures s r) n v
  unfolding results
  then_or_try-Settles last s r w below h =
      let w1 = grown last s w h.settled in
      let v = drive_all call last_throws (some last) w1 in
      let out =
        run_linked call last_throws base futures below (suc (weight w1)) r (s ∷ []) w1 v
          h.settled_base (Ready-grown last w s h.settled h.settled_base h.settled_ready)
          (Linked-one last w s h.settled) (drive_all-continue last w1) in
      (
        length w.cells,
        v,
        then_or_try-Has last w s h.settled,
        record {
          settled = out.final;
          settled_ready = out.ready;
          settled_base =
              omega (arith, h.settled_base, get_elem?_below w.cells last _ h.settled.found);
        },
      )

  then_all-Waits :
      (d last : ℕ) (post ss : List Stage) (w : World A)
      → base ≤ d
      → Waits d ss last w
      → (n : ℕ) × (v : World A) × (then_all post last w ≡ ok (n, v)) × Waits d (ss ++ post) n v
  unfolding then_all
  then_all-Waits d last [] ss w le h = (last, w, refl, rw (append-nil ss) h)
  then_all-Waits d last (s ∷ post) ss w le h =
      let (n, v, e, k) = then_or_try-Waits d last s ss w le h in
      let (m, u, f, l) = then_all-Waits d n post (ss ++ s ∷ []) v le k in
      (m, u, rw e f, rw⁻¹ (append_assoc ss (s ∷ []) post) l)

  then_all-Settles :
      (last : ℕ) (post : List Stage) (r : Result A) (w : World A)
      → ((f : ℕ) (q : Result A) (p : ℕ) → call f q ≡ returned_future p → p < base)
      → Settles r last w
      → (n : ℕ) × (v : World A) × (then_all post last w ≡ ok (n, v))
        × Settles (results call last_throws base futures post r) n v
  unfolding then_all results
  then_all-Settles last [] r w below h = (last, w, refl, h)
  then_all-Settles last (s ∷ post) r w below h =
      let (n, v, e, k) = then_or_try-Settles last s r w below h in
      let (m, u, f, l) =
        then_all-Settles n post (after call last_throws base futures s r) v below k in
      (m, u, rw e f, l)

  -- Calling the promise drives what waits.
  call_promise-Settles :
      (d n : ℕ) (ss : List Stage) (r : Result A) (w : World A)
      → ((f : ℕ) (q : Result A) (p : ℕ) → call f q ≡ returned_future p → p < base)
      → base ≤ d
      → Waits d ss n w
      → Settles
          (results call last_throws base futures ss r)
          n
          (call_promise call last_throws d r w).1
  unfolding call_promise
  call_promise-Settles d n ss r w below le h =
      let w1 = (fulfil_at d r w).1 in
      let out =
        run_linked call last_throws base futures below (suc (weight w1)) r ss w1
          (drive_all call last_throws (some d) w1) le
          (IsReady-fulfil call last_throws base futures w d r le h.wait_ready)
          (Linked-fulfil r w h.wait_linked) (drive_all-continue d w1) in
      record {
        settled = out.final;
        settled_ready = out.ready;
        settled_base = omega (arith, le, Linked-bound w h.wait_linked);
      }

  results-append :
      (pre post : List Stage) (r : Result A)
      → results call last_throws base futures (pre ++ post) r
        ≡ results call last_throws base futures post (results call last_throws base futures pre r)
  unfolding results
  results-append [] post r = refl
  results-append (s ∷ pre) post r =
      results-append pre post (after call last_throws base futures s r)

  -- `pre` is attached, then the promise is called, then `post` is attached.
  unfoldable pub attach : List Stage → List Stage → Result A → ℕ → World A → Result (ℕ × World A)
  unfolding then_all call_promise
  attach pre post r d w =
      then_all pre d w >>= λ x. then_all post x.0 (call_promise call last_throws d r x.1).1

  -- A chain of Then and Try without executors, on a state that waits, gives the same whenever its
  -- promise is called, before, between or after the calls that attach the chain: nothing throws,
  -- and the last future has the result that the functions give one after another (Then passes an
  -- exception by), where a future that a function returns counts as its result. Condition: these
  -- are states below `base` that have their results, and those of the chain are not below it.
  pub attach-results :
      (pre post : List Stage) (r : Result A) (d : ℕ) (w : World A)
      → ((f : ℕ) (q : Result A) (p : ℕ) → call f q ≡ returned_future p → p < base)
      → base ≤ d
      → Has d none none none w
      → Ready w
      → (n : ℕ) × (v : World A) × (attach pre post r d w ≡ ok (n, v))
        × Has n (some (results call last_throws base futures (pre ++ post) r)) none none v
  unfolding attach
  attach-results pre post r d w below le h ready =
      let start : Waits d [] d w = record { wait_linked = at_end h; wait_ready = ready } in
      let (n, v, e, k) = then_all-Waits d d pre [] w le start in
      let called = call_promise-Settles d n pre r v below le k in
      let (m, u, f, l) = then_all-Settles n post _ _ below called in
      rw (e, results-append pre post r) (m, u, f, l.settled)
