-- ===== src/Future/Install/Results.antt =====
-- include/future/future.hpp and src/future.cpp: what comes out at the end of a chain of
-- continuations.
use rpcxx.Prelude.{
  ℕ, zero, suc, ◌≤◌, ◌<◌, ◌≡◌, refl, sym, ◌∙◌, Bool, Option, none, some, List, [], ◌∷◌, ◌⊎◌, inl,
  inr, arith,
}
use rpcxx.Json.Access.{Result}
use rpcxx.Future.Chain.{Returned, returned_future, World, put, go_on, notify, continue_chain}
use rpcxx.Future.Install.Linked.{
  cell_of, Has, Has-put, Stage, notify_of, Linked, at_end, linked, Linked-put,
  continue_chain-claimed, continue_chain-done,
}
use rpcxx.Future.Install.Delivered.{
  results, after, IsReady, IsReady-put, Same, Same-put, Same-trans, Delivers, deliver_stage,
}

module _ {ℓ} {A : Type ℓ} (call : ℕ → Result A → Returned A) (last_throws : ℕ → Result A → Bool)
    (base : ℕ) (futures : ℕ → Result A) where
  abbrev Ready : World A → Type ℓ
  Ready w = IsReady call last_throws base futures w

  abbrev Kept : ℕ → World A → World A → Type ℓ
  Kept d w v = Same call last_throws base futures d w v

  -- What driving the chain from state `d` gives.
  pub record Outcome (last d : ℕ) (r : Result A) (w v : World A) : Type ℓ where
    pub ready : Ready v
    pub final : Has last (some r) none none v
    pub head_chain : Option ℕ
    pub head_result : Option (Result A)
    pub head : Has d head_result none head_chain v
    pub same : Kept d w v

  Outcome-linked :
      {last d next : ℕ} {r q : Result A} (w w1 mid v : World A)
      → base ≤ d
      → d < next
      → Kept d w w1
      → Kept next w1 mid
      → Has d (some r) none (some next) w1
      → Outcome last next q mid v
      → Outcome last d q w v
  Outcome-linked {d = d} {next = next} {r = r} w w1 mid v le lt a b h o =
      let kept : Kept next w1 v =
        Same-trans call last_throws base futures next next w1 mid v (omega arith) b o.same in
      record {
        ready = o.ready;
        final = o.final;
        head_chain = some next;
        head_result = some r;
        head =
            unfold Same in
            record { taken = h.taken; owners = h.owners; found = kept.1 d le lt ∙ h.found };
        same = Same-trans call last_throws base futures d next w w1 v (omega arith) a kept;
      }

  go_on-some :
      (loop : Option ℕ → World A → Option (World A)) (ch : Option ℕ) (o : Option (World A))
      (v : World A)
      → go_on loop ch o ≡ some v
      → (u : World A) × (o ≡ some u) × (loop ch u ≡ some v)
  unfolding go_on
  go_on-some loop ch none v e = absurd cc
  go_on-some loop ch (some u) v e = (u, refl, e)

  abbrev Runs : ℕ → ℕ → List Stage → Result A → Type ℓ
  Runs last d ss r =
      (fuel : ℕ) (w v : World A)
      → Ready w
      → Linked last w (some r) ss d
      → continue_chain call last_throws fuel (some d) w ≡ some v
      → Outcome last d (results call last_throws base futures ss r) w v

  -- The state after a stage has been driven once or twice, which makes no difference.
  run_delivered :
      {last next : ℕ} {q : Result A} {ss : List Stage} (fuel : ℕ) (w u v : World A)
      → Runs last next ss q
      → (del : Delivers call last_throws base futures last next q ss w u)
      → continue_chain call last_throws fuel (some next) u ≡ some v
      → Outcome last next (results call last_throws base futures ss q) del.mid v
  run_delivered {last = last} {next = next} {q = q} {ss = ss} fuel w u v runs del e =
      by_driven del.driven
    where
      by_driven :
          (del.mid ≡ u)
            ⊎ ((n : ℕ) × (continue_chain call last_throws n (some next) del.mid ≡ some u))
          → Outcome last next (results call last_throws base futures ss q) del.mid v
      by_driven (inl same) = runs fuel del.mid v del.mid_ready del.mid_linked (rw same e)
      by_driven (inr (n, k)) =
          let out = runs n del.mid u del.mid_ready del.mid_linked k in
          rw⁻¹ (continue_chain-done call last_throws fuel u v out.head e) out

  pub run_linked :
      ((f : ℕ) (q : Result A) (p : ℕ) → call f q ≡ returned_future p → p < base)
      → (fuel : ℕ) (r : Result A) (ss : List Stage) {last d : ℕ} (w v : World A) → base ≤ d
      → Ready w
      → Linked last w (some r) ss d
      → continue_chain call last_throws fuel (some d) w ≡ some v
      → Outcome last d (results call last_throws base futures ss r) w v
  unfolding results
  run_linked below fuel r [] w v le h (at_end f) e =
      let stays = continue_chain-done call last_throws fuel w v f e in
      rw⁻¹ stays (record {
        ready = h;
        final = f;
        head_chain = none;
        head_result = some r;
        head = f;
        same = unfold Same in (refl, λ x lo hi. refl);
      })
  run_linked below zero r (s ∷ ss) w v le h (linked b f l) e = unfold continue_chain in absurd cc
  run_linked below (suc fuel) r (s ∷ ss) {last = last} {d = d} w v le h (linked {next = next} b f l)
        e =
      let c = cell_of (some r) none (some next) f.taken f.owners in
      let w1 = put d c w in
      let told = notify call last_throws (notify_of s) (some next) r w1 in
      let q = after call last_throws base futures s r in
      let (u, k, rest) =
        go_on-some (λ x y. continue_chain call last_throws fuel x y) (some next)
          (continue_chain call last_throws fuel told.0 told.1) v
          (sym (continue_chain-claimed call last_throws fuel w f) ∙ e) in
      let del =
        deliver_stage call last_throws base futures fuel s r w1 u below (omega arith)
          (IsReady-put call last_throws base futures w d c le h) (Linked-put w d c b l) k in
      let runs : Runs last next ss q =
        λ n x y m o z. run_linked below n q ss x y (omega arith) m o z in
      Outcome-linked w w1 del.mid v le b
        (Same-put call last_throws base futures w d d c (inr (omega arith))) del.mid_same
        (Has-put d f.taken f.owners w _ f.found) (run_delivered fuel w1 u v runs del rest)
