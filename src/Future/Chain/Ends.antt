-- ===== src/Future/Chain/Ends.antt =====
-- src/future.cpp: the loop of continueChain comes to an end on any heap of states, with one step of
-- fuel for each continuation that waits and one more for each that can return a future.
use rpcxx.Prelude.{
  ℕ, zero, suc, ◌+◌, ◌≤◌, ◌<◌, ◌≡◌, refl, inl, inr, Bool, true, false, Option, none, some, List, [],
  ◌∷◌, get_elem?, set, Option-cases, arith,
}
use rpcxx.Json.Access.{Result, ok, throw}
use rpcxx.Future.Cell.{
  Cell, Notify, notify_then, notify_try, notify_last, notify_forward, fulfil, fulfil_from,
}
use rpcxx.Future.Shared.Phase.{claim-ready}
use rpcxx.Future.Chain.{
  Returned, returned, returned_future, raised, World, put, fulfil_found, fulfil_at, fulfil_chain,
  splice, splice_found, claim_found, claim_at, hand_over, go_on, finish, set_result, notify,
  run_claimed, drive_claimed, continue_chain,
}

abbrev cost : Notify → ℕ
cost (notify_then f) = 2
cost (notify_try f) = 2
cost (notify_last f) = 1
cost notify_forward = 1

abbrev waits : Option Notify → ℕ
waits none = 0
waits (some n) = cost n

module _ {ℓ} {A : Type ℓ} where
  unfoldable pub weight_of : List (Cell A) → ℕ
  weight_of [] = 0
  weight_of (c ∷ cs) = waits c.notify + weight_of cs

  unfoldable pub weight : World A → ℕ
  unfolding weight_of
  weight w = weight_of w.cells

  weight_of-set :
      (cs : List (Cell A)) (d : ℕ) (c old : Cell A)
      → get_elem? cs d ≡ some old
      → weight_of (set cs d c) + waits old.notify ≡ weight_of cs + waits c.notify
  unfolding weight_of
  weight_of-set [] d c old h = cc
  weight_of-set (x ∷ cs) zero c old h = ground arith
  weight_of-set (x ∷ cs) (suc d) c old h = omega (arith, weight_of-set cs d c old h)

  fulfil-notify : (r : Result A) (c : Cell A) → (fulfil r c).1.notify ≡ c.notify
  unfolding fulfil fulfil_from
  fulfil-notify r c = ground arith

  fulfil_at-weight : (d : ℕ) (r : Result A) (w : World A) → weight (fulfil_at d r w).1 ≡ weight w
  unfolding fulfil_at fulfil_found put weight
  fulfil_at-weight d r w = elim (Option-cases (get_elem? w.cells d)) [
    | inl e ↦ rw e refl
    | inr (c, e) ↦
        rw e (ground (arith, weight_of-set w.cells d (fulfil r c).1 c e, fulfil-notify r c))
  ]

  fulfil_chain-weight :
      (d : Option ℕ) (r : Result A) (w : World A) → weight (fulfil_chain d r w) ≡ weight w
  unfolding fulfil_chain
  fulfil_chain-weight none r w = refl
  fulfil_chain-weight (some d) r w = fulfil_at-weight d r w

  splice-weight :
      (p : ℕ) (chain : Option ℕ) (w : World A) → weight (splice p chain w) ≤ weight w + 1
  unfolding splice splice_found put weight
  splice-weight p chain w = elim (Option-cases (get_elem? w.cells p)) [
    | inl e ↦ rw e (omega arith)
    | inr (c, e) ↦ rw e (
        omega (
          arith,
          weight_of-set w.cells p (record c { chain = chain; notify = some notify_forward }) c e,
        ))
  ]

  pub claim_found-some :
      (o : Option (Cell A)) (n : Notify) (r : Result A) (c : Cell A)
      → claim_found o ≡ some (n, r, c)
      → (old : Cell A) × (o ≡ some old)
        × (old.outcome ≡ some r)
        × (old.notify ≡ some n)
        × (c ≡ record old { notify = none })
  unfolding claim_found
  claim_found-some none n r c h = absurd cc
  claim_found-some (some old) n r c h =
      let got = claim-ready old c n r h in (old, refl, got.0, got.1, got.2)

  claim_at-weight :
      (d : ℕ) (n : Notify) (r : Result A) (c : Cell A) (w : World A)
      → claim_at d w ≡ some (n, r, c)
      → weight (put d c w) + cost n ≡ weight w
  unfolding claim_at put weight
  claim_at-weight d n r c w h =
      let (old, e, o, k, f) = claim_found-some (get_elem? w.cells d) n r c h in
      ground (arith, weight_of-set w.cells d c old e)

module _ {ℓ} {A : Type ℓ} (call : ℕ → Result A → Returned A)
    (last_throws : ℕ → Result A → Bool) where
  finish-weight :
      (o : Returned A) (chain : Option ℕ) (w : World A)
      → weight (finish call last_throws o chain w).1 ≤ weight w + 1
  unfolding finish
  finish-weight (returned a) chain w = omega (arith, fulfil_chain-weight chain (ok a) w)
  finish-weight (raised e) chain w = omega (arith, fulfil_chain-weight chain (throw e) w)
  finish-weight (returned_future p) chain w = splice-weight p chain w

  notify-weight :
      (n : Notify) (chain : Option ℕ) (r : Result A) (w : World A)
      → weight (notify call last_throws n chain r w).1 < weight w + cost n
  unfolding notify set_result weight
  notify-weight (notify_then f) chain (ok a) w =
      omega (arith, finish-weight (call f (ok a)) chain w)
  notify-weight (notify_then f) chain (throw e) w =
      omega (arith, fulfil_chain-weight chain (throw e) w)
  notify-weight (notify_try f) chain r w = omega (arith, finish-weight (call f r) chain w)
  notify-weight (notify_last f) chain r w = omega arith
  notify-weight notify_forward chain r w = omega (arith, fulfil_chain-weight chain r w)

  -- The loop gives a world whose waiting continuations cost at most `k`.
  abbrev Gives : Option (World A) → ℕ → Type ℓ
  Gives o k = (v : World A) × (o ≡ some v) × (weight v ≤ k)

  abbrev Ends : ℕ → Type ℓ
  Ends fuel =
      (d : Option ℕ) (w : World A)
      → weight w < fuel
      → Gives (continue_chain call last_throws fuel d w) (weight w)

  run_claimed-Ends :
      (exec : Bool) (fuel d : ℕ) (n : Notify) (r : Result A) (c : Cell A) (w : World A)
      → Ends fuel
      → weight w + cost n < suc fuel
      → Gives
          (run_claimed call last_throws exec
            (λ e v. continue_chain call last_throws fuel e v)
            d
            n
            r
            c
            w)
          (weight w + cost n)
  unfolding run_claimed go_on
  run_claimed-Ends true fuel d n r c w ih enough = (_, refl, unfold weight hand_over in omega arith)
  run_claimed-Ends false fuel d n r c w ih enough =
      let told = notify call last_throws n c.chain r w in
      let less = notify-weight n c.chain r w in
      let (v, k, first) = ih told.0 told.1 (omega (arith, less)) in
      let (u, l, second) = ih c.chain v (omega (arith, less)) in rw k (u, l, omega (arith, less))

  drive_claimed-Ends :
      (fuel d : ℕ) (w : World A) (o : Option (Notify × Result A × Cell A))
      → Ends fuel
      → claim_at d w ≡ o
      → weight w < suc fuel
      → Gives
          (drive_claimed call last_throws (λ e v. continue_chain call last_throws fuel e v) d o w)
          (weight w)
  unfolding drive_claimed
  drive_claimed-Ends fuel d w none ih h enough = (w, refl, omega arith)
  drive_claimed-Ends fuel d w (some (n, r, c)) ih h enough =
      let paid = claim_at-weight d n r c w h in
      let (v, k, less) =
        run_claimed-Ends c.exec fuel d n r c (put d c w) ih (omega (arith, paid)) in
      (v, k, omega (arith, paid))

  -- The loop of continueChain comes to an end from every state of every heap, also when chains
  -- lead in a circle: with more fuel than the continuations that wait cost (two for each that can
  -- return a future, one for each other), it gives a world, and those that wait there cost no more.
  pub continue_chain-ends :
      (fuel : ℕ) (d : Option ℕ) (w : World A)
      → weight w < fuel
      → (v : World A) × (continue_chain call last_throws fuel d w ≡ some v) × (weight v ≤ weight w)
  unfolding continue_chain
  continue_chain-ends fuel none w h = (w, refl, omega arith)
  continue_chain-ends zero (some d) w h = absurd (omega arith)
  continue_chain-ends (suc fuel) (some d) w h =
      drive_claimed-Ends fuel d w (claim_at d w) (λ e v less. continue_chain-ends fuel e v less)
        refl h
