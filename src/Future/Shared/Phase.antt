-- ===== src/Future/Shared/Phase.antt =====
-- include/future/future.hpp and src/future.cpp: what a state is between the sections of its
-- threads, and what each section leaves.
use rpcxx.Prelude.{
  ℕ, ◌+◌, ◌-◌, ◌≤◌, ◌≡◌, ◌≢◌, refl, sym, ap, ◌∙◌, ◌⊎◌, inl, inr, Bool, true, false, Option, none,
  some, [], ◌∷◌, ◌++◌, ◌==◌, Bool-cases, Option-cases, arith,
}
use rpcxx.Json.Access.{Result, ok}
use rpcxx.Future.Cell.{
  Cell, Notify, fulfil, fulfil_from, publish, claim, claim_from, get_future, is_valid, deref,
}
use rpcxx.Future.Shared.{Shared, call_claimed, resolve, drop_promise}

-- Nothing is installed; a continuation waits, and if there is a result a thread is on the way to
-- call it; or the continuation was called with the result.
pub data Phase {ℓ} {A : Type ℓ} (s : Shared A) : Type ℓ where
  idle :
      s.cell.notify ≡ none → s.calls ≡ [] → (s.held ≡ true → s.cell.future_taken ≡ true) → Phase s
  waiting :
      (n : Notify)
      → s.cell.notify ≡ some n
      → s.calls ≡ []
      → s.held ≡ false
      → s.cell.future_taken ≡ true
      → (s.cell.outcome ≢ none → 1 ≤ s.drives)
      → Phase s
  called :
      (n : Notify) (r : Result A)
      → s.cell.notify ≡ none
      → s.calls ≡ (n, r) ∷ []
      → s.cell.outcome ≡ some r
      → s.held ≡ false
      → s.cell.future_taken ≡ true
      → Phase s

unfoldable pub IsSound {ℓ} : {A : Type ℓ} → Shared A → Type ℓ
IsSound s = Phase s × (s.cell.promises ≡ 0 → s.cell.outcome ≢ none)

-- What a fulfilment leaves of a state.
pub record Keeps {ℓ} {A : Type ℓ} (c d : Cell A) : Type ℓ where
  pub same_notify : d.notify ≡ c.notify
  pub same_taken : d.future_taken ≡ c.future_taken
  pub same_result : (r : Result A) → c.outcome ≡ some r → d.outcome ≡ some r

module _ {ℓ} {A : Type ℓ} where
  fulfil-Keeps : (r : Result A) (c : Cell A) → Keeps c (fulfil r c).1
  unfolding fulfil fulfil_from
  fulfil-Keeps r c = elim (Option-cases c.outcome) [
    | inl e ↦ rw e (record { same_notify = refl; same_taken = refl; same_result = λ q h. cc })
    | inr (o, e) ↦ rw e (record { same_notify = refl; same_taken = refl; same_result = λ q h. h })
  ]

  fulfil-settles : (r : Result A) (c : Cell A) → (fulfil r c).1.outcome ≢ none
  unfolding fulfil fulfil_from
  fulfil-settles r c = elim (Option-cases c.outcome) [
    | inl e ↦ rw e (λ h. cc)
    | inr (o, e) ↦ rw e (λ h. cc)
  ]

  fulfil-promises : (r : Result A) (c : Cell A) → (fulfil r c).1.promises ≡ c.promises
  unfolding fulfil fulfil_from
  fulfil-promises r c = elim (Option-cases c.outcome) [ inl e ↦ rw e refl | inr (o, e) ↦ rw e refl ]

  -- A thread that fulfils a state goes on to drive it.
  Phase-driven :
      (s : Shared A) (d : Cell A)
      → Keeps s.cell d
      → Phase s
      → Phase (record s { cell = d; drives = s.drives + 1 })
  Phase-driven s d k (idle n c h) = idle (k.same_notify ∙ n) c (λ e. k.same_taken ∙ h e)
  Phase-driven s d k (waiting n e c h t w) =
      waiting n (k.same_notify ∙ e) c h (k.same_taken ∙ t) (λ o. omega arith)
  Phase-driven s d k (called n r e c o h t) =
      called n r (k.same_notify ∙ e) c (k.same_result r o) h (k.same_taken ∙ t)

  pub resolve-IsSound : (r : Result A) (s : Shared A) → IsSound s → IsSound (resolve r s)
  unfolding resolve IsSound
  resolve-IsSound r s h =
      (Phase-driven s (fulfil r s.cell).1 (fulfil-Keeps r s.cell) h.0, λ e. fulfil-settles r s.cell)

  pub Phase-cell :
      (s : Shared A) (d : Cell A)
      → d.notify ≡ s.cell.notify
      → d.outcome ≡ s.cell.outcome
      → (s.cell.future_taken ≡ true → d.future_taken ≡ true)
      → Phase s
      → Phase (record s { cell = d })
  Phase-cell s d n o t (idle e c h) = idle (n ∙ e) c (λ k. t (h k))
  Phase-cell s d n o t (waiting m e c h k w) = waiting m (n ∙ e) c h (t k) (λ q. w (λ z. q (o ∙ z)))
  Phase-cell s d n o t (called m r e c q h k) = called m r (n ∙ e) c (o ∙ q) h (t k)

  drop_last-IsSound : (s : Shared A) → s.cell.promises ≡ 1 → IsSound s → IsSound (drop_promise s)
  unfolding drop_promise deref is_valid IsSound fulfil fulfil_from
  drop_last-IsSound s one h = elim (Option-cases s.cell.outcome) [
    | inl e ↦
        rw (one, e)
          (
            Phase-driven s _
                (record { same_notify = refl; same_taken = refl; same_result = λ q z. cc }) h.0,
            λ z. λ k. cc,
          )
    | inr (o, e) ↦ rw (one, e) (Phase-cell s _ refl (sym e) (λ t. t) h.0, λ z. λ k. cc)
  ]

  pub drop_promise-IsSound :
      (s : Shared A) → 1 ≤ s.cell.promises → IsSound s → IsSound (drop_promise s)
  unfolding drop_promise deref IsSound
  drop_promise-IsSound s some_left h = elim (Bool-cases (s.cell.promises == 1)) [
    | inl e ↦ drop_last-IsSound s (ground arith) h
    | inr e ↦ rw e (Phase-cell s _ refl refl (λ t. t) h.0, λ z. absurd (ground arith))
  ]

  pub get_future-taken :
      (c d : Cell A)
      → get_future c ≡ ok d
      → (c.future_taken ≡ false) × (d ≡ record c { future_taken = true })
  unfolding get_future
  get_future-taken c d h = ground arith

  pub publish-free :
      (exec : Bool) (n : Notify) (chain : Option ℕ) (c d : Cell A)
      → publish exec n chain c ≡ ok d
      → (c.notify ≡ none) × (d ≡ record c { exec = exec; chain = chain; notify = some n })
  unfolding publish
  publish-free exec n chain c d h = ground arith

  pub claim-ready :
      (c d : Cell A) (n : Notify) (r : Result A)
      → claim c ≡ some (n, r, d)
      → (c.outcome ≡ some r) × (c.notify ≡ some n) × (d ≡ record c { notify = none })
  unfolding claim claim_from
  claim-ready c d n r h = ground arith

  claim-none : (c : Cell A) → claim c ≡ none → (c.outcome ≡ none) ⊎ (c.notify ≡ none)
  unfolding claim claim_from
  claim-none c h = ground arith

  pub take-IsSound :
      (s : Shared A) (c : Cell A)
      → 1 ≤ s.cell.promises
      → get_future s.cell ≡ ok c
      → IsSound s
      → IsSound (record s { cell = c; held = true })
  unfolding IsSound
  take-IsSound s c p e h =
      let got = get_future-taken s.cell c e in (by_phase h.0, λ z. absurd (ground (arith, got.1)))
    where
      by_phase : Phase s → Phase (record s { cell = c; held = true })
      by_phase (idle n k t) =
          let got = get_future-taken s.cell c e in
          idle (ap (λ d. d.notify) got.1 ∙ n) k (λ z. ap (λ d. d.future_taken) got.1)
      by_phase (waiting n m k d t w) = absurd (ground (arith, get_future-taken s.cell c e))
      by_phase (called n r m k o d t) = absurd (ground (arith, get_future-taken s.cell c e))

  pub install-IsSound :
      (exec : Bool) (n : Notify) (chain : Option ℕ) (s : Shared A) (c : Cell A)
      → s.held ≡ true
      → publish exec n chain s.cell ≡ ok c
      → IsSound s
      → IsSound (record s { cell = c; held = false; drives = s.drives + 1 })
  unfolding IsSound
  install-IsSound exec n chain s c held e h =
      let free = publish-free exec n chain s.cell c e in
      (by_phase h.0, λ z. rw free.1 (h.1 (ap (λ d. d.promises) (sym free.1) ∙ z)))
    where
      by_phase : Phase s → Phase (record s { cell = c; held = false; drives = s.drives + 1 })
      by_phase (idle m k t) =
          let free = publish-free exec n chain s.cell c e in
          waiting n (ap (λ d. d.notify) free.1) k refl (ap (λ d. d.future_taken) free.1 ∙ t held)
            (λ z. omega arith)
      by_phase (waiting m q k d t w) = absurd (ground arith)
      by_phase (called m r q k o d t) = absurd (ground arith)

  pub claimed-IsSound :
      (s : Shared A) (o : Option (Notify × Result A × Cell A))
      → claim s.cell ≡ o
      → IsSound s
      → IsSound (call_claimed o s)
  unfolding IsSound call_claimed
  claimed-IsSound s none e h = (by_phase h.0, h.1)
    where
      by_phase : Phase s → Phase (record s { drives = s.drives - 1 })
      by_phase (idle n k t) = idle n k t
      by_phase (waiting n m k d t w) =
          waiting n m k d t (λ z. absurd (ground (arith, claim-none s.cell e)))
      by_phase (called n r m k o d t) = called n r m k o d t
  claimed-IsSound s (some (n, r, c)) e h =
      let got = claim-ready s.cell c n r e in (by_phase h.0, λ z. λ k. absurd (ground (arith, got)))
    where
      by_phase : Phase s → Phase (call_claimed (some (n, r, c)) s)
      by_phase (idle m k t) = absurd (ground (arith, claim-ready s.cell c n r e))
      by_phase (waiting m q k d t w) =
          let got = claim-ready s.cell c n r e in
          called n r (ap (λ x. x.notify) got.2) (ap (λ x. x ++ (n, r) ∷ []) k)
            (ap (λ x. x.outcome) got.2 ∙ got.0) d (ap (λ x. x.future_taken) got.2 ∙ t)
      by_phase (called m q v k o d t) = absurd (ground (arith, claim-ready s.cell c n r e))
