-- ===== src/Future/Install/Delivered.antt =====
-- include/future/future.hpp and src/future.cpp: what one stage of a chain leaves in the
-- next state.
use mathlib.Core.Option.{some-injective}
use rpcxx.Prelude.{
  ℕ, zero, suc, ◌≤◌, ◌<◌, ◌≡◌, ◌≢◌, refl, sym, ap, ◌∙◌, Bool, true, false, Option, none, some, List,
  [], ◌∷◌, get_elem?, get_elem?-set_ne, length, length-set, Bool-cases, ==_iff, ◌==◌, ◌⊎◌, inl, inr,
  arith,
}
use rpcxx.Json.Access.{Result, ok, throw}
use rpcxx.Future.Cell.{Cell, notify_forward, fulfil}
use rpcxx.Future.Chain.{
  Returned, returned, returned_future, raised, World, put, fulfil_found, fulfil_at, fulfil_chain,
  splice, splice_found, go_on, finish, set_result, notify, continue_chain,
}
use rpcxx.Future.Install.Linked.{
  cell_of, Has, Has-put, Has-put_ne, Stage, notify_of, Linked, Linked-put, Linked-fulfil,
  continue_chain-claimed,
}

-- `base` parts the numbers of the states: those of the chain are not below it, and a future that a
-- function returns is one below it, which has the result that `futures` tells.
module _ {ℓ} {A : Type ℓ} (call : ℕ → Result A → Returned A) (last_throws : ℕ → Result A → Bool)
    (base : ℕ) (futures : ℕ → Result A) where
  unfoldable pub result_of : Returned A → Result A
  result_of (returned a) = ok a
  result_of (raised e) = throw e
  result_of (returned_future p) = futures p

  -- Then passes an exception by the function, Try gives it to the function.
  unfoldable pub after : Stage → Result A → Result A
  unfolding result_of
  after (true, f) (throw e) = throw e
  after (true, f) (ok a) = result_of (call f (ok a))
  after (false, f) r = result_of (call f r)

  unfoldable pub results : List Stage → Result A → Result A
  unfolding after
  results [] r = r
  results (s ∷ ss) r = results ss (after s r)

  unfoldable pub IsReady : World A → Type ℓ
  IsReady w = (p : ℕ) → p < base → (ch : Option ℕ) × Has p (some (futures p)) none ch w

  pub IsReady-put : (w : World A) (e : ℕ) (c : Cell A) → base ≤ e → IsReady w → IsReady (put e c w)
  unfolding IsReady
  IsReady-put w e c le h p lt = ((h p lt).0, Has-put_ne p e c w (λ q. omega arith) (h p lt).1)

  IsReady-put_self :
      (w : World A) (ch : Option ℕ) (t : Bool) (q p : ℕ) (old : Cell A)
      → get_elem? w.cells p ≡ some old
      → ((e : ℕ) → e < base → e ≢ p → (ch : Option ℕ) × Has e (some (futures e)) none ch w)
      → IsReady (put p (cell_of (some (futures p)) none ch t q) w)
  unfolding IsReady
  IsReady-put_self w ch t q p old e h x lt = elim (Bool-cases (x == p)) [
    | inl same ↦ let eq = (==_iff x p).0 same in rw eq (ch, Has-put p t q w old e)
    | inr ne ↦
        let other = h x lt (λ z. ground arith) in
        (other.0, Has-put_ne x p _ w (λ z. ground arith) other.1)
  ]

  -- What a drive from state `d` leaves of the world.
  unfoldable pub Same : ℕ → World A → World A → Type ℓ
  Same d w v =
      (length v.cells ≡ length w.cells)
      × ((e : ℕ) → base ≤ e → e < d → get_elem? v.cells e ≡ get_elem? w.cells e)

  pub Same-put : (w : World A) (d e : ℕ) (c : Cell A) → (e < base) ⊎ (d ≤ e) → Same d w (put e c w)
  unfolding Same put
  Same-put w d e c far =
      (length-set w.cells e c, λ x le lt. get_elem?-set_ne w.cells c (apart x le lt far))
    where
      apart : (x : ℕ) → base ≤ x → x < d → (e < base) ⊎ (d ≤ e) → e ≢ x
      apart x le lt (inl h) z = omega arith
      apart x le lt (inr h) z = omega arith

  pub Same-trans : (d e : ℕ) (u v w : World A) → d ≤ e → Same d u v → Same e v w → Same d u w
  unfolding Same
  Same-trans d e u v w le a b = (b.0 ∙ a.0, λ x lo hi. b.1 x lo (omega arith) ∙ a.1 x lo hi)

  Same-fulfil : (w : World A) (d : ℕ) (r : Result A) → Same d w (fulfil_at d r w).1
  unfolding fulfil_at fulfil_found Same
  Same-fulfil w d r = by_found (get_elem? w.cells d)
    where
      by_found : (o : Option (Cell A)) → Same d w (fulfil_found o d r w).1
      by_found none = (refl, λ x le lt. refl)
      by_found (some c) = Same-put w d d (fulfil r c).1 (inr (omega arith))

  pub IsReady-fulfil :
      (w : World A) (d : ℕ) (r : Result A) → base ≤ d → IsReady w → IsReady (fulfil_at d r w).1
  unfolding fulfil_at fulfil_found
  IsReady-fulfil w d r le h = by_found (get_elem? w.cells d)
    where
      by_found : (o : Option (Cell A)) → IsReady (fulfil_found o d r w).1
      by_found none = h
      by_found (some c) = IsReady-put w d (fulfil r c).1 le h

  -- The next state has the result that the stage gives, and is driven: `v` is the world with it, or
  -- the world that driving it gave.
  pub record Delivers (last next : ℕ) (r : Result A) (ss : List Stage) (w v : World A)
      : Type ℓ where
    pub mid : World A
    pub mid_linked : Linked last mid (some r) ss next
    pub mid_ready : IsReady mid
    pub mid_same : Same next w mid
    pub driven :
        (mid ≡ v) ⊎ ((fuel : ℕ) × (continue_chain call last_throws fuel (some next) mid ≡ some v))

  deliver :
      {last next : ℕ} {ss : List Stage} (fuel : ℕ) (r : Result A) (w v : World A)
      → base ≤ next
      → IsReady w
      → Linked last w none ss next
      → continue_chain call last_throws fuel none (fulfil_at next r w).1 ≡ some v
      → Delivers last next r ss w v
  unfolding continue_chain
  deliver {next = next} fuel r w v le h l e = record {
    mid = _;
    mid_linked = Linked-fulfil r w l;
    mid_ready = IsReady-fulfil w next r le h;
    mid_same = Same-fulfil w next r;
    driven = inl (some-injective _ v e);
  }

  splice-put :
      (p : ℕ) {r : Result A} {t : Bool} {q : ℕ} {old_chain : Option ℕ} (w : World A)
      (chain : Option ℕ)
      → get_elem? w.cells p ≡ some (cell_of (some r) none old_chain t q)
      → splice p chain w ≡ put p (cell_of (some r) (some notify_forward) chain t q) w
  unfolding splice splice_found
  splice-put p w chain e = rw e refl

  -- A future that was returned forwards its result when it is driven.
  deliver_forward :
      {last next p : ℕ} {ss : List Stage} (fuel : ℕ) (w w1 v : World A)
      → p < base
      → base ≤ next
      → ((e : ℕ) → e < base → e ≢ p → (ch : Option ℕ) × Has e (some (futures e)) none ch w1)
      → Linked last w1 none ss next
      → Same next w w1
      → Has p (some (futures p)) (some notify_forward) (some next) w1
      → continue_chain call last_throws (suc fuel) (some p) w1 ≡ some v
      → Delivers last next (futures p) ss w v
  deliver_forward {next = next} {p = p} fuel w w1 v lt le rest l same h e =
      let c = cell_of (some (futures p)) none (some next) h.taken h.owners in
      let w2 = put p c w1 in
      let ready = IsReady-put_self w1 (some next) h.taken h.owners p _ h.found rest in
      record {
        mid = (fulfil_at next (futures p) w2).1;
        mid_linked = Linked-fulfil (futures p) w2 (Linked-put w1 p c (omega arith) l);
        mid_ready = IsReady-fulfil w2 next (futures p) le ready;
        mid_same =
            Same-trans next next w w2 _ (omega arith)
              (Same-trans next next w w1 w2 (omega arith) same (Same-put w1 next p c (inl lt)))
              (Same-fulfil w2 next (futures p));
        driven = inr (
          fuel,
          (unfold notify fulfil_chain go_on continue_chain in
              sym (continue_chain-claimed call last_throws fuel w1 h) ∙ e),
        );
      }

  deliver_spliced :
      {last next p : ℕ} {ss : List Stage} (fuel : ℕ) (w v : World A)
      → p < base
      → base ≤ next
      → IsReady w
      → Linked last w none ss next
      → continue_chain call last_throws fuel (some p) (splice p (some next) w) ≡ some v
      → Delivers last next (futures p) ss w v
  unfolding continue_chain splice splice_found IsReady
  deliver_spliced zero w v lt le h l e = absurd cc
  deliver_spliced {last = last} {next = next} {p = p} {ss = ss} (suc fuel) w v lt le h l e =
      let had = (h p lt).1 in
      let c : Cell A =
        cell_of (some (futures p)) (some notify_forward) (some next) had.taken had.owners in
      deliver_forward fuel w (put p c w) v lt le
        (λ x lx ne. let other = h x lx in (other.0, Has-put_ne x p c w (λ z. ne (sym z)) other.1))
        (Linked-put w p c (omega arith) l) (Same-put w next p c (inl lt))
        (Has-put p had.taken had.owners w _ had.found)
        (ap (λ x. continue_chain call last_throws (suc fuel) (some p) x)
            (sym (splice-put p w (some next) had.found))
          ∙ e)

  deliver_finish :
      {last next : ℕ} {ss : List Stage} (fuel : ℕ) (o : Returned A) (w v : World A)
      → ((p : ℕ) → o ≡ returned_future p → p < base)
      → base ≤ next
      → IsReady w
      → Linked last w none ss next
      → continue_chain call last_throws fuel
          (finish call last_throws o (some next) w).0
          (finish call last_throws o (some next) w).1
        ≡ some v
      → Delivers last next (result_of o) ss w v
  unfolding finish fulfil_chain result_of
  deliver_finish fuel (returned a) w v below le h l e = deliver fuel (ok a) w v le h l e
  deliver_finish fuel (raised x) w v below le h l e = deliver fuel (throw x) w v le h l e
  deliver_finish fuel (returned_future p) w v below le h l e =
      deliver_spliced fuel w v (below p refl) le h l e

  pub deliver_stage :
      {last next : ℕ} {ss : List Stage} (fuel : ℕ) (s : Stage) (r : Result A) (w v : World A)
      → ((f : ℕ) (q : Result A) (p : ℕ) → call f q ≡ returned_future p → p < base)
      → base ≤ next
      → IsReady w
      → Linked last w none ss next
      → continue_chain call last_throws fuel
          (notify call last_throws (notify_of s) (some next) r w).0
          (notify call last_throws (notify_of s) (some next) r w).1
        ≡ some v
      → Delivers last next (after s r) ss w v
  unfolding notify set_result after fulfil_chain
  deliver_stage fuel (true, f) (throw x) w v below le h l e = deliver fuel (throw x) w v le h l e
  deliver_stage fuel (true, f) (ok a) w v below le h l e =
      deliver_finish fuel (call f (ok a)) w v (below f (ok a)) le h l e
  deliver_stage fuel (false, f) r w v below le h l e =
      deliver_finish fuel (call f r) w v (below f r) le h l e
