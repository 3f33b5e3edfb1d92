-- ===== src/Future/Install/Linked.antt =====
-- include/future/future.hpp and src/future.cpp: states that are linked to a chain of
-- continuations, and what the loop of continueChain does at one of them.
use rpcxx.Prelude.{
  ℕ, zero, suc, ◌<◌, ◌≡◌, ◌≢◌, refl, sym, ◌∙◌, Bool, true, false, Option, none, some, List, [], ◌∷◌,
  get_elem?, get_elem?-set_self, get_elem?-set_ne, get_elem?_below, arith,
}
use mathlib.Core.Option.{some-injective}
use rpcxx.Json.Access.{Result}
use rpcxx.Future.Cell.{
  Cell, Notify, notify_then, notify_try, fulfil, fulfil_from, claim, claim_from,
}
use rpcxx.Future.Chain.{
  Returned, World, put, fulfil_found, fulfil_at, claim_found, claim_at, go_on, notify, run_claimed,
  drive_claimed, continue_chain,
}

module _ {ℓ} {A : Type ℓ} where
  abbrev pub cell_of : Option (Result A) → Option Notify → Option ℕ → Bool → ℕ → Cell A
  cell_of o n ch t p = record {
    outcome = o;
    notify = n;
    chain = ch;
    exec = false;
    future_taken = t;
    promises = p;
  }

-- The state with this number has this result, this continuation and this chain, and no executor.
pub record Has {ℓ} {A : Type ℓ} (d : ℕ) (o : Option (Result A)) (n : Option Notify) (ch : Option ℕ)
    (w : World A) : Type ℓ where
  pub taken : Bool
  pub owners : ℕ
  pub found : get_elem? w.cells d ≡ some (cell_of o n ch taken owners)

module _ {ℓ} {A : Type ℓ} {o : Option (Result A)} {n : Option Notify} {ch : Option ℕ} where
  pub Has-put :
      (d : ℕ) (t : Bool) (p : ℕ) (w : World A) (old : Cell A)
      → get_elem? w.cells d ≡ some old
      → Has d o n ch (put d (cell_of o n ch t p) w)
  unfolding put
  Has-put d t p w old e = record {
    taken = t;
    owners = p;
    found = get_elem?-set_self w.cells d _ (get_elem?_below w.cells d old e);
  }

  pub Has-put_ne :
      (d e : ℕ) (c : Cell A) (w : World A) → e ≢ d → Has d o n ch w → Has d o n ch (put e c w)
  unfolding put
  Has-put_ne d e c w ne h = record {
    taken = h.taken;
    owners = h.owners;
    found = get_elem?-set_ne w.cells c ne ∙ h.found;
  }

-- The stages of a chain: Then (true) or Try, and the number of the function.
abbrev pub Stage : Type 0
Stage = Bool × ℕ

abbrev pub notify_of : Stage → Notify
notify_of (true, f) = notify_then f
notify_of (false, f) = notify_try f

module _ {ℓ} {A : Type ℓ} where
  -- From state `d` with result `o` the stages lead over states that wait to the state `last`.
  pub data Linked (last : ℕ) (w : World A) : Option (Result A) → List Stage → ℕ → Type ℓ where
    at_end : {o : Option (Result A)} → Has last o none none w → Linked last w o [] last
    linked :
        {o : Option (Result A)} {s : Stage} {ss : List Stage} {d next : ℕ}
        → d < next
        → Has d o (some (notify_of s)) (some next) w
        → Linked last w none ss next
        → Linked last w o (s ∷ ss) d

  pub Linked-put :
      {last : ℕ} (w : World A) {o : Option (Result A)} {ss : List Stage} {d : ℕ} (e : ℕ)
      (c : Cell A)
      → e < d
      → Linked last w o ss d
      → Linked last (put e c w) o ss d
  Linked-put w {d = d} e c lt (at_end h) = at_end (Has-put_ne d e c w (λ q. omega arith) h)
  Linked-put w {d = d} e c lt (linked b h l) =
      linked b (Has-put_ne d e c w (λ q. omega arith) h) (Linked-put w e c (omega arith) l)

  pub Linked-fulfil :
      {last : ℕ} {ss : List Stage} {d : ℕ} (r : Result A) (w : World A)
      → Linked last w none ss d
      → Linked last (fulfil_at d r w).1 (some r) ss d
  unfolding fulfil_at fulfil_found fulfil fulfil_from
  Linked-fulfil {d = d} r w (at_end h) =
      rw h.found (at_end (Has-put d h.taken h.owners w _ h.found))
  Linked-fulfil {d = d} r w (linked b h l) =
      rw h.found (linked b (Has-put d h.taken h.owners w _ h.found) (Linked-put w d _ b l))

module _ {ℓ} {A : Type ℓ} (call : ℕ → Result A → Returned A)
    (last_throws : ℕ → Result A → Bool) where
  pub continue_chain-claimed :
      {d : ℕ} {r : Result A} {n : Notify} {ch : Option ℕ} (fuel : ℕ) (w : World A)
      → (h : Has d (some r) (some n) ch w)
      → continue_chain call last_throws (suc fuel) (some d) w
        ≡ go_on
            (λ e v. continue_chain call last_throws fuel e v)
            ch
            (continue_chain call last_throws fuel
              (notify call last_throws n ch r
                (put d (cell_of (some r) none ch h.taken h.owners) w)).0
              (notify call last_throws n ch r
                (put d (cell_of (some r) none ch h.taken h.owners) w)).1)
  unfolding continue_chain claim_at
  continue_chain-claimed fuel w h =
      rw h.found (unfold claim_found claim claim_from drive_claimed run_claimed in refl)

  pub continue_chain-stops :
      {d : ℕ} {o : Option (Result A)} {ch : Option ℕ} (fuel : ℕ) (w : World A)
      → Has d o none ch w
      → continue_chain call last_throws (suc fuel) (some d) w ≡ some w
  unfolding continue_chain claim_at claim_found claim drive_claimed claim_from
  continue_chain-stops {o = none} fuel w h = rw h.found refl
  continue_chain-stops {o = some r} fuel w h = rw h.found refl

  pub continue_chain-pending :
      {d : ℕ} {n : Option Notify} {ch : Option ℕ} (fuel : ℕ) (w : World A)
      → Has d none n ch w
      → continue_chain call last_throws (suc fuel) (some d) w ≡ some w
  unfolding continue_chain claim_at claim_found claim drive_claimed claim_from
  continue_chain-pending fuel w h = rw h.found refl

  pub continue_chain-done :
      {d : ℕ} {o : Option (Result A)} {ch : Option ℕ} (fuel : ℕ) (w v : World A)
      → Has d o none ch w
      → continue_chain call last_throws fuel (some d) w ≡ some v
      → w ≡ v
  unfolding continue_chain
  continue_chain-done zero w v h e = absurd cc
  continue_chain-done (suc fuel) w v h e =
      some-injective w v (sym (continue_chain-stops fuel w h) ∙ e)
