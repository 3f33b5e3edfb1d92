-- ===== src/Future/Install/Grown.antt =====
-- include/future/future.hpp: a chain of states that a continuation is added to.
use rpcxx.Prelude.{
  ℕ, ◌≤◌, false, Option, none, some, List, [], ◌∷◌, ◌++◌, get_elem?_below, get_elem?-append,
  get_elem?-append_end, length, arith,
}
use rpcxx.Json.Access.{Result}
use rpcxx.Future.Cell.{Cell, Notify, fresh}
use rpcxx.Future.Chain.{World, put}
use rpcxx.Future.Install.{new_data}
use rpcxx.Future.Install.Linked.{
  cell_of, Has, Has-put, Has-put_ne, Stage, notify_of, Linked, at_end, linked,
}

Has-fresh {ℓ} : {A : Type ℓ} (w : World A) → Has (length w.cells) none none none (new_data fresh w)
unfolding new_data
Has-fresh w = record { taken = false; owners = 0; found = get_elem?-append_end w.cells [] fresh }

module _ {ℓ} {A : Type ℓ} {o : Option (Result A)} where
  pub Has-new :
      {n : Option Notify} {ch : Option ℕ} (d : ℕ) (c : Cell A) (w : World A)
      → Has d o n ch w
      → Has d o n ch (new_data c w)
  unfolding new_data
  Has-new d c w h = record {
    taken = h.taken;
    owners = h.owners;
    found = get_elem?-append w.cells (c ∷ []) d _ h.found;
  }

  -- A state without a continuation gets one, with a next state.
  pub Linked-one :
      (last : ℕ) (w : World A) (s : Stage) (h : Has last o none none w)
      → Linked
          (length w.cells)
          (put last
            (cell_of o (some (notify_of s)) (some (length w.cells)) h.taken h.owners)
            (new_data fresh w))
          o
          (s ∷ [])
          last
  Linked-one last w s h =
      let below = get_elem?_below w.cells last _ h.found in
      linked below
        (Has-put last h.taken h.owners (new_data fresh w) _ (Has-new last fresh w h).found)
        (at_end
          (Has-put_ne (length w.cells) last _ (new_data fresh w) (λ z. omega arith) (Has-fresh w)))

module _ {ℓ} {A : Type ℓ} where
  pub Linked-bound :
      {last : ℕ} (w : World A) {o : Option (Result A)} {ss : List Stage} {d : ℕ}
      → Linked last w o ss d
      → d ≤ last
  Linked-bound w (at_end h) = omega arith
  Linked-bound w (linked b h l) = omega (arith, Linked-bound w l)

  pub Linked-last :
      {last : ℕ} (w : World A) {ss : List Stage} {d : ℕ}
      → Linked last w none ss d
      → Has last none none none w
  Linked-last w (at_end h) = h
  Linked-last w (linked b h l) = Linked-last w l

  -- The same at the end of a chain that waits.
  pub Linked-then :
      {last : ℕ} (w : World A) (s : Stage) (h : Has last none none none w) {ss : List Stage} {d : ℕ}
      → Linked last w none ss d
      → Linked
          (length w.cells)
          (put last
            (cell_of none (some (notify_of s)) (some (length w.cells)) h.taken h.owners)
            (new_data fresh w))
          none
          (ss ++ s ∷ [])
          d
  Linked-then {last = last} w s h (at_end f) = Linked-one last w s h
  Linked-then {last = last} w s h {d = d} (linked b f l) =
      linked b
        (Has-put_ne d last _ (new_data fresh w) (λ z. omega (arith, Linked-bound w l))
          (Has-new d fresh w f))
        (Linked-then w s h l)
