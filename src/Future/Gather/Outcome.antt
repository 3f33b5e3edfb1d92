-- ===== src/Future/Gather/Outcome.antt =====
-- include/future/gather.hpp: what a gathered future resolves to, in whatever order its parts do.
use rpcxx.Prelude.{
  ℕ, zero, suc, ◌-◌, ◌≤◌, ◌<◌, ◌≡◌, refl, sym, ap, ◌∙◌, ◌⊎◌, inl, inr, Option, none, some, List, [],
  ◌∷◌, ◌==◌, length, set, get_elem?, get_elem?-set_self, get_elem?-set_ne, length-set,
  length-replicate, Bool-cases, ==_iff, arith,
}
use mathlib.Core.Option.{some-injective}
use rpcxx.Json.Access.{Exception, Result, ok, throw}
use rpcxx.Future.Gather.{GatherCtx, count_down, gather_handler, gather_all, gather}

module _ {ℓ} {A : Type ℓ} (i : ℕ) (ctx : GatherCtx A) where
  gather_handler-settled :
      (r : Result A) {out : Result (List A)} → ctx.prom ≡ some out → gather_handler i r ctx ≡ ctx
  unfolding gather_handler
  gather_handler-settled r h = ground (arith, h)

  pub gather_handler-throw :
      (e : Exception)
      → ctx.prom ≡ none
      → gather_handler i (throw e) ctx ≡ record ctx { prom = some (throw e) }
  unfolding gather_handler
  gather_handler-throw e h = ground (arith, h)

  pub gather_handler-ok :
      (v : A)
      → ctx.prom ≡ none
      → 1 < ctx.left
      → gather_handler i (ok v) ctx
        ≡ record ctx { results = set ctx.results i v; left = ctx.left - 1 }
  unfolding gather_handler count_down
  gather_handler-ok v h lt = ground (arith, h)

  pub gather_handler-last :
      (v : A)
      → ctx.prom ≡ none
      → ctx.left ≡ 1
      → (gather_handler i (ok v) ctx).prom ≡ some (ok (set ctx.results i v))
  unfolding gather_handler count_down
  gather_handler-last v h lt = ground (arith, h)

module _ {ℓ} {A : Type ℓ} where
  pub gather_all-settled :
      (done : List (ℕ × Result A)) (ctx : GatherCtx A) (out : Result (List A))
      → ctx.prom ≡ some out
      → (gather_all done ctx).prom ≡ some out
  unfolding gather_all
  gather_all-settled [] ctx out h = h
  gather_all-settled ((i, r) ∷ done) ctx out h =
      simp (gather_handler-settled i ctx r h, gather_all-settled done ctx out h)

  -- The first exception, in the order in which the parts come.
  unfoldable pub first_throw : List (ℕ × Result A) → Option Exception
  first_throw [] = none
  first_throw ((i, ok v) ∷ done) = first_throw done
  first_throw ((i, throw e) ∷ done) = some e

  -- As long as there are as many parts left as come, the first exception among them is what the
  -- gathered future gets.
  gather_all-throws :
      (done : List (ℕ × Result A)) (ctx : GatherCtx A) (e : Exception)
      → ctx.prom ≡ none
      → length done ≤ ctx.left
      → first_throw done ≡ some e
      → (gather_all done ctx).prom ≡ some (throw e)
  unfolding gather_all first_throw
  gather_all-throws [] ctx e h le f = absurd cc
  gather_all-throws ((i, throw x) ∷ done) ctx e h le f =
      ap (λ c. (gather_all done c).prom) (gather_handler-throw i ctx x h)
      ∙ gather_all-settled done (record ctx { prom = some (throw x) }) (throw x) refl
      ∙ ap (λ y. some (throw y)) (some-injective x e f)
  gather_all-throws ((i, ok v) ∷ []) ctx e h le f = absurd cc
  gather_all-throws ((i, ok v) ∷ next ∷ done) ctx e h le f =
      ap (λ c. (gather_all (next ∷ done) c).prom) (gather_handler-ok i ctx v h (omega arith))
      ∙ gather_all-throws (next ∷ done)
          (record ctx { results = set ctx.results i v; left = ctx.left - 1 }) e h (omega arith) f

module _ {ℓ} {A : Type ℓ} (part : ℕ → A) where
  abbrev pub all_ok : List ℕ → List (ℕ × Result A)
  all_ok [] = []
  all_ok (i ∷ order) = (i, ok (part i)) ∷ all_ok order

  abbrev Comes : List ℕ → ℕ → Type 0
  Comes order i = (k : ℕ) × (get_elem? order k ≡ some i)

  set-part :
      (xs : List A) (i j : ℕ)
      → j < length xs
      → get_elem? xs j ≡ some (part j)
      → get_elem? (set xs i (part i)) j ≡ some (part j)
  set-part xs i j lt e = elim (Bool-cases (i == j)) [
    | inl same ↦ rw ((==_iff i j).0 same) (get_elem?-set_self xs j (part j) lt)
    | inr ne ↦ get_elem?-set_ne xs (part i) (λ z. ground arith) ∙ e
  ]

  -- The part that comes first has been written then.
  set-Comes :
      (xs : List A) (i j : ℕ) (order : List ℕ)
      → j < length xs
      → Comes (i ∷ order) j ⊎ (get_elem? xs j ≡ some (part j))
      → Comes order j ⊎ (get_elem? (set xs i (part i)) j ≡ some (part j))
  set-Comes xs i j order lt (inl (zero, e)) =
      rw (some-injective i j e) (inr (get_elem?-set_self xs j (part j) lt))
  set-Comes xs i j order lt (inl (suc k, e)) = inl (k, e)
  set-Comes xs i j order lt (inr p) = inr (set-part xs i j lt p)

  comes-none : (j : ℕ) (P : Type ℓ) → Comes [] j ⊎ P → P
  comes-none j P (inl (k, e)) = absurd cc
  comes-none j P (inr p) = p

  gather_all-part :
      (order : List ℕ) (ctx : GatherCtx A)
      → ctx.prom ≡ none
      → ctx.left ≡ length order
      → 1 ≤ length order
      → (vs : List A) × ((gather_all (all_ok order) ctx).prom ≡ some (ok vs))
        × (length vs ≡ length ctx.results)
        × ((j : ℕ)
            → j < length ctx.results
            → Comes order j ⊎ (get_elem? ctx.results j ≡ some (part j))
            → get_elem? vs j ≡ some (part j))
  unfolding gather_all
  gather_all-part [] ctx h l le = absurd (omega arith)
  gather_all-part (i ∷ []) ctx h l le = (
    set ctx.results i (part i),
    gather_handler-last i ctx (part i) h l,
    length-set ctx.results i (part i),
    λ j lt c. comes-none j _ (set-Comes ctx.results i j [] lt c),
  )
  gather_all-part (i ∷ n ∷ order) ctx h l le =
      let ctx1 : GatherCtx A = record ctx {
        results = set ctx.results i (part i);
        left = ctx.left - 1;
      } in
      let len = length-set ctx.results i (part i) in
      let (vs, out, size, at) = gather_all-part (n ∷ order) ctx1 h (omega arith) (omega arith) in
      (
        vs,
        ap (λ c. (gather_all (all_ok (n ∷ order)) c).prom)
              (gather_handler-ok i ctx (part i) h (omega arith))
            ∙ out,
        size ∙ len,
        λ j lt c. at j (omega (arith, len)) (set-Comes ctx.results i j (n ∷ order) lt c),
      )

  -- When the parts are all values, come in any order (as many as there are futures, and each future
  -- at some place), Gather resolves to the list that has the value of
  -- future j at place j.
  pub gather-values :
      (value : A) (n : ℕ) (order : List ℕ)
      → length order ≡ n
      → ((j : ℕ) → j < n → (k : ℕ) × (get_elem? order k ≡ some j))
      → (vs : List A) × ((gather_all (all_ok order) (gather value n)).prom ≡ some (ok vs))
        × (length vs ≡ n)
        × ((j : ℕ) → j < n → get_elem? vs j ≡ some (part j))
  unfolding gather gather_all
  gather-values value zero order size all = (
    [],
    gather_all-settled (all_ok order) (gather value 0) (ok []) refl,
    refl,
    λ j lt. absurd (omega arith),
  )
  gather-values value (suc n) order size all =
      let len = length-replicate (suc n) value in
      let (vs, out, same, at) =
        gather_all-part order (gather value (suc n)) (ground arith) (sym size) (omega arith) in
      (vs, out, same ∙ len, λ j lt. at j (omega (arith, len)) (inl (all j lt)))

module _ {ℓ} {A : Type ℓ} where
  some_thrown :
      (done : List (ℕ × Result A)) (e : Exception) → first_throw done ≡ some e → 1 ≤ length done
  unfolding first_throw
  some_thrown [] e h = absurd cc
  some_thrown (d ∷ done) e h = omega arith

  -- When at most as many parts come as there are futures, and some are exceptions, the gathered
  -- future gets the first of them that comes, whatever came before and after.
  pub gather-first_throw :
      (value : A) (n : ℕ) (done : List (ℕ × Result A)) (e : Exception)
      → length done ≤ n
      → first_throw done ≡ some e
      → (gather_all done (gather value n)).prom ≡ some (throw e)
  unfolding gather
  gather-first_throw value n done e le h =
      gather_all-throws done (gather value n) e (ground (arith, some_thrown done e h)) le h
