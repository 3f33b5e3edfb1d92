-- ===== src/Future/Gather/Tuple.antt =====
-- include/future/gather.hpp: GatherTuple and Gather give the same.
use rpcxx.Prelude.{
  ℕ, ◌+◌, ◌-◌, ◌≤◌, ◌<◌, ◌≡◌, refl, sym, ap, ◌∙◌, inl, inr, none, some, List, [], ◌∷◌, set,
  replicate, Bool-cases, ◌==◌, arith,
}
use rpcxx.Json.Access.{Exception, Result, ok, throw}
use rpcxx.Future.Gather.{
  GatherCtx, TupleGatherCtx, gather_all, gather, count_up, handle_single_fut, handle_all_futs,
  gather_tuple,
}
use rpcxx.Future.Gather.Outcome.{
  gather_all-settled, gather_handler-throw, gather_handler-ok, gather_handler-last,
}

module _ {ℓ} {A : Type ℓ} (args i : ℕ) (ctx : TupleGatherCtx A) where
  handle_single_fut-settled :
      (r : Result A) {out : Result (List A)}
      → ctx.setter ≡ some out
      → handle_single_fut args i r ctx ≡ ctx
  unfolding handle_single_fut
  handle_single_fut-settled r h = ground (arith, h)

  handle_single_fut-throw :
      (e : Exception)
      → ctx.setter ≡ none
      → handle_single_fut args i (throw e) ctx ≡ record ctx { setter = some (throw e) }
  unfolding handle_single_fut
  handle_single_fut-throw e h = ground (arith, h)

  handle_single_fut-ok :
      (v : A)
      → ctx.setter ≡ none
      → ctx.done_count + 1 < args
      → handle_single_fut args i (ok v) ctx
        ≡ record ctx { tuple = set ctx.tuple i v; done_count = ctx.done_count + 1 }
  unfolding handle_single_fut count_up
  handle_single_fut-ok v h lt = ground (arith, h)

  handle_single_fut-last :
      (v : A)
      → ctx.setter ≡ none
      → ctx.done_count + 1 ≡ args
      → (handle_single_fut args i (ok v) ctx).setter ≡ some (ok (set ctx.tuple i v))
  unfolding handle_single_fut count_up
  handle_single_fut-last v h lt = ground (arith, h)

module _ {ℓ} {A : Type ℓ} (args : ℕ) where
  handle_all_futs-settled :
      (done : List (ℕ × Result A)) (ctx : TupleGatherCtx A) (out : Result (List A))
      → ctx.setter ≡ some out
      → (handle_all_futs args done ctx).setter ≡ some out
  unfolding handle_all_futs
  handle_all_futs-settled [] ctx out h = h
  handle_all_futs-settled ((i, r) ∷ done) ctx out h =
      simp (handle_single_fut-settled args i ctx r h, handle_all_futs-settled done ctx out h)

  handle_all_futs-gather :
      (done : List (ℕ × Result A)) (xs : List A) (left count : ℕ)
      → left + count ≡ args
      → 1 ≤ left
      → (handle_all_futs args done
          (record { tuple = xs; done_count = count; setter = none })).setter
        ≡ (gather_all done (record { results = xs; prom = none; left = left })).prom
  unfolding handle_all_futs gather_all
  handle_all_futs-gather [] xs left count h le = refl
  handle_all_futs-gather ((i, throw e) ∷ done) xs left count h le =
      let t : TupleGatherCtx A = record { tuple = xs; done_count = count; setter = none } in
      let g : GatherCtx A = record { results = xs; prom = none; left = left } in
      ap (λ c. (handle_all_futs args done c).setter) (handle_single_fut-throw args i t e refl)
      ∙ handle_all_futs-settled done _ (throw e) refl
      ∙ sym (gather_all-settled done _ (throw e) refl)
      ∙ ap (λ c. (gather_all done c).prom) (sym (gather_handler-throw i g e refl))
  handle_all_futs-gather ((i, ok v) ∷ done) xs left count h le =
      let t : TupleGatherCtx A = record { tuple = xs; done_count = count; setter = none } in
      let g : GatherCtx A = record { results = xs; prom = none; left = left } in
      elim (Bool-cases (left == 1)) [
        | inl e ↦
            handle_all_futs-settled done _ _ (handle_single_fut-last args i t v refl (ground arith))
            ∙ sym (gather_all-settled done _ _ (gather_handler-last i g v refl (ground arith)))
        | inr e ↦
            ap (λ c. (handle_all_futs args done c).setter)
              (handle_single_fut-ok args i t v refl (ground arith))
            ∙ handle_all_futs-gather done (set xs i v) (left - 1) (count + 1) (omega arith)
                (ground arith)
            ∙ ap (λ c. (gather_all done c).prom) (sym (gather_handler-ok i g v refl (ground arith)))
      ]

  -- GatherTuple, which counts up, and Gather, which counts down, resolve to the same after the same
  -- parts, for any number of parts but none, and whatever comes in whatever order.
  pub gather_tuple-gather :
      (value : A) (done : List (ℕ × Result A))
      → 1 ≤ args
      → (handle_all_futs args done (gather_tuple value args)).setter
        ≡ (gather_all done (gather value args)).prom
  unfolding gather_tuple gather
  gather_tuple-gather value done le =
      handle_all_futs-gather done (replicate args value) args 0 (omega arith) le
      ∙ ap
          (λ p.
            (gather_all done
              (record { results = replicate args value; prom = p; left = args })).prom)
          (ground arith)
