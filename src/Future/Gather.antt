-- ===== src/Future/Gather.antt =====
-- include/future/gather.hpp: one future for many. The parts' results come in any order.
pub mod Outcome
pub mod Tuple
use rpcxx.Prelude.{
  ℕ, ◌+◌, ◌-◌, ◌^◌, Bool, true, false, Option, none, some, List, [], ◌∷◌, if◌then◌else◌, ◌==◌,
  length, set, replicate,
}
use rpcxx.Json.Access.{Exception, Result, ok, throw}

-- `GatherCtx`, with what its promise was called with.
pub record GatherCtx {ℓ} (A : Type ℓ) : Type ℓ where
  pub results : List A
  pub prom : Option (Result (List A))
  pub left : ℕ

-- `TupleGatherCtx`, for parts of one type.
pub record TupleGatherCtx {ℓ} (A : Type ℓ) : Type ℓ where
  pub tuple : List A
  pub done_count : ℕ
  pub setter : Option (Result (List A))

-- `--left` on a std::size_t.
abbrev pub dec_size : ℕ → ℕ
dec_size n = if n == 0 then 2 ^ 64 - 1 else n - 1

module _ {ℓ} {A : Type ℓ} where
  unfoldable pub count_down : GatherCtx A → GatherCtx A
  count_down ctx = if ctx.left == 0 then record ctx { prom = some (ok ctx.results) } else ctx

  -- `GatherHandler::operator()`.
  unfoldable pub gather_handler : ℕ → Result A → GatherCtx A → GatherCtx A
  unfolding count_down
  gather_handler curr res ctx = elim ctx.prom [
    | some settled ↦ ctx
    | none ↦ elim res [
      | ok v ↦
          count_down (record ctx { results = set ctx.results curr v; left = dec_size ctx.left })
      | throw e ↦ record ctx { prom = some (throw e) }
    ]
  ]

  unfoldable pub gather_all : List (ℕ × Result A) → GatherCtx A → GatherCtx A
  unfolding gather_handler
  gather_all [] ctx = ctx
  gather_all ((i, r) ∷ done) ctx = gather_all done (gather_handler i r ctx)

  -- `Gather` of `n` futures; `T{}` fills the results, and no futures give an empty result at once.
  unfoldable pub gather : A → ℕ → GatherCtx A
  gather value n = record {
    results = replicate n value;
    prom = if n == 0 then some (ok []) else none;
    left = n;
  }

  -- `handleSingleFut`, of `args` parts.
  unfoldable pub count_up : ℕ → TupleGatherCtx A → TupleGatherCtx A
  count_up args ctx =
      if ctx.done_count == args then record ctx { setter = some (ok ctx.tuple) } else ctx

  unfoldable pub handle_single_fut : ℕ → ℕ → Result A → TupleGatherCtx A → TupleGatherCtx A
  unfolding count_up
  handle_single_fut args idx res ctx = elim ctx.setter [
    | some settled ↦ ctx
    | none ↦ elim res [
      | throw e ↦ record ctx { setter = some (throw e) }
      | ok v ↦
          count_up args
            (record ctx { tuple = set ctx.tuple idx v; done_count = ctx.done_count + 1 })
    ]
  ]

  unfoldable pub handle_all_futs : ℕ → List (ℕ × Result A) → TupleGatherCtx A → TupleGatherCtx A
  unfolding handle_single_fut
  handle_all_futs args [] ctx = ctx
  handle_all_futs args ((i, r) ∷ done) ctx =
      handle_all_futs args done (handle_single_fut args i r ctx)

  unfoldable pub gather_tuple : A → ℕ → TupleGatherCtx A
  gather_tuple value args = record { tuple = replicate args value; done_count = 0; setter = none }
