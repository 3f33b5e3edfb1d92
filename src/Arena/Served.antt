-- ===== src/Arena/Served.antt =====
-- include/json_view/alloc.hpp: what an arena gives out lies in its blocks, aligned and apart.
use native.Mathlib.Nat.{
  mod-add-div, mul-add-mod_self_left, mod_self, mod-mod_of_dvd, dvd_of_mod-eq-zero, mod-lt,
  zero-mod, add-zero,
}
use mathlib.Core.Option.{some-injective}
use native.Mathlib.Decide.{ℕ_discrete}
use rpcxx.Prelude.{
  ℕ, ◌+◌, ◌-◌, ◌*◌, ◌/◌, ◌%◌, ◌≤◌, ◌<◌, ◌≡◌, refl, ap, sym, ◌∙◌, Option, none, some, List, [], ◌∷◌,
  ltb, leb, Bool, true, false, leb→le, ◌==◌, if◌then◌else◌, if_elim, inl, arith,
}
use rpcxx.Arena.{
  Arena, align_in, Given, take_aligned, clear_blocks, clear, set_block_size, new_arena, new_session,
  ArenaUse, allocates, sets_block_size, clears, Session, do_alloc, in_session, use_arena,
  use_arenas,
}
use rpcxx.Arena.Apart.{
  AreApart, AreServed, IsTidy, IsGift, AreServed-grow, IsFree-apart, own_block-IsGift,
  take_new-IsGift, take_old-IsGift,
}

abbrev padding : ℕ → ℕ → ℕ
padding x a = if x % a == 0 then 0 else a - x % a

padding-aligned : (x a : ℕ) → 0 < a → (x + padding x a) % a ≡ 0
padding-aligned x a pos = elim (ℕ_discrete (x % a) 0) [
  | yes e ↦ let s : x + padding x a ≡ x = ground (arith, e) in rw s e
  | no ne ↦
      let s : x + padding x a ≡ a * (x / a) + a =
        ground (arith, ne, mod-add-div x a, mod-lt x pos) in
      rw s (mul-add-mod_self_left a (x / a) a ∙ mod_self a)
]

-- A place that is aligned for the largest alignment is aligned.
aligned-of_base : (x m a : ℕ) → x % m ≡ 0 → m % a ≡ 0 → x % a ≡ 0
aligned-of_base x m a e f =
    sym (mod-mod_of_dvd a x (dvd_of_mod-eq-zero a {n = m} f)) ∙ ap (λ y. y % a) e ∙ zero-mod a

align_in-fits :
    (align bytes x space pad : ℕ)
    → 0 < align
    → align_in align bytes x space ≡ some pad
    → (bytes + pad ≤ space) × ((x + pad) % align ≡ 0)
unfolding align_in
align_in-fits align bytes x space pad pos e =
    by_fit (leb (bytes + padding x align) space) (x + padding x align == 0) refl e
  where
    by_fit :
        (b c : Bool)
        → leb (bytes + padding x align) space ≡ b
        → (if b then (if c then none else some (padding x align)) else none) ≡ some pad
        → (bytes + pad ≤ space) × ((x + pad) % align ≡ 0)
    by_fit true false h f =
        let same : padding x align ≡ pad = some-injective (padding x align) pad f in
        (
          rw (← same) (leb→le (bytes + padding x align) space h),
          rw (← same) (padding-aligned x align pos),
        )
    by_fit true true h f = absurd cc
    by_fit false c h f = absurd cc

-- Addresses of blocks are aligned for all that is asked for.
abbrev pub IsAligned : ℕ → ℕ → Type 0
IsAligned max_align align = (0 < align) × (max_align % align ≡ 0)

-- Every alignment that is asked for divides the largest.
abbrev pub AreAligned : ℕ → List ArenaUse → Type 0
AreAligned max_align [] = Unit
AreAligned max_align (allocates bytes align ∷ us) =
    IsAligned max_align align × AreAligned max_align us
AreAligned max_align (_ ∷ us) = AreAligned max_align us

-- What has been given out lies in its blocks, and no byte of it in two ranges.
abbrev pub IsWellServed : (ℕ → ℕ) → Session → Type 0
IsWellServed base g = AreServed base g.arena g.live × AreApart g.live

module _ (base : ℕ → ℕ) (max_align : ℕ) (aligned : (b : ℕ) → base b % max_align ≡ 0)
    (on_stack : ℕ) where
  block-aligned : (b align : ℕ) → IsAligned max_align align → (base b + 0) % align ≡ 0
  block-aligned b align (pos, e) =
      rw (add-zero (base b)) (aligned-of_base (base b) max_align align (aligned b) e)

  do_alloc-IsGift :
      (bytes align : ℕ) (s : Arena)
      → IsAligned max_align align
      → IsTidy on_stack s
      → IsGift base on_stack s (do_alloc base on_stack bytes align s)
  unfolding do_alloc
  do_alloc-IsGift bytes align s a t =
      if_elim (λ g. IsGift base on_stack s g) (ltb s.block_size bytes)
        (λ _. own_block-IsGift base on_stack bytes align s t (block-aligned s.made align a))
        λ le.
          by_place (align_in align bytes (base s.block + s.offset) s.space) refl
            (ground (arith, le))
    where
      by_place :
          (p : Option ℕ)
          → align_in align bytes (base s.block + s.offset) s.space ≡ p
          → bytes ≤ s.block_size
          → IsGift base on_stack s (take_aligned bytes align s p)
      by_place none e le =
          take_new-IsGift base on_stack bytes align s t le (block-aligned s.made align a)
      by_place (some pad) e le =
          let (fits, good) =
            align_in-fits align bytes (base s.block + s.offset) s.space pad a.0 e in
          take_old-IsGift base on_stack bytes align pad s t fits good

  record IsGood (g : Session) : Type 0 where
    tidy : IsTidy on_stack g.arena
    served : AreServed base g.arena g.live
    apart : AreApart g.live

  in_session-IsGood :
      (g : Session) (p : Given)
      → IsGood g
      → IsGift base on_stack g.arena p
      → IsGood (in_session base on_stack g.live p)
  in_session-IsGood g (r, s') good gift = record {
    tidy = gift.tidy;
    served = (gift.served, AreServed-grow base g.arena s' g.live gift.grown good.served);
    apart = (IsFree-apart base g.arena r g.live gift.free good.served, good.apart);
  }

  cleared-IsGood :
      (s : Arena)
      → 0 < s.made
      → s.lengths 0 ≡ on_stack
      → IsGood (record { arena = clear on_stack s; live = [] })
  unfolding clear clear_blocks
  cleared-IsGood s pos e = record {
    tidy = record { here = pos; room = omega (arith, e); buffer = e };
    served = tt;
    apart = tt;
  }

  use_arenas-IsGood :
      (us : List ArenaUse) (g : Session)
      → AreAligned max_align us
      → IsGood g
      → IsGood (use_arenas base on_stack us g)
  unfolding use_arenas use_arena set_block_size
  use_arenas-IsGood [] g a good = good
  use_arenas-IsGood (allocates bytes align ∷ us) g (a, rest) good =
      use_arenas-IsGood us (use_arena base on_stack (allocates bytes align) g) rest (
        in_session-IsGood g (do_alloc base on_stack bytes align g.arena) good
          (do_alloc-IsGift bytes align g.arena a good.tidy))
  use_arenas-IsGood (sets_block_size n ∷ us) g rest good =
      use_arenas-IsGood us (use_arena base on_stack (sets_block_size n) g) rest (resized g good)
    where
      resized : (g : Session) → IsGood g → IsGood (record g { arena = set_block_size n g.arena })
      resized g good = record {
        tidy = record { here = good.tidy.here; room = good.tidy.room; buffer = good.tidy.buffer };
        served =
            AreServed-grow base g.arena (set_block_size n g.arena) g.live
              (record { more = omega arith; same = λ b h. refl; ahead = inl (refl, omega arith) })
              good.served;
        apart = good.apart;
      }
  use_arenas-IsGood (clears ∷ us) g rest good =
      use_arenas-IsGood us (use_arena base on_stack clears g) rest
        (cleared-IsGood g.arena (omega (arith, good.tidy.here)) good.tidy.buffer)

  -- Whatever is asked of a new arena, in whatever order, its block size changed and the arena cleared in
  -- between: all that it has given out since it was last cleared lies in blocks of enough bytes, starts
  -- at an address with the alignment that was asked for, and shares no byte. Blocks have addresses
  -- that are aligned for max_align, which every alignment asked for divides.
  pub use_arenas-served :
      (size : ℕ) (us : List ArenaUse)
      → AreAligned max_align us
      → IsWellServed base (use_arenas base on_stack us (new_session on_stack size))
  unfolding new_arena set_block_size
  use_arenas-served size us a =
      let good = use_arenas-IsGood us (new_session on_stack size) a (
        cleared-IsGood
          (set_block_size size (record {
            block_size = 0;
            block = 0;
            offset = 0;
            space = 0;
            allocs = [];
            made = 1;
            lengths = λ b. on_stack;
            deletes = λ b. 0;
          }))
          (omega arith) refl) in
      (good.served, good.apart)
