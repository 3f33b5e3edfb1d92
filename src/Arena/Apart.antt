-- ===== src/Arena/Apart.antt =====
-- include/json_view/alloc.hpp: what a step of an arena gives out, against what it has given out before.
use native.Mathlib.Nat.{add_assoc}
use rpcxx.Prelude.{
  ℕ, ◌+◌, ◌%◌, ◌≤◌, ◌<◌, ◌≡◌, ◌≢◌, ◌⊎◌, refl, none, some, List, [], ◌∷◌, inl, inr, arith,
}
use rpcxx.Arena.{Arena, Range, own_block, new_block, Given, take_aligned}

-- No byte is in both.
abbrev pub IsApart : Range → Range → Type 0
IsApart r r' =
    (r.in_block ≢ r'.in_block) ⊎ (r.start + r.bytes ≤ r'.start) ⊎ (r'.start + r'.bytes ≤ r.start)

abbrev pub IsApartFrom : Range → List Range → Type 0
IsApartFrom r [] = Unit
IsApartFrom r (r' ∷ rs) = IsApart r r' × IsApartFrom r rs

abbrev pub AreApart : List Range → Type 0
AreApart [] = Unit
AreApart (r ∷ rs) = IsApartFrom r rs × AreApart rs

module _ (base : ℕ → ℕ) where
  -- The range lies in its block, starts where it was asked to, and buffptr stands behind it if it is in
  -- the same block.
  pub record IsServed (s : Arena) (r : Range) : Type 0 where
    pub made : r.in_block < s.made
    pub within : r.start + r.bytes ≤ s.lengths r.in_block
    pub aligned : (base r.in_block + r.start) % r.align ≡ 0
    pub behind : (r.in_block ≢ s.block) ⊎ (r.start + r.bytes ≤ s.offset)

  abbrev pub AreServed : Arena → List Range → Type 0
  AreServed s [] = Unit
  AreServed s (r ∷ rs) = IsServed s r × AreServed s rs

-- What is free in the block of buffptr.
pub record IsTidy (on_stack : ℕ) (s : Arena) : Type 0 where
  pub here : s.block < s.made
  pub room : s.offset + s.space ≤ s.lengths s.block
  pub buffer : s.lengths 0 ≡ on_stack

-- An arena that goes on to give out what it has not given out.
pub record IsGrown (s s' : Arena) : Type 0 where
  pub more : s.made ≤ s'.made
  pub same : (b : ℕ) → b < s.made → s'.lengths b ≡ s.lengths b
  pub ahead : ((s'.block ≡ s.block) × (s.offset ≤ s'.offset)) ⊎ (s.made ≤ s'.block)

IsServed-grow :
    (base : ℕ → ℕ) (s s' : Arena) (r : Range)
    → IsGrown s s'
    → IsServed base s r
    → IsServed base s' r
IsServed-grow base s s' r g v = record {
  made = omega (arith, g.more, v.made);
  within = rw (g.same r.in_block v.made) v.within;
  aligned = v.aligned;
  behind = ground (arith, g.ahead, v.behind, v.made);
}

pub AreServed-grow :
    (base : ℕ → ℕ) (s s' : Arena) (rs : List Range)
    → IsGrown s s'
    → AreServed base s rs
    → AreServed base s' rs
AreServed-grow base s s' [] g v = tt
AreServed-grow base s s' (r ∷ rs) g (v, vs) =
    (IsServed-grow base s s' r g v, AreServed-grow base s s' rs g vs)

-- A range that was free before.
abbrev pub IsFree : Arena → Range → Type 0
IsFree s r = (s.made ≤ r.in_block) ⊎ ((r.in_block ≡ s.block) × (s.offset ≤ r.start))

pub IsFree-apart :
    (base : ℕ → ℕ) (s : Arena) (r : Range) (rs : List Range)
    → IsFree s r
    → AreServed base s rs
    → IsApartFrom r rs
IsFree-apart base s r [] f v = tt
IsFree-apart base s r (r' ∷ rs) f (v, vs) =
    (ground (arith, f, v.made, v.behind), IsFree-apart base s r rs f vs)

-- What an allocation has to be like.
pub record IsGift (base : ℕ → ℕ) (on_stack : ℕ) (s : Arena) (g : Given) : Type 0 where
  pub free : IsFree s g.0
  pub grown : IsGrown s g.1
  pub tidy : IsTidy on_stack g.1
  pub served : IsServed base g.1 g.0

pub own_block-IsGift :
    (base : ℕ → ℕ) (on_stack bytes align : ℕ) (s : Arena)
    → IsTidy on_stack s
    → (base s.made + 0) % align ≡ 0
    → IsGift base on_stack s
        ((record { in_block = s.made; start = 0; bytes = bytes; align = align }), own_block bytes s)
unfolding own_block
own_block-IsGift base on_stack bytes align s t e = record {
  free = inl (omega arith);
  grown = record {
    more = omega arith;
    same = λ b h. ground (arith, h);
    ahead = inl (refl, omega arith);
  };
  tidy = record {
    here = omega (arith, t.here);
    room = ground (arith, t.room, t.here);
    buffer = ground (arith, t.buffer, t.here);
  };
  served = record {
    made = omega arith;
    within = ground arith;
    aligned = e;
    behind = inl (ground (arith, t.here));
  };
}

pub take_new-IsGift :
    (base : ℕ → ℕ) (on_stack bytes align : ℕ) (s : Arena)
    → IsTidy on_stack s
    → bytes ≤ s.block_size
    → (base s.made + 0) % align ≡ 0
    → IsGift base on_stack s (take_aligned bytes align s none)
unfolding take_aligned new_block own_block
take_new-IsGift base on_stack bytes align s t le e = record {
  free = inl (omega arith);
  grown = record { more = omega arith; same = λ b h. ground (arith, h); ahead = inr (omega arith) };
  tidy = record {
    here = omega arith;
    room = ground (arith, le);
    buffer = ground (arith, t.buffer, t.here);
  };
  served = record {
    made = omega arith;
    within = ground (arith, le);
    aligned = e;
    behind = inr (omega arith);
  };
}

pub take_old-IsGift :
    (base : ℕ → ℕ) (on_stack bytes align pad : ℕ) (s : Arena)
    → IsTidy on_stack s
    → bytes + pad ≤ s.space
    → (base s.block + s.offset + pad) % align ≡ 0
    → IsGift base on_stack s (take_aligned bytes align s (some pad))
unfolding take_aligned
take_old-IsGift base on_stack bytes align pad s t le e = record {
  free = inr (refl, omega arith);
  grown = record { more = omega arith; same = λ b h. refl; ahead = inl (refl, omega arith) };
  tidy = record { here = t.here; room = ground (arith, le, t.room); buffer = t.buffer };
  served = record {
    made = t.here;
    within = omega (arith, le, t.room);
    aligned = rw (← add_assoc (base s.block) s.offset pad) e;
    behind = inr (omega arith);
  };
}
