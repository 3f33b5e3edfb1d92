-- ===== src/Json/Algo/Copied.antt =====
-- What `Copy` returns.
use Prim.Native.Nat.{max}
use rpcxx.Prelude.{ℕ, zero, suc, ◌<◌, ◌≡◌, Option, none, some, arith, leb, if◌then◌else◌}
use rpcxx.Json.Value.{
  JsonView, Items, Pairs, null, binary, boolean, number, string, signed, unsigned, array, object,
  discarded, custom, no_items, item, no_pairs, pair,
}
use rpcxx.Json.Shape.{depth, depth_items, depth_pairs}
use rpcxx.Json.Algo.{copy, copy_items, copy_pairs}
use rpcxx.MsgPack.Dump.{◌>>=◌}
use rpcxx.MsgPack.Encode.{depth_pos}

abbrev pub within {ℓ} : {A : Type ℓ} → ℕ → ℕ → A → Option A
within n d a = if leb n d then some a else none

pub empty_hand : {A : Type 0} (n : ℕ) (a : A) → 0 < n → none ≡ within n 0 a
empty_hand n a h = ground arith

pub flat : {A : Type 0} (d : ℕ) (a : A) → some a ≡ within 1 (suc d) a
flat d a = ground arith

pub around :
    {A B : Type 0} (d n : ℕ) (f : A → B) (a : A) (o : Option A)
    → o ≡ within n d a
    → (o >>= λ b. some (f b)) ≡ within (suc n) (suc d) (f a)
around d n f a o e = rw e (ground arith)

pub both :
    {A B C : Type 0} (d m n : ℕ) (f : A → B → C) (a : A) (b : B) (o : Option A) (p : Option B)
    → o ≡ within m d a
    → p ≡ within n d b
    → (o >>= λ x. p >>= λ y. some (f x y)) ≡ within (max m n) d (f a b)
both d m n f a b o p e g = rw (e, g) (ground arith)

mutual
  unfolding copy depth

  copy-eq : (d : ℕ) (v : JsonView) → copy d v ≡ within (depth v) d v
  copy-eq zero v = empty_hand (depth v) v (depth_pos v)
  copy-eq (suc d) null = flat d _
  copy-eq (suc d) (boolean b) = flat d _
  copy-eq (suc d) (number w) = flat d _
  copy-eq (suc d) (signed i) = flat d _
  copy-eq (suc d) (unsigned n) = flat d _
  copy-eq (suc d) (binary bin) = flat d _
  copy-eq (suc d) (string s) = flat d _
  copy-eq (suc d) (discarded why) = flat d _
  copy-eq (suc d) (custom ptr) = flat d _
  copy-eq (suc d) (array vs) = around d (depth_items vs) array vs _ (copy_items-eq d vs)
  copy-eq (suc d) (object ps) = around d (depth_pairs ps) object ps _ (copy_pairs-eq d ps)

  copy_items-eq : (d : ℕ) (vs : Items) → copy_items d vs ≡ within (depth_items vs) d vs
  copy_items-eq d no_items = ground arith
  copy_items-eq d (item v vs) =
      both d (depth v) (depth_items vs) item v vs _ _ (copy-eq d v) (copy_items-eq d vs)

  copy_pairs-eq : (d : ℕ) (ps : Pairs) → copy_pairs d ps ≡ within (depth_pairs ps) d ps
  copy_pairs-eq d no_pairs = ground arith
  copy_pairs-eq d (pair k v ps) =
      both d (depth v) (depth_pairs ps) (λ w qs. pair k w qs) v ps _ _ (copy-eq d v)
        (copy_pairs-eq d ps)

-- `Copy` under depth d returns an equal value for every value of at most d levels, and throws a
-- `DepthError` for every deeper one.
pub copy_lem : (d : ℕ) (v : JsonView) → copy d v ≡ (if leb (depth v) d then some v else none)
copy_lem d v = copy-eq d v
