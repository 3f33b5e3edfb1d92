-- ===== src/Json/Algo.antt =====
-- src/json_view/algo.cpp: `Copy` and `DeepEqual`.
--
-- Both take the depth that is left; `none` is a thrown `DepthError`. What `DeepEqual` asks of doubles is
-- the machine's: `near` and `near_int`, whether a double is within the margin of a double or of an
-- integer, `is_nan` and `is_inf`.
pub mod Copied
pub mod Equal
pub mod Flat
use rpcxx.Prelude.{
  ℕ, zero, suc, ◌^◌, Bool, true, false, Option, none, some, ltb, ◌==◌, if◌then◌else◌,
}
use rpcxx.Prelude.Int.{ℤ, pos}
use rpcxx.Json.Value.{
  Bytes, JsonView, Items, Pairs, null, binary, boolean, number, string, signed, unsigned, array,
  object, discarded, custom, no_items, item, no_pairs, pair,
}
use rpcxx.Json.Key.{key_eq}
use rpcxx.Json.Shape.{count_items, count_pairs}
use rpcxx.MsgPack.Big.{int_bits}
use rpcxx.MsgPack.Dump.{◌>>=◌}

-- `doCopy`, under any flags: they say only which bytes the copy shares with its source.
unfoldable mutual
  pub copy : ℕ → JsonView → Option JsonView
  copy zero v = none
  copy (suc depth) (array vs) = do parts ← copy_items depth vs; some (array parts)
  copy (suc depth) (object ps) = do parts ← copy_pairs depth ps; some (object parts)
  copy (suc depth) v = some v

  pub copy_items : ℕ → Items → Option Items
  copy_items depth no_items = some no_items
  copy_items depth (item v vs) = do
    first ← copy depth v
    more ← copy_items depth vs
    some (item first more)

  pub copy_pairs : ℕ → Pairs → Option Pairs
  copy_pairs depth no_pairs = some no_pairs
  copy_pairs depth (pair k v ps) = do
    value ← copy depth v
    more ← copy_pairs depth ps
    some (pair k value more)

-- The integers are compared as 64 bits; a negative one is no large unsigned one.
unfoldable pub same_sign_bits : ℕ → ℕ → Bool
same_sign_bits a b = if a == b then ltb a (2 ^ 63) else false

abbrev pub same_bool : Bool → Bool → Bool
same_bool true b = b
same_bool false true = false
same_bool false false = true

module _ (near : ℕ → ℕ → Bool) (near_int : ℕ → ℤ → Bool) (is_nan is_inf : ℕ → Bool) where
  unfoldable pub equal_signed : ℤ → JsonView → Bool
  unfolding same_sign_bits
  equal_signed i (signed j) = int_bits i == int_bits j
  equal_signed i (unsigned n) = same_sign_bits (int_bits i) n
  equal_signed i (number w) = near_int w i
  equal_signed i _ = false

  unfoldable pub equal_unsigned : ℕ → JsonView → Bool
  unfolding same_sign_bits
  equal_unsigned n (signed j) = same_sign_bits n (int_bits j)
  equal_unsigned n (unsigned m) = n == m
  equal_unsigned n (number w) = near_int w (pos n)
  equal_unsigned n _ = false

  unfoldable pub equal_number : ℕ → JsonView → Bool
  equal_number w (signed j) = near_int w j
  equal_number w (unsigned n) = near_int w (pos n)
  equal_number w (number x) = if is_nan w then is_nan x else if is_inf w then is_inf x else near w x
  equal_number w _ = false

  -- The cases that look at no part.
  unfoldable pub equal_leaf : JsonView → JsonView → Bool
  unfolding equal_signed equal_unsigned equal_number
  equal_leaf (signed i) other = equal_signed i other
  equal_leaf (unsigned n) other = equal_unsigned n other
  equal_leaf (number w) other = equal_number w other
  equal_leaf (boolean b) (boolean c) = same_bool b c
  equal_leaf (binary a) (binary b) = key_eq a b
  equal_leaf (string a) (string b) = key_eq a b
  equal_leaf null null = true
  equal_leaf (discarded a) (discarded b) = true
  equal_leaf (custom a) (custom b) = true
  equal_leaf _ _ = false

  unfoldable mutual
    unfolding equal_leaf

    pub deep_equal : ℕ → JsonView → JsonView → Option Bool
    deep_equal zero v w = none
    deep_equal (suc depth) (array vs) (array ws) =
        let parts = equal_items depth vs ws in
        if count_items vs == count_items ws then parts else some false
    deep_equal (suc depth) (object ps) (object qs) =
        let parts = equal_pairs depth ps qs in
        if count_pairs ps == count_pairs qs then parts else some false
    deep_equal (suc depth) (array vs) _ = some false
    deep_equal (suc depth) (object ps) _ = some false
    deep_equal (suc depth) v w = some (equal_leaf v w)

    -- The first difference ends the loop.
    pub equal_items : ℕ → Items → Items → Option Bool
    equal_items depth (item v vs) (item w ws) =
        let rest = equal_items depth vs ws in
        deep_equal depth v w >>= λ same. if same then rest else some false
    equal_items depth _ _ = some true

    pub equal_pairs : ℕ → Pairs → Pairs → Option Bool
    equal_pairs depth (pair j v ps) (pair k w qs) =
        let rest = equal_pairs depth ps qs in
        let value = deep_equal depth v w >>= λ same. if same then rest else some false in
        if key_eq j k then value else some false
    equal_pairs depth _ _ = some true
