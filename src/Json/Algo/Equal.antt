-- ===== src/Json/Algo/Equal.antt =====
-- `DeepEqual` on values that differ in the tags of their integers alone.
use rpcxx.Prelude.{
  ℕ, zero, suc, ◌^◌, ◌<◌, ◌≤◌, ◌≡◌, refl, ap, Bool, true, false, some, ◌==◌, arith, Bool-cases, inl,
  inr,
}
use rpcxx.Prelude.Int.{ℤ, pos, negsuc}
use rpcxx.Json.Value.{
  JsonView, Items, Pairs, null, binary, boolean, number, string, signed, unsigned, array, object,
  discarded, custom, no_items, item, no_pairs, pair,
}
use rpcxx.Json.Key.{key_eq_refl}
use rpcxx.Json.Shape.{
  depth, depth_items, depth_pairs, count_items, count_pairs, canonical, canonical_items,
  canonical_pairs, IsEncodable, AreEncodable, AreEncodablePairs,
}
use rpcxx.MsgPack.Big.{int_bits}
use rpcxx.MsgPack.Encode.{depth_pos}
use rpcxx.Json.Algo.{
  deep_equal, equal_items, equal_pairs, equal_leaf, equal_number, equal_signed, equal_unsigned,
  same_sign_bits, same_bool,
}

too_flat : (v : JsonView) → depth v ≤ 0 → ⊥
too_flat v h = omega (arith, depth_pos v)

same_number : (n : ℕ) → (n == n) ≡ true
same_number n = ground arith

same_bool_refl : (b : Bool) → same_bool b b ≡ true
same_bool_refl true = refl
same_bool_refl false = refl

count-canonical_items : (vs : Items) → count_items (canonical_items vs) ≡ count_items vs
unfolding canonical
count-canonical_items no_items = refl
count-canonical_items (item v vs) = omega (arith, count-canonical_items vs)

count-canonical_pairs : (ps : Pairs) → count_pairs (canonical_pairs ps) ≡ count_pairs ps
unfolding canonical
count-canonical_pairs no_pairs = refl
count-canonical_pairs (pair k v ps) = omega (arith, count-canonical_pairs ps)

module _ (near : ℕ → ℕ → Bool) (near_int : ℕ → ℤ → Bool) (is_nan is_inf : ℕ → Bool)
    (near_self : (w : ℕ) → is_nan w ≡ false → is_inf w ≡ false → near w w ≡ true) where
  equal_number_refl : (w : ℕ) → equal_number near near_int is_nan is_inf w (number w) ≡ true
  unfolding equal_number
  equal_number_refl w = elim (Bool-cases (is_nan w)) [
    | inl a ↦ rw a refl
    | inr a ↦ elim (Bool-cases (is_inf w)) [
      | inl b ↦ rw (a, b) refl
      | inr b ↦ rw (a, b) (near_self w a b)
    ]
  ]

  same_pos :
      (n : ℕ) → n < 2 ^ 63 → equal_signed near near_int is_nan is_inf (pos n) (unsigned n) ≡ true
  unfolding equal_signed same_sign_bits int_bits
  same_pos n h = ground arith

  mutual
    unfolding deep_equal equal_leaf equal_signed equal_unsigned canonical depth

    equal-canonical :
        (d : ℕ) (v : JsonView)
        → IsEncodable v
        → depth v ≤ d
        → deep_equal near near_int is_nan is_inf d v (canonical v) ≡ some true
    equal-canonical zero v e h = absurd (too_flat v h)
    equal-canonical (suc d) null e h = refl
    equal-canonical (suc d) (boolean b) e h = rw (same_bool_refl b) refl
    equal-canonical (suc d) (number w) e h = rw (equal_number_refl w) refl
    equal-canonical (suc d) (signed (pos n)) e h = ap some (same_pos n e)
    equal-canonical (suc d) (signed (negsuc n)) e h = rw (same_number (int_bits (negsuc n))) refl
    equal-canonical (suc d) (unsigned n) e h = rw (same_number n) refl
    equal-canonical (suc d) (binary bin) e h = rw (key_eq_refl bin) refl
    equal-canonical (suc d) (string s) e h = rw (key_eq_refl s) refl
    equal-canonical (suc d) (discarded why) e h = absurd e
    equal-canonical (suc d) (custom ptr) e h = absurd e
    equal-canonical (suc d) (array vs) (c, e) h =
        rw (count-canonical_items vs, same_number (count_items vs))
          (equal_items-canonical d vs e (omega arith))
    equal-canonical (suc d) (object ps) (c, e) h =
        rw (count-canonical_pairs ps, same_number (count_pairs ps))
          (equal_pairs-canonical d ps e (omega arith))

    equal_items-canonical :
        (d : ℕ) (vs : Items)
        → AreEncodable vs
        → depth_items vs ≤ d
        → equal_items near near_int is_nan is_inf d vs (canonical_items vs) ≡ some true
    equal_items-canonical d no_items e h = refl
    equal_items-canonical d (item v vs) (e, es) h =
        rw (equal-canonical d v e (omega arith)) (equal_items-canonical d vs es (omega arith))

    equal_pairs-canonical :
        (d : ℕ) (ps : Pairs)
        → AreEncodablePairs ps
        → depth_pairs ps ≤ d
        → equal_pairs near near_int is_nan is_inf d ps (canonical_pairs ps) ≡ some true
    equal_pairs-canonical d no_pairs e h = refl
    equal_pairs-canonical d (pair k v ps) (l, e, es) h =
        rw (key_eq_refl k, equal-canonical d v e (omega arith))
          (equal_pairs-canonical d ps es (omega arith))

  -- `DeepEqual` under depth d holds between a value of at most d levels whose numbers fit their types and
  -- the value with the unsigned tag on its integers at or above zero, as a value is after it has
  -- been written to MessagePack and read back. Of doubles it is assumed that one which is neither NaN nor
  -- infinite is within the margin of itself.
  pub deep_equal-canonical :
      (d : ℕ) (v : JsonView)
      → IsEncodable v
      → depth v ≤ d
      → deep_equal near near_int is_nan is_inf d v (canonical v) ≡ some true
  deep_equal-canonical d v e h = equal-canonical d v e h
