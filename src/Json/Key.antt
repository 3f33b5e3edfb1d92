-- ===== src/Json/Key.antt =====
-- The order of object keys: `operator<` and `operator==` of std::string_view, as `KeyLess` and
-- `KeyEq` of include/json_view/json_view.hpp call them (bytes compared as unsigned, then lengths).
use rpcxx.Prelude.{compare, Ordering, ◌≡◌, refl, Bool, true, false, [], ◌∷◌, arith}
use rpcxx.Json.Value.{Bytes}

unfoldable pub key_lt : Bytes → Bytes → Bool
key_lt [] [] = false
key_lt [] (y ∷ ys) = true
key_lt (x ∷ xs) [] = false
key_lt (x ∷ xs) (y ∷ ys) = elim (compare x y) [
  | Ordering.lt ↦ true
  | Ordering.eq ↦ key_lt xs ys
  | Ordering.gt ↦ false
]

unfoldable pub key_eq : Bytes → Bytes → Bool
key_eq [] [] = true
key_eq [] (y ∷ ys) = false
key_eq (x ∷ xs) [] = false
key_eq (x ∷ xs) (y ∷ ys) = elim (compare x y) [
  | Ordering.lt ↦ false
  | Ordering.eq ↦ key_eq xs ys
  | Ordering.gt ↦ false
]

pub key_eq_refl : (a : Bytes) → key_eq a a ≡ true
unfolding key_eq
key_eq_refl [] = refl
key_eq_refl (x ∷ xs) = ground (arith, key_eq_refl xs)

pub key_eq→eq : (a b : Bytes) → key_eq a b ≡ true → a ≡ b
unfolding key_eq
key_eq→eq [] [] h = refl
key_eq→eq [] (y ∷ ys) h = cc
key_eq→eq (x ∷ xs) [] h = cc
key_eq→eq (x ∷ xs) (y ∷ ys) h = ground (arith, key_eq→eq xs ys)

pub key_lt_irrefl : (a : Bytes) → key_lt a a ≡ false
unfolding key_lt
key_lt_irrefl [] = refl
key_lt_irrefl (x ∷ xs) = ground (arith, key_lt_irrefl xs)

pub key_lt_trans : (a b c : Bytes) → key_lt a b ≡ true → key_lt b c ≡ true → key_lt a c ≡ true
unfolding key_lt
key_lt_trans [] [] c p q = cc
key_lt_trans [] (y ∷ ys) [] p q = cc
key_lt_trans [] (y ∷ ys) (z ∷ zs) p q = refl
key_lt_trans (x ∷ xs) [] c p q = cc
key_lt_trans (x ∷ xs) (y ∷ ys) [] p q = cc
key_lt_trans (x ∷ xs) (y ∷ ys) (z ∷ zs) p q = ground (arith, key_lt_trans xs ys zs)

-- A key that is neither below nor equal to another stands above it.
pub key_lt_total : (a b : Bytes) → key_lt a b ≡ false → key_eq a b ≡ false → key_lt b a ≡ true
unfolding key_lt key_eq
key_lt_total [] [] p q = cc
key_lt_total [] (y ∷ ys) p q = cc
key_lt_total (x ∷ xs) [] p q = refl
key_lt_total (x ∷ xs) (y ∷ ys) p q = ground (arith, key_lt_total xs ys)

pub key_lt→ne : (a b : Bytes) → key_lt a b ≡ true → key_eq a b ≡ false
unfolding key_lt key_eq
key_lt→ne [] [] p = cc
key_lt→ne [] (y ∷ ys) p = refl
key_lt→ne (x ∷ xs) [] p = cc
key_lt→ne (x ∷ xs) (y ∷ ys) p = ground (arith, key_lt→ne xs ys)

pub key_lt→ne_sym : (a b : Bytes) → key_lt a b ≡ true → key_eq b a ≡ false
unfolding key_lt key_eq
key_lt→ne_sym [] [] p = cc
key_lt→ne_sym [] (y ∷ ys) p = refl
key_lt→ne_sym (x ∷ xs) [] p = cc
key_lt→ne_sym (x ∷ xs) (y ∷ ys) p = ground (arith, key_lt→ne_sym xs ys)

pub key_lt_asym : (a b : Bytes) → key_lt a b ≡ true → key_lt b a ≡ false
unfolding key_lt
key_lt_asym [] [] p = cc
key_lt_asym [] (y ∷ ys) p = refl
key_lt_asym (x ∷ xs) [] p = cc
key_lt_asym (x ∷ xs) (y ∷ ys) p = ground (arith, key_lt_asym xs ys)

pub key_eq-lt : (j k i : Bytes) → key_lt j k ≡ true → key_eq j i ≡ true → key_eq k i ≡ false
key_eq-lt j k i h e = rw (← key_eq→eq j i e) (key_lt→ne_sym j k h)

pub key_eq_sym : (a b : Bytes) → key_eq a b ≡ key_eq b a
unfolding key_eq
key_eq_sym [] [] = refl
key_eq_sym [] (y ∷ ys) = refl
key_eq_sym (x ∷ xs) [] = refl
key_eq_sym (x ∷ xs) (y ∷ ys) = ground (arith, key_eq_sym xs ys)
