-- ===== src/Json/Pointer/Decimal.antt =====
-- src/json_view/pointer.cpp: the numbers that texts of digits stand for.
use native.Mathlib.Nat.{add-mul, mul_assoc, pow-succ', pow-suc}
use rpcxx.Prelude.{
  ℕ, zero, suc, ◌+◌, ◌-◌, ◌*◌, ◌/◌, ◌%◌, ◌^◌, ◌≤◌, ◌<◌, ◌≡◌, refl, ap, ◌∙◌, true, false, none, some,
  [], ◌∷◌, ◌++◌, length, length-append, ltb, if_elim, if◌then◌else◌, arith, ltb→lt, lt→ltb,
  Bool-cases, inl, inr,
}
use rpcxx.Json.Value.{Bytes}
use rpcxx.Json.Access.{ok}
use rpcxx.Json.Pointer.{index, from_chars, parse_one_key, is_digit, to_chars}
use rpcxx.Json.Pointer.Rounds.{all_digits}

-- The value of a text of digits by their places.
unfoldable pub place_value : Bytes → ℕ
place_value [] = 0
place_value (ch ∷ text) = (ch - 48) * 10 ^ length text + place_value text

abbrev total : ℕ → Bytes → ℕ
total acc [] = acc
total acc (ch ∷ raw) = total (acc * 10 + (ch - 48)) raw

total-le : (acc : ℕ) (raw : Bytes) → acc ≤ total acc raw
total-le acc [] = omega arith
total-le acc (ch ∷ raw) = omega (arith, total-le (acc * 10 + (ch - 48)) raw)

total-place : (acc : ℕ) (raw : Bytes) → total acc raw ≡ acc * 10 ^ length raw + place_value raw
unfolding place_value
total-place acc [] = omega arith
total-place acc (ch ∷ raw) =
    let p = 10 ^ length raw in
    let d = ch - 48 in
    omega (
      arith,
      total-place (acc * 10 + d) raw,
      add-mul (acc * 10) d p,
      mul_assoc acc 10 p,
      ap (λ x. acc * x) (pow-succ' 10 (length raw)),
    )

from_chars-total :
    (acc : ℕ) (raw : Bytes)
    → acc < 2 ^ 32
    → from_chars acc raw ≡ (if ltb (total acc raw) (2 ^ 32) then some (total acc raw) else none)
unfolding from_chars
from_chars-total acc [] lt = rw (lt→ltb acc (2 ^ 32) lt) refl
from_chars-total acc (ch ∷ raw) lt =
    let x = acc * 10 + (ch - 48) in
    elim (Bool-cases (ltb x (2 ^ 32))) [
      | inl e ↦ rw e (from_chars-total x raw (ltb→lt x (2 ^ 32) e))
      | inr e ↦
          let big : ltb (total x raw) (2 ^ 32) ≡ false = ground (arith, e, total-le x raw) in
          rw (e, big) refl
    ]

-- from_chars gives the value by the places, if it is below 2^32.
pub from_chars-place :
    (raw : Bytes)
    → from_chars 0 raw ≡ (if ltb (place_value raw) (2 ^ 32) then some (place_value raw) else none)
from_chars-place raw =
    let same : total 0 raw ≡ place_value raw = omega (arith, total-place 0 raw) in
    from_chars-total 0 raw (omega arith) ∙ ap (λ x. if ltb x (2 ^ 32) then some x else none) same

total-snoc :
    (acc : ℕ) (xs : Bytes) (c : ℕ) → total acc (xs ++ c ∷ []) ≡ total acc xs * 10 + (c - 48)
total-snoc acc [] c = refl
total-snoc acc (x ∷ xs) c = total-snoc (acc * 10 + (x - 48)) xs c

to_chars-total : (k n : ℕ) → n < 10 ^ k → total 0 (to_chars k n) ≡ n
unfolding to_chars
to_chars-total zero n lt = omega arith
to_chars-total (suc k) n lt =
    if_elim (λ t. total 0 t ≡ n) (ltb n 10) (λ e. omega arith)
      λ e.
        let small : n / 10 < 10 ^ k = omega (arith, pow-suc 10 k, lt) in
        omega
          (arith, total-snoc 0 (to_chars k (n / 10)) (48 + n % 10), to_chars-total k (n / 10) small)

all_digits-snoc :
    (xs : Bytes) (c : ℕ)
    → all_digits xs ≡ true
    → is_digit c ≡ true
    → all_digits (xs ++ c ∷ []) ≡ true
all_digits-snoc [] c h d = rw d refl
all_digits-snoc (x ∷ xs) c h d = elim (Bool-cases (is_digit x)) [
  | inl e ↦ rw e (all_digits-snoc xs c (rw e at h) d)
  | inr e ↦ let f : false ≡ true = rw e at h in absurd cc
]

digit-is_digit : (d : ℕ) → d < 10 → is_digit (48 + d) ≡ true
digit-is_digit d lt = ground arith

to_chars-digits : (k n : ℕ) → all_digits (to_chars k n) ≡ true
unfolding to_chars
to_chars-digits zero n = refl
to_chars-digits (suc k) n =
    if_elim (λ t. all_digits t ≡ true) (ltb n 10) (λ e. rw (digit-is_digit n (ltb→lt n 10 e)) refl)
      λ e.
        all_digits-snoc (to_chars k (n / 10)) (48 + n % 10) (to_chars-digits k (n / 10))
          (digit-is_digit (n % 10) (omega arith))

to_chars-some : (k n : ℕ) → 0 < length (to_chars (suc k) n)
unfolding to_chars
to_chars-some k n = elim (Bool-cases (ltb n 10)) [
  | inl e ↦ rw e (omega arith)
  | inr e ↦ rw e (omega (arith, length-append (to_chars k (n / 10)) ((48 + n % 10) ∷ [])))
]

-- The text that Join writes for an index is read as that index.
pub to_chars-parse :
    (n : ℕ) → n < 2 ^ 32 → parse_one_key (to_chars 10 n) (all_digits (to_chars 10 n)) ≡ ok (index n)
unfolding parse_one_key
to_chars-parse n lt =
    let value : place_value (to_chars 10 n) ≡ n =
      omega (arith, total-place 0 (to_chars 10 n), to_chars-total 10 n (omega (arith, lt))) in
    by_text (to_chars 10 n) (to_chars-digits 10 n) value
      (from_chars-place (to_chars 10 n)
        ∙ ap (λ x. if ltb x (2 ^ 32) then some x else none) value
        ∙ rw (lt→ltb n (2 ^ 32) lt) refl)
      (to_chars-some 9 n)
  where
    by_text :
        (t : Bytes)
        → all_digits t ≡ true
        → place_value t ≡ n
        → from_chars 0 t ≡ some n
        → 0 < length t
        → parse_one_key t (all_digits t) ≡ ok (index n)
    by_text [] d v f l = absurd (omega arith)
    by_text (ch ∷ t) d v f l = rw (d, f) refl
