-- ===== src/MsgPack/Big.antt =====
-- `toBig` and `fromBig`: an unsigned integer of `n` bytes, the highest byte first. A wider number
-- is narrowed to its `n` lowest bytes, as the casts at the calls do.
use rpcxx.Prelude.{
  ℕ, zero, suc, ◌+◌, ◌-◌, ◌*◌, ◌/◌, ◌%◌, ◌^◌, ◌<◌, ◌≡◌, refl, ◌∙◌, [], ◌∷◌, ◌++◌, arith, ltb,
  if◌then◌else◌, length, length-append,
}
use rpcxx.Prelude.Int.{ℤ, pos, negsuc}
use native.Mathlib.Nat.{pow-suc}
use rpcxx.Json.Value.{Bytes}

unfoldable pub to_big : ℕ → ℕ → Bytes
to_big zero w = []
to_big (suc n) w = to_big n (w / 256) ++ w % 256 ∷ []

-- `acc` holds the bytes read before.
unfoldable pub from_big : ℕ → Bytes → ℕ
from_big acc [] = acc
from_big acc (b ∷ bs) = from_big (acc * 256 + b) bs

-- The bit pattern of an int64_t, and the number that a pattern of `n` bytes stands for.
unfoldable pub int_bits : ℤ → ℕ
int_bits (pos n) = n
int_bits (negsuc n) = 2 ^ 64 - 1 - n

unfoldable pub int_of_bits : ℕ → ℕ → ℤ
int_of_bits n w = if ltb w (256 ^ n / 2) then pos w else negsuc (256 ^ n - 1 - w)

pub length-to_big : (n w : ℕ) → length (to_big n w) ≡ n
unfolding to_big
length-to_big zero w = refl
length-to_big (suc n) w =
    omega (arith, length-append (to_big n (w / 256)) (w % 256 ∷ []), length-to_big n (w / 256))

from_big-append : (acc b : ℕ) (bs : Bytes) → from_big acc (bs ++ b ∷ []) ≡ from_big acc bs * 256 + b
unfolding from_big
from_big-append acc b [] = refl
from_big-append acc b (c ∷ bs) = from_big-append (acc * 256 + c) b bs

-- The bytes of a number that fits read back as that number.
pub from_big-to_big : (n w : ℕ) → w < 256 ^ n → from_big 0 (to_big n w) ≡ w
unfolding to_big
from_big-to_big zero w h = unfold from_big in omega arith
from_big-to_big (suc n) w h =
    let fits : w / 256 < 256 ^ n = omega (arith, pow-suc 256 n, h) in
    from_big-append 0 (w % 256) (to_big n (w / 256))
    ∙ omega (arith, from_big-to_big n (w / 256) fits)

-- The low bytes of a negative number hold it in the narrower two's complement.
pub narrow_one :
    (n : ℕ) → n < 2 ^ 7 → int_of_bits 1 (from_big 0 (to_big 1 (int_bits (negsuc n)))) ≡ negsuc n
unfolding int_of_bits from_big to_big int_bits
narrow_one n h = ground arith

pub narrow_two :
    (n : ℕ) → n < 2 ^ 15 → int_of_bits 2 (from_big 0 (to_big 2 (int_bits (negsuc n)))) ≡ negsuc n
unfolding int_of_bits from_big to_big int_bits
narrow_two n h = ground arith

pub narrow_four :
    (n : ℕ) → n < 2 ^ 31 → int_of_bits 4 (from_big 0 (to_big 4 (int_bits (negsuc n)))) ≡ negsuc n
unfolding int_of_bits from_big to_big int_bits
narrow_four n h = ground arith

pub narrow_eight :
    (n : ℕ) → n < 2 ^ 63 → int_of_bits 8 (from_big 0 (to_big 8 (int_bits (negsuc n)))) ≡ negsuc n
unfolding int_of_bits int_bits
narrow_eight n h = rw (from_big-to_big 8 (2 ^ 64 - 1 - n) (omega arith)) (ground arith)
