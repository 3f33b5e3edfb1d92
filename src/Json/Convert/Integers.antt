-- ===== src/Json/Convert/Integers.antt =====
-- include/json_view/json_view.hpp: which numbers an integer type takes.
use mathlib.Core.Path.{subst}
use mathlib.Core.Option.{some-injective}
use rpcxx.Prelude.{
  ℕ, ◌-◌, ◌^◌, ◌≤◌, ◌≡◌, ◌↔◌, sym, Option, none, some, ltb, ltb→lt, Bool-cases, inl, inr,
  if◌then◌else◌, arith,
}
use rpcxx.Prelude.Int.{ℤ, pos, negsuc}
use rpcxx.Json.Value.{JsonView, null, signed, unsigned}
use rpcxx.Json.Access.{Result, ok, throw, int_range_error}
use rpcxx.Json.Convert.{get_signed, get_unsigned}

-- The integer that a value holds, under either tag.
abbrev pub integer_of : JsonView → Option ℤ
integer_of (signed i) = some i
integer_of (unsigned n) = some (pos n)
integer_of v = none

-- The numbers of a signed type of `w` bits, for 0 < w: from -2^(w-1) to 2^(w-1) - 1.
abbrev pub IsSigned : ℕ → ℤ → Type 0
IsSigned w (pos n) = n ≤ 2 ^ (w - 1) - 1
IsSigned w (negsuc n) = n ≤ 2 ^ (w - 1) - 1

-- The numbers of an unsigned type of `w` bits: from 0 to 2^w - 1.
abbrev pub IsUnsigned : ℕ → ℤ → Type 0
IsUnsigned w (pos n) = n ≤ 2 ^ w - 1
IsUnsigned w (negsuc n) = ⊥

-- A number within a bound is taken, any other refused.
abbrev checked {ℓ} : {A : Type ℓ} → ℕ → ℕ → A → Result A
checked bound n a = if ltb bound n then throw int_range_error else ok a

checked-ok {ℓ} :
    {A : Type ℓ} (bound n : ℕ) (a b : A)
    → (checked bound n a ≡ ok b) ↔ ((some a ≡ some b) × (n ≤ bound))
checked-ok bound n a b = elim (Bool-cases (ltb bound n)) [
  | inl e ↦ rw e (λ h. absurd cc, λ h. absurd (omega (arith, h.1, ltb→lt bound n e)))
  | inr e ↦ rw e (λ h. (cc, ground arith), λ h. cc (h.0))
]

checked_iff {ℓ} :
    {A : Type ℓ} (bound n : ℕ) (a b : A) (P : A → Type 0)
    → (n ≤ bound → P a)
    → (P a → n ≤ bound)
    → (checked bound n a ≡ ok b) ↔ ((some a ≡ some b) × P b)
checked_iff bound n a b P to from = (
  λ h. let (e, le) = (checked-ok bound n a b).0 h in (e, subst P (some-injective a b e) (to le)),
  λ h. (checked-ok bound n a b).1 (h.0, from (subst P (sym (some-injective a b h.0)) (h.1))),
)

get_signed-ok :
    (w : ℕ) (v : JsonView) (i : ℤ)
    → (get_signed w v ≡ ok i) ↔ ((integer_of v ≡ some i) × IsSigned w i)
unfolding get_signed
get_signed-ok w (signed (pos n)) i = checked_iff _ n (pos n) i (IsSigned w) (λ h. h) (λ h. h)
get_signed-ok w (signed (negsuc n)) i = checked_iff _ n (negsuc n) i (IsSigned w) (λ h. h) (λ h. h)
get_signed-ok w (unsigned n) i = checked_iff _ n (pos n) i (IsSigned w) (λ h. h) (λ h. h)
get_signed-ok w null i = (λ h. absurd cc, λ h. absurd (cc (h.0)))
get_signed-ok w _ i = (λ h. absurd cc, λ h. absurd (cc (h.0)))

under_pos :
    (bound n m : ℕ) → (checked bound n n ≡ ok m) ↔ ((some (pos n) ≡ some (pos m)) × (m ≤ bound))
under_pos bound n m =
    let iff = checked_iff bound n n m (λ k. k ≤ bound) (λ h. h) (λ h. h) in
    (λ h. let (e, le) = iff.0 h in (cc e, le), λ h. iff.1 (cc (h.0), h.1))

get_unsigned-ok :
    (w : ℕ) (v : JsonView) (n : ℕ)
    → (get_unsigned w v ≡ ok n) ↔ ((integer_of v ≡ some (pos n)) × IsUnsigned w (pos n))
unfolding get_unsigned
get_unsigned-ok w (signed (pos m)) n = under_pos _ m n
get_unsigned-ok w (signed (negsuc m)) n = (λ h. absurd cc, λ h. absurd (cc (h.0)))
get_unsigned-ok w (unsigned m) n = under_pos _ m n
get_unsigned-ok w null n = (λ h. absurd cc, λ h. absurd (cc (h.0)))
get_unsigned-ok w _ n = (λ h. absurd cc, λ h. absurd (cc (h.0)))

-- A conversion to an integer type of w bits, at least one for a signed type, returns a number exactly
-- when the value holds this number, under whatever tag, and the type has it.
pub get_integer-exact :
    (w : ℕ) (v : JsonView) (i : ℤ) (n : ℕ)
    → ((get_signed w v ≡ ok i) ↔ ((integer_of v ≡ some i) × IsSigned w i))
      × ((get_unsigned w v ≡ ok n) ↔ ((integer_of v ≡ some (pos n)) × IsUnsigned w (pos n)))
get_integer-exact w v i n = (get_signed-ok w v i, get_unsigned-ok w v n)
