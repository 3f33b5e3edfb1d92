-- ===== src/MsgPack/Post.antt =====
-- Postconditions of a parser: where it may leave the input, and what holds of its value.
use rpcxx.Prelude.{
  ◌≡◌, refl, ◌∙◌, Bool, true, false, [], ◌++◌, append_assoc, if◌then◌else◌, ap, sym,
}
use mathlib.Core.Path.{subst}
use rpcxx.Json.Value.{Bytes}
use rpcxx.MsgPack.Parse.{Parser, Parsed, Reason, done, fail, ◌>>=◌}

abbrev pub IsSuffix : Bytes → Bytes → Type 0
IsSuffix rest s = (front : Bytes) × (s ≡ front ++ rest)

pub IsSuffix-refl : (s : Bytes) → IsSuffix s s
IsSuffix-refl s = ([], refl)

pub IsSuffix-trans : {a b c : Bytes} → IsSuffix a b → IsSuffix b c → IsSuffix a c
IsSuffix-trans {a} (f, p) (g, q) = (g ++ f, q ∙ ap (λ t. g ++ t) p ∙ sym (append_assoc g f a))

-- The parser stops within its input `s`, on success and on failure, and a value satisfies `P`.
pub data Post {A : Type 0} (P : A → Type 0) (s : Bytes) : Parsed A → Type 0 where
  good : {a : A} {rest : Bytes} → IsSuffix rest s → P a → Post P s (done a rest)
  bad : {e : Reason} {rest : Bytes} → IsSuffix rest s → Post P s (fail e rest)

pub Post-widen :
    {A : Type 0} {P : A → Type 0} {s t : Bytes} {m : Parsed A}
    → IsSuffix s t
    → Post P s m
    → Post P t m
Post-widen h (good r p) = good (IsSuffix-trans r h) p
Post-widen h (bad r) = bad (IsSuffix-trans r h)

pub Post-bind :
    {A B : Type 0} {P : A → Type 0} {Q : B → Type 0} {s : Bytes} {m : Parsed A} {f : A → Parser B}
    → Post P s m
    → ((a : A) (rest : Bytes) → P a → Post Q rest (f a rest))
    → Post Q s (m >>= f)
Post-bind (good {a} {rest} r p) k = Post-widen r (k a rest p)
Post-bind (bad r) k = bad r

pub Post-if :
    {A : Type 0} {P : A → Type 0} {s : Bytes} (b : Bool) {m n : Parsed A}
    → Post P s m
    → Post P s n
    → Post P s (if b then m else n)
Post-if true h k = h
Post-if false h k = k

-- A value read from a state stops the parser there.
pub Post-done : {A : Type 0} {P : A → Type 0} (a : A) (s : Bytes) → P a → Post P s (done a s)
Post-done a s p = good (IsSuffix-refl s) p

pub Post-fail : {A : Type 0} {P : A → Type 0} (e : Reason) (s : Bytes) → Post P s (fail e s)
Post-fail e s = bad (IsSuffix-refl s)

pub Post-ok :
    {A : Type 0} {P : A → Type 0} {s : Bytes} {m : Parsed A} {a : A} {rest : Bytes}
    → Post P s m
    → m ≡ done a rest
    → IsSuffix rest s × P a
Post-ok {P = P} {s = s} {a = b} {rest = t} (good {a} {rest} h p) e =
    let value : a ≡ b = cc in
    let state : rest ≡ t = cc in (subst (λ r. IsSuffix r s) state h, subst P value p)
Post-ok (bad h) e = cc

pub Post-error :
    {A : Type 0} {P : A → Type 0} {s : Bytes} {m : Parsed A} {e : Reason} {rest : Bytes}
    → Post P s m
    → m ≡ fail e rest
    → IsSuffix rest s
Post-error (good h p) e = cc
Post-error {s = s} {rest = t} (bad {rest = rest} h) e =
    let state : rest ≡ t = cc in subst (λ r. IsSuffix r s) state h
