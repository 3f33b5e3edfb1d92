-- ===== src/Codegen/Orderly.antt =====
-- codegen/src/populate.cpp: the order of types, and what holds of results.
use rpcxx.Prelude.{
  ℕ, ◌+◌, ◌≤◌, ◌<◌, ◌≡◌, Option, List, [], ◌∷◌, ◌++◌, length, if_elim, arith, length-append,
}
use native.Mathlib.Nat.{add-zero, zero-add}
use rpcxx.Json.Value.{Bytes}
use rpcxx.Codegen.Lua.{Gen, done, err, panic, ◌>>=◌}
use rpcxx.Codegen.Types.{
  Ty, builtin, made, Namespace, Shape, enum, struct, array, map_of, optional, alias, with_default,
  with_attrs, Made, Ast, same_place, find_saved, Resolved, register_if_needed,
}
use rpcxx.Codegen.Resolve.{with_line, or_make}

-- Of the first n types that were registered, or built in.
abbrev pub IsBelow : ℕ → Ty → Type 0
IsBelow n (builtin k) = Unit
IsBelow n (made i) = i < n

abbrev pub AreBelow : ℕ → List (Bytes × Ty) → Type 0
AreBelow n [] = Unit
AreBelow n ((name, t) ∷ fs) = IsBelow n t × AreBelow n fs

-- All types that a type mentions.
abbrev pub MentionsBelow : ℕ → Shape → Type 0
MentionsBelow n (enum a vs) = Unit
MentionsBelow n (struct a fs) = AreBelow n fs
MentionsBelow n (array t) = IsBelow n t
MentionsBelow n (map_of t) = IsBelow n t
MentionsBelow n (optional t) = IsBelow n t
MentionsBelow n (alias t) = IsBelow n t
MentionsBelow n (with_default t v) = IsBelow n t
MentionsBelow n (with_attrs t a) = IsBelow n t

-- Every type of the list, from place n on, mentions only types at places before its own.
abbrev pub AreOrdered : ℕ → List Made → Type 0
AreOrdered n [] = Unit
AreOrdered n (m ∷ ms) = MentionsBelow n m.shape × AreOrdered (n + 1) ms

abbrev pub SavedBelow : ℕ → List ((Namespace × Bytes) × Ty) → Type 0
SavedBelow n [] = Unit
SavedBelow n ((k, t) ∷ saved) = IsBelow n t × SavedBelow n saved

pub IsBelow-le : (n m : ℕ) (t : Ty) → n ≤ m → IsBelow n t → IsBelow m t
IsBelow-le n m (builtin k) le h = tt
IsBelow-le n m (made i) le h = omega (arith, h, le)

pub AreBelow-le : (n m : ℕ) (fs : List (Bytes × Ty)) → n ≤ m → AreBelow n fs → AreBelow m fs
AreBelow-le n m [] le h = tt
AreBelow-le n m ((name, t) ∷ fs) le (h, hs) = (IsBelow-le n m t le h, AreBelow-le n m fs le hs)

pub SavedBelow-le :
    (n m : ℕ) (saved : List ((Namespace × Bytes) × Ty))
    → n ≤ m
    → SavedBelow n saved
    → SavedBelow m saved
SavedBelow-le n m [] le h = tt
SavedBelow-le n m ((k, t) ∷ saved) le (h, hs) =
    (IsBelow-le n m t le h, SavedBelow-le n m saved le hs)

pub AreOrdered-snoc :
    (n : ℕ) (ms : List Made) (m : Made)
    → AreOrdered n ms
    → MentionsBelow (n + length ms) m.shape
    → AreOrdered n (ms ++ m ∷ [])
AreOrdered-snoc n [] m o h = (rw (← add-zero n) h, tt)
AreOrdered-snoc n (x ∷ ms) m (ox, o) h =
    let e : n + 1 + length ms ≡ n + length (x ∷ ms) = omega arith in
    (ox, AreOrdered-snoc (n + 1) ms m o (rw e h))

pub record IsOrderly (ast : Ast) : Type 0 where
  pub ordered : AreOrdered 0 ast.types
  pub saved : SavedBelow (length ast.types) ast.saved_types

-- A state that a resolution ends in.
pub record IsAfter (ast ast' : Ast) : Type 0 where
  pub orderly : IsOrderly ast'
  pub grown : length ast.types ≤ length ast'.types

-- What holds of a result, if there is one.
abbrev pub OnDone {ℓ} : {A : Type ℓ} → (A → Type 0) → Gen A → Type 0
OnDone P (done a) = P a
OnDone P (err e) = Unit
OnDone P panic = Unit

pub OnDone-bind {ℓ} :
    {A B : Type ℓ} (P : A → Type 0) (Q : B → Type 0) (x : Gen A) (f : A → Gen B)
    → OnDone P x
    → ((a : A) → P a → OnDone Q (f a))
    → OnDone Q (x >>= f)
OnDone-bind P Q (done a) f h g = g a h
OnDone-bind P Q (err e) f h g = tt
OnDone-bind P Q panic f h g = tt

pub OnDone-any {ℓ} :
    {A B : Type ℓ} (Q : B → Type 0) (x : Gen A) (f : A → Gen B)
    → ((a : A) → OnDone Q (f a))
    → OnDone Q (x >>= f)
OnDone-any Q (done a) f g = g a
OnDone-any Q (err e) f g = tt
OnDone-any Q panic f g = tt

pub OnDone-with_line {ℓ} :
    {A : Type ℓ} (P : A → Type 0) (text name : Bytes) (x : Gen A)
    → OnDone P x
    → OnDone P (with_line text name x)
OnDone-with_line P text name (done a) h = h
OnDone-with_line P text name (err e) h = tt
OnDone-with_line P text name panic h = tt

abbrev pub GoodType : Ast → Ty × Ast → Type 0
GoodType ast (t, ast') = IsAfter ast ast' × IsBelow (length ast'.types) t

abbrev pub GoodFields : Ast → List (Bytes × Ty) × Ast → Type 0
GoodFields ast (fs, ast') = IsAfter ast ast' × AreBelow (length ast'.types) fs

pub find_saved-below :
    (n : ℕ) (k : Namespace × Bytes) (saved : List ((Namespace × Bytes) × Ty)) (ast : Ast)
    (r : Resolved)
    → IsOrderly ast
    → length ast.types ≡ n
    → SavedBelow n saved
    → OnDone (GoodType ast) r
    → OnDone (GoodType ast) (or_make (find_saved k saved) ast r)
unfolding find_saved
find_saved-below n k [] ast r o e b h = h
find_saved-below n k ((k', t) ∷ saved) ast r o e (bt, b) h =
    if_elim (λ (f : Option Ty). OnDone (GoodType ast) (or_make f ast r)) (same_place k k')
      (λ _. (record { orderly = o; grown = omega arith }, rw e bt))
      λ _. find_saved-below n k saved ast r o e b h

pub register-good :
    (ns : Namespace) (name : Bytes) (shape : Shape) (ast ast' : Ast)
    → IsAfter ast ast'
    → MentionsBelow (length ast'.types) shape
    → OnDone (GoodType ast) (register_if_needed ns name shape ast')
unfolding register_if_needed
register-good ns name shape ast ast' a h =
    let m : Made = record { ns = ns; name = name; shape = shape } in
    let len = length-append ast'.types (m ∷ []) in
    (
      record {
        orderly = record {
          ordered =
              AreOrdered-snoc 0 ast'.types m a.orderly.ordered
                (rw (zero-add (length ast'.types)) h);
          saved = (
            omega (arith, len),
            SavedBelow-le (length ast'.types) (length (ast'.types ++ m ∷ [])) ast'.saved_types
                (omega (arith, len)) a.orderly.saved,
          );
        };
        grown = omega (arith, len, a.grown);
      },
      omega (arith, len),
    )
