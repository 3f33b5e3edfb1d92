-- ===== src/Codegen/Params.antt =====
-- codegen/src/populate.cpp: parameters that mention types of the AST.
use rpcxx.Prelude.{
  ℕ, zero, suc, ◌≤◌, ◌^◌, ◌-◌, ◌==◌, Option, none, some, List, [], ◌∷◌, ◌++◌, length, if_elim,
  arith,
}
use rpcxx.Prelude.Int.{ℤ}
use rpcxx.Json.Value.{Bytes}
use rpcxx.Codegen.Lua.{Lua, Gen, done, err, panic, get_sv, put_at}
use rpcxx.Codegen.Types.{Ty, Ast}
use rpcxx.Codegen.Resolve.{is_true}
use rpcxx.Codegen.Methods.{
  Params, params_array, params_named, params_pack, NotifyDecl, Method, empty_params, place,
  add_param,
}
use rpcxx.Codegen.Orderly.{
  IsBelow, AreBelow, IsOrderly, IsAfter, IsBelow-le, AreBelow-le, OnDone, OnDone-any,
}

abbrev pub PlacesBelow : ℕ → List (Option Ty) → Type 0
PlacesBelow n [] = Unit
PlacesBelow n (none ∷ ps) = PlacesBelow n ps
PlacesBelow n (some t ∷ ps) = IsBelow n t × PlacesBelow n ps

-- The types that the parameters have are built in or of the first n; a place may have none.
abbrev pub ParamsBelow : ℕ → Params → Type 0
ParamsBelow n (params_array ps) = PlacesBelow n ps
ParamsBelow n (params_named ps) = AreBelow n ps
ParamsBelow n (params_pack none) = Unit
ParamsBelow n (params_pack (some t)) = IsBelow n t

abbrev pub NotifiesBelow : ℕ → List NotifyDecl → Type 0
NotifiesBelow n [] = Unit
NotifiesBelow n (x ∷ xs) = ParamsBelow n x.params × NotifiesBelow n xs

abbrev pub MethodsBelow : ℕ → List Method → Type 0
MethodsBelow n [] = Unit
MethodsBelow n (x ∷ xs) = (ParamsBelow n x.notify.params × IsBelow n x.returns) × MethodsBelow n xs

pub PlacesBelow-le : (n m : ℕ) (ps : List (Option Ty)) → n ≤ m → PlacesBelow n ps → PlacesBelow m ps
PlacesBelow-le n m [] le h = tt
PlacesBelow-le n m (none ∷ ps) le h = PlacesBelow-le n m ps le h
PlacesBelow-le n m (some t ∷ ps) le (h, hs) = (IsBelow-le n m t le h, PlacesBelow-le n m ps le hs)

pub ParamsBelow-le : (n m : ℕ) (p : Params) → n ≤ m → ParamsBelow n p → ParamsBelow m p
ParamsBelow-le n m (params_array ps) le h = PlacesBelow-le n m ps le h
ParamsBelow-le n m (params_named ps) le h = AreBelow-le n m ps le h
ParamsBelow-le n m (params_pack none) le h = tt
ParamsBelow-le n m (params_pack (some t)) le h = IsBelow-le n m t le h

pub MethodsBelow-le : (n m : ℕ) (ms : List Method) → n ≤ m → MethodsBelow n ms → MethodsBelow m ms
MethodsBelow-le n m [] le h = tt
MethodsBelow-le n m (x ∷ xs) le ((p, r), h) = (
  (ParamsBelow-le n m x.notify.params le p, IsBelow-le n m x.returns le r),
  MethodsBelow-le n m xs le h,
)

pub put_at-PlacesBelow :
    (n idx : ℕ) (t : Ty) (ps : List (Option Ty))
    → IsBelow n t
    → PlacesBelow n ps
    → PlacesBelow n (put_at idx t ps)
unfolding put_at
put_at-PlacesBelow n zero t [] b h = (b, tt)
put_at-PlacesBelow n zero t (none ∷ ps) b h = (b, h)
put_at-PlacesBelow n zero t (some x ∷ ps) b (_, h) = (b, h)
put_at-PlacesBelow n (suc idx) t [] b h = put_at-PlacesBelow n idx t [] b tt
put_at-PlacesBelow n (suc idx) t (none ∷ ps) b h = put_at-PlacesBelow n idx t ps b h
put_at-PlacesBelow n (suc idx) t (some x ∷ ps) b (bx, h) = (bx, put_at-PlacesBelow n idx t ps b h)

pub append-AreBelow :
    (n : ℕ) (ps : List (Bytes × Ty)) (k : Bytes) (t : Ty)
    → IsBelow n t
    → AreBelow n ps
    → AreBelow n (ps ++ (k, t) ∷ [])
append-AreBelow n [] k t b h = (b, tt)
append-AreBelow n ((x, y) ∷ ps) k t b (by', h) = (by', append-AreBelow n ps k t b h)

pub add_param-good :
    (to_integer : Lua → ℤ) (n : ℕ) (key : Lua) (t : Ty) (p : Params)
    → IsBelow n t
    → ParamsBelow n p
    → OnDone (ParamsBelow n) (add_param to_integer key t p)
unfolding add_param
add_param-good to_integer n key t (params_pack item) b h = b
add_param-good to_integer n key t (params_array ps) b h =
    if_elim (OnDone (ParamsBelow n)) (place (to_integer key) == 2 ^ 32 - 1) (λ _. tt)
      λ _. put_at-PlacesBelow n (place (to_integer key)) t ps b h
add_param-good to_integer n key t (params_named ps) b h =
    OnDone-any (ParamsBelow n) (get_sv key) _ λ k. append-AreBelow n ps k t b h

pub empty_params-below : (n : ℕ) (pack named : Lua) → ParamsBelow n (empty_params pack named)
empty_params-below n pack named =
    if_elim (ParamsBelow n) (is_true pack) (λ _. tt)
      λ _. if_elim (ParamsBelow n) (is_true named) (λ _. tt) λ _. tt

abbrev pub Good : {A : Type 0} → (ℕ → A → Type 0) → Ast → A × Ast → Type 0
Good P ast (a, ast') = IsAfter ast ast' × P (length ast'.types) a

abbrev pub MethodBelow : ℕ → Method → Type 0
MethodBelow n m = ParamsBelow n m.notify.params × IsBelow n m.returns

abbrev pub NotifyBelow : ℕ → NotifyDecl → Type 0
NotifyBelow n m = ParamsBelow n m.params

pub unchanged : (ast : Ast) → IsOrderly ast → IsAfter ast ast
unchanged ast o = record { orderly = o; grown = omega arith }

pub through : (a b c : Ast) → IsAfter a b → IsAfter b c → IsAfter a c
through a b c f g = record { orderly = g.orderly; grown = omega (arith, f.grown, g.grown) }

pub Good-after :
    {A : Type 0} (P : ℕ → A → Type 0) (a b : Ast) (x : Gen (A × Ast))
    → IsAfter a b
    → OnDone (Good P b) x
    → OnDone (Good P a) x
Good-after P a b (done (v, c)) f (g, h) = (through a b c f g, h)
Good-after P a b (err e) f h = tt
Good-after P a b panic f h = tt
