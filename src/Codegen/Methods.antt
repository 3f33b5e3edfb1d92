-- ===== src/Codegen/Methods.antt =====
-- codegen/src/populate.cpp: resolveMethod, resolveNotify and parseOneNamespace.
use rpcxx.Prelude.{
  ℕ, zero, suc, ◌+◌, ◌-◌, ◌%◌, ◌^◌, Bool, false, Option, none, some, List, [], ◌∷◌, ◌++◌,
  if◌then◌else◌, ◌==◌,
}
use rpcxx.Prelude.Int.{ℤ, pos, negsuc}
use rpcxx.Json.Value.{Bytes}
use rpcxx.Codegen.Lua.{Lua, lua_string, Gen, done, panic, ◌>>=◌, get_sv, put_at}
use rpcxx.Codegen.Types.{Ty, Ast, TypeTable, FieldTables}
use rpcxx.Codegen.Resolve.{is_true, name_of, resolve_type, resolve_types, new_ast}

pub data Params : Type 0 where
  params_array : List (Option Ty) → Params
  params_named : List (Bytes × Ty) → Params
  params_pack : Option Ty → Params

pub record NotifyDecl : Type 0 where
  pub service : Bytes
  pub name : Bytes
  pub params : Params

-- `timeout` stays what it is by default.
pub record Method : Type 0 where
  pub notify : NotifyDecl
  pub returns : Ty
  pub async : Bool

-- What doResolveNotify reads: of a parameter its key, and its table if it is one.
pub record NotifyTable : Type 0 where
  pub pack : Lua
  pub named : Lua
  pub service : Lua
  pub name : Lua
  pub params : List (Lua × Option TypeTable)

pub record MethodTable : Type 0 where
  pub call : NotifyTable
  pub async : Lua
  pub returns : TypeTable

-- Keys that begin with two underscores are no parameters.
abbrev pub is_hidden : Lua → Bool
is_hidden (lua_string (a ∷ b ∷ s)) = if a == 95 then b == 95 else false
is_hidden _ = false

abbrev pub empty_params : Lua → Lua → Params
empty_params pack named =
    if is_true pack
    then params_pack none
    else (if is_true named then params_named [] else params_array [])

-- `unsigned(lua_tointeger(L, -2) - 1)`.
abbrev pub place : ℤ → ℕ
place (pos (suc n)) = n % 2 ^ 32
place (pos zero) = 2 ^ 32 - 1
place (negsuc n) = (2 ^ 32 - (n + 2) % 2 ^ 32) % 2 ^ 32

-- The write at the place, behind `resize(idx + 1)`. For the last place that makes the vector empty and
-- the write goes outside of it: a panic stands for that.
abbrev pub write_param : ℕ → Ty → List (Option Ty) → Gen Params
write_param idx par arr =
    if idx == 2 ^ 32 - 1 then panic else done (params_array (put_at idx par arr))

unfoldable pub add_param : (Lua → ℤ) → Lua → Ty → Params → Gen Params
unfolding put_at
add_param to_integer key par (params_pack item) = done (params_pack (some par))
add_param to_integer key par (params_array arr) = write_param (place (to_integer key)) par arr
add_param to_integer key par (params_named named) =
    get_sv key >>= λ k. done (params_named (named ++ (k, par) ∷ []))

-- What parseOneNamespace leaves in the AST.
pub record Spec : Type 0 where
  pub ast : Ast
  pub methods : List Method
  pub notifies : List NotifyDecl

module _ (builtins : Bytes → Option ℕ) (show : ℕ → Bytes) (to_integer : Lua → ℤ) where
  unfoldable pub resolve_params : List (Lua × Option TypeTable) → Params → Ast → Gen (Params × Ast)
  unfolding resolve_type add_param
  resolve_params [] res ast = done (res, ast)
  resolve_params ((key, none) ∷ ps) res ast = resolve_params ps res ast
  resolve_params ((key, some t) ∷ ps) res ast =
      let rest = resolve_params ps res ast in
      if is_hidden key
      then rest
      else (get_sv (name_of t) >>= λ pname.
          resolve_type builtins show to_integer pname t ast >>= λ r.
          add_param to_integer key r.0 res >>= λ res'. resolve_params ps res' r.1)

  -- `doResolveNotify`.
  unfoldable pub do_resolve_notify : NotifyTable → Ast → Gen (NotifyDecl × Ast)
  unfolding resolve_params
  do_resolve_notify t ast = get_sv t.service >>= λ service. get_sv t.name >>= λ name.
      resolve_params t.params (empty_params t.pack t.named) ast >>= λ r.
      done (record { service = service; name = name; params = r.0 }, r.1)

  unfoldable pub resolve_method : MethodTable → Ast → Gen (Method × Ast)
  unfolding do_resolve_notify resolve_type
  resolve_method t ast = do_resolve_notify t.call ast >>= λ n.
      get_sv (name_of t.returns) >>= λ retname.
      resolve_type builtins show to_integer retname t.returns n.1 >>= λ r.
      done (record { notify = n.0; returns = r.0; async = is_true t.async }, r.1)

  unfoldable pub resolve_methods : List MethodTable → Ast → Gen (List Method × Ast)
  unfolding resolve_method
  resolve_methods [] ast = done ([], ast)
  resolve_methods (t ∷ ts) ast =
      resolve_method t ast >>= λ m. resolve_methods ts m.1 >>= λ ms. done (m.0 ∷ ms.0, ms.1)

  unfoldable pub resolve_notifies : List NotifyTable → Ast → Gen (List NotifyDecl × Ast)
  unfolding do_resolve_notify
  resolve_notifies [] ast = done ([], ast)
  resolve_notifies (t ∷ ts) ast =
      do_resolve_notify t ast >>= λ n. resolve_notifies ts n.1 >>= λ ns. done (n.0 ∷ ns.0, ns.1)

  -- `parseOneNamespace`, of a new AST.
  unfoldable pub parse_one_namespace : FieldTables → List MethodTable → List NotifyTable → Gen Spec
  unfolding resolve_types resolve_methods resolve_notifies
  parse_one_namespace types methods notify =
      resolve_types builtins show to_integer types new_ast >>= λ ast.
      resolve_methods methods ast >>= λ ms. resolve_notifies notify ms.1 >>= λ ns.
      done (record { ast = ns.1; methods = ms.0; notifies = ns.0 })
