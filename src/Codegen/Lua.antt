-- ===== src/Codegen/Lua.antt =====
-- codegen/src/populate.cpp: values of Lua, and parseDefault.
--
-- A table is the list of its pairs as lua_next gives them, without metamethods. A number of Lua that is no
-- integer is the 64-bit pattern of a double.
use rpcxx.Prelude.{
  ℕ, zero, suc, ◌+◌, Bool, true, false, Option, none, some, List, [], ◌∷◌, ◌++◌, if◌then◌else◌,
}
use rpcxx.Prelude.Int.{ℤ, pos}
use rpcxx.Prelude.Text.{codes}
use rpcxx.Json.Value.{Bytes}

mutual
  pub data Lua : Type 0 where
    lua_nil : Lua
    lua_boolean : Bool → Lua
    lua_integer : ℤ → Lua
    lua_number : ℕ → Lua
    lua_string : Bytes → Lua
    lua_table : LuaPairs → Lua
    lua_other : Bytes → Lua

  pub data LuaPairs : Type 0 where
    no_entries : LuaPairs
    entry : Lua → Lua → LuaPairs → LuaPairs

-- A result, the text of an exception, or an error of Lua that nothing catches.
pub data Gen {ℓ} (A : Type ℓ) : Type ℓ where
  done : A → Gen A
  err : Bytes → Gen A
  panic : Gen A

infixl 20 ◌>>=◌
abbrev pub ◌>>=◌ {ℓ} : {A B : Type ℓ} → Gen A → (A → Gen B) → Gen B
done a >>= f = f a
err e >>= f = err e
panic >>= f = panic

-- `luaL_typename`.
unfoldable pub lua_typename : Lua → Bytes
lua_typename lua_nil = codes "nil"
lua_typename (lua_boolean b) = codes "boolean"
lua_typename (lua_integer i) = codes "number"
lua_typename (lua_number n) = codes "number"
lua_typename (lua_string s) = codes "string"
lua_typename (lua_table ps) = codes "table"
lua_typename (lua_other t) = t

-- `getSV`.
unfoldable pub get_sv : Lua → Gen Bytes
unfolding lua_typename
get_sv (lua_string s) = done s
get_sv v = err (codes "Expected string, got: " ++ lua_typename v)

-- `def::Value`. A table has its pairs in the order of the table that it comes from, whose keys
-- differ.
mutual
  pub data DefaultValue : Type 0 where
    nil : DefaultValue
    int : ℤ → DefaultValue
    num : ℕ → DefaultValue
    string : Bytes → DefaultValue
    bool : Bool → DefaultValue
    table : Entries → DefaultValue
    array : Values → DefaultValue

  pub data Entries : Type 0 where
    no_entry : Entries
    key_value : Bytes → DefaultValue → Entries → Entries

  pub data Values : Type 0 where
    no_values : Values
    value : DefaultValue → Values → Values

-- `allInts`, and whether a key is of neither kind.
unfoldable pub all_ints : LuaPairs → Bool → Gen Bool
all_ints no_entries ints = done ints
all_ints (entry (lua_integer i) v ps) true = all_ints ps true
all_ints (entry (lua_string s) v ps) ints = all_ints ps false
all_ints (entry k v ps) ints = err (codes "Non-string/int keys are not supported in tables")

-- `res.value.resize(idx + 1)` and the write at idx, for places that may be empty.
unfoldable pub put_at {ℓ} : {A : Type ℓ} → ℕ → A → List (Option A) → List (Option A)
put_at zero v [] = some v ∷ []
put_at zero v (x ∷ xs) = some v ∷ xs
put_at (suc idx) v [] = none ∷ put_at idx v []
put_at (suc idx) v (x ∷ xs) = x ∷ put_at idx v xs

-- The last loop of `parseArr`. The text has the index `idx`.
unfoldable pub populated : (ℕ → Bytes) → ℕ → List (Option DefaultValue) → Gen Values
populated show idx [] = done no_values
populated show idx (none ∷ xs) =
    err (codes "Index in default-array #" ++ show idx ++ codes " not populated")
populated show idx (some v ∷ xs) = populated show (idx + 1) xs >>= λ vs. done (value v vs)

abbrev negative_index : {A : Type 0} → Gen A
negative_index = err (codes "Negative index in default-array")

-- `lua_tointeger(L, -2)`, less 1. What is no integer counts as 0.
abbrev pub place_of : Lua → Gen ℕ
place_of (lua_integer (pos (suc idx))) = done idx
place_of k = negative_index

unfoldable mutual
  -- `parseArr`, up to its last loop, and `parseTable`.
  pub parse_arr :
      (ℕ → Bytes) → LuaPairs → List (Option DefaultValue) → Gen (List (Option DefaultValue))
  parse_arr show no_entries res = done res
  parse_arr show (entry k v ps) res =
      place_of k >>= λ idx. parse_default show v >>= λ x. parse_arr show ps (put_at idx x res)

  pub parse_table : (ℕ → Bytes) → LuaPairs → Gen Entries
  parse_table show no_entries = done no_entry
  parse_table show (entry k v ps) = get_sv k >>= λ key.
      parse_default show v >>= λ x. parse_table show ps >>= λ res. done (key_value key x res)

  pub parse_default : (ℕ → Bytes) → Lua → Gen DefaultValue
  parse_default show lua_nil = done nil
  parse_default show (lua_string s) = done (string s)
  parse_default show (lua_boolean b) = done (bool b)
  parse_default show (lua_integer i) = done (int i)
  parse_default show (lua_number n) = done (num n)
  parse_default show (lua_table ps) =
      let arr = parse_arr show ps [] >>= λ res. populated show 0 res >>= λ vs. done (array vs) in
      let tab = parse_table show ps >>= λ res. done (table res) in
      all_ints ps true >>= λ ints. if ints then arr else tab
  parse_default show (lua_other t) = err (codes "Unsupported type for default: " ++ t)
