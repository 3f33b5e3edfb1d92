-- ===== src/MsgPack/Parts.antt =====
-- What the readers of strings, bytes and extensions return on any input.
use rpcxx.Prelude.{
  ℕ, suc, ◌+◌, ◌≤◌, ◌≡◌, refl, sym, Bool, List, [], ◌∷◌, arith, ltb, ◌==◌, ◌||◌, length, take,
  take-append-drop, if_elim,
}
use rpcxx.Json.Value.{Bytes, JsonView, Items, Pairs, pairs, of_pairs}
use rpcxx.Json.Key.{key_lt, key_eq}
use rpcxx.Json.Object.{IsSorted, sorted_insert}
use rpcxx.Json.Shape.{depth, depth_items, depth_pairs, IsOrdered, AreOrdered, AreOrderedPairs}
use rpcxx.MsgPack.Parse.{
  done, consume, unpack_uint, unpack_str, unpack_bin, unpack_ext, make_binary, reserve, eof, oom,
}
use rpcxx.MsgPack.Post.{Post, Post-bind, Post-if, Post-done, Post-fail, good}

-- Sorted objects throughout, and at most `d` levels.
abbrev pub IsSound : ℕ → JsonView → Type 0
IsSound d v = IsOrdered v × (depth v ≤ d)

abbrev pub AreSound : ℕ → Items → Type 0
AreSound d vs = AreOrdered vs × (depth_items vs ≤ d)

abbrev pub AreSoundPairs : ℕ → Pairs → Type 0
AreSoundPairs d ps = IsSorted (pairs ps) × AreOrderedPairs ps × (depth_pairs ps ≤ d)

abbrev pub AllSound : ℕ → List (Bytes × JsonView) → Type 0
AllSound d [] = Unit
AllSound d ((k, v) ∷ ps) = IsSound d v × AllSound d ps

pub AllSound-sorted_insert :
    (d : ℕ) (k : Bytes) (v : JsonView) (ps : List (Bytes × JsonView))
    → IsSound d v
    → AllSound d ps
    → AllSound d (sorted_insert k v ps)
unfolding sorted_insert
AllSound-sorted_insert d k v [] h a = (h, tt)
AllSound-sorted_insert d k v ((j, w) ∷ ps) h (b, a) =
    if_elim (AllSound d) (key_lt j k) (λ _. (b, AllSound-sorted_insert d k v ps h a))
      λ _. if_elim (AllSound d) (key_eq j k) (λ _. (h, a)) (λ _. (h, (b, a)))

pub of_pairs-AreOrdered :
    (d : ℕ) (ps : List (Bytes × JsonView))
    → AllSound d ps
    → AreOrderedPairs (of_pairs ps) × (depth_pairs (of_pairs ps) ≤ d)
unfolding depth
of_pairs-AreOrdered d [] a = (tt, omega arith)
of_pairs-AreOrdered d ((k, v) ∷ ps) ((o, h), a) =
    let (os, hs) = of_pairs-AreOrdered d ps a in ((o, os), omega arith)

abbrev pub Any {ℓ} : {A : Type ℓ} → A → Type 0
Any a = Unit

pub consume-Post : (n : ℕ) (s : Bytes) → Post Any s (consume n s)
unfolding consume
consume-Post n s =
    Post-if (ltb (length s) n) (Post-fail eof s) (good (take n s, sym (take-append-drop n s)) tt)

pub unpack_uint-Post : (n : ℕ) (s : Bytes) → Post Any s (unpack_uint n s)
unfolding unpack_uint
unpack_uint-Post n s = Post-bind (consume-Post n s) (λ raw r _. Post-done _ r tt)

module _ (widen : ℕ → ℕ) (fits : ℕ → ℕ → Bool) where
  pub reserve-Post : (count : ℕ) (s : Bytes) → Post Any s (reserve widen fits count s)
  unfolding reserve
  reserve-Post count s =
      Post-if (count == 0 || fits (length s) count) (Post-done tt s tt) (Post-fail oom s)

module _ (d : ℕ) where
  pub leaf :
      {v : JsonView} (s : Bytes) → IsOrdered v → depth v ≡ 1 → Post (IsSound (suc d)) s (done v s)
  leaf {v} s o e = Post-done v s (o, omega arith)

  pub unpack_str-Post : (n : ℕ) (s : Bytes) → Post (IsSound (suc d)) s (unpack_str n s)
  unfolding unpack_str depth
  unpack_str-Post n s =
      Post-bind (unpack_uint-Post n s)
        λ len r _. Post-bind (consume-Post len r) λ raw q _. leaf q tt refl

  pub unpack_bin-Post : (n add : ℕ) (s : Bytes) → Post (IsSound (suc d)) s (unpack_bin n add s)
  unfolding unpack_bin depth make_binary
  unpack_bin-Post n add s =
      Post-bind (unpack_uint-Post n s)
        λ len r _. Post-bind (consume-Post (len + add) r) λ raw q _. leaf q tt refl

  pub unpack_ext-Post : (n : ℕ) (s : Bytes) → Post (IsSound (suc d)) s (unpack_ext n s)
  unfolding unpack_ext depth make_binary
  unpack_ext-Post n s = Post-bind (consume-Post (n + 1) s) λ raw q _. leaf q tt refl
