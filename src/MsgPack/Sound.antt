-- ===== src/MsgPack/Sound.antt =====
-- What `parseOne` returns on any input, well formed or not.
use rpcxx.Prelude.{
  ℕ, zero, suc, ◌+◌, ◌≤◌, ◌<◌, ◌≡◌, refl, ap, Bool, [], ◌∷◌, ◌++◌, arith, length, length-append,
  some, ◌-◌, le→leb, inl, inr,
}
use rpcxx.Json.Value.{Bytes, JsonView}
use rpcxx.Json.Shape.{depth, IsOrdered}
use rpcxx.MsgPack.Parse.{
  done, fail, parse_one, eof, too_deep, parse_msgpack, parsed, outcome, Parsed-cases, Reason,
  outcome-fail,
}
use rpcxx.MsgPack.Dump.{dump}
use rpcxx.MsgPack.Encode.{encode, dump-encode}
use rpcxx.MsgPack.Post.{Post-ok, Post-error, IsSuffix, Post, Post-fail, Post-widen}
use rpcxx.MsgPack.Parts.{IsSound}
use rpcxx.MsgPack.Loops.{parse_head-Post}
use rpcxx.MsgPack.Local.{IsLocal, IsLocal-fail}
use rpcxx.MsgPack.Fronts.{in_front, IsLocal-parse_head}

module _ (widen : ℕ → ℕ) (fits : ℕ → ℕ → Bool) where
  parse_one-Post : (d : ℕ) (s : Bytes) → Post (IsSound d) s (parse_one widen fits d s)
  unfolding parse_one
  parse_one-Post zero s = Post-fail too_deep s
  parse_one-Post (suc d) [] = Post-fail eof []
  parse_one-Post (suc d) (head ∷ s) =
      Post-widen (head ∷ [], refl)
        (parse_head-Post d (parse_one widen fits d) (parse_one-Post d) widen fits head s)

  -- Whatever the input, the parser reads no byte behind its end: a value is read off a front of at
  -- least one byte, and what is left is the rest of the input. The value has sorted objects with no
  -- key twice at every level, and no more levels than `maxDepth`.
  pub parse_one_sound :
      (d : ℕ) (s : Bytes) (v : JsonView) (rest : Bytes)
      → parse_one widen fits d s ≡ done v rest
      → IsSuffix rest s × (length rest < length s) × IsOrdered v × (depth v ≤ d)
  unfolding parse_one
  parse_one_sound zero s v rest e = cc
  parse_one_sound (suc d) [] v rest e = cc
  parse_one_sound (suc d) (head ∷ s) v rest e =
      let body = parse_head-Post d (parse_one widen fits d) (parse_one-Post d) widen fits head s in
      let (suffix, sound) = Post-ok body e in
      ((head ∷ suffix.0, ap (λ t. head ∷ t) suffix.1), shorter suffix, sound.0, sound.1)
    where
      shorter : IsSuffix rest s → suc (length rest) ≤ suc (length s)
      shorter (f, p) = omega (arith, ap length p, length-append f rest)

  -- Where parseOne fails, what is left of the input at the failure is the end of the input.
  pub parse_one_stops :
      (d : ℕ) (s : Bytes) (e : Reason) (rest : Bytes)
      → parse_one widen fits d s ≡ fail e rest
      → IsSuffix rest s
  parse_one_stops d s e rest p = Post-error (parse_one-Post d s) p

module _ (widen : ℕ → ℕ) (ext : Bytes) where
  cons-agrees :
      (fits : ℕ → ℕ → Bool) (d : ℕ)
      → IsLocal ext (parse_one widen fits d) (parse_one widen (in_front (length ext) fits) d)
      → (s : Bytes) (v : JsonView) (r : Bytes)
      → parse_one widen fits (suc d) (s ++ ext) ≡ done v (r ++ ext)
      → parse_one widen (in_front (length ext) fits) (suc d) s ≡ done v r
  unfolding parse_one
  cons-agrees fits d ih [] v r e =
      let (suffix, less, ordered, levels) = parse_one_sound widen fits (suc d) ext v (r ++ ext) e in
      absurd (omega (arith, length-append r ext))
  cons-agrees fits d ih (head ∷ s) v r e =
      (IsLocal-parse_head widen fits ext (parse_one widen fits d)
          (parse_one widen (in_front (length ext) fits) d) ih head).agrees
        s v r e

  IsLocal-parse_one :
      (fits : ℕ → ℕ → Bool) (d : ℕ)
      → IsLocal ext (parse_one widen fits d) (parse_one widen (in_front (length ext) fits) d)
  unfolding parse_one
  IsLocal-parse_one fits zero = IsLocal-fail ext too_deep
  IsLocal-parse_one fits (suc d) = record {
    stops = λ s v t e. (parse_one_sound widen fits (suc d) s v t e).0;
    agrees = cons-agrees fits d (IsLocal-parse_one fits d);
  }

module _ (widen : ℕ → ℕ) (fits : ℕ → ℕ → Bool) where
  -- Whatever the input, a value that `ParseMsgPackInPlace` returns was read off the front of that
  -- many bytes, at least one: `parseOne` leaves the bytes behind this front, and it reads the same
  -- value from the front alone, with nothing left, where the arena serves what it serves within the
  -- input. The value has sorted objects with no key twice at every level, and `DumpMsgPackInto`
  -- writes it under the same `maxDepth` without a `DepthError`.
  pub parse_msgpack_sound :
      (d : ℕ) (s : Bytes) (v : JsonView) (n : ℕ)
      → parse_msgpack widen fits d s ≡ parsed v n
      → ((rest : Bytes) × (front : Bytes) × (s ≡ front ++ rest)
          × (length front ≡ n)
          × (parse_one widen fits d s ≡ done v rest)
          × (parse_one widen (in_front (length rest) fits) d front ≡ done v []))
        × (0 < n)
        × IsOrdered v
        × ((out : Bytes) × (dump d v ≡ some out))
  unfolding parse_msgpack outcome
  parse_msgpack_sound d s v n e = elim (Parsed-cases (parse_one widen fits d s)) [
    | inl (w, rest, p) ↦
        let ((front, q), less, ordered, levels) = parse_one_sound widen fits d s w rest p in
        let whole = rw p at e in
        let same : w ≡ v = cc in
        let count : length s - length rest ≡ n = cc in
        let alone : parse_one widen (in_front (length rest) fits) d front ≡ done v [] =
          (IsLocal-parse_one widen rest fits d).agrees front v [] (rw (← q) (rw same at p)) in
        let split : length s ≡ length front + length rest = rw q (length-append front rest) in
        (
          (rest, front, q, omega arith, rw same at p, alone),
          omega arith,
          rw same at ordered,
          (encode v, dumped w same levels),
        )
    | inr (r, rest, p) ↦ absurd (outcome-fail (length s) n r rest v (rw p at e))
  ]
    where
      dumped : (w : JsonView) → w ≡ v → depth w ≤ d → dump d v ≡ some (encode v)
      dumped w same levels = rw (dump-encode d v) (rw (le→leb (depth v) d (rw same at levels)))
