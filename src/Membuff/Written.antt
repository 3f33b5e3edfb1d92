-- ===== src/Membuff/Written.antt =====
-- include/membuff/membuff.hpp: what has been written arrives.
use Prim.Native.Nat.{min}
use mathlib.Core.Path.{subst}
use rpcxx.Prelude.{
  ℕ, zero, suc, ◌+◌, ◌-◌, ◌≤◌, ◌<◌, ◌≡◌, refl, sym, ap, ◌∙◌, Bool, true, false, Option, some, ◌++◌,
  append-nil, append_assoc, length, take, drop, take-append-drop, take_all, length-append,
  length-take, length-drop, arith, ltb, ◌==◌, if◌then◌else◌, Bool-cases, inl, inr,
}
use rpcxx.Json.Value.{Bytes}
use rpcxx.Membuff.{
  Out, space_left, grow_string, flush, grow_func, put_bytes, round_end, grow_by, write_loop, write,
}

-- Everything that has been written, flushed or not.
abbrev pub total : Out → Bytes
total o = o.flushed ++ o.written

pub record IsReady (o : Out) : Type 0 where
  pub positive : 0 < o.capacity
  pub within : length o.written ≤ o.capacity
  pub quiet : o.last_error ≡ false

-- What Write expects of a Grow that does not fail: it keeps what has been written, and makes room.
pub record IsSink (grow : ℕ → Out → Out) : Type 0 where
  pub ready : (a : ℕ) (o : Out) → 0 < a → IsReady o → IsReady (grow a o)
  pub same : (a : ℕ) (o : Out) → total (grow a o) ≡ total o
  pub room : (a : ℕ) (o : Out) → 0 < a → IsReady o → length (grow a o).written < (grow a o).capacity

pub grow_string-IsSink : IsSink grow_string
unfolding grow_string
grow_string-IsSink = record {
  ready = λ a o h r. ground arith;
  same = λ a o. refl;
  room = λ a o h r. ground arith;
}

pub grow_func-IsSink : IsSink grow_func
unfolding grow_func flush
grow_func-IsSink = record {
  ready = λ a o h r. ground arith;
  same = λ a o. append-nil (o.flushed ++ o.written);
  room = λ a o h r. ground arith;
}

put_bytes-IsReady :
    (bytes : Bytes) (o : Out)
    → IsReady o
    → length o.written + length bytes ≤ o.capacity
    → IsReady (put_bytes bytes o)
put_bytes-IsReady bytes o r h = record {
  positive = r.positive;
  within = omega (arith, length-append o.written bytes);
  quiet = r.quiet;
}

total-put_bytes : (bytes : Bytes) (o : Out) → total (put_bytes bytes o) ≡ total o ++ bytes
total-put_bytes bytes o = sym (append_assoc o.flushed o.written bytes)

-- What a call of Write leaves.
abbrev Wrote : Out → Bytes → Option Out → Type 0
Wrote o bytes r = (o' : Out) × (r ≡ some o') × IsReady o' × (total o' ≡ total o ++ bytes)

Wrote-round :
    (o : Out) (bytes : Bytes) (grown stored : Out) (more : Option Out) (finished : Bool)
    → grown.last_error ≡ false
    → (finished ≡ true → Wrote o bytes (some stored))
    → (finished ≡ false → Wrote o bytes more)
    → Wrote o bytes (round_end grown.last_error finished grown stored more)
Wrote-round o bytes grown stored more finished e f g =
    subst (λ b. Wrote o bytes (round_end b finished grown stored more)) (sym e)
      (by_finished finished f g)
  where
    by_finished :
        (b : Bool)
        → (b ≡ true → Wrote o bytes (some stored))
        → (b ≡ false → Wrote o bytes more)
        → Wrote o bytes (round_end false b grown stored more)
    by_finished true f g = f refl
    by_finished false f g = g refl

all_fit : (bytes : Bytes) (fits : ℕ) → (length bytes - fits == 0) ≡ true → length bytes ≤ fits
all_fit bytes fits e = ground arith

some_left : (bytes : Bytes) (fits : ℕ) → (length bytes - fits == 0) ≡ false → fits < length bytes
some_left bytes fits e = ground arith

too_much :
    (bytes : Bytes) (o : Out)
    → IsReady o
    → ltb o.capacity (length o.written + length bytes) ≡ true
    → 0 < length bytes
too_much bytes o r e = ground arith

module _ (grow : ℕ → Out → Out) (sink : IsSink grow) where
  amount_pos : (a c : ℕ) → 0 < c → 0 < (if a == 0 then c else a)
  amount_pos a c h = ground arith

  write_loop-Wrote :
      (fuel : ℕ) (bytes : Bytes) (a : ℕ) (o : Out)
      → IsReady o
      → 0 < length bytes
      → length bytes ≤ fuel
      → Wrote o bytes (write_loop grow fuel bytes a o)
  unfolding write_loop grow_by space_left
  write_loop-Wrote zero bytes a o r pos h = absurd (omega arith)
  write_loop-Wrote (suc fuel) bytes a o r pos h =
      let amount = if a == 0 then o.capacity else a in
      let more = amount_pos a o.capacity r.positive in
      let g = grow amount o in
      let ready = sink.ready amount o more r in
      let room = sink.room amount o more r in
      let fits = min (length bytes) (g.capacity - length g.written) in
      let o' = put_bytes (take fits bytes) g in
      let ready' =
        put_bytes-IsReady (take fits bytes) g ready (omega (arith, length-take fits bytes)) in
      let kept : total o' ≡ total o ++ take fits bytes =
        total-put_bytes (take fits bytes) g ∙ ap (λ t. t ++ take fits bytes) (sink.same amount o) in
      Wrote-round o bytes g o' _ (length bytes - fits == 0) ready.quiet
        (λ e. (
          o',
          refl,
          ready',
          kept ∙ ap (λ t. total o ++ t) (take_all fits bytes (all_fit bytes fits e)),
        ))
        (λ e.
          let left = some_left bytes fits e in
          let (o₂, done, ready₂, total₂) =
            write_loop-Wrote fuel (drop fits bytes) a o' ready'
              (omega (arith, length-drop fits bytes)) (omega (arith, length-drop fits bytes)) in
          (
            o₂,
            done,
            ready₂,
            total₂
                ∙ ap (λ t. t ++ drop fits bytes) kept
                ∙ append_assoc (total o) (take fits bytes) (drop fits bytes)
                ∙ ap (λ t. total o ++ t) (take-append-drop fits bytes),
          ))

  -- Write into a buffer that can hold something and has no error, with a Grow that keeps what has been
  -- written and makes room: it ends, after at most as many rounds as it gets bytes, and these stand
  -- behind all that was written before, whether the bytes go in at once or in parts.
  pub write-total :
      (bytes : Bytes) (a : ℕ) (o : Out)
      → IsReady o
      → (o' : Out) × (write grow (length bytes) bytes a o ≡ some o')
        × IsReady o'
        × (total o' ≡ total o ++ bytes)
  unfolding write
  write-total bytes a o r = elim (Bool-cases (ltb o.capacity (length o.written + length bytes))) [
    | inl e ↦
        rw e (write_loop-Wrote (length bytes) bytes a o r (too_much bytes o r e) (omega arith))
    | inr e ↦ rw e (
      put_bytes bytes o,
      refl,
      put_bytes-IsReady bytes o r (ground arith),
      total-put_bytes bytes o,
    )
  ]
