-- ===== src/MsgPack/Local.antt =====
-- src/json_view/parse_msgpack.cpp: what a successful run reads is no more than the bytes that it passes.
use mathlib.Core.List.{append_cancel_right}
use mathlib.Core.Path.{subst}
use rpcxx.Prelude.{
  ℕ, ◌+◌, ◌≡◌, refl, sym, ap, ◌∙◌, Bool, true, false, ◌++◌, arith, ltb, length, length-take,
  Bool-cases, take, drop, take-append-drop, append_assoc, if◌then◌else◌, inl, inr,
}
use rpcxx.Json.Value.{Bytes, string}
use rpcxx.MsgPack.Parse.{
  Parser, Parsed, done, fail, Reason, unpack_uint, unpack_str, unpack_bin, unpack_ext, make_binary,
  ◌>>=◌, consume,
}
use rpcxx.MsgPack.Heads.{consume-append}
use rpcxx.MsgPack.Parts.{consume-Post}
use rpcxx.MsgPack.Post.{IsSuffix, Post-ok, IsSuffix-refl, IsSuffix-trans}

-- Where the first parser succeeds in front of the bytes `ext` and leaves these and more, the second one
-- succeeds alike without them; and the first one stops within its input.
pub record IsLocal {A : Type 0} (ext : Bytes) (p q : Parser A) : Type 0 where
  pub stops : (s : Bytes) (a : A) (t : Bytes) → p s ≡ done a t → IsSuffix t s
  pub agrees : (s : Bytes) (a : A) (r : Bytes) → p (s ++ ext) ≡ done a (r ++ ext) → q s ≡ done a r

module _ (ext : Bytes) where
  pub IsLocal-done : {A : Type 0} (a : A) → IsLocal ext (done a) (done a)
  IsLocal-done a = record {
    stops = λ s b t e. let same : s ≡ t = cc in subst (λ u. IsSuffix u s) same (IsSuffix-refl s);
    agrees = λ s b r e.
        let left : s ++ ext ≡ r ++ ext = cc in
        let value : a ≡ b = cc in rw value (rw (append_cancel_right s r ext left) refl);
  }

  pub IsLocal-fail : {A : Type 0} (e : Reason) → IsLocal {A = A} ext (fail e) (fail e)
  IsLocal-fail e = record { stops = λ s a t h. cc; agrees = λ s a r h. cc }

  pub IsLocal-if :
      {A : Type 0} (b : Bool) {p q p' q' : Parser A}
      → IsLocal ext p p'
      → IsLocal ext q q'
      → IsLocal ext (λ s. if b then p s else q s) (λ s. if b then p' s else q' s)
  IsLocal-if true h k = h
  IsLocal-if false h k = k

  bind-stops :
      {A B : Type 0} (s : Bytes) (m : Parsed A) (f : A → Parser B)
      → ((a : A) (t : Bytes) → m ≡ done a t → IsSuffix t s)
      → ((a : A) (t : Bytes) (b : B) (u : Bytes) → f a t ≡ done b u → IsSuffix u t)
      → (b : B) (u : Bytes) → (m >>= f) ≡ done b u
      → IsSuffix u s
  bind-stops s (done a t) f h k b u e = IsSuffix-trans (k a t b u e) (h a t refl)
  bind-stops s (fail r t) f h k b u e = cc

  bind-agrees :
      {A B : Type 0} (m m' : Parsed A) (f f' : A → Parser B)
      → ((a : A) (r : Bytes) → m ≡ done a (r ++ ext) → m' ≡ done a r)
      → ((a : A) (t : Bytes) (b : B) (u : Bytes) → f a t ≡ done b u → IsSuffix u t)
      → ((a : A) (t : Bytes) (b : B) (r : Bytes)
          → f a (t ++ ext) ≡ done b (r ++ ext)
          → f' a t ≡ done b r)
      → (b : B) (r : Bytes) → (m >>= f) ≡ done b (r ++ ext)
      → (m' >>= f') ≡ done b r
  bind-agrees (done a t) m' f f' h k g b r e =
      let (front, p) = k a t b (r ++ ext) e in
      let split : t ≡ (front ++ r) ++ ext = p ∙ sym (append_assoc front r ext) in
      rw (h a (front ++ r) (ap (done a) split)) (g a (front ++ r) b r (ap (f a) (sym split) ∙ e))
  bind-agrees (fail x t) m' f f' h k g b r e = cc

  pub IsLocal-bind :
      {A B : Type 0} {p p' : Parser A} {f f' : A → Parser B}
      → IsLocal ext p p'
      → ((a : A) → IsLocal ext (f a) (f' a))
      → IsLocal ext (λ s. p s >>= f) (λ s. p' s >>= f')
  IsLocal-bind {p = p} {p' = p'} {f = f} {f' = f'} h k = record {
    stops = λ s. bind-stops s (p s) f (h.stops s) (λ a. (k a).stops);
    agrees = λ s.
        bind-agrees (p (s ++ ext)) (p' s) f f' (h.agrees s) (λ a. (k a).stops) (λ a. (k a).agrees);
  }

  consume-agrees :
      (n : ℕ) (s a r : Bytes) → consume n (s ++ ext) ≡ done a (r ++ ext) → consume n s ≡ done a r
  unfolding consume
  consume-agrees n s a r e = elim (Bool-cases (ltb (length (s ++ ext)) n)) [
    | inl c ↦ let no = rw c at e in cc
    | inr c ↦
        let read : done (take n (s ++ ext)) (drop n (s ++ ext)) ≡ done a (r ++ ext) = rw c at e in
        let front : take n (s ++ ext) ≡ a = cc in
        let back : drop n (s ++ ext) ≡ r ++ ext = cc in
        let whole : (a ++ r) ++ ext ≡ s ++ ext =
          append_assoc a r ext ∙ rw (← front, ← back) (take-append-drop n (s ++ ext)) in
        let size : length a ≡ n = rw (← front) (ground (arith, length-take n (s ++ ext))) in
        rw (← append_cancel_right (a ++ r) s ext whole) (consume-append n a r size)
  ]

  pub IsLocal-consume : (n : ℕ) → IsLocal ext (consume n) (consume n)
  IsLocal-consume n = record {
    stops = λ s a t e. (Post-ok (consume-Post n s) e).0;
    agrees = consume-agrees n;
  }

  pub IsLocal-uint : (n : ℕ) → IsLocal ext (unpack_uint n) (unpack_uint n)
  unfolding unpack_uint
  IsLocal-uint n = IsLocal-bind (IsLocal-consume n) λ raw. IsLocal-done _

  pub IsLocal-str : (n : ℕ) → IsLocal ext (unpack_str n) (unpack_str n)
  unfolding unpack_str
  IsLocal-str n =
      IsLocal-bind (IsLocal-uint n)
        λ len. IsLocal-bind (IsLocal-consume len) λ raw. IsLocal-done (string raw)

  pub IsLocal-bin : (n add : ℕ) → IsLocal ext (unpack_bin n add) (unpack_bin n add)
  unfolding unpack_bin
  IsLocal-bin n add =
      IsLocal-bind (IsLocal-uint n)
        λ len. IsLocal-bind (IsLocal-consume (len + add)) λ raw. IsLocal-done (make_binary raw)

  pub IsLocal-ext : (n : ℕ) → IsLocal ext (unpack_ext n) (unpack_ext n)
  unfolding unpack_ext
  IsLocal-ext n = IsLocal-bind (IsLocal-consume (n + 1)) λ raw. IsLocal-done (make_binary raw)
