-- ===== src/Rc/Counted.antt =====
-- include/rc/rc.hpp: the counts are right, and every object is deleted once, when nothing points to it.
use mathlib.Core.Option.{some-injective}
use native.Mathlib.Decide.{ℕ_discrete}
use rpcxx.Prelude.{
  ℕ, zero, suc, ◌+◌, ◌-◌, ◌≤◌, ◌<◌, ◌≡◌, ◌≢◌, ◌⊎◌, refl, ap, ◌∙◌, Option, none, some, List, [], ◌∷◌,
  ◌++◌, get_elem?, get_elem?_below, get_elem?-set_ne, get_elem?-set_self, set, sym, ltb, ◌==◌,
  if◌then◌else◌, if_elim, inr, arith,
}
use rpcxx.Rc.{
  Memory, no_memory, add_ref, unref, set_handle, PointerUse, makes, copies, moves, assigns,
  move_assigns, releases, ends, make, copy_of, move_of, assign_to, swap_with, release, end_of,
  with_pointer, use_pointer, use_pointers,
}

-- 1 for a pointer to the object.
abbrev pub points : ℕ → Option ℕ → ℕ
points o none = 0
points o (some x) = if o == x then 1 else 0

-- How many variables point to the object.
unfoldable pub count : ℕ → List (Option ℕ) → ℕ
count o [] = 0
count o (p ∷ ps) = points o p + count o ps

count-append :
    (o : ℕ) (ps : List (Option ℕ)) (p : Option ℕ) → count o (ps ++ p ∷ []) ≡ count o ps + points o p
unfolding count
count-append o [] p = omega arith
count-append o (q ∷ ps) p = omega (arith, count-append o ps p)

-- A write replaces one pointer.
count-set :
    (o i : ℕ) (ps : List (Option ℕ)) (p q : Option ℕ)
    → get_elem? ps i ≡ some p
    → count o (set ps i q) + points o p ≡ count o ps + points o q
unfolding count
count-set o i [] p q e = absurd cc
count-set o zero (x ∷ ps) p q e =
    let same : points o x ≡ points o p = ap (points o) (some-injective x p e) in omega (arith, same)
count-set o (suc i) (x ∷ ps) p q e = omega (arith, count-set o i ps p q e)

points-le-count :
    (o i : ℕ) (ps : List (Option ℕ)) (p : Option ℕ)
    → get_elem? ps i ≡ some p
    → points o p ≤ count o ps
unfolding count
points-le-count o i [] p e = absurd cc
points-le-count o zero (x ∷ ps) p e =
    let same : points o x ≡ points o p = ap (points o) (some-injective x p e) in omega (arith, same)
points-le-count o (suc i) (x ∷ ps) p e = omega (arith, points-le-count o i ps p e)

refs-add_ref : (p : Option ℕ) (m : Memory) (o : ℕ) → (add_ref p m).refs o ≡ m.refs o + points o p
unfolding add_ref
refs-add_ref none m o = omega arith
refs-add_ref (some x) m o = ground arith

refs-unref : (p : Option ℕ) (m : Memory) (o : ℕ) → (unref p m).refs o ≡ m.refs o - points o p
unfolding unref
refs-unref none m o = omega arith
refs-unref (some x) m o = ground arith

-- Whether the object has been made and has no reference.
abbrev is_gone : Memory → ℕ → ℕ
is_gone m o = if ltb o m.size then (if m.refs o == 0 then 1 else 0) else 0

deletes-unref :
    (p : Option ℕ) (m : Memory) (o : ℕ)
    → m.deletes o ≡ is_gone m o
    → points o p ≤ m.refs o
    → (o < m.size) ⊎ (m.refs o ≡ 0)
    → (unref p m).deletes o ≡ is_gone (unref p m) o
unfolding unref
deletes-unref none m o h le made = h
deletes-unref (some x) m o h le made = ground arith

-- The count of an object is the number of its variables and of its released pointers, and it has been
-- deleted once if the count is 0, else not.
pub record IsCounted (m : Memory) (o : ℕ) : Type 0 where
  pub counted : m.refs o ≡ count o m.handles + m.released o
  pub deleted : m.deletes o ≡ is_gone m o
  pub made : (o < m.size) ⊎ (m.refs o ≡ 0)

make-IsCounted : (m : Memory) (o : ℕ) → IsCounted m o → IsCounted (make m) o
unfolding make add_ref
make-IsCounted m o c = record {
  counted = ground (arith, c.counted, c.made, count-append o m.handles (some m.size));
  deleted = ground (arith, c.deleted, c.made);
  made = ground (arith, c.made);
}

copy_of-IsCounted :
    (i : ℕ) (p : Option ℕ) (m : Memory) (o : ℕ)
    → get_elem? m.handles i ≡ some p
    → IsCounted m o
    → IsCounted (copy_of p m) o
unfolding copy_of add_ref
copy_of-IsCounted i none m o e c = record {
  counted = omega (arith, c.counted, count-append o m.handles none);
  deleted = c.deleted;
  made = c.made;
}
copy_of-IsCounted i (some x) m o e c = record {
  counted = ground (arith, c.counted, count-append o m.handles (some x));
  deleted = ground (arith, c.counted, c.deleted, points-le-count o i m.handles (some x) e);
  made = ground (arith, c.counted, c.made, points-le-count o i m.handles (some x) e);
}

move_of-IsCounted :
    (i : ℕ) (p : Option ℕ) (m : Memory) (o : ℕ)
    → get_elem? m.handles i ≡ some p
    → IsCounted m o
    → IsCounted (move_of i p m) o
unfolding move_of
move_of-IsCounted i p m o e c = record {
  counted =
      omega (
        arith,
        c.counted,
        count-append o (set m.handles i none) p,
        count-set o i m.handles p none e,
      );
  deleted = c.deleted;
  made = c.made;
}

-- A variable that points elsewhere, when another is written.
get_elem?-other :
    (i j : ℕ) (ps : List (Option ℕ)) (q r : Option ℕ)
    → i ≢ j
    → get_elem? ps j ≡ some q
    → get_elem? (set ps i r) j ≡ some q
get_elem?-other i j ps q r ne e = get_elem?-set_ne ps r ne ∙ e

swap_with-IsCounted :
    (i j : ℕ) (p q : Option ℕ) (m : Memory) (o : ℕ)
    → get_elem? m.handles i ≡ some p
    → get_elem? m.handles j ≡ some q
    → IsCounted m o
    → IsCounted (swap_with i j p q m) o
unfolding swap_with
swap_with-IsCounted i j p q m o e f c = elim (ℕ_discrete i j) [
  | yes same ↦ record {
    counted =
        let g : get_elem? (set m.handles i q) j ≡ some q =
          rw (← same) (get_elem?-set_self m.handles i q (get_elem?_below m.handles i p e)) in
        let pq : p ≡ q = some-injective p q (sym e ∙ rw same f) in
        let pp : points o p ≡ points o q = ap (points o) pq in
        omega (
          arith,
          c.counted,
          pp,
          count-set o i m.handles p q e,
          count-set o j (set m.handles i q) q p g,
        );
    deleted = c.deleted;
    made = c.made;
  }
  | no ne ↦ record {
    counted = omega (
      arith,
      c.counted,
      count-set o i m.handles p q e,
      count-set o j (set m.handles i q) q p (get_elem?-other i j m.handles q q ne f),
    );
    deleted = c.deleted;
    made = c.made;
  }
]

release-IsCounted :
    (i : ℕ) (p : Option ℕ) (m : Memory) (o : ℕ)
    → get_elem? m.handles i ≡ some p
    → IsCounted m o
    → IsCounted (release i p m) o
unfolding release
release-IsCounted i none m o e c = record {
  counted = omega (arith, c.counted, count-set o i m.handles none none e);
  deleted = c.deleted;
  made = c.made;
}
release-IsCounted i (some x) m o e c = record {
  counted = ground (arith, c.counted, count-set o i m.handles (some x) none e);
  deleted = c.deleted;
  made = c.made;
}

end_of-IsCounted :
    (i : ℕ) (p : Option ℕ) (m : Memory) (o : ℕ)
    → get_elem? m.handles i ≡ some p
    → IsCounted m o
    → IsCounted (end_of i p m) o
unfolding end_of unref
end_of-IsCounted i none m o e c = record {
  counted = omega (arith, c.counted, count-set o i m.handles none none e);
  deleted = c.deleted;
  made = c.made;
}
end_of-IsCounted i (some x) m o e c = record {
  counted = ground (
    arith,
    c.counted,
    count-set o i m.handles (some x) none e,
    points-le-count o i m.handles (some x) e,
  );
  deleted = ground (arith, c.counted, c.deleted, c.made, points-le-count o i m.handles (some x) e);
  made = ground (arith, c.made);
}

two-le-count :
    (o i j : ℕ) (ps : List (Option ℕ)) (p q : Option ℕ)
    → i ≢ j
    → get_elem? ps i ≡ some p
    → get_elem? ps j ≡ some q
    → points o p + points o q ≤ count o ps
two-le-count o i j ps p q ne e f = omega (
  arith,
  count-set o i ps p none e,
  points-le-count o j (set ps i none) q (get_elem?-other i j ps q none ne f),
)

moved-IsCounted :
    (i j : ℕ) (p q : Option ℕ) (m : Memory) (o : ℕ)
    → i ≢ j
    → get_elem? m.handles i ≡ some p
    → get_elem? m.handles j ≡ some q
    → IsCounted m o
    → IsCounted (add_ref q (set_handle i q (unref p m))) o
unfolding add_ref unref
moved-IsCounted i j none none m o ne e f c = record {
  counted = omega (arith, c.counted, count-set o i m.handles none none e);
  deleted = c.deleted;
  made = c.made;
}
moved-IsCounted i j none (some y) m o ne e f c =
    let two = two-le-count o i j m.handles none (some y) ne e f in
    record {
      counted = ground (arith, c.counted, count-set o i m.handles none (some y) e);
      deleted = ground (arith, c.counted, c.deleted, two);
      made = ground (arith, c.counted, c.made, two);
    }
moved-IsCounted i j (some x) none m o ne e f c =
    let two = two-le-count o i j m.handles (some x) none ne e f in
    record {
      counted = ground (arith, c.counted, count-set o i m.handles (some x) none e, two);
      deleted = ground (arith, c.counted, c.deleted, c.made, two);
      made = ground (arith, c.made);
    }
moved-IsCounted i j (some x) (some y) m o ne e f c =
    let two = two-le-count o i j m.handles (some x) (some y) ne e f in
    record {
      counted = ground (arith, c.counted, count-set o i m.handles (some x) (some y) e, two);
      deleted = ground (arith, c.counted, c.deleted, c.made, two);
      made = ground (arith, c.counted, c.made, two);
    }

assign_to-IsCounted :
    (i j : ℕ) (p q : Option ℕ) (m : Memory) (o : ℕ)
    → get_elem? m.handles i ≡ some p
    → get_elem? m.handles j ≡ some q
    → IsCounted m o
    → IsCounted (assign_to i j p q m) o
unfolding assign_to
assign_to-IsCounted i j p q m o e f c =
    if_elim (λ m'. IsCounted m' o) (i == j) (λ _. c)
      λ ne. moved-IsCounted i j p q m o (ground arith) e f c

-- A use of a variable that is there.
with_pointer-IsCounted :
    (i : ℕ) (f : Option ℕ → Memory → Memory) (m : Memory) (o : ℕ)
    → IsCounted m o
    → ((p : Option ℕ) → get_elem? m.handles i ≡ some p → IsCounted (f p m) o)
    → IsCounted (with_pointer i f m) o
with_pointer-IsCounted i f m o c g = by_found (get_elem? m.handles i) g
  where
    by_found :
        (r : Option (Option ℕ))
        → ((p : Option ℕ) → r ≡ some p → IsCounted (f p m) o)
        → IsCounted (elim r [ none ↦ m | some p ↦ f p m ]) o
    by_found none g = c
    by_found (some p) g = g p refl

use_pointer-IsCounted :
    (u : PointerUse) (m : Memory) (o : ℕ) → IsCounted m o → IsCounted (use_pointer u m) o
unfolding use_pointer
use_pointer-IsCounted makes m o c = make-IsCounted m o c
use_pointer-IsCounted (copies i) m o c =
    with_pointer-IsCounted i copy_of m o c (λ p e. copy_of-IsCounted i p m o e c)
use_pointer-IsCounted (moves i) m o c =
    with_pointer-IsCounted i (move_of i) m o c (λ p e. move_of-IsCounted i p m o e c)
use_pointer-IsCounted (assigns i j) m o c =
    with_pointer-IsCounted i (λ p. with_pointer j (assign_to i j p)) m o c
      λ p e.
        with_pointer-IsCounted j (assign_to i j p) m o c
          (λ q f. assign_to-IsCounted i j p q m o e f c)
use_pointer-IsCounted (move_assigns i j) m o c =
    with_pointer-IsCounted i (λ p. with_pointer j (swap_with i j p)) m o c
      λ p e.
        with_pointer-IsCounted j (swap_with i j p) m o c
          (λ q f. swap_with-IsCounted i j p q m o e f c)
use_pointer-IsCounted (releases i) m o c =
    with_pointer-IsCounted i (release i) m o c (λ p e. release-IsCounted i p m o e c)
use_pointer-IsCounted (ends i) m o c =
    with_pointer-IsCounted i (end_of i) m o c (λ p e. end_of-IsCounted i p m o e c)

use_all-IsCounted :
    (us : List PointerUse) (m : Memory) (o : ℕ) → IsCounted m o → IsCounted (use_pointers us m) o
unfolding use_pointers
use_all-IsCounted [] m o c = c
use_all-IsCounted (u ∷ us) m o c =
    use_all-IsCounted us (use_pointer u m) o (use_pointer-IsCounted u m o c)

-- Whatever is done with variables of type Strong, that are no parts of counted objects: the count of
-- an object is the number of the variables that point to it and of its released pointers, and an
-- object that has been made has been deleted once where that is 0, and not at all where it is more.
pub use_pointers-counted :
    (us : List PointerUse) (o : ℕ)
    → o < (use_pointers us no_memory).size
    → ((use_pointers us no_memory).refs o
        ≡ count o (use_pointers us no_memory).handles + (use_pointers us no_memory).released o)
      × ((use_pointers us no_memory).deletes o
          ≡ (if (use_pointers us no_memory).refs o == 0 then 1 else 0))
unfolding count
use_pointers-counted us o h =
    let c =
      use_all-IsCounted us no_memory o
        (record { counted = refl; deleted = ground arith; made = inr refl }) in
    (c.counted, ground (arith, c.deleted))
