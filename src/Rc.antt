-- ===== src/Rc.antt =====
-- include/rc/rc.hpp: the counted pointers `Strong`, and the counts of `DefaultBase`.
--
-- Objects are numbered as they are made. The variables of type Strong stand in a list, with the number of
-- the object that each points to; one that is destroyed stays as a null pointer. No such variable is a
-- part of a counted object.
pub mod Counted
use rpcxx.Prelude.{
  update, ℕ, ◌+◌, ◌-◌, Bool, true, false, Option, none, some, List, [], ◌∷◌, ◌++◌, get_elem?, set,
  ◌==◌, if◌then◌else◌,
}

-- `refs` has the counts, `deletes` how often an object has been deleted, and `released` how many raw
-- pointers Release has given away without a change of the count.
pub record Memory : Type 0 where
  pub size : ℕ
  pub refs : ℕ → ℕ
  pub deletes : ℕ → ℕ
  pub released : ℕ → ℕ
  pub handles : List (Option ℕ)

abbrev pub no_memory : Memory
no_memory = record { size = 0; refs = λ o. 0; deletes = λ o. 0; released = λ o. 0; handles = [] }

-- `AddRef` and `Unref`, also of a null pointer, which the callers test for.
unfoldable pub add_ref : Option ℕ → Memory → Memory
add_ref none m = m
add_ref (some o) m = record m { refs = update m.refs o (m.refs o + 1) }

unfoldable pub unref : Option ℕ → Memory → Memory
unref none m = m
unref (some o) m = record m {
  refs = update m.refs o (m.refs o - 1);
  deletes = if m.refs o == 1 then update m.deletes o (m.deletes o + 1) else m.deletes;
}

abbrev pub set_handle : ℕ → Option ℕ → Memory → Memory
set_handle i p m = record m { handles = set m.handles i p }

abbrev pub add_handle : Option ℕ → Memory → Memory
add_handle p m = record m { handles = m.handles ++ p ∷ [] }

-- What is done with the variables of type Strong.
pub data PointerUse : Type 0 where
  makes : PointerUse
  copies : ℕ → PointerUse
  moves : ℕ → PointerUse
  assigns : ℕ → ℕ → PointerUse
  move_assigns : ℕ → ℕ → PointerUse
  releases : ℕ → PointerUse
  ends : ℕ → PointerUse

-- `Strong(T*)` of a new object.
unfoldable pub make : Memory → Memory
unfolding add_ref
make m = add_handle (some m.size) (add_ref (some m.size) (record m { size = m.size + 1 }))

-- `Strong(Strong const&)` and `Strong(Strong&&)`.
unfoldable pub copy_of : Option ℕ → Memory → Memory
unfolding add_ref
copy_of p m = add_handle p (add_ref p m)

unfoldable pub move_of : ℕ → Option ℕ → Memory → Memory
move_of i p m = add_handle p (set_handle i none m)

-- The assignments, of the pointer `q` of the variable `j` to the variable `i`, which holds `p`.
unfoldable pub assign_to : ℕ → ℕ → Option ℕ → Option ℕ → Memory → Memory
unfolding add_ref unref
assign_to i j p q m = if i == j then m else add_ref q (set_handle i q (unref p m))

unfoldable pub swap_with : ℕ → ℕ → Option ℕ → Option ℕ → Memory → Memory
swap_with i j p q m = set_handle j p (set_handle i q m)

-- `Release`.
unfoldable pub release : ℕ → Option ℕ → Memory → Memory
release i none m = set_handle i none m
release i (some o) m =
    set_handle i none (record m { released = update m.released o (m.released o + 1) })

-- The destructor.
unfoldable pub end_of : ℕ → Option ℕ → Memory → Memory
unfolding unref
end_of i p m = set_handle i none (unref p m)

-- A use of a variable that there is not is none.
abbrev pub with_pointer : ℕ → (Option ℕ → Memory → Memory) → Memory → Memory
with_pointer i f m = elim (get_elem? m.handles i) [ none ↦ m | some p ↦ f p m ]

unfoldable pub use_pointer : PointerUse → Memory → Memory
unfolding make copy_of move_of assign_to swap_with release end_of
use_pointer makes m = make m
use_pointer (copies i) m = with_pointer i copy_of m
use_pointer (moves i) m = with_pointer i (move_of i) m
use_pointer (assigns i j) m = with_pointer i (λ p. with_pointer j (λ q. assign_to i j p q)) m
use_pointer (move_assigns i j) m = with_pointer i (λ p. with_pointer j (λ q. swap_with i j p q)) m
use_pointer (releases i) m = with_pointer i (release i) m
use_pointer (ends i) m = with_pointer i (end_of i) m

unfoldable pub use_pointers : List PointerUse → Memory → Memory
unfolding use_pointer
use_pointers [] m = m
use_pointers (u ∷ us) m = use_pointers us (use_pointer u m)
