-- ===== src/LinkedList/Clearing.antt =====
-- `clear` of Base/LinkedList.hpp, and `erase` of a range up to `end ()`.
use mathlib.Core.Path.{subst}
use ziqe.Prelude.{
  ℕ, zero, suc, ◌+◌, ◌-◌, ◌≤◌, ◌<◌, ◌≡◌, refl, sym, ◌∙◌, ap, List, [], ◌∷◌, ◌++◌, Option, none,
  some, Bool, true, false, arith, length, length-append, if◌then◌else◌,
}
use ziqe.Prelude.Fallible.{◌>>=◌, Returns}
use ziqe.Vector.{size_mod, sub_size}
use ziqe.LinkedList.{
  Iterator, Heap, State, same, write, set_next, delete_range, erase_range, is_empty, clear,
}
use ziqe.LinkedList.Cells.{first, last, Linked, Distinct, Linked-write}
use ziqe.LinkedList.Sequence.{Represents, same_refl, last-append, Linked-back, Distinct-back}

either_way : (b : Bool) → (if b then true else true) ≡ true
either_way true = refl
either_way false = refl

module _ {ℓ} {A : Type ℓ} where
  -- What deleting `n` nodes up to the end of the list leaves of it.
  record Deleted (n : ℕ) (gone : Bool) (s : State A) (r : (Bool × Bool) × State A) : Type 0 where
    begin_gone : gone ≡ true → r.0.0 ≡ true
    end_gone : r.0.1 ≡ true
    left : r.1.list.size + n ≡ s.list.size

  delete_all :
      (ns : List (ℕ × A)) (fuel p : ℕ) (x : A) (b : Iterator) (bg eg : Bool) (s : State A)
      → Linked s.heap b ((p, x) ∷ ns) none
      → Distinct ((p, x) ∷ ns)
      → s.list.before_end ≡ last (some p) ns
      → length ns ≤ fuel
      → length ns + 1 ≤ s.list.size
      → s.list.size < size_mod
      → Returns
          (delete_range (suc fuel) p none (bg, eg) s)
          (Deleted (length ns + 1) (if same (some p) s.list.begin then true else bg) s)
  unfolding delete_range
  delete_all [] fuel p x b bg eg s chain apart ends enough count small =
      let removed : State A = record {
        heap = write p none s.heap;
        list = record s.list { size = sub_size s.list.size 1 };
      } in
      let gone : Bool = if same (some p) s.list.begin then true else bg in
      (
        ((gone, true), removed),
        rw (chain.0, ends, same_refl p) refl,
        record { begin_gone = λ e. e; end_gone = refl; left = omega (arith, count, small) },
      )
  delete_all ((q, z) ∷ ns) zero p x b bg eg s chain apart ends enough count small =
      absurd (omega arith)
  delete_all ((q, z) ∷ ns) (suc fuel) p x b bg eg s chain apart ends enough count small =
      let removed : State A = record {
        heap = write p none s.heap;
        list = record s.list { size = sub_size s.list.size 1 };
      } in
      let gone : Bool = if same (some p) s.list.begin then true else bg in
      let eg' : Bool = if same (some p) s.list.before_end then true else eg in
      let (r, e, d) =
        delete_all ns fuel q z (some p) gone eg' removed
          (Linked-write p none s.heap (some p) none ((q, z) ∷ ns) apart.0 chain.2) apart.1 ends
          (omega arith) (omega (arith, count, small)) (omega (arith, count, small)) in
      (
        r,
        rw chain.0 e,
        record {
          begin_gone = λ t. d.begin_gone (rw t (either_way (same (some q) s.list.begin)));
          end_gone = d.end_gone;
          left = omega (arith, d.left, count, small);
        },
      )

  pub erase_whole :
      (p : ℕ) (x : A) (ns : List (ℕ × A)) (s : State A)
      → Represents ((p, x) ∷ ns) s
      → length ns + 1 < size_mod
      → Returns (erase_range (some p) none s) (Represents [])
  unfolding erase_range
  erase_whole p x ns s r small =
      let sized : s.list.size ≡ suc (length ns) = r.counted in
      let (d, e, gone) =
        delete_all ns (length ns) p x none false false s r.chain r.distinct r.ends (omega arith)
          (omega (arith, sized)) (omega (arith, sized)) in
      let first_gone = gone.begin_gone (rw (r.begins, same_refl p) refl) in
      let e' : delete_range s.list.size p none (false, false) s ≡ some d =
        subst (λ n. delete_range n p none (false, false) s ≡ some d) (sym sized) e in
      (
        record {
          heap = d.1.heap;
          list = record { begin = none; before_end = none; size = d.1.list.size };
        },
        rw (r.chain.0, e', ◌>>=◌, first_gone, gone.end_gone) refl,
        record {
          begins = refl;
          ends = refl;
          counted = omega (arith, gone.left, sized);
          chain = tt;
          distinct = tt;
        },
      )

  -- `clear` of a list that represents a sequence, of fewer than `2 ^ 64` nodes, returns, and leaves
  -- an empty list.
  pub clear-Represents :
      (ns : List (ℕ × A)) (s : State A)
      → Represents ns s
      → length ns < size_mod
      → Returns (clear s) (Represents [])
  unfolding clear is_empty
  clear-Represents [] s r small = (s, rw r.begins refl, r)
  clear-Represents ((p, x) ∷ ns) s r small =
      let (t, e, empty) = erase_whole p x ns s r (omega arith) in
      let starts : is_empty s.list ≡ false = ap (λ t. same t none) r.begins in
      (t, rw starts (subst (λ it. erase_range it none s ≡ some t) (sym r.begins) e), empty)

  no_end :
      (run : Option (Heap A)) (k : Heap A → Option (State A))
      → ◌>>=◌ (◌>>=◌ {B = Heap A} run (λ h. none)) k ≡ none
  no_end none k = refl
  no_end (some h) k = refl

  -- `erase` of the nodes from one that is not the first up to `end ()` writes through the null
  -- pointer, on a list of fewer than `2 ^ 64` nodes.
  pub erase_range-none :
      (v p : ℕ) (z x : A) (ls ns : List (ℕ × A)) (s : State A)
      → Represents ((ls ++ (v, z) ∷ []) ++ (p, x) ∷ ns) s
      → length ls + length ns + 2 < size_mod
      → erase_range (some p) none s ≡ none
  unfolding erase_range
  erase_range-none v p z x ls ns s r small =
      let ms = ls ++ (v, z) ∷ [] in
      let chain = Linked-back s.heap none none ms ((p, x) ∷ ns) r.chain in
      let before = last-append none ls ((v, z) ∷ []) in
      let found : s.heap.cells p
          ≡ some (record { previous = some v; next = first ns none; value = x }) =
        rw before at chain.0 in
      let size = length-append ms ((p, x) ∷ ns) in
      let size' = length-append ls ((v, z) ∷ []) in
      let fuel = s.list.size - 1 in
      let sized : s.list.size ≡ suc fuel = omega (arith, r.counted, size) in
      let (d, e, gone) =
        delete_all ns fuel p x (last none ms) false false s chain
          (Distinct-back ms ((p, x) ∷ ns) r.distinct) (r.ends ∙ last-append none ms ((p, x) ∷ ns))
          (omega (arith, r.counted, size)) (omega (arith, r.counted, size))
          (omega (arith, r.counted, size, size', small)) in
      let e' : delete_range s.list.size p none (false, false) s ≡ some d =
        subst (λ n. delete_range n p none (false, false) s ≡ some d) (sym sized) e in
      rw (found, e', ◌>>=◌) (no_end (set_next v none d.1.heap) _)
