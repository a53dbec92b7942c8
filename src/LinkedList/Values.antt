-- ===== src/LinkedList/Values.antt =====
-- Writing the value of a node of Base/LinkedList.hpp.
use ziqe.Prelude.{ℕ, sym, ◌∙◌, List, ◌∷◌, ◌++◌, none, some, arith, length-append}
use ziqe.LinkedList.{State, write, Node}
use ziqe.LinkedList.Cells.{first, last, write_same, next_free-write, Linked-write}
use ziqe.LinkedList.Sequence.{
  Represents, first-append, last-append, Linked-front, Linked-back, Linked-join, Distinct-back,
}
use ziqe.LinkedList.Cut.{Outside-join, Distinct-before, Distinct-insert, Distinct-delete}

module _ {ℓ} {A : Type ℓ} where
  -- The sequence has the new value where it had the old one.
  pub write-Represents :
      (x : A) (ms : List (ℕ × A)) (w : ℕ) (y : A) (ns : List (ℕ × A)) (s : State A)
      → Represents (ms ++ (w, y) ∷ ns) s
      → Represents (ms ++ (w, x) ∷ ns) (record s {
        heap =
            write w
              (some (record { previous = last none ms; next = first ns none; value = x }))
              s.heap;
      })
  write-Represents x ms w y ns s r =
      let n : Node A = record { previous = last none ms; next = first ns none; value = x } in
      let h = write w (some n) s.heap in
      let before = Distinct-before ms w y ns r.distinct in
      let behind = (Distinct-back ms ((w, y) ∷ ns) r.distinct).0 in
      let front = Linked-front s.heap none none ms ((w, y) ∷ ns) r.chain in
      let back = Linked-back s.heap none none ms ((w, y) ∷ ns) r.chain in
      record {
        begins =
            r.begins
            ∙ (first-append ms ((w, y) ∷ ns) none ∙ sym (first-append ms ((w, x) ∷ ns) none));
        ends =
            r.ends ∙ (last-append none ms ((w, y) ∷ ns) ∙ sym (last-append none ms ((w, x) ∷ ns)));
        counted =
            omega
              (arith, r.counted, length-append ms ((w, y) ∷ ns), length-append ms ((w, x) ∷ ns));
        chain =
            Linked-join h none none ms ((w, x) ∷ ns)
              (Linked-write w (some n) s.heap none (some w) ms before front)
              (
                write_same w (some n) s.heap,
                omega (arith, back.1, next_free-write w (some n) s.heap),
                Linked-write w (some n) s.heap (some w) none ns behind back.2,
              );
        distinct =
            Distinct-insert w x ms ns (Distinct-delete w y ms ns r.distinct)
              (Outside-join w ms ns before behind);
      }
