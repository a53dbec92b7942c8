-- ===== src/LinkedList/Removal.antt =====
-- `pop_front` and `pop_back` of Base/LinkedList.hpp.
use mathlib.Core.Path.{subst}
use ziqe.Prelude.{
  ℕ, ◌+◌, ◌<◌, ◌≡◌, ◌≢◌, refl, sym, ◌∙◌, ap, List, [], ◌∷◌, ◌++◌, Option, none, some, false, arith,
  length, inl, inr, length-append,
}
use ziqe.Prelude.Fallible.{Returns}
use ziqe.Vector.{size_mod, sub_size}
use ziqe.LinkedList.{
  Iterator, Node, State, same, write, link_next, link_previous, set_next, set_previous, erase,
  pop_front, pop_back,
}
use ziqe.LinkedList.Cells.{
  first, last, Outside, write_other, write_same, next_free-write, Linked-write,
}
use ziqe.LinkedList.Sequence.{
  Represents, same_refl, same_ne, first-append, last-append, Linked-front, Linked-back, Linked-join,
  Distinct-last, Distinct-front, last_cases,
}

module _ {ℓ} {A : Type ℓ} where
  -- The last node of a chain is not one outside of it.
  last-other :
      (w q : ℕ) (ns : List (ℕ × A))
      → q ≢ w
      → Outside w ns
      → same (some w) (last (some q) ns) ≡ false
  last-other w q [] apart out = same_ne w q apart
  last-other w q ((p, x) ∷ ns) apart out = last-other w p ns out.0 out.1

  pop_only :
      (w : ℕ) (y : A) (s : State A)
      → Represents ((w, y) ∷ []) s
      → Returns (erase (some w) s) (λ r. (r.0 ≡ none) × Represents [] r.1)
  unfolding erase link_previous link_next
  pop_only w y s r = (
    (
      none,
      record {
        heap = write w none s.heap;
        list = record { begin = none; before_end = none; size = sub_size s.list.size 1 };
      },
    ),
    rw (r.chain.0, r.begins, r.ends, same_refl w) refl,
    (
      refl,
      record {
        begins = refl;
        ends = refl;
        counted = omega (arith, r.counted);
        chain = tt;
        distinct = tt;
      },
    ),
  )

  pop_more :
      (w q : ℕ) (y z : A) (ns : List (ℕ × A)) (s : State A)
      → Represents ((w, y) ∷ (q, z) ∷ ns) s
      → length ns + 2 < size_mod
      → Returns (erase (some w) s) (λ r. (r.0 ≡ some q) × Represents ((q, z) ∷ ns) r.1)
  unfolding erase link_previous link_next set_previous
  pop_more w q y z ns s r small =
      let (found, used, (found', used', rest)) = r.chain in
      let (out, out') = r.distinct in
      let changed : Node A = record { previous = none; next = first ns none; value = z } in
      let not_last = last-other w q ns out.0 out.1 in
      let h = write q (some changed) s.heap in
      (
        (
          some q,
          record {
            heap = write w none h;
            list = record s.list { begin = some q; size = sub_size s.list.size 1 };
          },
        ),
        rw (found, found', r.begins, r.ends, same_refl w, not_last) refl,
        (
          refl,
          record {
            begins = refl;
            ends = r.ends;
            counted = omega (arith, r.counted, small);
            chain = (
              write_other w q none h out.0 ∙ write_same q (some changed) s.heap,
              omega
                  (arith, used', next_free-write w none h, next_free-write q (some changed) s.heap),
              Linked-write w none h (some q) none ns out.1
                  (Linked-write q (some changed) s.heap (some q) none ns out'.0 rest),
            );
            distinct = out';
          },
        ),
      )

  -- The run ends in the iterator `it` and a list that represents `ns`.
  abbrev pub Left : Iterator → List (ℕ × A) → Option (Iterator × State A) → Type ℓ
  Left it ns run = Returns run (λ r. (r.0 ≡ it) × Represents ns r.1)

  -- `pop_front` on a list that represents a sequence with a first node, of fewer than `2 ^ 64` nodes,
  -- returns the iterator to the node behind it, and the list represents the rest of the sequence.
  pub pop_front-Represents :
      (w : ℕ) (y : A) (ns : List (ℕ × A)) (s : State A)
      → Represents ((w, y) ∷ ns) s
      → length ns + 1 < size_mod
      → Left (first ns none) ns (pop_front s)
  unfolding pop_front
  pop_front-Represents w y [] s r small =
      subst (λ it. Left none [] (erase it s)) (sym r.begins) (pop_only w y s r)
  pop_front-Represents w y ((q, z) ∷ ns) s r small =
      subst (λ it. Left (some q) ((q, z) ∷ ns) (erase it s)) (sym r.begins)
        (pop_more w q y z ns s r (omega arith))

  first-other :
      (w v : ℕ) (z : A) (ls : List (ℕ × A)) (e : Iterator)
      → Outside w (ls ++ (v, z) ∷ [])
      → same (some w) (first (ls ++ (v, z) ∷ []) e) ≡ false
  first-other w v z [] e out = same_ne w v out.0
  first-other w v z ((p, x) ∷ ls) e out = same_ne w p out.0

  pop_last :
      (w v : ℕ) (y z : A) (ls : List (ℕ × A)) (s : State A)
      → Represents ((ls ++ (v, z) ∷ []) ++ (w, y) ∷ []) s
      → length ls + 2 < size_mod
      → Left (some v) (ls ++ (v, z) ∷ []) (erase (some w) s)
  unfolding erase link_previous link_next set_next
  pop_last w v y z ls s r small =
      let ms = ls ++ (v, z) ∷ [] in
      let before = last-append none ls ((v, z) ∷ []) in
      let found : s.heap.cells w ≡ some (record { previous = some v; next = none; value = y }) =
        rw before at (Linked-back s.heap none none ms ((w, y) ∷ []) r.chain).0 in
      let front = Linked-front s.heap none none ms ((w, y) ∷ []) r.chain in
      let (found', used', _) = Linked-back s.heap none (some w) ls ((v, z) ∷ []) front in
      let start = Linked-front s.heap none (some w) ls ((v, z) ∷ []) front in
      let out = Distinct-last ms w y r.distinct in
      let apart = Distinct-front ms ((w, y) ∷ []) r.distinct in
      let changed : Node A = record { previous = last none ls; next = none; value = z } in
      let h = write v (some changed) s.heap in
      let begins = r.begins ∙ first-append ms ((w, y) ∷ []) none in
      let not_first = ap (same (some w)) begins ∙ first-other w v z ls (some w) out in
      let at_end = r.ends ∙ last-append none ms ((w, y) ∷ []) in
      let size = length-append ms ((w, y) ∷ []) in
      let size' = length-append ls ((v, z) ∷ []) in
      (
        (
          some v,
          record {
            heap = write w none h;
            list = record s.list { before_end = some v; size = sub_size s.list.size 1 };
          },
        ),
        rw (found, found', not_first, at_end, same_refl w) refl,
        (
          refl,
          record {
            begins =
                begins
                ∙ (first-append ls ((v, z) ∷ []) (some w)
                    ∙ sym (first-append ls ((v, z) ∷ []) none));
            ends = sym before;
            counted = omega (arith, r.counted, size, size', small);
            chain = Linked-write w none h none none ms out (
                Linked-join h none none ls ((v, z) ∷ [])
                  (Linked-write v (some changed) s.heap none (some v) ls
                    (Distinct-last ls v z apart) start)
                  (
                    write_same v (some changed) s.heap,
                    omega (arith, used', next_free-write v (some changed) s.heap),
                    tt,
                  ));
            distinct = apart;
          },
        ),
      )

  -- `pop_back` on a list that represents a sequence with a last node, of fewer than `2 ^ 64` nodes,
  -- returns the iterator to the node before it, and the list represents the sequence without it.
  pub pop_back-Represents :
      (w : ℕ) (y : A) (ms : List (ℕ × A)) (s : State A)
      → Represents (ms ++ (w, y) ∷ []) s
      → length ms + 1 < size_mod
      → Left (last none ms) ms (pop_back s)
  unfolding pop_back
  pop_back-Represents w y ms s r small =
      let at_end = r.ends ∙ last-append none ms ((w, y) ∷ []) in
      subst (λ it. Left (last none ms) ms (erase it s)) (sym at_end)
        (elim (last_cases ms) [
          | inl e ↦
              subst (λ t. Left (last none t) t (erase (some w) s)) (sym e)
                (pop_only w y s (subst (λ t. Represents (t ++ (w, y) ∷ []) s) e r))
          | inr (ls, v, z, e) ↦
              let size = length-append ls ((v, z) ∷ []) in
              let few : length (ls ++ (v, z) ∷ []) + 1 < size_mod =
                subst (λ t. length t + 1 < size_mod) e small in
              let left =
                pop_last w v y z ls s (subst (λ t. Represents (t ++ (w, y) ∷ []) s) e r)
                  (omega (arith, size, few)) in
              subst (λ t. Left (last none t) t (erase (some w) s)) (sym e)
                (subst (λ it. Left it (ls ++ (v, z) ∷ []) (erase (some w) s))
                  (sym (last-append none ls ((v, z) ∷ []))) left)
        ])
