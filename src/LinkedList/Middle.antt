-- ===== src/LinkedList/Middle.antt =====
-- Insertion before and removal of a node of Base/LinkedList.hpp that is neither the first nor the
-- last.
use mathlib.Core.List.{append_assoc}
use mathlib.Core.Path.{subst}
use ziqe.Prelude.{
  ℕ, suc, ◌+◌, ◌%◌, ◌<◌, ◌≡◌, ◌≢◌, refl, sym, ◌∙◌, ap, List, [], ◌∷◌, ◌++◌, none, some, arith,
  length, length-append,
}
use ziqe.Vector.{size_mod, sub_size}
use ziqe.LinkedList.{
  Iterator, Node, Heap, State, same, write, allocate, link_next, link_previous, set_next,
  set_previous, emplace_before, erase,
}
use ziqe.LinkedList.Cells.{
  first, last, Linked, Outside, Distinct, write_other, write_same, next_free-write,
  next_free-allocate, Linked-write, Linked-Outside, Linked-allocate, allocate_same, allocate_other,
}
use ziqe.LinkedList.Sequence.{Represents, first-append, last-append, Outside-front}
use ziqe.LinkedList.Insertion.{Added}
use ziqe.LinkedList.Removal.{Left}
use ziqe.LinkedList.Cut.{
  same_comm, Distinct-insert, Distinct-delete, last-other_than, first-other_than, Cut, cut, sew,
  first_node,
}

module _ {ℓ} {A : Type ℓ} where
  emplace_chain :
      (x y z : A) (w q : ℕ) (ms qs : List (ℕ × A)) (h : Heap A)
      → Cut h ms w y q z qs
      → Linked
          (write q
            (some (record { previous = some h.next_free; next = first qs none; value = z }))
            (write w
              (some (record { previous = last none ms; next = some h.next_free; value = y }))
              (allocate (record { previous = some w; next = some q; value = x }) h)))
          none
          ((ms ++ (w, y) ∷ []) ++ (h.next_free, x) ∷ (q, z) ∷ qs)
          none
  emplace_chain x y z w q ms qs h c =
      let f = h.next_free in
      let fresh : Node A = record { previous = some w; next = some q; value = x } in
      let cw : Node A = record { previous = last none ms; next = some f; value = y } in
      let cq : Node A = record { previous = some f; next = first qs none; value = z } in
      let h1 = allocate fresh h in
      let h2 = write w (some cw) h1 in
      let h3 = write q (some cq) h2 in
      let free : h3.next_free ≡ suc f =
        next_free-write q (some cq) h2
        ∙ (next_free-write w (some cw) h1 ∙ next_free-allocate fresh h) in
      let f_w : f ≢ w = λ e. omega (arith, e, c.used_left) in
      let f_q : f ≢ q = λ e. omega (arith, e, c.used_right) in
      let q_ms = Outside-front q ms ((w, y) ∷ []) c.right_start in
      let kept =
        (λ (b e : Iterator) (ns : List (ℕ × A)) (out : Outside w ns) (out' : Outside q ns)
            (chain : Linked h b ns e).
          Linked-write q (some cq) h2 b e ns out'
            (Linked-write w (some cw) h1 b e ns out (Linked-allocate fresh h b e ns chain))) in
      sew h3 ms w y ((f, x) ∷ (q, z) ∷ qs) (kept none (some w) ms c.left_start q_ms c.start)
        (write_other q w (some cq) h2 (λ e. c.left_rest.0 (sym e)) ∙ write_same w (some cw) h1)
        (omega (arith, free, c.used_left))
        (
          write_other q f (some cq) h2 f_q
              ∙ (write_other w f (some cw) h1 f_w ∙ allocate_same fresh h),
          omega (arith, free),
          (
            write_same q (some cq) h2,
            omega (arith, free, c.used_right),
            kept (some q) none qs c.left_rest.1 c.right_rest c.rest,
          ),
        )

  -- `emplace_before` of a node that has one before it.
  pub emplace_middle :
      (x y z : A) (w q : ℕ) (ms qs : List (ℕ × A)) (s : State A)
      → Represents ((ms ++ (w, y) ∷ []) ++ (q, z) ∷ qs) s
      → length ms + length qs + 3 < size_mod
      → Added
          ((ms ++ (w, y) ∷ []) ++ (s.heap.next_free, x) ∷ (q, z) ∷ qs)
          s
          (emplace_before (some q) x s)
  unfolding emplace_before link_next set_next set_previous
  emplace_middle x y z w q ms qs s r room =
      let f = s.heap.next_free in
      let ws = ms ++ (w, y) ∷ [] in
      let c = cut s.heap ms w y q z qs r.chain r.distinct in
      let fresh : Node A = record { previous = some w; next = some q; value = x } in
      let cw : Node A = record { previous = last none ms; next = some f; value = y } in
      let cq : Node A = record { previous = some f; next = first qs none; value = z } in
      let h2 = write w (some cw) (allocate fresh s.heap) in
      let kept_w = allocate_other fresh s.heap w c.used_left ∙ c.found_left in
      let kept_q =
        write_other w q (some cw) (allocate fresh s.heap) c.left_rest.0
        ∙ (allocate_other fresh s.heap q c.used_right ∙ c.found_right) in
      let starts = r.begins ∙ first-append ws ((q, z) ∷ qs) none in
      let begin_stays =
        ap (λ t. same t (some q)) starts
        ∙ (same_comm (first ws (some q)) (some q)
            ∙ first-other_than q w y ms (some q) c.right_start) in
      (
        (
          some f,
          record {
            heap = write q (some cq) h2;
            list = record s.list { size = (s.list.size + 1) % size_mod };
          },
        ),
        rw (c.found_right, kept_w, kept_q, begin_stays) refl,
        (
          refl,
          record {
            begins =
                starts
                ∙ (first_node ms w y (some q) (some f)
                    ∙ sym (first-append ws ((f, x) ∷ (q, z) ∷ qs) none));
            ends =
                r.ends
                ∙ (last-append none ws ((q, z) ∷ qs)
                    ∙ sym (last-append none ws ((f, x) ∷ (q, z) ∷ qs)));
            counted = omega (
              arith,
              r.counted,
              length-append ws ((q, z) ∷ qs),
              length-append ws ((f, x) ∷ (q, z) ∷ qs),
              length-append ms ((w, y) ∷ []),
              room,
            );
            chain = emplace_chain x y z w q ms qs s.heap c;
            distinct =
                Distinct-insert f x ws ((q, z) ∷ qs) r.distinct
                  (Linked-Outside s.heap none none (ws ++ (q, z) ∷ qs) r.chain);
          },
        ),
      )

  erase_chain :
      (u y z : A) (v w q : ℕ) (ms qs : List (ℕ × A)) (h : Heap A)
      → Cut h ms v u w y ((q, z) ∷ qs)
      → Cut h (ms ++ (v, u) ∷ []) w y q z qs
      → Linked
          (write w none (
            write v
              (some (record { previous = last none ms; next = some q; value = u }))
              (write q (some (record { previous = some v; next = first qs none; value = z })) h)))
          none
          ((ms ++ (v, u) ∷ []) ++ (q, z) ∷ qs)
          none
  erase_chain u y z v w q ms qs h c d =
      let cv : Node A = record { previous = last none ms; next = some q; value = u } in
      let cq : Node A = record { previous = some v; next = first qs none; value = z } in
      let h1 = write q (some cq) h in
      let h2 = write v (some cv) h1 in
      let h3 = write w none h2 in
      let free : h3.next_free ≡ h.next_free =
        next_free-write w none h2
        ∙ (next_free-write v (some cv) h1 ∙ next_free-write q (some cq) h) in
      let kept =
        (λ (b e : Iterator) (ns : List (ℕ × A)) (out_w : Outside w ns) (out_v : Outside v ns)
            (out_q : Outside q ns) (chain : Linked h b ns e).
          Linked-write w none h2 b e ns out_w (
            Linked-write v (some cv) h1 b e ns out_v
              (Linked-write q (some cq) h b e ns out_q chain))) in
      let q_ms =
        Outside-front q ms ((v, u) ∷ [])
          (Outside-front q (ms ++ (v, u) ∷ []) ((w, y) ∷ []) d.right_start) in
      let v_w : w ≢ v = c.left_rest.0 in
      sew h3 ms v u ((q, z) ∷ qs)
        (kept none (some v) ms (Outside-front w ms ((v, u) ∷ []) c.right_start) c.left_start q_ms
          c.start)
        (write_other w v none h2 (λ e. v_w (sym e)) ∙ write_same v (some cv) h1)
        (omega (arith, free, c.used_left))
        (
          write_other w q none h2 d.left_rest.0
              ∙ (write_other v q (some cv) h1 c.left_rest.1.0 ∙ write_same q (some cq) h),
          omega (arith, free, d.used_right),
          kept (some q) none qs d.left_rest.1 c.left_rest.1.1 d.right_rest d.rest,
        )

  -- `erase` of a node between two others.
  pub erase_middle :
      (u y z : A) (v w q : ℕ) (ms qs : List (ℕ × A)) (s : State A)
      → Represents ((ms ++ (v, u) ∷ []) ++ (w, y) ∷ (q, z) ∷ qs) s
      → length ms + length qs + 3 < size_mod
      → Left (some q) ((ms ++ (v, u) ∷ []) ++ (q, z) ∷ qs) (erase (some w) s)
  unfolding erase link_previous link_next set_previous set_next
  erase_middle u y z v w q ms qs s r room =
      let vs = ms ++ (v, u) ∷ [] in
      let nested = sym (append_assoc vs ((w, y) ∷ []) ((q, z) ∷ qs)) in
      let c = cut s.heap ms v u w y ((q, z) ∷ qs) r.chain r.distinct in
      let d =
        cut s.heap vs w y q z qs (subst (λ t. Linked s.heap none t none) nested r.chain)
          (subst Distinct nested r.distinct) in
      let cv : Node A = record { previous = last none ms; next = some q; value = u } in
      let cq : Node A = record { previous = some v; next = first qs none; value = z } in
      let h1 = write q (some cq) s.heap in
      let kept_v = write_other q v (some cq) s.heap (λ e. c.left_rest.1.0 (sym e)) ∙ c.found_left in
      let starts = r.begins ∙ first-append vs ((w, y) ∷ (q, z) ∷ qs) none in
      let not_first =
        ap (same (some w)) starts ∙ first-other_than w v u ms (some w) c.right_start in
      let ends = r.ends ∙ last-append none vs ((w, y) ∷ (q, z) ∷ qs) in
      let not_last = ap (same (some w)) ends ∙ last-other_than w q z z qs d.left_rest in
      (
        (
          some q,
          record {
            heap = write w none (write v (some cv) h1);
            list = record s.list { size = sub_size s.list.size 1 };
          },
        ),
        rw (c.found_right, d.found_right, kept_v, not_first, not_last) refl,
        (
          refl,
          record {
            begins =
                starts
                ∙ (first_node ms v u (some w) (some q) ∙ sym (first-append vs ((q, z) ∷ qs) none));
            ends = ends ∙ sym (last-append none vs ((q, z) ∷ qs));
            counted = omega (
              arith,
              r.counted,
              length-append vs ((w, y) ∷ (q, z) ∷ qs),
              length-append vs ((q, z) ∷ qs),
              length-append ms ((v, u) ∷ []),
              room,
            );
            chain = erase_chain u y z v w q ms qs s.heap c d;
            distinct = Distinct-delete w y vs ((q, z) ∷ qs) r.distinct;
          },
        ),
      )
