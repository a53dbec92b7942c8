-- ===== src/LinkedList/Insertion.antt =====
-- `emplace_back` and `emplace_front` of Base/LinkedList.hpp.
use mathlib.Core.Path.{subst}
use ziqe.Prelude.{
  ℕ, ◌+◌, ◌%◌, ◌<◌, ◌≡◌, ◌≢◌, refl, sym, ◌∙◌, List, [], ◌∷◌, ◌++◌, Option, none, some, arith,
  length, inl, inr, length-append,
}
use ziqe.Prelude.Fallible.{Returns}
use ziqe.Vector.{size_mod}
use ziqe.LinkedList.{
  Iterator, Node, State, write, allocate, set_next, set_previous, link_next, link_previous,
  emplace_after, emplace_before, emplace_back, emplace_front,
}
use ziqe.LinkedList.Cells.{
  first, last, Linked, write_other, write_same, Linked-write, Linked-Outside, Linked-allocate,
  allocate_same, allocate_other,
}
use ziqe.LinkedList.Sequence.{
  Represents, same_refl, first-append, last-append, Linked-front, Linked-back, Linked-join,
  Distinct-last, Distinct-snoc, last_cases,
}

module _ {ℓ} {A : Type ℓ} where
  -- The first node of a list.
  emplace_alone :
      (x : A) (s : State A)
      → Represents [] s
      → Returns
          (emplace_after none x s)
          (λ r. (r.0 ≡ some s.heap.next_free) × Represents ((s.heap.next_free, x) ∷ []) r.1)
  unfolding emplace_after allocate
  emplace_alone x s r =
      let f = s.heap.next_free in
      (
        (
          some f,
          record {
            heap = allocate (record { previous = none; next = none; value = x }) s.heap;
            list = record {
              begin = some f;
              before_end = some f;
              size = (s.list.size + 1) % size_mod;
            };
          },
        ),
        rw r.ends refl,
        (
          refl,
          record {
            begins = refl;
            ends = refl;
            counted = omega (arith, r.counted);
            chain = (
              write_same f (some (record { previous = none; next = none; value = x })) s.heap,
              omega arith,
              tt,
            );
            distinct = (tt, tt);
          },
        ),
      )

  emplace_after-run :
      (x y : A) (w : ℕ) (before : Iterator) (s : State A)
      → s.heap.cells w ≡ some (record { previous = before; next = none; value = y })
      → w < s.heap.next_free
      → s.list.before_end ≡ some w
      → emplace_after (some w) x s
        ≡ some (
          some s.heap.next_free,
          record {
            heap =
                write w
                  (some (record { previous = before; next = some s.heap.next_free; value = y }))
                  (allocate (record { previous = some w; next = none; value = x }) s.heap);
            list = record s.list {
              before_end = some s.heap.next_free;
              size = (s.list.size + 1) % size_mod;
            };
          },
        )
  unfolding emplace_after link_previous set_next
  emplace_after-run x y w before s found used at_end =
      let kept =
        allocate_other (record { previous = some w; next = none; value = x }) s.heap w used
        ∙ found in
      rw (found, kept, at_end, same_refl w) refl

  emplace_last :
      (x y : A) (w : ℕ) (ms : List (ℕ × A)) (s : State A)
      → Represents (ms ++ (w, y) ∷ []) s
      → length ms + 2 < size_mod
      → Returns (emplace_after (some w) x s) (λ r.
        (r.0 ≡ some s.heap.next_free)
        × Represents ((ms ++ (w, y) ∷ []) ++ (s.heap.next_free, x) ∷ []) r.1)
  unfolding allocate write
  emplace_last x y w ms s r room =
      let f = s.heap.next_free in
      let fresh : Node A = record { previous = some w; next = none; value = x } in
      let changed : Node A = record { previous = last none ms; next = some f; value = y } in
      let front = Linked-front s.heap none none ms ((w, y) ∷ []) r.chain in
      let (found, used, _) = Linked-back s.heap none none ms ((w, y) ∷ []) r.chain in
      let below : f ≢ w = λ e. omega (arith, e, used) in
      let heap = write w (some changed) (allocate fresh s.heap) in
      let at_end : s.list.before_end ≡ some w = r.ends ∙ last-append none ms ((w, y) ∷ []) in
      let size = length-append ms ((w, y) ∷ []) in
      let new_size = length-append (ms ++ (w, y) ∷ []) ((f, x) ∷ []) in
      let chain =
        Linked-join heap none none (ms ++ (w, y) ∷ []) ((f, x) ∷ [])
          (Linked-join heap none (some f) ms ((w, y) ∷ [])
            (Linked-write w (some changed) (allocate fresh s.heap) none (some w) ms
              (Distinct-last ms w y r.distinct)
              (Linked-allocate fresh s.heap none (some w) ms front))
            (write_same w (some changed) (allocate fresh s.heap), omega (arith, used), tt))
          (rw (last-append none ms ((w, y) ∷ [])) (
            write_other w f (some changed) (allocate fresh s.heap) below
                ∙ allocate_same fresh s.heap,
            omega arith,
            tt,
          )) in
      (
        (
          some f,
          record {
            heap = heap;
            list = record s.list { before_end = some f; size = (s.list.size + 1) % size_mod };
          },
        ),
        emplace_after-run x y w (last none ms) s found used at_end,
        (
          refl,
          record {
            begins =
                r.begins
                ∙ (first-append ms ((w, y) ∷ []) none
                    ∙ sym (
                        first-append (ms ++ (w, y) ∷ []) ((f, x) ∷ []) none
                        ∙ first-append ms ((w, y) ∷ []) (some f)));
            ends = sym (last-append none (ms ++ (w, y) ∷ []) ((f, x) ∷ []));
            counted = omega (arith, r.counted, size, new_size, room);
            chain = chain;
            distinct =
                Distinct-snoc f x (ms ++ (w, y) ∷ []) r.distinct
                  (Linked-Outside s.heap none none (ms ++ (w, y) ∷ []) r.chain);
          },
        ),
      )

  -- The run ends in an iterator to a fresh node and a list that represents `ns`.
  abbrev pub Added : List (ℕ × A) → State A → Option (Iterator × State A) → Type ℓ
  Added ns s run = Returns run (λ r. (r.0 ≡ some s.heap.next_free) × Represents ns r.1)

  -- `emplace_back` on a list that represents a sequence, of fewer than `2 ^ 64 - 1` nodes, returns an
  -- iterator to a fresh node, and the list represents the sequence with that node behind it.
  pub emplace_back-Represents :
      (x : A) (ns : List (ℕ × A)) (s : State A)
      → Represents ns s
      → length ns + 1 < size_mod
      → Added (ns ++ (s.heap.next_free, x) ∷ []) s (emplace_back x s)
  unfolding emplace_back
  emplace_back-Represents x ns s r room = elim (last_cases ns) [
    | inl e ↦
        let r' = subst (λ t. Represents t s) e r in
        let added =
          subst (λ it. Added ((s.heap.next_free, x) ∷ []) s (emplace_after it x s)) (sym r'.ends)
            (emplace_alone x s r') in
        subst (λ t. Added (t ++ (s.heap.next_free, x) ∷ []) s (emplace_after s.list.before_end x s))
          (sym e) added
    | inr (ms, w, y, e) ↦
        let r' = subst (λ t. Represents t s) e r in
        let size = length-append ms ((w, y) ∷ []) in
        let room' : length (ms ++ (w, y) ∷ []) + 1 < size_mod =
          subst (λ t. length t + 1 < size_mod) e room in
        let at_end = r'.ends ∙ last-append none ms ((w, y) ∷ []) in
        let added =
          subst
            (λ it.
              Added ((ms ++ (w, y) ∷ []) ++ (s.heap.next_free, x) ∷ []) s (emplace_after it x s))
            (sym at_end) (emplace_last x y w ms s r' (omega (arith, size, room'))) in
        subst (λ t. Added (t ++ (s.heap.next_free, x) ∷ []) s (emplace_after s.list.before_end x s))
          (sym e) added
  ]

  first_chain :
      (x y : A) (w : ℕ) (ns : List (ℕ × A)) (s : State A)
      → Represents ((w, y) ∷ ns) s
      → Linked
          (write w
            (some (record { previous = some s.heap.next_free; next = first ns none; value = y }))
            (allocate (record { previous = none; next = some w; value = x }) s.heap))
          none
          ((s.heap.next_free, x) ∷ (w, y) ∷ ns)
          none
  unfolding allocate write
  first_chain x y w ns s r =
      let f = s.heap.next_free in
      let fresh : Node A = record { previous = none; next = some w; value = x } in
      let changed : Node A = record { previous = some f; next = first ns none; value = y } in
      let (found, used, rest) = r.chain in
      let below : f ≢ w = λ e. omega (arith, e, used) in
      let h1 = allocate fresh s.heap in
      (
        write_other w f (some changed) h1 below ∙ allocate_same fresh s.heap,
        omega arith,
        (
          write_same w (some changed) h1,
          omega (arith, used),
          Linked-write w (some changed) h1 (some w) none ns r.distinct.0
              (Linked-allocate fresh s.heap (some w) none ns rest),
        ),
      )

  emplace_first :
      (x y : A) (w : ℕ) (ns : List (ℕ × A)) (s : State A)
      → Represents ((w, y) ∷ ns) s
      → length ns + 2 < size_mod
      → Added ((s.heap.next_free, x) ∷ (w, y) ∷ ns) s (emplace_before (some w) x s)
  unfolding emplace_before link_next set_previous
  emplace_first x y w ns s r room =
      let f = s.heap.next_free in
      let fresh : Node A = record { previous = none; next = some w; value = x } in
      let changed : Node A = record { previous = some f; next = first ns none; value = y } in
      let (found, used, rest) = r.chain in
      let below : f ≢ w = λ e. omega (arith, e, used) in
      let kept = allocate_other fresh s.heap w used ∙ found in
      let heap = write w (some changed) (allocate fresh s.heap) in
      let changed_chain = first_chain x y w ns s r in
      (
        (
          some f,
          record {
            heap = heap;
            list = record s.list { begin = some f; size = (s.list.size + 1) % size_mod };
          },
        ),
        rw (found, kept, r.begins, same_refl w) refl,
        (
          refl,
          record {
            begins = refl;
            ends = r.ends;
            counted = omega (arith, r.counted, room);
            chain = changed_chain;
            distinct = (Linked-Outside s.heap none none ((w, y) ∷ ns) r.chain, r.distinct);
          },
        ),
      )

  -- `emplace_front` on a list that represents a sequence, of fewer than `2 ^ 64 - 1` nodes, returns an
  -- iterator to a fresh node, and the list represents the sequence with that node before it.
  pub emplace_front-Represents :
      (x : A) (ns : List (ℕ × A)) (s : State A)
      → Represents ns s
      → length ns + 1 < size_mod
      → Added ((s.heap.next_free, x) ∷ ns) s (emplace_front x s)
  unfolding emplace_front emplace_before
  emplace_front-Represents x [] s r room =
      let added =
        subst (λ it. Added ((s.heap.next_free, x) ∷ []) s (emplace_after it x s)) (sym r.ends)
          (emplace_alone x s r) in
      subst (λ it. Added ((s.heap.next_free, x) ∷ []) s (emplace_before it x s)) (sym r.begins)
        added
  emplace_front-Represents x ((w, y) ∷ ns) s r room =
      subst (λ it. Added ((s.heap.next_free, x) ∷ (w, y) ∷ ns) s (emplace_before it x s))
        (sym r.begins) (emplace_first x y w ns s r (omega arith))
