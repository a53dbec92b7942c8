-- ===== src/LinkedList.antt =====
-- Base/LinkedList.hpp: a doubly linked list of nodes on the heap. An iterator is the address of a
-- node, and `none` is the null pointer, which is `end ()`. Reading or writing a cell without a node
-- is undefined behaviour.
pub mod Cells
pub mod Sequence
pub mod Insertion
pub mod Removal
pub mod Clearing
pub mod Cut
pub mod Middle
pub mod Erasure
pub mod Values
use ziqe.Prelude.{
  ℕ, zero, suc, ◌+◌, ◌%◌, List, [], ◌∷◌, Option, none, some, Bool, true, false, ◌==◌, if◌then◌else◌,
}
use ziqe.Prelude.Fallible.{◌>>=◌}
use ziqe.Vector.{size_mod, sub_size}

abbrev pub Iterator : Type 0
Iterator = Option ℕ

pub record Node {ℓ} (A : Type ℓ) : Type ℓ where
  pub previous : Iterator
  pub next : Iterator
  pub value : A

-- Addresses from `next_free` on have never been used.
pub record Heap {ℓ} (A : Type ℓ) : Type ℓ where
  pub cells : ℕ → Option (Node A)
  pub next_free : ℕ

-- `mBegin`, `mBeforeEnd` and `mSize`
pub record LinkedList : Type 0 where
  pub begin : Iterator
  pub before_end : Iterator
  pub size : ℕ

pub record State {ℓ} (A : Type ℓ) : Type ℓ where
  pub heap : Heap A
  pub list : LinkedList

-- `operator ==` of iterators
abbrev pub same : Iterator → Iterator → Bool
same none none = true
same none (some q) = false
same (some p) none = false
same (some p) (some q) = p == q

-- The default constructor.
abbrev pub new : LinkedList
new = record { begin = none; before_end = none; size = 0 }

unfoldable pub is_empty : LinkedList → Bool
is_empty l = same l.begin none

-- `swap`
unfoldable pub swap : LinkedList → LinkedList → LinkedList × LinkedList
swap this other = (other, this)

module _ {ℓ} {A : Type ℓ} where
  unfoldable pub write : ℕ → Option (Node A) → Heap A → Heap A
  write p n h = record h { cells = λ q. if q == p then n else h.cells q }

  -- `new NodeType{...}`, at the address `next_free`
  unfoldable pub allocate : Node A → Heap A → Heap A
  allocate n h = record (write h.next_free (some n) h) { next_free = suc h.next_free }

  -- `->next = v` and `->previous = v`
  unfoldable pub set_next : ℕ → Iterator → Heap A → Option (Heap A)
  set_next p v h = do n ← h.cells p; some (write p (some (record n { next = v })) h)

  unfoldable pub set_previous : ℕ → Iterator → Heap A → Option (Heap A)
  set_previous p v h = do n ← h.cells p; some (write p (some (record n { previous = v })) h)

  -- The same where the pointer is not null.
  unfoldable pub link_next : Iterator → Iterator → Heap A → Option (Heap A)
  link_next none v h = some h
  link_next (some p) v h = set_next p v h

  unfoldable pub link_previous : Iterator → Iterator → Heap A → Option (Heap A)
  link_previous none v h = some h
  link_previous (some p) v h = set_previous p v h

  -- `emplace_after`
  unfoldable pub emplace_after : Iterator → A → State A → Option (Iterator × State A)
  emplace_after none x s =
      let fresh = some s.heap.next_free in
      let l = s.list in
      some (
        fresh,
        record {
          heap = allocate (record { previous = none; next = none; value = x }) s.heap;
          list = record {
            begin = fresh;
            before_end = if same none l.before_end then fresh else l.before_end;
            size = (l.size + 1) % size_mod;
          };
        },
      )
  emplace_after (some w) x s =
      let fresh = some s.heap.next_free in
      let l = s.list in
      do
        n ← s.heap.cells w
        h ←
            link_previous n.next fresh
              (allocate (record { previous = some w; next = n.next; value = x }) s.heap)
        h' ← set_next w fresh h
        some (
          fresh,
          record {
            heap = h';
            list = record l {
              before_end = if same (some w) l.before_end then fresh else l.before_end;
              size = (l.size + 1) % size_mod;
            };
          },
        )

  -- `emplace_before`
  unfoldable pub emplace_before : Iterator → A → State A → Option (Iterator × State A)
  emplace_before none x s = emplace_after s.list.before_end x s
  emplace_before (some w) x s =
      let fresh = some s.heap.next_free in
      let l = s.list in
      do
        n ← s.heap.cells w
        h ←
            link_next n.previous fresh
              (allocate (record { previous = n.previous; next = some w; value = x }) s.heap)
        h' ← set_previous w fresh h
        some (
          fresh,
          record {
            heap = h';
            list = record l {
              begin = if same l.begin (some w) then fresh else l.begin;
              size = (l.size + 1) % size_mod;
            };
          },
        )

  unfoldable pub emplace_back : A → State A → Option (Iterator × State A)
  emplace_back x s = emplace_after s.list.before_end x s

  unfoldable pub emplace_front : A → State A → Option (Iterator × State A)
  emplace_front x s = emplace_before s.list.begin x s

  -- `erase (iterator)`
  unfoldable pub erase : Iterator → State A → Option (Iterator × State A)
  erase none s = none
  erase (some w) s =
      let l = s.list in
      do
        n ← s.heap.cells w
        h ← link_previous n.next n.previous s.heap
        h' ← link_next n.previous n.next h
        some (
          if same (some w) l.before_end then n.previous else n.next,
          record {
            heap = write w none h';
            list = record {
              begin = if same (some w) l.begin then n.next else l.begin;
              before_end = if same (some w) l.before_end then n.previous else l.before_end;
              size = sub_size l.size 1;
            };
          },
        )

  unfoldable pub pop_back : State A → Option (Iterator × State A)
  pop_back s = erase s.list.before_end s

  unfoldable pub pop_front : State A → Option (Iterator × State A)
  pop_front s = erase s.list.begin s

  -- The loop of `erase (begin, end)`: it deletes the node at `p` and those up to `end`, and says
  -- whether the first and the last node of the list were among them.
  unfoldable pub delete_range :
      ℕ → ℕ → Iterator → Bool × Bool → State A → Option ((Bool × Bool) × State A)
  delete_range zero p end invalidated s = none
  delete_range (suc fuel) p end (begin_gone, end_gone) s =
      let l = s.list in
      let gone : Bool × Bool = (
        if same (some p) l.begin then true else begin_gone,
        if same (some p) l.before_end then true else end_gone,
      ) in
      let s' : State A = record {
        heap = write p none s.heap;
        list = record l { size = sub_size l.size 1 };
      } in
      s.heap.cells p >>= λ n.
      if same n.next end
      then some (gone, s')
      else elim n.next [ none ↦ none | some q ↦ delete_range fuel q end gone s' ]

  -- `erase (begin, end)`; a list has `size` nodes, which bounds the rounds of the loop
  unfoldable pub erase_range : Iterator → Iterator → State A → Option (State A)
  erase_range none none s = some s
  erase_range none (some q) s = none
  erase_range (some p) end s = if same (some p) end then some s else do
    n ← s.heap.cells p
    ((begin_gone, end_gone), s') ← delete_range s.list.size p end (false, false) s
    h ← elim n.previous [
      | none ↦ some s'.heap
      | some before ↦ do
        h ← set_next before end s'.heap
        elim end [ none ↦ none | some e ↦ set_previous e (some before) h ]
    ]
    some (record {
      heap = h;
      list = record {
        begin = if begin_gone then end else s'.list.begin;
        before_end = if end_gone then end else s'.list.before_end;
        size = s'.list.size;
      };
    })

  -- `clear`
  unfoldable pub clear : State A → Option (State A)
  clear s = if is_empty s.list then some s else erase_range s.list.begin none s

  -- `front` and `back`
  unfoldable pub front : State A → Option A
  front s = elim s.list.begin [ none ↦ none | some p ↦ (do n ← s.heap.cells p; some n.value) ]

  unfoldable pub back : State A → Option A
  back s = elim s.list.before_end [ none ↦ none | some p ↦ (do n ← s.heap.cells p; some n.value) ]

  -- The loop of `insertAfter`: append each value behind the node at `p`, and give the last node.
  unfoldable pub append_each : List A → ℕ → State A → Option (ℕ × State A)
  append_each [] p s = some (p, s)
  append_each (x ∷ xs) p s =
      let f = s.heap.next_free in
      set_next p (some f) (allocate (record { previous = some p; next = none; value = x }) s.heap)
      >>= λ h.
          append_each xs f
            (record { heap = h; list = record s.list { size = (s.list.size + 1) % size_mod } })

  -- `insertAfter`
  unfoldable pub insert_after : ℕ → List A → State A → Option (State A)
  insert_after w xs s = do
    n ← s.heap.cells w
    (p, s') ← append_each xs w s
    h ← set_next p n.next s'.heap
    h' ← link_previous n.next (some p) h
    some (record {
      heap = h';
      list = record s'.list {
        before_end = if same (some w) s.list.before_end then some p else s'.list.before_end;
      };
    })

  -- `insert` of a range before an iterator
  unfoldable pub insert : Iterator → List A → State A → Option (State A)
  insert place [] s = some s
  insert place (x ∷ xs) s = do
    (it, s') ← emplace_before place x s
    elim xs [
      | [] ↦ some s'
      | y ∷ ys ↦ elim it [ none ↦ none | some w ↦ insert_after w (y ∷ ys) s' ]
    ]

  -- The constructor from a range, and the copy assignment of another list's values.
  unfoldable pub from_range : List A → Heap A → Option (State A)
  from_range xs h = insert none xs (record { heap = h; list = new })

  unfoldable pub assign : List A → State A → Option (State A)
  assign xs s = do s' ← clear s; insert none xs s'

  -- `operator ++` and `next` of an iterator, and `operator --` and `previous`
  unfoldable pub next_of : Iterator → Heap A → Option Iterator
  next_of it h = elim it [ none ↦ none | some p ↦ (do n ← h.cells p; some n.next) ]

  unfoldable pub previous_of : Iterator → Heap A → Option Iterator
  previous_of it h = elim it [ none ↦ none | some p ↦ (do n ← h.cells p; some n.previous) ]

  -- `operator *` of an iterator
  unfoldable pub value_at : Iterator → Heap A → Option A
  value_at it h = elim it [ none ↦ none | some p ↦ (do n ← h.cells p; some n.value) ]
