-- ===== src/Stream/Contents.antt =====
-- The received bytes of Network/Stream.cpp in order, and how a reader moves through them.
use mathlib.Core.Path.{subst}
use ziqe.Prelude.{
  ℕ, zero, suc, ◌+◌, ◌-◌, ◌≤◌, ◌<◌, ◌≡◌, refl, sym, ◌∙◌, ap, List, [], ◌∷◌, ◌++◌, map, none, true,
  arith, length, get_elem?, drop, take, length-append, Bool-cases, inl, inr, leb, ltb, length-drop,
  tests, false,
}
use ziqe.Prelude.Fallible.{Returns}
use ziqe.Vector.{size_mod, sub_size}
use ziqe.Vector.Elements.{filled, length-filled, at-filled}
use ziqe.ExtVector
use ziqe.ExtVector.{ExtVector}
use ziqe.ExtVector.Window.{from_vector-Shows, size-Shows, at-Shows, increase_begin-Shows}
use ziqe.ExtVector.Window as Window
use ziqe.Codec.Fields.Reading.{elem_front}
use ziqe.Stream.{Queue, InputStream, skip, increase_begin, find_at, at}

-- All the bytes of some lists, in order.
abbrev pub concat : List (List ℕ) → List ℕ
concat [] = []
concat (v ∷ vs) = v ++ concat vs

-- The window of the current vector shows `front`, and the queued vectors hold `behind`.
pub record Holds (front : List ℕ) (behind : List (List ℕ)) (q : Queue) : Type 0 where
  pub past : List ℕ
  pub rest : List ℕ
  pub window : Window.Shows past front rest q.current
  pub queued : q.vectors ≡ map filled behind
  pub counted : q.vectors_size ≡ length front + length (concat behind)
  pub small : length front + length (concat behind) < size_mod

-- The unread bytes of a queue, and of a stream.
pub record Shown (ahead : List ℕ) (q : Queue) : Type 0 where
  pub front : List ℕ
  pub behind : List (List ℕ)
  pub bytes : ahead ≡ front ++ concat behind
  pub holds : Holds front behind q

abbrev pub Unread : List ℕ → InputStream → Type 0
Unread ahead s = Shown ahead s.queue

drop-append_lt :
    (n : ℕ) (front back : List ℕ) → n ≤ length front → drop n (front ++ back) ≡ drop n front ++ back
drop-append_lt zero front back h = refl
drop-append_lt (suc n) [] back h = absurd (omega arith)
drop-append_lt (suc n) (x ∷ front) back h = drop-append_lt n front back (omega arith)

drop-append_ge :
    (n : ℕ) (front back : List ℕ)
    → length front ≤ n
    → drop n (front ++ back) ≡ drop (n - length front) back
drop-append_ge n [] back h = ap (λ t. drop t back) (omega arith)
drop-append_ge zero (x ∷ front) back h = absurd (omega arith)
drop-append_ge (suc n) (x ∷ front) back h =
    drop-append_ge n front back (omega arith) ∙ ap (λ t. drop t back) (omega arith)

-- The cursor stops inside the current vector.
stop_here :
    (n total : ℕ) (past front rest : List ℕ) (behind : List (List ℕ)) (current : ExtVector)
    → Window.Shows past front rest current
    → total ≡ length front + length (concat behind)
    → total < size_mod
    → n < length front
    → Shown (drop n (front ++ concat behind)) (record {
      current = ExtVector.increase_begin n current;
      vectors = map filled behind;
      vectors_size = sub_size total n;
    })
stop_here n total past front rest behind current shows count small inside = record {
  front = drop n front;
  behind = behind;
  bytes = drop-append_lt n front (concat behind) (omega arith);
  holds = record {
    past = past ++ take n front;
    rest = rest;
    window = increase_begin-Shows shows n (omega arith);
    queued = refl;
    counted = omega (arith, length-drop n front);
    small = omega (arith, length-drop n front);
  };
}

skip-Shown :
    (behind : List (List ℕ)) (n total : ℕ) (past front rest : List ℕ) (current : ExtVector)
    → Window.Shows past front rest current
    → total ≡ length front + length (concat behind)
    → total < size_mod
    → n < total
    → Returns (skip n current (map filled behind) total) (Shown (drop n (front ++ concat behind)))
unfolding skip
skip-Shown [] n total past front rest current shows count small inside =
    let stop : leb (ExtVector.size current) n ≡ false = ground (arith, size-Shows shows) in
    (_, rw stop refl, stop_here n total past front rest [] current shows count small (omega arith))
skip-Shown (v ∷ behind) n total past front rest current shows count small inside =
    let sized = size-Shows shows in
    elim (Bool-cases (leb (ExtVector.size current) n)) [
      | inl more ↦
          let h : length front ≤ n = omega (tests, more, sized) in
          let whole = length-append v (concat behind) in
          let size = ExtVector.size current in
          let (q, e, shown) =
            skip-Shown behind (n - size) (sub_size total size) [] v []
              (ExtVector.from_vector (filled v)) (from_vector-Shows v (omega (arith, whole)))
              (omega (arith, whole, sized)) (omega arith) (omega (arith, sized)) in
          let bytes : drop n (front ++ (v ++ concat behind))
              ≡ drop (n - size) (v ++ concat behind) =
            drop-append_ge n front (v ++ concat behind) h
            ∙ ap (λ t. drop (n - t) (v ++ concat behind)) (sym sized) in
          (q, rw more e, subst (λ t. Shown t q) (sym bytes) shown)
      | inr stop ↦ (
        _,
        rw stop refl,
        stop_here n total past front rest (v ∷ behind) current shows count small
            (ground (arith, sized, stop)),
      )
    ]

-- A reader that consumes fewer bytes than are there goes on behind them, also across the boundaries
-- of the received vectors.
pub advance-Unread :
    (ahead : List ℕ) (s : InputStream) (n : ℕ)
    → Unread ahead s
    → n + 1 ≤ length ahead
    → Returns (increase_begin n s) (Unread (drop n ahead))
unfolding increase_begin
advance-Unread ahead s n u inside =
    let h = u.holds in
    let size : length ahead ≡ length u.front + length (concat u.behind) =
      rw u.bytes (length-append u.front (concat u.behind)) in
    let (q, e, shown) =
      skip-Shown u.behind n s.queue.vectors_size h.past u.front h.rest s.queue.current h.window
        h.counted (omega (arith, h.counted, h.small)) (omega (arith, h.counted, size)) in
    (record s { queue = q }, rw (h.queued, e), subst (λ t. Shown (drop n t) q) (sym u.bytes) shown)

skip-none :
    (behind : List (List ℕ)) (n total : ℕ) (past front rest : List ℕ) (current : ExtVector)
    → Window.Shows past front rest current
    → length front + length (concat behind) < size_mod
    → length front + length (concat behind) ≤ n
    → skip n current (map filled behind) total ≡ none
unfolding skip
skip-none [] n total past front rest current shows small all =
    let more : leb (ExtVector.size current) n ≡ true = ground (arith, size-Shows shows) in
    rw more refl
skip-none (v ∷ behind) n total past front rest current shows small all =
    let whole = length-append v (concat behind) in
    let sized = size-Shows shows in
    let more : leb (ExtVector.size current) n ≡ true = ground (arith, sized, whole) in
    let size = ExtVector.size current in
    rw more (
      skip-none behind (n - size) (sub_size total size) [] v [] (ExtVector.from_vector (filled v))
        (from_vector-Shows v (omega (arith, whole))) (omega (arith, whole))
        (omega (arith, whole, sized)))

-- Consuming every byte received so far, or more, makes `increaseBegin` take a vector from an empty
-- queue, which is undefined behaviour.
pub increase_begin-none :
    (ahead : List ℕ) (s : InputStream) (n : ℕ)
    → Unread ahead s
    → length ahead ≤ n
    → increase_begin n s ≡ none
unfolding increase_begin
increase_begin-none ahead s n u all =
    let h = u.holds in
    let size : length ahead ≡ length u.front + length (concat u.behind) =
      rw u.bytes (length-append u.front (concat u.behind)) in
    rw
      (
        h.queued,
        skip-none u.behind n s.queue.vectors_size h.past u.front h.rest s.queue.current h.window
            h.small (omega (arith, size)),
      )
      refl

elem_later :
    (front back : List ℕ) (i : ℕ)
    → length front ≤ i
    → get_elem? (front ++ back) i ≡ get_elem? back (i - length front)
elem_later [] back i h = ap (get_elem? back) (omega arith)
elem_later (x ∷ front) back zero h = absurd (omega arith)
elem_later (x ∷ front) back (suc i) h =
    elem_later front back i (omega arith) ∙ ap (get_elem? back) (omega arith)

find_at-concat :
    (behind : List (List ℕ)) (i : ℕ)
    → i < length (concat behind)
    → find_at i (map filled behind) ≡ get_elem? (concat behind) i
unfolding find_at
find_at-concat [] i h = absurd (omega arith)
find_at-concat (v ∷ behind) i h =
    let len = length-filled v in
    elim (Bool-cases (ltb i (length (filled v)))) [
      | inl inside ↦
          rw inside
            (at-filled v i ∙ sym (elem_front v (concat behind) i (omega (tests, inside, len))))
      | inr later ↦
          let h' : length v ≤ i = ground (arith, later, len) in
          let next =
            find_at-concat behind (i - length (filled v))
              (omega (arith, length-append v (concat behind), len)) in
          rw later (
            next
            ∙ ap (λ t. get_elem? (concat behind) (i - t)) len
            ∙ sym (elem_later v (concat behind) i h'))
    ]

-- `operator[]` at an index below the number of unread bytes gives that byte, also across the
-- boundaries of the received vectors.
pub at-Unread :
    (ahead : List ℕ) (s : InputStream) (i : ℕ)
    → Unread ahead s
    → i < length ahead
    → at s i ≡ get_elem? ahead i
unfolding at
at-Unread ahead s i u inside =
    let h = u.holds in
    let sized = size-Shows h.window in
    let size : length ahead ≡ length u.front + length (concat u.behind) =
      rw u.bytes (length-append u.front (concat u.behind)) in
    elim (Bool-cases (leb (ExtVector.size s.queue.current) i)) [
      | inl later ↦
          let past : length u.front ≤ i = omega (tests, later, sized) in
          let found = find_at-concat u.behind (i - length u.front) (omega (arith, size)) in
          rw (later, h.queued, sized, u.bytes)
            (found ∙ sym (elem_later u.front (concat u.behind) i past))
      | inr here ↦
          let first : i < length u.front = ground (arith, here, sized) in
          rw (here, u.bytes)
            (at-Shows h.window i first ∙ sym (elem_front u.front (concat u.behind) i first))
    ]
