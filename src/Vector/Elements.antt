-- ===== src/Vector/Elements.antt =====
-- What the operations of Base/Vector.hpp do to a vector whose elements are all constructed.
use ziqe.Prelude.{
  Bool-cases, ◌==◌, ==_iff, ltb, inl, inr, tests, ℕ, zero, suc, ◌+◌, ◌-◌, ◌%◌, ◌≤◌, ◌<◌, ◌≡◌, refl,
  sym, ◌∙◌, ap, List, [], ◌∷◌, ◌++◌, map, Option, none, some, arith, length, get_elem?, set, take,
  replicate, length-append, length-map, length-replicate, length-take, min, lt→ltb, set_middle,
  snoc_append, take_all, append_nil, take_append,
}
use ziqe.Vector.{
  size_mod, at, put, resize_buffer, insert_at, assign, resize, expand_range, move_old, construct_n,
  initial,
}

module _ {ℓ} {A : Type ℓ} where
  -- A vector of living elements.
  abbrev pub filled : List A → List (Option A)
  filled = map some

  pub at-filled : (xs : List A) (i : ℕ) → at (filled xs) i ≡ get_elem? xs i
  unfolding at
  at-filled [] i = refl
  at-filled (x ∷ xs) zero = refl
  at-filled (x ∷ xs) (suc i) = at-filled xs i

  set-filled : (xs : List A) (i : ℕ) (x : A) → set (filled xs) i (some x) ≡ filled (set xs i x)
  set-filled [] i x = refl
  set-filled (y ∷ xs) zero x = refl
  set-filled (y ∷ xs) (suc i) x = ap (λ t. some y ∷ t) (set-filled xs i x)

  lookup_inside : (xs : List A) (i : ℕ) → i < length xs → (x : A) × (get_elem? xs i ≡ some x)
  lookup_inside [] i h = absurd (omega arith)
  lookup_inside (x ∷ xs) zero h = (x, refl)
  lookup_inside (x ∷ xs) (suc i) h = lookup_inside xs i (omega arith)

  pub put-filled :
      (xs : List A) (i : ℕ) (x : A)
      → i < length xs
      → put (filled xs) i x ≡ some (filled (set xs i x))
  unfolding put
  put-filled xs i x h =
      let (y, e) = lookup_inside xs i h in
      rw (at-filled xs i ∙ e, put) (ap some (set-filled xs i x))

  length-move_old : (n : ℕ) (v : List (Option A)) → length (move_old n v) ≡ n
  unfolding move_old
  length-move_old n v =
      let k = min (length v) n in
      length-append (take k v) (replicate (n - k) none)
      ∙ omega (arith, length-take k v, length-replicate {A = Option A} (n - k) none)

  pub length-resize_buffer : (n : ℕ) (v : List (Option A)) → length (resize_buffer n v) ≡ n
  unfolding resize_buffer
  length-resize_buffer n v =
      ground (arith, length-move_old n v, length-replicate {A = Option A} n none)

  -- `insertToUninitilizedBuffer` fills the slots in the middle and leaves the others alone.
  pub insert_at_middle :
      (xs : List A) (i : ℕ) (pre mid post : List (Option A))
      → i ≡ length pre
      → length mid ≡ length xs
      → insert_at i xs (pre ++ (mid ++ post)) ≡ some (pre ++ (filled xs ++ post))
  unfolding insert_at
  insert_at_middle [] i pre [] post at_pre h = refl
  insert_at_middle [] i pre (m ∷ mid) post at_pre h = absurd (omega arith)
  insert_at_middle (x ∷ xs) i pre [] post at_pre h = absurd (omega arith)
  insert_at_middle (x ∷ xs) i pre (m ∷ mid) post at_pre h =
      let ih =
        insert_at_middle xs (i + 1) (pre ++ some x ∷ []) mid post
          (omega (arith, length-append pre (some x ∷ []))) (omega arith) in
      let inside =
        lt→ltb i (length (pre ++ m ∷ (mid ++ post)))
          (omega (arith, length-append pre (m ∷ (mid ++ post)))) in
      rw (inside, at_pre, set_middle pre m (mid ++ post) (some x))
        (rw
          (
            snoc_append pre (some x) (mid ++ post),
            snoc_append pre (some x) (filled xs ++ post),
            at_pre,
          )
          at ih)

  -- `assign` makes the vector hold exactly the range, whatever it held before.
  pub assign-filled : (xs : List A) (v : List (Option A)) → assign xs v ≡ some (filled xs)
  unfolding assign
  assign-filled xs v =
      let raw = resize_buffer (length xs) v in
      let whole = insert_at_middle xs 0 [] raw [] refl (length-resize_buffer (length xs) v) in
      rw (append_nil raw, append_nil (filled xs)) at whole

  take-filled : (n : ℕ) (xs : List A) → take n (filled xs) ≡ filled (take n xs)
  take-filled zero xs = refl
  take-filled (suc n) [] = refl
  take-filled (suc n) (x ∷ xs) = ap (λ t. some x ∷ t) (take-filled n xs)

  pub length-filled : (xs : List A) → length (filled xs) ≡ length xs
  length-filled xs = length-map xs some

  pub filled-append : (xs ys : List A) → filled (xs ++ ys) ≡ filled xs ++ filled ys
  filled-append [] ys = refl
  filled-append (x ∷ xs) ys = ap (λ t. some x ∷ t) (filled-append xs ys)

  -- Growing moves the elements over and leaves raw storage behind them.
  grown :
      (xs : List A) (n : ℕ)
      → length xs < n
      → resize_buffer n (filled xs) ≡ filled xs ++ replicate (n - length xs) none
  unfolding resize_buffer move_old
  grown xs n h =
      let kept : min (length (filled xs)) n ≡ length xs = omega (arith, length-filled xs) in
      let whole = take_all (length xs) (filled xs) (omega (arith, length-filled xs)) in
      ground (arith, length-filled xs, kept, whole)

  shrunk :
      (xs : List A) (n : ℕ)
      → n < length xs
      → 0 < n
      → resize_buffer n (filled xs) ≡ filled (take n xs)
  unfolding resize_buffer move_old
  shrunk xs n h pos =
      let kept : min (length (filled xs)) n ≡ n = omega (arith, length-filled xs) in
      let tail : n - n ≡ 0 = omega arith in
      ground
        (arith, length-filled xs, kept, tail, take-filled n xs, append_nil (take n (filled xs)))

  exact :
      (xs : List A) (n : ℕ) (arg : Option A) (d : A)
      → n ≤ length xs
      → take n xs ++ initial arg d (n - length xs) ≡ take n xs
  unfolding initial
  exact xs n arg d h =
      let nothing : n - length xs ≡ 0 = omega arith in rw nothing (append_nil (take n xs))

  constructed :
      (xs : List A) (n : ℕ) (arg : Option A) (d : A)
      → length xs < n
      → construct_n (length xs) arg d (resize_buffer n (filled xs))
        ≡ filled (xs ++ initial arg d (n - length xs))
  unfolding construct_n
  constructed xs n arg d h =
      let gap = n - length xs in
      let raw = replicate gap none in
      let sized = length-resize_buffer n (filled xs) in
      let kept : take (length xs) (filled xs ++ raw) ≡ filled xs =
        ap (λ t. take t (filled xs ++ raw)) (sym (length-filled xs))
        ∙ take_append (filled xs) raw in
      rw (sized, grown xs n h, kept) (sym (filled-append xs (initial arg d gap)))

  pub initial-none : (d : A) (n : ℕ) → initial none d n ≡ replicate n d
  unfolding initial
  initial-none d zero = refl
  initial-none d (suc n) = ap (λ t. d ∷ t) (initial-none d n)

  -- `resize` keeps the elements that fit, in order, and constructs the missing ones, the first of
  -- them from the argument if there is one.
  pub resize-filled :
      (n : ℕ) (arg : Option A) (d : A) (xs : List A)
      → resize n arg d (filled xs) ≡ filled (take n xs ++ initial arg d (n - length xs))
  unfolding resize
  resize-filled n arg d xs =
      let len = length-filled xs in
      elim (Bool-cases (n == length (filled xs))) [
        | inl same ↦
            let eq = (==_iff n (length (filled xs))).0 same in
            rw same (
              ap filled (
                sym (
                  exact xs n arg d (omega (arith, len, eq))
                  ∙ take_all n xs (omega (arith, len, eq)))))
        | inr other ↦ rw other (elim (Bool-cases (n == 0)) [
          | inl zero_size ↦
              let eq = (==_iff n 0).0 zero_size in
              rw zero_size (rw eq (ap filled (sym (exact xs 0 arg d (omega arith)))))
          | inr sized ↦ rw sized (elim (Bool-cases (ltb (length (filled xs)) n)) [
            | inl more ↦ rw more (
                let h : length xs < n = omega (tests, len, more) in
                rw len (
                  constructed xs n arg d h
                  ∙ ap (λ t. filled (t ++ initial arg d (n - length xs)))
                      (sym (take_all n xs (omega arith)))))
            | inr fewer ↦ rw fewer (
                let h : n < length xs = ground (arith, len, other, fewer) in
                shrunk xs n h (ground arith) ∙ ap filled (sym (exact xs n arg d (omega arith))))
          ])
        ])
      ]

  -- `expand` by a range that is not empty appends it, where the new size is below `2 ^ 64`.
  pub expand_range-append :
      (xs ys : List A)
      → 0 < length ys
      → length xs + length ys < size_mod
      → expand_range ys (filled xs) ≡ some (filled (xs ++ ys))
  unfolding expand_range
  expand_range-append xs ys some_new fits =
      let n = length xs + length ys in
      let total : (length (filled xs) + length ys) % size_mod ≡ n =
        omega (arith, length-filled xs) in
      let raw = replicate (n - length xs) none in
      let placed =
        insert_at_middle ys (length (filled xs)) (filled xs) raw [] refl
          (omega (arith, length-replicate {A = Option A} (n - length xs) none)) in
      rw (total, grown xs n (omega arith), filled-append xs ys)
        (rw (append_nil raw, append_nil (filled ys)) at placed)

  -- `expand` by an empty range destroys every element of the vector, of a size below `2 ^ 64`, and
  -- keeps its size.
  pub expand_range-nil :
      (xs : List A)
      → length xs < size_mod
      → expand_range [] (filled xs) ≡ some (replicate (length xs) none)
  unfolding expand_range insert_at resize_buffer
  expand_range-nil xs fits = ground (arith, length-filled xs)
