-- ===== src/ExtVector/Window.antt =====
-- The window of Base/ExtendedVector.hpp as a list of bytes, and what the operations do to it.
use ziqe.Prelude.{
  take_all, ℕ, zero, suc, ◌+◌, ◌-◌, ◌%◌, ◌≤◌, ◌<◌, ◌≡◌, refl, sym, ◌∙◌, ap, List, [], ◌∷◌, ◌++◌,
  none, arith, length, get_elem?, set, take, drop, replicate, length-append, min, length-set,
  length-take, length-drop, take-append-drop, append_nil, length-replicate,
}
use ziqe.Prelude.Fallible.{Returns}
use mathlib.Core.List.{append_assoc}
use ziqe.Vector
use ziqe.Vector.{size_mod}
use ziqe.Vector.Elements.{filled, length-filled, at-filled, put-filled, resize-filled, initial-none}
use ziqe.ExtVector.{ExtVector, from_vector, size, at, put, increase_begin, expand}

-- The window lies behind the bytes `past`, holds `ahead`, and ends before the bytes `rest`.
pub record Shows (past ahead rest : List ℕ) (v : ExtVector) : Type 0 where
  pub holds : v.vector ≡ filled (past ++ (ahead ++ rest))
  pub begins : v.index_begin ≡ length past
  pub ends : v.index_end ≡ length past + length ahead
  pub fits : length past + length ahead + length rest < size_mod

-- A vector that has been taken over is shown whole.
pub from_vector-Shows : (v : List ℕ) → length v < size_mod → Shows [] v [] (from_vector (filled v))
unfolding from_vector
from_vector-Shows v h = record {
  holds = ap filled (sym (append_nil v));
  begins = refl;
  ends = omega (arith, length-filled v);
  fits = omega arith;
}

elem_behind :
    (past ahead : List ℕ) (i : ℕ) → get_elem? (past ++ ahead) (i + length past) ≡ get_elem? ahead i
elem_behind [] ahead i = ap (get_elem? ahead) (omega arith)
elem_behind (p ∷ past) ahead i =
    let next : i + suc (length past) ≡ suc (i + length past) = omega arith in
    rw next (elem_behind past ahead i)

elem_before :
    (ahead rest : List ℕ) (i : ℕ)
    → i < length ahead
    → get_elem? (ahead ++ rest) i ≡ get_elem? ahead i
elem_before [] rest i h = absurd (omega arith)
elem_before (a ∷ ahead) rest zero h = refl
elem_before (a ∷ ahead) rest (suc i) h = elem_before ahead rest i (omega arith)

set_behind :
    (past ahead : List ℕ) (i x : ℕ)
    → set (past ++ ahead) (i + length past) x ≡ past ++ set ahead i x
set_behind [] ahead i x = ap (λ t. set ahead t x) (omega arith)
set_behind (p ∷ past) ahead i x =
    let next : i + suc (length past) ≡ suc (i + length past) = omega arith in
    rw next (ap (λ t. p ∷ t) (set_behind past ahead i x))

set_before :
    (ahead rest : List ℕ) (i x : ℕ)
    → i < length ahead
    → set (ahead ++ rest) i x ≡ set ahead i x ++ rest
set_before [] rest i x h = absurd (omega arith)
set_before (a ∷ ahead) rest zero x h = refl
set_before (a ∷ ahead) rest (suc i) x h = ap (λ t. a ∷ t) (set_before ahead rest i x (omega arith))

module _ {past ahead rest : List ℕ} {v : ExtVector} (shows : Shows past ahead rest v) where
  pub size-Shows : size v ≡ length ahead
  unfolding size
  size-Shows = omega (arith, shows.begins, shows.ends, shows.fits)

  index-Shows : (i : ℕ) → i < length ahead → (i + v.index_begin) % size_mod ≡ i + length past
  index-Shows i h = omega (arith, shows.begins, shows.fits)

  pub at-Shows : (i : ℕ) → i < length ahead → at v i ≡ get_elem? ahead i
  unfolding at
  at-Shows i h =
      rw (index-Shows i h, shows.holds, at-filled (past ++ (ahead ++ rest)) (i + length past))
        (elem_behind past (ahead ++ rest) i ∙ elem_before ahead rest i h)

  pub put-Shows :
      (i x : ℕ) → i < length ahead → Returns (put v i x) (Shows past (set ahead i x) rest)
  unfolding put
  put-Shows i x h =
      let idx = i + length past in
      let inside : idx < length (past ++ (ahead ++ rest)) =
        omega (arith, length-append past (ahead ++ rest), length-append ahead rest) in
      let content : set (past ++ (ahead ++ rest)) idx x ≡ past ++ (set ahead i x ++ rest) =
        set_behind past (ahead ++ rest) i x ∙ ap (λ t. past ++ t) (set_before ahead rest i x h) in
      (
        record v { vector = filled (past ++ (set ahead i x ++ rest)) },
        rw (
          index-Shows i h,
          shows.holds,
          put-filled (past ++ (ahead ++ rest)) idx x inside,
          content,
        ),
        record {
          holds = refl;
          begins = shows.begins;
          ends = omega (arith, shows.ends, length-set ahead i x);
          fits = omega (arith, shows.fits, length-set ahead i x);
        },
      )

  pub increase_begin-Shows :
      (n : ℕ)
      → n ≤ length ahead
      → Shows (past ++ take n ahead) (drop n ahead) rest (increase_begin n v)
  unfolding increase_begin
  increase_begin-Shows n h =
      let passed = length-append past (take n ahead) in
      let taken = length-take n ahead in
      let left = length-drop n ahead in
      record {
        holds =
            shows.holds
            ∙ ap filled (
                ap (λ t. past ++ (t ++ rest)) (sym (take-append-drop n ahead))
                ∙ (ap (λ t. past ++ t) (append_assoc (take n ahead) (drop n ahead) rest)
                    ∙ sym (append_assoc past (take n ahead) (drop n ahead ++ rest))));
        begins = omega (arith, shows.begins, shows.fits, passed, taken);
        ends = omega (arith, shows.ends, passed, taken, left);
        fits = omega (arith, shows.fits, passed, taken, left);
      }

  -- Where the vector goes on behind the window, `expand` by `n` sets the window's end to the number
  -- of elements behind the window less `n`, stopping at 0: it does not lie `n` behind the old end.
  pub expand-index_end :
      (n : ℕ) → 0 < length rest → (expand n v).index_end ≡ length rest - min n (length rest)
  unfolding expand
  expand-index_end n more =
      let total : length v.vector ≡ length past + length ahead + length rest = rw shows.holds (
        length-filled (past ++ (ahead ++ rest))
        ∙ omega (arith, length-append past (ahead ++ rest), length-append ahead rest)) in
      ground (arith, total, shows.ends, shows.fits)

-- Where the window ends with the vector, `expand` by `n` of a window that does not stay empty adds
-- `n` zero bytes behind the window, which does not grow; all sizes are below `2 ^ 64`.
pub expand-Shows_full :
    {past ahead : List ℕ} {v : ExtVector} (n : ℕ)
    → Shows past ahead [] v
    → 0 < length ahead + n
    → length past + length ahead + n < size_mod
    → Shows past ahead (replicate n 0) (expand n v)
unfolding expand Vector.expand
expand-Shows_full {past} {ahead} {v} n shows pos fits =
    let xs = past ++ (ahead ++ []) in
    let whole : length xs ≡ length past + length ahead =
      omega (arith, length-append past (ahead ++ []), length-append {A = ℕ} ahead []) in
    let total : length v.vector ≡ length past + length ahead =
      rw shows.holds (length-filled xs ∙ whole) in
    let kept : take ((length xs + n) % size_mod) xs ≡ xs =
      take_all ((length xs + n) % size_mod) xs (omega (arith, whole)) in
    let more : (length xs + n) % size_mod - length xs ≡ n = omega (arith, whole) in
    let zeros : xs ++ replicate n 0 ≡ past ++ (ahead ++ replicate n 0) =
      rw (append_nil ahead) (append_assoc past ahead (replicate n 0)) in
    let resized : Vector.resize ((length v.vector + n) % size_mod) none 0 v.vector
        ≡ filled (past ++ (ahead ++ replicate n 0)) =
      rw (shows.holds, length-filled xs)
        (resize-filled ((length xs + n) % size_mod) none 0 xs
          ∙ rw (kept, more, initial-none {A = ℕ} 0 n) (ap filled zeros)) in
    let sized = size-Shows shows in
    record {
      holds = ground (arith, total, shows.ends, sized, resized);
      begins = shows.begins;
      ends = ground (arith, total, shows.ends, shows.fits);
      fits = omega (arith, fits, length-replicate {A = ℕ} n 0);
    }
