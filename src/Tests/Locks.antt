-- ===== src/Tests/Locks.antt =====
-- Runs of the scopes of Base/RWLock.hpp.
use ziqe.Prelude.{ℕ, ◌+◌, ◌-◌, ◌≡◌, refl, arith, [], ◌∷◌, some, none, false}
use ziqe.RwLock.{reading, Platform, Scope, open_scope, close_scope, move_scope}
use ziqe.RwLock.Scopes.{holders, History, begun, opened, moved, closed, count-History}

-- A platform whose lock is the number of its holders.
abbrev counting : Platform ℕ
counting = record {
  init = λ l. 0;
  deinit = λ l. 0;
  lock = λ k l. l + 1;
  unlock = λ k l. l - 1;
  undefined_lock = 0;
  is_undefined = λ l. false;
}

abbrev free : ℕ → ℕ
free p = 0

abbrev scope : Scope
scope = record { mode = reading; locked_lock = some 7 }

abbrev left : Scope
left = record { mode = reading; locked_lock = none }

-- A scope is opened for the lock at 7 and moved, and what is left of it is closed.
abbrev history :
    History counting free
      (scope ∷ [])
      (close_scope counting left ((open_scope counting reading 7 free).1))
unfolding move_scope
history =
    closed (scope ∷ []) [] (scope ∷ left ∷ []) (scope ∷ []) left _
      (moved [] [] (scope ∷ []) (scope ∷ left ∷ []) scope _ (opened [] free reading 7 begun) refl
        refl)
      refl refl

count-History_example :
    close_scope counting left ((open_scope counting reading 7 free).1) 7
    ≡ holders (scope ∷ []) 7 + free 7
count-History_example =
    count-History counting (λ l. l) free
      (close_scope counting left ((open_scope counting reading 7 free).1)) (scope ∷ []) 7
      (λ k l. refl) (λ k l held. omega (arith, held)) history
