-- ===== src/RwLock/Scopes.antt =====
-- The scopes of Base/RWLock.hpp hold their locks exactly once.
use ziqe.Prelude.{
  ℕ, ◌+◌, ◌≤◌, ◌<◌, ◌==◌, ==_iff, ◌≡◌, refl, sym, ◌∙◌, ap, List, [], ◌∷◌, ◌++◌, Option, none, some,
  true, false, if◌then◌else◌, Bool-cases, inl, inr, arith,
}
use ziqe.LinkedList.{same}
use ziqe.RwLock.{Mode, Platform, Scope, store, open_scope, close_scope, move_scope}

-- Whether the scope holds the lock at `p`, as a number, and how many of the scopes do.
unfoldable pub holds : Scope → ℕ → ℕ
holds s p = if same s.locked_lock (some p) then 1 else 0

unfoldable pub holders : List Scope → ℕ → ℕ
holders [] p = 0
holders (s ∷ ss) p = holds s p + holders ss p

holders-middle :
    (ss : List Scope) (s : Scope) (ts : List Scope) (p : ℕ)
    → holders (ss ++ s ∷ ts) p ≡ holds s p + holders (ss ++ ts) p
unfolding holders
holders-middle [] s ts p = refl
holders-middle (r ∷ ss) s ts p = omega (arith, holders-middle ss s ts p)

holds-none : (s : Scope) (p : ℕ) → s.locked_lock ≡ none → holds s p ≡ 0
unfolding holds
holds-none s p e = rw e refl

holds-some : (s : Scope) (q p : ℕ) → s.locked_lock ≡ some q → holds s p ≡ (if q == p then 1 else 0)
unfolding holds
holds-some s q p e = rw e refl

module _ {L : Type 0} (platform : Platform L) where
  -- The scopes that live, and the locks, after scopes have been opened, moved and closed in any
  -- order, where the locks were `m₀` before.
  pub data History (before : ℕ → L) : List Scope → (ℕ → L) → Type 0 where
    begun : History before [] before
    opened :
        (ss : List Scope) (m : ℕ → L) (mode : Mode) (p : ℕ)
        → History before ss m
        → History before
            (record { mode = mode; locked_lock = some p } ∷ ss)
            ((open_scope platform mode p m).1)
    moved :
        (ss ts us vs : List Scope) (s : Scope) (m : ℕ → L)
        → History before us m
        → us ≡ ss ++ s ∷ ts
        → vs ≡ (move_scope s).0 ∷ (ss ++ (move_scope s).1 ∷ ts)
        → History before vs m
    closed :
        (ss ts us vs : List Scope) (s : Scope) (m : ℕ → L)
        → History before us m
        → us ≡ ss ++ s ∷ ts
        → vs ≡ ss ++ ts
        → History before vs (close_scope platform s m)

-- Moving a scope changes neither the locks nor how often each is held.
holders-move_scope :
    (ss ts : List Scope) (s : Scope) (p : ℕ)
    → holders ((move_scope s).0 ∷ (ss ++ (move_scope s).1 ∷ ts)) p ≡ holders (ss ++ s ∷ ts) p
unfolding holders move_scope
holders-move_scope ss ts s p =
    let left : Scope = record s { locked_lock = none } in
    omega (arith, holders-middle ss left ts p, holders-middle ss s ts p, holds-none left p refl)

module _ {L : Type 0} (platform : Platform L) where
  -- How often the lock at `p` is held, after a scope is opened.
  count-open_scope :
      (count : L → ℕ) (mode : Mode) (p q : ℕ) (m : ℕ → L)
      → ((k : Mode) (l : L) → count (platform.lock k l) ≡ count l + 1)
      → count ((open_scope platform mode p m).1 q)
        ≡ holds (record { mode = mode; locked_lock = some p }) q + count (m q)
  unfolding open_scope store holds
  count-open_scope count mode p q m locks = elim (Bool-cases (q == p)) [
    | inl eq ↦
        let same_lock = (==_iff q p).0 eq in
        let held : (p == q) ≡ true = (==_iff p q).1 (sym same_lock) in
        let counted = locks mode (m p) in
        let moved = ap (λ r. count (m r)) same_lock in rw (eq, held) (omega (arith, counted, moved))
    | inr ne ↦ let free : (p == q) ≡ false = ground (arith, ne) in rw (ne, free) (omega arith)
  ]

  count-close_scope :
      (count : L → ℕ) (mode : Mode) (locked : Option ℕ) (q : ℕ) (m : ℕ → L)
      → ((k : Mode) (l : L) → 0 < count l → count (platform.unlock k l) + 1 ≡ count l)
      → ((p : ℕ) → holds (record { mode = mode; locked_lock = locked }) p ≤ count (m p))
      → count (close_scope platform (record { mode = mode; locked_lock = locked }) m q)
          + holds (record { mode = mode; locked_lock = locked }) q
        ≡ count (m q)
  unfolding close_scope store holds
  count-close_scope count mode none q m unlocks held = omega arith
  count-close_scope count mode (some p) q m unlocks held = elim (Bool-cases (q == p)) [
    | inl eq ↦
        let same_lock = (==_iff q p).0 eq in
        let holding : (p == q) ≡ true = (==_iff p q).1 (sym same_lock) in
        let held_p = held p in
        let at_p = rw ((==_iff p p).1 refl) at held_p in
        let moved = ap (λ r. count (m r)) same_lock in
        rw (eq, holding) (omega (arith, unlocks mode (m p) (omega (arith, at_p)), moved))
    | inr ne ↦ let free : (p == q) ≡ false = ground (arith, ne) in rw (ne, free) (omega arith)
  ]

  -- After any history of scopes, every lock is held as often as living scopes hold it, besides how
  -- often it was held before: a scope that was moved from gives up its lock, and each other one
  -- unlocks it once. The platform's lock is taken to count one holder more, and its unlock one less.
  pub count-History :
      (count : L → ℕ) (before m : ℕ → L) (ss : List Scope) (p : ℕ)
      → ((k : Mode) (l : L) → count (platform.lock k l) ≡ count l + 1)
      → ((k : Mode) (l : L) → 0 < count l → count (platform.unlock k l) + 1 ≡ count l)
      → History platform before ss m
      → count (m p) ≡ holders ss p + count (before p)
  unfolding holders
  count-History count before _ _ p locks unlocks begun = omega arith
  count-History count before _ _ p locks unlocks (opened ss m mode q h) = omega (
    arith,
    count-open_scope count mode q p m locks,
    count-History count before m ss p locks unlocks h,
  )
  count-History count before _ vs p locks unlocks (moved ss ts us _ s m h was now) = omega (
    arith,
    count-History count before m us p locks unlocks h,
    ap (λ t. holders t p) was,
    ap (λ t. holders t p) now,
    holders-move_scope ss ts s p,
  )
  count-History count before _ vs p locks unlocks (closed ss ts us _ s m h was now) =
      let earlier = (λ (q : ℕ). count-History count before m us q locks unlocks h) in
      let split = (λ (q : ℕ). ap (λ t. holders t q) was ∙ holders-middle ss s ts q) in
      let held : (q : ℕ) → holds s q ≤ count (m q) = λ q. omega (arith, earlier q, split q) in
      omega (
        arith,
        count-close_scope count s.mode s.locked_lock p m unlocks held,
        earlier p,
        split p,
        ap (λ t. holders t p) now,
      )
