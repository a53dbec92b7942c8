-- ===== src/RwLock.antt =====
-- Base/RWLock.hpp: the locks of the platform, the scopes that hold them, and a value with its lock.
-- The functions `ZqRWLock...` of the platform are a parameter. Locks live at addresses.
pub mod Scopes
use ziqe.Prelude.{ℕ, ◌==◌, List, [], ◌∷◌, Option, none, some, Bool, true, false, if◌then◌else◌}

-- How a scope holds its lock.
pub data Mode : Type 0 where
  reading writing : Mode

-- `ZqRWLock`, its functions and `ZQ_UNDEFINED_RWLOCK`
pub record Platform (L : Type 0) : Type 0 where
  pub init : L → L
  pub deinit : L → L
  pub lock : Mode → L → L
  pub unlock : Mode → L → L
  pub undefined_lock : L
  pub is_undefined : L → Bool

-- `ScopedReadLock` and `ScopedWriteLock`, whose texts differ only in the mode: `mLockedLock`
pub record Scope : Type 0 where
  pub mode : Mode
  pub locked_lock : Option ℕ

module _ {L : Type 0} where
  unfoldable pub store : ℕ → L → (ℕ → L) → ℕ → L
  store p l m q = if q == p then l else m q

module _ {L : Type 0} (platform : Platform L) where
  -- The constructor and the destructor of the lock at `p`.
  unfoldable pub construct : ℕ → (ℕ → L) → ℕ → L
  construct p m = store p (platform.init (m p)) m

  unfoldable pub destroy : ℕ → (ℕ → L) → ℕ → L
  destroy p m = if platform.is_undefined (m p) then m else store p (platform.deinit (m p)) m

  -- The move constructor, and the move assignment, which does not ask whether the lock is defined.
  unfoldable pub move_construct : ℕ → ℕ → (ℕ → L) → ℕ → L
  move_construct p other m = store other platform.undefined_lock (store p (m other) m)

  unfoldable pub move_assign : ℕ → ℕ → (ℕ → L) → ℕ → L
  move_assign p other m =
      let m' = store p (platform.deinit (m p)) m in
      store other platform.undefined_lock (store p (m' other) m')

  -- The constructor of a scope for the lock at `p`.
  unfoldable pub open_scope : Mode → ℕ → (ℕ → L) → Scope × (ℕ → L)
  open_scope mode p m =
      (record { mode = mode; locked_lock = some p }, store p (platform.lock mode (m p)) m)

  -- The destructor of a scope.
  unfoldable pub close_scope : Scope → (ℕ → L) → ℕ → L
  close_scope s m = elim s.locked_lock [
    | none ↦ m
    | some p ↦ store p (platform.unlock s.mode (m p)) m
  ]

  -- `RWLocked::getRead` and `getWrite` of a value whose lock is at `p`
  unfoldable pub get_read : {T : Type 0} → T → ℕ → (ℕ → L) → (T × Scope) × (ℕ → L)
  get_read value p m = let (s, m') = open_scope reading p m in ((value, s), m')

  unfoldable pub get_write : {T : Type 0} → T → ℕ → (ℕ → L) → (T × Scope) × (ℕ → L)
  get_write value p m = let (s, m') = open_scope writing p m in ((value, s), m')

-- The move constructor of a scope: the new scope, and what is left of the other one.
unfoldable pub move_scope : Scope → Scope × Scope
move_scope other = (other, record other { locked_lock = none })
