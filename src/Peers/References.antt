-- ===== src/Peers/References.antt =====
-- Which connections of Core/Common/ProcessPeersServer.hpp the table of threads refers to.
use ziqe.Prelude.{
  ℕ, ◌+◌, ◌≤◌, ◌<◌, ◌≡◌, ◌≢◌, refl, sym, ◌∙◌, ap, List, [], ◌∷◌, ◌++◌, some, if◌then◌else◌, length,
  arith, inl, inr, ◌⊎◌,
}
use ziqe.LinkedList.{Iterator, same}
use ziqe.LinkedList.Cells.{Outside}
use ziqe.LinkedList.Sequence.{same_refl, same_ne, Outside-front}
use ziqe.LinkedList.Cut.{Outside-join, Outside-rest}
use ziqe.HashTable.{Entry}
use ziqe.HashTable.Entries.{index_cases}
use ziqe.Peers.{Connection}

-- Whether an iterator is the address `c`, as a number.
unfoldable pub points : Iterator → ℕ → ℕ
points it c = if same it (some c) then 1 else 0

pub points_same : (c : ℕ) → points (some c) c ≡ 1
unfolding points
points_same c = rw (same_refl c) refl

pub points_other : (c d : ℕ) → d ≢ c → points (some c) d ≡ 0
unfolding points
points_other c d apart = rw (same_ne c d apart) refl

points_bound : (it : Iterator) (c : ℕ) → points it c ≤ 1
unfolding points
points_bound it c = ground arith

module _ {ℓ} {ThreadId : Type ℓ} where
  -- How many entries of the table refer to the connection at `c`.
  unfoldable pub refs : ℕ → List (ℕ × Entry ThreadId Iterator) → ℕ
  refs c [] = 0
  refs c ((p, e) ∷ ns) = points e.content c + refs c ns

  pub refs-middle :
      (c : ℕ) (ms : List (ℕ × Entry ThreadId Iterator)) (p : ℕ) (e : Entry ThreadId Iterator)
      (ns : List (ℕ × Entry ThreadId Iterator))
      → refs c (ms ++ (p, e) ∷ ns) ≡ points e.content c + refs c (ms ++ ns)
  unfolding refs
  refs-middle c [] p e ns = refl
  refs-middle c ((q, d) ∷ ms) p e ns = omega (arith, refs-middle c ms p e ns)

  pub refs-bound : (c : ℕ) (ns : List (ℕ × Entry ThreadId Iterator)) → refs c ns ≤ length ns
  unfolding refs
  refs-bound c [] = omega arith
  refs-bound c ((p, e) ∷ ns) = omega (arith, points_bound e.content c, refs-bound c ns)

module _ {Info : Type 0} where
  -- The iterator is one to a connection of the list.
  abbrev pub Served : Iterator → List (ℕ × Connection Info) → Type 0
  Served it cs = (c : ℕ) × (it ≡ some c) × (Outside c cs → ⊥)

  -- The connection at an address of the list.
  pub record Serving (c : ℕ) (cs : List (ℕ × Connection Info)) : Type 0 where
    pub front : List (ℕ × Connection Info)
    pub connection : Connection Info
    pub back : List (ℕ × Connection Info)
    pub whole : cs ≡ front ++ (c, connection) ∷ back

  pub serving : (c : ℕ) (cs : List (ℕ × Connection Info)) → Outside c cs ⊎ Serving c cs
  serving c [] = inl tt
  serving c ((d, x) ∷ cs) = elim (index_cases d c) [
    | inl eq ↦
        inr (record { front = []; connection = x; back = cs; whole = ap (λ a. (a, x) ∷ cs) eq })
    | inr apart ↦ elim (serving c cs) [
      | inl out ↦ inl (apart, out)
      | inr s ↦ inr (record {
        front = (d, x) ∷ s.front;
        connection = s.connection;
        back = s.back;
        whole = ap (λ t. (d, x) ∷ t) s.whole;
      })
    ]
  ]

module _ {ℓ} {ThreadId : Type ℓ} {Info : Type 0} where
  -- Every connection counts the entries that refer to it, of which there is one at least.
  abbrev pub Counts : List (ℕ × Connection Info) → List (ℕ × Entry ThreadId Iterator) → Type 0
  Counts [] ns = Unit
  Counts ((c, x) ∷ cs) ns = (x.reference_count ≡ refs c ns) × (0 < x.reference_count) × Counts cs ns

  pub Counts-front :
      (xs ys : List (ℕ × Connection Info)) (ns : List (ℕ × Entry ThreadId Iterator))
      → Counts (xs ++ ys) ns
      → Counts xs ns
  Counts-front [] ys ns counts = tt
  Counts-front ((c, x) ∷ xs) ys ns counts = (counts.0, counts.1, Counts-front xs ys ns counts.2)

  pub Counts-back :
      (xs ys : List (ℕ × Connection Info)) (ns : List (ℕ × Entry ThreadId Iterator))
      → Counts (xs ++ ys) ns
      → Counts ys ns
  Counts-back [] ys ns counts = counts
  Counts-back ((c, x) ∷ xs) ys ns counts = Counts-back xs ys ns counts.2

  pub Counts-join :
      (xs ys : List (ℕ × Connection Info)) (ns : List (ℕ × Entry ThreadId Iterator))
      → Counts xs ns
      → Counts ys ns
      → Counts (xs ++ ys) ns
  Counts-join [] ys ns left right = right
  Counts-join ((c, x) ∷ xs) ys ns left right = (left.0, left.1, Counts-join xs ys ns left.2 right)

  -- The counts of other connections than `w` stay right when the references to these stay.
  pub Counts-others :
      (w : ℕ) (cs : List (ℕ × Connection Info)) (ns ns' : List (ℕ × Entry ThreadId Iterator))
      → Outside w cs
      → ((c : ℕ) → c ≢ w → refs c ns' ≡ refs c ns)
      → Counts cs ns
      → Counts cs ns'
  Counts-others w [] ns ns' out stay counts = tt
  Counts-others w ((c, x) ∷ cs) ns ns' out stay counts =
      (counts.0 ∙ sym (stay c out.0), counts.1, Counts-others w cs ns ns' out.1 stay counts.2)

  -- Every entry refers to a connection of the list.
  abbrev pub Targets : List (ℕ × Connection Info) → List (ℕ × Entry ThreadId Iterator) → Type 0
  Targets cs [] = Unit
  Targets cs ((p, e) ∷ ns) = Served e.content cs × Targets cs ns

  pub Targets-grow :
      (cs cs' : List (ℕ × Connection Info)) (ns : List (ℕ × Entry ThreadId Iterator))
      → ((c : ℕ) → Outside c cs' → Outside c cs)
      → Targets cs ns
      → Targets cs' ns
  Targets-grow cs cs' [] more targets = tt
  Targets-grow cs cs' ((p, e) ∷ ns) more ((c, at, inside), rest) =
      ((c, at, λ out. inside (more c out)), Targets-grow cs cs' ns more rest)

  pub Targets-at :
      (cs : List (ℕ × Connection Info)) (ms : List (ℕ × Entry ThreadId Iterator)) (p : ℕ)
      (e : Entry ThreadId Iterator) (ns : List (ℕ × Entry ThreadId Iterator))
      → Targets cs (ms ++ (p, e) ∷ ns)
      → Served e.content cs × Targets cs (ms ++ ns)
  Targets-at cs [] p e ns targets = targets
  Targets-at cs ((q, d) ∷ ms) p e ns targets =
      let rest = Targets-at cs ms p e ns targets.1 in (rest.0, (targets.0, rest.1))

  pub Targets-insert :
      (cs : List (ℕ × Connection Info)) (ms : List (ℕ × Entry ThreadId Iterator)) (p : ℕ)
      (e : Entry ThreadId Iterator) (ns : List (ℕ × Entry ThreadId Iterator))
      → Served e.content cs
      → Targets cs (ms ++ ns)
      → Targets cs (ms ++ (p, e) ∷ ns)
  Targets-insert cs [] p e ns served targets = (served, targets)
  Targets-insert cs ((q, d) ∷ ms) p e ns served targets =
      (targets.0, Targets-insert cs ms p e ns served targets.1)

  -- A connection to which nothing refers can be taken out.
  pub Targets-delete :
      (xs : List (ℕ × Connection Info)) (w : ℕ) (x : Connection Info)
      (ys : List (ℕ × Connection Info)) (ns : List (ℕ × Entry ThreadId Iterator))
      → refs w ns ≡ 0
      → Targets (xs ++ (w, x) ∷ ys) ns
      → Targets (xs ++ ys) ns
  unfolding refs
  Targets-delete xs w x ys [] unused targets = tt
  Targets-delete xs w x ys ((p, e) ∷ ns) unused ((c, at, inside), rest) = (
    (
      c,
      at,
      λ out. inside (
          Outside-join c xs ((w, x) ∷ ys) (Outside-front c xs ys out) (
            λ same_address. omega (
              arith,
              unused,
              ap (λ it. points it w) at,
              ap (λ d. points (some d) w) (sym same_address),
              points_same w,
            ),
            Outside-rest c xs ys out,
          )),
    ),
    Targets-delete xs w x ys ns (omega (arith, unused)) rest,
  )
