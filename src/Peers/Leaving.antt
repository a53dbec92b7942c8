-- ===== src/Peers/Leaving.antt =====
-- `removeThreads` of Core/Common/ProcessPeersServer.hpp.
use mathlib.Core.Path.{subst}
use ziqe.Prelude.{
  ℕ, ◌<◌, ◌==◌, ==_iff, ◌≡◌, ◌≢◌, refl, sym, ◌∙◌, ap, List, ◌∷◌, ◌++◌, Option, none, some, length,
  arith, inl, inr, Bool-cases, length-append,
}
use ziqe.Prelude.Fallible.{◌>>=◌, Returns}
use ziqe.Vector.{size_mod, sub_size}
use ziqe.LinkedList
use ziqe.LinkedList.{Iterator, State}
use ziqe.LinkedList.Cells.{Outside, Distinct}
use ziqe.LinkedList.Sequence.{Represents, node_at, Outside-front}
use ziqe.LinkedList.Cut.{Outside-join, Outside-rest, Distinct-before}
use ziqe.LinkedList.Sequence.{Distinct-back}
use ziqe.LinkedList.Values.{write-Represents}
use ziqe.LinkedList.Erasure.{erase-Represents}
use ziqe.HashTable
use ziqe.HashTable.{Hashing, Entry, Table}
use ziqe.HashTable.Lookup.{Valid, find-address_of}
use ziqe.HashTable.Removal.{Shrunk, erase_at-Shrunk}
use ziqe.HashTable.Contents.{remove, content_of-Absent, content_of-Located, Located, locate}
use ziqe.Peers.{Connection, OtherServers, release, remove_thread}
use ziqe.Peers.Consistency.{Consistent}
use ziqe.Peers.References.{
  points, points_same, points_other, refs, refs-middle, refs-bound, Counts, Counts-front,
  Counts-back, Counts-join, Counts-others, Targets, Targets-grow, Targets-at, Targets-delete,
  Serving, serving,
}

module _ {Info : Type 0} where
  -- The count of a connection goes down by one.
  release-Represents :
      (xs : List (ℕ × Connection Info)) (w : ℕ) (x : Connection Info)
      (ys : List (ℕ × Connection Info)) (s : State (Connection Info))
      → Represents (xs ++ (w, x) ∷ ys) s
      → Returns (release (some w) s) (λ r.
        (r.0 ≡ sub_size x.reference_count 1)
        × Represents (xs ++ (w, record x { reference_count = r.0 }) ∷ ys) r.1)
  unfolding release
  release-Represents xs w x ys s r =
      let x' : Connection Info = record x { reference_count = sub_size x.reference_count 1 } in
      ((_, _), rw (node_at xs w x ys s r) refl, (refl, write-Represents x' xs w x ys s r))

  keep_addresses :
      (c : ℕ) (xs : List (ℕ × Connection Info)) (w : ℕ) (x x' : Connection Info)
      (ys : List (ℕ × Connection Info))
      → Outside c (xs ++ (w, x') ∷ ys)
      → Outside c (xs ++ (w, x) ∷ ys)
  keep_addresses c xs w x x' ys out =
      let rest = Outside-rest c xs ((w, x') ∷ ys) out in
      Outside-join c xs ((w, x) ∷ ys) (Outside-front c xs ((w, x') ∷ ys) out) (rest.0, rest.1)

module _ {ℓ} {ThreadId : Type ℓ} {Info : Type 0} ⦃hashing : Hashing ThreadId⦄ where
  -- What is left of the references when the entry of a thread of the connection at `w` goes.
  record Departure (cs : List (ℕ × Connection Info)) (ns : List (ℕ × Entry ThreadId Iterator))
      (w : ℕ) : Type 0 where
    around : Serving w cs
    before : Counts around.front ns
    behind : Counts around.back ns
    released : sub_size around.connection.reference_count 1 ≡ refs w ns

  depart :
      (id : ThreadId) (f : ThreadId → Option Iterator) (s : OtherServers ThreadId Info)
      (h : Consistent f s)
      → (l : Located id h.ns) (w : ℕ) → l.entry.content ≡ some w
      → Serving w h.cs
      → Departure h.cs (l.front ++ l.back) w
  depart id f s h l w at around =
      let xs = around.front in
      let ys = around.back in
      let x = around.connection in
      let counts = subst (λ t. Counts t h.ns) around.whole h.counts in
      let own = Counts-back xs ((w, x) ∷ ys) h.ns counts in
      let distinct = subst Distinct around.whole h.connections.distinct in
      let middle =
        (λ (c : ℕ). ap (refs c) l.whole ∙ refs-middle c l.front l.address l.entry l.back) in
      let stay : (c : ℕ) → c ≢ w → refs c (l.front ++ l.back) ≡ refs c h.ns =
        λ c apart. omega (arith, middle c, ap (λ it. points it c) at, points_other w c apart) in
      record {
        around = around;
        before =
            Counts-others w xs h.ns (l.front ++ l.back) (Distinct-before xs w x ys distinct) stay
              (Counts-front xs ((w, x) ∷ ys) h.ns counts);
        behind =
            Counts-others w ys h.ns (l.front ++ l.back) (Distinct-back xs ((w, x) ∷ ys) distinct).0
              stay own.2;
        released = omega (
          arith,
          own.0,
          own.1,
          middle w,
          ap (λ it. points it w) at,
          points_same w,
          refs-bound w h.ns,
          h.threads.small,
        );
      }

  settle :
      (id : ThreadId) (f : ThreadId → Option Iterator) (s : OtherServers ThreadId Info)
      (h : Consistent f s) (l : Located id h.ns)
      → (cs : List (ℕ × Connection Info)) (connections : State (Connection Info))
        (r : Iterator × Table ThreadId Iterator)
      → Represents cs connections
      → Counts cs (l.front ++ l.back)
      → Targets cs (l.front ++ l.back)
      → length cs < size_mod
      → Shrunk l.front l.back r
      → Consistent (remove id f) (record { connections = connections; threads = r.1 })
  settle id f s h l cs connections r represents counts targets few shrunk = record {
    its = shrunk.its;
    ns = l.front ++ l.back;
    cs = cs;
    threads = shrunk.valid;
    connections = represents;
    counts = counts;
    targets = targets;
    few = few;
    agrees = content_of-Located id f h.ns l h.threads.unique h.agrees;
  }

  -- The thread and, if nothing refers to it any more, the connection leave.
  leave :
      (id : ThreadId) (f : ThreadId → Option Iterator) (s : OtherServers ThreadId Info)
      (h : Consistent f s)
      → (l : Located id h.ns) (w : ℕ) → l.entry.content ≡ some w
      → Serving w h.cs
      → Returns (remove_thread id s) (Consistent (remove id f))
  unfolding remove_thread LinkedList.value_at
  leave id f s h l w at around =
      let d = depart id f s h l w at around in
      let xs = d.around.front in
      let ys = d.around.back in
      let x = d.around.connection in
      let valid = subst (λ t. Valid h.its t s.threads) l.whole h.threads in
      let targets =
        (Targets-at h.cs l.front l.address l.entry l.back
          (subst (Targets h.cs) l.whole h.targets)).1 in
      let targets_around = subst (λ t. Targets t (l.front ++ l.back)) d.around.whole targets in
      let few = subst (λ t. length t < size_mod) d.around.whole h.few in
      let found : HashTable.find id s.threads ≡ some (some l.address) =
        find-address_of id h.its h.ns s.threads h.threads ∙ ap some l.addressed in
      let node = node_at l.front l.address l.entry l.back s.threads.keys valid.keys in
      let (u, table_run, shrunk) =
        erase_at-Shrunk h.its l.front l.address l.entry l.back s.threads valid in
      let (r, run, freed) =
        release-Represents xs w x ys s.connections
          (subst (λ t. Represents t s.connections) d.around.whole h.connections) in
      let release_run : release l.entry.content s.connections ≡ some r =
        ap (λ it. release it s.connections) at ∙ run in
      let x' : Connection Info = record x { reference_count = r.0 } in
      let count : r.0 ≡ refs w (l.front ++ l.back) = freed.0 ∙ d.released in
      elim (Bool-cases (r.0 == 0)) [
        | inl last ↦
            let unused = sym count ∙ (==_iff r.0 0).0 last in
            let (q, run', left) =
              erase-Represents xs w x' ys r.1 freed.1
                (omega (arith, few, length-append xs ((w, x) ∷ ys))) in
            let erase_run : LinkedList.erase l.entry.content r.1 ≡ some q =
              ap (λ it. LinkedList.erase it r.1) at ∙ run' in
            (
              record { connections = q.1; threads = u.1 },
              rw (found, ◌>>=◌, node, ◌>>=◌, release_run, ◌>>=◌, last, erase_run, ◌>>=◌, table_run)
                  refl,
              settle id f s h l (xs ++ ys) q.1 u left.1
                  (Counts-join xs ys (l.front ++ l.back) d.before d.behind)
                  (Targets-delete xs w x ys (l.front ++ l.back) unused targets_around)
                  (omega (arith, few, length-append xs ys, length-append xs ((w, x) ∷ ys))) shrunk,
            )
        | inr more ↦ (
          record { connections = r.1; threads = u.1 },
          rw (found, ◌>>=◌, node, ◌>>=◌, release_run, ◌>>=◌, more, ◌>>=◌, table_run) refl,
          settle id f s h l (xs ++ (w, x') ∷ ys) r.1 u freed.1
              (Counts-join xs ((w, x') ∷ ys) (l.front ++ l.back) d.before
                (count, ground (arith, more), d.behind))
              (Targets-grow (xs ++ (w, x) ∷ ys) (xs ++ (w, x') ∷ ys) (l.front ++ l.back)
                (λ c out. keep_addresses c xs w x x' ys out) targets_around)
              (omega (arith, few, length-append xs ((w, x') ∷ ys), length-append xs ((w, x) ∷ ys)))
              shrunk,
        )
      ]

  -- `removeThreads` of one thread that is known keeps the state consistent: the thread is forgotten,
  -- and its connection is counted down, and closed when it serves no thread any more.
  pub remove_thread-Consistent :
      (id : ThreadId) (f : ThreadId → Option Iterator) (s : OtherServers ThreadId Info)
      → Consistent f s
      → f id ≢ none
      → Returns (remove_thread id s) (Consistent (remove id f))
  remove_thread-Consistent id f s h known = elim (locate id h.ns) [
    | inl (nowhere, absent) ↦ absurd (known (sym (h.agrees id) ∙ content_of-Absent id h.ns absent))
    | inr l ↦
        let (w, at, inside) =
          (Targets-at h.cs l.front l.address l.entry l.back
            (subst (Targets h.cs) l.whole h.targets)).0 in
        elim (serving w h.cs) [
          | inl out ↦ absurd (inside out)
          | inr around ↦ leave id f s h l w at around
        ]
  ]
