-- ===== src/Peers/Histories.antt =====
-- Histories of the other servers of Core/Common/ProcessPeersServer.hpp.
use ziqe.Prelude.{ℕ, ◌+◌, ◌<◌, ◌≡◌, ◌≢◌, refl, List, [], ◌∷◌, Option, none, some, arith, length}
use ziqe.Prelude.Fallible.{◌>>=◌, Returns, returned}
use ziqe.Vector.{size_mod}
use ziqe.LinkedList
use ziqe.LinkedList.{Iterator, Heap, State}
use ziqe.HashTable
use ziqe.HashTable.{Hashing, Entry, Table}
use ziqe.HashTable.Lookup.{differs}
use ziqe.HashTable.Contents.{remove, content_of}
use ziqe.HashTable.Runs.{new-Valid}
use ziqe.Peers.{Connection, OtherServers, add_threads, remove_thread, remove_threads}
use ziqe.Peers.Consistency.{Consistent}
use ziqe.Peers.Enrolling.{Differs, Apart, Unknown, update_all}
use ziqe.Peers.Joining.{add_threads-Consistent}
use ziqe.Peers.Leaving.{remove_thread-Consistent}

module _ {ℓ} {ThreadId : Type ℓ} ⦃hashing : Hashing ThreadId⦄ where
  -- The map has something at every one of the ids, and the map without them.
  abbrev pub Known : (ThreadId → Option Iterator) → List ThreadId → Type 0
  Known f [] = Unit
  Known f (id ∷ ids) = (f id ≢ none) × Known f ids

  unfoldable pub remove_all :
      List ThreadId → (ThreadId → Option Iterator) → ThreadId → Option Iterator
  remove_all [] f = f
  remove_all (id ∷ ids) f = remove_all ids (remove id f)

  Known-remove :
      (id : ThreadId) (f : ThreadId → Option Iterator) (ids : List ThreadId)
      → Differs id ids
      → Known f ids
      → Known (remove id f) ids
  unfolding remove
  Known-remove id f [] differ known = tt
  Known-remove id f (k ∷ ids) differ known =
      (rw (differs id k differ.0) known.0, Known-remove id f ids differ.1 known.1)

module _ {ℓ} {ThreadId : Type ℓ} {Info : Type 0} ⦃hashing : Hashing ThreadId⦄ where
  -- The state of a new object, with a table of `n` table indices.
  unfoldable pub new :
      ℕ → Heap (Connection Info) → Heap (Entry ThreadId Iterator) → OtherServers ThreadId Info
  new n h h' = record {
    connections = record { heap = h; list = LinkedList.new };
    threads = HashTable.new n h';
  }

  -- The states that goodbyes of known threads, and hellos of at least one thread, all different and none
  -- of them known, lead to, with the map from the threads to their connections.
  pub data Reachable : (ThreadId → Option Iterator) → OtherServers ThreadId Info → Type ℓ where
    started :
        (n : ℕ) (h : Heap (Connection Info)) (h' : Heap (Entry ThreadId Iterator))
        → 0 < n
        → Reachable (λ k. none) (new n h h')
    joined :
        (f : ThreadId → Option Iterator) (s u : OtherServers ThreadId Info) (ids : List ThreadId)
        (info : Info)
        → Reachable f s
        → Apart ids
        → Unknown f ids
        → 0 < length ids
        → HashTable.size s.threads + length ids < size_mod
        → s.connections.list.size + 1 < size_mod
        → add_threads ids info s ≡ some u
        → Reachable (update_all ids (some s.connections.heap.next_free) f) u
    departed :
        (f : ThreadId → Option Iterator) (s u : OtherServers ThreadId Info) (id : ThreadId)
        → Reachable f s
        → f id ≢ none
        → remove_thread id s ≡ some u
        → Reachable (remove id f) u

  new-Consistent :
      (n : ℕ) (h : Heap (Connection Info)) (h' : Heap (Entry ThreadId Iterator))
      → 0 < n
      → Consistent (λ k. none) (new n h h')
  unfolding new content_of
  new-Consistent n h h' positive =
      let (its, valid) = new-Valid n h' positive in
      record {
        its = its;
        ns = [];
        cs = [];
        threads = valid;
        connections = record {
          begins = refl;
          ends = refl;
          counted = refl;
          chain = tt;
          distinct = tt;
        };
        counts = tt;
        targets = tt;
        few = omega arith;
        agrees = λ k. refl;
      }

  -- In the states that a new object comes to by hellos of at least one thread, all different and none of
  -- them known, with room for them, and by goodbyes of known threads, every connection counts exactly
  -- the threads that it serves, of which there is one at least, and every known thread has a connection
  -- of the list. Hellos of no thread, or of a known one, are not among them.
  pub Reachable-Consistent :
      (f : ThreadId → Option Iterator) (s : OtherServers ThreadId Info)
      → Reachable f s
      → Consistent f s
  Reachable-Consistent _ _ (started n h h' positive) = new-Consistent n h h' positive
  Reachable-Consistent _ u (joined f s _ ids info reach apart unknown some_ids room few run) =
      returned
        (add_threads-Consistent ids info f s (Reachable-Consistent f s reach) apart unknown some_ids
          room few)
        run
  Reachable-Consistent _ u (departed f s _ id reach known run) =
      returned (remove_thread-Consistent id f s (Reachable-Consistent f s reach) known) run

  -- `removeThreads` of different threads that are all known returns without undefined behaviour, and
  -- keeps the state consistent: exactly these threads are forgotten.
  pub remove_threads-Consistent :
      (ids : List ThreadId) (f : ThreadId → Option Iterator) (s : OtherServers ThreadId Info)
      → Consistent f s
      → Apart ids
      → Known f ids
      → Returns (remove_threads ids s) (Consistent (remove_all ids f))
  unfolding remove_threads remove_all
  remove_threads-Consistent [] f s h apart known = (s, refl, h)
  remove_threads-Consistent (id ∷ ids) f s h apart known =
      let (u, run, held) = remove_thread-Consistent id f s h known.0 in
      let (w, run', held') =
        remove_threads-Consistent ids (remove id f) u held apart.1
          (Known-remove id f ids apart.0 known.1) in
      (w, rw (run, ◌>>=◌) run', held')
