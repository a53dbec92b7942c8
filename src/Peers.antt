-- ===== src/Peers.antt =====
-- `ProcessPeersServer::OtherServers` of Core/Common/ProcessPeersServer.hpp: the connections to the
-- other servers of the process, each with the number of the threads that it serves, and a table
-- from the ids of these threads to the connections.
pub mod References
pub mod Consistency
pub mod Leaving
pub mod Enrolling
pub mod Joining
pub mod Finding
pub mod Histories
use ziqe.Prelude.{
  ℕ, zero, suc, ◌==◌, List, [], ◌∷◌, Option, none, some, Bool, true, false, if◌then◌else◌, length,
}
use ziqe.Prelude.Fallible.{◌>>=◌}
use ziqe.Vector.{sub_size}
use ziqe.Expected.{Expected, value, error}
use ziqe.LinkedList
use ziqe.LinkedList.{Iterator, State, Heap}
use ziqe.HashTable
use ziqe.HashTable.{Hashing, Entry, Table}

-- `StreamInfoAndReferenceCount`
pub record Connection (Info : Type 0) : Type 0 where
  pub info : Info
  pub reference_count : ℕ

-- `mConnectionsList` and `mThreadIDToStream`
pub record OtherServers {ℓ} (ThreadId : Type ℓ) (Info : Type 0) : Type ℓ where
  pub connections : State (Connection Info)
  pub threads : Table ThreadId Iterator

-- `FindThreadStreamError`
pub data FindThreadStreamError : Type 0 where
  invalid_thread_id : FindThreadStreamError

-- `referenceCount -= 1`, and the count that is left
unfoldable pub release :
    {Info : Type 0} → Iterator → State (Connection Info) → Option (ℕ × State (Connection Info))
release none s = none
release (some c) s = do
  n ← s.heap.cells c
  let count = sub_size n.value.reference_count 1
  some (
    count,
    record s {
      heap =
          LinkedList.write c
            (some (record n { value = record n.value { reference_count = count } })) s.heap;
    },
  )

module _ {ℓ} {ThreadId : Type ℓ} ⦃hashing : Hashing ThreadId⦄ where
  -- The loop of `addThreads`: the entry of each id is set to the connection.
  unfoldable pub enroll :
      List ThreadId → Iterator → Table ThreadId Iterator → Option (Table ThreadId Iterator)
  enroll [] connection t = some t
  enroll (id ∷ ids) connection t = do
    (p, t') ← HashTable.entry_of id none t
    t'' ← HashTable.set_content p connection t'
    enroll ids connection t''

module _ {ℓ} {ThreadId : Type ℓ} {Info : Type 0} ⦃hashing : Hashing ThreadId⦄ where
  -- `addThreads`
  unfoldable pub add_threads :
      List ThreadId → Info → OtherServers ThreadId Info → Option (OtherServers ThreadId Info)
  add_threads ids info s = do
    (it, connections) ←
        LinkedList.emplace_back (record { info = info; reference_count = length ids }) s.connections
    threads ← enroll ids connections.list.before_end s.threads
    some (record { connections = connections; threads = threads })

  -- One round of the loop of `removeThreads`.
  unfoldable pub remove_thread :
      ThreadId → OtherServers ThreadId Info → Option (OtherServers ThreadId Info)
  remove_thread id s = do
    it ← HashTable.find id s.threads
    entry ← LinkedList.value_at it s.threads.keys.heap
    (count, connections) ← release entry.content s.connections
    connections' ←
        (if count == 0
          then (do (next, rest) ← LinkedList.erase entry.content connections; some rest)
          else some connections)
    (next, threads) ← HashTable.erase_at it s.threads
    some (record { connections = connections'; threads = threads })

  -- `removeThreads`
  unfoldable pub remove_threads :
      List ThreadId → OtherServers ThreadId Info → Option (OtherServers ThreadId Info)
  remove_threads [] s = some s
  remove_threads (id ∷ ids) s = remove_thread id s >>= remove_threads ids

  -- `findThreadStreamInfo`
  unfoldable pub find_thread_stream_info :
      ThreadId → OtherServers ThreadId Info → Option (Expected Info FindThreadStreamError)
  find_thread_stream_info id s = HashTable.find id s.threads >>= λ it. elim it [
    | none ↦ some (error invalid_thread_id)
    | some p ↦ (do
      entry ← LinkedList.value_at (some p) s.threads.keys.heap
      connection ← LinkedList.value_at entry.content s.connections.heap
      some (value connection.info))
  ]
