-- ===== src/Peers/Consistency.antt =====
-- The invariant of the connections and the threads of Core/Common/ProcessPeersServer.hpp.
use ziqe.Prelude.{ℕ, ◌<◌, ◌≡◌, List, Option, length}
use ziqe.Vector.{size_mod}
use ziqe.LinkedList.{Iterator}
use ziqe.LinkedList.Sequence.{Represents}
use ziqe.HashTable.{Hashing, Entry}
use ziqe.HashTable.Lookup.{Valid}
use ziqe.HashTable.Contents.{content_of}
use ziqe.Peers.{Connection, OtherServers}
use ziqe.Peers.References.{Counts, Targets}

-- `ns` are the entries of the table of threads, which holds the map `f` from their ids to the
-- connections `cs`; every connection counts the threads that it serves, of which there is one.
pub record Consistent {ℓ} {ThreadId : Type ℓ} {Info : Type 0} ⦃hashing : Hashing ThreadId⦄
    (f : ThreadId → Option Iterator) (s : OtherServers ThreadId Info) : Type ℓ where
  pub its : List Iterator
  pub ns : List (ℕ × Entry ThreadId Iterator)
  pub cs : List (ℕ × Connection Info)
  pub threads : Valid its ns s.threads
  pub connections : Represents cs s.connections
  pub counts : Counts cs ns
  pub targets : Targets cs ns
  pub few : length cs < size_mod
  pub agrees : (k : ThreadId) → content_of k ns ≡ f k
