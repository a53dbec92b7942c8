-- ===== src/PeersServer/Broadcast.antt =====
-- `sendToAll`, `sendHello` and `sendGoodbye` of Core/Common/ProcessPeersServer.hpp and .cpp.
use ziqe.Prelude.{
  ℕ, zero, suc, ◌≡◌, refl, ap, List, [], ◌∷◌, Option, none, some, Bool, true, false, map, length,
}
use ziqe.Prelude.Fallible.{◌>>=◌}
use ziqe.LinkedList
use ziqe.LinkedList.{Iterator, Heap, Node, State}
use ziqe.LinkedList.Cells.{first, Linked}
use ziqe.LinkedList.Sequence.{Represents}
use ziqe.HashTable
use ziqe.HashTable.{Hashing, Entry, Table}
use ziqe.Message.{MessageType, process_peer_hello, process_peer_goodbye}
use ziqe.Peers.{Connection, OtherServers}
use ziqe.Peers.Histories
use ziqe.PeersServer.{Server}

-- A message that is sent to a peer: its stream, the type and the ids of the threads.
pub record Sent (ThreadId Info : Type 0) : Type 0 where
  pub to : Info
  pub type : MessageType
  pub ids : List ThreadId

-- A range-based loop over a list, as the values that it visits; the length of the list bounds it.
unfoldable pub visit {ℓ} : {A : Type ℓ} → ℕ → Iterator → Heap A → Option (List A)
visit fuel none h = some []
visit zero (some p) h = none
visit (suc fuel) (some p) h = do
  x ← LinkedList.value_at (some p) h
  next ← LinkedList.next_of (some p) h
  rest ← visit fuel next h
  some (x ∷ rest)

unfoldable pub all_values {ℓ} : {A : Type ℓ} → State A → Option (List A)
all_values s = visit s.list.size s.list.begin s.heap

-- `getProcessThreadIDs`
unfoldable pub get_process_thread_ids :
    {ThreadId Thread : Type 0} → Table ThreadId Thread → Option (List ThreadId)
get_process_thread_ids t = do entries ← all_values t.keys; some (map (λ e. e.key) entries)

module _ {ThreadId Info : Type 0} where
  -- The body of the loop of `sendToAll`; `mMessageFactory` is a null pointer where `factory` is false.
  unfoldable pub send_each :
      Bool
      → MessageType
      → List ThreadId
      → List (Connection Info)
      → Option (List (Sent ThreadId Info))
  send_each factory type ids [] = some []
  send_each false type ids (c ∷ cs) = none
  send_each true type ids (c ∷ cs) = do
    rest ← send_each true type ids cs
    some (record { to = c.info; type = type; ids = ids } ∷ rest)

  -- `sendToAll` of a message with thread ids
  unfoldable pub send_to_all :
      Bool
      → MessageType
      → List ThreadId
      → OtherServers ThreadId Info
      → Option (List (Sent ThreadId Info))
  send_to_all factory type ids s = do
    connections ← all_values s.connections
    send_each factory type ids connections

-- A server with its `mMessageFactory`, of which it matters whether the pointer is set.
pub record Process (ThreadId Info Thread : Type 0) : Type 0 where
  pub server : Server ThreadId Info Thread
  pub has_message_factory : Bool

module _ {ThreadId Info Thread : Type 0} where
  -- `sendHello` and `sendGoodbye`
  unfoldable pub send_hello : Process ThreadId Info Thread → Option (List (Sent ThreadId Info))
  send_hello p = do
    ids ← get_process_thread_ids p.server.local_threads
    send_to_all p.has_message_factory process_peer_hello ids p.server.other_servers

  unfoldable pub send_goodbye : Process ThreadId Info Thread → Option (List (Sent ThreadId Info))
  send_goodbye p = do
    ids ← get_process_thread_ids p.server.local_threads
    send_to_all p.has_message_factory process_peer_goodbye ids p.server.other_servers

  -- The constructor, whose only initialiser is that of `mServer`: the other members are constructed by
  -- default, the tables with `n` and `m` table indices and `mMessageFactory` as a null pointer.
  unfoldable pub construct :
      ⦃hashing : Hashing ThreadId⦄
      → ℕ
      → ℕ
      → Heap (Connection Info)
      → Heap (Entry ThreadId Iterator)
      → Heap (Entry ThreadId Thread)
      → Option (List (Sent ThreadId Info) × Process ThreadId Info Thread)
  construct n m h h' h'' =
      let p : Process ThreadId Info Thread = record {
        server = record {
          other_servers = Histories.new n h h';
          local_threads = HashTable.new m h'';
          sent = [];
        };
        has_message_factory = false;
      } in
      do sent ← send_hello p; some (sent, p)

  -- The destructor.
  unfoldable pub destruct : Process ThreadId Info Thread → Option (List (Sent ThreadId Info))
  destruct p = send_goodbye p

visit-Linked {ℓ} :
    {A : Type ℓ} (h : Heap A) (b : Iterator) (ns : List (ℕ × A))
    → Linked h b ns none
    → visit (length ns) (first ns none) h ≡ some (map (λ n. n.1) ns)
unfolding visit LinkedList.value_at LinkedList.next_of
visit-Linked h b [] chain = refl
visit-Linked h b ((p, x) ∷ ns) chain =
    rw
      (
        visit,
        ◌>>=◌,
        LinkedList.value_at,
        LinkedList.next_of,
        chain.0,
        visit-Linked h (some p) ns chain.2,
      )
      refl

pub all_values-Represents {ℓ} :
    {A : Type ℓ} (ns : List (ℕ × A)) (s : State A)
    → Represents ns s
    → all_values s ≡ some (map (λ n. n.1) ns)
unfolding all_values
all_values-Represents ns s r = rw (r.counted, r.begins) (visit-Linked s.heap none ns r.chain)

map-map {ℓ κ μ} :
    {A : Type ℓ} {B : Type κ} {C : Type μ} (f : A → B) (g : B → C) (xs : List A)
    → map g (map f xs) ≡ map (λ x. g (f x)) xs
map-map f g [] = refl
map-map f g (x ∷ xs) = ap (λ t. g (f x) ∷ t) (map-map f g xs)

module _ {ThreadId Thread : Type 0} where
  pub get_process_thread_ids-keys :
      (ns : List (ℕ × Entry ThreadId Thread)) (t : Table ThreadId Thread)
      → Represents ns t.keys
      → get_process_thread_ids t ≡ some (map (λ n. n.1.key) ns)
  unfolding get_process_thread_ids
  get_process_thread_ids-keys ns t r =
      rw (all_values-Represents ns t.keys r, ◌>>=◌) (ap some (map-map (λ n. n.1) (λ e. e.key) ns))
