-- ===== src/PeersServer.antt =====
-- `ProcessPeersServer` of Core/Common/ProcessPeersServer.hpp and .cpp: the handlers of the messages
-- of other servers. What stopping, continuing and killing a thread does to it is a parameter.
pub mod Replies
pub mod Sessions
pub mod Broadcast
pub mod Lifetime
use ziqe.Prelude.{ℕ, List, [], ◌∷◌, ◌++◌, Option, none, some}
use ziqe.Prelude.Fallible.{◌>>=◌}
use ziqe.LinkedList
use ziqe.LinkedList.{Iterator}
use ziqe.HashTable
use ziqe.HashTable.{Hashing, Table}
use ziqe.Message.{MessageType, stop_thread_ok, continue_thread_ok, kill_thread_ok}
use ziqe.Peers.{OtherServers, add_threads, remove_threads}

-- What a handler asks of a local thread.
pub data Request : Type 0 where
  stop cont kill : Request

-- `mOtherServers`, `mProcessLocalThreads` and the messages sent to the stream of the request
pub record Server {ℓ κ} (ThreadId : Type ℓ) (Info : Type 0) (Thread : Type κ) : Type (ℓ ⊔ κ) where
  pub other_servers : OtherServers ThreadId Info
  pub local_threads : Table ThreadId Thread
  pub sent : List (MessageType × ThreadId)

-- The message with which a request is answered.
unfoldable pub reply : Request → MessageType
reply stop = stop_thread_ok
reply cont = continue_thread_ok
reply kill = kill_thread_ok

module _ {ℓ κ} {ThreadId : Type ℓ} {Info : Type 0} {Thread : Type κ}
    ⦃hashing : Hashing ThreadId⦄ where
  -- `globalToLocalThread`: a null pointer where the thread is not one of this process
  unfoldable pub global_to_local_thread : ThreadId → Server ThreadId Info Thread → Option Iterator
  global_to_local_thread id s = HashTable.find id s.local_threads

  -- `sendMessage` on the stream of the request
  unfoldable pub send_message :
      MessageType → ThreadId → Server ThreadId Info Thread → Server ThreadId Info Thread
  send_message type id s = record s { sent = s.sent ++ (type, id) ∷ [] }

  -- `thread->stop ()`, `thread->cont ()` and `thread->kill ()`
  unfoldable pub perform :
      (Request → Thread → Thread)
      → Request
      → Iterator
      → Server ThreadId Info Thread
      → Option (Server ThreadId Info Thread)
  perform act request none s = none
  perform act request (some p) s = do
    entry ← LinkedList.value_at (some p) s.local_threads.keys.heap
    threads ← HashTable.set_content p (act request entry.content) s.local_threads
    some (record s { local_threads = threads })

  -- `onStopThreadReceived`, `onContinueThread` and `onKillThreadReceived`, which differ in the
  -- request and the reply: the branch for a thread that is not found does not return.
  unfoldable pub on_request :
      (Request → Thread → Thread)
      → Request
      → ThreadId
      → Server ThreadId Info Thread
      → Option (Server ThreadId Info Thread)
  on_request act request id s = do
    thread ← global_to_local_thread id s
    let s' : Server ThreadId Info Thread = elim thread [
      | none ↦ send_message (reply request) id s
      | some p ↦ s
    ]
    s'' ← perform act request thread s'
    some (send_message (reply request) id s'')

  unfoldable pub on_stop_thread_received :
      (Request → Thread → Thread)
      → ThreadId
      → Server ThreadId Info Thread
      → Option (Server ThreadId Info Thread)
  on_stop_thread_received act = on_request act stop

  unfoldable pub on_continue_thread :
      (Request → Thread → Thread)
      → ThreadId
      → Server ThreadId Info Thread
      → Option (Server ThreadId Info Thread)
  on_continue_thread act = on_request act cont

  unfoldable pub on_kill_thread_received :
      (Request → Thread → Thread)
      → ThreadId
      → Server ThreadId Info Thread
      → Option (Server ThreadId Info Thread)
  on_kill_thread_received act = on_request act kill

  -- `onHelloReceived` and `onGoodbyeReceived`, where `info` is what the stream says of itself
  unfoldable pub on_hello_received :
      Info → List ThreadId → Server ThreadId Info Thread → Option (Server ThreadId Info Thread)
  on_hello_received info ids s = do
    servers ← add_threads ids info s.other_servers
    some (record s { other_servers = servers })

  unfoldable pub on_goodbye_received :
      List ThreadId → Server ThreadId Info Thread → Option (Server ThreadId Info Thread)
  on_goodbye_received ids s = do
    servers ← remove_threads ids s.other_servers
    some (record s { other_servers = servers })
