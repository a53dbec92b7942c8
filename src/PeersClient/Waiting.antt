-- ===== src/PeersClient/Waiting.antt =====
-- The blocking calls of Core/Common/ProcessPeersClient.cpp.
use ziqe.Prelude.{ℕ, zero, suc, ◌≡◌, refl, ◌∙◌, ap, [], ◌∷◌, ◌++◌, Option, none, some, true, false}
use ziqe.Prelude.Fallible.{Returns}
use ziqe.Expected.{Expected, value, error}
use ziqe.LinkedList
use ziqe.LinkedList.{Iterator}
use ziqe.HashTable.{Hashing}
use ziqe.Message.{MessageType, stop_thread, kill_thread, continue_thread, ReceiveMessageError}
use ziqe.Peers.{Connection, OtherServers, find_thread_stream_info}
use ziqe.Peers.Consistency.{Consistent}
use ziqe.Peers.Finding.{Answers, find_thread_stream_info-Answers}
use ziqe.PeersClient.{
  TaskType, stop_task, kill_task, continue_task, new_task, Client, Run, waiting, ended, Streams,
  on_message_received, receive_one, wait_until_current_task_complete, send_thread_message_and_wait,
  continue_remote_thread, stop_remote_thread, kill_remote_thread,
}

-- The streams answer every time, with a message or an error.
abbrev pub Receives : {S Info : Type 0} → Streams S Info → Type 0
Receives {S} streams = (s : S) → Returns (streams.receive_message s) (λ r. Unit)

module _ {S Info ThreadId : Type 0} (streams : Streams S Info) where
  -- No message changes the task.
  receive_one-kept :
      (s : S) (c : Client ThreadId Info)
      → Receives streams
      → (s' : S) × (receive_one streams s c ≡ some (s', c))
  unfolding receive_one on_message_received
  receive_one-kept s c total = let (r, run, done) = total s in kept r run
    where
      kept :
          (r : Expected ℕ ReceiveMessageError × S)
          → streams.receive_message s ≡ some r
          → (s' : S) × (receive_one streams s c ≡ some (s', c))
      kept (error e, s') run = (s', rw (receive_one, run) refl)
      kept (value type, s') run = (s', rw (receive_one, run) refl)

  wait-step :
      (rounds : ℕ) (s s' : S) (c : Client ThreadId Info)
      → receive_one streams s c ≡ some (s', c)
      → c.current_task.is_complete ≡ false
      → wait_until_current_task_complete streams (suc rounds) s c
        ≡ wait_until_current_task_complete streams rounds s' c
  unfolding wait_until_current_task_complete
  wait-step rounds s s' c one open_task =
      rw (wait_until_current_task_complete, one)
        (ap
          (λ b. elim b [
            | true ↦ ended c
            | false ↦ wait_until_current_task_complete streams rounds s' c
          ])
          open_task)

  wait-waiting :
      (rounds : ℕ) (s : S) (c : Client ThreadId Info)
      → Receives streams
      → c.current_task.is_complete ≡ false
      → (s' : S) × (wait_until_current_task_complete streams rounds s c ≡ waiting (s', c))
  unfolding wait_until_current_task_complete
  wait-waiting zero s c total open_task = (s, refl)
  wait-waiting (suc rounds) s c total open_task =
      let (s', one) = receive_one-kept s c total in
      let (s'', others) = wait-waiting rounds s' c total open_task in
      (s'', wait-step rounds s s' c one open_task ∙ others)

module _ {S Info ThreadId : Type 0} (streams : Streams S Info) ⦃hashing : Hashing ThreadId⦄ where
  -- How a task with this type and message is to run for a thread at the connection `it`: where there is
  -- none, it ends at once and sends nothing; where there is one, it sends the message to the stream of
  -- the connection, once, and waits after the rounds.
  abbrev pub Waits :
      Option Iterator
      → TaskType
      → MessageType
      → ThreadId
      → OtherServers ThreadId Info
      → Client ThreadId Info
      → Run (S × Client ThreadId Info) (Client ThreadId Info)
      → Type 0
  Waits none task type id servers c r = r ≡ ended (record c { current_task = new_task task })
  Waits (some it) task type id servers c r =
      (x : Connection Info) × (LinkedList.value_at it servers.connections.heap ≡ some x)
      × (s : S) × (r
          ≡ waiting (
            s,
            record { current_task = new_task task; sent = c.sent ++ (x.info, type, id) ∷ [] },
          ))

  send-Waits :
      (rounds : ℕ) (task : TaskType) (type : MessageType) (id : ThreadId) (at : Option Iterator)
      (servers : OtherServers ThreadId Info) (c : Client ThreadId Info)
      → Receives streams
      → Returns (find_thread_stream_info id servers) (Answers at servers)
      → Waits at task type id servers c (
          send_thread_message_and_wait streams rounds id type servers
            (record c { current_task = new_task task }))
  unfolding send_thread_message_and_wait new_task
  send-Waits rounds task type id none servers c total (r, run, answer) =
      rw (send_thread_message_and_wait, run, answer) refl
  send-Waits rounds task type id (some it) servers c total (r, run, (x, at, own, answer)) =
      let after : Client ThreadId Info = record {
        current_task = new_task task;
        sent = c.sent ++ (x.info, type, id) ∷ [];
      } in
      let (s, waits) =
        wait-waiting streams rounds (streams.create_message_stream x.info) after total refl in
      (x, at, s, rw (send_thread_message_and_wait, run, answer) waits)

  -- With other servers in a consistent state and streams that answer every time, stopping, continuing and
  -- killing a remote thread ends at once for a thread that is not known; for one that is, the message is
  -- sent once to the stream of its connection, and then the wait has not ended after any number of rounds,
  -- whatever is received.
  pub remote_thread-Waits :
      (rounds : ℕ) (id : ThreadId) (f : ThreadId → Option Iterator)
      (servers : OtherServers ThreadId Info) (c : Client ThreadId Info)
      → Receives streams
      → Consistent f servers
      → Waits
          (f id)
          stop_task
          stop_thread
          id
          servers
          c
          (stop_remote_thread streams rounds id servers c)
        × Waits
            (f id)
            continue_task
            continue_thread
            id
            servers
            c
            (continue_remote_thread streams rounds id servers c)
        × Waits
            (f id)
            kill_task
            kill_thread
            id
            servers
            c
            (kill_remote_thread streams rounds id servers c)
  unfolding stop_remote_thread continue_remote_thread kill_remote_thread
  remote_thread-Waits rounds id f servers c total h =
      let found = find_thread_stream_info-Answers id f servers h in
      (
        send-Waits rounds stop_task stop_thread id (f id) servers c total found,
        send-Waits rounds continue_task continue_thread id (f id) servers c total found,
        send-Waits rounds kill_task kill_thread id (f id) servers c total found,
      )
