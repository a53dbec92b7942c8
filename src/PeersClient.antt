-- ===== src/PeersClient.antt =====
-- `ProcessPeersClient` of Core/Common/ProcessPeersClient.hpp and .cpp: its tasks, on the connections
-- that it shares with `ProcessPeersServer`. The stream factory is an interface; what the streams that
-- it creates receive is the result of `MessageStream::receiveMessage` on their state.
pub mod Waiting
use ziqe.Prelude.{ℕ, zero, suc, List, [], ◌∷◌, ◌++◌, Option, none, some, Bool, true, false}
use ziqe.Expected.{Expected, value, error}
use ziqe.HashTable.{Hashing}
use ziqe.Message.{MessageType, stop_thread, kill_thread, continue_thread, ReceiveMessageError}
use ziqe.Peers.{OtherServers, find_thread_stream_info}

-- `Task::Type`
pub data TaskType : Type 0 where
  run_thread stop_task kill_task continue_task : TaskType

-- `Task`
pub record Task : Type 0 where
  pub task_type : TaskType
  pub is_complete : Bool

-- The constructor from a type.
unfoldable pub new_task : TaskType → Task
new_task type = record { task_type = type; is_complete = false }

-- `mCurrentTask`, and the messages that were sent, with the stream of each
pub record Client (ThreadId Info : Type 0) : Type 0 where
  pub current_task : Task
  pub sent : List (Info × MessageType × ThreadId)

-- How a call ends: with undefined behaviour, in a state, or not within the given number of rounds of its
-- loop, after which it is in a state of the stream and of the client.
pub data Run (A B : Type 0) : Type 0 where
  undefined : Run A B
  waiting : A → Run A B
  ended : B → Run A B

-- `MessageStreamFactoryInterface::createMessageStream`, and `receiveMessage` of the streams.
pub record Streams (S Info : Type 0) : Type 0 where
  pub create_message_stream : Info → S
  pub receive_message : S → Option (Expected ℕ ReceiveMessageError × S)

-- `onMessageReceived`, whose body is empty
unfoldable pub on_message_received :
    {ThreadId Info : Type 0} → ℕ → Client ThreadId Info → Client ThreadId Info
on_message_received type c = c

module _ {S Info ThreadId : Type 0} (streams : Streams S Info) where
  -- One round of the loop of `waitUntilCurrentTaskComplete`: a `continue` goes on to its condition.
  unfoldable pub receive_one : S → Client ThreadId Info → Option (S × Client ThreadId Info)
  receive_one s c = elim (streams.receive_message s) [
    | none ↦ none
    | some (error e, s') ↦ some (s', c)
    | some (value type, s') ↦ some (s', on_message_received type c)
  ]

  -- `waitUntilCurrentTaskComplete`, for a number of rounds
  unfoldable pub wait_until_current_task_complete :
      ℕ → S → Client ThreadId Info → Run (S × Client ThreadId Info) (Client ThreadId Info)
  wait_until_current_task_complete zero s c = waiting (s, c)
  wait_until_current_task_complete (suc rounds) s c = elim (receive_one s c) [
    | none ↦ undefined
    | some (s', c') ↦ elim c'.current_task.is_complete [
      | true ↦ ended c'
      | false ↦ wait_until_current_task_complete rounds s' c'
    ]
  ]

  module _ ⦃hashing : Hashing ThreadId⦄ where
    -- `sendThreadMessageAndWait`, after which the callers of it return in both cases; the assertion of
    -- theirs only logs.
    unfoldable pub send_thread_message_and_wait :
        ℕ
        → ThreadId
        → MessageType
        → OtherServers ThreadId Info
        → Client ThreadId Info
        → Run (S × Client ThreadId Info) (Client ThreadId Info)
    send_thread_message_and_wait rounds id type servers c =
        elim (find_thread_stream_info id servers) [
          | none ↦ undefined
          | some (error e) ↦ ended c
          | some (value info) ↦
              wait_until_current_task_complete rounds (streams.create_message_stream info)
                (record c { sent = c.sent ++ (info, type, id) ∷ [] })
        ]

    -- `continueRemoteThread`, `stopRemoteThread` and `killRemoteThread`
    unfoldable pub continue_remote_thread :
        ℕ
        → ThreadId
        → OtherServers ThreadId Info
        → Client ThreadId Info
        → Run (S × Client ThreadId Info) (Client ThreadId Info)
    continue_remote_thread rounds id servers c =
        send_thread_message_and_wait rounds id continue_thread servers
          (record c { current_task = new_task continue_task })

    unfoldable pub stop_remote_thread :
        ℕ
        → ThreadId
        → OtherServers ThreadId Info
        → Client ThreadId Info
        → Run (S × Client ThreadId Info) (Client ThreadId Info)
    stop_remote_thread rounds id servers c =
        send_thread_message_and_wait rounds id stop_thread servers
          (record c { current_task = new_task stop_task })

    unfoldable pub kill_remote_thread :
        ℕ
        → ThreadId
        → OtherServers ThreadId Info
        → Client ThreadId Info
        → Run (S × Client ThreadId Info) (Client ThreadId Info)
    kill_remote_thread rounds id servers c =
        send_thread_message_and_wait rounds id kill_thread servers
          (record c { current_task = new_task kill_task })
