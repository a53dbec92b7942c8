-- ===== src/Tests/Clients.antt =====
-- Runs of the clients of Core/Common/ProcessPeersClient.cpp, and of the messages to all peers.
use ziqe.Prelude.{ℕ, ◌+◌, ◌≡◌, false, refl, List, [], none, some, arith}
use ziqe.Expected.{value}
use ziqe.LinkedList.Sequence.{Represents}
use ziqe.Peers.{Connection}
use ziqe.Message.{stop_thread, kill_thread, continue_thread}
use ziqe.PeersServer.Broadcast.{
  Sent, Process, construct, destruct, send_hello, send_to_all, send_each, all_values, visit,
  get_process_thread_ids,
}
use ziqe.PeersServer.Lifetime.{destruct-construct}
use ziqe.Peers.Histories
use ziqe.HashTable
use ziqe.HashTable.{Entry}
use ziqe.LinkedList.{Iterator, Heap}
use ziqe.PeersClient.{
  stop_task, kill_task, continue_task, Client, new_task, run_thread, Streams, stop_remote_thread,
  continue_remote_thread, kill_remote_thread,
}
use ziqe.PeersClient.Waiting.{Waits, remote_thread-Waits}
use ziqe.Tests.Peers.{
  thread_ids, local_entries, server, servers, connected, servers-Consistent, connected_4,
}

-- Streams whose state counts the messages that they have received.
abbrev streams : Streams ℕ ℕ
streams = record {
  create_message_stream = λ info. 0;
  receive_message = λ n. some (value 0x8021, n + 1);
}

abbrev idle : Client ℕ ℕ
idle = record { current_task = new_task run_thread; sent = [] }

remote_thread-Waits_example :
    Waits streams
      (connected 4)
      stop_task
      stop_thread
      4
      servers
      idle
      (stop_remote_thread streams 3 4 servers idle)
    × Waits streams
        (connected 4)
        continue_task
        continue_thread
        4
        servers
        idle
        (continue_remote_thread streams 3 4 servers idle)
    × Waits streams
        (connected 4)
        kill_task
        kill_thread
        4
        servers
        idle
        (kill_remote_thread streams 3 4 servers idle)
remote_thread-Waits_example =
    remote_thread-Waits streams 3 4 connected servers idle (λ s. ((value 0x8021, s + 1), refl, tt))
      servers-Consistent

threads-Represents : Represents local_entries server.local_threads.keys
threads-Represents = record {
  begins = refl;
  ends = refl;
  counted = refl;
  chain = (refl, omega arith, tt);
  distinct = (tt, tt);
}

-- Three empty heaps.
abbrev no_connections : Heap (Connection ℕ)
no_connections = record { cells = λ n. none; next_free = 0 }

abbrev no_threads : Heap (Entry ℕ Iterator)
no_threads = record { cells = λ n. none; next_free = 0 }

abbrev no_local_threads : Heap (Entry ℕ ℕ)
no_local_threads = record { cells = λ n. none; next_free = 0 }

-- What is constructed: no message factory.
abbrev constructed : Process ℕ ℕ ℕ
constructed = record {
  server = record {
    other_servers = Histories.new 2 no_connections no_threads;
    local_threads = HashTable.new 2 no_local_threads;
    sent = [];
  };
  has_message_factory = false;
}

nothing_sent : construct 2 2 no_connections no_threads no_local_threads ≡ some ([], constructed)
unfolding construct send_hello send_to_all send_each all_values visit get_process_thread_ids
    Histories.new HashTable.new
nothing_sent = refl

destruct-construct_example :
    (◌≡◌ {A = List (Sent ℕ ℕ)} [] []) × (destruct (record constructed { server = server }) ≡ none)
destruct-construct_example =
    destruct-construct 2 2 no_connections no_threads no_local_threads [] constructed server
      connected 4 local_entries nothing_sent servers-Consistent connected_4 threads-Represents
