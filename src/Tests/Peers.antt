-- ===== src/Tests/Peers.antt =====
-- Runs of the other servers of Core/Common/ProcessPeersServer.hpp.
use mathlib.Core.Path.{subst}
use ziqe.Prelude.{
  ℕ, zero, suc, ◌+◌, ◌==◌, ==_iff, ◌≡◌, ◌≢◌, ap, refl, arith, List, [], ◌∷◌, Option, some, none,
  get_elem?,
}
use ziqe.Prelude.Fallible.{Returns}
use ziqe.Vector
use ziqe.LinkedList
use ziqe.LinkedList.{Iterator, Node, Heap, State}
use ziqe.HashTable
use ziqe.HashTable.{Hashing, Entry, Table}
use ziqe.HashTable.Groups.{past_end, inside_more, inside_end, inside_past, Grouped, later, here}
use ziqe.HashTable.Entries.{some_injective}
use ziqe.HashTable.Contents.{content_of, update}
use ziqe.HashTable.Map.{Holds}
use ziqe.PeersServer.{
  Request, stop, Server, reply, on_request, on_hello_received, on_goodbye_received,
}
use ziqe.PeersServer.Replies.{on_request-Holds}
use ziqe.PeersServer.Sessions.{on_goodbye-on_hello}
use ziqe.Peers.{
  Connection, OtherServers, add_threads, enroll, remove_thread, remove_threads,
  find_thread_stream_info,
}
use ziqe.Peers.Consistency.{Consistent}
use ziqe.Peers.Enrolling.{update_all}
use ziqe.Peers.References.{points, refs}
use ziqe.Peers.Finding.{Answers, find_thread_stream_info-Answers, remove_thread-none}
use ziqe.Peers.Histories.{
  started, joined, new, remove_all, Reachable-Consistent, remove_threads-Consistent,
}

instance pub thread_ids : Hashing ℕ
thread_ids = record {
  hash = λ n. n;
  is_equal = λ a b. a == b;
  is_equal_iff = λ a b. ((==_iff a b).0, (==_iff a b).1);
}

abbrev entry : ℕ → ℕ → ℕ → Entry ℕ Iterator
entry key address index = record { key = key; content = some address; table_index = index }

abbrev pub connection : ℕ → ℕ → Connection ℕ
connection info n = record { info = info; reference_count = n }

abbrev thread_cell : ℕ → Option (Node (Entry ℕ Iterator))
thread_cell zero = some (record { previous = none; next = some 1; value = entry 4 0 0 })
thread_cell (suc zero) = some (record { previous = some 0; next = some 2; value = entry 6 0 0 })
thread_cell (suc (suc zero)) = some (record { previous = some 1; next = none; value = entry 3 1 1 })
thread_cell (suc (suc (suc n))) = none

abbrev connection_cell : ℕ → Option (Node (Connection ℕ))
connection_cell zero = some (record { previous = none; next = some 1; value = connection 100 2 })
connection_cell (suc zero) =
    some (record { previous = some 0; next = none; value = connection 200 1 })
connection_cell (suc (suc n)) = none

abbrev entries : List (ℕ × Entry ℕ Iterator)
entries = (0, entry 4 0 0) ∷ (1, entry 6 0 0) ∷ (2, entry 3 1 1) ∷ []

-- Two connections: one for the threads 4 and 6, and one for the thread 3.
abbrev pub servers : OtherServers ℕ ℕ
servers = record {
  connections = record {
    heap = record { cells = connection_cell; next_free = 2 };
    list = record { begin = some 0; before_end = some 1; size = 2 };
  };
  threads = record {
    table = some (some 0) ∷ some (some 2) ∷ [];
    keys = record {
      heap = record { cells = thread_cell; next_free = 3 };
      list = record { begin = some 0; before_end = some 2; size = 3 };
    };
  };
}

abbrev its : List Iterator
its = some 0 ∷ some 2 ∷ []

entries-Grouped : (i : ℕ) (it : Iterator) → get_elem? its i ≡ some it → Grouped i entries it
entries-Grouped zero it held = subst (Grouped 0 entries) (some_injective (some 0) it held) (
    here 0 (entry 4 0 0) _ refl (
      inside_more 1 (entry 6 0 0) _ refl
        (inside_past 2 (entry 3 1 1) [] (λ e. omega (arith, e)) past_end)))
entries-Grouped (suc zero) it held = subst (Grouped 1 entries) (some_injective (some 2) it held) (
    later 0 (entry 4 0 0) _ (some 2) (λ e. omega (arith, e))
      (later 1 (entry 6 0 0) _ (some 2) (λ e. omega (arith, e))
        (here 2 (entry 3 1 1) [] refl inside_end)))
entries-Grouped (suc (suc i)) it held = ground (arith, held)

abbrev pub connected : ℕ → Option Iterator
connected id = content_of id entries

pub servers-Consistent : Consistent connected servers
unfolding thread_ids content_of refs points
servers-Consistent = record {
  its = its;
  ns = entries;
  cs = (0, connection 100 2) ∷ (1, connection 200 1) ∷ [];
  threads = record {
    table = refl;
    positive = omega arith;
    keys = record {
      begins = refl;
      ends = refl;
      counted = refl;
      chain = (refl, omega arith, (refl, omega arith, (refl, omega arith, tt)));
      distinct = (
        (λ e. omega (arith, e), (λ e. omega (arith, e), tt)),
        ((λ e. omega (arith, e), tt), (tt, tt)),
      );
    };
    placed = (refl, (refl, (refl, tt)));
    unique = (
      (λ e. omega (arith, e), (λ e. omega (arith, e), tt)),
      ((λ e. omega (arith, e), tt), (tt, tt)),
    );
    grouped = entries-Grouped;
    small = omega arith;
  };
  connections = record {
    begins = refl;
    ends = refl;
    counted = refl;
    chain = (refl, omega arith, (refl, omega arith, tt));
    distinct = ((λ e. omega (arith, e), tt), (tt, tt));
  };
  counts = (refl, omega arith, (refl, omega arith, tt));
  targets = (
    (0, refl, λ out. out.0 refl),
    ((0, refl, λ out. out.0 refl), ((1, refl, λ out. out.1.0 refl), tt)),
  );
  few = omega arith;
  agrees = λ k. refl;
}

remove_threads-Consistent_example :
    Returns (remove_threads (4 ∷ 6 ∷ []) servers) (Consistent (remove_all (4 ∷ 6 ∷ []) connected))
unfolding content_of thread_ids
remove_threads-Consistent_example =
    remove_threads-Consistent (4 ∷ 6 ∷ []) connected servers servers-Consistent
      ((λ e. omega (arith, e), tt), (tt, tt)) (λ e. ground (arith, e), (λ e. ground (arith, e), tt))

find_thread_stream_info-Answers_example :
    Returns (find_thread_stream_info 6 servers) (Answers (connected 6) servers)
find_thread_stream_info-Answers_example =
    find_thread_stream_info-Answers 6 connected servers servers-Consistent

remove_thread-none_example : remove_thread 7 servers ≡ none
unfolding content_of thread_ids
remove_thread-none_example = remove_thread-none 7 connected servers servers-Consistent refl

pub connected_4 : connected 4 ≢ none
unfolding thread_ids content_of
connected_4 e =
    let differ : ◌≡◌ {A = ℕ} 1 0 = ap (λ o. elim o [ none ↦ 0 | some a ↦ 1 ]) e in
    absurd (omega (arith, differ))

abbrev start : OtherServers ℕ ℕ
start =
    new 2 (record { cells = λ n. none; next_free = 0 })
      (record { cells = λ n. none; next_free = 0 })

-- The state after the threads 4 and 6 have joined.
abbrev after : OtherServers ℕ ℕ
after = elim (add_threads (4 ∷ 6 ∷ []) 100 start) [ none ↦ start | some u ↦ u ]

joined_run : add_threads (4 ∷ 6 ∷ []) 100 start ≡ some after
unfolding add_threads enroll new LinkedList.emplace_back LinkedList.emplace_after
    LinkedList.emplace_before LinkedList.allocate LinkedList.write LinkedList.set_next
    LinkedList.set_previous LinkedList.link_next LinkedList.link_previous HashTable.entry_of
    HashTable.insert HashTable.set_content HashTable.add_entry HashTable.table_iterator
    HashTable.lookup_key_in_key_list HashTable.walk HashTable.new Vector.at Vector.put Vector.resize
    Vector.resize_buffer Vector.construct_n Vector.initial Vector.move_old thread_ids
joined_run = refl

Reachable-Consistent_example : Consistent (update_all (4 ∷ 6 ∷ []) (some 0) (λ k. none)) after
unfolding new HashTable.size HashTable.new
Reachable-Consistent_example =
    Reachable-Consistent (update_all (4 ∷ 6 ∷ []) (some 0) (λ k. none)) after (
      joined (λ k. none) start after (4 ∷ 6 ∷ []) 100 (started 2 _ _ (omega arith))
        ((λ e. omega (arith, e), tt), (tt, tt)) (refl, (refl, tt)) (omega arith) (omega arith)
        (omega arith) joined_run)

-- The server of a process with the threads 4, 6 and 3 elsewhere, and no thread of its own but 5.
abbrev local_cell : ℕ → Option (Node (Entry ℕ ℕ))
local_cell zero = some (record {
  previous = none;
  next = none;
  value = record { key = 5; content = 50; table_index = 0 };
})
local_cell (suc n) = none

abbrev pub local_entries : List (ℕ × Entry ℕ ℕ)
local_entries = (0, record { key = 5; content = 50; table_index = 0 }) ∷ []

abbrev pub server : Server ℕ ℕ ℕ
server = record {
  other_servers = servers;
  local_threads = record {
    table = some (some 0) ∷ [];
    keys = record {
      heap = record { cells = local_cell; next_free = 1 };
      list = record { begin = some 0; before_end = some 0; size = 1 };
    };
  };
  sent = [];
}

local-Grouped :
    (i : ℕ) (it : Iterator) → get_elem? (some 0 ∷ []) i ≡ some it → Grouped i local_entries it
local-Grouped zero it held =
    subst (Grouped 0 local_entries) (some_injective (some 0) it held)
      (here 0 (record { key = 5; content = 50; table_index = 0 }) [] refl inside_end)
local-Grouped (suc i) it held = ground (arith, held)

server-Holds : Holds (λ k. content_of k local_entries) server.local_threads
unfolding thread_ids
server-Holds = record {
  its = some 0 ∷ [];
  ns = local_entries;
  valid = record {
    table = refl;
    positive = omega arith;
    keys = record {
      begins = refl;
      ends = refl;
      counted = refl;
      chain = (refl, omega arith, tt);
      distinct = (tt, tt);
    };
    placed = (refl, tt);
    unique = (tt, tt);
    grouped = local-Grouped;
    small = omega arith;
  };
  agrees = λ k. refl;
}

-- What a request does to a thread: the number that stands for its state counts the requests.
abbrev count_request : Request → ℕ → ℕ
count_request request n = n + 1

on_request-Holds_example : Returns (on_request count_request stop 5 server) (λ u.
    Holds (update 5 51 (λ k. content_of k local_entries)) u.local_threads
    × (u.sent ≡ (reply stop, 5) ∷ [])
    × (u.other_servers ≡ servers))
unfolding content_of thread_ids
on_request-Holds_example =
    on_request-Holds count_request stop 5 50 (λ k. content_of k local_entries) server server-Holds
      refl

on_goodbye-on_hello_example :
    Returns (on_hello_received 300 (8 ∷ 9 ∷ []) server) (λ u.
      Returns (on_goodbye_received (8 ∷ 9 ∷ []) u) (λ w. Consistent connected w.other_servers))
unfolding HashTable.size content_of thread_ids
on_goodbye-on_hello_example =
    on_goodbye-on_hello 300 (8 ∷ 9 ∷ []) connected server servers-Consistent
      ((λ e. omega (arith, e), tt), (tt, tt)) (refl, (refl, tt)) (omega arith) (omega arith)
      (omega arith)
