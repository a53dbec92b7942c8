-- ===== src/Message/Types.antt =====
-- The message types of Core/Protocol/Message.hpp and their groups.
use ziqe.Prelude.{ℕ, ◌/◌, ◌^◌, ◌<◌, ◌≡◌, refl, arith}
use ziqe.Message.{
  MessageType, get_memory, do_system_call, do_system_call_result, run_thread_peer_lookup,
  run_thread_peer_lookup_propose, run_thread_peer_lookup_accept_propose, code,
}

-- The groups that the comments of the enumeration name.
pub data Group : Type 0 where
  process_peer thread_owner global : Group

abbrev pub group : MessageType → Group
group do_system_call = thread_owner
group do_system_call_result = thread_owner
group run_thread_peer_lookup = global
group run_thread_peer_lookup_propose = global
group run_thread_peer_lookup_accept_propose = global
group t = process_peer

abbrev pub group_bit : Group → ℕ
group_bit process_peer = 15
group_bit thread_owner = 14
group_bit global = 13

-- The highest bit of a message type is that of the group which the comments of the enumeration
-- put it in.
pub code-group : (t : MessageType) → code t / 2 ^ group_bit (group t) ≡ 1
unfolding code
code-group get_memory = refl
code-group _ = refl

pub code-lt : (t : MessageType) → code t < 2 ^ 16
unfolding code
code-lt get_memory = omega arith
code-lt _ = omega arith
