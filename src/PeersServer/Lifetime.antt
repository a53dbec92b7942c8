-- ===== src/PeersServer/Lifetime.antt =====
-- The constructor and the destructor of `ProcessPeersServer` in Core/Common/ProcessPeersServer.cpp.
use mathlib.Core.Path.{subst}
use ziqe.Prelude.{
  ℕ, ◌≡◌, ◌≢◌, refl, sym, ◌∙◌, ap, List, [], ◌∷◌, Option, none, some, false, inl, inr,
}
use ziqe.Prelude.Fallible.{◌>>=◌}
use ziqe.LinkedList.{Iterator, Heap}
use ziqe.LinkedList.Sequence.{Represents}
use ziqe.HashTable
use ziqe.HashTable.{Hashing, Entry}
use ziqe.HashTable.Contents.{content_of-Absent, locate}
use ziqe.Peers.{Connection}
use ziqe.Peers.Histories
use ziqe.Peers.Consistency.{Consistent}
use ziqe.Peers.References.{Served, Targets, Targets-at}
use ziqe.PeersServer.{Server}
use ziqe.PeersServer.Broadcast.{
  Process, Sent, construct, destruct, send_hello, send_goodbye, send_to_all, send_each, all_values,
  visit, get_process_thread_ids, get_process_thread_ids-keys, all_values-Represents,
}

module _ {ThreadId Info Thread : Type 0} ⦃hashing : Hashing ThreadId⦄ where
  -- A known thread has a connection.
  known-Served :
      (id : ThreadId) (f : ThreadId → Option Iterator) (s : Server ThreadId Info Thread)
      (h : Consistent f s.other_servers)
      → f id ≢ none
      → (it : Iterator) × Served it h.cs
  known-Served id f s h known = elim (locate id h.ns) [
    | inl (nowhere, absent) ↦ absurd (known (sym (h.agrees id) ∙ content_of-Absent id h.ns absent))
    | inr l ↦ (
      l.entry.content,
      (Targets-at h.cs l.front l.address l.entry l.back (subst (Targets h.cs) l.whole h.targets)).0,
    )
  ]

  -- Without a message factory, the first connection is enough.
  goodbye-none :
      (ns : List (ℕ × Entry ThreadId Thread)) (cs : List (ℕ × Connection Info)) (it : Iterator)
      (p : Process ThreadId Info Thread)
      → Represents ns p.server.local_threads.keys
      → Represents cs p.server.other_servers.connections
      → Served it cs
      → p.has_message_factory ≡ false
      → destruct p ≡ none
  unfolding destruct send_goodbye send_to_all send_each
  goodbye-none ns [] it p local others (c, at, inside) unset = absurd (inside tt)
  goodbye-none ns (c ∷ cs) it p local others served unset =
      rw
        (
          get_process_thread_ids-keys ns p.server.local_threads local,
          ◌>>=◌,
          all_values-Represents (c ∷ cs) p.server.other_servers.connections others,
          unset,
        )
        refl

  -- The constructor of a server sends no hello and sets no message factory: with other servers in a
  -- consistent state in which some thread is known, and with a list of local threads that represents a
  -- sequence, the destructor is undefined.
  pub destruct-construct :
      (n m : ℕ) (h : Heap (Connection Info)) (h' : Heap (Entry ThreadId Iterator))
      (h'' : Heap (Entry ThreadId Thread)) (sent : List (Sent ThreadId Info))
      (p : Process ThreadId Info Thread) (s : Server ThreadId Info Thread)
      (f : ThreadId → Option Iterator) (id : ThreadId) (ns : List (ℕ × Entry ThreadId Thread))
      → construct n m h h' h'' ≡ some (sent, p)
      → Consistent f s.other_servers
      → f id ≢ none
      → Represents ns s.local_threads.keys
      → (sent ≡ []) × (destruct (record p { server = s }) ≡ none)
  unfolding construct send_hello send_to_all send_each all_values visit get_process_thread_ids
      Histories.new HashTable.new
  destruct-construct n m h h' h'' sent p s f id ns run consistent known local =
      let (it, served) = known-Served id f s consistent known in
      let silent : [] ≡ sent = ap (λ o. elim o [ none ↦ [] | some r ↦ r.0 ]) run in
      let unset : false ≡ p.has_message_factory =
        ap (λ o. elim o [ none ↦ false | some r ↦ r.1.has_message_factory ]) run in
      let left : Process ThreadId Info Thread = record p { server = s } in
      (
        sym silent,
        goodbye-none ns consistent.cs it left local consistent.connections served (sym unset),
      )
