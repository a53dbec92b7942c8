-- ===== src/PeersServer/Replies.antt =====
-- How the server of Core/Common/ProcessPeersServer.cpp answers requests, and a hello with a goodbye.
use mathlib.Core.Path.{subst}
use ziqe.Prelude.{◌≡◌, refl, sym, ◌∙◌, ap, [], ◌∷◌, ◌++◌, Option, none, some, inl, inr}
use ziqe.Prelude.Fallible.{◌>>=◌, Returns}
use ziqe.LinkedList
use ziqe.LinkedList.{Iterator}
use ziqe.LinkedList.Sequence.{node_at}
use ziqe.HashTable.{Hashing}
use ziqe.HashTable.Lookup.{Valid, find-address_of}
use ziqe.HashTable.Contents.{update, content_of-Absent, locate}
use ziqe.HashTable.Map.{Holds}
use ziqe.HashTable.Updates.{set_content-Holds}
use ziqe.HashTable.Entries.{some_injective, some-none}
use ziqe.PeersServer.{
  Request, Server, reply, on_request, global_to_local_thread, perform, send_message,
}

module _ {ℓ κ} {ThreadId : Type ℓ} {Info : Type 0} {Thread : Type κ}
    ⦃hashing : Hashing ThreadId⦄ where
  -- A request for a local thread is performed on that thread, and answered once: the table of local
  -- threads, which held the map `f`, holds it with the changed thread, and nothing else changes.
  pub on_request-Holds :
      (act : Request → Thread → Thread) (request : Request) (id : ThreadId) (thread : Thread)
      (f : ThreadId → Option Thread) (s : Server ThreadId Info Thread)
      → Holds f s.local_threads
      → f id ≡ some thread
      → Returns (on_request act request id s) (λ u.
        Holds (update id (act request thread) f) u.local_threads
        × (u.sent ≡ s.sent ++ (reply request, id) ∷ [])
        × (u.other_servers ≡ s.other_servers))
  unfolding on_request global_to_local_thread perform send_message LinkedList.value_at
  on_request-Holds act request id thread f s h known = elim (locate id h.ns) [
    | inl (nowhere, absent) ↦
        absurd
          (some-none thread (sym known ∙ (sym (h.agrees id) ∙ content_of-Absent id h.ns absent)))
    | inr l ↦
        let found = find-address_of id h.its h.ns s.local_threads h.valid ∙ ap some l.addressed in
        let node =
          node_at l.front l.address l.entry l.back s.local_threads.keys
            (subst (λ t. Valid h.its t s.local_threads) l.whole h.valid).keys in
        let content : l.entry.content ≡ thread =
          some_injective l.entry.content thread (sym l.holds ∙ (h.agrees id ∙ known)) in
        let (t, run, (finds, holds, same_size)) =
          set_content-Holds id (act request l.entry.content) f s.local_threads h l in
        (
          record s { local_threads = t; sent = s.sent ++ (reply request, id) ∷ [] },
          rw (found, ◌>>=◌, node, ◌>>=◌, run) refl,
          (subst (λ x. Holds (update id (act request x) f) t) content holds, refl, refl),
        )
  ]

  -- A request for a thread that is not a local one calls a member of a null pointer, after it has
  -- been answered, which is undefined behaviour.
  pub on_request-none :
      (act : Request → Thread → Thread) (request : Request) (id : ThreadId)
      (f : ThreadId → Option Thread) (s : Server ThreadId Info Thread)
      → Holds f s.local_threads
      → f id ≡ none
      → on_request act request id s ≡ none
  unfolding on_request global_to_local_thread perform
  on_request-none act request id f s h unknown = elim (locate id h.ns) [
    | inl (nowhere, absent) ↦
        rw (find-address_of id h.its h.ns s.local_threads h.valid, nowhere) refl
    | inr l ↦ absurd (some-none l.entry.content (sym l.holds ∙ (h.agrees id ∙ unknown)))
  ]
