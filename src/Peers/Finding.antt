-- ===== src/Peers/Finding.antt =====
-- `findThreadStreamInfo` of Core/Common/ProcessPeersServer.hpp, and the threads that are not known.
use mathlib.Core.Path.{subst}
use ziqe.Prelude.{ℕ, ◌<◌, ◌≡◌, refl, sym, ◌∙◌, ap, ◌∷◌, Option, none, some, inl, inr, arith}
use ziqe.Prelude.Fallible.{◌>>=◌, Returns}
use ziqe.Expected.{Expected, value, error}
use ziqe.LinkedList
use ziqe.LinkedList.{Iterator}
use ziqe.LinkedList.Sequence.{Represents, node_at}
use ziqe.HashTable.{Hashing}
use ziqe.HashTable.Lookup.{Valid, find-address_of}
use ziqe.HashTable.Contents.{content_of-Absent, Located, locate}
use ziqe.Peers.{
  Connection, OtherServers, FindThreadStreamError, invalid_thread_id, find_thread_stream_info,
  remove_thread,
}
use ziqe.Peers.Consistency.{Consistent}
use ziqe.Peers.References.{Counts, Counts-back, Targets-at, Targets, Serving, serving}

module _ {ℓ} {ThreadId : Type ℓ} {Info : Type 0} ⦃hashing : Hashing ThreadId⦄ where
  -- The answer for a thread: an error where it is not known, and else the information of the
  -- connection that it has, which serves one thread at least.
  abbrev pub Answers :
      Option Iterator → OtherServers ThreadId Info → Expected Info FindThreadStreamError → Type 0
  Answers none s r = r ≡ error invalid_thread_id
  Answers (some it) s r =
      (x : Connection Info) × (LinkedList.value_at it s.connections.heap ≡ some x)
      × (0 < x.reference_count)
      × (r ≡ value x.info)

  answer :
      (id : ThreadId) (f : ThreadId → Option Iterator) (s : OtherServers ThreadId Info)
      (h : Consistent f s)
      → (l : Located id h.ns) (w : ℕ) → l.entry.content ≡ some w
      → Serving w h.cs
      → Returns (find_thread_stream_info id s) (Answers (some l.entry.content) s)
  unfolding find_thread_stream_info LinkedList.value_at
  answer id f s h l w at a =
      let found = find-address_of id h.its h.ns s.threads h.threads ∙ ap some l.addressed in
      let node =
        node_at l.front l.address l.entry l.back s.threads.keys
          (subst (λ t. Valid h.its t s.threads) l.whole h.threads).keys in
      let connected : LinkedList.value_at l.entry.content s.connections.heap ≡ some a.connection =
        ap (λ it. LinkedList.value_at it s.connections.heap) at
        ∙ rw
            (node_at a.front w a.connection a.back s.connections
              (subst (λ t. Represents t s.connections) a.whole h.connections))
            refl in
      let own =
        Counts-back a.front ((w, a.connection) ∷ a.back) h.ns
          (subst (λ t. Counts t h.ns) a.whole h.counts) in
      (
        value a.connection.info,
        rw (found, ◌>>=◌, node, ◌>>=◌, connected) refl,
        (a.connection, connected, own.1, refl),
      )

  -- `findThreadStreamInfo` in a consistent state returns without undefined behaviour: the stream of
  -- the thread's connection, which is open, or an error where the thread is not known.
  pub find_thread_stream_info-Answers :
      (id : ThreadId) (f : ThreadId → Option Iterator) (s : OtherServers ThreadId Info)
      → Consistent f s
      → Returns (find_thread_stream_info id s) (Answers (f id) s)
  unfolding find_thread_stream_info
  find_thread_stream_info-Answers id f s h = elim (locate id h.ns) [
    | inl (nowhere, absent) ↦ (
      error invalid_thread_id,
      rw (find-address_of id h.its h.ns s.threads h.threads, nowhere) refl,
      subst (λ o. Answers o s (error invalid_thread_id))
          (sym (content_of-Absent id h.ns absent) ∙ h.agrees id) refl,
    )
    | inr l ↦
        let (w, at, inside) =
          (Targets-at h.cs l.front l.address l.entry l.back
            (subst (Targets h.cs) l.whole h.targets)).0 in
        elim (serving w h.cs) [
          | inl out ↦ absurd (inside out)
          | inr a ↦
              subst (λ o. Returns (find_thread_stream_info id s) (Answers o s))
                (sym l.holds ∙ h.agrees id) (answer id f s h l w at a)
        ]
  ]

  -- `removeThreads` of a thread that is not known, in a consistent state, dereferences the end of the
  -- table, which is undefined behaviour.
  pub remove_thread-none :
      (id : ThreadId) (f : ThreadId → Option Iterator) (s : OtherServers ThreadId Info)
      → Consistent f s
      → f id ≡ none
      → remove_thread id s ≡ none
  unfolding remove_thread LinkedList.value_at
  remove_thread-none id f s h unknown = elim (locate id h.ns) [
    | inl (nowhere, absent) ↦ rw (find-address_of id h.its h.ns s.threads h.threads, nowhere) refl
    | inr l ↦ absurd (ground (arith, h.agrees id, unknown, l.holds))
  ]
