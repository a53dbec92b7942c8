-- ===== src/PeersServer/Sessions.antt =====
-- A hello and the goodbye of the same threads, at the server of Core/Common/ProcessPeersServer.cpp.
use mathlib.Core.Path.{subst, fun_ext}
use ziqe.Prelude.{
  ◌+◌, ◌<◌, ◌≡◌, ◌≢◌, refl, sym, ◌∙◌, ap, List, [], ◌∷◌, Option, none, some, Bool-cases, inl, inr,
  length,
}
use ziqe.Prelude.Fallible.{Returns}
use ziqe.Vector.{size_mod}
use ziqe.LinkedList.{Iterator}
use ziqe.HashTable
use ziqe.HashTable.{Hashing}
use ziqe.HashTable.Contents.{update, remove}
use ziqe.HashTable.Entries.{some-none}
use ziqe.Peers.Consistency.{Consistent}
use ziqe.Peers.Enrolling.{Differs, Apart, Unknown, update_all}
use ziqe.Peers.Joining.{add_threads-Consistent}
use ziqe.Peers.Histories.{Known, remove_all, remove_threads-Consistent}
use ziqe.PeersServer.{Server, on_hello_received, on_goodbye_received}

module _ {ℓ} {ThreadId : Type ℓ} ⦃hashing : Hashing ThreadId⦄ where
  -- Removing one key and entering another do not depend on their order.
  remove-update_other :
      (id k : ThreadId) (it : Iterator) (f : ThreadId → Option Iterator)
      → id ≢ k
      → remove id (update k it f) ≡ update k it (remove id f)
  unfolding remove update
  remove-update_other id k it f apart = fun_ext (λ j. elim (Bool-cases (hashing.is_equal id j)) [
    | inl eq ↦ elim (Bool-cases (hashing.is_equal k j)) [
      | inl eq' ↦
          absurd (apart ((hashing.is_equal_iff id j).0 eq ∙ sym ((hashing.is_equal_iff k j).0 eq')))
      | inr ne' ↦ rw (eq, ne') refl
    ]
    | inr ne ↦ rw ne refl
  ])

  remove-update_same :
      (id : ThreadId) (it : Iterator) (f : ThreadId → Option Iterator)
      → f id ≡ none
      → remove id (update id it f) ≡ f
  unfolding remove update
  remove-update_same id it f unknown = fun_ext (λ j. elim (Bool-cases (hashing.is_equal id j)) [
    | inl eq ↦ rw eq (sym (ap f (sym ((hashing.is_equal_iff id j).0 eq)) ∙ unknown))
    | inr ne ↦ rw ne refl
  ])

  remove-update_all :
      (id : ThreadId) (it : Iterator) (ids : List ThreadId) (f : ThreadId → Option Iterator)
      → Differs id ids
      → remove id (update_all ids it f) ≡ update_all ids it (remove id f)
  unfolding update_all
  remove-update_all id it [] f differ = refl
  remove-update_all id it (k ∷ ids) f differ =
      remove-update_all id it ids (update k it f) differ.1
      ∙ ap (update_all ids it) (remove-update_other id k it f differ.0)

  -- An id that another one differs from stays unknown when that is entered and removed again.
  remove_all-update_all :
      (it : Iterator) (ids : List ThreadId) (f : ThreadId → Option Iterator)
      → Apart ids
      → Unknown f ids
      → remove_all ids (update_all ids it f) ≡ f
  unfolding update_all remove_all
  remove_all-update_all it [] f apart unknown = refl
  remove_all-update_all it (id ∷ ids) f apart unknown =
      ap (remove_all ids) (
        remove-update_all id it ids (update id it f) apart.0
        ∙ ap (update_all ids it) (remove-update_same id it f unknown.0))
      ∙ remove_all-update_all it ids f apart.1 unknown.1

  update_all_keeps :
      (it : Iterator) (ids : List ThreadId) (f : ThreadId → Option Iterator) (k : ThreadId)
      → f k ≢ none
      → update_all ids it f k ≢ none
  unfolding update_all update
  update_all_keeps it [] f k known = known
  update_all_keeps it (id ∷ ids) f k known =
      update_all_keeps it ids (update id it f) k (elim (Bool-cases (hashing.is_equal id k)) [
        | inl eq ↦ rw eq (some-none it)
        | inr ne ↦ rw ne known
      ])

  update_all-Known :
      (it : Iterator) (ids : List ThreadId) (f : ThreadId → Option Iterator)
      → Known (update_all ids it f) ids
  unfolding update_all update
  update_all-Known it [] f = tt
  update_all-Known it (id ∷ ids) f =
      let entered : update id it f id ≡ some it = rw ((hashing.is_equal_iff id id).1 refl) refl in
      (
        update_all_keeps it ids (update id it f) id (λ e. some-none it (sym entered ∙ e)),
        update_all-Known it ids (update id it f),
      )

module _ {ℓ κ} {ThreadId : Type ℓ} {Info : Type 0} {Thread : Type κ}
    ⦃hashing : Hashing ThreadId⦄ where
  -- A hello of new threads, at least one and all different, where there is room, and then a goodbye
  -- of the same threads, run without undefined behaviour: the other servers are consistent again with
  -- the map from threads to connections that they had before.
  pub on_goodbye-on_hello :
      (info : Info) (ids : List ThreadId) (f : ThreadId → Option Iterator)
      (s : Server ThreadId Info Thread)
      → Consistent f s.other_servers
      → Apart ids
      → Unknown f ids
      → 0 < length ids
      → HashTable.size s.other_servers.threads + length ids < size_mod
      → s.other_servers.connections.list.size + 1 < size_mod
      → Returns
          (on_hello_received info ids s)
          (λ u. Returns (on_goodbye_received ids u) (λ w. Consistent f w.other_servers))
  unfolding on_hello_received on_goodbye_received
  on_goodbye-on_hello info ids f s h apart unknown some_ids room few =
      let it : Iterator = some s.other_servers.connections.heap.next_free in
      let (servers, run, joined) =
        add_threads-Consistent ids info f s.other_servers h apart unknown some_ids room few in
      let (servers', run', left) =
        remove_threads-Consistent ids (update_all ids it f) servers joined apart
          (update_all-Known it ids f) in
      (
        record s { other_servers = servers },
        rw run refl,
        (
          record s { other_servers = servers' },
          rw run' refl,
          subst (λ g. Consistent g servers') (remove_all-update_all it ids f apart unknown) left,
        ),
      )
