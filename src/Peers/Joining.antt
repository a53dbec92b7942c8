-- ===== src/Peers/Joining.antt =====
-- `addThreads` of Core/Common/ProcessPeersServer.hpp.
use mathlib.Core.Path.{subst, fun_ext}
use ziqe.Prelude.{
  ℕ, ◌+◌, ◌<◌, ◌≡◌, refl, ◌∙◌, ap, List, [], ◌∷◌, ◌++◌, Option, none, some, length, arith,
  length-append,
}
use ziqe.Prelude.Fallible.{◌>>=◌, Returns}
use ziqe.Vector.{size_mod}
use ziqe.LinkedList.{Iterator}
use ziqe.LinkedList.Cells.{Outside, Linked-Outside}
use ziqe.LinkedList.Sequence.{Outside-front, last-append}
use ziqe.LinkedList.Cut.{Outside-rest}
use ziqe.LinkedList.Insertion.{emplace_back-Represents}
use ziqe.HashTable
use ziqe.HashTable.{Hashing, Entry, Table}
use ziqe.Peers.{Connection, OtherServers, enroll, add_threads}
use ziqe.Peers.Consistency.{Consistent}
use ziqe.Peers.References.{
  points, points_other, refs, Counts-join, Counts-others, Targets, Targets-grow,
}
use ziqe.Peers.Enrolling.{Apart, Unknown, Unknown-Absents, update_all, enroll-Enrolled}

module _ {Info : Type 0} where
  Outside-last :
      (q : ℕ) (x : Connection Info) (cs : List (ℕ × Connection Info))
      → Outside q (cs ++ (q, x) ∷ [])
      → ⊥
  Outside-last q x cs out = (Outside-rest q cs ((q, x) ∷ []) out).0 refl

module _ {ℓ} {ThreadId : Type ℓ} {Info : Type 0} ⦃hashing : Hashing ThreadId⦄ where
  -- Nothing refers to an address that is none of the connections'.
  refs-Targets :
      (q : ℕ) (cs : List (ℕ × Connection Info)) (ns : List (ℕ × Entry ThreadId Iterator))
      → Outside q cs
      → Targets cs ns
      → refs q ns ≡ 0
  unfolding refs
  refs-Targets q cs [] out targets = refl
  refs-Targets q cs ((p, e) ∷ ns) out ((c, at, inside), rest) =
      let apart = (λ (same_address : q ≡ c). inside (subst (λ a. Outside a cs) same_address out)) in
      omega
        (arith, refs-Targets q cs ns out rest, ap (λ it. points it q) at, points_other c q apart)

  -- `addThreads` of at least one thread keeps the state consistent, where the ids are all different
  -- and unknown so far and there is room for them: the threads are entered for one new connection,
  -- which counts them.
  pub add_threads-Consistent :
      (ids : List ThreadId) (info : Info) (f : ThreadId → Option Iterator)
      (s : OtherServers ThreadId Info)
      → Consistent f s
      → Apart ids
      → Unknown f ids
      → 0 < length ids
      → HashTable.size s.threads + length ids < size_mod
      → s.connections.list.size + 1 < size_mod
      → Returns
          (add_threads ids info s)
          (Consistent (update_all ids (some s.connections.heap.next_free) f))
  unfolding add_threads HashTable.size
  add_threads-Consistent ids info f s h apart unknown some_ids room few =
      let q = s.connections.heap.next_free in
      let x : Connection Info = record { info = info; reference_count = length ids } in
      let cs = h.cs ++ (q, x) ∷ [] in
      let outside = Linked-Outside s.connections.heap none none h.cs h.connections.chain in
      let inside = Outside-last q x h.cs in
      let unused = refs-Targets q h.cs h.ns outside h.targets in
      let (r, run, added) =
        emplace_back-Represents x h.cs s.connections h.connections
          (omega (arith, few, h.connections.counted)) in
      let at_end : r.1.list.before_end ≡ some q =
        added.1.ends ∙ last-append none h.cs ((q, x) ∷ []) in
      let (t, run', e) =
        enroll-Enrolled cs ids q h.its h.ns s.threads h.threads
          (Unknown-Absents f h.ns ids h.agrees unknown) apart
          (omega (arith, room, h.threads.keys.counted)) inside in
      let enrolled : enroll ids r.1.list.before_end s.threads ≡ some t =
        ap (λ it. enroll ids it s.threads) at_end ∙ run' in
      (
        record { connections = r.1; threads = t },
        rw (run, ◌>>=◌, enrolled) refl,
        record {
          its = e.its;
          ns = e.entries;
          cs = cs;
          threads = e.valid;
          connections = added.1;
          counts =
              Counts-join h.cs ((q, x) ∷ []) e.entries
                (Counts-others q h.cs h.ns e.entries outside e.others h.counts)
                (omega (arith, e.own, unused), some_ids, tt);
          targets = e.targets (
              Targets-grow h.cs cs h.ns (λ c out. Outside-front c h.cs ((q, x) ∷ []) out)
                h.targets);
          few = omega (arith, few, h.connections.counted, length-append h.cs ((q, x) ∷ []));
          agrees = λ k. ap (λ g. g k) (e.agrees ∙ ap (update_all ids (some q)) (fun_ext h.agrees));
        },
      )
