-- ===== src/Peers/Enrolling.antt =====
-- The loop of `addThreads` of Core/Common/ProcessPeersServer.hpp.
use mathlib.Core.Path.{subst, fun_ext}
use ziqe.Prelude.{
  ℕ, ◌+◌, ◌<◌, ◌≡◌, ◌≢◌, refl, sym, ◌∙◌, ap, List, [], ◌∷◌, ◌++◌, Option, none, some, if◌then◌else◌,
  length, arith, inl, inr, length-append,
}
use ziqe.Prelude.Fallible.{◌>>=◌, Returns}
use ziqe.Vector.{size_mod}
use ziqe.LinkedList.{Iterator}
use ziqe.LinkedList.Cells.{Outside}
use ziqe.HashTable
use ziqe.HashTable.{Hashing, Entry, Table}
use ziqe.HashTable.Lookup.{Valid, Absent}
use ziqe.HashTable.Entries.{Absent-insert}
use ziqe.HashTable.Assignment.{set_content-Valid}
use ziqe.HashTable.Map.{insert-Absent}
use ziqe.HashTable.Contents.{content_of, update, content_of-middle, locate, address_of-Absent}
use ziqe.Peers.{Connection, enroll}
use ziqe.Peers.References.{
  points, points_same, points_other, refs, refs-middle, Targets, Targets-insert,
}

module _ {ℓ} {ThreadId : Type ℓ} where
  -- The ids are all different.
  abbrev pub Differs : ThreadId → List ThreadId → Type ℓ
  Differs id [] = Unit
  Differs id (k ∷ ids) = (id ≢ k) × Differs id ids

  abbrev pub Apart : List ThreadId → Type ℓ
  Apart [] = Unit
  Apart (id ∷ ids) = Differs id ids × Apart ids

  -- The map has nothing at any of the ids.
  abbrev pub Unknown : (ThreadId → Option Iterator) → List ThreadId → Type 0
  Unknown f [] = Unit
  Unknown f (id ∷ ids) = (f id ≡ none) × Unknown f ids

module _ {ℓ} {ThreadId : Type ℓ} ⦃hashing : Hashing ThreadId⦄ where
  abbrev pub Absents : List ThreadId → List (ℕ × Entry ThreadId Iterator) → Type ℓ
  Absents [] ns = Unit
  Absents (id ∷ ids) ns = Absent id ns × Absents ids ns

  Absents-insert :
      (ids : List ThreadId) (q : ℕ) (e : Entry ThreadId Iterator)
      (ms ns : List (ℕ × Entry ThreadId Iterator))
      → Differs e.key ids
      → Absents ids (ms ++ ns)
      → Absents ids (ms ++ (q, e) ∷ ns)
  Absents-insert [] q e ms ns differ absents = tt
  Absents-insert (id ∷ ids) q e ms ns differ absents = (
    Absent-insert id q e ms ns differ.0 absents.0,
    Absents-insert ids q e ms ns differ.1 absents.1,
  )

  pub Unknown-Absents :
      (f : ThreadId → Option Iterator) (ns : List (ℕ × Entry ThreadId Iterator))
      (ids : List ThreadId)
      → ((k : ThreadId) → content_of k ns ≡ f k)
      → Unknown f ids
      → Absents ids ns
  Unknown-Absents f ns [] agrees unknown = tt
  Unknown-Absents f ns (id ∷ ids) agrees unknown =
      let rest = Unknown-Absents f ns ids agrees unknown.1 in
      elim (locate id ns) [
        | inl (nowhere, absent) ↦ (absent, rest)
        | inr l ↦ absurd (ground (arith, agrees id, unknown.0, l.holds))
      ]

  -- The map with all the ids at one connection.
  unfoldable pub update_all :
      List ThreadId → Iterator → (ThreadId → Option Iterator) → ThreadId → Option Iterator
  update_all [] it f = f
  update_all (id ∷ ids) it f = update_all ids it (update id it f)

  -- The table after one id has been entered for it.
  record Entered (id : ThreadId) (q : ℕ) (ns : List (ℕ × Entry ThreadId Iterator))
      (t : Table ThreadId Iterator) : Type ℓ where
    address : ℕ
    grown : Table ThreadId Iterator
    entered : Table ThreadId Iterator
    entry_run : HashTable.entry_of id none t ≡ some (address, grown)
    content_run : HashTable.set_content address (some q) grown ≡ some entered
    its : List Iterator
    front : List (ℕ × Entry ThreadId Iterator)
    entry : Entry ThreadId Iterator
    back : List (ℕ × Entry ThreadId Iterator)
    whole : ns ≡ front ++ back
    keyed : entry.key ≡ id
    refers : entry.content ≡ some q
    valid : Valid its (front ++ (address, entry) ∷ back) entered

  enter :
      (id : ThreadId) (q : ℕ) (its : List Iterator) (ns : List (ℕ × Entry ThreadId Iterator))
      (t : Table ThreadId Iterator)
      → Valid its ns t
      → Absent id ns
      → length ns + 1 < size_mod
      → Entered id q ns t
  unfolding HashTable.entry_of
  enter id q its ns t v absent room =
      let (index, (r, run, (added, g))) =
        insert-Absent id none its ns t v (address_of-Absent id ns absent) absent room in
      let e : Entry ThreadId Iterator = record { key = id; content = none; table_index = index } in
      let (t', run', v') = set_content-Valid (some q) g.its g.front g.fresh e g.back r.1 g.valid in
      record {
        address = g.fresh;
        grown = r.1;
        entered = t';
        entry_run = rw (run, ◌>>=◌, g.fresh_iterator) refl;
        content_run = run';
        its = g.its;
        front = g.front;
        entry = record e { content = some q };
        back = g.back;
        whole = g.whole;
        keyed = refl;
        refers = refl;
        valid = v';
      }

  -- The contents after one id has been entered.
  Entered-content_of :
      (id : ThreadId) (q : ℕ) (ns : List (ℕ × Entry ThreadId Iterator))
      (t : Table ThreadId Iterator) (e : Entered id q ns t)
      → Absent id ns
      → (λ k. content_of k (e.front ++ (e.address, e.entry) ∷ e.back))
        ≡ update id (some q) (λ k. content_of k ns)
  unfolding update
  Entered-content_of id q ns t e absent =
      let absent' =
        subst (λ i. Absent i (e.front ++ e.back)) (sym e.keyed)
          (subst (Absent id) e.whole absent) in
      fun_ext (λ k.
        content_of-middle k e.front e.address e.entry e.back absent'
        ∙ (ap (λ i. update i e.entry.content (λ j. content_of j (e.front ++ e.back)) k) e.keyed
            ∙ (ap (λ c. update id c (λ j. content_of j (e.front ++ e.back)) k) e.refers
                ∙ ap (λ o. if hashing.is_equal id k then some (some q) else o)
                    (ap (content_of k) (sym e.whole)))))

module _ {ℓ} {ThreadId : Type ℓ} {Info : Type 0} ⦃hashing : Hashing ThreadId⦄ where
  -- The table after the ids have been entered for the connection at `q`.
  pub record Enrolled (cs : List (ℕ × Connection Info)) (ids : List ThreadId) (q : ℕ)
      (ns : List (ℕ × Entry ThreadId Iterator)) (t : Table ThreadId Iterator) : Type ℓ where
    pub its : List Iterator
    pub entries : List (ℕ × Entry ThreadId Iterator)
    pub valid : Valid its entries t
    pub own : refs q entries ≡ length ids + refs q ns
    pub others : (c : ℕ) → c ≢ q → refs c entries ≡ refs c ns
    pub agrees : (λ k. content_of k entries) ≡ update_all ids (some q) (λ k. content_of k ns)
    pub targets : Targets cs ns → Targets cs entries

  pub enroll-Enrolled :
      (cs : List (ℕ × Connection Info)) (ids : List ThreadId) (q : ℕ) (its : List Iterator)
      (ns : List (ℕ × Entry ThreadId Iterator)) (t : Table ThreadId Iterator)
      → Valid its ns t
      → Absents ids ns
      → Apart ids
      → length ns + length ids < size_mod
      → (Outside q cs → ⊥)
      → Returns (enroll ids (some q) t) (Enrolled cs ids q ns)
  unfolding enroll update_all
  enroll-Enrolled cs [] q its ns t v absents apart room inside = (
    t,
    refl,
    record {
      its = its;
      entries = ns;
      valid = v;
      own = omega arith;
      others = λ c apart. refl;
      targets = λ targets. targets;
      agrees = refl;
    },
  )
  enroll-Enrolled cs (id ∷ ids) q its ns t v absents apart room inside =
      let e = enter id q its ns t v absents.0 (omega (arith, room)) in
      let ns' = e.front ++ (e.address, e.entry) ∷ e.back in
      let absents' =
        Absents-insert ids e.address e.entry e.front e.back
          (subst (λ i. Differs i ids) (sym e.keyed) apart.0)
          (subst (Absents ids) e.whole absents.1) in
      let longer = length-append e.front ((e.address, e.entry) ∷ e.back) in
      let (u, run, rest) =
        enroll-Enrolled cs ids q e.its ns' e.entered e.valid absents' apart.1
          (omega (arith, room, longer, ap length e.whole, length-append e.front e.back)) inside in
      let counted = (λ (c : ℕ). refs-middle c e.front e.address e.entry e.back) in
      (
        u,
        rw (e.entry_run, ◌>>=◌, e.content_run) run,
        record {
          its = rest.its;
          entries = rest.entries;
          valid = rest.valid;
          own = omega (
            arith,
            rest.own,
            counted q,
            ap (λ it. points it q) e.refers,
            points_same q,
            ap (refs q) e.whole,
          );
          others = λ c other. omega (
            arith,
            rest.others c other,
            counted c,
            ap (λ it. points it c) e.refers,
            points_other q c other,
            ap (refs c) e.whole,
          );
          targets = λ targets. rest.targets (
              Targets-insert cs e.front e.address e.entry e.back (q, e.refers, inside)
                (subst (Targets cs) e.whole targets));
          agrees =
              rest.agrees ∙ ap (update_all ids (some q)) (Entered-content_of id q ns t e absents.0);
        },
      )
