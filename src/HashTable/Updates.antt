-- ===== src/HashTable/Updates.antt =====
-- Assignment and removal in Base/HashTable.hpp as operations of a map.
use mathlib.Core.Path.{subst}
use ziqe.Prelude.{
  ℕ, ◌+◌, ◌-◌, ◌<◌, ◌≡◌, refl, sym, ◌∙◌, ap, ◌∷◌, ◌++◌, Option, none, some, if◌then◌else◌, inl, inr,
  arith, length-append,
}
use ziqe.Prelude.Fallible.{◌>>=◌, Returns}
use ziqe.Vector.{size_mod}
use ziqe.LinkedList.{Iterator}
use ziqe.HashTable.{Hashing, Entry, Table, size, insert_or_assign, erase, entry_of, set_content}
use ziqe.HashTable.Lookup.{Valid, find-address_of}
use ziqe.HashTable.Removal.{Shrunk, erase_at-Shrunk}
use ziqe.HashTable.Contents.{
  content_of, update, remove, content_of-Absent, Unique-Absent, content_of-assign, remove_nothing,
  content_of-Located, Located, locate,
}
use ziqe.HashTable.Assignment.{set_content-Valid}
use ziqe.HashTable.Map.{
  Holds, Finds, value_at-Finds, locate-Finds, Grown-Holds, insert-Absent, insert_present,
}

-- The size after a key is put in, and after it is taken out.
abbrev pub size_with {κ} : {V : Type κ} → Option V → ℕ → ℕ
size_with none n = n + 1
size_with (some d) n = n

abbrev pub size_without {κ} : {V : Type κ} → Option V → ℕ → ℕ
size_without none n = n
size_without (some d) n = n - 1

module _ {ℓ κ} {K : Type ℓ} {V : Type κ} ⦃hashing : Hashing K⦄ where
  pub set_content-Holds :
      (key : K) (c : V) (f : K → Option V) (t : Table K V) (h : Holds f t) (l : Located key h.ns)
      → Returns (set_content l.address c t) (λ u.
        Finds key (some c) (some l.address) u × Holds (update key c f) u × (size u ≡ size t))
  unfolding update size
  set_content-Holds key c f t h l =
      let e' : Entry K V = record l.entry { content = c } in
      let v = subst (λ s. Valid h.its s t) l.whole h.valid in
      let absent = Unique-Absent l.front l.address l.entry l.back v.unique in
      let (u, run, valid) = set_content-Valid c h.its l.front l.address l.entry l.back t v in
      (
        u,
        run,
        (
          value_at-Finds key c h.its l.front l.address e' l.back u valid l.keyed refl,
          record {
            its = h.its;
            ns = l.front ++ (l.address, e') ∷ l.back;
            valid = valid;
            agrees = λ k.
                content_of-assign k l.front l.address l.entry c l.back absent
                ∙ (ap
                      (λ j.
                        update j c (λ i. content_of i (l.front ++ (l.address, l.entry) ∷ l.back)) k)
                      l.keyed
                    ∙ ap (λ o. if hashing.is_equal key k then some c else o)
                        (ap (content_of k) (sym l.whole) ∙ h.agrees k));
          },
          omega (
            arith,
            v.keys.counted,
            valid.keys.counted,
            length-append l.front ((l.address, l.entry) ∷ l.back),
            length-append l.front ((l.address, e') ∷ l.back),
          ),
        ),
      )

  -- `insertOrAssign` on a table that holds a map and has fewer than `2 ^ 64 - 1` entries returns,
  -- without undefined behaviour, the iterator to the entry of the key with the new content, and the
  -- table holds the updated map. The size grows by one where the map had nothing at the key.
  pub insert_or_assign-Holds :
      (key : K) (c : V) (f : K → Option V) (t : Table K V)
      → Holds f t
      → size t + 1 < size_mod
      → Returns (insert_or_assign key c t) (λ r.
        Finds key (some c) r.0 r.1
        × Holds (update key c f) r.1
        × (size r.1 ≡ size_with (f key) (size t)))
  unfolding insert_or_assign size
  insert_or_assign-Holds key c f t h room = elim (locate key h.ns) [
    | inl (nowhere, absent) ↦
        let (index, (r, run, made)) =
          insert-Absent key c h.its h.ns t h.valid nowhere absent
            (omega (arith, room, h.valid.keys.counted)) in
        let g = Grown-Holds key c index f t h (r.0.1, r.1) absent made.1 in
        (
          (r.0.1, r.1),
          rw (run, ◌>>=◌, made.0) refl,
          subst
              (λ o.
                Finds key (some c) r.0.1 r.1
                × Holds (update key c f) r.1
                × (size r.1 ≡ size_with o (size t)))
              (sym (content_of-Absent key h.ns absent) ∙ h.agrees key) (g.0, g.1, g.2),
        )
    | inr l ↦
        let (u, run, g) = set_content-Holds key c f t h l in
        (
          (some l.address, u),
          rw (insert_present key c h.its h.ns t l.address h.valid l.addressed, ◌>>=◌, run) refl,
          subst
              (λ o.
                Finds key (some c) (some l.address) u
                × Holds (update key c f) u
                × (size u ≡ size_with o (size t)))
              (sym l.holds ∙ h.agrees key) (g.0, g.1, g.2),
        )
  ]

  Shrunk-Holds :
      (key : K) (f : K → Option V) (t : Table K V) (h : Holds f t) (l : Located key h.ns)
      (r : Iterator × Table K V)
      → Shrunk l.front l.back r
      → Holds (remove key f) r.1 × (size r.1 ≡ size t - 1)
  unfolding size
  Shrunk-Holds key f t h l r s =
      let v = subst (λ s. Valid h.its s t) l.whole h.valid in
      (
        record {
          its = s.its;
          ns = l.front ++ l.back;
          valid = s.valid;
          agrees = content_of-Located key f h.ns l h.valid.unique h.agrees;
        },
        omega (
          arith,
          v.keys.counted,
          s.valid.keys.counted,
          length-append l.front l.back,
          length-append l.front ((l.address, l.entry) ∷ l.back),
        ),
      )

  -- `erase` of a key on a table that holds a map returns without undefined behaviour, and the table
  -- holds the map without the key. The size shrinks by one where the map had something at the key.
  pub erase-Holds :
      (key : K) (f : K → Option V) (t : Table K V)
      → Holds f t
      → Returns
          (erase key t)
          (λ r. Holds (remove key f) r.1 × (size r.1 ≡ size_without (f key) (size t)))
  unfolding erase
  erase-Holds key f t h =
      let found = find-address_of key h.its h.ns t h.valid in
      elim (locate key h.ns) [
        | inl (nowhere, absent) ↦
            let at = sym (h.agrees key) ∙ content_of-Absent key h.ns absent in
            (
              (none, t),
              rw (found, nowhere) refl,
              (
                record {
                  its = h.its;
                  ns = h.ns;
                  valid = h.valid;
                  agrees = λ k. h.agrees k ∙ remove_nothing key f at k;
                },
                subst (λ o. size t ≡ size_without o (size t)) (sym at) refl,
              ),
            )
        | inr l ↦
            let (r, run, shrunk) =
              erase_at-Shrunk h.its l.front l.address l.entry l.back t
                (subst (λ s. Valid h.its s t) l.whole h.valid) in
            let taken = Shrunk-Holds key f t h l r shrunk in
            (
              r,
              rw (found, l.addressed, ◌>>=◌, run) refl,
              (
                taken.0,
                subst (λ o. size r.1 ≡ size_without o (size t)) (sym l.holds ∙ h.agrees key)
                    taken.1,
              ),
            )
      ]

  -- `operator[]` on such a table returns the entry of the key, which has the content of the map, or
  -- the default value where the map has nothing there: the table then holds that value at the key.
  pub entry_of-Holds :
      (key : K) (d : V) (f : K → Option V) (t : Table K V)
      → Holds f t
      → size t + 1 < size_mod
      → Returns (entry_of key d t) (λ r.
        Finds key (some (elim (f key) [ none ↦ d | some c ↦ c ])) (some r.0) r.1
        × Holds (elim (f key) [ none ↦ update key d f | some c ↦ f ]) r.1)
  unfolding entry_of size
  entry_of-Holds key d f t h room = elim (locate key h.ns) [
    | inl (nowhere, absent) ↦
        let (index, (r, run, made)) =
          insert-Absent key d h.its h.ns t h.valid nowhere absent
            (omega (arith, room, h.valid.keys.counted)) in
        let g = Grown-Holds key d index f t h (r.0.1, r.1) absent made.1 in
        (
          (made.1.fresh, r.1),
          rw (run, ◌>>=◌, made.1.fresh_iterator) refl,
          subst
              (λ o.
                Finds key (some (elim o [ none ↦ d | some c ↦ c ])) (some made.1.fresh) r.1
                × Holds (elim o [ none ↦ update key d f | some c ↦ f ]) r.1)
              (sym (content_of-Absent key h.ns absent) ∙ h.agrees key)
              (subst (λ it. Finds key (some d) it r.1) made.1.fresh_iterator g.0, g.1),
        )
    | inr l ↦ (
      (l.address, t),
      rw (insert_present key d h.its h.ns t l.address h.valid l.addressed, ◌>>=◌) refl,
      subst
          (λ o.
            Finds key (some (elim o [ none ↦ d | some c ↦ c ])) (some l.address) t
            × Holds (elim o [ none ↦ update key d f | some c ↦ f ]) t)
          (sym l.holds ∙ h.agrees key) (locate-Finds key f t h l, h),
    )
  ]
