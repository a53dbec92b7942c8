-- ===== src/HashTable/Renewal.antt =====
-- The table of Base/HashTable.hpp when the first entry of a table index is erased.
use mathlib.Core.Path.{subst}
use ziqe.Prelude.{
  ℕ, ◌≡◌, ◌≢◌, refl, sym, ◌∙◌, ap, List, [], ◌∷◌, ◌++◌, none, some, false, ==_iff, inl, inr, ◌⊎◌,
  append_nil,
}
use ziqe.Prelude.Fallible.{◌>>=◌}
use ziqe.Vector
use ziqe.Vector.{size_mod}
use ziqe.LinkedList.{Iterator, same}
use ziqe.LinkedList.Cells.{last, Outside, Distinct}
use ziqe.LinkedList.Sequence.{Represents, node_at, last-append, last_cases}
use ziqe.LinkedList.Erasure.{after_erase}
use ziqe.HashTable.{Hashing, Entry, Table, update_erase_first}
use ziqe.HashTable.Groups.{
  Past, past_end, past_other, Inside, inside_more, inside_end, inside_past, Grouped, nowhere, later,
  here, Past-Grouped, Past-append, First-Grouped,
}
use ziqe.HashTable.Lookup.{not_index}
use ziqe.HashTable.Entries.{some_injective, some-none, index_cases}

-- Whether an iterator is the address `p`.
pub same_cases :
    (it : Iterator) (p : ℕ) → (it ≡ some p) ⊎ ((it ≢ some p) × (same it (some p) ≡ false))
same_cases none p = inr (λ e. some-none p (sym e), refl)
same_cases (some q) p = elim (index_cases q p) [
  | inl eq ↦ inl (ap some eq)
  | inr apart ↦ inr (λ e. apart (some_injective q p e), not_index q p apart)
]

module _ {ℓ κ} {K : Type ℓ} {V : Type κ} where
  Outside-Grouped : (i p : ℕ) (ns : List (ℕ × Entry K V)) → Outside p ns → Grouped i ns (some p) → ⊥
  Outside-Grouped i p _ out (later q e ns _ apart g) = Outside-Grouped i p ns out.1 g
  Outside-Grouped i p _ out (here _ e ns in_group group) = out.0 refl

  Outside-middle :
      (p : ℕ) (d : Entry K V) (ms ns : List (ℕ × Entry K V)) → Outside p (ms ++ (p, d) ∷ ns) → ⊥
  Outside-middle p d [] ns out = out.0 refl
  Outside-middle p d ((r, c) ∷ ms) ns out = Outside-middle p d ms ns out.1

  -- The list around the entry that the iterator of an index points to.
  pub Grouped-at :
      (i p : ℕ) (e : Entry K V) (ms ns : List (ℕ × Entry K V))
      → Distinct (ms ++ (p, e) ∷ ns)
      → (it : Iterator) → it ≡ some p
      → Grouped i (ms ++ (p, e) ∷ ns) it
      → Past i ms × (e.table_index ≡ i) × Inside i ns
  Grouped-at i p e [] ns apart it eq (later _ _ _ _ out g) =
      absurd (Outside-Grouped i p ns apart.0 (subst (Grouped i ns) eq g))
  Grouped-at i p e [] ns apart _ eq (here _ _ _ in_group group) = (past_end, in_group, group)
  Grouped-at i p e ((r, c) ∷ ms) ns apart it eq (later _ _ _ _ out g) =
      let at = Grouped-at i p e ms ns apart.1 it eq g in (past_other r c ms out at.0, at.1, at.2)
  Grouped-at i p e ((r, c) ∷ ms) ns apart _ eq (here _ _ _ in_group group) = absurd (
      Outside-middle p e ms ns
        (subst (λ a. Outside a (ms ++ (p, e) ∷ ns)) (some_injective r p eq) apart.0))

  Past-last :
      (i p : ℕ) (e : Entry K V) (ms : List (ℕ × Entry K V))
      → Past i (ms ++ (p, e) ∷ [])
      → e.table_index ≢ i
  Past-last i p e [] (past_other _ _ _ out rest) = out
  Past-last i p e ((r, c) ∷ ms) (past_other _ _ _ out rest) = Past-last i p e ms rest

module _ {ℓ κ} {K : Type ℓ} {V : Type κ} ⦃hashing : Hashing K⦄ where
  -- What the table holds for an index when the first entry of the index has been erased.
  pub record Renewed (index : ℕ) (ms ns : List (ℕ × Entry K V)) (t : Table K V) (next : Iterator)
      : Type (ℓ ⊔ κ) where
    pub renewed : Iterator
    pub grouped : Grouped index (ms ++ ns) renewed
    pub update_run :
        update_erase_first index next t
        ≡ (Vector.put t.table index renewed >>= λ v. some (record t { table = v }))

  pub renew :
      (index : ℕ) (ms ns : List (ℕ × Entry K V)) (t : Table K V)
      → Represents (ms ++ ns) t.keys
      → Past index ms
      → Inside index ns
      → Renewed index ms ns t (after_erase ms ns)
  unfolding update_erase_first
  renew index ms _ t r past (inside_more q z qs in_group group) =
      let node = node_at ms q z qs t.keys r in
      record {
        renewed = some q;
        grouped = First-Grouped index q z ms qs past in_group group;
        update_run = rw (node, ◌>>=◌, (==_iff z.table_index index).1 in_group) refl;
      }
  renew index ms _ t r past (inside_past q z qs out rest) =
      let node = node_at ms q z qs t.keys r in
      record {
        renewed = none;
        grouped =
            Past-append index ms ((q, z) ∷ qs) none past
              (Past-Grouped index ((q, z) ∷ qs) (past_other q z qs out rest));
        update_run = rw (node, ◌>>=◌, not_index z.table_index index out) refl;
      }
  renew index ms _ t r past inside_end = elim (last_cases ms) [
    | inl e ↦
        subst (λ s. Renewed index s [] t (last none s)) (sym e)
          (record { renewed = none; grouped = nowhere; update_run = refl })
    | inr (ls, v, u, e) ↦
        let past' = subst (Past index) e past in
        let node =
          node_at ls v u [] t.keys (subst (λ s. Represents s t.keys) (append_nil ms ∙ e) r) in
        let run : update_erase_first index (some v) t
            ≡ (Vector.put t.table index none >>= λ v. some (record t { table = v })) =
          rw (node, ◌>>=◌, not_index u.table_index index (Past-last index v u ls past')) refl in
        subst (λ s. Renewed index s [] t (last none s)) (sym e)
          (record {
            renewed = none;
            grouped = Past-append index (ls ++ (v, u) ∷ []) [] none past' nowhere;
            update_run =
                subst
                  (λ it.
                    update_erase_first index it t
                    ≡ (Vector.put t.table index none >>= λ v. some (record t { table = v })))
                  (sym (last-append none ls ((v, u) ∷ []))) run;
          })
  ]
