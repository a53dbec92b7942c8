-- ===== src/HashTable/Groups.antt =====
-- How the entries of Base/HashTable.hpp lie in the list of keys: those of one table index together.
use ziqe.Prelude.{ℕ, ◌≡◌, ◌≢◌, refl, ap, List, [], ◌∷◌, ◌++◌, none, some}
use ziqe.LinkedList.{Iterator}
use ziqe.HashTable.{Entry}

-- No entry of the index `i`; entries of the index `i` and then none; none, and then those of `i`,
-- the first of which is at the iterator, or nowhere.
pub data Past {ℓ κ} {K : Type ℓ} {V : Type κ} (i : ℕ) : List (ℕ × Entry K V) → Type (ℓ ⊔ κ) where
  past_end : Past i []
  past_other :
      (p : ℕ) (e : Entry K V) (ns : List (ℕ × Entry K V))
      → e.table_index ≢ i
      → Past i ns
      → Past i ((p, e) ∷ ns)

pub data Inside {ℓ κ} {K : Type ℓ} {V : Type κ} (i : ℕ) : List (ℕ × Entry K V) → Type (ℓ ⊔ κ) where
  inside_more :
      (p : ℕ) (e : Entry K V) (ns : List (ℕ × Entry K V))
      → e.table_index ≡ i
      → Inside i ns
      → Inside i ((p, e) ∷ ns)
  inside_end : Inside i []
  inside_past :
      (p : ℕ) (e : Entry K V) (ns : List (ℕ × Entry K V))
      → e.table_index ≢ i
      → Past i ns
      → Inside i ((p, e) ∷ ns)

pub data Grouped {ℓ κ} {K : Type ℓ} {V : Type κ} (i : ℕ)
    : List (ℕ × Entry K V) → Iterator → Type (ℓ ⊔ κ) where
  nowhere : Grouped i [] none
  later :
      (p : ℕ) (e : Entry K V) (ns : List (ℕ × Entry K V)) (it : Iterator)
      → e.table_index ≢ i
      → Grouped i ns it
      → Grouped i ((p, e) ∷ ns) it
  here :
      (p : ℕ) (e : Entry K V) (ns : List (ℕ × Entry K V))
      → e.table_index ≡ i
      → Inside i ns
      → Grouped i ((p, e) ∷ ns) (some p)

module _ {ℓ κ} {K : Type ℓ} {V : Type κ} where
  -- Nothing of an index is in a list whose iterator for it is null.
  pub Grouped-Past : (i : ℕ) (ns : List (ℕ × Entry K V)) → Grouped i ns none → Past i ns
  Grouped-Past i _ nowhere = past_end
  Grouped-Past i _ (later p e ns it out g) = past_other p e ns out (Grouped-Past i ns g)

  pub Past-Grouped : (i : ℕ) (ns : List (ℕ × Entry K V)) → Past i ns → Grouped i ns none
  Past-Grouped i _ past_end = nowhere
  Past-Grouped i _ (past_other p e ns out rest) = later p e ns none out (Past-Grouped i ns rest)

  -- The list around the first entry of an index.
  pub record First (i p : ℕ) (ns : List (ℕ × Entry K V)) : Type (ℓ ⊔ κ) where
    pub front : List (ℕ × Entry K V)
    pub entry : Entry K V
    pub back : List (ℕ × Entry K V)
    pub whole : ns ≡ front ++ (p, entry) ∷ back
    pub clear : Past i front
    pub indexed : entry.table_index ≡ i
    pub group : Inside i back

  pub Grouped-First : (i p : ℕ) (ns : List (ℕ × Entry K V)) → Grouped i ns (some p) → First i p ns
  Grouped-First i p _ (later q e ns it out g) =
      let f = Grouped-First i p ns g in
      record {
        front = (q, e) ∷ f.front;
        entry = f.entry;
        back = f.back;
        whole = ap (λ t. (q, e) ∷ t) f.whole;
        clear = past_other q e f.front out f.clear;
        indexed = f.indexed;
        group = f.group;
      }
  Grouped-First i p _ (here _ e ns in_group group) = record {
    front = [];
    entry = e;
    back = ns;
    whole = refl;
    clear = past_end;
    indexed = in_group;
    group = group;
  }

  -- A first entry behind entries of other indices.
  pub First-Grouped :
      (i p : ℕ) (e : Entry K V) (ms ns : List (ℕ × Entry K V))
      → Past i ms
      → e.table_index ≡ i
      → Inside i ns
      → Grouped i (ms ++ (p, e) ∷ ns) (some p)
  First-Grouped i p e _ ns past_end in_group group = here p e ns in_group group
  First-Grouped i p e _ ns (past_other q d ms out rest) in_group group =
      later q d (ms ++ (p, e) ∷ ns) (some p) out (First-Grouped i p e ms ns rest in_group group)

  -- An entry of another index can be put in behind an entry of that index, and taken out.
  Past-insert :
      (i p q : ℕ) (d e : Entry K V) (ms ns : List (ℕ × Entry K V))
      → e.table_index ≢ i
      → Past i (ms ++ (p, d) ∷ ns)
      → Past i (ms ++ (p, d) ∷ (q, e) ∷ ns)
  Past-insert i p q d e [] ns out (past_other _ _ _ out' rest) =
      past_other p d ((q, e) ∷ ns) out' (past_other q e ns out rest)
  Past-insert i p q d e ((r, c) ∷ ms) ns out (past_other _ _ _ out' rest) =
      past_other r c (ms ++ (p, d) ∷ (q, e) ∷ ns) out' (Past-insert i p q d e ms ns out rest)

  Inside-insert :
      (i p q : ℕ) (d e : Entry K V) (ms ns : List (ℕ × Entry K V))
      → d.table_index ≢ i
      → e.table_index ≢ i
      → Inside i (ms ++ (p, d) ∷ ns)
      → Inside i (ms ++ (p, d) ∷ (q, e) ∷ ns)
  Inside-insert i p q d e [] ns out_d out (inside_more _ _ _ same rest) = absurd (out_d same)
  Inside-insert i p q d e ((r, c) ∷ ms) ns out_d out (inside_more _ _ _ same rest) =
      inside_more r c (ms ++ (p, d) ∷ (q, e) ∷ ns) same
        (Inside-insert i p q d e ms ns out_d out rest)
  Inside-insert i p q d e [] ns out_d out (inside_past _ _ _ out' rest) =
      inside_past p d ((q, e) ∷ ns) out' (past_other q e ns out rest)
  Inside-insert i p q d e ((r, c) ∷ ms) ns out_d out (inside_past _ _ _ out' rest) =
      inside_past r c (ms ++ (p, d) ∷ (q, e) ∷ ns) out' (Past-insert i p q d e ms ns out rest)

  pub Grouped-insert :
      (i p q : ℕ) (d e : Entry K V) (ms ns : List (ℕ × Entry K V)) (it : Iterator)
      → d.table_index ≢ i
      → e.table_index ≢ i
      → Grouped i (ms ++ (p, d) ∷ ns) it
      → Grouped i (ms ++ (p, d) ∷ (q, e) ∷ ns) it
  Grouped-insert i p q d e [] ns it out_d out (later _ _ _ _ out' g) =
      later p d ((q, e) ∷ ns) it out' (later q e ns it out g)
  Grouped-insert i p q d e [] ns _ out_d out (here _ _ _ same group) = absurd (out_d same)
  Grouped-insert i p q d e ((r, c) ∷ ms) ns it out_d out (later _ _ _ _ out' g) =
      later r c (ms ++ (p, d) ∷ (q, e) ∷ ns) it out' (Grouped-insert i p q d e ms ns it out_d out g)
  Grouped-insert i p q d e ((r, c) ∷ ms) ns _ out_d out (here _ _ _ same group) =
      here r c (ms ++ (p, d) ∷ (q, e) ∷ ns) same (Inside-insert i p q d e ms ns out_d out group)

  -- The same for an entry at the end.
  pub Past-snoc :
      (i q : ℕ) (e : Entry K V) (ns : List (ℕ × Entry K V))
      → e.table_index ≢ i
      → Past i ns
      → Past i (ns ++ (q, e) ∷ [])
  Past-snoc i q e _ out past_end = past_other q e [] out past_end
  Past-snoc i q e _ out (past_other p d ns out' rest) =
      past_other p d (ns ++ (q, e) ∷ []) out' (Past-snoc i q e ns out rest)

  Inside-snoc :
      (i q : ℕ) (e : Entry K V) (ns : List (ℕ × Entry K V))
      → e.table_index ≢ i
      → Inside i ns
      → Inside i (ns ++ (q, e) ∷ [])
  Inside-snoc i q e _ out (inside_more p d ns same rest) =
      inside_more p d (ns ++ (q, e) ∷ []) same (Inside-snoc i q e ns out rest)
  Inside-snoc i q e _ out inside_end = inside_past q e [] out past_end
  Inside-snoc i q e _ out (inside_past p d ns out' rest) =
      inside_past p d (ns ++ (q, e) ∷ []) out' (Past-snoc i q e ns out rest)

  pub Grouped-snoc :
      (i q : ℕ) (e : Entry K V) (ns : List (ℕ × Entry K V)) (it : Iterator)
      → e.table_index ≢ i
      → Grouped i ns it
      → Grouped i (ns ++ (q, e) ∷ []) it
  Grouped-snoc i q e _ _ out nowhere = later q e [] none out nowhere
  Grouped-snoc i q e _ it out (later p d ns _ out' g) =
      later p d (ns ++ (q, e) ∷ []) it out' (Grouped-snoc i q e ns it out g)
  Grouped-snoc i q e _ _ out (here p d ns same group) =
      here p d (ns ++ (q, e) ∷ []) same (Inside-snoc i q e ns out group)

  -- Any entry can be taken out of entries of other indices.
  pub Past-delete :
      (i p : ℕ) (d : Entry K V) (ms ns : List (ℕ × Entry K V))
      → Past i (ms ++ (p, d) ∷ ns)
      → Past i (ms ++ ns)
  Past-delete i p d [] ns (past_other _ _ _ out rest) = rest
  Past-delete i p d ((r, c) ∷ ms) ns (past_other _ _ _ out rest) =
      past_other r c (ms ++ ns) out (Past-delete i p d ms ns rest)

  Past-Inside : (i : ℕ) (ns : List (ℕ × Entry K V)) → Past i ns → Inside i ns
  Past-Inside i _ past_end = inside_end
  Past-Inside i _ (past_other p e ns out rest) = inside_past p e ns out rest

  Inside-delete :
      (i p : ℕ) (d : Entry K V) (ms ns : List (ℕ × Entry K V))
      → Inside i (ms ++ (p, d) ∷ ns)
      → Inside i (ms ++ ns)
  Inside-delete i p d [] ns (inside_more _ _ _ same rest) = rest
  Inside-delete i p d [] ns (inside_past _ _ _ out rest) = Past-Inside i ns rest
  Inside-delete i p d ((r, c) ∷ ms) ns (inside_more _ _ _ same rest) =
      inside_more r c (ms ++ ns) same (Inside-delete i p d ms ns rest)
  Inside-delete i p d ((r, c) ∷ ms) ns (inside_past _ _ _ out rest) =
      inside_past r c (ms ++ ns) out (Past-delete i p d ms ns rest)

  -- Taking out an entry that is not the first of its index leaves the first where it is.
  pub Grouped-delete :
      (i p : ℕ) (d : Entry K V) (ms ns : List (ℕ × Entry K V)) (it : Iterator)
      → it ≢ some p
      → Grouped i (ms ++ (p, d) ∷ ns) it
      → Grouped i (ms ++ ns) it
  Grouped-delete i p d [] ns it other (later _ _ _ _ out g) = g
  Grouped-delete i p d [] ns _ other (here _ _ _ same group) = absurd (other refl)
  Grouped-delete i p d ((r, c) ∷ ms) ns it other (later _ _ _ _ out g) =
      later r c (ms ++ ns) it out (Grouped-delete i p d ms ns it other g)
  Grouped-delete i p d ((r, c) ∷ ms) ns _ other (here _ _ _ same group) =
      here r c (ms ++ ns) same (Inside-delete i p d ms ns group)

  pub Past-append :
      (i : ℕ) (ms ns : List (ℕ × Entry K V)) (it : Iterator)
      → Past i ms
      → Grouped i ns it
      → Grouped i (ms ++ ns) it
  Past-append i _ ns it past_end g = g
  Past-append i _ ns it (past_other p e ms out rest) g =
      later p e (ms ++ ns) it out (Past-append i ms ns it rest g)
