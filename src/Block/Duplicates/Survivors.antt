-- ===== src/Block/Duplicates/Survivors.antt =====
-- pkg/block/fetcher.go, pkg/block/node.go: which blocks of a resolution are no duplicates.
use promlts.Prelude.Dict.{nat_eq}
use promlts.Block.Metas.{Meta}
use promlts.Block.Duplicates.{
  Node, node, Children, no_children, child, meta_of, children_to_ulids, all_to_ulids, remove_id,
  non_root_from, sorts_before, insert_meta, sort_metas,
}
use promlts.Block.Duplicates.Tree.{count, count-append, once, roots}
use promlts.Prelude.{
  ◌==◌, if_both, Contains, ℕ, ◌+◌, ◌≤◌, ◌≡◌, refl, ap, ◌≢◌, ◌↔◌, inl, inr, List, [], ◌∷◌, ◌++◌,
  arith,
}

abbrev pub ulids : List Meta → List ℕ
ulids [] = []
ulids (m ∷ ms) = m.ulid ∷ ulids ms

-- The order does not add or lose a block.
count-insert :
    (id : ℕ) (m : Meta) (xs : List Meta)
    → count id (ulids (insert_meta m xs)) ≡ once id m.ulid + count id (ulids xs)
unfolding insert_meta
count-insert id m [] = omega arith
count-insert id m (x ∷ xs) =
    if_both (λ l. count id (ulids l) ≡ once id m.ulid + count id (ulids (x ∷ xs)))
      (sorts_before x m) (x ∷ insert_meta m xs) (m ∷ x ∷ xs) (omega (arith, count-insert id m xs))
      (omega arith)

pub count-sort : (id : ℕ) (ms : List Meta) → count id (ulids (sort_metas ms)) ≡ count id (ulids ms)
unfolding sort_metas
count-sort id [] = refl
count-sort id (m ∷ ms) = omega (arith, count-insert id m (sort_metas ms), count-sort id ms)

Contains-insert :
    (a m : Meta) (xs : List Meta) → Contains a (m ∷ xs) ↔ Contains a (insert_meta m xs)
unfolding insert_meta
Contains-insert a m [] = (λ h. h, λ h. h)
Contains-insert a m (x ∷ xs) =
    let (to, from) = Contains-insert a m xs in
    if_both (λ l. Contains a (m ∷ x ∷ xs) ↔ Contains a l) (sorts_before x m) (x ∷ insert_meta m xs)
      (m ∷ x ∷ xs)
      (
        λ h. elim h [
          | inl p ↦ inr (to (inl p))
          | inr (inl p) ↦ inl p
          | inr (inr p) ↦ inr (to (inr p))
        ],
        λ h. elim h [
          | inl p ↦ inr (inl p)
          | inr p ↦ elim (from p) [ inl q ↦ inl q | inr q ↦ inr (inr q) ]
        ],
      )
      (λ h. h, λ h. h)

pub Contains-sort : (a : Meta) (ms : List Meta) → Contains a ms ↔ Contains a (sort_metas ms)
unfolding sort_metas
Contains-sort a [] = (λ h. h, λ h. h)
Contains-sort a (m ∷ ms) =
    let (to, from) = Contains-sort a ms in
    let (into, out) = Contains-insert a m (sort_metas ms) in
    (
      λ h. into (elim h [ inl p ↦ inl p | inr p ↦ inr (to p) ]),
      λ h. elim (out h) [ inl p ↦ inl p | inr p ↦ inr (from p) ],
    )

abbrev pub children_of : Node → Children
children_of (node m ns) = ns

count-remove : (id item : ℕ) (xs : List ℕ) → count id (remove_id xs item) ≤ count id xs
unfolding remove_id
count-remove id item [] = omega arith
count-remove id item (x ∷ xs) =
    if_both (λ l. count id l ≤ count id (x ∷ xs)) (x == item) (remove_id xs item)
      (x ∷ remove_id xs item) (omega (arith, count-remove id item xs))
      (omega (arith, count-remove id item xs))

count-removed : (id : ℕ) (xs : List ℕ) → count id (remove_id xs id) ≡ 0
unfolding remove_id
count-removed id [] = refl
count-removed id (x ∷ xs) = ground (arith, count-removed id xs)

count-remove_ne :
    (id item : ℕ) (xs : List ℕ) → id ≢ item → count id (remove_id xs item) ≡ count id xs
unfolding remove_id
count-remove_ne id item [] h = refl
count-remove_ne id item (x ∷ xs) h = ground (arith, count-remove_ne id item xs h)

pub count-non_root_le :
    (id : ℕ) (acc : List ℕ) (ns : Children)
    → count id (non_root_from acc ns) ≤ count id acc + count id (all_to_ulids ns)
unfolding non_root_from all_to_ulids
count-non_root_le id acc no_children = omega arith
count-non_root_le id acc (child n ns) =
    let ulid = (meta_of n).ulid in
    omega (
      arith,
      count-non_root_le id (remove_id (acc ++ children_to_ulids n) ulid) ns,
      count-remove id ulid (acc ++ children_to_ulids n),
      count-append id acc (children_to_ulids n),
      count-append id (children_to_ulids n) (all_to_ulids ns),
    )

count-own : (n : Node) → 1 ≤ count (meta_of n).ulid (children_to_ulids n)
unfolding children_to_ulids
count-own (node m ns) = ground arith

-- A root that is in the tree once is no duplicate.
pub count-root :
    (r : Meta) (acc : List ℕ) (ns : Children)
    → Contains r (roots ns)
    → count r.ulid (all_to_ulids ns) ≤ 1
    → count r.ulid (non_root_from acc ns) ≡ 0
unfolding non_root_from all_to_ulids
count-root r acc no_children h k = absurd h
count-root r acc (child n ns) (inl p) k =
    let q : r.ulid ≡ (meta_of n).ulid = ap (λ m. m.ulid) p in
    let own : 1 ≤ count r.ulid (children_to_ulids n) = rw q (count-own n) in
    let gone : count r.ulid (remove_id (acc ++ children_to_ulids n) (meta_of n).ulid) ≡ 0 =
      rw (← q) (count-removed r.ulid (acc ++ children_to_ulids n)) in
    omega (
      arith,
      own,
      k,
      gone,
      count-append r.ulid (children_to_ulids n) (all_to_ulids ns),
      count-non_root_le r.ulid (remove_id (acc ++ children_to_ulids n) (meta_of n).ulid) ns,
    )
count-root r acc (child n ns) (inr p) k =
    count-root r (remove_id (acc ++ children_to_ulids n) (meta_of n).ulid) ns p
      (omega (arith, k, count-append r.ulid (children_to_ulids n) (all_to_ulids ns)))
