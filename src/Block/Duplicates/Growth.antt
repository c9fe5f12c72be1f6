-- ===== src/Block/Duplicates/Growth.antt =====
-- pkg/block/fetcher.go: the tree of all blocks of a resolution.
use promlts.Prelude.Dict.{nat_eq, get, remove, get-remove}
use promlts.Block.Metas.{Meta, Metas}
use promlts.Block.Duplicates.{
  Node, node, Children, no_children, new_node, has_id, contains, add_node_by_sources,
  add_to_children, all_to_ulids, non_root_from, get_non_root_ids, sort_metas, add_all,
  drop_duplicates, root_meta,
}
use promlts.Block.Duplicates.Tree.{count, roots, CoveredBy, count-add_children, Added, roots-add}
use promlts.Block.Duplicates.Survivors.{
  ulids, count-sort, Contains-sort, children_of, count-non_root_le, count-root,
}
use promlts.Prelude.{
  if◌then◌else◌, Option-cases, Contains, ℕ, ◌+◌, ◌≤◌, ◌≡◌, refl, ap, ◌∙◌, ◌⊎◌, inl, inr, true,
  false, none, List, [], ◌∷◌, ◌++◌, arith,
}

contains_more : (a : ℕ) (s1 s2 : List ℕ) → contains s1 s2 ≡ true → contains (a ∷ s1) s2 ≡ true
unfolding contains has_id
contains_more a s1 [] h = refl
contains_more a s1 (b ∷ s2) h = ground (arith, contains_more a s1 s2)

pub contains_refl : (s : List ℕ) → contains s s ≡ true
unfolding contains has_id
contains_refl [] = refl
contains_refl (a ∷ s) = ground (arith, contains_more a s s (contains_refl s))

Contains-append : (r : Meta) (xs ys : List Meta) → Contains r xs → Contains r (xs ++ ys)
Contains-append r [] ys p = absurd p
Contains-append r (x ∷ xs) ys (inl p) = inl p
Contains-append r (x ∷ xs) ys (inr p) = inr (Contains-append r xs ys p)

Contains-end : (r m : Meta) (xs : List Meta) → Contains r (xs ++ (m ∷ [])) → Contains r xs ⊎ (r ≡ m)
Contains-end r m [] (inl p) = inr p
Contains-end r m [] (inr p) = absurd p
Contains-end r m (x ∷ xs) (inl p) = inl (inl p)
Contains-end r m (x ∷ xs) (inr p) = elim (Contains-end r m xs p) [
  | inl q ↦ inl (inr q)
  | inr q ↦ inr q
]

Contains-last : (m : Meta) (xs : List Meta) → Contains m (xs ++ (m ∷ []))
Contains-last m [] = inl refl
Contains-last m (x ∷ xs) = inr (Contains-last m xs)

-- What the blocks added to a tree do to the blocks below its root.
pub record Grows (before : List Meta) (ms : List Meta) (after : List Meta) : Type 0 where
  pub stays : (r : Meta) → Contains r before → Contains r after
  pub comes_from : (r : Meta) → Contains r after → Contains r before ⊎ Contains r ms
  pub covers : (m : Meta) → Contains m ms → CoveredBy after m.sources

Grows-one :
    (m : Meta) (before after : List Meta) → Added m before after → Grows before (m ∷ []) after
Grows-one m before after (inl (same, (c, inside, covers))) = record {
  stays = λ r h. rw same h;
  comes_from = λ r h. inl (rw (← same) h);
  covers = λ x h. elim h [
    | inl p ↦ (c, rw same inside, ap (λ y. contains c.sources y.sources) p ∙ covers)
    | inr p ↦ absurd p
  ];
}
Grows-one m before after (inr (more, none_covers)) = record {
  stays = λ r h. rw more (Contains-append r before (m ∷ []) h);
  comes_from =
      λ r h. elim (Contains-end r m before (rw (← more) h)) [ inl p ↦ inl p | inr p ↦ inr (inl p) ];
  covers = λ x h. elim h [
    | inl p ↦ (
      m,
      rw more (Contains-last m before),
      ap (λ y. contains m.sources y.sources) p ∙ contains_refl m.sources,
    )
    | inr p ↦ absurd p
  ];
}

Grows-more :
    (m : Meta) (ms before between after : List Meta)
    → Grows before (m ∷ []) between
    → Grows between ms after
    → Grows before (m ∷ ms) after
Grows-more m ms before between after g h = record {
  stays = λ r p. h.stays r (g.stays r p);
  comes_from = λ r p. elim (h.comes_from r p) [
    | inr q ↦ inr (inr q)
    | inl q ↦ elim (g.comes_from r q) [
      | inl s ↦ inl s
      | inr (inl s) ↦ inr (inl s)
      | inr (inr s) ↦ absurd s
    ]
  ];
  covers = λ x p. elim p [
    | inr q ↦ h.covers x q
    | inl q ↦ let (c, inside, covers) = g.covers x (inl q) in (c, h.stays c inside, covers)
  ];
}

pub add_all-Grows :
    (x : Meta) (ns : Children) (ms : List Meta)
    → Grows (roots ns) ms (roots (children_of (add_all (node x ns) ms)))
unfolding add_all add_node_by_sources
add_all-Grows x ns [] = record {
  stays = λ r h. h;
  comes_from = λ r h. inl h;
  covers = λ m h. absurd h;
}
add_all-Grows x ns (m ∷ ms) =
    Grows-more m ms (roots ns) (roots (add_to_children ns (new_node m))) _
      (Grows-one m (roots ns) _ (roots-add ns m))
      (add_all-Grows x (add_to_children ns (new_node m)) ms)

pub count-add_all :
    (id : ℕ) (x : Meta) (ns : Children) (ms : List Meta)
    → count id (all_to_ulids (children_of (add_all (node x ns) ms)))
      ≡ count id (all_to_ulids ns) + count id (ulids ms)
unfolding add_all add_node_by_sources
count-add_all id x ns [] = omega arith
count-add_all id x ns (m ∷ ms) =
    omega
      (arith, count-add_all id x (add_to_children ns (new_node m)) ms, count-add_children id ns m)

-- The dropped ids are gone from the map, and nothing else is.
pub get-drop :
    (ids : List ℕ) (metas : Metas) (acc : List ℕ) (id : ℕ)
    → get (drop_duplicates ids metas acc).0 id ≡ (if has_id id ids then none else get metas id)
unfolding drop_duplicates has_id
get-drop [] metas acc id = refl
get-drop (i ∷ ids) metas acc id = elim (Option-cases (get metas i)) [
  | inl p ↦
      rw (drop_duplicates, p)
        (ground (arith, get-drop ids (remove metas i) acc id, get-remove metas i id))
  | inr (m, p) ↦
      rw (drop_duplicates, p)
        (ground (arith, get-drop ids (remove metas i) (acc ++ (i ∷ [])) id, get-remove metas i id))
]

pub has_id-count : (id : ℕ) (ids : List ℕ) → count id ids ≡ 0 → has_id id ids ≡ false
unfolding has_id
has_id-count id [] h = refl
has_id-count id (x ∷ ids) h = ground (arith, has_id-count id ids)

abbrev pub duplicates : List Meta → List ℕ
duplicates slice = get_non_root_ids (add_all (new_node root_meta) (sort_metas slice))

non_root-from : (n : Node) → get_non_root_ids n ≡ non_root_from [] (children_of n)
unfolding get_non_root_ids
non_root-from (node m ns) = refl

tree_of : List Meta → Children
tree_of slice = children_of (add_all (new_node root_meta) (sort_metas slice))

count-tree :
    (id : ℕ) (slice : List Meta) → count id (all_to_ulids (tree_of slice)) ≡ count id (ulids slice)
unfolding all_to_ulids tree_of
count-tree id slice =
    omega (arith, count-add_all id root_meta no_children (sort_metas slice), count-sort id slice)

-- For every block there is one that has its sources and is no duplicate.
pub duplicates-spare :
    (slice : List Meta) (m : Meta)
    → ((id : ℕ) → count id (ulids slice) ≤ 1)
    → Contains m slice
    → (r : Meta) × Contains r slice
      × (contains r.sources m.sources ≡ true)
      × (count r.ulid (duplicates slice) ≡ 0)
unfolding tree_of
duplicates-spare slice m distinct h =
    let g = add_all-Grows root_meta no_children (sort_metas slice) in
    let (r, inside, covers) = g.covers m ((Contains-sort m slice).0 h) in
    let from : Contains r slice = elim (g.comes_from r inside) [
      | inl p ↦ absurd p
      | inr p ↦ (Contains-sort r slice).1 p
    ] in
    let spared : count r.ulid (non_root_from [] (tree_of slice)) ≡ 0 =
      count-root r [] (tree_of slice) inside (rw (count-tree r.ulid slice) (distinct r.ulid)) in
    (r, from, covers, ap (count r.ulid) (non_root-from _) ∙ spared)

pub count-duplicates :
    (slice : List Meta) (id : ℕ) → count id (duplicates slice) ≤ count id (ulids slice)
unfolding tree_of
count-duplicates slice id = omega (
  arith,
  ap (count id) (non_root-from (add_all (new_node root_meta) (sort_metas slice))),
  count-non_root_le id [] (tree_of slice),
  count-tree id slice,
)
