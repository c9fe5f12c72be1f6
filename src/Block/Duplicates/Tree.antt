-- ===== src/Block/Duplicates/Tree.antt =====
-- pkg/block/fetcher.go: the tree of the blocks, in which a block stands below one with its sources.
use promlts.Prelude.Dict.{nat_eq}
use promlts.Block.Metas.{Meta}
use promlts.Block.Duplicates.{
  Node, node, Children, no_children, child, new_node, meta_of, contains, append_child, with_child,
  add_node_by_sources, add_to_children, children_to_ulids, all_to_ulids,
}
use promlts.Prelude.{
  ◌==◌, if◌then◌else◌, if_both, All, Contains, ℕ, ◌+◌, ◌≡◌, refl, ap, ◌⊎◌, inl, inr, Bool, true,
  false, ◌&&◌, List, [], ◌∷◌, ◌++◌, arith,
}

-- How often a list has an id.
abbrev pub count : ℕ → List ℕ → ℕ
count id [] = 0
count id (x ∷ xs) = (if id == x then 1 else 0) + count id xs

pub count-append : (id : ℕ) (xs ys : List ℕ) → count id (xs ++ ys) ≡ count id xs + count id ys
count-append id [] ys = omega arith
count-append id (x ∷ xs) ys = omega (arith, count-append id xs ys)

abbrev pub once : ℕ → ℕ → ℕ
once id x = if id == x then 1 else 0

-- The blocks below the root itself.
abbrev pub roots : Children → List Meta
roots no_children = []
roots (child n ns) = meta_of n ∷ roots ns

-- A block of the list has all these sources.
abbrev pub CoveredBy : List Meta → List ℕ → Type 0
CoveredBy rs sources = (r : Meta) × Contains r rs × (contains r.sources sources ≡ true)

count-append_child :
    (id : ℕ) (ns : Children) (m : Meta)
    → count id (all_to_ulids (append_child ns (new_node m)))
      ≡ count id (all_to_ulids ns) + once id m.ulid
unfolding all_to_ulids children_to_ulids append_child
count-append_child id no_children m = omega arith
count-append_child id (child n ns) m = omega (
  arith,
  count-append_child id ns m,
  count-append id (children_to_ulids n) (all_to_ulids (append_child ns (new_node m))),
  count-append id (children_to_ulids n) (all_to_ulids ns),
)

count-with_child :
    (id : ℕ) (n : Node) (m : Meta)
    → count id (children_to_ulids (with_child n (new_node m)))
      ≡ count id (children_to_ulids n) + once id m.ulid
unfolding children_to_ulids
count-with_child id (node x ns) m = omega (arith, count-append_child id ns m)

-- A block is added to the tree once.
mutual
  unfolding all_to_ulids children_to_ulids add_to_children add_node_by_sources

  count-add_node :
      (id : ℕ) (n : Node) (m : Meta)
      → count id (children_to_ulids (add_node_by_sources n (new_node m)))
        ≡ count id (children_to_ulids n) + once id m.ulid
  count-add_node id (node x ns) m = omega (arith, count-add_children id ns m)

  pub count-add_children :
      (id : ℕ) (ns : Children) (m : Meta)
      → count id (all_to_ulids (add_to_children ns (new_node m)))
        ≡ count id (all_to_ulids ns) + once id m.ulid
  count-add_children id no_children m = omega arith
  count-add_children id (child n ns) m =
      let total : ℕ = count id (all_to_ulids (child n ns)) + once id m.ulid in
      let Adds : Children → Type 0 = λ x. count id (all_to_ulids x) ≡ total in
      let parent = (meta_of n).sources in
      let split = count-append id (children_to_ulids n) (all_to_ulids ns) in
      if_both Adds (contains parent m.sources && contains m.sources parent) _ _
        (omega (
          arith,
          split,
          count-with_child id n m,
          count-append id (children_to_ulids (with_child n (new_node m))) (all_to_ulids ns),
        ))
        (if_both Adds (contains parent m.sources) _ _
          (omega (
            arith,
            split,
            count-add_node id n m,
            count-append id (children_to_ulids (add_node_by_sources n (new_node m)))
                (all_to_ulids ns),
          ))
          (omega (
            arith,
            split,
            count-add_children id ns m,
            count-append id (children_to_ulids n) (all_to_ulids (add_to_children ns (new_node m))),
          )))

meta_of-with_child : (n add : Node) → meta_of (with_child n add) ≡ meta_of n
meta_of-with_child (node m ns) add = refl

meta_of-add_node : (n add : Node) → meta_of (add_node_by_sources n add) ≡ meta_of n
unfolding add_node_by_sources
meta_of-add_node (node m ns) add = refl

-- A block with its sources below the root, or the block itself as the last there, where no block
-- before contains its sources.
abbrev pub NoneCovers : List ℕ → List Meta → Type 0
NoneCovers sources rs = All (λ r. contains r.sources sources ≡ false) rs

abbrev pub Added : Meta → List Meta → List Meta → Type 0
Added m before after =
    (after ≡ before) × CoveredBy before m.sources
    ⊎ ((after ≡ before ++ (m ∷ [])) × NoneCovers m.sources before)

Added-later :
    (m r : Meta) (before after : List Meta)
    → contains r.sources m.sources ≡ false
    → Added m before after
    → Added m (r ∷ before) (r ∷ after)
Added-later m r before after h (inl (same, (c, inside, covers))) =
    inl (ap (◌∷◌ r) same, (c, inr inside, covers))
Added-later m r before after h (inr (more, none_covers)) = inr (ap (◌∷◌ r) more, (h, none_covers))

three_ways :
    (P : Children → Type 0) (c d : Bool) (x y z : Children)
    → (c ≡ true → P x × P y)
    → (c ≡ false → P z)
    → P (if c && d then x else if c then y else z)
three_ways P true true x y z p q = (p refl).0
three_ways P true false x y z p q = (p refl).1
three_ways P false d x y z p q = q refl

pub roots-add :
    (ns : Children) (m : Meta) → Added m (roots ns) (roots (add_to_children ns (new_node m)))
unfolding add_to_children
roots-add no_children m = inr (refl, tt)
roots-add (child n ns) m =
    let r = meta_of n in
    three_ways (λ x. Added m (roots (child n ns)) (roots x)) (contains r.sources m.sources)
      (contains m.sources r.sources) (child (with_child n (new_node m)) ns)
      (child (add_node_by_sources n (new_node m)) ns) (child n (add_to_children ns (new_node m)))
      (λ p. (
        inl (ap (λ x. x ∷ roots ns) (meta_of-with_child n (new_node m)), (r, inl refl, p)),
        inl (ap (λ x. x ∷ roots ns) (meta_of-add_node n (new_node m)), (r, inl refl, p)),
      ))
      (λ p. Added-later m r (roots ns) (roots (add_to_children ns (new_node m))) p (roots-add ns m))
