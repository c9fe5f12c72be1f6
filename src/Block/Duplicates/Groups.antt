-- ===== src/Block/Duplicates/Groups.antt =====
-- pkg/block/fetcher.go: the filter of duplicates keeps the data.
use mathlib.Core.Path.{subst}
use promlts.Prelude.Dict.{nat_eq, get}
use promlts.Prelude.Int.{ℤ, pos, negsuc}
use promlts.Block.Metas.{Meta, Metas, IsMap}
use promlts.Block.Duplicates.{
  contains, drop_duplicates, filter_for_resolution, same_ℤ, metas_of_resolution, filter_resolutions,
  filter_duplicates,
}
use promlts.Block.Duplicates.Tree.{count}
use promlts.Block.Duplicates.Survivors.{ulids}
use promlts.Block.Duplicates.Growth.{
  get-drop, has_id-count, duplicates, duplicates-spare, count-duplicates,
}
use promlts.Prelude.{
  ◌==◌, if◌then◌else◌, Bool-cases, if_both, Contains, ℕ, ◌≤◌, ◌≡◌, refl, sym, ap, ◌∙◌, inl, inr,
  true, false, Option, none, some, List, [], ◌∷◌, arith,
}

-- Each key of the map is the ULID of its block.
abbrev pub KeysMatch : Metas → Type 0
KeysMatch [] = Unit
KeysMatch ((id, m) ∷ metas) = (id ≡ m.ulid) × KeysMatch metas

same_ℤ-refl : (a : ℤ) → same_ℤ a a ≡ true
same_ℤ-refl (pos n) = ground arith
same_ℤ-refl (negsuc n) = ground arith

same_ℤ-eq : (a b : ℤ) → same_ℤ a b ≡ true → a ≡ b
same_ℤ-eq (pos n) (pos m) h = ground arith
same_ℤ-eq (pos n) (negsuc m) h = ground arith
same_ℤ-eq (negsuc n) (pos m) h = ground arith
same_ℤ-eq (negsuc n) (negsuc m) h = ground arith

abbrev present : ℤ → Option Meta → ℕ
present res none = 0
present res (some m) = if same_ℤ m.resolution res then 1 else 0

count-resolution :
    (res : ℤ) (metas : Metas) (id : ℕ)
    → KeysMatch metas
    → IsMap metas
    → count id (ulids (metas_of_resolution res metas)) ≤ present res (get metas id)
unfolding metas_of_resolution get
count-resolution res [] id h k = omega arith
count-resolution res ((key, m) ∷ metas) id (p, h) (new, k) =
    ground (arith, count-resolution res metas id h k, ap (λ x. present res (get metas x)) p)

Contains-resolution :
    (metas : Metas) (id : ℕ) (m : Meta)
    → get metas id ≡ some m
    → Contains m (metas_of_resolution m.resolution metas)
unfolding metas_of_resolution get
Contains-resolution [] id m h = cc
Contains-resolution ((key, x) ∷ metas) id m h = elim (Bool-cases (key == id)) [
  | inl p ↦
      let q : x ≡ m = ground arith in
      rw (← q, metas_of_resolution, same_ℤ-refl x.resolution) (inl refl)
  | inr p ↦
      let later = Contains-resolution metas id m (ground arith) in
      if_both (Contains m) (same_ℤ x.resolution m.resolution)
        (x ∷ metas_of_resolution m.resolution metas) (metas_of_resolution m.resolution metas)
        (inr later) later
]

-- What the list of a resolution holds is in the map, and has the resolution.
OfResolution : ℤ → Metas → Meta → Type 0
OfResolution res metas r = (get metas r.ulid ≡ some r) × (same_ℤ r.resolution res ≡ true)

from_resolution :
    (res : ℤ) (metas : Metas) (r : Meta)
    → KeysMatch metas
    → IsMap metas
    → Contains r (metas_of_resolution res metas)
    → OfResolution res metas r
unfolding metas_of_resolution get OfResolution
from_resolution res [] r h k c = absurd c
from_resolution res ((key, m) ∷ metas) r (p, h) (new, k) c =
    let Below : Type 0 = (get metas r.ulid ≡ some r) × (same_ℤ r.resolution res ≡ true) in
    let go : Below → OfResolution res ((key, m) ∷ metas) r =
      λ (found, same). (ground (arith, ap (λ x. get metas x) (sym p)), same) in
    elim (Bool-cases (same_ℤ m.resolution res)) [
      | inr s ↦ go (
          from_resolution res metas r h k (
            subst
              (λ b.
                Contains r
                  (if b then m ∷ metas_of_resolution res metas else metas_of_resolution res metas))
              s c))
      | inl s ↦
          elim (subst
            (λ b.
              Contains r
                (if b then m ∷ metas_of_resolution res metas else metas_of_resolution res metas))
            s c) [
              | inr later ↦ go (from_resolution res metas r h k later)
              | inl q ↦ rw q (ground arith, s)
            ]
    ]

present_le : (res : ℤ) (o : Option Meta) → present res o ≤ 1
present_le res none = omega arith
present_le res (some m) = ground arith

present_elsewhere :
    (res : ℤ) (m : Meta) → same_ℤ m.resolution res ≡ false → present res (some m) ≡ 0
present_elsewhere res m h = ground arith

-- No duplicates of the resolutions have the id.
spared-get :
    (resolutions : List ℤ) (all metas : Metas) (acc : List ℕ) (id : ℕ)
    → ((res : ℤ) → count id (duplicates (metas_of_resolution res all)) ≡ 0)
    → get (filter_resolutions resolutions all metas acc).0 id ≡ get metas id
unfolding filter_resolutions filter_for_resolution
spared-get [] all metas acc id h = refl
spared-get (res ∷ resolutions) all metas acc id h =
    let ids = duplicates (metas_of_resolution res all) in
    let (rest, found) = drop_duplicates ids metas acc in
    spared-get resolutions all rest found id h
    ∙ get-drop ids metas acc id
    ∙ ap (λ b. if b then none else get metas id) (has_id-count id ids (h res))

-- The key of every block in the map is the ULID in its metadata. Then no data is lost: for every block
-- of the map, a block stays in the map that has the same resolution, and all its sources, whatever the
-- order of the resolutions.
pub filter_duplicates-KeepsData :
    (resolutions : List ℤ) (metas : Metas) (id : ℕ) (m : Meta)
    → KeysMatch metas
    → IsMap metas
    → get metas id ≡ some m
    → (r : Meta) × (get (filter_duplicates resolutions metas).0 r.ulid ≡ some r)
      × (r.resolution ≡ m.resolution)
      × (contains r.sources m.sources ≡ true)
unfolding filter_duplicates OfResolution
filter_duplicates-KeepsData resolutions metas id m keys is_map found =
    let slice = metas_of_resolution m.resolution metas in
    let distinct : (i : ℕ) → count i (ulids slice) ≤ 1 = λ i. omega (
      arith,
      count-resolution m.resolution metas i keys is_map,
      present_le m.resolution (get metas i),
    ) in
    let (r, inside, covers, spare) =
      duplicates-spare slice m distinct (Contains-resolution metas id m found) in
    let (held, same) = from_resolution m.resolution metas r keys is_map inside in
    let spared : (res : ℤ) → count r.ulid (duplicates (metas_of_resolution res metas)) ≡ 0 = λ res.
      elim (Bool-cases (same_ℤ r.resolution res)) [
        | inl q ↦
            let e : res ≡ m.resolution =
              sym (same_ℤ-eq r.resolution res q) ∙ same_ℤ-eq r.resolution m.resolution same in
            rw e spare
        | inr q ↦ omega (
          arith,
          count-resolution res metas r.ulid keys is_map,
          ap (present res) held,
          present_elsewhere res r q,
          count-duplicates (metas_of_resolution res metas) r.ulid,
        )
      ] in
    (
      r,
      spared-get resolutions metas metas [] r.ulid spared ∙ held,
      same_ℤ-eq r.resolution m.resolution same,
      covers,
    )
