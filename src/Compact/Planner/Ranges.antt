-- ===== src/Compact/Planner/Ranges.antt =====
-- pkg/compact/planner.go: `splitByRange`.
use mathlib.Core.Path.{subst}
use native.Mathlib.Nat.{add-mul-div_right, div-mul-le_self, lt-div-mul-add}
use mathlib.Core.Option
use promlts.Prelude.Int.{ℤ, pos, negsuc, sub_ℕ, ◌+ℤ◌, ◌-ℤ◌, ◌*ℤ◌, ◌/ℤ◌, ltb_ℤ, leb_ℤ, int_laws}
use promlts.Compact.Planner.{Meta, range_start, take_group, split_from, split_by_range}
use promlts.Prelude.{
  ◌==◌, if◌then◌else◌, Bool-cases, length, All, Contains, ℕ, zero, suc, ◌+◌, ◌-◌, ◌*◌, ◌/◌, ◌≤◌,
  ◌<◌, ◌≡◌, refl, sym, ap, ◌∙◌, ◌⊎◌, inl, inr, true, false, Option, none, some, List, [], ◌∷◌, ◌++◌,
  arith,
}

-- All blocks of a group end by the end of one range.
abbrev pub InRange : ℤ → List Meta → Type 0
InRange end group = All (λ m. ltb_ℤ end m.max_time ≡ false) group

-- `s` is the start of the range that the time is in: the ranges of size `tr` start at its multiples.
abbrev pub StartsRange : ℤ → ℤ → ℤ → Type 0
StartsRange tr t s = ((k : ℤ) × (s ≡ tr *ℤ k)) × (leb_ℤ s t ≡ true) × (ltb_ℤ t (s +ℤ tr) ≡ true)

-- The group is one of blocks that end by the end of the range in which one of them starts.
abbrev pub InSomeRange : ℤ → List Meta → Type 0
InSomeRange tr group =
    (first : Meta) × (s : ℤ) × StartsRange tr first.min_time s
    × InRange (s +ℤ tr) group
    × Contains first group

-- The block goes on beyond the end of the range in which it starts.
abbrev pub Spans : ℤ → Meta → Type 0
Spans tr m = (s : ℤ) × StartsRange tr m.min_time s × (ltb_ℤ (s +ℤ tr) m.max_time ≡ true)

-- The groups, one after the other, are the blocks without some that go beyond their range.
abbrev pub Groups : ℤ → List Meta → List Meta → Type 0
Groups tr [] kept = kept ≡ []
Groups tr (m ∷ metas) kept =
    (Spans tr m × Groups tr metas kept)
    ⊎ ((rest : List Meta) × (kept ≡ m ∷ rest) × Groups tr metas rest)

abbrev pub concat : List (List Meta) → List Meta
concat [] = []
concat (g ∷ gs) = g ++ concat gs

abbrev pub AllInRanges : ℤ → List Meta → Option (List (List Meta)) → Type 0
AllInRanges tr metas none = ⊥
AllInRanges tr metas (some groups) = All (InSomeRange tr) groups × Groups tr metas (concat groups)

below_zero :
    (w n q : ℕ)
    → 0 < w
    → q * w ≤ n
    → n < q * w + w
    → StartsRange (pos w) (negsuc n) (pos w *ℤ sub_ℕ 0 (q + 1))
unfolding ◌*ℤ◌ ◌+ℤ◌
below_zero w n q p l h =
    let e : w * (q + 1) ≡ q * w + w = omega arith in
    ((sub_ℕ 0 (q + 1), refl), ground (arith, e, l, h), ground (arith, e, l, h))

above_zero : (w n q : ℕ) → q * w ≤ n → n < q * w + w → StartsRange (pos w) (pos n) (pos w *ℤ pos q)
unfolding ◌*ℤ◌ ◌+ℤ◌
above_zero w n q l h =
    let e : w * q ≡ q * w = omega arith in
    ((pos q, refl), ground (arith, e, l, h), ground (arith, e, l, h))

range_start-pos : (w n : ℕ) → range_start (pos w) (pos n) ≡ pos w *ℤ pos (n / w)
unfolding range_start ◌/ℤ◌
range_start-pos w n = let f : ltb_ℤ (pos n) (pos 0) ≡ false = ground arith in rw f refl

range_start-negsuc :
    (w n : ℕ) → 0 < w → range_start (pos w) (negsuc n) ≡ pos w *ℤ sub_ℕ 0 (n / w + 1)
unfolding range_start ◌/ℤ◌
range_start-negsuc w n p =
    let f : ltb_ℤ (negsuc n) (pos 0) ≡ true = ground arith in
    let back : negsuc n -ℤ pos w +ℤ pos 1 ≡ negsuc (n + w - 1) = omega int_laws in
    let up : suc (n + w - 1) ≡ n + 1 * w = omega arith in
    let q : suc (n + w - 1) / w ≡ n / w + 1 = ap (λ z. z / w) up ∙ add-mul-div_right n 1 p in
    rw (f, back) (ap (λ z. pos w *ℤ sub_ℕ 0 z) q)

range_start-StartsRange : (w : ℕ) (t : ℤ) → 0 < w → StartsRange (pos w) t (range_start (pos w) t)
range_start-StartsRange w (pos n) p =
    subst (StartsRange (pos w) (pos n)) (sym (range_start-pos w n))
      (above_zero w n (n / w) (div-mul-le_self n w) (lt-div-mul-add p))
range_start-StartsRange w (negsuc n) p =
    subst (StartsRange (pos w) (negsuc n)) (sym (range_start-negsuc w n p))
      (below_zero w n (n / w) p (div-mul-le_self n w) (lt-div-mul-add p))

InRange-take_group : (end : ℤ) (metas : List Meta) → InRange end (take_group end metas).0
unfolding take_group
InRange-take_group end [] = tt
InRange-take_group end (m ∷ metas) = elim (Bool-cases (ltb_ℤ end m.max_time)) [
  | inl t ↦ rw t tt
  | inr t ↦ rw t (t, InRange-take_group end metas)
]

rest-take_group_le : (end : ℤ) (metas : List Meta) → length (take_group end metas).1 ≤ length metas
unfolding take_group
rest-take_group_le end [] = omega arith
rest-take_group_le end (m ∷ metas) = elim (Bool-cases (ltb_ℤ end m.max_time)) [
  | inl t ↦ rw t (omega arith)
  | inr t ↦ rw t (omega (arith, rest-take_group_le end metas))
]

-- The group, and the blocks that are left, are the blocks.
take_group-append :
    (end : ℤ) (metas : List Meta) → metas ≡ (take_group end metas).0 ++ (take_group end metas).1
unfolding take_group
take_group-append end [] = refl
take_group-append end (m ∷ metas) = elim (Bool-cases (ltb_ℤ end m.max_time)) [
  | inl t ↦ rw t refl
  | inr t ↦ rw t (ap (◌∷◌ m) (take_group-append end metas))
]

Groups-append :
    (tr : ℤ) (group rest kept : List Meta)
    → Groups tr rest kept
    → Groups tr (group ++ rest) (group ++ kept)
Groups-append tr [] rest kept h = h
Groups-append tr (m ∷ group) rest kept h =
    inr (group ++ kept, refl, Groups-append tr group rest kept h)

skip-InRanges :
    (tr : ℤ) (m : Meta) (metas : List Meta) (o : Option (List (List Meta)))
    → Spans tr m
    → AllInRanges tr metas o
    → AllInRanges tr (m ∷ metas) o
skip-InRanges tr m metas none s h = h
skip-InRanges tr m metas (some groups) s (a, g) = (a, inl (s, g))

group-InRanges :
    (tr : ℤ) (m : Meta) (group rest : List Meta) (o : Option (List (List Meta)))
    → InSomeRange tr (m ∷ group)
    → AllInRanges tr rest o
    → AllInRanges tr
        (m ∷ group ++ rest)
        (Option.map (λ groups. if length (m ∷ group) == 0 then groups else (m ∷ group) ∷ groups) o)
group-InRanges tr m group rest none g h = absurd h
group-InRanges tr m group rest (some groups) g (a, h) =
    let p : length (m ∷ group) == 0 ≡ false = ground arith in
    rw p ((g, a), Groups-append tr (m ∷ group) rest (concat groups) h)

split_from-InRanges :
    (fuel : ℕ) (metas : List Meta) (w : ℕ)
    → 0 < w
    → length metas < fuel
    → AllInRanges (pos w) metas (split_from fuel metas (pos w))
unfolding split_from
split_from-InRanges zero metas w q p = absurd (omega arith)
split_from-InRanges (suc fuel) [] w q p = (tt, refl)
split_from-InRanges (suc fuel) (m ∷ metas) w q p =
    let s = range_start (pos w) m.min_time in
    let end = s +ℤ pos w in
    let start : StartsRange (pos w) m.min_time s = range_start-StartsRange w m.min_time q in
    let group = (take_group end metas).0 in
    let rest = (take_group end metas).1 in
    elim (Bool-cases (ltb_ℤ end m.max_time)) [
      | inl t ↦
          rw (split_from, t)
            (skip-InRanges (pos w) m metas _ (s, start, t)
              (split_from-InRanges fuel metas w q (omega arith)))
      | inr t ↦
          rw (split_from, t)
            (subst
              (λ l. AllInRanges (pos w) (m ∷ l) (
                Option.map
                  (λ groups. if length (m ∷ group) == 0 then groups else (m ∷ group) ∷ groups)
                  (split_from fuel rest (pos w))))
              (sym (take_group-append end metas))
              (group-InRanges (pos w) m group rest (split_from fuel rest (pos w))
                (m, s, start, (t, InRange-take_group end metas), inl refl)
                (split_from-InRanges fuel rest w q (omega (arith, rest-take_group_le end metas)))))
    ]

-- For a range of positive size, `splitByRange` ends. Every group that it makes has a block such that
-- all blocks of the group end by the end of the range in which that block starts, where the ranges
-- start at the multiples of their size. The groups, one after the other, are the given blocks in
-- their order, without some blocks that go on beyond the end of the range in which they start.
pub split-InRanges :
    (metas : List Meta) (size : ℕ)
    → 0 < size
    → AllInRanges (pos size) metas (split_by_range metas (pos size))
unfolding split_by_range
split-InRanges metas size p = split_from-InRanges (length metas + 1) metas size p (omega arith)
