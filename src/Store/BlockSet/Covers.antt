-- ===== src/Store/BlockSet/Covers.antt =====
-- pkg/store/bucket.go: the blocks that `getFor` returns, and what `add` answers.
-- The block has data between the two times.
use mathlib.Core.Path.{subst}
use mathlib.Core.Option
use promlts.Store.BlockSet.{
  Block, Level, AddError, added, labels_differ, unsupported_resolution, eq_ℤ, insert_block, add_at,
  add, skip_levels, fill_level, get_from, get_for,
}
use promlts.Prelude.Int.{ℤ, pos, ◌-ℤ◌, ltb_ℤ, leb_ℤ}
use promlts.Prelude.{
  Bool-cases, Option-cases, if_both, All, All-append, Contains, ◌≡◌, refl, sym, ◌↔◌, ◌⊎◌, inl, inr,
  Bool, true, false, Option, none, some, List, [], ◌∷◌, arith,
}

abbrev pub Overlaps : ℤ → ℤ → Block → Type 0
Overlaps mint maxt b = (ltb_ℤ mint b.max_time ≡ true) × (ltb_ℤ maxt b.min_time ≡ false)

-- The block is in one of the levels.
abbrev pub InLevels : List Level → Block → Type 0
InLevels [] b = ⊥
InLevels ((r, bs) ∷ levels) b = Contains b bs ⊎ InLevels levels b

All-weaken :
    (P Q : Block → Type 0) (bs : List Block) → ((b : Block) → P b → Q b) → All P bs → All Q bs
All-weaken P Q [] f h = tt
All-weaken P Q (b ∷ bs) f (p, h) = (f b p, All-weaken P Q bs f h)

narrower :
    (mint maxt start end : ℤ) (b : Block)
    → leb_ℤ mint start ≡ true
    → leb_ℤ end maxt ≡ true
    → Overlaps start end b
    → Overlaps mint maxt b
narrower mint maxt start end b p q (h, k) = (ground (arith, h, k), ground (arith, h, k))

before_block : (maxt t : ℤ) → ltb_ℤ maxt t ≡ false → leb_ℤ (t -ℤ pos 1) maxt ≡ true
unfolding ◌-ℤ◌
before_block maxt t h = ground arith

leb_same : (t : ℤ) → leb_ℤ t t ≡ true
leb_same t = ground arith

after_mint : (mint t : ℤ) → leb_ℤ t mint ≡ false → (ltb_ℤ mint t ≡ true) × (leb_ℤ mint t ≡ true)
after_mint mint t h = (ground arith, ground arith)

All-of : {P : Block → Type 0} (xs : List Block) → ((b : Block) → Contains b xs → P b) → All P xs
All-of [] f = tt
All-of (x ∷ xs) f = (f x (inl refl), All-of xs (λ b h. f b (inr h)))

module _ (matches : Block → Bool) where
  -- What a block that is returned is: of the set, with data in the times, and matching.
  abbrev pub IsWanted : List Level → ℤ → ℤ → Block → Type 0
  IsWanted levels mint maxt b = InLevels levels b × Overlaps mint maxt b × (matches b ≡ true)

  All-fill_level :
      (Q : Block → Type 0) (gaps : ℤ → ℤ → List Block) (mint maxt start : ℤ) (bs : List Block)
      → ((s e : ℤ) → leb_ℤ mint s ≡ true → leb_ℤ e maxt ≡ true → All Q (gaps s e))
      → All (λ b. Overlaps mint maxt b → matches b ≡ true → Q b) bs
      → leb_ℤ mint start ≡ true
      → All Q (fill_level matches gaps mint maxt start bs)
  unfolding fill_level
  All-fill_level Q gaps mint maxt start [] g h p = g start maxt p (leb_same maxt)
  All-fill_level Q gaps mint maxt start (b ∷ bs) g (q, h) p =
      elim (Bool-cases (leb_ℤ b.max_time mint)) [
        | inl t ↦ rw t (All-fill_level Q gaps mint maxt start bs g h p)
        | inr t ↦ rw t (elim (Bool-cases (ltb_ℤ maxt b.min_time)) [
          | inl u ↦ rw u (g start maxt p (leb_same maxt))
          | inr u ↦
              (let rest =
                  All-fill_level Q gaps mint maxt b.max_time bs g h
                    (after_mint mint b.max_time t).1 in
                rw u (
                  All-append Q (gaps start (b.min_time -ℤ pos 1)) _
                    (g start (b.min_time -ℤ pos 1) p (before_block maxt b.min_time u))
                    (elim (Bool-cases (matches b)) [
                      | inl v ↦ rw v (q ((after_mint mint b.max_time t).0, u) v, rest)
                      | inr v ↦ rw v rest
                    ])))
        ])
      ]

  get_from-IsWanted :
      (levels : List Level) (mint maxt : ℤ)
      → All (IsWanted levels mint maxt) (get_from matches levels mint maxt)
  unfolding get_from
  get_from-IsWanted [] mint maxt = tt
  get_from-IsWanted ((r, bs) ∷ levels) mint maxt =
      if_both (All (IsWanted ((r, bs) ∷ levels) mint maxt)) (ltb_ℤ maxt mint) [] _ tt (
        All-fill_level (IsWanted ((r, bs) ∷ levels) mint maxt) (get_from matches levels) mint maxt
          mint bs
          (λ s e p q.
            All-weaken (IsWanted levels s e) (IsWanted ((r, bs) ∷ levels) mint maxt)
              (get_from matches levels s e)
              (λ b (i, o, m). (inr i, narrower mint maxt s e b p q o, m))
              (get_from-IsWanted levels s e))
          (All-of bs (λ b c o m. (inl c, o, m))) (leb_same mint))

  -- The block is in a level whose resolution does not exceed the maximum.
  abbrev pub InLevelsUpTo : ℤ → List Level → Block → Type 0
  InLevelsUpTo max_resolution [] b = ⊥
  InLevelsUpTo max_resolution ((r, bs) ∷ levels) b =
      ((leb_ℤ r max_resolution ≡ true) × Contains b bs) ⊎ InLevelsUpTo max_resolution levels b

  -- The resolutions do not rise from level to level.
  abbrev pub Falls : List Level → Type 0
  Falls [] = Unit {0}
  Falls ((r, bs) ∷ levels) = All (λ l. leb_ℤ l.0 r ≡ true) levels × Falls levels

  -- What `getFor` may answer: blocks, or a panic.
  abbrev pub Gets : List Level → ℤ → ℤ → ℤ → Option (List Block) → Type 0
  Gets levels mint maxt max_resolution none =
      (leb_ℤ mint maxt ≡ true) × All (λ l. ltb_ℤ max_resolution l.0 ≡ true) levels
  Gets levels mint maxt max_resolution (some bs) =
      All (λ b. InLevelsUpTo max_resolution levels b × Overlaps mint maxt b × (matches b ≡ true)) bs

  InLevelsUpTo-finer :
      (max_resolution r : ℤ) (levels : List Level) (b : Block)
      → leb_ℤ r max_resolution ≡ true
      → All (λ l. leb_ℤ l.0 r ≡ true) levels
      → InLevels levels b
      → InLevelsUpTo max_resolution levels b
  InLevelsUpTo-finer max_resolution r [] b h k c = absurd c
  InLevelsUpTo-finer max_resolution r ((s, bs) ∷ levels) b h (k, f) (inl c) =
      inl (ground (arith, h, k), c)
  InLevelsUpTo-finer max_resolution r ((s, bs) ∷ levels) b h (k, f) (inr c) =
      inr (InLevelsUpTo-finer max_resolution r levels b h f c)

  skip_levels-InLevelsUpTo :
      (max_resolution : ℤ) (levels : List Level) (b : Block)
      → Falls levels
      → InLevels (skip_levels max_resolution levels) b
      → InLevelsUpTo max_resolution levels b
  unfolding skip_levels
  skip_levels-InLevelsUpTo max_resolution [] b = λ f c. c
  skip_levels-InLevelsUpTo max_resolution ((r, bs) ∷ levels) b =
      elim (Bool-cases (ltb_ℤ max_resolution r)) [
        | inl t ↦ rw t (λ f c. inr (skip_levels-InLevelsUpTo max_resolution levels b f.1 c))
        | inr t ↦ rw t (λ f c.
            let h : leb_ℤ r max_resolution ≡ true = ground arith in
            elim c [
              | inl i ↦ inl (h, i)
              | inr i ↦ inr (InLevelsUpTo-finer max_resolution r levels b h f.0 i)
            ])
      ]

  skip_levels-none :
      (max_resolution : ℤ) (levels : List Level)
      → skip_levels max_resolution levels ≡ []
      → All (λ l. ltb_ℤ max_resolution l.0 ≡ true) levels
  unfolding skip_levels
  skip_levels-none max_resolution [] = λ e. tt
  skip_levels-none max_resolution ((r, bs) ∷ levels) = elim (Bool-cases (ltb_ℤ max_resolution r)) [
    | inl t ↦ rw t (λ e. (refl, skip_levels-none max_resolution levels e))
    | inr t ↦ rw t (λ e. absurd (ground arith))
  ]

  List-cases : (ls : List Level) → (ls ≡ []) ⊎ ((l : Level) × (ms : List Level) × (ls ≡ l ∷ ms))
  List-cases [] = inl refl
  List-cases (l ∷ ls) = inr (l, ls, refl)

  -- The resolutions do not rise from level to level. Every block that `getFor` returns is a block of a
  -- level whose resolution does not exceed the maximum, it has data between the two times (its end is
  -- exclusive), and it matches. It panics only where the times are in order and the resolutions of
  -- all levels exceed the maximum.
  pub get_for-IsWanted :
      (levels : List Level) (mint maxt max_resolution : ℤ)
      → Falls levels
      → Gets levels mint maxt max_resolution (get_for matches levels mint maxt max_resolution)
  unfolding get_for
  get_for-IsWanted levels mint maxt max_resolution f = elim (Bool-cases (ltb_ℤ maxt mint)) [
    | inl t ↦ rw t tt
    | inr t ↦ elim (List-cases (skip_levels max_resolution levels)) [
      | inl e ↦ rw (get_for, t, e) (ground arith, skip_levels-none max_resolution levels e)
      | inr (l, ls, e) ↦
          rw (get_for, t, e)
            (All-weaken (IsWanted (l ∷ ls) mint maxt)
              (λ b.
                InLevelsUpTo max_resolution levels b × Overlaps mint maxt b × (matches b ≡ true))
              (get_from matches (l ∷ ls) mint maxt)
              (λ b w. (
                skip_levels-InLevelsUpTo max_resolution levels b f
                    (subst (λ ks. InLevels ks b) (sym e) w.0),
                w.1,
                w.2,
              ))
              (get_from-IsWanted (l ∷ ls) mint maxt))
    ]
  ]

-- What a block is of, after a change.
insert_block-Contains :
    (b c : Block) (bs : List Block) → Contains c (insert_block b bs) ↔ ((c ≡ b) ⊎ Contains c bs)
unfolding insert_block
insert_block-Contains b c [] = (λ h. h, λ h. h)
insert_block-Contains b c (d ∷ bs) = ground (arith, insert_block-Contains b c bs)

abbrev AddsTo : Block → List Level → Option (List Level) → Type 0
AddsTo b levels none = Unit {0}
AddsTo b levels (some ls) = (c : Block) → InLevels ls c ↔ ((c ≡ b) ⊎ InLevels levels c)

map-AddsTo :
    (b : Block) (r : ℤ) (bs : List Block) (levels : List Level) (o : Option (List Level))
    → AddsTo b levels o
    → AddsTo b ((r, bs) ∷ levels) (Option.map (λ ls. (r, bs) ∷ ls) o)
map-AddsTo b r bs levels none h = tt
map-AddsTo b r bs levels (some ls) h = λ c. ground (arith, h c)

AddsTo-add_at : (b : Block) (levels : List Level) → AddsTo b levels (add_at b levels)
unfolding add_at
AddsTo-add_at b [] = tt
AddsTo-add_at b ((r, bs) ∷ levels) =
    if_both (AddsTo b ((r, bs) ∷ levels)) (eq_ℤ r b.resolution)
      (some ((r, insert_block b bs) ∷ levels)) (Option.map (λ ls. (r, bs) ∷ ls) (add_at b levels))
      (λ c. ground (arith, insert_block-Contains b c bs))
      (map-AddsTo b r bs levels (add_at b levels) (AddsTo-add_at b levels))

-- What `add` may answer: a set that has the block and those that it had; that the labels differ, if
-- they do; or that the resolution is not supported, if no level has it.
abbrev pub Answers : (Block → Bool) → Block → List Level → AddError → Type 0
Answers same_labels b levels (added ls) =
    (same_labels b ≡ true) × ((c : Block) → InLevels ls c ↔ ((c ≡ b) ⊎ InLevels levels c))
Answers same_labels b levels labels_differ = same_labels b ≡ false
Answers same_labels b levels (unsupported_resolution r) =
    (same_labels b ≡ true) × (r ≡ b.resolution) × All (λ l. eq_ℤ l.0 b.resolution ≡ false) levels

add_at-none :
    (b : Block) (levels : List Level)
    → add_at b levels ≡ none
    → All (λ l. eq_ℤ l.0 b.resolution ≡ false) levels
unfolding add_at
add_at-none b [] e = tt
add_at-none b ((r, bs) ∷ levels) e = elim (Bool-cases (eq_ℤ r b.resolution)) [
  | inl t ↦ ground arith
  | inr t ↦ (t, add_at-none b levels (ground arith))
]

-- `add` gives a set that has the block and those that were there, if the labels are the set's and
-- there is a level of the block's resolution; and else it says which of the two is not so.
pub add-Answers :
    (same_labels : Block → Bool) (b : Block) (levels : List Level)
    → Answers same_labels b levels (add same_labels b levels)
unfolding add
add-Answers same_labels b levels = elim (Bool-cases (same_labels b)) [
  | inr t ↦ rw t t
  | inl t ↦ elim (Option-cases (add_at b levels)) [
    | inl e ↦ rw (t, e, add) (t, refl, add_at-none b levels e)
    | inr (ls, e) ↦ rw (t, e, add) (t, subst (AddsTo b levels) e (AddsTo-add_at b levels))
  ]
]
