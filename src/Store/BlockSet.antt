-- ===== src/Store/BlockSet.antt =====
-- pkg/store/bucket.go: `bucketBlockSet`, the blocks of one label set by resolution. Label sets and
-- matchers are parameters: whether a block's labels are the set's, whether the block matches, and
-- the value of a label of the set (empty if it has none).
-- A level is a resolution with its blocks; the resolutions fall from level to level, so that the
-- recursive call of `getFor`, which asks for the next resolution, starts at the next level.
pub mod Covers
pub mod Matchers
mod Tests
use mathlib.Core.Option
use promlts.Prelude.Int.{ℤ, pos, ◌-ℤ◌, ltb_ℤ, leb_ℤ}
use promlts.Labelpb.{Bytes}
use promlts.Prelude.{
  ◌==◌, if◌then◌else◌, length, ℕ, Bool, ◌&&◌, not, Option, none, some, List, [], ◌∷◌, ◌++◌,
}

pub record Block : Type 0 where
  pub ulid : ℕ
  pub min_time : ℤ
  pub max_time : ℤ
  pub resolution : ℤ

abbrev pub Level : Type 0
Level = ℤ × List Block

pub data AddError : Type 0 where
  added : List Level → AddError
  labels_differ : AddError
  unsupported_resolution : ℤ → AddError

abbrev pub eq_ℤ : ℤ → ℤ → Bool
eq_ℤ a b = not (ltb_ℤ a b) && not (ltb_ℤ b a)

pub new_bucket_block_set : List Level
new_bucket_block_set = (pos 3600000, []) ∷ (pos 300000, []) ∷ (pos 0, []) ∷ []

abbrev pub block_before : Block → Block → Bool
block_before a b =
    if eq_ℤ a.min_time b.min_time then ltb_ℤ a.max_time b.max_time else ltb_ℤ a.min_time b.min_time

-- `sort.Slice` of a slice that is sorted but for its last element, `b`.
pub insert_block : Block → List Block → List Block
insert_block b [] = b ∷ []
insert_block b (c ∷ bs) =
    let rest = insert_block b bs in if block_before b c then b ∷ (c ∷ bs) else c ∷ rest

-- `int64index`, and the change of the blocks at that index.
pub add_at : Block → List Level → Option (List Level)
unfolding insert_block
add_at b [] = none
add_at b ((r, bs) ∷ levels) =
    let rest = add_at b levels in
    if eq_ℤ r b.resolution
    then some ((r, insert_block b bs) ∷ levels)
    else Option.map (λ ls. (r, bs) ∷ ls) rest

pub add : (Block → Bool) → Block → List Level → AddError
unfolding add_at
add same_labels b levels =
    if same_labels b
    then elim (add_at b levels) [ none ↦ unsupported_resolution b.resolution | some ls ↦ added ls ]
    else labels_differ

-- The block taken out of one level, if it is there.
pub remove_block : ℕ → List Block → Option (List Block)
remove_block id [] = none
remove_block id (b ∷ bs) =
    let rest = remove_block id bs in
    if b.ulid == id then some bs else Option.map (λ cs. b ∷ cs) rest

pub remove_from : ℕ → List Level → List Level
unfolding remove_block
remove_from id [] = []
remove_from id ((r, bs) ∷ levels) =
    let rest = remove_from id levels in
    elim (remove_block id bs) [ some cs ↦ (r, cs) ∷ levels | none ↦ (r, bs) ∷ rest ]

pub skip_levels : ℤ → List Level → List Level
skip_levels max_resolution [] = []
skip_levels max_resolution ((r, bs) ∷ levels) =
    let rest = skip_levels max_resolution levels in
    if ltb_ℤ max_resolution r then rest else (r, bs) ∷ levels

module _ (matches : Block → Bool) where
  -- The loop over the blocks of a level, where `gaps` is the recursive call between two times.
  pub fill_level : (ℤ → ℤ → List Block) → ℤ → ℤ → ℤ → List Block → List Block
  fill_level gaps mint maxt start [] = gaps start maxt
  fill_level gaps mint maxt start (b ∷ bs) =
      let skipped = fill_level gaps mint maxt start bs in
      let rest = fill_level gaps mint maxt b.max_time bs in
      if leb_ℤ b.max_time mint
      then skipped
      else if ltb_ℤ maxt b.min_time
      then gaps start maxt
      else gaps start (b.min_time -ℤ pos 1) ++ (if matches b then b ∷ rest else rest)

  pub get_from : List Level → ℤ → ℤ → List Block
  unfolding fill_level
  get_from [] mint maxt = []
  get_from ((r, bs) ∷ levels) mint maxt =
      let filled = fill_level (get_from levels) mint maxt mint bs in
      if ltb_ℤ maxt mint then [] else filled

  -- `none` where the code panics: no level has a resolution up to the maximum.
  pub get_for : List Level → ℤ → ℤ → ℤ → Option (List Block)
  unfolding get_from skip_levels
  get_for levels mint maxt max_resolution =
      if ltb_ℤ maxt mint then some [] else elim (skip_levels max_resolution levels) [
        | [] ↦ none
        | (◌∷◌ l ls) ↦ some (get_from (l ∷ ls) mint maxt)
      ]

pub record Matcher : Type 0 where
  pub name : Bytes
  pub accepts : Bytes → Bool

-- The loop of `labelMatchers`, with the matchers kept so far.
pub matchers_from : (Bytes → Bytes) → List Matcher → List Matcher → Option (List Matcher)
matchers_from label res [] = some res
matchers_from label res (m ∷ ms) =
    let kept = matchers_from label (res ++ (m ∷ [])) ms in
    let dropped = matchers_from label res ms in
    if length (label m.name) == 0 then kept else if m.accepts (label m.name) then dropped else none

pub label_matchers : (Bytes → Bytes) → List Matcher → Option (List Matcher)
unfolding matchers_from
label_matchers label matchers = matchers_from label [] matchers
