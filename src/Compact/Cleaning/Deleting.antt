-- ===== src/Compact/Cleaning/Deleting.antt =====
-- pkg/compact/blocks_cleaner.go and pkg/compact/clean.go: which blocks are deleted.
use mathlib.Core.Path.{subst}
use promlts.Prelude.Dict.{nat_eq, Dict}
use promlts.Block.Marks.{DeletionMark}
use promlts.Block.Deletion.{BlockDir, delete_block}
use promlts.Block.Marks.Age.{is_past, is_older-past}
use promlts.Block.Deletion.Order.{Gone, size_of, BlockEnd, delete_block-Ends}
use promlts.Compact.Cleaning.{with_dir, delete_marked_blocks, is_aborted, clean_partial_uploads}
use promlts.Compact.Cleaning.Marking.{listed}
use promlts.Prelude.{
  ◌==◌, if◌then◌else◌, Bool-cases, Option-cases, ℕ, ◌+◌, ◌≡◌, refl, sym, ap, ◌∙◌, ◌⊎◌, inl, inr,
  Bool, true, false, ◌&&◌, ◌||◌, Option, none, some, List, [], ◌∷◌, arith,
}

-- The block after its deletion, which ends where the bucket fails.
abbrev pub after_delete : (ℕ → ℕ) → (ℕ → BlockDir) → ℕ → BlockDir
after_delete calls dirs id = (delete_block (calls id) (dirs id)).0

abbrev pub is_aborted_id : (ℕ → ℕ) → List ℕ → ℕ → Bool
is_aborted_id clock ids j = listed ids j && is_aborted (clock j) j

abbrev pub AreDistinct : List ℕ → Type 0
AreDistinct [] = Unit
AreDistinct (id ∷ ids) = (listed ids id ≡ false) × AreDistinct ids

same_id : (id : ℕ) → id == id ≡ true
same_id id = ground arith

-- The blocks of aborted uploads are deleted as far as the bucket lets them, whatever becomes of the
-- others, and no other block is touched.
pub clean_partial_uploads-after_delete :
    (clock calls : ℕ → ℕ) (dirs : ℕ → BlockDir) (ids : List ℕ)
    → AreDistinct ids
    → (j : ℕ)
    → clean_partial_uploads clock calls dirs ids j
      ≡ (if is_aborted_id clock ids j then after_delete calls dirs j else dirs j)
unfolding clean_partial_uploads
clean_partial_uploads-after_delete clock calls dirs [] distinct j = refl
clean_partial_uploads-after_delete clock calls dirs (id ∷ ids) (new, distinct) j =
    elim (Bool-cases (is_aborted (clock id) id)) [
      | inr p ↦
          let rest = clean_partial_uploads-after_delete clock calls dirs ids distinct j in
          elim (Bool-cases (id == j)) [
            | inr q ↦ rw (clean_partial_uploads, p, q) rest
            | inl q ↦
                let e : id ≡ j = ground arith in
                rw (clean_partial_uploads, p) (rest ∙ rw (← e, same_id id, p, new) refl)
          ]
      | inl p ↦
          let d = after_delete calls dirs id in
          let rest =
            clean_partial_uploads-after_delete clock calls (with_dir dirs id d) ids distinct j in
          elim (Bool-cases (id == j)) [
            | inr q ↦
                let w : with_dir dirs id d j ≡ dirs j = rw q refl in
                rw (clean_partial_uploads, p, q)
                  (rest
                    ∙ ap
                        (λ z. if is_aborted_id clock ids j then (delete_block (calls j) z).0 else z)
                        w)
            | inl q ↦
                let e : id ≡ j = ground arith in
                rw (clean_partial_uploads, p) (rest ∙ rw (← e, same_id id, p, new) refl)
          ]
    ]

-- A mark that names the block has a time that, plus the delay, is before the clock.
abbrev pub is_due_id : (ℕ → ℕ) → ℕ → Dict ℕ DeletionMark → ℕ → Bool
is_due_id clock delay [] j = false
is_due_id clock delay ((key, m) ∷ marks) j =
    m.id == j && is_past (clock key) delay m.deletion_time || is_due_id clock delay marks j

abbrev pub is_named : Dict ℕ DeletionMark → ℕ → Bool
is_named [] j = false
is_named ((key, m) ∷ marks) j = m.id == j || is_named marks j

-- No two marks name the same block.
abbrev pub NameDistinct : Dict ℕ DeletionMark → Type 0
NameDistinct [] = Unit
NameDistinct ((key, m) ∷ marks) = (is_named marks m.id ≡ false) × NameDistinct marks

-- What the cleaning leaves of a block, whether or not it came to it.
abbrev pub Touched : Bool → BlockDir → BlockDir → BlockDir → Type 0
Touched chosen deleted d d' = (d' ≡ d) ⊎ ((chosen ≡ true) × (d' ≡ deleted))

-- Without an error, nothing is left of a block that is due.
abbrev pub Cleaned : Bool → Bool → BlockDir → BlockDir → Type 0
Cleaned false chosen d d' = Unit
Cleaned true false d d' = d' ≡ d
Cleaned true true d d' = Gone d'

pub record CleansMarked (calls clock : ℕ → ℕ) (delay : ℕ) (dirs : ℕ → BlockDir)
    (marks : Dict ℕ DeletionMark) (r : (ℕ → BlockDir) × Bool) : Type 0 where
  pub touched :
      (j : ℕ) → Touched (is_due_id clock delay marks j) (after_delete calls dirs j) (dirs j) (r.0 j)
  pub cleaned : (j : ℕ) → Cleaned r.1 (is_due_id clock delay marks j) (dirs j) (r.0 j)

is_due_id-named :
    (clock : ℕ → ℕ) (delay : ℕ) (marks : Dict ℕ DeletionMark) (j : ℕ)
    → is_named marks j ≡ false
    → is_due_id clock delay marks j ≡ false
is_due_id-named clock delay [] j h = refl
is_due_id-named clock delay ((key, m) ∷ marks) j h =
    let p : m.id == j ≡ false = ground arith in
    let q : is_named marks j ≡ false = ground arith in rw p (is_due_id-named clock delay marks j q)

Gone-end :
    (left size : ℕ) (d : BlockDir) (o : Option ℕ) (n : ℕ)
    → o ≡ some n
    → BlockEnd left size d o
    → Gone d
Gone-end left size d none n p h = absurd (ground arith)
Gone-end left size d (some k) n p h = h.0

delete_block-Gone :
    (left : ℕ) (d : BlockDir) (n : ℕ)
    → (delete_block left d).1 ≡ some n
    → Gone (delete_block left d).0
delete_block-Gone left d n p = Gone-end left (size_of d + 3) _ _ n p (delete_block-Ends left d).ends

-- The block that is due is the one at hand, and no other mark is its.
here :
    (ok rest : Bool) (d d₁ d₂ del : BlockDir) {del₁ : BlockDir}
    → rest ≡ false
    → d₁ ≡ del
    → Gone del
    → Touched rest del₁ d₁ d₂
    → Cleaned ok rest d₁ d₂
    → Touched true del d d₂ × Cleaned ok true d d₂
here false false d d₁ d₂ del p q g (inl t) c = (inr (refl, t ∙ q), tt)
here true false d d₁ d₂ del p q g (inl t) c = (inr (refl, t ∙ q), subst Gone (sym (t ∙ q)) g)
here ok rest d d₁ d₂ del p q g (inr t) c = absurd (ground (arith, p, t.0))
here ok true d d₁ d₂ del p q g (inl t) c = absurd (ground (arith, p))

module _ (calls clock : ℕ → ℕ) (delay : ℕ) where
  not_due :
      (dirs : ℕ → BlockDir) (key : ℕ) (m : DeletionMark) (marks : Dict ℕ DeletionMark)
      (r : (ℕ → BlockDir) × Bool)
      → is_past (clock key) delay m.deletion_time ≡ false
      → CleansMarked calls clock delay dirs marks r
      → CleansMarked calls clock delay dirs ((key, m) ∷ marks) r
  not_due dirs key m marks r p c = record {
    touched = λ j. elim (Bool-cases (m.id == j)) [
      | inl q ↦ rw (q, p) (c.touched j)
      | inr q ↦ rw q (c.touched j)
    ];
    cleaned = λ j. elim (Bool-cases (m.id == j)) [
      | inl q ↦ rw (q, p) (c.cleaned j)
      | inr q ↦ rw q (c.cleaned j)
    ];
  }

  cut_short :
      (dirs : ℕ → BlockDir) (key : ℕ) (m : DeletionMark) (marks : Dict ℕ DeletionMark)
      → is_past (clock key) delay m.deletion_time ≡ true
      → CleansMarked calls clock delay dirs
          ((key, m) ∷ marks)
          (with_dir dirs m.id (after_delete calls dirs m.id), false)
  cut_short dirs key m marks p = record {
    touched = λ j. elim (Bool-cases (m.id == j)) [
      | inl q ↦
          let e : m.id ≡ j = ground arith in rw (q, p) (inr (refl, ap (after_delete calls dirs) e))
      | inr q ↦ rw q (inl refl)
    ];
    cleaned = λ j. tt;
  }

  deleted_one :
      (dirs : ℕ → BlockDir) (key : ℕ) (m : DeletionMark) (marks : Dict ℕ DeletionMark) (n : ℕ)
      (dirs' : ℕ → BlockDir) (ok : Bool)
      → is_past (clock key) delay m.deletion_time ≡ true
      → is_named marks m.id ≡ false
      → (delete_block (calls m.id) (dirs m.id)).1 ≡ some n
      → CleansMarked calls clock delay
          (with_dir dirs m.id (after_delete calls dirs m.id))
          marks
          (dirs', ok)
      → (j : ℕ)
      → Touched
          (is_due_id clock delay ((key, m) ∷ marks) j)
          (after_delete calls dirs j)
          (dirs j)
          (dirs' j)
        × Cleaned ok (is_due_id clock delay ((key, m) ∷ marks) j) (dirs j) (dirs' j)
  deleted_one dirs key m marks n dirs' ok p new q c j = elim (Bool-cases (m.id == j)) [
    | inr x ↦ rw x (
      subst
          (λ b.
            Touched (is_due_id clock delay marks j)
              (delete_block (calls j) (if b then after_delete calls dirs m.id else dirs j)).0
              (if b then after_delete calls dirs m.id else dirs j) (dirs' j))
          x (c.touched j),
      subst
          (λ b.
            Cleaned ok (is_due_id clock delay marks j)
              (if b then after_delete calls dirs m.id else dirs j) (dirs' j))
          x (c.cleaned j),
    )
    | inl x ↦
        let e : m.id ≡ j = ground arith in
        rw (x, p)
          (here ok (is_due_id clock delay marks j) (dirs j) _ (dirs' j) (after_delete calls dirs j)
            (is_due_id-named clock delay marks j (ap (is_named marks) (sym e) ∙ new))
            (rw x (ap (after_delete calls dirs) e))
            (subst (λ z. Gone (after_delete calls dirs z)) e
              (delete_block-Gone (calls m.id) (dirs m.id) n q))
            (c.touched j) (c.cleaned j))
  ]

  -- No two marks name the same block. The cleaning touches only blocks that a mark names whose time, plus
  -- the delay, is before the clock, and, of these, does no more than delete them. If it ends without an
  -- error, nothing is left of any such block. It goes by the block that a mark names, whatever the block
  -- under which the map has the mark.
  pub delete_marked_blocks-CleansMarked :
      (dirs : ℕ → BlockDir) (marks : Dict ℕ DeletionMark)
      → NameDistinct marks
      → CleansMarked calls clock delay dirs marks
          (delete_marked_blocks calls clock delay dirs marks)
  unfolding delete_marked_blocks
  delete_marked_blocks-CleansMarked dirs [] h = record {
    touched = λ j. inl refl;
    cleaned = λ j. refl;
  }
  delete_marked_blocks-CleansMarked dirs ((key, m) ∷ marks) (new, h) =
      let old = is_older-past (clock key) delay m.deletion_time in
      elim (Bool-cases (is_past (clock key) delay m.deletion_time)) [
        | inr p ↦
            rw (delete_marked_blocks, old ∙ p)
              (not_due dirs key m marks _ p (delete_marked_blocks-CleansMarked dirs marks h))
        | inl p ↦ elim (Option-cases (delete_block (calls m.id) (dirs m.id)).1) [
          | inl q ↦ rw (delete_marked_blocks, old ∙ p, q) (cut_short dirs key m marks p)
          | inr (n, q) ↦
              let rest = deleted_one dirs key m marks n _ _ p new q (
                delete_marked_blocks-CleansMarked
                  (with_dir dirs m.id (after_delete calls dirs m.id)) marks h) in
              rw (delete_marked_blocks, old ∙ p, q)
                (record { touched = λ j. (rest j).0; cleaned = λ j. (rest j).1 })
        ]
      ]
