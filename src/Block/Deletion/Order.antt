-- ===== src/Block/Deletion/Order.antt =====
-- pkg/block/block.go: what a deletion that is cut short leaves.
use mathlib.Core.Path.{subst}
use promlts.Labelpb.{Bytes}
use promlts.Block.Deletion.{
  Entries, no_entries, file, directory, BlockDir, delete_entries, Deleted, delete_mark,
  delete_dir_rec, delete_block,
}
use promlts.Prelude.{
  if◌then◌else◌, Bool-cases, ℕ, zero, suc, ◌+◌, ◌<◌, ◌≡◌, refl, ap, ◌∙◌, ◌⊎◌, inl, inr, true, false,
  Option, none, some, arith,
}

-- A block with its metadata is whole, and while objects are left its mark is left too.
pub record Orderly (d d' : BlockDir) : Type 0 where
  pub whole : (d' ≡ d) ⊎ (d'.has_meta ≡ false)
  pub mark_last : (d'.has_mark ≡ d.has_mark) ⊎ (d'.objects ≡ no_entries)

-- All is gone.
abbrev pub Gone : BlockDir → Type 0
Gone d = (d.has_meta ≡ false) × (d.has_mark ≡ false) × (d.objects ≡ no_entries)

-- The calls that delete all entries.
abbrev pub count : Entries → ℕ
count no_entries = 0
count (file name rest) = 1 + count rest
count (directory name inside rest) = 1 + count inside + count rest

abbrev pub size_of : BlockDir → ℕ
size_of d = (if d.has_meta then 1 else 0) + (if d.has_mark then 1 else 0) + count d.objects

-- How the deletion of entries ends: cut short, or with calls left.
abbrev EntriesEnd : ℕ → ℕ → Entries → Option ℕ → Type 0
EntriesEnd left size rest none = left < size
EntriesEnd left size rest (some n) = (rest ≡ no_entries) × (n + size ≡ left)

EntriesEnd-more :
    (left size left' size' k : ℕ) (rest : Entries) (o : Option ℕ)
    → left' ≡ left + k
    → size' ≡ size + k
    → EntriesEnd left size rest o
    → EntriesEnd left' size' rest o
EntriesEnd-more left size left' size' k rest none p q h = omega arith
EntriesEnd-more left size left' size' k rest (some n) p q h = (h.0, omega (arith, h.1, p, q))

after_inside :
    (left : ℕ) (name : Bytes) (inside rest : Entries) (r : Entries × Option ℕ)
    → ((n : ℕ) → EntriesEnd n (count rest) (delete_entries n rest).0 (delete_entries n rest).1)
    → EntriesEnd left (count inside) r.0 r.1
    → (λ (o : Entries × Option ℕ). EntriesEnd (suc left) (1 + count inside + count rest) o.0 o.1)
        (elim r.1 [ none ↦ (directory name r.0 rest, none) | some n ↦ delete_entries n rest ])
after_inside left name inside rest (e, none) h g = omega arith
after_inside left name inside rest (e, some n) h g =
    EntriesEnd-more n (count rest) (suc left) (1 + count inside + count rest) (1 + count inside) _ _
      (omega (arith, g.1)) (omega arith) (h n)

delete_entries-EntriesEnd :
    (left : ℕ) (es : Entries)
    → EntriesEnd left (count es) (delete_entries left es).0 (delete_entries left es).1
unfolding delete_entries
delete_entries-EntriesEnd left no_entries = (refl, omega arith)
delete_entries-EntriesEnd zero (file name rest) = omega arith
delete_entries-EntriesEnd (suc left) (file name rest) =
    EntriesEnd-more left (count rest) (suc left) (1 + count rest) 1 _ _ (omega arith) (omega arith)
      (delete_entries-EntriesEnd left rest)
delete_entries-EntriesEnd zero (directory name inside rest) = omega arith
delete_entries-EntriesEnd (suc left) (directory name inside rest) =
    after_inside left name inside rest (delete_entries left inside)
      (λ n. delete_entries-EntriesEnd n rest) (delete_entries-EntriesEnd left inside)

-- The directory of `d` after its entries were deleted.
record Part (left : ℕ) (d : BlockDir) (r : Deleted) : Type 0 where
  same_meta : r.0.has_meta ≡ d.has_meta
  same_mark : r.0.has_mark ≡ d.has_mark
  ends : EntriesEnd left (count d.objects) r.0.objects r.1

-- How the deletion of a block ends.
abbrev pub BlockEnd : ℕ → ℕ → BlockDir → Option ℕ → Type 0
BlockEnd left size d none = left < size
BlockEnd left size d (some n) = Gone d × (n + size ≡ left)

record AllButMeta (left : ℕ) (d : BlockDir) (r : Deleted) : Type 0 where
  no_meta : r.0.has_meta ≡ false
  mark_last : (r.0.has_mark ≡ d.has_mark) ⊎ (r.0.objects ≡ no_entries)
  ends : BlockEnd left (size_of d + 2) r.0 r.1

marked_end :
    (left : ℕ) (d e : BlockDir) (n : ℕ)
    → d.has_meta ≡ false
    → Part left d (e, some (suc n))
    → e.has_mark ≡ true
    → AllButMeta (suc left) d (delete_mark (e, some (suc n)))
unfolding delete_mark
marked_end left d e zero m h q =
    rw (delete_mark, q)
      (record {
        no_meta = h.same_meta ∙ m;
        mark_last = inl h.same_mark;
        ends = ground (arith, h.ends, h.same_mark, q);
      })
marked_end left d e (suc n) m h q =
    rw (delete_mark, q)
      (record {
        no_meta = h.same_meta ∙ m;
        mark_last = inr h.ends.0;
        ends = ((h.same_meta ∙ m, refl, h.ends.0), ground (arith, h.ends, h.same_mark, q));
      })

delete_mark-AllButMeta :
    (left : ℕ) (d : BlockDir) (r : Deleted)
    → d.has_meta ≡ false
    → Part left d r
    → AllButMeta (suc left) d (delete_mark r)
unfolding delete_mark
delete_mark-AllButMeta left d (e, none) m h = record {
  no_meta = h.same_meta ∙ m;
  mark_last = inl h.same_mark;
  ends = ground (arith, h.ends);
}
delete_mark-AllButMeta left d (e, some zero) m h = record {
  no_meta = h.same_meta ∙ m;
  mark_last = inl h.same_mark;
  ends = ground (arith, h.ends);
}
delete_mark-AllButMeta left d (e, some (suc n)) m h = elim (Bool-cases e.has_mark) [
  | inr q ↦
      rw (delete_mark, q)
        (record {
          no_meta = h.same_meta ∙ m;
          mark_last = inr h.ends.0;
          ends = ((h.same_meta ∙ m, q, h.ends.0), ground (arith, h.ends, h.same_mark, q));
        })
  | inl q ↦ marked_end left d e n m h q
]

dir_rec-AllButMeta :
    (left : ℕ) (d : BlockDir)
    → d.has_meta ≡ false
    → AllButMeta left d (delete_mark (delete_dir_rec left d))
unfolding delete_mark delete_dir_rec
dir_rec-AllButMeta zero d m = record { no_meta = m; mark_last = inl refl; ends = omega arith }
dir_rec-AllButMeta (suc left) d m =
    delete_mark-AllButMeta left d _ m (record {
      same_meta = refl;
      same_mark = refl;
      ends = delete_entries-EntriesEnd left d.objects;
    })

BlockEnd-more :
    (left left' size size' : ℕ) (d : BlockDir) (o : Option ℕ) (k : ℕ)
    → left' ≡ left + k
    → size' ≡ size + k
    → BlockEnd left size d o
    → BlockEnd left' size' d o
BlockEnd-more left left' size size' d none k p q h = omega arith
BlockEnd-more left left' size size' d (some n) k p q h = (h.0, omega (arith, h.1, p, q))

pub record Ends (left : ℕ) (d : BlockDir) (r : Deleted) : Type 0 where
  pub orderly : Orderly d r.0
  pub ends : BlockEnd left (size_of d + 3) r.0 r.1

with_meta :
    (left : ℕ) (d : BlockDir) → d.has_meta ≡ true → Ends (suc left) d (delete_block (suc left) d)
unfolding delete_block
with_meta zero d m =
    rw (delete_block, m)
      (record {
        orderly = record {
          whole = inl (ap (λ b. record d { has_meta = b }) {x = d.has_meta} {y = true} m);
          mark_last = inl refl;
        };
        ends = omega arith;
      })
with_meta (suc left) d m =
    let h = dir_rec-AllButMeta left (record d { has_meta = false }) refl in
    rw (delete_block, m)
      (record {
        orderly = record { whole = inr h.no_meta; mark_last = h.mark_last };
        ends =
            BlockEnd-more left (suc (suc left)) (size_of (record d { has_meta = false }) + 2) _ _ _
              2 (omega arith) (omega arith) h.ends;
      })

-- However many calls of the bucket go through: a block that still has its metadata is untouched, and
-- a mark is not deleted before the last object. The deletion succeeds exactly if there are calls
-- for each file and each directory, the one of the block included, and for the two questions whether
-- a file exists, and then nothing of the block is left.
pub delete_block-Ends : (left : ℕ) (d : BlockDir) → Ends left d (delete_block left d)
unfolding delete_block
delete_block-Ends zero d = record {
  orderly = record { whole = inl refl; mark_last = inl refl };
  ends = omega arith;
}
delete_block-Ends (suc left) d = elim (Bool-cases d.has_meta) [
  | inr m ↦
      let h = dir_rec-AllButMeta left d m in
      rw (delete_block, m)
        (record {
          orderly = record { whole = inr h.no_meta; mark_last = h.mark_last };
          ends =
              BlockEnd-more left (suc left) (size_of (record d { has_meta = false }) + 2)
                (size_of (record d { has_meta = false }) + 3) _ _ 1 (omega arith) (omega arith)
                (subst
                  (λ b.
                    BlockEnd left (size_of (record d { has_meta = b }) + 2)
                      (delete_mark (delete_dir_rec left d)).0
                      (delete_mark (delete_dir_rec left d)).1)
                  m h.ends);
        })
  | inl m ↦ with_meta left d m
]
