-- ===== src/Labelpb/Hash.antt =====
-- pkg/store/labelpb/label.go: `HashWithPrefix`.
use mathlib.Core.List.{append-nil, append_assoc}
use promlts.Labelpb.{Bytes, Label, XxHash, sep, write_labels, hash_loop, hash_with_prefix}
use promlts.Prelude.{leb, Bool-cases, length, ℕ, ◌+◌, ◌≡◌, sym, inl, inr, List, [], ◌∷◌, ◌++◌}

-- What the code relies on: a digest hashes what has been written to it, in order.
pub record HashesWrites (xx : XxHash) (written : xx.Digest → Bytes) : Type 0 where
  pub nothing : written xx.new ≡ []
  pub more : (h : xx.Digest) (b : Bytes) → written (xx.write h b) ≡ written h ++ b
  pub summed : (h : xx.Digest) → xx.sum h ≡ xx.sum64 (written h)

-- The labels as they are hashed.
abbrev pub label_bytes : List Label → Bytes
label_bytes [] = []
label_bytes (v ∷ lbls) = v.name ++ (sep ++ (v.value ++ (sep ++ label_bytes lbls)))

module _ (xx : XxHash) (written : xx.Digest → Bytes) (laws : HashesWrites xx written)
    (grown : ℕ → ℕ) where
  written-write_labels :
      (h : xx.Digest) (lbls : List Label)
      → written (write_labels xx grown h lbls) ≡ written h ++ label_bytes lbls
  unfolding write_labels
  written-write_labels h [] = sym (append-nil (written h))
  written-write_labels h (v ∷ lbls) = simp (
    written-write_labels (xx.write (xx.write (xx.write (xx.write h v.name) sep) v.value) sep) lbls,
    laws.more,
    append_assoc,
  )

  hash_loop_lem :
      (cap : ℕ) (b : Bytes) (lbls : List Label)
      → hash_loop xx grown cap b lbls ≡ xx.sum64 (b ++ label_bytes lbls)
  unfolding hash_loop
  hash_loop_lem room b [] = rw append-nil
  hash_loop_lem room b (v ∷ lbls) =
      elim (Bool-cases (leb room (length b + length v.name + length v.value + 2))) [
        | inl t ↦ rw t (simp (laws.summed, written-write_labels, laws.more, laws.nothing))
        | inr t ↦ rw t (
            simp
              (hash_loop_lem room (b ++ (v.name ++ (sep ++ (v.value ++ sep)))) lbls, append_assoc))
      ]

  -- Whether the labels fit the first buffer or not, and whatever its capacity, `HashWithPrefix` is
  -- the xxHash of the prefix, a separator, and each label's name and value with a separator each.
  pub hash_with_prefix_lem :
      (prefix : Bytes) (lbls : List Label)
      → hash_with_prefix xx grown prefix lbls ≡ xx.sum64 (prefix ++ (sep ++ label_bytes lbls))
  unfolding hash_with_prefix
  hash_with_prefix_lem prefix lbls = rw hash_loop_lem (rw append_assoc)
