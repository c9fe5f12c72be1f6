-- ===== src/Labelpb.antt =====
-- pkg/store/labelpb/label.go. A string is the list of its bytes. xxHash is a library: the hash of
-- a byte string, and a digest that is written to piece by piece. The capacity of a buffer that
-- outgrew its first 1024 bytes is the runtime's choice, a parameter.
pub mod Extend
pub mod Hash
mod Tests
use Prim.Native.Nat.{lt, eq, gt, Ordering}
use promlts.Prelude.Order.{Order, nat_order, list_order}
use promlts.Prelude.Dict.{Eq}
use promlts.Prelude.{
  leb, ◌==◌, if◌then◌else◌, length, ℕ, ◌+◌, ◌≡◌, ◌↔◌, Bool, true, false, ◌&&◌, List, [], ◌∷◌, ◌++◌,
  arith,
}

abbrev pub Bytes : Type 0
Bytes = List ℕ

abbrev pub string_order : Order Bytes
string_order = list_order nat_order

abbrev pub bytes_eq : Bytes → Bytes → Bool
bytes_eq [] [] = true
bytes_eq [] (y ∷ b) = false
bytes_eq (x ∷ a) [] = false
bytes_eq (x ∷ a) (y ∷ b) = x == y && bytes_eq a b

pub bytes_eq_iff : (a b : Bytes) → (bytes_eq a b ≡ true) ↔ (a ≡ b)
bytes_eq_iff [] [] = ground arith
bytes_eq_iff [] (y ∷ b) = ground arith
bytes_eq_iff (x ∷ a) [] = ground arith
bytes_eq_iff (x ∷ a) (y ∷ b) = ground (arith, bytes_eq_iff a b)

instance abbrev pub bytes_key : Eq Bytes
bytes_key = record { beq = bytes_eq; beq_iff = bytes_eq_iff }

pub record Label : Type 0 where
  pub name : Bytes
  pub value : Bytes

pub label_compare : Label → Label → Ordering
label_compare m other = elim (string_order.compare m.name other.name) [
  | eq ↦ string_order.compare m.value other.value
  | c ↦ c
]

-- The loop takes the head of one list, or of both.
pub extend_sorted_labels : List Label → List Label → List Label
extend_sorted_labels [] extend = extend
extend_sorted_labels (l ∷ lset) [] = l ∷ lset
extend_sorted_labels (l ∷ lset) (x ∷ extend) = elim (string_order.compare l.name x.name) [
  | eq ↦ x ∷ extend_sorted_labels lset extend
  | lt ↦ l ∷ extend_sorted_labels lset (x ∷ extend)
  | gt ↦ x ∷ extend_sorted_labels (l ∷ lset) extend
]

pub record XxHash : Type 1 where
  pub sum64 : Bytes → ℕ
  pub Digest : Type 0
  pub new : Digest
  pub write : Digest → Bytes → Digest
  pub sum : Digest → ℕ

abbrev pub sep : Bytes
sep = 0xff ∷ []

module _ (xx : XxHash) (grown : ℕ → ℕ) where
  open xx use {sum64, Digest, new, write, sum}

  pub write_labels : Digest → List Label → Digest
  write_labels h [] = h
  write_labels h (v ∷ lbls) =
      write_labels (write (write (write (write h v.name) sep) v.value) sep) lbls

  pub hash_loop : ℕ → Bytes → List Label → ℕ
  hash_loop cap b [] = sum64 b
  hash_loop cap b (v ∷ lbls) =
      let fast = hash_loop cap (b ++ (v.name ++ (sep ++ (v.value ++ sep)))) lbls in
      if leb cap (length b + length v.name + length v.value + 2)
      then sum (write_labels (write new b) (v ∷ lbls))
      else fast

  -- The capacity of the buffer after the prefix and its separator.
  abbrev pub buffer_cap : ℕ → ℕ
  buffer_cap n = if leb n 1024 then 1024 else grown n

  pub hash_with_prefix : Bytes → List Label → ℕ
  unfolding hash_loop
  hash_with_prefix prefix lbls = let b = prefix ++ sep in hash_loop (buffer_cap (length b)) b lbls
