-- ===== src/Pool/Fit.antt =====
-- pkg/pool/pool.go: what `Get` hands out is large enough, as long as every slice that is put has
-- the capacity that the pool gave it.
use mathlib.Core.Path.{subst}
use promlts.Pool.{
  u64, Slice, ok, BucketedBytes, empty_buckets, behind, take_slice, or_new, from_bucket,
  find_bucket, account, exhausted, get, put_bucket, put,
}
use promlts.Prelude.{
  ltb, leb, if◌then◌else◌, ltb→lt, lt→ltb, Bool-cases, All, ℕ, zero, suc, ◌+◌, ◌-◌, ◌≤◌, ◌<◌, ◌≡◌,
  refl, ◌⊎◌, inl, inr, false, Option, none, some, List, [], ◌∷◌, arith,
}

-- What bucket i keeps has the size of bucket i.
abbrev pub Fits : List ℕ → List (List Slice) → Type 0
Fits [] buckets = Unit {0}
Fits (size ∷ sizes) [] = ⊥
Fits (size ∷ sizes) (kept ∷ buckets) = All (λ b. b.cap ≡ size) kept × Fits sizes buckets

-- The capacities that the pool gives out: the size of a bucket that is the first to fit, or more
-- than every size.
abbrev pub IsOwn : List ℕ → ℕ → Type 0
IsOwn [] cap = Unit {0}
IsOwn (size ∷ sizes) cap = (cap ≡ size) ⊎ ((size < cap) × IsOwn sizes cap)

abbrev Taken : ℕ → Option (Slice × List Slice) → Type 0
Taken size none = Unit {0}
Taken size (some (b, rest)) = (b.cap ≡ size) × All (λ b. b.cap ≡ size) rest

Taken-behind :
    (size : ℕ) (b : Slice) (o : Option (Slice × List Slice))
    → b.cap ≡ size
    → Taken size o
    → Taken size (behind b o)
Taken-behind size b none h t = tt
Taken-behind size b (some (c, rest)) h t = (t.0, (h, t.1))

take_slice-Taken :
    (size : ℕ) (kept : List Slice) (i : ℕ)
    → All (λ b. b.cap ≡ size) kept
    → Taken size (take_slice kept i)
unfolding take_slice
take_slice-Taken size [] i h = tt
take_slice-Taken size (b ∷ bs) zero h = h
take_slice-Taken size (b ∷ bs) (suc i) h =
    Taken-behind size b (take_slice bs i) h.0 (take_slice-Taken size bs i h.1)

or_new-Taken :
    (size : ℕ) (kept : List Slice) (o : Option (Slice × List Slice))
    → All (λ b. b.cap ≡ size) kept
    → Taken size o
    → Taken size (some (or_new size kept o))
or_new-Taken size kept none h t = (refl, h)
or_new-Taken size kept (some found) h t = t

from_bucket-Taken :
    (pick : Option ℕ) (size : ℕ) (kept : List Slice)
    → All (λ b. b.cap ≡ size) kept
    → Taken size (some (from_bucket pick size kept))
unfolding from_bucket
from_bucket-Taken none size kept h = (refl, h)
from_bucket-Taken (some i) size kept h =
    or_new-Taken size kept (take_slice kept i) h (take_slice-Taken size kept i h)

-- What the search of `Get` finds, and what it leaves.
abbrev Found : ℕ → List ℕ → Option (Slice × List (List Slice)) → Type 0
Found sz sizes none = IsOwn sizes sz
Found sz sizes (some (b, buckets)) = (sz ≤ b.cap) × IsOwn sizes b.cap × Fits sizes buckets

Found-behind :
    (sz size : ℕ) (sizes : List ℕ) (kept : List Slice) (o : Option (Slice × List (List Slice)))
    → size < sz
    → All (λ b. b.cap ≡ size) kept
    → Found sz sizes o
    → Found sz (size ∷ sizes) (behind kept o)
Found-behind sz size sizes kept none h k f = inr (h, f)
Found-behind sz size sizes kept (some (b, buckets)) h k f =
    (f.0, inr (omega (arith, f.0), f.1), (k, f.2))

find_bucket-Found :
    (pick : Option ℕ) (sz : ℕ) (sizes : List ℕ) (buckets : List (List Slice))
    → Fits sizes buckets
    → Found sz sizes (find_bucket pick sz sizes buckets)
unfolding find_bucket
find_bucket-Found pick sz [] buckets h = tt
find_bucket-Found pick sz (size ∷ sizes) [] h = absurd h
find_bucket-Found pick sz (size ∷ sizes) (kept ∷ buckets) h = elim (Bool-cases (ltb size sz)) [
  | inl t ↦ rw t (
      Found-behind sz size sizes kept (find_bucket pick sz sizes buckets) (ltb→lt size sz t) h.0
        (find_bucket-Found pick sz sizes buckets h.1))
  | inr t ↦
      let (same, rest) = from_bucket-Taken pick size kept h.0 in
      rw t (ground arith, inl same, (rest, h.1))
]

put_bucket-Fits :
    (b : Slice) (sizes : List ℕ) (buckets : List (List Slice))
    → IsOwn sizes b.cap
    → Fits sizes buckets
    → Fits sizes (put_bucket b sizes buckets)
unfolding put_bucket
put_bucket-Fits b [] buckets own h = tt
put_bucket-Fits b (size ∷ sizes) [] own h = absurd h
put_bucket-Fits b (size ∷ sizes) (kept ∷ buckets) (inl same) h =
    let t : ltb size b.cap ≡ false = ground arith in rw t ((same, h.0), h.1)
put_bucket-Fits b (size ∷ sizes) (kept ∷ buckets) (inr (more, own)) h =
    rw (lt→ltb size b.cap more) (h.0, put_bucket-Fits b sizes buckets own h.1)

pub empty_buckets-Fits : (sizes : List ℕ) → Fits sizes (empty_buckets sizes)
empty_buckets-Fits [] = tt
empty_buckets-Fits (z ∷ zs) = (tt, empty_buckets-Fits zs)

-- What a call of `Get` that returns guarantees.
abbrev pub Serves : BucketedBytes → ℕ → Slice × BucketedBytes → Type 0
Serves p sz (b, p') =
    (sz ≤ b.cap)
    × IsOwn p.sizes b.cap
    × Fits p'.sizes p'.buckets
    × (p'.sizes ≡ p.sizes)
    × (p'.max_total ≡ p.max_total)

account-Serves :
    (p : BucketedBytes) (sz : ℕ) (o : Option (Slice × List (List Slice)))
    → Fits p.sizes p.buckets
    → Found sz p.sizes o
    → Serves p sz (account p sz o)
account-Serves p sz none h f = (omega arith, f, h, refl, refl)
account-Serves p sz (some (b, buckets)) h f = (f.0, f.1, f.2, refl, refl)

pub get-account :
    (pick : Option ℕ) (p : BucketedBytes) (sz : ℕ) {r : Slice × BucketedBytes}
    → get pick p sz ≡ ok r
    → account p sz (find_bucket pick sz p.sizes p.buckets) ≡ r
unfolding get
get-account pick p sz e = ground arith

-- From a pool that keeps in every bucket slices of that bucket's size, a slice that `Get` returns,
-- whichever one the bucket hands out, has room for the request, its capacity is one that the pool
-- gives out, and the buckets stay as said; the sizes and the limit do not change.
pub get-Serves :
    (pick : Option ℕ) (p : BucketedBytes) (sz : ℕ) (r : Slice × BucketedBytes)
    → Fits p.sizes p.buckets
    → get pick p sz ≡ ok r
    → Serves p sz r
get-Serves pick p sz r h e =
    subst (λ r. Serves p sz r) (get-account pick p sz e)
      (account-Serves p sz (find_bucket pick sz p.sizes p.buckets) h
        (find_bucket-Found pick sz p.sizes p.buckets h))

pub put-Fits :
    (p : BucketedBytes) (b : Slice)
    → Fits p.sizes p.buckets
    → IsOwn p.sizes b.cap
    → Fits p.sizes (put p (some b)).buckets
unfolding put
put-Fits p b h own = put_bucket-Fits b p.sizes p.buckets own h

-- A pool with one empty bucket.
abbrev pub one_bucket : ℕ → ℕ → ℕ → BucketedBytes
one_bucket size used limit = record {
  buckets = [] ∷ [];
  sizes = size ∷ [];
  max_total = limit;
  used_total = used;
}

-- A slice whose capacity is below the size of its bucket, as after its user replaced it, is kept
-- in that bucket, and the next `Get` may return it for a request that it is too small for: for
-- every bucket size, slice and request between the capacity and the size.
pub get-put_small :
    (used size sz : ℕ) (b : Slice)
    → b.cap < sz
    → sz ≤ size
    → (p' : BucketedBytes) × (get (some 0) (put (one_bucket size used 0) (some b)) sz
        ≡ ok (record b { len = 0 }, p'))
      × ¬ (sz ≤ (record b { len = 0 }).cap)
unfolding get put put_bucket find_bucket from_bucket take_slice exhausted
get-put_small used size sz b lt le = (
  record {
    buckets = [] ∷ [];
    sizes = size ∷ [];
    max_total = 0;
    used_total = u64 ((if leb used b.cap then 0 else used - b.cap) + b.cap);
  },
  ground arith,
  omega arith,
)
