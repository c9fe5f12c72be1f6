-- ===== src/Pool.antt =====
-- pkg/pool/pool.go: a bucketed pool of byte slices.
-- A `[]byte` is its length and its capacity, and a nil `*[]byte` is `none`. `sync.Pool.Get` may
-- hand out any slice that was put, or none, so the caller of `get` says which one: `none`, or the
-- index of a slice that is kept. The float factor is what the code computes with it.
pub mod Sizes
pub mod Fit
pub mod Accounting
mod Tests
use promlts.Prelude.{
  ℕ, zero, suc, ◌+◌, ◌-◌, ◌%◌, ◌^◌, Bool, ◌&&◌, Option, none, some, List, [], ◌∷◌, ◌++◌, ltb, leb,
  if◌then◌else◌,
}

-- Arithmetic on `uint64` wraps.
abbrev pub u64 : ℕ → ℕ
u64 n = n % 2 ^ 64

pub record Slice : Type 0 where
  pub len : ℕ
  pub cap : ℕ

pub data Error : Type 0 where
  invalid_min_size invalid_max_size invalid_factor pool_exhausted : Error

pub data Result {ℓ} (A : Type ℓ) : Type ℓ where
  ok : A → Result A
  err : Error → Result A
  -- the loop of the constructor ran out of fuel, which is no Go value
  stuck : Result A

-- Buckets and sizes are parallel, as in the source.
pub record BucketedBytes : Type 0 where
  pub buckets : List (List Slice)
  pub sizes : List ℕ
  pub max_total : ℕ
  pub used_total : ℕ

-- `factor < 1`, and `int(float64(s) * factor)`.
pub record Factor : Type 0 where
  pub below_one : Bool
  pub scale : ℕ → ℕ

abbrev pub empty_buckets : List ℕ → List (List Slice)
empty_buckets [] = []
empty_buckets (z ∷ zs) = [] ∷ empty_buckets zs

pub fill_sizes : Factor → ℕ → ℕ → ℕ → List ℕ → Option (List ℕ)
fill_sizes f max_size zero s sizes = none
fill_sizes f max_size (suc fuel) s sizes =
    let rest = fill_sizes f max_size fuel (f.scale s) (sizes ++ (s ∷ [])) in
    if leb s max_size then rest else some sizes

abbrev pub with_sizes : ℕ → Option (List ℕ) → Result BucketedBytes
with_sizes max_total none = stuck
with_sizes max_total (some sizes) =
    ok (record {
      buckets = empty_buckets sizes;
      sizes = sizes;
      max_total = max_total;
      used_total = 0;
    })

pub new_bucketed_bytes : ℕ → ℕ → ℕ → Factor → ℕ → Result BucketedBytes
unfolding fill_sizes
new_bucketed_bytes fuel min_size max_size factor max_total =
    if ltb min_size 1
    then err invalid_min_size
    else if ltb max_size 1
    then err invalid_max_size
    else if factor.below_one
    then err invalid_factor
    else with_sizes max_total (fill_sizes factor max_size fuel min_size [])

abbrev pub new_slice : ℕ → Slice
new_slice sz = record { len = 0; cap = sz }

-- What a search further down a list found, with the elements passed over put back.
abbrev pub behind : {A B : Type 0} → A → Option (B × List A) → Option (B × List A)
behind a none = none
behind a (some (b, rest)) = some (b, a ∷ rest)

-- Takes the slice at an index out of what a `sync.Pool` keeps.
pub take_slice : List Slice → ℕ → Option (Slice × List Slice)
take_slice [] i = none
take_slice (b ∷ bs) zero = some (b, bs)
take_slice (b ∷ bs) (suc i) = behind b (take_slice bs i)

abbrev pub or_new : ℕ → List Slice → Option (Slice × List Slice) → Slice × List Slice
or_new size kept none = (new_slice size, kept)
or_new size kept (some found) = found

-- `p.buckets[i].Get()`, or a new slice of the size of the bucket.
pub from_bucket : Option ℕ → ℕ → List Slice → Slice × List Slice
from_bucket none size kept = (new_slice size, kept)
from_bucket (some i) size kept = or_new size kept (take_slice kept i)

abbrev pub refill : List (List Slice) → Slice × List Slice → Slice × List (List Slice)
refill buckets (b, rest) = (b, rest ∷ buckets)

-- The loop of `Get` over the sizes; `none` when the request exceeds the highest bucket.
pub find_bucket : Option ℕ → ℕ → List ℕ → List (List Slice) → Option (Slice × List (List Slice))
find_bucket pick sz [] buckets = none
find_bucket pick sz (size ∷ sizes) [] = none
find_bucket pick sz (size ∷ sizes) (kept ∷ buckets) =
    if ltb size sz
    then behind kept (find_bucket pick sz sizes buckets)
    else some (refill buckets (from_bucket pick size kept))

abbrev pub account : BucketedBytes → ℕ → Option (Slice × List (List Slice)) → Slice × BucketedBytes
account p sz none = (new_slice sz, record p { used_total = u64 (p.used_total + sz) })
account p sz (some (b, buckets)) =
    (b, record p { buckets = buckets; used_total = u64 (p.used_total + b.cap) })

pub exhausted : BucketedBytes → ℕ → Bool
exhausted p sz = ltb 0 p.max_total && ltb p.max_total (u64 (p.used_total + sz))

pub get : Option ℕ → BucketedBytes → ℕ → Result (Slice × BucketedBytes)
get pick p sz =
    if exhausted p sz
    then err pool_exhausted
    else ok (account p sz (find_bucket pick sz p.sizes p.buckets))

-- The loop of `Put`.
pub put_bucket : Slice → List ℕ → List (List Slice) → List (List Slice)
put_bucket b [] buckets = buckets
put_bucket b (size ∷ sizes) [] = []
put_bucket b (size ∷ sizes) (kept ∷ buckets) =
    if ltb size b.cap
    then kept ∷ put_bucket b sizes buckets
    else (record b { len = 0 } ∷ kept) ∷ buckets

pub put : BucketedBytes → Option Slice → BucketedBytes
put p none = p
put p (some b) = record p {
  buckets = put_bucket b p.sizes p.buckets;
  used_total = if leb p.used_total b.cap then 0 else p.used_total - b.cap;
}
