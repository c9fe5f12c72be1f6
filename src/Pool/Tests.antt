-- ===== src/Pool/Tests.antt =====
-- pkg/pool/pool.go: runs, and the theorems at concrete inputs.
use promlts.Pool.{
  Slice, pool_exhausted, ok, err, BucketedBytes, Factor, new_bucketed_bytes, new_slice, from_bucket,
  find_bucket, exhausted, get,
}
use promlts.Pool.Accounting.{State, caps, got, Reach, here, next, Reach-accounts}
use promlts.Prelude.{ℕ, ◌+◌, ◌≤◌, ◌≡◌, refl, false, Option, none, [], ◌∷◌, arith}

abbrev doubling : Factor
doubling = record { below_one = false; scale = λ s. s + s }

abbrev flat : Factor
flat = record { below_one = false; scale = λ s. s }

abbrev small_pool : BucketedBytes
small_pool = record {
  buckets = [] ∷ [] ∷ [];
  sizes = 10 ∷ 20 ∷ [];
  max_total = 100;
  used_total = 0;
}

new_pool : new_bucketed_bytes 4 10 20 doubling 100 ≡ ok small_pool
unfolding new_bucketed_bytes
new_pool = refl

abbrev after_get : BucketedBytes
after_get = record small_pool { used_total = 20 }

get_twelve : get none small_pool 12 ≡ ok (new_slice 20, after_get)
unfolding get find_bucket from_bucket exhausted
get_twelve = refl

get_too_large : get none small_pool 101 ≡ err pool_exhausted
unfolding get exhausted
get_too_large = refl

abbrev one_held : State
one_held = record { pool = after_get; held = new_slice 20 ∷ [] }

one_get : Reach (record { pool = small_pool; held = [] }) one_held
one_get = next here (got none 12 get_twelve (omega arith))

Reach-accounts_example :
    (one_held.pool.used_total ≡ caps one_held.held)
    × ((pick : Option ℕ) (sz : ℕ) (b : Slice) (p' : BucketedBytes)
        → get pick after_get sz ≡ ok (b, p')
        → sz ≤ b.cap)
Reach-accounts_example = Reach-accounts 4 10 20 100 doubling small_pool one_held new_pool one_get
