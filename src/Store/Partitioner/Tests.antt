-- ===== src/Store/Partitioner/Tests.antt =====
-- pkg/store/bucket.go: runs of the partitioner, and the theorem at a concrete input.
use Prim.Native.Nat.{min}
use promlts.Store.Partitioner.{Part, partition}
use promlts.Store.Partitioner.Cover.{Tiles, partition-Tiles}
use promlts.Prelude.{ltb, if◌then◌else◌, ℕ, ◌+◌, ◌*◌, ◌≡◌, refl, some, List, [], ◌∷◌, arith}

-- Ranges of 5 bytes, 8 bytes apart up to the third and 100 bytes further on from there.
abbrev ranges : ℕ → ℕ × ℕ
ranges i = if ltb i 3 then (i * 8, i * 8 + 5) else (min i 1000 * 8 + 100, min i 1000 * 8 + 105)

two_parts :
    partition 4 ranges 5
    ≡ some (
        record { start = 0; end = 21; first = 0; last = 3 }
        ∷ record { start = 124; end = 137; first = 3; last = 5 }
        ∷ [])
unfolding partition
two_parts = refl

partition-Tiles_example :
    (ps : List Part) × (partition 4 ranges 5 ≡ some ps) × Tiles 4 ranges 5 0 ps
partition-Tiles_example = partition-Tiles 4 ranges (λ i. ground arith) (λ i j h. ground arith) 5
