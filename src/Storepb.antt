-- ===== src/Storepb.antt =====
-- pkg/store/storepb: chunks and series of the StoreAPI, and their order (custom.go).
-- An `int` that a `Compare` method returns is the `Ordering` of its sign; a nil pointer is `none`.
pub mod ChunkOrder
pub mod SeriesSet
use Prim.Native.Nat.{lt, eq, gt, min, max, Ordering}
use promlts.Prelude.Order.{Order, lex, nat_order, list_order}
use promlts.Prelude.Int.{ℤ, ltb_ℤ}
use promlts.Prelude.{ltb, if◌then◌else◌, ℕ, Option, none, some, List, [], ◌∷◌}

abbrev pub Bytes : Type 0
Bytes = List ℕ

pub record Chunk : Type 0 where
  pub encoding : ℕ
  pub payload : Bytes

pub record AggrChunk : Type 0 where
  pub min_time : ℤ
  pub max_time : ℤ
  pub raw : Option Chunk
  pub count : Option Chunk
  pub sum : Option Chunk
  pub min : Option Chunk
  pub max : Option Chunk
  pub counter : Option Chunk

-- `bytes.Compare`
abbrev pub bytes_order : Order Bytes
bytes_order = list_order nat_order

pub chunk_compare : Option Chunk → Option Chunk → Ordering
chunk_compare none none = eq
chunk_compare (some m) none = gt
chunk_compare none (some b) = lt
chunk_compare (some m) (some b) =
    if ltb m.encoding b.encoding
    then gt
    else if ltb b.encoding m.encoding
    then lt
    else bytes_order.compare m.payload b.payload

-- The loop over the comparisons of the aggregates.
abbrev pub first_decided : List Ordering → Ordering
first_decided [] = eq
first_decided (c ∷ cs) = lex c (first_decided cs)

pub aggr_compare : AggrChunk → AggrChunk → Ordering
unfolding chunk_compare
aggr_compare m b =
    if ltb_ℤ m.min_time b.min_time
    then gt
    else if ltb_ℤ b.min_time m.min_time
    then lt
    else if ltb_ℤ m.max_time b.max_time
    then gt
    else if ltb_ℤ b.max_time m.max_time
    then lt
    else first_decided (
        chunk_compare m.raw b.raw
        ∷ chunk_compare m.count b.count
        ∷ chunk_compare m.sum b.sum
        ∷ chunk_compare m.min b.min
        ∷ chunk_compare m.max b.max
        ∷ chunk_compare m.counter b.counter
        ∷ [])
