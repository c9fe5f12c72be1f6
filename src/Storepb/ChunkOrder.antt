-- ===== src/Storepb/ChunkOrder.antt =====
-- pkg/store/storepb/custom.go: `AggrChunk.Compare` is a total order.
use Prim.Native.Nat.{lt, eq, gt, Ordering}
use promlts.Prelude.Order.{
  Order, lex, nat_order, reverse_order, option_order, keys_order, int_order, pair_order,
  image_order, IsTotal, IsTotal-of_eq,
}
use promlts.Prelude.Int.{ℤ, ltb_ℤ, int_compare}
use promlts.Storepb.{Chunk, AggrChunk, bytes_order, chunk_compare, first_decided, aggr_compare}
use promlts.Prelude.{if◌then◌else◌, ◌≡◌, refl, ap, ◌∙◌, Option, none, some, [], ◌∷◌, arith}

pub chunk_apart : (a b : Chunk) → a.encoding ≡ b.encoding → a.payload ≡ b.payload → a ≡ b
chunk_apart a b e f = cc

abbrev chunk_order : Order (Option Chunk)
chunk_order = option_order (
    keys_order (reverse_order nat_order) bytes_order (λ c. c.encoding) (λ c. c.payload) chunk_apart)

chunk_compare-order : (a b : Option Chunk) → chunk_compare a b ≡ chunk_order.compare a b
unfolding chunk_compare
chunk_compare-order none none = refl
chunk_compare-order none (some b) = refl
chunk_compare-order (some a) none = refl
chunk_compare-order (some a) (some b) = ground arith

abbrev Fields : Type 0
Fields =
    ℤ
    × (ℤ
        × (Option Chunk
            × (Option Chunk × (Option Chunk × (Option Chunk × (Option Chunk × Option Chunk))))))

abbrev fields : AggrChunk → Fields
fields c = (c.min_time, (c.max_time, (c.raw, (c.count, (c.sum, (c.min, (c.max, c.counter)))))))

pub fields_apart : (a b : AggrChunk) → fields a ≡ fields b → a ≡ b
fields_apart a b h = ground arith

abbrev aggregates_order : Order (
    Option Chunk × (Option Chunk × (Option Chunk × (Option Chunk × (Option Chunk × Option Chunk)))))
aggregates_order = pair_order chunk_order (
    pair_order chunk_order
      (pair_order chunk_order (pair_order chunk_order (pair_order chunk_order chunk_order))))

-- The order of `AggrChunk.Compare`, built from the orders of its fields: times are reversed.
abbrev pub aggr_order : Order AggrChunk
aggr_order =
    image_order
      (pair_order (reverse_order int_order) (pair_order (reverse_order int_order) aggregates_order))
      fields fields_apart

lex-eq : (o : Ordering) → lex o eq ≡ o
lex-eq o = ground arith

first_decided-order :
    (m b : AggrChunk)
    → first_decided (
        chunk_compare m.raw b.raw
        ∷ chunk_compare m.count b.count
        ∷ chunk_compare m.sum b.sum
        ∷ chunk_compare m.min b.min
        ∷ chunk_compare m.max b.max
        ∷ chunk_compare m.counter b.counter
        ∷ [])
      ≡ aggregates_order.compare (fields m).1.1 (fields b).1.1
first_decided-order m b = simp (lex-eq, chunk_compare-order)

int_ladder :
    (x y : ℤ) (rest : Ordering)
    → (if ltb_ℤ x y then gt else if ltb_ℤ y x then lt else rest) ≡ lex (int_compare y x) rest
int_ladder x y rest = ground arith

pub aggr_compare-order : (a b : AggrChunk) → aggr_compare a b ≡ aggr_order.compare a b
unfolding aggr_compare
aggr_compare-order a b =
    int_ladder a.min_time b.min_time _
    ∙ ap (λ o. lex (int_compare b.min_time a.min_time) o)
        (int_ladder a.max_time b.max_time _
          ∙ ap (λ o. lex (int_compare b.max_time a.max_time) o) (first_decided-order a b))

-- `AggrChunk.Compare` is a total order: it says 0 exactly for equal chunks, it changes its sign when
-- the chunks change places, and both signs carry over along a chain.
pub aggr_compare-IsTotal : IsTotal aggr_compare
aggr_compare-IsTotal = IsTotal-of_eq aggr_order aggr_compare aggr_compare-order
