-- ===== src/Store/BigEndian.antt =====
-- pkg/store/bucket.go: `bigEndianPostings`, postings over a byte stream of big-endian numbers.
pub mod Search
pub mod Seek
mod Tests
use promlts.Labelpb.{Bytes}
use promlts.Prelude.{
  ltb, leb, if◌then◌else◌, length, drop, ℕ, zero, suc, ◌+◌, ◌*◌, ◌/◌, ◌%◌, ◌^◌, Bool, true, false,
  Option, none, some, [], ◌∷◌,
}

pub record BigEndianPostings : Type 0 where
  pub list : Bytes
  pub cur : ℕ

abbrev pub new_big_endian_postings : Bytes → BigEndianPostings
new_big_endian_postings list = record { list = list; cur = 0 }

-- binary.BigEndian.Uint32, of a list that has four bytes.
pub uint32 : Bytes → ℕ
uint32 (a ∷ b ∷ c ∷ d ∷ list) = ((a * 256 + b) * 256 + c) * 256 + d
uint32 list = 0

pub next_big_endian : BigEndianPostings → BigEndianPostings × Bool
unfolding uint32
next_big_endian it =
    if leb 4 (length it.list)
    then (record { list = drop 4 it.list; cur = uint32 it.list }, true)
    else (it, false)

-- sort.Search: the loop between `i` and `j`, with fuel.
pub search : ℕ → (ℕ → Bool) → ℕ → ℕ → Option ℕ
search zero f i j = none
search (suc fuel) f i j =
    let h = (i + j) / 2 in
    let above = search fuel f (h + 1) j in
    let below = search fuel f i h in if ltb i j then (if f h then below else above) else some i

abbrev pub at_least : Bytes → ℕ → ℕ → Bool
at_least list x i = leb (x % 2 ^ 32) (uint32 (drop (i * 4) list))

pub seek_big_endian : BigEndianPostings → ℕ → Option (BigEndianPostings × Bool)
unfolding search uint32
seek_big_endian it x =
    let num = length it.list / 4 in
    if leb x it.cur then some (it, true) else elim (search (num + 1) (at_least it.list x) 0 num) [
      | none ↦ none
      | some i ↦ some (
          if ltb i num
          then (
            record { list = drop (i * 4 + 4) it.list; cur = uint32 (drop (i * 4) it.list) },
            true,
          )
          else (record { list = []; cur = it.cur }, false))
    ]

pub length_big_endian : BigEndianPostings → ℕ
length_big_endian it = length it.list / 4
