-- ===== src/Cache/Subranges.antt =====
-- pkg/store/cache/caching_bucket.go: a range of an object is read through a cache of subranges of
-- equal size. A subrange is known by its offset, on which alone its key depends within an object.
-- The bucket gives the bytes of the object from an offset on, or fails. The ranges that are missing
-- are fetched one after the other; offsets are not negative.
pub mod Merging
pub mod Fetched
pub mod Reading
pub mod Planning
pub mod Missing
pub mod Whole
pub mod Equal
mod Tests
use promlts.Prelude.Dict.{nat_eq, Dict, get, put}
use promlts.Labelpb.{Bytes}
use promlts.Prelude.{
  ltb, leb, ◌==◌, if◌then◌else◌, length, take, drop, ℕ, zero, suc, ◌+◌, ◌-◌, ◌*◌, ◌/◌, ◌%◌, ◌&&◌,
  Option, none, some, List, [], ◌∷◌, ◌++◌,
}

pub record Config : Type 0 where
  pub subrange_size : ℕ
  pub max_sub_requests : ℕ

pub record Rng : Type 0 where
  pub start : ℕ
  pub end : ℕ

abbrev pub Hits : Type 0
Hits = Dict ℕ Bytes

-- What is to be read of an object, from `offset` for `length_left` bytes.
pub record Plan : Type 0 where
  pub offset : ℕ
  pub length_left : ℕ
  pub start_range : ℕ
  pub end_range : ℕ
  pub last_subrange_offset : ℕ
  pub last_subrange_length : ℕ

-- A multiple of the size, at or above the number.
pub round_up : ℕ → ℕ → ℕ
round_up sub n = if ltb 0 (n % sub) then n / sub * sub + sub else n / sub * sub

-- `stop` is offset + length after the length was cut to the size of the object.
pub plan_range : Config → ℕ → ℕ → ℕ → Plan
plan_range cfg size offset len =
    let sub = cfg.subrange_size in
    let stop = if ltb size (offset + len) then size else offset + len in
    let end = round_up sub stop in
    let last : ℕ × ℕ =
      if ltb size end then (size / sub * sub, size - size / sub * sub) else (end - sub, sub) in
    record {
      offset = offset;
      length_left = stop - offset;
      start_range = offset / sub * sub;
      end_range = end;
      last_subrange_offset = last.0;
      last_subrange_length = last.1;
    }

-- The loop over the offsets of subranges, which ends at `end`; `fuel` is at least their number.
pub offsets_from : ℕ → ℕ → ℕ → ℕ → List ℕ
offsets_from zero sub end off = []
offsets_from (suc fuel) sub end off =
    let rest = offsets_from fuel sub end (off + sub) in if ltb off end then off ∷ rest else []

pub missing_of : ℕ → Hits → List ℕ → List Rng
missing_of sub hits [] = []
missing_of sub hits (off ∷ offs) =
    let rest = missing_of sub hits offs in
    elim (get hits off) [ none ↦ record { start = off; end = off + sub } ∷ rest | some b ↦ rest ]

pub merge_from : ℕ → Rng → List Rng → List Rng
merge_from limit last [] = last ∷ []
merge_from limit last (r ∷ rs) =
    let joined = merge_from limit (record { start = last.start; end = r.end }) rs in
    let apart = last ∷ merge_from limit r rs in
    if leb r.start (last.end + limit) then joined else apart

pub merge_ranges : List Rng → ℕ → List Rng
merge_ranges [] limit = []
merge_ranges (r ∷ rs) limit = merge_from limit r rs

-- `none` when the loop ran out of fuel.
pub reduce_ranges : ℕ → ℕ → ℕ → List Rng → Option (List Rng)
reduce_ranges zero max_requests limit missing = none
reduce_ranges (suc fuel) max_requests limit missing =
    let rest = reduce_ranges fuel max_requests (limit * 2) (merge_ranges missing limit) in
    if ltb 0 max_requests && ltb max_requests (length missing) then rest else some missing

-- A subrange that was not among the hits is added to them, and stored into the cache.
abbrev pub add_missing : Hits → ℕ → Bytes → Hits
add_missing hits off b = elim (get hits off) [ some old ↦ hits | none ↦ put hits off b ]

-- The subranges of a fetched range: `left` is what is still to be read of the answer.
pub fetch_subranges : ℕ → ℕ → Plan → Rng → Bytes → ℕ → Hits → Option Hits
fetch_subranges zero sub p m left off hits = none
fetch_subranges (suc fuel) sub p m left off hits =
    let len = if off == p.last_subrange_offset then p.last_subrange_length else sub in
    let known = leb p.start_range off && ltb off p.end_range in
    let rest =
      fetch_subranges fuel sub p m (drop len left) (off + sub)
        (add_missing hits off (take len left)) in
    if ltb off m.end then (if known && leb len (length left) then rest else none) else some hits

pub fetch_ranges : (ℕ → ℕ → Option Bytes) → ℕ → Plan → List Rng → Hits → Option Hits
fetch_ranges get_range sub p [] hits = some hits
fetch_ranges get_range sub p (m ∷ ms) hits = elim (get_range m.start (m.end - m.start)) [
  | none ↦ none
  | some content ↦ elim (fetch_subranges (suc (m.end - m.start)) sub p m content m.start hits) [
    | none ↦ none
    | some hits' ↦ fetch_ranges get_range sub p ms hits'
  ]
]

-- The fuel of the limit is the size of the whole range.
pub fetch_missing_subranges : (ℕ → ℕ → Option Bytes) → Config → Plan → Hits → Option Hits
fetch_missing_subranges get_range cfg p hits =
    let sub = cfg.subrange_size in
    let size = p.end_range - p.start_range in
    let missing = missing_of sub hits (offsets_from size sub p.end_range p.start_range) in
    elim (reduce_ranges (suc size) cfg.max_sub_requests sub (merge_ranges missing 0)) [
      | none ↦ none
      | some ranges ↦ fetch_ranges get_range sub p ranges hits
    ]

pub record SubrangesReader : Type 0 where
  pub subrange_size : ℕ
  pub subranges : Hits
  pub read_offset : ℕ
  pub remaining : ℕ

pub data ReadResult : Type 0 where
  eof : ReadResult
  read_failed : ReadResult
  read_bytes : Bytes → SubrangesReader → ReadResult

abbrev pub at_most : ℕ → ℕ → ℕ
at_most limit n = if ltb limit n then limit else n

-- The read of at most `len` bytes.
pub read : ℕ → SubrangesReader → ReadResult
read len c =
    let current_offset = c.read_offset / c.subrange_size * c.subrange_size in
    let within = c.read_offset - current_offset in
    if c.remaining == 0 then eof else elim (get c.subranges current_offset) [
      | none ↦ read_failed
      | some current ↦
          let to_copy = at_most c.remaining (at_most len (length current - within)) in
          if leb (length current) within
          then read_failed
          else read_bytes (take to_copy (drop within current)) (record c {
            read_offset = c.read_offset + to_copy;
            remaining = c.remaining - to_copy;
          })
    ]

-- Reads until the end, with a buffer of `len` bytes. `none` is a failed read, or no fuel.
pub read_all : ℕ → ℕ → SubrangesReader → Option Bytes
read_all zero len c = none
read_all (suc fuel) len c = elim (read len c) [
  | eof ↦ some []
  | read_failed ↦ none
  | read_bytes b c' ↦ elim (read_all fuel len c') [ none ↦ none | some rest ↦ some (b ++ rest) ]
]

-- `hits` is what the cache has of the subranges.
pub cached_get_range : (ℕ → ℕ → Option Bytes) → Config → ℕ → Hits → ℕ → ℕ → Option SubrangesReader
cached_get_range get_range cfg size hits offset len =
    let p = plan_range cfg size offset len in
    elim (fetch_missing_subranges get_range cfg p hits) [
      | none ↦ none
      | some all ↦ some (record {
        subrange_size = cfg.subrange_size;
        subranges = all;
        read_offset = p.offset;
        remaining = p.length_left;
      })
    ]
