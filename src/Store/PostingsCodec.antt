-- ===== src/Store/PostingsCodec.antt =====
-- pkg/store/postings_codec.go: postings as differences, in variable-length integers, compressed.
-- A source of postings is the list of those that it returns and the error that it ends with, if any.
-- The integer buffers are Prometheus', the compression is snappy's: both are parameters.
pub mod RoundTrip
mod Tests
use promlts.Labelpb.{Bytes}
use promlts.Prelude.{
  ltb, leb, ◌==◌, if◌then◌else◌, length, drop, ℕ, zero, suc, ◌+◌, ◌-◌, ◌%◌, ◌^◌, Bool, true, false,
  ◌&&◌, ◌||◌, Option, none, some, List, [], ◌∷◌, ◌++◌,
}

pub record Postings : Type 0 where
  pub values : List ℕ
  pub failure : Option ℕ

pub data CodecError : Type 0 where
  not_increasing : ℕ → ℕ → CodecError
  postings_failed : ℕ → CodecError
  header_not_found : CodecError
  snappy_failed : CodecError

pub data Outcome (A : Type 0) : Type 0 where
  success : A → Outcome A
  failed : CodecError → Outcome A

-- Encbuf.PutUvarint64 as the bytes that it adds, Decbuf.Uvarint64 as the number and the bytes left.
pub record Buffers : Type 0 where
  pub put_uvarint : ℕ → Bytes
  pub uvarint : Bytes → Option (ℕ × Bytes)
  pub compress : Bytes → Bytes
  pub decompress : Bytes → Option Bytes

abbrev pub codec_header_snappy : Bytes
codec_header_snappy = 100 ∷ 118 ∷ 115 ∷ []

pub has_prefix : Bytes → Bytes → Bool
has_prefix b [] = true
has_prefix [] (x ∷ p) = false
has_prefix (y ∷ b) (x ∷ p) = let rest = has_prefix b p in y == x && rest

-- The iterator: what is left to read, whether reading failed, and the current value.
pub record DiffVarintPostings : Type 0 where
  pub buf : Bytes
  pub failed : Bool
  pub cur : ℕ

module _ (lib : Buffers) where
  -- The loop over the postings, with the buffer so far.
  pub encode_from : Bytes → ℕ → List ℕ → Option ℕ → Outcome Bytes
  encode_from buf prev [] none = success buf
  encode_from buf prev [] (some e) = failed (postings_failed e)
  encode_from buf prev (v ∷ vs) failure =
      let rest = encode_from (buf ++ lib.put_uvarint (v - prev)) v vs failure in
      if ltb v prev then failed (not_increasing v prev) else rest

  pub diff_varint_encode_no_header : Postings → Outcome Bytes
  unfolding encode_from
  diff_varint_encode_no_header p = encode_from [] 0 p.values p.failure

  abbrev with_header : Outcome Bytes → Outcome Bytes
  with_header (success buf) = success (codec_header_snappy ++ lib.compress buf)
  with_header (failed e) = failed e

  pub diff_varint_snappy_encode : Postings → Outcome Bytes
  unfolding diff_varint_encode_no_header
  diff_varint_snappy_encode p = with_header (diff_varint_encode_no_header p)

  abbrev pub new_diff_varint_postings : Bytes → DiffVarintPostings
  new_diff_varint_postings input = record { buf = input; failed = false; cur = 0 }

  pub diff_varint_snappy_decode : Bytes → Outcome DiffVarintPostings
  unfolding has_prefix
  diff_varint_snappy_decode input =
      if has_prefix input codec_header_snappy
      then elim (lib.decompress (drop 3 input)) [
        | none ↦ failed snappy_failed
        | some raw ↦ success (new_diff_varint_postings raw)
      ]
      else failed header_not_found

  pub next_posting : DiffVarintPostings → DiffVarintPostings × Bool
  next_posting it =
      if it.failed || length it.buf == 0 then (it, false) else elim (lib.uvarint it.buf) [
        | none ↦ (record it { failed = true }, false)
        | some (val, rest) ↦ (record it { buf = rest; cur = (it.cur + val) % 2 ^ 64 }, true)
      ]

  -- The loop of `Seek`, with fuel.
  pub seek_from : ℕ → DiffVarintPostings → ℕ → Option (DiffVarintPostings × Bool)
  seek_from zero it x = none
  seek_from (suc fuel) it x =
      let (it', more) = next_posting it in
      let rest = seek_from fuel it' x in
      if more then (if leb x it'.cur then some (it', true) else rest) else some (it', false)

  pub seek : ℕ → DiffVarintPostings → ℕ → Option (DiffVarintPostings × Bool)
  unfolding seek_from
  seek fuel it x = if leb x it.cur then some (it, true) else seek_from fuel it x
