-- ===== src/Store/PostingsCodec/Tests.antt =====
-- pkg/store/postings_codec.go: the theorems at a concrete input. The integers are written in unary,
-- and the compression leaves the bytes as they are.
use promlts.Store.PostingsCodec.{
  success, Buffers, DiffVarintPostings, diff_varint_snappy_encode, diff_varint_snappy_decode,
}
use promlts.Store.PostingsCodec.RoundTrip.{BuffersWork, Increases, read_all, decode-encode}
use promlts.Labelpb.{Bytes}
use promlts.Prelude.{
  ◌==◌, length, ℕ, zero, suc, ◌+◌, ◌≡◌, refl, ap, ◌∙◌, false, Option, none, some, List, [], ◌∷◌,
  ◌++◌, arith,
}

abbrev ones : ℕ → Bytes
ones zero = 0 ∷ []
ones (suc n) = 1 ∷ ones n

abbrev read_ones : ℕ → Bytes → Option (ℕ × Bytes)
read_ones n [] = none
read_ones n (zero ∷ b) = some (n, b)
read_ones n (suc x ∷ b) = read_ones (n + 1) b

abbrev unary : Buffers
unary = record { put_uvarint = ones; uvarint = read_ones 0; compress = λ b. b; decompress = some }

read_ones-back : (m n : ℕ) (b : Bytes) → read_ones m (ones n ++ b) ≡ some (m + n, b)
read_ones-back m zero b = ap (λ k. some (k, b)) (omega arith)
read_ones-back m (suc n) b = read_ones-back (m + 1) n b ∙ ap (λ k. some (k, b)) (omega arith)

ones-never_empty : (n : ℕ) (b : Bytes) → (length (ones n ++ b) == 0) ≡ false
ones-never_empty zero b = ground arith
ones-never_empty (suc n) b = ground arith

unary-BuffersWork : BuffersWork unary
unary-BuffersWork = record {
  read_back = λ n b h. read_ones-back 0 n b ∙ ap (λ k. some (k, b)) (omega arith);
  never_empty = ones-never_empty;
  snappy = λ b. refl;
}

abbrev some_postings : List ℕ
some_postings = 2 ∷ 3 ∷ 7 ∷ []

some_postings-Increases : Increases 0 some_postings
some_postings-Increases =
    (omega arith, omega arith, (omega arith, omega arith, (omega arith, omega arith, tt)))

decode-encode_example :
    (encoded : Bytes) × (it : DiffVarintPostings) × (diff_varint_snappy_encode unary
        (record { values = some_postings; failure = none })
      ≡ success encoded)
    × (diff_varint_snappy_decode unary encoded ≡ success it)
    × (read_all unary unary-BuffersWork 4 it ≡ some some_postings)
decode-encode_example = decode-encode unary unary-BuffersWork some_postings some_postings-Increases
