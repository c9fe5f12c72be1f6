-- ===== src/Store/BigEndian/Tests.antt =====
-- pkg/store/bucket.go: `bigEndianPostings` at a concrete input.
use promlts.Store.BigEndian.{new_big_endian_postings, uint32, next_big_endian, seek_big_endian}
use promlts.Store.BigEndian.Seek.{bytes_of, Ascends, seek-first}
use promlts.Prelude.{ℕ, ◌≡◌, refl, true, some, List, [], ◌∷◌, arith}

abbrev words : List ℕ
words = 3 ∷ 500 ∷ 70000 ∷ []

next_runs :
    next_big_endian (new_big_endian_postings (bytes_of words))
    ≡ (record { list = bytes_of (500 ∷ 70000 ∷ []); cur = 3 }, true)
unfolding next_big_endian uint32
next_runs = refl

words-Ascends : Ascends words
words-Ascends = ((omega arith, (omega arith, tt)), ((omega arith, tt), (tt, tt)))

seek-first_example :
    seek_big_endian (record { list = bytes_of words; cur = 0 }) 400
    ≡ some (record { list = bytes_of (70000 ∷ []); cur = 500 }, true)
seek-first_example = seek-first 400 0 words (omega arith) words-Ascends
