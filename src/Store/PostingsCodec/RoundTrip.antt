-- ===== src/Store/PostingsCodec/RoundTrip.antt =====
-- pkg/store/postings_codec.go: decoding what has been encoded.
-- What the code relies on.
use mathlib.Core.List.{append-nil, append_assoc}
use native.Mathlib.Nat.{mod-eq_of_lt}
use mathlib.Core.Option
use promlts.Store.PostingsCodec.{
  success, Buffers, codec_header_snappy, DiffVarintPostings, encode_from,
  diff_varint_encode_no_header, diff_varint_snappy_encode, diff_varint_snappy_decode, next_posting,
  seek_from, seek,
}
use promlts.Labelpb.{Bytes}
use promlts.Prelude.{
  ltb, leb, ◌==◌, if◌then◌else◌, Bool-cases, length, ℕ, zero, suc, ◌+◌, ◌-◌, ◌%◌, ◌^◌, ◌≤◌, ◌<◌,
  ◌≡◌, refl, sym, ap, ◌∙◌, inl, inr, Bool, true, false, Option, none, some, List, [], ◌∷◌, ◌++◌,
  arith,
}

pub record BuffersWork (lib : Buffers) : Type 0 where
  pub read_back :
      (n : ℕ) (b : Bytes) → n < 2 ^ 64 → lib.uvarint (lib.put_uvarint n ++ b) ≡ some (n, b)
  pub never_empty : (n : ℕ) (b : Bytes) → (length (lib.put_uvarint n ++ b) == 0) ≡ false
  pub snappy : (b : Bytes) → lib.decompress (lib.compress b) ≡ some b

-- In increasing order from `prev` on, and 64 bits wide.
abbrev pub Increases : ℕ → List ℕ → Type 0
Increases prev [] = Unit {0}
Increases prev (v ∷ vs) = (prev ≤ v) × (v < 2 ^ 64) × Increases v vs

module _ (lib : Buffers) (works : BuffersWork lib) where
  abbrev pub diffs : ℕ → List ℕ → Bytes
  diffs prev [] = []
  diffs prev (v ∷ vs) = lib.put_uvarint (v - prev) ++ diffs v vs

  encode_from-diffs :
      (buf : Bytes) (prev : ℕ) (vs : List ℕ)
      → Increases prev vs
      → encode_from lib buf prev vs none ≡ success (buf ++ diffs prev vs)
  unfolding encode_from
  encode_from-diffs buf prev [] h = ap success (sym (append-nil buf))
  encode_from-diffs buf prev (v ∷ vs) (p, q, h) = rw (not_below p) (
      encode_from-diffs (buf ++ lib.put_uvarint (v - prev)) v vs h
      ∙ ap success (append_assoc buf (lib.put_uvarint (v - prev)) (diffs v vs)))
    where
      not_below : prev ≤ v → ltb v prev ≡ false
      not_below p = ground arith

  abbrev pub at : ℕ → List ℕ → DiffVarintPostings
  at cur vs = record { buf = diffs cur vs; failed = false; cur = cur }

  next_posting-diffs :
      (cur v : ℕ) (vs : List ℕ)
      → cur ≤ v
      → v < 2 ^ 64
      → next_posting lib (at cur (v ∷ vs)) ≡ (at v vs, true)
  unfolding next_posting
  next_posting-diffs cur v vs p q =
      rw
        (
          works.never_empty (v - cur) (diffs v vs),
          works.read_back (v - cur) (diffs v vs) (omega arith),
        )
        (ap (λ (c : ℕ). (record { buf = diffs v vs; failed = false; cur = c }, true))
          (ap (λ n. n % 2 ^ 64) (sum p) ∙ mod-eq_of_lt q))
    where
      sum : cur ≤ v → cur + (v - cur) ≡ v
      sum h = omega arith

  next_posting-end : (cur : ℕ) → next_posting lib (at cur []) ≡ (at cur [], false)
  unfolding next_posting
  next_posting-end cur = refl

  -- All postings that the iterator returns, read with fuel.
  abbrev pub read_all : ℕ → DiffVarintPostings → Option (List ℕ)
  read_all zero it = none
  read_all (suc fuel) it =
      let (it', more) = next_posting lib it in
      let rest = read_all fuel it' in if more then Option.map (λ vs. it'.cur ∷ vs) rest else some []

  read_all-diffs :
      (cur : ℕ) (vs : List ℕ) → Increases cur vs → read_all (suc (length vs)) (at cur vs) ≡ some vs
  read_all-diffs cur [] h = rw (next_posting-end cur) refl
  read_all-diffs cur (v ∷ vs) (p, q, h) =
      rw (next_posting-diffs cur v vs p q) (ap (Option.map (λ vs. v ∷ vs)) (read_all-diffs v vs h))

  -- Postings that increase and fit 64 bits are encoded without an error, what comes out is decoded
  -- without an error, and the decoded iterator returns the same postings and then ends.
  pub decode-encode :
      (vs : List ℕ)
      → Increases 0 vs
      → (encoded : Bytes) × (it : DiffVarintPostings) × (diff_varint_snappy_encode lib
            (record { values = vs; failure = none })
          ≡ success encoded)
        × (diff_varint_snappy_decode lib encoded ≡ success it)
        × (read_all (suc (length vs)) it ≡ some vs)
  unfolding diff_varint_snappy_encode diff_varint_encode_no_header diff_varint_snappy_decode
  decode-encode vs h = (
    codec_header_snappy ++ lib.compress (diffs 0 vs),
    at 0 vs,
    rw (encode_from-diffs [] 0 vs h) refl,
    rw (works.snappy (diffs 0 vs), diff_varint_snappy_decode) refl,
    read_all-diffs 0 vs h,
  )

  -- Where `Seek` should stop: at the first posting that is at least `x`.
  abbrev pub sought : ℕ → ℕ → List ℕ → DiffVarintPostings × Bool
  sought x cur [] = (at cur [], false)
  sought x cur (v ∷ vs) = let rest = sought x v vs in if leb x v then (at v vs, true) else rest

  seek_from-diffs :
      (x cur : ℕ) (vs : List ℕ)
      → Increases cur vs
      → seek_from lib (suc (length vs)) (at cur vs) x ≡ some (sought x cur vs)
  unfolding seek_from
  seek_from-diffs x cur [] h = rw (next_posting-end cur) refl
  seek_from-diffs x cur (v ∷ vs) (p, q, h) =
      rw (next_posting-diffs cur v vs p q) (elim (Bool-cases (leb x v)) [
        | inl t ↦ rw t refl
        | inr t ↦ rw t (seek_from-diffs x v vs h)
      ])

  -- `Seek` in an iterator over increasing postings stays where it is if the current value is at least
  -- `x`, and else stops at the first value that is, or says that there is none; it ends within one
  -- step for each posting left and one more.
  pub seek-sought :
      (x cur : ℕ) (vs : List ℕ)
      → Increases cur vs
      → seek lib (suc (length vs)) (at cur vs) x
        ≡ some (if leb x cur then (at cur vs, true) else sought x cur vs)
  unfolding seek
  seek-sought x cur vs h = elim (Bool-cases (leb x cur)) [
    | inl t ↦ rw t refl
    | inr t ↦ rw t (seek_from-diffs x cur vs h)
  ]
