-- ===== src/Cache/Subranges/Reading.antt =====
-- pkg/store/cache/caching_bucket.go: the reader gives the bytes of the object.
use native.Mathlib.Nat.{div-mul-le_self, lt-div-mul-add}
use Prim.Native.Nat.{min}
use promlts.Labelpb.{Bytes}
use promlts.Prelude.Dict.{nat_eq, get}
use promlts.Prelude.Slices.{drop-drop, take-take, drop-take, take-add}
use promlts.Cache.Subranges.{
  SubrangesReader, ReadResult, eof, read_failed, read_bytes, at_most, read, read_all,
}
use promlts.Cache.Subranges.Fetched.{Aligned, part, HasHit}
use promlts.Prelude.{
  leb, ◌==◌, Bool-cases, if_cases, length, take, drop, length-take, length-drop, ℕ, zero, suc, ◌+◌,
  ◌-◌, ◌*◌, ◌/◌, ◌≤◌, ◌<◌, ◌≡◌, refl, sym, ap, ◌∙◌, ◌⊎◌, inl, inr, some, ◌++◌, arith,
}

module _ (object : Bytes) where
  -- The reader has all subranges from its offset to the end of what remains.
  pub record CanRead (c : SubrangesReader) : Type 0 where
    pub positive : 1 ≤ c.subrange_size
    pub parts :
        (off : ℕ) (b : Bytes) → get c.subranges off ≡ some b → b ≡ part object off c.subrange_size
    pub inside : (c.remaining ≡ 0) ⊎ (c.read_offset + c.remaining ≤ length object)
    pub has :
        (j : ℕ)
        → Aligned c.subrange_size j
        → c.read_offset < j + c.subrange_size
        → j < c.read_offset + c.remaining
        → HasHit c.subranges j

  pub record ReadSome (c : SubrangesReader) (b : Bytes) (c' : SubrangesReader) : Type 0 where
    pub count : ℕ
    pub some_read : 1 ≤ count
    pub not_more : count ≤ c.remaining
    pub bytes : b ≡ part object c.read_offset count
    pub next :
        c' ≡ record c { read_offset = c.read_offset + count; remaining = c.remaining - count }

  abbrev pub Reads : SubrangesReader → ReadResult → Type 0
  Reads c eof = c.remaining ≡ 0
  Reads c read_failed = ⊥
  Reads c (read_bytes b c') = ReadSome c b c'

  min_facts :
      (a b d : ℕ)
      → 1 ≤ a
      → 1 ≤ b
      → 1 ≤ d
      → (1 ≤ at_most a (at_most b d))
        × (at_most a (at_most b d) ≤ a)
        × (at_most a (at_most b d) ≤ d)
  min_facts a b d h k l = ground arith

  read_part :
      (b : Bytes) (sub current offset n : ℕ)
      → b ≡ part object current sub
      → current ≤ offset
      → n ≤ sub - (offset - current)
      → offset - current ≤ sub
      → take n (drop (offset - current) b) ≡ part object offset n
  read_part b sub current offset n e low fits within =
      let k = offset - current in
      let split : sub ≡ k + (sub - k) = omega arith in
      let join : current + k ≡ offset = omega arith in
      ap (λ x. take n (drop k x)) e
      ∙ ap (λ x. take n (drop k (take x (drop current object)))) split
      ∙ ap (take n) (drop-take k (sub - k) (drop current object))
      ∙ take-take n (sub - k) (drop k (drop current object)) fits
      ∙ ap (take n) (drop-drop k current object ∙ ap (λ x. drop x object) join)

  -- A read with a buffer gives at least one byte of the object, until nothing remains.
  pub read-Reads : (len : ℕ) (c : SubrangesReader) → 1 ≤ len → CanRead c → Reads c (read len c)
  unfolding read
  read-Reads len c l h = elim (Bool-cases (c.remaining == 0)) [
    | inl p ↦ rw (read, p) (ground arith)
    | inr p ↦
        let sub = c.subrange_size in
        let rem : 1 ≤ c.remaining = ground arith in
        let current = c.read_offset / sub * sub in
        let low : current ≤ c.read_offset = div-mul-le_self c.read_offset sub in
        let high : c.read_offset < current + sub = lt-div-mul-add h.positive in
        let (b, q) = h.has current (c.read_offset / sub, refl) high (omega (arith, low, rem)) in
        let e = h.parts current b q in
        let stop : c.read_offset + c.remaining ≤ length object = elim h.inside [
          | inl z ↦ absurd (ground arith)
          | inr z ↦ z
        ] in
        let within = c.read_offset - current in
        let size : length b ≡ min sub (length object - current) =
          rw (e, length-take sub (drop current object), length-drop current object) refl in
        let more : 1 ≤ length b - within = omega (arith, size, low, high, stop, rem) in
        let n = at_most c.remaining (at_most len (length b - within)) in
        let (one, left, here) = min_facts c.remaining len (length b - within) rem l more in
        rw (read, p, q)
          (if_cases (Reads c) (leb (length b) within) read_failed
            (read_bytes (take n (drop within b))
              (record c { read_offset = c.read_offset + n; remaining = c.remaining - n }))
            (λ bad. ground (arith, more))
            (λ good. record {
              count = n;
              some_read = one;
              not_more = left;
              bytes =
                  read_part b sub current c.read_offset n e low (omega (arith, here, size))
                    (omega (arith, high));
              next = refl;
            }))
  ]

  advance :
      (c : SubrangesReader) (n : ℕ)
      → 1 ≤ n
      → n ≤ c.remaining
      → CanRead c
      → CanRead (record c { read_offset = c.read_offset + n; remaining = c.remaining - n })
  advance c n l m h = record {
    positive = h.positive;
    parts = h.parts;
    inside = elim h.inside [ inl z ↦ absurd (omega arith) | inr z ↦ inr (omega arith) ];
    has = λ j a p q. h.has j a (omega arith) (omega arith);
  }

  assemble :
      (fuel len : ℕ) (c : SubrangesReader)
      → ((c' : SubrangesReader)
          → CanRead c'
          → c'.remaining < fuel
          → read_all fuel len c' ≡ some (part object c'.read_offset c'.remaining))
      → CanRead c
      → c.remaining < suc fuel
      → (r : ReadResult) → read len c ≡ r
      → Reads c r
      → read_all (suc fuel) len c ≡ some (part object c.read_offset c.remaining)
  unfolding read_all
  assemble fuel len c ih h f eof e r = rw (read_all, e, r) refl
  assemble fuel len c ih h f read_failed e r = absurd r
  assemble fuel len c ih h f (read_bytes b c') e r =
      let n = r.count in
      let after : SubrangesReader = record c {
        read_offset = c.read_offset + n;
        remaining = c.remaining - n;
      } in
      let rest : read_all fuel len c' ≡ some (part object (c.read_offset + n) (c.remaining - n)) =
        ap (read_all fuel len) r.next
        ∙ ih after (advance c n r.some_read r.not_more h)
            (omega (arith, r.some_read, r.not_more, f)) in
      let whole : c.remaining ≡ n + (c.remaining - n) = omega (arith, r.not_more) in
      rw (read_all, e, rest)
        (ap some (
          ap (λ x. x ++ part object (c.read_offset + n) (c.remaining - n)) r.bytes
          ∙ ap (λ x. part object c.read_offset n ++ take (c.remaining - n) x)
              (sym (drop-drop n c.read_offset object))
          ∙ sym (take-add n (c.remaining - n) (drop c.read_offset object))
          ∙ ap (part object c.read_offset) (sym whole)))

  -- Reading to the end gives all that remained.
  pub read_all-part :
      (fuel len : ℕ) (c : SubrangesReader)
      → 1 ≤ len
      → CanRead c
      → c.remaining < fuel
      → read_all fuel len c ≡ some (part object c.read_offset c.remaining)
  unfolding read_all
  read_all-part zero len c l h f = absurd (omega arith)
  read_all-part (suc fuel) len c l h f =
      assemble fuel len c (λ c' h' f'. read_all-part fuel len c' l h' f') h f (read len c) refl
        (read-Reads len c l h)
