-- ===== src/Cache/Subranges/Planning.antt =====
-- pkg/store/cache/caching_bucket.go: the subranges that a range needs.
use native.Mathlib.Nat.{div-mul-le_self, lt-div-mul-add, mod-eq-sub-div-mul}
use promlts.Labelpb.{Bytes}
use promlts.Prelude.Dict.{nat_eq}
use promlts.Prelude.Slices.{take-all}
use promlts.Cache.Subranges.{Config, Plan, round_up, plan_range}
use promlts.Cache.Subranges.Fetched.{
  Aligned, Aligned-step, Aligned-next, part, piece_length, IsPiece, IsPlan,
}
use promlts.Prelude.{
  ltb, leb, ◌==◌, if◌then◌else◌, Bool-cases, if_both, if_cases, length, drop, length-drop, ℕ, ◌+◌,
  ◌-◌, ◌*◌, ◌/◌, ◌%◌, ◌≤◌, ◌<◌, ◌≡◌, refl, sym, ap, ◌∙◌, ◌≢◌, inl, inr, arith,
}

pub round_up-facts :
    (sub n : ℕ)
    → 1 ≤ sub
    → Aligned sub (round_up sub n) × (n ≤ round_up sub n) × (round_up sub n < n + sub)
unfolding round_up
round_up-facts sub n h =
    let low : n / sub * sub ≤ n = div-mul-le_self n sub in
    let high : n < n / sub * sub + sub = lt-div-mul-add h in
    let rest : n % sub ≡ n - n / sub * sub = mod-eq-sub-div-mul n sub in
    if_cases (λ x. Aligned sub x × (n ≤ x) × (x < n + sub)) (ltb 0 (n % sub)) _ _
      (λ p. (
        Aligned-next sub (n / sub * sub) (n / sub, refl),
        omega (arith, high),
        ground (arith, low, rest, p),
      ))
      (λ p. ((n / sub, refl), ground (arith, low, rest, p), ground (arith, low, h)))

module _ (object : Bytes) (cfg : Config) (positive : 1 ≤ cfg.subrange_size) where
  abbrev sub : ℕ
  sub = cfg.subrange_size

  abbrev size : ℕ
  size = length object

  last-IsPiece :
      (p : Plan) (off : ℕ)
      → size < p.end_range
      → p.end_range < size + sub
      → Aligned sub p.end_range
      → p.last_subrange_offset ≡ size / sub * sub
      → p.last_subrange_length ≡ size - size / sub * sub
      → Aligned sub off
      → off < p.end_range
      → IsPiece object sub p off (piece_length sub p off)
  last-IsPiece p off over under ends lo ll a h =
      let low : size / sub * sub ≤ size = div-mul-le_self size sub in
      let high : size < size / sub * sub + sub = lt-div-mul-add positive in
      let last : Aligned sub (size / sub * sub) = (size / sub, refl) in
      let reach : p.end_range ≤ size / sub * sub + sub =
        elim (Bool-cases (leb p.end_range (size / sub * sub + sub))) [
          | inl y ↦ ground arith
          | inr y ↦
              let far =
                Aligned-step sub (size / sub * sub + sub) p.end_range
                  (Aligned-next sub (size / sub * sub) last) ends (ground arith) in
              absurd (omega (arith, far, under, high))
        ] in
      if_cases (IsPiece object sub p off) (off == p.last_subrange_offset) p.last_subrange_length sub
        (λ y.
          let at : off ≡ size / sub * sub = ground (arith, lo) in
          record {
            inside = omega (arith, at, ll, low);
            same =
                take-all (drop off object) p.last_subrange_length
                  (rw (length-drop off object) (omega (arith, ll, at)))
                ∙ sym (
                    take-all (drop off object) sub
                      (rw (length-drop off object) (omega (arith, at, high))));
            whole = inr (omega (arith, at, reach));
            small = omega (arith, ll, high);
          })
        (λ y.
          let ne : off ≢ size / sub * sub = λ q. ground (arith, lo) in
          let before : off < size / sub * sub = elim (Bool-cases (ltb off (size / sub * sub))) [
            | inl z ↦ ground arith
            | inr z ↦
                let far = Aligned-step sub (size / sub * sub) off last a (ground arith) in
                absurd (omega (arith, far, h, reach))
          ] in
          let step = Aligned-step sub off (size / sub * sub) a last before in
          record {
            inside = omega (arith, step, low);
            same = refl;
            whole = inl refl;
            small = omega arith;
          })

  full-IsPiece :
      (p : Plan) (off : ℕ)
      → p.end_range ≤ size
      → Aligned sub p.end_range
      → p.last_subrange_length ≡ sub
      → Aligned sub off
      → off < p.end_range
      → IsPiece object sub p off (piece_length sub p off)
  full-IsPiece p off h ends ll a l =
      let same : piece_length sub p off ≡ sub =
        if_both (λ x. x ≡ sub) (off == p.last_subrange_offset) p.last_subrange_length sub ll refl in
      let step = Aligned-step sub off p.end_range a ends l in
      record {
        inside = omega (arith, same, step, h);
        same = ap (part object off) same;
        whole = inl same;
        small = omega (arith, same);
      }

  abbrev plan : ℕ → ℕ → Plan
  plan offset len = plan_range cfg size offset len

  pub plan_range-IsPlan : (offset len : ℕ) → IsPlan object sub (plan offset len)
  unfolding plan_range
  plan_range-IsPlan offset len =
      let p = plan offset len in
      let stop = if ltb size (offset + len) then size else offset + len in
      let stop_le : stop ≤ size =
        if_cases (λ x. x ≤ size) (ltb size (offset + len)) size (offset + len) (λ y. omega arith)
          (λ y. ground arith) in
      let (ends, up, close) = round_up-facts sub stop positive in
      let over : ℕ × ℕ = (size / sub * sub, size - size / sub * sub) in
      let under : ℕ × ℕ = (p.end_range - sub, sub) in
      record {
        positive = positive;
        start_aligned = (offset / sub, refl);
        end_aligned = ends;
        pieces = λ off a l. elim (Bool-cases (ltb size p.end_range)) [
          | inl y ↦
              last-IsPiece p off (ground arith) (omega (arith, close, stop_le)) ends
                (ap (λ b. (if b then over else under).0) y)
                (ap (λ b. (if b then over else under).1) y) a l
          | inr y ↦
              full-IsPiece p off (ground arith) ends (ap (λ b. (if b then over else under).1) y) a l
        ];
      }
