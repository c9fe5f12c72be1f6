-- ===== src/Pool/Accounting.antt =====
-- pkg/pool/pool.go: `usedTotal` over any sequence of calls, and the limit `maxTotal`.
use mathlib.Core.Path.{subst}
use promlts.Pool.{
  u64, Slice, pool_exhausted, Result, ok, err, stuck, BucketedBytes, Factor, fill_sizes, with_sizes,
  new_bucketed_bytes, new_slice, from_bucket, find_bucket, account, exhausted, get, put,
}
use promlts.Pool.Fit.{
  Fits, IsOwn, empty_buckets-Fits, get-account, get-Serves, put-Fits, one_bucket,
}
use promlts.Prelude.{
  leb, if◌then◌else◌, All, All-append, All-split, ℕ, ◌+◌, ◌-◌, ◌^◌, ◌≤◌, ◌<◌, ◌≡◌, refl, sym, ap,
  ◌∙◌, false, Option, none, some, List, [], ◌∷◌, ◌++◌, arith,
}

pub record State : Type 0 where
  pub pool : BucketedBytes
  -- the slices that callers hold
  pub held : List Slice

abbrev pub caps : List Slice → ℕ
caps [] = 0
caps (b ∷ bs) = b.cap + caps bs

-- What callers, and the garbage collector, can do. A caller gives back a slice that it holds, with
-- the capacity that it got. The slices that live at once have fewer than 2^64 bytes together.
pub data Step : State → State → Type 0 where
  got :
      {s : State} {b : Slice} {p : BucketedBytes} (pick : Option ℕ) (sz : ℕ)
      → get pick s.pool sz ≡ ok (b, p)
      → b.cap + caps s.held < 2 ^ 64
      → Step s (record { pool = p; held = b ∷ s.held })
  gave :
      {s : State} (front back : List Slice) (b : Slice) (len : ℕ)
      → s.held ≡ front ++ (b ∷ back)
      → Step s (record { pool = put s.pool (some (record b { len = len })); held = front ++ back })
  refused :
      {s : State} (pick : Option ℕ) (sz : ℕ) → get pick s.pool sz ≡ err pool_exhausted → Step s s

pub data Reach (s : State) : State → Type 0 where
  here : Reach s s
  next : {t u : State} → Reach s t → Step t u → Reach s u

pub record Inv (s : State) : Type 0 where
  pub fits : Fits s.pool.sizes s.pool.buckets
  pub own : All (λ b. IsOwn s.pool.sizes b.cap) s.held
  pub used : s.pool.used_total ≡ caps s.held

caps-append : (xs ys : List Slice) → caps (xs ++ ys) ≡ caps xs + caps ys
caps-append [] ys = omega arith
caps-append (x ∷ xs) ys = omega (arith, caps-append xs ys)

used-account :
    (p : BucketedBytes) (sz : ℕ) (o : Option (Slice × List (List Slice)))
    → (account p sz o).1.used_total ≡ u64 (p.used_total + (account p sz o).0.cap)
used-account p sz none = refl
used-account p sz (some f) = refl

-- A successful `Get` adds the capacity of the slice to `usedTotal`, with the wrap of a uint64.
used-get :
    (pick : Option ℕ) (p p' : BucketedBytes) (sz : ℕ) (b : Slice)
    → get pick p sz ≡ ok (b, p')
    → p'.used_total ≡ u64 (p.used_total + b.cap)
used-get pick p p' sz b e =
    let q : account p sz (find_bucket pick sz p.sizes p.buckets) ≡ (b, p') =
      get-account pick p sz e in
    subst (λ (r : Slice × BucketedBytes). r.1.used_total ≡ u64 (p.used_total + r.0.cap)) q
      (used-account p sz _)

used-put :
    (p : BucketedBytes) (b : Slice)
    → (put p (some b)).used_total ≡ (if leb p.used_total b.cap then 0 else p.used_total - b.cap)
unfolding put
used-put p b = refl

put_shape :
    (p : BucketedBytes) (b : Slice)
    → ((put p (some b)).sizes ≡ p.sizes) × ((put p (some b)).max_total ≡ p.max_total)
unfolding put
put_shape p b = (refl, refl)

abbrev AllOwn : List ℕ → List Slice → Type 0
AllOwn sizes = All (λ b. IsOwn sizes b.cap)

Step-Inv : {s t : State} → Step s t → Inv s → Inv t
Step-Inv (got {s} {b} {p} pick sz e small) h =
    let (_, own, fits, same, _) = get-Serves pick s.pool sz (b, p) h.fits e in
    record {
      fits = fits;
      own = subst (λ l. AllOwn l (b ∷ s.held)) (sym same) (own, h.own);
      used = omega (arith, used-get pick s.pool p sz b e, h.used);
    }
Step-Inv (gave {s} front back b len e) h =
    let b' : Slice = record b { len = len } in
    let (before, own) = All-split _ front (b ∷ back) (subst (λ l. AllOwn s.pool.sizes l) e h.own) in
    let total : caps s.held ≡ caps front + (b.cap + caps back) =
      ap caps e ∙ caps-append front (b ∷ back) in
    record {
      fits =
          subst (λ l. Fits l (put s.pool (some b')).buckets) (sym (put_shape s.pool b').0)
            (put-Fits s.pool b' h.fits own.0);
      own =
          subst (λ l. AllOwn l (front ++ back)) (sym (put_shape s.pool b').0)
            (All-append (λ b. IsOwn s.pool.sizes b.cap) front back before own.1);
      used = ground (arith, used-put s.pool b', total, h.used, caps-append front back);
    }
Step-Inv (refused pick sz e) h = h

Reach-Inv : {s t : State} → Inv s → Reach s t → Inv t
Reach-Inv h here = h
Reach-Inv h (next r st) = Step-Inv st (Reach-Inv h r)

new-Inv :
    (fuel min_size max_size max_total : ℕ) (f : Factor) (p : BucketedBytes)
    → new_bucketed_bytes fuel min_size max_size f max_total ≡ ok p
    → Inv (record { pool = p; held = [] })
unfolding new_bucketed_bytes
new-Inv fuel lo hi t f p e = go (fill_sizes f hi fuel lo []) (ground arith)
  where
    go : (o : Option (List ℕ)) → with_sizes t o ≡ ok p → Inv (record { pool = p; held = [] })
    go none h = cc
    go (some zs) h =
        subst
          (λ (r : Result BucketedBytes). elim r [
            | ok q ↦ Inv (record { pool = q; held = [] })
            | err x ↦ Unit {0}
            | stuck ↦ Unit {0}
          ])
          h (record { fits = empty_buckets-Fits zs; own = tt; used = refl })

-- After any sequence of calls on a new pool, in which callers give back slices that they hold,
-- `usedTotal` is the sum of the capacities of the slices that are held, and every request that
-- `Get` then serves gets a slice with room for it.
pub Reach-accounts :
    (fuel min_size max_size max_total : ℕ) (f : Factor) (p : BucketedBytes) (s : State)
    → new_bucketed_bytes fuel min_size max_size f max_total ≡ ok p
    → Reach (record { pool = p; held = [] }) s
    → (s.pool.used_total ≡ caps s.held)
      × ((pick : Option ℕ) (sz : ℕ) (b : Slice) (p' : BucketedBytes)
          → get pick s.pool sz ≡ ok (b, p')
          → sz ≤ b.cap)
Reach-accounts fuel lo hi t f p s e r =
    let inv = Reach-Inv (new-Inv fuel lo hi t f p e) r in
    (inv.used, λ pick sz b p' g. (get-Serves pick s.pool sz (b, p') inv.fits g).0)

get-not_exhausted :
    (pick : Option ℕ) (p : BucketedBytes) (sz : ℕ) {r : Slice × BucketedBytes}
    → get pick p sz ≡ ok r
    → exhausted p sz ≡ false
unfolding get
get-not_exhausted pick p sz e = ground arith

-- `Get` tests the limit with the size that was asked for. So with a limit, and no wrap of the
-- uint64, a `Get` that returns leaves `usedTotal` at most at the limit plus what the slice has
-- beyond the request.
pub used-get_le :
    (pick : Option ℕ) (p p' : BucketedBytes) (sz : ℕ) (b : Slice)
    → 0 < p.max_total
    → p.used_total + sz < 2 ^ 64
    → sz ≤ b.cap
    → get pick p sz ≡ ok (b, p')
    → p'.used_total ≤ p.max_total + (b.cap - sz)
unfolding exhausted
used-get_le pick p p' sz b pos small fits e =
    ground (arith, used-get pick p p' sz b e, get-not_exhausted pick p sz e)

-- `usedTotal` passes the limit whenever the request would fit and the whole slice of the bucket
-- does not: for every pool with a limit and one empty bucket, and no wrap of the uint64.
pub get-over_limit :
    (size used limit sz : ℕ)
    → 0 < limit
    → used + sz ≤ limit
    → sz ≤ size
    → limit < used + size
    → used + size < 2 ^ 64
    → (r : Slice × BucketedBytes) × (get none (one_bucket size used limit) sz ≡ ok r)
      × (limit < r.1.used_total)
unfolding get exhausted find_bucket from_bucket
get-over_limit size used limit sz pos fits le over small =
    ((new_slice size, one_bucket size (used + size) limit), ground arith, over)
