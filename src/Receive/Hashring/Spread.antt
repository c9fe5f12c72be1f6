-- ===== src/Receive/Hashring/Spread.antt =====
-- pkg/receive/hashring.go: the nodes that `simpleHashring.GetN` gives for the replicas of a series.
use native.Mathlib.Nat.{add_comm, mod-lt, mod-eq_of_lt, add-mod_right, add-mod-mod, zero-mod}
use promlts.Receive.Hashring.{TimeSeries, ok, error, sort_series, node_at, u64, simple_get_n}
use promlts.Receive.Errors.{insufficient_nodes}
use promlts.Labelpb.{Bytes, Label}
use promlts.Prelude.{
  ltb, leb, if◌then◌else◌, Bool-cases, length, get_elem?, ℕ, zero, suc, ◌+◌, ◌-◌, ◌%◌, ◌^◌, ◌≤◌,
  ◌<◌, ◌≡◌, refl, sym, ap, ◌∙◌, ◌≢◌, inl, inr, true, false, some, List, [], ◌∷◌, arith,
}

mod-add_lt :
    (r i l : ℕ) → r < l → i < l → (r + i) % l ≡ (if ltb (r + i) l then r + i else r + i - l)
mod-add_lt r i l p q = elim (Bool-cases (ltb (r + i) l)) [
  | inl b ↦ rw b (mod-eq_of_lt (ground arith))
  | inr b ↦ rw b (over (r + i - l) (ground arith) (ground arith))
]
  where
    over : (d : ℕ) → r + i ≡ d + l → d < l → (r + i) % l ≡ d
    over d e s = rw e (rw add-mod_right (mod-eq_of_lt s))

mod-add_left : (h i l : ℕ) → (h + i) % l ≡ (h % l + i) % l
mod-add_left h i l = rw (add_comm h i, add_comm (h % l) i) (sym (add-mod-mod i h l))

mod-add_apart : (h i j l : ℕ) → i < l → j < l → (h + i) % l ≡ (h + j) % l → i ≡ j
mod-add_apart h i j l p q e = apart (h % l) (mod-lt h (ground arith)) e'
  where
    e' : (h % l + i) % l ≡ (h % l + j) % l
    e' = sym (mod-add_left h i l) ∙ e ∙ mod-add_left h j l

    apart : (r : ℕ) → r < l → (r + i) % l ≡ (r + j) % l → i ≡ j
    apart r s f = ground (arith, mod-add_lt r i l s p, mod-add_lt r j l s q)

get_elem-found :
    {A : Type 0} (xs : List A) (i : ℕ) → i < length xs → (a : A) × (get_elem? xs i ≡ some a)
get_elem-found [] i p = ground arith
get_elem-found (x ∷ xs) zero p = (x, refl)
get_elem-found (x ∷ xs) (suc i) p = get_elem-found xs i (ground arith)

node_at-some : (s : List Bytes) (i : ℕ) (a : Bytes) → get_elem? s i ≡ some a → node_at s i ≡ ok a
unfolding node_at
node_at-some s i a e = rw (e, node_at) refl

ok-injective : (a b : Bytes) → ok a ≡ ok b → a ≡ b
ok-injective a b e = ground arith

-- No node is listed twice.
abbrev pub IsDistinct : List Bytes → Type 0
IsDistinct s = (i j : ℕ) (a : Bytes) → get_elem? s i ≡ some a → get_elem? s j ≡ some a → i ≡ j

wraps : (h l : ℕ) → h + 1 ≡ 2 ^ 64 → (2 ^ 64 - 1) % l ≡ 0 → u64 (h + 0) % l ≡ u64 (h + 1) % l
wraps h l e m = rw (e, zero-mod l) (rw (max_hash e) m)
  where
    max_hash : h + 1 ≡ 2 ^ 64 → h ≡ 2 ^ 64 - 1
    max_hash e = omega arith

module _ (hash : Bytes → List Label → ℕ) where
  abbrev pub index : List Bytes → Bytes → TimeSeries → ℕ → ℕ
  index s tenant ts n = u64 (hash tenant (sort_series ts).labels + n) % length s

  index_lt :
      (s : List Bytes) (tenant : Bytes) (ts : TimeSeries) (n : ℕ)
      → 0 < length s
      → index s tenant ts n < length s
  index_lt s tenant ts n p = mod-lt (u64 (hash tenant (sort_series ts).labels + n)) p

  index_apart :
      (s : List Bytes) (tenant : Bytes) (ts : TimeSeries)
      → hash tenant (sort_series ts).labels + length s ≤ 2 ^ 64
      → (i j : ℕ) → i < length s
      → j < length s
      → index s tenant ts i ≡ index s tenant ts j
      → i ≡ j
  index_apart s tenant ts b i j p q e =
      mod-add_apart (hash tenant (sort_series ts).labels) i j (length s) p q (
        ap (λ x. x % length s) (sym (mod-eq_of_lt (ground arith)))
        ∙ e
        ∙ ap (λ x. x % length s) (mod-eq_of_lt (ground arith)))

  simple_node :
      (s : List Bytes) (tenant : Bytes) (ts : TimeSeries) (n : ℕ)
      → n < length s
      → (simple_get_n hash s tenant ts n).node ≡ node_at s (index s tenant ts n)
  unfolding simple_get_n
  simple_node s tenant ts n p = rw (few p) refl
    where
      few : n < length s → leb (length s) n ≡ false
      few q = ground arith

  -- The `n`-th node of a simple hashring: for `n` below the number of nodes, `GetN` gives one of the
  -- nodes, and else the error that tells how many nodes there are and how many are wanted.
  pub simple_get_n-node :
      (s : List Bytes) (tenant : Bytes) (ts : TimeSeries) (n : ℕ)
      → (n < length s
          → (i : ℕ) × (a : Bytes) × (get_elem? s i ≡ some a)
            × ((simple_get_n hash s tenant ts n).node ≡ ok a))
        × (length s ≤ n
            → (simple_get_n hash s tenant ts n).node
              ≡ error (insufficient_nodes (length s) (u64 (n + 1))))
  unfolding simple_get_n node_at
  simple_get_n-node s tenant ts n = (
    λ p. found p (get_elem-found s (index s tenant ts n) (index_lt s tenant ts n (ground arith))),
    λ p. rw (many p) refl,
  )
    where
      many : length s ≤ n → leb (length s) n ≡ true
      many q = ground arith

      found :
          n < length s
          → ((a : Bytes) × (get_elem? s (index s tenant ts n) ≡ some a))
          → (i : ℕ) × (a : Bytes) × (get_elem? s i ≡ some a)
            × ((simple_get_n hash s tenant ts n).node ≡ ok a)
      found p (a, e) = (
        index s tenant ts n,
        a,
        e,
        simple_node s tenant ts n p ∙ node_at-some s (index s tenant ts n) a e,
      )

  pub simple_get_n-apart :
      (s : List Bytes) (tenant : Bytes) (ts : TimeSeries)
      → IsDistinct s
      → hash tenant (sort_series ts).labels + length s ≤ 2 ^ 64
      → (i j : ℕ) → i < length s
      → j < length s
      → (simple_get_n hash s tenant ts i).node ≡ (simple_get_n hash s tenant ts j).node
      → i ≡ j
  simple_get_n-apart s tenant ts d b i j p q e =
      let (x, f) = get_elem-found s (index s tenant ts i) (index_lt s tenant ts i (ground arith)) in
      let (y, g) = get_elem-found s (index s tenant ts j) (index_lt s tenant ts j (ground arith)) in
      index_apart s tenant ts b i j p q (
        d (index s tenant ts i) (index s tenant ts j) y
          (f
            ∙ ap some (
                ok-injective x y (
                  sym (node_at-some s (index s tenant ts i) x f)
                  ∙ sym (simple_node s tenant ts i p)
                  ∙ e
                  ∙ simple_node s tenant ts j q
                  ∙ node_at-some s (index s tenant ts j) y g)))
          g)

  -- In a simple hashring that lists no node twice, two different replicas of a series go to
  -- different nodes, if the sum of the hash and the number of nodes does not pass 64 bits.
  pub simple_get_n-differs :
      (s : List Bytes) (tenant : Bytes) (ts : TimeSeries)
      → IsDistinct s
      → hash tenant (sort_series ts).labels + length s ≤ 2 ^ 64
      → (i j : ℕ) → i < length s
      → j < length s
      → i ≢ j
      → (simple_get_n hash s tenant ts i).node ≢ (simple_get_n hash s tenant ts j).node
  simple_get_n-differs s tenant ts d b i j p q ne e =
      ne (simple_get_n-apart s tenant ts d b i j p q e)

  -- A sum that passes 64 bits breaks this: where the hash is 2^64 - 1, and the number of nodes
  -- divides it, the first two replicas go to the same node.
  pub simple_get_n-wraps :
      (s : List Bytes) (tenant : Bytes) (ts : TimeSeries)
      → hash tenant (sort_series ts).labels + 1 ≡ 2 ^ 64
      → (2 ^ 64 - 1) % length s ≡ 0
      → 1 < length s
      → (simple_get_n hash s tenant ts 0).node ≡ (simple_get_n hash s tenant ts 1).node
  simple_get_n-wraps s tenant ts h m p =
      simple_node s tenant ts 0 (ground arith)
      ∙ ap (node_at s) (wraps (hash tenant (sort_series ts).labels) (length s) h m)
      ∙ sym (simple_node s tenant ts 1 p)
