-- ===== src/Block/Metas.antt =====
-- pkg/block/metadata/meta.go: what the fetcher reads of the metadata of a block. A ULID is its
-- 128-bit number, whose upper 48 bits are the milliseconds at which it was made.
use promlts.Prelude.Dict.{Eq, same_key, Dict, get}
use promlts.Prelude.Int.{ℤ}
use promlts.Labelpb.{Bytes}
use promlts.Prelude.{
  if◌then◌else◌, Bool-cases, if_both, ℕ, ◌/◌, ◌^◌, ◌≡◌, refl, ap, inl, inr, Bool, Option, none,
  some, List, [], ◌∷◌, arith,
}

pub data SourceType : Type 0 where
  unknown_source sidecar_source receive_source compactor_source compactor_repair_source : SourceType
  ruler_source bucket_repair_source bucket_rewrite_source test_source : SourceType

pub record Meta : Type 0 where
  pub ulid : ℕ
  pub min_time : ℤ
  pub max_time : ℤ
  pub sources : List ℕ
  -- `none` is a nil map.
  pub labels : Option (Dict Bytes Bytes)
  pub resolution : ℤ
  pub source : SourceType

-- A `map[ulid.ULID]*metadata.Meta`, in the order in which the code ranges over it.
abbrev pub Metas : Type 0
Metas = Dict ℕ Meta

-- `ulid.ULID.Time`
abbrev pub ulid_time : ℕ → ℕ
ulid_time id = id / 2 ^ 80

module _ {K V : Type 0} ⦃e : Eq K⦄ where
  -- The keys of a map are distinct.
  abbrev pub IsMap : Dict K V → Type 0
  IsMap [] = Unit
  IsMap ((k, v) ∷ m) = (get m k ≡ none) × IsMap m

  -- The loop that deletes the entries that it does not keep.
  unfoldable pub retain : (K → V → Bool) → Dict K V → Dict K V
  retain keep [] = []
  retain keep ((k, v) ∷ m) = let rest = retain keep m in if keep k v then (k, v) ∷ rest else rest

  abbrev pub kept_value : (K → V → Bool) → K → Option V → Option V
  kept_value keep k none = none
  kept_value keep k (some v) = if keep k v then some v else none

  pub get-retain :
      (keep : K → V → Bool) (m : Dict K V) (k : K)
      → IsMap m
      → get (retain keep m) k ≡ kept_value keep k (get m k)
  unfolding get retain
  get-retain keep [] k h = refl
  get-retain keep ((j, v) ∷ m) k (new, h) = elim (Bool-cases (same_key j k)) [
    | inl p ↦
        let q : j ≡ k = (e.beq_iff j k).0 p in
        let r = get-retain keep m k h in ground (arith, ap (get m) q, ap (λ x. keep x v) q)
    | inr p ↦ ground (arith, get-retain keep m k h)
  ]

  get-retain-none :
      (keep : K → V → Bool) (m : Dict K V) (k : K) → get m k ≡ none → get (retain keep m) k ≡ none
  unfolding get retain
  get-retain-none keep [] k h = refl
  get-retain-none keep ((j, v) ∷ m) k h = ground (arith, get-retain-none keep m k)

  pub retain-IsMap : (keep : K → V → Bool) (m : Dict K V) → IsMap m → IsMap (retain keep m)
  unfolding retain
  retain-IsMap keep [] h = tt
  retain-IsMap keep ((k, v) ∷ m) (new, h) =
      if_both IsMap (keep k v) ((k, v) ∷ retain keep m) (retain keep m)
        (get-retain-none keep m k new, retain-IsMap keep m h) (retain-IsMap keep m h)
