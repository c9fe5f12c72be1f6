-- ===== src/Receive/Hashring/Cached.antt =====
-- pkg/receive/hashring.go: `multiHashring`, and that its cache changes no answer.
-- The groups as the configuration means them: the first without tenants or with the tenant in its
-- list.
use mathlib.Core.Path.{subst, ap₂}
use promlts.Receive.Hashring.{
  TimeSeries, error, Got, Multi, Config, tenant_set, group_set, new_multi_hashring, matches,
  find_hashring, simple_get_n, multi_get_n,
}
use promlts.Receive.Errors.{no_matching_hashring}
use promlts.Labelpb.{Bytes, bytes_eq, bytes_eq_iff, bytes_key, Label}
use promlts.Prelude.Dict.{Dict, get, put, get-put}
use promlts.Prelude.{
  if◌then◌else◌, Bool-cases, Option-cases, ℕ, ◌≡◌, refl, sym, ◌∙◌, inl, inr, Bool, true, false,
  ◌||◌, Option, none, some, List, [], ◌∷◌, map, arith,
}

abbrev pub lists_tenant : List Bytes → Bytes → Bool
lists_tenant [] tenant = false
lists_tenant (x ∷ xs) tenant = bytes_eq x tenant || lists_tenant xs tenant

abbrev pub serves : Config → Bytes → Bool
serves c tenant = elim c.tenants [ [] ↦ true | x ∷ xs ↦ lists_tenant (x ∷ xs) tenant ]

abbrev pub hashring_of : List Config → Bytes → Option (List Bytes)
hashring_of [] tenant = none
hashring_of (c ∷ cfg) tenant =
    let rest = hashring_of cfg tenant in if serves c tenant then some c.endpoints else rest

abbrev has : Dict Bytes (Unit {0}) → Bytes → Bool
has t tenant = elim (get t tenant) [ none ↦ false | some x ↦ true ]

module _ (m : Dict Bytes (List Bytes)) (tenant j : Bytes) (ring : List Bytes) where
  pub get_here : bytes_eq tenant j ≡ true → get (put m tenant ring) j ≡ some ring
  get_here t = get-put m tenant j ring ∙ rw t refl

  get_there : bytes_eq tenant j ≡ false → get (put m tenant ring) j ≡ get m j
  get_there t = get-put m tenant j ring ∙ rw t refl

has-put :
    (t : Dict Bytes (Unit {0})) (x tenant : Bytes)
    → has (put t x tt) tenant ≡ (bytes_eq x tenant || has t tenant)
has-put t x tenant = ground (arith, get-put t x tenant tt)

has-tenant_set :
    (xs : List Bytes) (t : Dict Bytes (Unit {0})) (tenant : Bytes)
    → has (tenant_set xs t) tenant ≡ (lists_tenant xs tenant || has t tenant)
unfolding tenant_set
has-tenant_set [] t tenant = refl
has-tenant_set (x ∷ xs) t tenant =
    ground (arith, has-put t x tenant, has-tenant_set xs (put t x tt) tenant)

matches-group_set :
    (c : Config) (tenant : Bytes) → matches (group_set c.tenants) tenant ≡ serves c tenant
unfolding matches group_set get
matches-group_set c tenant = at c.tenants
  where
    at :
        (xs : List Bytes)
        → matches (group_set xs) tenant
          ≡ elim xs [ [] ↦ true | x ∷ xs ↦ lists_tenant (x ∷ xs) tenant ]
    at [] = refl
    at (x ∷ xs) = ground (arith, has-tenant_set (x ∷ xs) [] tenant)

pub find_hashring-new :
    (cfg : List Config) (tenant : Bytes)
    → find_hashring (map (λ h. group_set h.tenants) cfg) (map (λ h. h.endpoints) cfg) tenant
      ≡ hashring_of cfg tenant
unfolding find_hashring
find_hashring-new [] tenant = refl
find_hashring-new (c ∷ cfg) tenant =
    rw (matches-group_set c tenant, find_hashring-new cfg tenant) refl

pub record Request : Type 0 where
  pub tenant : Bytes
  pub series : TimeSeries
  pub n : ℕ

module _ (hash : Bytes → List Label → ℕ) where
  abbrev pub answer : List Config → Request → Got
  answer cfg r = elim (hashring_of cfg r.tenant) [
    | some ring ↦ simple_get_n hash ring r.tenant r.series r.n
    | none ↦ record { series = r.series; node = error no_matching_hashring }
  ]

  -- The answers to a sequence of calls.
  abbrev pub ask : Multi → List Request → List Got
  ask m [] = []
  ask m (r ∷ rs) = let (after, got) = multi_get_n hash m r.tenant r.series r.n in got ∷ ask after rs

  -- A multi hashring made of a configuration, and used since.
  record UsedFrom (cfg : List Config) (m : Multi) : Type 0 where
    finds :
        (tenant : Bytes) → find_hashring m.tenant_sets m.hashrings tenant ≡ hashring_of cfg tenant
    caches :
        (tenant : Bytes) (ring : List Bytes)
        → get m.cache tenant ≡ some ring
        → hashring_of cfg tenant ≡ some ring

  new-UsedFrom : (cfg : List Config) → UsedFrom cfg (new_multi_hashring cfg)
  unfolding new_multi_hashring get
  new-UsedFrom cfg = record {
    finds = find_hashring-new cfg;
    caches = λ tenant ring e. ground arith;
  }

  put-UsedFrom :
      (cfg : List Config) (m : Multi) (tenant : Bytes) (ring : List Bytes)
      → hashring_of cfg tenant ≡ some ring
      → UsedFrom cfg m
      → UsedFrom cfg (record m { cache = put m.cache tenant ring })
  put-UsedFrom cfg m tenant ring f u = record { finds = u.finds; caches = kept }
    where
      kept :
          (j : Bytes) (r : List Bytes)
          → get (put m.cache tenant ring) j ≡ some r
          → hashring_of cfg j ≡ some r
      kept j r e = elim (Bool-cases (bytes_eq tenant j)) [
        | inl t ↦
            subst (λ x. hashring_of cfg x ≡ some r) ((bytes_eq_iff tenant j).0 t)
              (f ∙ sym (get_here m.cache tenant j ring t) ∙ e)
        | inr t ↦ u.caches j r (sym (get_there m.cache tenant j ring t) ∙ e)
      ]

  get_n-UsedFrom :
      (cfg : List Config) (m : Multi) (r : Request)
      → UsedFrom cfg m
      → ((multi_get_n hash m r.tenant r.series r.n).1 ≡ answer cfg r)
        × UsedFrom cfg (multi_get_n hash m r.tenant r.series r.n).0
  unfolding multi_get_n
  get_n-UsedFrom cfg m r u = elim (Option-cases (get m.cache r.tenant)) [
    | inr (ring, e) ↦ rw (e, u.caches r.tenant ring e, multi_get_n, answer) (refl, u)
    | inl e ↦ elim (Option-cases (hashring_of cfg r.tenant)) [
      | inr (ring, f) ↦
          rw (e, u.finds r.tenant, f, multi_get_n, answer)
            (refl, put-UsedFrom cfg m r.tenant ring f u)
      | inl f ↦ rw (e, u.finds r.tenant, f, multi_get_n, answer) (refl, u)
    ]
  ]

  ask-UsedFrom :
      (cfg : List Config) (m : Multi) (rs : List Request)
      → UsedFrom cfg m
      → ask m rs ≡ map (answer cfg) rs
  ask-UsedFrom cfg m [] u = refl
  ask-UsedFrom cfg m (r ∷ rs) u =
      let (e, v) = get_n-UsedFrom cfg m r u in
      ap₂ (λ x y. x ∷ y) e (ask-UsedFrom cfg (multi_get_n hash m r.tenant r.series r.n).0 rs v)

  -- A multi hashring answers every call, whatever was asked before, by the first group of the
  -- configuration that has no tenants or lists the tenant, and with an error if there is none: the
  -- cache changes no answer.
  pub ask-new :
      (cfg : List Config) (rs : List Request)
      → ask (new_multi_hashring cfg) rs ≡ map (answer cfg) rs
  ask-new cfg rs = ask-UsedFrom cfg (new_multi_hashring cfg) rs (new-UsedFrom cfg)
