-- ===== src/Receive/Hashring.antt =====
-- pkg/receive/hashring.go. A hashring is the single node, the list of a simple hashring's nodes, or
-- the hashrings of groups of tenants with the cache of the tenants seen. Names are byte strings.
-- `GetN` sorts the labels of the series in place, so it returns the series as well.
-- The hash is a parameter, for which `hash_with_prefix` of Labelpb stands, with its xxHash.
pub mod Sorting
pub mod Spread
pub mod Cached
pub mod Serving
use Prim.Native.Nat.{lt}
use promlts.Prelude.Dict.{Dict, get, put}
use promlts.Labelpb.{Bytes, string_order, bytes_key, Label}
use promlts.Receive.Errors.{Err, insufficient_nodes, no_matching_hashring, index_out_of_range}
use promlts.Prelude.{
  ltb, leb, if◌then◌else◌, length, get_elem?, ℕ, ◌+◌, ◌%◌, ◌^◌, Bool, true, false, Option, none,
  some, List, [], ◌∷◌, map,
}

pub record TimeSeries : Type 0 where
  pub labels : List Label
  -- the samples' times and values
  pub samples : List (ℕ × ℕ)

pub data Result (A : Type 0) : Type 0 where
  ok : A → Result A
  error : Err → Result A

-- `sort.Slice` by name, as the insertion sort of short slices.
pub insert_label : Label → List Label → List Label
insert_label l [] = l ∷ []
insert_label l (m ∷ ms) =
    let rest = insert_label l ms in
    elim (string_order.compare l.name m.name) [ lt ↦ l ∷ (m ∷ ms) | _ ↦ m ∷ rest ]

pub sort_labels : List Label → List Label → List Label
sort_labels done [] = done
sort_labels done (l ∷ ls) = sort_labels (insert_label l done) ls

pub sort_series : TimeSeries → TimeSeries
unfolding sort_labels insert_label
sort_series ts = record ts { labels = sort_labels [] ts.labels }

pub node_at : List Bytes → ℕ → Result Bytes
node_at s i = elim (get_elem? s i) [ none ↦ error index_out_of_range | some node ↦ ok node ]

abbrev pub u64 : ℕ → ℕ
u64 n = n % 2 ^ 64

-- The series after the call, and the node or the error.
pub record Got : Type 0 where
  pub series : TimeSeries
  pub node : Result Bytes

pub record Multi : Type 0 where
  pub cache : Dict Bytes (List Bytes)
  pub hashrings : List (List Bytes)
  -- `none` is the nil set of a hashring without tenants
  pub tenant_sets : List (Option (Dict Bytes (Unit {0})))

pub record Config : Type 0 where
  pub tenants : List Bytes
  pub endpoints : List Bytes

pub data Hashring : Type 0 where
  single_node : Bytes → Hashring
  simple : List Bytes → Hashring
  multi : Multi → Hashring

pub single_get_n : Bytes → TimeSeries → ℕ → Got
single_get_n s ts n =
    if ltb 0 n
    then record { series = ts; node = error (insufficient_nodes 1 (u64 (n + 1))) }
    else record { series = ts; node = ok s }

-- The set of the tenants of one group of the configuration.
pub tenant_set : List Bytes → Dict Bytes (Unit {0}) → Dict Bytes (Unit {0})
tenant_set [] t = t
tenant_set (tenant ∷ tenants) t = tenant_set tenants (put t tenant tt)

pub group_set : List Bytes → Option (Dict Bytes (Unit {0}))
unfolding tenant_set
group_set [] = none
group_set (tenant ∷ tenants) = some (tenant_set (tenant ∷ tenants) [])

pub new_multi_hashring : List Config → Multi
unfolding group_set
new_multi_hashring cfg = record {
  cache = [];
  hashrings = map (λ h. h.endpoints) cfg;
  tenant_sets = map (λ h. group_set h.tenants) cfg;
}

-- Whether the tenant is one of the set's, where the nil set has every tenant.
pub matches : Option (Dict Bytes (Unit {0})) → Bytes → Bool
matches none tenant = true
matches (some t) tenant = elim (get t tenant) [ none ↦ false | some x ↦ true ]

-- The loop over the tenant sets, which are as many as the hashrings: the hashring at the first
-- index that matches.
pub find_hashring :
    List (Option (Dict Bytes (Unit {0}))) → List (List Bytes) → Bytes → Option (List Bytes)
unfolding matches
find_hashring [] rings tenant = none
find_hashring (t ∷ ts) [] tenant = none
find_hashring (t ∷ ts) (ring ∷ rings) tenant =
    let rest = find_hashring ts rings tenant in if matches t tenant then some ring else rest

module _ (hash : Bytes → List Label → ℕ) where
  pub simple_get_n : List Bytes → Bytes → TimeSeries → ℕ → Got
  unfolding sort_series node_at
  simple_get_n s tenant ts n =
      if leb (length s) n
      then record { series = ts; node = error (insufficient_nodes (length s) (u64 (n + 1))) }
      else record {
        series = sort_series ts;
        node = node_at s (u64 (hash tenant (sort_series ts).labels + n) % length s);
      }

  pub multi_get_n : Multi → Bytes → TimeSeries → ℕ → Multi × Got
  unfolding find_hashring simple_get_n
  multi_get_n m tenant ts n = elim (get m.cache tenant) [
    | some ring ↦ (m, simple_get_n ring tenant ts n)
    | none ↦ elim (find_hashring m.tenant_sets m.hashrings tenant) [
      | some ring ↦ (record m { cache = put m.cache tenant ring }, simple_get_n ring tenant ts n)
      | none ↦ (m, record { series = ts; node = error no_matching_hashring })
    ]
  ]

  pub get_n : Hashring → Bytes → TimeSeries → ℕ → Hashring × Got
  unfolding single_get_n simple_get_n multi_get_n
  get_n (single_node s) tenant ts n = (single_node s, single_get_n s ts n)
  get_n (simple s) tenant ts n = (simple s, simple_get_n s tenant ts n)
  get_n (multi m) tenant ts n = let (after, got) = multi_get_n m tenant ts n in (multi after, got)
