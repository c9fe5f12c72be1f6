-- ===== src/Cache/Lru.antt =====
-- The interface of simplelru.LRU of github.com/hashicorp/golang-lru, as the caches use it.
-- `entries` lists what the LRU holds, the most recently used first. An operation returns the
-- entries for which the LRU calls back `onEvict`.
pub mod Used
use promlts.Prelude.Dict.{Eq, same_key, Dict, get}
use promlts.Prelude.{
  if◌then◌else◌, ◌≡◌, refl, ap, ◌⊎◌, inl, inr, Option, none, List, [], ◌∷◌, ◌++◌, arith,
}

pub record Lru (L K V : Type 0) : Type 0 where
  pub entries : L → Dict K V
  pub lru_get : L → K → L × Option V
  pub lru_add : L → K → V → L
  pub lru_remove : L → K → L × List (K × V)
  pub remove_oldest : L → L × List (K × V)
  pub purge : L → L × List (K × V)

module _ {K V : Type 0} ⦃e : Eq K⦄ where
  -- Without the entry of the key.
  unfoldable pub without : K → Dict K V → Dict K V
  without k [] = []
  without k ((j, v) ∷ m) = let rest = without k m in if same_key j k then m else (j, v) ∷ rest

  -- The entry of the key.
  unfoldable pub entry_of : K → Dict K V → List (K × V)
  entry_of k [] = []
  entry_of k ((j, v) ∷ m) = let rest = entry_of k m in if same_key j k then (j, v) ∷ [] else rest

-- What the library documents: `Get` moves the entry to the front, `Add` puts a new one there,
-- `Remove` and `RemoveOldest` take one entry out and call back for it, and `Purge` takes all.
pub record LruLaws {L K V : Type 0} ⦃e : Eq K⦄ (o : Lru L K V) : Type 0 where
  pub get_value : (l : L) (k : K) → (o.lru_get l k).1 ≡ get (o.entries l) k
  pub get_entries :
      (l : L) (k : K)
      → o.entries (o.lru_get l k).0 ≡ entry_of k (o.entries l) ++ without k (o.entries l)
  pub add_entries :
      (l : L) (k : K) (v : V)
      → get (o.entries l) k ≡ none
      → o.entries (o.lru_add l k v) ≡ (k, v) ∷ o.entries l
  pub remove_entries : (l : L) (k : K) → o.entries (o.lru_remove l k).0 ≡ without k (o.entries l)
  pub remove_evicted : (l : L) (k : K) → (o.lru_remove l k).1 ≡ entry_of k (o.entries l)
  pub oldest_split :
      (l : L) → o.entries (o.remove_oldest l).0 ++ (o.remove_oldest l).1 ≡ o.entries l
  pub oldest_count :
      (l : L)
      → ((o.remove_oldest l).1 ≡ []) × (o.entries l ≡ [])
        ⊎ ((x : K × V) × ((o.remove_oldest l).1 ≡ x ∷ []))
  pub purge_entries : (l : L) → o.entries (o.purge l).0 ≡ []
  pub purge_evicted : (l : L) → (o.purge l).1 ≡ o.entries l

-- The entries as a list, an LRU that keeps the laws.
unfoldable pub init_entries : {A : Type 0} → List A → List A × List A
init_entries [] = ([], [])
init_entries (x ∷ []) = ([], x ∷ [])
init_entries (x ∷ y ∷ m) = let (kept, last) = init_entries (y ∷ m) in (x ∷ kept, last)

unfoldable pub list_lru : {K V : Type 0} ⦃e : Eq K⦄ → Lru (Dict K V) K V
list_lru = record {
  entries = λ m. m;
  lru_get = λ m k. (entry_of k m ++ without k m, get m k);
  lru_add = λ m k v. (k, v) ∷ m;
  lru_remove = λ m k. (without k m, entry_of k m);
  remove_oldest = init_entries;
  purge = λ m. ([], m);
}

init_entries-split : {A : Type 0} (m : List A) → (init_entries m).0 ++ (init_entries m).1 ≡ m
unfolding init_entries
init_entries-split [] = refl
init_entries-split (x ∷ []) = refl
init_entries-split (x ∷ y ∷ m) = ap (◌∷◌ x) (init_entries-split (y ∷ m))

init_entries-count :
    {A : Type 0} (m : List A)
    → ((init_entries m).1 ≡ []) × (m ≡ []) ⊎ ((x : A) × ((init_entries m).1 ≡ x ∷ []))
unfolding init_entries
init_entries-count [] = inl (refl, refl)
init_entries-count (x ∷ []) = inr (x, refl)
init_entries-count (x ∷ y ∷ m) = elim (init_entries-count (y ∷ m)) [
  | inl (p, q) ↦ absurd (ground arith)
  | inr h ↦ inr h
]

pub list_lru-LruLaws : {K V : Type 0} ⦃e : Eq K⦄ → LruLaws (list_lru {K = K} {V = V})
unfolding list_lru
list_lru-LruLaws = record {
  get_value = λ l k. refl;
  get_entries = λ l k. refl;
  add_entries = λ l k v h. refl;
  remove_entries = λ l k. refl;
  remove_evicted = λ l k. refl;
  oldest_split = init_entries-split;
  oldest_count = init_entries-count;
  purge_entries = λ l. refl;
  purge_evicted = λ l. refl;
}
