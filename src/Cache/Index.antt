-- ===== src/Cache/Index.antt =====
-- pkg/store/cache/inmemory.go and cache.go: the cache of index entries. A ULID is its 16 bytes, and
-- the cryptographic hash and the texts of a ULID, of a hash and of a number are parameters.
pub mod Fetching
pub mod Running
use promlts.Prelude.Dict.{Eq, nat_eq, Dict, put}
use promlts.Cache.Lru.{Lru}
use promlts.Cache.Sized.{Cache, cache_set}
use promlts.Labelpb.{Bytes, bytes_eq, bytes_eq_iff, Label}
use promlts.Prelude.{
  ◌==◌, length, ℕ, ◌+◌, ◌*◌, ◌≡◌, ◌↔◌, Bool, true, false, ◌&&◌, Option, none, some, List, [], ◌∷◌,
  ◌++◌, arith,
}

abbrev pub slice_header_size : ℕ
slice_header_size = 16

abbrev pub ulid_size : ℕ
ulid_size = 16

pub data ItemKey : Type 0 where
  postings : Label → ItemKey
  series : ℕ → ItemKey

pub record CacheKey : Type 0 where
  pub block : Bytes
  pub key : ItemKey

pub data KeyType : Type 0 where
  type_postings type_series : KeyType

pub key_type : CacheKey → KeyType
key_type k = elim k.key [ postings l ↦ type_postings | series id ↦ type_series ]

-- The two slice headers, and the characters.
pub key_size : CacheKey → ℕ
key_size k = elim k.key [
  | postings l ↦ ulid_size + 2 * slice_header_size + (length l.value + length l.name)
  | series id ↦ ulid_size + 8
]

pub record Texts : Type 0 where
  pub sum256 : Bytes → Bytes
  pub raw_url : Bytes → Bytes
  pub ulid_text : Bytes → Bytes
  pub format_uint : ℕ → Bytes

-- The characters 'P', 'S' and ':' are 80, 83 and 58.
pub key_string : Texts → CacheKey → Bytes
key_string t k = elim k.key [
  | postings l ↦
      80 ∷ 58 ∷ (t.ulid_text k.block ++ (58 ∷ t.raw_url (t.sum256 (l.name ++ (58 ∷ l.value)))))
  | series id ↦ 83 ∷ 58 ∷ (t.ulid_text k.block ++ (58 ∷ t.format_uint id))
]

abbrev item_eq : ItemKey → ItemKey → Bool
item_eq (postings l) (postings m) = bytes_eq l.name m.name && bytes_eq l.value m.value
item_eq (series i) (series j) = i == j
item_eq (postings l) (series j) = false
item_eq (series i) (postings m) = false

pub item_eq_iff : (a b : ItemKey) → (item_eq a b ≡ true) ↔ (a ≡ b)
item_eq_iff (postings l) (postings m) =
    ground (arith, bytes_eq_iff l.name m.name, bytes_eq_iff l.value m.value)
item_eq_iff (series i) (series j) = ground arith
item_eq_iff (postings l) (series j) = ground arith
item_eq_iff (series i) (postings m) = ground arith

pub key_eq_iff :
    (a b : CacheKey) → ((bytes_eq a.block b.block && item_eq a.key b.key) ≡ true) ↔ (a ≡ b)
key_eq_iff a b = ground (arith, bytes_eq_iff a.block b.block, item_eq_iff a.key b.key)

instance abbrev pub index_key : Eq CacheKey
index_key = record {
  beq = λ a b. bytes_eq a.block b.block && item_eq a.key b.key;
  beq_iff = key_eq_iff;
}

pub label_eq_iff :
    (a b : Label) → ((bytes_eq a.name b.name && bytes_eq a.value b.value) ≡ true) ↔ (a ≡ b)
label_eq_iff a b = ground (arith, bytes_eq_iff a.name b.name, bytes_eq_iff a.value b.value)

instance abbrev pub label_key : Eq Label
label_key = record {
  beq = λ a b. bytes_eq a.name b.name && bytes_eq a.value b.value;
  beq_iff = label_eq_iff;
}

-- The size of an entry.
abbrev pub entry_size : Bytes → ℕ
entry_size val = slice_header_size + length val

module _ {L : Type 0} (o : Lru L CacheKey Bytes) where
  unfoldable pub index_get : Cache L → CacheKey → Cache L × Option Bytes
  index_get c key = let (l, v) = o.lru_get c.lru key in (record c { lru = l }, v)

  unfoldable pub index_set : ℕ → Cache L → CacheKey → Bytes → Option (Cache L)
  index_set fuel c key val = cache_set o entry_size fuel c key val

  unfoldable pub store_postings : ℕ → Cache L → Bytes → Label → Bytes → Option (Cache L)
  store_postings fuel c block_id l v =
      index_set fuel c (record { block = block_id; key = postings l }) v

  unfoldable pub store_series : ℕ → Cache L → Bytes → ℕ → Bytes → Option (Cache L)
  store_series fuel c block_id id v =
      index_set fuel c (record { block = block_id; key = series id }) v

  -- The loop of the two fetches, over keys that `key_of` completes.
  unfoldable pub fetch_from :
      {A : Type 0} ⦃e : Eq A⦄
      → (A → CacheKey)
      → Cache L
      → Dict A Bytes
      → List A
      → List A
      → Cache L × Dict A Bytes × List A
  fetch_from key_of c hits misses [] = (c, hits, misses)
  fetch_from key_of c hits misses (key ∷ keys) =
      let (c', v) = index_get c (key_of key) in
      elim v [
        | some b ↦ fetch_from key_of c' (put hits key b) misses keys
        | none ↦ fetch_from key_of c' hits (misses ++ (key ∷ [])) keys
      ]

  pub fetch_multi_postings : Cache L → Bytes → List Label → Cache L × Dict Label Bytes × List Label
  fetch_multi_postings c block_id keys =
      fetch_from (λ l. record { block = block_id; key = postings l }) c [] [] keys

  pub fetch_multi_series : Cache L → Bytes → List ℕ → Cache L × Dict ℕ Bytes × List ℕ
  fetch_multi_series c block_id ids =
      fetch_from (λ id. record { block = block_id; key = series id }) c [] [] ids
