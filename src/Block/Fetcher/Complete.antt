-- ===== src/Block/Fetcher/Complete.antt =====
-- pkg/block/fetcher.go: every block of the bucket is accounted for.
use mathlib.Core.Path.{subst}
use promlts.Prelude.Dict.{nat_eq, Dict, get, put, get-put}
use promlts.Block.Metas.{Meta, Metas}
use promlts.Block.Fetcher.{
  meta_not_found, meta_corrupted, load_failed, DirAction, Storage, Loaded, loaded, not_loaded,
  load_meta, Response, note_loaded, load_all,
}
use promlts.Prelude.{
  ◌==◌, Bool-cases, length, length-append, Contains, ℕ, ◌<◌, ◌≡◌, refl, ap, ◌⊎◌, inl, inr, Option,
  none, some, List, [], ◌∷◌, arith,
}

module _ (s : Storage) (cached : Metas) where
  abbrev pub outcome : ℕ → Loaded
  outcome id = (load_meta s cached id).1

  -- Where the answer for a block stands in the response.
  abbrev pub Accounted : Response → ℕ → Loaded → Type 0
  Accounted resp id (loaded m) = get resp.metas id ≡ some m
  Accounted resp id (not_loaded load_failed) = 0 < length resp.meta_errs
  Accounted resp id (not_loaded meta_not_found) = get resp.partial id ≡ some meta_not_found
  Accounted resp id (not_loaded meta_corrupted) = get resp.partial id ≡ some meta_corrupted

  note-Accounted : (resp : Response) (id : ℕ) (r : Loaded) → Accounted (note_loaded resp id r) id r
  unfolding note_loaded
  note-Accounted resp id (loaded m) = ground (arith, get-put resp.metas id id m)
  note-Accounted resp id (not_loaded load_failed) =
      omega (arith, length-append resp.meta_errs (load_failed ∷ []))
  note-Accounted resp id (not_loaded meta_not_found) =
      ground (arith, get-put resp.partial id id meta_not_found)
  note-Accounted resp id (not_loaded meta_corrupted) =
      ground (arith, get-put resp.partial id id meta_corrupted)

  -- What is written in one map under another key, or the same value under the key, changes nothing.
  same_get :
      {V : Type 0} (m : Dict ℕ V) (id j : ℕ) (v w : V)
      → ((j ≡ id) → v ≡ w)
      → get m id ≡ some w
      → get (put m j v) id ≡ some w
  same_get m id j v w h g = elim (Bool-cases (j == id)) [
    | inl p ↦ let e : v ≡ w = h (ground arith) in rw (get-put m j id v, p, e) refl
    | inr p ↦ rw (get-put m j id v, p) g
  ]

  loaded_inj : (m n : Meta) → loaded m ≡ loaded n → m ≡ n
  loaded_inj m n h = ap (λ r. elim r [ loaded x ↦ x | not_loaded e ↦ m ]) h

  keeps-Accounted :
      (resp : Response) (id j : ℕ) (r q : Loaded)
      → ((j ≡ id) → q ≡ r)
      → Accounted resp id r
      → Accounted (note_loaded resp j q) id r
  unfolding note_loaded
  keeps-Accounted resp id j (loaded m) (loaded n) h a =
      same_get resp.metas id j n m (λ p. loaded_inj n m (h p)) a
  keeps-Accounted resp id j (loaded m) (not_loaded load_failed) h a = a
  keeps-Accounted resp id j (loaded m) (not_loaded meta_not_found) h a = a
  keeps-Accounted resp id j (loaded m) (not_loaded meta_corrupted) h a = a
  keeps-Accounted resp id j (not_loaded load_failed) (loaded n) h a = a
  keeps-Accounted resp id j (not_loaded load_failed) (not_loaded load_failed) h a =
      omega (arith, a, length-append resp.meta_errs (load_failed ∷ []))
  keeps-Accounted resp id j (not_loaded load_failed) (not_loaded meta_not_found) h a = a
  keeps-Accounted resp id j (not_loaded load_failed) (not_loaded meta_corrupted) h a = a
  keeps-Accounted resp id j (not_loaded meta_not_found) (loaded n) h a = a
  keeps-Accounted resp id j (not_loaded meta_not_found) (not_loaded load_failed) h a = a
  keeps-Accounted resp id j (not_loaded meta_not_found) (not_loaded meta_not_found) h a =
      same_get resp.partial id j meta_not_found meta_not_found (λ p. refl) a
  keeps-Accounted resp id j (not_loaded meta_not_found) (not_loaded meta_corrupted) h a =
      same_get resp.partial id j meta_corrupted meta_not_found (λ p. ground (arith, h p)) a
  keeps-Accounted resp id j (not_loaded meta_corrupted) (loaded n) h a = a
  keeps-Accounted resp id j (not_loaded meta_corrupted) (not_loaded load_failed) h a = a
  keeps-Accounted resp id j (not_loaded meta_corrupted) (not_loaded meta_not_found) h a =
      same_get resp.partial id j meta_not_found meta_corrupted (λ p. ground (arith, h p)) a
  keeps-Accounted resp id j (not_loaded meta_corrupted) (not_loaded meta_corrupted) h a =
      same_get resp.partial id j meta_corrupted meta_corrupted (λ p. refl) a

  later-Accounted :
      (ids : List ℕ) (resp : Response) (id : ℕ)
      → Accounted resp id (outcome id)
      → Accounted (load_all s cached resp ids).1 id (outcome id)
  unfolding load_all
  later-Accounted [] resp id h = h
  later-Accounted (j ∷ ids) resp id h =
      later-Accounted ids (note_loaded resp j (outcome j)) id
        (keeps-Accounted resp id j (outcome id) (outcome j) (ap outcome) h)

  pub load_all-Accounted :
      (ids : List ℕ) (resp : Response) (id : ℕ)
      → Contains id ids
      → Accounted (load_all s cached resp ids).1 id (outcome id)
  unfolding load_all
  load_all-Accounted [] resp id h = absurd h
  load_all-Accounted (j ∷ ids) resp id (inl p) =
      later-Accounted ids (note_loaded resp j (outcome j)) id (
        subst (λ x. Accounted (note_loaded resp x (outcome x)) id (outcome id)) p
          (note-Accounted resp id (outcome id)))
  load_all-Accounted (j ∷ ids) resp id (inr p) =
      load_all-Accounted ids (note_loaded resp j (outcome j)) id p

  -- A block of the response was there before, or was listed and loaded.
  abbrev pub FromListing : Response → List ℕ → Response → Type 0
  FromListing before ids after =
      (id : ℕ) (m : Meta)
      → get after.metas id ≡ some m
      → (get before.metas id ≡ some m) ⊎ (Contains id ids × (outcome id ≡ loaded m))

  pub record Complete (ids : List ℕ) (resp : Response) : Type 0 where
    pub accounted : (id : ℕ) → Contains id ids → Accounted resp id (outcome id)
    pub from_listing :
        (id : ℕ) (m : Meta) → get resp.metas id ≡ some m → Contains id ids × (outcome id ≡ loaded m)

  -- The next cache: the metadata of a complete view, or what it was.
  abbrev pub NextCache : Metas → Response → Type 0
  NextCache cached' resp =
      (length resp.meta_errs ≡ 0) × (cached' ≡ resp.metas)
      ⊎ ((0 < length resp.meta_errs) × (cached' ≡ cached))

  abbrev pub Fetches : List ℕ → Metas × List DirAction × Option Response → Type 0
  Fetches ids (cached', actions, none) = ⊥
  Fetches ids (cached', actions, some resp) = Complete ids resp × NextCache cached' resp
