-- ===== src/Prelude/Dict.antt =====
-- Go's maps, as association lists, over keys with a Boolean equality.
use Prim.Native.String.{String}
use text.Mathlib.Text.{◌==◌ as str_eq}
use text.Mathlib.TextEquality.{eq_iff}
use promlts.Prelude.{
  ◌==◌, if◌then◌else◌, ==_iff, length, ℕ, suc, ◌≡◌, refl, ◌↔◌, Bool, true, Option, none, some, List,
  [], ◌∷◌, arith,
}

pub record Eq (A : Type 0) : Type 0 where
  pub beq : A → A → Bool
  pub beq_iff : (a b : A) → (beq a b ≡ true) ↔ (a ≡ b)

instance abbrev pub nat_eq : Eq ℕ
nat_eq = record { beq = ◌==◌; beq_iff = ==_iff }

instance abbrev pub string_eq : Eq String
string_eq = record { beq = str_eq; beq_iff = eq_iff }

abbrev pub same_key : {K : Type 0} ⦃e : Eq K⦄ → K → K → Bool
same_key ⦃e⦄ = e.beq

pub same_key_refl : {K : Type 0} ⦃e : Eq K⦄ (k : K) → same_key k k ≡ true
same_key_refl ⦃e⦄ k = (e.beq_iff k k).1 refl

abbrev pub Dict : Type 0 → Type 0 → Type 0
Dict K V = List (K × V)

module _ {K V : Type 0} ⦃e : Eq K⦄ where
  unfoldable pub get : Dict K V → K → Option V
  get [] k = none
  get ((j, v) ∷ m) k = if same_key j k then some v else get m k

  -- `m[k] = v`; a new key goes to the end.
  unfoldable pub put : Dict K V → K → V → Dict K V
  put [] k v = (k, v) ∷ []
  put ((j, w) ∷ m) k v = if same_key j k then (j, v) ∷ m else (j, w) ∷ put m k v

  unfoldable pub remove : Dict K V → K → Dict K V
  remove [] k = []
  remove ((j, w) ∷ m) k = let rest = remove m k in if same_key j k then rest else (j, w) ∷ rest

  pub get-put :
      (m : Dict K V) (k j : K) (v : V)
      → get (put m k v) j ≡ (if same_key k j then some v else get m j)
  unfolding get put
  get-put [] k j v = refl
  get-put ((i, w) ∷ m) k j v =
      ground (arith, e.beq_iff i k, e.beq_iff i j, e.beq_iff k j, get-put m k j v)

  pub get-remove :
      (m : Dict K V) (k j : K) → get (remove m k) j ≡ (if same_key k j then none else get m j)
  unfolding get remove
  get-remove [] k j = ground arith
  get-remove ((i, w) ∷ m) k j =
      ground (arith, e.beq_iff i k, e.beq_iff i j, e.beq_iff k j, get-remove m k j)

  pub length-put_new :
      (m : Dict K V) (k : K) (v : V) → get m k ≡ none → length (put m k v) ≡ suc (length m)
  unfolding get put
  length-put_new [] k v h = refl
  length-put_new ((j, w) ∷ m) k v h = ground (arith, length-put_new m k v)
