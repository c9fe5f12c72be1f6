-- ===== src/Prelude/Order.antt =====
-- A total order given by a three-way comparison, as Go's `Compare` functions are, and its builders.
use mathlib.Core.Path.{subst, fun_ext}
use Prim.Native.Nat.{lt, eq, gt, compare, Ordering}
use promlts.Prelude.Int.{ℤ, int_compare}
use promlts.Prelude.{
  ℕ, ◌≡◌, refl, sym, ap, ◌↔◌, ◌⊎◌, inl, inr, Option, none, some, List, [], ◌∷◌, arith,
}

pub record Order (A : Type 0) : Type 0 where
  pub compare : A → A → Ordering
  pub same : (a : A) → compare a a ≡ eq
  pub eq_of : (a b : A) → compare a b ≡ eq → a ≡ b
  pub flip_lt : (a b : A) → compare a b ≡ lt → compare b a ≡ gt
  pub flip_gt : (a b : A) → compare a b ≡ gt → compare b a ≡ lt
  pub trans : (a b c : A) → compare a b ≡ lt → compare b c ≡ lt → compare a c ≡ lt

abbrev pub reverse_ordering : Ordering → Ordering
reverse_ordering lt = gt
reverse_ordering eq = eq
reverse_ordering gt = lt

-- The first comparison decides, unless it says "equal".
abbrev pub lex : Ordering → Ordering → Ordering
lex lt o = lt
lex eq o = o
lex gt o = gt

pub Ordering-cases : (o : Ordering) → (o ≡ lt) ⊎ (o ≡ eq) ⊎ (o ≡ gt)
Ordering-cases lt = inl refl
Ordering-cases eq = inr (inl refl)
Ordering-cases gt = inr (inr refl)

pub compare_same : (a : ℕ) → compare a a ≡ eq
compare_same a = ground arith

pub eq_of_compare : (a b : ℕ) → compare a b ≡ eq → a ≡ b
eq_of_compare a b h = ground arith

pub compare-flip_lt : (a b : ℕ) → compare a b ≡ lt → compare b a ≡ gt
compare-flip_lt a b h = ground arith

pub compare-flip_gt : (a b : ℕ) → compare a b ≡ gt → compare b a ≡ lt
compare-flip_gt a b h = ground arith

pub compare_trans : (a b c : ℕ) → compare a b ≡ lt → compare b c ≡ lt → compare a c ≡ lt
compare_trans a b c h k = ground arith

abbrev pub nat_order : Order ℕ
nat_order = record {
  compare = compare;
  same = compare_same;
  eq_of = eq_of_compare;
  flip_lt = compare-flip_lt;
  flip_gt = compare-flip_gt;
  trans = compare_trans;
}

abbrev pub reverse_order : {A : Type 0} → Order A → Order A
reverse_order o = record {
  compare = λ a b. o.compare b a;
  same = o.same;
  eq_of = λ a b h. sym (o.eq_of b a h);
  flip_lt = λ a b h. o.flip_lt b a h;
  flip_gt = λ a b h. o.flip_gt b a h;
  trans = λ a b c h k. o.trans c b a k h;
}

-- Nothing comes before something, as a nil pointer does.
abbrev pub option_compare : {A : Type 0} → Order A → Option A → Option A → Ordering
option_compare o none none = eq
option_compare o none (some b) = lt
option_compare o (some a) none = gt
option_compare o (some a) (some b) = o.compare a b

pub option_eq_of : {A : Type 0} (o : Order A) (a b : Option A) → option_compare o a b ≡ eq → a ≡ b
option_eq_of o none none h = refl
option_eq_of o none (some b) h = cc
option_eq_of o (some a) none h = cc
option_eq_of o (some a) (some b) h = ap some (o.eq_of a b h)

pub option_same : {A : Type 0} (o : Order A) (a : Option A) → option_compare o a a ≡ eq
option_same o none = refl
option_same o (some a) = o.same a

pub option_flip_lt :
    {A : Type 0} (o : Order A) (a b : Option A)
    → option_compare o a b ≡ lt
    → option_compare o b a ≡ gt
option_flip_lt o none none h = cc
option_flip_lt o none (some b) h = refl
option_flip_lt o (some a) none h = cc
option_flip_lt o (some a) (some b) h = o.flip_lt a b h

pub option_flip_gt :
    {A : Type 0} (o : Order A) (a b : Option A)
    → option_compare o a b ≡ gt
    → option_compare o b a ≡ lt
option_flip_gt o none none h = cc
option_flip_gt o none (some b) h = cc
option_flip_gt o (some a) none h = refl
option_flip_gt o (some a) (some b) h = o.flip_gt a b h

pub option_trans :
    {A : Type 0} (o : Order A) (a b c : Option A)
    → option_compare o a b ≡ lt
    → option_compare o b c ≡ lt
    → option_compare o a c ≡ lt
option_trans o none none c h k = cc
option_trans o none (some b) none h k = cc
option_trans o none (some b) (some c) h k = refl
option_trans o (some a) none c h k = cc
option_trans o (some a) (some b) none h k = cc
option_trans o (some a) (some b) (some c) h k = o.trans a b c h k

abbrev pub option_order : {A : Type 0} → Order A → Order (Option A)
option_order o = record {
  compare = option_compare o;
  same = option_same o;
  eq_of = option_eq_of o;
  flip_lt = option_flip_lt o;
  flip_gt = option_flip_gt o;
  trans = option_trans o;
}

-- The lexicographic order of lists, as of strings by their bytes.
abbrev pub list_compare : {A : Type 0} → Order A → List A → List A → Ordering
list_compare o [] [] = eq
list_compare o [] (b ∷ bs) = lt
list_compare o (a ∷ as') [] = gt
list_compare o (a ∷ as') (b ∷ bs) = lex (o.compare a b) (list_compare o as' bs)

pub list_same : {A : Type 0} (o : Order A) (l : List A) → list_compare o l l ≡ eq
list_same o [] = refl
list_same o (a ∷ l) = ground (arith, o.same a, list_same o l)

pub list_eq_of : {A : Type 0} (o : Order A) (l m : List A) → list_compare o l m ≡ eq → l ≡ m
list_eq_of o [] [] h = refl
list_eq_of o [] (b ∷ m) h = cc
list_eq_of o (a ∷ l) [] h = cc
list_eq_of o (a ∷ l) (b ∷ m) h = ground (arith, o.eq_of a b, list_eq_of o l m)

pub list_flip_lt :
    {A : Type 0} (o : Order A) (l m : List A) → list_compare o l m ≡ lt → list_compare o m l ≡ gt
list_flip_lt o [] [] h = cc
list_flip_lt o [] (b ∷ m) h = refl
list_flip_lt o (a ∷ l) [] h = cc
list_flip_lt o (a ∷ l) (b ∷ m) h =
    ground (arith, o.flip_lt a b, o.eq_of a b, o.same a, list_flip_lt o l m)

pub list_flip_gt :
    {A : Type 0} (o : Order A) (l m : List A) → list_compare o l m ≡ gt → list_compare o m l ≡ lt
list_flip_gt o [] [] h = cc
list_flip_gt o [] (b ∷ m) h = cc
list_flip_gt o (a ∷ l) [] h = refl
list_flip_gt o (a ∷ l) (b ∷ m) h =
    ground (arith, o.flip_gt a b, o.eq_of a b, o.same a, list_flip_gt o l m)

pub list_trans :
    {A : Type 0} (o : Order A) (l m n : List A)
    → list_compare o l m ≡ lt
    → list_compare o m n ≡ lt
    → list_compare o l n ≡ lt
list_trans o [] [] n h k = cc
list_trans o [] (b ∷ m) [] h k = cc
list_trans o [] (b ∷ m) (c ∷ n) h k = refl
list_trans o (a ∷ l) [] n h k = cc
list_trans o (a ∷ l) (b ∷ m) [] h k = cc
list_trans o (a ∷ l) (b ∷ m) (c ∷ n) h k =
    ground (arith, o.trans a b c, o.eq_of a b, o.eq_of b c, o.same a, list_trans o l m n)

abbrev pub list_order : {A : Type 0} → Order A → Order (List A)
list_order o = record {
  compare = list_compare o;
  same = list_same o;
  eq_of = list_eq_of o;
  flip_lt = list_flip_lt o;
  flip_gt = list_flip_gt o;
  trans = list_trans o;
}

-- By one key, and then by another; the two keys together tell values apart.
module _ {A B C : Type 0} (p : Order B) (q : Order C) (f : A → B) (g : A → C) where
  abbrev pub keys_compare : A → A → Ordering
  keys_compare a b = lex (p.compare (f a) (f b)) (q.compare (g a) (g b))

  pub keys_flip_lt : (a b : A) → keys_compare a b ≡ lt → keys_compare b a ≡ gt
  keys_flip_lt a b h =
      ground
        (arith, p.flip_lt (f a) (f b), p.eq_of (f a) (f b), p.same (f a), q.flip_lt (g a) (g b))

  pub keys_flip_gt : (a b : A) → keys_compare a b ≡ gt → keys_compare b a ≡ lt
  keys_flip_gt a b h =
      ground
        (arith, p.flip_gt (f a) (f b), p.eq_of (f a) (f b), p.same (f a), q.flip_gt (g a) (g b))

  pub keys_trans :
      (a b c : A) → keys_compare a b ≡ lt → keys_compare b c ≡ lt → keys_compare a c ≡ lt
  keys_trans a b c h k = ground (
    arith,
    p.trans (f a) (f b) (f c),
    p.eq_of (f a) (f b),
    p.eq_of (f b) (f c),
    p.same (f a),
    q.trans (g a) (g b) (g c),
  )

  pub keys_same : (a : A) → keys_compare a a ≡ eq
  keys_same a = ground (arith, p.same (f a), q.same (g a))

  pub keys_eq_of :
      ((a b : A) → f a ≡ f b → g a ≡ g b → a ≡ b) → (a b : A) → keys_compare a b ≡ eq → a ≡ b
  keys_eq_of apart a b h = ground (arith, p.eq_of (f a) (f b), q.eq_of (g a) (g b), apart a b)

  abbrev pub keys_order : ((a b : A) → f a ≡ f b → g a ≡ g b → a ≡ b) → Order A
  keys_order apart = record {
    compare = keys_compare;
    same = keys_same;
    eq_of = keys_eq_of apart;
    flip_lt = keys_flip_lt;
    flip_gt = keys_flip_gt;
    trans = keys_trans;
  }

pub int_same : (a : ℤ) → int_compare a a ≡ eq
int_same a = ground arith

pub int_eq_of : (a b : ℤ) → int_compare a b ≡ eq → a ≡ b
int_eq_of a b h = ground arith

pub int_flip_lt : (a b : ℤ) → int_compare a b ≡ lt → int_compare b a ≡ gt
int_flip_lt a b h = ground arith

pub int_flip_gt : (a b : ℤ) → int_compare a b ≡ gt → int_compare b a ≡ lt
int_flip_gt a b h = ground arith

pub int_trans : (a b c : ℤ) → int_compare a b ≡ lt → int_compare b c ≡ lt → int_compare a c ≡ lt
int_trans a b c h k = ground arith

abbrev pub int_order : Order ℤ
int_order = record {
  compare = int_compare;
  same = int_same;
  eq_of = int_eq_of;
  flip_lt = int_flip_lt;
  flip_gt = int_flip_gt;
  trans = int_trans;
}

pub pair_apart : {B C : Type 0} (a b : B × C) → a.0 ≡ b.0 → a.1 ≡ b.1 → a ≡ b
pair_apart a b e f = cc

abbrev pub pair_order : {B C : Type 0} → Order B → Order C → Order (B × C)
pair_order p q = keys_order p q (λ t. t.0) (λ t. t.1) pair_apart

-- Values compared by what a function that tells them apart gives.
module _ {A B : Type 0} (o : Order B) (f : A → B) (apart : (a b : A) → f a ≡ f b → a ≡ b) where
  abbrev pub image_order : Order A
  image_order = record {
    compare = λ a b. o.compare (f a) (f b);
    same = λ a. o.same (f a);
    eq_of = λ a b h. apart a b (o.eq_of (f a) (f b) h);
    flip_lt = λ a b h. o.flip_lt (f a) (f b) h;
    flip_gt = λ a b h. o.flip_gt (f a) (f b) h;
    trans = λ a b c h k. o.trans (f a) (f b) (f c) h k;
  }

-- A three-way comparison is a total order: it says "equal" exactly for equal values, it changes its
-- sign when the values change places, and both signs carry over along a chain.
abbrev pub IsTotal : {A : Type 0} → (A → A → Ordering) → Type 0
IsTotal {A} cmp =
    (a b c : A)
    → ((cmp a b ≡ eq) ↔ (a ≡ b))
      × (cmp b a ≡ reverse_ordering (cmp a b))
      × (cmp a b ≡ lt → cmp b c ≡ lt → cmp a c ≡ lt)
      × (cmp a b ≡ gt → cmp b c ≡ gt → cmp a c ≡ gt)

module _ {A : Type 0} (o : Order A) where
  same_of_eq : (a b : A) → a ≡ b → o.compare a b ≡ eq
  same_of_eq a b e = subst (λ b. o.compare a b ≡ eq) e (o.same a)

  flips : (a b : A) → o.compare b a ≡ reverse_ordering (o.compare a b)
  flips a b = elim (Ordering-cases (o.compare a b)) [
    | inl e ↦ rw e (o.flip_lt a b e)
    | inr (inl e) ↦ rw e (same_of_eq b a (sym (o.eq_of a b e)))
    | inr (inr e) ↦ rw e (o.flip_gt a b e)
  ]

  pub trans_gt : (a b c : A) → o.compare a b ≡ gt → o.compare b c ≡ gt → o.compare a c ≡ gt
  trans_gt a b c h k = o.flip_lt c a (o.trans c b a (o.flip_gt b c k) (o.flip_gt a b h))

  pub compare-IsTotal : IsTotal o.compare
  compare-IsTotal a b c = ((o.eq_of a b, same_of_eq a b), flips a b, o.trans a b c, trans_gt a b c)

pub IsTotal-of_eq :
    {A : Type 0} (o : Order A) (cmp : A → A → Ordering)
    → ((a b : A) → cmp a b ≡ o.compare a b)
    → IsTotal cmp
IsTotal-of_eq o cmp h =
    subst (λ f. IsTotal f) (sym (fun_ext (λ a. fun_ext (λ b. h a b)))) (compare-IsTotal o)
