-- ===== src/Receive/Hashring/Sorting.antt =====
-- pkg/receive/hashring.go: `GetN` sorts the labels of a series, and a second sort changes nothing.
use mathlib.Core.Path.{subst}
use mathlib.Core.List.{append-nil, append_assoc}
use Prim.Native.Nat.{lt}
use promlts.Labelpb.{string_order, Label}
use promlts.Receive.Hashring.{TimeSeries, insert_label, sort_labels, sort_series}
use promlts.Prelude.{
  if◌then◌else◌, Bool-cases, All, ◌≡◌, refl, sym, ap, ◌∙◌, inl, inr, Bool, true, false, List, [],
  ◌∷◌, ◌++◌, arith,
}

abbrev is_before : Label → Label → Bool
is_before l m = elim (string_order.compare l.name m.name) [ lt ↦ true | _ ↦ false ]

-- Not after any of the labels.
abbrev NotAfter : Label → List Label → Type 0
NotAfter l ms = All (λ m. is_before m l ≡ false) ms

abbrev Ascends : List Label → Type 0
Ascends [] = Unit {0}
Ascends (l ∷ ls) = NotAfter l ls × Ascends ls

insert_label-if :
    (l m : Label) (ms : List Label)
    → insert_label l (m ∷ ms) ≡ (if is_before l m then l ∷ (m ∷ ms) else m ∷ insert_label l ms)
unfolding insert_label
insert_label-if l m ms = ground arith

before_trans :
    (a b c : Label) → is_before a b ≡ true → is_before c b ≡ false → is_before c a ≡ false
before_trans a b c p q =
    ground (arith, string_order.flip_lt c.name a.name, string_order.trans c.name a.name b.name)

before_asym : (a b : Label) → is_before a b ≡ true → is_before b a ≡ false
before_asym a b p = ground (
  arith,
  string_order.flip_lt a.name b.name,
  string_order.flip_lt b.name a.name,
  string_order.flip_gt a.name b.name,
)

NotAfter-trans :
    (a b : Label) (cs : List Label) → is_before a b ≡ true → NotAfter b cs → NotAfter a cs
NotAfter-trans a b [] p h = tt
NotAfter-trans a b (c ∷ cs) p (q, h) = (before_trans a b c p q, NotAfter-trans a b cs p h)

NotAfter-insert :
    (a l : Label) (ms : List Label)
    → is_before l a ≡ false
    → NotAfter a ms
    → NotAfter a (insert_label l ms)
unfolding insert_label
NotAfter-insert a l [] p h = (p, tt)
NotAfter-insert a l (m ∷ ms) p (q, h) = rw insert_label-if (elim (Bool-cases (is_before l m)) [
  | inl b ↦ rw b (p, (q, h))
  | inr b ↦ rw b (q, NotAfter-insert a l ms p h)
])

Ascends-insert : (l : Label) (ms : List Label) → Ascends ms → Ascends (insert_label l ms)
unfolding insert_label
Ascends-insert l [] h = (tt, tt)
Ascends-insert l (m ∷ ms) (q, h) = rw insert_label-if (elim (Bool-cases (is_before l m)) [
  | inl b ↦ rw b ((before_asym l m b, NotAfter-trans l m ms b q), (q, h))
  | inr b ↦ rw b (NotAfter-insert m l ms b q, Ascends-insert l ms h)
])

Ascends-sort : (done ls : List Label) → Ascends done → Ascends (sort_labels done ls)
unfolding sort_labels
Ascends-sort done [] h = h
Ascends-sort done (l ∷ ls) h = Ascends-sort (insert_label l done) ls (Ascends-insert l done h)

insert-last :
    (l : Label) (ms : List Label)
    → All (λ m. is_before l m ≡ false) ms
    → insert_label l ms ≡ ms ++ (l ∷ [])
unfolding insert_label
insert-last l [] h = refl
insert-last l (m ∷ ms) (p, h) = insert_label-if l m ms ∙ rw p (ap (λ r. m ∷ r) (insert-last l ms h))

Ascends-before :
    (done : List Label) (l : Label) (ls : List Label)
    → Ascends (done ++ (l ∷ ls))
    → All (λ m. is_before l m ≡ false) done
Ascends-before [] l ls h = tt
Ascends-before (m ∷ done) l ls (p, h) = (not_after done p, Ascends-before done l ls h)
  where
    not_after : (ds : List Label) → NotAfter m (ds ++ (l ∷ ls)) → is_before l m ≡ false
    not_after [] (q, g) = q
    not_after (d ∷ ds) (q, g) = not_after ds g

sort-Ascends : (done ls : List Label) → Ascends (done ++ ls) → sort_labels done ls ≡ done ++ ls
unfolding sort_labels
sort-Ascends done [] h = sym (append-nil done)
sort-Ascends done (l ∷ ls) h = rw (insert-last l done (Ascends-before done l ls h)) (
    sort-Ascends (done ++ (l ∷ [])) ls (subst Ascends (sym (append_assoc done (l ∷ []) ls)) h)
    ∙ append_assoc done (l ∷ []) ls)

pub sort_series-twice : (ts : TimeSeries) → sort_series (sort_series ts) ≡ sort_series ts
unfolding sort_series
sort_series-twice ts =
    ap (λ ls. record ts { labels = ls })
      (sort-Ascends [] (sort_labels [] ts.labels) (Ascends-sort [] ts.labels tt))
