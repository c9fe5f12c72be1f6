-- ===== src/Storepb/SeriesSet/Chunks.antt =====
-- pkg/store/storepb/custom.go: the chunks of a series that two sets have.
use Prim.Native.Nat.{gt}
use promlts.Prelude.Order.{Ordering-cases}
use promlts.Storepb.{AggrChunk, aggr_compare}
use promlts.Storepb.ChunkOrder.{aggr_compare-IsTotal}
use promlts.Storepb.SeriesSet.{merge_chunks}
use promlts.Prelude.{All, Contains, ◌≡◌, ◌↔◌, ◌⊎◌, inl, inr, List, [], ◌∷◌, arith}

-- `Compare` says that `a` goes before `b` by a positive number.
abbrev pub Earlier : AggrChunk → AggrChunk → Type 0
Earlier a b = aggr_compare a b ≡ gt

abbrev pub AreSorted : List AggrChunk → Type 0
AreSorted [] = Unit {0}
AreSorted (c ∷ cs) = All (Earlier c) cs × AreSorted cs

All-Earlier :
    (a b : AggrChunk) (l : List AggrChunk) → Earlier a b → All (Earlier b) l → All (Earlier a) l
All-Earlier a b [] h g = tt
All-Earlier a b (c ∷ l) h g = ((aggr_compare-IsTotal a b c).3 h g.0, All-Earlier a b l h g.1)

All-merge_chunks :
    (P : AggrChunk → Type 0) (as' bs : List AggrChunk)
    → All P as'
    → All P bs
    → All P (merge_chunks as' bs)
unfolding merge_chunks
All-merge_chunks P [] bs h g = g
All-merge_chunks P (a ∷ as') [] h g = h
All-merge_chunks P (a ∷ as') (b ∷ bs) h g = elim (Ordering-cases (aggr_compare a b)) [
  | inl e ↦ rw (e, merge_chunks) (g.0, All-merge_chunks P (a ∷ as') bs h g.1)
  | inr (inl e) ↦ rw (e, merge_chunks) (All-merge_chunks P (a ∷ as') bs h g.1)
  | inr (inr e) ↦ rw (e, merge_chunks) (h.0, All-merge_chunks P as' (b ∷ bs) h.1 g)
]

-- Chunks in order without a duplicate, merged, are in order without a duplicate.
pub merge_chunks-AreSorted :
    (as' bs : List AggrChunk) → AreSorted as' → AreSorted bs → AreSorted (merge_chunks as' bs)
unfolding merge_chunks
merge_chunks-AreSorted [] bs h g = g
merge_chunks-AreSorted (a ∷ as') [] h g = h
merge_chunks-AreSorted (a ∷ as') (b ∷ bs) h g = elim (Ordering-cases (aggr_compare a b)) [
  | inl e ↦
      let first : Earlier b a = rw e at ((aggr_compare-IsTotal a b a).1) in
      rw (e, merge_chunks)
        (
          All-merge_chunks (Earlier b) (a ∷ as') bs (first, All-Earlier b a as' first h.0) g.0,
          merge_chunks-AreSorted (a ∷ as') bs h g.1,
        )
  | inr (inl e) ↦ rw (e, merge_chunks) (merge_chunks-AreSorted (a ∷ as') bs h g.1)
  | inr (inr e) ↦
      rw (e, merge_chunks)
        (
          All-merge_chunks (Earlier a) as' (b ∷ bs) h.0 (e, All-Earlier a b bs e g.0),
          merge_chunks-AreSorted as' (b ∷ bs) h.1 g,
        )
]

-- Whatever the order of the chunks, the merge holds exactly those of the two sides.
pub Contains-merge_chunks :
    (c : AggrChunk) (as' bs : List AggrChunk)
    → Contains c (merge_chunks as' bs) ↔ (Contains c as' ⊎ Contains c bs)
unfolding merge_chunks
Contains-merge_chunks c [] bs = (λ h. inr h, λ h. elim h [ inl p ↦ absurd p | inr q ↦ q ])
Contains-merge_chunks c (a ∷ as') [] = (λ h. inl h, λ h. elim h [ inl p ↦ p | inr q ↦ absurd q ])
Contains-merge_chunks c (a ∷ as') (b ∷ bs) = ground (
  arith,
  (aggr_compare-IsTotal a b c).0.0,
  Contains-merge_chunks c (a ∷ as') bs,
  Contains-merge_chunks c as' (b ∷ bs),
)
