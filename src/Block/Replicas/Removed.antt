-- ===== src/Block/Replicas/Removed.antt =====
-- pkg/block/fetcher.go: which labels ReplicaLabelRemover leaves.
use promlts.Prelude.Dict.{same_key, same_key_refl, Dict, get, put, remove, get-put, get-remove}
use promlts.Labelpb.{Bytes, bytes_eq, bytes_eq_iff, bytes_key}
use promlts.Block.Replicas.{deduped, remove_replica_labels, modify_labels}
use promlts.Prelude.{
  ◌==◌, if◌then◌else◌, Bool-cases, Option-cases, if_both, length, ◌<◌, ◌≡◌, refl, sym, ap, ◌∙◌, ◌⊎◌,
  inl, inr, Bool, true, false, ◌||◌, Option, none, some, List, [], ◌∷◌, arith,
}

abbrev pub is_replica : List Bytes → Bytes → Bool
is_replica [] name = false
is_replica (r ∷ rs) name = bytes_eq r name || is_replica rs name

pub get-remove_replicas :
    (rs : List Bytes) (l : Dict Bytes Bytes) (name : Bytes)
    → get (remove_replica_labels rs l) name ≡ (if is_replica rs name then none else get l name)
unfolding remove_replica_labels
get-remove_replicas [] l name = refl
get-remove_replicas (r ∷ rs) l name = elim (Option-cases (get l r)) [
  | inl p ↦ rw (remove_replica_labels, p) (get-remove_replicas rs l name ∙ skip r rs l name p)
  | inr (v, p) ↦
      rw (remove_replica_labels, p)
        (ground (arith, get-remove_replicas rs (remove l r) name, get-remove l r name))
]
  where
    skip :
        (r : Bytes) (rs : List Bytes) (l : Dict Bytes Bytes) (name : Bytes)
        → get l r ≡ none
        → (if is_replica rs name then none else get l name)
          ≡ (if is_replica (r ∷ rs) name then none else get l name)
    skip r rs l name p = elim (Bool-cases (bytes_eq r name)) [
      | inl q ↦ let e : r ≡ name = (bytes_eq_iff r name).0 q in ground (arith, ap (get l) e)
      | inr q ↦ rw q refl
    ]

-- A written map is not empty.
length-put : (m : Dict Bytes Bytes) (k v : Bytes) → 0 < length (put m k v)
unfolding put
length-put [] k v = omega arith
length-put ((j, w) ∷ m) k v =
    if_both (λ d. 0 < length d) (same_key j k) ((j, v) ∷ m) ((j, w) ∷ put m k v) (omega arith)
      (omega arith)

-- A map of one label.
when_empty :
    (m : Dict Bytes Bytes) (k name : Bytes)
    → length m ≡ 0
    → get (put m k deduped) name ≡ (if bytes_eq k name then some deduped else none)
unfolding get
when_empty [] k name h = get-put [] k name deduped
when_empty (x ∷ m) k name h = absurd (omega arith)

-- All labels of the block are replica labels.
abbrev pub OnlyReplicas : List Bytes → Dict Bytes Bytes → Type 0
OnlyReplicas rs l = (name : Bytes) → (get l name ≡ none) ⊎ (is_replica rs name ≡ true)

-- A label of the block that is no replica label.
abbrev pub HasOther : List Bytes → Dict Bytes Bytes → Type 0
HasOther rs l = (name : Bytes) × (v : Bytes) × (get l name ≡ some v) × (is_replica rs name ≡ false)

abbrev pub IsDeduped : Bytes → Dict Bytes Bytes → Type 0
IsDeduped first l' =
    (name : Bytes) → get l' name ≡ (if bytes_eq first name then some deduped else none)

abbrev pub KeepsOthers : List Bytes → Dict Bytes Bytes → Dict Bytes Bytes → Type 0
KeepsOthers rs l l' =
    (name : Bytes) → get l' name ≡ (if is_replica rs name then none else get l name)

-- What becomes of the labels of a block.
pub record Relabelled (first : Bytes) (rs : List Bytes) (l l' : Dict Bytes Bytes) : Type 0 where
  pub labels_left : 0 < length l'
  pub by_name : (OnlyReplicas rs l × IsDeduped first l') ⊎ (HasOther rs l × KeepsOthers rs l l')

abbrev pub Modifies :
    Bytes → List Bytes → Dict Bytes Bytes → Option (Option (Dict Bytes Bytes)) → Type 0
Modifies first rs l (some (some l')) = Relabelled first rs l l'
Modifies first rs l o = ⊥

kept_none : (b : Bool) (o : Option Bytes) → (if b then none else o) ≡ none → (o ≡ none) ⊎ (b ≡ true)
kept_none true o h = inr refl
kept_none false o h = inl h

kept_some :
    (b : Bool) (o : Option Bytes) (v : Bytes)
    → (if b then none else o) ≡ some v
    → (o ≡ some v) × (b ≡ false)
kept_some true o v h = absurd (ground arith)
kept_some false o v h = (h, refl)

nothing_left :
    (rs : List Bytes) (l left : Dict Bytes Bytes)
    → KeepsOthers rs l left
    → length left ≡ 0
    → OnlyReplicas rs l
unfolding get
nothing_left rs l [] k h name = kept_none (is_replica rs name) (get l name) (sym (k name))
nothing_left rs l (x ∷ left) k h name = absurd (omega arith)

something_left :
    (rs : List Bytes) (l left : Dict Bytes Bytes)
    → KeepsOthers rs l left
    → length left == 0 ≡ false
    → HasOther rs l
unfolding get
something_left rs l [] k h = absurd (ground arith)
something_left rs l ((name, v) ∷ left) k h =
    let r : same_key name name ≡ true = same_key_refl name in
    let e : get ((name, v) ∷ left) name ≡ some v = rw r refl in
    let s = kept_some (is_replica rs name) (get l name) v (sym (k name) ∙ e) in (name, v, s.0, s.1)

-- For a block with a label map: if all its labels are replica labels, the result is the first
-- replica label alone, with the value `deduped`; if it has another label, the result has no replica
-- label, and the other labels with their values. So a block is never left without labels.
pub modify_labels-Modifies :
    (first : Bytes) (rs : List Bytes) (l : Dict Bytes Bytes)
    → Modifies first rs l (modify_labels first rs (some l))
unfolding modify_labels
modify_labels-Modifies first rs l =
    let left = remove_replica_labels rs l in
    elim (Bool-cases (length left == 0)) [
      | inl p ↦ rw p (record {
        labels_left = length-put left first deduped;
        by_name = inl (
          nothing_left rs l left (get-remove_replicas rs l) (ground arith),
          λ name. when_empty left first name (ground arith),
        );
      })
      | inr p ↦ rw p (record {
        labels_left = ground arith;
        by_name =
            inr (something_left rs l left (get-remove_replicas rs l) p, get-remove_replicas rs l);
      })
    ]
