-- ===== src/Block/Marks/Ignored.antt =====
-- pkg/block/fetcher.go: which blocks with a deletion mark are left out.
use promlts.Prelude.Dict.{nat_eq, get, get-put, get-remove}
use promlts.Block.Metas.{Meta, Metas}
use promlts.Block.Marks.{
  DeletionMark, MarkAnswer, MarkResult, marked, marker_not_found, unmarshal_marker, marker_failed,
  read_marker, MarkState, note_mark, note_marks, keys_of, filter_marked,
}
use promlts.Block.Marks.Age.{is_past, is_older-past}
use promlts.Block.Marks.Reading.{
  mark_in, is_unreadable, mark_time, failed, read_marker-mark_in, read_marker-unreadable,
}
use promlts.Prelude.{
  ◌==◌, if◌then◌else◌, Bool-cases, ℕ, ◌≡◌, refl, sym, ap, ◌∙◌, inl, inr, Bool, true, false, ◌&&◌,
  ◌||◌, Option, none, some, List, [], ◌∷◌, arith,
}

module _ (bucket : ℕ → MarkAnswer) (clock : ℕ → ℕ) (delay : ℕ) (cancelled : ℕ → Bool) where
  -- The mark of a block.
  abbrev pub mark_of : ℕ → Option DeletionMark
  mark_of id = mark_in (bucket id)

  -- The mark of the block is older than the delay.
  abbrev pub is_expired : ℕ → Option DeletionMark → Bool
  is_expired id none = false
  is_expired id (some m) = is_past (clock id) delay m.deletion_time

  abbrev pub listed_id : List ℕ → ℕ → Bool
  listed_id [] id = false
  listed_id (x ∷ xs) id = x == id || listed_id xs id

  -- The blocks before the first at which the context is done.
  abbrev pub reached : List ℕ → List ℕ
  reached [] = []
  reached (id ∷ ids) = if cancelled id then [] else id ∷ reached ids

  abbrev pub any_failed : List ℕ → Bool
  any_failed [] = false
  any_failed (id ∷ ids) = cancelled id || is_unreadable (bucket id) || any_failed ids

  or_else : Option DeletionMark → Option DeletionMark → Option DeletionMark
  or_else none b = b
  or_else (some a) b = some a

  record Noted (s : MarkState) (ids : List ℕ) (s' : MarkState) : Type 0 where
    marks :
        (id : ℕ)
        → get s'.deletion_mark_map id ≡ (
            if listed_id ids id
            then or_else (mark_of id) (get s.deletion_mark_map id)
            else get s.deletion_mark_map id)
    left :
        (id : ℕ)
        → get s'.metas id
          ≡ (if listed_id ids id && is_expired id (mark_of id) then none else get s.metas id)

  -- No mark is noted.
  unnoted :
      (s s' : MarkState) (id : ℕ)
      → mark_of id ≡ none
      → ((j : ℕ) → get s'.deletion_mark_map j ≡ get s.deletion_mark_map j)
      → ((j : ℕ) → get s'.metas j ≡ get s.metas j)
      → Noted s (id ∷ []) s'
  unfolding or_else
  unnoted s s' id q f g = record {
    marks = λ j. f j ∙ elim (Bool-cases (id == j)) [
      | inl p ↦ let e : id ≡ j = ground arith in rw (p, ← e, q) refl
      | inr p ↦ rw p refl
    ];
    left = λ j. g j ∙ elim (Bool-cases (id == j)) [
      | inl p ↦ let e : id ≡ j = ground arith in rw (p, ← e, q) refl
      | inr p ↦ rw p refl
    ];
  }

  note_mark-Noted :
      (s : MarkState) (id : ℕ) (r : MarkResult)
      → mark_of id ≡ mark_time r
      → Noted s (id ∷ []) (note_mark (clock id) delay s id r)
  unfolding note_mark or_else
  note_mark-Noted s id marker_not_found q = unnoted s s id q (λ j. refl) (λ j. refl)
  note_mark-Noted s id unmarshal_marker q = unnoted s s id q (λ j. refl) (λ j. refl)
  note_mark-Noted s id marker_failed q =
      unnoted s (record s { last_err = true }) id q (λ j. refl) (λ j. refl)
  note_mark-Noted s id (marked m) q =
      let old = is_older-past (clock id) delay m.deletion_time in
      record {
        marks = λ j. elim (Bool-cases (id == j)) [
          | inl p ↦
              let e : id ≡ j = ground arith in
              rw (get-put s.deletion_mark_map id j m, p, ← e, q) refl
          | inr p ↦ rw (get-put s.deletion_mark_map id j m, p) refl
        ];
        left = λ j. elim (Bool-cases (is_past (clock id) delay m.deletion_time)) [
          | inr x ↦ elim (Bool-cases (id == j)) [
            | inl p ↦ let e : id ≡ j = ground arith in rw (old ∙ x, p, ← e, q, x) refl
            | inr p ↦ rw (old ∙ x, p) refl
          ]
          | inl x ↦ elim (Bool-cases (id == j)) [
            | inl p ↦
                let e : id ≡ j = ground arith in
                rw (old ∙ x, get-remove s.metas id j, p, ← e, q, x) refl
            | inr p ↦ rw (old ∙ x, get-remove s.metas id j, p) refl
          ]
        ];
      }

  note_mark-err :
      (s : MarkState) (id : ℕ) (r : MarkResult)
      → (note_mark (clock id) delay s id r).last_err ≡ s.last_err || failed r
  unfolding note_mark
  note_mark-err s id marker_not_found = ground arith
  note_mark-err s id unmarshal_marker = ground arith
  note_mark-err s id marker_failed = ground arith
  note_mark-err s id (marked m) = ground arith

  twice :
      (x l : Bool) (f a b : Option DeletionMark)
      → b ≡ (if x || false then or_else f a else a)
      → (if l then or_else f b else b) ≡ (if x || l then or_else f a else a)
  unfolding or_else
  twice true true none a b h = h
  twice true true (some t) a b h = refl
  twice true false f a b h = h
  twice false l f a b h = ap (λ o. if l then or_else f o else o) h

  gone_twice :
      (x l e : Bool) (a b : Option Meta)
      → b ≡ (if (x || false) && e then none else a)
      → (if l && e then none else b) ≡ (if (x || l) && e then none else a)
  gone_twice true true true a b h = refl
  gone_twice true true false a b h = h
  gone_twice true false e a b h = h
  gone_twice false l e a b h = ap (λ o. if l && e then none else o) h

  note_marks-Noted :
      (s : MarkState) (ids : List ℕ)
      → Noted s (reached ids) (note_marks bucket clock delay cancelled s ids)
  unfolding note_marks or_else
  note_marks-Noted s [] = record { marks = λ j. refl; left = λ j. refl }
  note_marks-Noted s (id ∷ ids) = elim (Bool-cases (cancelled id)) [
    | inl p ↦ rw (note_marks, p) (record { marks = λ j. refl; left = λ j. refl })
    | inr p ↦
        let r = read_marker (bucket id) in
        let one = note_mark-Noted s id r (sym (read_marker-mark_in (bucket id))) in
        let rest = note_marks-Noted (note_mark (clock id) delay s id r) ids in
        rw (note_marks, p)
          (record {
            marks = λ j.
                rest.marks j
                ∙ twice (id == j) (listed_id (reached ids) j) (mark_of j) _ _ (one.marks j);
            left = λ j.
                rest.left j
                ∙ gone_twice (id == j) (listed_id (reached ids) j) (is_expired j (mark_of j)) _ _
                    (one.left j);
          })
  ]

  note_marks-err :
      (s : MarkState) (ids : List ℕ)
      → (note_marks bucket clock delay cancelled s ids).last_err ≡ s.last_err || any_failed ids
  unfolding note_marks
  note_marks-err s [] = ground arith
  note_marks-err s (id ∷ ids) = elim (Bool-cases (cancelled id)) [
    | inl p ↦ rw (note_marks, p) (ground arith)
    | inr p ↦
        let r = read_marker (bucket id) in
        let one = note_mark-err s id r in
        let u = read_marker-unreadable (bucket id) in
        let rest = note_marks-err (note_mark (clock id) delay s id r) ids in
        rw (note_marks, p)
          (rest ∙ ap (λ b. b || any_failed ids) (one ∙ ap (λ b. s.last_err || b) u) ∙ ground arith)
  ]

  all_reached : (ids : List ℕ) → any_failed ids ≡ false → reached ids ≡ ids
  all_reached [] h = refl
  all_reached (id ∷ ids) h =
      let p : cancelled id ≡ false = ground arith in
      let q : any_failed ids ≡ false = ground arith in rw p (ap (◌∷◌ id) (all_reached ids q))

  listed_keys :
      (metas : Metas) (id : ℕ) → listed_id (keys_of metas) id ≡ false → get metas id ≡ none
  unfolding get
  listed_keys [] id h = refl
  listed_keys ((key, m) ∷ metas) id h = ground (arith, listed_keys metas id)

  only_listed :
      (e : Bool) (metas : Metas) (id : ℕ)
      → (if listed_id (keys_of metas) id && e then none else get metas id)
        ≡ (if e then none else get metas id)
  only_listed true metas id = elim (Bool-cases (listed_id (keys_of metas) id)) [
    | inl p ↦ rw p refl
    | inr p ↦ rw (p, listed_keys metas id p) refl
  ]
  only_listed false metas id = ground arith

  or_none :
      (l : Bool) (f : Option DeletionMark)
      → (if l then or_else f none else none) ≡ (if l then f else none)
  unfolding or_else
  or_none true none = refl
  or_none true (some t) = refl
  or_none false f = refl

  abbrev pub Ignores : Metas → Bool → Option Metas → Type 0
  Ignores metas true none = Unit
  Ignores metas false (some metas') =
      (id : ℕ) → get metas' id ≡ (if is_expired id (mark_of id) then none else get metas id)
  Ignores metas b o = ⊥

  -- The filter fails exactly if the context is done before all blocks are looked at, or the mark of
  -- some block is there and could not be got or has another version than 1; a missing mark, or one that
  -- is no JSON, is no failure. Otherwise it leaves out the blocks that have a mark whose time, plus
  -- the delay, is before the clock, and no other. The map of marks has, of the blocks that were looked
  -- at, those with a mark, whatever its age.
  pub filter_marked-Ignores :
      (metas : Metas)
      → Ignores metas
          (any_failed (keys_of metas))
          (filter_marked bucket clock delay cancelled metas).1
        × ((id : ℕ)
            → get (filter_marked bucket clock delay cancelled metas).0 id
              ≡ (if listed_id (reached (keys_of metas)) id then mark_of id else none))
  unfolding filter_marked or_else get
  filter_marked-Ignores metas =
      let s : MarkState = record { deletion_mark_map = []; metas = metas; last_err = false } in
      let noted = note_marks-Noted s (keys_of metas) in
      let err = note_marks-err s (keys_of metas) in
      (
        elim (Bool-cases (any_failed (keys_of metas))) [
          | inl q ↦ rw (err, q) tt
          | inr q ↦
              rw (err, q)
                (λ id.
                  noted.left id
                  ∙ ap
                      (λ ids.
                        if listed_id ids id && is_expired id (mark_of id)
                        then none
                        else get metas id)
                      (all_reached (keys_of metas) q)
                  ∙ only_listed (is_expired id (mark_of id)) metas id)
        ],
        λ id. noted.marks id ∙ or_none (listed_id (reached (keys_of metas)) id) (mark_of id),
      )
