-- ===== src/Store/BigEndian/Seek.antt =====
-- pkg/store/bucket.go: `bigEndianPostings` over the bytes of increasing postings.
use mathlib.Core.Path.{ap₂}
use native.Mathlib.Nat.{mod-eq_of_lt}
use promlts.Store.BigEndian.{BigEndianPostings, uint32, search, at_least, seek_big_endian}
use promlts.Store.BigEndian.Search.{IsMonotone, search-IsFirst}
use promlts.Labelpb.{Bytes}
use promlts.Prelude.{
  ltb, leb, if◌then◌else◌, Bool-cases, length, All, drop, ℕ, zero, suc, ◌+◌, ◌*◌, ◌/◌, ◌%◌, ◌^◌,
  ◌≤◌, ◌<◌, ◌≡◌, refl, sym, ap, ◌∙◌, inl, inr, Bool, true, false, some, List, [], ◌∷◌, arith,
}

abbrev pub put_uint32 : ℕ → Bytes → Bytes
put_uint32 w list = w / 2 ^ 24 ∷ w / 2 ^ 16 % 256 ∷ w / 2 ^ 8 % 256 ∷ w % 256 ∷ list

abbrev pub bytes_of : List ℕ → Bytes
bytes_of [] = []
bytes_of (w ∷ ws) = put_uint32 w (bytes_of ws)

uint32-put_uint32 : (w : ℕ) (list : Bytes) → uint32 (put_uint32 w list) ≡ w
unfolding uint32
uint32-put_uint32 w list = omega arith

length-bytes_of : (ws : List ℕ) → length (bytes_of ws) ≡ length ws * 4
length-bytes_of [] = omega arith
length-bytes_of (w ∷ ws) = omega (arith, length-bytes_of ws)

four : (i : ℕ) → suc i * 4 ≡ suc (suc (suc (suc (i * 4))))
four i = omega arith

drop-bytes_of : (i : ℕ) (ws : List ℕ) → drop (i * 4) (bytes_of ws) ≡ bytes_of (drop i ws)
drop-bytes_of zero ws = refl
drop-bytes_of (suc i) [] = ap (λ n. drop n []) (four i)
drop-bytes_of (suc i) (w ∷ ws) = ap (λ n. drop n (bytes_of (w ∷ ws))) (four i) ∙ drop-bytes_of i ws

-- Where `Seek` should stop among the postings left.
abbrev pub sought : ℕ → ℕ → List ℕ → BigEndianPostings × Bool
sought x cur [] = (record { list = []; cur = cur }, false)
sought x cur (w ∷ ws) =
    let rest = sought x cur ws in
    if leb x w then (record { list = bytes_of ws; cur = w }, true) else rest

abbrev pub Ascends : List ℕ → Type 0
Ascends [] = Unit {0}
Ascends (w ∷ ws) = All (λ v. w ≤ v) ws × Ascends ws

abbrev word_at : ℕ → List ℕ → ℕ
word_at i [] = 0
word_at zero (w ∷ ws) = w
word_at (suc i) (w ∷ ws) = word_at i ws

uint32-drop : (i : ℕ) (ws : List ℕ) → uint32 (bytes_of (drop i ws)) ≡ word_at i ws
unfolding uint32
uint32-drop zero [] = refl
uint32-drop (suc i) [] = refl
uint32-drop zero (w ∷ ws) = uint32-put_uint32 w (bytes_of ws)
uint32-drop (suc i) (w ∷ ws) = uint32-drop i ws

at_least-word :
    (ws : List ℕ) (x i : ℕ) → x < 2 ^ 32 → at_least (bytes_of ws) x i ≡ leb x (word_at i ws)
at_least-word ws x i p =
    ap₂ leb (mod-eq_of_lt p) (ap uint32 (drop-bytes_of i ws) ∙ uint32-drop i ws)

word_at_le : (w i : ℕ) (ws : List ℕ) → All (λ v. w ≤ v) ws → i < length ws → w ≤ word_at i ws
word_at_le w i [] h p = ground arith
word_at_le w zero (v ∷ ws) (q, h) p = q
word_at_le w (suc i) (v ∷ ws) (q, h) p = word_at_le w i ws h (ground arith)

word_at_mono :
    (ws : List ℕ) (a b : ℕ) → Ascends ws → a ≤ b → b < length ws → word_at a ws ≤ word_at b ws
word_at_mono [] a b h p q = ground arith
word_at_mono (w ∷ ws) zero zero (g, h) p q = omega arith
word_at_mono (w ∷ ws) zero (suc b) (g, h) p q = word_at_le w b ws g (ground arith)
word_at_mono (w ∷ ws) (suc a) zero (g, h) p q = ground arith
word_at_mono (w ∷ ws) (suc a) (suc b) (g, h) p q =
    word_at_mono ws a b h (ground arith) (ground arith)

at_least-IsMonotone :
    (ws : List ℕ) (x : ℕ)
    → x < 2 ^ 32
    → Ascends ws
    → IsMonotone (at_least (bytes_of ws) x) (length ws)
at_least-IsMonotone ws x p h a b q r e =
    at_least-word ws x b p ∙ up (sym (at_least-word ws x a p) ∙ e) (word_at_mono ws a b h q r)
  where
    up : leb x (word_at a ws) ≡ true → word_at a ws ≤ word_at b ws → leb x (word_at b ws) ≡ true
    up e q = ground arith

abbrev choose_stop : ℕ → Bytes → ℕ → Bool → BigEndianPostings × Bool
choose_stop cur rest w found =
    if found
    then (record { list = rest; cur = w }, true)
    else (record { list = []; cur = cur }, false)

ltb_zero : (n : ℕ) → ltb 0 (suc n) ≡ true
ltb_zero n = ground arith

ltb-suc : (k n : ℕ) → ltb k n ≡ ltb (suc k) (suc n)
ltb-suc k n = ground arith

abbrev stopped : ℕ → ℕ → List ℕ → BigEndianPostings × Bool
stopped cur k ws = choose_stop cur (bytes_of (drop (suc k) ws)) (word_at k ws) (ltb k (length ws))

sought-first :
    (x cur k : ℕ) (ws : List ℕ)
    → k ≤ length ws
    → ((m : ℕ) → m < k → leb x (word_at m ws) ≡ false)
    → (k < length ws → leb x (word_at k ws) ≡ true)
    → sought x cur ws ≡ stopped cur k ws
sought-first x cur zero [] p f t = refl
sought-first x cur (suc k) [] p f t = ground arith
sought-first x cur zero (w ∷ ws) p f t =
    rw (t (ground arith)) (ap (choose_stop cur (bytes_of ws) w) (sym (ltb_zero (length ws))))
sought-first x cur (suc k) (w ∷ ws) p f t = rw (f 0 (ground arith)) (
    sought-first x cur k ws (ground arith) (λ m q. f (suc m) (ground arith)) (λ q. t (ground arith))
    ∙ ap (choose_stop cur (bytes_of (drop (suc k) ws)) (word_at k ws)) (ltb-suc k (length ws)))

seek-found :
    (it : BigEndianPostings) (x num k : ℕ)
    → length it.list / 4 ≡ num
    → leb x it.cur ≡ false
    → search (num + 1) (at_least it.list x) 0 num ≡ some k
    → seek_big_endian it x
      ≡ some (
          choose_stop it.cur (drop (k * 4 + 4) it.list) (uint32 (drop (k * 4) it.list)) (ltb k num))
unfolding seek_big_endian
seek-found it x num k n t e =
    rw (n, t, e, seek_big_endian)
      (ap
        (λ m.
          some (
            choose_stop it.cur (drop (k * 4 + 4) it.list) (uint32 (drop (k * 4) it.list))
              (ltb k m)))
        n)

-- `Seek` over the bytes of increasing postings, for an `x` of 32 bits: it stays where it is if the
-- current value is at least `x`, and else stops at the first posting left that is, or says that there
-- is none. The binary search ends within one round for each posting and one more.
pub seek-first :
    (x cur : ℕ) (ws : List ℕ)
    → x < 2 ^ 32
    → Ascends ws
    → seek_big_endian (record { list = bytes_of ws; cur = cur }) x
      ≡ some
          (if leb x cur then (record { list = bytes_of ws; cur = cur }, true) else sought x cur ws)
unfolding seek_big_endian
seek-first x cur ws p h = elim (Bool-cases (leb x cur)) [
  | inl t ↦ rw t refl
  | inr t ↦
      (let (k, e, first) =
          search-IsFirst (length ws + 1) (at_least (bytes_of ws) x) (length ws) 0 (length ws)
            (at_least-IsMonotone ws x p h) (omega arith) (omega arith) (omega arith) in
        seek-found (record { list = bytes_of ws; cur = cur }) x (length ws) k
          (words (length-bytes_of ws)) t e
        ∙ rw t (
            ap some (
              same k
              ∙ sym (
                  sought-first x cur k ws first.upto
                    (λ m q. sym (at_least-word ws x m p) ∙ first.below m (omega arith) q)
                    (λ q. sym (at_least-word ws x k p) ∙ first.above q)))))
]
  where
    words : length (bytes_of ws) ≡ length ws * 4 → length (bytes_of ws) / 4 ≡ length ws
    words e = omega arith

    next_word : (k : ℕ) → k * 4 + 4 ≡ suc k * 4
    next_word k = omega arith

    same :
        (k : ℕ)
        → choose_stop cur
            (drop (k * 4 + 4) (bytes_of ws))
            (uint32 (drop (k * 4) (bytes_of ws)))
            (ltb k (length ws))
          ≡ stopped cur k ws
    same k =
        ap₂ (λ rest w. choose_stop cur rest w (ltb k (length ws)))
          (ap (λ n. drop n (bytes_of ws)) (next_word k) ∙ drop-bytes_of (suc k) ws)
          (ap uint32 (drop-bytes_of k ws) ∙ uint32-drop k ws)
