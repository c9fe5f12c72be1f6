-- ===== src/Compact/SizeFilter/Unmarked.antt =====
-- pkg/compact/planner.go: each mark that the filter makes leaves fewer blocks.
use mathlib.Core.Path.{subst}
use promlts.Compact.Planner.{Meta, Marks, is_excluded}
use promlts.Prelude.Dict.{nat_eq, put, get-put}
use promlts.Prelude.{
  ◌==◌, if◌then◌else◌, length, All, Contains, ℕ, ◌+◌, ◌≤◌, ◌<◌, ◌≡◌, inl, inr, false, ◌||◌, List,
  [], ◌∷◌, arith,
}

excluded_put :
    (marks : Marks) (id : ℕ) (m : Meta)
    → is_excluded (put marks id tt) m ≡ ((id == m.ulid) || is_excluded marks m)
excluded_put marks id m = ground (arith, get-put marks id m.ulid tt)

-- How many blocks are not marked.
abbrev pub unmarked : Marks → List Meta → ℕ
unmarked marks [] = 0
unmarked marks (m ∷ metas) =
    let rest = unmarked marks metas in if is_excluded marks m then rest else rest + 1

unmarked-put_le :
    (marks : Marks) (id : ℕ) (metas : List Meta)
    → unmarked (put marks id tt) metas ≤ unmarked marks metas
unmarked-put_le marks id [] = omega arith
unmarked-put_le marks id (m ∷ metas) =
    ground (arith, excluded_put marks id m, unmarked-put_le marks id metas)

pub unmarked-put_lt :
    (marks : Marks) (m : Meta) (metas : List Meta)
    → Contains m metas
    → is_excluded marks m ≡ false
    → unmarked (put marks m.ulid tt) metas < unmarked marks metas
unmarked-put_lt marks m [] c e = absurd c
unmarked-put_lt marks m (n ∷ metas) (inl c) e =
    subst (λ k. unmarked (put marks m.ulid tt) (k ∷ metas) < unmarked marks (k ∷ metas)) c
      (ground (arith, excluded_put marks m.ulid m, unmarked-put_le marks m.ulid metas))
unmarked-put_lt marks m (n ∷ metas) (inr c) e =
    ground (arith, excluded_put marks m.ulid n, unmarked-put_lt marks m metas c e)

pub unmarked_le : (marks : Marks) (metas : List Meta) → unmarked marks metas ≤ length metas
unmarked_le marks [] = omega arith
unmarked_le marks (m ∷ metas) = ground (arith, unmarked_le marks metas)

pub All-unput :
    (marks : Marks) (id : ℕ) (metas res : List Meta)
    → All (λ m. Contains m metas × (is_excluded (put marks id tt) m ≡ false)) res
    → All (λ m. Contains m metas × (is_excluded marks m ≡ false)) res
All-unput marks id metas [] h = tt
All-unput marks id metas (m ∷ res) ((c, x), h) =
    ((c, unmarked_before m x), All-unput marks id metas res h)
  where
    unmarked_before :
        (m : Meta) → is_excluded (put marks id tt) m ≡ false → is_excluded marks m ≡ false
    unmarked_before m x = ground (arith, excluded_put marks id m)
