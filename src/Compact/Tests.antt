-- ===== src/Compact/Tests.antt =====
-- pkg/compact: `largeTotalIndexSizeFilter` at a concrete input.
use promlts.Prelude.Dict.{nat_eq}
use promlts.Prelude.Int.{ℤ}
use promlts.Prelude.{ℕ, Bool, true, Option, none}

abbrev unlisted : ℕ → Option ℤ
unlisted id = none

abbrev written : ℕ → Bool
written id = true
