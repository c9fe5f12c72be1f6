-- ===== src/Block/Marks/Age.antt =====
-- pkg/block/fetcher.go and pkg/compact/blocks_cleaner.go: the age of a deletion mark.
use promlts.Prelude.Int.{ℤ, pos, negsuc, ◌+ℤ◌, ◌*ℤ◌, ltb_ℤ}
use promlts.Block.Marks.{is_older}
use promlts.Prelude.{ℕ, ◌≡◌, Bool, arith}

-- The time, in seconds, plus the delay is before the clock, both in nanoseconds.
abbrev pub is_past : ℕ → ℕ → ℤ → Bool
is_past now delay time = ltb_ℤ (time *ℤ pos 1000000000 +ℤ pos delay) (pos now)

pub is_older-past : (now delay : ℕ) (time : ℤ) → is_older now delay time ≡ is_past now delay time
unfolding is_older ◌*ℤ◌ ◌+ℤ◌
is_older-past now delay (pos t) = ground arith
is_older-past now delay (negsuc t) = ground arith
