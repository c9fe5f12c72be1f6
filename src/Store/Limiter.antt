-- ===== src/Store/Limiter.antt =====
-- pkg/store/limiter.go: `Limiter`, which stops a query that touches too much. Each `Reserve` is one
-- atomic step; `true` is the nil error. The counter of failures counts once.
pub mod Limits
mod Tests
use promlts.Prelude.{ltb, ◌==◌, if◌then◌else◌, ℕ, ◌+◌, ◌%◌, ◌^◌, Bool, true, false}

pub record Limiter : Type 0 where
  pub limit : ℕ
  pub reserved : ℕ
  pub failed_once : Bool

abbrev pub new_limiter : ℕ → Limiter
new_limiter limit = record { limit = limit; reserved = 0; failed_once = false }

pub reserve : Limiter → ℕ → Limiter × Bool
reserve l num =
    let reserved = (l.reserved + num) % 2 ^ 64 in
    if l.limit == 0
    then (l, true)
    else if ltb l.limit reserved
    then (record l { reserved = reserved; failed_once = true }, false)
    else (record l { reserved = reserved }, true)
