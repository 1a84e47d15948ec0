-- ===== src/Backoff.antt =====
-- backoff.go: the full-jitter retry delay. Durations are nanoseconds; a delay that has been checked
-- or defaulted to be positive is a natural number, kept as the int64 bit pattern.
pub mod Window
pub mod Tests
use dagworker.Base.{
  ℕ, zero, suc, ◌-◌, ◌*◌, ◌/◌, ◌%◌, ◌^◌, min, ℤ, pos, negsuc, Bool, Option, none, some, leb, ◌==◌,
  if◌then◌else◌,
}

abbrev pub second : ℕ
second = 1_000_000_000

abbrev pub default_retry_base_delay : ℕ
default_retry_base_delay = second

abbrev pub default_retry_max_delay : ℕ
default_retry_max_delay = 300 * second

-- if d <= 0 { d = fallback }
abbrev pub positive_or : ℤ → ℕ → ℕ
positive_or (pos n) fallback = if n == 0 then fallback else n
positive_or (negsuc n) fallback = fallback

-- The loop for i := 1; i < attempt; i++, with the rounds left.
widen : ℕ → ℕ → ℕ → ℕ
widen zero window max_delay = window
widen (suc rounds) window max_delay =
    let rest = widen rounds (window * 2 % 2 ^ 64) max_delay in
    if leb (max_delay / 2) window then max_delay else rest

-- The window that the delay is drawn from.
pub backoff_window : ℕ → ℤ → ℤ → ℕ
backoff_window attempt base max_delay =
    let attempt' : ℕ = if attempt == 0 then 1 else attempt in
    let base' = positive_or base default_retry_base_delay in
    let max_delay' = positive_or max_delay default_retry_max_delay in
    min (widen (attempt' - 1) base' max_delay') max_delay'

pub backoff : ℕ → ℤ → ℤ → Option (ℕ → ℕ) → ℕ
backoff attempt base max_delay jitter =
    let window = backoff_window attempt base max_delay in
    elim jitter [ none ↦ window | some draw ↦ if window == 0 then window else draw window ]
