-- ===== src/Backoff/Window.antt =====
-- The window of backoff.go against min(maxDelay, base * 2^(attempt - 1)).
use native.Mathlib.Nat.{pow-succ', mul_assoc, le-mul_of_pos_right, one-le-pow}
use dagworker.Base.{
  ℕ, zero, suc, ◌+◌, ◌-◌, ◌*◌, ◌/◌, ◌%◌, ◌^◌, ◌≤◌, ◌<◌, min, ◌≡◌, sym, ℤ, some, arith, leb, ◌==◌,
  if◌then◌else◌, Bool-cases, inl, inr,
}
use dagworker.Backoff.{
  positive_or, default_retry_base_delay, default_retry_max_delay, widen, backoff_window, backoff,
}

-- Doubling once more in the loop is doubling the start.
double : (k w : ℕ) → w * 2 ^ suc k ≡ w * 2 * 2 ^ k
double k w = rw (pow-succ' 2 k) (sym (mul_assoc w 2 (2 ^ k)))

le-doubled : (k w : ℕ) → w ≤ w * 2 ^ k
le-doubled k w = le-mul_of_pos_right w (one-le-pow k 2 (omega arith))

-- The loop, cut off at the cap, exceeds the exact value by at most one, and never with an even cap.
pub record Near (m exact r : ℕ) : Type 0 where
  pub above : min m exact ≤ r
  pub within : r ≤ min m exact + 1
  pub capped : r ≤ m
  pub even_exact : m % 2 ≡ 0 → r ≡ min m exact

capped-Near : (m w exact : ℕ) → m / 2 ≤ w → w * 2 ≤ exact → Near m exact (min m m)
capped-Near m w exact h e = record {
  above = omega arith;
  within = omega arith;
  capped = omega arith;
  even_exact = λ q. omega arith;
}

widen-Near : (k w m : ℕ) → m < 2 ^ 63 → Near m (w * 2 ^ k) (min (widen k w m) m)
unfolding widen
widen-Near zero w m b = record {
  above = omega arith;
  within = omega arith;
  capped = omega arith;
  even_exact = λ q. omega arith;
}
widen-Near (suc k) w m b = elim (Bool-cases (leb (m / 2) w)) [
  | inl stop ↦
      rw (stop, double k w) (capped-Near m w (w * 2 * 2 ^ k) (ground arith) (le-doubled k (w * 2)))
  | inr more ↦
      let fits : w * 2 % 2 ^ 64 ≡ w * 2 = ground arith in
      rw (more, double k w, fits) (widen-Near k (w * 2) m b)
]

-- The exact value of the documented formula, for the defaulted base delay.
abbrev pub exact_window : ℕ → ℤ → ℕ
exact_window attempt base = positive_or base default_retry_base_delay * 2 ^ (attempt - 1)

-- Whatever the attempt, for a cap below 2^63 the window is min(cap, base * 2^(attempt - 1)) or one
-- nanosecond more, never above the cap, and exact where the cap is even.
pub backoff_window-Near :
    (attempt : ℕ) (base max_delay : ℤ)
    → positive_or max_delay default_retry_max_delay < 2 ^ 63
    → Near
        (positive_or max_delay default_retry_max_delay)
        (exact_window attempt base)
        (backoff_window attempt base max_delay)
unfolding backoff_window
backoff_window-Near attempt base max_delay b =
    let first : (if attempt == 0 then 1 else attempt) - 1 ≡ attempt - 1 = ground arith in
    rw first (
      widen-Near (attempt - 1) (positive_or base default_retry_base_delay)
        (positive_or max_delay default_retry_max_delay) b)

-- With a jitter that draws below its argument and a cap below 2^63, the delay never exceeds
-- min(cap, base * 2^(attempt - 1)).
pub backoff-le :
    (attempt : ℕ) (base max_delay : ℤ) (draw : ℕ → ℕ)
    → positive_or max_delay default_retry_max_delay < 2 ^ 63
    → ((n : ℕ) → 0 < n → draw n < n)
    → backoff attempt base max_delay (some draw)
      ≤ min (positive_or max_delay default_retry_max_delay) (exact_window attempt base)
unfolding backoff
backoff-le attempt base max_delay draw b h =
    let near = backoff_window-Near attempt base max_delay b in
    let window = backoff_window attempt base max_delay in ground (arith, h window, near.within)
