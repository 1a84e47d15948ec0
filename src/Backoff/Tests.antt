-- ===== src/Backoff/Tests.antt =====
-- The bounds on the backoff, applied.
use dagworker.Base.{◌≤◌, ◌-◌, pos, some, min, arith}
use dagworker.Backoff.{positive_or, default_retry_max_delay, backoff_window, backoff}
use dagworker.Backoff.Window.{Near, exact_window, backoff_window-Near, backoff-le}

backoff_window-Near_example :
    Near
      (positive_or (pos 1001) default_retry_max_delay)
      (exact_window 5 (pos 100))
      (backoff_window 5 (pos 100) (pos 1001))
backoff_window-Near_example = backoff_window-Near 5 (pos 100) (pos 1001) (omega arith)

backoff-le_example :
    backoff 5 (pos 100) (pos 1001) (some (λ n. n - 1))
    ≤ min (positive_or (pos 1001) default_retry_max_delay) (exact_window 5 (pos 100))
backoff-le_example =
    backoff-le 5 (pos 100) (pos 1001) (λ n. n - 1) (omega arith) (λ n h. omega arith)
