-- ===== src/Memory/State/Stats.antt =====
-- store.go and storage/memory/scope.go: a scope's counters, and the counter that a phase belongs to.
use dagworker.Base.{ℕ, ◌+◌, ◌%◌, ◌^◌, Bool}
use dagworker.Status.{Status, Phase}

-- dagworker.ScopeStats.
pub record ScopeStats : Type 0 where
  pub total : ℕ
  pub blocked : ℕ
  pub scheduled : ℕ
  pub ready : ℕ
  pub in_progress : ℕ
  pub succeeded : ℕ
  pub failed : ℕ
  pub sealed : Bool
  pub complete : Bool
  pub cursor : ℕ

-- Which counter a node belongs to.
pub data Bucket : Type 0 where
  blocked scheduled ready in_progress succeeded failed : Bucket

abbrev finished_bucket : Status → Bucket
finished_bucket Status.success = Bucket.succeeded
finished_bucket _ = Bucket.failed

unfoldable pub bucket : Phase → Status → Bucket
bucket Phase.blocked status = Bucket.blocked
bucket Phase.scheduled status = Bucket.scheduled
bucket Phase.ready status = Bucket.ready
bucket Phase.claimed status = Bucket.in_progress
bucket _ status = finished_bucket status

-- A counter changed through the pointer that `bucket` returns.
unfoldable pub count_by : (ℕ → ℕ) → Bucket → ScopeStats → ScopeStats
count_by f Bucket.blocked t = record t { blocked = f t.blocked }
count_by f Bucket.scheduled t = record t { scheduled = f t.scheduled }
count_by f Bucket.ready t = record t { ready = f t.ready }
count_by f Bucket.in_progress t = record t { in_progress = f t.in_progress }
count_by f Bucket.succeeded t = record t { succeeded = f t.succeeded }
count_by f Bucket.failed t = record t { failed = f t.failed }

-- ScopeStats.NonTerminal, a sum of uint64 values.
unfoldable pub non_terminal : ScopeStats → ℕ
non_terminal t = (t.blocked + t.scheduled + t.ready + t.in_progress) % 2 ^ 64
