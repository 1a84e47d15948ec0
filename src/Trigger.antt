-- ===== src/Trigger.antt =====
-- node.go: trigger rules and the incremental predecessor tally that they are evaluated against.
pub mod Outcomes
pub mod Tests
use Prim.Native.String.{String}
use dagworker.Base.{ℕ, ◌+◌, ◌%◌, ◌^◌, Bool, true, false, ◌&&◌, ◌||◌, ltb, ◌==◌, if◌then◌else◌}
use dagworker.Errors.{Result, ok, err, invalid_argument_error}
use dagworker.Status.{Reason}

-- A uint8 in the source; `unknown n` is the n-th value past the named ones.
pub data TriggerRule : Type 0 where
  all_success all_done none_failed none_failed_min_one_success always : TriggerRule
  unknown : ℕ → TriggerRule

pub validate_trigger : TriggerRule → Result (Unit {0})
validate_trigger (TriggerRule.unknown n) = err (invalid_argument_error "trigger rule")
validate_trigger _ = ok tt

-- Four uint32 counters.
pub record DepCounts : Type 0 where
  pub unsatisfied : ℕ
  pub succeeded : ℕ
  pub skipped : ℕ
  pub failed : ℕ

unfoldable pub total : DepCounts → ℕ
total d = (d.unsatisfied + d.succeeded + d.skipped + d.failed) % 2 ^ 32

-- The switch of DepCounts.Ready, once every predecessor is terminal.
ready_when_resolved : TriggerRule → DepCounts → Bool
ready_when_resolved TriggerRule.always d = true
ready_when_resolved TriggerRule.all_success d = d.failed == 0 && d.skipped == 0
ready_when_resolved TriggerRule.all_done d = true
ready_when_resolved TriggerRule.none_failed d = d.failed == 0
ready_when_resolved TriggerRule.none_failed_min_one_success d = d.failed == 0 && ltb 0 d.succeeded
ready_when_resolved (TriggerRule.unknown n) d = false

is_always : TriggerRule → Bool
is_always TriggerRule.always = true
is_always _ = false

unfoldable pub ready : TriggerRule → DepCounts → Bool
unfolding is_always ready_when_resolved
ready t d =
    if is_always t then true else if ltb 0 d.unsatisfied then false else ready_when_resolved t d

unfoldable pub unsatisfiable : TriggerRule → DepCounts → Bool
unsatisfiable TriggerRule.always d = false
unsatisfiable TriggerRule.all_done d = false
unsatisfiable TriggerRule.all_success d = ltb 0 d.failed || ltb 0 d.skipped
unsatisfiable TriggerRule.none_failed d = ltb 0 d.failed
unsatisfiable TriggerRule.none_failed_min_one_success d =
    ltb 0 d.failed || (d.unsatisfied == 0 && d.succeeded == 0)
unsatisfiable (TriggerRule.unknown n) d = false

unfoldable pub terminal_reason : DepCounts → Reason
terminal_reason d = if ltb 0 d.failed then Reason.upstream_failed else Reason.skipped
