-- ===== src/Trigger/Outcomes.antt =====
-- The trigger rules against a description by the list of the predecessors' outcomes.
use dagworker.Base.{
  suc, ◌+◌, ◌≤◌, ◌<◌, ◌≡◌, ◌↔◌, ◌⊎◌, ◌≢◌, not, Option, none, some, List, [], ◌∷◌, arith,
}
use dagworker.Errors.{ok}
use dagworker.Status.{Reason}
use dagworker.Trigger.{
  TriggerRule, DepCounts, validate_trigger, ready, unsatisfiable, terminal_reason,
}

-- How a terminal predecessor ended.
pub data Outcome : Type 0 where
  succeeded skipped failed : Outcome

-- The counters for a list of predecessors, `none` for one that is not yet terminal.
pub tally : List (Option Outcome) → DepCounts
tally [] = record { unsatisfied = 0; succeeded = 0; skipped = 0; failed = 0 }
tally (none ∷ ps) = let d = tally ps in record d { unsatisfied = suc d.unsatisfied }
tally (some Outcome.succeeded ∷ ps) = let d = tally ps in record d { succeeded = suc d.succeeded }
tally (some Outcome.skipped ∷ ps) = let d = tally ps in record d { skipped = suc d.skipped }
tally (some Outcome.failed ∷ ps) = let d = tally ps in record d { failed = suc d.failed }

-- What the documentation of each rule says, over the outcomes themselves.
abbrev Every : (Option Outcome → Type 0) → List (Option Outcome) → Type 0
Every P [] = Unit
Every P (p ∷ ps) = P p × Every P ps

abbrev Some : List (Option Outcome) → Type 0
Some [] = ⊥
Some (p ∷ ps) = (p ≡ some Outcome.succeeded) ⊎ Some ps

abbrev pub FailedAmong : List (Option Outcome) → Type 0
FailedAmong [] = ⊥
FailedAmong (p ∷ ps) = (p ≡ some Outcome.failed) ⊎ FailedAmong ps

abbrev Succeeded : Option Outcome → Type 0
Succeeded p = p ≡ some Outcome.succeeded

abbrev Resolved : Option Outcome → Type 0
Resolved p = p ≢ none

abbrev NotFailed : Option Outcome → Type 0
NotFailed p = (p ≡ some Outcome.succeeded) ⊎ (p ≡ some Outcome.skipped)

abbrev pub Fires : TriggerRule → List (Option Outcome) → Type 0
Fires TriggerRule.all_success ps = Every Succeeded ps
Fires TriggerRule.all_done ps = Every Resolved ps
Fires TriggerRule.none_failed ps = Every NotFailed ps
Fires TriggerRule.none_failed_min_one_success ps = Every NotFailed ps × Some ps
Fires TriggerRule.always ps = Unit {0}
Fires (TriggerRule.unknown n) ps = ⊥

FailedAmong-iff : (ps : List (Option Outcome)) → (0 < (tally ps).failed) ↔ FailedAmong ps
unfolding tally
FailedAmong-iff [] = ground arith
FailedAmong-iff (none ∷ ps) = ground (arith, FailedAmong-iff ps)
FailedAmong-iff (some Outcome.succeeded ∷ ps) = ground (arith, FailedAmong-iff ps)
FailedAmong-iff (some Outcome.skipped ∷ ps) = ground (arith, FailedAmong-iff ps)
FailedAmong-iff (some Outcome.failed ∷ ps) = ground arith

-- One way for the pending predecessors to resolve: what is terminal stays as it is.
abbrev pub Resolves : List (Option Outcome) → List (Option Outcome) → Type 0
Resolves [] [] = Unit
Resolves [] (q ∷ qs) = ⊥
Resolves (p ∷ ps) [] = ⊥
Resolves (none ∷ ps) (q ∷ qs) = (q ≢ none) × Resolves ps qs
Resolves (some o ∷ ps) (q ∷ qs) = (q ≡ some o) × Resolves ps qs

-- What a resolution does to the counters.
record Grows (d e : DepCounts) : Type 0 where
  resolved : e.unsatisfied ≡ 0
  succeeded_grows : d.succeeded ≤ e.succeeded
  skipped_grows : d.skipped ≤ e.skipped
  failed_grows : d.failed ≤ e.failed
  balanced : e.succeeded + e.skipped + e.failed ≡ d.unsatisfied + d.succeeded + d.skipped + d.failed

-- Every pending predecessor succeeds.
resolve : List (Option Outcome) → List (Option Outcome)
resolve [] = []
resolve (none ∷ ps) = some Outcome.succeeded ∷ resolve ps
resolve (some o ∷ ps) = some o ∷ resolve ps

-- Once no predecessor is pending, a valid rule is either ready or unsatisfiable, and never both.
pub resolved_decides :
    (t : TriggerRule) (d : DepCounts)
    → validate_trigger t ≡ ok tt
    → d.unsatisfied ≡ 0
    → unsatisfiable t d ≡ not (ready t d)
unfolding ready unsatisfiable validate_trigger
resolved_decides t d v h = ground arith

-- A node that is ended because its rule cannot hold is called skipped exactly when no predecessor
-- failed.
terminal_reason_iff :
    (ps : List (Option Outcome)) → (terminal_reason (tally ps) ≡ Reason.skipped) ↔ ¬ FailedAmong ps
unfolding terminal_reason
terminal_reason_iff ps = ground (arith, FailedAmong-iff ps)
