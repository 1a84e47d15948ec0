-- ===== src/Trigger/Tests.antt =====
-- The theorems on trigger rules, applied.
use dagworker.Base.{◌≡◌, refl, not, Option, none, some, List, [], ◌∷◌}
use dagworker.Trigger.{TriggerRule, DepCounts, validate_trigger, ready, unsatisfiable}
use dagworker.Trigger.Outcomes.{Outcome, resolved_decides}

abbrev preds : List (Option Outcome)
preds = some Outcome.succeeded ∷ none ∷ some Outcome.failed ∷ []

abbrev counts : DepCounts
counts = record { unsatisfied = 0; succeeded = 2; skipped = 1; failed = 0 }

resolved_decides_example :
    unsatisfiable TriggerRule.none_failed counts ≡ not (ready TriggerRule.none_failed counts)
unfolding validate_trigger
resolved_decides_example = resolved_decides TriggerRule.none_failed counts refl refl
