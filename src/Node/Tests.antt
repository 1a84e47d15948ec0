-- ===== src/Node/Tests.antt =====
-- The validation of a specification, applied.
use dagworker.Base.{◌≡◌, ◌↔◌, pos, [], ◌∷◌, codes}
use dagworker.Errors.{ok}
use dagworker.Trigger.{TriggerRule}
use dagworker.Node.{NodeSpec, validate_spec}
use dagworker.Node.Validity.{IsWellFormed, validate_spec_iff}

abbrev spec : NodeSpec
spec = record {
  id = codes "b";
  kind = codes "build";
  payload = [];
  labels = [];
  priority = pos 2;
  trigger = TriggerRule.all_done;
  retry = record { max_attempts = 2; base_delay = pos 5; max_delay = pos 9 };
  deps = codes "a" ∷ [];
}

validate_spec_iff_example : (validate_spec spec ≡ ok tt) ↔ IsWellFormed spec
validate_spec_iff_example = validate_spec_iff spec
