-- ===== src/Node.antt =====
-- node.go: retry policies, cascade policies, node snapshots and the specification of a node to
-- create, with its validation. A timestamp is nanoseconds since the epoch; none is before it.
pub mod Validity
pub mod Tests
use dagworker.Base.{ℕ, ℤ, pos, ltb_ℤ, Bool, ◌&&◌, List, [], ◌∷◌, if◌then◌else◌, Text, text_eq, any}
use dagworker.Errors.{Result, ok, err, invalid_argument_error, ◌>>=◌, ◌>>◌}
use dagworker.Status.{Status, Reason}
use dagworker.Trigger.{TriggerRule, validate_trigger}
use dagworker.Identifier.{validate_node_id, validate_kind, validate_labels}

pub record RetryPolicy : Type 0 where
  pub max_attempts : ℕ
  pub base_delay : ℤ
  pub max_delay : ℤ

unfoldable pub validate_retry : RetryPolicy → Result (Unit {0})
validate_retry r =
    if ltb_ℤ r.base_delay (pos 0)
    then err (invalid_argument_error "retry base delay")
    else if ltb_ℤ r.max_delay (pos 0)
    then err (invalid_argument_error "retry max delay")
    else if ltb_ℤ (pos 0) r.base_delay
        && ltb_ℤ (pos 0) r.max_delay
        && ltb_ℤ r.max_delay r.base_delay
    then err (invalid_argument_error "retry policy")
    else ok tt

pub data CascadePolicy : Type 0 where
  reject detach fail : CascadePolicy
  unknown : ℕ → CascadePolicy

pub record Node : Type 0 where
  pub scope : Text
  pub id : Text
  pub kind : Text
  pub status : Status
  pub reason : Reason
  pub message : Text
  pub attempt : ℕ
  pub priority : ℤ
  pub trigger : TriggerRule
  pub retry : RetryPolicy
  pub payload : Text
  pub labels : List (Text × Text)
  pub seq : ℕ
  pub created_at : ℕ
  pub updated_at : ℕ

pub record NodeSpec : Type 0 where
  pub id : Text
  pub kind : Text
  pub payload : Text
  pub labels : List (Text × Text)
  pub priority : ℤ
  pub trigger : TriggerRule
  pub retry : RetryPolicy
  pub deps : List Text

abbrev pub member : Text → List Text → Bool
member d seen = any (text_eq d) seen

-- The loop over the dependencies, with those already seen.
validate_deps : Text → List Text → List Text → Result (Unit {0})
validate_deps id seen [] = ok tt
validate_deps id seen (d ∷ deps) =
    validate_node_id d
    >> (if text_eq d id then err (invalid_argument_error "deps") else ok tt)
    >> (if member d seen then err (invalid_argument_error "deps") else ok tt)
    >> validate_deps id (d ∷ seen) deps

pub validate_spec : NodeSpec → Result (Unit {0})
validate_spec s = do
  validate_node_id s.id
  validate_kind s.kind
  validate_labels s.labels
  validate_trigger s.trigger
  validate_retry s.retry
  validate_deps s.id [] s.deps
