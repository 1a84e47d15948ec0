-- ===== src/Node/Validity.antt =====
-- node.go: which specifications NodeSpec.Validate lets through.
use dagworker.Base.{
  ◌≡◌, ◌≢◌, ◌↔◌, ◌≤◌, ◌⊎◌, List, [], ◌∷◌, false, Text, text_eq_iff, length, arith, pos, ◌≤ℤ◌,
}
use dagworker.Errors.{ok}
use dagworker.Trigger.{validate_trigger}
use dagworker.Identifier.{validate_kind, validate_node_id, max_labels}
use dagworker.Identifier.Limits.{AreLabels, validate_labels_iff}
use dagworker.Node.{NodeSpec, RetryPolicy, member, validate_deps, validate_retry, validate_spec}

abbrev pub Absent : Text → List Text → Type 0
Absent d [] = Unit
Absent d (e ∷ es) = (d ≢ e) × Absent d es

abbrev pub Distinct : List Text → Type 0
Distinct [] = Unit
Distinct (d ∷ ds) = Absent d ds × Distinct ds

-- Each dependency is a valid identifier other than the node's own.
abbrev pub Proper : Text → List Text → Type 0
Proper id [] = Unit
Proper id (d ∷ ds) = (validate_node_id d ≡ ok tt) × (d ≢ id) × Proper id ds

abbrev Apart : List Text → List Text → Type 0
Apart seen [] = Unit
Apart seen (d ∷ ds) = Absent d seen × Apart seen ds

member_iff : (d : Text) (seen : List Text) → (member d seen ≡ false) ↔ Absent d seen
member_iff d [] = ground arith
member_iff d (e ∷ es) = ground (arith, text_eq_iff d e, member_iff d es)

Apart-cons : (d : Text) (seen ds : List Text) → Apart (d ∷ seen) ds ↔ (Absent d ds × Apart seen ds)
Apart-cons d seen [] = ground arith
Apart-cons d seen (e ∷ ds) = ground (arith, Apart-cons d seen ds)

Apart-nil : (ds : List Text) → Apart [] ds
Apart-nil [] = tt
Apart-nil (d ∷ ds) = (tt, Apart-nil ds)

deps_iff :
    (id : Text) (seen ds : List Text)
    → (validate_deps id seen ds ≡ ok tt) ↔ (Proper id ds × Apart seen ds × Distinct ds)
unfolding validate_deps
deps_iff id seen [] = ground arith
deps_iff id seen (d ∷ ds) =
    ground
      (arith, text_eq_iff d id, member_iff d seen, Apart-cons d seen ds, deps_iff id (d ∷ seen) ds)

-- Delays that are not negative, and in order where both are set.
abbrev pub InOrder : RetryPolicy → Type 0
InOrder r =
    (pos 0 ≤ℤ r.base_delay)
    × (pos 0 ≤ℤ r.max_delay)
    × ((r.base_delay ≤ℤ r.max_delay) ⊎ (r.max_delay ≡ pos 0))

retry_iff : (r : RetryPolicy) → (validate_retry r ≡ ok tt) ↔ InOrder r
unfolding validate_retry
retry_iff r = ground arith

pub record IsWellFormed (s : NodeSpec) : Type 0 where
  pub valid_id : validate_node_id s.id ≡ ok tt
  pub valid_kind : validate_kind s.kind ≡ ok tt
  pub few_labels : length s.labels ≤ max_labels
  pub valid_labels : AreLabels s.labels
  pub valid_trigger : validate_trigger s.trigger ≡ ok tt
  pub valid_retry : InOrder s.retry
  pub proper_deps : Proper s.id s.deps
  pub distinct_deps : Distinct s.deps

-- A specification is accepted exactly when its identifier, kind, labels, trigger rule and retry
-- delays are valid, and its dependencies are valid identifiers, distinct and other than its own.
pub validate_spec_iff : (s : NodeSpec) → (validate_spec s ≡ ok tt) ↔ IsWellFormed s
unfolding validate_spec
validate_spec_iff s = ground (
  arith,
  validate_labels_iff s.labels,
  retry_iff s.retry,
  deps_iff s.id [] s.deps,
  Apart-nil s.deps,
)
