-- ===== src/Identifier/Limits.antt =====
-- identifier.go: what the checks let through, exactly.
use dagworker.Base.{◌≡◌, ◌≤◌, ◌↔◌, ◌≢◌, List, [], ◌∷◌, true, length, Text, arith}
use dagworker.Errors.{ok}
use dagworker.Identifier.Utf8.{valid_utf8}
use dagworker.Identifier.{
  max_node_id_len, max_label_key_len, max_label_value_len, max_labels, validate_node_id,
  validate_label, validate_entries, validate_labels,
}

abbrev pub IsLabel : Text × Text → Type 0
IsLabel e =
    (e.0 ≢ [])
    × (length e.0 ≤ max_label_key_len)
    × (length e.1 ≤ max_label_value_len)
    × (valid_utf8 e.0 ≡ true)
    × (valid_utf8 e.1 ≡ true)

abbrev pub AreLabels : List (Text × Text) → Type 0
AreLabels [] = Unit
AreLabels (e ∷ labels) = IsLabel e × AreLabels labels

-- An identifier of a node is accepted exactly when it is non-empty, short enough and valid UTF-8.
validate_node_id_iff :
    (n : Text)
    → (validate_node_id n ≡ ok tt)
      ↔ ((n ≢ []) × (length n ≤ max_node_id_len) × (valid_utf8 n ≡ true))
unfolding validate_node_id
validate_node_id_iff [] = ground arith
validate_node_id_iff (x ∷ n) = ground arith

IsLabel-iff : (k v : Text) → (validate_label k v ≡ ok tt) ↔ IsLabel (k, v)
unfolding validate_label
IsLabel-iff [] v = ground arith
IsLabel-iff (x ∷ k) v = ground arith

entries_iff : (labels : List (Text × Text)) → (validate_entries labels ≡ ok tt) ↔ AreLabels labels
unfolding validate_entries
entries_iff [] = ground arith
entries_iff ((k, v) ∷ labels) = ground (arith, IsLabel-iff k v, entries_iff labels)

-- A map of labels is accepted exactly when it has at most 32 entries, each with a non-empty key,
-- key and value within their limits, and both valid UTF-8.
pub validate_labels_iff :
    (labels : List (Text × Text))
    → (validate_labels labels ≡ ok tt) ↔ ((length labels ≤ max_labels) × AreLabels labels)
unfolding validate_labels
validate_labels_iff labels = ground (arith, entries_iff labels)
