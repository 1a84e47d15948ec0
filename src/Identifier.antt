-- ===== src/Identifier.antt =====
-- identifier.go: the limits on identifier sizes, and the checks on every write path.
-- A map of labels is the list of its entries, in the order in which a range over it yields them.
pub mod Utf8
pub mod Limits
use dagworker.Base.{ℕ, List, [], ◌∷◌, ◌||◌, not, ltb, length, if◌then◌else◌, Text}
use dagworker.Errors.{Result, ok, err, invalid_argument_error, ◌>>=◌, ◌>>◌}
use Utf8.{valid_utf8}

abbrev pub max_scope_len : ℕ
max_scope_len = 255

abbrev pub max_node_id_len : ℕ
max_node_id_len = 255

abbrev pub max_kind_len : ℕ
max_kind_len = 64

abbrev pub max_label_key_len : ℕ
max_label_key_len = 64

abbrev pub max_label_value_len : ℕ
max_label_value_len = 256

abbrev pub max_labels : ℕ
max_labels = 32

unfoldable pub validate_scope : Text → Result (Unit {0})
validate_scope [] = err (invalid_argument_error "scope")
validate_scope s =
    if ltb max_scope_len (length s)
    then err (invalid_argument_error "scope")
    else if not (valid_utf8 s)
    then err (invalid_argument_error "scope")
    else ok tt

unfoldable pub validate_node_id : Text → Result (Unit {0})
validate_node_id [] = err (invalid_argument_error "node id")
validate_node_id n =
    if ltb max_node_id_len (length n)
    then err (invalid_argument_error "node id")
    else if not (valid_utf8 n)
    then err (invalid_argument_error "node id")
    else ok tt

unfoldable pub validate_kind : Text → Result (Unit {0})
validate_kind kind =
    if ltb max_kind_len (length kind)
    then err (invalid_argument_error "kind")
    else if not (valid_utf8 kind)
    then err (invalid_argument_error "kind")
    else ok tt

-- The body of the loop over the labels.
validate_label : Text → Text → Result (Unit {0})
validate_label [] v = err (invalid_argument_error "label key")
validate_label k v =
    if ltb max_label_key_len (length k)
    then err (invalid_argument_error "label key")
    else if ltb max_label_value_len (length v)
    then err (invalid_argument_error "label value")
    else if not (valid_utf8 k) || not (valid_utf8 v)
    then err (invalid_argument_error "label")
    else ok tt

validate_entries : List (Text × Text) → Result (Unit {0})
validate_entries [] = ok tt
validate_entries ((k, v) ∷ labels) = validate_label k v >> validate_entries labels

unfoldable pub validate_labels : List (Text × Text) → Result (Unit {0})
unfolding validate_label validate_entries
validate_labels labels =
    if ltb max_labels (length labels)
    then err (invalid_argument_error "labels")
    else validate_entries labels
