-- ===== src/Manager/Calls/Guard.antt =====
-- manager.go: the checks of a write's arguments, and what they accept.
use dagworker.Base.{
  ◌≡◌, ◌≢◌, refl, List, [], ◌∷◌, if◌then◌else◌, Text, text_eq, text_eq_iff, All, arith,
}
use dagworker.Errors.{Result, ok, err, plain, err_cycle, ◌>>◌}
use dagworker.Identifier.{validate_node_id}
use dagworker.Node.{NodeSpec, CascadePolicy, validate_spec}
use dagworker.Memory.Graph.{Edge}
use dagworker.Manager.Calls.{validate_specs, validate_edges, validate_ids, validate_policy}

-- The writes to the graph of a scope.
pub data Write : Type 0 where
  nodes : List NodeSpec → Write
  edges fewer_edges : List Edge → Write
  removal : Text → CascadePolicy → Write
  ends : List Text → Write
  all_ends : Write

abbrev pub Accepted : Result (Unit {0}) → Type 0
Accepted r = r ≡ ok tt

abbrev pub IsJoin : Edge → Type 0
IsJoin e = Accepted (validate_node_id e.from) × (Accepted (validate_node_id e.to) × (e.from ≢ e.to))

abbrev pub IsPolicy : CascadePolicy → Type 0
IsPolicy (CascadePolicy.unknown n) = ⊥
IsPolicy _ = Unit

-- The arguments of a write are well formed.
abbrev pub AreValid : Write → Type 0
AreValid (Write.nodes specs) = All (λ s. Accepted (validate_spec s)) specs
AreValid (Write.edges es) = All IsJoin es
AreValid (Write.fewer_edges es) = All IsJoin es
AreValid (Write.removal id policy) = Accepted (validate_node_id id) × IsPolicy policy
AreValid (Write.ends ids) = All (λ id. Accepted (validate_node_id id)) ids
AreValid Write.all_ends = Unit

pub seq-split : (a b : Result (Unit {0})) → Accepted (a >> b) → Accepted a × Accepted b
seq-split (ok x) b e = (refl, e)
seq-split (err x) b e = absurd (ground (arith, e))

pub seq-join : (a b : Result (Unit {0})) → Accepted a → Accepted b → Accepted (a >> b)
seq-join (ok x) b e f = f
seq-join (err x) b e f = absurd (ground (arith, e))

validate_specs-All :
    (specs : List NodeSpec)
    → Accepted (validate_specs specs)
    → All (λ s. Accepted (validate_spec s)) specs
unfolding validate_specs
validate_specs-All [] e = tt
validate_specs-All (s ∷ specs) e =
    let (here, rest) = seq-split (validate_spec s) (validate_specs specs) e in
    (here, validate_specs-All specs rest)

All-validate_specs :
    (specs : List NodeSpec)
    → All (λ s. Accepted (validate_spec s)) specs
    → Accepted (validate_specs specs)
unfolding validate_specs
All-validate_specs [] a = refl
All-validate_specs (s ∷ specs) (here, rest) =
    seq-join (validate_spec s) (validate_specs specs) here (All-validate_specs specs rest)

validate_ids-All :
    (ids : List Text) → Accepted (validate_ids ids) → All (λ id. Accepted (validate_node_id id)) ids
unfolding validate_ids
validate_ids-All [] e = tt
validate_ids-All (id ∷ ids) e =
    let (here, rest) = seq-split (validate_node_id id) (validate_ids ids) e in
    (here, validate_ids-All ids rest)

All-validate_ids :
    (ids : List Text) → All (λ id. Accepted (validate_node_id id)) ids → Accepted (validate_ids ids)
unfolding validate_ids
All-validate_ids [] a = refl
All-validate_ids (id ∷ ids) (here, rest) =
    seq-join (validate_node_id id) (validate_ids ids) here (All-validate_ids ids rest)

-- The test for an edge from a node to itself.
apart-split :
    (e : Edge)
    → Accepted (if text_eq e.from e.to then err (plain err_cycle) else ok tt)
    → e.from ≢ e.to
apart-split e a = ground (arith, text_eq_iff e.from e.to)

apart-join :
    (e : Edge)
    → e.from ≢ e.to
    → Accepted (if text_eq e.from e.to then err (plain err_cycle) else ok tt)
apart-join e d = ground (arith, text_eq_iff e.from e.to)

validate_edges-All : (es : List Edge) → Accepted (validate_edges es) → All IsJoin es
unfolding validate_edges
validate_edges-All [] a = tt
validate_edges-All (e ∷ es) a =
    let (abc, rest) = seq-split _ (validate_edges es) a in
    let (ab, c) = seq-split (validate_node_id e.from >> validate_node_id e.to) _ abc in
    let (from_ok, to_ok) = seq-split (validate_node_id e.from) (validate_node_id e.to) ab in
    ((from_ok, (to_ok, apart-split e c)), validate_edges-All es rest)

All-validate_edges : (es : List Edge) → All IsJoin es → Accepted (validate_edges es)
unfolding validate_edges
All-validate_edges [] a = refl
All-validate_edges (e ∷ es) ((from_ok, (to_ok, d)), rest) =
    seq-join _ (validate_edges es)
      (seq-join (validate_node_id e.from >> validate_node_id e.to) _
        (seq-join (validate_node_id e.from) (validate_node_id e.to) from_ok to_ok) (apart-join e d))
      (All-validate_edges es rest)

validate_policy-IsPolicy : (p : CascadePolicy) → Accepted (validate_policy p) → IsPolicy p
unfolding validate_policy
validate_policy-IsPolicy (CascadePolicy.unknown n) e = absurd (ground (arith, e))
validate_policy-IsPolicy CascadePolicy.reject e = tt
validate_policy-IsPolicy CascadePolicy.detach e = tt
validate_policy-IsPolicy CascadePolicy.fail e = tt

IsPolicy-validate_policy : (p : CascadePolicy) → IsPolicy p → Accepted (validate_policy p)
unfolding validate_policy
IsPolicy-validate_policy (CascadePolicy.unknown n) q = absurd q
IsPolicy-validate_policy CascadePolicy.reject q = refl
IsPolicy-validate_policy CascadePolicy.detach q = refl
IsPolicy-validate_policy CascadePolicy.fail q = refl

-- The checks of a write's arguments, as the call makes them.
unfoldable pub validate_write : Write → Result (Unit {0})
validate_write (Write.nodes specs) = validate_specs specs
validate_write (Write.edges es) = validate_edges es
validate_write (Write.fewer_edges es) = validate_edges es
validate_write (Write.removal id policy) = validate_node_id id >> validate_policy policy
validate_write (Write.ends ids) = validate_ids ids
validate_write Write.all_ends = ok tt

pub validate_write-AreValid : (w : Write) → Accepted (validate_write w) → AreValid w
unfolding validate_write
validate_write-AreValid (Write.nodes specs) e = validate_specs-All specs e
validate_write-AreValid (Write.edges es) e = validate_edges-All es e
validate_write-AreValid (Write.fewer_edges es) e = validate_edges-All es e
validate_write-AreValid (Write.removal id policy) e =
    let (here, rest) = seq-split (validate_node_id id) (validate_policy policy) e in
    (here, validate_policy-IsPolicy policy rest)
validate_write-AreValid (Write.ends ids) e = validate_ids-All ids e
validate_write-AreValid Write.all_ends e = tt

pub AreValid-validate_write : (w : Write) → AreValid w → Accepted (validate_write w)
unfolding validate_write
AreValid-validate_write (Write.nodes specs) v = All-validate_specs specs v
AreValid-validate_write (Write.edges es) v = All-validate_edges es v
AreValid-validate_write (Write.fewer_edges es) v = All-validate_edges es v
AreValid-validate_write (Write.removal id policy) (here, rest) =
    seq-join (validate_node_id id) (validate_policy policy) here
      (IsPolicy-validate_policy policy rest)
AreValid-validate_write (Write.ends ids) v = All-validate_ids ids v
AreValid-validate_write Write.all_ends v = refl
