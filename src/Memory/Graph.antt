-- ===== src/Memory/Graph.antt =====
-- storage/memory/graph.go: changes of the graph's structure, each under the scope's lock.
-- An operation returns the scope with its effects or its error. Error texts are not modelled.
use dagworker.Base.{
  ℕ, suc, Bool, true, false, not, ◌&&◌, none, some, List, [], ◌∷◌, ◌++◌, map, ◌==◌, if◌then◌else◌,
  length, ltb_ℤ, leb_ℤ, ℤ, pos, pos_part, Text, text_eq, lookup, insert, erase, update, inc64,
}
use dagworker.Errors.{
  Error, Result, ok, err, plain, cycle_error, payload_too_large_error, err_invalid_argument,
  err_id_conflict, err_not_found, err_already_terminal, ◌>>◌,
}
use dagworker.Status.{Status, Phase}
use dagworker.Trigger.{TriggerRule}
use dagworker.Config.{ScopeConfig}
use dagworker.Node.{NodeSpec, RetryPolicy, validate_spec, member}
use dagworker.Memory.State.{
  Scope, NodeRec, blank, put_rec, alloc, release, leave_bucket, enter_bucket, drop_total, is_done,
}
use dagworker.Memory.Edges.{has_edge, link_edge, unlink_edge}
use dagworker.Memory.Topo.{add_edge_order, seen_in}

pub record Edge : Type 0 where
  pub from : Text
  pub to : Text

-- What a batch has changed so far, latest first.
pub record Journal : Type 0 where
  pub created : List ℕ
  pub edges : List (ℕ × ℕ)

abbrev pub empty_journal : Journal
empty_journal = record { created = []; edges = [] }

-- orderedSet.add: the items in the order of insertion.
unfoldable pub add_ordered : ℕ → List ℕ → List ℕ
add_ordered h items = if seen_in h items then items else items ++ h ∷ []

rollback_edges : List (ℕ × ℕ) → Scope → Scope
rollback_edges [] s = s
rollback_edges ((from, to) ∷ edges) s = rollback_edges edges (unlink_edge from to s).0

rollback_created : List ℕ → Scope → Scope
rollback_created [] s = s
rollback_created (h ∷ created) s =
    let s1 = drop_total (leave_bucket h s) in
    rollback_created created (release h (record s1 { index = erase (s1.recs h).id s1.index }))

unfoldable pub rollback : Journal → Scope → Scope
unfolding rollback_edges rollback_created
rollback j s = rollback_created j.created (rollback_edges j.edges s)

-- A node in the blocked phase, with the next rank.
unfoldable pub create : NodeSpec → ℕ → Scope → Scope × ℕ
create spec at s0 =
    let (s1, h) = alloc s0 in
    let r : NodeRec = record blank {
      id = spec.id;
      kind = spec.kind;
      priority = spec.priority;
      trigger = spec.trigger;
      retry = spec.retry;
      status = Status.new;
      phase = Phase.blocked;
      alive = true;
      epoch = s1.epoch_floor;
      created_at = at;
      updated_at = at;
      payload = spec.payload;
      labels = spec.labels;
    } in
    let s2 = record (put_rec h r s1) {
      index = insert spec.id h s1.index;
      next_ord = suc s1.next_ord;
      ord = update s1.ord h (suc s1.next_ord);
      stats = record s1.stats { total = inc64 s1.stats.total };
    } in
    (enter_bucket h s2, h)

abbrev id_of : Scope → ℕ → Text
id_of s h = (s.recs h).id

abbrev cycle_between : Scope → ℕ → ℕ → List ℕ → Error
cycle_between s from to path = cycle_error s.name (id_of s from) (id_of s to) (map (id_of s) path)

-- The loop over the specifications, with the identifiers already seen.
validate_specs : ScopeConfig → List Text → List NodeSpec → Result (Unit {0})
validate_specs cfg seen [] = ok tt
validate_specs cfg seen (spec ∷ specs) =
    validate_spec spec
    >> (if ltb_ℤ cfg.payload_cap (pos (length spec.payload))
        then err (payload_too_large_error (length spec.payload) (pos_part cfg.payload_cap))
        else ok tt)
    >> (if member spec.id seen then err (plain err_invalid_argument) else ok tt)
    >> validate_specs cfg (spec.id ∷ seen) specs

unfoldable pub validate_batch : ScopeConfig → List NodeSpec → Result (Unit {0})
unfolding validate_specs
validate_batch cfg specs =
    if ltb_ℤ cfg.max_batch_size (pos (length specs))
    then err (plain err_invalid_argument)
    else validate_specs cfg [] specs

-- RetryPolicy values compared field by field; priorities and delays are integers.
int_eq : ℤ → ℤ → Bool
int_eq a b = leb_ℤ a b && leb_ℤ b a

trigger_eq : TriggerRule → TriggerRule → Bool
trigger_eq TriggerRule.all_success TriggerRule.all_success = true
trigger_eq TriggerRule.all_done TriggerRule.all_done = true
trigger_eq TriggerRule.none_failed TriggerRule.none_failed = true
trigger_eq TriggerRule.none_failed_min_one_success TriggerRule.none_failed_min_one_success = true
trigger_eq TriggerRule.always TriggerRule.always = true
trigger_eq (TriggerRule.unknown m) (TriggerRule.unknown n) = m == n
trigger_eq _ _ = false

retry_eq : RetryPolicy → RetryPolicy → Bool
retry_eq r q =
    r.max_attempts == q.max_attempts
    && int_eq r.base_delay q.base_delay
    && int_eq r.max_delay q.max_delay

-- maps.Equal: as many entries, and each of the first in the second.
labels_within : List (Text × Text) → List (Text × Text) → Bool
labels_within [] m = true
labels_within ((k, v) ∷ l) m =
    elim (lookup k m) [ none ↦ false | some w ↦ text_eq v w ] && labels_within l m

labels_eq : List (Text × Text) → List (Text × Text) → Bool
labels_eq l m = length l == length m && labels_within l m

-- Whether a node was created from an identical definition.
unfoldable pub spec_matches : ℕ → NodeSpec → Scope → Bool
unfolding int_eq trigger_eq retry_eq labels_eq labels_within
spec_matches h spec s =
    let r = s.recs h in
    text_eq r.kind spec.kind
    && int_eq r.priority spec.priority
    && trigger_eq r.trigger spec.trigger
    && retry_eq r.retry spec.retry
    && text_eq r.payload spec.payload
    && labels_eq r.labels spec.labels

-- The scope and the journal of a batch under way.
abbrev pub Batch : Type 0
Batch = Scope × Journal

-- Creates the nodes that do not exist yet; `fresh` in the order of creation.
unfoldable pub materialise : ℕ → List NodeSpec → List ℕ → Batch → Batch × Result (List ℕ)
materialise at [] fresh (s, j) = ((s, j), ok fresh)
materialise at (spec ∷ specs) fresh (s, j) = elim (lookup spec.id s.index) [
  | some h ↦
      let rest = materialise at specs fresh (s, j) in
      if not (spec_matches h spec s) then ((s, j), err (plain err_id_conflict)) else rest
  | none ↦
      let (s', h) = create spec at s in
      materialise at specs (fresh ++ h ∷ []) (s', record j { created = h ∷ j.created })
]

-- The part of the loops that a new edge goes through, once both ends are known.
unfoldable pub connect : ℕ → ℕ → Batch → Batch × Result (Unit {0})
connect from to (s, j) =
    let (s', res) = add_edge_order from to s in
    let linked : Batch = (link_edge from to s', record j { edges = (from, to) ∷ j.edges }) in
    if is_done (s.recs to).phase
    then ((s, j), err (plain err_already_terminal))
    else elim res.cycle_path [
      | some path ↦ ((s', j), err (cycle_between s' from to path))
      | none ↦ (linked, ok tt)
    ]

-- The loop over one specification's dependencies.
link_deps : ℕ → List Text → Batch → Batch × Result (Unit {0})
link_deps to [] (s, j) = ((s, j), ok tt)
link_deps to (dep ∷ deps) (s, j) = elim (lookup dep s.index) [
  | none ↦ ((s, j), err (plain err_not_found))
  | some from ↦
      let skip = link_deps to deps (s, j) in
      let (b, r) = connect from to (s, j) in
      let linked = link_deps to deps b in
      if has_edge from to s then skip else elim r [ ok u ↦ linked | err e ↦ (b, err e) ]
]

-- `touched` in the order of insertion. s.index[spec.ID] is 0 for a missing key.
unfoldable pub link_batch : List NodeSpec → List ℕ → Batch → Batch × Result (List ℕ)
unfolding link_deps
link_batch [] touched b = (b, ok touched)
link_batch (spec ∷ specs) touched (s, j) =
    let to : ℕ = elim (lookup spec.id s.index) [ none ↦ 0 | some h ↦ h ] in
    let (b, r) = link_deps to spec.deps (s, j) in
    let rest = link_batch specs (add_ordered to touched) b in
    elim r [ ok u ↦ rest | err e ↦ (b, err e) ]
