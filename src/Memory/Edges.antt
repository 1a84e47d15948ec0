-- ===== src/Memory/Edges.antt =====
-- storage/memory/scope.go and memory.go: the edges, and the tally of each node's predecessors.
use dagworker.Base.{
  ℕ, ◌-◌, Bool, true, false, not, ◌||◌, Option, none, some, List, [], ◌∷◌, ◌++◌, ◌==◌,
  if◌then◌else◌, any, update, inc32,
}
use dagworker.Status.{Status, Reason}
use dagworker.Trigger.{DepCounts}
use dagworker.Memory.State.{Scope, PredEdge, put_rec, is_done}

abbrev pub is_success : Status → Bool
is_success Status.success = true
is_success _ = false

abbrev pub is_skipped : Reason → Bool
is_skipped Reason.skipped = true
is_skipped _ = false

abbrev pub put_deps : ℕ → DepCounts → Scope → Scope
put_deps h d s = put_rec h (record (s.recs h) { deps = d }) s

-- One more resolved predecessor, by how it ended.
unfoldable pub count_outcome : Status → Reason → DepCounts → DepCounts
count_outcome status reason d =
    if is_success status
    then record d { succeeded = inc32 d.succeeded }
    else if is_skipped reason
    then record d { skipped = inc32 d.skipped }
    else record d { failed = inc32 d.failed }

-- One resolved predecessor fewer; no counter goes below zero.
unfoldable pub uncount_outcome : Status → Reason → DepCounts → DepCounts
uncount_outcome status reason d =
    if is_success status
    then record d { succeeded = d.succeeded - 1 }
    else if is_skipped reason
    then record d { skipped = d.skipped - 1 }
    else record d { failed = d.failed - 1 }

unfoldable pub fewer_unsatisfied : DepCounts → DepCounts
fewer_unsatisfied d = record d { unsatisfied = d.unsatisfied - 1 }

-- The edges with the first unsatisfied one from `pred` marked, if there is one.
unfoldable pub mark_edge : ℕ → List PredEdge → Option (List PredEdge)
mark_edge pred [] = none
mark_edge pred (e ∷ edges) =
    let rest = mark_edge pred edges in
    if not (e.from == pred) || e.satisfied
    then elim rest [ none ↦ none | some edges' ↦ some (e ∷ edges') ]
    else some (record e { satisfied = true } ∷ edges)

-- The scope with a node's edges written, one of them newly marked, and its tally moved on.
unfoldable pub marked : ℕ → Status → Reason → List PredEdge → Scope → Scope
unfolding count_outcome fewer_unsatisfied
marked succ status reason edges s =
    let d = count_outcome status reason (fewer_unsatisfied (s.recs succ).deps) in
    put_deps succ d (record s { pred = update s.pred succ edges })

-- The scope after the edge is marked; `none` where nothing changed.
unfoldable pub mark_satisfied : ℕ → ℕ → Status → Reason → Scope → Option Scope
mark_satisfied succ pred status reason s = elim (mark_edge pred (s.pred succ)) [
  | none ↦ none
  | some edges ↦ some (marked succ status reason edges s)
]

unfoldable pub has_edge : ℕ → ℕ → Scope → Bool
has_edge from to s = any (λ e. e.from == from) (s.pred to)

unfoldable pub link_edge : ℕ → ℕ → Scope → Scope
unfolding count_outcome
link_edge from to s0 =
    let pr = s0.recs from in
    let satisfied = is_done pr.phase in
    let edge : PredEdge = record { from = from; satisfied = satisfied } in
    let s1 = record s0 {
      pred = update s0.pred to (s0.pred to ++ edge ∷ []);
      succ = update s0.succ from (s0.succ from ++ to ∷ []);
    } in
    let d = (s1.recs to).deps in
    put_deps to
      (if not satisfied
        then record d { unsatisfied = inc32 d.unsatisfied }
        else count_outcome pr.status pr.reason d)
      s1

-- The first edge from a node, and the edges without it.
unfoldable pub take_edge : ℕ → List PredEdge → Option (PredEdge × List PredEdge)
take_edge from [] = none
take_edge from (e ∷ edges) =
    let rest = take_edge from edges in
    if e.from == from
    then some (e, edges)
    else elim rest [ none ↦ none | some (found, edges') ↦ some (found, e ∷ edges') ]

-- The list without the first occurrence of a handle.
unfoldable pub without : ℕ → List ℕ → List ℕ
without to [] = []
without to (w ∷ outs) = if w == to then outs else w ∷ without to outs

unfoldable pub detach_succ : ℕ → ℕ → Scope → Scope
unfolding without
detach_succ from to s = record s { succ = update s.succ from (without to (s.succ from)) }

-- The scope without the edge, and whether there was one.
unfoldable pub unlink_edge : ℕ → ℕ → Scope → Scope × Bool
unfolding uncount_outcome fewer_unsatisfied without
unlink_edge from to s0 = elim (take_edge from (s0.pred to)) [
  | none ↦ (s0, false)
  | some (e, edges) ↦
      let s1 = record s0 { pred = update s0.pred to edges } in
      let d = (s1.recs to).deps in
      let pr = s1.recs from in
      let d' : DepCounts =
        if not e.satisfied then fewer_unsatisfied d else uncount_outcome pr.status pr.reason d in
      let s2 = put_deps to d' s1 in
      (record s2 { succ = update s2.succ from (without to (s2.succ from)) }, true)
]
