-- ===== src/Memory/Change.antt =====
-- storage/memory/graph.go: the storage port's operations on the graph, each under the scope's lock.
-- An operation returns the scope, and its effects with the error that stopped it, if any.
use dagworker.Base.{
  ℕ, Bool, true, false, not, ◌&&◌, Option, none, some, List, [], ◌∷◌, map, ◌==◌, if◌then◌else◌,
  is_empty, Text, lookup, erase, filter,
}
use dagworker.Errors.{
  Error, Result, ok, err, plain, err_not_found, err_cycle, err_scope_sealed, err_node_in_flight,
  err_has_successors,
}
use dagworker.Status.{Status, Reason}
use dagworker.Config.{resolved}
use dagworker.Node.{NodeSpec, CascadePolicy}
use dagworker.Event.{EventKind, Effect}
use dagworker.Memory.State.{
  Env, Scope, PredEdge, now, after_now, release, leave_bucket, refresh_complete, drop_total,
  is_done, is_claimed,
}
use dagworker.Memory.Heaps.{remove_ready, remove_scheduled, remove_lease}
use dagworker.Memory.Log.{Progress, emit}
use dagworker.Memory.Edges.{has_edge, unlink_edge}
use dagworker.Memory.Settle.{terminal_message, terminate, settle_all}
use dagworker.Memory.Graph.{
  Edge, Batch, empty_journal, add_ordered, rollback, validate_batch, materialise, connect,
  link_batch,
}

-- How an operation ends: the scope, the effects that it returns, and its error.
abbrev pub Outcome : Type 0
Outcome = Scope × List Effect × Option Error

abbrev pub refused : Scope → Error → Outcome
refused s e = (s, [], some e)

abbrev pub finished : Progress → Outcome
finished (s, out) = (s, out, none)

-- The deferred rollback of a batch that stopped before it was committed.
abbrev abort : Batch → Error → Outcome
abort (s, j) e = refused (rollback j s) e

unfoldable pub announce : Env → List ℕ → Progress → Progress
announce env [] p = p
announce env (h ∷ fresh) p = announce env fresh (emit env h EventKind.created Status.new p)

-- The part of AddNodes after validation.
unfoldable pub add_batch : Env → List NodeSpec → Scope → Outcome
unfolding announce
add_batch env specs s =
    let (b1, made) = materialise (now env s) specs [] (after_now s, empty_journal) in
    let (b2, linked) = link_batch specs [] b1 in
    elim made [
      | err e ↦ abort b1 e
      | ok fresh ↦ elim linked [
        | err e ↦ abort b2 e
        | ok touched ↦
            let (s', out) = settle_all env touched (announce env fresh (b2.0, [])) in
            finished (refresh_complete s', out)
      ]
    ]

unfoldable pub add_nodes : Env → List NodeSpec → Scope → Outcome
add_nodes env specs s =
    if s.sealed
    then refused s (plain err_scope_sealed)
    else elim (validate_batch (resolved s.cfg) specs) [
      | err e ↦ refused s e
      | ok u ↦ add_batch env specs s
    ]

-- The loop over the edges to add, with the nodes touched so far.
unfoldable pub link_edges : List Edge → List ℕ → Batch → Batch × Result (List ℕ)
link_edges [] touched b = (b, ok touched)
link_edges (e ∷ edges) touched (s, j) = elim (lookup e.from s.index) [
  | none ↦ ((s, j), err (plain err_not_found))
  | some from ↦ elim (lookup e.to s.index) [
    | none ↦ ((s, j), err (plain err_not_found))
    | some to ↦
        let skip = link_edges edges touched (s, j) in
        let (b, r) = connect from to (s, j) in
        let rest = link_edges edges (add_ordered to touched) b in
        if from == to
        then ((s, j), err (plain err_cycle))
        else if has_edge from to s
        then skip
        else elim r [ ok u ↦ rest | err error ↦ (b, err error) ]
  ]
]

unfoldable pub add_edges : Env → List Edge → Scope → Outcome
add_edges env edges s =
    let (b, linked) = link_edges edges [] (s, empty_journal) in
    elim linked [ err e ↦ abort b e | ok touched ↦ finished (settle_all env touched (b.0, [])) ]

-- The loop over the edges to remove.
unfoldable pub unlink_edges : List Edge → List ℕ → Scope → Scope × Result (List ℕ)
unlink_edges [] touched s = (s, ok touched)
unlink_edges (e ∷ edges) touched s = elim (lookup e.from s.index) [
  | none ↦ (s, err (plain err_not_found))
  | some from ↦ elim (lookup e.to s.index) [
    | none ↦ (s, err (plain err_not_found))
    | some to ↦
        let (s', removed) = unlink_edge from to s in
        unlink_edges edges (if removed then add_ordered to touched else touched) s'
  ]
]

-- Edges removed before a missing node is met stay removed, and their targets are not settled.
unfoldable pub remove_edges : Env → List Edge → Scope → Outcome
remove_edges env edges s =
    let (s', unlinked) = unlink_edges edges [] s in
    elim unlinked [ err e ↦ refused s' e | ok touched ↦ finished (settle_all env touched (s', [])) ]

-- Ends every node of a list for one reason.
unfoldable pub terminate_all : Env → Reason → List ℕ → Progress → Progress
terminate_all env reason [] p = p
terminate_all env reason (w ∷ ws) p = terminate_all env reason ws (
    terminate env
      (record {
        handle = w;
        status = Status.error;
        reason = reason;
        message = terminal_message reason;
      })
      p)

unlink_out : ℕ → List ℕ → Scope → Scope
unlink_out h [] s = s
unlink_out h (w ∷ ws) s = unlink_out h ws (unlink_edge h w s).0

unlink_in : ℕ → List PredEdge → Scope → Scope
unlink_in h [] s = s
unlink_in h (e ∷ es) s = unlink_in h es (unlink_edge e.from h s).0

-- Takes a node with no edges out of the scope.
unfoldable pub discard : ℕ → Text → Scope → Scope
discard h id s0 =
    let s1 = drop_total (leave_bucket h s0) in release h (record s1 { index = erase id s1.index })

is_fail : CascadePolicy → Bool
is_fail CascadePolicy.fail = true
is_fail _ = false

is_detach : CascadePolicy → Bool
is_detach CascadePolicy.detach = true
is_detach _ = false

is_reject : CascadePolicy → Bool
is_reject CascadePolicy.reject = true
is_reject _ = false

-- RemoveNode once the policy has let it through.
detach_node : Env → ℕ → Text → CascadePolicy → Progress → Progress
detach_node env h id policy (s0, out) =
    let successors = s0.succ h in
    let s1 = unlink_out h successors s0 in
    let s2 = unlink_in h (s1.pred h) s1 in
    let s3 = discard h id (remove_lease h (remove_scheduled h (remove_ready h s2))) in
    let (s4, out') = settle_all env successors (s3, out) in
    let (s5, out'') : Progress = if is_detach policy then (s4, out') else (s3, out) in
    (refresh_complete s5, out'')

unfoldable pub remove_node : Env → Text → CascadePolicy → Scope → Outcome
unfolding is_fail is_detach is_reject detach_node unlink_out unlink_in discard
remove_node env id policy s = elim (lookup id s.index) [
  | none ↦ refused s (plain err_not_found)
  | some h ↦
      let successors = s.succ h in
      let failed = terminate_all env Reason.removed successors (s, []) in
      if is_claimed (s.recs h).phase
      then refused s (plain err_node_in_flight)
      else if not (is_empty successors) && is_reject policy
      then refused s (plain err_has_successors)
      else if not (is_empty successors) && is_fail policy
      then finished (detach_node env h id policy failed)
      else finished (detach_node env h id policy (s, []))
]

-- The loop over the identifiers to cancel. A missing one stops it, with the effects so far.
unfoldable pub cancel_loop : Env → List Text → Progress → Outcome
cancel_loop env [] (s, out) = finished (refresh_complete s, out)
cancel_loop env (id ∷ ids) (s, out) = elim (lookup id s.index) [
  | none ↦ (s, out, some (plain err_not_found))
  | some h ↦ cancel_loop env ids (
      if is_done (s.recs h).phase
      then (s, out)
      else terminate_all env Reason.cancelled (h ∷ []) (s, out))
]

unfoldable pub cancel : Env → List Text → Scope → Outcome
unfolding cancel_loop
cancel env ids s = cancel_loop env ids (s, [])

-- The second loop of CancelScope.
unfoldable pub cancel_live : Env → List ℕ → Progress → Progress
cancel_live env [] p = p
cancel_live env (h ∷ live) (s, out) = cancel_live env live (
    if is_done (s.recs h).phase
    then (s, out)
    else terminate_all env Reason.cancelled (h ∷ []) (s, out))

-- `order` is the order in which the range over the index yields its entries.
unfoldable pub cancel_scope : Env → List (Text × ℕ) → Scope → Outcome
unfolding cancel_live
cancel_scope env order s =
    let live = filter (λ h. not (is_done (s.recs h).phase)) (map (λ e. e.1) order) in
    let (s', out) = cancel_live env live (s, []) in finished (refresh_complete s', out)
