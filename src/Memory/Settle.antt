-- ===== src/Memory/Settle.antt =====
-- storage/memory/scope.go: the engine that applies trigger rules: promote, settle and terminate.
use dagworker.Base.{
  ℕ, zero, suc, ◌+◌, Bool, not, ◌&&◌, ◌||◌, none, some, List, [], ◌∷◌, ◌++◌, ltb, if◌then◌else◌,
  length, Text, codes, update,
}
use dagworker.Status.{Status, Reason, Phase}
use dagworker.Trigger.{ready, unsatisfiable, terminal_reason}
use dagworker.Event.{EventKind}
use dagworker.Pq
use dagworker.Memory.State.{
  Env, Scope, put_rec, now, after_now, leave_bucket, enter_bucket, is_done, is_ready, is_blocked,
}
use dagworker.Memory.Heaps.{
  scheduled_less, remove_ready, remove_scheduled, remove_lease, make_ready, make_blocked,
}
use dagworker.Memory.Log.{Progress, emit}
use dagworker.Memory.Edges.{mark_satisfied}

-- Releases every node whose backoff has elapsed. Each round takes one node off the heap, so its
-- size is fuel enough.
unfoldable pub promote_loop : ℕ → Env → ℕ → Progress → Progress
promote_loop zero env at p = p
promote_loop (suc fuel) env at (s, out) = elim (Pq.pop (scheduled_less s) s.scheduled) [
  | none ↦ (s, out)
  | some (h, rest) ↦
      let p' =
        emit env h EventKind.ready Status.new (make_ready h (record s { scheduled = rest }), out) in
      let later = promote_loop fuel env at p' in if ltb at (s.ready_at h) then (s, out) else later
]

unfoldable pub promote_scheduled : Env → ℕ → Progress → Progress
promote_scheduled env at (s, out) = promote_loop (Pq.len s.scheduled) env at (s, out)

unfoldable pub terminal_message : Reason → Text
terminal_message Reason.upstream_failed =
    codes "a predecessor failed and the trigger rule can no longer be satisfied"
terminal_message Reason.skipped = codes "the trigger rule can no longer be satisfied"
terminal_message Reason.removed = codes "a predecessor was removed"
terminal_message Reason.cancelled = codes "cancelled"
terminal_message _ = []

-- A node to end, and how.
pub record Item : Type 0 where
  pub handle : ℕ
  pub status : Status
  pub reason : Reason
  pub message : Text

-- Ends one node: it leaves its heaps and its counter, and its record says how it ended.
unfoldable pub finish : Env → Item → Scope → Scope
unfolding remove_ready remove_scheduled remove_lease leave_bucket enter_bucket
finish env it s0 =
    let h = it.handle in
    let s1 = remove_lease h (remove_scheduled h (remove_ready h (leave_bucket h s0))) in
    let s2 = record s1 { deadline = update s1.deadline h 0; ready_at = update s1.ready_at h 0 } in
    let r = record (s2.recs h) {
      phase = Phase.done;
      status = it.status;
      reason = it.reason;
      message = it.message;
      updated_at = now env s2;
    } in
    enter_bucket h (put_rec h r (after_now s2))

-- A node that waits for its rule: blocked or ready.
abbrev pub is_waiting : Phase → Bool
is_waiting phase = is_blocked phase || is_ready phase

-- The end of a node whose rule can no longer hold.
unfoldable pub doomed : ℕ → Scope → Item
doomed h s =
    let reason = terminal_reason (s.recs h).deps in
    record { handle = h; status = Status.error; reason = reason; message = terminal_message reason }

-- What the resolution of a predecessor does to one successor, whose tally has just moved.
unfoldable pub react : Env → ℕ → Progress → List Item → Progress × List Item
react env w (s, out) queue =
    let r = s.recs w in
    if not (is_waiting r.phase)
    then ((s, out), queue)
    else if unsatisfiable r.trigger r.deps
    then ((s, out), queue ++ doomed w s ∷ [])
    else if ready r.trigger r.deps && not (is_ready r.phase)
    then (emit env w EventKind.ready Status.new (make_ready w s, out), queue)
    else ((s, out), queue)

unfoldable pub tell : Env → ℕ → Status → Reason → ℕ → Progress → List Item → Progress × List Item
unfolding react
tell env from status reason w (s, out) queue = elim (mark_satisfied w from status reason s) [
  | none ↦ ((s, out), queue)
  | some s' ↦ react env w (s', out) queue
]

unfoldable pub fan_out :
    Env → ℕ → Status → Reason → List ℕ → Progress → List Item → Progress × List Item
fan_out env from status reason [] p queue = (p, queue)
fan_out env from status reason (w ∷ ws) p queue =
    let (p', queue') = tell env from status reason w p queue in
    fan_out env from status reason ws p' queue'

-- The node of an item ended, and its event.
unfoldable pub ended : Env → Item → Progress → Progress
ended env it (s, out) =
    emit env it.handle EventKind.transition (s.recs it.handle).status (finish env it s, out)

-- Whether an item's node is gone, or over already.
abbrev pub is_over : Item → Scope → Bool
is_over it s = not (s.recs it.handle).alive || is_done (s.recs it.handle).phase

-- One item off the queue.
unfoldable pub terminate_step : Env → Item → List Item → Progress → Progress × List Item
terminate_step env it queue (s, out) =
    let p = ended env it (s, out) in
    if is_over it s
    then ((s, out), queue)
    else fan_out env it.handle it.status it.reason (p.0.succ it.handle) p queue

-- The queue that is left is empty where the fuel was enough.
unfoldable pub terminate_loop : ℕ → Env → List Item → Progress → Progress × List Item
terminate_loop zero env queue p = (p, queue)
terminate_loop (suc fuel) env [] p = (p, [])
terminate_loop (suc fuel) env (it ∷ queue) p =
    let (p', queue') = terminate_step env it queue p in terminate_loop fuel env queue' p'

-- The edges that leave the first slots.
unfoldable pub out_degrees : ℕ → (ℕ → List ℕ) → ℕ
out_degrees zero succ = 0
out_degrees (suc n) succ = length (succ n) + out_degrees n succ

-- Every node is ended once at most, and puts its successors on the queue then.
unfoldable pub terminate : Env → Item → Progress → Progress
terminate env it (s, out) =
    (terminate_loop (suc (out_degrees s.slots s.succ)) env (it ∷ []) (s, out)).0

-- Moves a node to whichever state its rule implies.
unfoldable pub settle : Env → ℕ → Progress → Progress
settle env h (s, out) =
    let r = s.recs h in
    if not (is_waiting r.phase)
    then (s, out)
    else if unsatisfiable r.trigger r.deps
    then terminate env (doomed h s) (s, out)
    else if ready r.trigger r.deps
    then (if is_ready r.phase
        then (s, out)
        else emit env h EventKind.ready Status.new (make_ready h s, out))
    else if is_blocked r.phase
    then (s, out)
    else (make_blocked h s, out)

-- for _, h := range touched.items { effects = s.settle(h, effects) }
unfoldable pub settle_all : Env → List ℕ → Progress → Progress
settle_all env [] p = p
settle_all env (h ∷ hs) p = settle_all env hs (settle env h p)
