-- ===== src/Memory/Snapshot/Restore.antt =====
-- storage/memory/snapshot.go: restoreScope. The indexes are rebuilt, and the event log starts empty
-- behind the last event.
use dagworker.Base.{
  ℕ, zero, suc, true, none, some, List, [], ◌∷◌, Text, lookup, insert, update, inc64,
}
use dagworker.Errors.{Error, Result, ok, err, invalid_argument_error}
use dagworker.Status.{Phase}
use dagworker.Pq
use dagworker.Memory.State.{Scope, NodeRec, PredEdge, new_scope}
use dagworker.Memory.Heaps.{push_ready, lease_less, scheduled_less}
use dagworker.Memory.Snapshot.Taken.{NodeSnapshot, PredSnapshot, ScopeSnapshot}

unfoldable pub record_of : NodeSnapshot → NodeRec
record_of n = record {
  id = n.id;
  kind = n.kind;
  message = n.message;
  worker = n.worker;
  payload = n.payload;
  result = n.result;
  labels = n.labels;
  retry = n.retry;
  deps = n.deps;
  seq = n.seq;
  epoch = n.epoch;
  attempt = n.attempt;
  priority = n.priority;
  status = n.status;
  reason = n.reason;
  phase = n.phase;
  trigger = n.trigger;
  alive = true;
  created_at = n.created_at;
  updated_at = n.updated_at;
}

abbrev pub invalid : Error
invalid = invalid_argument_error "snapshot"

-- One node in the next slot, which is at the handle given.
unfoldable pub place : NodeSnapshot → ℕ → Scope → Scope
unfolding record_of
place n h s = record s {
  index = insert n.id h s.index;
  slots = suc h;
  recs = update s.recs h (record_of n);
  ord = update s.ord h n.ord;
  deadline = update s.deadline h n.deadline;
  ready_at = update s.ready_at h n.ready_at;
  fifo = update s.fifo h n.fifo;
}

-- The loop over the nodes.
unfoldable pub place_all : List NodeSnapshot → ℕ → Scope → Result Scope
unfolding place
place_all [] h s = ok s
place_all (n ∷ ns) h s = elim (lookup n.id s.index) [
  | none ↦ place_all ns (suc h) (place n h s)
  | some k ↦ err invalid
]

-- The handles that a list of identifiers stands for.
unfoldable pub handles_of : List Text → Scope → Result (List ℕ)
handles_of [] s = ok []
handles_of (id ∷ ids) s = elim (lookup id s.index) [
  | none ↦ err invalid
  | some h ↦ elim (handles_of ids s) [ err e ↦ err e | ok hs ↦ ok (h ∷ hs) ]
]

unfoldable pub preds_of : List PredSnapshot → Scope → Result (List PredEdge)
preds_of [] s = ok []
preds_of (p ∷ ps) s = elim (lookup p.from s.index) [
  | none ↦ err invalid
  | some h ↦ elim (preds_of ps s) [
    | err e ↦ err e
    | ok es ↦ ok (record { from = h; satisfied = p.satisfied } ∷ es)
  ]
]

-- The loop over the edges, the ends of which all have handles by now.
unfoldable pub connect_all : List NodeSnapshot → ℕ → Scope → Result Scope
unfolding handles_of preds_of
connect_all [] h s = ok s
connect_all (n ∷ ns) h s = elim (handles_of n.succ s) [
  | err e ↦ err e
  | ok ws ↦ elim (preds_of n.pred s) [
    | err e ↦ err e
    | ok es ↦
        connect_all ns (suc h) (record s { succ = update s.succ h ws; pred = update s.pred h es })
  ]
]

-- A node in the index that its phase asks for.
unfoldable pub file_by : Phase → ℕ → Scope → Scope
file_by Phase.ready h s = push_ready h s
file_by Phase.claimed h s = record s { leases = Pq.push (lease_less s) h s.leases }
file_by Phase.scheduled h s = record s { scheduled = Pq.push (scheduled_less s) h s.scheduled }
file_by Phase.blocked h s = s
file_by Phase.done h s = s
file_by (Phase.unknown n) h s = s

unfoldable pub file_all : ℕ → ℕ → Scope → Scope
unfolding file_by
file_all zero h s = s
file_all (suc n) h s = file_all n (suc h) (file_by (s.recs h).phase h s)

-- The scope before the loops.
unfoldable pub start_of : ℕ → ScopeSnapshot → Scope
start_of log_cap ss = record (new_scope ss.name log_cap ss.config) {
  sealed = ss.sealed;
  epoch_floor = ss.epoch_floor;
  next_ord = ss.next_ord;
  next_fifo = ss.next_fifo;
  cursor = ss.cursor;
  stats = ss.stats;
  log_start = inc64 ss.cursor;
}

unfoldable pub restore_scope : ℕ → ScopeSnapshot → Result Scope
unfolding start_of place_all connect_all file_all
restore_scope log_cap ss = elim (place_all ss.nodes 0 (start_of log_cap ss)) [
  | err e ↦ err e
  | ok s1 ↦ elim (connect_all ss.nodes 0 s1) [ err e ↦ err e | ok s2 ↦ ok (file_all s2.slots 0 s2) ]
]
