-- ===== src/Memory/Snapshot/Taken.antt =====
-- storage/memory/snapshot.go: a scope's state in a form that names nodes by their identifiers.
use dagworker.Base.{ℕ, zero, suc, Bool, List, [], ◌∷◌, map, if◌then◌else◌, Text, ℤ}
use dagworker.Status.{Status, Reason, Phase}
use dagworker.Trigger.{TriggerRule, DepCounts}
use dagworker.Config.{ScopeConfig}
use dagworker.Node.{RetryPolicy}
use dagworker.Memory.Snapshot.Sorted.{sort_by}
use dagworker.Memory.State.{Scope, ScopeStats, PredEdge}

pub record PredSnapshot : Type 0 where
  pub from : Text
  pub satisfied : Bool

pub record NodeSnapshot : Type 0 where
  pub id : Text
  pub kind : Text
  pub message : Text
  pub worker : Text
  pub payload : Text
  pub result : Text
  pub labels : List (Text × Text)
  pub retry : RetryPolicy
  pub deps : DepCounts
  pub seq : ℕ
  pub epoch : ℕ
  pub attempt : ℕ
  pub priority : ℤ
  pub status : Status
  pub reason : Reason
  pub phase : Phase
  pub trigger : TriggerRule
  pub created_at : ℕ
  pub updated_at : ℕ
  pub ord : ℕ
  pub deadline : ℕ
  pub ready_at : ℕ
  pub fifo : ℕ
  pub succ : List Text
  pub pred : List PredSnapshot

pub record ScopeSnapshot : Type 0 where
  pub name : Text
  pub config : ScopeConfig
  pub sealed : Bool
  pub epoch_floor : ℕ
  pub next_ord : ℕ
  pub next_fifo : ℕ
  pub cursor : ℕ
  pub stats : ScopeStats
  pub nodes : List NodeSnapshot

unfoldable pub named_pred : Scope → PredEdge → PredSnapshot
named_pred s e = record { from = (s.recs e.from).id; satisfied = e.satisfied }

-- One node of the scope.
unfoldable pub node_snapshot : ℕ → Scope → NodeSnapshot
unfolding named_pred
node_snapshot h s =
    let r = s.recs h in
    record {
      id = r.id;
      kind = r.kind;
      message = r.message;
      worker = r.worker;
      payload = r.payload;
      result = r.result;
      labels = r.labels;
      retry = r.retry;
      deps = r.deps;
      seq = r.seq;
      epoch = r.epoch;
      attempt = r.attempt;
      priority = r.priority;
      status = r.status;
      reason = r.reason;
      phase = r.phase;
      trigger = r.trigger;
      created_at = r.created_at;
      updated_at = r.updated_at;
      ord = s.ord h;
      deadline = s.deadline h;
      ready_at = s.ready_at h;
      fifo = s.fifo h;
      succ = map (λ w. (s.recs w).id) (s.succ h);
      pred = map (named_pred s) (s.pred h);
    }

-- The live nodes among as many slots from one on.
unfoldable pub live_nodes : ℕ → ℕ → Scope → List NodeSnapshot
unfolding node_snapshot
live_nodes zero h s = []
live_nodes (suc n) h s =
    let rest = live_nodes n (suc h) s in if (s.recs h).alive then node_snapshot h s ∷ rest else rest

abbrev pub node_id : NodeSnapshot → Text
node_id n = n.id

unfoldable pub snapshot_scope : Scope → ScopeSnapshot
unfolding live_nodes sort_by
snapshot_scope s = record {
  name = s.name;
  config = s.cfg;
  sealed = s.sealed;
  epoch_floor = s.epoch_floor;
  next_ord = s.next_ord;
  next_fifo = s.next_fifo;
  cursor = s.cursor;
  stats = s.stats;
  nodes = sort_by node_id (live_nodes s.slots 0 s);
}
