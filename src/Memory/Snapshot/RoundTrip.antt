-- ===== src/Memory/Snapshot/RoundTrip.antt =====
-- snapshot.go: a snapshot that is restored and taken again.
pub mod Place
pub mod Connect
pub mod Export
use dagworker.Base.{
  ℕ, zero, suc, ◌+◌, ◌<◌, ◌≡◌, refl, sym, ap, subst, ◌∙◌, Bool, true, false, Option, none, some,
  List, [], ◌∷◌, if◌then◌else◌, map, Text, text_eq, text_lt, lookup, All, length, arith,
}
use dagworker.Errors.{Result, ok, err}
use dagworker.Status.{Phase}
use dagworker.Memory.State.{Scope, NodeRec, new_scope}
use dagworker.Memory.Heaps.{push_ready}
use dagworker.Memory.Snapshot.Taken.{
  NodeSnapshot, PredSnapshot, ScopeSnapshot, node_snapshot, named_pred, live_nodes, node_id,
  snapshot_scope,
}
use dagworker.Memory.Snapshot.Sorted.{Ordered, IsListed, sort_by, sort_by-fixed}
use dagworker.Memory.Snapshot.Restore.{
  record_of, place_all, connect_all, file_by, file_all, start_of, restore_scope,
}
use dagworker.Memory.Snapshot.RoundTrip.Place.{
  Cells, cells_of, Holds, Stands, Found, Placed, place_all-Placed,
}
use dagworker.Memory.Snapshot.RoundTrip.Export.{Closed, IsExport, Indexed, snapshot_scope-IsExport}
use dagworker.Memory.Snapshot.RoundTrip.Connect.{
  Joins, Joined, Known, Connected, connect_all-Connected,
}

file_by-frame :
    (p : Phase) (h : ℕ) (s : Scope)
    → file_by p h s ≡ record s {
      ready = (file_by p h s).ready;
      leases = (file_by p h s).leases;
      scheduled = (file_by p h s).scheduled;
    }
unfolding file_by push_ready
file_by-frame Phase.ready h s = refl
file_by-frame Phase.claimed h s = refl
file_by-frame Phase.scheduled h s = refl
file_by-frame Phase.blocked h s = refl
file_by-frame Phase.done h s = refl
file_by-frame (Phase.unknown n) h s = refl

file_all-frame :
    (n h : ℕ) (s : Scope)
    → let t = file_all n h s in
      t ≡ record s { ready = t.ready; leases = t.leases; scheduled = t.scheduled }
unfolding file_all
file_all-frame zero h s = refl
file_all-frame (suc n) h s =
    let s' = file_by (s.recs h).phase h s in
    let t = file_all n (suc h) s' in
    file_all-frame n (suc h) s'
    ∙ ap (λ (q : Scope). record q { ready = t.ready; leases = t.leases; scheduled = t.scheduled })
        (file_by-frame (s.recs h).phase h s)

node_snapshot-Holds :
    (n : NodeSnapshot) (h : ℕ) (s : Scope)
    → Holds n h (cells_of s)
    → Joins n h s.recs s.succ s.pred
    → node_snapshot h s ≡ n
unfolding node_snapshot named_pred record_of
node_snapshot-Holds n h s c e = λ i. record {
  id = (c.recs i).id;
  kind = (c.recs i).kind;
  message = (c.recs i).message;
  worker = (c.recs i).worker;
  payload = (c.recs i).payload;
  result = (c.recs i).result;
  labels = (c.recs i).labels;
  retry = (c.recs i).retry;
  deps = (c.recs i).deps;
  seq = (c.recs i).seq;
  epoch = (c.recs i).epoch;
  attempt = (c.recs i).attempt;
  priority = (c.recs i).priority;
  status = (c.recs i).status;
  reason = (c.recs i).reason;
  phase = (c.recs i).phase;
  trigger = (c.recs i).trigger;
  created_at = (c.recs i).created_at;
  updated_at = (c.recs i).updated_at;
  ord = c.ord i;
  deadline = c.deadline i;
  ready_at = c.ready_at i;
  fifo = c.fifo i;
  succ = e.succ_named i;
  pred = e.pred_named i;
}

live_nodes-Stands :
    (ns : List NodeSnapshot) (h : ℕ) (s : Scope)
    → Stands ns h (cells_of s)
    → Joined ns h s.recs s.succ s.pred
    → live_nodes (length ns) h s ≡ ns
unfolding live_nodes Stands Joined record_of
live_nodes-Stands [] h s c e = refl
live_nodes-Stands (n ∷ ns) h s (c, cs) (e, es) =
    let lives : (s.recs h).alive ≡ true = ap (λ (r : NodeRec). r.alive) c.recs in
    rw lives (λ i. node_snapshot-Holds n h s c e i ∷ live_nodes-Stands ns (suc h) s cs es i)

listed-Known :
    (ns ms : List NodeSnapshot) (index : List (Text × ℕ))
    → ((id : Text) → IsListed node_id ns id → Found id index)
    → All (Closed ns) ms
    → All (Known index) ms
listed-Known ns [] index found c = tt
listed-Known ns (m ∷ ms) index found (c, cs) = (
  record { succ = ids m.succ c.succ; pred = froms m.pred c.pred },
  listed-Known ns ms index found cs,
)
  where
    ids : (is : List Text) → All (IsListed node_id ns) is → All (λ id. Found id index) is
    ids [] l = tt
    ids (id ∷ is) (l, ls) = (found id l, ids is ls)

    froms :
        (ps : List PredSnapshot)
        → All (λ p. IsListed node_id ns p.from) ps
        → All (λ p. Found p.from index) ps
    froms [] l = tt
    froms (p ∷ ps) (l, ls) = (found p.from l, froms ps ls)

start_of-Placed :
    (log_cap : ℕ) (ss : ScopeSnapshot) → IsExport ss.nodes → Placed ss.nodes 0 (start_of log_cap ss)
unfolding start_of new_scope lookup
start_of-Placed log_cap ss export =
    place_all-Placed ss.nodes 0 (start_of log_cap ss) refl (λ id k e. absurd (ground arith))
      export.distinct (missing ss.nodes)
  where
    missing :
        (ns : List NodeSnapshot) → All (λ n. lookup n.id (start_of log_cap ss).index ≡ none) ns
    missing [] = tt
    missing (n ∷ ns) = (refl, missing ns)

restore_scope-loops :
    (log_cap : ℕ) (ss : ScopeSnapshot) (p : Placed ss.nodes 0 (start_of log_cap ss))
    (c : Connected ss.nodes 0 p.scope)
    → restore_scope log_cap ss ≡ ok (file_all c.scope.slots 0 c.scope)
unfolding restore_scope
restore_scope-loops log_cap ss p c = rw (p.places, c.connects, restore_scope) refl

-- What the loops leave of a scope but for its indexes.
loops-frame :
    (log_cap : ℕ) (ss : ScopeSnapshot) (p : Placed ss.nodes 0 (start_of log_cap ss))
    (c : Connected ss.nodes 0 p.scope)
    → let s = file_all c.scope.slots 0 c.scope in
      s ≡ record (start_of log_cap ss) {
        index = p.scope.index;
        slots = p.scope.slots;
        recs = p.scope.recs;
        ord = p.scope.ord;
        deadline = p.scope.deadline;
        ready_at = p.scope.ready_at;
        fifo = p.scope.fifo;
        succ = c.scope.succ;
        pred = c.scope.pred;
        ready = s.ready;
        leases = s.leases;
        scheduled = s.scheduled;
      }
loops-frame log_cap ss p c =
    let s = file_all c.scope.slots 0 c.scope in
    file_all-frame c.scope.slots 0 c.scope
    ∙ ap (λ (q : Scope). record q { ready = s.ready; leases = s.leases; scheduled = s.scheduled })
        c.frame
    ∙ ap
        (λ (q : Scope). record q {
          succ = c.scope.succ;
          pred = c.scope.pred;
          ready = s.ready;
          leases = s.leases;
          scheduled = s.scheduled;
        })
        p.frame

snapshot_scope-loops :
    (log_cap : ℕ) (ss : ScopeSnapshot) (p : Placed ss.nodes 0 (start_of log_cap ss))
    (c : Connected ss.nodes 0 p.scope)
    → Ordered node_id ss.nodes
    → snapshot_scope (file_all c.scope.slots 0 c.scope) ≡ ss
unfolding snapshot_scope start_of new_scope
snapshot_scope-loops log_cap ss p c ordered =
    let s = file_all c.scope.slots 0 c.scope in
    let f = loops-frame log_cap ss p c in
    let slots : s.slots ≡ length ss.nodes =
      ap (λ (q : Scope). q.slots) f ∙ omega (arith, p.slots) in
    let joined : Joined ss.nodes 0 s.recs s.succ s.pred =
      subst (λ (q : Scope). Joined ss.nodes 0 q.recs q.succ q.pred) (sym f) c.joined in
    let stands : Stands ss.nodes 0 (cells_of s) =
      subst (λ (q : Scope). Stands ss.nodes 0 (cells_of q)) (sym f) p.stands in
    let taken : sort_by node_id (live_nodes s.slots 0 s) ≡ ss.nodes =
      ap (λ n. sort_by node_id (live_nodes n 0 s)) slots
      ∙ ap (λ (q : List NodeSnapshot). sort_by node_id q)
          (live_nodes-Stands ss.nodes 0 s stands joined)
      ∙ sort_by-fixed node_id ss.nodes ordered in
    λ i. record {
      name = (f i).name;
      config = (f i).cfg;
      sealed = (f i).sealed;
      epoch_floor = (f i).epoch_floor;
      next_ord = (f i).next_ord;
      next_fifo = (f i).next_fifo;
      cursor = (f i).cursor;
      stats = (f i).stats;
      nodes = taken i;
    }

pub snapshot_scope-restore_scope :
    (log_cap : ℕ) (ss : ScopeSnapshot)
    → IsExport ss.nodes
    → (s : Scope) × (restore_scope log_cap ss ≡ ok s) × (snapshot_scope s ≡ ss)
snapshot_scope-restore_scope log_cap ss export =
    let p = start_of-Placed log_cap ss export in
    let c =
      connect_all-Connected ss.nodes 0 p.scope (λ id k e. (p.named id k e).1)
        (listed-Known ss.nodes ss.nodes p.scope.index p.listed export.closed) in
    (
      file_all c.scope.slots 0 c.scope,
      restore_scope-loops log_cap ss p c,
      snapshot_scope-loops log_cap ss p c export.ordered,
    )

pub restore_scope-snapshot_scope :
    (log_cap : ℕ) (s : Scope)
    → Indexed s
    → (s' : Scope) × (restore_scope log_cap (snapshot_scope s) ≡ ok s')
      × (snapshot_scope s' ≡ snapshot_scope s)
restore_scope-snapshot_scope log_cap s index =
    snapshot_scope-restore_scope log_cap (snapshot_scope s) (snapshot_scope-IsExport s index)
