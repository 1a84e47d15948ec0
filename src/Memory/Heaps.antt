-- ===== src/Memory/Heaps.antt =====
-- storage/memory/scope.go: the ready sets, one for each kind, and the moves between the phases that
-- go through them. A heap's order reads the scope's arrays as they are at the call.
use dagworker.Base.{
  ℕ, suc, not, ltb, ltb_ℤ, leb_ℤ, ◌&&◌, none, some, if◌then◌else◌, Text, lookup, insert, update,
  inc64,
}
use dagworker.Status.{Status, Phase}
use dagworker.Pq
use dagworker.Pq.{Heap, Less}
use dagworker.Memory.State.{Scope, put_rec, leave_bucket, enter_bucket}

unfoldable pub lease_less : Scope → Less
lease_less s a b = ltb (s.deadline a) (s.deadline b)

unfoldable pub scheduled_less : Scope → Less
scheduled_less s a b = ltb (s.ready_at a) (s.ready_at b)

-- Priority descending, then the order of insertion.
unfoldable pub ready_less : Scope → Less
ready_less s a b =
    let p = (s.recs a).priority in
    let q = (s.recs b).priority in
    if not (leb_ℤ p q && leb_ℤ q p) then ltb_ℤ q p else ltb (s.fifo a) (s.fifo b)

-- The ready set for a kind: an empty one where there was none.
unfoldable pub ready_heap : Text → Scope → Heap
ready_heap kind s = elim (lookup kind s.ready) [ none ↦ Pq.new 0 | some h ↦ h ]

unfoldable pub remove_ready : ℕ → Scope → Scope
remove_ready h s =
    let kind = (s.recs h).kind in
    record s { ready = insert kind (Pq.remove (ready_less s) h (ready_heap kind s)).0 s.ready }

unfoldable pub push_ready : ℕ → Scope → Scope
push_ready h s =
    let kind = (s.recs h).kind in
    record s { ready = insert kind (Pq.push (ready_less s) h (ready_heap kind s)) s.ready }

unfoldable pub remove_scheduled : ℕ → Scope → Scope
remove_scheduled h s = record s { scheduled = (Pq.remove (scheduled_less s) h s.scheduled).0 }

unfoldable pub remove_lease : ℕ → Scope → Scope
remove_lease h s = record s { leases = (Pq.remove (lease_less s) h s.leases).0 }

unfoldable pub set_phase : Phase → Status → ℕ → Scope → Scope
set_phase phase status h s = put_rec h (record (s.recs h) { phase = phase; status = status }) s

unfoldable pub ring_doorbell : Scope → Scope
ring_doorbell s = record s { doorbell = suc s.doorbell }

-- The only path by which a node becomes claimable.
unfoldable pub make_ready : ℕ → Scope → Scope
unfolding remove_scheduled push_ready set_phase ring_doorbell leave_bucket enter_bucket
make_ready h s0 =
    let s1 = set_phase Phase.ready Status.new h (leave_bucket h s0) in
    let s2 = remove_scheduled h (record s1 { ready_at = update s1.ready_at h 0 }) in
    let s3 = record s2 {
      next_fifo = inc64 s2.next_fifo;
      fifo = update s2.fifo h (inc64 s2.next_fifo);
    } in
    ring_doorbell (enter_bucket h (push_ready h s3))

-- Pulls a node out of the ready set because a dependency was added.
unfoldable pub make_blocked : ℕ → Scope → Scope
unfolding remove_scheduled remove_ready set_phase leave_bucket enter_bucket
make_blocked h s0 =
    let s1 = remove_scheduled h (remove_ready h (leave_bucket h s0)) in
    let s2 = record s1 { ready_at = update s1.ready_at h 0 } in
    enter_bucket h (set_phase Phase.blocked Status.new h s2)

-- Parks a node until a retry backoff elapses.
unfoldable pub schedule : ℕ → ℕ → Scope → Scope
unfolding remove_ready set_phase leave_bucket enter_bucket scheduled_less
schedule h at s0 =
    let s1 = set_phase Phase.scheduled Status.new h (remove_ready h (leave_bucket h s0)) in
    let s2 = record s1 { ready_at = update s1.ready_at h at } in
    enter_bucket h (record s2 { scheduled = Pq.push (scheduled_less s2) h s2.scheduled })
