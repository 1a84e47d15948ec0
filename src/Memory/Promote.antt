-- ===== src/Memory/Promote.antt =====
-- scope.go: a node that waits for its backoff, and a dependency that changes meanwhile.
use dagworker.Base.{ℕ, ◌≡◌, ◌≤◌, refl, ◌∙◌, true, false, some, List, arith, ltb, ==_iff, ◌==◌}
use dagworker.Status.{Status, Phase}
use dagworker.Event.{Effect, EventKind}
use dagworker.Pq
use dagworker.Pq.{Heap}
use dagworker.Memory.State.{Env, Scope}
use dagworker.Memory.Heaps.{scheduled_less, make_ready}
use dagworker.Memory.Settle.{promote_loop, settle}
use dagworker.Memory.Settled.{emit-SameRule}

made_ready : (h : ℕ) (s : Scope) → ((make_ready h s).recs h).phase ≡ Phase.ready
unfolding make_ready
made_ready h s = let same : (h == h) ≡ true = (==_iff h h).1 refl in rw same refl

made_ready-same :
    (h : ℕ) (s : Scope)
    → (((make_ready h s).recs h).deps ≡ (s.recs h).deps)
      × (((make_ready h s).recs h).trigger ≡ (s.recs h).trigger)
unfolding make_ready
made_ready-same h s =
    let same : (h == h) ≡ true = (==_iff h h).1 refl in (rw same refl, rw same refl)

-- A scheduled node is left by settle as it is, and once its backoff has elapsed, as the head of
-- the scheduled heap, it becomes ready with the tally and the rule that it has by then, whether or
-- not the rule holds of that tally.
pub promote-ignores_rule :
    (env : Env) (at h : ℕ) (rest : Heap) (s : Scope) (out : List Effect)
    → (s.recs h).phase ≡ Phase.scheduled
    → Pq.pop (scheduled_less s) s.scheduled ≡ some (h, rest)
    → s.ready_at h ≤ at
    → (settle env h (s, out) ≡ (s, out))
      × (((promote_loop 1 env at (s, out)).0.recs h).phase ≡ Phase.ready)
      × (((promote_loop 1 env at (s, out)).0.recs h).deps ≡ (s.recs h).deps)
      × (((promote_loop 1 env at (s, out)).0.recs h).trigger ≡ (s.recs h).trigger)
unfolding settle promote_loop
promote-ignores_rule env at h rest s out parked head due =
    let t = record s { scheduled = rest } in
    let on_time : ltb at (s.ready_at h) ≡ false = ground arith in
    let same = emit-SameRule env h EventKind.ready Status.new (make_ready h t, out) h in
    (
      rw parked refl,
      rw (head, on_time, promote_loop) (same.same_phase ∙ made_ready h t),
      rw (head, on_time, promote_loop) (same.same_deps ∙ (made_ready-same h t).0),
      rw (head, on_time, promote_loop) (same.same_trigger ∙ (made_ready-same h t).1),
    )
