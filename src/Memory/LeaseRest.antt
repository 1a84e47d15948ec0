-- ===== src/Memory/LeaseRest.antt =====
-- lease.go: Complete and the reclaim of expired leases, as to where they leave the nodes.
use dagworker.Base.{
  ℕ, zero, suc, ◌≡◌, ◌≢◌, refl, sym, subst, ◌∙◌, inl, inr, Bool, true, false, List, [], arith, ◌==◌,
  ==_iff, if◌then◌else◌, Bool-cases, Option-cases, ltb, length, ltb_ℤ, pos,
}
use dagworker.Errors.{Result-cases}
use dagworker.Status.{Status, Reason}
use dagworker.Config.{ScopeConfig, resolved}
use dagworker.Event.{EventKind, Effect}
use dagworker.Pq
use dagworker.Memory.State.{Env, Scope, refresh_complete, put_rec, after_now, now}
use dagworker.Memory.Heaps.{remove_lease, schedule}
use dagworker.Memory.Log.{Progress}
use dagworker.Memory.Edges.{is_skipped}
use dagworker.Memory.Settle.{is_waiting}
use dagworker.Memory.Lease.{Failure, timed_out, fail_attempt, reclaim_loop}
use dagworker.Memory.Complete.{CompleteRequest, fence, is_no_reason, complete_held, complete}
use dagworker.Memory.Engine.{emit-Engine}
use dagworker.Memory.Terminate.{HasSlots, terminate-Engine, Engine-HasSlots}
use dagworker.Memory.Settled.{
  IsSettled, AllSettled, SameRule-IsSettled, emit-SameRule, SameRule-trans,
}
use dagworker.Memory.Attempt.{
  Aside-HasSlots, Aside-terminate, failed, unleased, unleased-Aside, schedule-Aside, schedule-idle,
  fail_cases, record-Aside, skipped-Aside, Aside,
}

fail_attempt-HasSlots :
    (env : Env) (h : ℕ) (failure : Failure) (cfg : ScopeConfig) (at : ℕ) (p : Progress)
    → HasSlots p.0
    → HasSlots (fail_attempt env h failure cfg at p).0
fail_attempt-HasSlots env h failure cfg at (s, out) slots =
    fail_cases (λ q. HasSlots q.0) env h failure cfg at s out
      (λ it e.
        Engine-HasSlots (terminate-Engine env it (unleased h s, out))
          (Aside-HasSlots (unleased-Aside h s) slots))
      λ later from.
        let t : Scope = schedule h later (failed h failure at s) in
        Engine-HasSlots (emit-Engine env h EventKind.transition from (t, out))
          (Aside-HasSlots (schedule-Aside h failure at later s) slots)

fail_attempt-settled :
    (env : Env) (h : ℕ) (failure : Failure) (cfg : ScopeConfig) (at : ℕ) (s : Scope)
    (out : List Effect)
    → HasSlots s
    → ((k : ℕ) → h ≢ k → IsSettled (s.recs k))
    → AllSettled (fail_attempt env h failure cfg at (s, out)).0
fail_attempt-settled env h failure cfg at s out slots rest =
    fail_cases (λ q. AllSettled q.0) env h failure cfg at s out
      (λ it e.
        let same : Aside it.handle s (unleased h s) =
          subst (λ k. Aside k s (unleased h s)) (sym e) (unleased-Aside h s) in
        Aside-terminate env it s (unleased h s) out same slots (λ k ne. rest k (λ x. ne (e ∙ x))))
      λ later from k.
        let t : Scope = schedule h later (failed h failure at s) in
        let parked = schedule-Aside h failure at later s in
        let emitted = emit-SameRule env h EventKind.transition from (t, out) in
        elim (Bool-cases (h == k)) [
          | inl e ↦
              let same : h ≡ k = (==_iff h k).0 e in
              SameRule-IsSettled (emitted k) (λ a waits. absurd (
                false≢waits
                  (subst (λ x. is_waiting (t.recs x).phase ≡ false) same
                    (schedule-idle h later (failed h failure at s)))
                  waits))
          | inr ne ↦
              let apart : h ≢ k = λ e. ground (arith, (==_iff h k).1 e) in
              SameRule-IsSettled (SameRule-trans (parked.others k apart) (emitted k)) (rest k apart)
        ]
  where
    false≢waits : {b : Bool} → b ≡ false → b ≡ true → ⊥
    false≢waits e f = cc

-- Reclaiming expired leases, however many, keeps the live nodes within the arrays and ends with
-- every live node that is blocked or ready where its trigger rule puts it, where both held before.
pub reclaim_loop-AllSettled :
    (rounds : ℕ) (env : Env) (at : ℕ) (cfg : ScopeConfig) (reclaimed : ℕ) (p : Progress)
    → HasSlots p.0
    → AllSettled p.0
    → HasSlots (reclaim_loop rounds env at cfg reclaimed p).0.0
      × AllSettled (reclaim_loop rounds env at cfg reclaimed p).0.0
unfolding reclaim_loop
reclaim_loop-AllSettled zero env at cfg reclaimed p slots all = (slots, all)
reclaim_loop-AllSettled (suc rounds) env at cfg reclaimed (s, out) slots all =
    elim (Option-cases (Pq.peek s.leases)) [
      | inl e ↦ rw (e, reclaim_loop) (slots, all)
      | inr (h, e) ↦ elim (Bool-cases (ltb at (s.deadline h))) [
        | inl later ↦ rw (e, later, reclaim_loop) (slots, all)
        | inr due ↦
            rw (e, due, reclaim_loop)
              (reclaim_loop-AllSettled rounds env at cfg (suc reclaimed)
                (fail_attempt env h timed_out cfg at (s, out))
                (fail_attempt-HasSlots env h timed_out cfg at (s, out) slots)
                (fail_attempt-settled env h timed_out cfg at s out slots (λ k ne. all k)))
      ]
    ]

complete_held-settled :
    (env : Env) (h : ℕ) (req : CompleteRequest) (s : Scope)
    → HasSlots s
    → AllSettled s
    → AllSettled (complete_held env h req s).0
unfolding complete_held refresh_complete remove_lease unleased
complete_held-settled env h req s slots all =
    let t = after_now s in
    let reason = if is_no_reason req.reason then Reason.worker_error else req.reason in
    let failure : Failure = record { reason = reason; message = req.message } in
    let rest = λ (k : ℕ) (ne : h ≢ k). all k in
    let slots' : HasSlots t = record { in_slots = slots.in_slots } in
    elim (Bool-cases req.success) [
      | inl won ↦ elim (Bool-cases (ltb_ℤ (resolved s.cfg).payload_cap (pos (length req.result)))) [
        | inl big ↦ rw (won, big) all
        | inr fits ↦
            rw (won, fits)
              (Aside-terminate env
                (record { handle = h; status = Status.success; reason = Reason.none; message = [] })
                t (put_rec h (record (s.recs h) { result = req.result; worker = [] }) t) []
                (record-Aside h _ t refl) slots' rest)
      ]
      | inr lost ↦ elim (Bool-cases (is_skipped reason)) [
        | inl skips ↦
            rw (lost, skips)
              (Aside-terminate env
                (record {
                  handle = h;
                  status = Status.error;
                  reason = Reason.skipped;
                  message = req.message;
                })
                t (put_rec h (record ((unleased h t).recs h) { worker = [] }) (unleased h t)) []
                (skipped-Aside h t) slots' rest)
        | inr fails ↦
            rw (lost, fails)
              (fail_attempt-settled env h failure (resolved s.cfg) (now env s) t [] slots' rest)
      ]
    ]

-- Complete, on a scope whose live nodes lie within the arrays and in which every live node that is
-- blocked or ready stands where its trigger rule puts it, ends in a scope in which every such node
-- does again, whether the report is a success, a skip, a failure that is retried or one that is
-- not, or is refused.
pub complete-AllSettled :
    (env : Env) (req : CompleteRequest) (s : Scope)
    → HasSlots s
    → AllSettled s
    → AllSettled (complete env req s).0
unfolding complete
complete-AllSettled env req s slots all = elim (Result-cases (fence req.lease s)) [
  | inr (error, e) ↦ rw (e, complete) all
  | inl (h, e) ↦ rw (e, complete) (complete_held-settled env h req s slots all)
]
