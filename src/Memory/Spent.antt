-- ===== src/Memory/Spent.antt =====
-- storage/memory/lease.go and scope.go: what ends with a completion, and what stays afterwards.
use dagworker.Base.{
  ℕ, ◌≡◌, refl, sym, ap, ◌∙◌, subst, true, false, some, List, [], arith, Bool-cases, inl, inr,
  lookup, if◌then◌else◌, ltb_ℤ, pos, pos_part, length, Text, ◌+◌, ◌<◌, ◌^◌,
}
use dagworker.Errors.{
  Error, Result, ok, err, plain, err_lease_mismatch, Result-cases, payload_too_large_error,
}
use dagworker.Status.{Status, Reason, Phase}
use dagworker.Config.{ScopeConfig, resolved}
use dagworker.Event.{Effect, EventKind}
use dagworker.Memory.State.{
  Env, Scope, is_done, is_claimed, put_rec, refresh_complete, after_now, now,
}
use dagworker.Memory.Heaps.{remove_lease, schedule}
use dagworker.Memory.Edges.{is_skipped}
use dagworker.Memory.Log.{Progress}
use dagworker.Memory.Settle.{
  Item, is_over, terminate, terminate_step, terminate_loop, out_degrees, ended,
}
use dagworker.Memory.Lease.{Lease, Failure, fail_attempt, grant}
use dagworker.Memory.Complete.{
  CompleteRequest, CompleteResult, fence, is_no_reason, complete_held, complete,
}
use dagworker.Memory.Engine.{emit-Engine, fan_out-Engine}
use dagworker.Memory.Settled.{emit-SameRule}
use dagworker.Memory.Terminate.{terminate-Engine, terminate_loop-Engine, ended-done}
use dagworker.Memory.Attempt.{unleased, failed, fail_cases}
use dagworker.Memory.Fence.{fence_iff, fence-unclaimed, fence-stale, grant-record}

-- A node that is done keeps its phase, its status and its reason, whatever node is ended after it
-- and however far that cascades.
pub terminate-final :
    (env : Env) (it : Item) (p : Progress) (h : ℕ)
    → is_done (p.0.recs h).phase ≡ true
    → (((terminate env it p).0.recs h).phase ≡ (p.0.recs h).phase)
      × (((terminate env it p).0.recs h).status ≡ (p.0.recs h).status)
      × (((terminate env it p).0.recs h).reason ≡ (p.0.recs h).reason)
terminate-final env it p h over =
    let kept = (terminate-Engine env it p).nodes h in
    (kept.final_phase over, kept.final_status over, kept.final_reason over)

done-unclaimed : (phase : Phase) → is_done phase ≡ true → is_claimed phase ≡ false
done-unclaimed phase e = ground arith

-- The first step of the worklist ends the node it starts from.
terminate_step-done :
    (env : Env) (it : Item) (s : Scope) (out : List Effect)
    → (s.recs it.handle).alive ≡ true
    → is_done ((terminate_step env it [] (s, out)).0.0.recs it.handle).phase ≡ true
unfolding terminate_step
terminate_step-done env it s out alive =
    let h = it.handle in
    elim (Bool-cases (is_over it s)) [
      | inl over ↦ rw (over, terminate_step) (ground (arith, alive, over))
      | inr live ↦
          let p = ended env it (s, out) in
          let frame = fan_out-Engine env h it.status it.reason (p.0.succ h) p [] in
          let over : is_done (p.0.recs h).phase ≡ true = ended-done env it (s, out) in
          rw (live, terminate_step) (ap is_done ((frame.nodes h).final_phase over) ∙ over)
    ]

pub terminate-done :
    (env : Env) (it : Item) (s : Scope) (out : List Effect)
    → (s.recs it.handle).alive ≡ true
    → is_done ((terminate env it (s, out)).0.recs it.handle).phase ≡ true
unfolding terminate terminate_loop
terminate-done env it s out alive =
    let step = terminate_step env it [] (s, out) in
    let over = terminate_step-done env it s out alive in
    let frame = terminate_loop-Engine (out_degrees s.slots s.succ) env step.1 step.0 in
    ap is_done ((frame.nodes it.handle).final_phase over) ∙ over

-- A node that a lease no longer covers, in a scope that still finds its nodes.
pub record Freed (h : ℕ) (s t : Scope) : Type 0 where
  same_index : t.index ≡ s.index
  pub unclaimed : is_claimed (t.recs h).phase ≡ false
  same_epoch : (t.recs h).epoch ≡ (s.recs h).epoch

freed :
    {h : ℕ} {s t : Scope}
    → t.index ≡ s.index
    → is_claimed (t.recs h).phase ≡ false
    → (t.recs h).epoch ≡ (s.recs h).epoch
    → Freed h s t
freed index unclaimed epoch = record {
  same_index = index;
  unclaimed = unclaimed;
  same_epoch = epoch;
}

terminate-Freed :
    (env : Env) (it : Item) (s t : Scope) (out : List Effect)
    → t.index ≡ s.index
    → (t.recs it.handle).epoch ≡ (s.recs it.handle).epoch
    → (t.recs it.handle).alive ≡ true
    → Freed it.handle s (terminate env it (t, out)).0
terminate-Freed env it s t out index epoch alive = record {
  same_index = (terminate-Engine env it (t, out)).same_index ∙ index;
  unclaimed = done-unclaimed _ (terminate-done env it t out alive);
  same_epoch = ((terminate-Engine env it (t, out)).nodes it.handle).same_epoch ∙ epoch;
}

schedule-unclaimed : (h at : ℕ) (s : Scope) → is_claimed ((schedule h at s).recs h).phase ≡ false
unfolding schedule
schedule-unclaimed h at s = ground arith

schedule-epoch :
    (h later : ℕ) (failure : Failure) (at : ℕ) (s : Scope)
    → ((schedule h later (failed h failure at s)).recs h).epoch ≡ (s.recs h).epoch
unfolding schedule failed unleased remove_lease
schedule-epoch h later failure at s = ground arith

pub fail_attempt-epoch :
    (env : Env) (h : ℕ) (failure : Failure) (cfg : ScopeConfig) (at : ℕ) (s : Scope)
    (out : List Effect)
    → ((fail_attempt env h failure cfg at (s, out)).0.recs h).epoch ≡ (s.recs h).epoch
unfolding unleased remove_lease
fail_attempt-epoch env h failure cfg at s out =
    fail_cases (λ q. (q.0.recs h).epoch ≡ (s.recs h).epoch) env h failure cfg at s out
      (λ it e. ((terminate-Engine env it (unleased h s, out)).nodes h).same_epoch)
      (λ later from.
        let t : Scope = schedule h later (failed h failure at s) in
        ((emit-Engine env h EventKind.transition from (t, out)).nodes h).same_epoch
        ∙ schedule-epoch h later failure at s)

pub fail_attempt-Freed :
    (env : Env) (h : ℕ) (failure : Failure) (cfg : ScopeConfig) (at : ℕ) (s : Scope)
    (out : List Effect)
    → (s.recs h).alive ≡ true
    → Freed h s (fail_attempt env h failure cfg at (s, out)).0
unfolding unleased failed schedule remove_lease
fail_attempt-Freed env h failure cfg at s out alive =
    fail_cases (λ q. Freed h s q.0) env h failure cfg at s out
      (λ it e.
        subst (λ k. Freed k s (terminate env it (unleased h s, out)).0) e
          (terminate-Freed env it s (unleased h s) out refl refl
            (ap (λ k. (s.recs k).alive) e ∙ alive)))
      λ later from.
        let t : Scope = schedule h later (failed h failure at s) in
        let same = emit-SameRule env h EventKind.transition from (t, out) h in
        record {
          same_index = (emit-Engine env h EventKind.transition from (t, out)).same_index;
          unclaimed =
              ap is_claimed same.same_phase ∙ schedule-unclaimed h later (failed h failure at s);
          same_epoch =
              ((emit-Engine env h EventKind.transition from (t, out)).nodes h).same_epoch
              ∙ schedule-epoch h later failure at s;
        }

clash {ℓ} : {A : Type ℓ} {r : Result A} {e : Error} {a : A} → r ≡ err e → r ≡ ok a → ⊥
clash f g = cc

complete_held-Freed :
    (env : Env) (h : ℕ) (req : CompleteRequest) (s : Scope) (res : CompleteResult)
    → (s.recs h).alive ≡ true
    → (complete_held env h req s).1 ≡ ok res
    → Freed h s (complete_held env h req s).0
unfolding complete_held refresh_complete remove_lease unleased
complete_held-Freed env h req s res alive done =
    let t = after_now s in
    let reason = if is_no_reason req.reason then Reason.worker_error else req.reason in
    let failure : Failure = record { reason = reason; message = req.message } in
    elim (Bool-cases req.success) [
      | inl won ↦ elim (Bool-cases (ltb_ℤ (resolved s.cfg).payload_cap (pos (length req.result)))) [
        | inl big ↦ absurd (
            clash
              {e = payload_too_large_error (length req.result)
                (pos_part (resolved s.cfg).payload_cap)}
              (rw (won, big) refl) done)
        | inr fits ↦
            let r = record (s.recs h) { result = req.result; worker = [] } in
            let it : Item = record {
              handle = h;
              status = Status.success;
              reason = Reason.none;
              message = [];
            } in
            let f =
              terminate-Freed env it t (put_rec h r t) [] refl (ground arith)
                (ground (arith, alive)) in
            rw (won, fits) (freed f.same_index f.unclaimed f.same_epoch)
      ]
      | inr lost ↦ elim (Bool-cases (is_skipped reason)) [
        | inl skips ↦
            let r = record ((unleased h t).recs h) { worker = [] } in
            let it : Item = record {
              handle = h;
              status = Status.error;
              reason = Reason.skipped;
              message = req.message;
            } in
            let f =
              terminate-Freed env it t (put_rec h r (unleased h t)) [] refl (ground arith)
                (ground (arith, alive)) in
            rw (lost, skips) (freed f.same_index f.unclaimed f.same_epoch)
        | inr fails ↦
            let f = fail_attempt-Freed env h failure (resolved s.cfg) (now env s) t [] alive in
            rw (lost, fails) (freed f.same_index f.unclaimed f.same_epoch)
      ]
    ]

-- A completion that succeeds frees the node of its lease.
complete-Freed :
    (env : Env) (req : CompleteRequest) (s : Scope) (h : ℕ) (res : CompleteResult)
    → lookup req.lease.node_id s.index ≡ some h
    → (s.recs h).alive ≡ true
    → (complete env req s).1 ≡ ok res
    → Freed h s (complete env req s).0
unfolding complete
complete-Freed env req s h res found alive done = elim (Result-cases (fence req.lease s)) [
  | inr (e, refused) ↦ absurd (clash {e = e} (rw (refused, complete) refl) done)
  | inl (k, passed) ↦
      let holds = (fence_iff req.lease s k).0 passed in
      let same : k ≡ h = some-same (sym holds.found ∙ found) in
      let passed' : fence req.lease s ≡ ok h = passed ∙ ap ok same in
      let opened : complete env req s ≡ complete_held env h req s = rw (passed', complete) refl in
      subst (λ (p : Scope × Result CompleteResult). Freed h s p.0) (sym opened)
        (complete_held-Freed env h req s res alive
          (sym (ap (λ (p : Scope × Result CompleteResult). p.1) opened) ∙ done))
]
  where
    some-same : {a b : ℕ} → some a ≡ some b → a ≡ b
    some-same e = cc

complete-refused :
    (env : Env) (req : CompleteRequest) (s : Scope)
    → fence req.lease s ≡ err (plain err_lease_mismatch)
    → complete env req s ≡ (s, err (plain err_lease_mismatch))
unfolding complete
complete-refused env req s e = rw (e, complete) refl

-- What a passed check says of the epoch of the node.
complete-current :
    (env : Env) (req : CompleteRequest) (s : Scope) (h : ℕ) (res : CompleteResult)
    → lookup req.lease.node_id s.index ≡ some h
    → (complete env req s).1 ≡ ok res
    → (s.recs h).epoch ≡ req.lease.epoch
unfolding complete
complete-current env req s h res found done = elim (Result-cases (fence req.lease s)) [
  | inr (e, refused) ↦ absurd (clash {e = e} (rw (refused, complete) refl) done)
  | inl (k, passed) ↦
      let holds = (fence_iff req.lease s k).0 passed in
      subst (λ j. (s.recs j).epoch ≡ req.lease.epoch) (same_some (sym holds.found ∙ found))
        holds.current
]
  where
    same_some : {a b : ℕ} → some a ≡ some b → a ≡ b
    same_some e = cc

-- A lease is spent by the completion that it makes. Once Complete has succeeded on a live node,
-- whether the node ended or was parked for a retry, a Complete with the same lease that follows at
-- once is refused with ErrLeaseMismatch and leaves the scope as it is; so is one that follows at
-- once after the node has been granted again, from any scope with the same index and the same
-- epoch of the node, where that epoch has not reached the end of its 64 bits.
pub complete-spends :
    (env env' env'' : Env) (req again : CompleteRequest) (s : Scope) (h : ℕ) (res : CompleteResult)
    (at : ℕ) (worker : Text) (lease_for : ℕ) (p : Progress)
    → lookup req.lease.node_id s.index ≡ some h
    → (s.recs h).alive ≡ true
    → (complete env req s).1 ≡ ok res
    → again.lease ≡ req.lease
    → p.0.index ≡ (complete env req s).0.index
    → (p.0.recs h).epoch ≡ ((complete env req s).0.recs h).epoch
    → (s.recs h).epoch + 1 < 2 ^ 64
    → (complete env' again (complete env req s).0
        ≡ ((complete env req s).0, err (plain err_lease_mismatch)))
      × (complete env' again (grant env'' at worker lease_for h p).0
          ≡ ((grant env'' at worker lease_for h p).0, err (plain err_lease_mismatch)))
complete-spends env env' env'' req again s h res at worker lease_for p found alive done same index
      epoch room =
    let t = (complete env req s).0 in
    let q = (grant env'' at worker lease_for h p).0 in
    let freed = complete-Freed env req s h res found alive done in
    let name : again.lease.node_id ≡ req.lease.node_id = ap (λ (l : Lease). l.node_id) same in
    let here : lookup again.lease.node_id t.index ≡ some h = rw (name, freed.same_index) found in
    let there : lookup again.lease.node_id p.0.index ≡ some h = rw index here in
    let (later, _claimed, _id, kept) = grant-record env'' at worker lease_for h p in
    let spent : (p.0.recs h).epoch ≡ again.lease.epoch =
      epoch
      ∙ freed.same_epoch
      ∙ complete-current env req s h res found done
      ∙ ap (λ (l : Lease). l.epoch) (sym same) in
    (
      complete-refused env' again t (fence-unclaimed again.lease t h here freed.unclaimed),
      complete-refused env' again q (
          fence-stale again.lease q h (rw kept there)
            (λ e. absurd (omega (arith, later, spent, e, room, epoch, freed.same_epoch)))),
    )
