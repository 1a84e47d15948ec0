-- ===== src/Memory/Complete.antt =====
-- storage/memory/lease.go: the fenced writes of a lease's holder, and the sweep.
use dagworker.Base.{
  ℕ, ◌+◌, Bool, true, false, not, ◌||◌, none, some, List, [], ◌==◌, if◌then◌else◌, length, ltb_ℤ,
  leb_ℤ, ℤ, pos, pos_part, Text, lookup, update,
}
use dagworker.Errors.{
  Result, ok, err, plain, payload_too_large_error, err_not_found, err_lease_mismatch,
}
use dagworker.Status.{Status, Reason, Phase}
use dagworker.Config.{resolved, clamp_lease}
use dagworker.Event.{Effect}
use dagworker.Pq
use dagworker.Memory.State.{Env, Scope, put_rec, now, after_now, refresh_complete, is_claimed}
use dagworker.Memory.Edges.{is_skipped}
use dagworker.Memory.Heaps.{lease_less, remove_lease}
use dagworker.Memory.Log.{Progress}
use dagworker.Memory.Settle.{Item, terminate, promote_scheduled}
use dagworker.Memory.Lease.{Lease, Failure, fail_attempt, reclaim_expired}

pub record CompleteRequest : Type 0 where
  pub lease : Lease
  pub success : Bool
  pub reason : Reason
  pub message : Text
  pub result : Text

pub record CompleteResult : Type 0 where
  pub effects : List Effect
  pub retrying : Bool
  pub next_attempt_at : ℕ

-- The fencing check: the handle of the node that the lease holds.
unfoldable pub fence : Lease → Scope → Result ℕ
fence lease s = elim (lookup lease.node_id s.index) [
  | none ↦ err (plain err_not_found)
  | some h ↦
      let r = s.recs h in
      if not (is_claimed r.phase) || not (r.epoch == lease.epoch)
      then err (plain err_lease_mismatch)
      else ok h
]

abbrev done_with : Progress → Scope × Result CompleteResult
done_with (s, out) =
    (refresh_complete s, ok (record { effects = out; retrying = false; next_attempt_at = 0 }))

abbrev pub is_no_reason : Reason → Bool
is_no_reason Reason.none = true
is_no_reason _ = false

abbrev is_scheduled : Phase → Bool
is_scheduled Phase.scheduled = true
is_scheduled _ = false

succeed : Env → ℕ → CompleteRequest → Scope → Scope × Result CompleteResult
succeed env h req s =
    let cap = (resolved s.cfg).payload_cap in
    let s1 = put_rec h (record (s.recs h) { result = req.result; worker = [] }) s in
    let item : Item = record {
      handle = h;
      status = Status.success;
      reason = Reason.none;
      message = [];
    } in
    if ltb_ℤ cap (pos (length req.result))
    then (s, err (payload_too_large_error (length req.result) (pos_part cap)))
    else done_with (terminate env item (s1, []))

skip : Env → ℕ → CompleteRequest → Scope → Scope × Result CompleteResult
skip env h req s0 =
    let s1 = remove_lease h s0 in
    let s2 = record s1 { deadline = update s1.deadline h 0 } in
    let s3 = put_rec h (record (s2.recs h) { worker = [] }) s2 in
    let item : Item = record {
      handle = h;
      status = Status.error;
      reason = Reason.skipped;
      message = req.message;
    } in
    done_with (terminate env item (s3, []))

retry : Env → ℕ → Failure → ℕ → Scope → Scope × Result CompleteResult
retry env h failure at s0 =
    let (s1, out) = fail_attempt env h failure (resolved s0.cfg) at (s0, []) in
    let waits = is_scheduled (s1.recs h).phase in
    (
      refresh_complete s1,
      ok (record {
        effects = out;
        retrying = waits;
        next_attempt_at = if waits then s1.ready_at h else 0;
      }),
    )

-- The part of Complete after the fencing check.
unfoldable pub complete_held : Env → ℕ → CompleteRequest → Scope → Scope × Result CompleteResult
unfolding succeed skip retry
complete_held env h req s0 =
    let at = now env s0 in
    let s = after_now s0 in
    let reason = if is_no_reason req.reason then Reason.worker_error else req.reason in
    if req.success
    then succeed env h req s
    else if is_skipped reason
    then skip env h req s
    else retry env h (record { reason = reason; message = req.message }) at s

unfoldable pub complete : Env → CompleteRequest → Scope → Scope × Result CompleteResult
complete env req s = elim (fence req.lease s) [
  | err e ↦ (s, err e)
  | ok h ↦ complete_held env h req s
]

unfoldable pub extend : Env → Lease → ℤ → Scope → Scope × Result ℕ
extend env lease timeout s = elim (fence lease s) [
  | err e ↦ (s, err e)
  | ok h ↦
      let deadline = now env s + pos_part (clamp_lease (resolved s.cfg) timeout) in
      let s1 = after_now s in
      let s2 = record s1 { deadline = update s1.deadline h deadline } in
      (record s2 { leases = (Pq.fix (lease_less s2) h s2.leases).0 }, ok deadline)
]

pub record SweepResult : Type 0 where
  pub reclaimed : ℕ
  pub effects : List Effect
  pub more : Bool

unfoldable pub sweep : Env → ℤ → Scope → Scope × SweepResult
sweep env limit s =
    let cfg = resolved s.cfg in
    let limit' = if leb_ℤ limit (pos 0) then cfg.sweep_batch_size else limit in
    let at = now env s in
    let (p1, reclaimed, more) = reclaim_expired env at cfg (pos_part limit') (after_now s, []) in
    let (s2, out) = promote_scheduled env at p1 in
    (refresh_complete s2, record { reclaimed = reclaimed; effects = out; more = more })
