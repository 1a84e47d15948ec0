-- ===== src/Memory/Lease.antt =====
-- storage/memory/lease.go: failed attempts, the reclaim of expired leases, and claims, each under the
-- scope's lock. A lease duration is positive, so that it is its positive part.
use dagworker.Base.{
  ℕ, zero, suc, ◌+◌, ◌^◌, ◌-◌, Bool, false, not, ◌&&◌, ◌||◌, Option, none, some, List, [], ◌∷◌,
  ◌++◌, ◌==◌, if◌then◌else◌, ltb, leb, ltb_ℤ, leb_ℤ, max_ℤ, ℤ, pos, pos_part, Text, codes, lookup,
  insert, update, inc64, is_empty,
}
use dagworker.Status.{Status, Reason, Phase}
use dagworker.Backoff.{backoff}
use dagworker.Config.{ScopeConfig, resolved, clamp_lease}
use dagworker.Node.{Node}
use dagworker.Event.{EventKind}
use dagworker.Pq
use dagworker.Pq.{Heap}
use dagworker.Memory.State.{Env, Scope, put_rec, now, after_now, leave_bucket, enter_bucket}
use dagworker.Memory.Heaps.{lease_less, ready_less, remove_lease, schedule}
use dagworker.Memory.Log.{Progress, emit}
use dagworker.Memory.Settle.{Item, terminate, promote_scheduled}

-- dagworker.Lease, without the adapters' token.
pub record Lease : Type 0 where
  pub scope : Text
  pub node_id : Text
  pub epoch : ℕ
  pub deadline : ℕ
  pub node : Node

unfoldable pub valid : Lease → Bool
valid l = not (is_empty l.scope) && not (is_empty l.node_id) && ltb 0 l.epoch

-- A uint32 that saturates.
unfoldable pub bump_attempt : ℕ → ℕ
bump_attempt n = if n == 2 ^ 32 - 1 then n else n + 1

pub record Retry : Type 0 where
  pub attempts : ℕ
  pub base : ℤ
  pub max_delay : ℤ

unfoldable pub effective_retry : ℕ → ScopeConfig → Scope → Retry
effective_retry h cfg s =
    let r = (s.recs h).retry in
    record {
      attempts = if ltb 0 r.max_attempts then r.max_attempts else cfg.max_attempts;
      base = if ltb_ℤ (pos 0) r.base_delay then r.base_delay else cfg.retry_base_delay;
      max_delay = if ltb_ℤ (pos 0) r.max_delay then r.max_delay else cfg.retry_max_delay;
    }

-- Why an attempt failed, as the worker or the lease protocol says it.
pub record Failure : Type 0 where
  pub reason : Reason
  pub message : Text

unfoldable pub fail_attempt : Env → ℕ → Failure → ScopeConfig → ℕ → Progress → Progress
fail_attempt env h failure cfg at (s0, out) =
    let retry = effective_retry h cfg s0 in
    let s1 = remove_lease h s0 in
    let s2 = record s1 { deadline = update s1.deadline h 0 } in
    let r = s2.recs h in
    let last : Item = record {
      handle = h;
      status = Status.error;
      reason = failure.reason;
      message = failure.message;
    } in
    let delay = backoff r.attempt retry.base retry.max_delay (some env.jitter) in
    let s3 =
      put_rec h
        (record r {
          reason = failure.reason;
          message = failure.message;
          worker = [];
          updated_at = at;
        })
        s2 in
    if leb retry.attempts r.attempt
    then terminate env last (s2, out)
    else emit env h EventKind.transition r.status (schedule h (at + delay) s3, out)

abbrev pub timed_out : Failure
timed_out = record {
  reason = Reason.timeout;
  message = codes "the worker did not acknowledge before the lease deadline";
}

-- One round for each lease that may still be reclaimed. The count is of the rounds made.
unfoldable pub reclaim_loop : ℕ → Env → ℕ → ScopeConfig → ℕ → Progress → Progress × ℕ × Bool
reclaim_loop zero env at cfg reclaimed (s, out) =
    let more : Bool = elim (Pq.peek s.leases) [ none ↦ false | some h ↦ leb (s.deadline h) at ] in
    ((s, out), reclaimed, more)
reclaim_loop (suc rounds) env at cfg reclaimed (s, out) = elim (Pq.peek s.leases) [
  | none ↦ ((s, out), reclaimed, false)
  | some h ↦
      let rest =
        reclaim_loop rounds env at cfg (suc reclaimed)
          (fail_attempt env h timed_out cfg at (s, out)) in
      if ltb at (s.deadline h) then ((s, out), reclaimed, false) else rest
]

unfoldable pub reclaim_expired : Env → ℕ → ScopeConfig → ℕ → Progress → Progress × ℕ × Bool
unfolding reclaim_loop
reclaim_expired env at cfg limit p = reclaim_loop limit env at cfg 0 p

-- The best head so far, with the kind that it came from.
abbrev Best : Type 0
Best = Option (ℕ × Text)

unfoldable pub beats : Scope → ℕ → ℕ → Bool
beats s top best =
    let p = (s.recs top).priority in
    let q = (s.recs best).priority in
    ltb_ℤ q p || (leb_ℤ p q && leb_ℤ q p && ltb (s.fifo top) (s.fifo best))

unfoldable pub consider : Scope → Text → Heap → Best → Best
consider s kind h best = elim (Pq.peek h) [
  | none ↦ best
  | some top ↦ elim best [
    | none ↦ some (top, kind)
    | some (b, k) ↦ if beats s top b then some (top, kind) else some (b, k)
  ]
]

unfoldable pub best_of_all : Scope → List (Text × Heap) → Best → Best
best_of_all s [] best = best
best_of_all s ((kind, h) ∷ heaps) best = best_of_all s heaps (consider s kind h best)

unfoldable pub best_of_kinds : Scope → List Text → Best → Best
best_of_kinds s [] best = best
best_of_kinds s (k ∷ kinds) best =
    best_of_kinds s kinds (elim (lookup k s.ready) [ none ↦ best | some h ↦ consider s k h best ])

unfoldable pub pop_ready : List Text → Scope → Option (ℕ × Scope)
pop_ready kinds s =
    let best = if is_empty kinds then best_of_all s s.ready none else best_of_kinds s kinds none in
    elim best [
      | none ↦ none
      | some (h, kind) ↦ elim (lookup kind s.ready) [
        | none ↦ none
        | some heap ↦ elim (Pq.pop (ready_less s) heap) [
          | none ↦ none
          | some (top, rest) ↦ some (h, record s { ready = insert kind rest s.ready })
        ]
      ]
    ]

unfoldable pub snapshot : ℕ → Scope → Node
snapshot h s =
    let r = s.recs h in
    record {
      scope = s.name;
      id = r.id;
      kind = r.kind;
      status = r.status;
      reason = r.reason;
      message = r.message;
      attempt = r.attempt;
      priority = r.priority;
      trigger = r.trigger;
      retry = r.retry;
      payload = r.payload;
      labels = r.labels;
      seq = r.seq;
      created_at = r.created_at;
      updated_at = r.updated_at;
    }

pub record ClaimRequest : Type 0 where
  pub kinds : List Text
  pub max : ℤ
  pub timeout : ℤ
  pub worker_id : Text

-- The grant of one node that has been taken off its ready set.
unfoldable pub grant : Env → ℕ → Text → ℕ → ℕ → Progress → Progress
grant env at worker lease_for h (s0, out) =
    let from = (s0.recs h).status in
    let s1 = leave_bucket h s0 in
    let r = s1.recs h in
    let s2 =
      put_rec h
        (record r {
          epoch = inc64 r.epoch;
          attempt = bump_attempt r.attempt;
          phase = Phase.claimed;
          status = Status.in_progress;
          worker = worker;
          updated_at = at;
        })
        s1 in
    let s3 = record s2 { deadline = update s2.deadline h (at + lease_for) } in
    let s4 = record s3 { leases = Pq.push (lease_less s3) h s3.leases } in
    emit env h EventKind.transition from (enter_bucket h s4, out)

unfoldable pub lease_of : ℕ → Scope → Lease
lease_of h s = record {
  scope = s.name;
  node_id = (s.recs h).id;
  epoch = (s.recs h).epoch;
  deadline = s.deadline h;
  node = snapshot h s;
}

-- One round for each lease that is still wanted.
unfoldable pub claim_loop :
    ℕ → Env → ℕ → ScopeConfig → ClaimRequest → ℕ → Progress → List Lease → Progress × List Lease
claim_loop zero env at cfg req lease_for p leases = (p, leases)
claim_loop (suc rounds) env at cfg req lease_for (s, out) leases = elim (pop_ready req.kinds s) [
  | none ↦ ((s, out), leases)
  | some (h, s') ↦
      let p' = grant env at req.worker_id lease_for h (s', out) in
      let rest = claim_loop rounds env at cfg req lease_for p' (leases ++ lease_of h p'.0 ∷ []) in
      if ltb 0 cfg.max_in_flight && leb cfg.max_in_flight s.stats.in_progress
      then ((s, out), leases)
      else rest
]

unfoldable pub claim : Env → ClaimRequest → Scope → Progress × List Lease
claim env req s =
    let cfg = resolved s.cfg in
    let at = now env s in
    let (p1, reclaimed, more) =
      reclaim_expired env at cfg (pos_part cfg.sweep_batch_size) (after_now s, []) in
    let p2 = promote_scheduled env at p1 in
    claim_loop (pos_part (max_ℤ req.max (pos 1))) env at cfg req
      (pos_part (clamp_lease cfg req.timeout)) p2 []
