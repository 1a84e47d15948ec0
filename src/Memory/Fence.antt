-- ===== src/Memory/Fence.antt =====
-- storage/memory/lease.go: which leases the fencing check accepts, and what it protects.
use dagworker.Base.{
  ℕ, ◌+◌, ◌^◌, ◌<◌, ◌≤◌, ◌≡◌, ◌≢◌, refl, ap, ◌∙◌, ◌↔◌, update, true, false, not, ◌||◌, some, arith,
  lookup, ==_iff, ◌==◌, Text, ℤ, if◌then◌else◌, inc64,
}
use dagworker.Errors.{ok, err, plain, err_lease_mismatch}
use dagworker.Status.{Status, Phase}
use dagworker.Memory.State.{Env, Scope, is_claimed, leave_bucket, enter_bucket, put_rec}
use dagworker.Event.{EventKind}
use dagworker.Pq
use dagworker.Memory.Heaps.{lease_less}
use dagworker.Memory.Engine.{emit-Engine}
use dagworker.Memory.Settled.{emit-SameRule}
use dagworker.Memory.Log.{Progress}
use dagworker.Memory.Lease.{Lease, bump_attempt, grant, lease_of}
use dagworker.Memory.Complete.{CompleteRequest, fence, complete, extend}

-- The scope's own view of a lease that is current: its node is claimed, at the lease's epoch.
pub record Holds (l : Lease) (s : Scope) (h : ℕ) : Type 0 where
  pub found : lookup l.node_id s.index ≡ some h
  pub claimed : is_claimed (s.recs h).phase ≡ true
  pub current : (s.recs h).epoch ≡ l.epoch

-- The check at a node that is found.
fence-found :
    (l : Lease) (s : Scope) (h : ℕ)
    → lookup l.node_id s.index ≡ some h
    → fence l s ≡ (
        if not (is_claimed (s.recs h).phase) || not ((s.recs h).epoch == l.epoch)
        then err (plain err_lease_mismatch)
        else ok h)
unfolding fence
fence-found l s h e = rw (e, fence) refl

fence-to : (l : Lease) (s : Scope) (h : ℕ) → fence l s ≡ ok h → Holds l s h
unfolding fence
fence-to l s h e = ground (arith, e)

-- The fencing check returns the handle of a node exactly when the lease names it in the index, it
-- is claimed, and it is at the epoch of the lease.
pub fence_iff : (l : Lease) (s : Scope) (h : ℕ) → (fence l s ≡ ok h) ↔ Holds l s h
fence_iff l s h =
    (fence-to l s h, λ t. rw (fence-found l s h t.found) (ground (arith, t.claimed, t.current)))

pub fence-stale :
    (l : Lease) (s : Scope) (h : ℕ)
    → lookup l.node_id s.index ≡ some h
    → (s.recs h).epoch ≢ l.epoch
    → fence l s ≡ err (plain err_lease_mismatch)
fence-stale l s h found stale = rw (fence-found l s h found) (ground arith)

pub fence-unclaimed :
    (l : Lease) (s : Scope) (h : ℕ)
    → lookup l.node_id s.index ≡ some h
    → is_claimed (s.recs h).phase ≡ false
    → fence l s ≡ err (plain err_lease_mismatch)
fence-unclaimed l s h found free = rw (fence-found l s h found) (ground arith)

-- A holder whose lease is of another epoch than the node that it names cannot write: Complete and
-- Extend both report ErrLeaseMismatch and leave the scope as it was.
pub fence-protects :
    (env : Env) (req : CompleteRequest) (timeout : ℤ) (s : Scope) (h : ℕ)
    → lookup req.lease.node_id s.index ≡ some h
    → (s.recs h).epoch ≢ req.lease.epoch
    → (complete env req s ≡ (s, err (plain err_lease_mismatch)))
      × (extend env req.lease timeout s ≡ (s, err (plain err_lease_mismatch)))
unfolding complete extend
fence-protects env req timeout s h found stale =
    let e = fence-stale req.lease s h found stale in (rw (e, complete) refl, rw (e, extend) refl)

-- The scope of a grant before its event is recorded.
granted : ℕ → Text → ℕ → ℕ → Scope → Scope
granted at worker lease_for h s0 =
    let s1 = leave_bucket h s0 in
    let r = s1.recs h in
    let s2 =
      put_rec h
        (record r {
          epoch = inc64 r.epoch;
          attempt = bump_attempt r.attempt;
          phase = Phase.claimed;
          status = Status.in_progress;
          worker = worker;
          updated_at = at;
        })
        s1 in
    let s3 = record s2 { deadline = update s2.deadline h (at + lease_for) } in
    let s4 = record s3 { leases = Pq.push (lease_less s3) h s3.leases } in enter_bucket h s4

granted-record :
    (at : ℕ) (worker : Text) (lease_for h : ℕ) (s : Scope)
    → (((granted at worker lease_for h s).recs h).epoch ≡ inc64 (s.recs h).epoch)
      × (is_claimed ((granted at worker lease_for h s).recs h).phase ≡ true)
      × (((granted at worker lease_for h s).recs h).id ≡ (s.recs h).id)
      × ((granted at worker lease_for h s).index ≡ s.index)
unfolding granted leave_bucket enter_bucket
granted-record at worker lease_for h s =
    let same : (h == h) ≡ true = (==_iff h h).1 refl in
    (rw same refl, rw same refl, rw same refl, refl)

-- The record of a node that has been granted.
pub grant-record :
    (env : Env) (at : ℕ) (worker : Text) (lease_for h : ℕ) (p : Progress)
    → (((grant env at worker lease_for h p).0.recs h).epoch ≡ inc64 (p.0.recs h).epoch)
      × (is_claimed ((grant env at worker lease_for h p).0.recs h).phase ≡ true)
      × (((grant env at worker lease_for h p).0.recs h).id ≡ (p.0.recs h).id)
      × ((grant env at worker lease_for h p).0.index ≡ p.0.index)
unfolding grant granted
grant-record env at worker lease_for h (s, out) =
    let t = granted at worker lease_for h s in
    let from = (s.recs h).status in
    let (epoch, claimed, id, index) = granted-record at worker lease_for h s in
    let frame = emit-Engine env h EventKind.transition from (t, out) in
    let same = emit-SameRule env h EventKind.transition from (t, out) h in
    (
      (frame.nodes h).same_epoch ∙ epoch,
      ap is_claimed same.same_phase ∙ claimed,
      (frame.nodes h).same_id ∙ id,
      frame.same_index ∙ index,
    )

-- A grant hands out a lease that the fencing check accepts, and after it the check refuses every
-- lease of an epoch up to the one before the grant, where the node is in the index under its name
-- and its epoch has not reached the end of its 64 bits.
pub grant-fences :
    (env : Env) (at : ℕ) (worker : Text) (lease_for h : ℕ) (p : Progress) (old : Lease)
    → lookup (p.0.recs h).id p.0.index ≡ some h
    → (p.0.recs h).epoch + 1 < 2 ^ 64
    → old.node_id ≡ (p.0.recs h).id
    → old.epoch ≤ (p.0.recs h).epoch
    → (fence
          (lease_of h (grant env at worker lease_for h p).0)
          (grant env at worker lease_for h p).0
        ≡ ok h)
      × (fence old (grant env at worker lease_for h p).0 ≡ err (plain err_lease_mismatch))
unfolding lease_of
grant-fences env at worker lease_for h p old found room same older =
    let q = (grant env at worker lease_for h p).0 in
    let (epoch, claimed, id, index) = grant-record env at worker lease_for h p in
    let mine : lookup (q.recs h).id q.index ≡ some h = rw (id, index) found in
    let theirs : lookup old.node_id q.index ≡ some h = rw (same, index) found in
    (
      (fence_iff (lease_of h q) q h).1 (record { found = mine; claimed = claimed; current = refl }),
      fence-stale old q h theirs (λ e. absurd (omega (arith, epoch, e))),
    )
