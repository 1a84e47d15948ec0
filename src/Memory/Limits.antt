-- ===== src/Memory/Limits.antt =====
-- lease.go: how much one call of Claim hands out, and one reclaim takes back.
use dagworker.Base.{
  ℕ, zero, suc, ◌+◌, ◌≤◌, ◌<◌, ◌≡◌, Bool, true, false, ◌&&◌, Option, none, some, List, [], ◌∷◌,
  ◌++◌, arith, ltb, leb, length, length-append, Bool-cases, Option-cases, ◌⊎◌, inl, inr, pos,
  pos_part, max_ℤ,
}
use dagworker.Config.{ScopeConfig}
use dagworker.Event.{Effect}
use dagworker.Pq
use dagworker.Memory.State.{Env, Scope, is_claimed}
use dagworker.Memory.Log.{Progress}
use dagworker.Memory.Lease.{Lease, ClaimRequest, pop_ready, grant, lease_of, claim_loop, claim}

claim_loop-le :
    (rounds : ℕ) (env : Env) (at : ℕ) (cfg : ScopeConfig) (req : ClaimRequest) (lease_for : ℕ)
    (p : Progress) (leases : List Lease)
    → length (claim_loop rounds env at cfg req lease_for p leases).1 ≤ length leases + rounds
unfolding claim_loop
claim_loop-le zero env at cfg req lease_for p leases = omega arith
claim_loop-le (suc rounds) env at cfg req lease_for (s, out) leases =
    elim (Option-cases (pop_ready req.kinds s)) [
      | inl e ↦ rw (e, claim_loop) (omega arith)
      | inr ((h, s'), e) ↦
          let p' = grant env at req.worker_id lease_for h (s', out) in
          let more = leases ++ lease_of h p'.0 ∷ [] in
          let rest = claim_loop-le rounds env at cfg req lease_for p' more in
          elim (Bool-cases (ltb 0 cfg.max_in_flight && leb cfg.max_in_flight s.stats.in_progress)) [
            | inl full ↦ rw (e, full, claim_loop) (omega arith)
            | inr room ↦
                rw (e, room, claim_loop)
                  (omega (arith, rest, length-append leases (lease_of h p'.0 ∷ [])))
          ]
    ]

claim_loop-le_rounds :
    (rounds : ℕ) (env : Env) (at : ℕ) (cfg : ScopeConfig) (req : ClaimRequest) (lease_for : ℕ)
    (p : Progress)
    → length (claim_loop rounds env at cfg req lease_for p []).1 ≤ rounds
claim_loop-le_rounds rounds env at cfg req lease_for p =
    omega (arith, claim_loop-le rounds env at cfg req lease_for p [])

-- Claim hands out no more leases than it is asked for, and no more than one where it is asked for
-- none.
claim-le :
    (env : Env) (req : ClaimRequest) (s : Scope)
    → length (claim env req s).1 ≤ pos_part (max_ℤ req.max (pos 1))
unfolding claim
claim-le env req s = claim_loop-le_rounds (pos_part (max_ℤ req.max (pos 1))) _ _ _ _ _ _

-- The lease that ends first is not expired.
NoneDue : ℕ → Scope → Type 0
NoneDue at s = (h : ℕ) → Pq.peek s.leases ≡ some h → at < s.deadline h

-- What a reclaim from a count on leaves.
record Reclaims (at reclaimed rounds : ℕ) (r : Progress × ℕ × Bool) : Type 0 where
  within : r.1 ≤ reclaimed + rounds
  exhausts : r.2 ≡ false → NoneDue at r.0.0
  goes_on : r.2 ≡ true → r.1 ≡ reclaimed + rounds

-- The leases that a reclaim takes back, each the head of the lease heap when its turn comes: its
-- deadline is not after the reading, and its node, if there is one in the slot, is no longer claimed
-- afterwards and keeps its epoch.
pub data TakenBack : ℕ → ℕ → Progress → Progress → Type 0 where
  nothing : {at : ℕ} {p : Progress} → TakenBack at 0 p p
  another :
      {at : ℕ} {n h : ℕ} {s t : Scope} {out out' : List Effect} {q : Progress}
      → Pq.peek s.leases ≡ some h
      → s.deadline h ≤ at
      → ((s.recs h).alive ≡ false) ⊎ (is_claimed (t.recs h).phase ≡ false)
      → (t.recs h).epoch ≡ (s.recs h).epoch
      → TakenBack at n (t, out') q
      → TakenBack at (suc n) (s, out) q

-- The head of a heap, if there is one, is later than a reading.
abbrev pub Later : ℕ → (ℕ → ℕ) → Option ℕ → Type 0
Later at deadline none = Unit
Later at deadline (some h) = at < deadline h
