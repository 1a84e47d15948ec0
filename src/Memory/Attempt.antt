-- ===== src/Memory/Attempt.antt =====
-- lease.go: the end of an attempt, as a change that sets one node aside.
use dagworker.Base.{ℕ, ◌≡◌, ◌≢◌, refl, inl, inr, false, List, [], arith, Bool-cases, leb, update}
use dagworker.Status.{Status}
use dagworker.Config.{ScopeConfig}
use dagworker.Event.{EventKind, Effect}
use dagworker.Memory.State.{Env, Scope, NodeRec, put_rec}
use dagworker.Memory.Heaps.{remove_lease, schedule}
use dagworker.Memory.Log.{Progress, emit}
use dagworker.Memory.Settle.{Item, terminate, is_waiting}
use dagworker.Memory.Lease.{Failure, effective_retry, fail_attempt}
use dagworker.Memory.Terminate.{HasSlots}
use dagworker.Memory.Settled.{IsSettled, AllSettled, SameRule, SameRule-IsSettled}
use dagworker.Memory.Resolved.{terminate-AllSettled}

-- The nodes but one stand as they did, and no node appears.
pub record Aside (h : ℕ) (s t : Scope) : Type 0 where
  pub same_slots : t.slots ≡ s.slots
  pub same_alive : (k : ℕ) → (t.recs k).alive ≡ (s.recs k).alive
  pub others : (k : ℕ) → h ≢ k → SameRule (s.recs k) (t.recs k)

pub Aside-HasSlots : {h : ℕ} {s t : Scope} → Aside h s t → HasSlots s → HasSlots t
Aside-HasSlots e v = record {
  in_slots = λ k a. ground (arith, e.same_slots, e.same_alive k, v.in_slots k);
}

-- A node ended after changes to that node alone.
pub Aside-terminate :
    (env : Env) (it : Item) (s t : Scope) (out : List Effect)
    → Aside it.handle s t
    → HasSlots s
    → ((k : ℕ) → it.handle ≢ k → IsSettled (s.recs k))
    → AllSettled (terminate env it (t, out)).0
Aside-terminate env it s t out e slots rest =
    terminate-AllSettled env it t out (Aside-HasSlots e slots)
      (λ k ne. SameRule-IsSettled (e.others k ne) (rest k ne))

-- The node on its way to another attempt: its lease is gone and its failure is noted.
unfoldable pub failed : ℕ → Failure → ℕ → Scope → Scope
failed h failure at s0 =
    let s1 = remove_lease h s0 in
    let s2 = record s1 { deadline = update s1.deadline h 0 } in
    put_rec h
      (record (s2.recs h) {
        reason = failure.reason;
        message = failure.message;
        worker = [];
        updated_at = at;
      })
      s2

unfoldable pub unleased : ℕ → Scope → Scope
unleased h s0 = let s1 = remove_lease h s0 in record s1 { deadline = update s1.deadline h 0 }

pub unleased-Aside : (h : ℕ) (s : Scope) → Aside h s (unleased h s)
unfolding unleased remove_lease
unleased-Aside h s = record {
  same_slots = refl;
  same_alive = λ k. refl;
  others = λ k ne. ground arith;
}

pub schedule-Aside :
    (h : ℕ) (failure : Failure) (at later : ℕ) (s : Scope)
    → Aside h s (schedule h later (failed h failure at s))
unfolding schedule failed remove_lease
schedule-Aside h failure at later s = record {
  same_slots = refl;
  same_alive = λ k. ground arith;
  others = λ k ne. ground arith;
}

pub schedule-idle : (h at : ℕ) (s : Scope) → is_waiting ((schedule h at s).recs h).phase ≡ false
unfolding schedule
schedule-idle h at s = ground arith

-- A failed attempt either ends the node or parks it for a retry.
pub fail_cases {ℓ} :
    (P : Progress → Type ℓ) (env : Env) (h : ℕ) (failure : Failure) (cfg : ScopeConfig) (at : ℕ)
    (s : Scope) (out : List Effect)
    → ((it : Item) → it.handle ≡ h → P (terminate env it (unleased h s, out)))
    → ((later : ℕ) (from : Status)
        → P (emit env h EventKind.transition from (schedule h later (failed h failure at s), out)))
    → P (fail_attempt env h failure cfg at (s, out))
unfolding fail_attempt unleased failed
fail_cases P env h failure cfg at s out last again =
    elim (Bool-cases (leb (effective_retry h cfg s).attempts ((unleased h s).recs h).attempt)) [
      | inl e ↦ rw e (last _ refl)
      | inr e ↦ rw e (again _ _)
    ]

pub record-Aside :
    (h : ℕ) (r : NodeRec) (s : Scope) → r.alive ≡ (s.recs h).alive → Aside h s (put_rec h r s)
record-Aside h r s e = record {
  same_slots = refl;
  same_alive = λ k. ground arith;
  others = λ k ne. ground arith;
}

pub skipped-Aside :
    (h : ℕ) (s : Scope)
    → Aside h s (put_rec h (record ((unleased h s).recs h) { worker = [] }) (unleased h s))
unfolding unleased remove_lease
skipped-Aside h s = record {
  same_slots = refl;
  same_alive = λ k. ground arith;
  others = λ k ne. ground arith;
}
