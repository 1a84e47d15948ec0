-- ===== src/Memory/Rest.antt =====
-- scope.go: settle, as to where it leaves the node and the others.
use dagworker.Base.{ℕ, ◌≡◌, ◌≢◌, sym, ◌∙◌, ◌⊎◌, inl, inr, true, false, List, [], arith, Bool-cases}
use dagworker.Status.{Status}
use dagworker.Trigger.{ready, unsatisfiable}
use dagworker.Event.{EventKind, Effect}
use dagworker.Memory.State.{Env, Scope, is_done, is_ready, is_blocked}
use dagworker.Memory.Heaps.{make_ready, make_blocked}
use dagworker.Memory.Log.{Progress}
use dagworker.Memory.Settle.{doomed, terminate, settle, is_waiting}
use dagworker.Memory.Engine.{
  Engine, Engine-refl, Engine-trans, make_ready-Engine, make_blocked-Engine, emit-Engine,
}
use dagworker.Memory.Terminate.{HasSlots, terminate-Engine}
use dagworker.Memory.Settled.{
  AtRest, IsSettled, SettledBut, SameRule, complete_settled, moved_settled, readied,
  readied-settled,
}
use dagworker.Memory.Resolved.{terminate-IsSettled}

make_blocked-SameRule :
    (w : ℕ) (s : Scope) (h : ℕ) → w ≢ h → SameRule (s.recs h) ((make_blocked w s).recs h)
unfolding make_blocked
make_blocked-SameRule w s h ne = ground arith

make_blocked-IsSettled :
    (w : ℕ) (s : Scope)
    → unsatisfiable (s.recs w).trigger (s.recs w).deps ≡ false
    → ready (s.recs w).trigger (s.recs w).deps ≡ false
    → IsSettled ((make_blocked w s).recs w)
unfolding make_blocked
make_blocked-IsSettled w s u r a waits = record {
  can_hold = ground (arith, u);
  by_rule = ground (arith, r);
}

readied-Engine :
    (env : Env) (w : ℕ) (p : Progress)
    → is_done (p.0.recs w).phase ≡ false
    → Engine p.0 (readied env w p).0
unfolding readied
readied-Engine env w (s, out) live =
    Engine-trans (make_ready-Engine w s live)
      (emit-Engine env w EventKind.ready Status.new (make_ready w s, out))

-- What settle can do to a scope: nothing, an end, a move to the ready set, or one out of it.
settle_cases {ℓ} :
    (P : Progress → Type ℓ) (env : Env) (h : ℕ) (s : Scope) (out : List Effect)
    → (is_waiting (s.recs h).phase ≡ false → P (s, out))
    → (unsatisfiable (s.recs h).trigger (s.recs h).deps ≡ true
        → P (terminate env (doomed h s) (s, out)))
    → (AtRest (s.recs h) → P (s, out))
    → (is_done (s.recs h).phase ≡ false
        → unsatisfiable (s.recs h).trigger (s.recs h).deps ≡ false
        → ready (s.recs h).trigger (s.recs h).deps ≡ true
        → P (readied env h (s, out)))
    → (is_done (s.recs h).phase ≡ false
        → unsatisfiable (s.recs h).trigger (s.recs h).deps ≡ false
        → ready (s.recs h).trigger (s.recs h).deps ≡ false
        → P (make_blocked h s, out))
    → P (settle env h (s, out))
unfolding settle readied
settle_cases P env h s out idle dead rest free hold =
    let r = s.recs h in
    elim (Bool-cases (is_waiting r.phase)) [
      | inr i ↦ rw i (idle i)
      | inl i ↦ elim (Bool-cases (unsatisfiable r.trigger r.deps)) [
        | inl u ↦ rw (i, u) (dead u)
        | inr u ↦ elim (Bool-cases (ready r.trigger r.deps)) [
          | inl y ↦ elim (Bool-cases (is_ready r.phase)) [
            | inl p ↦ rw (i, u, y, p) (rest (record { can_hold = u; by_rule = p ∙ sym y }))
            | inr p ↦ rw (i, u, y, p) (free (ground arith) u y)
          ]
          | inr n ↦ elim (Bool-cases (is_blocked r.phase)) [
            | inl b ↦ rw (i, u, n, b) (rest (record { can_hold = u; by_rule = ground arith }))
            | inr b ↦ rw (i, u, n, b) (hold (ground arith) u n)
          ]
        ]
      ]
    ]

pub settle-Engine : (env : Env) (h : ℕ) (p : Progress) → Engine p.0 (settle env h p).0
settle-Engine env h (s, out) =
    settle_cases (λ q. Engine s q.0) env h s out (λ i. Engine-refl s)
      (λ u. terminate-Engine env (doomed h s) (s, out)) (λ i. Engine-refl s)
      (λ live u r. readied-Engine env h (s, out) live) (λ live u r. make_blocked-Engine h s live)

-- Settling one node puts it where its rule says, and leaves the others settled.
pub settle-IsSettled :
    (Exempt : ℕ → Type 0) (env : Env) (h : ℕ) (s : Scope) (out : List Effect)
    → HasSlots s
    → ((k : ℕ) → h ≢ k → Exempt k ⊎ IsSettled (s.recs k))
    → (k : ℕ) → Exempt k ⊎ IsSettled ((settle env h (s, out)).0.recs k)
unfolding doomed
settle-IsSettled Exempt env h s out slots rest =
    settle_cases (λ q. SettledBut Exempt [] q.0) env h s out
      (λ i. complete_settled Exempt h s [] (inr (λ a waits. ground arith)) rest)
      (λ u. terminate-IsSettled Exempt env (doomed h s) s out slots rest)
      (λ i. complete_settled Exempt h s [] (inr (λ a waits. i)) rest)
      (λ live u r. readied-settled Exempt env h (s, out) [] u r rest)
      λ live u r.
        complete_settled Exempt h (make_blocked h s) [] (inr (make_blocked-IsSettled h s u r))
          (moved_settled Exempt h s (make_blocked h s) [] (make_blocked-SameRule h s) rest)
