-- ===== src/Memory/Resolved.antt =====
-- scope.go: the settled states through the fan-out, terminate and settle.
use dagworker.Base.{
  ℕ, zero, suc, ◌≡◌, ◌≢◌, refl, subst, ◌⊎◌, inl, inr, true, not, ◌||◌, List, [], ◌∷◌, arith,
  Bool-cases, Option-cases,
}
use dagworker.Status.{Status, Reason}
use dagworker.Event.{EventKind, Effect}
use dagworker.Memory.State.{Env, Scope, NodeRec, PredEdge, is_done}
use dagworker.Memory.Log.{Progress, emit}
use dagworker.Memory.Edges.{mark_edge, marked, mark_satisfied}
use dagworker.Memory.Settle.{
  Item, ended, is_over, finish, tell, fan_out, terminate_step, terminate_loop, terminate,
  out_degrees,
}
use dagworker.Memory.Engine.{finish-done}
use dagworker.Memory.Terminate.{HasSlots, terminate_drains}
use dagworker.Memory.Settled.{
  IsSettled, Queued, SettledBut, AllSettled, SameRule, SameRule-IsSettled, SameRule-trans, Decided,
  complete_settled, moved_settled, emit-SameRule, react-settled, held-counted,
}

marked-SameRule :
    (w : ℕ) (status : Status) (reason : Reason) (edges : List PredEdge) (s : Scope) (h : ℕ)
    → w ≢ h
    → SameRule (s.recs h) ((marked w status reason edges s).recs h)
unfolding marked
marked-SameRule w status reason edges s h ne = ground arith

-- A settled ready node keeps a rule that holds, unless the new outcome makes it impossible.
marked-Decided :
    (w : ℕ) (status : Status) (reason : Reason) (edges : List PredEdge) (s : Scope)
    → IsSettled (s.recs w)
    → Decided ((marked w status reason edges s).recs w)
unfolding marked
marked-Decided w status reason edges s settled =
    let r = s.recs w in
    let kept = held-counted r.trigger r.deps status reason in ground (arith, settled, kept)

finish-SameRule :
    (env : Env) (it : Item) (s : Scope) (h : ℕ)
    → it.handle ≢ h
    → SameRule (s.recs h) ((finish env it s).recs h)
unfolding finish
finish-SameRule env it s h ne = ground arith

over-IsSettled : (r : NodeRec) → (not r.alive || is_done r.phase) ≡ true → IsSettled r
over-IsSettled r over a waits = ground arith

module _ (Exempt : ℕ → Type 0) where
  tell-settled :
      (env : Env) (h : ℕ) (status : Status) (reason : Reason) (w : ℕ) (p : Progress)
      (queue : List Item)
      → SettledBut Exempt queue p.0
      → SettledBut Exempt
          (tell env h status reason w p queue).1
          (tell env h status reason w p queue).0.0
  unfolding tell mark_satisfied
  tell-settled env h status reason w (s, out) queue all =
      elim (Option-cases (mark_edge h (s.pred w))) [
        | inl e ↦ rw (e, tell, mark_satisfied) all
        | inr (edges, e) ↦
            let t = marked w status reason edges s in
            let mine : Queued Exempt w queue ⊎ Decided (t.recs w) = elim (all w) [
              | inl q ↦ inl q
              | inr r ↦ inr (marked-Decided w status reason edges s r)
            ] in
            rw (e, tell, mark_satisfied)
              (react-settled Exempt env w t out queue mine (
                moved_settled Exempt w s t queue (marked-SameRule w status reason edges s)
                  λ k ne. all k))
      ]

  fan_out-settled :
      (env : Env) (h : ℕ) (status : Status) (reason : Reason) (ws : List ℕ) (p : Progress)
      (queue : List Item)
      → SettledBut Exempt queue p.0
      → SettledBut Exempt
          (fan_out env h status reason ws p queue).1
          (fan_out env h status reason ws p queue).0.0
  unfolding fan_out
  fan_out-settled env h status reason [] p queue all = all
  fan_out-settled env h status reason (w ∷ ws) p queue all =
      let told = tell env h status reason w p queue in
      fan_out-settled env h status reason ws told.0 told.1
        (tell-settled env h status reason w p queue all)

  -- The head of the queue is dealt with once its node is over.
  off_queue :
      (it : Item) (s : Scope) (queue : List Item)
      → IsSettled (s.recs it.handle)
      → SettledBut Exempt (it ∷ queue) s
      → SettledBut Exempt queue s
  off_queue it s queue mine all = complete_settled Exempt it.handle s queue (inr mine) (λ h ne.
      elim (all h) [ inl q ↦ elim q [ inl e ↦ absurd (ne e) | inr q' ↦ inl q' ] | inr r ↦ inr r ])

  ended-settled :
      (env : Env) (it : Item) (p : Progress) (queue : List Item)
      → SettledBut Exempt (it ∷ queue) p.0
      → SettledBut Exempt queue (ended env it p).0
  unfolding ended
  ended-settled env it (s, out) queue all =
      let t = finish env it s in
      let from = (s.recs it.handle).status in
      let emitted = emit-SameRule env it.handle EventKind.transition from (t, out) in
      let fin : Scope = (emit env it.handle EventKind.transition from (t, out)).0 in
      let over = finish-done env it s in
      off_queue it fin queue
        (SameRule-IsSettled (emitted it.handle) (over-IsSettled (t.recs it.handle) (ground arith)))
        (complete_settled Exempt it.handle fin (it ∷ queue) (inl (inl refl)) (
          moved_settled Exempt it.handle s fin (it ∷ queue)
            (λ h ne. SameRule-trans (finish-SameRule env it s h ne) (emitted h)) λ h ne. all h))

  terminate_step-settled :
      (env : Env) (it : Item) (queue : List Item) (p : Progress)
      → SettledBut Exempt (it ∷ queue) p.0
      → SettledBut Exempt (terminate_step env it queue p).1 (terminate_step env it queue p).0.0
  unfolding terminate_step
  terminate_step-settled env it queue (s, out) all = elim (Bool-cases (is_over it s)) [
    | inl skip ↦ rw skip (off_queue it s queue (over-IsSettled (s.recs it.handle) skip) all)
    | inr go ↦
        let p = ended env it (s, out) in
        rw go (
          fan_out-settled env it.handle it.status it.reason (p.0.succ it.handle) p queue
            (ended-settled env it (s, out) queue all))
  ]

  terminate_loop-settled :
      (fuel : ℕ) (env : Env) (queue : List Item) (p : Progress)
      → SettledBut Exempt queue p.0
      → SettledBut Exempt (terminate_loop fuel env queue p).1 (terminate_loop fuel env queue p).0.0
  unfolding terminate_loop
  terminate_loop-settled zero env queue p all = all
  terminate_loop-settled (suc fuel) env [] p all = all
  terminate_loop-settled (suc fuel) env (it ∷ queue) p all =
      let step = terminate_step env it queue p in
      terminate_loop-settled fuel env step.1 step.0 (terminate_step-settled env it queue p all)

  -- After terminate the queue is empty, so that only the exempt nodes may be unsettled.
  pub terminate-IsSettled :
      (env : Env) (it : Item) (s : Scope) (out : List Effect)
      → HasSlots s
      → ((h : ℕ) → it.handle ≢ h → Exempt h ⊎ IsSettled (s.recs h))
      → (h : ℕ) → Exempt h ⊎ IsSettled ((terminate env it (s, out)).0.recs h)
  unfolding terminate
  terminate-IsSettled env it s out slots rest h =
      let fuel = suc (out_degrees s.slots s.succ) in
      let start =
        complete_settled Exempt it.handle s (it ∷ []) (inl (inl refl))
          (λ k ne. later k (rest k ne)) in
      elim (terminate_loop-settled fuel env (it ∷ []) (s, out) start h) [
        | inl q ↦ inl (subst (Queued Exempt h) (terminate_drains env it s out slots) q)
        | inr r ↦ inr r
      ]
    where
      later :
          (k : ℕ)
          → Exempt k ⊎ IsSettled (s.recs k)
          → Queued Exempt k (it ∷ []) ⊎ IsSettled (s.recs k)
      later k (inl x) = inl (inr x)
      later k (inr r) = inr r

-- After terminate, however deep the cascade, every live node that waits is ready exactly when its
-- trigger rule holds of its tally, and its rule can still hold, provided that the live nodes lie
-- within the arrays and that every node but the root stood so before.
pub terminate-AllSettled :
    (env : Env) (it : Item) (s : Scope) (out : List Effect)
    → HasSlots s
    → ((h : ℕ) → it.handle ≢ h → IsSettled (s.recs h))
    → AllSettled (terminate env it (s, out)).0
terminate-AllSettled env it s out slots rest h =
    elim (terminate-IsSettled (λ k. ⊥) env it s out slots (λ k ne. inr (rest k ne)) h) [
      | inl q ↦ absurd q
      | inr r ↦ r
    ]
