-- ===== src/Memory/Terminate.antt =====
-- scope.go: the worklist of terminate, and the measure of the work that is left.
use dagworker.Base.{
  ℕ, zero, suc, ◌+◌, ◌≤◌, ◌<◌, ◌≡◌, refl, ap, true, false, List, [], ◌∷◌, arith, if◌then◌else◌,
  length, length-append, Bool-cases, Option-cases, inl, inr,
}
use dagworker.Status.{Status, Reason}
use dagworker.Event.{EventKind, Effect}
use dagworker.Memory.State.{Env, Scope, is_done}
use dagworker.Memory.Log.{Progress}
use dagworker.Memory.Edges.{mark_edge, marked, mark_satisfied}
use dagworker.Memory.Settle.{
  Item, doomed, ended, is_over, finish, react, tell, fan_out, terminate_step, terminate_loop,
  terminate, out_degrees,
}
use dagworker.Memory.Engine.{
  Engine, Engine-refl, Engine-trans, finish-Engine, finish-done, emit-Engine, fan_out-Engine,
}

-- Nothing runs on a node outside the slots.
pub record HasSlots (s : Scope) : Type 0 where
  pub in_slots : (h : ℕ) → (s.recs h).alive ≡ true → h < s.slots

pub Engine-HasSlots : {s t : Scope} → Engine s t → HasSlots s → HasSlots t
Engine-HasSlots {s} {t} e w = record {
  in_slots = λ h a. ground (arith, e.same_slots, (e.nodes h).same_alive, w.in_slots h);
}

react-length :
    (env : Env) (w : ℕ) (p : Progress) (queue : List Item)
    → length (react env w p queue).1 ≤ length queue + 1
unfolding react
react-length env w p queue = ground (arith, length-append queue (doomed w p.0 ∷ []))

tell-length :
    (env : Env) (h : ℕ) (status : Status) (reason : Reason) (w : ℕ) (p : Progress)
    (queue : List Item)
    → length (tell env h status reason w p queue).1 ≤ length queue + 1
unfolding tell mark_satisfied
tell-length env h status reason w (s, out) queue = elim (Option-cases (mark_edge h (s.pred w))) [
  | inl e ↦ rw (e, tell, mark_satisfied) (omega arith)
  | inr (edges, e) ↦
      rw (e, tell, mark_satisfied) (react-length env w (marked w status reason edges s, out) queue)
]

fan_out-length :
    (env : Env) (h : ℕ) (status : Status) (reason : Reason) (ws : List ℕ) (p : Progress)
    (queue : List Item)
    → length (fan_out env h status reason ws p queue).1 ≤ length queue + length ws
unfolding fan_out
fan_out-length env h status reason [] p queue = omega arith
fan_out-length env h status reason (w ∷ ws) p queue =
    let told = tell env h status reason w p queue in
    omega (
      arith,
      tell-length env h status reason w p queue,
      fan_out-length env h status reason ws told.0 told.1,
    )

-- The edges that leave the nodes which are not done.
abbrev weight : Scope → ℕ → ℕ
weight s h = if is_done (s.recs h).phase then 0 else length (s.succ h)

sum_below : ℕ → (ℕ → ℕ) → ℕ
sum_below zero w = 0
sum_below (suc n) w = w n + sum_below n w

sum_below_mono : (n : ℕ) (w v : ℕ → ℕ) → ((h : ℕ) → v h ≤ w h) → sum_below n v ≤ sum_below n w
unfolding sum_below
sum_below_mono zero w v le = omega arith
sum_below_mono (suc n) w v le = omega (arith, le n, sum_below_mono n w v le)

-- One entry that drops to zero takes its weight off the sum.
sum_below-drop :
    (n k : ℕ) (w v : ℕ → ℕ)
    → ((h : ℕ) → v h ≤ w h)
    → k < n
    → v k ≡ 0
    → sum_below n v + w k ≤ sum_below n w
unfolding sum_below
sum_below-drop zero k w v le lt z = absurd (omega arith)
sum_below-drop (suc n) k w v le lt z =
    ground (arith, le n, sum_below_mono n w v le, sum_below-drop n k w v le)

pending : Scope → ℕ
pending s = sum_below s.slots (weight s)

weight-Engine : {s t : Scope} → Engine s t → (h : ℕ) → weight t h ≤ weight s h
weight-Engine {s} {t} e h =
    ground (arith, (e.nodes h).final_phase, ap (λ (f : ℕ → List ℕ). length (f h)) e.same_succ)

pending-Engine : {s t : Scope} → Engine s t → pending t ≤ pending s
unfolding pending
pending-Engine {s} {t} e =
    rw (e.same_slots) (sum_below_mono s.slots (weight s) (weight t) (weight-Engine e))

pending-ended :
    {s t : Scope} (h : ℕ)
    → Engine s t
    → h < s.slots
    → is_done (s.recs h).phase ≡ false
    → is_done (t.recs h).phase ≡ true
    → pending t + length (s.succ h) ≤ pending s
unfolding pending
pending-ended {s} {t} h e lt live over =
    let was : weight s h ≡ length (s.succ h) = ground arith in
    let now : weight t h ≡ 0 = ground arith in
    rw (e.same_slots)
      (omega (arith, was, sum_below-drop s.slots h (weight s) (weight t) (weight-Engine e) lt now))

pub ended-Engine :
    (env : Env) (it : Item) (p : Progress)
    → is_done (p.0.recs it.handle).phase ≡ false
    → Engine p.0 (ended env it p).0
unfolding ended
ended-Engine env it (s, out) live = Engine-trans (finish-Engine env it s live) (
    emit-Engine env it.handle EventKind.transition (s.recs it.handle).status (finish env it s, out))

pub ended-done :
    (env : Env) (it : Item) (p : Progress)
    → is_done ((ended env it p).0.recs it.handle).phase ≡ true
unfolding ended
ended-done env it (s, out) =
    let kept =
      emit-Engine env it.handle EventKind.transition (s.recs it.handle).status
        (finish env it s, out) in
    ground (arith, finish-done env it s, (kept.nodes it.handle).final_phase)

-- One item off the queue: the engine's frame holds.
pub terminate_step-Engine :
    (env : Env) (it : Item) (queue : List Item) (p : Progress)
    → Engine p.0 (terminate_step env it queue p).0.0
unfolding terminate_step
terminate_step-Engine env it queue (s, out) = elim (Bool-cases (is_over it s)) [
  | inl skip ↦ rw skip (Engine-refl s)
  | inr go ↦
      let p = ended env it (s, out) in
      rw go (
        Engine-trans (ended-Engine env it (s, out) (ground arith))
          (fan_out-Engine env it.handle it.status it.reason (p.0.succ it.handle) p queue))
]

-- The work left: the entries of the queue, and the edges that leave nodes which are not done.
abbrev work : Progress × List Item → ℕ
work (p, queue) = length queue + pending p.0

terminate_step-work :
    (env : Env) (it : Item) (queue : List Item) (p : Progress)
    → HasSlots p.0
    → work (terminate_step env it queue p) < suc (length queue) + pending p.0
unfolding terminate_step
terminate_step-work env it queue (s, out) v = elim (Bool-cases (is_over it s)) [
  | inl skip ↦ rw skip (omega arith)
  | inr go ↦
      let h = it.handle in
      let p = ended env it (s, out) in
      let live : is_done (s.recs h).phase ≡ false = ground arith in
      let frame : Engine s p.0 = ended-Engine env it (s, out) live in
      let inside : h < s.slots = v.in_slots h (ground arith) in
      let out_edges : length (p.0.succ h) ≡ length (s.succ h) =
        ap (λ (f : ℕ → List ℕ). length (f h)) frame.same_succ in
      let after = fan_out-Engine env h it.status it.reason (p.0.succ h) p queue in
      rw go (
        omega (
          arith,
          out_edges,
          fan_out-length env h it.status it.reason (p.0.succ h) p queue,
          pending-Engine after,
          pending-ended h frame inside live (ended-done env it (s, out)),
        ))
]

pub terminate_loop-Engine :
    (fuel : ℕ) (env : Env) (queue : List Item) (p : Progress)
    → Engine p.0 (terminate_loop fuel env queue p).0.0
unfolding terminate_loop
terminate_loop-Engine zero env queue p = Engine-refl p.0
terminate_loop-Engine (suc fuel) env [] p = Engine-refl p.0
terminate_loop-Engine (suc fuel) env (it ∷ queue) p =
    let step = terminate_step env it queue p in
    Engine-trans (terminate_step-Engine env it queue p)
      (terminate_loop-Engine fuel env step.1 step.0)

-- With as much fuel as there is work, the queue runs dry.
terminate_loop-drains :
    (fuel : ℕ) (env : Env) (queue : List Item) (p : Progress)
    → HasSlots p.0
    → length queue + pending p.0 ≤ fuel
    → (terminate_loop fuel env queue p).1 ≡ []
unfolding terminate_loop
terminate_loop-drains zero env [] p v h = refl
terminate_loop-drains zero env (it ∷ queue) p v h = absurd (omega arith)
terminate_loop-drains (suc fuel) env [] p v h = refl
terminate_loop-drains (suc fuel) env (it ∷ queue) p v h =
    let step = terminate_step env it queue p in
    terminate_loop-drains fuel env step.1 step.0
      (Engine-HasSlots (terminate_step-Engine env it queue p) v)
      (omega (arith, terminate_step-work env it queue p v))

pending-le-degrees : (n : ℕ) (s : Scope) → sum_below n (weight s) ≤ out_degrees n s.succ
unfolding sum_below out_degrees
pending-le-degrees zero s = omega arith
pending-le-degrees (suc n) s = ground (arith, pending-le-degrees n s)

-- The worklist of terminate runs dry: as many rounds as the scope has edges, and one more, are
-- enough, where the live nodes lie within the arrays.
pub terminate_drains :
    (env : Env) (it : Item) (s : Scope) (out : List Effect)
    → HasSlots s
    → (terminate_loop (suc (out_degrees s.slots s.succ)) env (it ∷ []) (s, out)).1 ≡ []
unfolding pending
terminate_drains env it s out v =
    terminate_loop-drains (suc (out_degrees s.slots s.succ)) env (it ∷ []) (s, out) v
      (omega (arith, pending-le-degrees s.slots s))

pub terminate-Engine : (env : Env) (it : Item) (p : Progress) → Engine p.0 (terminate env it p).0
unfolding terminate
terminate-Engine env it (s, out) =
    terminate_loop-Engine (suc (out_degrees s.slots s.succ)) env (it ∷ []) (s, out)
