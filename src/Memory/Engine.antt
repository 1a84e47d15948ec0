-- ===== src/Memory/Engine.antt =====
-- What the scheduling engine (the moves between phases, the event log, settle and terminate) may
-- change of a scope, as a relation between the scope before and after.
use dagworker.Base.{ℕ, ◌≡◌, refl, ◌∙◌, true, false, List, [], ◌∷◌, arith, Option-cases, inl, inr}
use dagworker.Status.{Status, Reason}
use dagworker.Event.{EventKind, Effect}
use dagworker.Memory.State.{Env, Scope, NodeRec, PredEdge, is_done}
use dagworker.Memory.Heaps.{make_ready, make_blocked}
use dagworker.Memory.Log.{Progress, append_log, record_effect, emit}
use dagworker.Memory.Edges.{mark_edge, marked, mark_satisfied}
use dagworker.Memory.Settle.{Item, finish, react, tell, fan_out}

-- One node before and after.
pub record Kept (r q : NodeRec) : Type 0 where
  pub same_id : q.id ≡ r.id
  pub same_kind : q.kind ≡ r.kind
  pub same_epoch : q.epoch ≡ r.epoch
  pub same_trigger : q.trigger ≡ r.trigger
  pub same_alive : q.alive ≡ r.alive
  pub final_phase : is_done r.phase ≡ true → q.phase ≡ r.phase
  pub final_status : is_done r.phase ≡ true → q.status ≡ r.status
  pub final_reason : is_done r.phase ≡ true → q.reason ≡ r.reason

pub record Engine (s t : Scope) : Type 0 where
  pub same_slots : t.slots ≡ s.slots
  pub same_index : t.index ≡ s.index
  pub same_free : t.free ≡ s.free
  pub same_succ : t.succ ≡ s.succ
  pub same_floor : t.epoch_floor ≡ s.epoch_floor
  pub nodes : (h : ℕ) → Kept (s.recs h) (t.recs h)

pub Kept-refl : (r : NodeRec) → Kept r r
Kept-refl r = ground arith

pub Kept-trans : {r q p : NodeRec} → Kept r q → Kept q p → Kept r p
Kept-trans k l = ground arith

pub Engine-refl : (s : Scope) → Engine s s
Engine-refl s = record {
  same_slots = refl;
  same_index = refl;
  same_free = refl;
  same_succ = refl;
  same_floor = refl;
  nodes = λ h. Kept-refl (s.recs h);
}

pub Engine-trans : {s t u : Scope} → Engine s t → Engine t u → Engine s u
Engine-trans e f = record {
  same_slots = f.same_slots ∙ e.same_slots;
  same_index = f.same_index ∙ e.same_index;
  same_free = f.same_free ∙ e.same_free;
  same_succ = f.same_succ ∙ e.same_succ;
  same_floor = f.same_floor ∙ e.same_floor;
  nodes = λ h. Kept-trans (e.nodes h) (f.nodes h);
}

pub make_ready-Engine :
    (h : ℕ) (s : Scope) → is_done (s.recs h).phase ≡ false → Engine s (make_ready h s)
unfolding make_ready
make_ready-Engine h s live = record {
  same_slots = refl;
  same_index = refl;
  same_free = refl;
  same_succ = refl;
  same_floor = refl;
  nodes = λ k. ground arith;
}

pub make_blocked-Engine :
    (h : ℕ) (s : Scope) → is_done (s.recs h).phase ≡ false → Engine s (make_blocked h s)
unfolding make_blocked
make_blocked-Engine h s live = record {
  same_slots = refl;
  same_index = refl;
  same_free = refl;
  same_succ = refl;
  same_floor = refl;
  nodes = λ k. ground arith;
}

pub finish-Engine :
    (env : Env) (it : Item) (s : Scope)
    → is_done (s.recs it.handle).phase ≡ false
    → Engine s (finish env it s)
unfolding finish
finish-Engine env it s live = record {
  same_slots = refl;
  same_index = refl;
  same_free = refl;
  same_succ = refl;
  same_floor = refl;
  nodes = λ k. ground arith;
}

pub finish-done :
    (env : Env) (it : Item) (s : Scope) → is_done ((finish env it s).recs it.handle).phase ≡ true
unfolding finish
finish-done env it s = ground arith

append_log-Engine : (ef : Effect) (s : Scope) → Engine s (append_log ef s)
unfolding append_log
append_log-Engine ef s = ground arith

record_effect-Engine :
    (env : Env) (h : ℕ) (kind : EventKind) (from : Status) (s : Scope)
    → Engine s (record_effect env h kind from s).0
unfolding record_effect
record_effect-Engine env h kind from s =
    Engine-trans
      (record {
        same_slots = refl;
        same_index = refl;
        same_free = refl;
        same_succ = refl;
        same_floor = refl;
        nodes = λ k. ground arith;
      })
      (append_log-Engine _ _)

pub emit-Engine :
    (env : Env) (h : ℕ) (kind : EventKind) (from : Status) (p : Progress)
    → Engine p.0 (emit env h kind from p).0
unfolding emit
emit-Engine env h kind from p = record_effect-Engine env h kind from p.0

pub marked-Engine :
    (w : ℕ) (status : Status) (reason : Reason) (edges : List PredEdge) (s : Scope)
    → Engine s (marked w status reason edges s)
unfolding marked
marked-Engine w status reason edges s = record {
  same_slots = refl;
  same_index = refl;
  same_free = refl;
  same_succ = refl;
  same_floor = refl;
  nodes = λ k. ground arith;
}

pub react-Engine :
    (env : Env) (w : ℕ) (s : Scope) (out : List Effect) (queue : List Item)
    → Engine s (react env w (s, out) queue).0.0
unfolding react
react-Engine env w s out queue =
    let moved = λ (live : is_done (s.recs w).phase ≡ false).
      Engine-trans (make_ready-Engine w s live)
        (emit-Engine env w EventKind.ready Status.new (make_ready w s, out)) in
    ground (arith, Engine-refl s, moved)

pub tell-Engine :
    (env : Env) (h : ℕ) (status : Status) (reason : Reason) (w : ℕ) (p : Progress)
    (queue : List Item)
    → Engine p.0 (tell env h status reason w p queue).0.0
unfolding tell mark_satisfied
tell-Engine env h status reason w (s, out) queue = elim (Option-cases (mark_edge h (s.pred w))) [
  | inl e ↦ rw (e, tell, mark_satisfied) (Engine-refl s)
  | inr (edges, e) ↦
      rw (e, tell, mark_satisfied)
        (Engine-trans (marked-Engine w status reason edges s)
          (react-Engine env w (marked w status reason edges s) out queue))
]

pub fan_out-Engine :
    (env : Env) (h : ℕ) (status : Status) (reason : Reason) (ws : List ℕ) (p : Progress)
    (queue : List Item)
    → Engine p.0 (fan_out env h status reason ws p queue).0.0
unfolding fan_out
fan_out-Engine env h status reason [] p queue = Engine-refl p.0
fan_out-Engine env h status reason (w ∷ ws) p queue =
    Engine-trans (tell-Engine env h status reason w p queue)
      (fan_out-Engine env h status reason ws _ _)
