-- ===== src/Memory/Settled.antt =====
-- scope.go: where a trigger rule puts a node, and how the engine's moves bear on that.
use dagworker.Base.{
  ℕ, ◌≡◌, ◌≢◌, refl, sym, ap, subst, ◌∙◌, ◌⊎◌, inl, inr, true, false, not, ◌&&◌, List, [], ◌∷◌,
  ◌++◌, arith, ◌==◌, ==_iff, Bool-cases,
}
use dagworker.Status.{Status, Reason}
use dagworker.Trigger.{TriggerRule, DepCounts, ready, unsatisfiable}
use dagworker.Event.{EventKind, Effect}
use dagworker.Memory.State.{Env, Scope, NodeRec, is_ready}
use dagworker.Memory.Heaps.{make_ready}
use dagworker.Memory.Log.{Progress, emit}
use dagworker.Memory.Edges.{count_outcome, fewer_unsatisfied}
use dagworker.Memory.Settle.{Item, doomed, react, is_waiting}

-- A live node that waits is ready exactly when its rule holds, and its rule can still hold.
pub record AtRest (r : NodeRec) : Type 0 where
  pub can_hold : unsatisfiable r.trigger r.deps ≡ false
  pub by_rule : is_ready r.phase ≡ ready r.trigger r.deps

abbrev pub IsSettled : NodeRec → Type 0
IsSettled r = r.alive ≡ true → is_waiting r.phase ≡ true → AtRest r

-- `Exempt` holds of nodes that are not asked to be settled.
module _ (Exempt : ℕ → Type 0) where
  abbrev pub Queued : ℕ → List Item → Type 0
  Queued h [] = Exempt h
  Queued h (it ∷ queue) = (it.handle ≡ h) ⊎ Queued h queue

  Queued-append :
      (h : ℕ) (queue : List Item) (it : Item) → Queued h queue → Queued h (queue ++ it ∷ [])
  Queued-append h [] it q = inr q
  Queued-append h (i ∷ queue) it (inl e) = inl e
  Queued-append h (i ∷ queue) it (inr q) = inr (Queued-append h queue it q)

  Queued-last : (queue : List Item) (it : Item) → Queued it.handle (queue ++ it ∷ [])
  Queued-last [] it = inl refl
  Queued-last (i ∷ queue) it = inr (Queued-last queue it)

  -- Every node is settled or on the queue, to be ended.
  abbrev pub SettledBut : List Item → Scope → Type 0
  SettledBut queue s = (h : ℕ) → Queued h queue ⊎ IsSettled (s.recs h)

abbrev pub AllSettled : Scope → Type 0
AllSettled s = (h : ℕ) → IsSettled (s.recs h)

-- The fields that settling is about.
pub record SameRule (r q : NodeRec) : Type 0 where
  pub same_phase : q.phase ≡ r.phase
  pub same_trigger : q.trigger ≡ r.trigger
  pub same_deps : q.deps ≡ r.deps
  pub same_alive : q.alive ≡ r.alive

pub SameRule-IsSettled : {r q : NodeRec} → SameRule r q → IsSettled r → IsSettled q
SameRule-IsSettled e s a w =
    let rest = s (sym e.same_alive ∙ a) (ap is_waiting (sym e.same_phase) ∙ w) in
    record { can_hold = ground (arith, rest.can_hold); by_rule = ground (arith, rest.by_rule) }

pub emit-SameRule :
    (env : Env) (w : ℕ) (kind : EventKind) (from : Status) (p : Progress) (h : ℕ)
    → SameRule (p.0.recs h) ((emit env w kind from p).0.recs h)
unfolding emit
emit-SameRule env w kind from (s, out) h = ground arith

make_ready-SameRule :
    (w : ℕ) (s : Scope) (h : ℕ) → w ≢ h → SameRule (s.recs h) ((make_ready w s).recs h)
unfolding make_ready
make_ready-SameRule w s h ne = ground arith

-- Once a rule holds, one more resolved predecessor leaves it held or makes it impossible.
pub held-counted :
    (t : TriggerRule) (d : DepCounts) (status : Status) (reason : Reason)
    → ready t d ≡ true
    → unsatisfiable t (count_outcome status reason (fewer_unsatisfied d)) ≡ false
    → ready t (count_outcome status reason (fewer_unsatisfied d)) ≡ true
unfolding ready unsatisfiable count_outcome fewer_unsatisfied
held-counted t d status reason h u = ground arith

make_ready-IsSettled :
    (w : ℕ) (s : Scope)
    → unsatisfiable (s.recs w).trigger (s.recs w).deps ≡ false
    → ready (s.recs w).trigger (s.recs w).deps ≡ true
    → IsSettled ((make_ready w s).recs w)
unfolding make_ready
make_ready-IsSettled w s u r a waits = record {
  can_hold = ground (arith, u);
  by_rule = ground (arith, r);
}

pub SameRule-trans : {r q p : NodeRec} → SameRule r q → SameRule q p → SameRule r p
SameRule-trans e f = ground arith

-- A node moved to the ready set, with its event.
unfoldable pub readied : Env → ℕ → Progress → Progress
readied env w (s, out) = emit env w EventKind.ready Status.new (make_ready w s, out)

-- What a ready node needs before it reacts: its rule holds, or can no longer.
abbrev pub Decided : NodeRec → Type 0
Decided r =
    r.alive ≡ true
    → is_ready r.phase ≡ true
    → unsatisfiable r.trigger r.deps ≡ false
    → ready r.trigger r.deps ≡ true

module _ (Exempt : ℕ → Type 0) where
  -- Every node but one is settled or on the queue.
  abbrev pub SettledExcept : ℕ → List Item → Scope → Type 0
  SettledExcept w queue s = (h : ℕ) → w ≢ h → Queued Exempt h queue ⊎ IsSettled (s.recs h)

  -- The node itself added to the others.
  pub complete_settled :
      (w : ℕ) (s : Scope) (queue : List Item)
      → Queued Exempt w queue ⊎ IsSettled (s.recs w)
      → SettledExcept w queue s
      → SettledBut Exempt queue s
  complete_settled w s queue mine rest h = elim (Bool-cases (w == h)) [
    | inl e ↦ subst (λ k. Queued Exempt k queue ⊎ IsSettled (s.recs k)) ((==_iff w h).0 e) mine
    | inr ne ↦ rest h (λ e. ground (arith, (==_iff w h).1 e))
  ]

  -- What a move of one node leaves for the others.
  pub moved_settled :
      (w : ℕ) (s t : Scope) (queue : List Item)
      → ((h : ℕ) → w ≢ h → SameRule (s.recs h) (t.recs h))
      → SettledExcept w queue s
      → SettledExcept w queue t
  moved_settled w s t queue same rest h ne = elim (rest h ne) [
    | inl q ↦ inl q
    | inr r ↦ inr (SameRule-IsSettled (same h ne) r)
  ]

  pub readied-settled :
      (env : Env) (w : ℕ) (p : Progress) (queue : List Item)
      → unsatisfiable (p.0.recs w).trigger (p.0.recs w).deps ≡ false
      → ready (p.0.recs w).trigger (p.0.recs w).deps ≡ true
      → SettledExcept w queue p.0
      → SettledBut Exempt queue (readied env w p).0
  unfolding readied
  readied-settled env w (s, out) queue u r rest =
      let t = make_ready w s in
      let emitted = emit-SameRule env w EventKind.ready Status.new (t, out) in
      let u' : Scope = (emit env w EventKind.ready Status.new (t, out)).0 in
      complete_settled w u' queue
        (inr (SameRule-IsSettled (emitted w) (make_ready-IsSettled w s u r)))
        (moved_settled w s u' queue
          (λ h ne. SameRule-trans (make_ready-SameRule w s h ne) (emitted h)) rest)

  pub react-settled :
      (env : Env) (w : ℕ) (s : Scope) (out : List Effect) (queue : List Item)
      → Queued Exempt w queue ⊎ Decided (s.recs w)
      → SettledExcept w queue s
      → SettledBut Exempt (react env w (s, out) queue).1 (react env w (s, out) queue).0.0
  unfolding react doomed readied
  react-settled env w s out queue mine rest =
      let r = s.recs w in
      elim (Bool-cases (is_waiting r.phase)) [
        | inr idle ↦ rw (idle) (complete_settled w s queue (inr (λ a waits. ground arith)) rest)
        | inl waits ↦ elim (Bool-cases (unsatisfiable r.trigger r.deps)) [
          | inl u ↦
              rw (waits, u)
                (complete_settled w s (queue ++ doomed w s ∷ [])
                  (inl (Queued-last Exempt queue (doomed w s)))
                  (λ h ne. elim (rest h ne) [
                    | inl q ↦ inl (Queued-append Exempt h queue (doomed w s) q)
                    | inr k ↦ inr k
                  ]))
          | inr u ↦ elim (Bool-cases (ready r.trigger r.deps && not (is_ready r.phase))) [
            | inl go ↦
                rw (waits, u, go) (readied-settled env w (s, out) queue u (ground arith) rest)
            | inr stay ↦
                rw (waits, u, stay) (complete_settled w s queue (stays mine waits u stay) rest)
          ]
        ]
      ]
    where
      stays :
          Queued Exempt w queue ⊎ Decided (s.recs w)
          → is_waiting (s.recs w).phase ≡ true
          → unsatisfiable (s.recs w).trigger (s.recs w).deps ≡ false
          → (ready (s.recs w).trigger (s.recs w).deps && not (is_ready (s.recs w).phase)) ≡ false
          → Queued Exempt w queue ⊎ IsSettled (s.recs w)
      stays (inl q) waits u stay = inl q
      stays (inr d) waits u stay =
          inr (λ a x. let held = d a in record { can_hold = u; by_rule = ground arith })
