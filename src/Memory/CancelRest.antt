-- ===== src/Memory/CancelRest.antt =====
-- graph.go: Cancel and CancelScope, as to which nodes they end and where they leave the others.
use dagworker.Base.{
  ℕ, ◌≡◌, sym, ap, ◌∙◌, subst, ◌⊎◌, inl, inr, true, not, List, [], ◌∷◌, if◌then◌else◌, Bool-cases,
  Option-cases, Text, lookup, map, filter,
}
use dagworker.Status.{Status, Reason}
use dagworker.Memory.State.{Env, Scope, is_done, refresh_complete}
use dagworker.Memory.Log.{Progress}
use dagworker.Memory.Settle.{Item, terminal_message}
use dagworker.Memory.Change.{terminate_all, cancel_loop, cancel, cancel_live, cancel_scope}
use dagworker.Memory.Engine.{Engine, Engine-refl, Engine-trans}
use dagworker.Memory.Terminate.{HasSlots, Engine-HasSlots, terminate-Engine}
use dagworker.Memory.Settled.{AllSettled}
use dagworker.Memory.Resolved.{terminate-AllSettled}
use dagworker.Memory.Spent.{terminate-done}

-- A scope whose nodes lie within the arrays and are settled.
pub record IsSound (s : Scope) : Type 0 where
  pub slots : HasSlots s
  pub settled : AllSettled s

abbrev cancelled : ℕ → Item
cancelled h = record {
  handle = h;
  status = Status.error;
  reason = Reason.cancelled;
  message = terminal_message Reason.cancelled;
}

-- One node cancelled, unless it is done.
cancel_one : Env → ℕ → Progress → Progress
cancel_one env h (s, out) =
    if is_done (s.recs h).phase
    then (s, out)
    else terminate_all env Reason.cancelled (h ∷ []) (s, out)

cancel_one-IsSound :
    (env : Env) (h : ℕ) (p : Progress) → IsSound p.0 → IsSound (cancel_one env h p).0
unfolding cancel_one terminate_all
cancel_one-IsSound env h (s, out) sound = elim (Bool-cases (is_done (s.recs h).phase)) [
  | inl over ↦ rw over sound
  | inr live ↦ rw live (record {
    slots = Engine-HasSlots (terminate-Engine env (cancelled h) (s, out)) sound.slots;
    settled = terminate-AllSettled env (cancelled h) s out sound.slots (λ k ne. sound.settled k);
  })
]

refresh_complete-IsSound : (s : Scope) → IsSound s → IsSound (refresh_complete s)
unfolding refresh_complete
refresh_complete-IsSound s sound = record {
  slots = record { in_slots = sound.slots.in_slots };
  settled = sound.settled;
}

cancel_loop-IsSound :
    (env : Env) (ids : List Text) (p : Progress) → IsSound p.0 → IsSound (cancel_loop env ids p).0
unfolding cancel_loop cancel_one
cancel_loop-IsSound env [] (s, out) sound = refresh_complete-IsSound s sound
cancel_loop-IsSound env (id ∷ ids) (s, out) sound = elim (Option-cases (lookup id s.index)) [
  | inl e ↦ rw (e, cancel_loop) sound
  | inr (h, e) ↦
      rw (e, cancel_loop)
        (cancel_loop-IsSound env ids (cancel_one env h (s, out))
          (cancel_one-IsSound env h (s, out) sound))
]

-- Cancel, in a scope whose live nodes lie within the arrays and, where they are blocked or ready,
-- stand where their trigger rules put them, leaves such a scope, whether or not it stops at an
-- identifier that is missing.
pub cancel-IsSound :
    (env : Env) (ids : List Text) (s : Scope) → IsSound s → IsSound (cancel env ids s).0
unfolding cancel
cancel-IsSound env ids s sound = cancel_loop-IsSound env ids (s, []) sound

cancel_live-IsSound :
    (env : Env) (live : List ℕ) (p : Progress) → IsSound p.0 → IsSound (cancel_live env live p).0
unfolding cancel_live cancel_one
cancel_live-IsSound env [] p sound = sound
cancel_live-IsSound env (h ∷ live) (s, out) sound =
    cancel_live-IsSound env live (cancel_one env h (s, out))
      (cancel_one-IsSound env h (s, out) sound)

cancel_one-Engine : (env : Env) (h : ℕ) (p : Progress) → Engine p.0 (cancel_one env h p).0
unfolding cancel_one terminate_all
cancel_one-Engine env h (s, out) = elim (Bool-cases (is_done (s.recs h).phase)) [
  | inl over ↦ rw over (Engine-refl s)
  | inr live ↦ rw live (terminate-Engine env (cancelled h) (s, out))
]

cancel_live-Engine :
    (env : Env) (live : List ℕ) (p : Progress) → Engine p.0 (cancel_live env live p).0
unfolding cancel_live cancel_one
cancel_live-Engine env [] p = Engine-refl p.0
cancel_live-Engine env (h ∷ live) (s, out) =
    Engine-trans (cancel_one-Engine env h (s, out))
      (cancel_live-Engine env live (cancel_one env h (s, out)))

cancel_one-done :
    (env : Env) (h : ℕ) (p : Progress)
    → (p.0.recs h).alive ≡ true
    → is_done ((cancel_one env h p).0.recs h).phase ≡ true
unfolding cancel_one terminate_all
cancel_one-done env h (s, out) alive = elim (Bool-cases (is_done (s.recs h).phase)) [
  | inl over ↦ rw over over
  | inr live ↦ rw live (terminate-done env (cancelled h) s out alive)
]

abbrev pub Member : ℕ → List ℕ → Type 0
Member h [] = ⊥
Member h (k ∷ ks) = (k ≡ h) ⊎ Member h ks

cancel_live-done :
    (env : Env) (live : List ℕ) (h : ℕ) (p : Progress)
    → (p.0.recs h).alive ≡ true
    → is_done (p.0.recs h).phase ≡ true ⊎ Member h live
    → is_done ((cancel_live env live p).0.recs h).phase ≡ true
unfolding cancel_live cancel_one
cancel_live-done env live h p alive (inl over) =
    ap is_done (((cancel_live-Engine env live p).nodes h).final_phase over) ∙ over
cancel_live-done env [] h p alive (inr m) = absurd m
cancel_live-done env (k ∷ live) h (s, out) alive (inr (inl e)) =
    cancel_live-done env live h (cancel_one env k (s, out))
      (((cancel_one-Engine env k (s, out)).nodes h).same_alive ∙ alive)
      (inl (
        subst (λ j. is_done ((cancel_one env k (s, out)).0.recs j).phase ≡ true) e
          (cancel_one-done env k (s, out) (ap (λ j. (s.recs j).alive) e ∙ alive))))
cancel_live-done env (k ∷ live) h (s, out) alive (inr (inr m)) =
    cancel_live-done env live h (cancel_one env k (s, out))
      (((cancel_one-Engine env k (s, out)).nodes h).same_alive ∙ alive) (inr m)

-- A node of the index is either done already or among those that CancelScope ends.
left-Member :
    (s : Scope) (hs : List ℕ) (h : ℕ)
    → Member h hs
    → is_done (s.recs h).phase ≡ true ⊎ Member h (filter (λ k. not (is_done (s.recs k).phase)) hs)
left-Member s [] h m = absurd m
left-Member s (k ∷ hs) h (inl e) = elim (Bool-cases (is_done (s.recs k).phase)) [
  | inl over ↦ inl (ap (λ j. is_done (s.recs j).phase) (sym e) ∙ over)
  | inr live ↦ rw live (inr (inl e))
]
left-Member s (k ∷ hs) h (inr m) = elim (left-Member s hs h m) [
  | inl over ↦ inl over
  | inr later ↦ elim (Bool-cases (is_done (s.recs k).phase)) [
    | inl over ↦ rw over (inr later)
    | inr live ↦ rw live (inr (inr later))
  ]
]

-- CancelScope, in a scope whose live nodes lie within the arrays and, where they are blocked or
-- ready, stand where their trigger rules put them, ends every live node that the range over the
-- index yields, and leaves such a scope.
pub cancel_scope-ends :
    (env : Env) (order : List (Text × ℕ)) (s : Scope) (h : ℕ)
    → IsSound s
    → (s.recs h).alive ≡ true
    → Member h (map (λ e. e.1) order)
    → IsSound (cancel_scope env order s).0
      × (is_done ((cancel_scope env order s).0.recs h).phase ≡ true)
unfolding cancel_scope refresh_complete
cancel_scope-ends env order s h sound alive m =
    let live = filter (λ k. not (is_done (s.recs k).phase)) (map (λ e. e.1) order) in
    (
      refresh_complete-IsSound _ (cancel_live-IsSound env live (s, []) sound),
      cancel_live-done env live h (s, []) alive (left-Member s (map (λ e. e.1) order) h m),
    )
