-- ===== src/Memory/Recycle.antt =====
-- scope.go and graph.go: a slot that is used again, and the fencing epoch of what it held.
use dagworker.Base.{
  ℕ, ◌≤◌, ◌≡◌, refl, true, arith, ◌==◌, ==_iff, some, lookup, lookup-insert, text_eq, text_eq_refl,
  ◌∙◌, List, Text,
}
use dagworker.Event.{Effect, EventKind}
use dagworker.Node.{NodeSpec}
use dagworker.Memory.State.{Env, Scope, alloc, release, enter_bucket, leave_bucket}
use dagworker.Memory.Graph.{create}
use dagworker.Memory.Settle.{Item, terminate}
use dagworker.Memory.Lease.{grant}
use dagworker.Memory.Engine.{emit-Engine}
use dagworker.Memory.Terminate.{terminate-Engine}

-- The end of a node's life raises the floor to its epoch, and never lowers it.
release-floor :
    (h : ℕ) (s : Scope)
    → ((s.recs h).epoch ≤ (release h s).epoch_floor) × (s.epoch_floor ≤ (release h s).epoch_floor)
unfolding release
release-floor h s = ground arith

alloc-floor : (s : Scope) → (alloc s).0.epoch_floor ≡ s.epoch_floor
unfolding alloc
alloc-floor s = ground arith

create-epoch :
    (spec : NodeSpec) (at : ℕ) (s : Scope)
    → ((create spec at s).0.recs (create spec at s).1).epoch ≡ s.epoch_floor
unfolding create enter_bucket
create-epoch spec at s =
    let h = (alloc s).1 in
    let same : (h == h) ≡ true = (==_iff h h).1 refl in rw same (alloc-floor s)

create-index :
    (spec : NodeSpec) (at : ℕ) (s : Scope)
    → lookup spec.id (create spec at s).0.index ≡ some (create spec at s).1
unfolding create enter_bucket
create-index spec at s =
    let h = (alloc s).1 in
    let same : text_eq spec.id spec.id ≡ true = text_eq_refl spec.id in
    lookup-insert spec.id spec.id h (alloc s).0.index ∙ rw same refl

create-floor :
    (spec : NodeSpec) (at : ℕ) (s : Scope) → (create spec at s).0.epoch_floor ≡ s.epoch_floor
unfolding create enter_bucket
create-floor spec at s = alloc-floor s

grant-floor :
    (env : Env) (at : ℕ) (worker : Text) (lease_for h : ℕ) (s : Scope) (out : List Effect)
    → (grant env at worker lease_for h (s, out)).0.epoch_floor ≡ s.epoch_floor
unfolding grant leave_bucket enter_bucket
grant-floor env at worker lease_for h s out =
    (emit-Engine env h EventKind.transition _ _).same_floor

-- A scope and a later one: slots freed, nodes made, granted and ended, in any order.
pub data Aged : Scope → Scope → Type 0 where
  start : {s : Scope} → Aged s s
  freed : {s t : Scope} → Aged s t → (h : ℕ) → Aged s (release h t)
  made : {s t : Scope} → Aged s t → (spec : NodeSpec) (at : ℕ) → Aged s (create spec at t).0
  granted :
      {s t : Scope}
      → Aged s t
      → (env : Env) (at : ℕ) (worker : Text) (lease_for h : ℕ) (out : List Effect)
      → Aged s (grant env at worker lease_for h (t, out)).0
  ended :
      {s t : Scope}
      → Aged s t
      → (env : Env) (it : Item) (out : List Effect) → Aged s (terminate env it (t, out)).0

Aged-floor : {s t : Scope} → Aged s t → s.epoch_floor ≤ t.epoch_floor
Aged-floor Aged.start = omega arith
Aged-floor (Aged.freed {s} {t} a h) = omega (arith, Aged-floor a, (release-floor h t).1)
Aged-floor (Aged.made {s} {t} a spec at) = omega (arith, Aged-floor a, create-floor spec at t)
Aged-floor (Aged.granted {s} {t} a env at worker lease_for h out) =
    omega (arith, Aged-floor a, grant-floor env at worker lease_for h t out)
Aged-floor (Aged.ended {s} {t} a env it out) =
    omega (arith, Aged-floor a, (terminate-Engine env it (t, out)).same_floor)

-- A node that is made after another was released, with any sequence of slots freed and nodes made,
-- granted and ended in between, is found in the index under its name, and starts at an epoch no
-- lower than the one that the released node had.
pub create-outlives :
    (spec : NodeSpec) (at h : ℕ) (s t : Scope)
    → Aged (release h s) t
    → (lookup spec.id (create spec at t).0.index ≡ some (create spec at t).1)
      × ((s.recs h).epoch ≤ ((create spec at t).0.recs (create spec at t).1).epoch)
create-outlives spec at h s t aged = (
  create-index spec at t,
  omega (arith, create-epoch spec at t, (release-floor h s).0, Aged-floor aged),
)
