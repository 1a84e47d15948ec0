-- ===== src/Memory/Entry.antt =====
-- storage/memory: the storage port's operations as they are called, on the store: the guards before
-- the scope is looked up, and what each does where the scope is missing.
use dagworker.Base.{false, not, Option, none, some, List, [], ◌∷◌, if◌then◌else◌, Text, ℕ, ℤ}
use dagworker.Errors.{Error, Result, ok, err, invalid_argument_error}
use dagworker.Node.{NodeSpec}
use dagworker.Event.{Effect}
use dagworker.Memory.State.{Env, Scope}
use dagworker.Memory.Graph.{Edge}
use dagworker.Memory.Change.{add_nodes, add_edges, remove_edges}
use dagworker.Memory.Lease.{Lease, valid, ClaimRequest, claim}
use dagworker.Memory.Complete.{
  CompleteRequest, CompleteResult, SweepResult, complete, extend, sweep,
}
use dagworker.Memory.Store.{Store, scope_for, must_scope, put_scope, on_existing, on_scope}

-- What an operation on the store returns: the store, the effects and the error.
abbrev Answer : Type 0
Answer = Store × List Effect × Option Error

unfoldable pub add_nodes_in : Env → Text → List NodeSpec → Store → Answer
add_nodes_in env name [] st = (st, [], none)
add_nodes_in env name (spec ∷ specs) st = on_scope name (add_nodes env (spec ∷ specs)) st

unfoldable pub add_edges_in : Env → Text → List Edge → Store → Answer
add_edges_in env name [] st = (st, [], none)
add_edges_in env name (e ∷ edges) st = on_existing name (add_edges env (e ∷ edges)) st

unfoldable pub remove_edges_in : Env → Text → List Edge → Store → Answer
remove_edges_in env name [] st = (st, [], none)
remove_edges_in env name (e ∷ edges) st = on_existing name (remove_edges env (e ∷ edges)) st

-- A write that a lease's holder makes: the scope must exist.
unfoldable pub with_lease :
    {A : Type 0} → Lease → (Scope → Scope × Result A) → Store → Store × Result A
with_lease lease op st =
    if not (valid lease)
    then (st, err (invalid_argument_error "lease"))
    else elim (must_scope lease.scope st) [
      | err e ↦ (st, err e)
      | ok s ↦ let (s', r) = op s in (put_scope lease.scope s' st, r)
    ]

unfoldable pub complete_in : Env → CompleteRequest → Store → Store × Result CompleteResult
unfolding with_lease
complete_in env req st = with_lease req.lease (complete env req) st

unfoldable pub extend_in : Env → Lease → ℤ → Store → Store × Result ℕ
unfolding with_lease
extend_in env lease timeout st = with_lease lease (extend env lease timeout) st

-- A scope that nobody has written to has no work.
unfoldable pub claim_in :
    Env → Text → ClaimRequest → Store → Store × Result (List Effect × List Lease)
claim_in env name req st = elim (scope_for name false st) [
  | err e ↦ (st, err e)
  | ok (st', found) ↦ elim found [
    | none ↦ (st, ok ([], []))
    | some s ↦ let ((s', out), leases) = claim env req s in (put_scope name s' st, ok (out, leases))
  ]
]

unfoldable pub sweep_in : Env → Text → ℤ → Store → Store × Result SweepResult
sweep_in env name limit st = elim (scope_for name false st) [
  | err e ↦ (st, err e)
  | ok (st', found) ↦ elim found [
    | none ↦ (st, ok (record { reclaimed = 0; effects = []; more = false }))
    | some s ↦ let (s', r) = sweep env limit s in (put_scope name s' st, ok r)
  ]
]
