-- ===== src/Manager/OverMemory.antt =====
-- The in-memory backend as the storage port of the Manager (storage/memory/memory.go, graph.go and
-- lease.go).
use dagworker.Base.{false, ◌∷◌, [], Option, none, some, List, Text}
use dagworker.Errors.{Error, Result, ok, err}
use dagworker.Event.{Effect}
use dagworker.Memory.State.{Env}
use dagworker.Memory.Change.{remove_node, cancel, cancel_scope}
use dagworker.Memory.Complete.{CompleteResult}
use dagworker.Memory.Lease.{Lease}
use dagworker.Memory.Store.{
  Store, scope_for, put_scope, on_existing, scope_config, set_scope_config, seal,
}
use dagworker.Memory.Entry.{
  add_nodes_in, add_edges_in, remove_edges_in, complete_in, extend_in, claim_in,
}
use dagworker.Manager.Calls.{Port}

-- A call that has no effects to report.
abbrev quiet : Store × List Effect × Option Error → Store × Option Error
quiet (st, out, e) = (st, e)

abbrev claimed :
    Store × Result (List Effect × List Lease) → Store × List Effect × Result (List Lease)
claimed (st, err e) = (st, [], err e)
claimed (st, ok (out, leases)) = (st, out, ok leases)

abbrev completed : Store × Result CompleteResult → Store × List Effect × Result CompleteResult
completed (st, err e) = (st, [], err e)
completed (st, ok r) = (st, r.effects, ok r)

unfoldable pub cancel_in : Env → Text → List Text → Store → Store × List Effect × Option Error
cancel_in env scope [] st = (st, [], none)
cancel_in env scope (id ∷ ids) st = on_existing scope (cancel env (id ∷ ids)) st

-- A scope that nobody has written to has nothing to cancel.
unfoldable pub cancel_scope_in : Env → Text → Store → Store × List Effect × Option Error
cancel_scope_in env scope st = elim (scope_for scope false st) [
  | err e ↦ (st, [], some e)
  | ok (st', found) ↦ elim found [
    | none ↦ (st, [], none)
    | some s ↦ let (s', out, e) = cancel_scope env s.index s in (put_scope scope s' st, out, e)
  ]
]

unfoldable pub memory_port : Env → Port Store
memory_port env = record {
  scope_config = scope_config;
  set_scope_config = λ scope cfg st. quiet (set_scope_config scope cfg st);
  seal = λ scope st. quiet (seal scope st);
  add_nodes = add_nodes_in env;
  add_edges = add_edges_in env;
  remove_edges = remove_edges_in env;
  remove_node = λ scope id policy. on_existing scope (remove_node env id policy);
  cancel = cancel_in env;
  cancel_scope = cancel_scope_in env;
  claim = λ scope req st. claimed (claim_in env scope req st);
  complete = λ req st. completed (complete_in env req st);
  extend = extend_in env;
}
