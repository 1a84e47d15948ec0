-- ===== src/Memory/Store.antt =====
-- storage/memory/memory.go and watch.go: the store, a map of scopes, with the reads of one scope.
-- The operations on a scope are lifted to the store by `on_scope` and `on_existing`, which stand
-- for the lookup of the scope, its lock and the write of its new state.
use dagworker.Base.{
  ℕ, ◌+◌, Bool, true, false, not, ◌&&◌, ◌||◌, Option, none, some, List, [], ◌∷◌, map, ◌==◌,
  if◌then◌else◌, ltb, leb_ℤ, ℤ, pos, pos_part, is_empty, any, Text, lookup, insert,
}
use dagworker.Errors.{Error, Result, ok, err, plain, err_closed, err_not_found}
use dagworker.Status.{Phase}
use dagworker.Trigger.{DepCounts}
use dagworker.Config.{ScopeConfig}
use dagworker.Node.{Node}
use dagworker.Event.{Effect}
use dagworker.Pq
use dagworker.Pq.{Heap}
use dagworker.Memory.State.{
  Scope, PredEdge, ScopeStats, new_scope, refresh_complete, non_terminal, is_done, is_claimed,
}
use dagworker.Memory.Edges.{detach_succ}
use dagworker.Memory.Change.{Outcome, discard}
use dagworker.Memory.Lease.{snapshot}

pub record Store : Type 0 where
  pub scopes : List (Text × Scope)
  pub defaults : ScopeConfig
  pub log_cap : ℕ
  pub closed : Bool

-- The scope, made if that is asked for; `none` where it does not exist.
unfoldable pub scope_for : Text → Bool → Store → Result (Store × Option Scope)
scope_for name create st =
    let made = new_scope name st.log_cap st.defaults in
    if st.closed then err (plain err_closed) else elim (lookup name st.scopes) [
      | some s ↦ ok (st, some s)
      | none ↦
          if not create
          then ok (st, none)
          else ok (record st { scopes = insert name made st.scopes }, some made)
    ]

unfoldable pub must_scope : Text → Store → Result Scope
unfolding scope_for
must_scope name st = elim (scope_for name false st) [
  | err e ↦ err e
  | ok (st', found) ↦ elim found [ none ↦ err (plain err_not_found) | some s ↦ ok s ]
]

unfoldable pub put_scope : Text → Scope → Store → Store
put_scope name s st = record st { scopes = insert name s st.scopes }

-- An operation on a scope that must exist.
unfoldable pub on_existing : Text → (Scope → Outcome) → Store → Store × List Effect × Option Error
unfolding must_scope
on_existing name op st = elim (must_scope name st) [
  | err e ↦ (st, [], some e)
  | ok s ↦ let (s', out, e) = op s in (put_scope name s' st, out, e)
]

-- An operation on a scope that is made where it is missing.
unfoldable pub on_scope : Text → (Scope → Outcome) → Store → Store × List Effect × Option Error
unfolding scope_for
on_scope name op st = elim (scope_for name true st) [
  | err e ↦ (st, [], some e)
  | ok (st', found) ↦ elim found [
    | none ↦ (st', [], none)
    | some s ↦ let (s', out, e) = op s in (put_scope name s' st', out, e)
  ]
]

unfoldable pub set_scope_config : Text → ScopeConfig → Store → Store × List Effect × Option Error
unfolding on_scope
set_scope_config name cfg st = on_scope name (λ s. (record s { cfg = cfg }, [], none)) st

unfoldable pub scope_config : Text → Store → Result ScopeConfig
unfolding scope_for
scope_config name st = elim (scope_for name false st) [
  | err e ↦ err e
  | ok (st', found) ↦ elim found [ none ↦ ok st.defaults | some s ↦ ok s.cfg ]
]

unfoldable pub seal_scope : Scope → Scope
seal_scope s =
    refresh_complete (record s { sealed = true; stats = record s.stats { sealed = true } })

unfoldable pub seal : Text → Store → Store × List Effect × Option Error
unfolding on_scope
seal name st = on_scope name (λ s. (seal_scope s, [], none)) st

unfoldable pub stats_of : Scope → ScopeStats
stats_of s = record s.stats { cursor = s.cursor; complete = s.sealed && non_terminal s.stats == 0 }

-- Every scope by name, in the order of the range.
unfoldable pub scopes : Store → Result (List Text)
scopes st = if st.closed then err (plain err_closed) else ok (map (λ e. e.0) st.scopes)

unfoldable pub close : Store → Store
close st = record st { closed = true }

unfoldable pub get_node : Text → Scope → Result Node
get_node id s = elim (lookup id s.index) [
  | none ↦ err (plain err_not_found)
  | some h ↦ ok (snapshot h s)
]

abbrev held_by : Phase → Text → Text
held_by phase worker = if is_claimed phase then worker else []

pub record Inspection : Type 0 where
  pub node : Node
  pub phase : Phase
  pub deps : DepCounts
  pub waiting : List Text
  pub successors : List Text
  pub rank : ℕ
  pub lease_deadline : ℕ
  pub lease_holder : Text
  pub lease_epoch : ℕ
  pub ready_at : ℕ

-- The identifiers of the predecessors whose edges are not satisfied.
unfoldable pub waiting_for : List PredEdge → Scope → List Text
waiting_for [] s = []
waiting_for (e ∷ es) s =
    if not e.satisfied then (s.recs e.from).id ∷ waiting_for es s else waiting_for es s

unfoldable pub inspect : Text → Scope → Result Inspection
unfolding waiting_for
inspect id s = elim (lookup id s.index) [
  | none ↦ err (plain err_not_found)
  | some h ↦
      let r = s.recs h in
      ok (record {
        node = snapshot h s;
        phase = r.phase;
        deps = r.deps;
        waiting = waiting_for (s.pred h) s;
        successors = map (λ w. (s.recs w).id) (s.succ h);
        rank = s.ord h;
        lease_deadline = s.deadline h;
        lease_holder = held_by r.phase r.worker;
        lease_epoch = r.epoch;
        ready_at = s.ready_at h;
      })
]

detach_all : ℕ → List PredEdge → Scope → Scope
detach_all h [] s = s
detach_all h (e ∷ es) s = detach_all h es (detach_succ e.from h s)

-- The loop of CollectTerminal over the entries, in the order of the range.
collect_loop : ℕ → List (Text × ℕ) → ℕ → ℕ → Scope → Scope × ℕ × Bool
collect_loop cut [] limit deleted s = (s, deleted, false)
collect_loop cut ((id, h) ∷ order) limit deleted s =
    let r = s.recs h in
    let kept = collect_loop cut order limit deleted s in
    let gone =
      collect_loop cut order limit (deleted + 1) (discard h id (detach_all h (s.pred h) s)) in
    if not (is_done r.phase) || ltb cut r.updated_at || not (is_empty (s.succ h))
    then kept
    else if deleted == limit
    then (s, deleted, true)
    else gone

unfoldable pub collect_terminal : ℕ → ℤ → List (Text × ℕ) → Scope → Scope × ℕ × Bool
unfolding collect_loop detach_all
collect_terminal cut limit order s =
    collect_loop cut order (if leb_ℤ limit (pos 0) then 100 else pos_part limit) 0 s

-- The ready sets that a blocked claim looks at before it waits.
unfoldable pub any_ready : List Text → Scope → Bool
any_ready kinds s =
    if is_empty kinds
    then any (λ e. ltb 0 (Pq.len e.1)) s.ready
    else any (λ k. elim (lookup k s.ready) [ none ↦ false | some h ↦ ltb 0 (Pq.len h) ]) kinds
