-- ===== src/Memory/Snapshot/Whole.antt =====
-- storage/memory/snapshot.go: Snapshot and Restore, over all the scopes of a store.
pub mod RoundTrip
use dagworker.Base.{ℕ, false, List, [], ◌∷◌, map, if◌then◌else◌, is_empty, Text, insert}
use dagworker.Errors.{Result, ok, err}
use dagworker.Config.{ScopeConfig}
use dagworker.Memory.State.{Scope}
use dagworker.Memory.Store.{Store}
use dagworker.Memory.Snapshot.Sorted.{sort_by}
use dagworker.Memory.Snapshot.Taken.{ScopeSnapshot, snapshot_scope}
use dagworker.Memory.Snapshot.Restore.{invalid, restore_scope}

abbrev pub scope_name : Text × Scope → Text
scope_name e = e.0

unfoldable pub snapshot : Store → List ScopeSnapshot
unfolding sort_by
snapshot st = map (λ e. snapshot_scope e.1) (sort_by scope_name st.scopes)

unfoldable pub restore_loop : List ScopeSnapshot → Store → Result Store
restore_loop [] st = ok st
restore_loop (ss ∷ sss) st = elim (restore_scope st.log_cap ss) [
  | err e ↦ if is_empty ss.name then err invalid else err e
  | ok s ↦
      let rest = restore_loop sss (record st { scopes = insert ss.name s st.scopes }) in
      if is_empty ss.name then err invalid else rest
]

unfoldable pub restore : ScopeConfig → ℕ → List ScopeSnapshot → Result Store
unfolding restore_loop
restore defaults log_cap snap =
    restore_loop snap
      (record { scopes = []; defaults = defaults; log_cap = log_cap; closed = false })
