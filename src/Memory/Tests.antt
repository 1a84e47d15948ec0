-- ===== src/Memory/Tests.antt =====
-- The theorems applied to concrete scopes.
use dagworker.Base.{
  inl, inr, Bool, true, false, ◌≤◌, ◌∷◌, [], length, ℕ, suc, ◌≡◌, refl, some, List, arith, ◌+◌,
  text_eq, codes, lookup, pos,
}
use dagworker.Errors.{Result, plain, err_lease_mismatch, err_not_found, ok, err}
use dagworker.Status.{Status, Reason, Phase}
use dagworker.Trigger.{TriggerRule, ready, unsatisfiable, terminal_reason}
use dagworker.Config.{resolved, or_default}
use dagworker.Event.{Event, EventKind}
use dagworker.Pq
use dagworker.Memory.State.{refresh_complete, release, is_done, Scope, new_scope}
use dagworker.Memory.Log.{emit, Progress, record_effect, pump_batch}
use dagworker.Memory.Edges.{
  take_edge, unlink_edge, has_edge, fewer_unsatisfied, count_outcome, mark_satisfied, mark_edge,
  marked,
}
use dagworker.Memory.Settle.{
  doomed, terminate_step, fan_out, ended, finish, tell, react, terminate, terminate_loop,
  out_degrees, promote_loop, settle,
}
use dagworker.Memory.Graph.{create, Edge, connect}
use dagworker.Memory.Topo.{add_edge_order}
use dagworker.Memory.Change.{
  terminate_all, cancel, cancel_scope, link_edges, unlink_edges, add_edges, remove_edges,
}
use dagworker.Memory.Lease.{ClaimRequest, reclaim_expired, grant, lease_of, reclaim_loop}
use dagworker.Memory.Complete.{
  complete_held, CompleteRequest, CompleteResult, complete, extend, fence,
}
use dagworker.Memory.Store.{Store}
use dagworker.Memory.Terminate.{HasSlots, terminate_drains}
use dagworker.Memory.Settled.{AllSettled}
use dagworker.Memory.Resolved.{terminate-AllSettled}
use dagworker.Memory.EdgeRest.{add_edges-AllSettled, remove_edges-AllSettled}
use dagworker.Memory.LeaseRest.{complete-AllSettled, reclaim_loop-AllSettled}
use dagworker.Memory.Fence.{fence-protects, grant-fences}
use dagworker.Memory.Spent.{terminate-final, complete-spends}
use dagworker.Memory.Retention.{IsRetained, Numbered, record_effect-IsRetained, pump_batch_complete}
use dagworker.Memory.CancelRest.{IsSound, cancel-IsSound, cancel_scope-ends}
use dagworker.Node.{NodeSpec}
use dagworker.Memory.Recycle.{Aged, create-outlives}
use dagworker.Memory.Promote.{promote-ignores_rule}
use dagworker.Memory.Partial.{remove_edges-leaves_blocked}
use dagworker.Memory.Samples.{
  env, plain_config, alpha, beta, node, two, running, idle, parked, running-HasSlots, idle-HasSlots,
  running-AllSettled, idle-AllSettled, held, report, ending,
}

terminate-AllSettled_example : AllSettled (terminate env ending (running, [])).0
terminate-AllSettled_example =
    terminate-AllSettled env ending running [] running-HasSlots (λ h ne. running-AllSettled h)

terminate_drains_example :
    (terminate_loop
      (suc (out_degrees running.slots running.succ))
      env
      (ending ∷ [])
      (running, [])).1
    ≡ []
terminate_drains_example = terminate_drains env ending running [] running-HasSlots

complete-AllSettled_example : AllSettled (complete env report running).0
complete-AllSettled_example =
    complete-AllSettled env report running running-HasSlots running-AllSettled

reclaim_loop-AllSettled_example :
    HasSlots (reclaim_loop 3 env 5000 plain_config 0 (running, [])).0.0
    × AllSettled (reclaim_loop 3 env 5000 plain_config 0 (running, [])).0.0
reclaim_loop-AllSettled_example =
    reclaim_loop-AllSettled 3 env 5000 plain_config 0 (running, []) running-HasSlots
      running-AllSettled

abbrev a_to_b : Edge
a_to_b = record { from = alpha; to = beta }

abbrev unknown_edge : Edge
unknown_edge = record { from = codes "z"; to = beta }

add_edges-AllSettled_example : AllSettled (add_edges env (a_to_b ∷ []) idle).0
unfolding add_edges link_edges lookup text_eq has_edge new_scope connect add_edge_order
add_edges-AllSettled_example =
    add_edges-AllSettled env (a_to_b ∷ []) idle idle-HasSlots idle-AllSettled refl

remove_edges-AllSettled_example : AllSettled (remove_edges env (a_to_b ∷ []) running).0
unfolding remove_edges unlink_edges lookup text_eq
remove_edges-AllSettled_example =
    remove_edges-AllSettled env (a_to_b ∷ []) running running-HasSlots running-AllSettled refl

abbrev stale_report : CompleteRequest
stale_report = record report { lease = record held { epoch = 7 } }

fence-protects_example :
    (complete env stale_report running ≡ (running, err (plain err_lease_mismatch)))
    × (extend env stale_report.lease (pos 5) running ≡ (running, err (plain err_lease_mismatch)))
unfolding lookup text_eq lease_of
fence-protects_example =
    fence-protects env stale_report (pos 5) running 0 refl (λ e. ground (arith, e))

grant-fences_example :
    (fence
        (lease_of 0 (grant env 5 (codes "w") 30 0 (idle, [])).0)
        (grant env 5 (codes "w") 30 0 (idle, [])).0
      ≡ ok 0)
    × (fence held (grant env 5 (codes "w") 30 0 (idle, [])).0 ≡ err (plain err_lease_mismatch))
unfolding lookup text_eq lease_of
grant-fences_example =
    grant-fences env 5 (codes "w") 30 0 (idle, []) held refl (omega arith) refl (omega arith)

abbrev result_of : Result CompleteResult → CompleteResult
result_of (ok r) = r
result_of (err e) = record { effects = []; retrying = false; next_attempt_at = 0 }

-- After the completion, as a scope in which the node is granted again.
abbrev settled_again : Scope
settled_again = (complete env report running).0

complete-spends_example :
    (complete env report settled_again ≡ (settled_again, err (plain err_lease_mismatch)))
    × (complete env report (grant env 5 (codes "w") 30 0 (settled_again, [])).0
        ≡ ((grant env 5 (codes "w") 30 0 (settled_again, [])).0, err (plain err_lease_mismatch)))
unfolding lookup text_eq lease_of complete fence complete_held resolved or_default new_scope
complete-spends_example =
    complete-spends env env env report report running 0 (result_of (complete env report running).1)
      5 (codes "w") 30 (settled_again, []) refl refl refl refl refl refl (omega arith)

abbrev over : Scope
over = two (node alpha Status.success Phase.done 0) (node beta Status.new Phase.ready 0)

terminate-final_example :
    (((terminate env (record ending { handle = 1 }) (over, [])).0.recs 0).phase ≡ Phase.done)
    × (((terminate env (record ending { handle = 1 }) (over, [])).0.recs 0).status ≡ Status.success)
    × (((terminate env (record ending { handle = 1 }) (over, [])).0.recs 0).reason ≡ Reason.none)
terminate-final_example = terminate-final env (record ending { handle = 1 }) (over, []) 0 refl

logged-IsRetained : IsRetained running
unfolding new_scope
logged-IsRetained = record { contiguous = refl; numbered = _; bounded = omega arith }

record_effect-IsRetained_example :
    IsRetained (record_effect env 0 EventKind.ready Status.new running).0
    × ((record_effect env 0 EventKind.ready Status.new running).0.cursor ≡ 1)
unfolding new_scope
record_effect-IsRetained_example =
    record_effect-IsRetained env 0 EventKind.ready Status.new running (omega arith) (omega arith)
      logged-IsRetained

abbrev logged : Scope
logged = (record_effect env 0 EventKind.ready Status.new running).0

pump_batch_complete_example :
    (b : List Event) × (pump_batch 1 logged ≡ some (b, logged.cursor + 1))
    × Numbered 1 b
    × (1 + length b ≡ logged.cursor + 1)
unfolding record_effect new_scope
pump_batch_complete_example =
    pump_batch_complete 1 logged record_effect-IsRetained_example.0 (omega arith) (omega arith)
      (omega arith)

promote-ignores_rule_example :
    (settle env 1 (parked, []) ≡ (parked, []))
    × (((promote_loop 1 env 9 (parked, [])).0.recs 1).phase ≡ Phase.ready)
    × (((promote_loop 1 env 9 (parked, [])).0.recs 1).deps ≡ (parked.recs 1).deps)
    × (((promote_loop 1 env 9 (parked, [])).0.recs 1).trigger ≡ TriggerRule.all_success)
unfolding Pq.pop new_scope
promote-ignores_rule_example =
    promote-ignores_rule env 9 1 (record { items = []; pos = 0 ∷ 0 ∷ [] }) parked [] refl refl
      (omega arith)

abbrev store : Store
store = record {
  scopes = (codes "s", running) ∷ (codes "t", idle) ∷ [];
  defaults = plain_config;
  log_cap = 4;
  closed = false;
}

running-IsSound : IsSound running
running-IsSound = record { slots = running-HasSlots; settled = running-AllSettled }

cancel-IsSound_example : IsSound (cancel env (alpha ∷ beta ∷ []) running).0
cancel-IsSound_example = cancel-IsSound env (alpha ∷ beta ∷ []) running running-IsSound

cancel_scope-ends_example :
    IsSound (cancel_scope env running.index running).0
    × (is_done ((cancel_scope env running.index running).0.recs 1).phase ≡ true)
cancel_scope-ends_example =
    cancel_scope-ends env running.index running 1 running-IsSound refl (inr (inl refl))

abbrev request : ClaimRequest
request = record { kinds = []; max = pos 2; timeout = pos 0; worker_id = codes "w" }

abbrev reclaimed : Progress × ℕ × Bool
reclaimed = reclaim_expired env 5000 plain_config 3 (running, [])

abbrev beta_again : NodeSpec
beta_again = record {
  id = beta;
  kind = [];
  payload = [];
  labels = [];
  priority = pos 0;
  trigger = TriggerRule.all_success;
  retry = record { max_attempts = 0; base_delay = pos 0; max_delay = pos 0 };
  deps = [];
}

-- A second slot is freed before the node is made again.
abbrev vacated : Scope
vacated = release 0 (release 1 running)

create-outlives_example :
    (lookup beta (create beta_again 9 vacated).0.index ≡ some (create beta_again 9 vacated).1)
    × (1 ≤ ((create beta_again 9 vacated).0.recs (create beta_again 9 vacated).1).epoch)
create-outlives_example = create-outlives beta_again 9 1 running vacated (Aged.freed Aged.start 0)

remove_edges-leaves_blocked_example :
    let (t, out, error) = remove_edges env (a_to_b ∷ unknown_edge ∷ []) running in
    (error ≡ some (plain err_not_found))
    × (length (t.pred 1) + 1 ≡ 1)
    × ((t.recs 1).phase ≡ Phase.blocked)
    × (ready (t.recs 1).trigger (t.recs 1).deps ≡ true)
unfolding lookup text_eq unlink_edge take_edge ready fewer_unsatisfied new_scope
remove_edges-leaves_blocked_example =
    remove_edges-leaves_blocked env a_to_b unknown_edge [] 0 1
      (record { from = 0; satisfied = false }) [] running refl refl refl refl refl refl refl

-- The order of the range over the index decides why the second node ends.
second_cancelled :
    ((cancel_scope env ((beta, 1) ∷ (alpha, 0) ∷ []) running).0.recs 1).reason ≡ Reason.cancelled
unfolding cancel_scope refresh_complete terminate_all terminate terminate_loop out_degrees
    terminate_step fan_out ended emit finish new_scope tell mark_satisfied mark_edge marked react
second_cancelled = refl

second_upstream :
    ((cancel_scope env ((alpha, 0) ∷ (beta, 1) ∷ []) running).0.recs 1).reason
    ≡ Reason.upstream_failed
unfolding cancel_scope refresh_complete terminate_all terminate terminate_loop out_degrees
    terminate_step fan_out ended emit finish new_scope tell mark_satisfied mark_edge marked react
    unsatisfiable ready count_outcome fewer_unsatisfied doomed terminal_reason
second_upstream = refl
