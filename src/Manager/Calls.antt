-- ===== src/Manager/Calls.antt =====
-- manager.go and claim.go: the calls of the Manager, which check their arguments, hand them to the
-- storage port, and fan its effects out. The port is given; logging, contexts, options as functions,
-- and the goroutines are not modelled.
pub mod Guard
pub mod Writes
use dagworker.Base.{
  ℕ, Bool, true, false, not, ◌||◌, Option, none, some, List, [], ◌∷◌, if◌then◌else◌, Text, text_eq,
  ℤ, pos, max_ℤ, ltb_ℤ,
}
use dagworker.Errors.{
  Error, Result, ok, err, plain, invalid_argument_error, err_closed, err_cycle, err_no_work, ◌>>◌,
}
use dagworker.Identifier.{validate_scope, validate_node_id, validate_kind}
use dagworker.Config.{ScopeConfig, validate_config, clamp_claim_batch}
use dagworker.Node.{NodeSpec, CascadePolicy, validate_spec}
use dagworker.Event.{Effect}
use dagworker.Memory.Graph.{Edge}
use dagworker.Memory.Lease.{Lease, ClaimRequest, valid}
use dagworker.Memory.Complete.{CompleteRequest, CompleteResult}
use dagworker.Manager.Registry.{Registry, Pace, publish}

-- What the Manager uses of a store whose states are of one type.
pub record Port (S : Type 0) : Type 0 where
  pub scope_config : Text → S → Result ScopeConfig
  pub set_scope_config : Text → ScopeConfig → S → S × Option Error
  pub seal : Text → S → S × Option Error
  pub add_nodes : Text → List NodeSpec → S → S × List Effect × Option Error
  pub add_edges : Text → List Edge → S → S × List Effect × Option Error
  pub remove_edges : Text → List Edge → S → S × List Effect × Option Error
  pub remove_node : Text → Text → CascadePolicy → S → S × List Effect × Option Error
  pub cancel : Text → List Text → S → S × List Effect × Option Error
  pub cancel_scope : Text → S → S × List Effect × Option Error
  pub claim : Text → ClaimRequest → S → S × List Effect × Result (List Lease)
  pub complete : CompleteRequest → S → S × List Effect × Result CompleteResult
  pub extend : Lease → ℤ → S → S × Result ℕ

unfoldable pub validate_specs : List NodeSpec → Result (Unit {0})
validate_specs [] = ok tt
validate_specs (s ∷ specs) = validate_spec s >> validate_specs specs

unfoldable pub validate_edges : List Edge → Result (Unit {0})
validate_edges [] = ok tt
validate_edges (e ∷ edges) =
    validate_node_id e.from
    >> validate_node_id e.to
    >> (if text_eq e.from e.to then err (plain err_cycle) else ok tt)
    >> validate_edges edges

unfoldable pub validate_ids : List Text → Result (Unit {0})
validate_ids [] = ok tt
validate_ids (id ∷ ids) = validate_node_id id >> validate_ids ids

unfoldable pub validate_policy : CascadePolicy → Result (Unit {0})
validate_policy (CascadePolicy.unknown n) = err (invalid_argument_error "cascade policy")
validate_policy _ = ok tt

unfoldable pub validate_kinds : List Text → Result (Unit {0})
validate_kinds [] = ok tt
validate_kinds (k ∷ kinds) = validate_kind k >> validate_kinds kinds

module _ {S : Type 0} (port : Port S) (pace : Pace) where
  pub record Manager : Type 0 where
    pub store : S
    pub registry : Registry
    pub closed : Bool

  unfoldable pub check : Text → Manager → Result (Unit {0})
  check scope m = if m.closed then err (plain err_closed) else validate_scope scope

  -- m.publish(scope, effects), with the store's new state and its answer.
  unfoldable pub published : {A : Type 0} → Text → S × List Effect × A → Manager → Manager × A
  published scope (s, effects, a) m =
      (record m { store = s; registry = publish pace scope effects m.registry }, a)

  -- if err := check; err != nil { return err }
  unfoldable pub guarded :
      Result (Unit {0}) → Manager × Option Error → Manager → Manager × Option Error
  guarded (err e) call m = (m, some e)
  guarded (ok _) call m = call

  unfoldable pub configure : Text → ScopeConfig → Manager → Manager × Option Error
  unfolding guarded check
  configure scope cfg m =
      let (s, e) = port.set_scope_config scope cfg m.store in
      guarded (check scope m >> validate_config cfg) (record m { store = s }, e) m

  unfoldable pub add_nodes : Text → List NodeSpec → Manager → Manager × Option Error
  unfolding guarded check published validate_specs
  add_nodes scope specs m =
      guarded (check scope m >> validate_specs specs)
        (published scope (port.add_nodes scope specs m.store) m) m

  unfoldable pub add_edges : Text → List Edge → Manager → Manager × Option Error
  unfolding guarded check published validate_edges
  add_edges scope edges m =
      guarded (check scope m >> validate_edges edges)
        (published scope (port.add_edges scope edges m.store) m) m

  unfoldable pub remove_edges : Text → List Edge → Manager → Manager × Option Error
  unfolding guarded check published validate_edges
  remove_edges scope edges m =
      guarded (check scope m >> validate_edges edges)
        (published scope (port.remove_edges scope edges m.store) m) m

  unfoldable pub remove_node : Text → Text → CascadePolicy → Manager → Manager × Option Error
  unfolding guarded check published validate_policy
  remove_node scope id policy m =
      guarded (check scope m >> validate_node_id id >> validate_policy policy)
        (published scope (port.remove_node scope id policy m.store) m) m

  unfoldable pub cancel : Text → List Text → Manager → Manager × Option Error
  unfolding guarded check published validate_ids
  cancel scope ids m =
      guarded (check scope m >> validate_ids ids)
        (published scope (port.cancel scope ids m.store) m) m

  unfoldable pub cancel_scope : Text → Manager → Manager × Option Error
  unfolding guarded check published
  cancel_scope scope m =
      guarded (check scope m) (published scope (port.cancel_scope scope m.store) m) m

  unfoldable pub seal : Text → Manager → Manager × Option Error
  unfolding guarded check
  seal scope m =
      let (s, e) = port.seal scope m.store in guarded (check scope m) (record m { store = s }, e) m

  -- buildClaim, with the options applied.
  unfoldable pub validate_claim : ClaimRequest → Result (Unit {0})
  unfolding validate_kinds
  validate_claim req =
      validate_kinds req.kinds
      >> (if ltb_ℤ req.timeout (pos 0) then err (invalid_argument_error "lease timeout") else ok tt)

  -- The request that reaches the store.
  unfoldable pub clamped : Text → ClaimRequest → Manager → ClaimRequest
  clamped scope req m =
      let cfg : ScopeConfig → ClaimRequest =
        λ c. record req { max = clamp_claim_batch c (max_ℤ req.max (pos 1)) } in
      elim (port.scope_config scope m.store) [ err e ↦ cfg unset | ok c ↦ cfg c ]
    where
      unset : ScopeConfig
      unset = record {
        default_lease_timeout = pos 0;
        min_lease_timeout = pos 0;
        max_lease_timeout = pos 0;
        max_attempts = 0;
        retry_base_delay = pos 0;
        retry_max_delay = pos 0;
        terminal_retention = pos 0;
        max_subscriber_lag = pos 0;
        max_in_flight = 0;
        payload_cap = pos 0;
        max_batch_size = pos 0;
        max_claim_batch = pos 0;
        sweep_batch_size = pos 0;
        sweep_interval = pos 0;
        partition_count = 0;
      }

  unfoldable pub claim_batch : Text → ClaimRequest → Manager → Manager × Result (List Lease)
  unfolding check validate_claim published clamped
  claim_batch scope req m =
      let call = published scope (port.claim scope (clamped scope req m) m.store) m in
      elim (check scope m >> validate_claim req) [ err e ↦ (m, err e) | ok _ ↦ call ]

  abbrev first_lease : Result (List Lease) → Result Lease
  first_lease (err e) = err e
  first_lease (ok []) = err (plain err_no_work)
  first_lease (ok (l ∷ ls)) = ok l

  unfoldable pub try_claim : Text → ClaimRequest → Manager → Manager × Result Lease
  unfolding claim_batch
  try_claim scope req m =
      let (m', r) = claim_batch scope (record req { max = pos 1 }) m in (m', first_lease r)

  unfoldable pub complete : CompleteRequest → Manager → Manager × Result CompleteResult
  unfolding published
  complete req m =
      let call = published req.lease.scope (port.complete req m.store) m in
      if m.closed
      then (m, err (plain err_closed))
      else if not (valid req.lease)
      then (m, err (invalid_argument_error "lease"))
      else call

  unfoldable pub extend : Lease → ℤ → Manager → Manager × Result Lease
  extend lease d m =
      let (s, r) = port.extend lease d m.store in
      if m.closed
      then (m, err (plain err_closed))
      else if not (valid lease)
      then (m, err (invalid_argument_error "lease"))
      else if ltb_ℤ d (pos 0)
      then (m, err (invalid_argument_error "extension"))
      else elim r [
        | err e ↦ (record m { store = s }, err e)
        | ok deadline ↦ (record m { store = s }, ok (record lease { deadline = deadline }))
      ]
