-- ===== src/Memory/Samples.antt =====
-- Concrete scopes, leases and reports that the tests use.
use dagworker.Base.{
  true, false, ◌∷◌, [], ℕ, zero, suc, ◌≡◌, ◌<◌, refl, arith, ◌==◌, ◌+◌, ◌-◌, if◌then◌else◌, Text,
  codes, pos,
}
use dagworker.Status.{Status, Reason, Phase}
use dagworker.Trigger.{ready, unsatisfiable}
use dagworker.Config.{ScopeConfig}
use dagworker.Memory.State.{Env, Scope, NodeRec, blank, new_scope}
use dagworker.Memory.Settle.{Item}
use dagworker.Memory.Lease.{Lease, lease_of}
use dagworker.Memory.Complete.{CompleteRequest}
use dagworker.Memory.Terminate.{HasSlots}
use dagworker.Memory.Settled.{AllSettled}

abbrev pub env : Env
env = record { clock = λ n. 1000 + n; jitter = λ n. n - 1 }

abbrev pub plain_config : ScopeConfig
plain_config = record {
  default_lease_timeout = pos 0;
  min_lease_timeout = pos 0;
  max_lease_timeout = pos 0;
  max_attempts = 0;
  retry_base_delay = pos 0;
  retry_max_delay = pos 0;
  terminal_retention = pos 0;
  max_subscriber_lag = pos 0;
  max_in_flight = 0;
  payload_cap = pos 0;
  max_batch_size = pos 0;
  max_claim_batch = pos 0;
  sweep_batch_size = pos 0;
  sweep_interval = pos 0;
  partition_count = 0;
}

abbrev pub alpha : Text
alpha = codes "a"

abbrev pub beta : Text
beta = codes "b"

-- A node under its name, in a phase, with as many predecessors pending.
abbrev pub node : Text → Status → Phase → ℕ → NodeRec
node id status phase pending = record blank {
  id = id;
  epoch = 1;
  attempt = 1;
  status = status;
  phase = phase;
  alive = true;
  deps = record { unsatisfied = pending; succeeded = 0; skipped = 0; failed = 0 };
}

abbrev pub nodes : NodeRec → NodeRec → ℕ → NodeRec
nodes a b zero = a
nodes a b (suc zero) = b
nodes a b (suc (suc h)) = blank

-- A scope of two nodes at handles 0 and 1, without an edge.
abbrev pub two : NodeRec → NodeRec → Scope
two a b = record (new_scope (codes "s") 4 plain_config) {
  slots = 2;
  index = (alpha, 0) ∷ (beta, 1) ∷ [];
  recs = nodes a b;
  ord = λ h. h + 1;
  next_ord = 3;
}

-- The first node precedes the second.
abbrev pub joined : NodeRec → NodeRec → Scope
joined a b = record (two a b) {
  succ = λ h. if h == 0 then 1 ∷ [] else [];
  pred = λ h. if h == 1 then record { from = 0; satisfied = false } ∷ [] else [];
}

-- The first node claimed, and the second blocked on it.
abbrev pub running : Scope
running =
    record (joined (node alpha Status.in_progress Phase.claimed 0)
      (node beta Status.new Phase.blocked 1)) { leases = record { items = 0 ∷ []; pos = 1 ∷ [] } }

-- Both ready.
abbrev pub idle : Scope
idle = two (node alpha Status.new Phase.ready 0) (node beta Status.new Phase.ready 0)

-- The second parked for a retry, with a dependency that was added meanwhile.
abbrev pub parked : Scope
parked =
    record (joined (node alpha Status.in_progress Phase.claimed 0)
      (node beta Status.new Phase.scheduled 1)) {
        scheduled = record { items = 1 ∷ []; pos = 0 ∷ 1 ∷ [] };
      }

pub two-HasSlots : (a b : NodeRec) → HasSlots (two a b)
two-HasSlots a b = record { in_slots = inside }
  where
    inside : (h : ℕ) → (nodes a b h).alive ≡ true → h < 2
    inside zero e = omega arith
    inside (suc zero) e = omega arith
    inside (suc (suc h)) e = absurd (ground arith)

pub running-HasSlots : HasSlots running
running-HasSlots = record { in_slots = (two-HasSlots (running.recs 0) (running.recs 1)).in_slots }

pub idle-HasSlots : HasSlots idle
idle-HasSlots = two-HasSlots (idle.recs 0) (idle.recs 1)

pub running-AllSettled : AllSettled running
unfolding unsatisfiable ready
running-AllSettled zero a w = absurd (ground arith)
running-AllSettled (suc zero) a w = record { can_hold = refl; by_rule = refl }
running-AllSettled (suc (suc h)) a w = absurd (ground arith)

pub idle-AllSettled : AllSettled idle
unfolding unsatisfiable ready
idle-AllSettled zero a w = record { can_hold = refl; by_rule = refl }
idle-AllSettled (suc zero) a w = record { can_hold = refl; by_rule = refl }
idle-AllSettled (suc (suc h)) a w = absurd (ground arith)

abbrev pub held : Lease
held = lease_of 0 running

abbrev pub report : CompleteRequest
report = record { lease = held; success = true; reason = Reason.none; message = []; result = [] }

abbrev pub ending : Item
ending = record { handle = 0; status = Status.error; reason = Reason.cancelled; message = [] }
