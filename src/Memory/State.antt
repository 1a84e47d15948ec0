-- ===== src/Memory/State.antt =====
-- storage/memory/scope.go: the state of one scope, its handles and its statistics.
--
-- The parallel arrays, which the source indexes by handle and keeps at one length, are functions of
-- the handle with that length in `slots`. A channel that is closed and replaced to wake its
-- waiters is the number of times that this was done. Timestamps are nanoseconds since the epoch.
-- The clock is read through `now`, which takes the scope's next reading.
mod Stats
unfoldable pub use Stats.*
use dagworker.Base.{
  ℕ, suc, ◌+◌, ◌%◌, ◌^◌, ◌&&◌, ◌==◌, Bool, true, false, ltb, ℤ, List, [], ◌∷◌, if◌then◌else◌, Text,
  update, inc64, dec64,
}
use dagworker.Status.{Status, Reason, Phase}
use dagworker.Trigger.{TriggerRule, DepCounts}
use dagworker.Config.{ScopeConfig}
use dagworker.Node.{RetryPolicy}
use dagworker.Event.{Event}
use dagworker.Pq
use dagworker.Pq.{Heap}

-- What a store is given: the readings of its clock, one after another, and its jitter.
pub record Env : Type 0 where
  pub clock : ℕ → ℕ
  pub jitter : ℕ → ℕ

pub record PredEdge : Type 0 where
  pub from : ℕ
  pub satisfied : Bool

pub record NodeRec : Type 0 where
  pub id : Text
  pub kind : Text
  pub message : Text
  pub worker : Text
  pub payload : Text
  pub result : Text
  pub labels : List (Text × Text)
  pub retry : RetryPolicy
  pub deps : DepCounts
  pub seq : ℕ
  pub epoch : ℕ
  pub attempt : ℕ
  pub priority : ℤ
  pub status : Status
  pub reason : Reason
  pub phase : Phase
  pub trigger : TriggerRule
  pub alive : Bool
  pub created_at : ℕ
  pub updated_at : ℕ

-- nodeRec{}
abbrev pub blank : NodeRec
blank = record {
  id = [];
  kind = [];
  message = [];
  worker = [];
  payload = [];
  result = [];
  labels = [];
  retry = record { max_attempts = 0; base_delay = ℤ.pos 0; max_delay = ℤ.pos 0 };
  deps = record { unsatisfied = 0; succeeded = 0; skipped = 0; failed = 0 };
  seq = 0;
  epoch = 0;
  attempt = 0;
  priority = ℤ.pos 0;
  status = Status.new;
  reason = Reason.none;
  phase = Phase.blocked;
  trigger = TriggerRule.all_success;
  alive = false;
  created_at = 0;
  updated_at = 0;
}

pub record Scope : Type 0 where
  pub name : Text
  pub cfg : ScopeConfig
  pub sealed : Bool
  pub index : List (Text × ℕ)
  pub slots : ℕ
  pub recs : ℕ → NodeRec
  pub free : List ℕ
  pub succ : ℕ → List ℕ
  pub pred : ℕ → List PredEdge
  pub ord : ℕ → ℕ
  pub deadline : ℕ → ℕ
  pub ready_at : ℕ → ℕ
  pub fifo : ℕ → ℕ
  pub next_ord : ℕ
  pub next_fifo : ℕ
  pub epoch_floor : ℕ
  pub ready : List (Text × Heap)
  pub leases : Heap
  pub scheduled : Heap
  pub stats : ScopeStats
  pub doorbell : ℕ
  pub cursor : ℕ
  pub log : List Event
  pub log_start : ℕ
  pub log_cap : ℕ
  pub log_bell : ℕ
  pub reads : ℕ

unfoldable pub new_scope : Text → ℕ → ScopeConfig → Scope
new_scope name log_cap cfg = record {
  name = name;
  cfg = cfg;
  sealed = false;
  index = [];
  slots = 0;
  recs = λ h. blank;
  free = [];
  succ = λ h. [];
  pred = λ h. [];
  ord = λ h. 0;
  deadline = λ h. 0;
  ready_at = λ h. 0;
  fifo = λ h. 0;
  next_ord = 1;
  next_fifo = 0;
  epoch_floor = 0;
  ready = [];
  leases = Pq.new 0;
  scheduled = Pq.new 0;
  stats = record {
    total = 0;
    blocked = 0;
    scheduled = 0;
    ready = 0;
    in_progress = 0;
    succeeded = 0;
    failed = 0;
    sealed = false;
    complete = false;
    cursor = 0;
  };
  doorbell = 0;
  cursor = 0;
  log = [];
  log_start = 1;
  log_cap = log_cap;
  log_bell = 0;
  reads = 0;
}

abbrev pub put_rec : ℕ → NodeRec → Scope → Scope
put_rec h r s = record s { recs = update s.recs h r }

-- The reading of the clock, and the scope after it.
abbrev pub now : Env → Scope → ℕ
now env s = env.clock s.reads

abbrev pub after_now : Scope → Scope
after_now s = record s { reads = suc s.reads }

-- The slot that a freed handle leaves, or a new one at the end of the arrays. The head of `free`
-- is the end of the source's slice.
unfoldable pub alloc : Scope → Scope × ℕ
alloc s = elim s.free [
  | h ∷ free ↦ (
    record s {
      free = free;
      recs = update s.recs h blank;
      succ = update s.succ h [];
      pred = update s.pred h [];
      ord = update s.ord h 0;
      deadline = update s.deadline h 0;
      ready_at = update s.ready_at h 0;
      fifo = update s.fifo h 0;
    },
    h,
  )
  | [] ↦
      let h = s.slots in
      (
        record s {
          slots = suc h;
          recs = update s.recs h blank;
          succ = update s.succ h [];
          pred = update s.pred h [];
          ord = update s.ord h 0;
          deadline = update s.deadline h 0;
          ready_at = update s.ready_at h 0;
          fifo = update s.fifo h 0;
        },
        h,
      )
]

unfoldable pub release : ℕ → Scope → Scope
release h s =
    let e = (s.recs h).epoch in
    record s {
      epoch_floor = if ltb s.epoch_floor e then e else s.epoch_floor;
      recs = update s.recs h blank;
      succ = update s.succ h [];
      pred = update s.pred h [];
      free = h ∷ s.free;
    }

abbrev bucket_of : ℕ → Scope → Bucket
bucket_of h s = bucket (s.recs h).phase (s.recs h).status

unfoldable pub leave_bucket : ℕ → Scope → Scope
leave_bucket h s = record s { stats = count_by dec64 (bucket_of h s) s.stats }

unfoldable pub enter_bucket : ℕ → Scope → Scope
enter_bucket h s = record s { stats = count_by inc64 (bucket_of h s) s.stats }

-- s.stats.Complete = s.sealed && s.stats.NonTerminal() == 0
unfoldable pub refresh_complete : Scope → Scope
refresh_complete s = record s {
  stats = record s.stats { complete = s.sealed && non_terminal s.stats == 0 };
}

-- s.stats.Total--
unfoldable pub drop_total : Scope → Scope
drop_total s = record s { stats = record s.stats { total = dec64 s.stats.total } }

-- Tests on the phase.
abbrev pub is_done : Phase → Bool
is_done Phase.done = true
is_done _ = false

abbrev pub is_claimed : Phase → Bool
is_claimed Phase.claimed = true
is_claimed _ = false

abbrev pub is_ready : Phase → Bool
is_ready Phase.ready = true
is_ready _ = false

abbrev pub is_blocked : Phase → Bool
is_blocked Phase.blocked = true
is_blocked _ = false
