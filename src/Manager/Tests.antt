-- ===== src/Manager/Tests.antt =====
-- Runs of subscribe.go on small registries.
use dagworker.Base.{
  ℕ, ◌≡◌, refl, false, lookup, none, some, ◌⊎◌, List, [], ◌∷◌, map, if◌then◌else◌, codes, arith,
  pos,
}
use dagworker.Errors.{Error}
use dagworker.Memory.Samples.{env, idle, plain_config, alpha}
use dagworker.Manager.Calls.{Manager, published}
use dagworker.Manager.Calls.Guard.{Write}
use dagworker.Manager.Calls.Writes.{Passes, call, forward, call-decides}
use dagworker.Manager.OverMemory.{memory_port}
use dagworker.Status.{Status, Reason}
use dagworker.Event.{EventKind, Effect, OverflowPolicy, SubscribeOptions}
use dagworker.Manager.Subscription.{open_sub}
use dagworker.Manager.Subscription.Stream.{Step, steps, offered_of, Tracks}
use dagworker.Manager.Subscription.Delivery.{steps-delivers}
use dagworker.Manager.Registry.{Registry, has, bucket_of, register, event_of, publish}
use dagworker.Manager.Registry.Filing.{Filed, count}
use dagworker.Manager.Registry.Adding.{register-Filed}
use dagworker.Manager.Registry.Offers.{offer_all}
use dagworker.Manager.Registry.Publish.{publish-offers}

abbrev effect : Effect
effect = record {
  node_id = codes "a";
  kind = EventKind.ready;
  from = Status.new;
  to = Status.new;
  reason = Reason.none;
  message = [];
  attempt = 0;
  node_kind = [];
  seq = 1;
  cursor = 1;
  at = 1000;
}

abbrev everything : SubscribeOptions
everything = record {
  scope = [];
  kinds = [];
  node_kinds = [];
  from = 0;
  replay = false;
  buffer_size = pos 0;
  overflow = none;
  durable = false;
}

-- Two events for a channel of one, which the consumer empties afterwards.
abbrev crowded : List Step
crowded =
    Step.offered (event_of (codes "s") effect) 0 0
    ∷ Step.offered (event_of (codes "s") effect) 0 0
    ∷ Step.taken 2
    ∷ []

steps-delivers_example :
    Tracks
      (offered_of crowded (open_sub everything OverflowPolicy.drop_oldest 1))
      (steps crowded (open_sub everything OverflowPolicy.drop_oldest 1))
steps-delivers_example =
    steps-delivers crowded everything OverflowPolicy.drop_oldest 1 (omega arith)

abbrev no_subs : Registry
no_subs = record {
  subs = [];
  by_scope = [];
  any_scope = [];
  next_sub = 0;
  cells = λ id. open_sub everything OverflowPolicy.drop_oldest 1;
}

no_subs-Filed : Filed no_subs
unfolding count bucket_of lookup
no_subs-Filed = record {
  once = λ id. refl;
  anywhere = λ id. refl;
  buckets = λ id scope. refl;
  numbered = λ id e. absurd (ground arith);
}

-- One subscription to every scope.
abbrev listening : Registry
listening = (register everything OverflowPolicy.drop_oldest 4 no_subs).0

publish-offers_example :
    Filed (publish (λ ev id. (0, 0)) (codes "s") (effect ∷ []) listening)
    × ((id : ℕ)
        → (publish (λ ev id. (0, 0)) (codes "s") (effect ∷ []) listening).cells id ≡ (
            if has listening.subs id
            then offer_all
                (λ ev id. (0, 0))
                (map (event_of (codes "s")) (effect ∷ []))
                id
                (listening.cells id)
            else listening.cells id))
publish-offers_example =
    publish-offers (λ ev id. (0, 0)) (codes "s") (effect ∷ []) listening
      (register-Filed everything OverflowPolicy.drop_oldest 4 no_subs no_subs-Filed)

-- A Manager over the in-memory backend, with one scope of two ready nodes.
abbrev manager : Manager (memory_port env) (λ ev id. (0, 0))
manager = record {
  store = record {
    scopes = (codes "s", idle) ∷ [];
    defaults = plain_config;
    log_cap = 4;
    closed = false;
  };
  registry = listening;
  closed = false;
}

call-decides_example :
    (Passes (memory_port env) (λ ev id. (0, 0)) (codes "s") (Write.ends (alpha ∷ [])) manager
      × (call (memory_port env) (λ ev id. (0, 0)) (codes "s") (Write.ends (alpha ∷ [])) manager
          ≡ published
              (memory_port env)
              (λ ev id. (0, 0))
              (codes "s")
              (forward
                (memory_port env)
                (λ ev id. (0, 0))
                (codes "s")
                (Write.ends (alpha ∷ []))
                manager.store)
              manager))
    ⊎ ((e : Error) × ((call
              (memory_port env)
              (λ ev id. (0, 0))
              (codes "s")
              (Write.ends (alpha ∷ []))
              manager
            ≡ (manager, some e))
          × (Passes
                (memory_port env)
                (λ ev id. (0, 0))
                (codes "s")
                (Write.ends (alpha ∷ []))
                manager
              → ⊥)))
call-decides_example =
    call-decides (memory_port env) (λ ev id. (0, 0)) (codes "s") (Write.ends (alpha ∷ [])) manager
