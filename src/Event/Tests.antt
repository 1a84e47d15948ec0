-- ===== src/Event/Tests.antt =====
-- The subscription filter, applied.
use dagworker.Base.{◌≡◌, ◌↔◌, ◌⊎◌, true, false, none, [], ◌∷◌, pos, codes}
use dagworker.Status.{Status, Reason}
use dagworker.Event.{EventKind, Event, SubscribeOptions, wants}
use dagworker.Event.Filter.{Among, wants_iff}

abbrev options : SubscribeOptions
options = record {
  scope = codes "s";
  kinds = EventKind.ready ∷ [];
  node_kinds = [];
  from = 0;
  replay = false;
  buffer_size = pos 0;
  overflow = none;
  durable = false;
}

abbrev event : Event
event = record {
  kind = EventKind.ready;
  scope = codes "s";
  node_id = codes "a";
  seq = 2;
  cursor = 2;
  from = Status.new;
  to = Status.new;
  reason = Reason.none;
  message = [];
  attempt = 0;
  node_kind = codes "build";
  at = 5;
  gap = false;
}

wants_iff_example : (wants options event ≡ true) ↔ (
    ((options.scope ≡ []) ⊎ (options.scope ≡ event.scope))
    × ((options.kinds ≡ []) ⊎ Among event.kind options.kinds)
    × ((options.node_kinds ≡ []) ⊎ Among event.node_kind options.node_kinds))
wants_iff_example = wants_iff options event
