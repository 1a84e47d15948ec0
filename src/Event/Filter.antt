-- ===== src/Event/Filter.antt =====
-- event.go: what a subscription lets through.
use dagworker.Base.{
  ◌≡◌, ◌↔◌, ◌⊎◌, true, false, List, [], ◌∷◌, Text, text_eq, text_eq_iff, is_empty, arith,
}
use dagworker.Event.{
  EventKind, Event, SubscribeOptions, event_kind_eq, contains_kind, contains_string, wants,
}

abbrev pub Among : {A : Type 0} → A → List A → Type 0
Among x [] = ⊥
Among x (y ∷ ys) = (y ≡ x) ⊎ Among x ys

event_kind_eq_iff : (j k : EventKind) → (event_kind_eq j k ≡ true) ↔ (j ≡ k)
unfolding event_kind_eq
event_kind_eq_iff (EventKind.unknown m) (EventKind.unknown n) = ground arith
event_kind_eq_iff j k = ground arith

contains_kind_iff : (ks : List EventKind) (k : EventKind) → (contains_kind ks k ≡ true) ↔ Among k ks
unfolding contains_kind
contains_kind_iff [] k = ground arith
contains_kind_iff (x ∷ ks) k = ground (arith, event_kind_eq_iff x k, contains_kind_iff ks k)

contains_string_iff : (ss : List Text) (s : Text) → (contains_string ss s ≡ true) ↔ Among s ss
unfolding contains_string
contains_string_iff [] s = ground arith
contains_string_iff (x ∷ ss) s = ground (arith, text_eq_iff x s, contains_string_iff ss s)

-- An event is let through by a subscription exactly when each filter that is set (the scope, the
-- event kinds, the node kinds) names it.
pub wants_iff :
    (o : SubscribeOptions) (e : Event)
    → (wants o e ≡ true) ↔ (
        ((o.scope ≡ []) ⊎ (o.scope ≡ e.scope))
        × ((o.kinds ≡ []) ⊎ Among e.kind o.kinds)
        × ((o.node_kinds ≡ []) ⊎ Among e.node_kind o.node_kinds))
unfolding wants
wants_iff o e = ground (
  arith,
  text_eq_iff e.scope o.scope,
  contains_kind_iff o.kinds e.kind,
  contains_string_iff o.node_kinds e.node_kind,
)

-- An event of another scope is not delivered.
pub wants-elsewhere :
    (o : SubscribeOptions) (e : Event)
    → is_empty o.scope ≡ false
    → text_eq o.scope e.scope ≡ false
    → wants o e ≡ false
unfolding wants
wants-elsewhere o e named other =
    ground (arith, text_eq_iff e.scope o.scope, text_eq_iff o.scope e.scope)
