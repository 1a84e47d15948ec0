-- ===== src/Event.antt =====
-- event.go and store.go: events, effects and the subscription filter.
pub mod Filter
pub mod Tests
use dagworker.Base.{
  ℕ, Bool, true, false, ◌&&◌, not, List, [], ◌∷◌, if◌then◌else◌, Text, text_eq, any, is_empty,
  Option, none, some, ltb_ℤ, ◌==◌, ℤ, pos,
}
use dagworker.Errors.{Result, ok, err, invalid_argument_error, ◌>>=◌, ◌>>◌}
use dagworker.Status.{Status, Reason}
use dagworker.Identifier.{validate_scope, validate_kind}

pub data EventKind : Type 0 where
  created transition ready : EventKind
  unknown : ℕ → EventKind

-- What a store reports back for one state change.
pub record Effect : Type 0 where
  pub node_id : Text
  pub kind : EventKind
  pub from : Status
  pub to : Status
  pub reason : Reason
  pub message : Text
  pub attempt : ℕ
  pub node_kind : Text
  pub seq : ℕ
  pub cursor : ℕ
  pub at : ℕ

pub record Event : Type 0 where
  pub kind : EventKind
  pub scope : Text
  pub node_id : Text
  pub seq : ℕ
  pub cursor : ℕ
  pub from : Status
  pub to : Status
  pub reason : Reason
  pub message : Text
  pub attempt : ℕ
  pub node_kind : Text
  pub at : ℕ
  pub gap : Bool

pub data OverflowPolicy : Type 0 where
  drop_oldest close_slow : OverflowPolicy
  unknown : ℕ → OverflowPolicy

unfoldable pub validate_overflow : OverflowPolicy → Result (Unit {0})
validate_overflow (OverflowPolicy.unknown n) = err (invalid_argument_error "overflow policy")
validate_overflow _ = ok tt

pub record SubscribeOptions : Type 0 where
  pub scope : Text
  pub kinds : List EventKind
  pub node_kinds : List Text
  pub from : ℕ
  pub replay : Bool
  pub buffer_size : ℤ
  pub overflow : Option OverflowPolicy
  pub durable : Bool

validate_event_kinds : List EventKind → Result (Unit {0})
validate_event_kinds [] = ok tt
validate_event_kinds (EventKind.unknown n ∷ ks) = err (invalid_argument_error "event kind")
validate_event_kinds (EventKind.created ∷ ks) = validate_event_kinds ks
validate_event_kinds (EventKind.transition ∷ ks) = validate_event_kinds ks
validate_event_kinds (EventKind.ready ∷ ks) = validate_event_kinds ks

validate_node_kinds : List Text → Result (Unit {0})
validate_node_kinds [] = ok tt
validate_node_kinds (nk ∷ nks) = validate_kind nk >> validate_node_kinds nks

validate_optional_overflow : Option OverflowPolicy → Result (Unit {0})
validate_optional_overflow none = ok tt
validate_optional_overflow (some p) = validate_overflow p

unfoldable pub validate_subscribe : SubscribeOptions → Result (Unit {0})
unfolding validate_event_kinds validate_node_kinds validate_optional_overflow
validate_subscribe o = do
  if is_empty o.scope then ok tt else validate_scope o.scope
  validate_event_kinds o.kinds
  validate_node_kinds o.node_kinds
  if is_empty o.scope && not (o.from == 0) then err (invalid_argument_error "from") else ok tt
  if ltb_ℤ o.buffer_size (pos 0) then err (invalid_argument_error "buffer size") else ok tt
  validate_optional_overflow o.overflow

event_kind_eq : EventKind → EventKind → Bool
event_kind_eq EventKind.created EventKind.created = true
event_kind_eq EventKind.transition EventKind.transition = true
event_kind_eq EventKind.ready EventKind.ready = true
event_kind_eq (EventKind.unknown m) (EventKind.unknown n) = m == n
event_kind_eq _ _ = false

contains_kind : List EventKind → EventKind → Bool
contains_kind [] k = false
contains_kind (x ∷ ks) k = if event_kind_eq x k then true else contains_kind ks k

pub contains_string : List Text → Text → Bool
contains_string [] s = false
contains_string (x ∷ ss) s = if text_eq x s then true else contains_string ss s

pub wants : SubscribeOptions → Event → Bool
wants o e =
    if not (is_empty o.scope) && not (text_eq e.scope o.scope)
    then false
    else if not (is_empty o.kinds) && not (contains_kind o.kinds e.kind)
    then false
    else if not (is_empty o.node_kinds) && not (contains_string o.node_kinds e.node_kind)
    then false
    else true
