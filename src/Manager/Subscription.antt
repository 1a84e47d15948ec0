-- ===== src/Manager/Subscription.antt =====
-- subscribe.go: one subscription, its bounded channel, and its consumer.
--
-- A channel is the list of its buffered events with its capacity. The consumer receives without the
-- lock that `offer` holds, so an offer is told how many events it receives in between.
-- The count of dropped events is an unbounded number where the source has a uint64.
pub mod Stream
pub mod Delivery
use dagworker.Base.{
  ℕ, zero, suc, ◌+◌, Bool, true, false, ◌||◌, Option, none, some, List, [], ◌∷◌, ◌++◌, ltb,
  if◌then◌else◌, length, take, drop,
}
use dagworker.Errors.{Error, plain, err_subscriber_lagged}
use dagworker.Event.{Event, OverflowPolicy, SubscribeOptions}

pub record Subscription : Type 0 where
  pub opts : SubscribeOptions
  pub pol : OverflowPolicy
  pub size : ℕ
  pub ch : List Event
  pub received : List Event
  pub error : Option Error
  pub done : Bool
  pub gap : Bool
  pub dropped : ℕ

-- The subscription that Subscribe makes.
unfoldable pub open_sub : SubscribeOptions → OverflowPolicy → ℕ → Subscription
open_sub opts pol size = record {
  opts = opts;
  pol = pol;
  size = size;
  ch = [];
  received = [];
  error = none;
  done = false;
  gap = false;
  dropped = 0;
}

-- The consumer receives as many events, or all that there are.
unfoldable pub receive : ℕ → Subscription → Subscription
receive n s = record s { ch = drop n s.ch; received = s.received ++ take n s.ch }

unfoldable pub close_locked : Option Error → Subscription → Subscription
close_locked e s =
    if s.done
    then s
    else record s { done = true; error = elim s.error [ none ↦ e | some x ↦ some x ] }

unfoldable pub finish : Option Error → Subscription → Subscription
unfolding close_locked
finish e s = close_locked e s

-- s.ch <- ev in a select with a default: whether there was room.
unfoldable pub try_send : Event → Subscription → Option Subscription
try_send ev s = if ltb (length s.ch) s.size then some (record s { ch = s.ch ++ ev ∷ [] }) else none

-- Room is made for the event, and the event takes it. The consumer receives `before` events before
-- the oldest is dropped, and `between` ones after that.
unfoldable pub force : ℕ → ℕ → Event → Subscription → Subscription
unfolding receive try_send
force before between ev s0 =
    let s1 = receive before s0 in
    let s2 =
      receive between (record s1 { ch = drop 1 s1.ch; dropped = suc s1.dropped; gap = true }) in
    elim (try_send (record ev { gap = true }) s2) [
      | none ↦ s2
      | some s3 ↦ record s3 { gap = false }
    ]

unfoldable pub is_close_slow : OverflowPolicy → Bool
is_close_slow OverflowPolicy.close_slow = true
is_close_slow _ = false

-- An event for a subscription that is not done.
unfoldable pub offer_open : ℕ → ℕ → Event → Subscription → Subscription
unfolding try_send close_locked force is_close_slow
offer_open before between ev s =
    let ev' = record ev { gap = ev.gap || s.gap } in
    elim (try_send ev' s) [
      | some s' ↦ record s' { gap = false }
      | none ↦
          if is_close_slow s.pol
          then close_locked (some (plain err_subscriber_lagged)) s
          else force before between ev' s
    ]

-- offer, but for the removal from the registry of one that it closes.
unfoldable pub offer : ℕ → ℕ → Event → Subscription → Subscription
unfolding offer_open
offer before between ev s = if s.done then s else offer_open before between ev s
