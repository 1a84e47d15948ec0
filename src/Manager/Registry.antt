-- ===== src/Manager/Registry.antt =====
-- subscribe.go: the registry of the Manager's subscriptions, and the fan-out of a write's effects.
--
-- A subscription is a cell under its number, as its pointer stands in several maps of the source;
-- the sets of subscriptions are lists of such numbers.
pub mod Filing
pub mod Adding
pub mod Offers
pub mod Publish
use dagworker.Base.{
  ℕ, suc, Bool, true, false, not, ◌&&◌, Option, none, some, List, [], ◌∷◌, ◌++◌, map, ◌==◌, any,
  filter, if◌then◌else◌, is_empty, Text, lookup, insert, erase, update,
}
use dagworker.Event.{Effect, Event, OverflowPolicy, SubscribeOptions, wants}
use dagworker.Manager.Subscription.{Subscription, open_sub, finish, offer}

pub record Registry : Type 0 where
  pub subs : List ℕ
  pub by_scope : List (Text × List ℕ)
  pub any_scope : List ℕ
  pub next_sub : ℕ
  pub cells : ℕ → Subscription

abbrev pub has : List ℕ → ℕ → Bool
has ids id = any (λ j. j == id) ids

abbrev pub without : ℕ → List ℕ → List ℕ
without id ids = filter (λ j. not (j == id)) ids

abbrev pub or_empty : Option (List ℕ) → List ℕ
or_empty none = []
or_empty (some ids) = ids

-- byScope[scope], empty where it is missing.
unfoldable pub bucket_of : Text → List (Text × List ℕ) → List ℕ
bucket_of scope m = or_empty (lookup scope m)

unfoldable pub add_sub : ℕ → Subscription → Registry → Registry
unfolding bucket_of
add_sub id s r =
    let filed = record r { subs = r.subs ++ id ∷ []; cells = update r.cells id s } in
    if is_empty s.opts.scope
    then record filed { any_scope = r.any_scope ++ id ∷ [] }
    else record filed {
      by_scope = insert s.opts.scope (bucket_of s.opts.scope r.by_scope ++ id ∷ []) r.by_scope;
    }

-- The registration of Subscribe, for a subscription that is not durable.
unfoldable pub register : SubscribeOptions → OverflowPolicy → ℕ → Registry → Registry × ℕ
unfolding add_sub
register opts pol size r =
    let id = suc r.next_sub in
    (add_sub id (open_sub opts pol size) (record r { next_sub = id }), id)

-- A bucket without one of its members; an empty one is deleted.
unfoldable pub drop_from : Text → ℕ → List (Text × List ℕ) → List (Text × List ℕ)
drop_from scope id m = elim (lookup scope m) [
  | none ↦ m
  | some ids ↦ if is_empty (without id ids) then erase scope m else insert scope (without id ids) m
]

unfoldable pub drop_sub : ℕ → Registry → Registry
unfolding drop_from
drop_sub id r =
    if has r.subs id
    then record r {
      subs = without id r.subs;
      any_scope = without id r.any_scope;
      by_scope = drop_from (r.cells id).opts.scope id r.by_scope;
    }
    else r

unfoldable pub subs_for : Text → Registry → List ℕ
unfolding bucket_of
subs_for scope r = bucket_of scope r.by_scope ++ r.any_scope

unfoldable pub event_of : Text → Effect → Event
event_of scope ef = record {
  kind = ef.kind;
  scope = scope;
  node_id = ef.node_id;
  seq = ef.seq;
  cursor = ef.cursor;
  from = ef.from;
  to = ef.to;
  reason = ef.reason;
  message = ef.message;
  attempt = ef.attempt;
  node_kind = ef.node_kind;
  at = ef.at;
  gap = false;
}

-- How many events the consumer of a subscription receives while it is offered one.
abbrev pub Pace : Type 0
Pace = Event → ℕ → ℕ × ℕ

-- s.offer, with the removal of a subscription that it closes.
unfoldable pub deliver : Pace → Event → ℕ → Registry → Registry
unfolding drop_sub
deliver pace ev id r =
    let (before, between) = pace ev id in
    let s = r.cells id in
    let s' = offer before between ev s in
    let r' = record r { cells = update r.cells id s' } in
    if not (wants s.opts ev) then r else if s'.done && not s.done then drop_sub id r' else r'

-- The loop over the subscriptions.
unfoldable pub deliver_all : Pace → Event → List ℕ → Registry → Registry
unfolding deliver
deliver_all pace ev [] r = r
deliver_all pace ev (id ∷ ids) r = deliver_all pace ev ids (deliver pace ev id r)

-- The loop over the effects.
unfoldable pub publish_loop : Pace → List Event → List ℕ → Registry → Registry
unfolding deliver_all
publish_loop pace [] ids r = r
publish_loop pace (ev ∷ evs) ids r = publish_loop pace evs ids (deliver_all pace ev ids r)

unfoldable pub publish : Pace → Text → List Effect → Registry → Registry
unfolding publish_loop subs_for event_of
publish pace scope effects r = publish_loop pace (map (event_of scope) effects) (subs_for scope r) r
