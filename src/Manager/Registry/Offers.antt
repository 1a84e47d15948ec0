-- ===== src/Manager/Registry/Offers.antt =====
-- subscribe.go: how often the loops of the fan-out offer an event to each subscription.
use dagworker.Base.{
  ℕ, ◌≡◌, refl, sym, ap, ◌∙◌, Bool, true, false, not, ◌&&◌, ◌||◌, List, [], ◌∷◌, map, ◌==◌, ==_iff,
  if◌then◌else◌, is_empty, Text, text_eq, text_eq_iff, update, arith, Bool-cases, inl, inr,
}
use dagworker.Event.{Effect, Event, wants}
use dagworker.Event.Filter.{wants-elsewhere}
use dagworker.Manager.Subscription.{
  Subscription, offer, offer_open, try_send, close_locked, force, receive, is_close_slow,
}
use dagworker.Manager.Registry.{
  Registry, Pace, has, bucket_of, drop_sub, subs_for, event_of, deliver, deliver_all, publish_loop,
}
use dagworker.Manager.Registry.Filing.{count, one_if, Filed, count-append}

-- A subscription that is offered an event, where its filter wants it.
unfoldable pub offer_wanted : Pace → Event → ℕ → Subscription → Subscription
offer_wanted pace ev id s =
    let (before, between) = pace ev id in if wants s.opts ev then offer before between ev s else s

-- The same for each of the events, in their order.
unfoldable pub offer_all : Pace → List Event → ℕ → Subscription → Subscription
unfolding offer_wanted
offer_all pace [] id s = s
offer_all pace (ev ∷ evs) id s = offer_all pace evs id (offer_wanted pace ev id s)

pub offer-opts :
    (before between : ℕ) (ev : Event) (s : Subscription) → (offer before between ev s).opts ≡ s.opts
unfolding offer offer_open try_send close_locked force receive is_close_slow
offer-opts before between ev s = ground arith

drop_sub-cells : (id : ℕ) (r : Registry) → (drop_sub id r).cells ≡ r.cells
unfolding drop_sub
drop_sub-cells id r = ground arith

cells-if :
    (b : Bool) (p q : Registry) (j : ℕ)
    → (if b then p else q).cells j ≡ (if b then p.cells j else q.cells j)
cells-if true p q j = refl
cells-if false p q j = refl

at_other :
    (r : Registry) (id j : ℕ) (b : Bool)
    → (id == j) ≡ b
    → r.cells j ≡ (if b then r.cells id else r.cells j)
at_other r id j true e = ap r.cells (sym ((==_iff id j).0 e))
at_other r id j false e = refl

deliver-cells :
    (pace : Pace) (ev : Event) (id : ℕ) (r : Registry) (j : ℕ)
    → (deliver pace ev id r).cells j
      ≡ (if id == j then offer_wanted pace ev id (r.cells id) else r.cells j)
unfolding deliver offer_wanted
deliver-cells pace ev id r j =
    let s = r.cells id in
    let s' = offer (pace ev id).0 (pace ev id).1 ev s in
    let r' : Registry = record r { cells = update r.cells id s' } in
    let dropped : (drop_sub id r').cells j ≡ r'.cells j =
      ap (λ (c : ℕ → Subscription). c j) (drop_sub-cells id r') in
    elim (Bool-cases (wants s.opts ev)) [
      | inl wanted ↦
          rw wanted
            (cells-if (s'.done && not s.done) (drop_sub id r') r' j ∙ ground (arith, dropped))
      | inr unwanted ↦ rw unwanted (at_other r id j (id == j) refl)
    ]

-- The loop over the subscriptions offers an event to each as often as it is listed.
deliver_all-absent :
    (pace : Pace) (ev : Event) (ids : List ℕ) (r : Registry) (id : ℕ)
    → count id ids ≡ 0
    → (deliver_all pace ev ids r).cells id ≡ r.cells id
unfolding deliver_all count
deliver_all-absent pace ev [] r id e = refl
deliver_all-absent pace ev (k ∷ ids) r id e =
    let other : (k == id) ≡ false = ground (arith, e) in
    deliver_all-absent pace ev ids (deliver pace ev k r) id (ground (arith, e, other))
    ∙ deliver-cells pace ev k r id
    ∙ rw other refl

deliver_all-once :
    (pace : Pace) (ev : Event) (ids : List ℕ) (r : Registry) (id : ℕ)
    → count id ids ≡ 1
    → (deliver_all pace ev ids r).cells id ≡ offer_wanted pace ev id (r.cells id)
unfolding deliver_all count
deliver_all-once pace ev [] r id e = absurd (omega (arith, e))
deliver_all-once pace ev (k ∷ ids) r id e =
    let here = deliver-cells pace ev k r id in
    elim (Bool-cases (k == id)) [
      | inl same ↦
          deliver_all-absent pace ev ids (deliver pace ev k r) id (ground (arith, e, same))
          ∙ here
          ∙ rw same (ap (λ q. offer_wanted pace ev q (r.cells q)) ((==_iff k id).0 same))
      | inr other ↦
          deliver_all-once pace ev ids (deliver pace ev k r) id (ground (arith, e, other))
          ∙ ap (offer_wanted pace ev id) (here ∙ rw other refl)
    ]

pub publish_loop-absent :
    (pace : Pace) (evs : List Event) (ids : List ℕ) (r : Registry) (id : ℕ)
    → count id ids ≡ 0
    → (publish_loop pace evs ids r).cells id ≡ r.cells id
unfolding publish_loop
publish_loop-absent pace [] ids r id e = refl
publish_loop-absent pace (ev ∷ evs) ids r id e =
    publish_loop-absent pace evs ids (deliver_all pace ev ids r) id e
    ∙ deliver_all-absent pace ev ids r id e

pub publish_loop-once :
    (pace : Pace) (evs : List Event) (ids : List ℕ) (r : Registry) (id : ℕ)
    → count id ids ≡ 1
    → (publish_loop pace evs ids r).cells id ≡ offer_all pace evs id (r.cells id)
unfolding publish_loop offer_all
publish_loop-once pace [] ids r id e = refl
publish_loop-once pace (ev ∷ evs) ids r id e =
    publish_loop-once pace evs ids (deliver_all pace ev ids r) id e
    ∙ ap (offer_all pace evs id) (deliver_all-once pace ev ids r id e)

-- Events of a scope that a subscription did not ask for.
pub offer_all-elsewhere :
    (pace : Pace) (scope : Text) (effects : List Effect) (id : ℕ) (s : Subscription)
    → is_empty s.opts.scope ≡ false
    → text_eq s.opts.scope scope ≡ false
    → offer_all pace (map (event_of scope) effects) id s ≡ s
unfolding offer_all offer_wanted event_of
offer_all-elsewhere pace scope [] id s named other = refl
offer_all-elsewhere pace scope (ef ∷ effects) id s named other =
    let unwanted = wants-elsewhere s.opts (event_of scope ef) named other in
    ap (offer_all pace (map (event_of scope) effects) id) (rw unwanted refl)
    ∙ offer_all-elsewhere pace scope effects id s named other

pub subs_for-count :
    (r : Registry) (scope : Text) (id : ℕ)
    → Filed r
    → count id (subs_for scope r)
      ≡ one_if (
          has r.subs id
          && (is_empty (r.cells id).opts.scope || text_eq (r.cells id).opts.scope scope))
unfolding subs_for
subs_for-count r scope id f = ground (
  arith,
  count-append id (bucket_of scope r.by_scope) r.any_scope,
  f.anywhere id,
  f.buckets id scope,
  text_eq_iff (r.cells id).opts.scope scope,
)
