-- ===== src/Manager/Registry/Publish.antt =====
-- subscribe.go: what the fan-out of a write does to each subscription.
use dagworker.Base.{
  ℕ, ◌≡◌, refl, sym, ap, ◌∙◌, not, ◌&&◌, ◌||◌, List, [], ◌∷◌, map, ◌==◌, ==_iff, if◌then◌else◌,
  is_empty, Text, text_eq, update, arith, Bool-cases, inl, inr,
}
use dagworker.Event.{Effect, Event, SubscribeOptions, wants}
use dagworker.Manager.Subscription.{Subscription, offer}
use dagworker.Manager.Registry.{
  Registry, Pace, has, subs_for, event_of, deliver, deliver_all, publish_loop, publish,
}
use dagworker.Manager.Registry.Filing.{one_if, Filed, drop_sub-Filed}
use dagworker.Manager.Registry.Offers.{
  offer_all, offer-opts, publish_loop-absent, publish_loop-once, offer_all-elsewhere,
  subs_for-count,
}

-- Cells that ask for the same scopes.
cells-Filed :
    (r : Registry) (cells : ℕ → Subscription)
    → ((id : ℕ) → (cells id).opts ≡ (r.cells id).opts)
    → Filed r
    → Filed (record r { cells = cells })
cells-Filed r cells same f = record {
  once = f.once;
  anywhere = λ id.
      f.anywhere id
      ∙ ap (λ (o : SubscribeOptions). one_if (has r.subs id && is_empty o.scope)) (sym (same id));
  buckets = λ id scope.
      f.buckets id scope
      ∙ ap
          (λ (o : SubscribeOptions).
            one_if (has r.subs id && not (is_empty scope) && text_eq o.scope scope))
          (sym (same id));
  numbered = f.numbered;
}

deliver-Filed :
    (pace : Pace) (ev : Event) (id : ℕ) (r : Registry) → Filed r → Filed (deliver pace ev id r)
unfolding deliver
deliver-Filed pace ev id r f =
    let s = r.cells id in
    let s' = offer (pace ev id).0 (pace ev id).1 ev s in
    let r' : Registry = record r { cells = update r.cells id s' } in
    let f' : Filed r' = cells-Filed r (update r.cells id s') kept f in
    elim (Bool-cases (wants s.opts ev)) [
      | inl wanted ↦ rw wanted (elim (Bool-cases (s'.done && not s.done)) [
        | inl closed ↦ rw closed (drop_sub-Filed id r' f')
        | inr same ↦ rw same f'
      ])
      | inr unwanted ↦ rw unwanted f
    ]
  where
    kept :
        (j : ℕ)
        → (update r.cells id (offer (pace ev id).0 (pace ev id).1 ev (r.cells id)) j).opts
          ≡ (r.cells j).opts
    kept j = elim (Bool-cases (id == j)) [
      | inl same ↦ rw same (
          offer-opts (pace ev id).0 (pace ev id).1 ev (r.cells id)
          ∙ ap (λ q. (r.cells q).opts) ((==_iff id j).0 same))
      | inr other ↦ rw other refl
    ]

deliver_all-Filed :
    (pace : Pace) (ev : Event) (ids : List ℕ) (r : Registry)
    → Filed r
    → Filed (deliver_all pace ev ids r)
unfolding deliver_all
deliver_all-Filed pace ev [] r f = f
deliver_all-Filed pace ev (id ∷ ids) r f =
    deliver_all-Filed pace ev ids (deliver pace ev id r) (deliver-Filed pace ev id r f)

publish_loop-Filed :
    (pace : Pace) (evs : List Event) (ids : List ℕ) (r : Registry)
    → Filed r
    → Filed (publish_loop pace evs ids r)
unfolding publish_loop
publish_loop-Filed pace [] ids r f = f
publish_loop-Filed pace (ev ∷ evs) ids r f =
    publish_loop-Filed pace evs ids (deliver_all pace ev ids r) (deliver_all-Filed pace ev ids r f)

-- In a registry that files each subscription once, where its scope filter puts it, publishing the
-- effects of a write offers every registered subscription exactly the events that its filter
-- wants, in their order, leaves every other subscription as it was, and leaves such a registry,
-- although subscriptions may be closed and dropped on the way.
pub publish-offers :
    (pace : Pace) (scope : Text) (effects : List Effect) (r : Registry)
    → Filed r
    → Filed (publish pace scope effects r)
      × ((id : ℕ)
          → (publish pace scope effects r).cells id ≡ (
              if has r.subs id
              then offer_all pace (map (event_of scope) effects) id (r.cells id)
              else r.cells id))
unfolding publish
publish-offers pace scope effects r f =
    let evs = map (event_of scope) effects in
    (publish_loop-Filed pace evs (subs_for scope r) r f, each)
  where
    each :
        (id : ℕ)
        → (publish_loop pace (map (event_of scope) effects) (subs_for scope r) r).cells id ≡ (
            if has r.subs id
            then offer_all pace (map (event_of scope) effects) id (r.cells id)
            else r.cells id)
    each id =
        let evs = map (event_of scope) effects in
        let own = (r.cells id).opts.scope in
        let n = subs_for-count r scope id f in
        elim (Bool-cases (has r.subs id)) [
          | inr absent ↦
              rw absent
                (publish_loop-absent pace evs (subs_for scope r) r id (ground (arith, n, absent)))
          | inl there ↦ elim (Bool-cases (is_empty own || text_eq own scope)) [
            | inl asked ↦ rw there (
                publish_loop-once pace evs (subs_for scope r) r id
                  (ground (arith, n, there, asked)))
            | inr unasked ↦
                let same =
                  offer_all-elsewhere pace scope effects id (r.cells id) (ground (arith, unasked))
                    (ground (arith, unasked)) in
                rw there (
                  publish_loop-absent pace evs (subs_for scope r) r id (ground (arith, n, unasked))
                  ∙ sym same)
          ]
        ]
