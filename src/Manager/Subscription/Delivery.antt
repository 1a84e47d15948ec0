-- ===== src/Manager/Subscription/Delivery.antt =====
-- subscribe.go: a subscription over any sequence of offers, receptions and closings.
use mathlib.Core.List.{append_assoc, append-nil}
use dagworker.Base.{
  ℕ, suc, ◌+◌, ◌≤◌, ◌<◌, ◌≡◌, refl, sym, ap, ◌∙◌, subst, Bool, true, false, ◌||◌, Option, none,
  some, List, [], ◌∷◌, ◌++◌, map, ltb, if◌then◌else◌, length, take, drop, arith, length-append,
  length-drop, Bool-cases, inl, inr,
}
use dagworker.Errors.{Error, plain, err_subscriber_lagged}
use dagworker.Event.{Event, OverflowPolicy, SubscribeOptions}
use dagworker.Manager.Subscription.{
  Subscription, open_sub, receive, close_locked, finish, try_send, force, is_close_slow, offer_open,
  offer,
}
use dagworker.Manager.Subscription.Stream.{
  Step, step, steps, clear, offered_of, Sublist, Tracks, marked, Sublist-without, received-drop,
  sent-Tracks, forced-Tracks, lagged-Tracks,
}

receive-Tracks :
    (evs : List Event) (n : ℕ) (s : Subscription) → Tracks evs s → Tracks evs (receive n s)
unfolding receive
receive-Tracks evs n s t =
    let same = sym (received-drop n s.received s.ch) in
    record {
      in_order = subst (λ q. Sublist (map clear q) evs) same t.in_order;
      within = omega (arith, length-drop n s.ch, t.within);
      has_room = t.has_room;
      no_gap = t.no_gap;
      counted =
          subst (λ (q : List Event). s.done ≡ false → length evs ≤ length q + s.dropped) same
            t.counted;
      unmarked =
          subst
            (λ (q : List Event).
              marked q ≡ false
              → (rest : List Event) × (evs ≡ map clear q ++ rest) × (s.done ≡ false → rest ≡ []))
            same t.unmarked;
    }

finish-Tracks :
    (evs : List Event) (e : Option Error) (s : Subscription)
    → Tracks evs s
    → Tracks evs (finish e s)
unfolding finish close_locked
finish-Tracks evs e s t = elim (Bool-cases s.done) [
  | inl over ↦ subst (Tracks evs) (sym (still over)) t
  | inr on ↦ rw on (record {
    in_order = t.in_order;
    within = t.within;
    has_room = t.has_room;
    no_gap = t.no_gap;
    counted = λ h. absurd (ground arith);
    unmarked = λ clean.
        let (rest, same, ends) = t.unmarked clean in (rest, same, λ h. absurd (ground arith));
  })
]
  where
    still : s.done ≡ true → finish e s ≡ s
    still over i =
        if over i
        then s
        else record s { done = true; error = elim s.error [ none ↦ e | some x ↦ some x ] }

-- Where the consumer, the drop and the consumer again leave the stream.
force-stream :
    (before between : ℕ) (received ch : List Event)
    → let kept = drop 1 (drop before ch) in
      let end = (received ++ take before ch) ++ take between kept in
      Sublist (map clear (end ++ drop between kept)) (map clear (received ++ ch))
      × (length (received ++ ch) ≤ suc (length (end ++ drop between kept)))
force-stream before between received ch =
    let r = received ++ take before ch in
    let left = drop before ch in
    let kept = drop 1 left in
    let whole : r ++ left ≡ received ++ ch = received-drop before received ch in
    let end : (r ++ take between kept) ++ drop between kept ≡ r ++ kept =
      received-drop between r kept in
    let less : Sublist (map clear (r ++ kept)) (map clear (received ++ ch)) =
      subst (λ q. Sublist (map clear (r ++ kept)) (map clear q)) whole (Sublist-without r left) in
    (
      subst (λ q. Sublist (map clear q) (map clear (received ++ ch))) (sym end) less,
      omega (
        arith,
        ap length whole,
        ap length end,
        length-append r left,
        length-append r kept,
        length-drop 1 left,
      ),
    )

force-Tracks :
    (evs : List Event) (before between : ℕ) (ev : Event) (s : Subscription)
    → Tracks evs s
    → s.done ≡ false
    → Tracks (evs ++ clear ev ∷ []) (force before between ev s)
unfolding force receive try_send
force-Tracks evs before between ev s t on =
    let kept = drop 1 (drop before s.ch) in
    let (less, short) = force-stream before between s.received s.ch in
    let small : length (drop between kept) < s.size = omega (
      arith,
      t.within,
      t.has_room,
      length-drop before s.ch,
      length-drop 1 (drop before s.ch),
      length-drop between kept,
    ) in
    let room : ltb (length (drop between kept)) s.size ≡ true = ground (arith, small) in
    rw (room, force)
      (forced-Tracks evs ev s ((s.received ++ take before s.ch) ++ take between kept)
        (drop between kept) t on less short small)

close_locked-on :
    (e : Option Error) (s : Subscription)
    → s.done ≡ false
    → close_locked e s
      ≡ record s { done = true; error = elim s.error [ none ↦ e | some x ↦ some x ] }
unfolding close_locked
close_locked-on e s on i =
    if on i
    then s
    else record s { done = true; error = elim s.error [ none ↦ e | some x ↦ some x ] }

offer_open-room :
    (before between : ℕ) (ev : Event) (s : Subscription)
    → ltb (length s.ch) s.size ≡ true
    → offer_open before between ev s
      ≡ record s { ch = s.ch ++ record ev { gap = ev.gap || s.gap } ∷ []; gap = false }
unfolding offer_open try_send
offer_open-room before between ev s room = rw (room, offer_open) refl

offer_open-full :
    (before between : ℕ) (ev : Event) (s : Subscription) (slow : Bool)
    → ltb (length s.ch) s.size ≡ false
    → is_close_slow s.pol ≡ slow
    → offer_open before between ev s ≡ (
        if slow
        then close_locked (some (plain err_subscriber_lagged)) s
        else force before between (record ev { gap = ev.gap || s.gap }) s)
unfolding offer_open try_send
offer_open-full before between ev s slow full e = rw (full, e, offer_open) refl

offer_open-Tracks :
    (evs : List Event) (before between : ℕ) (ev : Event) (s : Subscription)
    → Tracks evs s
    → s.done ≡ false
    → Tracks (evs ++ clear ev ∷ []) (offer_open before between ev s)
unfolding clear
offer_open-Tracks evs before between ev s t on =
    let after = Tracks (evs ++ clear ev ∷ []) in
    let e = some (plain err_subscriber_lagged) in
    elim (Bool-cases (ltb (length s.ch) s.size)) [
      | inl room ↦
          subst after (sym (offer_open-room before between ev s room))
            (sent-Tracks evs ev s t on (ground (arith, room)))
      | inr full ↦ elim (Bool-cases (is_close_slow s.pol)) [
        | inl slow ↦
            subst after
              (sym (offer_open-full before between ev s true full slow ∙ close_locked-on e s on))
              (lagged-Tracks evs ev s _ t on)
        | inr drops ↦
            subst after (sym (offer_open-full before between ev s false full drops))
              (force-Tracks evs before between (record ev { gap = ev.gap || s.gap }) s t on)
      ]
    ]

offer-done :
    (before between : ℕ) (ev : Event) (s : Subscription)
    → s.done ≡ true
    → offer before between ev s ≡ s
unfolding offer
offer-done before between ev s over i = if over i then s else offer_open before between ev s

offer-on :
    (before between : ℕ) (ev : Event) (s : Subscription)
    → s.done ≡ false
    → offer before between ev s ≡ offer_open before between ev s
unfolding offer
offer-on before between ev s on i = if on i then s else offer_open before between ev s

-- The events of an offer and of what follows.
offered_of-offered :
    (before between : ℕ) (ev : Event) (xs : List Step) (s : Subscription) (b : Bool)
    → s.done ≡ b
    → let rest = offered_of xs (offer before between ev s) in
      offered_of (Step.offered ev before between ∷ xs) s ≡ (if b then rest else clear ev ∷ rest)
unfolding offered_of step
offered_of-offered before between ev xs s b e i =
    let rest = offered_of xs (offer before between ev s) in if e i then rest else clear ev ∷ rest

steps-Tracks :
    (xs : List Step) (evs : List Event) (s : Subscription)
    → Tracks evs s
    → Tracks (evs ++ offered_of xs s) (steps xs s)
unfolding steps step offered_of
steps-Tracks [] evs s t = subst (λ q. Tracks q s) (sym (append-nil evs)) t
steps-Tracks (Step.taken n ∷ xs) evs s t =
    steps-Tracks xs evs (receive n s) (receive-Tracks evs n s t)
steps-Tracks (Step.ended e ∷ xs) evs s t =
    steps-Tracks xs evs (finish e s) (finish-Tracks evs e s t)
steps-Tracks (Step.offered ev before between ∷ xs) evs s t =
    let s' = offer before between ev s in
    let rest = offered_of xs s' in
    elim (Bool-cases s.done) [
      | inl over ↦
          subst (λ q. Tracks (evs ++ q) (steps xs s'))
            (sym (offered_of-offered before between ev xs s true over))
            (steps-Tracks xs evs s'
              (subst (Tracks evs) (sym (offer-done before between ev s over)) t))
      | inr on ↦
          let sent : Tracks (evs ++ clear ev ∷ []) s' =
            subst (Tracks (evs ++ clear ev ∷ [])) (sym (offer-on before between ev s on))
              (offer_open-Tracks evs before between ev s t on) in
          subst (λ q. Tracks (evs ++ q) (steps xs s'))
            (sym (offered_of-offered before between ev xs s false on))
            (subst (λ q. Tracks q (steps xs s')) (append_assoc evs (clear ev ∷ []) rest)
              (steps-Tracks xs (evs ++ clear ev ∷ []) s' sent))
    ]

-- Over any sequence of offers, receptions and closings, with a consumer that may receive in the
-- middle of an offer, what a subscription with room for one event at least has delivered and holds
-- is, but for the marks, a subsequence of the events that it was offered before it was done, in
-- their order; the channel never exceeds its capacity; the gap flag is clear; while it is open,
-- what is missing is no more than it counts as dropped; and where nothing in the stream is marked
-- as behind a gap, the stream is the beginning of what was offered, and all of it while the
-- subscription is open.
pub steps-delivers :
    (xs : List Step) (opts : SubscribeOptions) (pol : OverflowPolicy) (size : ℕ)
    → 0 < size
    → Tracks (offered_of xs (open_sub opts pol size)) (steps xs (open_sub opts pol size))
unfolding open_sub
steps-delivers xs opts pol size h = steps-Tracks xs [] (open_sub opts pol size) (record {
  in_order = Sublist.nil;
  within = omega arith;
  has_room = h;
  no_gap = refl;
  counted = λ e. omega arith;
  unmarked = λ e. ([], refl, λ q. refl);
})
