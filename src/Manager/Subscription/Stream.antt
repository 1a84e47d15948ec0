-- ===== src/Manager/Subscription/Stream.antt =====
-- subscribe.go: what a consumer receives of the events that are offered.
use mathlib.Core.List.{append_assoc, append-nil, map-append}
use dagworker.Base.{
  ℕ, zero, suc, ◌+◌, ◌≤◌, ◌<◌, ◌≡◌, refl, sym, ap, ◌∙◌, subst, Bool, true, false, ◌||◌, Option,
  List, [], ◌∷◌, ◌++◌, map, any, if◌then◌else◌, length, take, drop, arith, length-append,
}
use dagworker.Errors.{Error}
use dagworker.Event.{Event}
use dagworker.Manager.Subscription.{Subscription, receive, finish, offer}

-- What can happen to a subscription.
pub data Step : Type 0 where
  offered : Event → ℕ → ℕ → Step
  taken : ℕ → Step
  ended : Option Error → Step

unfoldable pub step : Step → Subscription → Subscription
step (Step.offered ev before between) s = offer before between ev s
step (Step.taken n) s = receive n s
step (Step.ended e) s = finish e s

unfoldable pub steps : List Step → Subscription → Subscription
unfolding step
steps [] s = s
steps (x ∷ xs) s = steps xs (step x s)

-- The events that are offered before the subscription is done, without their marks.
unfoldable pub clear : Event → Event
clear ev = record ev { gap = false }

unfoldable pub offered_of : List Step → Subscription → List Event
unfolding step clear
offered_of [] s = []
offered_of (Step.offered ev before between ∷ xs) s =
    let rest = offered_of xs (step (Step.offered ev before between) s) in
    if s.done then rest else clear ev ∷ rest
offered_of (Step.taken n ∷ xs) s = offered_of xs (step (Step.taken n) s)
offered_of (Step.ended e ∷ xs) s = offered_of xs (step (Step.ended e) s)

-- What the consumer has received and will find in the channel.
abbrev pub stream : Subscription → List Event
stream s = s.received ++ s.ch

pub data Sublist : List Event → List Event → Type 0 where
  nil : Sublist [] []
  keep : {x : Event} {xs ys : List Event} → Sublist xs ys → Sublist (x ∷ xs) (x ∷ ys)
  skip : {x : Event} {xs ys : List Event} → Sublist xs ys → Sublist xs (x ∷ ys)

abbrev pub marked : List Event → Bool
marked evs = any (λ (e : Event). e.gap) evs

-- A subscription against the events that it was offered.
pub record Tracks (evs : List Event) (s : Subscription) : Type 0 where
  pub in_order : Sublist (map clear (stream s)) evs
  pub within : length s.ch ≤ s.size
  pub has_room : 0 < s.size
  pub no_gap : s.gap ≡ false
  pub counted : s.done ≡ false → length evs ≤ length (stream s) + s.dropped
  pub unmarked :
      marked (stream s) ≡ false
      → (rest : List Event) × (evs ≡ map clear (stream s) ++ rest) × (s.done ≡ false → rest ≡ [])

Sublist-snoc :
    {xs ys : List Event} (x : Event) → Sublist xs ys → Sublist (xs ++ x ∷ []) (ys ++ x ∷ [])
Sublist-snoc x Sublist.nil = Sublist.keep Sublist.nil
Sublist-snoc x (Sublist.keep h) = Sublist.keep (Sublist-snoc x h)
Sublist-snoc x (Sublist.skip h) = Sublist.skip (Sublist-snoc x h)

Sublist-more : {xs ys : List Event} (x : Event) → Sublist xs ys → Sublist xs (ys ++ x ∷ [])
Sublist-more x Sublist.nil = Sublist.skip Sublist.nil
Sublist-more x (Sublist.keep h) = Sublist.keep (Sublist-more x h)
Sublist-more x (Sublist.skip h) = Sublist.skip (Sublist-more x h)

pub Sublist-refl : (xs : List Event) → Sublist xs xs
Sublist-refl [] = Sublist.nil
Sublist-refl (x ∷ xs) = Sublist.keep (Sublist-refl xs)

Sublist-trans : {xs ys zs : List Event} → Sublist xs ys → Sublist ys zs → Sublist xs zs
Sublist-trans h Sublist.nil = h
Sublist-trans h (Sublist.skip k) = Sublist.skip (Sublist-trans h k)
Sublist-trans (Sublist.keep h) (Sublist.keep k) = Sublist.keep (Sublist-trans h k)
Sublist-trans (Sublist.skip h) (Sublist.keep k) = Sublist.skip (Sublist-trans h k)

pub Sublist-without :
    (xs ys : List Event) → Sublist (map clear (xs ++ drop 1 ys)) (map clear (xs ++ ys))
Sublist-without [] [] = Sublist.nil
Sublist-without [] (y ∷ ys) = Sublist.skip (Sublist-refl (map clear ys))
Sublist-without (x ∷ xs) ys = Sublist.keep (Sublist-without xs ys)

marked-append : (xs ys : List Event) → marked (xs ++ ys) ≡ (marked xs || marked ys)
marked-append [] ys = refl
marked-append (x ∷ xs) ys = ground (arith, marked-append xs ys)

take-drop : (n : ℕ) (xs : List Event) → take n xs ++ drop n xs ≡ xs
take-drop zero xs = refl
take-drop (suc n) [] = refl
take-drop (suc n) (x ∷ xs) = ap (λ q. x ∷ q) (take-drop n xs)

pub received-drop :
    (n : ℕ) (received ch : List Event) → (received ++ take n ch) ++ drop n ch ≡ received ++ ch
received-drop n received ch =
    append_assoc received (take n ch) (drop n ch) ∙ ap (λ q. received ++ q) (take-drop n ch)

-- The stream grows by an event at its end.
stream-snoc :
    (e : Event) (received ch : List Event)
    → map clear (received ++ (ch ++ e ∷ [])) ≡ map clear (received ++ ch) ++ clear e ∷ []
stream-snoc e received ch =
    ap (map clear) (sym (append_assoc received ch (e ∷ [])))
    ∙ map-append clear (received ++ ch) (e ∷ [])

stream-length :
    (e : Event) (received ch : List Event)
    → length (received ++ (ch ++ e ∷ [])) ≡ suc (length (received ++ ch))
stream-length e received ch =
    ap length (sym (append_assoc received ch (e ∷ [])))
    ∙ omega (arith, length-append (received ++ ch) (e ∷ []))

-- An open subscription without a mark in its stream has lost nothing.
pub Tracks-exact :
    (evs : List Event) (s : Subscription)
    → Tracks evs s
    → s.done ≡ false
    → marked (stream s) ≡ false
    → evs ≡ map clear (stream s)
Tracks-exact evs s t on clean =
    let (rest, e, ends) = t.unmarked clean in
    e ∙ ap (λ q. map clear (stream s) ++ q) (ends on) ∙ append-nil (map clear (stream s))

-- An event that finds room.
pub sent-Tracks :
    (evs : List Event) (ev : Event) (s : Subscription)
    → Tracks evs s
    → s.done ≡ false
    → length s.ch < s.size
    → Tracks
        (evs ++ clear ev ∷ [])
        (record s { ch = s.ch ++ record ev { gap = ev.gap || s.gap } ∷ []; gap = false })
unfolding clear
sent-Tracks evs ev s t on room =
    let m : Event = record ev { gap = ev.gap || s.gap } in
    let grown = stream-snoc m s.received s.ch in
    record {
      in_order =
          subst (λ q. Sublist q (evs ++ clear ev ∷ [])) (sym grown)
            (Sublist-snoc (clear ev) t.in_order);
      within = omega (arith, length-append s.ch (m ∷ []));
      has_room = t.has_room;
      no_gap = refl;
      counted = λ h.
          omega (
            arith,
            length-append evs (clear ev ∷ []),
            stream-length m s.received s.ch,
            t.counted on,
          );
      unmarked = λ h.
          let whole : marked ((s.received ++ s.ch) ++ m ∷ []) ≡ false =
            ap marked (append_assoc s.received s.ch (m ∷ [])) ∙ h in
          let clean : marked (stream s) ≡ false =
            ground (arith, marked-append (stream s) (m ∷ [])) in
          (
            [],
            ap (λ q. q ++ clear ev ∷ []) (Tracks-exact evs s t on clean)
                ∙ sym grown
                ∙ sym (append-nil (map clear (s.received ++ (s.ch ++ m ∷ [])))),
            λ o. refl,
          );
    }

-- An event that takes the room of the oldest one.
pub forced-Tracks :
    (evs : List Event) (ev : Event) (s : Subscription) (received ch : List Event)
    → Tracks evs s
    → s.done ≡ false
    → Sublist (map clear (received ++ ch)) (map clear (stream s))
    → length (stream s) ≤ suc (length (received ++ ch))
    → length ch < s.size
    → Tracks (evs ++ clear ev ∷ []) (record s {
      ch = ch ++ record ev { gap = true } ∷ [];
      received = received;
      dropped = suc s.dropped;
      gap = false;
    })
unfolding clear
forced-Tracks evs ev s received ch t on less short room =
    let m : Event = record ev { gap = true } in
    let grown = stream-snoc m received ch in
    record {
      in_order =
          subst (λ q. Sublist q (evs ++ clear ev ∷ [])) (sym grown)
            (Sublist-snoc (clear ev) (Sublist-trans less t.in_order));
      within = omega (arith, length-append ch (m ∷ []));
      has_room = t.has_room;
      no_gap = refl;
      counted = λ h.
          omega
            (arith, length-append evs (clear ev ∷ []), stream-length m received ch, t.counted on);
      unmarked = λ h.
          let whole : marked ((received ++ ch) ++ m ∷ []) ≡ false =
            ap marked (append_assoc received ch (m ∷ [])) ∙ h in
          absurd (ground (arith, marked-append (received ++ ch) (m ∷ [])));
    }

-- A subscription that is closed because the event finds no room.
pub lagged-Tracks :
    (evs : List Event) (ev : Event) (s : Subscription) (e : Option Error)
    → Tracks evs s
    → s.done ≡ false
    → Tracks (evs ++ clear ev ∷ []) (record s { done = true; error = e })
lagged-Tracks evs ev s e t on = record {
  in_order = Sublist-more (clear ev) t.in_order;
  within = t.within;
  has_room = t.has_room;
  no_gap = t.no_gap;
  counted = λ h. absurd (ground arith);
  unmarked = λ clean. (
    clear ev ∷ [],
    ap (λ q. q ++ clear ev ∷ []) (Tracks-exact evs s t on clean),
    λ h. absurd (ground arith),
  );
}
