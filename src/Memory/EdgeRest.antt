-- ===== src/Memory/EdgeRest.antt =====
-- graph.go: AddEdges and RemoveEdges, as to where they leave the nodes whose tallies move.
use dagworker.Base.{
  ℕ, ◌≡◌, ◌≢◌, sym, subst, ◌⊎◌, inl, inr, true, false, Option, none, some, List, [], ◌∷◌, ◌++◌,
  arith, ◌==◌, ==_iff, Bool-cases, Option-cases, lookup,
}
use dagworker.Errors.{Error, Result, ok, err, ok-injective, Result-cases}
use dagworker.Memory.State.{Env, Scope}
use dagworker.Memory.Log.{Progress}
use dagworker.Memory.Edges.{has_edge, link_edge, unlink_edge}
use dagworker.Memory.Topo.{add_edge_order, seen_in}
use dagworker.Memory.Graph.{Edge, Journal, add_ordered, connect, empty_journal}
use dagworker.Memory.Settle.{settle, settle_all}
use dagworker.Memory.Change.{link_edges, add_edges, unlink_edges, remove_edges}
use dagworker.Memory.Terminate.{HasSlots, Engine-HasSlots}
use dagworker.Memory.Settled.{IsSettled, AllSettled, SameRule, SameRule-IsSettled}
use dagworker.Memory.Rest.{settle-Engine, settle-IsSettled}

abbrev pub In : ℕ → List ℕ → Type 0
In h [] = ⊥
In h (k ∷ ks) = (k ≡ h) ⊎ In h ks

-- Every node is settled or in the list.
abbrev pub SettledBy : List ℕ → Scope → Type 0
SettledBy hs s = (h : ℕ) → In h hs ⊎ IsSettled (s.recs h)

-- Settling the nodes of the list in turn.
pub settle_all-AllSettled :
    (env : Env) (hs : List ℕ) (p : Progress)
    → HasSlots p.0
    → SettledBy hs p.0
    → AllSettled (settle_all env hs p).0
unfolding settle_all
settle_all-AllSettled env [] p slots all = λ h. elim (all h) [ inl q ↦ absurd q | inr r ↦ r ]
settle_all-AllSettled env (k ∷ hs) (s, out) slots all =
    settle_all-AllSettled env hs (settle env k (s, out))
      (Engine-HasSlots (settle-Engine env k (s, out)) slots)
      (settle-IsSettled (λ h. In h hs) env k s out slots
        (λ h ne. elim (all h) [
          | inl q ↦ elim q [ inl e ↦ absurd (ne e) | inr i ↦ inl i ]
          | inr r ↦ inr r
        ]))

In-append : (h : ℕ) (xs ys : List ℕ) → In h xs ⊎ In h ys → In h (xs ++ ys)
In-append h [] ys (inl q) = absurd q
In-append h [] ys (inr q) = q
In-append h (x ∷ xs) ys (inl (inl e)) = inl e
In-append h (x ∷ xs) ys (inl (inr q)) = inr (In-append h xs ys (inl q))
In-append h (x ∷ xs) ys (inr q) = inr (In-append h xs ys (inr q))

seen-In : (h : ℕ) (xs : List ℕ) → seen_in h xs ≡ true → In h xs
seen-In h [] e = absurd (ground arith)
seen-In h (x ∷ xs) e = ground (arith, seen-In h xs)

pub add_ordered-In : (h k : ℕ) (xs : List ℕ) → (k ≡ h) ⊎ In h xs → In h (add_ordered k xs)
unfolding add_ordered
add_ordered-In h k xs q = elim (Bool-cases (seen_in k xs)) [
  | inl e ↦ rw e (elim q [ inl same ↦ subst (λ x. In x xs) same (seen-In k xs e) | inr i ↦ i ])
  | inr e ↦ rw e (elim q [
    | inl same ↦ In-append h xs (k ∷ []) (inr (inl same))
    | inr i ↦ In-append h xs (k ∷ []) (inl i)
  ])
]

add_edge_order-nodes : (x y : ℕ) (s : Scope) (h : ℕ) → (add_edge_order x y s).0.recs h ≡ s.recs h
unfolding add_edge_order
add_edge_order-nodes x y s h = ground arith

add_edge_order-slots : (x y : ℕ) (s : Scope) → (add_edge_order x y s).0.slots ≡ s.slots
unfolding add_edge_order
add_edge_order-slots x y s = ground arith

-- What a change of the edges into one node leaves as it is.
record Rewired (to : ℕ) (s t : Scope) : Type 0 where
  same_slots : t.slots ≡ s.slots
  same_alive : (h : ℕ) → (t.recs h).alive ≡ (s.recs h).alive
  others : (h : ℕ) → to ≢ h → SameRule (s.recs h) (t.recs h)

connect-Rewired :
    (from to : ℕ) (s : Scope) (j : Journal) → Rewired to s (connect from to (s, j)).0.0
unfolding connect link_edge
connect-Rewired from to s j = record {
  same_slots = ground (arith, add_edge_order-slots from to s);
  same_alive =
      λ h. ground (arith, add_edge_order-nodes from to s h, add_edge_order-nodes from to s to);
  others = λ h ne. ground (arith, add_edge_order-nodes from to s h);
}

unlink_edge-Rewired : (from to : ℕ) (s : Scope) → Rewired to s (unlink_edge from to s).0
unfolding unlink_edge
unlink_edge-Rewired from to s = record {
  same_slots = ground arith;
  same_alive = λ h. ground arith;
  others = λ h ne. ground arith;
}

unlink_edge-kept :
    (from to : ℕ) (s : Scope) → (unlink_edge from to s).1 ≡ false → (unlink_edge from to s).0 ≡ s
unfolding unlink_edge
unlink_edge-kept from to s kept = ground arith

some≢none {ℓ} : {A : Type ℓ} {a : A} → ◌≡◌ {A = Option A} (some a) none → ⊥
some≢none e = cc

Rewired-HasSlots : {to : ℕ} {s t : Scope} → Rewired to s t → HasSlots s → HasSlots t
Rewired-HasSlots e v = record {
  in_slots = λ h a. ground (arith, e.same_slots, e.same_alive h, v.in_slots h);
}

Rewired-SettledBy :
    (to : ℕ) (s t : Scope) (touched : List ℕ)
    → Rewired to s t
    → SettledBy touched s
    → SettledBy (add_ordered to touched) t
Rewired-SettledBy to s t touched e all h = elim (Bool-cases (to == h)) [
  | inl same ↦ inl (add_ordered-In h to touched (inl ((==_iff to h).0 same)))
  | inr ne ↦ elim (all h) [
    | inl q ↦ inl (add_ordered-In h to touched (inr q))
    | inr r ↦ inr (SameRule-IsSettled (e.others h (λ eq. ground (arith, (==_iff to h).1 eq))) r)
  ]
]

-- A loop that ends well leaves only the nodes that it has touched to settle.
abbrev Linked : Scope → Result (List ℕ) → Type 0
Linked s r = (touched : List ℕ) → r ≡ ok touched → HasSlots s × SettledBy touched s

stopped : (s : Scope) (e : Error) → Linked s (err e)
stopped s e touched same = cc

link_edges-Linked :
    (edges : List Edge) (touched : List ℕ) (s : Scope) (j : Journal)
    → HasSlots s
    → SettledBy touched s
    → let (b, r) = link_edges edges touched (s, j) in Linked b.0 r
unfolding link_edges
link_edges-Linked [] touched s j slots all =
    λ t e. (slots, subst (λ x. SettledBy x s) (ok-injective e) all)
link_edges-Linked (e ∷ edges) touched s j slots all = elim (Option-cases (lookup e.from s.index)) [
  | inl a ↦ rw (a, link_edges) (stopped s _)
  | inr (from, a) ↦ elim (Option-cases (lookup e.to s.index)) [
    | inl b ↦ rw (a, b, link_edges) (stopped s _)
    | inr (to, b) ↦ elim (Bool-cases (from == to)) [
      | inl self ↦ rw (a, b, self, link_edges) (stopped s _)
      | inr apart ↦ elim (Bool-cases (has_edge from to s)) [
        | inl old ↦
            rw (a, b, apart, old, link_edges) (link_edges-Linked edges touched s j slots all)
        | inr fresh ↦
            let c = connect from to (s, j) in
            let frame = connect-Rewired from to s j in
            let later =
              link_edges-Linked edges (add_ordered to touched) c.0.0 c.0.1
                (Rewired-HasSlots frame slots) (Rewired-SettledBy to s c.0.0 touched frame all) in
            elim (Result-cases c.1) [
              | inl (u, done) ↦ rw (a, b, apart, fresh, done, link_edges) later
              | inr (error, done) ↦ rw (a, b, apart, fresh, done, link_edges) (stopped c.0.0 error)
            ]
      ]
    ]
  ]
]

-- AddEdges that succeeds, on a scope whose live nodes lie within the arrays and in which every
-- live node that is blocked or ready is ready exactly when its trigger rule holds of its tally,
-- and has a rule that can still hold, ends in a scope of which the latter is true again, for the
-- blocked and the ready among the targets of the new edges and among the nodes that they bring
-- down with them too. Nothing is said of a target that is scheduled or claimed.
pub add_edges-AllSettled :
    (env : Env) (edges : List Edge) (s : Scope)
    → HasSlots s
    → AllSettled s
    → (add_edges env edges s).2 ≡ none
    → AllSettled (add_edges env edges s).0
unfolding add_edges
add_edges-AllSettled env edges s slots all done =
    let q = link_edges edges [] (s, empty_journal) in
    let linked = link_edges-Linked edges [] s empty_journal slots (λ h. inr (all h)) in
    elim (Result-cases q.1) [
      | inl (touched, e) ↦
          let (slots', settled) = linked touched e in
          rw (e, add_edges) (settle_all-AllSettled env touched (q.0.0, []) slots' settled)
      | inr (error, e) ↦ absurd (some≢none (rw (e, add_edges) at done))
    ]

unlink_edges-Linked :
    (edges : List Edge) (touched : List ℕ) (s : Scope)
    → HasSlots s
    → SettledBy touched s
    → Linked (unlink_edges edges touched s).0 (unlink_edges edges touched s).1
unfolding unlink_edges
unlink_edges-Linked [] touched s slots all =
    λ t e. (slots, subst (λ x. SettledBy x s) (ok-injective e) all)
unlink_edges-Linked (e ∷ edges) touched s slots all = elim (Option-cases (lookup e.from s.index)) [
  | inl a ↦ rw (a, unlink_edges) (stopped s _)
  | inr (from, a) ↦ elim (Option-cases (lookup e.to s.index)) [
    | inl b ↦ rw (a, b, unlink_edges) (stopped s _)
    | inr (to, b) ↦
        let c = unlink_edge from to s in
        let slots' = Rewired-HasSlots (unlink_edge-Rewired from to s) slots in
        elim (Bool-cases c.1) [
          | inl gone ↦
              rw (a, b, gone, unlink_edges)
                (unlink_edges-Linked edges (add_ordered to touched) c.0 slots'
                  (Rewired-SettledBy to s c.0 touched (unlink_edge-Rewired from to s) all))
          | inr kept ↦
              rw (a, b, kept, unlink_edges)
                (unlink_edges-Linked edges touched c.0 slots'
                  (subst (SettledBy touched) (sym (unlink_edge-kept from to s kept)) all))
        ]
  ]
]

-- RemoveEdges that succeeds, on a scope whose live nodes lie within the arrays and in which every
-- live node that is blocked or ready stands where its trigger rule puts it, ends in a scope in
-- which every such node does again.
pub remove_edges-AllSettled :
    (env : Env) (edges : List Edge) (s : Scope)
    → HasSlots s
    → AllSettled s
    → (remove_edges env edges s).2 ≡ none
    → AllSettled (remove_edges env edges s).0
unfolding remove_edges
remove_edges-AllSettled env edges s slots all done =
    let q = unlink_edges edges [] s in
    let unlinked = unlink_edges-Linked edges [] s slots (λ h. inr (all h)) in
    elim (Result-cases q.1) [
      | inl (touched, e) ↦
          let (slots', settled) = unlinked touched e in
          rw (e, remove_edges) (settle_all-AllSettled env touched (q.0, []) slots' settled)
      | inr (error, e) ↦ absurd (some≢none (rw (e, remove_edges) at done))
    ]
