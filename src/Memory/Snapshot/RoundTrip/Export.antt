-- ===== src/Memory/Snapshot/RoundTrip/Export.antt =====
-- snapshot.go: the snapshot of a scope whose index and edges agree.
use dagworker.Base.{
  ℕ, zero, suc, ◌+◌, ◌<◌, ◌≤◌, ◌≡◌, ◌==◌, ==_iff, refl, sym, ap, ◌∙◌, Bool, true, false, ◌||◌, some,
  List, [], ◌∷◌, map, text_eq, text_eq_iff, lookup, All, arith, Bool-cases, inl, inr,
}
use dagworker.Memory.State.{Scope, PredEdge}
use dagworker.Memory.Snapshot.Taken.{
  NodeSnapshot, node_snapshot, named_pred, live_nodes, node_id, snapshot_scope,
}
use dagworker.Memory.Snapshot.Sorted.{
  sort_by, Ordered, Distinct, IsListed, sort_by-Ordered, sort_by-All, sort_by-Distinct,
  sort_by-IsListed,
}

-- The ends of a node's edges are nodes of the snapshot.
pub record Closed (ns : List NodeSnapshot) (n : NodeSnapshot) : Type 0 where
  pub succ : All (IsListed node_id ns) n.succ
  pub pred : All (λ p. IsListed node_id ns p.from) n.pred

pub record IsExport (ns : List NodeSnapshot) : Type 0 where
  pub ordered : Ordered node_id ns
  pub distinct : Distinct node_id ns
  pub closed : All (Closed ns) ns

abbrev Lives : Scope → ℕ → Type 0
Lives s h = (h < s.slots) × ((s.recs h).alive ≡ true)

-- The index leads to every live node, and edges join live nodes.
pub record Indexed (s : Scope) : Type 0 where
  pub found : (h : ℕ) → Lives s h → lookup (s.recs h).id s.index ≡ some h
  pub succ : (h : ℕ) → Lives s h → All (Lives s) (s.succ h)
  pub pred : (h : ℕ) → Lives s h → All (λ e. Lives s e.from) (s.pred h)

or-true : (b : Bool) {c : Bool} → c ≡ true → (b || c) ≡ true
or-true b e = ground (arith, e)

-- Two live slots have two identifiers.
apart :
    (s : Scope) (h w : ℕ)
    → Indexed s
    → Lives s h
    → Lives s w
    → h < w
    → text_eq (s.recs h).id (s.recs w).id ≡ false
apart s h w index here there lt = elim (Bool-cases (text_eq (s.recs h).id (s.recs w).id)) [
  | inl same ↦
      let e = (text_eq_iff (s.recs h).id (s.recs w).id).0 same in
      let clash : some h ≡ some w =
        sym (index.found h here) ∙ ap (λ id. lookup id s.index) e ∙ index.found w there in
      absurd (ground (arith, clash))
  | inr other ↦ other
]

-- A live slot among as many from one on is in the list of them.
live_nodes-IsListed :
    (n h : ℕ) (s : Scope) (w : ℕ)
    → h ≤ w
    → w < h + n
    → (s.recs w).alive ≡ true
    → IsListed node_id (live_nodes n h s) (s.recs w).id
unfolding live_nodes node_snapshot
live_nodes-IsListed zero h s w low high a = absurd (omega arith)
live_nodes-IsListed (suc n) h s w low high a =
    let id = (s.recs w).id in
    elim (Bool-cases (h == w)) [
      | inl same ↦
          let e : h ≡ w = (==_iff h w).0 same in
          let alive : (s.recs h).alive ≡ true = ap (λ k. (s.recs k).alive) e ∙ a in
          let named : text_eq (s.recs h).id id ≡ true =
            (text_eq_iff (s.recs h).id id).1 (ap (λ k. (s.recs k).id) e) in
          rw alive (rw named refl)
      | inr other ↦
          let rest =
            live_nodes-IsListed n (suc h) s w (ground (arith, ==_iff h w)) (omega arith) a in
          elim (Bool-cases (s.recs h).alive) [
            | inl alive ↦ rw alive (or-true (text_eq (s.recs h).id id) rest)
            | inr dead ↦ rw dead rest
          ]
    ]

live_nodes-All :
    (P : NodeSnapshot → Type 0) (n h : ℕ) (s : Scope)
    → ((w : ℕ) → h ≤ w → w < h + n → (s.recs w).alive ≡ true → P (node_snapshot w s))
    → All P (live_nodes n h s)
unfolding live_nodes
live_nodes-All P zero h s each = tt
live_nodes-All P (suc n) h s each =
    let rest =
      live_nodes-All P n (suc h) s (λ w low high a. each w (omega arith) (omega arith) a) in
    elim (Bool-cases (s.recs h).alive) [
      | inl a ↦ rw a (each h (omega arith) (omega arith) a, rest)
      | inr dead ↦ rw dead rest
    ]

live_nodes-Distinct :
    (n h : ℕ) (s : Scope) → Indexed s → h + n ≤ s.slots → Distinct node_id (live_nodes n h s)
unfolding live_nodes Distinct node_snapshot
live_nodes-Distinct zero h s index size = tt
live_nodes-Distinct (suc n) h s index size =
    let ih = live_nodes-Distinct n (suc h) s index (omega arith) in
    elim (Bool-cases (s.recs h).alive) [
      | inl a ↦
          let others : All (λ (m : NodeSnapshot). text_eq (s.recs h).id m.id ≡ false)
              (live_nodes n (suc h) s) =
            live_nodes-All (λ m. text_eq (s.recs h).id m.id ≡ false) n (suc h) s
              (λ w low high b. apart s h w index (omega arith, a) (omega arith, b) (omega arith)) in
          rw a (others, ih)
      | inr dead ↦ rw dead ih
    ]

node_snapshot-Closed :
    (s : Scope) (h : ℕ)
    → Indexed s
    → Lives s h
    → Closed (sort_by node_id (live_nodes s.slots 0 s)) (node_snapshot h s)
unfolding node_snapshot named_pred
node_snapshot-Closed s h index lives = record {
  succ = succs (s.succ h) (index.succ h lives);
  pred = preds (s.pred h) (index.pred h lives);
}
  where
    listed :
        (w : ℕ)
        → Lives s w
        → IsListed node_id (sort_by node_id (live_nodes s.slots 0 s)) (s.recs w).id
    listed w (lt, a) =
        sort_by-IsListed node_id (live_nodes s.slots 0 s) (s.recs w).id
          (live_nodes-IsListed s.slots 0 s w (omega arith) (omega arith) a)

    succs :
        (ws : List ℕ)
        → All (Lives s) ws
        → All
            (IsListed node_id (sort_by node_id (live_nodes s.slots 0 s)))
            (map (λ w. (s.recs w).id) ws)
    succs [] l = tt
    succs (w ∷ ws) (l, ls) = (listed w l, succs ws ls)

    preds :
        (es : List PredEdge)
        → All (λ e. Lives s e.from) es
        → All
            (λ p. IsListed node_id (sort_by node_id (live_nodes s.slots 0 s)) p.from)
            (map (named_pred s) es)
    preds [] l = tt
    preds (e ∷ es) (l, ls) = (listed e.from l, preds es ls)

pub snapshot_scope-IsExport : (s : Scope) → Indexed s → IsExport (snapshot_scope s).nodes
unfolding snapshot_scope
snapshot_scope-IsExport s index =
    let ns = live_nodes s.slots 0 s in
    record {
      ordered = sort_by-Ordered node_id ns;
      distinct = sort_by-Distinct node_id ns (live_nodes-Distinct s.slots 0 s index (omega arith));
      closed = sort_by-All node_id (Closed (sort_by node_id ns)) ns (
          live_nodes-All (Closed (sort_by node_id ns)) s.slots 0 s
            (λ w low high a. node_snapshot-Closed s w index (omega arith, a)));
    }
