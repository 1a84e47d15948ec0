-- ===== src/Memory/Snapshot/RoundTrip/Connect.antt =====
-- snapshot.go: the loop over the nodes of a snapshot that gives each its edges.
use dagworker.Base.{
  ℕ, suc, ◌<◌, ◌≡◌, refl, ap, ◌∙◌, some, List, [], ◌∷◌, map, Text, lookup, update, All, arith,
}
use dagworker.Errors.{ok}
use dagworker.Memory.State.{Scope, NodeRec, PredEdge}
use dagworker.Memory.Snapshot.Taken.{NodeSnapshot, PredSnapshot}
use dagworker.Memory.Snapshot.Restore.{handles_of, preds_of, connect_all}
use dagworker.Memory.Snapshot.RoundTrip.Place.{Found, update-below, update-at}

-- The index leads to nodes of the name that it has them under.
abbrev pub Truthful : Scope → Type 0
Truthful s = (id : Text) (k : ℕ) → lookup id s.index ≡ some k → (s.recs k).id ≡ id

abbrev name_at : (ℕ → NodeRec) → ℕ → Text
name_at recs w = (recs w).id

abbrev pred_at : (ℕ → NodeRec) → PredEdge → PredSnapshot
pred_at recs e = record { from = (recs e.from).id; satisfied = e.satisfied }

-- The edges of the nodes at the slots from one on, by name.
pub record Joins (n : NodeSnapshot) (h : ℕ) (recs : ℕ → NodeRec) (succ : ℕ → List ℕ)
    (pred : ℕ → List PredEdge) : Type 0 where
  pub succ_named : map (name_at recs) (succ h) ≡ n.succ
  pub pred_named : map (pred_at recs) (pred h) ≡ n.pred

unfoldable pub Joined :
    List NodeSnapshot → ℕ → (ℕ → NodeRec) → (ℕ → List ℕ) → (ℕ → List PredEdge) → Type 0
Joined [] h recs succ pred = Unit
Joined (n ∷ ns) h recs succ pred = Joins n h recs succ pred × Joined ns (suc h) recs succ pred

-- The ends of a node's edges are in the index.
pub record Known (index : List (Text × ℕ)) (n : NodeSnapshot) : Type 0 where
  pub succ : All (λ id. Found id index) n.succ
  pub pred : All (λ p. Found p.from index) n.pred

handles_of-known :
    (ids : List Text) (s : Scope)
    → Truthful s
    → All (λ id. Found id s.index) ids
    → (ws : List ℕ) × (handles_of ids s ≡ ok ws) × (map (name_at s.recs) ws ≡ ids)
unfolding handles_of
handles_of-known [] s true_names f = ([], refl, refl)
handles_of-known (id ∷ ids) s true_names ((h, e), f) =
    let (ws, rest, names) = handles_of-known ids s true_names f in
    (h ∷ ws, rw (e, rest, handles_of) refl, λ i. true_names id h e i ∷ names i)

preds_of-known :
    (ps : List PredSnapshot) (s : Scope)
    → Truthful s
    → All (λ p. Found p.from s.index) ps
    → (es : List PredEdge) × (preds_of ps s ≡ ok es) × (map (pred_at s.recs) es ≡ ps)
unfolding preds_of
preds_of-known [] s true_names f = ([], refl, refl)
preds_of-known (p ∷ ps) s true_names ((h, e), f) =
    let (es, rest, names) = preds_of-known ps s true_names f in
    (
      record { from = h; satisfied = p.satisfied } ∷ es,
      rw (e, rest, preds_of) refl,
      λ i. record { from = true_names p.from h e i; satisfied = p.satisfied } ∷ names i,
    )

pub record Connected (ns : List NodeSnapshot) (h : ℕ) (s : Scope) : Type 0 where
  pub scope : Scope
  pub connects : connect_all ns h s ≡ ok scope
  pub frame : scope ≡ record s { succ = scope.succ; pred = scope.pred }
  pub below :
      (n : NodeSnapshot) (k : ℕ)
      → k < h
      → Joins n k s.recs s.succ s.pred
      → Joins n k s.recs scope.succ scope.pred
  pub joined : Joined ns h s.recs scope.succ scope.pred

pub connect_all-Connected :
    (ns : List NodeSnapshot) (h : ℕ) (s : Scope)
    → Truthful s
    → All (Known s.index) ns
    → Connected ns h s
unfolding connect_all Joined
connect_all-Connected [] h s true_names known = record {
  scope = s;
  connects = refl;
  frame = refl;
  below = λ n k lt q. q;
  joined = tt;
}
connect_all-Connected (n ∷ ns) h s true_names (here, known) =
    let (ws, found, names) = handles_of-known n.succ s true_names here.succ in
    let (es, found', names') = preds_of-known n.pred s true_names here.pred in
    let s' : Scope = record s { succ = update s.succ h ws; pred = update s.pred h es } in
    let ih = connect_all-Connected ns (suc h) s' true_names known in
    let mine : Joins n h s.recs s'.succ s'.pred = record {
      succ_named = ap (map (name_at s.recs)) (update-at s.succ h ws) ∙ names;
      pred_named = ap (map (pred_at s.recs)) (update-at s.pred h es) ∙ names';
    } in
    record {
      scope = ih.scope;
      connects = rw (found, found', connect_all) ih.connects;
      frame = ih.frame;
      below = λ m k lt q. ih.below m k (omega arith) (record {
        succ_named = ap (map (name_at s.recs)) (update-below s.succ h ws k lt) ∙ q.succ_named;
        pred_named = ap (map (pred_at s.recs)) (update-below s.pred h es k lt) ∙ q.pred_named;
      });
      joined = (ih.below n h (omega arith) mine, ih.joined);
    }
