-- ===== src/Memory/Partial.antt =====
-- graph.go: RemoveEdges that stops at a missing node.
use dagworker.Base.{
  ℕ, ◌+◌, ◌≡◌, refl, sym, subst, ap, false, true, none, some, List, [], ◌∷◌, lookup, if◌then◌else◌,
  ◌∙◌, length, arith, Option, Option-cases, Bool-cases, inl, inr, ◌==◌, ==_iff,
}
use dagworker.Errors.{Error, Result, err, plain, err_not_found}
use dagworker.Event.{Effect}
use dagworker.Status.{Phase}
use dagworker.Trigger.{ready}
use dagworker.Memory.State.{Env, Scope, PredEdge}
use dagworker.Memory.Edges.{take_edge, unlink_edge, fewer_unsatisfied}
use dagworker.Memory.Graph.{Edge, add_ordered}
use dagworker.Memory.Change.{refused, unlink_edges, remove_edges}

unlink_edges-found :
    (e : Edge) (es : List Edge) (touched : List ℕ) (from to : ℕ) (s : Scope)
    → lookup e.from s.index ≡ some from
    → lookup e.to s.index ≡ some to
    → unlink_edges (e ∷ es) touched s
      ≡ unlink_edges es
          (if (unlink_edge from to s).1 then add_ordered to touched else touched)
          (unlink_edge from to s).0
unfolding unlink_edges
unlink_edges-found e es touched from to s f g = rw (f, g, unlink_edges) refl

unlink_edges-missing :
    (e : Edge) (es : List Edge) (touched : List ℕ) (s : Scope)
    → lookup e.from s.index ≡ none
    → unlink_edges (e ∷ es) touched s ≡ (s, err (plain err_not_found))
unfolding unlink_edges
unlink_edges-missing e es touched s f = rw (f, unlink_edges) refl

abbrev left_over : Option (PredEdge × List PredEdge) → ℕ
left_over none = 0
left_over (some p) = length p.1

-- One edge fewer, where there was one from the handle.
take_edge-length :
    (from : ℕ) (es : List PredEdge) (e : PredEdge) (edges : List PredEdge)
    → take_edge from es ≡ some (e, edges)
    → length edges + 1 ≡ length es
unfolding take_edge
take_edge-length from [] e edges h = absurd (ground arith)
take_edge-length from (x ∷ es) e edges h = elim (Bool-cases (x.from == from)) [
  | inl here ↦
      let taken : take_edge from (x ∷ es) ≡ some (x, es) = rw here refl in
      omega (arith, ap left_over (sym taken ∙ h))
  | inr other ↦ elim (Option-cases (take_edge from es)) [
    | inl gone ↦
        let taken : take_edge from (x ∷ es) ≡ none = rw (other, gone) refl in
        absurd (missed (sym taken ∙ h))
    | inr ((found, rest), more) ↦
        let taken : take_edge from (x ∷ es) ≡ some (found, x ∷ rest) = rw (other, more) refl in
        omega (arith, ap left_over (sym taken ∙ h), take_edge-length from es found rest more)
  ]
]
  where
    missed : {p : PredEdge × List PredEdge} → none ≡ some p → ⊥
    missed q = cc

-- What the removal of an edge that was not yet counted leaves at its target.
record Released (from to : ℕ) (edges : List PredEdge) (s t : Scope) : Type 0 where
  same_index : t.index ≡ s.index
  fewer : t.pred to ≡ edges
  same_phase : (t.recs to).phase ≡ (s.recs to).phase
  same_trigger : (t.recs to).trigger ≡ (s.recs to).trigger
  counted : (t.recs to).deps ≡ fewer_unsatisfied (s.recs to).deps

unlink_edge-Released :
    (from to : ℕ) (e : PredEdge) (edges : List PredEdge) (s : Scope)
    → take_edge from (s.pred to) ≡ some (e, edges)
    → e.satisfied ≡ false
    → Released from to edges s (unlink_edge from to s).0
unfolding unlink_edge
unlink_edge-Released from to e edges s t pending =
    let same : (to == to) ≡ true = (==_iff to to).1 refl in
    rw (t, pending, unlink_edge)
      (record {
        same_index = refl;
        fewer = rw same refl;
        same_phase = rw same refl;
        same_trigger = rw same refl;
        counted = rw same refl;
      })

-- Where RemoveEdges removes an edge whose source has not ended, as the last thing that keeps its
-- target blocked, and then meets an edge whose source is missing, it reports ErrNotFound, and yet
-- the target has one predecessor fewer and stays blocked although its trigger rule holds.
pub remove_edges-leaves_blocked :
    (env : Env) (first missing : Edge) (rest : List Edge) (from to : ℕ) (e : PredEdge)
    (edges : List PredEdge) (s : Scope)
    → lookup first.from s.index ≡ some from
    → lookup first.to s.index ≡ some to
    → take_edge from (s.pred to) ≡ some (e, edges)
    → e.satisfied ≡ false
    → (s.recs to).phase ≡ Phase.blocked
    → ready (s.recs to).trigger (fewer_unsatisfied (s.recs to).deps) ≡ true
    → lookup missing.from s.index ≡ none
    → let (t, out, error) = remove_edges env (first ∷ missing ∷ rest) s in
      (error ≡ some (plain err_not_found))
      × (length (t.pred to) + 1 ≡ length (s.pred to))
      × ((t.recs to).phase ≡ Phase.blocked)
      × (ready (t.recs to).trigger (t.recs to).deps ≡ true)
unfolding remove_edges
remove_edges-leaves_blocked env first missing rest from to e edges s f g there pending blocked holds
      gone =
    let t = (unlink_edge from to s).0 in
    let r = unlink_edge-Released from to e edges s there pending in
    let missed : lookup missing.from t.index ≡ none = rw r.same_index gone in
    let stopped : unlink_edges (first ∷ missing ∷ rest) [] s ≡ (t, err (plain err_not_found)) =
      unlink_edges-found first (missing ∷ rest) [] from to s f g
      ∙ unlink_edges-missing missing rest _ _ missed in
    let answer : remove_edges env (first ∷ missing ∷ rest) s ≡ (t, [], some (plain err_not_found)) =
      rw (ap (λ (p : Scope × Result (List ℕ)). p.1) stopped, remove_edges)
        (ap (λ (p : Scope × Result (List ℕ)). refused p.0 (plain err_not_found)) stopped) in
    let left : length (t.pred to) + 1 ≡ length (s.pred to) =
      rw r.fewer (take_edge-length from (s.pred to) e edges there) in
    let phase : (t.recs to).phase ≡ Phase.blocked = r.same_phase ∙ blocked in
    let rule : ready (t.recs to).trigger (t.recs to).deps ≡ true =
      rw (r.same_trigger, r.counted) holds in
    subst
      (λ (q : Scope × List Effect × Option Error).
        (q.2 ≡ some (plain err_not_found))
        × (length (q.0.pred to) + 1 ≡ length (s.pred to))
        × ((q.0.recs to).phase ≡ Phase.blocked)
        × (ready (q.0.recs to).trigger (q.0.recs to).deps ≡ true))
      (sym answer) (refl, left, phase, rule)
