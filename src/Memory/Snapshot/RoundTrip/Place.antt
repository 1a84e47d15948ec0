-- ===== src/Memory/Snapshot/RoundTrip/Place.antt =====
-- snapshot.go: the loop over the nodes of a snapshot that gives each its slot.
use dagworker.Base.{
  ℕ, suc, ◌+◌, ◌<◌, ◌≡◌, refl, subst, ◌∙◌, false, none, some, List, [], ◌∷◌, Text, text_eq,
  text_eq_iff, text_eq_refl, lookup, lookup-insert, update, All, length, arith, Bool-cases, inl,
  inr,
}
use dagworker.Errors.{ok}
use dagworker.Memory.State.{Scope, NodeRec}
use dagworker.Memory.Snapshot.Taken.{NodeSnapshot, node_id}
use dagworker.Memory.Snapshot.Sorted.{IsListed, Distinct}
use dagworker.Memory.Snapshot.Restore.{record_of, place, place_all}

-- What the slots of a scope hold but for their edges.
pub record Cells : Type 0 where
  pub recs : ℕ → NodeRec
  pub ord : ℕ → ℕ
  pub deadline : ℕ → ℕ
  pub ready_at : ℕ → ℕ
  pub fifo : ℕ → ℕ

abbrev pub cells_of : Scope → Cells
cells_of s = record {
  recs = s.recs;
  ord = s.ord;
  deadline = s.deadline;
  ready_at = s.ready_at;
  fifo = s.fifo;
}

pub record Holds (n : NodeSnapshot) (h : ℕ) (c : Cells) : Type 0 where
  pub recs : c.recs h ≡ record_of n
  pub ord : c.ord h ≡ n.ord
  pub deadline : c.deadline h ≡ n.deadline
  pub ready_at : c.ready_at h ≡ n.ready_at
  pub fifo : c.fifo h ≡ n.fifo

-- The slots from one on hold the nodes in their order.
unfoldable pub Stands : List NodeSnapshot → ℕ → Cells → Type 0
Stands [] h c = Unit
Stands (n ∷ ns) h c = Holds n h c × Stands ns (suc h) c

abbrev pub Found : Text → List (Text × ℕ) → Type 0
Found id index = (h : ℕ) × (lookup id index ≡ some h)

-- The index leads to slots below one, and to nodes of the name that it has them under.
abbrev pub Named : ℕ → Scope → Type 0
Named h s = (id : Text) (k : ℕ) → lookup id s.index ≡ some k → (k < h) × ((s.recs k).id ≡ id)

pub record Placed (ns : List NodeSnapshot) (h : ℕ) (s : Scope) : Type 0 where
  pub scope : Scope
  pub places : place_all ns h s ≡ ok scope
  pub frame : scope ≡ record s {
    index = scope.index;
    slots = scope.slots;
    recs = scope.recs;
    ord = scope.ord;
    deadline = scope.deadline;
    ready_at = scope.ready_at;
    fifo = scope.fifo;
  }
  pub slots : scope.slots ≡ h + length ns
  pub below :
      (n : NodeSnapshot) (k : ℕ) → k < h → Holds n k (cells_of s) → Holds n k (cells_of scope)
  pub stands : Stands ns h (cells_of scope)
  pub named : Named (h + length ns) scope
  pub kept : (id : Text) → Found id s.index → Found id scope.index
  pub listed : (id : Text) → IsListed node_id ns id → Found id scope.index

place-Named : (n : NodeSnapshot) (h : ℕ) (s : Scope) → Named h s → Named (suc h) (place n h s)
unfolding place record_of
place-Named n h s named id k found =
    let at = lookup-insert n.id id h s.index in ground (arith, at, text_eq_iff n.id id, named id k)

place-Found :
    (n : NodeSnapshot) (h : ℕ) (s : Scope) (id : Text)
    → Found id s.index
    → Found id (place n h s).index
unfolding place
place-Found n h s id (k, e) =
    let at = lookup-insert n.id id h s.index in
    elim (Bool-cases (text_eq n.id id)) [
      | inl same ↦ (h, at ∙ rw same refl)
      | inr other ↦ (k, at ∙ rw other e)
    ]

place-listed : (n : NodeSnapshot) (h : ℕ) (s : Scope) → Found n.id (place n h s).index
unfolding place
place-listed n h s = (h, lookup-insert n.id n.id h s.index ∙ rw (text_eq_refl n.id) refl)

pub update-below {ℓ} :
    {A : Type ℓ} (a : ℕ → A) (h : ℕ) (v : A) (k : ℕ) → k < h → update a h v k ≡ a k
update-below a h v k lt = ground arith

pub update-at {ℓ} : {A : Type ℓ} (a : ℕ → A) (h : ℕ) (v : A) → update a h v h ≡ v
update-at a h v = ground arith

place-below :
    (n m : NodeSnapshot) (h : ℕ) (s : Scope) (k : ℕ)
    → k < h
    → Holds m k (cells_of s)
    → Holds m k (cells_of (place n h s))
unfolding place
place-below n m h s k lt q = record {
  recs = update-below s.recs h (record_of n) k lt ∙ q.recs;
  ord = update-below s.ord h n.ord k lt ∙ q.ord;
  deadline = update-below s.deadline h n.deadline k lt ∙ q.deadline;
  ready_at = update-below s.ready_at h n.ready_at k lt ∙ q.ready_at;
  fifo = update-below s.fifo h n.fifo k lt ∙ q.fifo;
}

place-Holds : (n : NodeSnapshot) (h : ℕ) (s : Scope) → Holds n h (cells_of (place n h s))
unfolding place
place-Holds n h s = record {
  recs = update-at s.recs h (record_of n);
  ord = update-at s.ord h n.ord;
  deadline = update-at s.deadline h n.deadline;
  ready_at = update-at s.ready_at h n.ready_at;
  fifo = update-at s.fifo h n.fifo;
}

abbrev Unplaced : List NodeSnapshot → Scope → Type 0
Unplaced ns s = All (λ m. lookup m.id s.index ≡ none) ns

place-Unplaced :
    (n : NodeSnapshot) (ns : List NodeSnapshot) (h : ℕ) (s : Scope)
    → All (λ m. text_eq n.id m.id ≡ false) ns
    → Unplaced ns s
    → Unplaced ns (place n h s)
unfolding place
place-Unplaced n [] h s others u = tt
place-Unplaced n (m ∷ ns) h s (other, others) (u, us) =
    (lookup-insert n.id m.id h s.index ∙ rw other u, place-Unplaced n ns h s others us)

pub place_all-Placed :
    (ns : List NodeSnapshot) (h : ℕ) (s : Scope)
    → s.slots ≡ h
    → Named h s
    → Distinct node_id ns
    → Unplaced ns s
    → Placed ns h s
unfolding place_all place Stands Distinct
place_all-Placed [] h s size named d u = record {
  scope = s;
  places = refl;
  frame = refl;
  slots = omega arith;
  below = λ n k lt q. q;
  stands = tt;
  named = λ id k e. let (lt, same) = named id k e in (omega arith, same);
  kept = λ id f. f;
  listed = λ id e. absurd (ground arith);
}
place_all-Placed (n ∷ ns) h s size named (others, d) (u, us) =
    let s' = place n h s in
    let ih =
      place_all-Placed ns (suc h) s' refl (place-Named n h s named) d
        (place-Unplaced n ns h s others us) in
    record {
      scope = ih.scope;
      places = rw (u, place_all) ih.places;
      frame = ih.frame;
      slots = omega (arith, ih.slots);
      below = λ m k lt q. ih.below m k (omega arith) (place-below n m h s k lt q);
      stands = (ih.below n h (omega arith) (place-Holds n h s), ih.stands);
      named = λ id k e. let (lt, same) = ih.named id k e in (omega arith, same);
      kept = λ id f. ih.kept id (place-Found n h s id f);
      listed = λ id e. elim (Bool-cases (text_eq n.id id)) [
        | inl same ↦
            ih.kept id
              (subst (λ i. Found i s'.index) ((text_eq_iff n.id id).0 same) (place-listed n h s))
        | inr other ↦ ih.listed id (ground arith)
      ];
    }
