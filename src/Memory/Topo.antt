-- ===== src/Memory/Topo.antt =====
-- storage/memory/topo.go: the incremental topological order of Pearce and Kelly. The depth-first
-- searches take the number of slots as fuel: every call marks one more handle as seen.
use dagworker.Base.{
  ℕ, zero, suc, ◌+◌, Bool, true, false, not, ◌&&◌, Option, none, some, List, [], ◌∷◌, ◌++◌, ltb,
  leb, ◌==◌, if◌then◌else◌, any, map, update, length,
}
use dagworker.Memory.State.{Scope, PredEdge}

abbrev pub seen_in : ℕ → List ℕ → Bool
seen_in h seen = any (λ k. k == h) seen

-- The parent pointers, latest first.
abbrev Parents : Type 0
Parents = List (ℕ × ℕ)

parent_of : ℕ → Parents → Option ℕ
parent_of n [] = none
parent_of n ((c, p) ∷ parents) = if c == n then some p else parent_of n parents

-- From the end back to the start, in forward order.
trace_back : ℕ → Parents → ℕ → ℕ → List ℕ → List ℕ
trace_back zero parents start n path = n ∷ path
trace_back (suc fuel) parents start n path =
    let step : List ℕ = elim (parent_of n parents) [
      | none ↦ n ∷ path
      | some p ↦ trace_back fuel parents start p (n ∷ path)
    ] in
    if n == start then n ∷ path else step

unfoldable pub trace_path : Parents → ℕ → ℕ → List ℕ
unfolding trace_back parent_of
trace_path parents start end = trace_back (length parents) parents start end []

-- What a forward search has found: the region in the order of the visits (which is also the set of
-- the handles seen, latest first), the parents, and the handle that closes a cycle.
pub record Search : Type 0 where
  pub seen : List ℕ
  pub parents : Parents
  pub closing : Option ℕ

-- The loop over the successors of a node, with the walk from a successor as a function.
forward_loop : (ℕ → Search → Search) → Scope → ℕ → ℕ → List ℕ → Search → Search
forward_loop walk s ub n [] f = f
forward_loop walk s ub n (w ∷ ws) f = elim f.closing [
  | some c ↦ f
  | none ↦
      let down = record f { parents = (w, n) ∷ f.parents } in
      let later =
        forward_loop walk s ub n ws
          (if not (seen_in w f.seen) && ltb (s.ord w) ub then walk w down else f) in
      if s.ord w == ub then record down { closing = some w } else later
]

forward_walk : ℕ → Scope → ℕ → ℕ → Search → Search
forward_walk zero s ub n f = f
forward_walk (suc fuel) s ub n f =
    forward_loop (forward_walk fuel s ub) s ub n (s.succ n) (record f { seen = n ∷ f.seen })

unfoldable pub forward_search : ℕ → ℕ → Scope → Search
unfolding forward_walk forward_loop
forward_search y ub s =
    forward_walk s.slots s ub y (record { seen = []; parents = []; closing = none })

backward_loop : (ℕ → List ℕ → List ℕ) → Scope → ℕ → List PredEdge → List ℕ → List ℕ
backward_loop walk s lb [] seen = seen
backward_loop walk s lb (e ∷ es) seen =
    backward_loop walk s lb es
      (if not (seen_in e.from seen) && ltb lb (s.ord e.from) then walk e.from seen else seen)

backward_walk : ℕ → Scope → ℕ → ℕ → List ℕ → List ℕ
backward_walk zero s lb n seen = seen
backward_walk (suc fuel) s lb n seen =
    backward_loop (backward_walk fuel s lb) s lb (s.pred n) (n ∷ seen)

unfoldable pub backward_search : ℕ → ℕ → Scope → List ℕ
unfolding backward_walk backward_loop
backward_search x lb s = backward_walk s.slots s lb x []

-- sort.Slice by a key, as an insertion sort.
insert_by : (ℕ → ℕ) → ℕ → List ℕ → List ℕ
insert_by key x [] = x ∷ []
insert_by key x (y ∷ ys) = if leb (key x) (key y) then x ∷ y ∷ ys else y ∷ insert_by key x ys

unfoldable pub sort_by : (ℕ → ℕ) → List ℕ → List ℕ
unfolding insert_by
sort_by key [] = []
sort_by key (x ∷ xs) = insert_by key x (sort_by key xs)

-- The handles take the ranks in turn.
unfoldable pub assign : List ℕ → List ℕ → (ℕ → ℕ) → ℕ → ℕ
assign (h ∷ hs) (v ∷ vs) ord = assign hs vs (update ord h v)
assign _ _ ord = ord

unfoldable pub reorder : List ℕ → List ℕ → Scope → Scope
unfolding sort_by assign
reorder delta_b delta_f s =
    let nodes = sort_by s.ord delta_b ++ sort_by s.ord delta_f in
    let pool = sort_by (λ v. v) (map s.ord nodes) in record s { ord = assign nodes pool s.ord }

pub record TopoResult : Type 0 where
  pub fast_path : Bool
  pub visited : ℕ
  pub cycle_path : Option (List ℕ)

unfoldable pub add_edge_order : ℕ → ℕ → Scope → Scope × TopoResult
unfolding forward_search backward_search reorder trace_path
add_edge_order x y s =
    let f = forward_search y (s.ord x) s in
    let delta_b = backward_search x (s.ord y) s in
    let slow : Scope × TopoResult = elim f.closing [
      | some c ↦ (
        s,
        record {
          fast_path = false;
          visited = length f.seen;
          cycle_path = some (trace_path f.parents y c);
        },
      )
      | none ↦ (
        reorder delta_b f.seen s,
        record { fast_path = false; visited = length f.seen + length delta_b; cycle_path = none },
      )
    ] in
    if ltb (s.ord x) (s.ord y)
    then (s, record { fast_path = true; visited = 0; cycle_path = none })
    else slow
