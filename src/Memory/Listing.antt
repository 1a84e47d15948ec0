-- ===== src/Memory/Listing.antt =====
-- storage/memory/memory.go: ListNodes, one page of a scope's nodes.
pub mod Order
pub mod Pages
pub mod Tests
use dagworker.Base.{
  ℕ, zero, suc, ◌-◌, Bool, true, false, not, ◌&&◌, ◌||◌, Option, none, some, List, [], ◌∷◌, map,
  filter, if◌then◌else◌, is_empty, Text, text_lt, lookup, ℤ, leb_ℤ, pos, pos_part, ◌==◌,
}
use dagworker.Errors.{Result, ok, err}
use dagworker.Status.{Status}
use dagworker.Node.{Node}
use dagworker.Event.{contains_string}
use dagworker.Memory.State.{Scope, NodeRec, blank}
use dagworker.Memory.Lease.{snapshot}
use dagworker.Memory.Store.{Store, scope_for}
use dagworker.Memory.Snapshot.Sorted.{sort_by}

pub record ListOptions : Type 0 where
  pub statuses : List Status
  pub kinds : List Text
  pub cursor : Text
  pub limit : ℤ

pub record ListResult : Type 0 where
  pub nodes : List Node
  pub next : Text

unfoldable pub status_eq : Status → Status → Bool
status_eq Status.new Status.new = true
status_eq Status.in_progress Status.in_progress = true
status_eq Status.success Status.success = true
status_eq Status.error Status.error = true
status_eq (Status.unknown m) (Status.unknown n) = m == n
status_eq _ _ = false

unfoldable pub contains_status : List Status → Status → Bool
contains_status [] x = false
contains_status (v ∷ vs) x = if status_eq v x then true else contains_status vs x

-- The node of an identifier that is in the index.
unfoldable pub node_of : Scope → Text → NodeRec
node_of s id = elim (lookup id s.index) [ none ↦ blank | some h ↦ s.recs h ]

unfoldable pub page_entry : Scope → Text → Node
page_entry s id = elim (lookup id s.index) [ none ↦ snapshot 0 s | some h ↦ snapshot h s ]

-- Whether the filters let a node through.
unfoldable pub lets_through : ListOptions → Scope → Text → Bool
lets_through o s id =
    let r = node_of s id in
    (is_empty o.statuses || contains_status o.statuses r.status)
    && (is_empty o.kinds || contains_string o.kinds r.kind)

abbrev pub same_id : Text → Text
same_id id = id

-- The identifiers behind a cursor, in their order.
unfoldable pub ids_after : Text → Scope → List Text
unfolding sort_by
ids_after cursor s = sort_by same_id (filter (text_lt cursor) (map (λ e. e.0) s.index))

-- The loop over the identifiers, with the room that is left and the last node that was taken.
unfoldable pub page : ListOptions → Scope → ℕ → Text → List Text → ListResult
page o s n last [] = record { nodes = []; next = [] }
page o s zero last (id ∷ ids) =
    let rest = page o s zero last ids in
    if not (lets_through o s id) then rest else record { nodes = []; next = last }
page o s (suc n) last (id ∷ ids) =
    let passed = page o s (suc n) last ids in
    let rest = page o s n (page_entry s id).id ids in
    if not (lets_through o s id)
    then passed
    else record { nodes = page_entry s id ∷ rest.nodes; next = rest.next }

unfoldable pub page_limit : ListOptions → ℕ
page_limit o = if leb_ℤ o.limit (pos 0) then 100 else pos_part o.limit

unfoldable pub list_scope : ListOptions → Scope → ListResult
unfolding page page_limit ids_after
list_scope o s = page o s (page_limit o) [] (ids_after o.cursor s)

-- The call, on the scope of that name.
unfoldable pub list_nodes : Text → ListOptions → Store → Result ListResult
unfolding scope_for list_scope
list_nodes name o st = elim (scope_for name false st) [
  | err e ↦ err e
  | ok (st', found) ↦ elim found [
    | none ↦ ok (record { nodes = []; next = [] })
    | some s ↦ ok (list_scope o s)
  ]
]
