-- ===== src/Memory/Listing/Tests.antt =====
-- A run of ListNodes (memory.go) on a scope of the samples.
use dagworker.Base.{All, lookup, ◌≡◌, refl, [], ◌∷◌, ◌++◌, ◌⊎◌, pos, true, text_lt, text_eq}
use dagworker.Status.{Status}
use dagworker.Memory.State.{new_scope}
use dagworker.Memory.Samples.{running, alpha}
use dagworker.Memory.Snapshot.Sorted.{Distinct}
use dagworker.Memory.Listing.{
  ListOptions, list_scope, ids_after, same_id, lets_through, contains_status, status_eq, node_of,
  page_entry,
}
use dagworker.Memory.Lease.{snapshot}
use dagworker.Memory.Listing.Pages.{let_in, indexed, IsFiled, list_scope-Continues}

-- One node a page, of those that are running or new.
abbrev one_each : ListOptions
one_each = record {
  statuses = Status.in_progress ∷ Status.new ∷ [];
  kinds = [];
  cursor = [];
  limit = pos 1;
}

running-Distinct : Distinct same_id (indexed running)
unfolding Distinct new_scope text_eq
running-Distinct = ((refl, tt), (tt, tt))

running-IsFiled : All (IsFiled running) (indexed running)
unfolding page_entry lookup text_eq snapshot
running-IsFiled = (refl, (refl, tt))

list_scope-Continues_example :
    let r = list_scope one_each running in
    (r.next ≡ [] × r.nodes ≡ let_in one_each running (ids_after [] running))
    ⊎ (text_lt [] r.next ≡ true
        × r.nodes ++ let_in one_each running (ids_after r.next running)
          ≡ let_in one_each running (ids_after [] running))
list_scope-Continues_example =
    list_scope-Continues one_each running running-Distinct running-IsFiled

first_page : (list_scope one_each running).next ≡ alpha
unfolding list_scope text_lt lets_through contains_status status_eq node_of lookup text_eq
    page_entry snapshot
first_page = refl
