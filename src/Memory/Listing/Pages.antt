-- ===== src/Memory/Listing/Pages.antt =====
-- memory.go: ListNodes against the list of all the nodes behind its cursor.
use dagworker.Base.{
  ◌≡◌, refl, sym, ap, ◌∙◌, subst, ℕ, zero, suc, Bool, true, false, List, [], ◌∷◌, ◌++◌, map, filter,
  if◌then◌else◌, Text, text_eq, text_lt, All, arith, Bool-cases, inl, inr, ◌⊎◌, ℤ, leb_ℤ, pos,
  negsuc, pos_part,
}
use dagworker.Node.{Node}
use dagworker.Memory.State.{Scope}
use dagworker.Memory.Snapshot.Sorted.{sort_by, sort_by-All, Distinct}
use dagworker.Memory.Listing.{
  ListOptions, ListResult, same_id, page_entry, lets_through, ids_after, page, page_limit,
  list_scope,
}
use dagworker.Memory.Listing.Order.{
  text_lt_trans, Above, Ascending, sort-Ascending, filter-sort, filter-later, filter-All,
  filter-Above, text_lt_irrefl,
}

-- The nodes that the filters let through, of a list of identifiers.
abbrev pub let_in : ListOptions → Scope → List Text → List Node
let_in o s ids = map (page_entry s) (filter (lets_through o s) ids)

-- An identifier of the index leads to the record of that name.
abbrev pub IsFiled : Scope → Text → Type 0
IsFiled s id = (page_entry s id).id ≡ id

unfoldable Room : ℕ → Text → Text → Type 0
Room zero c last = text_lt c last ≡ true
Room (suc n) c last = Unit

abbrev Outcome : ListOptions → Scope → Text → Text → List Text → ListResult → Type 0
Outcome o s c last ids r =
    (r.next ≡ [] × r.nodes ≡ let_in o s ids)
    ⊎ (text_lt c r.next ≡ true
        × (text_lt r.next last ≡ false
            × r.nodes ++ let_in o s (filter (text_lt r.next) ids) ≡ let_in o s ids))

let_in-skip :
    (o : ListOptions) (s : Scope) (p : Text → Bool) (x : Text) (ids : List Text)
    → lets_through o s x ≡ false
    → let_in o s (filter p (x ∷ ids)) ≡ let_in o s (filter p ids)
let_in-skip o s p x ids out = elim (Bool-cases (p x)) [
  | inl kept ↦ rw kept (rw out refl)
  | inr gone ↦ rw gone refl
]

Outcome-skip :
    (o : ListOptions) (s : Scope) (c last x : Text) (ids : List Text) (r : ListResult)
    → lets_through o s x ≡ false
    → Outcome o s c last ids r
    → Outcome o s c last (x ∷ ids) r
Outcome-skip o s c last x ids r out (inl (done, all)) = inl (done, all ∙ (rw out refl))
Outcome-skip o s c last x ids r out (inr (above, (low, rest))) = inr (
  above,
  (low, ap (λ q. r.nodes ++ q) (let_in-skip o s (text_lt r.next) x ids out) ∙ rest ∙ (rw out refl)),
)

not_below : (x y z : Text) → text_lt x y ≡ true → text_lt z y ≡ false → text_lt z x ≡ false
not_below x y z lt ge = elim (Bool-cases (text_lt z x)) [
  | inl less ↦ absurd (ground (arith, text_lt_trans z x y less lt))
  | inr more ↦ more
]

Outcome-take :
    (o : ListOptions) (s : Scope) (c last x : Text) (ids : List Text) (r : ListResult)
    → lets_through o s x ≡ true
    → text_lt last x ≡ true
    → Outcome o s c x ids r
    → Outcome o s c last (x ∷ ids) (record { nodes = page_entry s x ∷ r.nodes; next = r.next })
Outcome-take o s c last x ids r ok lt (inl (done, all)) =
    inl (done, ap (λ q. page_entry s x ∷ q) all ∙ (rw ok refl))
Outcome-take o s c last x ids r ok lt (inr (above, (low, rest))) =
    let others : filter (text_lt r.next) (x ∷ ids) ≡ filter (text_lt r.next) ids = rw low refl in
    inr (
      above,
      (
        not_below last x r.next lt low,
        ap (λ q. page_entry s x ∷ (r.nodes ++ let_in o s q)) others
            ∙ ap (λ q. page_entry s x ∷ q) rest
            ∙ (rw ok refl),
      ),
    )

page-skip :
    (o : ListOptions) (s : Scope) (n : ℕ) (last x : Text) (ids : List Text)
    → lets_through o s x ≡ false
    → page o s n last ids ≡ page o s n last (x ∷ ids)
unfolding page
page-skip o s zero last x ids out = rw out refl
page-skip o s (suc n) last x ids out = rw out refl

page-full :
    (o : ListOptions) (s : Scope) (last x : Text) (ids : List Text)
    → lets_through o s x ≡ true
    → record { nodes = []; next = last } ≡ page o s 0 last (x ∷ ids)
unfolding page
page-full o s last x ids ok = rw ok refl

page-take :
    (o : ListOptions) (s : Scope) (n : ℕ) (last x : Text) (ids : List Text)
    → lets_through o s x ≡ true
    → let rest = page o s n (page_entry s x).id ids in
      record { nodes = page_entry s x ∷ rest.nodes; next = rest.next }
      ≡ page o s (suc n) last (x ∷ ids)
unfolding page
page-take o s n last x ids ok = rw ok refl

Room-next : (n : ℕ) (c x : Text) → text_lt c x ≡ true → Room n c x
unfolding Room
Room-next zero c x lt = lt
Room-next (suc n) c x lt = tt

page-Outcome :
    (o : ListOptions) (s : Scope) (c : Text) (n : ℕ) (last : Text) (ids : List Text)
    → Room n c last
    → Above c ids
    → Above last ids
    → Ascending ids
    → All (IsFiled s) ids
    → Outcome o s c last ids (page o s n last ids)
unfolding page Room Ascending
page-Outcome o s c n last [] room ac al a f = inl (refl, refl)
page-Outcome o s c zero last (x ∷ ids) room (cx, ac) (lx, al) (xa, a) (fx, f) =
    elim (Bool-cases (lets_through o s x)) [
      | inl ok ↦ subst (Outcome o s c last (x ∷ ids)) (page-full o s last x ids ok) (
          inr (room, (text_lt_irrefl last, ap (let_in o s) (filter-Above last (x ∷ ids) (lx, al)))))
      | inr out ↦ subst (Outcome o s c last (x ∷ ids)) (page-skip o s 0 last x ids out) (
          Outcome-skip o s c last x ids (page o s 0 last ids) out
            (page-Outcome o s c 0 last ids room ac al a f))
    ]
page-Outcome o s c (suc n) last (x ∷ ids) room (cx, ac) (lx, al) (xa, a) (fx, f) =
    elim (Bool-cases (lets_through o s x)) [
      | inl ok ↦ subst (Outcome o s c last (x ∷ ids)) (page-take o s n last x ids ok) (
          Outcome-take o s c last x ids (page o s n (page_entry s x).id ids) ok lx (
            subst (λ l. Outcome o s c x ids (page o s n l ids)) (sym fx)
              (page-Outcome o s c n x ids (Room-next n c x cx) ac xa a f)))
      | inr out ↦ subst (Outcome o s c last (x ∷ ids)) (page-skip o s (suc n) last x ids out) (
          Outcome-skip o s c last x ids (page o s (suc n) last ids) out
            (page-Outcome o s c (suc n) last ids room ac al a f))
    ]

-- The identifiers of the index.
abbrev pub indexed : Scope → List Text
indexed s = map (λ e. e.0) s.index

filter-Distinct :
    (p : Text → Bool) (ids : List Text) → Distinct same_id ids → Distinct same_id (filter p ids)
unfolding Distinct
filter-Distinct p [] d = tt
filter-Distinct p (x ∷ ids) (other, d) = elim (Bool-cases (p x)) [
  | inl kept ↦ rw kept (filter-All (λ y. text_eq x y ≡ false) p ids other, filter-Distinct p ids d)
  | inr gone ↦ rw gone (filter-Distinct p ids d)
]

filter-holds : (p : Text → Bool) (ids : List Text) → All (λ y. p y ≡ true) (filter p ids)
filter-holds p [] = tt
filter-holds p (x ∷ ids) = elim (Bool-cases (p x)) [
  | inl kept ↦ rw kept (kept, filter-holds p ids)
  | inr gone ↦ rw gone (filter-holds p ids)
]

ids_after-Above : (c : Text) (s : Scope) → Above c (ids_after c s)
unfolding ids_after
ids_after-Above c s =
    sort_by-All same_id (λ y. text_lt c y ≡ true) (filter (text_lt c) (indexed s))
      (filter-holds (text_lt c) (indexed s))

ids_after-Ascending :
    (c : Text) (s : Scope) → Distinct same_id (indexed s) → Ascending (ids_after c s)
unfolding ids_after
ids_after-Ascending c s d =
    sort-Ascending (filter (text_lt c) (indexed s)) (filter-Distinct (text_lt c) (indexed s) d)

-- Behind a later cursor stand those that are behind it in the same order.
ids_after-later :
    (c x : Text) (s : Scope)
    → Distinct same_id (indexed s)
    → text_lt c x ≡ true
    → filter (text_lt x) (ids_after c s) ≡ ids_after x s
unfolding ids_after
ids_after-later c x s d lt =
    filter-sort (text_lt x) (filter (text_lt c) (indexed s))
      (filter-Distinct (text_lt c) (indexed s) d)
    ∙ ap (sort_by same_id) (filter-later c x (indexed s) lt)

not_before_start : (c : Text) → text_lt c [] ≡ false
unfolding text_lt
not_before_start [] = refl
not_before_start (b ∷ c) = refl

Above-start : (c : Text) (ids : List Text) → Above c ids → Above [] ids
unfolding text_lt
Above-start c [] a = tt
Above-start c ([] ∷ ids) (lt, a) = absurd (ground (arith, not_before_start c))
Above-start c ((b ∷ x) ∷ ids) (lt, a) = (refl, Above-start c ids a)

limit-positive : (l : ℤ) → (m : ℕ) × ((if leb_ℤ l (pos 0) then 100 else pos_part l) ≡ suc m)
limit-positive (pos zero) = (99, refl)
limit-positive (pos (suc n)) = (n, ground arith)
limit-positive (negsuc n) = (99, ground arith)

Room-first : (m : ℕ) (c : Text) → Room (suc m) c []
unfolding Room
Room-first m c = tt

list_scope-Outcome :
    (o : ListOptions) (s : Scope)
    → Distinct same_id (indexed s)
    → All (IsFiled s) (indexed s)
    → Outcome o s o.cursor [] (ids_after o.cursor s) (list_scope o s)
unfolding list_scope page_limit ids_after
list_scope-Outcome o s d f =
    let c = o.cursor in
    let ids = ids_after c s in
    let room = limit-positive o.limit in
    let filed =
      sort_by-All same_id (IsFiled s) (filter (text_lt c) (indexed s))
        (filter-All (IsFiled s) (text_lt c) (indexed s) f) in
    subst (λ n. Outcome o s c [] ids (page o s n [] ids)) (sym room.1)
      (page-Outcome o s c (suc room.0) [] ids (Room-first room.0 c) (ids_after-Above c s)
        (Above-start c ids (ids_after-Above c s)) (ids_after-Ascending c s d) filed)

-- On a scope whose index has distinct identifiers that lead to the records of those names, a page
-- of ListNodes either has no cursor and all the nodes behind the given cursor that the filters let
-- through, in ascending order, or a later cursor, and the page in front of the nodes behind that
-- cursor is all of them.
pub list_scope-Continues :
    (o : ListOptions) (s : Scope)
    → Distinct same_id (indexed s)
    → All (IsFiled s) (indexed s)
    → let r = list_scope o s in
      (r.next ≡ [] × r.nodes ≡ let_in o s (ids_after o.cursor s))
      ⊎ (text_lt o.cursor r.next ≡ true
          × r.nodes ++ let_in o s (ids_after r.next s) ≡ let_in o s (ids_after o.cursor s))
list_scope-Continues o s d f =
    let r = list_scope o s in
    elim (list_scope-Outcome o s d f) [
      | inl last ↦ inl last
      | inr (above, (low, rest)) ↦ inr (
        above,
        ap (λ ids. r.nodes ++ let_in o s ids) (sym (ids_after-later o.cursor r.next s d above))
            ∙ rest,
      )
    ]
