-- ===== src/Memory/Listing/Order.antt =====
-- memory.go: identifiers in ascending order, and those behind one of them.
use dagworker.Base.{
  ◌≡◌, refl, sym, ap, ◌∙◌, Bool, true, false, List, [], ◌∷◌, ◌++◌, filter, if◌then◌else◌, Text,
  text_eq, text_lt, All, arith, Bool-cases, inl, inr,
}
use dagworker.Memory.Snapshot.Sorted.{
  insert_by, sort_by, Distinct, text_lt-asym, insert_by-All, sort_by-All,
}
use dagworker.Memory.Listing.{same_id}

pub text_lt_trans : (x y z : Text) → text_lt x y ≡ true → text_lt y z ≡ true → text_lt x z ≡ true
unfolding text_lt
text_lt_trans x y [] h k = absurd (ground arith)
text_lt_trans [] y (c ∷ zs) h k = refl
text_lt_trans (a ∷ xs) [] (c ∷ zs) h k = absurd (ground arith)
text_lt_trans (a ∷ xs) (b ∷ ys) (c ∷ zs) h k = ground (arith, text_lt_trans xs ys zs)

text_lt_total : (x y : Text) → text_eq x y ≡ false → text_lt y x ≡ false → text_lt x y ≡ true
unfolding text_lt text_eq
text_lt_total [] [] e h = absurd (ground arith)
text_lt_total [] (b ∷ ys) e h = refl
text_lt_total (a ∷ xs) [] e h = absurd (ground arith)
text_lt_total (a ∷ xs) (b ∷ ys) e h = ground (arith, text_lt_total xs ys)

abbrev pub Above : Text → List Text → Type 0
Above x ids = All (λ y. text_lt x y ≡ true) ids

unfoldable pub Ascending : List Text → Type 0
Ascending [] = Unit
Ascending (x ∷ ids) = Above x ids × Ascending ids

pub Above-trans : (x y : Text) (ids : List Text) → text_lt x y ≡ true → Above y ids → Above x ids
Above-trans x y [] lt a = tt
Above-trans x y (z ∷ ids) lt (a, as_well) =
    (text_lt_trans x y z lt a, Above-trans x y ids lt as_well)

insert-Ascending :
    (x : Text) (ids : List Text)
    → All (λ y. text_eq x y ≡ false) ids
    → Ascending ids
    → Ascending (insert_by same_id x ids)
unfolding insert_by Ascending
insert-Ascending x [] d a = (tt, tt)
insert-Ascending x (y ∷ ids) (other, d) (above, a) = elim (Bool-cases (text_lt y x)) [
  | inl less ↦
      rw less (
        insert_by-All same_id (λ z. text_lt y z ≡ true) x ids less above,
        insert-Ascending x ids d a,
      )
  | inr more ↦
      let lt = text_lt_total x y other more in
      rw more ((lt, Above-trans x y ids lt above), (above, a))
]

pub sort-Ascending : (ids : List Text) → Distinct same_id ids → Ascending (sort_by same_id ids)
unfolding sort_by Distinct Ascending
sort-Ascending [] d = tt
sort-Ascending (x ∷ ids) (other, d) =
    insert-Ascending x (sort_by same_id ids)
      (sort_by-All same_id (λ y. text_eq x y ≡ false) ids other) (sort-Ascending ids d)

pub filter-All {κ} :
    (P : Text → Type κ) (p : Text → Bool) (ids : List Text) → All P ids → All P (filter p ids)
filter-All P p [] a = tt
filter-All P p (x ∷ ids) (h, a) = elim (Bool-cases (p x)) [
  | inl let_in ↦ rw let_in (h, filter-All P p ids a)
  | inr left_out ↦ rw left_out (filter-All P p ids a)
]

insert-front : (x : Text) (ids : List Text) → Above x ids → insert_by same_id x ids ≡ x ∷ ids
unfolding insert_by
insert-front x [] a = refl
insert-front x (y ∷ ids) (lt, a) = rw (text_lt-asym x y lt) refl

insert-less :
    (x y : Text) (ids : List Text)
    → text_lt y x ≡ true
    → insert_by same_id x (y ∷ ids) ≡ y ∷ insert_by same_id x ids
unfolding insert_by
insert-less x y ids less = rw less refl

filter-insert :
    (p : Text → Bool) (x : Text) (ids : List Text)
    → All (λ y. text_eq x y ≡ false) ids
    → Ascending ids
    → filter p (insert_by same_id x ids)
      ≡ (if p x then insert_by same_id x (filter p ids) else filter p ids)
unfolding Ascending insert_by
filter-insert p x [] d a = refl
filter-insert p x (y ∷ ids) (other, d) (above, a) =
    let ih = filter-insert p x ids d a in
    let after = filter p (y ∷ ids) in
    elim (Bool-cases (text_lt y x)) [
      | inl less ↦ ap (filter p) (insert-less x y ids less) ∙ (elim (Bool-cases (p y)) [
        | inl kept ↦ elim (Bool-cases (p x)) [
          | inl here ↦
              let ih' : filter p (insert_by same_id x ids) ≡ insert_by same_id x (filter p ids) =
                ih
                ∙ ap (λ (b : Bool). if b then insert_by same_id x (filter p ids) else filter p ids)
                    here in
              rw (kept, here) (ap (λ q. y ∷ q) ih' ∙ sym (insert-less x y (filter p ids) less))
          | inr gone ↦
              let ih' : filter p (insert_by same_id x ids) ≡ filter p ids =
                ih
                ∙ ap (λ (b : Bool). if b then insert_by same_id x (filter p ids) else filter p ids)
                    gone in
              rw (kept, gone) (ap (λ q. y ∷ q) ih')
        ]
        | inr dropped ↦ rw dropped ih
      ])
      | inr more ↦
          let lt = text_lt_total x y other more in
          let front = insert-front x (y ∷ ids) (lt, Above-trans x y ids lt above) in
          ap (filter p) front ∙ (elim (Bool-cases (p x)) [
            | inl here ↦ rw here (
                sym (
                  insert-front x after (
                    filter-All (λ z. text_lt x z ≡ true) p (y ∷ ids)
                      (lt, Above-trans x y ids lt above))))
            | inr gone ↦ rw gone refl
          ])
    ]

pub filter-sort :
    (p : Text → Bool) (ids : List Text)
    → Distinct same_id ids
    → filter p (sort_by same_id ids) ≡ sort_by same_id (filter p ids)
unfolding sort_by Distinct
filter-sort p [] d = refl
filter-sort p (x ∷ ids) (other, d) =
    let ih = filter-sort p ids d in
    let at =
      filter-insert p x (sort_by same_id ids)
        (sort_by-All same_id (λ y. text_eq x y ≡ false) ids other) (sort-Ascending ids d) in
    elim (Bool-cases (p x)) [
      | inl here ↦
          at
          ∙ ap
              (λ (b : Bool).
                if b
                then insert_by same_id x (filter p (sort_by same_id ids))
                else filter p (sort_by same_id ids))
              here
          ∙ rw here (ap (insert_by same_id x) ih)
      | inr gone ↦
          at
          ∙ ap
              (λ (b : Bool).
                if b
                then insert_by same_id x (filter p (sort_by same_id ids))
                else filter p (sort_by same_id ids))
              gone
          ∙ rw gone ih
    ]

-- Behind the later of two cursors.
pub filter-later :
    (c x : Text) (ids : List Text)
    → text_lt c x ≡ true
    → filter (text_lt x) (filter (text_lt c) ids) ≡ filter (text_lt x) ids
filter-later c x [] lt = refl
filter-later c x (y ∷ ids) lt =
    let ih = filter-later c x ids lt in
    elim (Bool-cases (text_lt x y)) [
      | inl later ↦
          let both = text_lt_trans c x y lt later in rw both (rw later (ap (λ q. y ∷ q) ih))
      | inr before ↦ elim (Bool-cases (text_lt c y)) [
        | inl between ↦ rw between (rw before ih)
        | inr low ↦ rw (low, before) ih
      ]
    ]

pub filter-Above : (x : Text) (ids : List Text) → Above x ids → filter (text_lt x) ids ≡ ids
filter-Above x [] a = refl
filter-Above x (y ∷ ids) (lt, a) = rw lt (ap (λ q. y ∷ q) (filter-Above x ids a))

pub text_lt_irrefl : (x : Text) → text_lt x x ≡ false
unfolding text_lt
text_lt_irrefl [] = refl
text_lt_irrefl (b ∷ xs) = ground (arith, text_lt_irrefl xs)

Above-middle : (y x : Text) (pre post : List Text) → Above y (pre ++ x ∷ post) → text_lt y x ≡ true
Above-middle y x [] post (lt, a) = lt
Above-middle y x (z ∷ pre) post (lt, a) = Above-middle y x pre post a

pub Ascending-after :
    (x : Text) (pre post : List Text)
    → Ascending (pre ++ x ∷ post)
    → filter (text_lt x) (pre ++ x ∷ post) ≡ post
unfolding Ascending
Ascending-after x [] post (above, a) = rw (text_lt_irrefl x) (filter-Above x post above)
Ascending-after x (y ∷ pre) post (above, a) =
    let low = text_lt-asym y x (Above-middle y x pre post above) in
    rw low (Ascending-after x pre post a)
