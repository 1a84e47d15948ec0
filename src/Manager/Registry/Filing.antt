-- ===== src/Manager/Registry/Filing.antt =====
-- subscribe.go: where the registry keeps each subscription.
use dagworker.Base.{
  ℕ, suc, ◌+◌, ◌≤◌, ◌≡◌, refl, sym, ap, subst, ◌∙◌, Bool, true, false, not, ◌&&◌, ◌||◌, Option,
  none, some, List, [], ◌∷◌, ◌++◌, ◌==◌, ==_iff, if◌then◌else◌, is_empty, Text, text_eq,
  text_eq_iff, lookup, insert, erase, lookup-insert, lookup-erase, arith, Bool-cases, Option-cases,
  inl, inr,
}
use dagworker.Manager.Registry.{Registry, or_empty, has, without, bucket_of, drop_from, drop_sub}

-- How often a number is in a list.
unfoldable pub count : ℕ → List ℕ → ℕ
count id [] = 0
count id (j ∷ ids) = let n = count id ids in if j == id then suc n else n

abbrev pub one_if : Bool → ℕ
one_if b = if b then 1 else 0

-- Each subscription is once in the bucket of its scope, or once among those of any scope.
pub record Filed (r : Registry) : Type 0 where
  pub once : (id : ℕ) → count id r.subs ≡ one_if (has r.subs id)
  pub anywhere :
      (id : ℕ) → count id r.any_scope ≡ one_if (has r.subs id && is_empty (r.cells id).opts.scope)
  pub buckets :
      (id : ℕ) (scope : Text)
      → count id (bucket_of scope r.by_scope)
        ≡ one_if (has r.subs id && not (is_empty scope) && text_eq (r.cells id).opts.scope scope)
  pub numbered : (id : ℕ) → has r.subs id ≡ true → id ≤ r.next_sub

pub count-append : (id : ℕ) (xs ys : List ℕ) → count id (xs ++ ys) ≡ count id xs + count id ys
unfolding count
count-append id [] ys = omega arith
count-append id (x ∷ xs) ys = ground (arith, count-append id xs ys)

pub count-if :
    (id : ℕ) (b : Bool) (xs ys : List ℕ)
    → count id (if b then xs else ys) ≡ (if b then count id xs else count id ys)
count-if id true xs ys = refl
count-if id false xs ys = refl

pub has-append : (xs ys : List ℕ) (id : ℕ) → has (xs ++ ys) id ≡ (has xs id || has ys id)
has-append [] ys id = refl
has-append (x ∷ xs) ys id = ground (arith, has-append xs ys id)

count-without :
    (id j : ℕ) (xs : List ℕ) → count id (without j xs) ≡ (if j == id then 0 else count id xs)
unfolding count
count-without id j [] = ground arith
count-without id j (x ∷ xs) =
    ground (arith, count-without id j xs, ==_iff x j, ==_iff x id, ==_iff j id)

has-without : (j : ℕ) (xs : List ℕ) (id : ℕ) → has (without j xs) id ≡ (not (j == id) && has xs id)
has-without j [] id = ground arith
has-without j (x ∷ xs) id =
    ground (arith, has-without j xs id, ==_iff x j, ==_iff x id, ==_iff j id)

or_empty-if :
    (b : Bool) (o p : Option (List ℕ))
    → or_empty (if b then o else p) ≡ (if b then or_empty o else or_empty p)
or_empty-if true o p = refl
or_empty-if false o p = refl

pub bucket_of-insert :
    (k : Text) (v : List ℕ) (m : List (Text × List ℕ)) (scope : Text)
    → bucket_of scope (insert k v m) ≡ (if text_eq k scope then v else bucket_of scope m)
unfolding bucket_of
bucket_of-insert k v m scope =
    ap or_empty (lookup-insert k scope v m)
    ∙ or_empty-if (text_eq k scope) (some v) (lookup scope m)

bucket_of-erase :
    (k : Text) (m : List (Text × List ℕ)) (scope : Text)
    → bucket_of scope (erase k m) ≡ (if text_eq k scope then [] else bucket_of scope m)
unfolding bucket_of
bucket_of-erase k m scope =
    ap or_empty (lookup-erase k scope m) ∙ or_empty-if (text_eq k scope) none (lookup scope m)

is_empty-nil : {A : Type 0} (xs : List A) → is_empty xs ≡ true → xs ≡ []
is_empty-nil [] e = refl
is_empty-nil (x ∷ xs) e = absurd (ground arith)

-- What a bucket holds after a subscription was taken out of one.
bucket_of-drop_from :
    (k : Text) (j : ℕ) (m : List (Text × List ℕ)) (scope : Text)
    → bucket_of scope (drop_from k j m)
      ≡ (if text_eq k scope then without j (bucket_of k m) else bucket_of scope m)
unfolding drop_from bucket_of
bucket_of-drop_from k j m scope = elim (Option-cases (lookup k m)) [
  | inl absent ↦
      let bare : bucket_of k m ≡ [] = ap or_empty absent in
      rw (absent, drop_from)
        (elim (Bool-cases (text_eq k scope)) [
          | inl same ↦ rw same (ap (λ q. bucket_of q m) (sym ((text_eq_iff k scope).0 same)) ∙ bare)
          | inr other ↦ rw other refl
        ])
  | inr (ids, e) ↦
      rw (e, drop_from)
        (elim (Bool-cases (is_empty (without j ids))) [
          | inl bare ↦ rw bare (
              bucket_of-erase k m scope
              ∙ ap (λ q. if text_eq k scope then q else bucket_of scope m)
                  (sym (is_empty-nil (without j ids) bare)))
          | inr some_left ↦ rw some_left (bucket_of-insert k (without j ids) m scope)
        ])
]

-- What a bucket counts after a subscription was taken out of one.
drop_from-count :
    (k : Text) (j : ℕ) (m : List (Text × List ℕ)) (id : ℕ) (scope : Text)
    → count id (bucket_of scope (drop_from k j m))
      ≡ (if text_eq k scope && j == id then 0 else count id (bucket_of scope m))
drop_from-count k j m id scope =
    let at = bucket_of-drop_from k j m scope in
    elim (Bool-cases (text_eq k scope)) [
      | inl same ↦
          let here : count id (bucket_of k m) ≡ count id (bucket_of scope m) =
            ap (λ q. count id (bucket_of q m)) ((text_eq_iff k scope).0 same) in
          ap (count id) (
            at ∙ ap (λ (b : Bool). if b then without j (bucket_of k m) else bucket_of scope m) same)
          ∙ ground (arith, same, here, count-without id j (bucket_of k m))
      | inr other ↦
          ap (count id) (
            at
            ∙ ap (λ (b : Bool). if b then without j (bucket_of k m) else bucket_of scope m) other)
          ∙ ground (arith, other)
    ]

drop-Filed :
    (j : ℕ) (r : Registry)
    → Filed r
    → Filed (record r {
      subs = without j r.subs;
      any_scope = without j r.any_scope;
      by_scope = drop_from (r.cells j).opts.scope j r.by_scope;
    })
drop-Filed j r f = record {
  once = λ id. ground (arith, count-without id j r.subs, has-without j r.subs id, f.once id);
  anywhere =
      λ id. ground (arith, count-without id j r.any_scope, has-without j r.subs id, f.anywhere id);
  buckets = λ id scope.
      let k = (r.cells j).opts.scope in
      let at = drop_from-count k j r.by_scope id scope in
      let left = has-without j r.subs id in
      elim (Bool-cases (j == id)) [
        | inl same ↦
            let mine : text_eq k scope ≡ text_eq (r.cells id).opts.scope scope =
              ap (λ q. text_eq (r.cells q).opts.scope scope) ((==_iff j id).0 same) in
            ground (arith, at, left, mine, f.buckets id scope)
        | inr other ↦ ground (arith, at, left, f.buckets id scope)
      ];
  numbered = λ id h. f.numbered id (ground (arith, has-without j r.subs id));
}

drop_sub-has :
    (j : ℕ) (r : Registry) (b : Bool)
    → has r.subs j ≡ b
    → drop_sub j r ≡ (
        if b
        then record r {
          subs = without j r.subs;
          any_scope = without j r.any_scope;
          by_scope = drop_from (r.cells j).opts.scope j r.by_scope;
        }
        else r)
unfolding drop_sub
drop_sub-has j r b e i =
    if e i
    then record r {
      subs = without j r.subs;
      any_scope = without j r.any_scope;
      by_scope = drop_from (r.cells j).opts.scope j r.by_scope;
    }
    else r

pub drop_sub-Filed : (id : ℕ) (r : Registry) → Filed r → Filed (drop_sub id r)
drop_sub-Filed j r f = elim (Bool-cases (has r.subs j)) [
  | inl there ↦ subst Filed (sym (drop_sub-has j r true there)) (drop-Filed j r f)
  | inr absent ↦ subst Filed (sym (drop_sub-has j r false absent)) f
]
