-- ===== src/Manager/Registry/Adding.antt =====
-- subscribe.go: the registry after a subscription was added.
use dagworker.Base.{
  ℕ, suc, ◌≤◌, ◌≡◌, refl, sym, ap, ◌∙◌, Bool, true, false, not, ◌&&◌, [], ◌∷◌, ◌++◌, ◌==◌, ==_iff,
  if◌then◌else◌, is_empty, Text, text_eq, text_eq_iff, insert, update, arith, Bool-cases, inl, inr,
}
use dagworker.Event.{OverflowPolicy, SubscribeOptions}
use dagworker.Manager.Subscription.{Subscription, open_sub}
use dagworker.Manager.Registry.{Registry, has, bucket_of, add_sub, register}
use dagworker.Manager.Registry.Filing.{
  count, one_if, Filed, count-append, count-if, has-append, bucket_of-insert,
}

-- The scope that a cell asks for, after one was put in place.
scope_at :
    (s : Subscription) (r : Registry) (n id : ℕ) (b : Bool)
    → (n == id) ≡ b
    → (update r.cells n s id).opts.scope ≡ (if b then s.opts.scope else (r.cells id).opts.scope)
scope_at s r n id true e = rw e refl
scope_at s r n id false e = rw e refl

module _ (s : Subscription) (r : Registry) (f : Filed r) where
  new_has : has r.subs (suc r.next_sub) ≡ false
  new_has = elim (Bool-cases (has r.subs (suc r.next_sub))) [
    | inl there ↦ absurd (omega (arith, f.numbered (suc r.next_sub) there))
    | inr absent ↦ absent
  ]

  new_once :
      (id : ℕ)
      → count id (r.subs ++ suc r.next_sub ∷ []) ≡ one_if (has (r.subs ++ suc r.next_sub ∷ []) id)
  unfolding count
  new_once id =
      let n = suc r.next_sub in
      let c = count-append id r.subs (n ∷ []) in
      let h = has-append r.subs (n ∷ []) id in
      elim (Bool-cases (n == id)) [
        | inl same ↦
            let absent : has r.subs id ≡ false =
              ap (has r.subs) (sym ((==_iff n id).0 same)) ∙ new_has in
            ground (arith, same, c, h, absent, f.once id)
        | inr other ↦ ground (arith, other, c, h, f.once id)
      ]

  new_numbered : (id : ℕ) → has (r.subs ++ suc r.next_sub ∷ []) id ≡ true → id ≤ suc r.next_sub
  new_numbered id e =
      ground (
        arith,
        has-append r.subs (suc r.next_sub ∷ []) id,
        f.numbered id,
        ==_iff (suc r.next_sub) id,
      )

  -- The sets of a scope and of any scope, with the new subscription in one of them or in neither.
  new_anywhere :
      (id : ℕ) (b : Bool)
      → is_empty s.opts.scope ≡ b
      → count id (if b then r.any_scope ++ suc r.next_sub ∷ [] else r.any_scope)
        ≡ one_if (
            has (r.subs ++ suc r.next_sub ∷ []) id
            && is_empty (update r.cells (suc r.next_sub) s id).opts.scope)
  unfolding count
  new_anywhere id b e =
      let n = suc r.next_sub in
      let c = count-append id r.any_scope (n ∷ []) in
      let h = has-append r.subs (n ∷ []) id in
      elim (Bool-cases (n == id)) [
        | inl same ↦
            let absent : has r.subs id ≡ false =
              ap (has r.subs) (sym ((==_iff n id).0 same)) ∙ new_has in
            let at = ap (is_empty {A = ℕ}) (scope_at s r n id true same) in
            ground (arith, same, c, h, absent, at, e, f.anywhere id)
        | inr other ↦
            let at = ap (is_empty {A = ℕ}) (scope_at s r n id false other) in
            ground (arith, other, c, h, at, e, f.anywhere id)
      ]

  new_buckets :
      (id : ℕ) (scope : Text) (b : Bool)
      → is_empty s.opts.scope ≡ b
      → let k = s.opts.scope in
        let m =
          if b
          then r.by_scope
          else insert k (bucket_of k r.by_scope ++ suc r.next_sub ∷ []) r.by_scope in
        let at = (update r.cells (suc r.next_sub) s id).opts.scope in
        count id (bucket_of scope m)
        ≡ one_if
            (has (r.subs ++ suc r.next_sub ∷ []) id && not (is_empty scope) && text_eq at scope)
  unfolding count
  new_buckets id scope b e =
      let n = suc r.next_sub in
      let k = s.opts.scope in
      let old = bucket_of k r.by_scope in
      let c = count-append id old (n ∷ []) in
      let h = has-append r.subs (n ∷ []) id in
      let i = bucket_of-insert k (old ++ n ∷ []) r.by_scope scope in
      let there : count id (bucket_of scope (insert k (old ++ n ∷ []) r.by_scope)) ≡ (
          if text_eq k scope
          then count id (old ++ n ∷ [])
          else count id (bucket_of scope r.by_scope)) =
        ap (count id) i
        ∙ count-if id (text_eq k scope) (old ++ n ∷ []) (bucket_of scope r.by_scope) in
      let alike : text_eq k scope ≡ true → count id old ≡ count id (bucket_of scope r.by_scope) =
        λ q. ap (λ t. count id (bucket_of t r.by_scope)) ((text_eq_iff k scope).0 q) in
      let bare : text_eq k scope ≡ true → is_empty scope ≡ b =
        λ q. ap (is_empty {A = ℕ}) (sym ((text_eq_iff k scope).0 q)) ∙ e in
      elim (Bool-cases (n == id)) [
        | inl same ↦
            let absent : has r.subs id ≡ false =
              ap (has r.subs) (sym ((==_iff n id).0 same)) ∙ new_has in
            let at = ap (λ t. text_eq t scope) (scope_at s r n id true same) in
            ground (arith, same, c, h, absent, at, there, alike, bare, f.buckets id scope)
        | inr other ↦
            let at = ap (λ t. text_eq t scope) (scope_at s r n id false other) in
            ground (arith, other, c, h, at, there, alike, bare, f.buckets id scope)
      ]

pub register-Filed :
    (opts : SubscribeOptions) (pol : OverflowPolicy) (size : ℕ) (r : Registry)
    → Filed r
    → Filed (register opts pol size r).0
unfolding register add_sub
register-Filed opts pol size r f =
    let s = open_sub opts pol size in
    elim (Bool-cases (is_empty s.opts.scope)) [
      | inl e ↦ rw e (record {
        once = new_once s r f;
        anywhere = λ id. new_anywhere s r f id true e;
        buckets = λ id scope. new_buckets s r f id scope true e;
        numbered = new_numbered s r f;
      })
      | inr e ↦ rw e (record {
        once = new_once s r f;
        anywhere = λ id. new_anywhere s r f id false e;
        buckets = λ id scope. new_buckets s r f id scope false e;
        numbered = new_numbered s r f;
      })
    ]
