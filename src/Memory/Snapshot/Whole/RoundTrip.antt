-- ===== src/Memory/Snapshot/Whole/RoundTrip.antt =====
-- snapshot.go: a store that is restored from a snapshot, and taken again.
use mathlib.Core.List.{append_assoc, append-nil}
use dagworker.Base.{
  ℕ, ◌≡◌, refl, sym, ap, ◌∙◌, false, List, [], ◌∷◌, ◌++◌, map, is_empty, Text, text_eq, insert, All,
  All-append,
}
use dagworker.Errors.{ok}
use dagworker.Config.{ScopeConfig}
use dagworker.Memory.State.{Scope}
use dagworker.Memory.Store.{Store}
use dagworker.Memory.Snapshot.Sorted.{
  sort_by, Ordered, Distinct, sort_by-Ordered, sort_by-Distinct, sort_by-All, sort_by-fixed,
}
use dagworker.Memory.Snapshot.Taken.{ScopeSnapshot, snapshot_scope}
use dagworker.Memory.Snapshot.Restore.{restore_scope}
use dagworker.Memory.Snapshot.RoundTrip.{restore_scope-snapshot_scope}
use dagworker.Memory.Snapshot.RoundTrip.Export.{Indexed}
use dagworker.Memory.Snapshot.Whole.{scope_name, snapshot, restore_loop, restore}

-- A scope of a store under its name.
pub record Kept (e : Text × Scope) : Type 0 where
  pub index : Indexed e.1
  pub named : e.1.name ≡ e.0
  pub nonempty : is_empty e.0 ≡ false

pub record Sound (st : Store) : Type 0 where
  pub scopes : All Kept st.scopes
  pub distinct : Distinct scope_name st.scopes

-- As many scopes under the same names, with the same snapshots.
unfoldable Alike : List (Text × Scope) → List (Text × Scope) → Type 0
Alike [] [] = Unit
Alike (e ∷ es) (f ∷ fs) = (e.0 ≡ f.0) × ((snapshot_scope e.1 ≡ snapshot_scope f.1) × Alike es fs)
Alike _ _ = ⊥

insert-fresh :
    (k : Text) (s : Scope) (done : List (Text × Scope))
    → All (λ e. text_eq (scope_name e) k ≡ false) done
    → insert k s done ≡ done ++ (k, s) ∷ []
unfolding insert
insert-fresh k s [] fresh = refl
insert-fresh k s ((j, w) ∷ done) (other, fresh) =
    rw other (ap (λ q. (j, w) ∷ q) (insert-fresh k s done fresh))

restore_loop-step :
    (ss : ScopeSnapshot) (sss : List ScopeSnapshot) (st : Store) (s : Scope)
    → restore_scope st.log_cap ss ≡ ok s
    → is_empty ss.name ≡ false
    → restore_loop (ss ∷ sss) st
      ≡ restore_loop sss (record st { scopes = insert ss.name s st.scopes })
unfolding restore_loop
restore_loop-step ss sss st s e filled = rw (e, filled, restore_loop) refl

snapshot_scope-name : (s : Scope) → (snapshot_scope s).name ≡ s.name
unfolding snapshot_scope
snapshot_scope-name s = refl

restored_loop :
    (es : List (Text × Scope)) (st : Store)
    → All Kept es
    → Distinct scope_name es
    → All (λ f. All (λ e. text_eq (scope_name e) (scope_name f) ≡ false) st.scopes) es
    → (fs : List (Text × Scope)) × (restore_loop (map (λ e. snapshot_scope e.1) es) st
        ≡ ok (record st { scopes = st.scopes ++ fs }))
      × Alike fs es
unfolding restore_loop Alike Distinct
restored_loop [] st kept d fresh =
    ([], ap (λ q. ok (record st { scopes = q })) (sym (append-nil st.scopes)), tt)
restored_loop ((k, s) ∷ es) st (here, kept) (apart, d) (fresh, others) =
    let (s', e, same) = restore_scope-snapshot_scope st.log_cap s here.index in
    let sss = map (λ (f : Text × Scope). snapshot_scope f.1) es in
    let st' : Store = record st { scopes = st.scopes ++ (k, s') ∷ [] } in
    let placed : insert (snapshot_scope s).name s' st.scopes ≡ st'.scopes =
      ap (λ q. insert q s' st.scopes) (snapshot_scope-name s ∙ here.named)
      ∙ insert-fresh k s' st.scopes fresh in
    let (fs, loop, alike) = restored_loop es st' kept d (beyond s' es apart others) in
    let step : restore_loop (map (λ (f : Text × Scope). snapshot_scope f.1) ((k, s) ∷ es)) st
        ≡ restore_loop (map (λ (f : Text × Scope). snapshot_scope f.1) es) st' =
      restore_loop-step (snapshot_scope s) sss st s' e
        (ap is_empty (snapshot_scope-name s ∙ here.named) ∙ here.nonempty)
      ∙ ap (λ q. restore_loop sss (record st { scopes = q })) placed in
    (
      (k, s') ∷ fs,
      step
          ∙ loop
          ∙ ap (λ q. ok (record st { scopes = q })) (append_assoc st.scopes ((k, s') ∷ []) fs),
      (refl, (same, alike)),
    )
  where
    beyond :
        (s' : Scope) (fs : List (Text × Scope))
        → All (λ f. text_eq k (scope_name f) ≡ false) fs
        → All (λ f. All (λ e. text_eq (scope_name e) (scope_name f) ≡ false) st.scopes) fs
        → All
            (λ f.
              All (λ e. text_eq (scope_name e) (scope_name f) ≡ false) (st.scopes ++ (k, s') ∷ []))
            fs
    beyond s' [] a o = tt
    beyond s' (f ∷ fs) (a, rest) (o, os) = (
      All-append (λ e. text_eq (scope_name e) (scope_name f) ≡ false) st.scopes ((k, s') ∷ []) o
          (a, tt),
      beyond s' fs rest os,
    )

map-Alike :
    (fs es : List (Text × Scope))
    → Alike fs es
    → map (λ (e : Text × Scope). snapshot_scope e.1) fs
      ≡ map (λ (e : Text × Scope). snapshot_scope e.1) es
unfolding Alike
map-Alike [] [] a = refl
map-Alike [] (e ∷ es) a = absurd a
map-Alike (f ∷ fs) [] a = absurd a
map-Alike (f ∷ fs) (e ∷ es) (_n, (same, a)) = λ i. same i ∷ map-Alike fs es a i

Alike-Ordered :
    (fs es : List (Text × Scope)) → Alike fs es → Ordered scope_name es → Ordered scope_name fs
unfolding Alike Ordered
Alike-Ordered [] [] a o = tt
Alike-Ordered [] (e ∷ es) a o = absurd a
Alike-Ordered (f ∷ fs) [] a o = absurd a
Alike-Ordered (f ∷ []) (e ∷ []) a o = tt
Alike-Ordered (f ∷ g ∷ fs) (e ∷ d ∷ es) (n, (_s, (m, (s, a)))) (o, os) =
    (rw (n, m) o, Alike-Ordered (g ∷ fs) (d ∷ es) (m, (s, a)) os)
Alike-Ordered (f ∷ []) (e ∷ d ∷ es) (n, (_s, a)) o = absurd a
Alike-Ordered (f ∷ g ∷ fs) (e ∷ []) (n, (_s, a)) o = absurd a

-- A store under distinct non-empty names, whose scopes have an index that finds every live node
-- and edges that join live nodes, is restored from its snapshot without an error, and the snapshot
-- of what was restored is the same.
pub snapshot-restore :
    (defaults : ScopeConfig) (log_cap : ℕ) (st : Store)
    → Sound st
    → (st' : Store) × (restore defaults log_cap (snapshot st) ≡ ok st')
      × (snapshot st' ≡ snapshot st)
unfolding snapshot restore
snapshot-restore defaults log_cap st sound =
    let es = sort_by scope_name st.scopes in
    let st0 : Store = record {
      scopes = [];
      defaults = defaults;
      log_cap = log_cap;
      closed = false;
    } in
    let (fs, loop, alike) =
      restored_loop es st0 (sort_by-All scope_name Kept st.scopes sound.scopes)
        (sort_by-Distinct scope_name st.scopes sound.distinct) (nothing es) in
    let still : sort_by scope_name fs ≡ fs =
      sort_by-fixed scope_name fs
        (Alike-Ordered fs es alike (sort_by-Ordered scope_name st.scopes)) in
    (
      record st0 { scopes = fs },
      loop,
      ap (map (λ (e : Text × Scope). snapshot_scope e.1)) still ∙ map-Alike fs es alike,
    )
  where
    nothing : (es : List (Text × Scope)) → All (λ (f : Text × Scope). Unit {0}) es
    nothing [] = tt
    nothing (e ∷ es) = (tt, nothing es)
