-- ===== src/Memory/Snapshot/Tests.antt =====
-- Runs of storage/memory/snapshot.go on the scopes of the samples.
use dagworker.Base.{
  some, ℕ, zero, suc, ◌<◌, ◌≡◌, refl, true, false, [], ◌∷◌, arith, All, codes, lookup, text_eq,
}
use dagworker.Errors.{ok}
use dagworker.Memory.State.{PredEdge, new_scope}
use dagworker.Memory.Store.{Store}
use dagworker.Memory.Samples.{running, plain_config}
use dagworker.Memory.Snapshot.Sorted.{Distinct}
use dagworker.Memory.Snapshot.RoundTrip.Export.{Indexed}
use dagworker.Memory.Snapshot.Whole.{snapshot, restore}
use dagworker.Memory.Snapshot.Whole.RoundTrip.{Sound, snapshot-restore}

running-Indexed : Indexed running
unfolding lookup text_eq new_scope
running-Indexed = record { found = found; succ = succs; pred = preds }
  where
    found :
        (h : ℕ)
        → (h < 2) × ((running.recs h).alive ≡ true)
        → lookup (running.recs h).id running.index ≡ some h
    found zero l = refl
    found (suc zero) l = refl
    found (suc (suc h)) l = absurd (omega (arith, l.0))

    succs :
        (h : ℕ)
        → (h < 2) × ((running.recs h).alive ≡ true)
        → All (λ w. (w < 2) × ((running.recs w).alive ≡ true)) (running.succ h)
    succs zero l = ((omega arith, refl), tt)
    succs (suc zero) l = tt
    succs (suc (suc h)) l = absurd (omega (arith, l.0))

    preds :
        (h : ℕ)
        → (h < 2) × ((running.recs h).alive ≡ true)
        → All
            (λ (e : PredEdge). (e.from < 2) × ((running.recs e.from).alive ≡ true))
            (running.pred h)
    preds zero l = tt
    preds (suc zero) l = ((omega arith, refl), tt)
    preds (suc (suc h)) l = absurd (omega (arith, l.0))

-- A store of the one scope.
abbrev kept_store : Store
kept_store = record {
  scopes = (codes "s", running) ∷ [];
  defaults = plain_config;
  log_cap = 4;
  closed = false;
}

kept_store-Sound : Sound kept_store
unfolding Distinct new_scope
kept_store-Sound = record {
  scopes = (record { index = running-Indexed; named = refl; nonempty = refl }, tt);
  distinct = (tt, tt);
}

snapshot-restore_example :
    (st : Store) × (restore plain_config 4 (snapshot kept_store) ≡ ok st)
    × (snapshot st ≡ snapshot kept_store)
snapshot-restore_example = snapshot-restore plain_config 4 kept_store kept_store-Sound
