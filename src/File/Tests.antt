-- ===== src/File/Tests.antt =====
-- Runs of storage/file over the sample backend.
use dagworker.Base.{◌≡◌, refl, true, false, none, some, List, [], ◌∷◌, ◌++◌, arith, take}
use dagworker.Errors.{plain, err_lease_mismatch}
use dagworker.File.Gate.{IsRecorded, Gate, new_gate, golive, begin, finish, run, now, draw, drifted}
use dagworker.File.Gate.Replay.{recorded_run, replayed_run, replayed_run-recorded_run}
use dagworker.File.Frame.{frame, append, put_uint32}
use dagworker.File.Frame.Torn.{Fits, frames}
use dagworker.File.Store.{Entry, Reply, Fault, mutate, open_store, publish, compact}
use dagworker.File.Store.History.{History, Durable, entry_of, entry_of-Accepts, mutate-Durable}
use dagworker.File.Store.Reopen.{Reopened, open_store-recovers}
use dagworker.File.Store.Compaction.{compact-reopens, publish-crash, compact-damaged}
use dagworker.File.Samples.{
  Command, exec, one_lease, codec, codec-IsCodec, format, format-IsFormat, live, vacant, occupied,
  encode, decode_file,
}

abbrev recording : Gate
unfolding golive new_gate
recording = golive new_gate

replayed_run-recorded_run_example :
    let (g', a, r) = recorded_run live (exec (Command.claim 5) none) recording in
    let (k', b) = replayed_run live r (exec (Command.claim 5) none) new_gate in
    (b ≡ a)
    × (drifted k' ≡ false)
    × (k'.clock ≡ [])
    × (k'.jitter ≡ [])
    × (k'.replaying ≡ true)
    × (g'.replaying ≡ false)
unfolding recording golive new_gate IsRecorded exec
replayed_run-recorded_run_example =
    replayed_run-recorded_run live live (exec (Command.claim 5) none) recording new_gate (λ t v. tt)
      refl refl

-- What the claim is logged as.
abbrev claimed : Entry Command
claimed = record {
  command = Command.claim 5;
  readings = record { clock = 100 ∷ []; jitter = 4 ∷ [] };
}

claimed-Fits : Fits codec claimed
unfolding encode
claimed-Fits = omega arith

vacant-Durable : Durable one_lease format live [] vacant
unfolding frames golive
vacant-Durable = record {
  logged = refl;
  fitting = tt;
  no_snapshot = refl;
  history = History.start;
  is_live = refl;
}

mutate-Durable_example :
    (fs : List (Entry Command)) × Durable one_lease format live fs
      (mutate one_lease format live (Command.claim 5) none vacant).0
unfolding exec run entry_of encode begin finish golive new_gate now draw IsRecorded
mutate-Durable_example =
    mutate-Durable one_lease format live (Command.claim 5) vacant [] (λ t v. tt)
      (λ x e. absurd (ground arith)) (omega arith) vacant-Durable

occupied-Durable : Durable one_lease format live (claimed ∷ []) occupied
unfolding occupied exec run entry_of begin finish golive new_gate now draw frames append encode
    IsRecorded
occupied-Durable = record {
  logged = refl;
  fitting = (claimed-Fits, tt);
  no_snapshot = refl;
  history =
      History.step
        (entry_of-Accepts one_lease format live (Command.claim 5) vacant 109 (λ t v. tt) refl refl)
        History.start;
  is_live = refl;
}

open_store-recovers_example : Reopened one_lease format live (some 109) 1 11 (
    open_store one_lease format live
      (record occupied.disk { log = occupied.disk.log ++ take 11 (frame codec claimed) }))
unfolding frame put_uint32 encode occupied run exec now begin golive new_gate draw
open_store-recovers_example =
    open_store-recovers one_lease format live codec-IsCodec (claimed ∷ []) occupied claimed 11
      occupied-Durable claimed-Fits (omega arith)

compact-reopens_example :
    Reopened one_lease format live
      (some 109)
      0
      0
      (open_store one_lease format live (compact one_lease format live occupied).0.disk)
unfolding occupied run exec now begin golive new_gate draw
compact-reopens_example =
    compact-reopens one_lease format live format-IsFormat occupied (some 109) refl refl

publish-crash_example :
    open_store one_lease format live (publish one_lease format live occupied).disk
    ≡ Reply.fault (Fault.refused (plain err_lease_mismatch))
unfolding exec run occupied now begin golive new_gate draw
publish-crash_example =
    publish-crash one_lease format live format-IsFormat occupied claimed [] (some 109)
      (plain err_lease_mismatch) occupied-Durable.logged (claimed-Fits, tt) refl refl

compact-damaged_example : Reopened one_lease format live none 0 0 (
    open_store one_lease format live
      (record (compact one_lease format live occupied).0.disk { snapshot = some [] }))
unfolding decode_file occupied run exec
compact-damaged_example = compact-damaged one_lease format live occupied [] refl refl
