-- ===== src/File/Store/History.antt =====
-- store.go: the log of a store that has not been compacted, as the history of its state.
use dagworker.Base.{
  ◌≡◌, refl, sym, ap, ◌∙◌, subst, true, false, none, List, [], ◌∷◌, ◌++◌, All, All-append,
  Bool-cases, inl, inr,
}
use mathlib.Core.List.{append_assoc, append-nil}
use dagworker.Errors.{ok, err, Result-cases, Error}
use dagworker.File.Gate.{IsRecorded, Live, Gate, feed, drifted, begin, finish, run}
use dagworker.File.Gate.Replay.{recorded_run, replayed_run, replayed_run-recorded_run}
use dagworker.File.Frame.{frame, append}
use dagworker.File.Frame.Torn.{Fits, frames}
use dagworker.File.Store.{Backend, Entry, Format, Store, recorded_exec, mutate}

module _ (b : Backend) where
  -- A record that replays as an accepted command: whatever gate replays it, and without drift.
  pub record Accepts (e : Entry b.Command) (m m' : b.State) : Type 0 where
    pub replays :
        (source : Live) (k : Gate)
        → k.replaying ≡ true
        → (a : b.Answer) × ((run source (b.exec e.command m) (feed e.readings k)).1 ≡ (ok a, m'))
          × (drifted (run source (b.exec e.command m) (feed e.readings k)).0 ≡ false)
          × ((run source (b.exec e.command m) (feed e.readings k)).0.replaying ≡ true)

  pub data History : List (Entry b.Command) → b.State → b.State → Type 0 where
    start : {m : b.State} → History [] m m
    step :
        {e : Entry b.Command} {es : List (Entry b.Command)} {m m' m'' : b.State}
        → Accepts e m m'
        → History es m' m''
        → History (e ∷ es) m m''

  pub History-snoc :
      {e : Entry b.Command} {es : List (Entry b.Command)} {m m' m'' : b.State}
      → History es m m'
      → Accepts e m' m''
      → History (es ++ e ∷ []) m m''
  History-snoc History.start a = History.step a History.start
  History-snoc (History.step x h) a = History.step x (History-snoc h a)

module _ (b : Backend) (format : Format b) (live : Live) where
  -- The log holds the frames of a history that leads to the state in memory.
  pub record Durable (es : List (Entry b.Command)) (s : Store b format live) : Type 0 where
    pub logged : s.disk.log ≡ frames format.entry es
    pub fitting : All (Fits format.entry) es
    pub no_snapshot : s.disk.snapshot ≡ none
    pub history : History b es b.fresh s.mem
    pub is_live : s.gate.replaying ≡ false

  -- The entry that a command run on a store's state would be logged as.
  unfoldable pub entry_of : b.Command → Store b format live → Entry b.Command
  entry_of c s = record {
    command = c;
    readings = (finish (run live (b.exec c s.mem) (begin s.gate)).0).1;
  }

  pub entry_of-Accepts :
      (c : b.Command) (s : Store b format live) (a : b.Answer)
      → IsRecorded (b.exec c s.mem)
      → s.gate.replaying ≡ false
      → (run live (b.exec c s.mem) (begin s.gate)).1.0 ≡ ok a
      → Accepts b (entry_of c s) s.mem (run live (b.exec c s.mem) (begin s.gate)).1.1
  unfolding entry_of recorded_run replayed_run
  entry_of-Accepts c s a w l e = record {
    replays = λ source k t.
        let (same, steady, _c, _j, on, _l) =
          replayed_run-recorded_run live source (b.exec c s.mem) s.gate k w l t in
        (a, same ∙ (λ i. (e i, (run live (b.exec c s.mem) (begin s.gate)).1.1)), steady, on);
  }

  still_live :
      (c : b.Command) (s : Store b format live)
      → IsRecorded (b.exec c s.mem)
      → s.gate.replaying ≡ false
      → (finish (run live (b.exec c s.mem) (begin s.gate)).0).0.replaying ≡ false
  unfolding recorded_run replayed_run
  still_live c s w l =
      let k : Gate = record s.gate { replaying = true } in
      let (_s, _d, _c, _j, _o, still) =
        replayed_run-recorded_run live live (b.exec c s.mem) s.gate k w l refl in
      still

  frames-snoc :
      (es : List (Entry b.Command)) (e : Entry b.Command)
      → frames format.entry (es ++ e ∷ []) ≡ frames format.entry es ++ frame format.entry e
  unfolding frames
  frames-snoc [] e = append-nil (frame format.entry e)
  frames-snoc (x ∷ es) e =
      ap (λ t. frame format.entry x ++ t) (frames-snoc es e)
      ∙ sym (append_assoc (frame format.entry x) (frames format.entry es) (frame format.entry e))

  -- A mutation of a store without a snapshot, by a command that does not depend on the order of a
  -- map and whose write is not cut short, keeps the log the frames of a history of commands that
  -- leads, whatever clock, jitter and order of maps replay it, to the state in memory, where a
  -- command that is refused leaves that state as it was and the record is smaller than 4 GiB.
  pub mutate-Durable :
      (c : b.Command) (s : Store b format live) (es : List (Entry b.Command))
      → IsRecorded (b.exec c s.mem)
      → ((x : Error)
          → (run live (b.exec c s.mem) (begin s.gate)).1.0 ≡ err x
          → (run live (b.exec c s.mem) (begin s.gate)).1.1 ≡ s.mem)
      → Fits format.entry (entry_of c s)
      → Durable es s
      → (fs : List (Entry b.Command)) × Durable fs (mutate b format live c none s).0
  unfolding mutate recorded_exec append entry_of
  mutate-Durable c s es w rejects small d = elim (Bool-cases s.closed) [
    | inl shut ↦ (
      es,
      rw (shut, mutate)
          (record {
            logged = d.logged;
            fitting = d.fitting;
            no_snapshot = d.no_snapshot;
            history = d.history;
            is_live = d.is_live;
          }),
    )
    | inr usable ↦ elim (Result-cases (run live (b.exec c s.mem) (begin s.gate)).1.0) [
      | inr (x, e) ↦ (
        es,
        rw (usable, e, mutate)
            (record {
              logged = d.logged;
              fitting = d.fitting;
              no_snapshot = d.no_snapshot;
              history = subst (History b es b.fresh) (sym (rejects x e)) d.history;
              is_live = still_live c s w d.is_live;
            }),
      )
      | inl (a, e) ↦ (
        es ++ entry_of c s ∷ [],
        rw (usable, e, mutate)
            (record {
              logged =
                  ap (λ t. t ++ frame format.entry (entry_of c s)) d.logged
                  ∙ sym (frames-snoc es (entry_of c s));
              fitting = All-append (Fits format.entry) es (entry_of c s ∷ []) d.fitting (small, _);
              no_snapshot = d.no_snapshot;
              history = History-snoc b d.history (entry_of-Accepts c s a w d.is_live e);
              is_live = still_live c s w d.is_live;
            }),
      )
    ]
  ]
