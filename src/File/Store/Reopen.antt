-- ===== src/File/Store/Reopen.antt =====
-- file.go: a store opened on what a process left on disk.
use dagworker.Base.{ℕ, ◌≡◌, refl, ap, ◌∙◌, true, false, none, List, ◌++◌, ◌<◌, length, take}
use dagworker.Errors.{Result, ok}
use dagworker.File.Gate.{Live, Gate, new_gate, feed, run, golive}
use dagworker.File.Frame.{frame, read_all}
use dagworker.File.Frame.Torn.{IsCodec, Fits, frames, read_all-frames}
use dagworker.File.Store.{
  Backend, Entry, Format, Store, Reply, Recovery, replay_loop, open_store, read_snapshot,
}
use dagworker.File.Store.History.{History, Durable}

module _ (b : Backend) (format : Format b) (live : Live) where
  replay_loop-History :
      {es : List (Entry b.Command)} {m m' : b.State}
      → History b es m m'
      → (k : Gate) → k.replaying ≡ true
      → (g : Gate) × (replay_loop b format live es m k ≡ Reply.answer (m', g))
  unfolding replay_loop
  replay_loop-History History.start k t = (k, refl)
  replay_loop-History (History.step {e} {es} {m} {m'} {m''} accepts h) k t =
      let (a, same, steady, on) = accepts.replays live k t in
      let k' = (run live (b.exec e.command m) (feed e.readings k)).0 in
      let (g, rest) = replay_loop-History h k' on in
      let accepted : (run live (b.exec e.command m) (feed e.readings k)).1.0 ≡ ok a =
        ap (λ (q : Result b.Answer × b.State). q.0) same in
      let state : (run live (b.exec e.command m) (feed e.readings k)).1.1 ≡ m' =
        ap (λ (q : Result b.Answer × b.State). q.1) same in
      (g, rw (accepted, steady, replay_loop) (rw state rest))

  -- What an opened store and its report say.
  pub record Reopened (m : b.State) (records discarded : ℕ)
      (r : Reply (Store b format live × Recovery)) : Type 0 where
    pub store : Store b format live
    pub recovery : Recovery
    pub opens : r ≡ Reply.answer (store, recovery)
    pub state : store.mem ≡ m
    pub usable : store.closed ≡ false
    pub is_live : store.gate.replaying ≡ false
    pub replayed : recovery.records ≡ records
    pub torn : recovery.discarded ≡ discarded

  -- A store that is opened on the log of a history of commands, each of which gives the same state
  -- whatever clock, jitter and order of maps replay its readings, without a snapshot, and behind
  -- it any part of the frame of one more record, has the state that the history led to, has
  -- replayed every record of it, and reports the length of that part as discarded.
  pub open_store-recovers :
      (laws : IsCodec format.entry) (es : List (Entry b.Command)) (s : Store b format live)
      (e : Entry b.Command) (k : ℕ)
      → Durable b format live es s
      → Fits format.entry e
      → k < length (frame format.entry e)
      → Reopened s.mem (length es) k (
          open_store b format live
            (record s.disk { log = s.disk.log ++ take k (frame format.entry e) }))
  unfolding open_store new_gate golive read_snapshot
  open_store-recovers laws es s e k d small h =
      let disk = record s.disk { log = s.disk.log ++ take k (frame format.entry e) } in
      let found : read_all format.entry disk.log
          ≡ record { records = es; discarded = k; file = frames format.entry es } =
        ap (λ l. read_all format.entry (l ++ take k (frame format.entry e))) d.logged
        ∙ read_all-frames format.entry laws es e k d.fitting small h in
      let (g, replayed) = replay_loop-History d.history new_gate refl in
      let none_there : read_snapshot b format live disk ≡ none =
        rw (d.no_snapshot, read_snapshot) refl in
      let store : Store b format live = record {
        mem = s.mem;
        gate = golive g;
        disk = record disk { log = frames format.entry es };
        closed = false;
      } in
      let recovery : Recovery = record {
        records = length es;
        discarded = k;
        from_snapshot = false;
      } in
      record {
        store = store;
        recovery = recovery;
        opens = rw (none_there, found, replayed, open_store) refl;
        state = refl;
        usable = refl;
        is_live = refl;
        replayed = refl;
        torn = refl;
      }
