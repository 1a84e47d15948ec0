-- ===== src/File/Store/Compaction.antt =====
-- compact.go: a store opened after a compaction, whole or cut short, and after its snapshot was damaged.
use mathlib.Core.List.{append-nil}
use dagworker.Base.{
  ℕ, ◌≡◌, refl, sym, ap, ◌∙◌, true, false, Option, none, some, List, [], ◌∷◌, arith, ◌==◌, ==_iff,
  All,
}
use dagworker.Errors.{ok, err, Error}
use dagworker.File.Gate.{Live, new_gate, feed, golive, run}
use dagworker.File.Frame.{read_all}
use dagworker.File.Frame.Torn.{IsCodec, Fits, frames, frame-pos, read_all-frames}
use dagworker.File.Store.{
  Backend, Entry, Format, Store, Disk, Reply, Fault, Recovery, replay_loop, open_store,
  read_snapshot, publish, reset, compact,
}
use dagworker.File.Store.Reopen.{Reopened}

module _ (b : Backend) (format : Format b) (live : Live) where
  -- What a snapshot file relies on: it is decoded as it was encoded.
  pub record IsFormat : Type 0 where
    pub entries : IsCodec format.entry
    pub files :
        (crc : ℕ) (bytes : List ℕ)
        → format.decode_file (format.encode_file crc bytes) ≡ some (crc, bytes)
    pub snapshots : (s : b.Snapshot) → format.decode_snapshot (format.encode_snapshot s) ≡ some s

  read_snapshot-publish :
      (laws : IsFormat) (s : Store b format live) (log : List ℕ)
      → read_snapshot b format live (record (publish b format live s).disk { log = log })
        ≡ some (b.snapshot s.mem)
  unfolding read_snapshot publish
  read_snapshot-publish laws s log =
      let bytes = format.encode_snapshot (b.snapshot s.mem) in
      let crc = format.entry.checksum bytes in
      let same : (crc == crc) ≡ true = (==_iff crc crc).1 refl in
      rw (laws.files crc bytes, same, laws.snapshots (b.snapshot s.mem)) refl

  compact-disk :
      (s : Store b format live)
      → s.closed ≡ false
      → (compact b format live s).0.disk ≡ record (publish b format live s).disk { log = [] }
  unfolding compact reset publish
  compact-disk s usable = ground (arith, usable)

  -- A store opened on an empty log stands where its snapshot does.
  open_store-empty :
      (raw : Option (List ℕ)) (m : b.State) (snap : b.Snapshot)
      → read_snapshot b format live (record { log = []; snapshot = raw }) ≡ some snap
      → b.restore snap ≡ ok m
      → Reopened b format live m 0 0
          (open_store b format live (record { log = []; snapshot = raw }))
  unfolding open_store replay_loop read_all golive new_gate
  open_store-empty raw m snap found restored =
      let disk : Disk = record { log = []; snapshot = raw } in
      let store : Store b format live = record {
        mem = m;
        gate = golive new_gate;
        disk = disk;
        closed = false;
      } in
      let recovery : Recovery = record { records = 0; discarded = 0; from_snapshot = true } in
      record {
        store = store;
        recovery = recovery;
        opens = rw (found, restored, open_store) refl;
        state = refl;
        usable = refl;
        is_live = refl;
        replayed = refl;
        torn = refl;
      }

  -- A store that is opened after a compaction has the state that restoring its snapshot gives,
  -- with no record replayed and none discarded.
  pub compact-reopens :
      (laws : IsFormat) (s : Store b format live) (m : b.State)
      → s.closed ≡ false
      → b.restore (b.snapshot s.mem) ≡ ok m
      → Reopened b format live m 0 0 (open_store b format live (compact b format live s).0.disk)
  compact-reopens laws s m usable restored = rw (compact-disk s usable) (
      open_store-empty (publish b format live s).disk.snapshot m (b.snapshot s.mem)
        (read_snapshot-publish laws s []) restored)

  replay_loop-stops :
      (e : Entry b.Command) (es : List (Entry b.Command)) (m : b.State) (x : Error)
      → (run live (b.exec e.command m) (feed e.readings new_gate)).1.0 ≡ err x
      → replay_loop b format live (e ∷ es) m new_gate ≡ Reply.fault (Fault.refused x)
  unfolding replay_loop
  replay_loop-stops e es m x rejected = rw (rejected, replay_loop) refl

  -- Where a process dies in a compaction between the publication of the snapshot and the
  -- truncation of the log, and the first command of the log is refused on the state of the
  -- snapshot, the store cannot be opened again.
  pub publish-crash :
      (laws : IsFormat) (s : Store b format live) (e : Entry b.Command)
      (es : List (Entry b.Command)) (m : b.State) (x : Error)
      → s.disk.log ≡ frames format.entry (e ∷ es)
      → All (Fits format.entry) (e ∷ es)
      → b.restore (b.snapshot s.mem) ≡ ok m
      → (run live (b.exec e.command m) (feed e.readings new_gate)).1.0 ≡ err x
      → open_store b format live (publish b format live s).disk ≡ Reply.fault (Fault.refused x)
  unfolding open_store replay_loop publish
  publish-crash laws s e es m x logged fit restored rejected =
      let disk = (publish b format live s).disk in
      let found : read_all format.entry disk.log
          ≡ record { records = e ∷ es; discarded = 0; file = frames format.entry (e ∷ es) } =
        ap (read_all format.entry) (logged ∙ sym (append-nil (frames format.entry (e ∷ es))))
        ∙ read_all-frames format.entry laws.entries (e ∷ es) e 0 fit fit.0
            (frame-pos format.entry e) in
      rw
        (
          read_snapshot-publish laws s s.disk.log,
          restored,
          found,
          replay_loop-stops e es m x rejected,
          open_store,
        )
        refl

  -- Where the snapshot of a compacted store can no longer be decoded, the store opens without an
  -- error on the empty state.
  pub compact-damaged :
      (s : Store b format live) (raw : List ℕ)
      → s.closed ≡ false
      → format.decode_file raw ≡ none
      → Reopened b format live b.fresh 0 0 (
          open_store b format live
            (record (compact b format live s).0.disk { snapshot = some raw }))
  unfolding open_store replay_loop read_all golive new_gate read_snapshot
  compact-damaged s raw usable damaged =
      let disk : Disk = record { log = []; snapshot = some raw } in
      let left : record (compact b format live s).0.disk { snapshot = some raw } ≡ disk =
        ap (λ (d : Disk). record d { snapshot = some raw }) (compact-disk s usable) in
      let unreadable : read_snapshot b format live disk ≡ none = rw (damaged, read_snapshot) refl in
      let recovery : Recovery = record { records = 0; discarded = 0; from_snapshot = false } in
      rw left (record {
        store = record { mem = b.fresh; gate = golive new_gate; disk = disk; closed = false };
        recovery = recovery;
        opens = rw (unreadable, open_store) refl;
        state = refl;
        usable = refl;
        is_live = refl;
        replayed = refl;
        torn = refl;
      })
