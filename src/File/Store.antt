-- ===== src/File/Store.antt =====
-- storage/file: file.go, store.go and compact.go: opening, mutating and compacting a store on disk.
--
-- The in-memory backend is given as its states, its commands as programs over the gate, which may
-- also depend on the order of a map that nothing records, and its snapshots; encoding/gob and hash/crc32 are given with the log's codec. Of the file system a write
-- to the log can be cut short, and the process can die between any two steps; the other failures
-- of files, and directories, are not modelled.
pub mod History
pub mod Reopen
pub mod Compaction
use dagworker.Base.{
  ℕ, zero, suc, Bool, true, false, not, Option, none, some, List, [], ◌∷◌, ◌++◌, ◌==◌,
  if◌then◌else◌, length, take,
}
use dagworker.Errors.{Error, Result, ok, err, plain, err_closed}
use dagworker.File.Gate.{
  Prog, Readings, Live, Gate, new_gate, feed, drifted, golive, begin, finish, run,
}
use dagworker.File.Frame.{Codec, Contents, frame, append, read_all}

pub record Backend : Type 1 where
  pub State : Type 0
  pub Command : Type 0
  pub Answer : Type 0
  pub Snapshot : Type 0
  pub fresh : State
  pub exec : Command → State → Prog (Result Answer × State)
  pub snapshot : State → Snapshot
  pub restore : Snapshot → Result State

-- One mutation and the readings that it consumed.
pub record Entry (Command : Type 0) : Type 0 where
  pub command : Command
  pub readings : Readings

-- The encodings of the log's records, of a snapshot, and of the file that frames it.
pub record Format (b : Backend) : Type 0 where
  pub entry : Codec (Entry b.Command)
  pub encode_snapshot : b.Snapshot → List ℕ
  pub decode_snapshot : List ℕ → Option b.Snapshot
  pub encode_file : ℕ → List ℕ → List ℕ
  pub decode_file : List ℕ → Option (ℕ × List ℕ)

pub record Disk : Type 0 where
  pub log : List ℕ
  pub snapshot : Option (List ℕ)

-- What a call reports in place of an answer.
pub data Fault : Type 0 where
  refused : Error → Fault
  io drift : Fault

pub data Reply (A : Type 0) : Type 0 where
  answer : A → Reply A
  fault : Fault → Reply A

pub record Recovery : Type 0 where
  pub records : ℕ
  pub discarded : ℕ
  pub from_snapshot : Bool

module _ (b : Backend) (format : Format b) (live : Live) where
  pub record Store : Type 0 where
    pub mem : b.State
    pub gate : Gate
    pub disk : Disk
    pub closed : Bool

  -- What a command's run under a recording gate leaves and yields.
  unfoldable pub recorded_exec :
      b.Command → b.State → Gate → (Gate × Readings) × (Result b.Answer × b.State)
  recorded_exec command mem g =
      let (g1, (r, mem')) = run live (b.exec command mem) (begin g) in (finish g1, (r, mem'))

  -- A mutation. `cut` is how many bytes of the frame reach the log before its write fails.
  unfoldable pub mutate : b.Command → Option ℕ → Store → Store × Reply b.Answer
  unfolding recorded_exec
  mutate command cut s =
      let (gr, (r, mem')) = recorded_exec command s.mem s.gate in
      let s1 = record s { mem = mem'; gate = gr.0 } in
      let e : Entry b.Command = record { command = command; readings = gr.1 } in
      let torn = record s1.disk {
        log = s1.disk.log ++ take (elim cut [ none ↦ 0 | some k ↦ k ]) (frame format.entry e);
      } in
      let whole = record s1.disk { log = append format.entry e s1.disk.log } in
      if s.closed then (s, Reply.fault (Fault.refused (plain err_closed))) else elim r [
        | err x ↦ (s1, Reply.fault (Fault.refused x))
        | ok a ↦ elim cut [
          | none ↦ (record s1 { disk = whole }, Reply.answer a)
          | some k ↦ (record s1 { disk = torn }, Reply.fault Fault.io)
        ]
      ]

  -- The records of the log, replayed one after another.
  unfoldable pub replay_loop : List (Entry b.Command) → b.State → Gate → Reply (b.State × Gate)
  replay_loop [] mem g = Reply.answer (mem, g)
  replay_loop (e ∷ es) mem g =
      let (g', (r, mem')) = run live (b.exec e.command mem) (feed e.readings g) in
      let rest = replay_loop es mem' g' in
      elim r [
        | err x ↦ Reply.fault (Fault.refused x)
        | ok a ↦ if drifted g' then Reply.fault Fault.drift else rest
      ]

  -- The snapshot, where there is one that is readable.
  unfoldable pub read_snapshot : Disk → Option b.Snapshot
  read_snapshot disk = elim disk.snapshot [
    | none ↦ none
    | some raw ↦ elim (format.decode_file raw) [
      | none ↦ none
      | some (crc, bytes) ↦
          if not (format.entry.checksum bytes == crc) then none else format.decode_snapshot bytes
    ]
  ]

  abbrev opened : Disk → Recovery → Reply (b.State × Gate) → Reply (Store × Recovery)
  opened disk recovery (Reply.fault x) = Reply.fault x
  opened disk recovery (Reply.answer (mem, g)) =
      Reply.answer (record { mem = mem; gate = golive g; disk = disk; closed = false }, recovery)

  unfoldable pub open_store : Disk → Reply (Store × Recovery)
  unfolding replay_loop read_snapshot
  open_store disk =
      let found = read_all format.entry disk.log in
      let disk' = record disk { log = found.file } in
      let recovery : Bool → Recovery = λ from_snapshot. record {
        records = length found.records;
        discarded = found.discarded;
        from_snapshot = from_snapshot;
      } in
      elim (read_snapshot disk) [
        | none ↦ opened disk' (recovery false) (replay_loop found.records b.fresh new_gate)
        | some snap ↦ elim (b.restore snap) [
          | err x ↦ Reply.fault (Fault.refused x)
          | ok mem ↦ opened disk' (recovery true) (replay_loop found.records mem new_gate)
        ]
      ]

  -- writeSnapshot: the new snapshot in the place of the old one.
  unfoldable pub publish : Store → Store
  publish s =
      let bytes = format.encode_snapshot (b.snapshot s.mem) in
      record s {
        disk = record s.disk {
          snapshot = some (format.encode_file (format.entry.checksum bytes) bytes);
        };
      }

  -- log.reset.
  unfoldable pub reset : Store → Store
  reset s = record s { disk = record s.disk { log = [] } }

  unfoldable pub compact : Store → Store × Reply (Unit {0})
  unfolding publish reset
  compact s =
      if s.closed
      then (s, Reply.fault (Fault.refused (plain err_closed)))
      else (reset (publish s), Reply.answer tt)

  unfoldable pub close : Store → Store
  close s = record s { closed = true }
