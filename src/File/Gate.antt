-- ===== src/File/Gate.antt =====
-- storage/file/nondeterminism.go: the clock and the jitter that the in-memory backend is given, which
-- record what they answer while the store is live, and answer what was recorded while it replays.
--
-- A command of the backend is a program that asks for readings one after another, and may also take
-- a choice of the runtime's that no gate sees: the order in which the range over a map goes, as
-- CancelScope of storage/memory/graph.go does. The wall clock, the random source and the runtime are
-- sequences of answers; the gate counts those that were given.
pub mod Replay
use dagworker.Base.{
  ℕ, suc, Bool, true, false, Option, none, some, List, [], ◌∷◌, ◌++◌, if◌then◌else◌,
}

pub data Prog (A : Type 0) : Type 0 where
  done : A → Prog A
  ask_clock : (ℕ → Prog A) → Prog A
  ask_jitter : ℕ → (ℕ → Prog A) → Prog A
  pick : (ℕ → Prog A) → Prog A

-- A program that takes no choice of the runtime's, whatever it reads.
unfoldable pub IsRecorded : {A : Type 0} → Prog A → Type 0
IsRecorded (Prog.done a) = Unit
IsRecorded (Prog.ask_clock k) = (t : ℕ) → IsRecorded (k t)
IsRecorded (Prog.ask_jitter n k) = (v : ℕ) → IsRecorded (k v)
IsRecorded (Prog.pick k) = ⊥

pub record Readings : Type 0 where
  pub clock : List ℕ
  pub jitter : List ℕ

abbrev pub no_readings : Readings
no_readings = record { clock = []; jitter = [] }

-- The sources behind a live gate.
pub record Live : Type 0 where
  pub clock : ℕ → ℕ
  pub jitter : ℕ → ℕ → ℕ
  pub order : ℕ → ℕ

pub record Gate : Type 0 where
  pub reads : ℕ
  pub draws : ℕ
  pub picks : ℕ
  pub replaying : Bool
  pub clock : List ℕ
  pub jitter : List ℕ
  pub last_clock : ℕ
  pub exhausted : Bool
  pub cur : Option Readings

unfoldable pub new_gate : Gate
new_gate = record {
  reads = 0;
  draws = 0;
  picks = 0;
  replaying = true;
  clock = [];
  jitter = [];
  last_clock = 0;
  exhausted = false;
  cur = none;
}

-- The readings for the next record to be replayed.
unfoldable pub feed : Readings → Gate → Gate
feed r g = record g { clock = r.clock; jitter = r.jitter; exhausted = false }

unfoldable pub drifted : Gate → Bool
drifted g = g.exhausted

unfoldable pub golive : Gate → Gate
golive g = record g { replaying = false; clock = []; jitter = [] }

-- Starts the recording of one command.
unfoldable pub begin : Gate → Gate
begin g = record g { cur = some no_readings }

-- The function that begin returns: ends the recording, and yields what was read.
unfoldable pub finish : Gate → Gate × Readings
finish g = elim g.cur [ none ↦ (g, no_readings) | some r ↦ (record g { cur = none }, r) ]

abbrev note_clock : ℕ → Option Readings → Option Readings
note_clock t none = none
note_clock t (some r) = some (record r { clock = r.clock ++ t ∷ [] })

abbrev note_jitter : ℕ → Option Readings → Option Readings
note_jitter v none = none
note_jitter v (some r) = some (record r { jitter = r.jitter ++ v ∷ [] })

unfoldable pub now : Live → Gate → Gate × ℕ
now live g =
    let t = live.clock g.reads in
    let read : Gate × ℕ = (record g { reads = suc g.reads; cur = note_clock t g.cur }, t) in
    let replayed : Gate × ℕ = elim g.clock [
      | [] ↦ (record g { exhausted = true }, g.last_clock)
      | t' ∷ rest ↦ (record g { last_clock = t'; clock = rest }, t')
    ] in
    if g.replaying then replayed else read

unfoldable pub draw : Live → ℕ → Gate → Gate × ℕ
draw live n g =
    let v = live.jitter g.draws n in
    let drawn : Gate × ℕ = (record g { draws = suc g.draws; cur = note_jitter v g.cur }, v) in
    let replayed : Gate × ℕ = elim g.jitter [
      | [] ↦ (record g { exhausted = true }, 0)
      | v' ∷ rest ↦ (record g { jitter = rest }, v')
    ] in
    if g.replaying then replayed else drawn

-- A command run with the gate as its clock and its jitter, and the runtime's order of its maps.
unfoldable pub run : {A : Type 0} → Live → Prog A → Gate → Gate × A
run live (Prog.done a) g = (g, a)
run live (Prog.ask_clock k) g = let (g', t) = now live g in run live (k t) g'
run live (Prog.ask_jitter n k) g = let (g', v) = draw live n g in run live (k v) g'
run live (Prog.pick k) g = run live (k (live.order g.picks)) (record g { picks = suc g.picks })
