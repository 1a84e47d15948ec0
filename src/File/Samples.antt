-- ===== src/File/Samples.antt =====
-- A small backend, of a single lease, with its encodings, and stores over it that the tests use.
use dagworker.Base.{
  ℕ, zero, suc, ap, ◌+◌, ◌%◌, ◌^◌, ◌≡◌, refl, false, Option, none, some, List, [], ◌∷◌, ◌++◌,
  if◌then◌else◌, arith, length, take, drop, leb,
}
use dagworker.Errors.{Result, ok, err, plain, err_lease_mismatch}
use dagworker.File.Gate.{Prog, Readings, Live, new_gate, golive}
use dagworker.File.Frame.{Codec}
use dagworker.File.Frame.Torn.{IsCodec, take-append, drop-append}
use dagworker.File.Store.{Backend, Entry, Format, Store, mutate}
use dagworker.File.Store.Compaction.{IsFormat}

pub data Command : Type 0 where
  claim : ℕ → Command
  complete : Command
  cancel : Command

-- A lease that is free, or held until its deadline.
unfoldable pub exec : Command → Option ℕ → Prog (Result ℕ × Option ℕ)
exec (Command.claim timeout) none =
    Prog.ask_clock
      (λ t. Prog.ask_jitter 4 (λ v. Prog.done (ok (t + timeout + v), some (t + timeout + v))))
exec (Command.claim timeout) (some d) = Prog.done (err (plain err_lease_mismatch), some d)
exec Command.complete none = Prog.done (err (plain err_lease_mismatch), none)
exec Command.complete (some d) = Prog.ask_clock (λ t.
    if leb t d then Prog.done (ok t, none) else Prog.done (err (plain err_lease_mismatch), some d))
-- The outcome is a matter of an order that is not recorded.
exec Command.cancel m = Prog.pick (λ o. Prog.done (ok o, if leb o 0 then none else m))

abbrev pub one_lease : Backend
one_lease = record {
  State = Option ℕ;
  Command = Command;
  Answer = ℕ;
  Snapshot = Option ℕ;
  fresh = none;
  exec = exec;
  snapshot = λ m. m;
  restore = λ m. ok m;
}

abbrev with_readings : List ℕ → List ℕ → List ℕ
with_readings cs js = length cs ∷ cs ++ js

unfoldable pub encode : Entry Command → List ℕ
encode e = elim e.command [
  | Command.claim k ↦ 1 ∷ k ∷ with_readings e.readings.clock e.readings.jitter
  | Command.complete ↦ 0 ∷ with_readings e.readings.clock e.readings.jitter
  | Command.cancel ↦ 2 ∷ with_readings e.readings.clock e.readings.jitter
]

unfoldable pub readings_of : List ℕ → Readings
readings_of [] = record { clock = []; jitter = [] }
readings_of (n ∷ rest) = record { clock = take n rest; jitter = drop n rest }

unfoldable pub decode : List ℕ → Option (Entry Command)
unfolding readings_of
decode (zero ∷ rest) = some (record { command = Command.complete; readings = readings_of rest })
decode ((suc (suc n)) ∷ rest) =
    some (record { command = Command.cancel; readings = readings_of rest })
decode ((suc zero) ∷ k ∷ rest) =
    some (record { command = Command.claim k; readings = readings_of rest })
decode _ = none

unfoldable pub total : List ℕ → ℕ
total [] = 0
total (b ∷ bs) = b + total bs

unfoldable pub encode_held : Option ℕ → List ℕ
encode_held none = []
encode_held (some d) = d ∷ []

unfoldable pub decode_held : List ℕ → Option (Option ℕ)
decode_held [] = some none
decode_held (d ∷ bs) = some (some d)

unfoldable pub decode_file : List ℕ → Option (ℕ × List ℕ)
decode_file [] = none
decode_file (crc ∷ bytes) = some (crc, bytes)

unfoldable pub checksum : List ℕ → ℕ
unfolding total
checksum bytes = total bytes % 2 ^ 32

abbrev pub codec : Codec (Entry Command)
codec = record { encode = encode; decode = decode; checksum = checksum }

abbrev pub format : Format one_lease
format = record {
  entry = codec;
  encode_snapshot = encode_held;
  decode_snapshot = decode_held;
  encode_file = λ crc bytes. crc ∷ bytes;
  decode_file = decode_file;
}

readings_of-with_readings : (r : Readings) → readings_of (with_readings r.clock r.jitter) ≡ r
unfolding readings_of
readings_of-with_readings r =
    λ i. record { clock = take-append r.clock r.jitter i; jitter = drop-append r.clock r.jitter i }

pub codec-IsCodec : IsCodec codec
unfolding encode decode checksum
codec-IsCodec = record { decodes = back; sums = λ bytes. omega arith }
  where
    as_logged :
        (c : Command) (r : Readings)
        → decode (encode (record { command = c; readings = r }))
          ≡ some (record { command = c; readings = r })
    as_logged (Command.claim k) r =
        ap (λ q. some (record { command = Command.claim k; readings = q }))
          (readings_of-with_readings r)
    as_logged Command.complete r =
        ap (λ q. some (record { command = Command.complete; readings = q }))
          (readings_of-with_readings r)
    as_logged Command.cancel r =
        ap (λ q. some (record { command = Command.cancel; readings = q }))
          (readings_of-with_readings r)

    back : (e : Entry Command) → decode (encode e) ≡ some e
    back e = as_logged e.command e.readings

abbrev pub live : Live
live = record { clock = λ n. 100 + n; jitter = λ n m. n + m; order = λ n. n }

pub format-IsFormat : IsFormat one_lease format live
unfolding encode_held decode_held decode_file
format-IsFormat = record { entries = codec-IsCodec; files = λ crc bytes. refl; snapshots = held }
  where
    held : (m : Option ℕ) → decode_held (encode_held m) ≡ some m
    held none = refl
    held (some d) = refl

abbrev pub vacant : Store one_lease format live
vacant = record {
  mem = none;
  gate = golive new_gate;
  disk = record { log = []; snapshot = none };
  closed = false;
}

-- After one claim, which the log holds.
unfoldable pub occupied : Store one_lease format live
unfolding mutate
occupied = (mutate one_lease format live (Command.claim 5) none vacant).0
