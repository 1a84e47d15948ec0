-- ===== src/File/Frame.antt =====
-- storage/file/log.go: the frames of the log on disk. The encoding of a record (encoding/gob) and the
-- checksum (hash/crc32) are given. A file is its bytes; reading, writing and syncing it are not
-- modelled but for a write that is cut short.
pub mod Torn
use dagworker.Base.{
  ℕ, zero, suc, ◌+◌, ◌-◌, ◌*◌, ◌/◌, ◌%◌, ◌^◌, Bool, true, false, not, ◌||◌, Option, none, some,
  List, [], ◌∷◌, ◌++◌, ◌==◌, ltb, if◌then◌else◌, length, take, drop,
}

-- What the log is given for records of one type.
pub record Codec (R : Type 0) : Type 0 where
  pub encode : R → List ℕ
  pub decode : List ℕ → Option R
  pub checksum : List ℕ → ℕ

-- binary.LittleEndian.PutUint32.
unfoldable pub put_uint32 : ℕ → List ℕ → List ℕ
put_uint32 n rest = (n % 256) ∷ (n / 256 % 256) ∷ (n / 65536 % 256) ∷ (n / 16777216 % 256) ∷ rest

-- binary.LittleEndian.Uint32.
unfoldable pub uint32 : ℕ → ℕ → ℕ → ℕ → ℕ
uint32 a b c d = a + 256 * b + 65536 * c + 16777216 * d

-- The frame that append writes: uint32(len(payload)), the checksum, the payload.
unfoldable pub frame : {R : Type 0} → Codec R → R → List ℕ
unfolding put_uint32
frame codec r =
    let payload = codec.encode r in
    put_uint32 (length payload % 2 ^ 32) (put_uint32 (codec.checksum payload) payload)

unfoldable pub append : {R : Type 0} → Codec R → R → List ℕ → List ℕ
unfolding frame
append codec r log = log ++ frame codec r

-- One frame off the front of what is left to read: its record, and what is left behind it.
unfoldable pub read_one : {R : Type 0} → Codec R → List ℕ → Option (R × List ℕ)
unfolding uint32
read_one codec (a ∷ b ∷ c ∷ d ∷ e ∷ f ∷ g ∷ h ∷ rest) =
    let n = uint32 a b c d in
    let sum = uint32 e f g h in
    let payload = take n rest in
    if ltb (length rest) n || not (codec.checksum payload == sum)
    then none
    else elim (codec.decode payload) [ none ↦ none | some r ↦ some (r, drop n rest) ]
read_one codec _ = none

-- The loop over the frames, with the bytes from the first that is not intact on.
unfoldable pub read_loop : {R : Type 0} → ℕ → Codec R → List ℕ → List R × List ℕ
unfolding read_one
read_loop zero codec rest = ([], rest)
read_loop (suc fuel) codec rest = elim (read_one codec rest) [
  | none ↦ ([], rest)
  | some (r, rest') ↦ let (rs, torn) = read_loop fuel codec rest' in (r ∷ rs, torn)
]

-- What readAll finds, how many bytes it discards, and the file that it leaves.
pub record Contents (R : Type 0) : Type 0 where
  pub records : List R
  pub discarded : ℕ
  pub file : List ℕ

unfoldable pub read_all : {R : Type 0} → Codec R → List ℕ → Contents R
unfolding read_loop
read_all codec bytes =
    let (rs, torn) = read_loop (length bytes) codec bytes in
    record { records = rs; discarded = length torn; file = take (length bytes - length torn) bytes }
