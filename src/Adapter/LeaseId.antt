-- ===== src/Adapter/LeaseId.antt =====
-- adapters/http/leaseid.go: the lease identifier, which packs the epoch and the node's identifier.
-- The text encoding of bytes (encoding/base64) is given.
use dagworker.Base.{
  ℕ, ◌+◌, ◌*◌, ◌/◌, ◌%◌, ◌^◌, ◌<◌, ◌≡◌, refl, false, Option, none, some, List, [], ◌∷◌,
  if◌then◌else◌, Text, ltb, length, take, drop, All, arith,
}
use dagworker.Errors.{Result, ok, err, plain, err_invalid_argument}

-- base64.RawURLEncoding.
pub record Base64 : Type 0 where
  pub encode : List ℕ → Text
  pub decode : Text → Option (List ℕ)

-- binary.BigEndian.PutUint64.
unfoldable pub put_uint64 : ℕ → List ℕ → List ℕ
put_uint64 n rest =
    (n / 2 ^ 56 % 256)
    ∷ (n / 2 ^ 48 % 256)
    ∷ (n / 2 ^ 40 % 256)
    ∷ (n / 2 ^ 32 % 256)
    ∷ (n / 2 ^ 24 % 256)
    ∷ (n / 2 ^ 16 % 256)
    ∷ (n / 2 ^ 8 % 256)
    ∷ (n % 256)
    ∷ rest

-- binary.BigEndian.Uint64, of the bytes from the first on.
unfoldable pub uint64 : List ℕ → ℕ → ℕ
uint64 [] n = n
uint64 (b ∷ bytes) n = uint64 bytes (256 * n + b)

unfoldable pub encode_lease_id : Base64 → Text → ℕ → Text
unfolding put_uint64
encode_lease_id base64 node epoch = base64.encode (put_uint64 epoch node)

abbrev malformed : Result (Text × ℕ)
malformed = err (plain err_invalid_argument)

-- The bytes of a token: the node's identifier is what follows the epoch.
unfoldable pub split_token : List ℕ → Result (Text × ℕ)
unfolding uint64
split_token buf = if ltb (length buf) 8 then malformed else ok (drop 8 buf, uint64 (take 8 buf) 0)

unfoldable pub decode_lease_id : Base64 → Text → Result (Text × ℕ)
unfolding split_token
decode_lease_id base64 token = elim (base64.decode token) [
  | none ↦ malformed
  | some buf ↦ split_token buf
]

-- What the adapter relies on: bytes are decoded as they were encoded.
pub record IsBase64 (base64 : Base64) : Type 0 where
  pub decodes :
      (bytes : List ℕ) → All (λ b. b < 256) bytes → base64.decode (base64.encode bytes) ≡ some bytes

uint64-put_uint64 : (n : ℕ) (rest : List ℕ) → n < 2 ^ 64 → uint64 (take 8 (put_uint64 n rest)) 0 ≡ n
unfolding uint64 put_uint64
uint64-put_uint64 n rest h = omega arith

put_uint64-bytes :
    (n : ℕ) (rest : List ℕ) → All (λ b. b < 256) rest → All (λ b. b < 256) (put_uint64 n rest)
unfolding put_uint64
put_uint64-bytes n rest h = (
  omega arith,
  (
    omega arith,
    (omega arith, (omega arith, (omega arith, (omega arith, (omega arith, (omega arith, h)))))),
  ),
)

put_uint64-long : (n : ℕ) (rest : List ℕ) → ltb (length (put_uint64 n rest)) 8 ≡ false
unfolding put_uint64
put_uint64-long n rest = ground arith

put_uint64-rest : (n : ℕ) (rest : List ℕ) → drop 8 (put_uint64 n rest) ≡ rest
unfolding put_uint64
put_uint64-rest n rest = refl

split_token-put_uint64 :
    (node : Text) (epoch : ℕ)
    → epoch < 2 ^ 64
    → split_token (put_uint64 epoch node) ≡ ok (node, epoch)
unfolding split_token
split_token-put_uint64 node epoch small =
    let long : ltb (length (put_uint64 epoch node)) 8 ≡ false = put_uint64-long epoch node in
    rw long (λ i. ok (put_uint64-rest epoch node i, uint64-put_uint64 epoch node small i))

-- The lease identifier of the HTTP adapter is decoded as the node and the epoch that it was made
-- of, whatever bytes the identifier of the node has, for an epoch of 64 bits and an encoding of
-- bytes that decodes what it encoded.
pub decode_lease_id-encode_lease_id :
    (base64 : Base64) (laws : IsBase64 base64) (node : Text) (epoch : ℕ)
    → All (λ b. b < 256) node
    → epoch < 2 ^ 64
    → decode_lease_id base64 (encode_lease_id base64 node epoch) ≡ ok (node, epoch)
unfolding decode_lease_id encode_lease_id
decode_lease_id-encode_lease_id base64 laws node epoch bytes small =
    rw (laws.decodes (put_uint64 epoch node) (put_uint64-bytes epoch node bytes), decode_lease_id)
      (split_token-put_uint64 node epoch small)
