-- ===== src/Errors.antt =====
-- errors.go: the error taxonomy. An error carries what its Go value carries beyond its rendered
-- text, and wraps exactly one sentinel.
use Prim.Native.String.{String}
use dagworker.Base.{ℕ, ◌≡◌, refl, ◌⊎◌, inl, inr, List, Text}

-- The sentinels that the modelled code returns.
pub data Sentinel : Type 0 where
  err_not_found err_id_conflict err_cycle err_already_terminal err_node_in_flight : Sentinel
  err_has_successors err_lease_mismatch err_scope_sealed err_closed err_payload_too_large : Sentinel
  err_cursor_expired err_invalid_argument err_unsupported err_subscriber_lagged err_no_work :
      Sentinel
  err_cross_scope_edge err_lease_expired err_invalid_config err_nil_store : Sentinel

-- A bare or fmt-wrapped sentinel, and the three error structs.
pub data Error : Type 0 where
  plain : Sentinel → Error
  cycle_error : Text → Text → Text → List Text → Error
  invalid_argument_error : String → Error
  payload_too_large_error : ℕ → ℕ → Error

-- errors.Is(err, …): the sentinel at the end of the chain of Unwrap.
unfoldable pub unwrap : Error → Sentinel
unwrap (plain s) = s
unwrap (cycle_error scope from to path) = err_cycle
unwrap (invalid_argument_error field) = err_invalid_argument
unwrap (payload_too_large_error size cap) = err_payload_too_large

-- A Go result with its error: a value, or the error that stopped it.
pub data Result {ℓ} (A : Type ℓ) : Type ℓ where
  err : Error → Result A
  ok : A → Result A

-- if err != nil { return err }, with the value of the call in what follows.
infixl 5 ◌>>=◌
abbrev pub ◌>>=◌ {ℓ κ} : {A : Type ℓ} {B : Type κ} → Result A → (A → Result B) → Result B
err stop >>= next = err stop
ok value >>= next = next value

-- The same for a call that returns nothing but its error.
infixl 5 ◌>>◌
abbrev pub ◌>>◌ {κ} : {B : Type κ} → Result (Unit {0}) → Result B → Result B
check >> next = check >>= λ _. next

pub ok-injective {ℓ} : {A : Type ℓ} {a b : A} → ok a ≡ ok b → a ≡ b
ok-injective e = cc

pub Result-cases {ℓ} :
    {A : Type ℓ} (r : Result A) → ((a : A) × (r ≡ ok a)) ⊎ ((e : Error) × (r ≡ err e))
Result-cases (ok a) = inl (a, refl)
Result-cases (err e) = inr (e, refl)
