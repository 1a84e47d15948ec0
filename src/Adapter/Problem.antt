-- ===== src/Adapter/Problem.antt =====
-- adapters/grpc/errors.go and adapters/http/problem.go: the tables that map a sentinel to a status and
-- to the slug of its problem type. docs/spec/02-adapter-contract.md has both in one table.
use Prim.Native.String.{String}
use dagworker.Base.{ℕ, ◌≡◌, ◌≢◌, refl, Text, codes, Bool, true, false, leb}
use dagworker.Errors.{Sentinel, Error, unwrap}

pub data Code : Type 0 where
  invalid_argument not_found already_exists failed_precondition aborted : Code
  out_of_range unimplemented internal unavailable : Code

pub record GrpcRow : Type 0 where
  pub code : Code
  pub slug : Text

pub record HttpRow : Type 0 where
  pub status : ℕ
  pub slug : Text

abbrev pub grpc : Code → String → GrpcRow
grpc code slug = record { code = code; slug = codes slug }

abbrev pub http : ℕ → String → HttpRow
http status slug = record { status = status; slug = codes slug }

-- The row of a sentinel in the table of the gRPC adapter; `internal` where it has none.
unfoldable pub grpc_row : Sentinel → GrpcRow
grpc_row Sentinel.err_not_found = grpc Code.not_found "not-found"
grpc_row Sentinel.err_id_conflict = grpc Code.already_exists "id-conflict"
grpc_row Sentinel.err_cycle = grpc Code.failed_precondition "cycle"
grpc_row Sentinel.err_cross_scope_edge = grpc Code.invalid_argument "cross-scope-edge"
grpc_row Sentinel.err_already_terminal = grpc Code.failed_precondition "already-terminal"
grpc_row Sentinel.err_node_in_flight = grpc Code.failed_precondition "node-in-flight"
grpc_row Sentinel.err_has_successors = grpc Code.failed_precondition "has-successors"
grpc_row Sentinel.err_lease_mismatch = grpc Code.aborted "lease-superseded"
grpc_row Sentinel.err_lease_expired = grpc Code.aborted "lease-expired"
grpc_row Sentinel.err_scope_sealed = grpc Code.failed_precondition "scope-sealed"
grpc_row Sentinel.err_payload_too_large = grpc Code.invalid_argument "payload-too-large"
grpc_row Sentinel.err_subscriber_lagged = grpc Code.aborted "subscriber-lagged"
grpc_row Sentinel.err_cursor_expired = grpc Code.out_of_range "cursor-expired"
grpc_row Sentinel.err_invalid_argument = grpc Code.invalid_argument "invalid-argument"
grpc_row Sentinel.err_invalid_config = grpc Code.invalid_argument "invalid-argument"
grpc_row Sentinel.err_unsupported = grpc Code.unimplemented "unsupported"
grpc_row Sentinel.err_closed = grpc Code.unavailable "shutting-down"
grpc_row Sentinel.err_nil_store = grpc Code.invalid_argument "invalid-argument"
grpc_row Sentinel.err_no_work = grpc Code.internal "internal"

-- The row of a sentinel in the table of the HTTP adapter; `internal` where it has none.
unfoldable pub http_row : Sentinel → HttpRow
http_row Sentinel.err_not_found = http 404 "not-found"
http_row Sentinel.err_id_conflict = http 409 "id-conflict"
http_row Sentinel.err_cycle = http 409 "cycle"
http_row Sentinel.err_cross_scope_edge = http 400 "cross-scope-edge"
http_row Sentinel.err_already_terminal = http 409 "already-terminal"
http_row Sentinel.err_node_in_flight = http 409 "node-in-flight"
http_row Sentinel.err_has_successors = http 409 "has-successors"
http_row Sentinel.err_lease_mismatch = http 409 "lease-superseded"
http_row Sentinel.err_lease_expired = http 409 "lease-expired"
http_row Sentinel.err_scope_sealed = http 409 "scope-sealed"
http_row Sentinel.err_payload_too_large = http 413 "payload-too-large"
http_row Sentinel.err_subscriber_lagged = http 409 "subscriber-lagged"
http_row Sentinel.err_cursor_expired = http 410 "cursor-expired"
http_row Sentinel.err_invalid_argument = http 400 "invalid-argument"
http_row Sentinel.err_invalid_config = http 400 "invalid-argument"
http_row Sentinel.err_unsupported = http 501 "unsupported"
http_row Sentinel.err_closed = http 503 "shutting-down"
http_row Sentinel.err_nil_store = http 500 "internal"
http_row Sentinel.err_no_work = http 500 "internal"

-- What reaches mapError: a context that ended, or an error of the Manager's or of the store's.
pub data Failure : Type 0 where
  canceled deadline_exceeded : Failure
  failed : Error → Failure

-- What the gRPC adapter answers with: a context's end is left to status.FromContextError of grpc-go,
-- and any other error is given a code and a reason.
pub data GrpcStatus : Type 0 where
  from_context : Failure → GrpcStatus
  with_reason : GrpcRow → GrpcStatus

-- mapError of either adapter: errors.Is follows the chain of Unwrap to the one sentinel at its end.
unfoldable pub grpc_error : Failure → GrpcStatus
unfolding grpc_row
grpc_error (Failure.failed e) = GrpcStatus.with_reason (grpc_row (unwrap e))
grpc_error ended = GrpcStatus.from_context ended

-- The table of the HTTP adapter has no row for a context's end.
unfoldable pub http_error : Failure → HttpRow
unfolding http_row
http_error (Failure.failed e) = http_row (unwrap e)
http_error ended = http 500 "internal"

-- The class of a status: whether the fault is the caller's.
unfoldable pub is_server_fault : Code → Bool
is_server_fault Code.unimplemented = true
is_server_fault Code.internal = true
is_server_fault Code.unavailable = true
is_server_fault _ = false

rows-agree :
    (s : Sentinel)
    → s ≢ Sentinel.err_nil_store
    → ((http_row s).slug ≡ (grpc_row s).slug)
      × (is_server_fault (grpc_row s).code ≡ leb 500 (http_row s).status)
unfolding grpc_row http_row is_server_fault
rows-agree Sentinel.err_nil_store d = absurd (d refl)
rows-agree Sentinel.err_not_found d = (refl, refl)
rows-agree Sentinel.err_id_conflict d = (refl, refl)
rows-agree Sentinel.err_cycle d = (refl, refl)
rows-agree Sentinel.err_cross_scope_edge d = (refl, refl)
rows-agree Sentinel.err_already_terminal d = (refl, refl)
rows-agree Sentinel.err_node_in_flight d = (refl, refl)
rows-agree Sentinel.err_has_successors d = (refl, refl)
rows-agree Sentinel.err_lease_mismatch d = (refl, refl)
rows-agree Sentinel.err_lease_expired d = (refl, refl)
rows-agree Sentinel.err_scope_sealed d = (refl, refl)
rows-agree Sentinel.err_payload_too_large d = (refl, refl)
rows-agree Sentinel.err_subscriber_lagged d = (refl, refl)
rows-agree Sentinel.err_cursor_expired d = (refl, refl)
rows-agree Sentinel.err_invalid_argument d = (refl, refl)
rows-agree Sentinel.err_invalid_config d = (refl, refl)
rows-agree Sentinel.err_unsupported d = (refl, refl)
rows-agree Sentinel.err_closed d = (refl, refl)
rows-agree Sentinel.err_no_work d = (refl, refl)

-- The answers of the adapters to a failure: the same slug, and the same side at fault; but where a
-- context ended, gRPC leaves it to the library and HTTP has an internal error.
unfoldable pub Agrees : HttpRow → GrpcStatus → Type 0
Agrees h (GrpcStatus.with_reason g) =
    (h.slug ≡ g.slug) × (is_server_fault g.code ≡ leb 500 h.status)
Agrees h (GrpcStatus.from_context c) = (h.status ≡ 500) × (h.slug ≡ codes "internal")

-- The HTTP and the gRPC adapter give every error, but one that wraps ErrNilStore and the end of a
-- context, the same problem slug, and agree on whether the fault is that of the server. The end of
-- a context, which gRPC leaves to the mapping of its own library, is an internal error over HTTP.
pub http_error-grpc_error :
    (f : Failure)
    → ((e : Error) → f ≡ Failure.failed e → unwrap e ≢ Sentinel.err_nil_store)
    → Agrees (http_error f) (grpc_error f)
unfolding grpc_error http_error Agrees
http_error-grpc_error Failure.canceled d = (refl, refl)
http_error-grpc_error Failure.deadline_exceeded d = (refl, refl)
http_error-grpc_error (Failure.failed e) d = rows-agree (unwrap e) (d e refl)
