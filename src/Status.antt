-- ===== src/Status.antt =====
-- status.go: the public status vocabulary, the reasons, the internal phases, and their text forms.
-- A Go value is a uint8; `unknown n` is the n-th value past the named ones.
pub mod RoundTrip
use Prim.Native.String.{String}
use dagworker.Base.{
  ℕ, ◌+◌, ◌≡◌, Bool, true, false, ◌++◌, [], ◌∷◌, Text, text_eq, codes, decimal_byte, if◌then◌else◌,
}
use dagworker.Errors.{Result, ok, err, invalid_argument_error}

pub data Status : Type 0 where
  new in_progress success error : Status
  unknown : ℕ → Status

pub data Reason : Type 0 where
  none worker_error timeout upstream_failed skipped cancelled removed : Reason
  unknown : ℕ → Reason

pub data Phase : Type 0 where
  blocked scheduled ready claimed done : Phase
  unknown : ℕ → Phase

-- Status.Terminal.
abbrev pub terminal : Status → Bool
terminal Status.success = true
terminal Status.error = true
terminal _ = false

-- Phase.Status.
unfoldable pub status_of : Phase → Status
status_of Phase.blocked = Status.new
status_of Phase.scheduled = Status.new
status_of Phase.ready = Status.new
status_of Phase.claimed = Status.in_progress
status_of _ = Status.error

-- The default branch of the String methods.
abbrev numbered : String → ℕ → Text
numbered name n = codes name ++ b'(' ∷ decimal_byte n ++ b')' ∷ []

pub status_string : Status → Text
status_string Status.new = codes "new"
status_string Status.in_progress = codes "in_progress"
status_string Status.success = codes "success"
status_string Status.error = codes "error"
status_string (Status.unknown n) = numbered "status" (4 + n)

pub status_marshal : Status → Result Text
status_marshal (Status.unknown n) = err (invalid_argument_error "status")
status_marshal s = ok (status_string s)

pub status_unmarshal : Text → Result Status
status_unmarshal text =
    if text_eq text (codes "new")
    then ok Status.new
    else if text_eq text (codes "in_progress")
    then ok Status.in_progress
    else if text_eq text (codes "success")
    then ok Status.success
    else if text_eq text (codes "error")
    then ok Status.error
    else err (invalid_argument_error "status")

pub reason_string : Reason → Text
reason_string Reason.none = codes "none"
reason_string Reason.worker_error = codes "worker_error"
reason_string Reason.timeout = codes "timeout"
reason_string Reason.upstream_failed = codes "upstream_failed"
reason_string Reason.skipped = codes "skipped"
reason_string Reason.cancelled = codes "cancelled"
reason_string Reason.removed = codes "removed"
reason_string (Reason.unknown n) = numbered "reason" (7 + n)

pub reason_marshal : Reason → Result Text
reason_marshal (Reason.unknown n) = err (invalid_argument_error "reason")
reason_marshal r = ok (reason_string r)

pub reason_unmarshal : Text → Result Reason
reason_unmarshal text =
    if text_eq text (codes "none")
    then ok Reason.none
    else if text_eq text (codes "worker_error")
    then ok Reason.worker_error
    else if text_eq text (codes "timeout")
    then ok Reason.timeout
    else if text_eq text (codes "upstream_failed")
    then ok Reason.upstream_failed
    else if text_eq text (codes "skipped")
    then ok Reason.skipped
    else if text_eq text (codes "cancelled")
    then ok Reason.cancelled
    else if text_eq text (codes "removed")
    then ok Reason.removed
    else err (invalid_argument_error "reason")

unfoldable pub phase_string : Phase → Text
phase_string Phase.blocked = codes "blocked"
phase_string Phase.scheduled = codes "scheduled"
phase_string Phase.ready = codes "ready"
phase_string Phase.claimed = codes "claimed"
phase_string Phase.done = codes "done"
phase_string (Phase.unknown n) = numbered "phase" (5 + n)
