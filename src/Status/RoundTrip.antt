-- ===== src/Status/RoundTrip.antt =====
-- status.go: MarshalText against UnmarshalText.
use dagworker.Base.{◌≡◌, ◌↔◌, Text, text_eq, text_eq_iff, codes, arith}
use dagworker.Errors.{ok, ok-injective}
use dagworker.Status.{
  Status, Reason, status_string, status_marshal, status_unmarshal, reason_string, reason_marshal,
  reason_unmarshal,
}

marshal-status :
    (text : Text) (s : Status) → status_unmarshal text ≡ ok s → status_marshal s ≡ ok text
unfolding status_unmarshal status_marshal status_string
marshal-status text s e = ground (
  arith,
  text_eq_iff text (codes "new"),
  text_eq_iff text (codes "in_progress"),
  text_eq_iff text (codes "success"),
  text_eq_iff text (codes "error"),
)

unmarshal-status :
    (text : Text) (s : Status) → status_marshal s ≡ ok text → status_unmarshal text ≡ ok s
unfolding status_unmarshal status_marshal status_string text_eq
unmarshal-status text (Status.unknown n) e = cc
unmarshal-status text Status.new e = rw (← ok-injective e)
unmarshal-status text Status.in_progress e = rw (← ok-injective e)
unmarshal-status text Status.success e = rw (← ok-injective e)
unmarshal-status text Status.error e = rw (← ok-injective e)

-- A text is read as a status exactly when that status is written as the text.
status_unmarshal_iff :
    (text : Text) (s : Status) → (status_unmarshal text ≡ ok s) ↔ (status_marshal s ≡ ok text)
status_unmarshal_iff text s = (marshal-status text s, unmarshal-status text s)

marshal-reason :
    (text : Text) (r : Reason) → reason_unmarshal text ≡ ok r → reason_marshal r ≡ ok text
unfolding reason_unmarshal reason_marshal reason_string
marshal-reason text r e = ground (
  arith,
  text_eq_iff text (codes "none"),
  text_eq_iff text (codes "worker_error"),
  text_eq_iff text (codes "timeout"),
  text_eq_iff text (codes "upstream_failed"),
  text_eq_iff text (codes "skipped"),
  text_eq_iff text (codes "cancelled"),
  text_eq_iff text (codes "removed"),
)

unmarshal-reason :
    (text : Text) (r : Reason) → reason_marshal r ≡ ok text → reason_unmarshal text ≡ ok r
unfolding reason_unmarshal reason_marshal reason_string text_eq
unmarshal-reason text (Reason.unknown n) e = cc
unmarshal-reason text Reason.none e = rw (← ok-injective e)
unmarshal-reason text Reason.worker_error e = rw (← ok-injective e)
unmarshal-reason text Reason.timeout e = rw (← ok-injective e)
unmarshal-reason text Reason.upstream_failed e = rw (← ok-injective e)
unmarshal-reason text Reason.skipped e = rw (← ok-injective e)
unmarshal-reason text Reason.cancelled e = rw (← ok-injective e)
unmarshal-reason text Reason.removed e = rw (← ok-injective e)

-- A text is read as a reason exactly when that reason is written as the text.
reason_unmarshal_iff :
    (text : Text) (r : Reason) → (reason_unmarshal text ≡ ok r) ↔ (reason_marshal r ≡ ok text)
reason_unmarshal_iff text r = (marshal-reason text r, unmarshal-reason text r)
