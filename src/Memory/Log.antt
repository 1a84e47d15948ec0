-- ===== src/Memory/Log.antt =====
-- storage/memory/watch.go: the event log, a bounded window over the scope's history, and what a
-- subscription reads from it. Sending to the subscriber's channel is not modelled.
use dagworker.Base.{
  ℕ, suc, ◌+◌, ◌-◌, ◌*◌, ◌%◌, ◌^◌, Bool, false, ltb, leb, Option, none, some, List, [], ◌∷◌, ◌++◌,
  if◌then◌else◌, Text, length, drop, is_empty, inc64,
}
use dagworker.Errors.{Result, ok, err, plain, err_unsupported, err_cursor_expired}
use dagworker.Status.{Status}
use dagworker.Event.{Event, EventKind, Effect}
use dagworker.Memory.State.{Env, Scope, put_rec, now, after_now}

abbrev pub event_of : Text → Effect → Event
event_of name ef = record {
  kind = ef.kind;
  scope = name;
  node_id = ef.node_id;
  seq = ef.seq;
  cursor = ef.cursor;
  from = ef.from;
  to = ef.to;
  reason = ef.reason;
  message = ef.message;
  attempt = ef.attempt;
  node_kind = ef.node_kind;
  at = ef.at;
  gap = false;
}

-- The shift that bounds the buffer, once it has grown to twice its target.
abbrev pub compact : Scope → Scope
compact s =
    let excess = length s.log - s.log_cap in
    if leb (2 * s.log_cap) (length s.log)
    then record s { log = drop excess s.log; log_start = (s.log_start + excess) % 2 ^ 64 }
    else s

unfoldable pub append_log : Effect → Scope → Scope
append_log ef s =
    let s' = compact (record s { log = s.log ++ event_of s.name ef ∷ [] }) in
    record s' { log_bell = suc s'.log_bell }

abbrev effect_of : ℕ → EventKind → Status → ℕ → Scope → Effect
effect_of h kind from at s =
    let r = s.recs h in
    record {
      node_id = r.id;
      kind = kind;
      from = from;
      to = r.status;
      reason = r.reason;
      message = r.message;
      attempt = r.attempt;
      node_kind = r.kind;
      seq = r.seq;
      cursor = s.cursor;
      at = at;
    }

-- Stamps a state change with a fresh sequence and a fresh cursor, and appends it to the log.
unfoldable pub record_effect : Env → ℕ → EventKind → Status → Scope → Scope × Effect
unfolding append_log
record_effect env h kind from s =
    let s1 = put_rec h (record (s.recs h) { seq = inc64 (s.recs h).seq }) s in
    let s2 = record s1 { cursor = inc64 s1.cursor } in
    let ef = effect_of h kind from (now env s2) s2 in (append_log ef (after_now s2), ef)

-- The state and the effects so far, which the callers thread through.
abbrev pub Progress : Type 0
Progress = Scope × List Effect

-- out = append(out, s.record(h, kind, from))
unfoldable pub emit : Env → ℕ → EventKind → Status → Progress → Progress
unfolding record_effect
emit env h kind from (s, out) =
    let (s', ef) = record_effect env h kind from s in (s', out ++ ef ∷ [])

pub record WatchRequest : Type 0 where
  pub scope : Text
  pub from : ℕ
  pub replay : Bool

-- The cursor that a subscription starts at.
unfoldable pub watch_start : WatchRequest → Scope → Result ℕ
watch_start req s =
    if is_empty req.scope
    then err (plain err_unsupported)
    else if ltb 0 req.from
    then (if ltb (inc64 req.from) s.log_start
        then err (plain err_cursor_expired)
        else ok (inc64 req.from))
    else if req.replay
    then ok s.log_start
    else ok (inc64 s.cursor)

-- One round of the pump at a cursor: `none` where it fell out of retention, and otherwise the
-- batch to send with the cursor to go on at.
unfoldable pub pump_batch : ℕ → Scope → Option (List Event × ℕ)
pump_batch next s =
    let idx = next - s.log_start in
    if ltb next s.log_start
    then none
    else if ltb idx (length s.log)
    then some (drop idx s.log, inc64 s.cursor)
    else some ([], next)
