-- ===== src/Memory/Retention.antt =====
-- storage/memory/watch.go: the window of the event log that a scope retains.
use dagworker.Base.{
  ℕ, zero, suc, ◌+◌, ◌-◌, ◌*◌, ◌^◌, ◌<◌, ◌≤◌, ◌≡◌, refl, false, some, List, [], ◌∷◌, ◌++◌, arith,
  length, drop, length-append, length-drop, Bool-cases, inl, inr, leb, inc64, ◌∙◌, sym, subst, ltb,
}
use dagworker.Status.{Status}
use dagworker.Event.{Event, EventKind, Effect}
use dagworker.Memory.State.{Env, Scope}
use dagworker.Memory.Log.{compact, append_log, record_effect, pump_batch, event_of}

-- Events at consecutive cursors, from a first one on.
abbrev pub Numbered : ℕ → List Event → Type 0
Numbered n [] = Unit
Numbered n (ev ∷ log) = (ev.cursor ≡ n) × Numbered (suc n) log

-- The log holds the events at consecutive cursors up to the scope's own, and stays below twice its
-- target.
pub record IsRetained (s : Scope) : Type 0 where
  pub contiguous : s.log_start + length s.log ≡ s.cursor + 1
  pub numbered : Numbered s.log_start s.log
  pub bounded : length s.log < 2 * s.log_cap

Numbered-append :
    (n : ℕ) (log : List Event) (ev : Event)
    → Numbered n log
    → ev.cursor ≡ n + length log
    → Numbered n (log ++ ev ∷ [])
Numbered-append n [] ev t e = (omega arith, _)
Numbered-append n (x ∷ log) ev (e, t) last = (e, Numbered-append (suc n) log ev t (omega arith))

Numbered-drop :
    (k n : ℕ) (log : List Event) → k ≤ length log → Numbered n log → Numbered (n + k) (drop k log)
Numbered-drop zero n log h t = subst (λ m. Numbered m log) (omega arith) t
Numbered-drop (suc k) n [] h t = absurd (omega arith)
Numbered-drop (suc k) n (x ∷ log) h (e, t) =
    subst (λ m. Numbered m (drop k log)) (omega arith) (Numbered-drop k (suc n) log (omega arith) t)

compact-IsRetained :
    (s : Scope)
    → 1 ≤ s.log_cap
    → s.cursor + 1 < 2 ^ 64
    → s.log_start + length s.log ≡ s.cursor + 1
    → Numbered s.log_start s.log
    → length s.log ≤ 2 * s.log_cap
    → IsRetained (compact s)
compact-IsRetained s target room fits numbers small =
    let excess = length s.log - s.log_cap in
    let cut = length-drop excess s.log in
    elim (Bool-cases (leb (2 * s.log_cap) (length s.log))) [
      | inl full ↦ rw full (record {
        contiguous = ground (arith, cut);
        numbered =
            subst (λ m. Numbered m (drop excess s.log)) (ground arith)
              (Numbered-drop excess s.log_start s.log (omega arith) numbers);
        bounded = ground (arith, cut);
      })
      | inr free ↦
          rw free (record { contiguous = fits; numbered = numbers; bounded = ground arith })
    ]

compact-cursor : (s : Scope) → (compact s).cursor ≡ s.cursor
compact-cursor s = elim (Bool-cases (leb (2 * s.log_cap) (length s.log))) [
  | inl full ↦ rw full refl
  | inr free ↦ rw free refl
]

append_log-IsRetained :
    (ef : Effect) (s : Scope)
    → 1 ≤ s.log_cap
    → s.cursor + 1 < 2 ^ 64
    → s.log_start + length s.log ≡ s.cursor
    → Numbered s.log_start s.log
    → ef.cursor ≡ s.cursor
    → length s.log < 2 * s.log_cap
    → IsRetained (append_log ef s) × ((append_log ef s).cursor ≡ s.cursor)
unfolding append_log
append_log-IsRetained ef s target room fits numbers stamp small =
    let ev = event_of s.name ef in
    let grown = length-append s.log (ev ∷ []) in
    let t = record s { log = s.log ++ ev ∷ [] } in
    let kept =
      compact-IsRetained t target room (omega (arith, grown, fits))
        (Numbered-append s.log_start s.log ev numbers (stamp ∙ sym fits))
        (omega (arith, grown, small)) in
    (
      record { contiguous = kept.contiguous; numbered = kept.numbered; bounded = kept.bounded },
      compact-cursor t,
    )

-- Recording an event moves the cursor on by one and keeps the retained window: the log holds the
-- events at consecutive cursors up to the one of the scope and stays below twice its target, where
-- the target is positive and the cursor stays below the end of its 64 bits.
pub record_effect-IsRetained :
    (env : Env) (h : ℕ) (kind : EventKind) (from : Status) (s : Scope)
    → 1 ≤ s.log_cap
    → s.cursor + 2 < 2 ^ 64
    → IsRetained s
    → IsRetained (record_effect env h kind from s).0
      × ((record_effect env h kind from s).0.cursor ≡ s.cursor + 1)
unfolding record_effect
record_effect-IsRetained env h kind from s target room kept =
    let next : inc64 s.cursor ≡ s.cursor + 1 = omega arith in
    let (held, same) =
      append_log-IsRetained _ _ target (omega (arith, next)) (kept.contiguous ∙ sym next)
        kept.numbered refl kept.bounded in
    (held, same ∙ next)

-- At a cursor that has not fallen out of the retained window, up to that of the next event, a
-- subscription reads every event from its own cursor to that of the scope, in order and without a
-- gap, and goes on after the last of them.
pub pump_batch_complete :
    (next : ℕ) (s : Scope)
    → IsRetained s
    → s.cursor + 1 < 2 ^ 64
    → s.log_start ≤ next
    → next ≤ s.cursor + 1
    → (b : List Event) × (pump_batch next s ≡ some (b, s.cursor + 1))
      × Numbered next b
      × (next + length b ≡ s.cursor + 1)
unfolding pump_batch
pump_batch_complete next s kept room reached behind =
    let idx = next - s.log_start in
    let last : inc64 s.cursor ≡ s.cursor + 1 = omega arith in
    let inside : ltb next s.log_start ≡ false = ground arith in
    elim (Bool-cases (ltb idx (length s.log))) [
      | inl some_left ↦ (
        drop idx s.log,
        rw (inside, some_left, last) refl,
        subst (λ m. Numbered m (drop idx s.log)) (omega arith)
            (Numbered-drop idx s.log_start s.log (ground arith) kept.numbered),
        ground (arith, length-drop idx s.log),
      )
      | inr none_left ↦
          let end : next ≡ s.cursor + 1 = ground arith in
          ([], rw (inside, none_left, end) refl, _, ground arith)
    ]
