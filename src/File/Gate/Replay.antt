-- ===== src/File/Gate/Replay.antt =====
-- nondeterminism.go: a command replayed over what was recorded of it.
use mathlib.Core.List.{append_assoc, append-nil}
use dagworker.Base.{
  ℕ, suc, ◌≡◌, refl, sym, ap, ◌∙◌, true, false, none, some, List, [], ◌∷◌, ◌++◌, arith,
}
use dagworker.File.Gate.{
  Prog, IsRecorded, Readings, no_readings, Live, Gate, feed, drifted, begin, finish, now, draw, run,
}

-- What a live run leaves of the recording that it found, and how a replay over the rest of it goes.
record Faithful {A : Type 0} (live : Live) (p : Prog A) (g : Gate) (r : Readings) : Type 0 where
  clock_used : List ℕ
  jitter_used : List ℕ
  recorded :
      (run live p g).0.cur
      ≡ some (record { clock = r.clock ++ clock_used; jitter = r.jitter ++ jitter_used })
  still_live : (run live p g).0.replaying ≡ false
  replays :
      (source : Live) (k : Gate) (cs js : List ℕ)
      → k.replaying ≡ true
      → k.clock ≡ clock_used ++ cs
      → k.jitter ≡ jitter_used ++ js
      → ((run source p k).1 ≡ (run live p g).1)
        × ((run source p k).0.clock ≡ cs)
        × ((run source p k).0.jitter ≡ js)
        × ((run source p k).0.replaying ≡ true)
        × ((run source p k).0.exhausted ≡ k.exhausted)

-- One reading: recorded by a live gate, and taken off the front by a replaying one.
now-live :
    (live : Live) (g : Gate) (r : Readings)
    → g.replaying ≡ false
    → g.cur ≡ some r
    → now live g ≡ (
      record g {
        reads = suc g.reads;
        cur = some (record r { clock = r.clock ++ live.clock g.reads ∷ [] });
      },
      live.clock g.reads,
    )
unfolding now
now-live live g r l c = rw (l, c) refl

now-replay :
    (live : Live) (k : Gate) (t : ℕ) (rest : List ℕ)
    → k.replaying ≡ true
    → k.clock ≡ t ∷ rest
    → now live k ≡ (record k { last_clock = t; clock = rest }, t)
unfolding now
now-replay live k t rest l c = ground arith

draw-live :
    (live : Live) (n : ℕ) (g : Gate) (r : Readings)
    → g.replaying ≡ false
    → g.cur ≡ some r
    → draw live n g ≡ (
      record g {
        draws = suc g.draws;
        cur = some (record r { jitter = r.jitter ++ live.jitter g.draws n ∷ [] });
      },
      live.jitter g.draws n,
    )
unfolding draw
draw-live live n g r l c = rw (l, c) refl

draw-replay :
    (live : Live) (n : ℕ) (k : Gate) (v : ℕ) (rest : List ℕ)
    → k.replaying ≡ true
    → k.jitter ≡ v ∷ rest
    → draw live n k ≡ (record k { jitter = rest }, v)
unfolding draw
draw-replay live n k v rest l c = ground arith

run-Faithful :
    {A : Type 0} (live : Live) (p : Prog A) (g : Gate) (r : Readings)
    → IsRecorded p
    → g.replaying ≡ false
    → g.cur ≡ some r
    → Faithful live p g r
unfolding run IsRecorded
run-Faithful live (Prog.pick q) g r w l c = absurd w
run-Faithful live (Prog.done a) g r w l c = record {
  clock_used = [];
  jitter_used = [];
  recorded = rw (append-nil r.clock, append-nil r.jitter) c;
  still_live = l;
  replays = λ source k cs js t e f. (refl, e, f, t, refl);
}
run-Faithful {A} live (Prog.ask_clock q) g r w l c =
    let t = live.clock g.reads in
    let r' = record r { clock = r.clock ++ t ∷ [] } in
    let g' : Gate = record g { reads = suc g.reads; cur = some r' } in
    let step : run live (Prog.ask_clock q) g ≡ run live (q t) g' =
      ap (λ (s : Gate × ℕ). run live (q s.1) s.0) (now-live live g r l c) in
    let ih = run-Faithful live (q t) g' r' (w t) l refl in
    record {
      clock_used = t ∷ ih.clock_used;
      jitter_used = ih.jitter_used;
      recorded =
          ap (λ (s : Gate × A). s.0.cur) step
          ∙ ih.recorded
          ∙ ap (λ cs. some (record { clock = cs; jitter = r.jitter ++ ih.jitter_used }))
              (append_assoc r.clock (t ∷ []) ih.clock_used);
      still_live = ap (λ (s : Gate × A). s.0.replaying) step ∙ ih.still_live;
      replays = λ source k cs js e f h.
          let k' : Gate = record k { last_clock = t; clock = ih.clock_used ++ cs } in
          let again : run source (Prog.ask_clock q) k ≡ run source (q t) k' =
            ap (λ (s : Gate × ℕ). run source (q s.1) s.0)
              (now-replay source k t (ih.clock_used ++ cs) e f) in
          let (same, c', j', on, dry) = ih.replays source k' cs js e refl h in
          (
            ap (λ (s : Gate × A). s.1) again ∙ same ∙ ap (λ (s : Gate × A). s.1) (sym step),
            ap (λ (s : Gate × A). s.0.clock) again ∙ c',
            ap (λ (s : Gate × A). s.0.jitter) again ∙ j',
            ap (λ (s : Gate × A). s.0.replaying) again ∙ on,
            ap (λ (s : Gate × A). s.0.exhausted) again ∙ dry,
          );
    }
run-Faithful {A} live (Prog.ask_jitter n q) g r w l c =
    let v = live.jitter g.draws n in
    let r' = record r { jitter = r.jitter ++ v ∷ [] } in
    let g' : Gate = record g { draws = suc g.draws; cur = some r' } in
    let step : run live (Prog.ask_jitter n q) g ≡ run live (q v) g' =
      ap (λ (s : Gate × ℕ). run live (q s.1) s.0) (draw-live live n g r l c) in
    let ih = run-Faithful live (q v) g' r' (w v) l refl in
    record {
      clock_used = ih.clock_used;
      jitter_used = v ∷ ih.jitter_used;
      recorded =
          ap (λ (s : Gate × A). s.0.cur) step
          ∙ ih.recorded
          ∙ ap (λ js. some (record { clock = r.clock ++ ih.clock_used; jitter = js }))
              (append_assoc r.jitter (v ∷ []) ih.jitter_used);
      still_live = ap (λ (s : Gate × A). s.0.replaying) step ∙ ih.still_live;
      replays = λ source k cs js e f h.
          let k' : Gate = record k { jitter = ih.jitter_used ++ js } in
          let again : run source (Prog.ask_jitter n q) k ≡ run source (q v) k' =
            ap (λ (s : Gate × ℕ). run source (q s.1) s.0)
              (draw-replay source n k v (ih.jitter_used ++ js) e h) in
          let (same, c', j', on, dry) = ih.replays source k' cs js e f refl in
          (
            ap (λ (s : Gate × A). s.1) again ∙ same ∙ ap (λ (s : Gate × A). s.1) (sym step),
            ap (λ (s : Gate × A). s.0.clock) again ∙ c',
            ap (λ (s : Gate × A). s.0.jitter) again ∙ j',
            ap (λ (s : Gate × A). s.0.replaying) again ∙ on,
            ap (λ (s : Gate × A). s.0.exhausted) again ∙ dry,
          );
    }

-- A command run between begin and finish: its answer, and its readings.
unfoldable pub recorded_run : {A : Type 0} → Live → Prog A → Gate → Gate × A × Readings
recorded_run live p g = let (g1, a) = run live p (begin g) in let (g2, r) = finish g1 in (g2, a, r)

-- A command replayed over its readings.
unfoldable pub replayed_run : {A : Type 0} → Live → Readings → Prog A → Gate → Gate × A
replayed_run source r p k = run source p (feed r k)

finish-cur : (g : Gate) (r : Readings) → g.cur ≡ some r → finish g ≡ (record g { cur = none }, r)
unfolding finish
finish-cur g r c = rw (c, finish) refl

-- A command that does not depend on the order of a map, replayed over the readings that a live run
-- of it recorded, gives the same answer and state, uses up those readings and no more, and is not
-- reported as drifted, whatever the clock and the jitter behind the replaying gate.
pub replayed_run-recorded_run :
    {A : Type 0} (live source : Live) (p : Prog A) (g k : Gate)
    → IsRecorded p
    → g.replaying ≡ false
    → k.replaying ≡ true
    → let (g', a, r) = recorded_run live p g in
      let (k', b) = replayed_run source r p k in
      (b ≡ a)
      × (drifted k' ≡ false)
      × (k'.clock ≡ [])
      × (k'.jitter ≡ [])
      × (k'.replaying ≡ true)
      × (g'.replaying ≡ false)
unfolding recorded_run replayed_run begin feed drifted
replayed_run-recorded_run {A} live source p g k w l t =
    let g1 = (run live p (begin g)).0 in
    let f = run-Faithful live p (begin g) no_readings w l refl in
    let r : Readings = record { clock = f.clock_used; jitter = f.jitter_used } in
    let ended = finish-cur g1 r f.recorded in
    let readings : (finish g1).1 ≡ r = ap (λ (q : Gate × Readings). q.1) ended in
    let still : (finish g1).0.replaying ≡ false =
      ap (λ (q : Gate × Readings). q.0.replaying) ended ∙ f.still_live in
    let (same, c, j, on, dry) =
      f.replays source (feed r k) [] [] t (sym (append-nil f.clock_used))
        (sym (append-nil f.jitter_used)) in
    rw readings (same, dry, c, j, on, still)
