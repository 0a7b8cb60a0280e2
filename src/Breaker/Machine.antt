-- ===== src/Breaker/Machine.antt =====
-- What the breaker (src/breaker.rs) promises over any history of reports and probes.
use kutsu.Base.{
  ℕ, zero, suc, ◌+◌, ◌≤◌, ◌<◌, ◌≡◌, refl, Bool, true, false, List, [], ◌∷◌, arith, ltb, ◌==◌,
  if◌then◌else◌, ◌≢◌, min, sat_add64, u32_max, u64_max,
}
use kutsu.Breaker.{
  Breaker, Decision, dispatch, probe, hold, new, decision, mark_probe_dispatched, on_result,
}

-- What happened to a breaker, newest first.
pub data Happening : Type 0 where
  report : Bool → ℕ → Happening
  probed : ℕ → ℕ → Happening

pub apply : Breaker → Happening → Breaker
apply b (report ok now) = on_result b ok now
apply b (probed now window) = mark_probe_dispatched b now window

module _ (threshold cooldown_ms : ℕ) where
  pub run : List Happening → Breaker
  run [] = new threshold cooldown_ms
  run (h ∷ hs) = apply (run hs) h

-- The failures reported since the last success.
unfoldable pub failures : List Happening → ℕ
failures [] = 0
failures (report true now ∷ hs) = 0
failures (report false now ∷ hs) = suc (failures hs)
failures (probed now window ∷ hs) = failures hs

-- When the last of those failures was reported.
unfoldable pub last_failure : List Happening → ℕ
last_failure [] = 0
last_failure (report ok now ∷ hs) = now
last_failure (probed now window ∷ hs) = last_failure hs

-- The end of the window of a probe that has not been answered by any report.
unfoldable pub awaited : List Happening → ℕ
awaited (probed now window ∷ hs) = sat_add64 now window
awaited _ = 0

-- The decision in terms of the history alone: closed below the threshold, then a cooldown from
-- the last failure, then one probe at a time.
unfoldable pub due : ℕ → ℕ → List Happening → ℕ → Decision
unfolding failures last_failure awaited
due threshold cooldown_ms hs now =
    let until = sat_add64 (last_failure hs) cooldown_ms in
    if threshold == 0
    then dispatch
    else if ltb (failures hs) threshold
    then dispatch
    else if until == 0
    then dispatch
    else if ltb now until
    then hold until
    else if ltb now (awaited hs)
    then hold (awaited hs)
    else probe

record Tracks (threshold cooldown_ms : ℕ) (hs : List Happening) (b : Breaker) : Type 0 where
  same_threshold : b.threshold ≡ threshold
  same_cooldown : b.cooldown_ms ≡ cooldown_ms
  counted : b.consec_failures ≡ min (failures hs) u32_max
  opened :
      b.open_until_ms
      ≡ (if ltb (failures hs) threshold then 0 else sat_add64 (last_failure hs) cooldown_ms)
  in_flight : (if b.probe_in_flight then b.probe_deadline_ms else 0) ≡ awaited hs

Tracks-apply :
    (threshold cooldown_ms : ℕ) (hs : List Happening) (h : Happening) (b : Breaker)
    → 0 < threshold
    → threshold ≤ u32_max
    → Tracks threshold cooldown_ms hs b
    → Tracks threshold cooldown_ms (h ∷ hs) (apply b h)
unfolding apply on_result mark_probe_dispatched failures last_failure awaited
Tracks-apply threshold cooldown_ms hs (report true now) b pos fits t = ground arith
Tracks-apply threshold cooldown_ms hs (report false now) b pos fits t = ground arith
Tracks-apply threshold cooldown_ms hs (probed now window) b pos fits t = ground arith

run-Tracks :
    (threshold cooldown_ms : ℕ) (hs : List Happening)
    → 0 < threshold
    → threshold ≤ u32_max
    → Tracks threshold cooldown_ms hs (run threshold cooldown_ms hs)
unfolding run new failures last_failure awaited
run-Tracks threshold cooldown_ms [] pos fits = ground arith
run-Tracks threshold cooldown_ms (h ∷ hs) pos fits =
    Tracks-apply threshold cooldown_ms hs h (run threshold cooldown_ms hs) pos fits
      (run-Tracks threshold cooldown_ms hs pos fits)

threshold-run : (cooldown_ms : ℕ) (hs : List Happening) → (run 0 cooldown_ms hs).threshold ≡ 0
unfolding run new apply on_result mark_probe_dispatched
threshold-run cooldown_ms [] = refl
threshold-run cooldown_ms (report ok now ∷ hs) = ground (arith, threshold-run cooldown_ms hs)
threshold-run cooldown_ms (probed now window ∷ hs) = threshold-run cooldown_ms hs

decision-Tracks :
    (threshold cooldown_ms : ℕ) (hs : List Happening) (b : Breaker) (now : ℕ)
    → 0 < threshold
    → Tracks threshold cooldown_ms hs b
    → decision b now ≡ due threshold cooldown_ms hs now
unfolding decision due
decision-Tracks threshold cooldown_ms hs b now pos t = ground arith

-- After any history of reports and probes, for any threshold that a u32 holds, the decision is
-- the one that the history determines: dispatch below the threshold (always, at threshold 0),
-- then hold for the cooldown after the last failure, then probe, then hold for an unanswered
-- probe's window.
pub decision-run :
    (threshold cooldown_ms : ℕ) (hs : List Happening) (now : ℕ)
    → threshold ≤ u32_max
    → decision (run threshold cooldown_ms hs) now ≡ due threshold cooldown_ms hs now
unfolding decision due
decision-run zero cooldown_ms hs now fits = ground (arith, threshold-run cooldown_ms hs)
decision-run (suc t) cooldown_ms hs now fits =
    decision-Tracks (suc t) cooldown_ms hs (run (suc t) cooldown_ms hs) now (omega arith)
      (run-Tracks (suc t) cooldown_ms hs (omega arith) fits)

-- Once a probe is let out and marked, every later decision before the end of its window (no
-- report having come in) is to hold until then: a second probe is never let out beside it.
pub single_probe :
    (b : Breaker) (now window_ms later : ℕ)
    → decision b now ≡ probe
    → now ≤ later
    → later < now + window_ms
    → now + window_ms ≤ u64_max
    → decision (mark_probe_dispatched b now window_ms) later ≡ hold (now + window_ms)
unfolding decision mark_probe_dispatched
single_probe b now window_ms later e le lt fits = ground arith

-- The breaker never blocks for good: at and after both of its deadlines it holds nothing back,
-- whether or not the probe was ever answered.
pub decision_released :
    (b : Breaker) (now until : ℕ)
    → b.open_until_ms ≤ now
    → b.probe_deadline_ms ≤ now
    → decision b now ≢ hold until
unfolding decision
decision_released b now until h k e = ground arith
