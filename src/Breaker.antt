-- ===== src/Breaker.antt =====
-- src/breaker.rs: the circuit breaker for the shared Gemini leg.
pub mod Machine
use kutsu.Base.{
  ℕ, suc, ◌+◌, ◌≤◌, ◌<◌, ◌≡◌, Bool, true, false, ◌&&◌, ltb, leb, ◌==◌, if◌then◌else◌, sat_add64,
  sat_add32,
}

-- `enum Decision`.
pub data Decision : Type 0 where
  dispatch : Decision
  probe : Decision
  hold : ℕ → Decision

-- `struct Breaker` with its `State`; `wake` is the number of permits handed to the dispatcher's
-- `Notify` (`notify_one` stores at most one).
pub record Breaker : Type 0 where
  pub threshold : ℕ
  pub cooldown_ms : ℕ
  pub consec_failures : ℕ
  pub open_until_ms : ℕ
  pub probe_in_flight : Bool
  pub probe_deadline_ms : ℕ
  pub wake : Bool

unfoldable pub new : ℕ → ℕ → Breaker
new threshold cooldown_ms = record {
  threshold = threshold;
  cooldown_ms = cooldown_ms;
  consec_failures = 0;
  open_until_ms = 0;
  probe_in_flight = false;
  probe_deadline_ms = 0;
  wake = false;
}

unfoldable pub decision : Breaker → ℕ → Decision
decision b now =
    if b.threshold == 0
    then dispatch
    else if b.open_until_ms == 0
    then dispatch
    else if ltb now b.open_until_ms
    then hold b.open_until_ms
    else if b.probe_in_flight && ltb now b.probe_deadline_ms
    then hold b.probe_deadline_ms
    else probe

unfoldable pub mark_probe_dispatched : Breaker → ℕ → ℕ → Breaker
mark_probe_dispatched b now window_ms = record b {
  probe_in_flight = true;
  probe_deadline_ms = sat_add64 now window_ms;
}

-- The failure arm of `on_result`.
on_failure : Breaker → ℕ → Breaker
on_failure b now =
    let counted = record b { consec_failures = sat_add32 b.consec_failures 1 } in
    if leb counted.threshold counted.consec_failures
    then record counted { open_until_ms = sat_add64 now b.cooldown_ms }
    else counted

unfoldable pub on_result : Breaker → Bool → ℕ → Breaker
unfolding on_failure
on_result b ok now =
    if b.threshold == 0
    then b
    else let idle = record b { probe_in_flight = false; wake = true } in
      if ok then record idle { consec_failures = 0; open_until_ms = 0 } else on_failure idle now
