-- ===== src/Examples/Scheduling.antt =====
-- The scheduler, the preflight, the breaker and the queue, at concrete inputs.
use kutsu.Base.{
  map, ℕ, ◌+◌, ◌-◌, ◌*◌, ◌/◌, ◌≡◌, ◌≢◌, ◌≤◌, min, refl, Bool, true, false, ◌||◌, none, some, inr,
  List, [], ◌∷◌, arith, if◌then◌else◌, ltb, ◌==◌, u64_max,
}
use kutsu.Base.Bytes.{bytes_eq, bytes_lt}
use kutsu.Disposition.{ascii}
use kutsu.Outcome.{CallOutcome}
use kutsu.Breaker.{hold, decision}
use kutsu.Breaker.Machine.{Happening, report, run, due, decision-run, decision_released}
use kutsu.Queue.{push, remove, find, pop_eligible, position, peek_next_eligible_at, before, key_lt}
use kutsu.Queue.Order.{IsSorted, queue-IsSorted}
use kutsu.Queue.Dispatch.{Pops, pop_eligible-Pops, pops, position-pops}
use kutsu.NetCheck.{Stats, NetworkHealth, NetCheckConfig, summarize, preflight_max_window_ms}
use kutsu.NetCheck.Probe.{Wire}
use kutsu.NetCheck.Window.{duration, window-covers, sum, sum_backoffs}
use kutsu.NetCheck.Spike.{summarize-spike, SameGate}
use kutsu.Engine.Gates.{is_some}
use kutsu.Engine.Loop.{LoopEnd}
use kutsu.Engine.RunCall.{
  Attempt, healthy, probe_error, Script, RetryConfig, terminated, failed_with, run_call,
  preflight_phase,
}
use kutsu.Engine.RunCall.Preflight.{Explained, phase-Explained}
use kutsu.Engine.RunCall.Settled.{IsSettled, told, run_call-IsSettled}
use kutsu.Engine.Scheduler.{
  same_task, Engine, Task, lookup, turn, drain, rounds, end_call, drop_task,
}
use kutsu.Engine.Scheduler.Slots.{
  is_owned, IsWithin, no_step, and_step, dispatcher_turns, Steps-IsWithin,
}
use kutsu.Engine.Scheduler.Cancelling.{end_call-told, orphaned}
use kutsu.Engine.Scheduler.Parking.{is_dispatched, drain-stops, rounds-spin}
use kutsu.Store.{CallState, get, ended_pairs, is_ended}
use kutsu.Examples.{call, quality, session, hub, waiting, later, breaker}

-- Arithmetic on whole percents, and the indices of the two percentiles.
abbrev pub stats : Stats
stats = record {
  F = ℕ;
  exceeds = λ a b. ltb b a;
  loss = λ lost total. lost * 100 / total;
  at50 = λ n. (n - 1) / 2;
  at95 = λ n. n - 1;
}

abbrev pub net_check : NetCheckConfig ℕ
net_check = record {
  enabled = true;
  samples = 3;
  warmup_pings = 1;
  max_rtt_ms = 300;
  max_jitter_ms = 50;
  max_loss_pct = 2;
  max_setup_ms = 2500;
  retry_max = 2;
  retry_backoff_base_ms = 100;
}

-- A socket on which nothing ever arrives.
abbrev silent : Wire
silent = record {
  connect_took = 4000;
  connects = true;
  sends = λ i. true;
  sends_setup = true;
  incoming = [];
}

window-covers_example :
    min
      (sum (map (duration stats net_check) ((silent, 100) ∷ (silent, 20000) ∷ []))
        + sum_backoffs 1 100)
      u64_max
    ≤ preflight_max_window_ms stats net_check
window-covers_example =
    window-covers stats net_check ((silent, 100) ∷ (silent, 20000) ∷ []) (ground arith)
      (ground arith) (ground arith) (ground arith)

summarize-spike_example :
    SameGate (summarize stats (40 ∷ 900 ∷ 45 ∷ []) 0 3) (summarize stats (40 ∷ 50 ∷ 45 ∷ []) 0 3)
summarize-spike_example =
    summarize-spike stats (40 ∷ []) (45 ∷ []) 900 50 0 3 (ground arith) (ground arith)
      (ground arith) (ground arith) (ground arith)

abbrev history : List Happening
history = report false 900 ∷ report false 800 ∷ report true 700 ∷ []

decision-run_example : decision (run 2 500 history) 1000 ≡ due 2 500 history 1000
decision-run_example = decision-run 2 500 history 1000 (ground arith)

decision_released_example : decision breaker 4000 ≢ hold 3000
decision_released_example = decision_released breaker 4000 3000 (ground arith) (ground arith)

queued_two : IsSorted (waiting ∷ later ∷ [])
unfolding before key_lt bytes_lt
queued_two = ground arith

queue-IsSorted_example :
    IsSorted (push (waiting ∷ later ∷ []) later)
    × IsSorted (pop_eligible (waiting ∷ later ∷ []) 2500).1
    × IsSorted (remove (waiting ∷ later ∷ []) (ascii "call-9")).1
queue-IsSorted_example =
    queue-IsSorted (waiting ∷ later ∷ []) later 2500 (ascii "call-9") queued_two

pop_eligible-Pops_example :
    Pops (waiting ∷ later ∷ []) 2500 (pop_eligible (waiting ∷ later ∷ []) 2500)
pop_eligible-Pops_example = pop_eligible-Pops (waiting ∷ later ∷ []) 2500 queued_two

position-pops_example :
    ((pop_eligible (pops 1 (waiting ∷ later ∷ []) 9500) 9500).0
      ≡ find (waiting ∷ later ∷ []) (ascii "call-9"))
    × (find (waiting ∷ later ∷ []) (ascii "call-9") ≢ none)
unfolding position bytes_eq
position-pops_example =
    position-pops 1 (waiting ∷ later ∷ []) (ascii "call-9") 9500 refl (ground arith)

abbrev health : NetworkHealth ℕ
health = record {
  rtt_p50_ms = 40;
  rtt_p95_ms = 120;
  rtt_p95_raw_ms = 120;
  jitter_ms = 15;
  loss_pct = 0;
  connect_ms = 100;
  setup_ms = 200;
}

-- The first probe fails and the second is healthy.
abbrev probes : ℕ → Attempt ℕ × Bool
probes n = if n == 1 then (probe_error (ascii "refused"), false) else (healthy health, false)

-- A call that is answered busy.
abbrev busy_script : Script ℕ ℕ
busy_script = record {
  probes = probes;
  invite_error = none;
  connect_error = none;
  ring = terminated (failed_with CallOutcome.busy (ascii "486"));
  conversation = record {
    end_state = LoopEnd.completed;
    goal = none;
    abort_reason = none;
    session = session;
    last_quality = quality;
  };
  reported_at = 3100;
  requeued_at = 3200;
  answered_at = 3300;
  duration_at = 9000;
  ended_at = 9100;
}

abbrev retry : RetryConfig
retry = record { busy_max_attempts = 3; busy_retry_interval_ms = 60000 }

run_call-IsSettled_example :
    IsSettled retry busy_script
      (told hub 3100 true (preflight_phase stats (λ h. []) net_check probes))
      (ascii "call-0")
      (ascii "100")
      0
      1
      (run_call stats
        (λ h. [])
        (λ v. none)
        net_check
        retry
        busy_script
        hub
        (ascii "call-0")
        (ascii "100")
        0
        1)
unfolding get bytes_eq ended_pairs is_ended
run_call-IsSettled_example =
    run_call-IsSettled stats (λ h. []) (λ v. none) net_check retry busy_script hub (ascii "call-0")
      (ascii "100") 0 1 (call (ascii "call-0") CallState.in_progress)
      (record { here = refl; room = inr (ground arith) })

phase-Explained_example :
    Explained stats
      (λ h. [])
      net_check
      probes
      1
      1
      (preflight_phase stats (λ h. []) net_check probes)
phase-Explained_example = phase-Explained stats (λ h. []) net_check probes

-- One call runs, registered under its channel.
abbrev first_attempt : Task ℕ
first_attempt = record { channel = 0; entry = record waiting { call_id = ascii "call-0" } }

abbrev second_attempt : Task ℕ
second_attempt = record {
  channel = 1;
  entry = record waiting { call_id = ascii "call-0"; attempt = 2 };
}

abbrev pub engine : Engine ℕ ℕ ℕ
engine = record {
  hub = hub;
  running = 1;
  cancels = (ascii "call-0", 0) ∷ [];
  channels = 1;
  signalled = [];
  abandoned = [];
  tasks = first_attempt ∷ [];
}

-- The call's next attempt has started while the task of the first is still ending.
abbrev overlapping : Engine ℕ ℕ ℕ
overlapping = record engine {
  running = 2;
  cancels = (ascii "call-0", 1) ∷ [];
  channels = 2;
  tasks = second_attempt ∷ first_attempt ∷ [];
}

engine-IsWithin : IsWithin 2 engine
unfolding is_owned same_task bytes_eq
engine-IsWithin = record { slots = refl; capped = ground arith; owned = ground arith }

Steps-IsWithin_example : IsWithin 2 (turn 2 1000 engine 2500).0
Steps-IsWithin_example =
    Steps-IsWithin 2 engine (turn 2 1000 engine 2500).0 engine-IsWithin
      (and_step no_step (dispatcher_turns 1000 2500))

end_call-told_example :
    (end_call engine (ascii "call-0") 5000).1
    ≡ is_some (find engine.hub.queue (ascii "call-0"))
      || is_some (lookup engine.cancels (ascii "call-0"))
end_call-told_example = end_call-told 2 engine (ascii "call-0") 5000 engine-IsWithin

orphaned_example :
    (is_owned (drop_task overlapping first_attempt).tasks (ascii "call-0") 1 ≡ true)
    × ((drop_task overlapping first_attempt).abandoned ≡ 1 ∷ [])
    × ((drop_task overlapping first_attempt).signalled ≡ [])
    × ((end_call (drop_task overlapping first_attempt) (ascii "call-0") 5000).1 ≡ false)
unfolding find bytes_eq is_owned same_task lookup
orphaned_example =
    orphaned overlapping (ascii "call-0") 5000 first_attempt second_attempt refl refl
      (λ h. ground arith) refl refl refl

drain-stops_example : is_dispatched (turn 2 1000 (drain 2 1000 3 engine 2500).0 2500).1 ≡ false
drain-stops_example = drain-stops 2 1000 2500 3 engine (ground arith)

rounds-spin_example :
    rounds 2 1000 3 engine (2000 ∷ 2000 ∷ 2999 ∷ []) ≡ (engine, some 0 ∷ some 0 ∷ some 0 ∷ [])
unfolding peek_next_eligible_at decision
rounds-spin_example =
    rounds-spin 2 1000 2 2000 3000 engine 2000 (2000 ∷ 2000 ∷ 2999 ∷ []) (ground arith) refl
      (ground arith) refl (ground arith)
