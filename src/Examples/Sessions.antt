-- ===== src/Examples/Sessions.antt =====
-- The Gemini driver and the voice detector, at concrete inputs.
use kutsu.Base.{ℕ, ◌+◌, ◌*◌, ◌/◌, max, true, false, some, List, [], ◌∷◌, leb}
use kutsu.Disposition.{ascii}
use kutsu.Store.{user, model}
use kutsu.Vad.{Energy, VadConfig}
use kutsu.Gemini.{empty, flush}
use kutsu.Gemini.Driver.{
  Config, Driver, Timed, start, answered_changed, greet_due, tool_call, model_turn_complete,
  hung_up, frame_arrives, frame_ready,
}
use kutsu.Gemini.Driver
use kutsu.Gemini.Answered.{IsGreeting, run-IsGreeting}
use kutsu.Gemini.Ending.{EndsWith, goal_of, run-EndsWith}
use kutsu.Gemini.Turns.{Deltas, accumulate, IsTurn, flush-IsTurn}

-- The level of a frame is its first sample; everything is whole numbers.
unfoldable first : List ℕ → ℕ
first [] = 0
first (x ∷ xs) = x

abbrev energy : Energy
energy = record {
  F = ℕ;
  Sample = ℕ;
  zero_level = 0;
  rms = first;
  times = λ a b. a * b;
  larger = max;
  at_least = λ a b. leb b a;
  track = λ a b. (a * 9 + b) / 10;
}

abbrev vad_config : VadConfig energy
vad_config = record { min_rms = 200; ratio = 3; onset_frames = 2; warmup_frames = 10 }

abbrev config : Config energy ℕ
config = record { greet_after_silence_ms = 1500; vad = vad_config }

-- The call is answered, the callee is silent and is greeted, the model ends the call.
abbrev greeted : List (Timed energy ℕ)
greeted =
    record { now = 1000; elapsed_ms = 1000; ok = true; signal = answered_changed (some true) }
    ∷ record { now = 2500; elapsed_ms = 2500; ok = true; signal = greet_due }
    ∷ record {
      now = 9000;
      elapsed_ms = 9000;
      ok = true;
      signal = tool_call (ascii "end_call") (ascii "1") 7;
    }
    ∷ record {
      now = 9100;
      elapsed_ms = 9100;
      ok = true;
      signal = tool_call (ascii "end_call") (ascii "2") 8;
    }
    ∷ record { now = 9500; elapsed_ms = 9500; ok = true; signal = model_turn_complete }
    ∷ []

run-IsGreeting_example :
    IsGreeting energy ℕ config false greeted
      (Driver.run energy ℕ config (start energy ℕ config false 0) greeted).0.sent
run-IsGreeting_example = run-IsGreeting energy ℕ config false 0 greeted

run-EndsWith_example :
    EndsWith energy ℕ
      (goal_of energy ℕ (start energy ℕ config false 0).ending greeted)
      (Driver.run energy ℕ config (start energy ℕ config false 0) greeted).1
run-EndsWith_example = run-EndsWith energy ℕ config (start energy ℕ config false 0) greeted

-- The phone rings on, and the session hears its silence.
abbrev ringing : List (Timed energy ℕ)
ringing =
    record { now = 20; elapsed_ms = 20; ok = true; signal = frame_arrives (0 ∷ []) }
    ∷ record { now = 21; elapsed_ms = 21; ok = true; signal = frame_ready }
    ∷ record { now = 2500; elapsed_ms = 2500; ok = true; signal = greet_due }
    ∷ []

abbrev deltas : Deltas
deltas = (user, ascii " he") ∷ (model, ascii " ") ∷ (user, ascii "llo ") ∷ []

flush-IsTurn_example : IsTurn deltas 40 (flush (accumulate empty deltas) 40)
flush-IsTurn_example = flush-IsTurn deltas 40
