-- ===== src/Examples/Audio.antt =====
-- The audio path and the orchestration loop, at concrete inputs.
use kutsu.Base.{
  ℕ, ◌+◌, ◌*◌, ◌/◌, ◌%◌, ◌≡◌, refl, true, false, some, List, [], ◌∷◌, map, arith, if◌then◌else◌,
  ltb, leb,
}
use kutsu.Disposition.{ascii}
use kutsu.Store.{user}
use kutsu.Uplink.{UplinkQuality, snapshot}
use kutsu.Uplink
use kutsu.Uplink.Missing.{snapshot-missing}
use kutsu.G711.{ulaw, encode, decode}
use kutsu.G711.Codes.{encode-decode}
use kutsu.Pace.{
  Audio, Downlink, new_downsampler, process, push, next_frame, interrupt_fade, pending,
}
use kutsu.Pace
use kutsu.Pace.Tail.{frames, held_tail}
use kutsu.Engine.Gates.{Float}
use kutsu.Engine.Loop.{
  LoopConfig, LoopState, Event, transcript_event, sip_event, on_sip, on_hangup, terminated,
  turn_complete_event, start, step, hung_up, bridge_done, phone_closed, bridge_cancelled,
}
use kutsu.Engine.Loop
use kutsu.Bridge
use kutsu.Bridge.{GeminiEvent, Timed}
use kutsu.Bridge.Forwarding.{run-passed}
use kutsu.Engine.Loop.Harvested.{IsHarvest, run-IsHarvest}

-- The third packet is numbered before the first, so only one of the two missing ones is counted;
-- the numbers wrap.
snapshot-missing_example :
    snapshot (Uplink.run Uplink.new (map (λ n. n % 65536) (65535 ∷ 65538 ∷ 65534 ∷ [])))
    ≡ record { received = 3; lost = 1; reordered = 1 }
snapshot-missing_example = snapshot-missing 65535 (65538 ∷ 65534 ∷ []) (ground arith) (ground arith)

-- Samples are numbers, the filter takes the newest of its window, the fade is a cut.
unfoldable newest : List ℕ → ℕ
newest [] = 0
newest (x ∷ []) = x
newest (x ∷ y ∷ xs) = newest (y ∷ xs)

abbrev audio : Audio
audio = record {
  Sample = ℕ;
  silence = 0;
  fir = newest;
  fade = λ i n s. if leb n (i + i) then 0 else s;
}

-- Two samples are left of a turn.
abbrev rest : Downlink audio
rest = push audio (Pace.new audio 60 40) (1 ∷ 2 ∷ [])

held_tail_example :
    ((frames audio 50 rest).buf ≡ rest.buf)
    × (pending audio (frames audio 50 rest) ≡ pending audio rest)
unfolding push Pace.new
held_tail_example = held_tail audio 50 rest (ground arith)

abbrev float : Float
float = record { F = ℕ; zero_pct = 0; percent = λ a b. a * 100 / b; exceeds = λ a b. ltb b a }

abbrev config : LoopConfig float ℕ
config = record {
  abort_underruns = 50;
  uplink_loss_abort_pct = 20;
  downlink_loss_abort_pct = 20;
  dead_air_nudge_ms = 5000;
  wrap_up_grace_ms = 4000;
}

-- The caller says something and hangs up.
abbrev spoken : List (ℕ × Event float ℕ)
spoken = (1000, transcript_event user (ascii "bye") true) ∷ (2000, sip_event terminated) ∷ []

run-IsHarvest_example :
    IsHarvest float ℕ config spoken (Loop.run float ℕ config (start float ℕ config 0) spoken).0
run-IsHarvest_example = run-IsHarvest float ℕ config 0 spoken

-- A hangup before any word.
abbrev hangup : Event float ℕ
hangup = sip_event terminated

encode-decode_example : encode ulaw (decode ulaw (0 ∷ 128 ∷ 255 ∷ [])) ≡ 0 ∷ 128 ∷ 255 ∷ []
encode-decode_example = encode-decode ulaw (0 ∷ 128 ∷ 255 ∷ []) (ground arith)

-- The phone goes while the model speaks; its last words and a goal still come in.
abbrev hung_up_mid_turn : List (Timed audio ℕ (map (λ n. n)))
hung_up_mid_turn =
    record {
      now = 0;
      muted = false;
      signal = Bridge.gemini (some (Bridge.output_audio (1 ∷ 2 ∷ [])));
    }
    ∷ record { now = 20; muted = false; signal = Bridge.tick true }
    ∷ record { now = 40; muted = false; signal = Bridge.tick false }
    ∷ record { now = 45; muted = false; signal = Bridge.uplink_ended }
    ∷ record { now = 50; muted = false; signal = Bridge.gemini (some Bridge.turn_complete) }
    ∷ record { now = 60; muted = false; signal = Bridge.gemini (some (Bridge.other 7)) }
    ∷ []

run-passed_example :
    (Bridge.run audio ℕ
      (map (λ n. n))
      (some 5000)
      (Bridge.start audio ℕ (map (λ n. n)) 60 40)
      hung_up_mid_turn).0.events_out
    ≡ Bridge.turn_complete ∷ Bridge.other 7 ∷ []
unfolding Bridge.run Bridge.start Bridge.step Bridge.on_gemini Bridge.on_audio Bridge.on_tick
    Bridge.phone_gone Bridge.forward
run-passed_example =
    run-passed audio ℕ (map (λ n. n)) (some 5000) (Bridge.start audio ℕ (map (λ n. n)) 60 40)
      hung_up_mid_turn refl

abbrev in_grace : Bridge.State audio ℕ (map (λ n. n))
in_grace = record (Bridge.start audio ℕ (map (λ n. n)) 60 40) {
  harvesting = true;
  grace_deadline = some 5000;
}
