-- ===== src/Bridge.antt =====
-- src/bridge/mod.rs: `run`, the loop that bridges one call, one step for each arm of its `select!`.
-- What it only measures for the log, and its audio dumps, are left out; of the uplink task
-- (Listening) the loop sees that it has ended.
pub mod Forwarding
pub mod Quiet
pub mod Gain
pub mod Listening
use kutsu.Base.{
  ℕ, ◌+◌, ◌-◌, Bool, true, false, not, ◌&&◌, ◌||◌, Option, none, some, List, [], ◌∷◌, ◌++◌, ltb,
  leb, if◌then◌else◌,
}
use kutsu.Pace.{Audio, Downlink, push, interrupt_fade, set_expecting, pending, next_frame}
use kutsu.Pace
use kutsu.Engine.Gates.{is_some}
use kutsu.Engine.Loop.{BridgeEnd, phone_closed, gemini_closed, bridge_cancelled}

abbrev pub downlink_grace_ms : ℕ
downlink_grace_ms = 600

-- `a` is the audio and `X` what the events other than audio and turns carry; `encode` is
-- `g711::encode` with the call's codec.
module _ (a : Audio) (X : Type 0) (encode : List a.Sample → List ℕ) where
  open a use {Sample}

  pub data GeminiEvent : Type 0 where
    output_audio : List Sample → GeminiEvent
    interrupted turn_complete : GeminiEvent
    other : X → GeminiEvent

  -- The part of `QualityShared` that the loop publishes.
  pub record QualityShared : Type 0 where
    pub underruns : ℕ
    pub starved_ms : ℕ
    pub max_gap_ms : ℕ
    pub downlink_active : Bool

  -- The loop's variables, with what was forwarded to the engine and sent to the phone.
  pub record State : Type 0 where
    pub downlink : Downlink a
    pub last_audio : Option ℕ
    pub max_gap_ms : ℕ
    pub uplink_running : Bool
    pub harvesting : Bool
    pub grace_deadline : Option ℕ
    pub quality : QualityShared
    pub events_out : List GeminiEvent
    pub phone_out : List (List ℕ)

  -- What an arm of the `select!` gets: `tick` whether the send to the phone succeeds.
  pub data Signal : Type 0 where
    cancelled uplink_ended grace_elapsed : Signal
    gemini : Option GeminiEvent → Signal
    tick : Bool → Signal

  unfoldable pub start : ℕ → ℕ → State
  start prebuffer_ms resume_ms = record {
    downlink = Pace.new a prebuffer_ms resume_ms;
    last_audio = none;
    max_gap_ms = 0;
    uplink_running = true;
    harvesting = false;
    grace_deadline = none;
    quality = record { underruns = 0; starved_ms = 0; max_gap_ms = 0; downlink_active = false };
    events_out = [];
    phone_out = [];
  }

  -- An arm goes on with the loop or breaks it.
  abbrev pub Turn : Type 0
  Turn = State × Option BridgeEnd

  -- The phone is gone: the end, or the grace in which events are still forwarded.
  unfoldable pub phone_gone : Option ℕ → State → ℕ → Turn
  phone_gone none s now = (s, some phone_closed)
  phone_gone (some ms) s now =
      if s.harvesting
      then (s, none)
      else (record s { harvesting = true; grace_deadline = some (now + ms) }, none)

  abbrev pub gap_since : Option ℕ → ℕ → ℕ
  gap_since none now = 0
  gap_since (some prev) now = now - prev

  -- `muted` is the flag that the engine shares.
  unfoldable pub on_audio : State → ℕ → Bool → List Sample → State
  on_audio s now muted pcm24 =
      if s.harvesting || muted
      then s
      else (let gap = gap_since s.last_audio now in
          record s {
            downlink = push a (set_expecting a s.downlink true) pcm24;
            max_gap_ms = if ltb s.max_gap_ms gap then gap else s.max_gap_ms;
            last_audio = some now;
          })

  unfoldable pub forward : State → GeminiEvent → State
  forward s e = record s { events_out = s.events_out ++ (e ∷ []) }

  unfoldable pub on_gemini : State → ℕ → Bool → GeminiEvent → State
  unfolding on_audio forward
  on_gemini s now muted (output_audio pcm24) = on_audio s now muted pcm24
  on_gemini s now muted interrupted = record s {
    downlink = interrupt_fade a (set_expecting a s.downlink false) 25;
    last_audio = none;
  }
  on_gemini s now muted turn_complete =
      forward (record s { downlink = set_expecting a s.downlink false; last_audio = none })
        turn_complete
  on_gemini s now muted (other x) = forward s (other x)

  abbrev pub is_recent : Option ℕ → ℕ → Bool
  is_recent none now = false
  is_recent (some t) now = ltb (now - t) downlink_grace_ms

  -- A frame is played, the quality published and the frame sent.
  unfoldable pub on_tick : Option ℕ → State → ℕ → Bool → Turn
  unfolding phone_gone
  on_tick harvest_grace_ms s now ok =
      let (down, pcm8) = next_frame a s.downlink in
      let paced = record s {
        downlink = down;
        quality = record {
          underruns = down.underruns;
          starved_ms = down.starved_ms;
          max_gap_ms = s.max_gap_ms;
          downlink_active = pending a down || is_recent s.last_audio now;
        };
      } in
      if ok
      then (record paced { phone_out = s.phone_out ++ (encode pcm8 ∷ []) }, none)
      else phone_gone harvest_grace_ms paced now

  -- One turn of the loop. An arm whose guard is off is not taken: the state stays.
  unfoldable pub step : Option ℕ → State → ℕ → Bool → Signal → Turn
  unfolding phone_gone on_gemini on_tick
  step grace s now muted cancelled = (s, some bridge_cancelled)
  step grace s now muted uplink_ended =
      if s.uplink_running
      then phone_gone grace (record s { uplink_running = false }) now
      else (s, none)
  step grace s now muted grace_elapsed =
      if is_some s.grace_deadline then (s, some phone_closed) else (s, none)
  step grace s now muted (gemini none) = (s, some gemini_closed)
  step grace s now muted (gemini (some e)) = (on_gemini s now muted e, none)
  step grace s now muted (tick ok) = if s.harvesting then (s, none) else on_tick grace s now ok

  -- A signal with the time at which it is handled, and the mute flag then.
  pub record Timed : Type 0 where
    pub now : ℕ
    pub muted : Bool
    pub signal : Signal

  unfoldable pub run : Option ℕ → State → List Timed → Turn
  unfolding step
  run grace s [] = (s, none)
  run grace s (t ∷ ts) =
      let (s', broke) = step grace s t.now t.muted t.signal in
      let rest = run grace s' ts in elim broke [ some end ↦ (s', some end) | none ↦ rest ]
