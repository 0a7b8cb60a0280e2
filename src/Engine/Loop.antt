-- ===== src/Engine/Loop.antt =====
-- The orchestration loop of `run_call` (src/engine.rs): one step for each arm of its `select!`.
-- Which of the ready arms is taken is the schedule's choice: a run takes the events in any order.
pub mod Harvest
pub mod Harvested
pub mod Muting
use kutsu.Base.{
  ℕ, suc, ◌+◌, ◌-◌, ◌≤◌, Bool, true, false, not, ◌&&◌, ◌||◌, Option, none, some, List, [], ◌∷◌,
  ◌++◌, ltb, leb, ◌==◌, if◌then◌else◌, length, drop,
}
use kutsu.Base.Bytes.{Bytes}
use kutsu.Uplink.{UplinkQuality}
use kutsu.Store.{CallQuality, Role, TranscriptEntry, AffectEntry}
use kutsu.Engine.Gates.{
  Float, DownlinkQuality, should_abort, uplink_window_ticks, downlink_breach_ticks, window_loss_pct,
  merge_quality, downlink_breach, harvest_eligible, WrapPhase, idle, nudge, finalize, WrapUpState,
  new_wrap_up, on_activity, phase, is_some,
}

-- `enum LoopEnd`.
pub data LoopEnd : Type 0 where
  completed hung_up failed cancelled : LoopEnd

-- `BridgeEnd` of src/bridge/mod.rs.
pub data BridgeEnd : Type 0 where
  phone_closed gemini_closed bridge_cancelled : BridgeEnd

-- The texts that the engine injects: `prompts.end_call_cue` and `prompts.harvest_cue`.
pub data Cue : Type 0 where
  end_call_cue harvest_cue : Cue

-- What `sip_events.recv()` gives.
pub data SipSignal : Type 0 where
  terminated closed other : SipSignal

module _ (f : Float) (V : Type 0) where
  open f use {F, exceeds}

  -- `abort_reason`, before it is formatted.
  pub data AbortReason : Type 0 where
    degraded : ℕ → ℕ → AbortReason
    uplink_loss downlink_loss : F → AbortReason

  -- The part of `ServerConfig` that the loop reads.
  pub record LoopConfig : Type 0 where
    pub abort_underruns : ℕ
    pub uplink_loss_abort_pct : F
    pub downlink_loss_abort_pct : F
    pub dead_air_nudge_ms : ℕ
    pub wrap_up_grace_ms : ℕ

  -- The loop's variables; `transcript`, `affect` and `quality` are what it writes to the call's
  -- record, `cues` what it sends to the model, `muted` the flag it shares with the bridge.
  pub record LoopState : Type 0 where
    pub goal : Option V
    pub first_transcript : Bool
    pub transcript_events : ℕ
    pub events_open : Bool
    pub abort_reason : Option AbortReason
    pub wrap_up : WrapUpState
    pub uplink_hist : List (ℕ × ℕ)
    pub downlink_over_streak : ℕ
    pub harvesting : Bool
    pub harvest_deadline : Option ℕ
    pub sip_open : Bool
    pub muted : Bool
    pub transcript : List TranscriptEntry
    pub affect : List AffectEntry
    pub quality : Option (CallQuality F)
    pub cues : List Cue

  pub data Event : Type 0 where
    transcript_event : Role → Bytes → Bool → Event
    end_call_event : V → Event
    turn_complete_event : Event
    affect_event : Role → Bytes → Event
    other_event : Event
    events_closed : Event
    sip_event : SipSignal → Event
    bridge_done : Option BridgeEnd → Event
    deadline_elapsed : Event
    cancel_received : Event
    harvest_elapsed : Event
    qtick : CallQuality F → UplinkQuality → DownlinkQuality F → Event

  unfoldable pub start : LoopConfig → ℕ → LoopState
  unfolding on_activity new_wrap_up
  start c now = record {
    goal = none;
    first_transcript = false;
    transcript_events = 0;
    events_open = true;
    abort_reason = none;
    wrap_up = (on_activity (new_wrap_up c.dead_air_nudge_ms c.wrap_up_grace_ms) now).0;
    uplink_hist = [];
    downlink_over_streak = 0;
    harvesting = false;
    harvest_deadline = none;
    sip_open = true;
    muted = false;
    transcript = [];
    affect = [];
    quality = none;
    cues = [];
  }

  -- An arm continues the loop or breaks it.
  abbrev pub Outcome : Type 0
  Outcome = LoopState × Option LoopEnd

  -- `if wrap_up.on_activity(now_ms()) { mute_downlink_ctrl.store(false) }`.
  unfoldable pub activity : LoopState → ℕ → LoopState
  unfolding on_activity
  activity s now =
      let (w, was_nudged) = on_activity s.wrap_up now in
      record s { wrap_up = w; muted = if was_nudged then false else s.muted }

  unfoldable pub on_transcript : LoopState → ℕ → Role → Bytes → Bool → LoopState
  unfolding activity
  on_transcript s now role text final =
      let t = activity (record s { transcript_events = s.transcript_events + 1 }) now in
      record t {
        first_transcript = true;
        transcript =
            if final
            then t.transcript ++ (record { role = role; text = text; ts_ms = now } ∷ [])
            else t.transcript;
      }

  -- The phone hung up: begin the harvest if it can bring anything.
  unfoldable pub on_hangup : LoopConfig → LoopState → ℕ → Outcome
  unfolding harvest_eligible
  on_hangup c s now =
      if s.harvesting
      then (s, none)
      else if ltb 0 c.wrap_up_grace_ms && harvest_eligible s.transcript_events (is_some s.goal)
      then (
        record s {
          harvesting = true;
          cues = s.cues ++ (harvest_cue ∷ []);
          harvest_deadline = some (now + c.wrap_up_grace_ms);
        },
        none,
      )
      else (s, some hung_up)

  unfoldable pub on_sip : LoopConfig → LoopState → ℕ → SipSignal → Outcome
  unfolding on_hangup
  on_sip c s now terminated = on_hangup c (record s { sip_open = false }) now
  on_sip c s now closed = on_hangup c (record s { sip_open = false }) now
  on_sip c s now other = (record s { sip_open = false }, none)

  unfoldable pub on_bridge_done : LoopState → Option BridgeEnd → LoopEnd
  on_bridge_done s none = failed
  on_bridge_done s (some phone_closed) = if s.harvesting then completed else hung_up
  on_bridge_done s (some gemini_closed) = if s.harvesting then completed else failed
  on_bridge_done s (some bridge_cancelled) = hung_up

  -- `push_back`, then `pop_front` down to the window's length: one pop is enough, since at most
  -- the window's length is kept.
  unfoldable pub push_hist : List (ℕ × ℕ) → ℕ × ℕ → List (ℕ × ℕ)
  push_hist hist x =
      let longer = hist ++ (x ∷ []) in
      if ltb uplink_window_ticks (length longer) then drop 1 longer else longer

  -- The loss over the window, once the window is full.
  unfoldable pub window_loss : List (ℕ × ℕ) → ℕ × ℕ → Option F
  unfolding window_loss_pct
  window_loss [] newest = none
  window_loss (oldest ∷ hist) newest =
      if leb uplink_window_ticks (length (oldest ∷ hist))
      then window_loss_pct f oldest newest
      else none

  unfoldable pub over_limit : Option F → F → Option F
  over_limit none limit = none
  over_limit (some loss) limit = if exceeds loss limit then some loss else none

  -- The dead-air arm of the quality tick.
  unfoldable pub on_dead_air : LoopConfig → LoopState → ℕ → Outcome
  unfolding phase
  on_dead_air c s now =
      if ltb 0 c.dead_air_nudge_ms && ltb 0 c.wrap_up_grace_ms && not s.harvesting
      then (let (w, p) = phase s.wrap_up now in
          let t = record s { wrap_up = w } in
          elim p [
            | nudge ↦ (record t { muted = true; cues = t.cues ++ (end_call_cue ∷ []) }, none)
            | finalize ↦ (t, some completed)
            | idle ↦ (t, none)
          ])
      else (s, none)

  -- The downlink gate, then the dead-air watchdog.
  unfoldable pub on_downlink : LoopConfig → LoopState → ℕ → DownlinkQuality F → Outcome
  on_downlink c s now d =
      if downlink_breach f d c.downlink_loss_abort_pct
      then (let t = record s { downlink_over_streak = s.downlink_over_streak + 1 } in
          if leb downlink_breach_ticks t.downlink_over_streak
          then (record t { abort_reason = some (downlink_loss d.loss_pct) }, some failed)
          else on_dead_air c t now)
      else on_dead_air c (record s { downlink_over_streak = 0 }) now

  -- The uplink gate, on the loss over the window where that is over the limit, and what follows.
  unfoldable pub on_uplink : LoopConfig → LoopState → ℕ → DownlinkQuality F → Option F → Outcome
  on_uplink c s now d (some loss) =
      (record s { abort_reason = some (uplink_loss loss) }, some failed)
  on_uplink c s now d none = on_downlink c s now d

  -- The record's quality and the window, brought up to date.
  unfoldable pub measured : LoopState → CallQuality F → LoopState
  unfolding push_hist
  measured s q = record s {
    quality = some q;
    uplink_hist = push_hist s.uplink_hist (q.uplink_received, q.uplink_lost);
  }

  unfoldable pub on_qtick :
      LoopConfig → LoopState → ℕ → CallQuality F → UplinkQuality → DownlinkQuality F → Outcome
  on_qtick c s now bridge u d =
      let q = merge_quality f bridge u d in
      if should_abort c.abort_underruns q.underruns
      then (
        record s { quality = some q; abort_reason = some (degraded q.underruns q.starved_ms) },
        some failed,
      )
      else (let t = measured s q in
          on_uplink c t now d (
            over_limit (window_loss t.uplink_hist (q.uplink_received, q.uplink_lost))
              c.uplink_loss_abort_pct))

  -- One turn of the loop. An arm whose guard is off is not taken: the state stays.
  unfoldable pub step : LoopConfig → LoopState → ℕ → Event → Outcome
  unfolding on_transcript activity on_sip on_bridge_done
  step c s now (transcript_event role text final) =
      if s.events_open then (on_transcript s now role text final, none) else (s, none)
  step c s now (end_call_event g) =
      if s.events_open then (record s { goal = some g }, some completed) else (s, none)
  step c s now turn_complete_event = if s.events_open then (activity s now, none) else (s, none)
  step c s now (affect_event role label) =
      if s.events_open
      then (
        record s { affect = s.affect ++ (record { role = role; label = label; ts_ms = now } ∷ []) },
        none,
      )
      else (s, none)
  step c s now other_event = (s, none)
  step c s now events_closed = (record s { events_open = false }, none)
  step c s now (sip_event signal) = if s.sip_open then on_sip c s now signal else (s, none)
  step c s now (bridge_done r) = (s, some (on_bridge_done s r))
  step c s now deadline_elapsed = (s, some completed)
  step c s now cancel_received = (s, some cancelled)
  step c s now harvest_elapsed =
      if is_some s.harvest_deadline then (s, some completed) else (s, none)
  step c s now (qtick bridge u d) = on_qtick c s now bridge u d

  -- The loop over the events that come, each with the time at which it is handled, until it
  -- breaks.
  unfoldable pub run : LoopConfig → LoopState → List (ℕ × Event) → Outcome
  run c s [] = (s, none)
  run c s ((now, e) ∷ es) =
      let (t, broke) = step c s now e in
      let rest = run c t es in elim broke [ some end ↦ (t, some end) | none ↦ rest ]
