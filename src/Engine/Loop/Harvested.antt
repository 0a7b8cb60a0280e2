-- ===== src/Engine/Loop/Harvested.antt =====
-- What a harvest in the loop of `run_call` (src/engine.rs) rests on, in the events that came.
use kutsu.Base.{
  ℕ, ◌+◌, ◌<◌, ◌≤◌, ◌≡◌, ◌⊎◌, inl, inr, refl, Bool, true, false, ◌||◌, Option, none, some, List, [],
  ◌∷◌, if◌then◌else◌, arith, Bool-cases,
}
use kutsu.Uplink.{UplinkQuality}
use kutsu.Store.{CallQuality}
use kutsu.Engine.Gates.{Float, DownlinkQuality, merge_quality, is_some}
use kutsu.Engine.Loop.{
  terminated, closed, other, LoopConfig, LoopState, Event, transcript_event, end_call_event,
  turn_complete_event, affect_event, other_event, events_closed, sip_event, bridge_done,
  deadline_elapsed, cancel_received, harvest_elapsed, qtick, start, step, run, on_qtick,
  on_downlink, on_dead_air, on_uplink, measured, window_loss, over_limit,
}
use kutsu.Engine.Loop.Harvest.{harvests, run-Inv}

module _ (f : Float) (V : Type 0) where
  -- The phone hung up, or its event stream ended: any other event is none.
  abbrev pub is_hangup : Event f V → Bool
  is_hangup (sip_event terminated) = true
  is_hangup (sip_event closed) = true
  is_hangup _ = false

  abbrev pub word : Event f V → ℕ
  word (transcript_event role text final) = 1
  word _ = 0

  pub hung : List (ℕ × Event f V) → Bool
  hung [] = false
  hung ((now, e) ∷ es) = is_hangup e || hung es

  -- How many transcripts came.
  pub words : List (ℕ × Event f V) → ℕ
  words [] = 0
  words ((now, e) ∷ es) = word e + words es

  -- Neither the harvest nor the count of transcripts moved.
  abbrev Same : LoopState f V → LoopState f V → Type 0
  Same s t = (t.harvesting ≡ s.harvesting) × (t.transcript_events ≡ s.transcript_events)

  dead_air-Same :
      (c : LoopConfig f V) (s : LoopState f V) (now : ℕ) → Same s (on_dead_air f V c s now).0
  unfolding on_dead_air
  dead_air-Same c s now = ground arith

  downlink-Same :
      (c : LoopConfig f V) (s : LoopState f V) (now : ℕ) (d : DownlinkQuality f.F)
      → Same s (on_downlink f V c s now d).0
  unfolding on_downlink
  downlink-Same c s now d = ground (
    arith,
    dead_air-Same c (record s { downlink_over_streak = s.downlink_over_streak + 1 }) now,
    dead_air-Same c (record s { downlink_over_streak = 0 }) now,
  )

  uplink-Same :
      (c : LoopConfig f V) (s : LoopState f V) (now : ℕ) (d : DownlinkQuality f.F)
      (loss : Option f.F)
      → Same s (on_uplink f V c s now d loss).0
  unfolding on_uplink
  uplink-Same c s now d (some loss) = (refl, refl)
  uplink-Same c s now d none = downlink-Same c s now d

  qtick-Same :
      (c : LoopConfig f V) (s : LoopState f V) (now : ℕ) (b : CallQuality f.F) (u : UplinkQuality)
      (d : DownlinkQuality f.F)
      → Same s (on_qtick f V c s now b u d).0
  unfolding on_qtick measured
  qtick-Same c s now b u d =
      let t = measured f V s (merge_quality f b u d) in
      ground (
        arith,
        uplink-Same c t now d (
            over_limit f V
              (window_loss f V t.uplink_hist
                ((merge_quality f b u d).uplink_received, (merge_quality f b u d).uplink_lost))
              c.uplink_loss_abort_pct),
      )

  -- What the state says of the events so far: of whether one was a hangup, and of the transcripts.
  pub record Traced (h : Bool) (w : ℕ) (s : LoopState f V) : Type 0 where
    pub heard : s.transcript_events ≤ w
    pub reason : (s.harvesting ≡ false) ⊎ (h ≡ true)

  Same-Traced : (h : Bool) (w : ℕ) (s t : LoopState f V) → Same s t → Traced h w s → Traced h w t
  Same-Traced h w s t e v = ground (arith, e, v.reason, v.heard)

  -- More events say no less.
  more-Traced :
      (h h' : Bool) (w w' : ℕ) (s : LoopState f V) → Traced h w s → Traced (h || h') (w + w') s
  more-Traced h h' w w' s v = ground (arith, v.reason, v.heard)

  step-Traced :
      (c : LoopConfig f V) (h : Bool) (w : ℕ) (s : LoopState f V) (now : ℕ) (e : Event f V)
      → Traced h w s
      → Traced (h || is_hangup e) (w + word e) (step f V c s now e).0
  unfolding step
  step-Traced c h w s now (transcript_event role text final) v = ground (arith, v.reason, v.heard)
  step-Traced c h w s now (end_call_event g) v = ground (arith, v.reason, v.heard)
  step-Traced c h w s now turn_complete_event v = ground (arith, v.reason, v.heard)
  step-Traced c h w s now (affect_event role label) v = ground (arith, v.reason, v.heard)
  step-Traced c h w s now other_event v = ground (arith, v.reason, v.heard)
  step-Traced c h w s now events_closed v = ground (arith, v.reason, v.heard)
  step-Traced c h w s now (sip_event terminated) v = ground (arith, v.heard)
  step-Traced c h w s now (sip_event closed) v = ground (arith, v.heard)
  step-Traced c h w s now (sip_event other) v = ground (arith, v.reason, v.heard)
  step-Traced c h w s now (bridge_done r) v = ground (arith, v.reason, v.heard)
  step-Traced c h w s now deadline_elapsed v = ground (arith, v.reason, v.heard)
  step-Traced c h w s now cancel_received v = ground (arith, v.reason, v.heard)
  step-Traced c h w s now harvest_elapsed v = ground (arith, v.reason, v.heard)
  step-Traced c h w s now (qtick b u d) v =
      more-Traced h false w 0 _ (Same-Traced h w s _ (qtick-Same c s now b u d) v)

  run-Traced :
      (c : LoopConfig f V) (h : Bool) (w : ℕ) (s : LoopState f V) (es : List (ℕ × Event f V))
      → Traced h w s
      → Traced (h || hung es) (w + words es) (run f V c s es).0
  unfolding run hung words
  run-Traced c h w s [] v = more-Traced h false w 0 s v
  run-Traced c h w s ((now, e) ∷ es) v =
      let t = step-Traced c h w s now e v in
      let over = more-Traced (h || is_hangup e) (hung es) (w + word e) (words es) _ t in
      let rest = run-Traced c (h || is_hangup e) (w + word e) (step f V c s now e).0 es t in
      ground (arith, over.heard, over.reason, rest.heard, rest.reason)

  start-Traced : (c : LoopConfig f V) (now : ℕ) → Traced false 0 (start f V c now)
  unfolding start
  start-Traced c now = ground arith

  -- A harvest and what it rests on.
  pub record IsHarvest (c : LoopConfig f V) (es : List (ℕ × Event f V)) (s : LoopState f V)
      : Type 0 where
    pub armed : is_some s.harvest_deadline ≡ s.harvesting
    pub cued : harvests s.cues ≡ (if s.harvesting then 1 else 0)
    pub founded :
        (s.harvesting ≡ false) ⊎ ((hung es ≡ true) × (0 < words es) × (0 < c.wrap_up_grace_ms))

  -- In every state that the loop reaches, by any events in any order, a harvest is under way
  -- exactly when its deadline is armed and its cue was sent, which happens at most once; and then
  -- one of the events was a hangup of the phone or the end of its event stream, one was a
  -- transcript, and the grace is positive.
  pub run-IsHarvest :
      (c : LoopConfig f V) (now : ℕ) (es : List (ℕ × Event f V))
      → IsHarvest c es (run f V c (start f V c now) es).0
  run-IsHarvest c now es =
      let v = run-Inv f V c now es in
      let t = run-Traced c false 0 (start f V c now) es (start-Traced c now) in
      record {
        armed = v.armed;
        cued = v.cued;
        founded = elim (Bool-cases (run f V c (start f V c now) es).0.harvesting) [
          | inl y ↦
              inr (ground (arith, y, t.reason), omega (arith, t.heard, v.spoken y), v.enabled y)
          | inr n ↦ inl n
        ];
      }
