-- ===== src/Engine/Loop/Harvest.antt =====
-- The post-hangup harvest in the loop of `run_call` (src/engine.rs).
use kutsu.Base.{
  ℕ, suc, ◌+◌, ◌<◌, ◌≡◌, ◌≢◌, ◌⊎◌, inl, inr, refl, true, false, Option, none, some, List, [], ◌∷◌,
  ◌++◌, if◌then◌else◌, arith,
}
use kutsu.Uplink.{UplinkQuality}
use kutsu.Store.{CallQuality}
use kutsu.Engine.Gates.{Float, DownlinkQuality, merge_quality, is_some}
use kutsu.Engine.Loop.{
  hung_up, phone_closed, gemini_closed, bridge_cancelled, Cue, end_call_cue, harvest_cue,
  terminated, closed, other, LoopConfig, LoopState, Event, transcript_event, end_call_event,
  turn_complete_event, affect_event, other_event, events_closed, sip_event, bridge_done,
  deadline_elapsed, cancel_received, harvest_elapsed, qtick, start, step, run, on_qtick,
  on_downlink, on_dead_air, on_uplink, measured, window_loss, over_limit,
}

-- How often the harvest cue was sent.
abbrev pub harvests : List Cue → ℕ
harvests [] = 0
harvests (harvest_cue ∷ cues) = suc (harvests cues)
harvests (end_call_cue ∷ cues) = harvests cues

harvests-append : (xs ys : List Cue) → harvests (xs ++ ys) ≡ harvests xs + harvests ys
harvests-append [] ys = omega arith
harvests-append (harvest_cue ∷ xs) ys = omega (arith, harvests-append xs ys)
harvests-append (end_call_cue ∷ xs) ys = harvests-append xs ys

module _ (f : Float) (V : Type 0) where
  -- A harvest is under way exactly when its deadline is set and its one cue was sent; then the
  -- phone side is closed, something was said, and the feature is on.
  pub record Inv (c : LoopConfig f V) (s : LoopState f V) : Type 0 where
    pub armed : is_some s.harvest_deadline ≡ s.harvesting
    pub cued : harvests s.cues ≡ (if s.harvesting then 1 else 0)
    pub phone_gone : s.harvesting ≡ true → s.sip_open ≡ false
    pub spoken : s.harvesting ≡ true → 0 < s.transcript_events
    pub enabled : s.harvesting ≡ true → 0 < c.wrap_up_grace_ms

  start-Inv : (c : LoopConfig f V) (now : ℕ) → Inv c (start f V c now)
  unfolding start
  start-Inv c now = ground arith

  dead_air-Inv :
      (c : LoopConfig f V) (s : LoopState f V) (now : ℕ)
      → Inv c s
      → Inv c (on_dead_air f V c s now).0
  unfolding on_dead_air
  dead_air-Inv c s now v = ground (arith, harvests-append s.cues (end_call_cue ∷ []))

  downlink-Inv :
      (c : LoopConfig f V) (s : LoopState f V) (now : ℕ) (d : DownlinkQuality f.F)
      → Inv c s
      → Inv c (on_downlink f V c s now d).0
  unfolding on_downlink
  downlink-Inv c s now d v = ground (
    arith,
    dead_air-Inv c (record s { downlink_over_streak = s.downlink_over_streak + 1 }) now,
    dead_air-Inv c (record s { downlink_over_streak = 0 }) now,
  )

  uplink-Inv :
      (c : LoopConfig f V) (s : LoopState f V) (now : ℕ) (d : DownlinkQuality f.F)
      (loss : Option f.F)
      → Inv c s
      → Inv c (on_uplink f V c s now d loss).0
  unfolding on_uplink
  uplink-Inv c s now d (some loss) v = ground arith
  uplink-Inv c s now d none v = downlink-Inv c s now d v

  measured-Inv :
      (c : LoopConfig f V) (s : LoopState f V) (q : CallQuality f.F)
      → Inv c s
      → Inv c (measured f V s q)
  unfolding measured
  measured-Inv c s q v = record {
    armed = v.armed;
    cued = v.cued;
    phone_gone = v.phone_gone;
    spoken = v.spoken;
    enabled = v.enabled;
  }

  qtick-Inv :
      (c : LoopConfig f V) (s : LoopState f V) (now : ℕ) (b : CallQuality f.F) (u : UplinkQuality)
      (d : DownlinkQuality f.F)
      → Inv c s
      → Inv c (on_qtick f V c s now b u d).0
  unfolding on_qtick
  qtick-Inv c s now b u d v =
      let t = measured f V s (merge_quality f b u d) in
      ground (
        arith,
        uplink-Inv c t now d
            (over_limit f V
              (window_loss f V t.uplink_hist
                ((merge_quality f b u d).uplink_received, (merge_quality f b u d).uplink_lost))
              c.uplink_loss_abort_pct)
            (measured-Inv c s (merge_quality f b u d) v),
      )

  step-Inv :
      (c : LoopConfig f V) (s : LoopState f V) (now : ℕ) (e : Event f V)
      → Inv c s
      → Inv c (step f V c s now e).0
  unfolding step
  step-Inv c s now (transcript_event role text final) v = ground arith
  step-Inv c s now (end_call_event g) v = ground arith
  step-Inv c s now turn_complete_event v = ground arith
  step-Inv c s now (affect_event role label) v = ground arith
  step-Inv c s now other_event v = v
  step-Inv c s now events_closed v = ground arith
  step-Inv c s now (sip_event terminated) v =
      ground (arith, harvests-append s.cues (harvest_cue ∷ []))
  step-Inv c s now (sip_event closed) v = ground (arith, harvests-append s.cues (harvest_cue ∷ []))
  step-Inv c s now (sip_event other) v = ground arith
  step-Inv c s now (bridge_done r) v = v
  step-Inv c s now deadline_elapsed v = v
  step-Inv c s now cancel_received v = v
  step-Inv c s now harvest_elapsed v = ground arith
  step-Inv c s now (qtick b u d) v = qtick-Inv c s now b u d v

  run-Inv_from :
      (c : LoopConfig f V) (s : LoopState f V) (es : List (ℕ × Event f V))
      → Inv c s
      → Inv c (run f V c s es).0
  unfolding run
  run-Inv_from c s [] v = v
  run-Inv_from c s ((now, e) ∷ es) v =
      ground (
        arith,
        step-Inv c s now e v,
        run-Inv_from c (step f V c s now e).0 es (step-Inv c s now e v),
      )

  -- In every state that the loop reaches, by any events in any order, a harvest is under way
  -- exactly when its deadline is armed and its cue was sent, which happens at most once; and then
  -- the phone has hung up, the conversation had begun, and the grace is positive.
  pub run-Inv :
      (c : LoopConfig f V) (now : ℕ) (es : List (ℕ × Event f V))
      → Inv c (run f V c (start f V c now) es).0
  run-Inv c now es = run-Inv_from c (start f V c now) es (start-Inv c now)

  dead_air-ends :
      (c : LoopConfig f V) (s : LoopState f V) (now : ℕ)
      → (on_dead_air f V c s now).1 ≢ some hung_up
  unfolding on_dead_air
  dead_air-ends c s now h = ground arith

  downlink-ends :
      (c : LoopConfig f V) (s : LoopState f V) (now : ℕ) (d : DownlinkQuality f.F)
      → (on_downlink f V c s now d).1 ≢ some hung_up
  unfolding on_downlink
  downlink-ends c s now d h = ground (
    arith,
    dead_air-ends c (record s { downlink_over_streak = s.downlink_over_streak + 1 }) now,
    dead_air-ends c (record s { downlink_over_streak = 0 }) now,
  )

  uplink-ends :
      (c : LoopConfig f V) (s : LoopState f V) (now : ℕ) (d : DownlinkQuality f.F)
      (loss : Option f.F)
      → (on_uplink f V c s now d loss).1 ≢ some hung_up
  unfolding on_uplink
  uplink-ends c s now d (some loss) h = ground arith
  uplink-ends c s now d none h = downlink-ends c s now d h

  qtick-ends :
      (c : LoopConfig f V) (s : LoopState f V) (now : ℕ) (b : CallQuality f.F) (u : UplinkQuality)
      (d : DownlinkQuality f.F)
      → (on_qtick f V c s now b u d).1 ≢ some hung_up
  unfolding on_qtick
  qtick-ends c s now b u d h =
      let t = measured f V s (merge_quality f b u d) in
      ground (
        arith,
        uplink-ends c t now d (
            over_limit f V
              (window_loss f V t.uplink_hist
                ((merge_quality f b u d).uplink_received, (merge_quality f b u d).uplink_lost))
              c.uplink_loss_abort_pct),
      )

  -- The call is taken as plainly hung up only if the bridge says so, or if the SIP side hung up
  -- with nothing to harvest: before any word was transcribed, or with no grace configured. While
  -- a harvest is under way only a bridge that was told to stop can end the loop that way.
  hung_up_only :
      (c : LoopConfig f V) (s : LoopState f V) (now : ℕ) (e : Event f V)
      → s.goal ≡ none
      → (step f V c s now e).1 ≡ some hung_up
      → (e ≡ bridge_done (some bridge_cancelled))
        ⊎ ((s.harvesting ≡ false)
            × ((e ≡ bridge_done (some phone_closed))
                ⊎ (s.transcript_events ≡ 0)
                ⊎ (c.wrap_up_grace_ms ≡ 0)))
  unfolding step
  hung_up_only c s now (transcript_event role text final) g h = ground arith
  hung_up_only c s now (end_call_event v) g h = ground arith
  hung_up_only c s now turn_complete_event g h = ground arith
  hung_up_only c s now (affect_event role label) g h = ground arith
  hung_up_only c s now other_event g h = ground arith
  hung_up_only c s now events_closed g h = ground arith
  hung_up_only c s now (sip_event terminated) g h = ground arith
  hung_up_only c s now (sip_event closed) g h = ground arith
  hung_up_only c s now (sip_event other) g h = ground arith
  hung_up_only c s now (bridge_done none) g h = ground arith
  hung_up_only c s now (bridge_done (some phone_closed)) g h = inr (ground arith, inl refl)
  hung_up_only c s now (bridge_done (some gemini_closed)) g h = ground arith
  hung_up_only c s now (bridge_done (some bridge_cancelled)) g h = inl refl
  hung_up_only c s now deadline_elapsed g h = ground arith
  hung_up_only c s now cancel_received g h = ground arith
  hung_up_only c s now harvest_elapsed g h = ground arith
  hung_up_only c s now (qtick b u d) g h = absurd (qtick-ends c s now b u d h)
