-- ===== src/Engine/Loop/Muting.antt =====
-- When the loop of `run_call` (src/engine.rs) keeps the model's audio from the phone.
use kutsu.Base.{
  ℕ, ◌+◌, ◌≤◌, ◌≡◌, refl, Option, none, some, List, [], ◌∷◌, ◌++◌, length, arith, length-append,
  length-drop,
}
use kutsu.Uplink.{UplinkQuality}
use kutsu.Store.{CallQuality}
use kutsu.Engine.Gates.{Float, DownlinkQuality, merge_quality, is_some}
use kutsu.Engine.Loop.{
  terminated, closed, other, LoopConfig, LoopState, Event, transcript_event, end_call_event,
  turn_complete_event, affect_event, other_event, events_closed, sip_event, bridge_done,
  deadline_elapsed, cancel_received, harvest_elapsed, qtick, start, step, run, on_qtick,
  on_downlink, on_dead_air, on_uplink, measured, push_hist, window_loss, over_limit,
}

module _ (f : Float) (V : Type 0) where
  pub record IsInStep (s : LoopState f V) : Type 0 where
    pub mutes : s.muted ≡ is_some s.wrap_up.nudged_at_ms
    pub window : length s.uplink_hist ≤ 8

  dead_air-IsInStep :
      (c : LoopConfig f V) (s : LoopState f V) (now : ℕ)
      → IsInStep s
      → IsInStep (on_dead_air f V c s now).0
  unfolding on_dead_air
  dead_air-IsInStep c s now v = ground arith

  downlink-IsInStep :
      (c : LoopConfig f V) (s : LoopState f V) (now : ℕ) (d : DownlinkQuality f.F)
      → IsInStep s
      → IsInStep (on_downlink f V c s now d).0
  unfolding on_downlink
  downlink-IsInStep c s now d v = ground (
    arith,
    dead_air-IsInStep c (record s { downlink_over_streak = s.downlink_over_streak + 1 }) now,
    dead_air-IsInStep c (record s { downlink_over_streak = 0 }) now,
  )

  uplink-IsInStep :
      (c : LoopConfig f V) (s : LoopState f V) (now : ℕ) (d : DownlinkQuality f.F)
      (loss : Option f.F)
      → IsInStep s
      → IsInStep (on_uplink f V c s now d loss).0
  unfolding on_uplink
  uplink-IsInStep c s now d (some loss) v = ground arith
  uplink-IsInStep c s now d none v = downlink-IsInStep c s now d v

  length-push_hist :
      (hist : List (ℕ × ℕ)) (x : ℕ × ℕ) → length hist ≤ 8 → length (push_hist f V hist x) ≤ 8
  unfolding push_hist
  length-push_hist hist x h =
      ground (arith, length-append hist (x ∷ []), length-drop 1 (hist ++ (x ∷ [])))

  measured-IsInStep :
      (s : LoopState f V) (q : CallQuality f.F) → IsInStep s → IsInStep (measured f V s q)
  unfolding measured
  measured-IsInStep s q v = record {
    mutes = v.mutes;
    window = length-push_hist s.uplink_hist (q.uplink_received, q.uplink_lost) v.window;
  }

  qtick-IsInStep :
      (c : LoopConfig f V) (s : LoopState f V) (now : ℕ) (b : CallQuality f.F) (u : UplinkQuality)
      (d : DownlinkQuality f.F)
      → IsInStep s
      → IsInStep (on_qtick f V c s now b u d).0
  unfolding on_qtick
  qtick-IsInStep c s now b u d v =
      let t = measured f V s (merge_quality f b u d) in
      ground (
        arith,
        uplink-IsInStep c t now d
            (over_limit f V
              (window_loss f V t.uplink_hist
                ((merge_quality f b u d).uplink_received, (merge_quality f b u d).uplink_lost))
              c.uplink_loss_abort_pct)
            (measured-IsInStep s (merge_quality f b u d) v),
      )

  step-IsInStep :
      (c : LoopConfig f V) (s : LoopState f V) (now : ℕ) (e : Event f V)
      → IsInStep s
      → IsInStep (step f V c s now e).0
  unfolding step
  step-IsInStep c s now (transcript_event role text final) v = ground arith
  step-IsInStep c s now (end_call_event g) v = ground arith
  step-IsInStep c s now turn_complete_event v = ground arith
  step-IsInStep c s now (affect_event role label) v = ground arith
  step-IsInStep c s now other_event v = v
  step-IsInStep c s now events_closed v = ground arith
  step-IsInStep c s now (sip_event terminated) v = ground arith
  step-IsInStep c s now (sip_event closed) v = ground arith
  step-IsInStep c s now (sip_event other) v = ground arith
  step-IsInStep c s now (bridge_done r) v = v
  step-IsInStep c s now deadline_elapsed v = v
  step-IsInStep c s now cancel_received v = v
  step-IsInStep c s now harvest_elapsed v = ground arith
  step-IsInStep c s now (qtick b u d) v = qtick-IsInStep c s now b u d v

  run-IsInStep_from :
      (c : LoopConfig f V) (s : LoopState f V) (es : List (ℕ × Event f V))
      → IsInStep s
      → IsInStep (run f V c s es).0
  unfolding run
  run-IsInStep_from c s [] v = v
  run-IsInStep_from c s ((now, e) ∷ es) v = ground (
    arith,
    step-IsInStep c s now e v,
    run-IsInStep_from c (step f V c s now e).0 es (step-IsInStep c s now e v),
  )

  -- In every state that the loop reaches, the downlink is muted exactly while a dead-air nudge is
  -- outstanding (any later activity lifts both), and the loss window holds at most 8 ticks.
  run-IsInStep :
      (c : LoopConfig f V) (now : ℕ) (es : List (ℕ × Event f V))
      → IsInStep (run f V c (start f V c now) es).0
  unfolding start
  run-IsInStep c now es =
      run-IsInStep_from c (start f V c now) es (record { mutes = refl; window = omega arith })
