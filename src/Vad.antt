-- ===== src/Vad.antt =====
-- src/vad.rs: the energy detector for the callee's first speech.
pub mod Onset
use kutsu.Base.{ℕ, ◌+◌, Bool, true, false, ◌==◌, ltb, leb, if◌then◌else◌, List, [], ◌∷◌}

-- f32, with what the detector computes: the level of a frame, a product, a maximum, a comparison
-- `a >= b`, and the floor's update `floor * 0.9 + rms * 0.1`.
pub record Energy : Type 1 where
  pub F : Type 0
  pub Sample : Type 0
  pub zero_level : F
  pub rms : List Sample → F
  pub times : F → F → F
  pub larger : F → F → F
  pub at_least : F → F → Bool
  pub track : F → F → F

module _ (n : Energy) where
  open n use {F, Sample, zero_level, rms, times, larger, at_least, track}

  -- `VadConfig`, with `min_rms` as the f32 that it is cast to.
  pub record VadConfig : Type 0 where
    pub min_rms : F
    pub ratio : F
    pub onset_frames : ℕ
    pub warmup_frames : ℕ

  pub record Vad : Type 0 where
    pub noise_floor : F
    pub last_rms : F
    pub consec : ℕ
    pub fired : Bool
    pub frames_seen : ℕ

  unfoldable pub new : Vad
  new = record {
    noise_floor = zero_level;
    last_rms = zero_level;
    consec = 0;
    fired = false;
    frames_seen = 0;
  }

  unfoldable pub threshold : VadConfig → Vad → F
  threshold cfg v = larger cfg.min_rms (times v.noise_floor cfg.ratio)

  unfoldable pub is_speech_frame : VadConfig → Vad → Bool
  unfolding threshold
  is_speech_frame cfg v = at_least v.last_rms (threshold cfg v)

  unfoldable pub classify : VadConfig → Vad → F → Vad × Bool
  classify cfg v level =
      if at_least level (threshold cfg v)
      then (let counted = record v { consec = v.consec + 1 } in
          if leb cfg.onset_frames counted.consec
          then (record counted { fired = true }, true)
          else (counted, false))
      else (record v { consec = 0; noise_floor = track v.noise_floor level }, false)

  -- `observe` on a frame that is not empty.
  unfoldable pub observe_level : VadConfig → Vad → F → Vad × Bool
  unfolding classify
  observe_level cfg v level =
      let fresh = record v { last_rms = level } in
      if v.fired
      then (fresh, false)
      else if ltb v.frames_seen cfg.warmup_frames
      then (let seen = record fresh { frames_seen = v.frames_seen + 1 } in
          if v.frames_seen == 0
          then (record seen { noise_floor = level; consec = 0 }, false)
          else classify cfg seen level)
      else classify cfg fresh level

  unfoldable pub observe : VadConfig → Vad → List Sample → Vad × Bool
  unfolding observe_level
  observe cfg v [] = (v, false)
  observe cfg v (s ∷ frame) = observe_level cfg v (rms (s ∷ frame))
