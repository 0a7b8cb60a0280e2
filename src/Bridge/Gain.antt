-- ===== src/Bridge/Gain.antt =====
-- src/bridge/agc.rs: the adaptive gain of the uplink.
use kutsu.Base.{Bool, true, false, not, ◌&&◌, ◌||◌, List, [], ◌∷◌, map, leb, if◌then◌else◌}
use kutsu.G711.{ℤ, pos, negsuc}
use kutsu.Config.{Std, AgcConfig}

-- What `Agc` computes in f32 and f64. `target_rms` and `max_gain` are 32768 and 1 times a power of
-- ten; `desired` is the clamped quotient; `approach` moves the gain, by 0.3 of the way if the flag
-- is set and else by 0.05; `rounded` is the rounded product, before it is clamped.
pub record Floats (F : Type 0) : Type 0 where
  pub unity : F
  pub target_rms : F → F
  pub max_gain : F → F
  pub rms : List ℤ → F
  pub reaches : F → F → Bool
  pub is_positive : F → Bool
  pub desired : F → F → F → F
  pub less : F → F → Bool
  pub approach : Bool → F → F → F
  pub near_unity : F → Bool
  pub rounded : F → ℤ → ℤ

-- `clamp` to the PCM16 range.
unfoldable pub clamp : ℤ → ℤ
clamp (pos a) = if leb a 32767 then pos a else pos 32767
clamp (negsuc a) = if leb a 32767 then negsuc a else negsuc 32767

abbrev pub is_empty : List ℤ → Bool
is_empty [] = true
is_empty (s ∷ pcm) = false

module _ (n : Std) (f : Floats n.F) where
  pub record Agc : Type 0 where
    pub cfg : AgcConfig n
    pub target_rms : n.F
    pub max_gain : n.F
    pub gain : n.F

  unfoldable pub new : AgcConfig n → Agc
  new cfg = record {
    cfg = cfg;
    target_rms = f.target_rms cfg.target_dbfs;
    max_gain = f.max_gain cfg.max_gain_db;
    gain = f.unity;
  }

  -- The gain after a frame of this level.
  unfoldable pub adapted : Agc → n.F → n.F
  adapted agc rms =
      if f.reaches rms agc.cfg.noise_floor_rms && f.is_positive rms
      then (let desired = f.desired agc.target_rms rms agc.max_gain in
          f.approach (f.less desired agc.gain) agc.gain desired)
      else agc.gain

  unfoldable pub amplified : n.F → List ℤ → List ℤ
  unfolding clamp
  amplified gain frame =
      if f.near_unity gain then frame else map (λ s. clamp (f.rounded gain s)) frame

  unfoldable pub process : Agc → List ℤ → Agc × List ℤ
  unfolding adapted amplified
  process agc frame = if not agc.cfg.enabled || is_empty frame then (agc, frame) else (
    record agc { gain = adapted agc (f.rms frame) },
    amplified (adapted agc (f.rms frame)) frame,
  )
