-- ===== src/Bridge/Listening.antt =====
-- src/bridge/mod.rs: the uplink task of `run` and the level that it measures; `up_8k_16k` of
-- src/bridge/resample.rs. The dumps are left out.
pub mod Levels
pub mod Between
pub mod Heard
use kutsu.Base.{
  ℕ, zero, suc, ◌+◌, ◌-◌, ◌*◌, ◌/◌, Bool, true, false, Option, none, some, List, [], ◌∷◌, ◌++◌,
  length, ltb, if◌then◌else◌, wrapping_add64, ◌==◌,
}
use kutsu.G711.{ℤ, pos, negsuc, negative, G711Kind, decode}
use kutsu.Config.{Std, AgcConfig}
use kutsu.Bridge.Gain.{Floats, Agc, process}
use kutsu.Bridge.Gain

-- `+` and `/ 2` on i32, where the sum of two PCM16 samples does not overflow.
infixl 65 ◌+ℤ◌
unfoldable pub ◌+ℤ◌ : ℤ → ℤ → ℤ
pos a +ℤ pos b = pos (a + b)
pos a +ℤ negsuc b = if ltb b a then pos (a - b - 1) else negative (b + 1 - a)
negsuc a +ℤ pos b = if ltb a b then pos (b - a - 1) else negative (a + 1 - b)
negsuc a +ℤ negsuc b = negsuc (a + b + 1)

unfoldable pub half : ℤ → ℤ
unfolding negative
half (pos a) = pos (a / 2)
half (negsuc a) = negative ((a + 1) / 2)

unfoldable pub up_8k_16k : List ℤ → List ℤ
unfolding ◌+ℤ◌ half
up_8k_16k [] = []
up_8k_16k (cur ∷ []) = cur ∷ half (cur +ℤ cur) ∷ []
up_8k_16k (cur ∷ next ∷ rest) = cur ∷ half (cur +ℤ next) ∷ up_8k_16k (next ∷ rest)

-- The part of `QualityShared` that the uplink publishes.
pub record Level : Type 0 where
  pub uplink_sumsq : ℕ
  pub uplink_samples : ℕ

unfoldable pub square : ℤ → ℕ
square (pos a) = a * a
square (negsuc a) = (a + 1) * (a + 1)

-- The sum of a frame's squares, in u64.
unfoldable pub sum_squares : List ℤ → ℕ
unfolding square
sum_squares [] = 0
sum_squares (s ∷ pcm) = wrapping_add64 (square s) (sum_squares pcm)

unfoldable pub add_uplink_level : Level → List ℤ → Level
unfolding sum_squares
add_uplink_level q pcm = record {
  uplink_sumsq = wrapping_add64 q.uplink_sumsq (sum_squares pcm);
  uplink_samples = wrapping_add64 q.uplink_samples (length pcm);
}

-- `snapshot`: `sqrt` is the square root on f64, rounded down.
unfoldable pub uplink_rms : (ℕ → ℕ) → Level → ℕ
uplink_rms sqrt q = if q.uplink_samples == 0 then 0 else sqrt (q.uplink_sumsq / q.uplink_samples)

-- The task, with the frames that it sent to Gemini.
module _ (n : Std) (f : Floats n.F) (codec : G711Kind) where
  pub record Task : Type 0 where
    pub agc : Agc n f
    pub quality : Level
    pub sent : List (List ℤ)

  -- One payload; whether Gemini still takes what is sent.
  unfoldable pub heard : Task → List ℕ → Bool → Task
  unfolding process add_uplink_level up_8k_16k
  heard t payload taken =
      let (agc, pcm8) = process n f t.agc (decode codec payload) in
      let sent = if taken then t.sent ++ (up_8k_16k pcm8 ∷ []) else t.sent in
      record { agc = agc; quality = add_uplink_level t.quality pcm8; sent = sent }

  -- The loop, over the payloads that come until the phone closes.
  unfoldable pub listen : Task → List (List ℕ × Bool) → Task
  unfolding heard
  listen t [] = t
  listen t ((payload, taken) ∷ rest) =
      let t' = heard t payload taken in let more = listen t' rest in if taken then more else t'

  unfoldable pub ready : AgcConfig n → Task
  unfolding Gain.new
  ready cfg = record {
    agc = Gain.new n f cfg;
    quality = record { uplink_sumsq = 0; uplink_samples = 0 };
    sent = [];
  }
