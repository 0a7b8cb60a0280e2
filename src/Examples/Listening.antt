-- ===== src/Examples/Listening.antt =====
-- What Gemini hears of the phone, at concrete inputs.
use kutsu.Base.{ℕ, ◌*◌, ◌≤◌, ◌≡◌, false, List, [], ◌∷◌, map, arith, leb, ltb}
use kutsu.G711.{pos, negsuc, ulaw, decode}
use kutsu.Config.{AgcConfig}
use kutsu.Bridge.Gain.{Floats, new}
use kutsu.Bridge.Listening.{up_8k_16k, listen, ready}
use kutsu.Bridge.Listening.Between.{evens, Interpolates, up_8k_16k-Interpolates}
use kutsu.Bridge.Listening.Heard.{total, energies, levelled, taken, gemini_hears}
use kutsu.Examples.Settings.{std}

-- A gain that doubles once it has moved, and a level that is the number of samples.
abbrev floats : Floats ℕ
floats = record {
  unity = 1;
  target_rms = λ x. x;
  max_gain = λ x. x;
  rms = λ pcm. 2;
  reaches = λ a b. leb b a;
  is_positive = λ a. ltb 0 a;
  desired = λ target rms most. 2;
  less = ltb;
  approach = λ fast gain desired. desired;
  near_unity = λ gain. leb gain 1;
  rounded = λ gain s. pos 40000;
}

abbrev agc_config : AgcConfig std
agc_config = record { enabled = false; target_dbfs = 0; max_gain_db = 30; noise_floor_rms = 1 }

abbrev payloads : List (List ℕ)
payloads = (255 ∷ 12 ∷ []) ∷ [] ∷ (128 ∷ []) ∷ []

up_8k_16k-Interpolates_example :
    Interpolates (pos 3 ∷ negsuc 7 ∷ pos 0 ∷ []) (up_8k_16k (pos 3 ∷ negsuc 7 ∷ pos 0 ∷ []))
unfolding up_8k_16k
up_8k_16k-Interpolates_example = up_8k_16k-Interpolates (pos 3 ∷ negsuc 7 ∷ pos 0 ∷ [])

gemini_hears_example :
    let t' =
      listen std floats ulaw (ready std floats ulaw agc_config) (taken std floats ulaw payloads) in
    let frames = levelled std floats ulaw (new std floats agc_config) payloads in
    (map evens t'.sent ≡ frames)
    × (false ≡ false → map evens t'.sent ≡ map (decode ulaw) payloads)
    × (t'.quality.uplink_samples ≡ total payloads)
    × (t'.quality.uplink_sumsq ≡ energies frames)
    × (t'.quality.uplink_sumsq ≤ t'.quality.uplink_samples * 1073741824)
unfolding total
gemini_hears_example =
    gemini_hears std floats ulaw agc_config payloads (ground arith) (ground arith)
