-- ===== src/Vad/Onset.antt =====
-- When the detector of src/vad.rs reports speech.
use kutsu.Base.{ℕ, ◌+◌, ◌≡◌, ◌≤◌, Bool, if◌then◌else◌, List, [], ◌∷◌, arith}
use kutsu.Vad.{Energy, VadConfig, Vad, new, classify, observe, observe_level}

module _ (n : Energy) (cfg : VadConfig n) where
  -- The answers to a run of frames.
  pub run : Vad n → List (List n.Sample) → List Bool
  run v [] = []
  run v (f ∷ fs) = (observe n cfg v f).1 ∷ run (observe n cfg v f).0 fs

  abbrev pub onsets : List Bool → ℕ
  onsets [] = 0
  onsets (b ∷ bs) = (if b then 1 else 0) + onsets bs

  observe-fired :
      (v : Vad n) (f : List n.Sample)
      → (if (observe n cfg v f).1 then 1 else 0) + (if v.fired then 1 else 0)
        ≡ (if (observe n cfg v f).0.fired then 1 else 0)
  unfolding observe observe_level classify
  observe-fired v [] = ground arith
  observe-fired v (s ∷ f) = ground arith

  onsets-run :
      (v : Vad n) (fs : List (List n.Sample)) → onsets (run v fs) + (if v.fired then 1 else 0) ≤ 1
  unfolding run
  onsets-run v [] = ground arith
  onsets-run v (f ∷ fs) = omega (arith, observe-fired v f, onsets-run (observe n cfg v f).0 fs)

  -- Over any run of frames the detector reports the onset of speech at most once.
  fires_once : (fs : List (List n.Sample)) → onsets (run (new n) fs) ≤ 1
  fires_once fs = omega (arith, onsets-run (new n) fs)
