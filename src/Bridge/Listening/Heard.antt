-- ===== src/Bridge/Listening/Heard.antt =====
-- What Gemini hears, and how loud it was (src/bridge/mod.rs).
use kutsu.Base.{
  ℕ, ◌+◌, ◌*◌, ◌≤◌, ◌<◌, ◌≡◌, ◌∙◌, refl, ap, sym, Bool, true, false, List, [], ◌∷◌, ◌++◌, map,
  length, All, arith,
}
use mathlib.Core.List.{append-nil, append_assoc}
use kutsu.G711.{ℤ, G711Kind, decode}
use kutsu.Config.{Std, AgcConfig}
use kutsu.Bridge.Gain.{Floats, Agc, process}
use kutsu.Bridge.Listening.Between.{evens, evens-up}
use kutsu.Bridge.Gain
use kutsu.Bridge.Listening.{ready, up_8k_16k, Level, add_uplink_level, Task, heard, listen}
use kutsu.Bridge.Listening.Levels.{
  IsI16, decoded, length-decode, energy, energy-le, sum_squares-energy, process-IsI16,
  length-process,
}

abbrev pub most_samples : ℕ
most_samples = 17179869183

unfoldable pub total : {A : Type 0} → List (List A) → ℕ
total [] = 0
total (xs ∷ xss) = length xs + total xss

unfoldable pub energies : List (List ℤ) → ℕ
energies [] = 0
energies (pcm ∷ frames) = energy pcm + energies frames

add-level :
    (q : Level) (pcm : List ℤ)
    → All IsI16 pcm
    → q.uplink_samples + length pcm ≤ most_samples
    → q.uplink_sumsq ≤ q.uplink_samples * 1073741824
    → (add_uplink_level q pcm).uplink_samples ≡ q.uplink_samples + length pcm
      × ((add_uplink_level q pcm).uplink_sumsq ≡ q.uplink_sumsq + energy pcm)
unfolding add_uplink_level
add-level q pcm i fits mean = ground (arith, energy-le pcm i, sum_squares-energy pcm)

evens_up : (frames : List (List ℤ)) → map evens (map up_8k_16k frames) ≡ frames
evens_up [] = refl
evens_up (pcm ∷ frames) = rw (evens-up pcm) (ap (◌∷◌ pcm) (evens_up frames))

module _ (n : Std) (f : Floats n.F) (codec : G711Kind) where
  -- The frames after gain, one for each payload.
  unfoldable pub levelled : Agc n f → List (List ℕ) → List (List ℤ)
  levelled agc [] = []
  levelled agc (payload ∷ rest) =
      let (agc', pcm8) = process n f agc (decode codec payload) in pcm8 ∷ levelled agc' rest

  abbrev pub taken : List (List ℕ) → List (List ℕ × Bool)
  taken payloads = map (λ payload. (payload, true)) payloads

  -- A task that took these payloads, none of them lost.
  pub record IsHeard (t : Task n f codec) (payloads : List (List ℕ)) (t' : Task n f codec)
      : Type 0 where
    pub sent : t'.sent ≡ t.sent ++ map up_8k_16k (levelled t.agc payloads)
    pub samples : t'.quality.uplink_samples ≡ t.quality.uplink_samples + total payloads
    pub sumsq :
        t'.quality.uplink_sumsq ≡ t.quality.uplink_sumsq + energies (levelled t.agc payloads)
    pub mean : t'.quality.uplink_sumsq ≤ t'.quality.uplink_samples * 1073741824

  listen-IsHeard :
      (t : Task n f codec) (payloads : List (List ℕ))
      → All (λ payload. All (λ u. u < 256) payload) payloads
      → t.quality.uplink_samples + total payloads ≤ most_samples
      → t.quality.uplink_sumsq ≤ t.quality.uplink_samples * 1073741824
      → IsHeard t payloads (listen n f codec t (taken payloads))
  unfolding listen total energies levelled heard
  listen-IsHeard t [] b fits mean = record {
    sent = sym (append-nil t.sent);
    samples = omega arith;
    sumsq = omega arith;
    mean = mean;
  }
  listen-IsHeard t (p ∷ ps) b fits mean =
      let frame : List ℤ = (process n f t.agc (decode codec p)).1 in
      let i : All IsI16 frame = process-IsI16 n f t.agc (decode codec p) (decoded codec p b.0) in
      let len : length frame ≡ length p =
        length-process n f t.agc (decode codec p) ∙ length-decode codec p in
      let (samples, sumsq) = add-level t.quality frame i (omega arith) mean in
      let more =
        listen-IsHeard (heard n f codec t p true) ps b.1 (omega arith)
          (omega (arith, energy-le frame i)) in
      record {
        sent = more.sent ∙ append_assoc t.sent (up_8k_16k frame ∷ []) _;
        samples = omega arith;
        sumsq = omega arith;
        mean = more.mean;
      }

  process-off :
      (agc : Agc n f) (pcm : List ℤ) → agc.cfg.enabled ≡ false → process n f agc pcm ≡ (agc, pcm)
  unfolding process
  process-off agc pcm off = ground (arith, off)

  levelled-off :
      (agc : Agc n f) (payloads : List (List ℕ))
      → agc.cfg.enabled ≡ false
      → levelled agc payloads ≡ map (decode codec) payloads
  unfolding levelled
  levelled-off agc [] off = refl
  levelled-off agc (p ∷ ps) off =
      rw (process-off agc (decode codec p) off)
        (ap (◌∷◌ (decode codec p)) (levelled-off agc ps off))

  -- As long as Gemini takes them, it gets one frame for each payload of the phone, in order, which
  -- at its even places is the decoded payload after gain, and the payload itself if the gain is
  -- off. For up to 2 ^ 34 - 1 samples, 24 days, the published level is the exact sum of squares and
  -- the exact number of samples, without a wrap, and no mean of it is above 32768 squared.
  pub gemini_hears :
      (cfg : AgcConfig n) (payloads : List (List ℕ))
      → All (λ payload. All (λ u. u < 256) payload) payloads
      → total payloads ≤ most_samples
      → let t' = listen n f codec (ready n f codec cfg) (taken payloads) in
        let frames = levelled (Gain.new n f cfg) payloads in
        (map evens t'.sent ≡ frames)
        × (cfg.enabled ≡ false → map evens t'.sent ≡ map (decode codec) payloads)
        × (t'.quality.uplink_samples ≡ total payloads)
        × (t'.quality.uplink_sumsq ≡ energies frames)
        × (t'.quality.uplink_sumsq ≤ t'.quality.uplink_samples * 1073741824)
  unfolding ready
  gemini_hears cfg payloads b fits =
      let h = listen-IsHeard (ready n f codec cfg) payloads b (omega arith) (omega arith) in
      let e = ap (map evens) h.sent ∙ evens_up (levelled (Gain.new n f cfg) payloads) in
      (
        e,
        λ off. e ∙ levelled-off _ payloads off,
        omega (arith, h.samples),
        omega (arith, h.sumsq),
        h.mean,
      )
