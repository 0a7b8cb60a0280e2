-- ===== src/Pace.antt =====
-- src/bridge/pace.rs and the downsampler of src/bridge/resample.rs: the downlink jitter buffer.
pub mod Frames
pub mod Tail
use kutsu.Base.{
  ℕ, zero, suc, ◌+◌, ◌-◌, ◌*◌, ◌%◌, ◌≤◌, ◌≡◌, Bool, true, false, not, ◌&&◌, ltb, leb, ◌==◌,
  if◌then◌else◌, List, [], ◌∷◌, ◌++◌, length, take, drop, replicate, max, min,
}

abbrev pub in_per_frame : ℕ
in_per_frame = 480

abbrev pub samples_per_ms : ℕ
samples_per_ms = 24

abbrev pub taps : ℕ
taps = 23

-- A PCM16 sample is of any type with a silence. `fir` is the low-pass filter over the window
-- (rounded and clamped), `fade i n s` the sample `s` at position `i` of a fade over `n`; both are
-- computed in f32.
pub record Audio : Type 1 where
  pub Sample : Type 0
  pub silence : Sample
  pub fir : List Sample → Sample
  pub fade : ℕ → ℕ → Sample → Sample

module _ (a : Audio) where
  open a use {Sample, silence, fir, fade}

  pub record Downsampler : Type 0 where
    pub win : List Sample
    pub phase : ℕ

  unfoldable pub new_downsampler : Downsampler
  new_downsampler = record { win = replicate taps silence; phase = 0 }

  -- One sample of `Downsampler::process`: shift the window, emit at phase 0.
  unfoldable pub shift : List Sample → Sample → List Sample
  shift win s = drop 1 win ++ (s ∷ [])

  unfoldable pub process : Downsampler → List Sample → Downsampler × List Sample
  unfolding shift
  process d [] = (d, [])
  process d (s ∷ block) =
      let win = shift d.win s in
      let (d', out) = process (record { win = win; phase = (d.phase + 1) % 3 }) block in
      (d', if d.phase == 0 then fir win ∷ out else out)

  pub record Downlink : Type 0 where
    pub buf : List Sample
    pub down : Downsampler
    pub prebuffer : ℕ
    pub resume : ℕ
    pub fill_target : ℕ
    pub playing : Bool
    pub expecting : Bool
    pub underruns : ℕ
    pub starved_ms : ℕ

  unfoldable pub new : ℕ → ℕ → Downlink
  unfolding new_downsampler
  new prebuffer_ms resume_ms = record {
    buf = [];
    down = new_downsampler;
    prebuffer = prebuffer_ms * samples_per_ms;
    resume = resume_ms * samples_per_ms;
    fill_target = prebuffer_ms * samples_per_ms;
    playing = false;
    expecting = false;
    underruns = 0;
    starved_ms = 0;
  }

  unfoldable pub push : Downlink → List Sample → Downlink
  push d samples = record d { buf = d.buf ++ samples }

  unfoldable pub clear : Downlink → Downlink
  unfolding new_downsampler
  clear d = record d {
    buf = [];
    down = new_downsampler;
    playing = false;
    fill_target = d.prebuffer;
  }

  -- The faded head: position `i` of `n`.
  unfoldable pub fade_from : ℕ → ℕ → List Sample → List Sample
  fade_from i n [] = []
  fade_from i n (s ∷ buf) = fade i n s ∷ fade_from (i + 1) n buf

  unfoldable pub interrupt_fade : Downlink → ℕ → Downlink
  unfolding fade_from clear
  interrupt_fade d fade_ms =
      let n = min (fade_ms * samples_per_ms) (length d.buf) in
      if n == 0 then clear d else record d {
        buf = fade_from 0 n (take n d.buf);
        playing = true;
        fill_target = d.prebuffer;
      }

  unfoldable pub set_expecting : Downlink → Bool → Downlink
  set_expecting d expecting =
      let armed =
        if expecting && not d.expecting
        then record d { playing = false; fill_target = d.prebuffer }
        else d in
      record armed { expecting = expecting }

  unfoldable pub pending : Downlink → Bool
  pending d = not (length d.buf == 0)

  unfoldable pub silence_frame : Downlink → Downlink × List Sample
  silence_frame d =
      let (down, out) = process d.down (replicate in_per_frame silence) in
      (record d { down = down }, out)

  -- `next_frame` once playout runs.
  unfoldable pub play_frame : Downlink → Downlink × List Sample
  play_frame d =
      if leb in_per_frame (length d.buf)
      then (let (down, out) = process d.down (take in_per_frame d.buf) in
          (record d { buf = drop in_per_frame d.buf; down = down }, out))
      else (let counted =
            if d.expecting
            then record d { underruns = d.underruns + 1; starved_ms = d.starved_ms + 20 }
            else d in
          silence_frame (record counted { playing = false; fill_target = d.resume }))

  unfoldable pub next_frame : Downlink → Downlink × List Sample
  next_frame d =
      if d.playing
      then play_frame d
      else if leb (max d.fill_target in_per_frame) (length d.buf)
      then play_frame (record d { playing = true })
      else silence_frame (if d.expecting then record d { starved_ms = d.starved_ms + 20 } else d)
