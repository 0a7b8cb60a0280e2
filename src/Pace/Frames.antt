-- ===== src/Pace/Frames.antt =====
-- The shape of the frames that src/bridge/pace.rs sends to the phone.
use kutsu.Base.{
  Bool-cases, leb→le, inl, inr, ℕ, ◌+◌, ◌-◌, ◌/◌, ◌%◌, ◌≤◌, ◌<◌, ◌≡◌, refl, Bool, true, false, leb,
  if◌then◌else◌, List, [], ◌∷◌, ◌++◌, length, take, drop, replicate, arith, length-take,
  length-drop, length-replicate, length-append,
}
use kutsu.Pace.{
  Audio, Downsampler, Downlink, process, shift, next_frame, play_frame, silence_frame, push, clear,
  interrupt_fade, set_expecting, new, in_per_frame,
}

module _ (a : Audio) where
  open a use {Sample, silence}

  -- Feeding a block and then another is feeding the two as one: the filter has no seam between
  -- the blocks of 20 ms.
  process-append :
      (d : Downsampler a) (xs ys : List Sample)
      → let (d', out) = process a d xs in
        let (d'', more) = process a d' ys in process a d (xs ++ ys) ≡ (d'', out ++ more)
  unfolding process
  process-append d [] ys = refl
  process-append d (x ∷ xs) ys =
      ground
        (arith, process-append (record { win = shift a d.win x; phase = (d.phase + 1) % 3 }) xs ys)

  process-phase :
      (d : Downsampler a) (xs : List Sample)
      → d.phase < 3
      → ((process a d xs).0.phase ≡ (d.phase + length xs) % 3)
        × (length (process a d xs).1 ≡ (length xs + 2 - (3 - d.phase) % 3) / 3)
  unfolding process
  process-phase d [] h = ground arith
  process-phase d (x ∷ xs) h =
      ground (arith, process-phase (record { win = shift a d.win x; phase = (d.phase + 1) % 3 }) xs)

  -- The window keeps its length, so the filter always sees all of its taps.
  length-process :
      (d : Downsampler a) (xs : List Sample)
      → 0 < length d.win
      → length (process a d xs).0.win ≡ length d.win
  unfolding process shift
  length-process d [] h = refl
  length-process d (x ∷ xs) h = ground (
    arith,
    length-append (drop 1 d.win) (x ∷ []),
    length-drop 1 d.win,
    length-process (record { win = drop 1 d.win ++ (x ∷ []); phase = (d.phase + 1) % 3 }) xs,
  )

  -- The downsampler stands between two frames.
  abbrev pub IsAligned : Downlink a → Type 0
  IsAligned d = (d.down.phase ≡ 0) × (length d.down.win ≡ 23)

  abbrev Fits : Downlink a × List Sample → Type 0
  Fits r = (length r.1 ≡ 160) × IsAligned r.0

  silence-160 :
      (w : Downsampler a)
      → w.phase ≡ 0
      → length w.win ≡ 23
      → let (w', out) = process a w (replicate in_per_frame silence) in
        (length out ≡ 160) × ((w'.phase ≡ 0) × (length w'.win ≡ 23))
  silence-160 w h k = ground (
    arith,
    process-phase w (replicate in_per_frame silence),
    length-process w (replicate in_per_frame silence),
    length-replicate in_per_frame silence,
  )

  block-160 :
      (w : Downsampler a) (buf : List Sample)
      → w.phase ≡ 0
      → length w.win ≡ 23
      → in_per_frame ≤ length buf
      → let (w', out) = process a w (take in_per_frame buf) in
        (length out ≡ 160) × ((w'.phase ≡ 0) × (length w'.win ≡ 23))
  block-160 w buf h k l = ground (
    arith,
    process-phase w (take in_per_frame buf),
    length-process w (take in_per_frame buf),
    length-take in_per_frame buf,
  )

  silence_frame-Fits : (d : Downlink a) → IsAligned d → Fits (silence_frame a d)
  unfolding silence_frame
  silence_frame-Fits d h = silence-160 d.down h.0 h.1

  play_frame-Fits : (d : Downlink a) → IsAligned d → Fits (play_frame a d)
  unfolding play_frame
  play_frame-Fits d h = elim (Bool-cases (leb in_per_frame (length d.buf))) [
    | inl e ↦ rw e (block-160 d.down d.buf h.0 h.1 (leb→le 480 (length d.buf) e))
    | inr e ↦ rw e (silence_frame-Fits _ (dry d.expecting))
  ]
    where
      dry :
          (b : Bool)
          → IsAligned
              (record (if b
                then record d { underruns = d.underruns + 1; starved_ms = d.starved_ms + 20 }
                else d) { playing = false; fill_target = d.resume })
      dry true = h
      dry false = h

  -- Every frame is exactly 160 samples, 20 ms at 8 kHz, whether it plays, holds or runs dry, and
  -- leaves the downsampler at the start of a frame.
  next_frame-Fits : (d : Downlink a) → IsAligned d → Fits (next_frame a d)
  unfolding next_frame
  next_frame-Fits d h = ground (
    arith,
    silence_frame-Fits d h,
    silence_frame-Fits (record d { starved_ms = d.starved_ms + 20 }) h,
    play_frame-Fits d h,
    play_frame-Fits (record d { playing = true }) h,
  )

  -- What the bridge does to the buffer, besides reading it.
  pub data Op : Type 0 where
    frame : Op
    pushed : List Sample → Op
    expects : Bool → Op
    interrupts : ℕ → Op
    clears : Op

  pub apply : Downlink a → Op → Downlink a
  apply d frame = (next_frame a d).0
  apply d (pushed samples) = push a d samples
  apply d (expects e) = set_expecting a d e
  apply d (interrupts ms) = interrupt_fade a d ms
  apply d clears = clear a d

  pub run : Downlink a → List Op → Downlink a
  run d [] = d
  run d (op ∷ ops) = run (apply d op) ops

  apply-IsAligned : (d : Downlink a) (op : Op) → IsAligned d → IsAligned (apply d op)
  unfolding apply push set_expecting interrupt_fade
  apply-IsAligned d frame h = (next_frame-Fits d h).1
  apply-IsAligned d (pushed samples) h = h
  apply-IsAligned d (expects e) h = ground arith
  apply-IsAligned d (interrupts ms) h = ground (arith, length-replicate 23 silence)
  apply-IsAligned d clears h = ground (arith, length-replicate 23 silence)

  run-IsAligned : (d : Downlink a) (ops : List Op) → IsAligned d → IsAligned (run d ops)
  unfolding run
  run-IsAligned d [] h = h
  run-IsAligned d (op ∷ ops) h = run-IsAligned (apply d op) ops (apply-IsAligned d op h)

  -- After any sequence of pushes, barge-ins, turn edges and frames, from a new buffer, the next
  -- frame to the phone is exactly 160 samples (20 ms at 8 kHz).
  length-next_frame :
      (prebuffer_ms resume_ms : ℕ) (ops : List Op)
      → length (next_frame a (run (new a prebuffer_ms resume_ms) ops)).1 ≡ 160
  unfolding new
  length-next_frame prebuffer_ms resume_ms ops =
      (next_frame-Fits (run (new a prebuffer_ms resume_ms) ops)
        (run-IsAligned (new a prebuffer_ms resume_ms) ops (refl, refl))).0
