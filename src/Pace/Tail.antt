-- ===== src/Pace/Tail.antt =====
-- What src/bridge/pace.rs plays and what it holds back.
use kutsu.Base.{
  Bool-cases, leb→le, inl, inr, ℕ, zero, suc, ◌+◌, ◌*◌, ◌≤◌, ◌<◌, ◌≡◌, ◌⊎◌, refl, ap, true, false,
  leb, List, [], ◌∷◌, length, take, drop, max, min, arith, length-take, length-drop,
}
use kutsu.Pace.{
  Audio, Downlink, next_frame, play_frame, silence_frame, interrupt_fade, in_per_frame, fade_from,
  pending,
}

short→lt : (n : ℕ) → leb in_per_frame n ≡ false → n < in_per_frame
short→lt n h = ground arith

module _ (a : Audio) where
  open a use {Sample, silence, fade}

  -- `n` frames in a row, with nothing pushed.
  pub frames : ℕ → Downlink a → Downlink a
  frames zero d = d
  frames (suc n) d = frames n (next_frame a d).0

  -- Nothing more can be played: less than a frame is buffered, or playout is held and less than
  -- the refill target is.
  abbrev pub IsHeld : Downlink a → Type 0
  IsHeld d =
      (length d.buf < in_per_frame)
      ⊎ ((d.playing ≡ false) × (length d.buf < max d.fill_target in_per_frame))

  -- A silent frame changes the filter's state alone.
  record Holds (d d' : Downlink a) : Type 0 where
    same_buf : d'.buf ≡ d.buf
    same_playing : d'.playing ≡ d.playing
    same_fill : d'.fill_target ≡ d.fill_target
    same_underruns : d'.underruns ≡ d.underruns
    same_starved : d'.starved_ms ≡ d.starved_ms

  silence_frame-Holds : (d : Downlink a) → Holds d (silence_frame a d).0
  unfolding silence_frame
  silence_frame-Holds d = record {
    same_buf = refl;
    same_playing = refl;
    same_fill = refl;
    same_underruns = refl;
    same_starved = refl;
  }

  play_frame_short :
      (d : Downlink a)
      → length d.buf < in_per_frame
      → ((play_frame a d).0.buf ≡ d.buf) × ((play_frame a d).0.playing ≡ false)
  unfolding play_frame
  play_frame_short d h = ground (
    arith,
    silence_frame-Holds (record d { playing = false; fill_target = d.resume }),
    silence_frame-Holds (record d {
      underruns = d.underruns + 1;
      starved_ms = d.starved_ms + 20;
      playing = false;
      fill_target = d.resume;
    }),
  )

  next_frame-IsHeld :
      (d : Downlink a) → IsHeld d → let d' = (next_frame a d).0 in (d'.buf ≡ d.buf) × IsHeld d'
  unfolding next_frame
  next_frame-IsHeld d h = ground (
    arith,
    silence_frame-Holds d,
    silence_frame-Holds (record d { starved_ms = d.starved_ms + 20 }),
    play_frame_short d,
    play_frame_short (record d { playing = true }),
  )

  -- A rest shorter than one frame, and a turn shorter than the prefill, are never played out: the
  -- buffer holds them, and reads as pending, through any number of frames until more audio is
  -- pushed.
  pub held_tail :
      (n : ℕ) (d : Downlink a)
      → IsHeld d
      → ((frames n d).buf ≡ d.buf) × (pending a (frames n d) ≡ pending a d)
  unfolding frames pending
  held_tail zero d h = (refl, refl)
  held_tail (suc n) d h =
      ground
        (arith, next_frame-IsHeld d h, held_tail n (next_frame a d).0 (next_frame-IsHeld d h).1)

  length-fade_from : (i n : ℕ) (buf : List Sample) → length (fade_from a i n buf) ≡ length buf
  unfolding fade_from
  length-fade_from i n [] = refl
  length-fade_from i n (s ∷ buf) = ap suc (length-fade_from (i + 1) n buf)

  play_frame_long :
      (d : Downlink a)
      → in_per_frame ≤ length d.buf
      → (play_frame a d).0.buf ≡ drop in_per_frame d.buf
  unfolding play_frame
  play_frame_long d h = elim (Bool-cases (leb in_per_frame (length d.buf))) [
    | inl e ↦ rw e refl
    | inr e ↦ absurd (not_short e h)
  ]
    where
      not_short : leb in_per_frame (length d.buf) ≡ false → in_per_frame ≤ length d.buf → ⊥
      not_short e h = ground arith

  interrupt_fade_playing :
      (d : Downlink a) (fade_ms : ℕ)
      → let d' = interrupt_fade a d fade_ms in
        (length d'.buf ≡ min (fade_ms * 24) (length d.buf)) × ((d'.buf ≡ []) ⊎ (d'.playing ≡ true))
  unfolding interrupt_fade
  interrupt_fade_playing d fade_ms = ground (
    arith,
    length-take (min (fade_ms * 24) (length d.buf)) d.buf,
    length-fade_from 0 (min (fade_ms * 24) (length d.buf))
        (take (min (fade_ms * 24) (length d.buf)) d.buf),
  )

  play_frame_below :
      (d : Downlink a) → length d.buf ≤ 600 → length (play_frame a d).0.buf < in_per_frame
  play_frame_below d h = elim (Bool-cases (leb in_per_frame (length d.buf))) [
    | inl long ↦ omega (
      arith,
      ap length (play_frame_long d (leb→le 480 (length d.buf) long)),
      length-drop in_per_frame d.buf,
    )
    | inr short ↦ omega (
      arith,
      ap length (play_frame_short d (short→lt (length d.buf) short)).0,
      short→lt (length d.buf) short,
    )
  ]

  one_frame :
      (d : Downlink a)
      → length d.buf ≤ 600
      → (d.buf ≡ []) ⊎ (d.playing ≡ true)
      → length (next_frame a d).0.buf < in_per_frame
  unfolding next_frame
  one_frame d h (inl e) = ground (
    arith,
    ap length e,
    ap length (silence_frame-Holds d).same_buf,
    ap length (silence_frame-Holds (record d { starved_ms = d.starved_ms + 20 })).same_buf,
    play_frame_below d h,
  )
  one_frame d h (inr e) = ground (arith, play_frame_below d h)

  -- A barge-in with the bridge's fade of 25 ms keeps at most 600 samples (25 ms) of what was
  -- buffered, and after one more frame nothing of it is played any more.
  barge_in_stops :
      (d : Downlink a)
      → let d' = interrupt_fade a d 25 in (length d'.buf ≤ 600) × IsHeld (next_frame a d').0
  barge_in_stops d =
      let (size, plays) = interrupt_fade_playing d 25 in
      (omega (arith, size), inl (one_frame (interrupt_fade a d 25) (omega (arith, size)) plays))
