-- ===== src/Bridge/Quiet.antt =====
-- The bridge once the phone is gone (src/bridge/mod.rs): the harvest grace.
use kutsu.Base.{ℕ, ◌≡◌, refl, Bool, true, Option, none, some, List, [], ◌∷◌, arith}
use kutsu.Pace.{Audio}
use kutsu.Bridge.{
  output_audio, interrupted, turn_complete, other, State, Signal, cancelled, uplink_ended,
  grace_elapsed, gemini, tick, Timed, step, run, phone_gone, on_tick, on_gemini, on_audio, forward,
}

module _ (a : Audio) (X : Type 0) (encode : List a.Sample → List ℕ) where
  -- `t` is a later state of a bridge that was in its grace at `s`.
  pub record IsQuiet (s t : State a X encode) : Type 0 where
    pub still_harvesting : t.harvesting ≡ true
    pub same_frames : t.phone_out ≡ s.phone_out
    pub same_deadline : t.grace_deadline ≡ s.grace_deadline
    pub frozen : t.quality ≡ s.quality

  step-IsQuiet :
      (grace : Option ℕ) (s t : State a X encode) (now : ℕ) (muted : Bool) (g : Signal a X encode)
      → IsQuiet s t
      → IsQuiet s (step a X encode grace t now muted g).0
  unfolding step phone_gone on_tick on_gemini on_audio forward
  step-IsQuiet grace s t now muted cancelled i = i
  step-IsQuiet none s t now muted uplink_ended i = ground arith
  step-IsQuiet (some ms) s t now muted uplink_ended i = ground arith
  step-IsQuiet grace s t now muted grace_elapsed i = ground arith
  step-IsQuiet grace s t now muted (gemini none) i = i
  step-IsQuiet grace s t now muted (gemini (some (output_audio pcm))) i = ground arith
  step-IsQuiet grace s t now muted (gemini (some interrupted)) i = ground arith
  step-IsQuiet grace s t now muted (gemini (some turn_complete)) i = ground arith
  step-IsQuiet grace s t now muted (gemini (some (other x))) i = ground arith
  step-IsQuiet none s t now muted (tick ok) i = ground arith
  step-IsQuiet (some ms) s t now muted (tick ok) i = ground arith

  from-IsQuiet :
      (grace : Option ℕ) (s t : State a X encode) (ts : List (Timed a X encode))
      → IsQuiet s t
      → IsQuiet s (run a X encode grace t ts).0
  unfolding run
  from-IsQuiet grace s t [] i = i
  from-IsQuiet grace s t (x ∷ ts) i = ground (
    arith,
    step-IsQuiet grace s t x.now x.muted x.signal i,
    from-IsQuiet grace s (step a X encode grace t x.now x.muted x.signal).0 ts,
  )

  -- Once the phone is gone and the grace runs, nothing that follows sends another frame to the
  -- phone or moves the end of the grace: not the second sign of the same hangup, not audio of the
  -- model, not a tick; and the published quality stays as it was, its activity flag included.
  run-IsQuiet :
      (grace : Option ℕ) (s : State a X encode) (ts : List (Timed a X encode))
      → s.harvesting ≡ true
      → IsQuiet s (run a X encode grace s ts).0
  run-IsQuiet grace s ts h =
      from-IsQuiet grace s s ts
        (record { still_harvesting = h; same_frames = refl; same_deadline = refl; frozen = refl })
