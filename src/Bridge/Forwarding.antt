-- ===== src/Bridge/Forwarding.antt =====
-- What the bridge passes on to the engine (src/bridge/mod.rs).
use kutsu.Base.{ℕ, ◌≡◌, refl, sym, ap, Bool, Option, none, some, List, [], ◌∷◌, ◌++◌, arith}
use kutsu.Pace.{Audio}
use kutsu.Bridge.{
  GeminiEvent, output_audio, interrupted, turn_complete, other, State, Signal, cancelled,
  uplink_ended, grace_elapsed, gemini, tick, Timed, step, run, phone_gone, on_tick, on_gemini,
  on_audio, forward,
}

append_assoc : {A : Type 0} (xs ys zs : List A) → (xs ++ ys) ++ zs ≡ xs ++ (ys ++ zs)
append_assoc [] ys zs = refl
append_assoc (x ∷ xs) ys zs = ap (◌∷◌ x) (append_assoc xs ys zs)

append_nil : {A : Type 0} (xs : List A) → xs ++ [] ≡ xs
append_nil [] = refl
append_nil (x ∷ xs) = ap (◌∷◌ x) (append_nil xs)

module _ (a : Audio) (X : Type 0) (encode : List a.Sample → List ℕ) where
  -- What a signal has for the engine: everything from Gemini but the audio and the barge-ins.
  abbrev pub passed : Signal a X encode → List (GeminiEvent a X encode)
  passed (gemini (some turn_complete)) = turn_complete ∷ []
  passed (gemini (some (other x))) = other x ∷ []
  passed _ = []

  abbrev pub all_passed : List (Timed a X encode) → List (GeminiEvent a X encode)
  all_passed [] = []
  all_passed (t ∷ ts) = passed t.signal ++ all_passed ts

  step-passed :
      (grace : Option ℕ) (s : State a X encode) (now : ℕ) (muted : Bool) (g : Signal a X encode)
      → (step a X encode grace s now muted g).0.events_out ≡ s.events_out ++ passed g
  unfolding step phone_gone on_tick on_gemini on_audio forward
  step-passed grace s now muted cancelled = sym (append_nil s.events_out)
  step-passed none s now muted uplink_ended = ground (arith, append_nil s.events_out)
  step-passed (some ms) s now muted uplink_ended = ground (arith, append_nil s.events_out)
  step-passed grace s now muted grace_elapsed = ground (arith, append_nil s.events_out)
  step-passed grace s now muted (gemini none) = sym (append_nil s.events_out)
  step-passed grace s now muted (gemini (some (output_audio pcm))) =
      ground (arith, append_nil s.events_out)
  step-passed grace s now muted (gemini (some interrupted)) = sym (append_nil s.events_out)
  step-passed grace s now muted (gemini (some turn_complete)) = refl
  step-passed grace s now muted (gemini (some (other x))) = refl
  step-passed none s now muted (tick ok) = ground (arith, append_nil s.events_out)
  step-passed (some ms) s now muted (tick ok) = ground (arith, append_nil s.events_out)

  -- As long as the bridge runs, through mute and harvest, the engine gets every event of Gemini
  -- other than audio and barge-ins, once each and in order.
  pub run-passed :
      (grace : Option ℕ) (s : State a X encode) (ts : List (Timed a X encode))
      → (run a X encode grace s ts).1 ≡ none
      → (run a X encode grace s ts).0.events_out ≡ s.events_out ++ all_passed ts
  unfolding run
  run-passed grace s [] h = sym (append_nil s.events_out)
  run-passed grace s (t ∷ ts) h = ground (
    arith,
    step-passed grace s t.now t.muted t.signal,
    run-passed grace (step a X encode grace s t.now t.muted t.signal).0 ts,
    append_assoc s.events_out (passed t.signal) (all_passed ts),
  )
