-- ===== src/Gemini/Answered.antt =====
-- The proactive greeting waits for the answer (src/gemini_live.rs).
use kutsu.Base.{
  ℕ, ◌≡◌, ◌≤◌, ◌<◌, refl, Bool, true, false, ◌||◌, ◌⊎◌, inl, inr, Bool-cases, none, some, List, [],
  ◌∷◌, arith,
}
use kutsu.Vad.{Energy}
use kutsu.Gemini.Greeting.{greets, run-IsPolite}
use kutsu.Gemini.Driver.{
  Sent, Signal, answered_changed, greet_due, ending_due, frame_arrives, frame_ready, audio_closed,
  session_opened, model_audio, model_transcript, model_affect, model_interrupted,
  model_turn_complete, tool_call, session_closed, hung_up, text_received, Config, Driver, Timed,
  start, step, run, on_answered, on_frame, on_reconnect, finish, on_turn_complete, on_tool_call,
}

module _ (n : Energy) (V : Type 0) where
  -- The signal that the call was answered.
  abbrev pub is_answer : Signal n V → Bool
  is_answer (answered_changed (some true)) = true
  is_answer _ = false

  pub has_answer : List (Timed n V) → Bool
  has_answer [] = false
  has_answer (t ∷ ts) = is_answer t.signal || has_answer ts

  step-unarmed :
      (c : Config n V) (d : Driver n V) (now elapsed_ms : ℕ) (ok : Bool) (s : Signal n V)
      → d.greet_armed ≡ false
      → is_answer s ≡ false
      → (step n V c d now elapsed_ms ok s).0.greet_armed ≡ false
  unfolding step on_turn_complete on_answered on_reconnect on_tool_call on_frame finish
  step-unarmed c d now el ok (answered_changed none) h k = ground arith
  step-unarmed c d now el ok (answered_changed (some false)) h k = ground arith
  step-unarmed c d now el ok (answered_changed (some true)) h k = ground arith
  step-unarmed c d now el ok greet_due h k = ground arith
  step-unarmed c d now el ok ending_due h k = ground arith
  step-unarmed c d now el ok (frame_arrives pcm) h k = h
  step-unarmed c d now el ok frame_ready h k = ground arith
  step-unarmed c d now el ok audio_closed h k = h
  step-unarmed c d now el ok (session_opened true resumed) h k = ground arith
  step-unarmed c d now el ok (session_opened false resumed) h k = h
  step-unarmed c d now el ok (model_audio pcm) h k = h
  step-unarmed c d now el ok (model_transcript role text final) h k = h
  step-unarmed c d now el ok (model_affect role label) h k = h
  step-unarmed c d now el ok model_interrupted h k = h
  step-unarmed c d now el ok model_turn_complete h k = ground arith
  step-unarmed c d now el ok (tool_call name id args) h k = ground arith
  step-unarmed c d now el ok session_closed h k = h
  step-unarmed c d now el ok hung_up h k = h
  step-unarmed c d now el ok (text_received none) h k = h
  step-unarmed c d now el ok (text_received (some t)) h k = ground arith

  run-unarmed :
      (c : Config n V) (d : Driver n V) (ts : List (Timed n V))
      → d.greet_armed ≡ false
      → has_answer ts ≡ false
      → (run n V c d ts).0.greet_armed ≡ false
  unfolding run has_answer
  run-unarmed c d [] h k = h
  run-unarmed c d (t ∷ ts) h k = ground (
    arith,
    k,
    step-unarmed c d t.now t.elapsed_ms t.ok t.signal h (ground (arith, k)),
    run-unarmed c (step n V c d t.now t.elapsed_ms t.ok t.signal).0 ts,
  )

  unarmed_start : (c : Config n V) (now : ℕ) → (start n V c false now).greet_armed ≡ false
  unfolding start
  unarmed_start c now = refl

  -- The greeting, and what it rests on in the signals that came.
  abbrev pub IsGreeting : Config n V → Bool → List (Timed n V) → List (Sent n V) → Type 0
  IsGreeting c is_answered ts sent =
      (greets n V sent ≤ 1)
      × ((greets n V sent ≡ 0)
          ⊎ ((0 < c.greet_after_silence_ms) × (is_answered || has_answer ts ≡ true)))

  unanswered :
      (c : Config n V) (is_answered : Bool) (now : ℕ) (ts : List (Timed n V))
      → is_answered || has_answer ts ≡ false
      → greets n V (run n V c (start n V c is_answered now) ts).0.sent ≡ 0
  unanswered c true now ts h = absurd (ground (arith, h))
  unanswered c false now ts h = ground (
    arith,
    (run-IsPolite n V c false now ts).armed,
    run-unarmed c (start n V c false now) ts (unarmed_start c now) h,
  )

  -- Through any signals in any order, the driver greets the callee at most once; and only if the
  -- greeting is enabled, and either the call was answered before the session started or one of
  -- the signals so far said that it was: a session that is warmed up while the phone rings stays
  -- silent.
  pub run-IsGreeting :
      (c : Config n V) (is_answered : Bool) (now : ℕ) (ts : List (Timed n V))
      → IsGreeting c is_answered ts (run n V c (start n V c is_answered now) ts).0.sent
  run-IsGreeting c is_answered now ts =
      let i = run-IsPolite n V c is_answered now ts in
      elim (Bool-cases (is_answered || has_answer ts)) [
        | inl y ↦ (ground (arith, i.once), ground (arith, y, i.wanted))
        | inr no_answer ↦ (ground (arith, i.once), inl (unanswered c is_answered now ts no_answer))
      ]
