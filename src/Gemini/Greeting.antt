-- ===== src/Gemini/Greeting.antt =====
-- The proactive greeting of the driver (src/gemini_live.rs).
use kutsu.Base.{
  ℕ, ◌+◌, ◌≡◌, ◌≤◌, ◌<◌, refl, Bool, true, false, Option, none, some, if◌then◌else◌, List, [], ◌∷◌,
  ◌++◌, arith,
}
use kutsu.Base.Bytes.{Bytes}
use kutsu.Vad.{Energy}
use kutsu.Gemini.Driver.{
  Sent, greet_cue, resume_cue, text_cue, audio, tool_response, Signal, answered_changed, greet_due,
  ending_due, frame_arrives, frame_ready, audio_closed, session_opened, model_audio,
  model_transcript, model_affect, model_interrupted, model_turn_complete, tool_call, session_closed,
  hung_up, text_received, Config, Driver, Timed, start, step, run, on_answered, on_frame,
  on_reconnect, finish, on_turn_complete, on_tool_call,
}

module _ (n : Energy) (V : Type 0) where
  abbrev pub greets : List (Sent n V) → ℕ
  greets [] = 0
  greets (greet_cue ∷ ss) = 1 + greets ss
  greets (resume_cue ∷ ss) = greets ss
  greets (text_cue t ∷ ss) = greets ss
  greets (audio pcm ∷ ss) = greets ss
  greets (tool_response id ∷ ss) = greets ss

  greets-append : (xs ys : List (Sent n V)) → greets (xs ++ ys) ≡ greets xs + greets ys
  greets-append [] ys = omega arith
  greets-append (greet_cue ∷ xs) ys = omega (arith, greets-append xs ys)
  greets-append (resume_cue ∷ xs) ys = greets-append xs ys
  greets-append (text_cue t ∷ xs) ys = greets-append xs ys
  greets-append (audio pcm ∷ xs) ys = greets-append xs ys
  greets-append (tool_response id ∷ xs) ys = greets-append xs ys

  -- A greeting was sent at most once, only while it is enabled, and never before it was armed.
  pub record IsPolite (c : Config n V) (d : Driver n V) : Type 0 where
    pub once : greets d.sent ≤ (if d.greeted then 1 else 0)
    pub armed : 0 < greets d.sent → d.greet_armed ≡ true
    pub enabled : d.greeted ≡ false → 0 < c.greet_after_silence_ms
    pub wanted : 0 < greets d.sent → 0 < c.greet_after_silence_ms

  abbrev pub is_greet : Sent n V → Bool
  is_greet greet_cue = true
  is_greet _ = false

  -- Anything else that is sent, and whatever else changes, keeps the greeting as it was.
  other-IsPolite :
      (c : Config n V) (d e : Driver n V) (s : Sent n V)
      → is_greet s ≡ false
      → e.sent ≡ d.sent ++ (s ∷ [])
      → e.greeted ≡ d.greeted
      → e.greet_armed ≡ d.greet_armed
      → IsPolite c d
      → IsPolite c e
  other-IsPolite c d e resume_cue h sent g a i =
      ground (arith, greets-append d.sent (resume_cue ∷ []))
  other-IsPolite c d e greet_cue h sent g a i = ground arith
  other-IsPolite c d e (text_cue t) h sent g a i =
      ground (arith, greets-append d.sent (text_cue t ∷ []))
  other-IsPolite c d e (audio pcm) h sent g a i =
      ground (arith, greets-append d.sent (audio pcm ∷ []))
  other-IsPolite c d e (tool_response id) h sent g a i =
      ground (arith, greets-append d.sent (tool_response id ∷ []))

  -- Giving up the greeting is polite.
  greeted-IsPolite :
      (c : Config n V) (d : Driver n V) → IsPolite c d → IsPolite c (record d { greeted = true })
  greeted-IsPolite c d i = ground arith

  frame-IsPolite :
      (c : Config n V) (d : Driver n V) (ok : Bool) (q : List (List n.Sample))
      → IsPolite c d
      → IsPolite c (on_frame n V c d ok q).0
  unfolding on_frame
  frame-IsPolite c d ok [] i = i
  frame-IsPolite c d ok (pcm ∷ rest) i = other-IsPolite c d _ (audio pcm) refl refl refl refl i

  reconnect-IsPolite :
      (c : Config n V) (d : Driver n V) (ok resumed : Bool)
      → IsPolite c d
      → IsPolite c (on_reconnect n V d ok resumed).0
  unfolding on_reconnect
  reconnect-IsPolite c d ok resumed i = ground (arith, greets-append d.sent (resume_cue ∷ []))

  finish-IsPolite :
      (c : Config n V) (d : Driver n V) (g : Option V)
      → IsPolite c d
      → IsPolite c (finish n V d g).0
  unfolding finish
  finish-IsPolite c d none i = i
  finish-IsPolite c d (some g) i = record {
    once = i.once;
    armed = i.armed;
    enabled = i.enabled;
    wanted = i.wanted;
  }

  tool-IsPolite :
      (c : Config n V) (d : Driver n V) (now : ℕ) (name id : Bytes) (args : V)
      → IsPolite c d
      → IsPolite c (on_tool_call n V d now name id args)
  unfolding on_tool_call
  tool-IsPolite c d now name id args i =
      ground (arith, greets-append d.sent (tool_response id ∷ []))

  answered-IsPolite :
      (c : Config n V) (d : Driver n V) (now : ℕ) (o : Option Bool)
      → IsPolite c d
      → IsPolite c (on_answered n V c d now o)
  unfolding on_answered
  answered-IsPolite c d now none i = record {
    once = i.once;
    armed = i.armed;
    enabled = i.enabled;
    wanted = i.wanted;
  }
  answered-IsPolite c d now (some false) i = i
  answered-IsPolite c d now (some true) i = record {
    once = i.once;
    armed = λ h. refl;
    enabled = i.enabled;
    wanted = i.wanted;
  }

  step-IsPolite :
      (c : Config n V) (d : Driver n V) (now elapsed_ms : ℕ) (ok : Bool) (s : Signal n V)
      → IsPolite c d
      → IsPolite c (step n V c d now elapsed_ms ok s).0
  unfolding step on_turn_complete
  step-IsPolite c d now el ok greet_due i = ground (arith, greets-append d.sent (greet_cue ∷ []))
  step-IsPolite c d now el ok ending_due i = ground (arith, finish-IsPolite c d d.ending i)
  step-IsPolite c d now el ok (answered_changed o) i = ground (arith, answered-IsPolite c d now o i)
  step-IsPolite c d now el ok (frame_arrives pcm) i = record {
    once = i.once;
    armed = i.armed;
    enabled = i.enabled;
    wanted = i.wanted;
  }
  step-IsPolite c d now el ok frame_ready i = frame-IsPolite c d ok d.audio_in i
  step-IsPolite c d now el ok audio_closed i = i
  step-IsPolite c d now el ok (session_opened true resumed) i = reconnect-IsPolite c d ok resumed i
  step-IsPolite c d now el ok (session_opened false resumed) i = i
  step-IsPolite c d now el ok (model_audio pcm) i = record {
    once = i.once;
    armed = i.armed;
    enabled = i.enabled;
    wanted = i.wanted;
  }
  step-IsPolite c d now el ok (model_transcript role text final) i = record {
    once = i.once;
    armed = i.armed;
    enabled = i.enabled;
    wanted = i.wanted;
  }
  step-IsPolite c d now el ok (model_affect role label) i = record {
    once = i.once;
    armed = i.armed;
    enabled = i.enabled;
    wanted = i.wanted;
  }
  step-IsPolite c d now el ok model_interrupted i = record {
    once = i.once;
    armed = i.armed;
    enabled = i.enabled;
    wanted = i.wanted;
  }
  step-IsPolite c d now el ok model_turn_complete i =
      finish-IsPolite c _ d.ending
        (record { once = i.once; armed = i.armed; enabled = i.enabled; wanted = i.wanted })
  step-IsPolite c d now el ok (tool_call name id args) i = tool-IsPolite c d now name id args i
  step-IsPolite c d now el ok session_closed i = i
  step-IsPolite c d now el ok hung_up i = i
  step-IsPolite c d now el ok (text_received none) i = record {
    once = i.once;
    armed = i.armed;
    enabled = i.enabled;
    wanted = i.wanted;
  }
  step-IsPolite c d now el ok (text_received (some t)) i =
      ground (arith, greets-append d.sent (text_cue t ∷ []))

  Run-IsPolite :
      (c : Config n V) (d : Driver n V) (ts : List (Timed n V))
      → IsPolite c d
      → IsPolite c (run n V c d ts).0
  unfolding run
  Run-IsPolite c d [] i = i
  Run-IsPolite c d (t ∷ ts) i = ground (
    arith,
    step-IsPolite c d t.now t.elapsed_ms t.ok t.signal i,
    Run-IsPolite c (step n V c d t.now t.elapsed_ms t.ok t.signal).0 ts,
  )

  -- Every state that a driver reaches from its start is polite.
  pub run-IsPolite :
      (c : Config n V) (is_answered : Bool) (now : ℕ) (ts : List (Timed n V))
      → IsPolite c (run n V c (start n V c is_answered now) ts).0
  unfolding start
  run-IsPolite c is_answered now ts = Run-IsPolite c _ ts (ground arith)
