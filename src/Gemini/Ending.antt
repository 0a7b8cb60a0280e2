-- ===== src/Gemini/Ending.antt =====
-- How the model ends a call (src/gemini_live.rs): `end_call`, deferred to the end of its turn.
use kutsu.Base.{
  ℕ, ◌≡◌, refl, subst, Bool, true, false, Option, none, some, if◌then◌else◌, List, [], ◌∷◌, arith,
}
use kutsu.Base.Bytes.{bytes_eq}
use kutsu.Disposition.{EndedBy, ascii}
use kutsu.Vad.{Energy}
use kutsu.Engine.Gates.{is_some}
use kutsu.Gemini.Driver.{
  Signal, answered_changed, greet_due, ending_due, frame_arrives, frame_ready, audio_closed,
  session_opened, model_audio, model_transcript, model_affect, model_interrupted,
  model_turn_complete, tool_call, session_closed, hung_up, text_received, Config, Driver, Timed,
  Turn, step, run, on_answered, on_frame, on_reconnect, finish, on_turn_complete, on_tool_call,
}

module _ (n : Energy) (V : Type 0) where
  -- The goal after a signal: the first `end_call` sets it.
  unfoldable pub submitted : Option V → Signal n V → Option V
  submitted (some g) s = some g
  submitted none (tool_call name id args) =
      if bytes_eq name (ascii "end_call") then some args else none
  submitted none _ = none

  -- How an arm may leave the loop: by the model only with the goal that was submitted, and
  -- otherwise with none.
  abbrev pub EndsWith : Option V → Option (EndedBy × Option V) → Type 0
  EndsWith g none = Unit
  EndsWith g (some (EndedBy.model_end_call, r)) = (r ≡ g) × (is_some g ≡ true)
  EndsWith g (some (EndedBy.caller_hangup, r)) = r ≡ none
  EndsWith g (some (EndedBy.remote_close, r)) = r ≡ none
  EndsWith g (some (EndedBy.error, r)) = ⊥

  step-submitted :
      (c : Config n V) (d : Driver n V) (now elapsed_ms : ℕ) (ok : Bool) (s : Signal n V)
      → (step n V c d now elapsed_ms ok s).1 ≡ none
      → (step n V c d now elapsed_ms ok s).0.ending ≡ submitted d.ending s
  unfolding step on_turn_complete on_answered on_reconnect on_tool_call on_frame finish submitted
  step-submitted c d now el ok (answered_changed none) h = ground arith
  step-submitted c d now el ok (answered_changed (some false)) h = ground arith
  step-submitted c d now el ok (answered_changed (some true)) h = ground arith
  step-submitted c d now el ok greet_due h = ground arith
  step-submitted c d now el ok ending_due h = ground arith
  step-submitted c d now el ok (frame_arrives pcm) h = ground arith
  step-submitted c d now el ok frame_ready h = ground arith
  step-submitted c d now el ok audio_closed h = ground arith
  step-submitted c d now el ok (session_opened true resumed) h = ground arith
  step-submitted c d now el ok (session_opened false resumed) h = ground arith
  step-submitted c d now el ok (model_audio pcm) h = ground arith
  step-submitted c d now el ok (model_transcript role text final) h = ground arith
  step-submitted c d now el ok (model_affect role label) h = ground arith
  step-submitted c d now el ok model_interrupted h = ground arith
  step-submitted c d now el ok model_turn_complete h = ground arith
  step-submitted c d now el ok (tool_call name id args) h = ground arith
  step-submitted c d now el ok session_closed h = ground arith
  step-submitted c d now el ok hung_up h = ground arith
  step-submitted c d now el ok (text_received none) h = ground arith
  step-submitted c d now el ok (text_received (some t)) h = ground arith

  step-EndsWith :
      (c : Config n V) (d : Driver n V) (now elapsed_ms : ℕ) (ok : Bool) (s : Signal n V)
      → EndsWith d.ending (step n V c d now elapsed_ms ok s).1
  unfolding step on_turn_complete on_answered on_reconnect on_tool_call on_frame finish
  step-EndsWith c d now el ok (answered_changed none) = ground arith
  step-EndsWith c d now el ok (answered_changed (some false)) = ground arith
  step-EndsWith c d now el ok (answered_changed (some true)) = ground arith
  step-EndsWith c d now el ok greet_due = ground arith
  step-EndsWith c d now el ok ending_due = ground arith
  step-EndsWith c d now el ok (frame_arrives pcm) = ground arith
  step-EndsWith c d now el ok frame_ready = ground arith
  step-EndsWith c d now el ok audio_closed = ground arith
  step-EndsWith c d now el ok (session_opened true resumed) = ground arith
  step-EndsWith c d now el ok (session_opened false resumed) = ground arith
  step-EndsWith c d now el ok (model_audio pcm) = ground arith
  step-EndsWith c d now el ok (model_transcript role text final) = ground arith
  step-EndsWith c d now el ok (model_affect role label) = ground arith
  step-EndsWith c d now el ok model_interrupted = ground arith
  step-EndsWith c d now el ok model_turn_complete = ground arith
  step-EndsWith c d now el ok (tool_call name id args) = ground arith
  step-EndsWith c d now el ok session_closed = ground arith
  step-EndsWith c d now el ok hung_up = ground arith
  step-EndsWith c d now el ok (text_received none) = ground arith
  step-EndsWith c d now el ok (text_received (some t)) = ground arith

  -- The goal after a run of signals.
  unfoldable pub goal_of : Option V → List (Timed n V) → Option V
  unfolding submitted
  goal_of g [] = g
  goal_of g (t ∷ ts) = goal_of (submitted g t.signal) ts

  -- The first goal stays.
  goal_of-some : (g : V) (ts : List (Timed n V)) → goal_of (some g) ts ≡ some g
  unfolding goal_of submitted
  goal_of-some g [] = refl
  goal_of-some g (t ∷ ts) = goal_of-some g ts

  -- What came after the end does not count.
  EndsWith-later :
      (g : Option V) (ts : List (Timed n V)) (t : Timed n V) (e : EndedBy × Option V)
      → EndsWith g (some e)
      → EndsWith (goal_of g (t ∷ ts)) (some e)
  unfolding goal_of submitted
  EndsWith-later g ts t (EndedBy.caller_hangup, r) h = h
  EndsWith-later g ts t (EndedBy.remote_close, r) h = h
  EndsWith-later g ts t (EndedBy.error, r) h = h
  EndsWith-later none ts t (EndedBy.model_end_call, r) h = ground arith
  EndsWith-later (some g) ts t (EndedBy.model_end_call, r) h = ground (arith, goal_of-some g ts)

  continued :
      (c : Config n V) (d e : Driver n V) (t : Timed n V) (ts : List (Timed n V))
      (broke : Option (EndedBy × Option V)) (rest : Turn n V)
      → EndsWith d.ending broke
      → (broke ≡ none → EndsWith (goal_of d.ending (t ∷ ts)) rest.1)
      → EndsWith
          (goal_of d.ending (t ∷ ts))
          (elim broke as (λ b. Turn n V) [ some end ↦ (e, some end) | none ↦ rest ]).1
  continued c d e t ts (some end) rest h k = EndsWith-later d.ending ts t end h
  continued c d e t ts none rest h k = k refl

  -- However a session ends, through any signals: if the model ended it, the goal is the one of the
  -- first `end_call` that came (later ones change nothing), and there was one; and if the phone or
  -- the far side ended it, no goal is returned, even if the model had submitted one.
  pub run-EndsWith :
      (c : Config n V) (d : Driver n V) (ts : List (Timed n V))
      → EndsWith (goal_of d.ending ts) (run n V c d ts).1
  unfolding run goal_of
  run-EndsWith c d [] = tt
  run-EndsWith c d (t ∷ ts) =
      continued c d (step n V c d t.now t.elapsed_ms t.ok t.signal).0 t ts
        (step n V c d t.now t.elapsed_ms t.ok t.signal).1
        (run n V c (step n V c d t.now t.elapsed_ms t.ok t.signal).0 ts)
        (step-EndsWith c d t.now t.elapsed_ms t.ok t.signal)
        (λ h.
          subst
            (λ g.
              EndsWith (goal_of g ts)
                (run n V c (step n V c d t.now t.elapsed_ms t.ok t.signal).0 ts).1)
            (step-submitted c d t.now t.elapsed_ms t.ok t.signal h)
            (run-EndsWith c (step n V c d t.now t.elapsed_ms t.ok t.signal).0 ts))
