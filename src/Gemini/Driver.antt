-- ===== src/Gemini/Driver.antt =====
-- src/gemini_live.rs: `run_driver`, one step for each arm of its `select!`. Its measurement of the
-- callee's first utterance only writes to the log and is left out.
use kutsu.Base.{
  ℕ, ◌+◌, Bool, true, false, not, ◌&&◌, ◌||◌, Option, none, some, List, [], ◌∷◌, ◌++◌, ltb, leb,
  if◌then◌else◌,
}
use kutsu.Base.Bytes.{Bytes, bytes_eq}
use kutsu.Disposition.{EndedBy, model_end_call, caller_hangup, remote_close, ascii}
use kutsu.Store.{Role, user, model, TranscriptEntry}
use kutsu.Engine.Finish.{SessionOutcome}
use kutsu.Engine.Gates.{is_some}
use kutsu.Vad.{Energy, VadConfig, Vad, observe}
use kutsu.Vad
use kutsu.Gemini.{TranscriptAccumulator, empty, on_delta, flush}

unfoldable pub is_user : Role → Bool
is_user user = true
is_user model = false

module _ (n : Energy) (V : Type 0) where
  open n use {Sample}

  -- What the driver sends to the session; the cues are `prompts.greet_cue` and `resume_cue`.
  pub data Sent : Type 0 where
    greet_cue resume_cue : Sent
    text_cue : Bytes → Sent
    audio : List Sample → Sent
    tool_response : Bytes → Sent

  -- What it sends to the bridge.
  pub data Event : Type 0 where
    output_audio : List Sample → Event
    transcript_event : Role → Bytes → Bool → Event
    interrupted turn_complete : Event
    end_call : V → Event
    affect : Role → Bytes → Event

  -- What an arm of the `select!` gets. `frame_arrives` is the bridge filling the audio channel.
  pub data Signal : Type 0 where
    answered_changed : Option Bool → Signal
    greet_due ending_due : Signal
    frame_arrives : List Sample → Signal
    frame_ready audio_closed : Signal
    session_opened : Bool → Bool → Signal
    model_audio : List Sample → Signal
    model_transcript : Role → Bytes → Bool → Signal
    model_affect : Role → Bytes → Signal
    model_interrupted model_turn_complete : Signal
    tool_call : Bytes → Bytes → V → Signal
    session_closed hung_up : Signal
    text_received : Option Bytes → Signal

  pub record Config : Type 0 where
    pub greet_after_silence_ms : ℕ
    pub vad : VadConfig n

  -- The driver's variables, with the audio channel and what was sent so far.
  pub record Driver : Type 0 where
    pub transcript : List TranscriptEntry
    pub acc : TranscriptAccumulator
    pub greeted : Bool
    pub had_activity : Bool
    pub callee_active : Bool
    pub resume_needed : Bool
    pub is_reconnect_session : Bool
    pub greet_armed : Bool
    pub greet_deadline : ℕ
    pub answered_closed : Bool
    pub text_channel_open : Bool
    pub detector : Vad n
    pub ending : Option V
    pub ending_deadline : ℕ
    pub audio_in : List (List Sample)
    pub sent : List Sent
    pub events : List Event

  -- A day: the placeholder of a deadline that is not armed.
  abbrev pub far_ms : ℕ
  far_ms = 86400000

  unfoldable pub start : Config → Bool → ℕ → Driver
  start c is_answered now = record {
    transcript = [];
    acc = empty;
    greeted = not (ltb 0 c.greet_after_silence_ms);
    had_activity = false;
    callee_active = false;
    resume_needed = false;
    is_reconnect_session = false;
    greet_armed = is_answered;
    greet_deadline = now + (if is_answered then c.greet_after_silence_ms else far_ms);
    answered_closed = false;
    text_channel_open = true;
    detector = Vad.new n;
    ending = none;
    ending_deadline = now + far_ms;
    audio_in = [];
    sent = [];
    events = [];
  }

  -- An arm goes on with the loop or breaks it.
  abbrev pub Turn : Type 0
  Turn = Driver × Option (EndedBy × Option V)

  abbrev pub emit : Driver → Event → Driver
  emit d e = record d { events = d.events ++ (e ∷ []) }

  abbrev pub send : Driver → Sent → Driver
  send d s = record d { sent = d.sent ++ (s ∷ []) }

  -- `if session.send(..).is_err() { break (RemoteClose, None) }`, with `ok` the send's success.
  abbrev pub or_close : Bool → Driver → Turn
  or_close ok d = (d, if ok then none else some (remote_close, none))

  unfoldable pub on_answered : Config → Driver → ℕ → Option Bool → Driver
  on_answered c d now none = record d { answered_closed = true }
  on_answered c d now (some false) = d
  on_answered c d now (some true) = record d {
    greet_armed = true;
    greet_deadline = now + c.greet_after_silence_ms;
  }

  unfoldable pub on_frame : Config → Driver → Bool → List (List Sample) → Turn
  on_frame c d ok [] = (d, none)
  on_frame c d ok (pcm ∷ rest) =
      let (detector, onset) = observe n c.vad d.detector pcm in
      let heard = record d {
        detector = detector;
        audio_in = rest;
        callee_active = d.callee_active || onset;
        resume_needed = d.resume_needed || onset;
      } in
      or_close ok (send heard (audio pcm))

  unfoldable pub on_reconnect : Driver → Bool → Bool → Turn
  on_reconnect d ok resumed =
      let cleared = emit (record d { is_reconnect_session = true; audio_in = [] }) interrupted in
      if not resumed && d.resume_needed
      then (if ok
          then (record (send cleared resume_cue) { greeted = true }, none)
          else (send cleared resume_cue, some (remote_close, none)))
      else (record cleared { greeted = true }, none)

  -- The goodbye's turn is over, or its time: `ending.take()`.
  unfoldable pub finish : Driver → Option V → Turn
  finish d none = (d, none)
  finish d (some goal) =
      (emit (record d { ending = none }) (end_call goal), some (model_end_call, some goal))

  unfoldable pub on_turn_complete : Driver → ℕ → Turn
  unfolding finish
  on_turn_complete d elapsed_ms =
      let (acc, entries) = flush d.acc elapsed_ms in
      let told =
        emit
          (record d {
            had_activity = true;
            resume_needed = false;
            acc = acc;
            transcript = d.transcript ++ entries;
          })
          turn_complete in
      finish told d.ending

  unfoldable pub on_tool_call : Driver → ℕ → Bytes → Bytes → V → Driver
  on_tool_call d now name id args =
      if bytes_eq name (ascii "end_call")
      then (let answered = send d (tool_response id) in
          if is_some d.ending then answered else record answered {
            ending = some args;
            ending_deadline = now + 10000;
            greeted = true;
          })
      else d

  -- One turn of the loop at `now`, `elapsed_ms` after its start. An arm whose guard is off, or
  -- whose timer is not due, is not taken.
  unfoldable pub step : Config → Driver → ℕ → ℕ → Bool → Signal → Turn
  unfolding on_answered on_frame on_reconnect finish on_turn_complete on_tool_call
  step c d now elapsed_ms ok (answered_changed changed) =
      if not d.greet_armed && not d.greeted && not d.answered_closed
      then (on_answered c d now changed, none)
      else (d, none)
  step c d now elapsed_ms ok greet_due =
      if leb d.greet_deadline now
        && d.greet_armed
        && not d.greeted
        && not d.had_activity
        && not d.callee_active
        && not d.is_reconnect_session
      then or_close ok (send (record d { greeted = true }) greet_cue)
      else (d, none)
  step c d now elapsed_ms ok ending_due =
      if leb d.ending_deadline now then finish d d.ending else (d, none)
  step c d now elapsed_ms ok (frame_arrives pcm) =
      (record d { audio_in = d.audio_in ++ (pcm ∷ []) }, none)
  step c d now elapsed_ms ok frame_ready = on_frame c d ok d.audio_in
  step c d now elapsed_ms ok audio_closed = (d, some (caller_hangup, none))
  step c d now elapsed_ms ok (session_opened is_reconnect resumed) =
      if is_reconnect then on_reconnect d ok resumed else (d, none)
  step c d now elapsed_ms ok (model_audio pcm) =
      (emit (record d { had_activity = true }) (output_audio pcm), none)
  step c d now elapsed_ms ok (model_transcript role text final) = (
    emit
        (record d {
          had_activity = true;
          callee_active = d.callee_active || is_user role;
          resume_needed = d.resume_needed || is_user role;
          acc = on_delta d.acc role text;
        })
        (transcript_event role text final),
    none,
  )
  step c d now elapsed_ms ok (model_affect role label) =
      (emit (record d { had_activity = true }) (affect role label), none)
  step c d now elapsed_ms ok model_interrupted =
      (emit (record d { had_activity = true }) interrupted, none)
  step c d now elapsed_ms ok model_turn_complete = on_turn_complete d elapsed_ms
  step c d now elapsed_ms ok (tool_call name id args) = (on_tool_call d now name id args, none)
  step c d now elapsed_ms ok session_closed = (d, some (remote_close, none))
  step c d now elapsed_ms ok hung_up = (d, some (caller_hangup, none))
  step c d now elapsed_ms ok (text_received none) = (record d { text_channel_open = false }, none)
  step c d now elapsed_ms ok (text_received (some text)) =
      if d.text_channel_open then (send d (text_cue text), none) else (d, none)

  -- A signal with the time at which it is handled, and whether a send then succeeds.
  pub record Timed : Type 0 where
    pub now : ℕ
    pub elapsed_ms : ℕ
    pub ok : Bool
    pub signal : Signal

  unfoldable pub run : Config → Driver → List Timed → Turn
  unfolding step
  run c d [] = (d, none)
  run c d (t ∷ ts) =
      let (e, broke) = step c d t.now t.elapsed_ms t.ok t.signal in
      let rest = run c e ts in elim broke [ some end ↦ (e, some end) | none ↦ rest ]

  -- After the loop: the last turn, which nothing completed, is flushed too.
  unfoldable pub outcome : Driver → EndedBy × Option V → ℕ → SessionOutcome V
  outcome d (ended_by, goal) elapsed_ms = record {
    ended_by = ended_by;
    goal = goal;
    transcript = d.transcript ++ (flush d.acc elapsed_ms).1;
  }
