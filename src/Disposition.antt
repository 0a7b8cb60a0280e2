-- ===== src/Disposition.antt =====
-- src/state.rs: the terminal result of a call, `resolve_disposition`.
pub mod Precedence
use kutsu.Base.{
  ℕ, ◌≤◌, ◌<◌, ◌≡◌, Bool, true, false, not, ◌&&◌, ◌||◌, Option, none, some, ltb, ◌==◌,
  if◌then◌else◌,
}
use kutsu.Base.Bytes.{Bytes, bytes_eq}
use kutsu.Outcome.{CallOutcome}
use Prim.Native.String.{String}
use Prim.Native.Char.{code}
use mathlib.Core.List.{List, [], ◌∷◌}

-- The bytes of an ASCII literal.
abbrev pub ascii : String → List ℕ
ascii String.[] = []
ascii (String.◌∷◌ c s) = code c ∷ ascii s

-- `EndedBy` of src/gemini_live.rs.
pub data EndedBy : Type 0 where
  model_end_call caller_hangup remote_close error : EndedBy

pub data Disposition : Type 0 where
  completed voicemail announcement ivr hold busy no_answer : Disposition
  rejected not_found unavailable failed cancelled : Disposition

pub record CallShape : Type 0 where
  pub answered : Bool
  pub duration_ms : ℕ
  pub transcript_len : ℕ
  pub ended_by : EndedBy

abbrev pub fast_disconnect_max_ms : ℕ
fast_disconnect_max_ms = 15000

-- The arm for a call that was never answered.
unfoldable pub unanswered : Option CallOutcome → Disposition
unanswered none = failed
unanswered (some CallOutcome.busy) = busy
unanswered (some CallOutcome.no_answer) = no_answer
unanswered (some CallOutcome.rejected) = rejected
unanswered (some CallOutcome.not_found) = not_found
unanswered (some CallOutcome.unavailable) = unavailable
unanswered (some CallOutcome.completed) = failed
unanswered (some CallOutcome.failed) = failed

unfoldable pub closed_by_far_side : EndedBy → Bool
closed_by_far_side remote_close = true
closed_by_far_side caller_hangup = true
closed_by_far_side _ = false

-- The last arm: nothing known but the shape of the call.
unfoldable pub by_shape : CallShape → Disposition
unfolding closed_by_far_side
by_shape shape =
    let fast_disconnect =
      closed_by_far_side shape.ended_by
      && ltb shape.duration_ms fast_disconnect_max_ms
      && (shape.transcript_len == 0) in
    if fast_disconnect
    then announcement
    else if ltb 0 shape.transcript_len
    then completed
    else failed

-- `match amd`: the five known verdicts, else the shape.
unfoldable pub by_verdict : Option Bytes → CallShape → Disposition
unfolding by_shape
by_verdict none shape = by_shape shape
by_verdict (some amd) shape =
    if bytes_eq amd (ascii "voicemail")
    then voicemail
    else if bytes_eq amd (ascii "announcement")
    then announcement
    else if bytes_eq amd (ascii "ivr")
    then ivr
    else if bytes_eq amd (ascii "hold")
    then hold
    else if bytes_eq amd (ascii "live")
    then completed
    else by_shape shape

unfoldable pub resolve_disposition :
    Bool → Option Bytes → Option CallOutcome → CallShape → Disposition
unfolding unanswered by_verdict
resolve_disposition is_cancelled amd sip shape =
    if is_cancelled
    then cancelled
    else if not shape.answered
    then unanswered sip
    else by_verdict amd shape
