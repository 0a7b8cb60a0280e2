-- ===== src/Engine/Finish.antt =====
-- src/engine.rs: the cumulative counters, `finalize_call`, and the teardown of an answered call.
pub mod Tally
pub mod Teardown
use kutsu.Base.{
  ℕ, suc, ◌+◌, ◌-◌, ◌≤◌, Bool, true, false, not, ◌&&◌, ◌||◌, Option, none, some, List, [], ◌∷◌,
  ◌++◌, ltb, leb, ◌==◌, if◌then◌else◌, length, drop, wrapping_add64,
}
use kutsu.Base.Bytes.{Bytes}
use kutsu.Outcome.{CallOutcome}
use kutsu.Disposition.{EndedBy, Disposition, CallShape, resolve_disposition}
use kutsu.Store.{
  CallQuality, CallRecord, CallStore, TranscriptEntry, get, set_quality, set_transcript, finalize,
}
use kutsu.Engine.Gates.{is_some}
use kutsu.Engine.Loop.{LoopEnd}

pub record Counters : Type 0 where
  pub placed : ℕ
  pub completed : ℕ
  pub failed : ℕ
  pub cancelled : ℕ
  pub busy : ℕ
  pub no_answer : ℕ
  pub rejected : ℕ
  pub not_found : ℕ
  pub unavailable : ℕ
  pub voicemail : ℕ
  pub announcement : ℕ
  pub ivr : ℕ
  pub hold : ℕ
  pub underruns : ℕ
  pub starved_ms : ℕ
  pub quality_aborted : ℕ
  pub uplink_received : ℕ
  pub uplink_lost : ℕ

unfoldable pub bump_disposition : Counters → Disposition → Counters
bump_disposition c Disposition.completed = record c { completed = wrapping_add64 c.completed 1 }
bump_disposition c Disposition.voicemail = record c { voicemail = wrapping_add64 c.voicemail 1 }
bump_disposition c Disposition.announcement = record c {
  announcement = wrapping_add64 c.announcement 1;
}
bump_disposition c Disposition.ivr = record c { ivr = wrapping_add64 c.ivr 1 }
bump_disposition c Disposition.hold = record c { hold = wrapping_add64 c.hold 1 }
bump_disposition c Disposition.busy = record c { busy = wrapping_add64 c.busy 1 }
bump_disposition c Disposition.no_answer = record c { no_answer = wrapping_add64 c.no_answer 1 }
bump_disposition c Disposition.rejected = record c { rejected = wrapping_add64 c.rejected 1 }
bump_disposition c Disposition.not_found = record c { not_found = wrapping_add64 c.not_found 1 }
bump_disposition c Disposition.unavailable = record c {
  unavailable = wrapping_add64 c.unavailable 1;
}
bump_disposition c Disposition.failed = record c { failed = wrapping_add64 c.failed 1 }
bump_disposition c Disposition.cancelled = record c { cancelled = wrapping_add64 c.cancelled 1 }

-- What the tasks share and `finalize_call` writes.
pub record Shared (V F : Type 0) : Type 0 where
  pub store : CallStore V F
  pub counters : Counters

abbrev pub unanswered_shape : CallShape
unanswered_shape = record {
  answered = false;
  duration_ms = 0;
  transcript_len = 0;
  ended_by = EndedBy.error;
}

-- What the Gemini session's driver returns when it is joined.
pub record SessionOutcome (V : Type 0) : Type 0 where
  pub ended_by : EndedBy
  pub goal : Option V
  pub transcript : List TranscriptEntry

abbrev pub or_else {ℓ} : {A : Type ℓ} → Option A → Option A → Option A
or_else none b = b
or_else (some a) b = some a

unfoldable pub is_cancelled : LoopEnd → Bool
is_cancelled LoopEnd.cancelled = true
is_cancelled _ = false

unfoldable pub is_failed : Disposition → Bool
is_failed Disposition.failed = true
is_failed _ = false

-- The record's `error`: the abort reason, only when the call resolves to `failed`.
unfoldable pub surfaced : Option Bytes → Disposition → Option Bytes
unfolding is_failed
surfaced abort_reason d = if is_some abort_reason && is_failed d then abort_reason else none

unfoldable pub count_abort : Counters → Bool → Disposition → Counters
unfolding is_failed
count_abort c had_abort d =
    if had_abort && is_failed d
    then record c { quality_aborted = wrapping_add64 c.quality_aborted 1 }
    else c

module _ {V F : Type 0} where
  unfoldable pub finalize_call :
      Shared V F
      → Bytes
      → Bool
      → Option Bytes
      → Option CallOutcome
      → CallShape
      → Option V
      → Option Bytes
      → ℕ
      → Shared V F × Disposition
  finalize_call w call_id was_cancelled amd sip shape goal error ended_ms =
      let d = resolve_disposition was_cancelled amd sip shape in
      (
        record w {
          store = finalize w.store call_id d goal error ended_ms;
          counters = bump_disposition w.counters d;
        },
        d,
      )

  abbrev pub transcript_length : Option (CallRecord V F) → ℕ
  transcript_length none = 0
  transcript_length (some r) = length r.transcript

  -- `store.set_quality` and the totals that are added once per call.
  unfoldable pub add_quality : Shared V F → Bytes → CallQuality F → Shared V F
  add_quality w call_id q = record w {
    store = record w.store { inner = set_quality w.store.inner call_id q };
    counters = record w.counters {
      underruns = wrapping_add64 w.counters.underruns q.underruns;
      starved_ms = wrapping_add64 w.counters.starved_ms q.starved_ms;
      uplink_received = wrapping_add64 w.counters.uplink_received q.uplink_received;
      uplink_lost = wrapping_add64 w.counters.uplink_lost q.uplink_lost;
    };
  }

  -- The end of the call as the teardown's `CallShape` has it, once the transcript is stored.
  unfoldable pub answered_shape : Shared V F → Bytes → ℕ → EndedBy → CallShape
  answered_shape w call_id duration_ms ended_by = record {
    answered = true;
    duration_ms = duration_ms;
    transcript_len = transcript_length (get w.store.inner call_id);
    ended_by = ended_by;
  }

-- Step 9 of `run_call`. `amd_of` is `get("amd")` and `as_str` of the goal, a `serde_json::Value`;
-- `q` is the merged snapshot, `duration_now` and `ended_now` the two readings of the clock.
abbrev pub verdict_of : {V : Type 0} → (V → Option Bytes) → Option V → Option Bytes
verdict_of amd_of none = none
verdict_of amd_of (some g) = amd_of g

module _ {V F : Type 0} (amd_of : V → Option Bytes) where
  unfoldable pub teardown :
      Shared V F
      → Bytes
      → LoopEnd
      → Option V
      → Option Bytes
      → SessionOutcome V
      → CallQuality F
      → ℕ
      → ℕ
      → ℕ
      → Shared V F × Disposition
  unfolding is_cancelled surfaced count_abort
  teardown w call_id end_state goal abort_reason session q answered_at duration_now ended_now =
      let measured = add_quality w call_id q in
      let told = record measured {
        store = record measured.store {
          inner = set_transcript measured.store.inner call_id session.transcript;
        };
      } in
      let final_goal = or_else goal session.goal in
      let amd = verdict_of amd_of final_goal in
      let shape = answered_shape told call_id (duration_now - answered_at) session.ended_by in
      let d = resolve_disposition (is_cancelled end_state) amd none shape in
      let done =
        finalize_call told call_id (is_cancelled end_state) amd none shape final_goal
          (surfaced abort_reason d) ended_now in
      (
        record done.0 { counters = count_abort done.0.counters (is_some abort_reason) done.1 },
        done.1,
      )
