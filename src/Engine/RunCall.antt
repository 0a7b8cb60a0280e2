-- ===== src/Engine/RunCall.antt =====
-- src/engine.rs: `run_call`, from the preflight to the last write to the call's record. What the
-- network, the two parties and the clock do is a `Script`; the orchestration loop is Engine/Loop.
pub mod Recorded
pub mod Settled
pub mod Preflight
use kutsu.Base.{
  ℕ, zero, suc, ◌+◌, ◌-◌, max, Bool, true, false, not, ◌&&◌, ◌||◌, Option, none, some, List, [],
  ◌∷◌, ◌++◌, ltb, leb, ◌==◌, if◌then◌else◌, length, wrapping_add64,
}
use kutsu.Base.Bytes.{Bytes}
use kutsu.Outcome.{CallOutcome}
use kutsu.Disposition.{EndedBy, Disposition, CallShape, ascii}
use kutsu.Store.{CallQuality, CallStore, in_progress, set_state}
use kutsu.Queue.{PendingEntry}
use kutsu.Breaker.{Breaker, on_result}
use kutsu.NetCheck.{Stats, NetworkHealth, NetCheckConfig, Verdict, verdict}
use kutsu.Engine.Gates.{should_retry_busy}
use kutsu.Engine.Loop.{LoopEnd}
use kutsu.Engine.Finish.{Shared, SessionOutcome, finalize_call, teardown, unanswered_shape, or_else}
use kutsu.Engine.Hub.{Hub, requeue}

-- `TermReason` of src/sip/mod.rs, with the text of its `Debug` form where the engine prints it.
pub data TermReason : Type 0 where
  hung_up : Bytes → TermReason
  failed_with : CallOutcome → Bytes → TermReason

pub data RingOutcome : Type 0 where
  answered : RingOutcome
  terminated : TermReason → RingOutcome
  closed : RingOutcome

-- What `sip_events.recv()` gives while the call rings, or a tick of the silence interval.
pub data RingEvent : Type 0 where
  silence_tick : RingEvent
  sip_event : RingOutcome → RingEvent

-- `ring_wait`: the answer, and how many frames of silence a warm session was fed. `none`: the
-- call still rings.
unfoldable pub ring_wait : Bool → List RingEvent → ℕ → Option RingOutcome × ℕ
ring_wait warm [] fed = (none, fed)
ring_wait warm (silence_tick ∷ es) fed = ring_wait warm es (if warm then fed + 1 else fed)
ring_wait warm (sip_event r ∷ es) fed = (some r, fed)

-- What one `select!` of the preflight loop gets.
pub data Attempt (F : Type 0) : Type 0 where
  interrupted : Attempt F
  healthy : NetworkHealth F → Attempt F
  probe_error : Bytes → Attempt F

pub data PreflightEnd : Type 0 where
  called_off : PreflightEnd
  usable : PreflightEnd
  gave_up : Option Bytes → PreflightEnd

unfoldable pub is_ok : Verdict → Bool
is_ok Verdict.ok = true
is_ok Verdict.unusable = false

-- The end of a turn: `rest` is the loop's result from the next attempt on.
unfoldable pub after_attempt : PreflightEnd → Bool → PreflightEnd → PreflightEnd
after_attempt called_off in_backoff rest = called_off
after_attempt usable in_backoff rest = usable
after_attempt (gave_up e) in_backoff rest = if in_backoff then called_off else rest

-- `summary` is `NetworkHealth::summary`, a format of its fields.
module _ (s : Stats) (summary : NetworkHealth s.F → Bytes) where
  -- The end of an attempt, before the backoff.
  unfoldable pub probe_end : NetCheckConfig s.F → Attempt s.F → PreflightEnd
  unfolding is_ok
  probe_end nc interrupted = called_off
  probe_end nc (healthy h) =
      if is_ok (verdict s h nc)
      then usable
      else gave_up (some (ascii "network preflight unusable: " ++ summary h))
  probe_end nc (probe_error e) = gave_up (some (ascii "network preflight failed: " ++ e))

  -- The loop from attempt `attempt_i` on, `left + 1` attempts to go. `probes` gives each
  -- attempt's probe, and whether the cancel signal came while it waited out the backoff.
  unfoldable pub preflight_from :
      NetCheckConfig s.F → (ℕ → Attempt s.F × Bool) → ℕ → ℕ → PreflightEnd
  preflight_from nc probes attempt_i zero = probe_end nc (probes attempt_i).0
  preflight_from nc probes attempt_i (suc left) =
      let rest = preflight_from nc probes (attempt_i + 1) left in
      after_attempt (probe_end nc (probes attempt_i).0) (probes attempt_i).1 rest

  -- The phase: `retry_max.max(1)` attempts, or none when the check is off.
  unfoldable pub preflight_phase : NetCheckConfig s.F → (ℕ → Attempt s.F × Bool) → PreflightEnd
  unfolding preflight_from
  preflight_phase nc probes = preflight_from nc probes 1 (max nc.retry_max 1 - 1)

-- What the loop and the session of an answered call leave to the teardown.
pub record Conversation (V F : Type 0) : Type 0 where
  pub end_state : LoopEnd
  pub goal : Option V
  pub abort_reason : Option Bytes
  pub session : SessionOutcome V
  pub last_quality : CallQuality F

-- What comes from outside while a call runs: the probes, the errors of the INVITE and of the
-- Gemini session if any, the end of the ring, the conversation, and the clock where it is read.
pub record Script (V F : Type 0) : Type 0 where
  pub probes : ℕ → Attempt F × Bool
  pub invite_error : Option Bytes
  pub connect_error : Option Bytes
  pub ring : RingOutcome
  pub conversation : Conversation V F
  pub reported_at : ℕ
  pub requeued_at : ℕ
  pub answered_at : ℕ
  pub duration_at : ℕ
  pub ended_at : ℕ

-- How `run_call` left the call.
pub data Ending : Type 0 where
  finalized : Disposition → Ending
  requeued : Ending

-- The part of `ServerConfig` that it reads, besides the check's.
pub record RetryConfig : Type 0 where
  pub busy_max_attempts : ℕ
  pub busy_retry_interval_ms : ℕ

unfoldable pub ring_failure : TermReason → CallOutcome × Bytes
ring_failure (failed_with outcome detail) = (outcome, detail)
ring_failure (hung_up reason) = (CallOutcome.no_answer, reason)

unfoldable pub is_busy : CallOutcome → Bool
is_busy CallOutcome.busy = true
is_busy _ = false

module _ {V F : Type 0} where
  -- `store.set_state(&call_id, CallState::InProgress)`.
  unfoldable pub mark_answered : Shared V F → Bytes → Shared V F
  mark_answered w call_id = record w {
    store = record w.store { inner = set_state w.store.inner call_id in_progress };
  }

module _ {S V F : Type 0} where
  abbrev pub settle : Hub S V F → Shared V F × Disposition → Hub S V F × Ending
  settle h (w, d) = (record h { shared = w }, finalized d)

  -- A finalize site before the answer.
  unfoldable pub end_unanswered :
      Hub S V F → Bytes → Bool → Option CallOutcome → Option Bytes → ℕ → Hub S V F × Ending
  end_unanswered h call_id was_cancelled sip error now =
      settle h
        (finalize_call h.shared call_id was_cancelled none sip unanswered_shape none error now)

  -- The arm of a ring that ended without an answer.
  unfoldable pub on_terminated :
      RetryConfig → Script V F → Hub S V F → Bytes → Bytes → S → ℕ → TermReason → Hub S V F × Ending
  unfolding end_unanswered ring_failure is_busy should_retry_busy
  on_terminated retry script h call_id number scenario attempt reason =
      let (outcome, detail) = ring_failure reason in
      if is_busy outcome && should_retry_busy attempt retry.busy_max_attempts
      then (
        requeue h call_id number scenario
            (wrapping_add64 script.requeued_at retry.busy_retry_interval_ms) (attempt + 1),
        requeued,
      )
      else end_unanswered h call_id false (some outcome) (some detail) script.ended_at

  -- From the answer on, given the error of the warm session, if any; `amd_of` as in the teardown.
  unfoldable pub on_answered :
      (V → Option Bytes) → Script V F → Hub S V F → Bytes → Option Bytes → Hub S V F × Ending
  on_answered amd_of script h call_id (some e) =
      let w = mark_answered h.shared call_id in
      settle h (
        finalize_call w call_id false none none
          (record {
            answered = true;
            duration_ms = script.duration_at - script.answered_at;
            transcript_len = 0;
            ended_by = EndedBy.error;
          })
          none (some (ascii "gemini connect: " ++ e)) script.ended_at)
  on_answered amd_of script h call_id none =
      let w = mark_answered h.shared call_id in
      let c = script.conversation in
      settle h (
        teardown amd_of w call_id c.end_state c.goal c.abort_reason c.session c.last_quality
          script.answered_at script.duration_at script.ended_at)

module _ {S V F : Type 0} (amd_of : V → Option Bytes) (retry : RetryConfig) (script : Script V F)
    (h : Hub S V F) (call_id number : Bytes) (scenario : S) (attempt : ℕ) where
  -- The end of the ring.
  unfoldable pub after_ring : RingOutcome → Hub S V F × Ending
  unfolding end_unanswered on_terminated on_answered
  after_ring answered = on_answered amd_of script h call_id script.connect_error
  after_ring (terminated reason) =
      on_terminated retry script h call_id number scenario attempt reason
  after_ring closed =
      end_unanswered h call_id false none (some (ascii "sip closed before answer")) script.ended_at

  -- From the INVITE on, given its error, if any.
  unfoldable pub after_invite : Option Bytes → Hub S V F × Ending
  unfolding end_unanswered after_ring
  after_invite (some e) = end_unanswered h call_id false none (some e) script.ended_at
  after_invite none = after_ring script.ring

-- `breaker.on_result(usable, now_ms())`.
abbrev pub reported : {S V F : Type 0} → Script V F → Hub S V F → Bool → Hub S V F
reported script h ok = record h { breaker = on_result h.breaker ok script.reported_at }

module _ {S V : Type 0} (s : Stats) (summary : NetworkHealth s.F → Bytes)
    (amd_of : V → Option Bytes) (nc : NetCheckConfig s.F) (retry : RetryConfig)
    (script : Script V s.F) (h : Hub S V s.F) (call_id number : Bytes) (scenario : S)
    (attempt : ℕ) where
  unfoldable pub after_preflight : PreflightEnd → Hub S V s.F × Ending
  unfolding end_unanswered after_invite
  after_preflight called_off = end_unanswered h call_id true none none script.ended_at
  after_preflight usable =
      after_invite amd_of retry script (reported script h true) call_id number scenario attempt
        script.invite_error
  after_preflight (gave_up e) =
      end_unanswered (reported script h false) call_id false none
        (or_else e (some (ascii "network preflight failed"))) script.ended_at

  unfoldable pub run_call : Hub S V s.F × Ending
  unfolding after_invite after_preflight preflight_phase
  run_call =
      if nc.enabled
      then after_preflight (preflight_phase s summary nc script.probes)
      else after_invite amd_of retry script h call_id number scenario attempt script.invite_error
