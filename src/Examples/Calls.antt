-- ===== src/Examples/Calls.antt =====
-- The store, the dispositions and the end of a call, at concrete inputs.
use kutsu.Base.{ℕ, ◌≡◌, inr, refl, true, none, some, arith}
use kutsu.Base.Bytes.{bytes_eq}
use kutsu.Disposition.{ascii, Disposition, CallShape, EndedBy}
use kutsu.Disposition.Precedence.{IsUnknown}
use kutsu.Base.Decimal.{parse_u64}
use kutsu.Store.{
  update, is_ended, strip_call, CallStore, CallState, get, finalize, call_seq, ended_pairs,
  end_record,
}
use kutsu.Store.Eviction.{}
use kutsu.Store.Retention.{finalize_spares_live, finalize_forgets}
use kutsu.Engine.Finish.{teardown}
use kutsu.Engine.Finish.Teardown.{get-teardown, final_record}
use kutsu.Engine.Loop.{LoopEnd}
use kutsu.Examples.{quality, call, session, records, shared}

abbrev short_call : CallShape
short_call = record {
  answered = true;
  duration_ms = 4000;
  transcript_len = 0;
  ended_by = EndedBy.remote_close;
}

no_verdict : IsUnknown none
no_verdict = record {
  no_voicemail = λ h. ground arith;
  no_announcement = λ h. ground arith;
  no_ivr = λ h. ground arith;
  no_hold = λ h. ground arith;
  no_live = λ h. ground arith;
}

finalize_spares_live_example :
    get
      (finalize shared.store (ascii "call-0") Disposition.completed none none 5000).inner
      (ascii "call-1")
    ≡ some (call (ascii "call-1") CallState.queued)
unfolding bytes_eq get is_ended
finalize_spares_live_example =
    finalize_spares_live shared.store (ascii "call-0") Disposition.completed none none 5000
      (ascii "call-1") (call (ascii "call-1") CallState.queued) (ground arith) (λ h. ground arith)
      refl refl

-- The store keeps one ended call, and a newer one has ended before.
abbrev full_store : CallStore ℕ ℕ
full_store = record { inner = records; max_history = 1 }

finalize_forgets_example :
    get
      (finalize full_store (ascii "call-0") Disposition.completed (some 7) none 5000).inner
      (ascii "call-0")
    ≡ none
unfolding bytes_eq get ended_pairs update is_ended end_record call_seq strip_call parse_u64
finalize_forgets_example =
    finalize_forgets full_store (ascii "call-0") Disposition.completed (some 7) none 5000
      (call (ascii "call-0") CallState.in_progress) refl (ground arith) (ground arith)

get-teardown_example :
    get
      (teardown
        (λ v. none)
        shared
        (ascii "call-0")
        LoopEnd.failed
        none
        (some (ascii "aborted"))
        session
        quality
        1000
        9000
        9100).0.store.inner
      (ascii "call-0")
    ≡ some (
        final_record
          (λ v. none)
          shared
          (ascii "call-0")
          LoopEnd.failed
          none
          (some (ascii "aborted"))
          session
          quality
          1000
          9000
          9100
          (call (ascii "call-0") CallState.in_progress))
unfolding bytes_eq get ended_pairs is_ended
get-teardown_example =
    get-teardown (λ v. none) shared (ascii "call-0") LoopEnd.failed none (some (ascii "aborted"))
      session quality 1000 9000 9100 (call (ascii "call-0") CallState.in_progress) refl
      (inr (ground arith))
