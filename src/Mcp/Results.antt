-- ===== src/Mcp/Results.antt =====
-- What the task of a call ends with (src/mcp.rs), once the engine has torn the call down.
use kutsu.Base.{
  ℕ, suc, ◌≤◌, ◌≡◌, ◌⊎◌, refl, ◌∙◌, ap, Bool, true, false, Option, none, some, List, [], ◌∷◌, ◌++◌,
  All, arith, length,
}
use kutsu.Base.Bytes.{Bytes}
use kutsu.Disposition.{Disposition}
use kutsu.Store.{CallQuality, CallRecord, TranscriptEntry, get, ended_pairs}
use kutsu.Engine.Loop.{LoopEnd}
use kutsu.Engine.Finish.{Shared, SessionOutcome, teardown}
use kutsu.Engine.Finish.Teardown.{verdict, final_record, get-teardown}
use kutsu.Engine.Finish.Tally.{same}
use kutsu.Engine.Scheduler.{Engine}
use kutsu.Mcp.{
  TaskResult, success, cancelled, error, invalid_params, internal_error, result_for,
  task_result_for, told, is_terminal_state,
}
use kutsu.Mcp.Task.{Wake, polled, withdrawn, refreshed, is_over, wait, run_task}

-- The call reached someone or something.
abbrev pub is_reached : Disposition → Bool
is_reached Disposition.completed = true
is_reached Disposition.voicemail = true
is_reached Disposition.announcement = true
is_reached Disposition.ivr = true
is_reached Disposition.hold = true
is_reached Disposition.busy = false
is_reached Disposition.no_answer = false
is_reached Disposition.rejected = false
is_reached Disposition.not_found = false
is_reached Disposition.unavailable = false
is_reached Disposition.failed = false
is_reached Disposition.cancelled = false

module _ {V : Type 0} where
  abbrev pub is_success : TaskResult V → Bool
  is_success (success b) = true
  is_success cancelled = false
  is_success (error e) = false

  abbrev pub is_withdrawn : TaskResult V → Bool
  is_withdrawn cancelled = true
  is_withdrawn (success b) = false
  is_withdrawn (error e) = false

  abbrev pub answer_of : TaskResult V → Option (List TranscriptEntry × Option V × Option Bytes)
  answer_of (success b) = b.from_record
  answer_of cancelled = none
  answer_of (error e) = none

  -- The call that an error names, and its text.
  abbrev pub named_by : TaskResult V → Option (Bytes × Option Bytes)
  named_by (error (internal_error text who)) = who
  named_by (error (invalid_params text)) = none
  named_by (success b) = none
  named_by cancelled = none

  abbrev pub text_of : TaskResult V → Option Bytes
  text_of (error (internal_error text who)) = some text
  text_of (error (invalid_params text)) = some text
  text_of (success b) = none
  text_of cancelled = none

-- Before the end: a poll that does not see it, or a refresh.
abbrev pub IsEarly : {S V F : Type 0} → Bytes → Wake S V F → Type 0
IsEarly id (polled e e' now) = is_over e id ≡ false
IsEarly id (refreshed e) = Unit {0}
IsEarly id (withdrawn e now) = ⊥

module _ {V F : Type 0} where
  -- `res` reports the record `r` of an ended call of disposition `d`.
  pub record Reports (r : CallRecord V F) (d : Disposition) (res : TaskResult V) : Type 0 where
    pub reached : is_success res ≡ is_reached d
    pub called_off : is_withdrawn res ≡ same d Disposition.cancelled
    pub carries : is_success res ≡ true → answer_of res ≡ some (told r)
    pub names :
        is_reached d ≡ false
        → is_withdrawn res ≡ false
        → named_by res ≡ some (r.call_id, r.client_ref)
    pub explains :
        (text : Bytes)
        → is_reached d ≡ false
        → is_withdrawn res ≡ false
        → r.error ≡ some text
        → text_of res ≡ some text

  result_for-Reports :
      (d : Disposition) (r : CallRecord V F) (now : ℕ) → Reports r d (result_for d r now)
  unfolding result_for
  result_for-Reports Disposition.completed r now = ground arith
  result_for-Reports d r now = ground arith

  -- The watcher at one poll of a call that has ended.
  wait-polled :
      {S : Type 0} (id : Bytes) (ws ws' : List (Wake S V F)) (e e' : Engine S V F) (now : ℕ)
      → All (λ w. IsEarly id w) ws
      → is_over e id ≡ true
      → (wait id (ws ++ (polled e e' now ∷ ws'))).result
        ≡ some (task_result_for (get e'.hub.shared.store.inner id) now)
  unfolding wait
  wait-polled id [] ws' e e' now early over = rw (over, wait) refl
  wait-polled id (polled d d' t ∷ ws) ws' e e' now early over =
      rw (early.0, wait) (wait-polled id ws ws' e e' now early.1 over)
  wait-polled id (refreshed d ∷ ws) ws' e e' now early over =
      wait-polled id ws ws' e e' now early.1 over
  wait-polled id (withdrawn d t ∷ ws) ws' e e' now early over = elim early.0 [ ]

module _ {V F : Type 0} (amd_of : V → Option Bytes) (w : Shared V F) (call_id : Bytes)
    (end_state : LoopEnd) (goal : Option V) (abort_reason : Option Bytes)
    (session : SessionOutcome V) (q : CallQuality F) (answered_at duration_now ended_now : ℕ) where
  abbrev record_after : CallRecord V F → CallRecord V F
  record_after r =
      final_record amd_of w call_id end_state goal abort_reason session q answered_at duration_now
        ended_now r

  abbrev verdict_after : Disposition
  verdict_after =
      verdict amd_of w call_id end_state goal abort_reason session q answered_at duration_now
        ended_now

  over_after :
      {S : Type 0} (e : Engine S V F) (r : CallRecord V F)
      → get e.hub.shared.store.inner call_id ≡ some (record_after r)
      → is_over e call_id ≡ true
  unfolding is_over final_record is_terminal_state
  over_after e r h = ground arith

  result_after :
      (r : CallRecord V F) (now : ℕ)
      → task_result_for (some (record_after r)) now ≡ result_for verdict_after (record_after r) now
  unfolding task_result_for final_record
  result_after r now = refl

  -- The task of a call that the engine tears down, with room in the store: if it was not withdrawn
  -- before the watcher sees the end, it ends there, with a result that reports the call as it was
  -- torn down. It succeeds exactly if the call reached someone or a machine, with the transcript,
  -- the goal and the caller's tag; it is withdrawn exactly if the call was cancelled; else it is an
  -- error that names the call and gives the reason of an abort.
  pub run_task-teardown :
      {S : Type 0} (r : CallRecord V F) (e0 e : Engine S V F) (ws ws' : List (Wake S V F)) (now : ℕ)
      → get w.store.inner call_id ≡ some r
      → (w.store.max_history ≡ 0) ⊎ (suc (length (ended_pairs w.store.inner)) ≤ w.store.max_history)
      → e.hub.shared
        ≡ (teardown amd_of w call_id end_state goal abort_reason session q answered_at duration_now
            ended_now).0
      → All (λ x. IsEarly call_id x) ws
      → (res : TaskResult V) × ((run_task e0 call_id (ws ++ (polled e e now ∷ ws'))).result
          ≡ some res)
        × Reports
            (final_record amd_of w call_id end_state goal abort_reason session q answered_at
              duration_now ended_now r)
            (verdict amd_of w call_id end_state goal abort_reason session q answered_at duration_now
              ended_now)
            res
  unfolding run_task
  run_task-teardown r e0 e ws ws' now there room after early =
      let found : get e.hub.shared.store.inner call_id ≡ some (record_after r) =
        ap (λ (x : Shared V F). get x.store.inner call_id) after
        ∙ get-teardown amd_of w call_id end_state goal abort_reason session q answered_at
            duration_now ended_now r there room in
      (
        result_for verdict_after (record_after r) now,
        wait-polled call_id ws ws' e e now early (over_after e r found)
            ∙ ap some (
                ap (λ (x : Option (CallRecord V F)). task_result_for x now) found
                ∙ result_after r now),
        result_for-Reports verdict_after (record_after r) now,
      )
