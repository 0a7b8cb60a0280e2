-- ===== src/Engine/RunCall/Settled.antt =====
-- What every way through `run_call` (src/engine.rs) leaves behind.
use kutsu.Base.{
  Bool-cases, inl, inr, ℕ, ◌+◌, ◌≡◌, ◌<◌, ap, sym, subst, refl, Bool, true, false, Option, none,
  some, arith, if◌then◌else◌, ltb, wrapping_add64,
}
use kutsu.Base.Bytes.{Bytes}
use kutsu.Outcome.{CallOutcome}
use kutsu.Disposition.{Disposition, CallShape}
use kutsu.Store.{CallQuality, CallRecord, queued, ended, get, set_state}
use kutsu.Store.Lookup.{get-update_self}
use kutsu.Queue.{push}
use kutsu.Breaker.{Breaker, on_result}
use kutsu.NetCheck.{Stats, NetworkHealth, NetCheckConfig}
use kutsu.Engine.Gates.{should_retry_busy, is_some}
use kutsu.Engine.Loop.{LoopEnd}
use kutsu.Engine.Finish.{Shared, Counters, SessionOutcome, finalize_call, teardown, add_quality}
use kutsu.Engine.Finish.Tally.{tally, same, tally-bump}
use kutsu.Engine.Finish.Teardown.{tally-quality, tally-abort}
use kutsu.Engine.Hub.{Hub, notify_one, requeue, count_placed}
use kutsu.Engine.RunCall.Recorded.{
  IsKept, IsRecorded, finalize_call-IsRecorded, teardown-IsRecorded, mark_answered-IsKept,
}
use kutsu.Engine.RunCall.{
  Script, Ending, finalized, requeued, RingOutcome, terminated, failed_with, TermReason, hung_up,
  answered, closed, RetryConfig, end_unanswered, on_terminated, on_answered, after_ring,
  after_invite, after_preflight, mark_answered, run_call, preflight_phase, is_busy, ring_failure,
  PreflightEnd, called_off, usable, gave_up,
}

module _ {V F : Type 0} where
  -- The tallies after one more call resolved to `d`.
  abbrev pub Counted : Shared V F → Disposition → Shared V F → Type 0
  Counted w d w' =
      (x : Disposition)
      → tally w'.counters x
        ≡ (if same d x then wrapping_add64 (tally w.counters x) 1 else tally w.counters x)

  finalize_call-Counted :
      (w : Shared V F) (id : Bytes) (c : Bool) (amd : Option Bytes) (sip : Option CallOutcome)
      (shape : CallShape) (goal : Option V) (error : Option Bytes) (now : ℕ)
      → Counted w
          (finalize_call w id c amd sip shape goal error now).1
          (finalize_call w id c amd sip shape goal error now).0
  unfolding finalize_call
  finalize_call-Counted w id c amd sip shape goal error now x = tally-bump w.counters _ x

  teardown-Counted :
      (amd_of : V → Option Bytes) (w : Shared V F) (id : Bytes) (e : LoopEnd) (goal : Option V)
      (abort : Option Bytes) (session : SessionOutcome V) (q : CallQuality F) (a b c : ℕ)
      → Counted w
          (teardown amd_of w id e goal abort session q a b c).1
          (teardown amd_of w id e goal abort session q a b c).0
  unfolding teardown finalize_call add_quality
  teardown-Counted amd_of w id e goal abort session q a b c x =
      (tally-abort w.counters _ (is_some abort) _ _ x refl (tally-quality w.counters q x) refl).0

abbrev pub is_busy_ring : RingOutcome → Bool
is_busy_ring (terminated (failed_with CallOutcome.busy detail)) = true
is_busy_ring _ = false

tally-placed : (c : Counters) (x : Disposition) → tally (count_placed c) x ≡ tally c x
unfolding tally count_placed
tally-placed c x = ground arith

module _ {S V F : Type 0} (retry : RetryConfig) (script : Script V F) (h : Hub S V F)
    (call_id number : Bytes) (scenario : S) (attempt : ℕ) where
  -- What a call leaves: finalized, it is counted once, the queue is as it was, and its record has
  -- ended with the disposition; requeued, the ring ended busy with an attempt left, nothing is
  -- counted, the queue has its next attempt, and its record is queued again.
  abbrev pub IsSettled : Hub S V F × Ending → Type 0
  IsSettled (h', finalized d) =
      Counted h.shared d h'.shared
      × (h'.queue ≡ h.queue)
      × (h'.breaker ≡ h.breaker)
      × IsRecorded call_id ended (some d) h'.shared
  IsSettled (h', requeued) =
      (is_busy_ring script.ring ≡ true)
      × (attempt < retry.busy_max_attempts)
      × (h'.queue
          ≡ push h.queue (record {
            call_id = call_id;
            number = number;
            scenario = scenario;
            eligible_at_ms = wrapping_add64 script.requeued_at retry.busy_retry_interval_ms;
            attempt = attempt + 1;
          }))
      × (h'.breaker ≡ notify_one h.breaker)
      × ((x : Disposition) → tally h'.shared.counters x ≡ tally h.shared.counters x)
      × ((r : CallRecord V F) × (get h'.shared.store.inner call_id ≡ some r) × (r.state ≡ queued))

module _ {S V F : Type 0} (retry : RetryConfig) (script : Script V F) (h : Hub S V F)
    (call_id number : Bytes) (scenario : S) (attempt : ℕ) (r : CallRecord V F)
    (k : IsKept call_id h.shared r) where
  abbrev Settles : Hub S V F × Ending → Type 0
  Settles = IsSettled retry script h call_id number scenario attempt

  requeue-IsSettled :
      is_busy_ring script.ring ≡ true
      → attempt < retry.busy_max_attempts
      → Settles (
        requeue h call_id number scenario
            (wrapping_add64 script.requeued_at retry.busy_retry_interval_ms)
            (attempt + 1),
        requeued,
      )
  unfolding requeue set_state
  requeue-IsSettled busy left = (
    busy,
    left,
    refl,
    refl,
    tally-placed h.shared.counters,
    (
      record r { state = queued },
      get-update_self h.shared.store.inner call_id (λ x. record x { state = queued }) r (λ x. refl)
          k.here,
      refl,
    ),
  )

  unanswered-IsSettled :
      (c : Bool) (sip : Option CallOutcome) (error : Option Bytes) (now : ℕ)
      → Settles (end_unanswered h call_id c sip error now)
  unfolding end_unanswered
  unanswered-IsSettled c sip error now = (
    finalize_call-Counted h.shared call_id c none sip _ none error now,
    refl,
    refl,
    finalize_call-IsRecorded call_id h.shared r c none sip _ none error now k,
  )

  terminated-IsSettled :
      (reason : TermReason)
      → script.ring ≡ terminated reason
      → Settles (on_terminated retry script h call_id number scenario attempt reason)
  unfolding on_terminated is_busy ring_failure should_retry_busy
  terminated-IsSettled (hung_up detail) e = unanswered-IsSettled false _ _ _
  terminated-IsSettled (failed_with CallOutcome.busy detail) e =
      elim (Bool-cases (ltb attempt retry.busy_max_attempts)) [
        | inl lt ↦
            subst Settles
              (sym (
                ap
                  (λ b.
                    if b
                    then (
                      requeue h call_id number scenario
                          (wrapping_add64 script.requeued_at retry.busy_retry_interval_ms)
                          (attempt + 1),
                      requeued,
                    )
                    else end_unanswered h call_id false (some CallOutcome.busy) (some detail)
                        script.ended_at)
                  lt))
              (requeue-IsSettled (ap is_busy_ring e) (ground arith))
        | inr ge ↦
            subst Settles
              (sym (
                ap
                  (λ b.
                    if b
                    then (
                      requeue h call_id number scenario
                          (wrapping_add64 script.requeued_at retry.busy_retry_interval_ms)
                          (attempt + 1),
                      requeued,
                    )
                    else end_unanswered h call_id false (some CallOutcome.busy) (some detail)
                        script.ended_at)
                  ge))
              (unanswered-IsSettled false (some CallOutcome.busy) (some detail) script.ended_at)
      ]
  terminated-IsSettled (failed_with CallOutcome.completed detail) e =
      unanswered-IsSettled false _ _ _
  terminated-IsSettled (failed_with CallOutcome.no_answer detail) e =
      unanswered-IsSettled false _ _ _
  terminated-IsSettled (failed_with CallOutcome.rejected detail) e =
      unanswered-IsSettled false _ _ _
  terminated-IsSettled (failed_with CallOutcome.not_found detail) e =
      unanswered-IsSettled false _ _ _
  terminated-IsSettled (failed_with CallOutcome.unavailable detail) e =
      unanswered-IsSettled false _ _ _
  terminated-IsSettled (failed_with CallOutcome.failed detail) e = unanswered-IsSettled false _ _ _

  answered-IsSettled :
      (amd_of : V → Option Bytes) (error : Option Bytes)
      → Settles (on_answered amd_of script h call_id error)
  unfolding on_answered mark_answered
  answered-IsSettled amd_of (some e) = (
    λ x. finalize_call-Counted _ call_id false none none _ none _ _ x,
    refl,
    refl,
    finalize_call-IsRecorded call_id _ _ false none none _ none _ _
        (mark_answered-IsKept call_id h.shared r k),
  )
  answered-IsSettled amd_of none = (
    λ x. teardown-Counted amd_of _ call_id _ _ _ _ _ _ _ _ x,
    refl,
    refl,
    teardown-IsRecorded call_id amd_of _ _ _ _ _ _ _ _ _ _
        (mark_answered-IsKept call_id h.shared r k),
  )

  ring-IsSettled :
      (amd_of : V → Option Bytes) (r : RingOutcome)
      → script.ring ≡ r
      → Settles (after_ring amd_of retry script h call_id number scenario attempt r)
  unfolding after_ring
  ring-IsSettled amd_of answered e = answered-IsSettled amd_of script.connect_error
  ring-IsSettled amd_of (terminated reason) e = terminated-IsSettled reason e
  ring-IsSettled amd_of closed e = unanswered-IsSettled false none _ _

  invite-IsSettled :
      (amd_of : V → Option Bytes) (error : Option Bytes)
      → Settles (after_invite amd_of retry script h call_id number scenario attempt error)
  unfolding after_invite
  invite-IsSettled amd_of (some e) = unanswered-IsSettled false none _ _
  invite-IsSettled amd_of none = ring-IsSettled amd_of script.ring refl

module _ {S V F : Type 0} (h : Hub S V F) (reported_at : ℕ) where
  -- The breaker hears of the preflight once, and of nothing else: not when the check is off, and
  -- not when the call was cancelled during it.
  abbrev pub told_breaker : Bool → PreflightEnd → Breaker
  told_breaker false p = h.breaker
  told_breaker true called_off = h.breaker
  told_breaker true usable = on_result h.breaker true reported_at
  told_breaker true (gave_up e) = on_result h.breaker false reported_at

  -- The hub with what its breaker was told.
  abbrev pub told : Bool → PreflightEnd → Hub S V F
  told checked p = record h { breaker = told_breaker checked p }

module _ {S V : Type 0} (s : Stats) (summary : NetworkHealth s.F → Bytes)
    (amd_of : V → Option Bytes) (nc : NetCheckConfig s.F) (retry : RetryConfig)
    (script : Script V s.F) (h : Hub S V s.F) (call_id number : Bytes) (scenario : S) (attempt : ℕ)
    (r : CallRecord V s.F) (k : IsKept call_id h.shared r) where
  preflight-IsSettled :
      (p : PreflightEnd)
      → IsSettled retry script
          (told h script.reported_at true p)
          call_id
          number
          scenario
          attempt
          (after_preflight s summary amd_of nc retry script h call_id number scenario attempt p)
  unfolding after_preflight
  preflight-IsSettled called_off =
      unanswered-IsSettled retry script h call_id number scenario attempt r k true none _ _
  preflight-IsSettled usable =
      invite-IsSettled retry script (told h script.reported_at true usable) call_id number scenario
        attempt r (record { here = k.here; room = k.room }) amd_of script.invite_error
  preflight-IsSettled (gave_up e) =
      unanswered-IsSettled retry script (told h script.reported_at true (gave_up e)) call_id number
        scenario attempt r (record { here = k.here; room = k.room }) false none _ _

  checked-IsSettled :
      (checked : Bool) (p : PreflightEnd)
      → IsSettled retry script
          (told h script.reported_at checked p)
          call_id
          number
          scenario
          attempt
          (if checked
            then after_preflight s summary amd_of nc retry script h call_id number scenario attempt
                p
            else after_invite amd_of retry script h call_id number scenario attempt
                script.invite_error)
  checked-IsSettled true p = preflight-IsSettled p
  checked-IsSettled false p =
      invite-IsSettled retry script h call_id number scenario attempt r k amd_of script.invite_error

  -- Every way through `run_call` settles the call in one of two ways, where the store holds its
  -- record and has room for one more ended call. It is finalized: then its record has ended with
  -- the disposition, the counter of that, and no other, has grown by one, and the queue is as it
  -- was. Or it is requeued: then the ring ended busy with an attempt left, no disposition is
  -- counted, its record is queued, the queue has gained the next attempt under the same id, after
  -- the configured wait, and the dispatcher is woken. Besides that wake, the breaker has heard of
  -- the preflight's result, once, when the check is on and was not interrupted by a cancellation,
  -- and of nothing else.
  pub run_call-IsSettled :
      IsSettled retry script
        (told h script.reported_at nc.enabled (preflight_phase s summary nc script.probes))
        call_id
        number
        scenario
        attempt
        (run_call s summary amd_of nc retry script h call_id number scenario attempt)
  unfolding run_call
  run_call-IsSettled = checked-IsSettled nc.enabled (preflight_phase s summary nc script.probes)
