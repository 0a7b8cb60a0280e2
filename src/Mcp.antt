-- ===== src/Mcp.antt =====
-- src/mcp.rs: the four tools over the engine, and the task that a call runs as. The JSON bodies are
-- data; the clock, and what the rest of the engine does meanwhile, are arguments.
pub mod Task
pub mod Results
pub mod Placing
use kutsu.Base.{
  ℕ, zero, ◌+◌, ◌*◌, ◌%◌, Bool, true, false, not, ◌||◌, Option, none, some, List, [], ◌∷◌, ◌++◌,
  ltb, if◌then◌else◌,
}
use kutsu.Base.Bytes.{Bytes}
use kutsu.Base.Decimal.{print_decimal}
use kutsu.Disposition.{Disposition, ascii}
use kutsu.Store.{
  CallQuality, CallRecord, CallState, queued, ringing, in_progress, ended, TranscriptEntry, get,
}
use kutsu.Gemini.{trim}
use kutsu.Engine.Finish.{or_else}
use kutsu.Engine.Hub.{Hub, place_call_at}
use kutsu.Engine.Scheduler.{Engine, end_call, queued_position, suggested_poll_interval_ms}

abbrev pub or_some {ℓ} : {A : Type ℓ} → Option A → A → A
or_some none b = b
or_some (some a) b = a

-- The name that a disposition is serialized with.
unfoldable pub name_of : Disposition → Bytes
name_of Disposition.completed = ascii "completed"
name_of Disposition.voicemail = ascii "voicemail"
name_of Disposition.announcement = ascii "announcement"
name_of Disposition.ivr = ascii "ivr"
name_of Disposition.hold = ascii "hold"
name_of Disposition.busy = ascii "busy"
name_of Disposition.no_answer = ascii "no_answer"
name_of Disposition.rejected = ascii "rejected"
name_of Disposition.not_found = ascii "not_found"
name_of Disposition.unavailable = ascii "unavailable"
name_of Disposition.failed = ascii "failed"
name_of Disposition.cancelled = ascii "cancelled"

-- `ErrorData`, with the call that an internal error is about.
pub data ErrorData : Type 0 where
  invalid_params : Bytes → ErrorData
  internal_error : Bytes → Option (Bytes × Option Bytes) → ErrorData

unfoldable pub unknown_call : Bytes → ErrorData
unknown_call id = invalid_params (ascii "unknown call_id: " ++ id)

unfoldable pub is_terminal_state : CallState → Bool
is_terminal_state ended = true
is_terminal_state _ = false

-- `PlaceCallArgs`, its scenario of a type of its own.
pub record PlaceCallArgs (S : Type 0) : Type 0 where
  pub to_number : Bytes
  pub scenario : S
  pub schedule_at : Option ℕ
  pub client_ref : Option Bytes

-- What the configuration gives the tools.
pub record McpConfig : Type 0 where
  pub max_call_secs : ℕ
  pub channels : ℕ
  pub poll_interval_ms : ℕ
  pub poll_interval_max_ms : ℕ

-- The body of an answered call's result: the disposition stands in it for a call that reached a
-- machine; what the record has is missing without a record.
pub record ResultBody (V : Type 0) : Type 0 where
  pub disposition : Option Disposition
  pub from_record : Option (List TranscriptEntry × Option V × Option Bytes)
  pub server_time_unix : ℕ

pub data TaskResult (V : Type 0) : Type 0 where
  success : ResultBody V → TaskResult V
  cancelled : TaskResult V
  error : ErrorData → TaskResult V

-- What `place_call` answers with.
pub data PlaceReply : Type 0 where
  refused : ErrorData → PlaceReply
  immediate : Bytes → ℕ → PlaceReply
  task : ℕ → ℕ → Bytes → PlaceReply

pub record StatusBody (V F : Type 0) : Type 0 where
  pub call_id : Bytes
  pub state : CallState
  pub number : Bytes
  pub started_ms : ℕ
  pub ended_ms : Option ℕ
  pub error : Option Bytes
  pub queued_position : Option ℕ
  pub quality : CallQuality F
  pub disposition : Option Disposition
  pub goal : Option V
  pub attempt : ℕ
  pub client_ref : Option Bytes
  pub server_time_unix : ℕ

pub record TranscriptBody (V F : Type 0) : Type 0 where
  pub call_id : Bytes
  pub state : CallState
  pub disposition : Option Disposition
  pub transcript : List TranscriptEntry
  pub goal : Option V
  pub quality : CallQuality F
  pub client_ref : Option Bytes

pub data Reply (B : Type 0) : Type 0 where
  ok : B → Reply B
  err : ErrorData → Reply B

abbrev pub no_disposition : {V : Type 0} → TaskResult V
no_disposition = error (internal_error (ascii "call ended with no disposition") none)

module _ {V F : Type 0} where
  unfoldable pub call_status_label : CallRecord V F → Bytes
  unfolding name_of
  call_status_label rec = elim rec.state [
    | queued ↦ ascii "queued"
    | ringing ↦ ascii "ringing"
    | in_progress ↦ ascii "in progress"
    | ended ↦ elim rec.disposition [ some d ↦ name_of d | none ↦ ascii "ended" ]
  ]

  abbrev pub told : CallRecord V F → List TranscriptEntry × Option V × Option Bytes
  told r = (r.transcript, r.goal, r.client_ref)

  abbrev pub answered_result : Option Disposition → CallRecord V F → ℕ → TaskResult V
  answered_result d r now =
      success (record { disposition = d; from_record = some (told r); server_time_unix = now })

  abbrev pub failed_result : Disposition → CallRecord V F → TaskResult V
  failed_result d r = error (
      internal_error (or_some r.error (ascii "call ended: " ++ name_of d))
        (some (r.call_id, r.client_ref)))

  -- A record's result by its disposition.
  unfoldable pub result_for : Disposition → CallRecord V F → ℕ → TaskResult V
  unfolding name_of
  result_for Disposition.completed r now = answered_result none r now
  result_for Disposition.voicemail r now = answered_result (some Disposition.voicemail) r now
  result_for Disposition.announcement r now = answered_result (some Disposition.announcement) r now
  result_for Disposition.ivr r now = answered_result (some Disposition.ivr) r now
  result_for Disposition.hold r now = answered_result (some Disposition.hold) r now
  result_for Disposition.cancelled r now = cancelled
  result_for Disposition.busy r now = failed_result Disposition.busy r
  result_for Disposition.no_answer r now = failed_result Disposition.no_answer r
  result_for Disposition.rejected r now = failed_result Disposition.rejected r
  result_for Disposition.not_found r now = failed_result Disposition.not_found r
  result_for Disposition.unavailable r now = failed_result Disposition.unavailable r
  result_for Disposition.failed r now = failed_result Disposition.failed r

  unfoldable pub task_result_for : Option (CallRecord V F) → ℕ → TaskResult V
  unfolding result_for
  task_result_for none now = no_disposition
  task_result_for (some r) now = elim r.disposition [
    | none ↦ no_disposition
    | some d ↦ result_for d r now
  ]

abbrev pub optional : Bytes → Option Bytes → Bytes
optional lead none = []
optional lead (some s) = lead ++ s

abbrev pub printed : Option ℕ → Option Bytes
printed none = none
printed (some n) = some (print_decimal n)

abbrev pub later_than : ℕ → Option ℕ → Option ℕ
later_than now none = none
later_than now (some t) = if ltb now t then some t else none

abbrev pub is_blank : Bytes → Bool
is_blank s = elim (trim s) [ [] ↦ true | _ ∷ _ ↦ false ]

-- The text that stands in for the result while the task runs.
unfoldable pub immediate_response : Bytes → Bytes → Option Bytes → Option ℕ → Bytes
immediate_response number call_id client_ref pos =
    ascii "Outbound call to "
    ++ number
    ++ ascii " placed; call_id="
    ++ call_id
    ++ optional (ascii ", client_ref=") client_ref
    ++ optional (ascii ", queue position ") (printed pos)
    ++ ascii ". Dialing now "
    ++ (226 ∷ 128 ∷ 148 ∷ [])
    ++ ascii
        " the outcome (disposition, transcript, and the filled goal) will be reported when the call completes; poll the task for the result."

module _ {V F : Type 0} where
  unfoldable pub status_body : CallRecord V F → Option ℕ → ℕ → StatusBody V F
  status_body r pos now = record {
    call_id = r.call_id;
    state = r.state;
    number = r.number;
    started_ms = r.started_ms;
    ended_ms = r.ended_ms;
    error = r.error;
    queued_position = pos;
    quality = r.quality;
    disposition = r.disposition;
    goal = r.goal;
    attempt = r.attempt;
    client_ref = r.client_ref;
    server_time_unix = now;
  }

module _ {S V F : Type 0} where
  abbrev pub record_of : Engine S V F → Bytes → Option (CallRecord V F)
  record_of e id = get e.hub.shared.store.inner id

  -- The reply, once the call is placed; `e` is the engine then.
  unfoldable pub placed_reply :
      McpConfig → Engine S V F → PlaceCallArgs S → Bool → Bool → Bytes → ℕ → PlaceReply
  unfolding immediate_response
  placed_reply c e a scheduled client_supports_tasks call_id now =
      if scheduled || not client_supports_tasks
      then immediate call_id now
      else task ((c.max_call_secs * 1000 + 30000) % 18446744073709551616)
          (suggested_poll_interval_ms c.channels c.poll_interval_ms c.poll_interval_max_ms e
            call_id)
          (immediate_response a.to_number call_id a.client_ref (queued_position e call_id))

  -- An accepted call: the hub with it, its id, and whether it is scheduled.
  unfoldable pub accept :
      CallQuality F → Hub S V F → PlaceCallArgs S → ℕ → ℕ → (Hub S V F × Bytes) × Bool
  unfolding place_call_at
  accept zero_quality h a now started =
      let eligible = or_some (later_than now a.schedule_at) now in
      (
        place_call_at zero_quality h a.to_number a.scenario eligible 1 a.client_ref started,
        ltb now eligible,
      )

  -- `meanwhile` is what the dispatcher and the calls do before the reply is made.
  unfoldable pub place_call_inner :
      McpConfig
      → CallQuality F
      → (Engine S V F → Engine S V F)
      → Engine S V F
      → PlaceCallArgs S
      → Bool
      → ℕ
      → ℕ
      → Engine S V F × PlaceReply
  unfolding accept placed_reply
  place_call_inner c zero_quality meanwhile e a client_supports_tasks now started =
      let ((hub, call_id), scheduled) = accept zero_quality e.hub a now started in
      let e' = meanwhile (record e { hub = hub }) in
      if is_blank a.to_number
      then (e, refused (invalid_params (ascii "to_number must not be empty")))
      else (e', placed_reply c e' a scheduled client_supports_tasks call_id now)

  unfoldable pub get_call_status : Engine S V F → Bytes → ℕ → Reply (StatusBody V F)
  unfolding status_body unknown_call
  get_call_status e id now = elim (record_of e id) [
    | none ↦ err (unknown_call id)
    | some r ↦ ok (status_body r (queued_position e id) now)
  ]

  unfoldable pub get_call_transcript : Engine S V F → Bytes → Reply (TranscriptBody V F)
  unfolding unknown_call
  get_call_transcript e id = elim (record_of e id) [
    | none ↦ err (unknown_call id)
    | some r ↦ ok (record {
      call_id = r.call_id;
      state = r.state;
      disposition = r.disposition;
      transcript = r.transcript;
      goal = r.goal;
      quality = r.quality;
      client_ref = r.client_ref;
    })
  ]

  -- The tool `end_call`: the call, and whether it was signalled.
  unfoldable pub end_call_tool : Engine S V F → Bytes → ℕ → Engine S V F × Reply (Bytes × Bool)
  unfolding unknown_call
  end_call_tool e id now = elim (record_of e id) [
    | none ↦ (e, err (unknown_call id))
    | some _ ↦ (let (e', signalled) = end_call e id now in (e', ok (id, signalled)))
  ]
