-- ===== src/Sip.antt =====
-- src/sip/call.rs: `run_call`, the task that drives one call over the SIP user agent of a
-- dependency. What the user agent, the timers and the other ends of the channels do is the input.
-- A text that the user agent formats is given by it.
pub mod Trace
pub mod Hangup
use kutsu.Base.{
  ℕ, ◌+◌, ◌*◌, ◌%◌, Bool, true, false, ◌&&◌, Option, none, some, List, [], ◌∷◌, ◌++◌, ◌==◌,
  if◌then◌else◌,
}
use kutsu.Base.Bytes.{Bytes}
use kutsu.Disposition.{ascii}
use kutsu.Outcome.{CallOutcome, failed, CompletionError, classify_completion_err}
use kutsu.Engine.Gates.{DownlinkQuality, is_some}

pub data G711Kind : Type 0 where
  ulaw alaw : G711Kind

pub record NegotiatedCodec : Type 0 where
  pub pt : ℕ
  pub kind : G711Kind
  pub ptime_ms : ℕ

unfoldable pub g711_kind_from_pt : ℕ → Option G711Kind
g711_kind_from_pt pt = if pt == 0 then some ulaw else if pt == 8 then some alaw else none

abbrev pub or_ulaw : Option G711Kind → G711Kind
or_ulaw none = ulaw
or_ulaw (some k) = k

unfoldable pub neg_codec : ℕ → NegotiatedCodec
unfolding g711_kind_from_pt
neg_codec pt = record { pt = pt; kind = or_ulaw (g711_kind_from_pt pt); ptime_ms = 20 }

-- The variants of `SipError` that the task replies with.
pub data SipError : Type 0 where
  invite : Bytes → SipError
  not_answered : SipError
  media_error : Bytes → SipError

-- `MakeCallError`, as far as the code tells its variants apart.
pub data MakeError : Type 0 where
  status_line request_timed_out other : MakeError

unfoldable pub map_make_err : MakeError → Bytes → SipError
map_make_err MakeError.status_line text = invite text
map_make_err MakeError.request_timed_out text = not_answered
map_make_err MakeError.other text = media_error text

pub data TermReason : Type 0 where
  remote_hangup local_hangup : TermReason
  failed_with : CallOutcome → Bytes → TermReason

pub data SipEvent : Type 0 where
  answered : NegotiatedCodec → SipEvent
  terminated : TermReason → SipEvent

-- What the task does to the world, in order; of a handle that it replies with, whether anyone
-- takes it.
pub data Act : Type 0 where
  reply_err : SipError → Act
  reply_ok : Bool → Act
  cancel_invite terminate_call : Act
  send : SipEvent → Act

-- `SipCall::hangup` after its signal: whether it returns on these events, the channel being open.
unfoldable pub hangup_returns : List SipEvent → Bool
hangup_returns [] = false
hangup_returns (answered c ∷ es) = hangup_returns es
hangup_returns (terminated r ∷ es) = true

-- `call.run()`, or the deadline, while the media are negotiated; of an internal event, whether it
-- was handled.
pub data MediaSignal : Type 0 where
  internal : Bool → MediaSignal
  sender_added : ℕ → MediaSignal
  receiver_added ended deadline : MediaSignal
  broken : Bytes → MediaSignal

-- The receiver report of a stream; times are in milliseconds.
pub record Remote (F : Type 0) : Type 0 where
  pub loss : F
  pub jitter : ℕ
  pub rtt : Option ℕ

-- An arm of the main loop: a tick brings the streams of each RTP session.
pub data Signal (F : Type 0) : Type 0 where
  rr_tick : List (List (Option (Remote F))) → Signal F
  internal : Bool → Signal F
  media ended hangup : Signal F
  broken : Bytes → Signal F

-- What comes from outside before the media.
pub record Dialing : Type 0 where
  pub no_media : Option Bytes
  pub not_made : Option (MakeError × Bytes)
  pub is_wanted : Bool
  pub not_completed : Option (CompletionError × Bytes)
  pub not_acked : Option (CompletionError × Bytes)

abbrev pub completion_failed : CompletionError × Bytes → List Act
completion_failed (e, detail) =
    send (terminated (failed_with (classify_completion_err e) detail)) ∷ []

-- The acts up to the answer, and whether the task goes on.
unfoldable pub dial : Dialing → List Act × Bool
dial d = elim d.no_media [
  | some text ↦ (reply_err (media_error text) ∷ [], false)
  | none ↦ elim d.not_made [
    | some (e, text) ↦ (reply_err (map_make_err e text) ∷ [], false)
    | none ↦
        if d.is_wanted
        then elim d.not_completed [
          | some e ↦ (reply_ok true ∷ completion_failed e, false)
          | none ↦ elim d.not_acked [
            | some e ↦ (reply_ok true ∷ completion_failed e, false)
            | none ↦ (reply_ok true ∷ [], true)
          ]
        ]
        else (reply_ok false ∷ cancel_invite ∷ [], false)
  ]
]

-- The variables of the media loop.
pub record Media : Type 0 where
  pub sender : Bool
  pub receiver : Bool
  pub codec : Option NegotiatedCodec

pub data MediaTurn : Type 0 where
  goes_on : Media → MediaTurn
  returns : List Act → MediaTurn

abbrev pub fails : Bytes → Act
fails detail = send (terminated (failed_with failed detail))

unfoldable pub media_step : Media → MediaSignal → MediaTurn
unfolding neg_codec
media_step m (internal true) = goes_on m
media_step m (internal false) = returns (fails (ascii "internal") ∷ [])
media_step m (sender_added pt) = goes_on (record m { sender = true; codec = some (neg_codec pt) })
media_step m receiver_added = goes_on (record m { receiver = true })
media_step m ended = returns (send (terminated remote_hangup) ∷ [])
media_step m (broken text) = returns (fails text ∷ [])
media_step m deadline =
    returns (fails (ascii "answered but media was not negotiated in time") ∷ terminate_call ∷ [])

abbrev pub no_media_yet : Media
no_media_yet = record { sender = false; receiver = false; codec = none }

-- `panics`: the codec is unwrapped and is not there.
pub data Negotiation : Type 0 where
  waits panics : Negotiation
  established : NegotiatedCodec → Negotiation
  gone : List Act → Negotiation

abbrev pub unwrapped : Option NegotiatedCodec → Negotiation
unwrapped none = panics
unwrapped (some c) = established c

unfoldable pub negotiate : Media → List MediaSignal → Negotiation
unfolding media_step
negotiate m [] = if m.sender && m.receiver then unwrapped m.codec else waits
negotiate m (s ∷ ss) =
    let rest : Negotiation = elim (media_step m s) [
      | goes_on m' ↦ negotiate m' ss
      | returns acts ↦ gone acts
    ] in
    if m.sender && m.receiver then unwrapped m.codec else rest

module _ (F : Type 0) (zero_pct : F) (to_pct : F → F) where
  abbrev pub or_zero : Option ℕ → ℕ
  or_zero none = 0
  or_zero (some n) = n

  abbrev pub no_report : DownlinkQuality F
  no_report = record { present = false; loss_pct = zero_pct; jitter_ms = 0; rtt_ms = 0 }

  unfoldable pub report : Remote F → DownlinkQuality F
  report r = record {
    present = true;
    loss_pct = to_pct r.loss;
    jitter_ms = r.jitter % 4294967296;
    rtt_ms = or_zero r.rtt % 4294967296;
  }

  -- The first report of the streams of a session.
  unfoldable pub first_remote : List (Option (Remote F)) → Option (Remote F)
  first_remote [] = none
  first_remote (none ∷ rs) = first_remote rs
  first_remote (some r ∷ rs) = some r

  -- The first report of all sessions, or none.
  unfoldable pub sampled : List (List (Option (Remote F))) → DownlinkQuality F
  unfolding report first_remote
  sampled [] = no_report
  sampled (rs ∷ rss) = elim (first_remote rs) [ some r ↦ report r | none ↦ sampled rss ]

  pub record Run : Type 0 where
    pub acts : List Act
    pub downlink : DownlinkQuality F
    pub is_over : Bool
    pub panicked : Bool

  unfoldable pub main_step :
      DownlinkQuality F → Signal F → DownlinkQuality F × List Act × Option TermReason
  unfolding sampled
  main_step d (rr_tick rss) = (sampled rss, [], none)
  main_step d (internal true) = (d, [], none)
  main_step d (internal false) = (d, [], some (failed_with failed (ascii "internal")))
  main_step d media = (d, [], none)
  main_step d ended = (d, [], some remote_hangup)
  main_step d (broken text) = (d, [], some (failed_with failed text))
  main_step d hangup = (d, terminate_call ∷ [], some local_hangup)

  abbrev pub after : List Act → Run → Run
  after acts r = record r { acts = acts ++ r.acts }

  -- After the loop the reason is sent.
  unfoldable pub main_loop : DownlinkQuality F → List (Signal F) → Run
  unfolding main_step
  main_loop d [] = record { acts = []; downlink = d; is_over = false; panicked = false }
  main_loop d (s ∷ ss) =
      let (d', acts, broke) = main_step d s in
      elim broke [
        | some reason ↦ record {
          acts = acts ++ (send (terminated reason) ∷ []);
          downlink = d';
          is_over = true;
          panicked = false;
        }
        | none ↦ after acts (main_loop d' ss)
      ]

  unfoldable pub talk : Negotiation → List (Signal F) → Run
  unfolding main_loop
  talk waits ss = record { acts = []; downlink = no_report; is_over = false; panicked = false }
  talk panics ss = record { acts = []; downlink = no_report; is_over = true; panicked = true }
  talk (gone acts) ss = record {
    acts = acts;
    downlink = no_report;
    is_over = true;
    panicked = false;
  }
  talk (established codec) ss = after (send (answered codec) ∷ []) (main_loop no_report ss)

  unfoldable pub run_call : Dialing → List MediaSignal → List (Signal F) → Run
  unfolding dial negotiate talk
  run_call d ms ss =
      let (acts, goes) = dial d in
      if goes
      then after acts (talk (negotiate no_media_yet ms) ss)
      else record { acts = acts; downlink = no_report; is_over = true; panicked = false }
