-- ===== src/Disposition/Precedence.antt =====
-- What each disposition of src/state.rs says of the call.
use kutsu.Base.{◌<◌, ◌≡◌, ◌≢◌, ◌↔◌, ◌⊎◌, refl, Bool, true, false, Option, none, some, arith}
use kutsu.Base.Bytes.{Bytes, bytes_eq_iff}
use kutsu.Outcome.{CallOutcome}
use kutsu.Disposition

-- Cancelled exactly when the engine says so, whatever else is known.
pub resolve-cancelled :
    (is_cancelled : Bool) (amd : Option Bytes) (sip : Option CallOutcome)
    (shape : Disposition.CallShape)
    → (Disposition.resolve_disposition is_cancelled amd sip shape ≡ Disposition.cancelled)
      ↔ (is_cancelled ≡ true)
unfolding Disposition.resolve_disposition
resolve-cancelled is_cancelled amd sip shape = (λ h. ground arith, λ h. ground arith)

-- No verdict that the code knows: no `amd`, or another word.
pub record IsUnknown (amd : Option Bytes) : Type 0 where
  pub no_voicemail : amd ≢ some (Disposition.ascii "voicemail")
  pub no_announcement : amd ≢ some (Disposition.ascii "announcement")
  pub no_ivr : amd ≢ some (Disposition.ascii "ivr")
  pub no_hold : amd ≢ some (Disposition.ascii "hold")
  pub no_live : amd ≢ some (Disposition.ascii "live")

by_verdict_unknown :
    (amd : Option Bytes) (shape : Disposition.CallShape)
    → IsUnknown amd
    → Disposition.by_verdict amd shape ≡ Disposition.by_shape shape
unfolding Disposition.by_verdict
by_verdict_unknown none shape u = refl
by_verdict_unknown (some amd) shape u = ground (
  arith,
  bytes_eq_iff amd (Disposition.ascii "voicemail"),
  bytes_eq_iff amd (Disposition.ascii "announcement"),
  bytes_eq_iff amd (Disposition.ascii "ivr"),
  bytes_eq_iff amd (Disposition.ascii "hold"),
  bytes_eq_iff amd (Disposition.ascii "live"),
  u.no_voicemail,
  u.no_announcement,
  u.no_ivr,
  u.no_hold,
  u.no_live,
)

-- An answered, uncancelled call with no known verdict is judged by its shape: completed with a
-- transcript; with none, an announcement if the far side (or our own hangup) closed it within
-- 15 s, and else failed.
resolve_by_shape :
    (amd : Option Bytes) (sip : Option CallOutcome) (shape : Disposition.CallShape)
    → IsUnknown amd
    → shape.answered ≡ true
    → let d = Disposition.resolve_disposition false amd sip shape in
      ((d ≡ Disposition.completed) ↔ (0 < shape.transcript_len))
      × ((d ≡ Disposition.announcement) ↔ (
          (shape.transcript_len ≡ 0)
          × (shape.duration_ms < 15000)
          × ((shape.ended_by ≡ Disposition.remote_close)
              ⊎ (shape.ended_by ≡ Disposition.caller_hangup))))
      × ((d ≡ Disposition.completed) ⊎ (d ≡ Disposition.announcement) ⊎ (d ≡ Disposition.failed))
unfolding Disposition.resolve_disposition Disposition.by_shape
resolve_by_shape amd sip shape u a =
    rw (by_verdict_unknown amd shape u, a)
      ((λ h. ground arith, λ h. ground arith), (λ h. ground arith, λ h. ground arith), ground arith)

-- A call that was never answered takes the dial outcome and ignores the verdict: it is never
-- completed, nor any of the answering-machine results.
resolve-unanswered :
    (amd : Option Bytes) (sip : Option CallOutcome) (shape : Disposition.CallShape)
    → shape.answered ≡ false
    → let d = Disposition.resolve_disposition false amd sip shape in
      (d ≢ Disposition.completed)
      × (d ≢ Disposition.voicemail)
      × (d ≢ Disposition.announcement)
      × (d ≢ Disposition.ivr)
      × (d ≢ Disposition.hold)
      × ((d ≡ Disposition.busy) ↔ (sip ≡ some CallOutcome.busy))
unfolding Disposition.resolve_disposition
resolve-unanswered amd sip shape a = rw a (
  λ h. ground arith,
  λ h. ground arith,
  λ h. ground arith,
  λ h. ground arith,
  λ h. ground arith,
  (λ h. ground arith, λ h. ground arith),
)
