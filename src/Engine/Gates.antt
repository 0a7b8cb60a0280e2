-- ===== src/Engine/Gates.antt =====
-- The pure decisions of src/engine.rs: quality gates, retry, harvest and the dead-air watchdog.
use kutsu.Base.{
  ℕ, ◌+◌, ◌-◌, Bool, true, false, not, ◌&&◌, Option, none, some, ltb, leb, if◌then◌else◌,
}
use kutsu.Uplink.{UplinkQuality}
use kutsu.Store.{CallQuality}

-- f32, with what the gates compute: a percentage and a comparison.
pub record Float : Type 1 where
  pub F : Type 0
  pub zero_pct : F
  pub percent : ℕ → ℕ → F
  pub exceeds : F → F → Bool

pub record DownlinkQuality (F : Type 0) : Type 0 where
  pub present : Bool
  pub loss_pct : F
  pub jitter_ms : ℕ
  pub rtt_ms : ℕ

unfoldable pub should_abort : ℕ → ℕ → Bool
should_abort abort_underruns underruns = ltb 0 abort_underruns && leb abort_underruns underruns

abbrev pub uplink_window_ticks : ℕ
uplink_window_ticks = 8

abbrev pub downlink_breach_ticks : ℕ
downlink_breach_ticks = 5

unfoldable pub should_retry_busy : ℕ → ℕ → Bool
should_retry_busy attempt busy_max_attempts = ltb attempt busy_max_attempts

unfoldable pub harvest_eligible : ℕ → Bool → Bool
harvest_eligible transcript_len goal_set = ltb 0 transcript_len && not goal_set

module _ (f : Float) where
  open f use {F, zero_pct, percent, exceeds}

  unfoldable pub window_loss_pct : ℕ × ℕ → ℕ × ℕ → Option F
  window_loss_pct (r₀, l₀) (r₁, l₁) =
      let total = (r₁ - r₀) + (l₁ - l₀) in
      if ltb total 200 then none else some (percent (l₁ - l₀) total)

  unfoldable pub merge_quality : CallQuality F → UplinkQuality → DownlinkQuality F → CallQuality F
  merge_quality q u d =
      let up = record q {
        uplink_received = u.received;
        uplink_lost = u.lost;
        uplink_reordered = u.reordered;
      } in
      if d.present
      then record up {
        downlink_loss_pct = d.loss_pct;
        downlink_jitter_ms = d.jitter_ms;
        downlink_rtt_ms = d.rtt_ms;
      }
      else up

  unfoldable pub downlink_breach : DownlinkQuality F → F → Bool
  downlink_breach d abort_pct = d.present && exceeds d.loss_pct abort_pct

-- `WrapPhase` and `WrapUpState`.
pub data WrapPhase : Type 0 where
  idle nudge finalize : WrapPhase

pub record WrapUpState : Type 0 where
  pub nudge_ms : ℕ
  pub grace_ms : ℕ
  pub last_activity_ms : ℕ
  pub nudged_at_ms : Option ℕ

unfoldable pub new_wrap_up : ℕ → ℕ → WrapUpState
new_wrap_up nudge_ms grace_ms = record {
  nudge_ms = nudge_ms;
  grace_ms = grace_ms;
  last_activity_ms = 0;
  nudged_at_ms = none;
}

abbrev pub is_some {ℓ} : {A : Type ℓ} → Option A → Bool
is_some none = false
is_some (some a) = true

unfoldable pub on_activity : WrapUpState → ℕ → WrapUpState × Bool
on_activity w now_ms =
    (record w { last_activity_ms = now_ms; nudged_at_ms = none }, is_some w.nudged_at_ms)

unfoldable pub phase : WrapUpState → ℕ → WrapUpState × WrapPhase
phase w now_ms = elim w.nudged_at_ms [
  | none ↦
      if leb w.nudge_ms (now_ms - w.last_activity_ms)
      then (record w { nudged_at_ms = some now_ms }, nudge)
      else (w, idle)
  | some nudged_at ↦ if leb w.grace_ms (now_ms - nudged_at) then (w, finalize) else (w, idle)
]
