-- ===== src/Http.antt =====
-- src/mcp_http.rs: the metrics page, and the guard of `/mcp`; `metrics_snapshot` of src/engine.rs.
pub mod Scrape
pub mod Guard
pub mod Closing
pub mod Told
use kutsu.Base.{
  ℕ, Bool, true, false, Option, none, some, List, [], ◌∷◌, ◌++◌, length, ◌==◌, if◌then◌else◌,
}
use kutsu.Base.Bytes.{Bytes}
use kutsu.Base.Decimal.{print_decimal}
use kutsu.Disposition.{ascii}
use kutsu.Engine.Scheduler.{Engine}
use Prim.Native.String.{String}

pub record MetricsSnapshot : Type 0 where
  pub active : ℕ
  pub queued : ℕ
  pub placed_total : ℕ
  pub completed_total : ℕ
  pub failed_total : ℕ
  pub cancelled_total : ℕ
  pub channels_cap : ℕ
  pub underruns_total : ℕ
  pub starved_ms_total : ℕ
  pub quality_aborted_total : ℕ
  pub uplink_received_total : ℕ
  pub uplink_lost_total : ℕ
  pub busy_total : ℕ
  pub no_answer_total : ℕ
  pub rejected_total : ℕ
  pub not_found_total : ℕ
  pub unavailable_total : ℕ
  pub voicemail_total : ℕ
  pub announcement_total : ℕ
  pub ivr_total : ℕ
  pub hold_total : ℕ

-- `max_channels` is `max_concurrent_channels`.
unfoldable pub metrics_snapshot : {S V F : Type 0} → ℕ → Engine S V F → MetricsSnapshot
metrics_snapshot max_channels e = record {
  active = e.running;
  queued = length e.hub.queue;
  placed_total = e.hub.shared.counters.placed;
  completed_total = e.hub.shared.counters.completed;
  failed_total = e.hub.shared.counters.failed;
  cancelled_total = e.hub.shared.counters.cancelled;
  channels_cap = max_channels;
  underruns_total = e.hub.shared.counters.underruns;
  starved_ms_total = e.hub.shared.counters.starved_ms;
  quality_aborted_total = e.hub.shared.counters.quality_aborted;
  uplink_received_total = e.hub.shared.counters.uplink_received;
  uplink_lost_total = e.hub.shared.counters.uplink_lost;
  busy_total = e.hub.shared.counters.busy;
  no_answer_total = e.hub.shared.counters.no_answer;
  rejected_total = e.hub.shared.counters.rejected;
  not_found_total = e.hub.shared.counters.not_found;
  unavailable_total = e.hub.shared.counters.unavailable;
  voicemail_total = e.hub.shared.counters.voicemail;
  announcement_total = e.hub.shared.counters.announcement;
  ivr_total = e.hub.shared.counters.ivr;
  hold_total = e.hub.shared.counters.hold;
}

-- A call of the closure `g`, in order.
pub record Metric : Type 0 where
  pub name : Bytes
  pub help : Bytes
  pub kind : Bytes
  pub value : ℕ

abbrev metric : String → String → String → ℕ → Metric
metric name help kind value = record {
  name = ascii name;
  help = ascii help;
  kind = ascii kind;
  value = value;
}

unfoldable pub metrics_of : MetricsSnapshot → List Metric
metrics_of m =
    metric "kutsu_calls_active" "Calls ringing or in progress." "gauge" m.active
    ∷ metric "kutsu_calls_queued" "Calls waiting for a channel." "gauge" m.queued
    ∷ metric "kutsu_calls_placed_total" "Calls placed since start." "counter" m.placed_total
    ∷ metric "kutsu_calls_completed_total" "Calls completed." "counter" m.completed_total
    ∷ metric "kutsu_calls_failed_total" "Calls failed (technical failures only)." "counter"
        m.failed_total
    ∷ metric "kutsu_calls_busy_total" "Calls that ended busy (486)." "counter" m.busy_total
    ∷ metric "kutsu_calls_no_answer_total" "Calls with no answer (timeout/408/480)." "counter"
        m.no_answer_total
    ∷ metric "kutsu_calls_rejected_total" "Calls rejected (603/403/6xx)." "counter" m.rejected_total
    ∷ metric "kutsu_calls_not_found_total" "Calls to a number not found (404/484)." "counter"
        m.not_found_total
    ∷ metric "kutsu_calls_unavailable_total"
        "Calls that hit a service-unavailable response (503/5xx)." "counter" m.unavailable_total
    ∷ metric "kutsu_calls_cancelled_total" "Calls cancelled." "counter" m.cancelled_total
    ∷ metric "kutsu_calls_voicemail_total" "Calls that ended as voicemail." "counter"
        m.voicemail_total
    ∷ metric "kutsu_calls_announcement_total" "Calls that ended as announcement." "counter"
        m.announcement_total
    ∷ metric "kutsu_calls_ivr_total" "Calls that ended as IVR." "counter" m.ivr_total
    ∷ metric "kutsu_calls_hold_total" "Calls that ended as hold." "counter" m.hold_total
    ∷ metric "kutsu_channels_cap" "Max concurrent channels." "gauge" m.channels_cap
    ∷ metric "kutsu_audio_underruns_total" "Audio underruns since start." "counter"
        m.underruns_total
    ∷ metric "kutsu_audio_starved_ms_total" "Total milliseconds of audio starvation." "counter"
        m.starved_ms_total
    ∷ metric "kutsu_calls_quality_aborted_total" "Calls aborted due to quality issues." "counter"
        m.quality_aborted_total
    ∷ metric "kutsu_uplink_received_total" "Uplink RTP packets received since start." "counter"
        m.uplink_received_total
    ∷ metric "kutsu_uplink_lost_total" "Uplink RTP packets lost since start." "counter"
        m.uplink_lost_total
    ∷ []

unfoldable pub help_line : Metric → Bytes
help_line x = ascii "# HELP " ++ (x.name ++ (32 ∷ x.help))

unfoldable pub type_line : Metric → Bytes
type_line x = ascii "# TYPE " ++ (x.name ++ (32 ∷ x.kind))

unfoldable pub value_line : Metric → Bytes
value_line x = x.name ++ (32 ∷ print_decimal x.value)

-- The text of a metric, before what is pushed after it.
unfoldable pub metric_text : Metric → Bytes → Bytes
metric_text x rest = help_line x ++ (10 ∷ (type_line x ++ (10 ∷ (value_line x ++ (10 ∷ rest)))))

unfoldable pub pushed : List Metric → Bytes
pushed [] = []
pushed (x ∷ xs) = metric_text x (pushed xs)

unfoldable pub render_prometheus : MetricsSnapshot → Bytes
render_prometheus m = pushed (metrics_of m)

-- `ct_eq` is that of the crate `subtle`; the time that it takes is not modelled.
unfoldable pub token_matches : (Bytes → Bytes → Bool) → Bytes → Bytes → Bool
token_matches ct_eq presented expected = ct_eq presented expected

-- `str::strip_prefix`.
unfoldable pub strip_prefix : Bytes → Bytes → Option Bytes
strip_prefix [] s = some s
strip_prefix (p ∷ ps) [] = none
strip_prefix (p ∷ ps) (c ∷ cs) = if p == c then strip_prefix ps cs else none

pub data Response : Type 0 where
  unauthorized passed healthy prepared : Response
  page : Bytes → Response

-- `authorization` is the header, if there is one and it is a text.
unfoldable pub bearer_guard : (Bytes → Bytes → Bool) → Bytes → Option Bytes → Response
unfolding token_matches strip_prefix
bearer_guard ct_eq token none = unauthorized
bearer_guard ct_eq token (some v) = elim (strip_prefix (ascii "Bearer ") v) [
  | none ↦ unauthorized
  | some p ↦ if token_matches ct_eq p token then passed else unauthorized
]

pub data Route : Type 0 where
  health ready metrics mcp : Route

-- The routes of `serve`: `passed` is what the MCP service answers.
unfoldable pub serve :
    {S V F : Type 0}
    → (Bytes → Bytes → Bool)
    → ℕ
    → Engine S V F
    → Option Bytes
    → Route
    → Option Bytes
    → Response
serve ct_eq max_channels e auth_token health header = healthy
serve ct_eq max_channels e auth_token ready header = prepared
serve ct_eq max_channels e auth_token metrics header =
    page (render_prometheus (metrics_snapshot max_channels e))
serve ct_eq max_channels e none mcp header = passed
serve ct_eq max_channels e (some token) mcp header = bearer_guard ct_eq token header
