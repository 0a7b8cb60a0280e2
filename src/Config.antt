-- ===== src/Config.antt =====
-- The configuration of src/config.rs: `Config` with its sections, and their defaults.
pub mod Prompts
pub mod Defaults
pub mod Variables
pub mod Overlay
pub mod Layers
use kutsu.Base.{ℕ, Bool, true, false, Option, none, [], u64_max}
use kutsu.Base.Bytes.{Bytes}
use kutsu.Disposition.{ascii}

-- What the standard library does with floats and with IP addresses.
pub record Std : Type 1 where
  pub F : Type 0
  pub IpAddr : Type 0
  pub whole : ℕ → F
  pub minus : F → F
  pub parse_f32 : Bytes → Option F
  pub parse_ip : Bytes → Option IpAddr

pub data Model : Type 0 where
  half_cascade native_audio : Model

pub data Gender : Type 0 where
  male female neutral : Gender

pub record Proxy : Type 0 where
  pub url : Bytes
  pub user : Option Bytes
  pub password : Option Bytes

pub record QualityConfig : Type 0 where
  pub prebuffer_ms : ℕ
  pub resume_ms : ℕ
  pub abort_underruns : ℕ

pub record RetryConfig : Type 0 where
  pub busy_max_attempts : ℕ
  pub busy_retry_interval_ms : ℕ

pub record PromptsConfig : Type 0 where
  pub base_system_prompt : Bytes
  pub goal_preamble : Bytes
  pub closing : Bytes
  pub greet_cue : Bytes
  pub end_call_cue : Bytes
  pub harvest_cue : Bytes
  pub resume_cue : Bytes
  pub gender_female : Bytes
  pub gender_male : Bytes
  pub language_template : Bytes
  pub amd_instruction : Bytes

pub data SipTransportKind : Type 0 where
  udp tls : SipTransportKind

module _ (n : Std) where
  pub record NetCheckConfig : Type 0 where
    pub enabled : Bool
    pub samples : ℕ
    pub max_rtt_ms : ℕ
    pub max_jitter_ms : ℕ
    pub max_loss_pct : n.F
    pub uplink_loss_abort_pct : n.F
    pub downlink_loss_abort_pct : n.F
    pub warmup_pings : ℕ
    pub max_setup_ms : ℕ
    pub retry_max : ℕ
    pub retry_backoff_base_ms : ℕ
    pub breaker_threshold : ℕ
    pub cooldown_ms : ℕ

  pub record VadConfig : Type 0 where
    pub min_rms : ℕ
    pub ratio : n.F
    pub onset_frames : ℕ
    pub warmup_frames : ℕ

  pub record AgcConfig : Type 0 where
    pub enabled : Bool
    pub target_dbfs : n.F
    pub max_gain_db : n.F
    pub noise_floor_rms : n.F

  pub record SipConfig : Type 0 where
    pub server : Bytes
    pub username : Bytes
    pub password : Bytes
    pub from_user : Option Bytes
    pub local_ip : Option n.IpAddr
    pub local_port : Option ℕ
    pub sip_domain : Option Bytes
    pub register : Bool
    pub register_expiry_secs : Option ℕ
    pub transport : SipTransportKind

  pub record ServerConfig : Type 0 where
    pub api_key : Bytes
    pub proxy : Option Proxy
    pub model : Model
    pub voice : Bytes
    pub voice_gender : Gender
    pub language : Bytes
    pub net_check : NetCheckConfig
    pub max_concurrent_channels : ℕ
    pub max_call_history : ℕ
    pub greet_after_silence_ms : ℕ
    pub transcript_dir : Option Bytes
    pub dump_uplink_dir : Option Bytes
    pub dump_downlink_dir : Option Bytes
    pub max_call_secs : ℕ
    pub dead_air_nudge_ms : ℕ
    pub wrap_up_grace_ms : ℕ
    pub mcp_poll_interval_ms : ℕ
    pub mcp_poll_interval_max_ms : ℕ
    pub quality : QualityConfig
    pub retry : RetryConfig
    pub vad : VadConfig
    pub agc : AgcConfig
    pub prompts : PromptsConfig

  pub record Config : Type 0 where
    pub server : ServerConfig
    pub sip : SipConfig
