-- ===== src/Config/Defaults.antt =====
-- The `Default` of each section of src/config.rs.
use kutsu.Base.{true, false, none, []}
use kutsu.Disposition.{ascii}
use kutsu.Config.{
  Std, half_cascade, female, udp, QualityConfig, RetryConfig, NetCheckConfig, VadConfig, AgcConfig,
  SipConfig, ServerConfig, Config,
}
use kutsu.Config.Prompts.{default_prompts}

unfoldable pub default_quality : QualityConfig
default_quality = record { prebuffer_ms = 800; resume_ms = 400; abort_underruns = 40 }

unfoldable pub default_retry : RetryConfig
default_retry = record { busy_max_attempts = 3; busy_retry_interval_ms = 300000 }

module _ (n : Std) where
  unfoldable pub default_net_check : NetCheckConfig n
  default_net_check = record {
    enabled = true;
    samples = 10;
    max_rtt_ms = 300;
    max_jitter_ms = 50;
    max_loss_pct = n.whole 2;
    uplink_loss_abort_pct = n.whole 10;
    downlink_loss_abort_pct = n.whole 10;
    warmup_pings = 1;
    max_setup_ms = 2500;
    retry_max = 3;
    retry_backoff_base_ms = 5000;
    breaker_threshold = 3;
    cooldown_ms = 60000;
  }

  unfoldable pub default_vad : VadConfig n
  default_vad = record { min_rms = 200; ratio = n.whole 3; onset_frames = 3; warmup_frames = 10 }

  unfoldable pub default_agc : AgcConfig n
  default_agc = record {
    enabled = true;
    target_dbfs = n.minus (n.whole 18);
    max_gain_db = n.whole 30;
    noise_floor_rms = n.whole 200;
  }

  unfoldable pub default_sip : SipConfig n
  default_sip = record {
    server = [];
    username = [];
    password = [];
    from_user = none;
    local_ip = none;
    local_port = none;
    sip_domain = none;
    register = false;
    register_expiry_secs = none;
    transport = udp;
  }

  unfoldable pub default_server : ServerConfig n
  unfolding default_net_check default_quality default_retry default_vad default_agc default_prompts
  default_server = record {
    api_key = [];
    proxy = none;
    model = half_cascade;
    voice = ascii "Autonoe";
    voice_gender = female;
    language = ascii "en-US";
    net_check = default_net_check;
    max_concurrent_channels = 3;
    max_call_history = 1000;
    greet_after_silence_ms = 1000;
    transcript_dir = none;
    dump_uplink_dir = none;
    dump_downlink_dir = none;
    max_call_secs = 600;
    dead_air_nudge_ms = 25000;
    wrap_up_grace_ms = 15000;
    mcp_poll_interval_ms = 5000;
    mcp_poll_interval_max_ms = 30000;
    quality = default_quality;
    retry = default_retry;
    vad = default_vad;
    agc = default_agc;
    prompts = default_prompts;
  }

  unfoldable pub default_config : Config n
  unfolding default_server default_sip
  default_config = record { server = default_server; sip = default_sip }
