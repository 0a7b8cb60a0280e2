-- ===== src/Config/Overlay.antt =====
-- The environment overlay of src/main_support.rs, section by section.
use kutsu.Base.{Option, none, some}
use kutsu.Base.Bytes.{Bytes}
use kutsu.Base.Decimal.{parse_u64}
use kutsu.Disposition.{ascii}
use kutsu.Gemini.{trim}
use kutsu.Config.{
  Std, QualityConfig, RetryConfig, PromptsConfig, NetCheckConfig, VadConfig, AgcConfig, SipConfig,
  ServerConfig, Config,
}
use kutsu.Config.Variables.{
  Env, lowercase, over, parsed, over_str, over_opt_str, parse_to, over_u32, over_u64, over_usize,
  over_f32, over_bool, over_path, over_opt, model_word, parse_gender, over_proxy,
}

unfoldable pub over_net_check : (n : Std) → Env → NetCheckConfig n → NetCheckConfig n
unfolding over_bool over_u32 over_f32 over_u64
over_net_check n env c = record {
  enabled = over_bool env (ascii "KUTSU_NETCHECK_ENABLED") c.enabled;
  samples = over_u32 env (ascii "KUTSU_NETCHECK_SAMPLES") c.samples;
  max_rtt_ms = over_u32 env (ascii "KUTSU_NETCHECK_MAX_RTT_MS") c.max_rtt_ms;
  max_jitter_ms = over_u32 env (ascii "KUTSU_NETCHECK_MAX_JITTER_MS") c.max_jitter_ms;
  max_loss_pct = over_f32 n env (ascii "KUTSU_NETCHECK_MAX_LOSS_PCT") c.max_loss_pct;
  uplink_loss_abort_pct =
      over_f32 n env (ascii "KUTSU_UPLINK_LOSS_ABORT_PCT") c.uplink_loss_abort_pct;
  downlink_loss_abort_pct =
      over_f32 n env (ascii "KUTSU_DOWNLINK_LOSS_ABORT_PCT") c.downlink_loss_abort_pct;
  warmup_pings = over_u32 env (ascii "KUTSU_NETCHECK_WARMUP_PINGS") c.warmup_pings;
  max_setup_ms = over_u32 env (ascii "KUTSU_NETCHECK_MAX_SETUP_MS") c.max_setup_ms;
  retry_max = over_u32 env (ascii "KUTSU_NETCHECK_RETRY_MAX") c.retry_max;
  retry_backoff_base_ms =
      over_u64 env (ascii "KUTSU_NETCHECK_RETRY_BACKOFF_BASE_MS") c.retry_backoff_base_ms;
  breaker_threshold = over_u32 env (ascii "KUTSU_NETCHECK_BREAKER_THRESHOLD") c.breaker_threshold;
  cooldown_ms = over_u64 env (ascii "KUTSU_NETCHECK_COOLDOWN_MS") c.cooldown_ms;
}

unfoldable pub over_quality : Env → QualityConfig → QualityConfig
unfolding over_u32
over_quality env c = record {
  prebuffer_ms = over_u32 env (ascii "KUTSU_QUALITY_PREBUFFER_MS") c.prebuffer_ms;
  resume_ms = over_u32 env (ascii "KUTSU_QUALITY_RESUME_MS") c.resume_ms;
  abort_underruns = over_u32 env (ascii "KUTSU_QUALITY_ABORT_UNDERRUNS") c.abort_underruns;
}

unfoldable pub over_retry : Env → RetryConfig → RetryConfig
unfolding over_u32 over_u64
over_retry env c = record {
  busy_max_attempts = over_u32 env (ascii "KUTSU_BUSY_MAX_ATTEMPTS") c.busy_max_attempts;
  busy_retry_interval_ms =
      over_u64 env (ascii "KUTSU_BUSY_RETRY_INTERVAL_MS") c.busy_retry_interval_ms;
}

unfoldable pub over_vad : (n : Std) → Env → VadConfig n → VadConfig n
unfolding over_u32 over_f32
over_vad n env c = record {
  min_rms = over_u32 env (ascii "KUTSU_VAD_MIN_RMS") c.min_rms;
  ratio = over_f32 n env (ascii "KUTSU_VAD_RATIO") c.ratio;
  onset_frames = over_u32 env (ascii "KUTSU_VAD_ONSET_FRAMES") c.onset_frames;
  warmup_frames = over_u32 env (ascii "KUTSU_VAD_WARMUP_FRAMES") c.warmup_frames;
}

unfoldable pub over_agc : (n : Std) → Env → AgcConfig n → AgcConfig n
unfolding over_bool over_f32
over_agc n env c = record {
  enabled = over_bool env (ascii "KUTSU_AGC_ENABLED") c.enabled;
  target_dbfs = over_f32 n env (ascii "KUTSU_AGC_TARGET_DBFS") c.target_dbfs;
  max_gain_db = over_f32 n env (ascii "KUTSU_AGC_MAX_GAIN_DB") c.max_gain_db;
  noise_floor_rms = over_f32 n env (ascii "KUTSU_AGC_NOISE_FLOOR_RMS") c.noise_floor_rms;
}

unfoldable pub over_prompts : Env → PromptsConfig → PromptsConfig
unfolding over_str
over_prompts env c = record c {
  base_system_prompt = over_str env (ascii "KUTSU_SYSTEM_PROMPT") c.base_system_prompt;
  greet_cue = over_str env (ascii "KUTSU_GREET_CUE") c.greet_cue;
  end_call_cue = over_str env (ascii "KUTSU_END_CALL_CUE") c.end_call_cue;
  harvest_cue = over_str env (ascii "KUTSU_HARVEST_CUE") c.harvest_cue;
  resume_cue = over_str env (ascii "KUTSU_RESUME_CUE") c.resume_cue;
}

unfoldable pub over_sip : (n : Std) → Env → SipConfig n → SipConfig n
unfolding over_str over_opt_str over_opt over_bool parse_to
over_sip n env c = record c {
  server = over_str env (ascii "KUTSU_SIP_SERVER") c.server;
  username = over_str env (ascii "KUTSU_SIP_USER") c.username;
  password = over_str env (ascii "KUTSU_SIP_PASS") c.password;
  from_user = over_opt_str env (ascii "KUTSU_SIP_FROM_USER") c.from_user;
  sip_domain = over_opt_str env (ascii "KUTSU_SIP_DOMAIN") c.sip_domain;
  local_ip = over_opt n.parse_ip env (ascii "KUTSU_SIP_LOCAL_IP") c.local_ip;
  local_port = over_opt (parse_to 65535) env (ascii "KUTSU_SIP_LOCAL_PORT") c.local_port;
  register = over_bool env (ascii "KUTSU_SIP_REGISTER") c.register;
  register_expiry_secs =
      over_opt parse_u64 env (ascii "KUTSU_SIP_REGISTER_EXPIRY") c.register_expiry_secs;
}

-- All of `ServerConfig`, once the key is read.
unfoldable pub over_server : (n : Std) → Env → Bytes → ServerConfig n → ServerConfig n
unfolding over_proxy over_str over_usize over_u64 over_path over over_net_check over_quality
    over_retry over_vad over_agc over_prompts parsed model_word parse_gender lowercase trim
over_server n env key c = record {
  api_key = key;
  proxy = over_proxy env c.proxy;
  model =
      over (parsed (λ m. some (model_word (lowercase (trim m)))) (env (ascii "KUTSU_MODEL")))
        c.model;
  voice = over_str env (ascii "KUTSU_VOICE") c.voice;
  voice_gender =
      over (parsed (λ g. some (parse_gender g)) (env (ascii "KUTSU_VOICE_GENDER"))) c.voice_gender;
  language = over_str env (ascii "KUTSU_LANGUAGE") c.language;
  net_check = over_net_check n env c.net_check;
  max_concurrent_channels =
      over_usize env (ascii "KUTSU_MAX_CONCURRENT_CHANNELS") c.max_concurrent_channels;
  max_call_history = over_usize env (ascii "KUTSU_MAX_CALL_HISTORY") c.max_call_history;
  greet_after_silence_ms =
      over_u64 env (ascii "KUTSU_GREET_AFTER_SILENCE_MS") c.greet_after_silence_ms;
  transcript_dir = over_path env (ascii "KUTSU_TRANSCRIPT_DIR") c.transcript_dir;
  dump_uplink_dir = over_path env (ascii "KUTSU_DUMP_UPLINK_DIR") c.dump_uplink_dir;
  dump_downlink_dir = over_path env (ascii "KUTSU_DUMP_DOWNLINK_DIR") c.dump_downlink_dir;
  max_call_secs = over_u64 env (ascii "KUTSU_MAX_CALL_SECS") c.max_call_secs;
  dead_air_nudge_ms = over_u64 env (ascii "KUTSU_DEAD_AIR_NUDGE_MS") c.dead_air_nudge_ms;
  wrap_up_grace_ms = over_u64 env (ascii "KUTSU_WRAP_UP_GRACE_MS") c.wrap_up_grace_ms;
  mcp_poll_interval_ms = over_u64 env (ascii "KUTSU_MCP_POLL_INTERVAL_MS") c.mcp_poll_interval_ms;
  mcp_poll_interval_max_ms =
      over_u64 env (ascii "KUTSU_MCP_POLL_INTERVAL_MAX_MS") c.mcp_poll_interval_max_ms;
  quality = over_quality env c.quality;
  retry = over_retry env c.retry;
  vad = over_vad n env c.vad;
  agc = over_agc n env c.agc;
  prompts = over_prompts env c.prompts;
}

pub data ConfigError : Type 0 where
  key_not_set parse_failed read_failed : ConfigError

pub data Configured (n : Std) : Type 0 where
  failed : ConfigError → Configured n
  configured : Config n → Configured n

-- The overlay, once `GEMINI_API_KEY` is looked up.
unfoldable pub keyed : (n : Std) → Env → Option Bytes → Config n → Configured n
unfolding over_server over_sip
keyed n env none c = failed key_not_set
keyed n env (some key) c =
    configured (record { server = over_server n env key c.server; sip = over_sip n env c.sip })

unfoldable pub apply_env_overlay : (n : Std) → Env → Config n → Configured n
unfolding keyed
apply_env_overlay n env c = keyed n env (env (ascii "GEMINI_API_KEY")) c
