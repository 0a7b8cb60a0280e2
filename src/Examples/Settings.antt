-- ===== src/Examples/Settings.antt =====
-- The configuration, at concrete inputs.
use kutsu.Base.{ℕ, ◌≡◌, ◌↔◌, ◌&&◌, refl, true, Option, none, some, arith, if◌then◌else◌}
use kutsu.Base.Bytes.{Bytes, bytes_eq, bytes_eq_iff}
use kutsu.Base.Decimal.{parse_u64}
use kutsu.Disposition.{ascii}
use kutsu.Engine.Gates.{is_some}
use kutsu.Config.{Std, Config, male}
use kutsu.Config.Defaults.{default_config}
use kutsu.Config.Variables.{Env, parse_gender}
use kutsu.Config.Overlay.{configured}
use kutsu.Config.Layers.{
  File, missing, text, load, configs_from_env, error_of, is_loadable, config_path, only_key,
  error_of-configs_from_env, file_shows_through,
}

-- Floats are whole numbers, and an address is its text.
abbrev pub std : Std
std = record {
  F = ℕ;
  IpAddr = Bytes;
  whole = λ n. n;
  minus = λ n. 0;
  parse_f32 = parse_u64;
  parse_ip = λ s. some s;
}

-- A file with a password in it, at its usual place.
abbrev toml : Bytes → Option (Config std)
toml s =
    some (record (default_config std) { sip = record (default_config std).sip { password = s } })

abbrev files : Bytes → File
files path = if bytes_eq path (ascii "kutsu.toml") then text (ascii "secret") else missing

abbrev env : Env
env k =
    if bytes_eq k (ascii "GEMINI_API_KEY")
    then some (ascii "key")
    else if bytes_eq k (ascii "KUTSU_VOICE_GENDER")
    then some (ascii " Male")
    else if bytes_eq k (ascii "KUTSU_MAX_CALL_SECS")
    then some (ascii "12x")
    else none

error_of-configs_from_env_example : (error_of std (configs_from_env std toml files env) ≡ none) ↔ (
    is_loadable std toml (files (config_path env)) && is_some (env (ascii "GEMINI_API_KEY")) ≡ true)
error_of-configs_from_env_example = error_of-configs_from_env std toml files env

male_voice : parse_gender (ascii " Male") ≡ male
unfolding parse_gender bytes_eq
male_voice = refl

file_shows_through_example :
    configs_from_env std toml files (only_key (ascii "key"))
    ≡ configured (record (default_config std) {
      server = record (default_config std).server { api_key = ascii "key" };
      sip = record (default_config std).sip { password = ascii "secret" };
    })
unfolding only_key bytes_eq load
file_shows_through_example =
    file_shows_through std (only_key (ascii "key")) (ascii "key") toml files
      (record (default_config std) {
        sip = record (default_config std).sip { password = ascii "secret" };
      })
      refl (λ k h. ground (arith, h, bytes_eq_iff k (ascii "GEMINI_API_KEY"))) refl
