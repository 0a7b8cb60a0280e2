-- ===== src/Config/Layers.antt =====
-- The layers of the configuration (src/main_support.rs, src/config.rs): defaults, file, environment.
use kutsu.Base.{
  ◌≢◌, inl, inr, Bool-cases, ◌≡◌, ◌↔◌, ap, ◌∙◌, Bool, true, false, ◌&&◌, ◌||◌, Option, none, some,
  if◌then◌else◌, arith,
}
use kutsu.Base.Bytes.{Bytes, bytes_eq, bytes_eq→≡, bytes_eq_refl}
use mathlib.Core.Path.{fun_ext}
use kutsu.Disposition.{ascii}
use kutsu.Engine.Gates.{is_some}
use kutsu.Config.{Std, Config}
use kutsu.Config.Defaults.{default_config}
use kutsu.Config.Variables.{Env, over}
use kutsu.Config.Overlay.{
  ConfigError, parse_failed, read_failed, Configured, keyed, failed, configured, apply_env_overlay,
}

-- What `read_to_string` finds at a path.
pub data File : Type 0 where
  missing unreadable : File
  text : Bytes → File

-- `Config::load`; `toml` parses a text over the defaults.
unfoldable pub load : (n : Std) → (Bytes → Option (Config n)) → File → Configured n
unfolding default_config
load n toml missing = configured (default_config n)
load n toml unreadable = failed read_failed
load n toml (text s) = elim (toml s) [ none ↦ failed parse_failed | some c ↦ configured c ]

unfoldable pub config_path : Env → Bytes
unfolding over
config_path env = over (env (ascii "KUTSU_CONFIG")) (ascii "kutsu.toml")

unfoldable pub overlaid : (n : Std) → Env → Configured n → Configured n
unfolding apply_env_overlay
overlaid n env (failed e) = failed e
overlaid n env (configured c) = apply_env_overlay n env c

unfoldable pub configs_from_env :
    (n : Std) → (Bytes → Option (Config n)) → (Bytes → File) → Env → Configured n
unfolding overlaid load config_path
configs_from_env n toml files env = overlaid n env (load n toml (files (config_path env)))

module _ (n : Std) where
  unfoldable pub error_of : Configured n → Option ConfigError
  error_of (failed e) = some e
  error_of (configured c) = none

  abbrev is_absent : File → Bool
  is_absent missing = true
  is_absent unreadable = false
  is_absent (text s) = false

  -- Whether a text is one that `toml` takes.
  abbrev is_parsed : (Bytes → Option (Config n)) → File → Bool
  is_parsed toml missing = false
  is_parsed toml unreadable = false
  is_parsed toml (text s) = is_some (toml s)

  abbrev pub is_loadable : (Bytes → Option (Config n)) → File → Bool
  is_loadable toml file = is_absent file || is_parsed toml file

  overlay-error :
      (env : Env) (c : Config n)
      → (error_of (apply_env_overlay n env c) ≡ none)
        ↔ (is_some (env (ascii "GEMINI_API_KEY")) ≡ true)
  unfolding error_of apply_env_overlay keyed
  overlay-error env c = ground arith

  load-error :
      (toml : Bytes → Option (Config n)) (file : File) (env : Env)
      → (error_of (overlaid n env (load n toml file)) ≡ none)
        ↔ (is_loadable toml file && is_some (env (ascii "GEMINI_API_KEY")) ≡ true)
  unfolding error_of load overlaid
  load-error toml missing env = ground (arith, overlay-error env)
  load-error toml unreadable env = ground arith
  load-error toml (text s) env = ground (arith, overlay-error env)

  -- The environment yields a configuration exactly when `kutsu.toml`, or the file that KUTSU_CONFIG
  -- names, is absent or parses, and the key is set; whatever else is in the environment.
  pub error_of-configs_from_env :
      (toml : Bytes → Option (Config n)) (files : Bytes → File) (env : Env)
      → (error_of (configs_from_env n toml files env) ≡ none) ↔ (
          is_loadable toml (files (config_path env)) && is_some (env (ascii "GEMINI_API_KEY"))
          ≡ true)
  unfolding configs_from_env
  error_of-configs_from_env toml files env = load-error toml (files (config_path env)) env

-- The environment of a machine where only the key is set.
unfoldable pub only_key : Bytes → Env
only_key key k = if bytes_eq k (ascii "GEMINI_API_KEY") then some key else none

module _ (n : Std) (env : Env) (key : Bytes) where
  is_only_key :
      env (ascii "GEMINI_API_KEY") ≡ some key
      → ((k : Bytes) → k ≢ ascii "GEMINI_API_KEY" → env k ≡ none)
      → env ≡ only_key key
  unfolding only_key
  is_only_key h unset = fun_ext (λ k. elim (Bool-cases (bytes_eq k (ascii "GEMINI_API_KEY"))) [
    | inl same ↦ rw same (ap env (bytes_eq→≡ _ _ same) ∙ h)
    | inr differ ↦ rw differ (unset k (λ e. ground (arith, differ, e, bytes_eq_refl k)))
  ])

  shown_through :
      (toml : Bytes → Option (Config n)) (files : Bytes → File) (c : Config n)
      → load n toml (files (ascii "kutsu.toml")) ≡ configured c
      → configs_from_env n toml files (only_key key)
        ≡ configured (record c { server = record c.server { api_key = key } })
  unfolding configs_from_env config_path overlaid apply_env_overlay keyed only_key bytes_eq
  shown_through toml files c h = ap (overlaid n (only_key key)) h

  -- Where only the key is set, `kutsu.toml`, or the defaults if there is none, stand as they are
  -- but for the key: what such a file says of the proxy and of the SIP password is used.
  pub file_shows_through :
      (toml : Bytes → Option (Config n)) (files : Bytes → File) (c : Config n)
      → env (ascii "GEMINI_API_KEY") ≡ some key
      → ((k : Bytes) → k ≢ ascii "GEMINI_API_KEY" → env k ≡ none)
      → load n toml (files (ascii "kutsu.toml")) ≡ configured c
      → configs_from_env n toml files env
        ≡ configured (record c { server = record c.server { api_key = key } })
  file_shows_through toml files c h unset l =
      rw (is_only_key h unset) (shown_through toml files c l)
