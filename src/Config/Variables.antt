-- ===== src/Config/Variables.antt =====
-- How src/main_support.rs reads a variable of the environment over a value.
use kutsu.Base.{
  ℕ, ◌+◌, Bool, true, false, ◌&&◌, ◌||◌, Option, none, some, List, [], ◌∷◌, map, leb, if◌then◌else◌,
  u32_max,
}
use kutsu.Base.Bytes.{Bytes, bytes_eq}
use kutsu.Base.Decimal.{parse_u64}
use kutsu.Disposition.{ascii}
use kutsu.Gemini.{trim}
use kutsu.Config.{Std, Model, half_cascade, native_audio, Gender, male, female, neutral, Proxy}

-- `std::env::var(k).ok()`.
abbrev pub Env : Type 0
Env = Bytes → Option Bytes

unfoldable pub lower_byte : ℕ → ℕ
lower_byte c = if leb 65 c && leb c 90 then c + 32 else c

-- `to_ascii_lowercase`.
unfoldable pub lowercase : Bytes → Bytes
unfolding lower_byte
lowercase s = map lower_byte s

unfoldable pub one_of : List Bytes → Bytes → Bool
one_of [] s = false
one_of (w ∷ ws) s = bytes_eq s w || one_of ws s

unfoldable pub filled : Option Bytes → Option Bytes
filled none = none
filled (some []) = none
filled (some (c ∷ s)) = some (c ∷ s)

unfoldable pub non_empty : Env → Bytes → Option Bytes
unfolding filled
non_empty env k = filled (env k)

-- `if let Some(v) = found { *cur = v }`.
unfoldable pub over : {A : Type 0} → Option A → A → A
over none cur = cur
over (some v) cur = v

unfoldable pub parsed : {A B : Type 0} → (B → Option A) → Option B → Option A
parsed f none = none
parsed f (some s) = f s

unfoldable pub over_str : Env → Bytes → Bytes → Bytes
unfolding over
over_str env k cur = over (env k) cur

unfoldable pub over_opt_str : Env → Bytes → Option Bytes → Option Bytes
unfolding over parsed non_empty
over_opt_str env k cur = over (parsed (λ s. some (some s)) (non_empty env k)) cur

unfoldable pub at_most : ℕ → Option ℕ → Option ℕ
at_most bound none = none
at_most bound (some v) = if leb v bound then some v else none

-- `str::parse` of an unsigned integer up to `bound`.
unfoldable pub parse_to : ℕ → Bytes → Option ℕ
unfolding at_most parse_u64
parse_to bound s = at_most bound (parse_u64 s)

unfoldable pub over_u32 : Env → Bytes → ℕ → ℕ
unfolding over parsed parse_to
over_u32 env k cur = over (parsed (parse_to u32_max) (env k)) cur

unfoldable pub over_u64 : Env → Bytes → ℕ → ℕ
unfolding over parsed
over_u64 env k cur = over (parsed parse_u64 (env k)) cur

-- On a machine with words of 64 bits.
unfoldable pub over_usize : Env → Bytes → ℕ → ℕ
unfolding over parsed
over_usize env k cur = over (parsed parse_u64 (env k)) cur

unfoldable pub over_f32 : (n : Std) → Env → Bytes → n.F → n.F
unfolding over parsed
over_f32 n env k cur = over (parsed n.parse_f32 (env k)) cur

unfoldable pub bool_word : Bytes → Option Bool
unfolding one_of
bool_word s =
    if one_of (ascii "1" ∷ ascii "true" ∷ ascii "yes" ∷ ascii "on" ∷ []) s
    then some true
    else if one_of (ascii "0" ∷ ascii "false" ∷ ascii "no" ∷ ascii "off" ∷ []) s
    then some false
    else none

unfoldable pub over_bool : Env → Bytes → Bool → Bool
unfolding over parsed bool_word lowercase trim
over_bool env k cur = over (parsed (λ s. bool_word (lowercase (trim s))) (env k)) cur

unfoldable pub over_path : Env → Bytes → Option Bytes → Option Bytes
unfolding over parsed non_empty
over_path env k cur = over (parsed (λ s. some (some s)) (non_empty env k)) cur

-- `Some(v)` is written where the variable is not empty and parses.
unfoldable pub over_opt : {A : Type 0} → (Bytes → Option A) → Env → Bytes → Option A → Option A
unfolding over parsed non_empty
over_opt parse env k cur = over (parsed (λ v. some (some v)) (parsed parse (non_empty env k))) cur

unfoldable pub model_word : Bytes → Model
unfolding one_of
model_word s =
    if one_of (ascii "half-cascade" ∷ ascii "half" ∷ ascii "halfcascade" ∷ ascii "cascade" ∷ []) s
    then half_cascade
    else native_audio

unfoldable pub gender_word : Bytes → Gender
unfolding one_of
gender_word s =
    if one_of (ascii "male" ∷ ascii "m" ∷ ascii "man" ∷ []) s
    then male
    else if one_of (ascii "neutral" ∷ ascii "none" ∷ ascii "n" ∷ []) s
    then neutral
    else female

unfoldable pub parse_gender : Bytes → Gender
unfolding gender_word lowercase trim
parse_gender s = gender_word (lowercase (trim s))

unfoldable pub over_proxy : Env → Option Proxy → Option Proxy
unfolding over parsed non_empty
over_proxy env cur =
    over
      (parsed
        (λ url. some (
          some (record {
            url = url;
            user = non_empty env (ascii "PROXY_USER");
            password = non_empty env (ascii "PROXY_PASSWORD");
          })))
        (non_empty env (ascii "PROXY_URL")))
      cur
