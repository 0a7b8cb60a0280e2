-- ===== src/Http/Guard.antt =====
-- Who gets through to `/mcp` (src/mcp_http.rs).
use kutsu.Base.{
  Bool-cases, ℕ, ◌≡◌, ◌↔◌, ◌⊎◌, inl, inr, refl, ◌∙◌, ap, Bool, true, Option, none, some, [], ◌∷◌,
  ◌++◌, arith,
}
use kutsu.Base.Bytes.{Bytes}
use kutsu.Disposition.{ascii}
use kutsu.Engine.Scheduler.{Engine}
use kutsu.Http.{
  token_matches, strip_prefix, unauthorized, passed, bearer_guard, mcp, metrics, serve,
}

strip_prefix-append : (p s : Bytes) → strip_prefix p (p ++ s) ≡ some s
unfolding strip_prefix
strip_prefix-append [] s = refl
strip_prefix-append (c ∷ p) s = ground (arith, strip_prefix-append p s)

strip_prefix-eq : (p v s : Bytes) → strip_prefix p v ≡ some s → v ≡ p ++ s
unfolding strip_prefix
strip_prefix-eq [] v s h = cc
strip_prefix-eq (c ∷ p) [] s h = cc
strip_prefix-eq (c ∷ p) (d ∷ v) s h = ground (arith, strip_prefix-eq p v s)

-- What the crate `subtle` says of `ct_eq`: it tells whether two texts are the same.
abbrev pub TellsEqual : (Bytes → Bytes → Bool) → Type 0
TellsEqual ct_eq = (a b : Bytes) → (ct_eq a b ≡ true) ↔ (a ≡ b)

abbrev credentials : Bytes → Bytes
credentials token = ascii "Bearer " ++ token

guard_passes :
    (ct_eq : Bytes → Bytes → Bool) (token : Bytes)
    → TellsEqual ct_eq
    → bearer_guard ct_eq token (some (credentials token)) ≡ passed
unfolding bearer_guard token_matches
guard_passes ct_eq token tells =
    ground (arith, strip_prefix-append (ascii "Bearer ") token, (tells token token).1 refl)

guard_of_text :
    (ct_eq : Bytes → Bytes → Bool) (token v : Bytes) (stripped : Option Bytes)
    → TellsEqual ct_eq
    → strip_prefix (ascii "Bearer ") v ≡ stripped
    → (v ≡ credentials token) ⊎ (bearer_guard ct_eq token (some v) ≡ unauthorized)
unfolding bearer_guard token_matches
guard_of_text ct_eq token v none tells h = inr (ground (arith, h))
guard_of_text ct_eq token v (some p) tells h = elim (Bool-cases (ct_eq p token)) [
  | inl y ↦ inl (
      strip_prefix-eq (ascii "Bearer ") v p h
      ∙ ap (λ s. ascii "Bearer " ++ s) ((tells p token).0 y))
  | inr n ↦ inr (ground (arith, h, n))
]

guard_cases :
    (ct_eq : Bytes → Bytes → Bool) (token : Bytes) (header : Option Bytes)
    → TellsEqual ct_eq
    → (header ≡ some (credentials token)) ⊎ (bearer_guard ct_eq token header ≡ unauthorized)
guard_cases ct_eq token none tells = inr (unfold bearer_guard in refl)
guard_cases ct_eq token (some v) tells = elim (guard_of_text ct_eq token v _ tells refl) [
  | inl y ↦ inl (ap some y)
  | inr n ↦ inr n
]

-- With a token configured, `/mcp` answers a request if and only if its header is `Bearer ` and
-- the token, and `unauthorized` to every other; without one it answers all. The page of metrics
-- is the same for every header and every token.
pub mcp_guarded :
    {S V F : Type 0} (ct_eq : Bytes → Bytes → Bool) (max_channels : ℕ) (e : Engine S V F)
    (token : Bytes) (auth_token header : Option Bytes)
    → TellsEqual ct_eq
    → ((serve ct_eq max_channels e (some token) mcp header ≡ passed)
        ↔ (header ≡ some (ascii "Bearer " ++ token)))
      × ((header ≡ some (ascii "Bearer " ++ token))
          ⊎ (serve ct_eq max_channels e (some token) mcp header ≡ unauthorized))
      × (serve ct_eq max_channels e none mcp header ≡ passed)
      × (serve ct_eq max_channels e auth_token metrics header
          ≡ serve ct_eq max_channels e none metrics none)
unfolding serve
mcp_guarded ct_eq max_channels e token auth_token header tells = (
  (
    λ h. elim (guard_cases ct_eq token header tells) [ inl y ↦ y | inr n ↦ ground (arith, h, n) ],
    λ h. ap (λ v. bearer_guard ct_eq token v) h ∙ guard_passes ct_eq token tells,
  ),
  guard_cases ct_eq token header tells,
  refl,
  refl,
)
