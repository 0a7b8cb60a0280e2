-- ===== src/NetCheck/Window.antt =====
-- The gate and the time bound of the preflight phase (src/net_check.rs).
use kutsu.Base.{
  map, length-map, inl, inr, Bool-cases, ℕ, suc, zero, ◌+◌, ◌-◌, ◌*◌, ◌≡◌, ◌≤◌, min, max, ap, sym,
  subst, ◌∙◌, List, [], ◌∷◌, arith, leb, All, length, u64_max, u32_max,
}
use kutsu.NetCheck.Probe.{Wire, preflight}
use kutsu.NetCheck.Probing.{preflight_ends}
use kutsu.NetCheck.{Stats, NetCheckConfig, preflight_max_window_ms, backoff_total, retry_backoff_ms}

-- The waits between the first `i + 1` attempts, added up exactly.
abbrev pub sum_backoffs : ℕ → ℕ → ℕ
sum_backoffs zero base = 0
sum_backoffs (suc i) base = sum_backoffs i base + retry_backoff_ms (suc i) base

abbrev pub sum : List ℕ → ℕ
sum [] = 0
sum (t ∷ ts) = t + sum ts

backoff_total-sum : (i base : ℕ) → backoff_total i base ≡ min (sum_backoffs i base) u64_max
unfolding backoff_total
backoff_total-sum zero base = omega arith
backoff_total-sum (suc i) base = omega (arith, backoff_total-sum i base)

-- A product, saturated inside and out, is the product saturated once.
sat-inner : (a p : ℕ) → min (suc a * min p u64_max) u64_max ≡ min (suc a * p) u64_max
sat-inner a p = elim (Bool-cases (leb p u64_max)) [
  | inl e ↦ ap (λ x. min (suc a * x) u64_max) (ground arith)
  | inr e ↦ over (min p u64_max) (ground arith) ∙ sym (over p (ground arith))
]
  where
    over : (x : ℕ) → u64_max ≤ x → min (suc a * x) u64_max ≡ u64_max
    over x h = omega (arith, h)

sat-factor : (b p : ℕ) → min (min b u64_max * p) u64_max ≡ min (b * p) u64_max
sat-factor b zero = omega arith
sat-factor b (suc p) = elim (Bool-cases (leb b u64_max)) [
  | inl e ↦ ap (λ x. min (x * suc p) u64_max) (ground arith)
  | inr e ↦ over (min b u64_max) (ground arith) ∙ sym (over b (ground arith))
]
  where
    over : (x : ℕ) → u64_max ≤ x → min (x * suc p) u64_max ≡ u64_max
    over x h = omega (arith, h)

sum-le : (ts : List ℕ) (p : ℕ) → All (λ t. t ≤ p) ts → sum ts ≤ length ts * p
sum-le [] p h = omega arith
sum-le (t ∷ ts) p h = omega (arith, sum-le ts p h.1, h.0)

-- The most that one attempt can take: every ping lost, the setup not acknowledged, and five
-- seconds to connect.
abbrev pub attempt_bound : {F : Type 0} → NetCheckConfig F → ℕ
attempt_bound nc =
    (nc.max_rtt_ms * 4) * (nc.samples + nc.warmup_pings) + max (nc.max_rtt_ms * 4) 2000 + 5000

module _ (s : Stats) (nc : NetCheckConfig s.F) where
  -- Times within the bound, and the waits between them, add up to no more than the window.
  bounds-covered :
      (attempts : List ℕ)
      → length attempts ≡ max nc.retry_max 1
      → nc.samples + nc.warmup_pings ≤ u32_max
      → All (λ t. t ≤ attempt_bound nc) attempts
      → min (sum attempts + sum_backoffs (length attempts - 1) nc.retry_backoff_base_ms) u64_max
        ≤ preflight_max_window_ms s nc
  unfolding preflight_max_window_ms
  bounds-covered attempts len fits h =
      subst
        (λ w.
          min (sum attempts + sum_backoffs (length attempts - 1) nc.retry_backoff_base_ms) u64_max
          ≤ w)
        (sym exact)
        (subst
          (λ n.
            min (sum attempts + sum_backoffs (n - 1) nc.retry_backoff_base_ms) u64_max
            ≤ min
                (min (sum_backoffs (max nc.retry_max 1 - 1) nc.retry_backoff_base_ms) u64_max
                  + min (max nc.retry_max 1 * attempt_bound nc) u64_max)
                u64_max)
          (sym len)
          (omega (
            arith,
            subst (λ n. sum attempts ≤ n * attempt_bound nc) len
                (sum-le attempts (attempt_bound nc) h),
          )))
    where
      per_attempt :
          min
            (min
                (min
                    (min (nc.max_rtt_ms * 4) u64_max * min (nc.samples + nc.warmup_pings) u32_max)
                    u64_max
                  + max (min (nc.max_rtt_ms * 4) u64_max) 2000)
                u64_max
              + 5000)
            u64_max
          ≡ min (attempt_bound nc) u64_max
      per_attempt = omega (
        arith,
        fits,
        sat-factor (nc.max_rtt_ms * 4) (nc.samples + nc.warmup_pings),
        ap (λ n. min (nc.max_rtt_ms * 4) u64_max * n) fitted,
      )
        where
          fitted : min (nc.samples + nc.warmup_pings) u32_max ≡ nc.samples + nc.warmup_pings
          fitted = omega (arith, fits)

      all_attempts :
          min (max nc.retry_max 1 * min (attempt_bound nc) u64_max) u64_max
          ≡ min (max nc.retry_max 1 * attempt_bound nc) u64_max
      all_attempts =
          ap (λ n. min (n * min (attempt_bound nc) u64_max) u64_max) some_attempt
          ∙ sat-inner (max nc.retry_max 1 - 1) (attempt_bound nc)
          ∙ ap (λ n. min (n * attempt_bound nc) u64_max) (sym some_attempt)
        where
          some_attempt : max nc.retry_max 1 ≡ suc (max nc.retry_max 1 - 1)
          some_attempt = omega arith

      exact :
          preflight_max_window_ms s nc
          ≡ min
              (min (sum_backoffs (max nc.retry_max 1 - 1) nc.retry_backoff_base_ms) u64_max
                + min (max nc.retry_max 1 * attempt_bound nc) u64_max)
              u64_max
      exact =
          ap
            (λ p.
              min
                (backoff_total (max nc.retry_max 1 - 1) nc.retry_backoff_base_ms
                  + min (max nc.retry_max 1 * p) u64_max)
                u64_max)
            per_attempt
          ∙ ap
              (λ n.
                min (backoff_total (max nc.retry_max 1 - 1) nc.retry_backoff_base_ms + n) u64_max)
              all_attempts
          ∙ ap (λ n. min (n + min (max nc.retry_max 1 * attempt_bound nc) u64_max) u64_max)
              (backoff_total-sum (max nc.retry_max 1 - 1) nc.retry_backoff_base_ms)

  -- How long a probe takes that starts at the given time, over a socket that behaves as given.
  abbrev pub duration : Wire × ℕ → ℕ
  duration (wire, begin) = (preflight s nc wire begin).1 - begin

  duration-le :
      (a : Wire × ℕ) → 1 ≤ nc.samples → a.0.connect_took ≤ 5000 → duration a ≤ attempt_bound nc
  duration-le (wire, begin) one quick = grind (arith, preflight_ends s nc wire begin)

  durations-le :
      (attempts : List (Wire × ℕ))
      → 1 ≤ nc.samples
      → All (λ a. a.0.connect_took ≤ 5000) attempts
      → All (λ t. t ≤ attempt_bound nc) (map duration attempts)
  durations-le [] one h = tt
  durations-le (a ∷ attempts) one h = (duration-le a one h.0, durations-le attempts one h.1)

  -- With at least one sample configured, and a number of pings that does not overflow a u32, the
  -- breaker's window covers the preflight phase: however the sockets of its `retry_max` probes (at
  -- least one) behave, if each connects or fails to within five seconds, the times that the probes
  -- take and the waits between them add up to no more than the window, unless that is the largest
  -- u64.
  pub window-covers :
      (attempts : List (Wire × ℕ))
      → length attempts ≡ max nc.retry_max 1
      → 1 ≤ nc.samples
      → nc.samples + nc.warmup_pings ≤ u32_max
      → All (λ a. a.0.connect_took ≤ 5000) attempts
      → min
          (sum (map duration attempts)
            + sum_backoffs (length attempts - 1) nc.retry_backoff_base_ms)
          u64_max
        ≤ preflight_max_window_ms s nc
  window-covers attempts len one fits quick =
      let m : length (map duration attempts) ≡ length attempts = length-map duration attempts in
      subst
        (λ n.
          min (sum (map duration attempts) + sum_backoffs (n - 1) nc.retry_backoff_base_ms) u64_max
          ≤ preflight_max_window_ms s nc)
        m (bounds-covered (map duration attempts) (m ∙ len) fits (durations-le attempts one quick))
