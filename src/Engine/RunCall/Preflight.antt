-- ===== src/Engine/RunCall/Preflight.antt =====
-- The retry loop of the preflight phase (src/engine.rs, step 0 of `run_call`).
use kutsu.Base.{
  ℕ, zero, suc, ◌+◌, ◌-◌, ◌≡◌, ◌≤◌, ◌<◌, max, ◌≢◌, ◌⊎◌, subst, refl, Bool, sat_add32, true, false,
  Option, some, ◌++◌, if◌then◌else◌, arith, inl, inr,
}
use kutsu.Base.Bytes.{Bytes}
use kutsu.Disposition.{ascii}
use kutsu.NetCheck.{Stats, NetworkHealth, NetCheckConfig, Verdict, verdict}
use kutsu.Engine.RunCall.{
  Attempt, interrupted, healthy, probe_error, is_ok, PreflightEnd, called_off, usable, gave_up,
  probe_end, after_attempt, preflight_from, preflight_phase,
}

module _ (s : Stats) (summary : NetworkHealth s.F → Bytes) (nc : NetCheckConfig s.F)
    (probes : ℕ → Attempt s.F × Bool) where
  -- The figures keep every threshold; 0 turns that of the set-up off.
  abbrev pub IsGood : NetworkHealth s.F → Type 0
  IsGood h =
      (h.rtt_p95_ms ≤ nc.max_rtt_ms)
      × (h.jitter_ms ≤ nc.max_jitter_ms)
      × (s.exceeds h.loss_pct nc.max_loss_pct ≡ false)
      × ((nc.max_setup_ms ≡ 0) ⊎ (sat_add32 h.connect_ms h.setup_ms ≤ nc.max_setup_ms))

  ok-IsGood : (h : NetworkHealth s.F) → verdict s h nc ≡ Verdict.ok → IsGood h
  unfolding verdict
  ok-IsGood h e = ground arith

  -- What an attempt must have been to end so. A network is usable only if it was measured and kept
  -- all its thresholds; a probe that failed is never taken for a usable network.
  abbrev pub Ends : Attempt s.F → PreflightEnd → Type 0
  Ends interrupted usable = ⊥
  Ends (probe_error e) usable = ⊥
  Ends (healthy h) usable = IsGood h
  Ends interrupted called_off = Unit
  Ends (probe_error e) called_off = ⊥
  Ends (healthy h) called_off = ⊥
  Ends interrupted (gave_up m) = ⊥
  Ends (probe_error e) (gave_up m) = m ≡ some (ascii "network preflight failed: " ++ e)
  Ends (healthy h) (gave_up m) =
      (verdict s h nc ≡ Verdict.unusable)
      × (m ≡ some (ascii "network preflight unusable: " ++ summary h))

  ended : (a : Attempt s.F) → Ends a (probe_end s summary nc a)
  unfolding probe_end is_ok
  ended interrupted = tt
  ended (probe_error e) = refl
  ended (healthy h) = measured (verdict s h nc) refl
    where
      measured :
          (v : Verdict)
          → verdict s h nc ≡ v
          → Ends (healthy h) (
              if is_ok v
              then usable
              else gave_up (some (ascii "network preflight unusable: " ++ summary h)))
      measured Verdict.ok e = ok-IsGood h e
      measured Verdict.unusable e = (e, refl)

  -- Attempt `i` failed, and the call was not cancelled while it waited for the next.
  abbrev pub Retried : ℕ → Type 0
  Retried i = ((e : Option Bytes) × Ends (probes i).0 (gave_up e)) × ((probes i).1 ≡ false)

  -- What the loop's result says about the attempts from `i` on, `left + 1` in all.
  abbrev pub Explained : ℕ → ℕ → PreflightEnd → Type 0
  Explained i left usable =
      (k : ℕ) × (k ≤ left) × (Ends (probes (i + k)).0 usable) × ((j : ℕ) → j < k → Retried (i + j))
  Explained i left (gave_up e) =
      (Ends (probes (i + left)).0 (gave_up e)) × ((j : ℕ) → j < left → Retried (i + j))
  Explained i left called_off =
      (k : ℕ) × (k ≤ left)
      × (Ends (probes (i + k)).0 called_off ⊎ ((probes (i + k)).1 ≡ true))
      × ((j : ℕ) → j < k → Retried (i + j))

  -- The attempt at an equal number.
  moved : {i j : ℕ} (p : PreflightEnd) → i ≡ j → Ends (probes i).0 p → Ends (probes j).0 p
  moved p e = subst (λ n. Ends (probes n).0 p) e

  earlier :
      (i k : ℕ)
      → Retried i
      → ((j : ℕ) → j < k → Retried (i + 1 + j))
      → (j : ℕ) → j < suc k
      → Retried (i + j)
  earlier i k r rs zero lt = subst Retried (omega arith) r
  earlier i k r rs (suc j) lt = subst Retried (omega arith) (rs j (omega (arith, lt)))

  none_before : (i j : ℕ) → j < 0 → Retried (i + j)
  none_before i j lt = absurd (omega (arith, lt))

  first-Explained : (i left : ℕ) (p : PreflightEnd) → Ends (probes i).0 p → Explained i zero p
  first-Explained i left usable e = (0, omega arith, moved usable (omega arith) e, none_before i)
  first-Explained i left (gave_up m) e = (moved (gave_up m) (omega arith) e, none_before i)
  first-Explained i left called_off e =
      (0, omega arith, inl (moved called_off (omega arith) e), none_before i)

  next-Explained :
      (i left : ℕ) (p : PreflightEnd)
      → Retried i
      → Explained (i + 1) left p
      → Explained i (suc left) p
  next-Explained i left usable r (k, le, e, rs) =
      (suc k, omega (arith, le), moved usable (omega arith) e, earlier i k r rs)
  next-Explained i left (gave_up m) r (e, rs) =
      (moved (gave_up m) (omega arith) e, earlier i left r rs)
  next-Explained i left called_off r (k, le, inl e, rs) =
      (suc k, omega (arith, le), inl (moved called_off (omega arith) e), earlier i k r rs)
  next-Explained i left called_off r (k, le, inr e, rs) = (
    suc k,
    omega (arith, le),
    inr (subst (λ n. (probes n).1 ≡ true) (omega arith) e),
    earlier i k r rs,
  )

  widen-Explained :
      (i left : ℕ) (p : PreflightEnd)
      → ((m : Option Bytes) → p ≢ gave_up m)
      → Explained i zero p
      → Explained i left p
  widen-Explained i left usable n (k, le, e, rs) = (k, omega (arith, le), e, rs)
  widen-Explained i left (gave_up m) n x = absurd (n m refl)
  widen-Explained i left called_off n (k, le, e, rs) = (k, omega (arith, le), e, rs)

  turn-Explained :
      (i left : ℕ) (p rest : PreflightEnd) (c : Bool)
      → Ends (probes i).0 p
      → (probes i).1 ≡ c
      → Explained (i + 1) left rest
      → Explained i (suc left) (after_attempt p c rest)
  unfolding after_attempt
  turn-Explained i left called_off rest c e f x =
      widen-Explained i (suc left) called_off (λ m h. ground arith)
        (first-Explained i left called_off e)
  turn-Explained i left usable rest c e f x =
      widen-Explained i (suc left) usable (λ m h. ground arith) (first-Explained i left usable e)
  turn-Explained i left (gave_up m) rest true e f x =
      (0, omega arith, inr (subst (λ n. (probes n).1 ≡ true) (omega arith) f), none_before i)
  turn-Explained i left (gave_up m) rest false e f x = next-Explained i left rest ((m, e), f) x

  from-Explained : (left i : ℕ) → Explained i left (preflight_from s summary nc probes i left)
  unfolding preflight_from
  from-Explained zero i = first-Explained i zero _ (ended (probes i).0)
  from-Explained (suc left) i =
      turn-Explained i left _ _ _ (ended (probes i).0) refl (from-Explained left (i + 1))

  -- The phase is fail-closed and bounded. It finds the network usable only at an attempt whose
  -- probe came back and whose figures keep all the thresholds, all attempts before having failed; an
  -- attempt whose probe failed never counts as usable. It gives up only when all `retry_max` attempts
  -- (at least one) have failed, with the last one's error; it is called off only at an attempt that
  -- was interrupted, in its probe or in the wait after it.
  pub phase-Explained : Explained 1 (max nc.retry_max 1 - 1) (preflight_phase s summary nc probes)
  unfolding preflight_phase
  phase-Explained = from-Explained (max nc.retry_max 1 - 1) 1
