-- ===== src/NetCheck/Probing.antt =====
-- How long `preflight` of src/net_check.rs takes, and what its result rests on.
use kutsu.Base.{
  ℕ, zero, suc, ◌+◌, ◌*◌, ◌%◌, max, ◌≤◌, ◌≡◌, Bool, true, false, List, [], ◌∷◌, arith, length, All,
}
use kutsu.Base.Bytes.{Bytes}
use kutsu.NetCheck.{
  Stats, NetworkHealth, NetCheckConfig, summarize, acknowledged, pong, close, data_frame,
  other_frame, read_error,
}
use kutsu.NetCheck.Probe.{
  Incoming, arrives, ends, wait_within, warm_up, Sampled, sample, ack_within, Wire, budget_of,
  set_up, preflight,
}

wait_ends :
    (expected : Bytes) (over now : ℕ) (fs : List Incoming)
    → now ≤ over
    → (now ≤ (wait_within expected over now fs).at) × ((wait_within expected over now fs).at ≤ over)
unfolding wait_within
wait_ends expected over now [] h = omega arith
wait_ends expected over now (ends t ∷ fs) h = ground arith
wait_ends expected over now (arrives t (pong p) ∷ fs) h =
    ground (arith, wait_ends expected over now fs)
wait_ends expected over now (arrives t (read_error e) ∷ fs) h = ground arith
wait_ends expected over now (arrives t (close c) ∷ fs) h =
    ground (arith, wait_ends expected over now fs)
wait_ends expected over now (arrives t (data_frame b) ∷ fs) h =
    ground (arith, wait_ends expected over now fs)
wait_ends expected over now (arrives t other_frame ∷ fs) h =
    ground (arith, wait_ends expected over now fs)

warm_up_ends :
    (k i budget now : ℕ) (fs : List Incoming) → (warm_up k i budget now fs).0 ≤ now + k * budget
unfolding warm_up
warm_up_ends zero i budget now fs = omega arith
warm_up_ends (suc k) i budget now fs =
    let w = wait_within (255 ∷ i % 256 ∷ []) (now + budget) now fs in
    omega (
      arith,
      wait_ends (255 ∷ i % 256 ∷ []) (now + budget) now fs,
      warm_up_ends k (i + 1) budget w.at w.rest,
    )

-- What the samples come to: all are counted, within the budget for each.
pub record IsSample (k budget now : ℕ) (r : Sampled) : Type 0 where
  pub in_time : r.at ≤ now + k * budget
  pub all_counted : r.broken ≡ false → length r.rtts + r.lost ≡ k
  pub within : All (λ x. x ≤ budget) r.rtts

sample-IsSample :
    (sends : ℕ → Bool) (k i budget now : ℕ) (fs : List Incoming)
    → IsSample k budget now (sample sends k i budget now fs)
unfolding sample
sample-IsSample sends zero i budget now fs = ground arith
sample-IsSample sends (suc k) i budget now fs =
    let w = wait_within (i % 256 ∷ []) (now + budget) now fs in
    ground (
      arith,
      wait_ends (i % 256 ∷ []) (now + budget) now fs,
      sample-IsSample sends k (i + 1) budget w.at w.rest,
    )

ack_ends : (over now : ℕ) (fs : List Incoming) → now ≤ over → (ack_within over now fs).1 ≤ over
unfolding ack_within
ack_ends over now [] h = omega arith
ack_ends over now (ends t ∷ fs) h = ground arith
ack_ends over now (arrives t f ∷ fs) h = ground (arith, ack_ends over now fs)

module _ (s : Stats) (nc : NetCheckConfig s.F) (wire : Wire) (start : ℕ) where
  abbrev pub warmed : ℕ × List Incoming
  warmed = warm_up nc.warmup_pings 0 (budget_of s nc) (start + wire.connect_took) wire.incoming

  -- What the samples of the probe come to.
  abbrev pub sampled : Sampled
  sampled = sample wire.sends (max nc.samples 1) 0 (budget_of s nc) warmed.0 warmed.1

  sampled-IsSample : IsSample (max nc.samples 1) (budget_of s nc) warmed.0 sampled
  sampled-IsSample =
      sample-IsSample wire.sends (max nc.samples 1) 0 (budget_of s nc) warmed.0 warmed.1

  -- However the other end behaves, a probe whose connection takes its time is over within the ping
  -- budget for each of its pings, at least one of them a sample, and the budget of the setup.
  pub preflight_ends :
      (preflight s nc wire start).1
      ≤ start
        + wire.connect_took
        + (nc.warmup_pings + max nc.samples 1) * (nc.max_rtt_ms * 4)
        + max (nc.max_rtt_ms * 4) 2000
  unfolding preflight set_up
  preflight_ends = grind (
    arith,
    warm_up_ends nc.warmup_pings 0 (budget_of s nc) (start + wire.connect_took) wire.incoming,
    sampled-IsSample,
    ack_ends (sampled.at + max (budget_of s nc) 2000) sampled.at sampled.rest,
  )

  -- What a healthy probe rests on.
  pub record IsMeasured (h : NetworkHealth s.F) : Type 0 where
    pub connect_ms : ℕ
    pub setup_ms : ℕ
    pub connected : wire.connects ≡ true
    pub acked :
        (ack_within (sampled.at + max (nc.max_rtt_ms * 4) 2000) sampled.at sampled.rest).0
        ≡ acknowledged
    pub all_counted : length sampled.rtts + sampled.lost ≡ max nc.samples 1
    pub within : All (λ x. x ≤ nc.max_rtt_ms * 4) sampled.rtts
    pub summarized : h ≡ record (summarize s sampled.rtts sampled.lost (max nc.samples 1)) {
      connect_ms = connect_ms;
      setup_ms = setup_ms;
    }
    pub connect_time : connect_ms ≤ wire.connect_took
    pub setup_time : setup_ms ≤ max (nc.max_rtt_ms * 4) 2000
