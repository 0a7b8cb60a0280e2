-- ===== src/NetCheck.antt =====
-- src/net_check.rs: the fail-closed network preflight.
pub mod Window
pub mod Spike
pub mod Probe
pub mod Probing
use kutsu.Base.{
  ℕ, suc, zero, ◌+◌, ◌-◌, ◌*◌, ◌^◌, ◌≤◌, min, max, Bool, true, false, not, ◌&&◌, ◌||◌, Option, none,
  some, List, [], ◌∷◌, ◌++◌, ltb, leb, ◌==◌, if◌then◌else◌, length, take, drop, get_elem?,
  sat_add64, sat_mul64, sat_add32, u32_max,
}
use kutsu.Base.Bytes.{Bytes, bytes_eq}

pub data Verdict : Type 0 where
  ok unusable : Verdict

-- `NetworkHealth`; the loss percentage is an f32, whose type is a parameter.
pub record NetworkHealth (F : Type 0) : Type 0 where
  pub rtt_p50_ms : ℕ
  pub rtt_p95_ms : ℕ
  pub rtt_p95_raw_ms : ℕ
  pub jitter_ms : ℕ
  pub loss_pct : F
  pub connect_ms : ℕ
  pub setup_ms : ℕ

-- The part of `NetCheckConfig` (src/config.rs) that the preflight reads.
pub record NetCheckConfig (F : Type 0) : Type 0 where
  pub enabled : Bool
  pub samples : ℕ
  pub warmup_pings : ℕ
  pub max_rtt_ms : ℕ
  pub max_jitter_ms : ℕ
  pub max_loss_pct : F
  pub max_setup_ms : ℕ
  pub retry_max : ℕ
  pub retry_backoff_base_ms : ℕ

-- What is f32 arithmetic in the code: the loss in percent, the comparison with its bound, and
-- the index `((len - 1) * q).round()` of a percentile, for q = 0.50 and q = 0.95.
pub record Stats : Type 1 where
  pub F : Type 0
  pub exceeds : F → F → Bool
  pub loss : ℕ → ℕ → F
  pub at50 : ℕ → ℕ
  pub at95 : ℕ → ℕ

-- `base * 2^(attempt-1)`, the shift capped at 16.
unfoldable pub retry_backoff_ms : ℕ → ℕ → ℕ
retry_backoff_ms attempt base_ms = sat_mul64 base_ms (2 ^ (min (attempt - 1) 16))

-- The fold over `1..attempts`, which has `attempts - 1` terms.
unfoldable pub backoff_total : ℕ → ℕ → ℕ
unfolding retry_backoff_ms
backoff_total zero base_ms = 0
backoff_total (suc i) base_ms =
    sat_add64 (backoff_total i base_ms) (retry_backoff_ms (suc i) base_ms)

-- The code's one slice is `sort_unstable`, whose result on u32 does not depend on the algorithm.
unfoldable pub insert_sorted : ℕ → List ℕ → List ℕ
insert_sorted x [] = x ∷ []
insert_sorted x (y ∷ ys) = if leb x y then x ∷ y ∷ ys else y ∷ insert_sorted x ys

unfoldable pub sort : List ℕ → List ℕ
sort [] = []
sort (x ∷ xs) = insert_sorted x (sort xs)

-- An index, which the code takes within the slice's bounds or panics.
unfoldable pub at : List ℕ → ℕ → ℕ
at xs i = elim (get_elem? xs i) [ none ↦ 0 | some x ↦ x ]

-- `&rtts[..rtts.len() - 1]` when there are more than two, else all of them.
unfoldable pub trimmed : List ℕ → List ℕ
trimmed rtts = if ltb 2 (length rtts) then take (length rtts - 1) rtts else rtts

module _ (s : Stats) where
  open s use {F, exceeds, loss, at50, at95}

  unfoldable pub verdict : NetworkHealth F → NetCheckConfig F → Verdict
  verdict h cfg =
      let setup_bad =
        ltb 0 cfg.max_setup_ms && ltb cfg.max_setup_ms (sat_add32 h.connect_ms h.setup_ms) in
      if ltb cfg.max_rtt_ms h.rtt_p95_ms
        || ltb cfg.max_jitter_ms h.jitter_ms
        || exceeds h.loss_pct cfg.max_loss_pct
        || setup_bad
      then unusable
      else ok

  unfoldable pub preflight_max_window_ms : NetCheckConfig F → ℕ
  preflight_max_window_ms nc =
      let attempts = max nc.retry_max 1 in
      let ping_budget = sat_mul64 nc.max_rtt_ms 4 in
      let pings = sat_add32 nc.samples nc.warmup_pings in
      let ack_budget = max ping_budget 2000 in
      let per_attempt = sat_add64 (sat_add64 (sat_mul64 ping_budget pings) ack_budget) 5000 in
      sat_add64 (backoff_total (attempts - 1) nc.retry_backoff_base_ms)
        (sat_mul64 attempts per_attempt)

  -- The percentiles of the sorted samples; there is at least one.
  unfoldable pub percentiles : List ℕ → ℕ → ℕ → NetworkHealth F
  percentiles rtts lost total =
      let sample = trimmed rtts in
      let p50 = at sample (at50 (length sample)) in
      let p95 = at sample (at95 (length sample)) in
      record {
        rtt_p50_ms = p50;
        rtt_p95_ms = p95;
        rtt_p95_raw_ms = at rtts (at95 (length rtts));
        jitter_ms = p95 - p50;
        loss_pct = loss lost total;
        connect_ms = 0;
        setup_ms = 0;
      }

  unfoldable pub summarize : List ℕ → ℕ → ℕ → NetworkHealth F
  unfolding percentiles
  summarize [] lost total = record {
    rtt_p50_ms = u32_max;
    rtt_p95_ms = u32_max;
    rtt_p95_raw_ms = u32_max;
    jitter_ms = u32_max;
    loss_pct = loss lost total;
    connect_ms = 0;
    setup_ms = 0;
  }
  summarize (x ∷ xs) lost total = percentiles (sort (x ∷ xs)) lost total

-- A frame of the socket, as far as the preflight looks into it. Whether a text or binary frame
-- carries `setupComplete` is the protocol crate's `parse_server_message`.
pub data Frame : Type 0 where
  pong : Bytes → Frame
  close : Option (ℕ × Bytes) → Frame
  data_frame : Bool → Frame
  other_frame : Frame
  read_error : Bytes → Frame

pub data SetupProbe : Type 0 where
  acknowledged : SetupProbe
  rejected : ℕ → Bytes → SetupProbe
  timeout : SetupProbe

-- What one turn of the `select!` of `await_setup_ack` gets.
pub data Arrival : Type 0 where
  deadline : Arrival
  stream_end : Arrival
  frame : Frame → Arrival

pub data AckStep : Type 0 where
  done : SetupProbe → AckStep
  keep_waiting : AckStep

module _ (ended no_frame : Bytes) where
  -- One turn; `ended` and `no_frame` are the two literal reasons.
  unfoldable pub ack_step : Arrival → AckStep
  ack_step deadline = done timeout
  ack_step stream_end = done (rejected 0 ended)
  ack_step (frame (close none)) = done (rejected 0 no_frame)
  ack_step (frame (close (some (code, reason)))) = done (rejected code reason)
  ack_step (frame (data_frame true)) = done acknowledged
  ack_step (frame (data_frame false)) = keep_waiting
  ack_step (frame (pong p)) = keep_waiting
  ack_step (frame other_frame) = keep_waiting
  ack_step (frame (read_error e)) = done (rejected 0 e)

  -- The deadline comes in the end: after the arrivals before it.
  unfoldable pub await_setup_ack : List Arrival → SetupProbe
  unfolding ack_step
  await_setup_ack [] = timeout
  await_setup_ack (a ∷ as') =
      let rest = await_setup_ack as' in elim (ack_step a) [ done p ↦ p | keep_waiting ↦ rest ]

-- `wait_for_pong`: whether it returns `Ok`.
unfoldable pub wait_for_pong : Bytes → List Frame → Bool
wait_for_pong expected [] = false
wait_for_pong expected (pong p ∷ fs) =
    let rest = wait_for_pong expected fs in if bytes_eq p expected then true else rest
wait_for_pong expected (read_error e ∷ fs) = false
wait_for_pong expected (close c ∷ fs) = wait_for_pong expected fs
wait_for_pong expected (data_frame b ∷ fs) = wait_for_pong expected fs
wait_for_pong expected (other_frame ∷ fs) = wait_for_pong expected fs
