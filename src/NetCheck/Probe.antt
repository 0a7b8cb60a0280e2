-- ===== src/NetCheck/Probe.antt =====
-- src/net_check.rs: `preflight`, over a socket that is given by what arrives on it, and when. A send
-- takes no time; whether it succeeds is given too.
use kutsu.Base.{
  ℕ, zero, suc, ◌+◌, ◌-◌, ◌*◌, ◌%◌, max, Bool, true, false, List, [], ◌∷◌, leb, if◌then◌else◌,
}
use kutsu.Base.Bytes.{Bytes, bytes_eq}
use kutsu.Disposition.{ascii}
use kutsu.NetCheck.{
  Stats, NetworkHealth, NetCheckConfig, summarize, Frame, pong, close, data_frame, other_frame,
  read_error, SetupProbe, acknowledged, rejected, timeout, frame, done, keep_waiting, ack_step,
}

-- A frame with the millisecond at which it can be read; a stream that has ended stays so.
pub data Incoming : Type 0 where
  arrives : ℕ → Frame → Incoming
  ends : ℕ → Incoming

-- Whether the pong came, when the wait ended, and what is left to read.
pub record Waited : Type 0 where
  pub got : Bool
  pub at : ℕ
  pub rest : List Incoming

-- `timeout(budget, wait_for_pong(..))`, with the time at which the budget is over.
unfoldable pub wait_within : Bytes → ℕ → ℕ → List Incoming → Waited
unfolding bytes_eq
wait_within expected over now [] = record { got = false; at = over; rest = [] }
wait_within expected over now (ends t ∷ fs) =
    if leb t over
    then record { got = false; at = max now t; rest = ends t ∷ fs }
    else record { got = false; at = over; rest = ends t ∷ fs }
wait_within expected over now (arrives t (pong p) ∷ fs) =
    let later = wait_within expected over now fs in
    if leb t over
    then (if bytes_eq p expected then record { got = true; at = max now t; rest = fs } else later)
    else record { got = false; at = over; rest = arrives t (pong p) ∷ fs }
wait_within expected over now (arrives t (read_error e) ∷ fs) =
    if leb t over
    then record { got = false; at = max now t; rest = fs }
    else record { got = false; at = over; rest = arrives t (read_error e) ∷ fs }
wait_within expected over now (arrives t (close c) ∷ fs) =
    let later = wait_within expected over now fs in
    if leb t over then later else record { got = false; at = over; rest = arrives t (close c) ∷ fs }
wait_within expected over now (arrives t (data_frame b) ∷ fs) =
    let later = wait_within expected over now fs in
    if leb t over
    then later
    else record { got = false; at = over; rest = arrives t (data_frame b) ∷ fs }
wait_within expected over now (arrives t other_frame ∷ fs) =
    let later = wait_within expected over now fs in
    if leb t over
    then later
    else record { got = false; at = over; rest = arrives t other_frame ∷ fs }

-- The warm-up pings from the `i`-th on: when they are over, and what is left to read.
unfoldable pub warm_up : ℕ → ℕ → ℕ → ℕ → List Incoming → ℕ × List Incoming
warm_up zero i budget now fs = (now, fs)
warm_up (suc k) i budget now fs =
    let w = wait_within (255 ∷ i % 256 ∷ []) (now + budget) now fs in
    warm_up k (i + 1) budget w.at w.rest

-- The samples; `broken` if a ping could not be sent.
pub record Sampled : Type 0 where
  pub rtts : List ℕ
  pub lost : ℕ
  pub at : ℕ
  pub rest : List Incoming
  pub broken : Bool

abbrev pub counted : Bool → ℕ → Sampled → Sampled
counted true rtt s = record s { rtts = rtt ∷ s.rtts }
counted false rtt s = record s { lost = s.lost + 1 }

unfoldable pub sample : (ℕ → Bool) → ℕ → ℕ → ℕ → ℕ → List Incoming → Sampled
sample sends zero i budget now fs = record {
  rtts = [];
  lost = 0;
  at = now;
  rest = fs;
  broken = false;
}
sample sends (suc k) i budget now fs =
    let w = wait_within (i % 256 ∷ []) (now + budget) now fs in
    let later = sample sends k (i + 1) budget w.at w.rest in
    if sends i
    then counted w.got ((w.at - now) % 4294967296) later
    else record { rtts = []; lost = 0; at = now; rest = fs; broken = true }

abbrev pub ended_early : Bytes
ended_early = ascii "stream ended before setupComplete"

abbrev pub no_close_frame : Bytes
no_close_frame = ascii "no close frame"

-- `await_setup_ack`, with the time at which its deadline comes, and when it returns.
unfoldable pub ack_within : ℕ → ℕ → List Incoming → SetupProbe × ℕ
unfolding ack_step
ack_within over now [] = (timeout, over)
ack_within over now (ends t ∷ fs) =
    if leb t over then (rejected 0 ended_early, max now t) else (timeout, over)
ack_within over now (arrives t f ∷ fs) =
    let later = ack_within over now fs in
    if leb t over
    then elim (ack_step ended_early no_close_frame (frame f)) [
      | done p ↦ (p, max now t)
      | keep_waiting ↦ later
    ]
    else (timeout, over)

-- What the socket does beside what arrives: how long the connection takes, whether it comes about,
-- whether the ping of a sample and the setup can be sent.
pub record Wire : Type 0 where
  pub connect_took : ℕ
  pub connects : Bool
  pub sends : ℕ → Bool
  pub sends_setup : Bool
  pub incoming : List Incoming

pub data ProbeError : Type 0 where
  connect_failed ping_failed setup_unsent setup_timeout : ProbeError
  setup_rejected : ℕ → Bytes → ProbeError

pub data Probed (F : Type 0) : Type 0 where
  healthy : NetworkHealth F → Probed F
  unhealthy : ProbeError → Probed F

module _ (s : Stats) where
  open s use {F}

  abbrev pub budget_of : NetCheckConfig F → ℕ
  budget_of nc = nc.max_rtt_ms * 4

  unfoldable pub judged : SetupProbe → Sampled → ℕ → ℕ → ℕ → Probed F
  judged acknowledged r n connect_ms setup_ms =
      healthy
        (record (summarize s r.rtts r.lost n) { connect_ms = connect_ms; setup_ms = setup_ms })
  judged (rejected code reason) r n connect_ms setup_ms = unhealthy (setup_rejected code reason)
  judged timeout r n connect_ms setup_ms = unhealthy setup_timeout

  -- The setup, once the samples are taken.
  unfoldable pub set_up : NetCheckConfig F → Wire → Sampled → ℕ → Probed F × ℕ
  unfolding judged
  set_up nc wire r n =
      let (probe, acked_at) = ack_within (r.at + max (budget_of nc) 2000) r.at r.rest in
      if r.broken
      then (unhealthy ping_failed, r.at)
      else if wire.sends_setup
      then (
        judged probe r n (wire.connect_took % 4294967296) ((acked_at - r.at) % 4294967296),
        acked_at,
      )
      else (unhealthy setup_unsent, r.at)

  -- The result, and when it is there; `start` is the time at which the probe starts.
  unfoldable pub preflight : NetCheckConfig F → Wire → ℕ → Probed F × ℕ
  unfolding set_up
  preflight nc wire start =
      let connected = start + wire.connect_took in
      let (warm_at, fs) = warm_up nc.warmup_pings 0 (budget_of nc) connected wire.incoming in
      let n = max nc.samples 1 in
      let r = sample wire.sends n 0 (budget_of nc) warm_at fs in
      if wire.connects then set_up nc wire r n else (unhealthy connect_failed, connected)
