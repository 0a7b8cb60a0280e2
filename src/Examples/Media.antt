-- ===== src/Examples/Media.antt =====
-- The task of a SIP call and the preflight's socket, at concrete inputs.
use kutsu.Base.{ℕ, ◌+◌, ◌*◌, ◌≤◌, ◌≡◌, refl, true, none, List, [], ◌∷◌, arith}
use kutsu.NetCheck.{pong, data_frame, NetworkHealth, summarize}
use kutsu.NetCheck.Probe.{arrives, Wire, preflight}
use kutsu.NetCheck.Probing.{preflight_ends}
use kutsu.Sip.{
  Dialing, dial, MediaSignal, sender_added, receiver_added, Signal, media, hangup, run_call,
  hangup_returns, negotiate,
}
use kutsu.Sip.Trace.{IsOrderly, run_call-IsOrderly}
use kutsu.Sip.Hangup.{sent, hangup_ends}
use kutsu.Examples.Scheduling.{stats, net_check}

abbrev dialing : Dialing
dialing = record {
  no_media = none;
  not_made = none;
  is_wanted = true;
  not_completed = none;
  not_acked = none;
}

abbrev negotiated : List MediaSignal
negotiated = sender_added 8 ∷ receiver_added ∷ []

abbrev signals : List (Signal ℕ)
signals = media ∷ hangup ∷ []

run_call-IsOrderly_example :
    IsOrderly ℕ 0 (λ x. x * 100) (run_call ℕ 0 (λ x. x * 100) dialing negotiated signals)
run_call-IsOrderly_example = run_call-IsOrderly ℕ 0 (λ x. x * 100) dialing negotiated signals

hangup_ends_example :
    hangup_returns (sent (run_call ℕ 0 (λ x. x * 100) dialing negotiated signals).acts) ≡ true
unfolding dial negotiate
hangup_ends_example =
    hangup_ends ℕ 0 (λ x. x * 100) dialing negotiated signals refl (λ e. ground arith) refl

-- One ping of three is lost, and the setup is acknowledged.
abbrev wire : Wire
wire = record {
  connect_took = 100;
  connects = true;
  sends = λ i. true;
  sends_setup = true;
  incoming =
      arrives 140 (pong (255 ∷ 0 ∷ []))
      ∷ arrives 190 (pong (0 ∷ []))
      ∷ arrives 1500 (pong (1 ∷ []))
      ∷ arrives 1510 (pong (2 ∷ []))
      ∷ arrives 1900 (data_frame true)
      ∷ [];
}

preflight_ends_example : (preflight stats net_check wire 0).1 ≤ 0 + 100 + 4 * 1200 + 2000
preflight_ends_example = preflight_ends stats net_check wire 0

abbrev measured : NetworkHealth ℕ
measured = record (summarize stats (50 ∷ 120 ∷ []) 1 3) { connect_ms = 100; setup_ms = 390 }
