-- ===== src/Sip/Hangup.antt =====
-- Hanging up a call (`SipCall::hangup` of src/sip/mod.rs against `run_call` of src/sip/call.rs), and
-- what an answer rests on.
use kutsu.Base.{◌≡◌, ◌≢◌, refl, Bool, true, false, List, [], ◌∷◌, arith}
use kutsu.Engine.Gates.{DownlinkQuality}
use kutsu.Sip.{
  NegotiatedCodec, SipEvent, answered, terminated, Act, reply_err, hangup_returns, reply_ok,
  cancel_invite, terminate_call, send, MediaSignal, sender_added, receiver_added, Signal, rr_tick,
  media, hangup, Dialing, dial, Media, MediaTurn, goes_on, returns, media_step, Negotiation, waits,
  panics, established, gone, unwrapped, negotiate, Run, main_step, main_loop, talk, run_call,
  neg_codec, no_media_yet,
}
use kutsu.Sip.Trace.{run_call-IsOrderly, terminations, is_taken}
use kutsu.Sip

abbrev pub sent : List Act → List SipEvent
sent [] = []
sent (send e ∷ as') = e ∷ sent as'
sent (reply_err e ∷ as') = sent as'
sent (reply_ok taken ∷ as') = sent as'
sent (cancel_invite ∷ as') = sent as'
sent (terminate_call ∷ as') = sent as'

terminated_returns : (as' : List Act) → terminations as' ≡ 1 → hangup_returns (sent as') ≡ true
unfolding hangup_returns
terminated_returns [] h = ground arith
terminated_returns (send (terminated r) ∷ as') h = refl
terminated_returns (send (answered c) ∷ as') h = terminated_returns as' h
terminated_returns (reply_err e ∷ as') h = terminated_returns as' h
terminated_returns (reply_ok taken ∷ as') h = terminated_returns as' h
terminated_returns (cancel_invite ∷ as') h = terminated_returns as' h
terminated_returns (terminate_call ∷ as') h = terminated_returns as' h

module _ (F : Type 0) (zero_pct : F) (to_pct : F → F) where
  abbrev pub is_hung_up : List (Signal F) → Bool
  is_hung_up [] = false
  is_hung_up (hangup ∷ ss) = true
  is_hung_up (rr_tick rss ∷ ss) = is_hung_up ss
  is_hung_up (Signal.internal b ∷ ss) = is_hung_up ss
  is_hung_up (media ∷ ss) = is_hung_up ss
  is_hung_up (Signal.ended ∷ ss) = is_hung_up ss
  is_hung_up (Signal.broken text ∷ ss) = is_hung_up ss

  main_loop-is_over :
      (ss : List (Signal F)) (d : DownlinkQuality F)
      → is_hung_up ss ≡ true
      → (main_loop F zero_pct to_pct d ss).is_over ≡ true
  unfolding main_loop main_step
  main_loop-is_over [] d h = ground arith
  main_loop-is_over (rr_tick rss ∷ ss) d h =
      main_loop-is_over ss (Sip.sampled F zero_pct to_pct rss) h
  main_loop-is_over (Signal.internal true ∷ ss) d h = main_loop-is_over ss d h
  main_loop-is_over (Signal.internal false ∷ ss) d h = refl
  main_loop-is_over (media ∷ ss) d h = main_loop-is_over ss d h
  main_loop-is_over (Signal.ended ∷ ss) d h = refl
  main_loop-is_over (Signal.broken text ∷ ss) d h = refl
  main_loop-is_over (hangup ∷ ss) d h = refl

  talk-is_over :
      (n : Negotiation) (ss : List (Signal F))
      → n ≢ waits
      → is_hung_up ss ≡ true
      → (talk F zero_pct to_pct n ss).is_over ≡ true
  unfolding talk
  talk-is_over waits ss n h = absurd (n refl)
  talk-is_over panics ss n h = refl
  talk-is_over (gone acts) ss n h = refl
  talk-is_over (established c) ss n h = main_loop-is_over ss (Sip.no_report F zero_pct to_pct) h

  run_call-taken :
      (d : Dialing) (ms : List MediaSignal) (ss : List (Signal F))
      → (dial d).1 ≡ true
      → is_taken (run_call F zero_pct to_pct d ms ss).acts ≡ true
  unfolding run_call dial
  run_call-taken d ms ss h = ground arith

  run_call-is_over :
      (d : Dialing) (ms : List MediaSignal) (ss : List (Signal F))
      → negotiate no_media_yet ms ≢ waits
      → is_hung_up ss ≡ true
      → (run_call F zero_pct to_pct d ms ss).is_over ≡ true
  unfolding run_call
  run_call-is_over d ms ss n h = ground (arith, talk-is_over (negotiate no_media_yet ms) ss n h)

  -- Once the INVITE is completed and the negotiation of the media is over, a call that is hung up
  -- ends, whatever else comes first, and `SipCall::hangup` returns.
  pub hangup_ends :
      (d : Dialing) (ms : List MediaSignal) (ss : List (Signal F))
      → (dial d).1 ≡ true
      → negotiate no_media_yet ms ≢ waits
      → is_hung_up ss ≡ true
      → hangup_returns (sent (run_call F zero_pct to_pct d ms ss).acts) ≡ true
  hangup_ends d ms ss g n h =
      let o = run_call-IsOrderly F zero_pct to_pct d ms ss in
      terminated_returns (run_call F zero_pct to_pct d ms ss).acts
        (ground (arith, o.one_end, run_call-taken d ms ss g, run_call-is_over d ms ss n h))
