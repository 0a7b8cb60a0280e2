-- ===== src/Sip/Trace.antt =====
-- What the task of a call tells the rest of the program (src/sip/call.rs).
use kutsu.Base.{
  ℕ, ◌+◌, ◌≤◌, ◌≡◌, refl, Bool, true, false, ◌&&◌, ◌||◌, some, List, [], ◌∷◌, ◌==◌, arith,
  if◌then◌else◌,
}
use kutsu.Engine.Gates.{DownlinkQuality}
use kutsu.Sip.{
  NegotiatedCodec, TermReason, remote_hangup, local_hangup, failed_with, SipEvent, answered,
  terminated, Act, reply_err, reply_ok, cancel_invite, terminate_call, send, MediaSignal,
  sender_added, receiver_added, Signal, rr_tick, media, hangup, Remote, Dialing, dial, Media,
  MediaTurn, goes_on, returns, media_step, Negotiation, waits, panics, established, gone, unwrapped,
  negotiate, Run, main_step, main_loop, after, talk, run_call, neg_codec,
}
use kutsu.Sip

abbrev pub replies : List Act → ℕ
replies [] = 0
replies (reply_err e ∷ as') = replies as' + 1
replies (reply_ok taken ∷ as') = replies as' + 1
replies (cancel_invite ∷ as') = replies as'
replies (terminate_call ∷ as') = replies as'
replies (send e ∷ as') = replies as'

-- Whether a handle was given out and taken.
abbrev pub is_taken : List Act → Bool
is_taken [] = false
is_taken (reply_ok taken ∷ as') = taken || is_taken as'
is_taken (reply_err e ∷ as') = is_taken as'
is_taken (cancel_invite ∷ as') = is_taken as'
is_taken (terminate_call ∷ as') = is_taken as'
is_taken (send e ∷ as') = is_taken as'

abbrev pub answers : List Act → ℕ
answers [] = 0
answers (send (answered c) ∷ as') = answers as' + 1
answers (send (terminated r) ∷ as') = answers as'
answers (reply_err e ∷ as') = answers as'
answers (reply_ok taken ∷ as') = answers as'
answers (cancel_invite ∷ as') = answers as'
answers (terminate_call ∷ as') = answers as'

abbrev pub terminations : List Act → ℕ
terminations [] = 0
terminations (send (terminated r) ∷ as') = terminations as' + 1
terminations (send (answered c) ∷ as') = terminations as'
terminations (reply_err e ∷ as') = terminations as'
terminations (reply_ok taken ∷ as') = terminations as'
terminations (cancel_invite ∷ as') = terminations as'
terminations (terminate_call ∷ as') = terminations as'

-- No answer comes after a termination.
abbrev pub in_order : List Act → Bool
in_order [] = true
in_order (send (terminated r) ∷ as') = answers as' == 0
in_order (send (answered c) ∷ as') = in_order as'
in_order (reply_err e ∷ as') = in_order as'
in_order (reply_ok taken ∷ as') = in_order as'
in_order (cancel_invite ∷ as') = in_order as'
in_order (terminate_call ∷ as') = in_order as'

-- A sender is only ever stored with its codec.
abbrev HasCodec : Media → Type 0
HasCodec m = m.sender ≡ true → (c : NegotiatedCodec) × (m.codec ≡ some c)

-- What the media loop may end with.
abbrev IsSound : Negotiation → Type 0
IsSound waits = Unit {0}
IsSound panics = ⊥
IsSound (established c) = Unit {0}
IsSound (gone acts) =
    (replies acts ≡ 0)
    × (is_taken acts ≡ false)
    × (terminations acts ≡ 1)
    × (answers acts ≡ 0)
    × (in_order acts ≡ true)

unwrapped-IsSound : (m : Media) → HasCodec m → m.sender ≡ true → IsSound (unwrapped m.codec)
unwrapped-IsSound m h e = rw ((h e).1) tt

if-IsSound :
    (b : Bool) (n n' : Negotiation)
    → (b ≡ true → IsSound n)
    → IsSound n'
    → IsSound (if b then n else n')
if-IsSound true n n' h i = h refl
if-IsSound false n n' h i = i

both-IsSound :
    (m : Media) (rest : Negotiation)
    → HasCodec m
    → IsSound rest
    → IsSound (if m.sender && m.receiver then unwrapped m.codec else rest)
both-IsSound m rest h i =
    if-IsSound (m.sender && m.receiver) _ _ (λ e. unwrapped-IsSound m h (ground arith)) i

negotiate-IsSound : (m : Media) (ms : List MediaSignal) → HasCodec m → IsSound (negotiate m ms)
unfolding negotiate media_step
negotiate-IsSound m [] h = both-IsSound m waits h tt
negotiate-IsSound m (MediaSignal.internal true ∷ ms) h =
    both-IsSound m _ h (negotiate-IsSound m ms h)
negotiate-IsSound m (MediaSignal.internal false ∷ ms) h = both-IsSound m _ h (ground arith)
negotiate-IsSound m (sender_added pt ∷ ms) h = both-IsSound m _ h (
    negotiate-IsSound (record m { sender = true; codec = some (neg_codec pt) }) ms
      (λ _. (neg_codec pt, refl)))
negotiate-IsSound m (receiver_added ∷ ms) h =
    both-IsSound m _ h (negotiate-IsSound (record m { receiver = true }) ms h)
negotiate-IsSound m (MediaSignal.ended ∷ ms) h = both-IsSound m _ h (ground arith)
negotiate-IsSound m (MediaSignal.broken text ∷ ms) h = both-IsSound m _ h (ground arith)
negotiate-IsSound m (MediaSignal.deadline ∷ ms) h = both-IsSound m _ h (ground arith)

module _ (F : Type 0) (zero_pct : F) (to_pct : F → F) where
  pub record IsOrderly (r : Run F zero_pct to_pct) : Type 0 where
    pub no_panic : r.panicked ≡ false
    pub one_reply : replies r.acts ≡ 1
    pub one_end : terminations r.acts ≡ (if r.is_over && is_taken r.acts then 1 else 0)
    pub one_answer : answers r.acts ≤ 1
    pub ends_last : in_order r.acts ≡ true

  -- The part of the task after its reply.
  record IsTold (r : Run F zero_pct to_pct) (n : ℕ) : Type 0 where
    no_panic : r.panicked ≡ false
    no_reply : replies r.acts ≡ 0
    not_taken : is_taken r.acts ≡ false
    one_end : terminations r.acts ≡ (if r.is_over then 1 else 0)
    few_answers : answers r.acts ≤ n
    ends_last : in_order r.acts ≡ true

  main_loop-IsTold :
      (ss : List (Signal F)) (d : DownlinkQuality F) → IsTold (main_loop F zero_pct to_pct d ss) 0
  unfolding main_loop main_step
  main_loop-IsTold [] d = ground arith
  main_loop-IsTold (rr_tick rss ∷ ss) d = main_loop-IsTold ss (Sip.sampled F zero_pct to_pct rss)
  main_loop-IsTold (Signal.internal true ∷ ss) d = main_loop-IsTold ss d
  main_loop-IsTold (Signal.internal false ∷ ss) d = ground arith
  main_loop-IsTold (media ∷ ss) d = main_loop-IsTold ss d
  main_loop-IsTold (Signal.ended ∷ ss) d = ground arith
  main_loop-IsTold (Signal.broken text ∷ ss) d = ground arith
  main_loop-IsTold (hangup ∷ ss) d = ground arith

  talk-IsTold :
      (n : Negotiation) (ss : List (Signal F)) → IsSound n → IsTold (talk F zero_pct to_pct n ss) 1
  unfolding talk
  talk-IsTold waits ss h = ground arith
  talk-IsTold panics ss h = elim h [ ]
  talk-IsTold (gone acts) ss h = ground arith
  talk-IsTold (established c) ss h =
      ground (arith, main_loop-IsTold ss (Sip.no_report F zero_pct to_pct))

  -- However the dialling, the negotiation of the media and the call go, the task replies once, never
  -- unwraps a codec that is not there, tells at most one answer, and tells its end exactly once if it
  -- has ended and its handle was taken, else not at all; nothing is told after the end.
  pub run_call-IsOrderly :
      (d : Dialing) (ms : List MediaSignal) (ss : List (Signal F))
      → IsOrderly (run_call F zero_pct to_pct d ms ss)
  unfolding run_call dial
  run_call-IsOrderly d ms ss = ground (
    arith,
    talk-IsTold (negotiate Sip.no_media_yet ms) ss
        (negotiate-IsSound Sip.no_media_yet ms (λ e. ground arith)),
  )
