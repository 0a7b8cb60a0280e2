-- ===== src/Engine/Scheduler/Parking.antt =====
-- The dispatcher's loop between two sleeps (src/engine.rs).
use kutsu.Base.{
  ◌∙◌, All, List, [], ◌∷◌, map, ℕ, zero, suc, ◌+◌, ◌≡◌, ◌≤◌, ◌<◌, ◌⊎◌, max, ap, sym, subst, refl,
  Bool, true, false, Option, none, some, length, arith, leb,
}
use kutsu.Breaker.{Breaker, Decision, decision}
use kutsu.Queue.{pop_eligible, peek_next_eligible_at}
use kutsu.Engine.Scheduler.{
  Engine, Turn, stop, held, dispatched, after_turn, turn, decided, popped, launch, drain, park,
  sooner, round, rounds,
}

abbrev pub is_dispatched : {S : Type 0} → Turn S → Bool
is_dispatched (dispatched t) = true
is_dispatched _ = false

-- Whether a sleep from `now` on is over at `t`, or at once where `t` is past.
abbrev pub wakes_by : Option ℕ → ℕ → ℕ → Bool
wakes_by none now t = false
wakes_by (some d) now t = leb (now + d) (max now t)

module _ {S V F : Type 0} (cap window_ms now : ℕ) where
  turn-shrinks :
      (e : Engine S V F)
      → is_dispatched (turn cap window_ms e now).1 ≡ true
      → suc (length (turn cap window_ms e now).0.hub.queue) ≡ length e.hub.queue
  unfolding turn decided popped launch pop_eligible
  turn-shrinks e h = ground arith

  turn-still :
      (e : Engine S V F)
      → is_dispatched (turn cap window_ms e now).1 ≡ false
      → (turn cap window_ms e now).0 ≡ e
  unfolding turn decided popped launch
  turn-still e h = ground arith

  -- One turn more, whatever it came to.
  turn-stops :
      (e : Engine S V F) (t : Turn S) (rest : Engine S V F × Option ℕ)
      → (turn cap window_ms e now).1 ≡ t
      → (is_dispatched t ≡ true → is_dispatched (turn cap window_ms rest.0 now).1 ≡ false)
      → is_dispatched (turn cap window_ms (after_turn (turn cap window_ms e now).0 t rest).0 now).1
        ≡ false
  turn-stops e stop rest h k = still e (ap is_dispatched h)
    where
      still :
          (e : Engine S V F)
          → is_dispatched (turn cap window_ms e now).1 ≡ false
          → is_dispatched (turn cap window_ms (turn cap window_ms e now).0 now).1 ≡ false
      still e h =
          subst (λ x. is_dispatched (turn cap window_ms x now).1 ≡ false) (sym (turn-still e h)) h
  turn-stops e (held until) rest h k =
      subst (λ x. is_dispatched (turn cap window_ms x now).1 ≡ false)
        (sym (turn-still e (ap is_dispatched h))) (ap is_dispatched h)
  turn-stops e (dispatched task) rest h k = k refl

  -- The dispatcher leaves no slot idle: with one turn more than there are queued calls, its inner
  -- loop ends where a further turn dispatches nothing.
  pub drain-stops :
      (fuel : ℕ) (e : Engine S V F)
      → length e.hub.queue < fuel
      → is_dispatched (turn cap window_ms (drain cap window_ms fuel e now).0 now).1 ≡ false
  unfolding drain
  drain-stops zero e h = ground arith
  drain-stops (suc fuel) e h =
      turn-stops e (turn cap window_ms e now).1
        (drain cap window_ms fuel (turn cap window_ms e now).0 now) refl
        (λ d. drain-stops fuel (turn cap window_ms e now).0 (omega (arith, h, turn-shrinks e d)))

module _ {S V F : Type 0} (cap now : ℕ) where
  -- The dispatcher never sleeps past what it waits for: neither past the next eligible time, while
  -- there is a free slot, nor past the end of the breaker's hold.
  pub park-wakes :
      (e : Engine S V F) (breaker_hold : Option ℕ) (t : ℕ)
      → (breaker_hold ≡ some t) ⊎ ((e.running < cap) × (peek_next_eligible_at e.hub.queue ≡ some t))
      → wakes_by (park cap e breaker_hold now) now t ≡ true
  unfolding park sooner
  park-wakes e breaker_hold t h = ground arith

  spin :
      (e : Engine S V F) (until t : ℕ)
      → e.running < cap
      → peek_next_eligible_at e.hub.queue ≡ some t
      → t ≤ now
      → park cap e (some until) now ≡ some 0
  unfolding park sooner
  spin e until t free head due = ground (arith, head)

-- A hold lasts until its end.
decision-holds :
    (b : Breaker) (from now until : ℕ)
    → decision b from ≡ Decision.hold until
    → from ≤ now
    → now < until
    → decision b now ≡ Decision.hold until
unfolding decision
decision-holds b from now until h le lt = ground (arith, h)

module _ {S V F : Type 0} (cap window_ms fuel from until : ℕ) (e : Engine S V F) where
  drain-held :
      (now : ℕ)
      → e.running < cap
      → decision e.hub.breaker now ≡ Decision.hold until
      → drain cap window_ms (suc fuel) e now ≡ (e, some until)
  unfolding drain turn decided
  drain-held now free h = ground (arith, h)

  round-held :
      (now t : ℕ)
      → e.running < cap
      → peek_next_eligible_at e.hub.queue ≡ some t
      → t ≤ now
      → decision e.hub.breaker now ≡ Decision.hold until
      → round cap window_ms (suc fuel) e now ≡ (e, some 0)
  unfolding round
  round-held now t free head due h =
      ap (λ (r : Engine S V F × Option ℕ). (r.0, park cap r.0 r.1 now)) (drain-held now free h)
      ∙ ap (λ (o : Option ℕ). (e, o)) (spin cap now e until t free head due)

  -- From the time on at which the breaker is found to hold the queue back until `until`, and as long
  -- as a slot is free and the first entry of the queue is eligible already, the dispatcher does not
  -- sleep: at whatever times before `until` it goes round, however often, each round dispatches
  -- nothing, changes nothing, and sleeps for no time.
  pub rounds-spin :
      (t : ℕ) (times : List ℕ)
      → e.running < cap
      → peek_next_eligible_at e.hub.queue ≡ some t
      → t ≤ from
      → decision e.hub.breaker from ≡ Decision.hold until
      → All (λ now. (from ≤ now) × (now < until)) times
      → rounds cap window_ms (suc fuel) e times ≡ (e, map (λ now. some 0) times)
  unfolding rounds
  rounds-spin t [] free head due h all = refl
  rounds-spin t (now ∷ times) free head due h all =
      let one =
        round-held now t free head (omega (arith, due, all.0.0))
          (decision-holds e.hub.breaker from now until h all.0.0 all.0.1) in
      let later = rounds-spin t times free head due h all.1 in
      ap
        (λ (r : Engine S V F × Option ℕ).
          let (e'', sleeps) = rounds cap window_ms (suc fuel) r.0 times in (e'', r.1 ∷ sleeps))
        one
      ∙ ap (λ (r : Engine S V F × List (Option ℕ)). (r.0, some 0 ∷ r.1)) later
