-- ===== src/Engine/WrapUp.antt =====
-- The dead-air watchdog of src/engine.rs over a silence stretch.
use kutsu.Base.{ℕ, ◌+◌, ◌-◌, ◌≤◌, ◌≡◌, ◌↔◌, refl, true, none, some, List, [], ◌∷◌, arith}
use kutsu.Engine.Gates.{WrapPhase, nudge, finalize, WrapUpState, phase, is_some}

-- The watchdog polled at each of the times, with no activity between.
pub polls : WrapUpState → List ℕ → WrapUpState × List WrapPhase
polls w [] = (w, [])
polls w (now ∷ times) = let (w', p) = phase w now in let (w'', ps) = polls w' times in (w'', p ∷ ps)

abbrev is_nudge : WrapPhase → ℕ
is_nudge nudge = 1
is_nudge _ = 0

abbrev pub nudges : List WrapPhase → ℕ
nudges [] = 0
nudges (p ∷ ps) = is_nudge p + nudges ps

no_nudge_once_nudged :
    (w : WrapUpState) (times : List ℕ)
    → is_some w.nudged_at_ms ≡ true
    → nudges (polls w times).1 ≡ 0
unfolding polls phase
no_nudge_once_nudged w [] h = refl
no_nudge_once_nudged w (now ∷ times) h = ground (arith, no_nudge_once_nudged w times h)

-- However often and whenever it is polled, the watchdog nudges at most once in a silence stretch.
nudge_once : (w : WrapUpState) (times : List ℕ) → nudges (polls w times).1 ≤ 1
unfolding polls phase
nudge_once w [] = omega arith
nudge_once w (now ∷ times) = ground (
  arith,
  no_nudge_once_nudged w (now ∷ times),
  no_nudge_once_nudged (record w { nudged_at_ms = some now }) times,
  nudge_once w times,
)

-- It nudges exactly when it has not nudged yet and nothing happened for `nudge_ms`, and gives up
-- exactly when it has nudged at least `grace_ms` ago; else it waits.
pub phase_iff :
    (w : WrapUpState) (now : ℕ)
    → (((phase w now).1 ≡ nudge)
        ↔ ((w.nudged_at_ms ≡ none) × (w.nudge_ms ≤ now - w.last_activity_ms)))
      × (((phase w now).1 ≡ finalize)
          ↔ ((t : ℕ) × (w.nudged_at_ms ≡ some t) × (w.grace_ms ≤ now - t)))
unfolding phase
phase_iff w now = ((λ h. ground arith, λ h. ground arith), (λ h. gave_up h, λ h. ground arith))
  where
    gave_up :
        (phase w now).1 ≡ finalize → (t : ℕ) × (w.nudged_at_ms ≡ some t) × (w.grace_ms ≤ now - t)
    gave_up h = ground arith
