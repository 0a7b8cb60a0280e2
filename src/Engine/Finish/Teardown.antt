-- ===== src/Engine/Finish/Teardown.antt =====
-- The end of an answered call (src/engine.rs, steps 9 and 10 of `run_call`).
use kutsu.Base.{
  ℕ, suc, ◌-◌, ◌≡◌, ◌≤◌, ◌⊎◌, inl, inr, ◌∙◌, ap, refl, Bool, true, false, ◌&&◌, Option, none, some,
  List, [], ◌∷◌, arith, if◌then◌else◌, wrapping_add64, length,
}
use kutsu.Base.Bytes.{Bytes}
use kutsu.Disposition.{Disposition, resolve_disposition}
use kutsu.Store.{
  CallQuality, CallRecord, ended, is_ended, ended_pairs, get, update, set_transcript, set_quality,
  end_record,
}
use kutsu.Store.Lookup.{get-update_self}
use kutsu.Store.Retention.{finalize_keeps}
use kutsu.Engine.Loop.{LoopEnd}
use kutsu.Engine.Gates.{is_some}
use kutsu.Engine.Finish.Tally.{tally, same}
use kutsu.Engine.Finish.{
  Shared, Counters, SessionOutcome, teardown, surfaced, count_abort, is_cancelled, is_failed,
  finalize_call, add_quality, answered_shape, bump_disposition, or_else, verdict_of,
  transcript_length,
}

module _ {V F : Type 0} where
  pub ended-update :
      (m : List (CallRecord V F)) (id : Bytes) (f : CallRecord V F → CallRecord V F)
      → length (ended_pairs (update m id f)) ≤ suc (length (ended_pairs m))
  unfolding update ended_pairs
  ended-update [] id f = omega arith
  ended-update (r ∷ m) id f = ground (arith, ended-update m id f)

  pub ended-update_down :
      (m : List (CallRecord V F)) (id : Bytes) (f : CallRecord V F → CallRecord V F)
      → ((x : CallRecord V F) → is_ended (f x).state ≡ false)
      → length (ended_pairs (update m id f)) ≤ length (ended_pairs m)
  unfolding update ended_pairs
  ended-update_down [] id f down = omega arith
  ended-update_down (r ∷ m) id f down = ground (arith, ended-update_down m id f down, down r)

  ended-update_live :
      (m : List (CallRecord V F)) (id : Bytes) (f : CallRecord V F → CallRecord V F)
      → ((x : CallRecord V F) → (f x).state ≡ x.state)
      → length (ended_pairs (update m id f)) ≡ length (ended_pairs m)
  unfolding update ended_pairs
  ended-update_live [] id f keeps = refl
  ended-update_live (r ∷ m) id f keeps = ground (arith, ended-update_live m id f keeps, keeps r)

surfaced-failed :
    (a : Option Bytes) (d : Disposition) → surfaced a d ≡ (if is_failed d then a else none)
unfolding surfaced
surfaced-failed none d = ground arith
surfaced-failed (some e) d = ground arith

-- `c` is the counters with the call's quality added, `v` an equal form of its disposition.
pub tally-abort :
    (a c : Counters) (had : Bool) (d v e : Disposition)
    → d ≡ v
    → tally c e ≡ tally a e
    → c.quality_aborted ≡ a.quality_aborted
    → (tally (count_abort (bump_disposition c d) had d) e
        ≡ (if same v e then wrapping_add64 (tally a e) 1 else tally a e))
      × ((count_abort (bump_disposition c d) had d).quality_aborted
          ≡ (if had && is_failed v then wrapping_add64 a.quality_aborted 1 else a.quality_aborted))
unfolding count_abort tally bump_disposition is_failed
tally-abort a c had d v e p h k = ground arith

pub tally-quality :
    {F : Type 0} (c : Counters) (q : CallQuality F) (e : Disposition)
    → tally
        (record c {
          underruns = wrapping_add64 c.underruns q.underruns;
          starved_ms = wrapping_add64 c.starved_ms q.starved_ms;
          uplink_received = wrapping_add64 c.uplink_received q.uplink_received;
          uplink_lost = wrapping_add64 c.uplink_lost q.uplink_lost;
        })
        e
      ≡ tally c e
unfolding tally
tally-quality c q e = ground arith

module _ {V F : Type 0} (amd_of : V → Option Bytes) (w : Shared V F) (call_id : Bytes)
    (end_state : LoopEnd) (goal : Option V) (abort_reason : Option Bytes)
    (session : SessionOutcome V) (q : CallQuality F) (answered_at duration_now ended_now : ℕ) where
  abbrev torn : Shared V F × Disposition
  torn =
      teardown amd_of w call_id end_state goal abort_reason session q answered_at duration_now
        ended_now

  -- What the call resolves to, from what the loop and the session left.
  unfoldable pub verdict : Disposition
  verdict =
      resolve_disposition (is_cancelled end_state) (verdict_of amd_of (or_else goal session.goal))
        none
        (record {
          answered = true;
          duration_ms = duration_now - answered_at;
          transcript_len = length session.transcript;
          ended_by = session.ended_by;
        })

  -- The record of a torn down call.
  unfoldable pub final_record : CallRecord V F → CallRecord V F
  unfolding verdict
  final_record r = record r {
    state = ended;
    transcript = session.transcript;
    goal = or_else goal session.goal;
    error = if is_failed verdict then abort_reason else none;
    ended_ms = some ended_now;
    quality = q;
    disposition = some verdict;
  }

  get-told :
      (r : CallRecord V F)
      → get w.store.inner call_id ≡ some r
      → get
          (set_transcript (set_quality w.store.inner call_id q) call_id session.transcript)
          call_id
        ≡ some (record r { quality = q; transcript = session.transcript })
  unfolding set_transcript set_quality
  get-told r h =
      get-update_self _ call_id _ _ (λ x. refl)
        (get-update_self w.store.inner call_id _ r (λ x. refl) h)

  -- Ending the record adds one ended call at most.
  fits :
      (f : CallRecord V F → CallRecord V F) (cap : ℕ)
      → (cap ≡ 0) ⊎ (suc (length (ended_pairs w.store.inner)) ≤ cap)
      → (cap ≡ 0)
        ⊎ (length (
              ended_pairs (
                update
                  (set_transcript (set_quality w.store.inner call_id q) call_id session.transcript)
                  call_id
                  f))
            ≤ cap)
  unfolding set_transcript set_quality
  fits f cap (inl e) = inl e
  fits f cap (inr le) = inr (
      omega (
        arith,
        le,
        ended-update
            (set_transcript (set_quality w.store.inner call_id q) call_id session.transcript)
            call_id f,
        ended-update_live (set_quality w.store.inner call_id q) call_id
            (λ x. record x { transcript = session.transcript }) (λ x. refl),
        ended-update_live w.store.inner call_id (λ x. record x { quality = q }) (λ x. refl),
      ))

  -- A torn down call whose record exists, in a store with room for it, is left ended with the
  -- session's transcript, the loop's goal (or else the session's), the last quality snapshot, and
  -- the disposition that the session's end, the goal's verdict and the transcript's length give;
  -- its error is the abort reason when that disposition is `failed`, and none otherwise.
  pub get-teardown :
      (r : CallRecord V F)
      → get w.store.inner call_id ≡ some r
      → (w.store.max_history ≡ 0) ⊎ (suc (length (ended_pairs w.store.inner)) ≤ w.store.max_history)
      → get
          (teardown amd_of w call_id end_state goal abort_reason session q answered_at duration_now
            ended_now).0.store.inner
          call_id
        ≡ some (final_record r)
  unfolding teardown finalize_call final_record verdict add_quality answered_shape end_record
  get-teardown r h room =
      finalize_keeps _ call_id _ _ _ ended_now _ (get-told r h) (fits _ _ room)
      ∙ ap
          (λ g. some (
            end_record (resolved g) (or_else goal session.goal) (surfaced abort_reason (resolved g))
              ended_now (record r { quality = q; transcript = session.transcript })))
          (get-told r h)
      ∙ ap (λ e. some (record (final_record r) { error = e }))
          (surfaced-failed abort_reason verdict)
    where
      resolved : Option (CallRecord V F) → Disposition
      resolved g =
          resolve_disposition (is_cancelled end_state)
            (verdict_of amd_of (or_else goal session.goal)) none
            (record {
              answered = true;
              duration_ms = duration_now - answered_at;
              transcript_len = transcript_length g;
              ended_by = session.ended_by;
            })

  -- The disposition that the teardown returns is the one that the record gets.
  pub teardown-verdict :
      (r : CallRecord V F) → get w.store.inner call_id ≡ some r → torn.1 ≡ verdict
  unfolding teardown finalize_call verdict add_quality answered_shape
  teardown-verdict r h =
      ap
        (λ g.
          resolve_disposition (is_cancelled end_state)
            (verdict_of amd_of (or_else goal session.goal)) none
            (record {
              answered = true;
              duration_ms = duration_now - answered_at;
              transcript_len = transcript_length g;
              ended_by = session.ended_by;
            }))
        (get-told r h)

  -- A call torn down adds one to the counter of its disposition and leaves the other eleven alone;
  -- `quality_aborted` grows by one exactly when the loop aborted and the call resolved to `failed`.
  counters-teardown :
      (r : CallRecord V F) (e : Disposition)
      → get w.store.inner call_id ≡ some r
      → (tally torn.0.counters e
          ≡ (if same verdict e then wrapping_add64 (tally w.counters e) 1 else tally w.counters e))
        × (torn.0.counters.quality_aborted ≡ (
            if is_some abort_reason && is_failed verdict
            then wrapping_add64 w.counters.quality_aborted 1
            else w.counters.quality_aborted))
  unfolding teardown finalize_call verdict add_quality answered_shape tally
  counters-teardown r e h =
      tally-abort w.counters _ (is_some abort_reason) _ verdict e (teardown-verdict r h)
        (tally-quality w.counters q e) refl
