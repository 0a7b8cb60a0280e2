-- ===== src/Engine/RunCall/Recorded.antt =====
-- The record that a call leaves in the store (src/engine.rs).
use kutsu.Base.{◌⊎◌, ◌≤◌, suc, length, inl, inr, ℕ, ◌≡◌, ap, sym, refl, Bool, Option, some, arith}
use kutsu.Base.Bytes.{Bytes}
use kutsu.Outcome.{CallOutcome}
use kutsu.Disposition.{Disposition, CallShape, resolve_disposition}
use kutsu.Store.{
  CallQuality, CallRecord, CallState, in_progress, ended, is_ended, ended_pairs, get, update,
  set_state, end_record,
}
use kutsu.Store.Lookup.{get-update_self}
use kutsu.Store.Retention.{finalize_keeps}
use kutsu.Engine.Loop.{LoopEnd}
use kutsu.Engine.Finish.{Shared, SessionOutcome, finalize_call, teardown}
use kutsu.Engine.Finish.Teardown.{
  ended-update, ended-update_down, final_record, get-teardown, teardown-verdict,
}
use kutsu.Engine.RunCall.{mark_answered}

module _ {V F : Type 0} (call_id : Bytes) where
  -- The store holds the record of the call, and one more that has ended fits.
  pub record IsKept (w : Shared V F) (r : CallRecord V F) : Type 0 where
    pub here : get w.store.inner call_id ≡ some r
    pub room :
        (w.store.max_history ≡ 0) ⊎ (suc (length (ended_pairs w.store.inner)) ≤ w.store.max_history)

  -- The record of the call is in this state, with this disposition.
  abbrev pub IsRecorded : CallState → Option Disposition → Shared V F → Type 0
  IsRecorded state d w =
      (r : CallRecord V F) × (get w.store.inner call_id ≡ some r)
      × (r.state ≡ state)
      × (r.disposition ≡ d)

  pub finalize_call-IsRecorded :
      (w : Shared V F) (r : CallRecord V F) (c : Bool) (amd : Option Bytes)
      (sip : Option CallOutcome) (shape : CallShape) (goal : Option V) (error : Option Bytes)
      (now : ℕ)
      → IsKept w r
      → IsRecorded ended
          (some (finalize_call w call_id c amd sip shape goal error now).1)
          (finalize_call w call_id c amd sip shape goal error now).0
  unfolding finalize_call end_record
  finalize_call-IsRecorded w r c amd sip shape goal error now k =
      let d = resolve_disposition c amd sip shape in
      (
        end_record d goal error now r,
        finalize_keeps w.store call_id d goal error now r k.here (fits d k.room),
        refl,
        refl,
      )
    where
      fits :
          (d : Disposition)
          → (w.store.max_history ≡ 0)
            ⊎ (suc (length (ended_pairs w.store.inner)) ≤ w.store.max_history)
          → (w.store.max_history ≡ 0)
            ⊎ (length (ended_pairs (update w.store.inner call_id (end_record d goal error now)))
                ≤ w.store.max_history)
      fits d (inl e) = inl e
      fits d (inr le) =
          inr (omega (arith, le, ended-update w.store.inner call_id (end_record d goal error now)))

  pub teardown-IsRecorded :
      (amd_of : V → Option Bytes) (w : Shared V F) (r : CallRecord V F) (e : LoopEnd)
      (goal : Option V) (abort : Option Bytes) (session : SessionOutcome V) (q : CallQuality F)
      (a b c : ℕ)
      → IsKept w r
      → IsRecorded ended
          (some (teardown amd_of w call_id e goal abort session q a b c).1)
          (teardown amd_of w call_id e goal abort session q a b c).0
  unfolding final_record
  teardown-IsRecorded amd_of w r e goal abort session q a b c k = (
    final_record amd_of w call_id e goal abort session q a b c r,
    get-teardown amd_of w call_id e goal abort session q a b c r k.here k.room,
    refl,
    ap some (sym (teardown-verdict amd_of w call_id e goal abort session q a b c r k.here)),
  )

  pub mark_answered-IsKept :
      (w : Shared V F) (r : CallRecord V F)
      → IsKept w r
      → IsKept (mark_answered w call_id) (record r { state = in_progress })
  unfolding mark_answered set_state is_ended
  mark_answered-IsKept w r k = record {
    here =
        get-update_self w.store.inner call_id (λ x. record x { state = in_progress }) r (λ x. refl)
          k.here;
    room = roomy k.room;
  }
    where
      roomy :
          (w.store.max_history ≡ 0)
            ⊎ (suc (length (ended_pairs w.store.inner)) ≤ w.store.max_history)
          → (w.store.max_history ≡ 0)
            ⊎ (suc (
                  length (
                    ended_pairs
                      (update w.store.inner call_id (λ x. record x { state = in_progress }))))
                ≤ w.store.max_history)
      roomy (inl e) = inl e
      roomy (inr le) = inr (
          omega (
            arith,
            le,
            ended-update_down w.store.inner call_id (λ x. record x { state = in_progress })
                (λ x. refl),
          ))
