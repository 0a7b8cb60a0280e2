-- ===== src/Engine/Scheduler/Cancelling.antt =====
-- Cancelling a call (src/engine.rs): `end_call` and the `CancelGuard`.
use kutsu.Base.{
  wrapping_add64, ℕ, ◌≡◌, ◌≢◌, sym, subst, refl, ap, ◌∙◌, true, false, ◌||◌, Option, none, some,
  List, [], ◌∷◌, arith,
}
use kutsu.Base.Bytes.{Bytes}
use kutsu.Disposition.{resolve_disposition}
use kutsu.Queue.{PendingEntry, remove, remove_key, find}
use kutsu.Engine.Gates.{is_some}
use kutsu.Engine.Finish.{finalize_call, bump_disposition}
use kutsu.Engine.Scheduler.{
  Engine, Task, end_call, ended_queued, signal, drop_task, same_task, drop_one, delete, lookup,
  abandon,
}
use kutsu.Engine.Scheduler.Slots.{is_owned, IsWithin, lookup-owned, owned-held}

module _ {S : Type 0} where
  -- Dropping a task leaves those on other channels.
  owned_elsewhere :
      (ts : List (Task S)) (task : Task S) (id : Bytes) (ch : ℕ)
      → task.channel ≢ ch
      → is_owned ts id ch ≡ true
      → is_owned (drop_one ts task) id ch ≡ true
  unfolding is_owned drop_one same_task
  owned_elsewhere [] task id ch ne h = h
  owned_elsewhere (t ∷ ts) task id ch ne h = ground (arith, owned_elsewhere ts task id ch ne)

lookup-delete : (m : List (Bytes × ℕ)) (id : Bytes) → lookup (delete m id) id ≡ none
unfolding lookup delete
lookup-delete [] id = refl
lookup-delete ((k, c) ∷ m) id = ground (arith, lookup-delete m id)

module _ {S V F : Type 0} (cap : ℕ) (e : Engine S V F) (id : Bytes) (now : ℕ) where
  signal-told :
      (o : Option ℕ) → lookup e.cancels id ≡ o → IsWithin cap e → (signal e id o).1 ≡ is_some o
  unfolding signal
  signal-told none h i = refl
  signal-told (some ch) h i =
      owned-held e.tasks id ch (lookup-owned e.tasks e.cancels id ch i.owned h)

  ended-told :
      (o : Option (PendingEntry S))
      → IsWithin cap e
      → (rest : List (PendingEntry S))
      → (ended_queued e id now (o, rest)).1 ≡ is_some o || is_some (lookup e.cancels id)
  unfolding ended_queued
  ended-told none i rest = signal-told (lookup e.cancels id) refl i
  ended-told (some x) i rest = refl

  -- In every state that the engine reaches, `end_call` tells the caller the truth: it returns true
  -- exactly for a call that is queued or whose cancel sender is registered, and for the latter the
  -- signal has a receiver.
  pub end_call-told :
      IsWithin cap e
      → (end_call e id now).1 ≡ is_some (find e.hub.queue id) || is_some (lookup e.cancels id)
  unfolding end_call remove ended_queued
  end_call-told i = ground (arith, ended-told none i e.hub.queue)

module _ {S V F : Type 0} (e : Engine S V F) (id : Bytes) (now : ℕ) where
  -- A queued call that is ended leaves the queue, is counted as cancelled, and no task hears of it.
  end_call-queued :
      (x : PendingEntry S)
      → find e.hub.queue id ≡ some x
      → ((end_call e id now).0.hub.queue ≡ remove_key e.hub.queue x)
        × ((end_call e id now).0.signalled ≡ e.signalled)
        × ((end_call e id now).0.cancels ≡ e.cancels)
        × ((end_call e id now).0.hub.shared.counters.cancelled
            ≡ wrapping_add64 e.hub.shared.counters.cancelled 1)
  unfolding end_call remove ended_queued finalize_call resolve_disposition bump_disposition
  end_call-queued x h = ground (arith, h)

  -- A call can be cancelled that nobody ended: when the next attempt of a busy call has started
  -- before the guard of the attempt before it is dropped, dropping that guard drops the new
  -- attempt's cancel sender, to which nothing was sent. The new attempt, still in its slot, finds
  -- its channel closed, which it takes for a cancellation, and `end_call` returns false for it.
  pub orphaned :
      (old new : Task S)
      → old.entry.call_id ≡ id
      → new.entry.call_id ≡ id
      → old.channel ≢ new.channel
      → is_owned e.tasks id new.channel ≡ true
      → lookup e.cancels id ≡ some new.channel
      → find e.hub.queue id ≡ none
      → (is_owned (drop_task e old).tasks id new.channel ≡ true)
        × ((drop_task e old).abandoned ≡ new.channel ∷ e.abandoned)
        × ((drop_task e old).signalled ≡ e.signalled)
        × ((end_call (drop_task e old) id now).1 ≡ false)
  unfolding end_call drop_task remove ended_queued signal abandon
  orphaned old new eo en ne h l q = (
    owned_elsewhere e.tasks old id new.channel ne h,
    ap (λ o. abandon o e.abandoned) (ap (λ k. lookup e.cancels k) eo ∙ l),
    refl,
    ground (
      arith,
      q,
      subst (λ k. lookup (delete e.cancels k) id ≡ none) (sym eo) (lookup-delete e.cancels id),
    ),
  )
