-- ===== src/Engine/Scheduler/Slots.antt =====
-- The concurrency cap of the dispatcher (src/engine.rs), over every interleaving of its turns with
-- the calls that are placed, cancelled, settled and ended.
use kutsu.Base.{
  ℕ, suc, ◌≡◌, ◌≤◌, ◌<◌, refl, Bool, true, false, ◌||◌, Option, none, some, List, [], ◌∷◌, length,
  All, arith, if◌then◌else◌, leb,
}
use kutsu.Base.Bytes.{Bytes, bytes_eq, bytes_eq_refl, bytes_eq_iff}
use kutsu.Queue.{PendingEntry}
use kutsu.Breaker.{Decision, decision}
use kutsu.Engine.Hub.{Hub}
use kutsu.Engine.Scheduler.{
  Engine, Task, stop, turn, decided, popped, launch, end_call, ended_queued, signal, drop_task,
  is_held, same_task, drop_one, put, delete, lookup,
}

module _ {S : Type 0} where
  -- A live task has this id and this channel.
  unfoldable pub is_owned : List (Task S) → Bytes → ℕ → Bool
  is_owned [] id ch = false
  is_owned (t ∷ ts) id ch = same_task t id ch || is_owned ts id ch

  -- Every cancel sender has its task.
  abbrev pub AllOwned : List (Task S) → List (Bytes × ℕ) → Type 0
  AllOwned ts m = All (λ (kc : Bytes × ℕ). is_owned ts kc.0 kc.1 ≡ true) m

  pub owned-held :
      (ts : List (Task S)) (id : Bytes) (ch : ℕ) → is_owned ts id ch ≡ true → is_held ts ch ≡ true
  unfolding is_owned is_held same_task
  owned-held [] id ch h = ground arith
  owned-held (t ∷ ts) id ch h = ground (arith, owned-held ts id ch)

  length-drop_one :
      (ts : List (Task S)) (task : Task S)
      → is_owned ts task.entry.call_id task.channel ≡ true
      → suc (length (drop_one ts task)) ≡ length ts
  unfolding is_owned drop_one
  length-drop_one [] task h = ground arith
  length-drop_one (t ∷ ts) task h = ground (arith, length-drop_one ts task)

  -- Dropping a task leaves those of other ids.
  owned-drop_one :
      (ts : List (Task S)) (task : Task S) (id : Bytes) (ch : ℕ)
      → bytes_eq id task.entry.call_id ≡ false
      → is_owned ts id ch ≡ true
      → is_owned (drop_one ts task) id ch ≡ true
  unfolding is_owned drop_one same_task
  owned-drop_one [] task id ch ne h = h
  owned-drop_one (t ∷ ts) task id ch ne h = ground (
    arith,
    owned-drop_one ts task id ch ne,
    bytes_eq_iff t.entry.call_id id,
    bytes_eq_iff t.entry.call_id task.entry.call_id,
  )

  AllOwned-dropped :
      (ts : List (Task S)) (task : Task S) (m : List (Bytes × ℕ))
      → AllOwned ts m
      → AllOwned (drop_one ts task) (delete m task.entry.call_id)
  unfolding delete
  AllOwned-dropped ts task [] h = h
  AllOwned-dropped ts task ((k, c) ∷ m) h =
      ground (arith, AllOwned-dropped ts task m h.1, owned-drop_one ts task k c)

  AllOwned-delete :
      (ts : List (Task S)) (m : List (Bytes × ℕ)) (id : Bytes)
      → AllOwned ts m
      → AllOwned ts (delete m id)
  unfolding delete
  AllOwned-delete ts [] id h = h
  AllOwned-delete ts ((k, c) ∷ m) id h = ground (arith, AllOwned-delete ts m id h.1)

  AllOwned-more :
      (t : Task S) (ts : List (Task S)) (m : List (Bytes × ℕ)) → AllOwned ts m → AllOwned (t ∷ ts) m
  unfolding is_owned
  AllOwned-more t ts [] h = h
  AllOwned-more t ts ((k, c) ∷ m) h = ground (arith, AllOwned-more t ts m h.1)

  AllOwned-put :
      (ts : List (Task S)) (m : List (Bytes × ℕ)) (id : Bytes) (ch : ℕ)
      → is_owned ts id ch ≡ true
      → AllOwned ts m
      → AllOwned ts (put m id ch)
  unfolding put
  AllOwned-put ts [] id ch o h = (o, h)
  AllOwned-put ts ((k, c) ∷ m) id ch o h = ground (arith, AllOwned-put ts m id ch o h.1)

  pub lookup-owned :
      (ts : List (Task S)) (m : List (Bytes × ℕ)) (id : Bytes) (ch : ℕ)
      → AllOwned ts m
      → lookup m id ≡ some ch
      → is_owned ts id ch ≡ true
  unfolding lookup
  lookup-owned ts [] id ch h e = ground arith
  lookup-owned ts ((k, c) ∷ m) id ch h e =
      ground (arith, lookup-owned ts m id ch h.1, bytes_eq_iff k id)

module _ {S V F : Type 0} where
  -- The steps of the engine. A task's body writes to the hub, by `run_call` or in any other way;
  -- a task ends once, when its guards are dropped.
  pub data Step (cap : ℕ) (e : Engine S V F) : Engine S V F → Type 0 where
    dispatcher_turns : (window_ms now : ℕ) → Step cap e (turn cap window_ms e now).0
    call_ended : (call_id : Bytes) (now : ℕ) → Step cap e (end_call e call_id now).0
    hub_written : (h : Hub S V F) → Step cap e (record e { hub = h })
    task_dropped :
        (task : Task S)
        → is_owned e.tasks task.entry.call_id task.channel ≡ true
        → Step cap e (drop_task e task)

  pub data Steps (cap : ℕ) (e : Engine S V F) : Engine S V F → Type 0 where
    no_step : Steps cap e e
    and_step : {e₁ e₂ : Engine S V F} → Steps cap e e₁ → Step cap e₁ e₂ → Steps cap e e₂

  -- The slots in use are the live tasks, within the cap; and every cancel sender has its task.
  pub record IsWithin (cap : ℕ) (e : Engine S V F) : Type 0 where
    pub slots : e.running ≡ length e.tasks
    pub capped : e.running ≤ cap
    pub owned : AllOwned e.tasks e.cancels

  launch-IsWithin :
      (cap : ℕ) (e : Engine S V F) (now window : ℕ) (p : Bool) (x : PendingEntry S)
      (rest : List (PendingEntry S))
      → IsWithin cap e
      → e.running < cap
      → IsWithin cap (launch e now window p x rest).0
  unfolding launch is_owned same_task
  launch-IsWithin cap e now window p x rest i lt = record {
    slots = omega (arith, i.slots);
    capped = omega (arith, lt);
    owned =
        AllOwned-put (record { channel = e.channels; entry = x } ∷ e.tasks) e.cancels x.call_id
          e.channels (ground (arith, bytes_eq_refl x.call_id))
          (AllOwned-more (record { channel = e.channels; entry = x }) e.tasks e.cancels i.owned);
  }

  popped-IsWithin :
      (cap : ℕ) (e : Engine S V F) (now window : ℕ) (p : Bool)
      (o : Option (PendingEntry S) × List (PendingEntry S))
      → IsWithin cap e
      → e.running < cap
      → IsWithin cap (popped e now window p o).0
  unfolding popped
  popped-IsWithin cap e now window p (none, rest) i lt = i
  popped-IsWithin cap e now window p (some x, rest) i lt =
      launch-IsWithin cap e now window p x rest i lt

  decided-IsWithin :
      (cap : ℕ) (e : Engine S V F) (now window : ℕ) (d : Decision)
      → IsWithin cap e
      → e.running < cap
      → IsWithin cap (decided e now window d).0
  unfolding decided
  decided-IsWithin cap e now window (Decision.hold until) i lt = i
  decided-IsWithin cap e now window Decision.dispatch i lt =
      popped-IsWithin cap e now window false _ i lt
  decided-IsWithin cap e now window Decision.probe i lt =
      popped-IsWithin cap e now window true _ i lt

  turn-IsWithin :
      (cap window : ℕ) (e : Engine S V F) (now : ℕ)
      → IsWithin cap e
      → IsWithin cap (turn cap window e now).0
  unfolding turn
  turn-IsWithin cap window e now i = full (leb cap e.running) refl
    where
      full :
          (b : Bool)
          → leb cap e.running ≡ b
          → IsWithin cap
              (if b then (e, stop) else decided e now window (decision e.hub.breaker now)).0
      full true h = i
      full false h = decided-IsWithin cap e now window _ i (ground arith)

  signal-IsWithin :
      (cap : ℕ) (e : Engine S V F) (id : Bytes) (o : Option ℕ)
      → IsWithin cap e
      → IsWithin cap (signal e id o).0
  unfolding signal
  signal-IsWithin cap e id none i = i
  signal-IsWithin cap e id (some ch) i = record {
    slots = i.slots;
    capped = i.capped;
    owned = AllOwned-delete e.tasks e.cancels id i.owned;
  }

  ended-IsWithin :
      (cap : ℕ) (e : Engine S V F) (id : Bytes) (now : ℕ)
      (o : Option (PendingEntry S) × List (PendingEntry S))
      → IsWithin cap e
      → IsWithin cap (ended_queued e id now o).0
  unfolding ended_queued
  ended-IsWithin cap e id now (none, rest) i = signal-IsWithin cap e id _ i
  ended-IsWithin cap e id now (some x, rest) i = record {
    slots = i.slots;
    capped = i.capped;
    owned = i.owned;
  }

  Step-IsWithin : (cap : ℕ) (e e' : Engine S V F) → IsWithin cap e → Step cap e e' → IsWithin cap e'
  unfolding end_call drop_task
  Step-IsWithin cap e e' i (dispatcher_turns window now) = turn-IsWithin cap window e now i
  Step-IsWithin cap e e' i (call_ended id now) = ended-IsWithin cap e id now _ i
  Step-IsWithin cap e e' i (hub_written h) = record {
    slots = i.slots;
    capped = i.capped;
    owned = i.owned;
  }
  Step-IsWithin cap e e' i (task_dropped task o) = record {
    slots = ground (arith, i.slots, length-drop_one e.tasks task o);
    capped = ground (arith, i.slots, i.capped, length-drop_one e.tasks task o);
    owned = AllOwned-dropped e.tasks task e.cancels i.owned;
  }

  -- Whatever turns the dispatcher takes and however calls are placed, cancelled, settled and ended
  -- in between: the slots in use are as many as the live tasks, never more than the cap, and every
  -- cancel sender belongs to a live task of its call.
  pub Steps-IsWithin :
      (cap : ℕ) (e e' : Engine S V F) → IsWithin cap e → Steps cap e e' → IsWithin cap e'
  Steps-IsWithin cap e e' i no_step = i
  Steps-IsWithin cap e e' i (and_step {e₁} steps step) =
      Step-IsWithin cap e₁ e' (Steps-IsWithin cap e e₁ i steps) step
