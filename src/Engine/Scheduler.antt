-- ===== src/Engine/Scheduler.antt =====
-- src/engine.rs: `Engine` and its dispatcher: what is queued, what runs, and how it is cancelled.
pub mod Slots
pub mod Cancelling
pub mod Parking
use kutsu.Base.{
  ℕ, zero, suc, ◌+◌, ◌-◌, ◌*◌, min, max, Bool, true, false, not, ◌&&◌, ◌||◌, Option, none, some,
  List, [], ◌∷◌, ◌++◌, ltb, leb, ◌==◌, if◌then◌else◌, length, u64_max, sat_mul64,
}
use kutsu.Base.Bytes.{Bytes, bytes_eq}
use kutsu.Disposition.{EndedBy, CallShape}
use kutsu.Store.{CallQuality, CallStore, ringing, set_state}
use kutsu.Queue.{PendingEntry, pop_eligible, peek_next_eligible_at, remove, position}
use kutsu.Breaker.{Breaker, Decision, decision, mark_probe_dispatched}
use kutsu.Engine.Finish.{Shared, finalize_call}
use kutsu.Engine.Hub.{Hub, notify_one}

-- A spawned `run_call`; `channel` names the one-shot channel whose receiver it holds.
pub record Task (S : Type 0) : Type 0 where
  pub channel : ℕ
  pub entry : PendingEntry S

-- `channels` counts the channels made so far, `signalled` lists those that were sent to, `abandoned`
-- those whose sender was dropped without a send, which resolves the receiver all the same: the arms
-- of `run_call` that wait for it are taken, as by a cancellation. `tasks` hold their slot.
pub record Engine (S V F : Type 0) : Type 0 where
  pub hub : Hub S V F
  pub running : ℕ
  pub cancels : List (Bytes × ℕ)
  pub channels : ℕ
  pub signalled : List ℕ
  pub abandoned : List ℕ
  pub tasks : List (Task S)

-- `HashMap::insert`, `get` and `remove` of the cancel senders.
unfoldable pub put : List (Bytes × ℕ) → Bytes → ℕ → List (Bytes × ℕ)
put [] id ch = (id, ch) ∷ []
put ((k, c) ∷ m) id ch = if bytes_eq k id then (id, ch) ∷ m else (k, c) ∷ put m id ch

unfoldable pub lookup : List (Bytes × ℕ) → Bytes → Option ℕ
lookup [] id = none
lookup ((k, c) ∷ m) id = if bytes_eq k id then some c else lookup m id

unfoldable pub delete : List (Bytes × ℕ) → Bytes → List (Bytes × ℕ)
delete [] id = []
delete ((k, c) ∷ m) id = if bytes_eq k id then delete m id else (k, c) ∷ delete m id

-- The sender that is dropped with its place in the map.
unfoldable pub abandon : Option ℕ → List ℕ → List ℕ
abandon none gone = gone
abandon (some ch) gone = ch ∷ gone

module _ {S : Type 0} where
  -- Whether the receiver of a channel is still held.
  unfoldable pub is_held : List (Task S) → ℕ → Bool
  is_held [] ch = false
  is_held (t ∷ ts) ch = (t.channel == ch) || is_held ts ch

  unfoldable pub same_task : Task S → Bytes → ℕ → Bool
  same_task t call_id ch = (t.channel == ch) && bytes_eq t.entry.call_id call_id

  unfoldable pub drop_one : List (Task S) → Task S → List (Task S)
  unfolding same_task
  drop_one [] task = []
  drop_one (t ∷ ts) task =
      if same_task t task.entry.call_id task.channel then ts else t ∷ drop_one ts task

-- What one turn of the dispatcher's inner loop comes to.
pub data Turn (S : Type 0) : Type 0 where
  stop : Turn S
  held : ℕ → Turn S
  dispatched : Task S → Turn S

unfoldable pub sooner : Option ℕ → Option ℕ → Option ℕ
sooner none b = b
sooner (some a) none = some a
sooner (some a) (some b) = some (min a b)

abbrev pub slots_ahead : Option ℕ → ℕ → ℕ
slots_ahead none free = 0
slots_ahead (some pos) free = pos - free

module _ {S V F : Type 0} where
  -- An entry was popped and the slot claimed, all under the queue's lock; then the probe is marked
  -- and the record set to ringing.
  unfoldable pub launch :
      Engine S V F → ℕ → ℕ → Bool → PendingEntry S → List (PendingEntry S) → Engine S V F × Turn S
  unfolding abandon
  launch e now window_ms probing entry rest =
      let task : Task S = record { channel = e.channels; entry = entry } in
      let b = e.hub.breaker in
      (
        record e {
          hub = record e.hub {
            queue = rest;
            breaker = if probing then mark_probe_dispatched b now window_ms else b;
            shared = record e.hub.shared {
              store = record e.hub.shared.store {
                inner = set_state e.hub.shared.store.inner entry.call_id ringing;
              };
            };
          };
          running = e.running + 1;
          cancels = put e.cancels entry.call_id e.channels;
          abandoned = abandon (lookup e.cancels entry.call_id) e.abandoned;
          channels = e.channels + 1;
          tasks = task ∷ e.tasks;
        },
        dispatched task,
      )

  unfoldable pub popped :
      Engine S V F
      → ℕ
      → ℕ
      → Bool
      → Option (PendingEntry S) × List (PendingEntry S)
      → Engine S V F × Turn S
  unfolding launch
  popped e now window_ms probing (none, rest) = (e, stop)
  popped e now window_ms probing (some entry, rest) = launch e now window_ms probing entry rest

  unfoldable pub decided : Engine S V F → ℕ → ℕ → Decision → Engine S V F × Turn S
  unfolding popped
  decided e now window_ms (Decision.hold until) = (e, held until)
  decided e now window_ms Decision.dispatch =
      popped e now window_ms false (pop_eligible e.hub.queue now)
  decided e now window_ms Decision.probe =
      popped e now window_ms true (pop_eligible e.hub.queue now)

  -- One turn of the inner loop, at `now`; `window_ms` is `preflight_max_window_ms`.
  unfoldable pub turn : ℕ → ℕ → Engine S V F → ℕ → Engine S V F × Turn S
  unfolding decided
  turn cap window_ms e now =
      if leb cap e.running then (e, stop) else decided e now window_ms (decision e.hub.breaker now)

  abbrev pub after_turn : Engine S V F → Turn S → Engine S V F × Option ℕ → Engine S V F × Option ℕ
  after_turn e stop rest = (e, none)
  after_turn e (held until) rest = (e, some until)
  after_turn e (dispatched task) rest = rest

  -- The inner loop, on fuel; a turn that dispatches shortens the queue.
  unfoldable pub drain : ℕ → ℕ → ℕ → Engine S V F → ℕ → Engine S V F × Option ℕ
  unfolding turn
  drain cap window_ms zero e now = (e, none)
  drain cap window_ms (suc fuel) e now =
      let (e', t) = turn cap window_ms e now in
      let rest = drain cap window_ms fuel e' now in after_turn e' t rest

  -- How long the dispatcher sleeps when nothing wakes it; `none`: until it is woken.
  unfoldable pub park : ℕ → Engine S V F → Option ℕ → ℕ → Option ℕ
  unfolding sooner
  park cap e breaker_hold now =
      let next_elig = if ltb e.running cap then peek_next_eligible_at e.hub.queue else none in
      elim (sooner next_elig breaker_hold) [ none ↦ none | some t ↦ some (t - now) ]

  -- One round of the dispatcher: the inner loop, then how long it sleeps. Nothing else happens
  -- between the rounds of `rounds`, which start at the given times.
  unfoldable pub round : ℕ → ℕ → ℕ → Engine S V F → ℕ → Engine S V F × Option ℕ
  unfolding drain park
  round cap window_ms fuel e now =
      let (e', breaker_hold) = drain cap window_ms fuel e now in (e', park cap e' breaker_hold now)

  unfoldable pub rounds : ℕ → ℕ → ℕ → Engine S V F → List ℕ → Engine S V F × List (Option ℕ)
  unfolding round
  rounds cap window_ms fuel e [] = (e, [])
  rounds cap window_ms fuel e (now ∷ times) =
      let (e', sleep) = round cap window_ms fuel e now in
      let (e'', sleeps) = rounds cap window_ms fuel e' times in (e'', sleep ∷ sleeps)

  -- `end_call`: what it does to the engine, and what it returns.
  unfoldable pub signal : Engine S V F → Bytes → Option ℕ → Engine S V F × Bool
  signal e call_id none = (e, false)
  signal e call_id (some ch) = (
    record e {
      cancels = delete e.cancels call_id;
      signalled = if is_held e.tasks ch then ch ∷ e.signalled else e.signalled;
    },
    is_held e.tasks ch,
  )

  unfoldable pub ended_queued :
      Engine S V F
      → Bytes
      → ℕ
      → Option (PendingEntry S) × List (PendingEntry S)
      → Engine S V F × Bool
  unfolding signal
  ended_queued e call_id now (none, rest) = signal e call_id (lookup e.cancels call_id)
  ended_queued e call_id now (some entry, rest) = (
    record e {
      hub = record e.hub {
        queue = rest;
        shared =
            (finalize_call e.hub.shared call_id true none none
              (record {
                answered = false;
                duration_ms = 0;
                transcript_len = 0;
                ended_by = EndedBy.caller_hangup;
              })
              none none now).0;
      };
    },
    true,
  )

  unfoldable pub end_call : Engine S V F → Bytes → ℕ → Engine S V F × Bool
  unfolding ended_queued
  end_call e call_id now = ended_queued e call_id now (remove e.hub.queue call_id)

  -- The end of a task: its `CancelGuard` and its `RunningGuard` are dropped, in that order.
  unfoldable pub drop_task : Engine S V F → Task S → Engine S V F
  unfolding notify_one abandon
  drop_task e task = record e {
    cancels = delete e.cancels task.entry.call_id;
    abandoned = abandon (lookup e.cancels task.entry.call_id) e.abandoned;
    tasks = drop_one e.tasks task;
    running = if e.running == 0 then u64_max else e.running - 1;
    hub = record e.hub { breaker = notify_one e.hub.breaker };
  }

  unfoldable pub queued_position : Engine S V F → Bytes → Option ℕ
  queued_position e call_id = position e.hub.queue call_id

  unfoldable pub suggested_poll_interval_ms : ℕ → ℕ → ℕ → Engine S V F → Bytes → ℕ
  unfolding queued_position
  suggested_poll_interval_ms cap base interval_max e call_id =
      let free = cap - e.running in
      min (sat_mul64 base (1 + slots_ahead (queued_position e call_id) free))
        (max interval_max base)
