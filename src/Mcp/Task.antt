-- ===== src/Mcp/Task.antt =====
-- The task that a placed call runs as (src/mcp.rs): the future that `place_call_inner` spawns.
use kutsu.Base.{ℕ, Bool, true, false, Option, none, some, List, [], ◌∷◌, ◌++◌}
use kutsu.Base.Bytes.{Bytes}
use kutsu.Base.Decimal.{print_decimal}
use kutsu.Disposition.{ascii}
use kutsu.Store.{get}
use kutsu.Engine.Scheduler.{Engine, end_call, queued_position}
use kutsu.Mcp.{TaskResult, cancelled, is_terminal_state, call_status_label, task_result_for}

-- What the task wakes on, with the engine as it is then: a poll of the watcher (with the engine as
-- the result is read, and the clock), the cancellation of the task, the end of its second.
pub data Wake (S V F : Type 0) : Type 0 where
  polled : Engine S V F → Engine S V F → ℕ → Wake S V F
  withdrawn : Engine S V F → ℕ → Wake S V F
  refreshed : Engine S V F → Wake S V F

-- The status messages so far and, once the task has ended, its result; `hung_up` is the engine that
-- a withdrawn task leaves.
pub record TaskRun (S V F : Type 0) : Type 0 where
  pub messages : List Bytes
  pub result : Option (TaskResult V)
  pub hung_up : Option (Engine S V F)

module _ {S V F : Type 0} where
  -- `watch_call_to_terminal`, at one poll.
  unfoldable pub is_over : Engine S V F → Bytes → Bool
  unfolding is_terminal_state
  is_over e id = elim (get e.hub.shared.store.inner id) [
    | none ↦ false
    | some r ↦ is_terminal_state r.state
  ]

  -- The message at the head of the loop, if there is a record.
  unfoldable pub status_message : Engine S V F → Bytes → List Bytes
  unfolding call_status_label
  status_message e id = elim (get e.hub.shared.store.inner id) [
    | none ↦ []
    | some r ↦
        (let msg = ascii "call " ++ id ++ ascii ": " ++ call_status_label r in
          elim (queued_position e id) [
            | none ↦ msg ∷ []
            | some pos ↦ (msg ++ ascii " (queue position " ++ print_decimal pos ++ ascii ")") ∷ []
          ])
  ]

  abbrev pub saying : List Bytes → TaskRun S V F → TaskRun S V F
  saying ms run = record run { messages = ms ++ run.messages }

  -- The rest of the task, after a message.
  unfoldable pub wait : Bytes → List (Wake S V F) → TaskRun S V F
  unfolding is_over status_message
  wait id [] = record { messages = []; result = none; hung_up = none }
  wait id (polled e e' now ∷ ws) = elim (is_over e id) [
    | true ↦ record {
      messages = [];
      result = some (task_result_for (get e'.hub.shared.store.inner id) now);
      hung_up = none;
    }
    | false ↦ wait id ws
  ]
  wait id (withdrawn e now ∷ ws) = record {
    messages = [];
    result = some cancelled;
    hung_up = some (end_call e id now).0;
  }
  wait id (refreshed e ∷ ws) = saying (status_message e id) (wait id ws)

  unfoldable pub run_task : Engine S V F → Bytes → List (Wake S V F) → TaskRun S V F
  unfolding wait
  run_task e id ws = saying (status_message e id) (wait id ws)
