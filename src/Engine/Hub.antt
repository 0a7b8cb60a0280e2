-- ===== src/Engine/Hub.antt =====
-- src/engine.rs: `Enqueuer`, and what it and the tasks of the engine share.
use kutsu.Base.{ℕ, true, Option, none, List, [], wrapping_add64}
use kutsu.Base.Bytes.{Bytes}
use kutsu.Store.{CallQuality, CallRecord, queued, insert, set_state}
use kutsu.Store.Ids.{call_id_of}
use kutsu.Queue.{PendingEntry, push}
use kutsu.Breaker.{Breaker}
use kutsu.Engine.Finish.{Shared, Counters}

-- The `Notify` of the dispatcher, which the enqueuer shares with the breaker, is `breaker.wake`.
pub record Hub (S V F : Type 0) : Type 0 where
  pub seq : ℕ
  pub shared : Shared V F
  pub queue : List (PendingEntry S)
  pub breaker : Breaker

-- `wake.notify_one()`.
unfoldable pub notify_one : Breaker → Breaker
notify_one b = record b { wake = true }

unfoldable pub count_placed : Counters → Counters
count_placed c = record c { placed = wrapping_add64 c.placed 1 }

module _ {V F : Type 0} where
  -- A call's record as it is enqueued; `zero_quality` is `CallQuality::default()`.
  unfoldable pub queued_record :
      CallQuality F → Bytes → Bytes → ℕ → ℕ → Option Bytes → CallRecord V F
  queued_record zero_quality call_id number started_ms attempt client_ref = record {
    call_id = call_id;
    number = number;
    state = queued;
    transcript = [];
    affect = [];
    goal = none;
    error = none;
    started_ms = started_ms;
    ended_ms = none;
    quality = zero_quality;
    disposition = none;
    attempt = attempt;
    client_ref = client_ref;
  }

module _ {S V F : Type 0} where
  unfoldable pub place_call_at :
      CallQuality F → Hub S V F → Bytes → S → ℕ → ℕ → Option Bytes → ℕ → Hub S V F × Bytes
  unfolding queued_record notify_one count_placed
  place_call_at zero_quality h number scenario eligible_at_ms attempt client_ref now =
      let call_id = call_id_of h.seq in
      (
        record h {
          seq = wrapping_add64 h.seq 1;
          shared = record h.shared {
            store = record h.shared.store {
              inner =
                  insert h.shared.store.inner
                    (queued_record zero_quality call_id number now attempt client_ref);
            };
            counters = count_placed h.shared.counters;
          };
          queue = push h.queue (record {
            call_id = call_id;
            number = number;
            scenario = scenario;
            eligible_at_ms = eligible_at_ms;
            attempt = attempt;
          });
          breaker = notify_one h.breaker;
        },
        call_id,
      )

  unfoldable pub requeue : Hub S V F → Bytes → Bytes → S → ℕ → ℕ → Hub S V F
  unfolding notify_one count_placed
  requeue h call_id number scenario eligible_at_ms attempt = record h {
    shared = record h.shared {
      store = record h.shared.store { inner = set_state h.shared.store.inner call_id queued };
      counters = count_placed h.shared.counters;
    };
    queue = push h.queue (record {
      call_id = call_id;
      number = number;
      scenario = scenario;
      eligible_at_ms = eligible_at_ms;
      attempt = attempt;
    });
    breaker = notify_one h.breaker;
  }
