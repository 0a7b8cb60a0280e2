-- ===== src/Examples/Tools.antt =====
-- The tools, at concrete inputs.
use kutsu.Base.{ℕ, All, ◌↔◌, ◌⊎◌, ◌++◌, ◌≤◌, ◌≡◌, inr, refl, true, none, some, [], ◌∷◌, arith}
use kutsu.Base.Bytes.{bytes_eq, bytes_eq_iff}
use kutsu.Base.Decimal.{print_decimal}
use kutsu.Disposition.{ascii, cancelled}
use kutsu.Store.{ended, get, ended_pairs, is_ended, CallState}
use kutsu.Store.Ids.{call_id_of}
use kutsu.Queue.{find}
use kutsu.Gemini.{trim}
use kutsu.Engine.Loop.{LoopEnd}
use kutsu.Engine.Finish.{teardown}
use kutsu.Engine.Finish.Teardown.{verdict, final_record}
use kutsu.Engine.Hub.{queued_record}
use kutsu.Engine.Scheduler.{Engine, lookup}
use kutsu.Mcp.{
  McpConfig, PlaceCallArgs, place_call_inner, is_blank, get_call_status, end_call_tool, ok,
  status_body, TaskResult,
}
use kutsu.Mcp.Placing.{is_refused, is_task, place_call-replies, end_call-place_call}
use kutsu.Mcp.Task.{polled, refreshed, run_task}
use kutsu.Mcp.Results.{Reports, run_task-teardown}
use kutsu.Http.{
  serve, metrics, mcp, passed, unauthorized, render_prometheus, metrics_snapshot, metrics_of,
}
use kutsu.Http.Guard.{mcp_guarded}
use kutsu.Http.Closing.{graceful_teardown, is_recorded}
use kutsu.Http.Told.{IsTold, graceful_teardown-IsTold}
use kutsu.Http.Scrape.{scrape, samples, scrape-render_prometheus}
use kutsu.Examples.{quality, session, shared, hub, call}
use kutsu.Examples.Scheduling.{engine}

abbrev config : McpConfig
config = record {
  max_call_secs = 600;
  channels = 2;
  poll_interval_ms = 5000;
  poll_interval_max_ms = 30000;
}

abbrev args : PlaceCallArgs ℕ
args = record {
  to_number = ascii "100";
  scenario = 0;
  schedule_at = some 3000;
  client_ref = some (ascii "a");
}

place_call-replies_example :
    (is_refused (place_call_inner config quality (λ e. e) engine args true 5000 5001).1
      ≡ is_blank (ascii "100"))
    × (is_blank (ascii "100") ≡ true
        → (place_call_inner config quality (λ e. e) engine args true 5000 5001).0 ≡ engine)
    × (is_task (place_call_inner config quality (λ e. e) engine args true 5000 5001).1 ≡ true
        → (true ≡ true) × (3000 ≤ 5000))
place_call-replies_example = place_call-replies config quality (λ e. e) engine args true 5000 5001

end_call-place_call_example :
    let (e', _) = place_call_inner config quality (λ e. e) engine args true 1000 1001 in
    let (e'', reply) = end_call_tool e' (call_id_of 3) 2000 in
    (reply ≡ ok (call_id_of 3, true))
    × (e''.hub.queue ≡ engine.hub.queue)
    × (get_call_status e'' (call_id_of 3) 2500
        ≡ ok (
            status_body
              (record (queued_record quality
                (call_id_of 3)
                (ascii "100")
                1001
                1
                (some (ascii "a"))) {
                  state = ended;
                  ended_ms = some 2000;
                  disposition = some cancelled;
                })
              none
              2500))
unfolding find bytes_eq ended_pairs is_ended trim call_id_of print_decimal
end_call-place_call_example =
    end_call-place_call config quality engine args true 1000 1001 2000 2500 refl refl
      (inr (ground arith))

-- The engine once `call-0` is torn down, and a second before.
abbrev torn_down : Engine ℕ ℕ ℕ
torn_down = record engine {
  hub = record hub {
    shared =
        (teardown (λ v. none) shared (ascii "call-0") LoopEnd.completed none none session quality
          1000 9000 9100).0;
  };
}

run_task-teardown_example :
    (res : TaskResult ℕ) × ((run_task engine
        (ascii "call-0")
        (refreshed engine ∷ polled torn_down torn_down 9200 ∷ [])).result
      ≡ some res)
    × Reports
        (final_record
          (λ v. none)
          shared
          (ascii "call-0")
          LoopEnd.completed
          none
          none
          session
          quality
          1000
          9000
          9100
          (call (ascii "call-0") CallState.in_progress))
        (verdict
          (λ v. none)
          shared
          (ascii "call-0")
          LoopEnd.completed
          none
          none
          session
          quality
          1000
          9000
          9100)
        res
unfolding get bytes_eq ended_pairs is_ended
run_task-teardown_example =
    run_task-teardown (λ v. none) shared (ascii "call-0") LoopEnd.completed none none session
      quality 1000 9000 9100 (call (ascii "call-0") CallState.in_progress) engine torn_down
      (refreshed engine ∷ []) [] 9200 refl (inr (ground arith)) refl (tt, tt)

mcp_guarded_example :
    ((serve bytes_eq 2 engine (some (ascii "s3cret")) mcp (some (ascii "Bearer s3cret")) ≡ passed)
      ↔ (some (ascii "Bearer s3cret") ≡ some (ascii "Bearer " ++ ascii "s3cret")))
    × ((some (ascii "Bearer s3cret") ≡ some (ascii "Bearer " ++ ascii "s3cret"))
        ⊎ (serve bytes_eq 2 engine (some (ascii "s3cret")) mcp (some (ascii "Bearer s3cret"))
            ≡ unauthorized))
    × (serve bytes_eq 2 engine none mcp (some (ascii "Bearer s3cret")) ≡ passed)
    × (serve bytes_eq 2 engine (some (ascii "s3cret")) metrics (some (ascii "Bearer s3cret"))
        ≡ serve bytes_eq 2 engine none metrics none)
mcp_guarded_example =
    mcp_guarded bytes_eq 2 engine (ascii "s3cret") (some (ascii "s3cret"))
      (some (ascii "Bearer s3cret")) bytes_eq_iff

scrape-render_prometheus_example :
    scrape (render_prometheus (metrics_snapshot 2 engine)) ≡ samples 2 engine
scrape-render_prometheus_example =
    scrape-render_prometheus 2 engine (unfold metrics_of metrics_snapshot in ground arith)

-- The engine with a record for each of its calls, when the server is stopped.
abbrev closing : Engine ℕ ℕ ℕ
closing = record engine {
  hub = record hub {
    shared = record shared {
      store = record shared.store {
        inner =
            call (ascii "call-0") CallState.in_progress
            ∷ call (ascii "call-1") CallState.queued
            ∷ call (ascii "call-9") CallState.queued
            ∷ [];
      };
    };
  };
}

graceful_teardown-IsTold_example :
    ((graceful_teardown closing (λ id. 9000)).hub.queue ≡ [])
    × All
        (λ r.
          IsTold closing
            (graceful_teardown closing (λ id. 9000))
            (find closing.hub.queue r.call_id)
            (lookup closing.cancels r.call_id))
        closing.hub.shared.store.inner
unfolding is_recorded bytes_eq
graceful_teardown-IsTold_example =
    graceful_teardown-IsTold closing (λ id. 9000) ((refl, tt), (tt, tt)) (refl, (refl, tt))
