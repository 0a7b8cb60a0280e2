-- ===== src/Mcp/Placing.antt =====
-- Placing a call by the tools of src/mcp.rs, reading it back, and ending it.
use kutsu.Base.{
  Option-cases, inl, inr, ℕ, suc, max, ◌≤◌, ◌≡◌, ◌⊎◌, ◌∙◌, ap, refl, Bool, true, false, Option,
  none, some, List, [], ◌∷◌, arith, length,
}
use kutsu.Base.Bytes.{Bytes, bytes_eq_refl}
use kutsu.Disposition.{cancelled, resolve_disposition}
use kutsu.Store.{
  CallQuality, CallRecord, ended, get, insert, update, end_record, ended_pairs, is_ended,
}
use kutsu.Store.Ids.{call_id_of}
use kutsu.Store.Retention.{finalize_keeps}
use kutsu.Queue.{PendingEntry, push, find, position, remove}
use kutsu.Queue.Dispatch.{remove-push, position-push, position-absent}
use kutsu.Engine.Finish.Teardown.{ended-update}
use kutsu.Engine.Finish.{finalize_call}
use kutsu.Engine.Hub.{Hub, place_call_at, queued_record}
use kutsu.Engine.Scheduler.{Engine, end_call, ended_queued, queued_position}
use kutsu.Mcp.{
  PlaceCallArgs, McpConfig, accept, PlaceReply, refused, immediate, task, placed_reply,
  place_call_inner, is_blank, or_some, later_than, Reply, ok, get_call_status, end_call_tool,
  status_body,
}

abbrev pub is_refused : PlaceReply → Bool
is_refused (refused e) = true
is_refused (immediate id now) = false
is_refused (task ttl poll text) = false

abbrev pub is_task : PlaceReply → Bool
is_task (task ttl poll text) = true
is_task (refused e) = false
is_task (immediate id now) = false

abbrev pub or_zero : Option ℕ → ℕ
or_zero none = 0
or_zero (some t) = t

eligible_lem : (now : ℕ) (at : Option ℕ) → or_some (later_than now at) now ≡ max now (or_zero at)
eligible_lem now none = omega arith
eligible_lem now (some t) = ground arith

module _ {V F : Type 0} where
  get-insert_self :
      (m : List (CallRecord V F)) (r : CallRecord V F) → get (insert m r) r.call_id ≡ some r
  unfolding get insert
  get-insert_self [] r = ground (arith, bytes_eq_refl r.call_id)
  get-insert_self (x ∷ m) r = ground (arith, bytes_eq_refl r.call_id, get-insert_self m r)

  ended-insert :
      (m : List (CallRecord V F)) (r : CallRecord V F)
      → is_ended r.state ≡ false
      → length (ended_pairs (insert m r)) ≤ length (ended_pairs m)
  unfolding insert ended_pairs
  ended-insert [] r h = ground arith
  ended-insert (x ∷ m) r h = ground (arith, ended-insert m r h)

module _ {S V F : Type 0} (c : McpConfig) (zero_quality : CallQuality F)
    (meanwhile : Engine S V F → Engine S V F) (e : Engine S V F) (a : PlaceCallArgs S)
    (tasks : Bool) (now started : ℕ) where
  -- A call is refused exactly for a number of white space, and then nothing happens. It becomes a
  -- task only for a client that supports them, and only if it is due; any other call gets its id at
  -- once.
  pub place_call-replies :
      (is_refused (place_call_inner c zero_quality meanwhile e a tasks now started).1
        ≡ is_blank a.to_number)
      × (is_blank a.to_number ≡ true
          → (place_call_inner c zero_quality meanwhile e a tasks now started).0 ≡ e)
      × (is_task (place_call_inner c zero_quality meanwhile e a tasks now started).1 ≡ true
          → (tasks ≡ true) × (or_zero a.schedule_at ≤ now))
  unfolding place_call_inner placed_reply accept
  place_call-replies = (ground arith, ground arith, ground (arith, eligible_lem now a.schedule_at))

module _ {S V F : Type 0} where
  get_call_status-some :
      (e : Engine S V F) (id : Bytes) (later : ℕ) (r : CallRecord V F)
      → get e.hub.shared.store.inner id ≡ some r
      → get_call_status e id later ≡ ok (status_body r (position e.hub.queue id) later)
  unfolding get_call_status queued_position
  get_call_status-some e id later r h = ground arith

  end_call_tool-some :
      (e : Engine S V F) (id : Bytes) (now : ℕ) (r : CallRecord V F)
      → get e.hub.shared.store.inner id ≡ some r
      → end_call_tool e id now ≡ ((end_call e id now).0, ok (id, (end_call e id now).1))
  unfolding end_call_tool
  end_call_tool-some e id now r h = ground arith

module _ {S V F : Type 0} (zero_quality : CallQuality F) (h : Hub S V F) (a : PlaceCallArgs S)
    (now started : ℕ) where
  abbrev entry : PendingEntry S
  entry = record {
    call_id = call_id_of h.seq;
    number = a.to_number;
    scenario = a.scenario;
    eligible_at_ms = or_some (later_than now a.schedule_at) now;
    attempt = 1;
  }

  abbrev pub new_record : CallRecord V F
  new_record = queued_record zero_quality (call_id_of h.seq) a.to_number started 1 a.client_ref

  accepted_record :
      get (accept zero_quality h a now started).0.0.shared.store.inner (call_id_of h.seq)
      ≡ some new_record
  unfolding accept place_call_at queued_record
  accepted_record = get-insert_self h.shared.store.inner new_record

  accepted_queue : (accept zero_quality h a now started).0.0.queue ≡ push h.queue entry
  unfolding accept place_call_at
  accepted_queue = refl

module _ {S V F : Type 0} (c : McpConfig) (zero_quality : CallQuality F) (e : Engine S V F)
    (a : PlaceCallArgs S) (tasks : Bool) (now started : ℕ) where
  abbrev placed : Engine S V F
  placed = (place_call_inner c zero_quality (λ x. x) e a tasks now started).0

  abbrev id : Bytes
  id = call_id_of e.hub.seq

  placed_lem :
      is_blank a.to_number ≡ false
      → placed ≡ record e { hub = (accept zero_quality e.hub a now started).0.0 }
  unfolding place_call_inner
  placed_lem filled = ground arith

  -- The status of a call that was just placed: queued, at a place in the queue, at its first
  -- attempt, with the number and the tag that it was placed with, and no result.
  status-place_call :
      (later : ℕ)
      → is_blank a.to_number ≡ false
      → (pos : ℕ) × (get_call_status
            (place_call_inner c zero_quality (λ x. x) e a tasks now started).0
            (call_id_of e.hub.seq)
            later
          ≡ ok (
              status_body
                (queued_record zero_quality
                  (call_id_of e.hub.seq)
                  a.to_number
                  started
                  1
                  a.client_ref)
                (some pos)
                later))
  status-place_call later filled =
      let q = push e.hub.queue (entry zero_quality e.hub a now started) in
      elim (Option-cases (position q id)) [
        | inl none_there ↦ absurd (
            ground (
              arith,
              none_there,
              position-push e.hub.queue (entry zero_quality e.hub a now started),
            ))
        | inr (pos, there) ↦ (
          pos,
          ap (λ (x : Engine S V F). get_call_status x id later) (placed_lem filled)
              ∙ get_call_status-some _ id later _ (accepted_record zero_quality e.hub a now started)
              ∙ ap
                  (λ (p : Option ℕ).
                    ok (status_body (new_record zero_quality e.hub a now started) p later))
                  (ap (λ (x : List (PendingEntry S)). position x id)
                      (accepted_queue zero_quality e.hub a now started)
                    ∙ there),
        )
      ]

  abbrev queued_engine : Engine S V F
  queued_engine = record e { hub = (accept zero_quality e.hub a now started).0.0 }

  abbrev ended_engine : ℕ → Engine S V F
  ended_engine ended_at =
      (ended_queued queued_engine id ended_at
        (some (entry zero_quality e.hub a now started), e.hub.queue)).0

  abbrev final_record : ℕ → CallRecord V F
  final_record ended_at = record (new_record zero_quality e.hub a now started) {
    state = ended;
    ended_ms = some ended_at;
    disposition = some cancelled;
  }

  ended_queue : (ended_at : ℕ) → (ended_engine ended_at).hub.queue ≡ e.hub.queue
  unfolding ended_queued
  ended_queue ended_at = refl

  room_lem :
      (ended_at : ℕ)
      → (e.hub.shared.store.max_history ≡ 0)
        ⊎ (suc (length (ended_pairs e.hub.shared.store.inner)) ≤ e.hub.shared.store.max_history)
      → let s = (accept zero_quality e.hub a now started).0.0.shared.store in
        (s.max_history ≡ 0)
        ⊎ (length (ended_pairs (update s.inner id (end_record cancelled none none ended_at)))
            ≤ s.max_history)
  unfolding accept place_call_at is_ended queued_record
  room_lem ended_at (inl none_kept) = inl none_kept
  room_lem ended_at (inr le) = inr (
      omega (
        arith,
        le,
        ended-update (insert e.hub.shared.store.inner (new_record zero_quality e.hub a now started))
            id (end_record cancelled none none ended_at),
        ended-insert e.hub.shared.store.inner (new_record zero_quality e.hub a now started) refl,
      ))

  ended_record :
      (ended_at : ℕ)
      → (e.hub.shared.store.max_history ≡ 0)
        ⊎ (suc (length (ended_pairs e.hub.shared.store.inner)) ≤ e.hub.shared.store.max_history)
      → get (ended_engine ended_at).hub.shared.store.inner id ≡ some (final_record ended_at)
  unfolding ended_queued finalize_call resolve_disposition end_record queued_record
  ended_record ended_at room =
      finalize_keeps (accept zero_quality e.hub a now started).0.0.shared.store id cancelled none
        none ended_at (new_record zero_quality e.hub a now started)
        (accepted_record zero_quality e.hub a now started) (room_lem ended_at room)

  tool_lem :
      (ended_at : ℕ)
      → find e.hub.queue id ≡ none
      → end_call_tool queued_engine id ended_at ≡ (ended_engine ended_at, ok (id, true))
  unfolding end_call ended_queued
  tool_lem ended_at fresh =
      end_call_tool-some queued_engine id ended_at _
        (accepted_record zero_quality e.hub a now started)
      ∙ ap
          (λ (x : Option (PendingEntry S) × List (PendingEntry S)). (
            (ended_queued queued_engine id ended_at x).0,
            ok (id, (ended_queued queued_engine id ended_at x).1),
          ))
          (ap (λ (q : List (PendingEntry S)). remove q id)
              (accepted_queue zero_quality e.hub a now started)
            ∙ remove-push e.hub.queue (entry zero_quality e.hub a now started) fresh)

  -- A call that is ended before it is dispatched is told so, leaves the queue as it was before the
  -- call was placed, and has the status of an ended, cancelled call; the store must have room for
  -- one more ended call.
  pub end_call-place_call :
      (ended_at later : ℕ)
      → is_blank a.to_number ≡ false
      → find e.hub.queue (call_id_of e.hub.seq) ≡ none
      → (e.hub.shared.store.max_history ≡ 0)
        ⊎ (suc (length (ended_pairs e.hub.shared.store.inner)) ≤ e.hub.shared.store.max_history)
      → let (e', _) = place_call_inner c zero_quality (λ x. x) e a tasks now started in
        let (e'', reply) = end_call_tool e' (call_id_of e.hub.seq) ended_at in
        (reply ≡ ok (call_id_of e.hub.seq, true))
        × (e''.hub.queue ≡ e.hub.queue)
        × (get_call_status e'' (call_id_of e.hub.seq) later
            ≡ ok (
                status_body
                  (record (queued_record zero_quality
                    (call_id_of e.hub.seq)
                    a.to_number
                    started
                    1
                    a.client_ref) {
                      state = ended;
                      ended_ms = some ended_at;
                      disposition = some cancelled;
                    })
                  none
                  later))
  end_call-place_call ended_at later filled fresh room =
      let tool =
        ap (λ (x : Engine S V F). end_call_tool x id ended_at) (placed_lem filled)
        ∙ tool_lem ended_at fresh in
      (
        ap (λ (y : Engine S V F × Reply (Bytes × Bool)). y.1) tool,
        ap (λ (y : Engine S V F × Reply (Bytes × Bool)). y.0.hub.queue) tool ∙ ended_queue ended_at,
        ap (λ (y : Engine S V F × Reply (Bytes × Bool)). get_call_status y.0 id later) tool
            ∙ get_call_status-some (ended_engine ended_at) id later _ (ended_record ended_at room)
            ∙ ap (λ (p : Option ℕ). ok (status_body (final_record ended_at) p later))
                (ap (λ (q : List (PendingEntry S)). position q id) (ended_queue ended_at)
                  ∙ position-absent e.hub.queue id fresh),
      )
