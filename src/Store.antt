-- ===== src/Store.antt =====
-- src/state.rs: the store of call records.
pub mod Ids
pub mod Eviction
mod Ranks
pub mod Lookup
pub mod Retention
use kutsu.Base.{
  ℕ, suc, ◌+◌, ◌-◌, ◌≤◌, ◌<◌, ◌≡◌, Bool, true, false, not, ◌&&◌, ◌||◌, Option, none, some, List, [],
  ◌∷◌, ◌++◌, map, ltb, leb, ◌==◌, if◌then◌else◌, length, take,
}
use kutsu.Base.Bytes.{Bytes, bytes_eq}
use kutsu.Base.Decimal.{parse_u64}
use kutsu.Disposition.{Disposition}

pub data CallState : Type 0 where
  queued ringing in_progress ended : CallState

-- `Role`, `TranscriptEntry` and `AffectEntry` of src/gemini_live.rs.
pub data Role : Type 0 where
  user model : Role

pub record TranscriptEntry : Type 0 where
  pub role : Role
  pub text : Bytes
  pub ts_ms : ℕ

pub record AffectEntry : Type 0 where
  pub role : Role
  pub label : Bytes
  pub ts_ms : ℕ

-- `CallQuality`; the loss percentage is an f32, whose type is a parameter.
pub record CallQuality (F : Type 0) : Type 0 where
  pub underruns : ℕ
  pub starved_ms : ℕ
  pub max_gap_ms : ℕ
  pub uplink_received : ℕ
  pub uplink_lost : ℕ
  pub uplink_reordered : ℕ
  pub uplink_rms : ℕ
  pub downlink_loss_pct : F
  pub downlink_jitter_ms : ℕ
  pub downlink_rtt_ms : ℕ

-- `CallRecord`; `V` is `serde_json::Value`, which the store only keeps.
pub record CallRecord (V F : Type 0) : Type 0 where
  pub call_id : Bytes
  pub number : Bytes
  pub state : CallState
  pub transcript : List TranscriptEntry
  pub affect : List AffectEntry
  pub goal : Option V
  pub error : Option Bytes
  pub started_ms : ℕ
  pub ended_ms : Option ℕ
  pub quality : CallQuality F
  pub disposition : Option Disposition
  pub attempt : ℕ
  pub client_ref : Option Bytes

pub record StateCounts : Type 0 where
  pub active : ℕ
  pub queued : ℕ

-- The map is the list of its records, in the order in which it iterates; each record's key is
-- its `call_id`, under which `insert` put it.
pub record CallStore (V F : Type 0) : Type 0 where
  pub inner : List (CallRecord V F)
  pub max_history : ℕ

-- `strip_prefix("call-")`.
unfoldable pub strip_call : Bytes → Option Bytes
strip_call (a ∷ b ∷ c ∷ d ∷ e ∷ rest) =
    if bytes_eq (a ∷ b ∷ c ∷ d ∷ e ∷ []) (b'c' ∷ b'a' ∷ b'l' ∷ b'l' ∷ b'-' ∷ [])
    then some rest
    else none
strip_call _ = none

abbrev pub or_zero : Option ℕ → ℕ
or_zero none = 0
or_zero (some n) = n

unfoldable pub call_seq : Bytes → ℕ
unfolding strip_call
call_seq call_id = elim (strip_call call_id) [ none ↦ 0 | some s ↦ or_zero (parse_u64 s) ]

unfoldable pub is_ended : CallState → Bool
is_ended ended = true
is_ended _ = false

module _ {V F : Type 0} where
  unfoldable pub get : List (CallRecord V F) → Bytes → Option (CallRecord V F)
  get [] call_id = none
  get (r ∷ m) call_id = if bytes_eq r.call_id call_id then some r else get m call_id

  -- `HashMap::insert` under the record's own id.
  unfoldable pub insert : List (CallRecord V F) → CallRecord V F → List (CallRecord V F)
  insert [] rec = rec ∷ []
  insert (r ∷ m) rec = if bytes_eq r.call_id rec.call_id then rec ∷ m else r ∷ insert m rec

  -- `if let Some(r) = get_mut(call_id) { .. }`, where no caller changes the id.
  unfoldable pub update :
      List (CallRecord V F) → Bytes → (CallRecord V F → CallRecord V F) → List (CallRecord V F)
  update [] call_id f = []
  update (r ∷ m) call_id f = if bytes_eq r.call_id call_id then f r ∷ m else r ∷ update m call_id f

  unfoldable pub set_state : List (CallRecord V F) → Bytes → CallState → List (CallRecord V F)
  set_state m call_id state = update m call_id λ r. record r { state = state }

  unfoldable pub append_transcript :
      List (CallRecord V F) → Bytes → TranscriptEntry → List (CallRecord V F)
  append_transcript m call_id entry =
      update m call_id λ r. record r { transcript = r.transcript ++ (entry ∷ []) }

  unfoldable pub append_affect : List (CallRecord V F) → Bytes → AffectEntry → List (CallRecord V F)
  append_affect m call_id entry =
      update m call_id λ r. record r { affect = r.affect ++ (entry ∷ []) }

  unfoldable pub set_transcript :
      List (CallRecord V F) → Bytes → List TranscriptEntry → List (CallRecord V F)
  set_transcript m call_id transcript = update m call_id λ r. record r { transcript = transcript }

  unfoldable pub set_quality : List (CallRecord V F) → Bytes → CallQuality F → List (CallRecord V F)
  set_quality m call_id q = update m call_id λ r. record r { quality = q }

  -- The `ended` vector of `evict_ended_over_cap`.
  unfoldable pub ended_pairs : List (CallRecord V F) → List (ℕ × Bytes)
  unfolding is_ended call_seq
  ended_pairs [] = []
  ended_pairs (r ∷ m) =
      if is_ended r.state then (call_seq r.call_id, r.call_id) ∷ ended_pairs m else ended_pairs m

  unfoldable pub remove : List (CallRecord V F) → Bytes → List (CallRecord V F)
  remove [] call_id = []
  remove (r ∷ m) call_id =
      if bytes_eq r.call_id call_id then remove m call_id else r ∷ remove m call_id

  unfoldable pub remove_all : List (CallRecord V F) → List (ℕ × Bytes) → List (CallRecord V F)
  remove_all m [] = m
  remove_all m ((n, k) ∷ ks) = remove_all (remove m k) ks

-- `sort_unstable_by_key(|(n, _)| *n)`: here ties keep their order, which the code leaves open;
-- the ids that the engine makes have distinct numbers.
unfoldable pub insert_by_seq : ℕ × Bytes → List (ℕ × Bytes) → List (ℕ × Bytes)
insert_by_seq x [] = x ∷ []
insert_by_seq x (y ∷ ys) = if leb x.0 y.0 then x ∷ y ∷ ys else y ∷ insert_by_seq x ys

unfoldable pub sort_by_seq : List (ℕ × Bytes) → List (ℕ × Bytes)
sort_by_seq [] = []
sort_by_seq (x ∷ xs) = insert_by_seq x (sort_by_seq xs)

module _ {V F : Type 0} where
  unfoldable pub victims : List (CallRecord V F) → ℕ → List (ℕ × Bytes)
  victims m max_history =
      let ended = ended_pairs m in take (length ended - max_history) (sort_by_seq ended)

  -- When no more than the cap are held, `victims` is empty and nothing is removed.
  unfoldable pub evict_ended_over_cap : List (CallRecord V F) → ℕ → List (CallRecord V F)
  unfolding victims
  evict_ended_over_cap m max_history =
      if max_history == 0
      then m
      else if leb (length (ended_pairs m)) max_history
      then m
      else remove_all m (victims m max_history)

  unfoldable pub end_record :
      Disposition → Option V → Option Bytes → ℕ → CallRecord V F → CallRecord V F
  end_record d goal error ended_ms r = record r {
    state = ended;
    disposition = some d;
    goal = goal;
    error = error;
    ended_ms = some ended_ms;
  }

  unfoldable pub finalize :
      CallStore V F → Bytes → Disposition → Option V → Option Bytes → ℕ → CallStore V F
  unfolding evict_ended_over_cap end_record
  finalize s call_id d goal error ended_ms = record s {
    inner =
        evict_ended_over_cap (update s.inner call_id (end_record d goal error ended_ms))
          s.max_history;
  }

  unfoldable pub with_history_cap : ℕ → CallStore V F
  with_history_cap max_history = record { inner = []; max_history = max_history }

  -- `counts`: one pass over the records.
  unfoldable pub counts : List (CallRecord V F) → StateCounts
  counts [] = record { active = 0; queued = 0 }
  counts (r ∷ m) =
      let c = counts m in
      elim r.state [
        | ringing ↦ record c { active = c.active + 1 }
        | in_progress ↦ record c { active = c.active + 1 }
        | queued ↦ record c { queued = c.queued + 1 }
        | ended ↦ c
      ]
