-- ===== src/Examples.antt =====
-- Concrete inputs for the theorems, and the theorems applied to them.
mod Calls
mod Scheduling
mod Audio
mod Sessions
mod Schemas
mod Tools
mod Settings
mod Listening
mod Media
use kutsu.Base.{ℕ, ltb, List, [], ◌∷◌, Option, none, some, Bool, true, false, ◌*◌, ◌/◌, ◌-◌}
use kutsu.Base.Bytes.{Bytes}
use kutsu.Disposition.{ascii, Disposition, completed, remote_close}
use kutsu.Store.{
  CallState, queued, ended, in_progress, CallQuality, CallRecord, CallStore, TranscriptEntry, user,
}
use kutsu.Queue.{PendingEntry}
use kutsu.Breaker.{Breaker}
use kutsu.Engine.Finish.{Counters, Shared, SessionOutcome}
use kutsu.Engine.Hub.{Hub}

abbrev pub quality : CallQuality ℕ
quality = record {
  underruns = 2;
  starved_ms = 40;
  max_gap_ms = 60;
  uplink_received = 500;
  uplink_lost = 3;
  uplink_reordered = 1;
  uplink_rms = 900;
  downlink_loss_pct = 1;
  downlink_jitter_ms = 5;
  downlink_rtt_ms = 80;
}

abbrev pub call : Bytes → CallState → CallRecord ℕ ℕ
call call_id state = record {
  call_id = call_id;
  number = ascii "100";
  state = state;
  transcript = [];
  affect = [];
  goal = none;
  error = none;
  started_ms = 1000;
  ended_ms = none;
  quality = quality;
  disposition = none;
  attempt = 1;
  client_ref = none;
}

abbrev pub turn : TranscriptEntry
turn = record { role = user; text = ascii "hello"; ts_ms = 1500 }

abbrev pub session : SessionOutcome ℕ
session = record { ended_by = remote_close; goal = some 7; transcript = turn ∷ [] }

abbrev pub counters : Counters
counters = record {
  placed = 3;
  completed = 1;
  failed = 0;
  cancelled = 0;
  busy = 0;
  no_answer = 0;
  rejected = 0;
  not_found = 0;
  unavailable = 0;
  voicemail = 0;
  announcement = 0;
  ivr = 0;
  hold = 0;
  underruns = 0;
  starved_ms = 0;
  quality_aborted = 0;
  uplink_received = 0;
  uplink_lost = 0;
}

-- One call in progress, one queued and one that has ended.
abbrev pub records : List (CallRecord ℕ ℕ)
records =
    call (ascii "call-0") in_progress
    ∷ call (ascii "call-1") queued
    ∷ call (ascii "call-2") ended
    ∷ []

abbrev pub shared : Shared ℕ ℕ
shared = record { store = record { inner = records; max_history = 5 }; counters = counters }

abbrev pub waiting : PendingEntry ℕ
waiting = record {
  call_id = ascii "call-1";
  number = ascii "100";
  scenario = 0;
  eligible_at_ms = 2000;
  attempt = 1;
}

abbrev pub later : PendingEntry ℕ
later = record {
  call_id = ascii "call-9";
  number = ascii "200";
  scenario = 0;
  eligible_at_ms = 9000;
  attempt = 1;
}

abbrev pub breaker : Breaker
breaker = record {
  threshold = 2;
  cooldown_ms = 500;
  consec_failures = 2;
  open_until_ms = 3000;
  probe_in_flight = false;
  probe_deadline_ms = 0;
  wake = false;
}

abbrev pub hub : Hub ℕ ℕ ℕ
hub = record { seq = 3; shared = shared; queue = waiting ∷ later ∷ []; breaker = breaker }
