-- ===== src/Lib.antt =====
-- Verification of kutsu, a server that places phone calls for an agent: it dials over SIP, bridges
-- the phone to a Gemini live session, and records how each call ended.
--
-- A call is enqueued (`Enqueuer` in src/engine.rs) with a record in the call store (src/state.rs)
-- and an entry in the queue (src/queue.rs). The dispatcher pops eligible entries while a slot is
-- free and the circuit breaker (src/breaker.rs) lets it, and spawns `run_call`: network preflight
-- (src/net_check.rs), INVITE, ring, the orchestration loop over the bridged call, teardown. Every
-- way out finalizes the record with a disposition and bumps a counter, or requeues the call.
--
-- Base: the libraries' names, Boolean tests, lists over native numbers, u32 and u64 arithmetic,
--   strings as UTF-8 bytes, decimal numerals.
-- Breaker: `Breaker` of src/breaker.rs. Queue: `MemQueue` of src/queue.rs.
-- Outcome: src/sip/outcome.rs and `classify_completion_err` of src/sip/call.rs.
-- Store, Disposition: `CallStore` and `resolve_disposition` of src/state.rs.
-- Uplink: `UplinkStats` of src/sip/uplink.rs.
-- Pace: `Downlink` of src/bridge/pace.rs, `Downsampler` of src/bridge/resample.rs.
-- Bridge: the loop of `run` of src/bridge/mod.rs, Bridge.Listening its uplink task,
--   Bridge.Gain src/bridge/agc.rs. G711: src/bridge/g711.rs.
-- NetCheck: src/net_check.rs; Probe is `preflight` over a socket.
-- Schema: the goal schema of src/config.rs. Sip: `run_call` of src/sip/call.rs, `SipCall::hangup`
--   of src/sip/mod.rs. Mcp: src/mcp.rs, with the task of a call in Task.
-- Config: the sections and defaults of src/config.rs; Variables and Overlay are the environment of
--   src/main_support.rs, Layers is how all is loaded.
-- Http: the routes, guard, metrics page and teardown of src/mcp_http.rs.
-- Vad: src/vad.rs. Gemini: `TranscriptAccumulator` and `run_driver` of src/gemini_live.rs.
-- Engine: src/engine.rs. Gates has its pure decisions, WrapUp the dead-air watchdog, Loop the
--   `select!` of `run_call`, Finish the counters and the teardown, Hub the `Enqueuer`, RunCall the
--   path of one call, Scheduler the dispatcher, `end_call` and the guards.
-- Examples: concrete inputs, and the theorems applied to them.
--
-- How the code is modelled. A component's state is a record and an operation a function on it. The
-- clock is an argument wherever the code reads it. A `select!` is a step function with one clause
-- for each arm, run over any list of events. The tasks of the scheduler interleave by the relation
-- `Engine.Scheduler.Slots.Step`, in which a task may write to the shared store, queue and breaker
-- in any way; a cancel sender that is dropped unsent counts as abandoned. `RunCall.Script` gives what the network, the parties and the clock do during a call.
-- Counters in u64 wrap around; saturating arithmetic is written out. The packet counters of Uplink
-- and the milliseconds of Pace are plain numbers, which a call's length bounds.
--
-- Bounds and fuel: the preflight's loop recurses on the attempts left; the dispatcher's inner loop
-- runs on fuel, of which one more than the queue's length is enough, since each dispatch shortens
-- the queue. Everything else recurses on its input.
--
-- Parameters: f32 arithmetic (`Float`, `Std`, `Floats`, `Stats`, `Audio`, `Energy`), JSON values and
-- the lookup of a goal's `amd` field (but for the goal schema, whose trees are data), the JSON and
-- TOML parsers, the summary text of a probe, `ct_eq` of the crate subtle.
--
-- Not modelled: the set-up of a Gemini session, the audio dumps of the bridge, the putting together
-- of a system instruction, the listener of the HTTP front end, the SIP transport and its user agent,
-- and all input and output.
mod Base
pub mod Breaker
pub mod Queue
pub mod Outcome
pub mod Disposition
pub mod Schema
pub mod Sip
pub mod Store
pub mod Uplink
pub mod Pace
pub mod NetCheck
pub mod G711
pub mod Bridge
pub mod Vad
pub mod Gemini
pub mod Engine
pub mod Mcp
pub mod Http
pub mod Config
pub mod Examples
