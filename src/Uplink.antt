-- ===== src/Uplink.antt =====
-- src/sip/uplink.rs: loss and reorder accounting over the 16-bit RTP sequence numbers.
pub mod Extended
pub mod Missing
use kutsu.Base.{
  ℕ, ◌+◌, ◌-◌, ◌*◌, ◌%◌, ◌≡◌, Bool, true, false, ltb, ◌==◌, if◌then◌else◌, List, [], ◌∷◌,
}

pub record UplinkQuality : Type 0 where
  pub received : ℕ
  pub lost : ℕ
  pub reordered : ℕ

-- The u64 counters are plain numbers: 2 ^ 64 packets do not arrive in a call.
pub record UplinkStats : Type 0 where
  pub started : Bool
  pub cycles : ℕ
  pub max16 : ℕ
  pub first_ext : ℕ
  pub received : ℕ
  pub reordered : ℕ

unfoldable pub new : UplinkStats
new = record { started = false; cycles = 0; max16 = 0; first_ext = 0; received = 0; reordered = 0 }

-- `u16::wrapping_sub`.
abbrev pub wrapping_sub16 : ℕ → ℕ → ℕ
wrapping_sub16 a b = (a + 65536 - b) % 65536

-- `observe` on a stream that has started.
unfoldable pub observe_next : UplinkStats → ℕ → UplinkStats
observe_next s seq =
    let t = record s { received = s.received + 1 } in
    let forward = wrapping_sub16 seq s.max16 in
    if forward == 0
    then t
    else if ltb forward 32768
    then record t { cycles = if ltb seq t.max16 then t.cycles + 1 else t.cycles; max16 = seq }
    else record t { reordered = t.reordered + 1 }

unfoldable pub observe : UplinkStats → ℕ → UplinkStats
unfolding observe_next
observe s seq =
    if s.started
    then observe_next s seq
    else record s { started = true; max16 = seq; first_ext = seq; received = 1 }

-- `saturating_sub` is the truncated `-`; `max_ext` is never below `first_ext`.
unfoldable pub snapshot : UplinkStats → UplinkQuality
snapshot s =
    let max_ext = s.cycles * 65536 + s.max16 in
    let span = max_ext - s.first_ext + 1 in
    if s.started
    then record { received = s.received; lost = span - s.received; reordered = s.reordered }
    else record { received = 0; lost = 0; reordered = 0 }

-- The receive loop of src/sip/call.rs: one `observe` for each packet.
unfoldable pub run : UplinkStats → List ℕ → UplinkStats
run s [] = s
run s (seq ∷ seqs) = run (observe s seq) seqs
